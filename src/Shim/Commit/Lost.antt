-- ===== src/Shim/Commit/Lost.antt =====
-- A frame whose commit is throttled is not shown by a later commit: the test for a new sequence
-- number stands before the test of the interval, and has already taken the number.
use palma2pro_eos.Base.{
  sym, ◌∙◌, ℕ, ◌≡◌, ◌≢◌, refl, inl, inr, true, false, ◌||◌, List, [], ◌∷◌, ◌++◌, arith, All,
  All-append, Bool-cases,
}
use palma2pro_eos.Base.Int.{ℤ, pos, eqb_ℤ}
use palma2pro_eos.Shim.State.{Shim, Env, Call}
use palma2pro_eos.Shim.Tunables.{now_ms, resolve, refresh_tunables}
use palma2pro_eos.Shim.Damage.{Read, attach_damage, read_damage, attempts, accepts, accepted}
use palma2pro_eos.Shim.Commit.{
  Args, is_test_only, forward, skip_same, pace, react, show, commit, throttled, since_inject,
}
use palma2pro_eos.Shim.Commit.Drive.{IsQuiet, forward-IsKept}

-- the state in which a commit tests its flags
abbrev pub refreshed : Env → Shim → Shim
refreshed e s = refresh_tunables e (resolve e s)

pub refreshed-attached : (e : Env) (s : Shim) → (refreshed e s).attached ≡ s.attached
unfolding refresh_tunables resolve
refreshed-attached e s = ground arith

pub refreshed-last : (e : Env) (s : Shim) → (refreshed e s).last_dmg_seq ≡ s.last_dmg_seq
unfolding refresh_tunables resolve
refreshed-last e s = ground arith

module _ (e : Env) (a : Args) where
  pub show-attached :
      (s : Shim)
      → s.attached ≡ true
      → show e a s
        ≡ react e a
            (read_damage e s)
            (record s { last_dmg_seq = (read_damage e s).last_dmg_seq })
            []
  unfolding show attach_damage
  show-attached s h = rw (h, attach_damage)

  react-unchanged :
      (r : Read) (s : Shim)
      → s.attached ≡ true
      → r.changed ≡ false
      → react e a r s [] ≡ forward e a s []
  unfolding react skip_same
  react-unchanged r s h c = simp (h, c)

  react-throttled :
      (r : Read) (s : Shim)
      → s.attached ≡ true
      → r.changed ≡ true
      → throttled s (since_inject (now_ms e s.symbols) s.last_inject_ms) ≡ true
      → react e a r s [] ≡ forward e a s []
  unfolding react skip_same pace
  react-throttled r s h c t = simp (h, c, t)

  -- a real commit of an enabled shim that is attached
  pub commit-attached :
      (s : Shim)
      → is_test_only a.flags ≡ false
      → (refreshed e s).tunables.enable ≢ pos 0
      → s.attached ≡ true
      → let s₁ = refreshed e s in
        let r = read_damage e s₁ in
        commit e a s ≡ react e a r (record s₁ { last_dmg_seq = r.last_dmg_seq }) []
  unfolding commit
  commit-attached s real on h =
      let on' : eqb_ℤ (refreshed e s).tunables.enable (pos 0) ≡ false = ground arith in
      simp (real, on') (show-attached (refreshed e s) (refreshed-attached e s ∙ h))

-- The first attempt succeeds, and meets the sequence number that is known.
accepted-known :
    (e : Env) (s : Shim)
    → s.attached ≡ true
    → accepts (e.attempt 0) ≡ true
    → (e.attempt 0).s1 ≡ s.last_dmg_seq
    → ((read_damage e s).changed ≡ false) × ((read_damage e s).last_dmg_seq ≡ s.last_dmg_seq)
unfolding read_damage attempts accepted
accepted-known e s h ok known = ground arith

-- The calls add nothing, the parameters of the next update are those of `s`, and the shim stays
-- attached, at the sequence number `n`.
pub record IsSilent (n : ℕ) (s : Shim) (out : Shim × List Call) : Type 0 where
  pub quiet : All IsQuiet out.1
  pub parms : out.0.parms ≡ s.parms
  pub attached : out.0.attached ≡ true
  pub last : out.0.last_dmg_seq ≡ n

forward-IsSilent :
    (e : Env) (a : Args) (n : ℕ) (s t : Shim) (out : Shim × List Call × ℤ)
    → out ≡ forward e a t []
    → t.parms ≡ s.parms
    → t.attached ≡ true
    → t.last_dmg_seq ≡ n
    → IsSilent n s (out.0, out.1)
unfolding forward
forward-IsSilent e a n s t out h same there last =
    let k = forward-IsKept e a t [] tt in
    rw h (record { quiet = k.quiet; parms = k.parms ∙ same; attached = there; last = last })

pub refreshed-parms : (e : Env) (s : Shim) → (refreshed e s).parms ≡ s.parms
unfolding refresh_tunables resolve
refreshed-parms e s = ground arith

-- A commit that meets the known sequence number adds nothing, whatever else it finds.
known-IsSilent :
    (e : Env) (a : Args) (n : ℕ) (s : Shim)
    → s.attached ≡ true
    → s.last_dmg_seq ≡ n
    → accepts (e.attempt 0) ≡ true
    → (e.attempt 0).s1 ≡ n
    → IsSilent n s ((commit e a s).0, (commit e a s).1)
unfolding commit
known-IsSilent e a n s h at ok known =
    let s₁ = refreshed e s in
    let h₁ = refreshed-attached e s ∙ h in
    let at₁ = refreshed-last e s ∙ at in
    elim (Bool-cases (is_test_only a.flags || eqb_ℤ s₁.tunables.enable (pos 0))) [
      | inl off ↦ rw off (forward-IsSilent e a n s s₁ _ refl (refreshed-parms e s) h₁ at₁)
      | inr on ↦
          let r = accepted-known e s₁ h₁ ok (known ∙ sym at₁) in
          rw on (
            forward-IsSilent e a n s (record s₁ { last_dmg_seq = (read_damage e s₁).last_dmg_seq })
              _ (show-attached e a s₁ h₁ ∙ react-unchanged e a (read_damage e s₁) _ h₁ r.0)
              (refreshed-parms e s) h₁ (r.1 ∙ at₁))
    ]

-- Commits one after the other, with all their calls.
pub run_commits : List (Env × Args) → Shim → Shim × List Call
run_commits [] s = (s, [])
run_commits ((e, a) ∷ rest) s =
    let (s₁, calls, rc) = commit e a s in
    let (s₂, more) = run_commits rest s₁ in (s₂, calls ++ more)

-- every commit of the list finds the writer at rest, at sequence number `n`
abbrev pub Finds : ℕ → Env × Args → Type 0
Finds n (e, a) = (accepts (e.attempt 0) ≡ true) × ((e.attempt 0).s1 ≡ n)

run_commits-IsSilent :
    (n : ℕ) (later : List (Env × Args)) (s : Shim)
    → s.attached ≡ true
    → s.last_dmg_seq ≡ n
    → All (Finds n) later
    → IsSilent n s (run_commits later s)
unfolding run_commits
run_commits-IsSilent n [] s h at all = record { quiet = tt; parms = refl; attached = h; last = at }
run_commits-IsSilent n ((e, a) ∷ rest) s h at all =
    let k = known-IsSilent e a n s h at all.0.0 all.0.1 in
    let m = run_commits-IsSilent n rest (commit e a s).0 k.attached k.last all.1 in
    record {
      quiet = All-append IsQuiet (commit e a s).1 _ k.quiet m.quiet;
      parms = m.parms ∙ k.parms;
      attached = m.attached;
      last = m.last;
    }

-- The shim is enabled and attached to SurfaceFlinger's damage, a commit that is no validation pass
-- meets new damage, and the interval has not passed. Then neither that commit nor any further ones,
-- however late, that still find the same sequence number add an update to a request, and the
-- parameters stay as they were: the damage is dropped, not delayed.
pub throttled_damage-lost :
    (e : Env) (a : Args) (s : Shim) (later : List (Env × Args))
    → s.attached ≡ true
    → is_test_only a.flags ≡ false
    → (refreshed e s).tunables.enable ≢ pos 0
    → (read_damage e (refreshed e s)).changed ≡ true
    → throttled
        (refreshed e s)
        (since_inject (now_ms e (refreshed e s).symbols) (refreshed e s).last_inject_ms)
      ≡ true
    → All (Finds (read_damage e (refreshed e s)).last_dmg_seq) later
    → IsSilent (read_damage e (refreshed e s)).last_dmg_seq s (run_commits ((e, a) ∷ later) s)
unfolding run_commits throttled
throttled_damage-lost e a s later h real on fresh wait all = record {
  quiet = All-append IsQuiet (commit e a s).1 _ now.quiet m.quiet;
  parms = m.parms ∙ now.parms;
  attached = m.attached;
  last = m.last;
}
  where
    s₁ : Shim
    s₁ = refreshed e s

    n : ℕ
    n = (read_damage e s₁).last_dmg_seq

    t : Shim
    t = record s₁ { last_dmg_seq = n }

    now : IsSilent n s ((commit e a s).0, (commit e a s).1)
    now =
        forward-IsSilent e a n s t (commit e a s)
          (commit-attached e a s real on h
            ∙ react-throttled e a (read_damage e s₁) t (refreshed-attached e s ∙ h) fresh wait)
          (refreshed-parms e s) (refreshed-attached e s ∙ h) refl

    m : IsSilent n (commit e a s).0 (run_commits later (commit e a s).0)
    m = run_commits-IsSilent n later (commit e a s).0 now.attached now.last all
