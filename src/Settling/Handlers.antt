-- ===== src/Settling/Handlers.antt =====
-- The handlers of Shim, run without interruption, are runs of the interleaved system.
use palma2pro_eos.Base.{
  ◌≡◌, refl, ◌⊎◌, inl, inr, Bool, true, false, List, [], ◌∷◌, arith, length, Bool-cases,
}
use palma2pro_eos.Base.Int.{ℤ, pos, eqb_ℤ}
use palma2pro_eos.Shim.State.{Upd, Shim, Env, Call, epdc_damage_max}
use palma2pro_eos.Shim.Tunables.{now_ms}
use palma2pro_eos.Shim.Settle.{settle_now, settle_due, settle_round}
use palma2pro_eos.Shim.Settle.Rounds.{sent, settle_now-sent}
use palma2pro_eos.Shim.Commit.{Args, commit}
use palma2pro_eos.Shim.Commit.Drive.{IsSpaced}
use palma2pro_eos.Shim.Commit.Effect.{commit-Effect}
use palma2pro_eos.Settling.{
  outside, Thread, sleeping, System, passes, is_quiet, time_commit, inject, mark, draw, see_pending,
  see_quiet, clear, send, send_fails, Steps, here, next,
}

-- what the interleaved system has of the shim's state, at a time of the clock
abbrev pub view : (now : ℤ) → Shim → Thread → (drawn missed : Bool) → System
view now s thread drawn missed = record {
  now = now;
  last_inject_ms = s.last_inject_ms;
  pending = s.settle_pending;
  commit = outside;
  thread = thread;
  drawn = drawn;
  missed = missed;
}

passes_lem : (interval now last : ℤ) → IsSpaced interval now last → passes interval last now ≡ true
passes_lem interval now last h = ground arith

-- the state behind a commit that drives the panel
driven-Steps :
    (settlems now : ℤ) (interval : ℤ) (s s' : Shim) (thread : Thread) (drawn missed : Bool)
    → s'.settle_pending ≡ true
    → s'.last_inject_ms ≡ now
    → IsSpaced interval now s.last_inject_ms
    → Steps settlems interval (view now s thread drawn missed) (view now s' thread true missed)
driven-Steps settlems now interval s s' thread drawn missed up stamp spaced =
    let s₁ = next here (time_commit refl (passes_lem interval now s.last_inject_ms spaced)) in
    let s₂ = next s₁ (inject now refl) in
    let s₃ = next s₂ (mark refl) in rw (up, stamp) (next s₃ (draw refl))

kept-Steps :
    (settlems now interval : ℤ) (s s' : Shim) (thread : Thread) (drawn missed : Bool)
    → s'.settle_pending ≡ s.settle_pending
    → s'.last_inject_ms ≡ s.last_inject_ms
    → Steps settlems interval (view now s thread drawn missed) (view now s' thread drawn missed)
kept-Steps settlems now interval s s' thread drawn missed up stamp = rw (up, stamp) here

due_lem :
    (e : Env) (s : Shim)
    → settle_due e s ≡ true
    → (eqb_ℤ s.tunables.settlems (pos 0) ≡ false)
      × (s.settle_pending ≡ true)
      × (is_quiet s.tunables.settlems s.last_inject_ms (now_ms e s.symbols) ≡ true)
unfolding settle_due
due_lem e s h = ground arith

settle_now-same :
    (e : Env) (s : Shim)
    → ((settle_now e s).0.last_inject_ms ≡ s.last_inject_ms)
      × ((settle_now e s).0.settle_pending ≡ s.settle_pending)
unfolding settle_now
settle_now-same e s = ground arith

-- The thread's part of the system makes the round, and what has been drawn counts as settled just if
-- an update is sent.
abbrev pub RoundSteps :
    (interval now : ℤ) → Shim → (drawn missed : Bool) → Shim × List Call → Type 0
RoundSteps interval now s drawn missed out =
    (d : Bool) × (m : Bool) × Steps s.tunables.settlems interval (view now s sleeping drawn missed)
      (view now out.0 sleeping d m)
    × (((sent out.1 ≡ []) × (d ≡ drawn)) ⊎ ((u : Upd) × (sent out.1 ≡ u ∷ []) × (d ≡ false)))

round-Steps :
    (e : Env) (s : Shim) (interval : ℤ) (drawn missed : Bool)
    → RoundSteps interval (now_ms e s.symbols) s drawn missed (settle_round e s)
unfolding settle_round sent
round-Steps e s interval drawn missed = elim (Bool-cases (settle_due e s)) [
  | inr early ↦ rw early (drawn, missed, here, inl (refl, refl))
  | inl due ↦
      let (on, up, quiet) = due_lem e s due in
      let t : Shim = record s { settle_pending = false } in
      let (stamp, down) = settle_now-same e t in
      let s₁ = next here (see_pending refl on up) in
      let s₂ = next s₁ (see_quiet refl quiet) in
      let s₃ = next s₂ (clear refl) in
      elim (settle_now-sent e t) [
        | inl nothing ↦
            rw (due, stamp, down) (drawn, true, next s₃ (send_fails refl), inl (nothing, refl))
        | inr one ↦ rw (due, stamp, down) (false, _, next s₃ (send refl), inr (_, one, refl))
      ]
]

-- The commit's part of the system makes the commit.
abbrev pub CommitSteps :
    (settlems : ℤ) → Env → Shim → Thread → (drawn missed : Bool) → Shim → Type 0
CommitSteps settlems e s thread drawn missed s' =
    let now = now_ms e s'.symbols in
    (d : Bool) × Steps settlems s'.tunables.interval (view now s thread drawn missed)
      (view now s' thread d missed)
    × ((d ≡ drawn) ⊎ (d ≡ true))

commit-Steps :
    (settlems : ℤ) (e : Env) (a : Args) (s : Shim) (thread : Thread) (drawn missed : Bool)
    → length s.parms ≡ epdc_damage_max
    → CommitSteps settlems e s thread drawn missed (commit e a s).0
commit-Steps settlems e a s thread drawn missed eight =
    let s' = (commit e a s).0 in
    elim (commit-Effect e a s eight) [
      | inl k ↦
          (drawn, kept-Steps settlems _ _ s s' thread drawn missed k.pending k.stamp, inl refl)
      | inr d ↦ (
        true,
        driven-Steps settlems _ _ s s' thread drawn missed d.pending d.stamp d.spaced,
        inr refl,
      )
    ]

-- With `g_parms` of eight entries: a commit that is not interrupted, whatever the thread has come to,
-- takes the time, the flag and the time of the last injection through steps of the interleaved
-- system from what they are before it to what they are behind it; and so does a round of the settle
-- thread that is not interrupted, with the sending step if it sends an update and otherwise not.
pub handlers-Steps :
    (settlems interval : ℤ) (e : Env) (a : Args) (s : Shim) (thread : Thread) (drawn missed : Bool)
    → length s.parms ≡ epdc_damage_max
    → CommitSteps settlems e s thread drawn missed (commit e a s).0
      × RoundSteps interval (now_ms e s.symbols) s drawn missed (settle_round e s)
handlers-Steps settlems interval e a s thread drawn missed eight =
    (commit-Steps settlems e a s thread drawn missed eight, round-Steps e s interval drawn missed)
