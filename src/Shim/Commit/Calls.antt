-- ===== src/Shim/Commit/Calls.antt =====
-- What leaves the shim during a commit: the composer's own commit, once and last, and before it
-- nothing but updates for planes of that request.
use palma2pro_eos.Base.{
  subst, sym, ℕ, ◌≤◌, ◌≡◌, ◌≢◌, refl, ◌⊎◌, inl, inr, true, not, some, List, [], ◌∷◌, ◌++◌, ◌||◌,
  arith, All, All-imp, All-append, Any, Bool-cases, Option-cases, ◌==◌,
}
use palma2pro_eos.Base.Int.{ℤ, pos, eqb_ℤ}
use palma2pro_eos.Shim.State.{
  Entry, Pend, Shim, Env, Call, real_add, real_commit, open_damage, mmap_damage, create_thread,
  open_ebc, send_update, close_ebc, epdc_damage_max,
}
use palma2pro_eos.Shim.Tunables.{now_ms, resolve, refresh_tunables}
use palma2pro_eos.Shim.Damage.{Read, try_attach, attach_damage, read_damage}
use palma2pro_eos.Shim.Parms.{init_parms, policy}
use palma2pro_eos.Shim.Parms.Panel.{chosen-IsChoice}
use palma2pro_eos.Shim.Lookup.{lookup}
use palma2pro_eos.Shim.Lookup.Cache.{lookup-entry, lookup-grows, get_elem?-Any}
use palma2pro_eos.Shim.Settle.{start_settle_thread}
use palma2pro_eos.Shim.Commit.{
  slot_calls, react, submit, throttled, since_inject, Args, is_test_only, forward, skip_same,
  entry_calls, inject_one, inject, drive, pace, show, commit,
}

-- The property is that of the entry of the object, with the address of the parameters under the one
-- id, or a count that the kernel takes under the other.
abbrev pub IsUpdate : Env → (obj prop value : ℕ) → Entry → Type 0
IsUpdate e obj prop value c =
    (c.obj ≡ obj)
    × (((prop ≡ c.parms_prop) × (value ≡ e.parms_addr))
        ⊎ ((prop ≡ c.cnt_prop) × (1 ≤ value) × (value ≤ epdc_damage_max)))

-- A call that a commit may make before it forwards: an update for a plane of the same request, under
-- an id that the cache has for it; or the set-up of the shim.
abbrev pub IsAllowed : Env → Args → List Pend → List Entry → Call → Type 0
IsAllowed e a ps cs (real_add req obj prop value) =
    (req ≡ a.req) × Any (λ p. p.obj ≡ obj) ps × (prop ≢ 0) × Any (IsUpdate e obj prop value) cs
IsAllowed e a ps cs open_damage = Unit
IsAllowed e a ps cs (mmap_damage fd) = Unit
IsAllowed e a ps cs create_thread = Unit
IsAllowed e a ps cs (real_commit _ _ _ _) = ⊥
IsAllowed e a ps cs open_ebc = ⊥
IsAllowed e a ps cs (send_update _ _) = ⊥
IsAllowed e a ps cs (close_ebc _) = ⊥

-- The outcome of a commit whose request holds the objects `ps`.
pub record Forwards (e : Env) (a : Args) (ps : List Pend) (out : Shim × List Call × ℤ)
    : Type 0 where
  pub before : List Call
  pub allowed : All (IsAllowed e a ps out.0.cache) before
  pub last : out.1 ≡ before ++ real_commit a.fd a.req a.flags a.user ∷ []
  pub cleared : out.0.pend ≡ []
  pub returned : out.2 ≡ e.commit_rc

module _ (e : Env) (a : Args) where
  forward-Forwards :
      (ps : List Pend) (s : Shim) (calls : List Call)
      → All (IsAllowed e a ps s.cache) calls
      → Forwards e a ps (forward e a s calls)
  unfolding forward
  forward-Forwards ps s calls ok = record {
    before = calls;
    allowed = ok;
    last = refl;
    cleared = refl;
    returned = refl;
  }

  attach_damage-IsAllowed :
      (ps : List Pend) (cs : List Entry) (s : Shim)
      → All (IsAllowed e a ps cs) (attach_damage e s).1
  unfolding attach_damage try_attach
  attach_damage-IsAllowed ps cs s = ground arith

  start_settle_thread-IsAllowed :
      (ps : List Pend) (cs : List Entry) (s : Shim)
      → All (IsAllowed e a ps cs) (start_settle_thread s).1
  unfolding start_settle_thread
  start_settle_thread-IsAllowed ps cs s = ground arith

  module _ (n : ℕ) (pos_n : 1 ≤ n) (few : n ≤ epdc_damage_max) where
    entry_calls-IsAllowed :
        (ps : List Pend) (cs : List Entry) (obj : ℕ) (c : Entry)
        → Any (λ p. p.obj ≡ obj) ps
        → c.obj ≡ obj
        → ((P : Entry → Type 0) → P c → Any P cs)
        → All (IsAllowed e a ps cs) (entry_calls e a.req obj n (some c))
    unfolding entry_calls
    entry_calls-IsAllowed ps cs obj c here same there =
        elim (Bool-cases (c.parms_prop == 0 || c.cnt_prop == 0)) [
          | inl skip ↦ rw skip tt
          | inr set ↦ rw set (
            (
              refl,
              here,
              ground arith,
              there (IsUpdate e obj c.parms_prop e.parms_addr) (same, inl (refl, refl)),
            ),
            (
              (
                refl,
                here,
                ground arith,
                there (IsUpdate e obj c.cnt_prop n) (same, inr (refl, pos_n, few)),
              ),
              tt,
            ),
          )
        ]

    slot_calls-IsAllowed :
        (ps : List Pend) (cs : List Entry) (obj : ℕ) (s : Shim)
        → Any (λ p. p.obj ≡ obj) ps
        → ((P : Entry → Type 0) → Any P (lookup e obj s).1.cache → Any P cs)
        → All
            (IsAllowed e a ps cs)
            (slot_calls e a.req obj n (lookup e obj s).1.cache (lookup e obj s).0)
    unfolding slot_calls
    slot_calls-IsAllowed ps cs obj s here grow = elim (Option-cases (lookup e obj s).0) [
      | inl n ↦ rw n tt
      | inr (i, h) ↦
          let (c, found, same) = lookup-entry e obj s i h in
          rw (h, found)
            (entry_calls-IsAllowed ps cs obj c here same
              (λ P p. grow P (get_elem?-Any P (lookup e obj s).1.cache i c found p)))
    ]

    inject-grows :
        (qs : List Pend) (s : Shim) (P : Entry → Type 0)
        → Any P s.cache
        → Any P (inject e a.req n qs s).0.cache
    unfolding inject inject_one
    inject-grows [] s P h = h
    inject-grows (q ∷ qs) s P h =
        inject-grows qs (lookup e q.obj s).1 P (lookup-grows e q.obj s P h)

    inject-IsAllowed :
        (ps qs : List Pend) (s : Shim)
        → All (λ q. Any (λ p. p.obj ≡ q.obj) ps) qs
        → All (IsAllowed e a ps (inject e a.req n qs s).0.cache) (inject e a.req n qs s).1
    unfolding inject inject_one
    inject-IsAllowed ps [] s here = tt
    inject-IsAllowed ps (q ∷ qs) s here =
        let s₁ = (lookup e q.obj s).1 in
        let cs = (inject e a.req n qs s₁).0.cache in
        All-append (IsAllowed e a ps cs) _ (inject e a.req n qs s₁).1
          (slot_calls-IsAllowed ps cs q.obj s here.0 (inject-grows qs s₁))
          (inject-IsAllowed ps qs s₁ here.1)

-- Every object of a list is there, also behind further ones.
All-there : (ps : List Pend) → All (λ q. Any (λ p. p.obj ≡ q.obj) ps) ps
All-there [] = tt
All-there (p ∷ ps) = (
  inl refl,
  All-imp (λ q. Any (λ r. r.obj ≡ q.obj) ps) (λ q. Any (λ r. r.obj ≡ q.obj) (p ∷ ps)) (λ q h. inr h)
      ps (All-there ps),
)

start_settle_thread-pend : (s : Shim) → (start_settle_thread s).0.pend ≡ s.pend
unfolding start_settle_thread
start_settle_thread-pend s = ground arith

module _ (e : Env) (a : Args) where
  submit-Forwards :
      (n : ℕ) (s : Shim) (calls : List Call)
      → 1 ≤ n
      → n ≤ epdc_damage_max
      → ((cs : List Entry) → All (IsAllowed e a s.pend cs) calls)
      → Forwards e a s.pend (submit e a n s calls)
  unfolding submit
  submit-Forwards n s calls pos_n few ok =
      let s₀ : Shim = record s { settle_pending = true } in
      let s₁ = start_settle_thread s₀ in
      let s₂ = inject e a.req n s₁.0.pend s₁.0 in
      forward-Forwards e a s.pend s₂.0 (calls ++ (s₁.1 ++ s₂.1)) (
        All-append (IsAllowed e a s.pend s₂.0.cache) calls _ (ok s₂.0.cache) (
          All-append (IsAllowed e a s.pend s₂.0.cache) s₁.1 _
            (start_settle_thread-IsAllowed e a s.pend s₂.0.cache s₀)
            (inject-IsAllowed e a n pos_n few s.pend s₁.0.pend s₁.0
              (rw (start_settle_thread-pend s₀) (All-there s.pend)))))

  drive-Forwards :
      (r : Read) (dt : ℤ) (s : Shim) (calls : List Call)
      → ((cs : List Entry) → All (IsAllowed e a s.pend cs) calls)
      → Forwards e a s.pend (drive e a r dt s calls)
  unfolding drive init_parms
  drive-Forwards r dt s calls ok =
      let c =
        chosen-IsChoice
          (policy s.tunables s.updates_since_full dt (not (eqb_ℤ r.full (pos 0)))).force_full
          r.rects in
      submit-Forwards _ _ calls c.some_left c.few ok

  pace-Forwards :
      (r : Read) (s : Shim) (calls : List Call)
      → ((cs : List Entry) → All (IsAllowed e a s.pend cs) calls)
      → Forwards e a s.pend (pace e a r s calls)
  unfolding pace
  pace-Forwards r s calls ok =
      let t = now_ms e s.symbols in
      let dt = since_inject t s.last_inject_ms in
      elim (Bool-cases (throttled s dt)) [
        | inl wait ↦ rw wait (forward-Forwards e a s.pend s calls (ok s.cache))
        | inr go ↦ rw go (drive-Forwards r dt (record s { last_inject_ms = t }) calls ok)
      ]

  skip_same-pend : (r : Read) (s : Shim) → (skip_same r s).1.pend ≡ s.pend
  unfolding skip_same
  skip_same-pend r s = ground arith

  attach_damage-pend : (s : Shim) → (attach_damage e s).0.pend ≡ s.pend
  unfolding attach_damage try_attach
  attach_damage-pend s = ground arith

  react-Forwards :
      (r : Read) (s : Shim) (calls : List Call)
      → ((cs : List Entry) → All (IsAllowed e a s.pend cs) calls)
      → Forwards e a s.pend (react e a r s calls)
  unfolding react
  react-Forwards r s calls ok =
      let same_pend = skip_same-pend r s in
      let ok₁ =
        subst (λ ps. (cs : List Entry) → All (IsAllowed e a ps cs) calls) (sym same_pend) ok in
      subst (λ ps. Forwards e a ps (react e a r s calls)) same_pend
        (elim (Bool-cases (skip_same r s).0) [
          | inl same ↦ rw same (
              forward-Forwards e a (skip_same r s).1.pend (skip_same r s).1 calls
                (ok₁ (skip_same r s).1.cache))
          | inr new ↦ rw new (pace-Forwards r (skip_same r s).1 calls ok₁)
        ])

  show-Forwards : (s : Shim) → Forwards e a s.pend (show e a s)
  unfolding show
  show-Forwards s =
      subst (λ ps. Forwards e a ps (show e a s)) (attach_damage-pend s)
        (react-Forwards (read_damage e (attach_damage e s).0) _ (attach_damage e s).1
          (λ cs. attach_damage-IsAllowed e a (attach_damage e s).0.pend cs s))

  refresh_tunables-pend : (s : Shim) → (refresh_tunables e (resolve e s)).pend ≡ s.pend
  unfolding refresh_tunables resolve
  refresh_tunables-pend s = ground arith

  -- On every branch a commit clears the pending objects, calls the real commit exactly once, as its
  -- last call and with its own arguments, and returns its result. Before that it only sets up the
  -- shim, or adds a property with an id other than 0 to an object that the composer put in this
  -- request: the address of the parameters under the first of the two ids that the cache then has for
  -- this object, or a count from one to eight under the second.
  pub commit-Forwards : (s : Shim) → Forwards e a s.pend (commit e a s)
  unfolding commit
  commit-Forwards s =
      let s₁ = refresh_tunables e (resolve e s) in
      subst (λ ps. Forwards e a ps (commit e a s)) (refresh_tunables-pend s)
        (elim (Bool-cases (is_test_only a.flags || eqb_ℤ s₁.tunables.enable (pos 0))) [
          | inl off ↦ rw off (forward-Forwards e a s₁.pend s₁ [] tt)
          | inr on ↦ rw on (show-Forwards s₁)
        ])
