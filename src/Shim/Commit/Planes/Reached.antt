-- ===== src/Shim/Commit/Planes/Reached.antt =====
-- A commit that drives the panel reaches the planes of its request.
use palma2pro_eos.Base.{
  ℕ, ◌≤◌, ◌≡◌, ◌≢◌, refl, sym, subst, ◌∙◌, ◌⊎◌, inl, inr, true, ◌||◌, not, List, [], ◌++◌, arith,
  length, All, Any, Bool-cases,
}
use palma2pro_eos.Base.Int.{ℤ, pos, eqb_ℤ}
use palma2pro_eos.Shim.State.{Shim, Env, Call, epdc_damage_max}
use palma2pro_eos.Shim.Tunables.{now_ms}
use palma2pro_eos.Shim.Damage.{Read, try_attach, attach_damage, read_damage}
use palma2pro_eos.Shim.Parms.{policy, init_parms}
use palma2pro_eos.Shim.Parms.Panel.{chosen-IsChoice}
use palma2pro_eos.Shim.Settle.{start_settle_thread}
use palma2pro_eos.Shim.Commit.{
  Args, is_test_only, forward, skip_same, inject, submit, drive, pace, react, show, commit,
  throttled, since_inject,
}
use palma2pro_eos.Shim.Commit.Drive.{IsQuiet, IsKept, IsDriven, forward-IsKept}
use palma2pro_eos.Shim.Commit.Lost.{refreshed}
use palma2pro_eos.Shim.Commit.Same.{refreshed-pend}
use palma2pro_eos.Shim.Commit.Effect.{
  SameEarly, skip_same-SameEarly, attach_damage-SameEarly, attach_damage-IsQuiet, refresh-SameEarly,
  IsKept-move, commit-Effect,
}
use palma2pro_eos.Shim.Commit.Planes.{Adds, Adds-behind, Adds-before, Ready, inject-Adds}

-- what a commit looks at to find the planes
pub record SamePlanes (s t : Shim) : Type 0 where
  pub pend : t.pend ≡ s.pend
  pub cache : t.cache ≡ s.cache
  pub symbols : t.symbols ≡ s.symbols

-- The commit ends by submitting `count` entries for the planes of `s`.
record Submits (e : Env) (a : Args) (s : Shim) (out : Shim × List Call × ℤ) : Type 0 where
  count : ℕ
  state : Shim
  calls : List Call
  submitted : out ≡ submit e a count state calls
  low : 1 ≤ count
  high : count ≤ epdc_damage_max
  same : SamePlanes s state

Submits-move :
    (e : Env) (a : Args) (s t : Shim) (out : Shim × List Call × ℤ)
    → SamePlanes s t
    → Submits e a t out
    → Submits e a s out
Submits-move e a s t out f h = record {
  count = h.count;
  state = h.state;
  calls = h.calls;
  submitted = h.submitted;
  low = h.low;
  high = h.high;
  same = record {
    pend = h.same.pend ∙ f.pend;
    cache = h.same.cache ∙ f.cache;
    symbols = h.same.symbols ∙ f.symbols;
  };
}

skip_same-SamePlanes : (r : Read) (s : Shim) → SamePlanes s (skip_same r s).1
unfolding skip_same
skip_same-SamePlanes r s = ground arith

attach_damage-SamePlanes : (e : Env) (s : Shim) → SamePlanes s (attach_damage e s).0
unfolding attach_damage try_attach
attach_damage-SamePlanes e s = ground arith

start_settle_thread-SamePlanes : (s : Shim) → SamePlanes s (start_settle_thread s).0
unfolding start_settle_thread
start_settle_thread-SamePlanes s = ground arith

module _ (e : Env) (a : Args) where
  drive-Submits :
      (r : Read) (dt : ℤ) (s : Shim) (calls : List Call) → Submits e a s (drive e a r dt s calls)
  unfolding drive init_parms
  drive-Submits r dt s calls =
      let p = policy s.tunables s.updates_since_full dt (not (eqb_ℤ r.full (pos 0))) in
      let c = chosen-IsChoice p.force_full r.rects in
      record {
        count = _;
        state = _;
        calls = calls;
        submitted = refl;
        low = c.some_left;
        high = c.few;
        same = record { pend = refl; cache = refl; symbols = refl };
      }

  pace-Submits :
      (r : Read) (s : Shim) (calls : List Call)
      → All IsQuiet calls
      → IsKept s (pace e a r s calls) ⊎ Submits e a s (pace e a r s calls)
  unfolding pace
  pace-Submits r s calls q =
      let now = now_ms e s.symbols in
      elim (Bool-cases (throttled s (since_inject now s.last_inject_ms))) [
        | inl wait ↦ rw wait (inl (forward-IsKept e a s calls q))
        | inr go ↦ rw go (
            inr (
              Submits-move e a s (record s { last_inject_ms = now }) _
                (record { pend = refl; cache = refl; symbols = refl })
                (drive-Submits r _ (record s { last_inject_ms = now }) calls)))
      ]

  moved :
      (s t : Shim) (out : Shim × List Call × ℤ)
      → SameEarly s t
      → SamePlanes s t
      → IsKept t out ⊎ Submits e a t out
      → IsKept s out ⊎ Submits e a s out
  moved s t out f g (inl k) = inl (IsKept-move s t out f k)
  moved s t out f g (inr h) = inr (Submits-move e a s t out g h)

  react-Submits :
      (r : Read) (s : Shim) (calls : List Call)
      → All IsQuiet calls
      → IsKept s (react e a r s calls) ⊎ Submits e a s (react e a r s calls)
  unfolding react
  react-Submits r s calls q =
      let s₁ = (skip_same r s).1 in
      moved s s₁ _ (skip_same-SameEarly r s) (skip_same-SamePlanes r s)
        (elim (Bool-cases (skip_same r s).0) [
          | inl same ↦ rw same (inl (forward-IsKept e a s₁ calls q))
          | inr new ↦ rw new (pace-Submits r s₁ calls q)
        ])

  show-Submits : (s : Shim) → IsKept s (show e a s) ⊎ Submits e a s (show e a s)
  unfolding show
  show-Submits s =
      let s₁ = (attach_damage e s).0 in
      let f = attach_damage-SameEarly e s in
      let g = attach_damage-SamePlanes e s in
      let r = read_damage e s₁ in
      let t : Shim = record s₁ { last_dmg_seq = r.last_dmg_seq } in
      moved s t _
        (record { parms = f.parms; stamp = f.stamp; cache = f.cache; pending = f.pending })
        (record { pend = g.pend; cache = g.cache; symbols = g.symbols })
        (react-Submits r t (attach_damage e s).1 (attach_damage-IsQuiet e s))

  commit-Submits : (s : Shim) → IsKept s (commit e a s) ⊎ Submits e a (refreshed e s) (commit e a s)
  unfolding commit
  commit-Submits s =
      let s₁ = refreshed e s in
      let f = refresh-SameEarly e s in
      elim (Bool-cases (is_test_only a.flags || eqb_ℤ s₁.tunables.enable (pos 0))) [
        | inl off ↦ rw off (inl (IsKept-move s s₁ _ f (forward-IsKept e a s₁ [] tt)))
        | inr on ↦
            rw on (elim (show-Submits s₁) [ inl k ↦ inl (IsKept-move s s₁ _ f k) | inr h ↦ inr h ])
      ]

  module _ (obj parms cnt : ℕ) (some_parms : parms ≢ 0) (some_cnt : cnt ≢ 0) where
    pub submit-Adds :
        (n : ℕ) (s : Shim) (calls : List Call)
        → Any (λ p. p.obj ≡ obj) s.pend
        → Ready e obj parms cnt (length s.pend) s.cache s.symbols
        → Adds e a.req obj parms cnt n (submit e a n s calls).1
    unfolding submit forward
    submit-Adds n s calls here ready =
        let s₀ : Shim = record s { settle_pending = true } in
        let s₁ = (start_settle_thread s₀).0 in
        let started = (start_settle_thread s₀).1 in
        let g = start_settle_thread-SamePlanes s₀ in
        let added = (inject e a.req n s₁.pend s₁).1 in
        let there : Adds e a.req obj parms cnt n added =
          inject-Adds e a.req n obj parms cnt some_parms some_cnt s₁.pend s₁
            (subst (λ ps. Any (λ p. p.obj ≡ obj) ps) (sym g.pend) here)
            (rw (g.pend, g.cache, g.symbols) ready) in
        Adds-before e a.req obj parms cnt n _ (
          Adds-behind e a.req obj parms cnt n calls (started ++ added)
            (Adds-behind e a.req obj parms cnt n started added there))

    -- A plane is among the objects of the request, the shim has its two ids, which are not 0, or
    -- can learn them: the object is new, libdrm answers that it has properties of the two names,
    -- each with one id, the two functions of libdrm are found, and the cache has room for the
    -- objects of the request. Then a commit with `g_parms` of eight entries has one of two effects.
    -- Either it adds nothing to the request and leaves the parameters, the time of the last
    -- injection, the cache and the flag of the settle thread as they were; or it gives the plane
    -- the address of the parameters and right behind it a count from one to eight, it is no
    -- validation pass, the shim is enabled, the marker is advanced by one, the settle flag set, the
    -- time stamped, and the interval since the last injection has passed.
    pub commit-Adds :
        (s : Shim)
        → length s.parms ≡ epdc_damage_max
        → Any (λ p. p.obj ≡ obj) s.pend
        → Ready e obj parms cnt (length s.pend) s.cache (refreshed e s).symbols
        → IsKept s (commit e a s)
          ⊎ (IsDriven e a s (commit e a s).0
              × (n : ℕ) × (1 ≤ n)
              × (n ≤ epdc_damage_max)
              × Adds e a.req obj parms cnt n (commit e a s).1)
    commit-Adds s eight here ready = elim (commit-Submits s) [
      | inl k ↦ inl k
      | inr h ↦ elim (commit-Effect e a s eight) [
        | inl k ↦ inl k
        | inr d ↦
            let pend : h.state.pend ≡ s.pend = h.same.pend ∙ refreshed-pend e s in
            let cache : h.state.cache ≡ s.cache = h.same.cache ∙ (refresh-SameEarly e s).cache in
            inr (
              d,
              h.count,
              h.low,
              h.high,
              subst (λ (out : Shim × List Call × ℤ). Adds e a.req obj parms cnt h.count out.1)
                  (sym h.submitted)
                  (submit-Adds h.count h.state h.calls
                    (subst (λ ps. Any (λ p. p.obj ≡ obj) ps) (sym pend) here)
                    (rw (pend, cache, h.same.symbols) ready)),
            )
      ]
    ]
