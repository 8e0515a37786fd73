-- ===== src/Shim/Commit/Effect.antt =====
-- A commit either leaves the panel alone, or drives it once.
use palma2pro_eos.Base.{
  ap, ◌∙◌, ◌≡◌, ◌≢◌, ◌⊎◌, inl, inr, false, ◌||◌, List, [], arith, length, All, Bool-cases,
}
use palma2pro_eos.Base.Int.{ℤ, pos, int32, ◌+ℤ◌, eqb_ℤ}
use palma2pro_eos.Shim.State.{Shim, Env, Call, epdc_damage_max}
use palma2pro_eos.Shim.Tunables.{resolve, refresh_tunables}
use palma2pro_eos.Shim.Damage.{Read, try_attach, attach_damage, read_damage}
use palma2pro_eos.Shim.Parms.{marker_of}
use palma2pro_eos.Shim.Commit.{Args, is_test_only, skip_same, react, show, commit}
use palma2pro_eos.Shim.Commit.Drive.{IsQuiet, IsKept, IsDriven, forward-IsKept, pace-Effect}

-- what the tests before the clock leave alone
pub record SameEarly (s s' : Shim) : Type 0 where
  pub parms : s'.parms ≡ s.parms
  pub stamp : s'.last_inject_ms ≡ s.last_inject_ms
  pub cache : s'.cache ≡ s.cache
  pub pending : s'.settle_pending ≡ s.settle_pending

pub skip_same-SameEarly : (r : Read) (s : Shim) → SameEarly s (skip_same r s).1
unfolding skip_same
skip_same-SameEarly r s = ground arith

skip_same-tunables : (r : Read) (s : Shim) → (skip_same r s).1.tunables ≡ s.tunables
unfolding skip_same
skip_same-tunables r s = ground arith

pub attach_damage-SameEarly : (e : Env) (s : Shim) → SameEarly s (attach_damage e s).0
unfolding attach_damage try_attach
attach_damage-SameEarly e s = ground arith

attach_damage-tunables : (e : Env) (s : Shim) → (attach_damage e s).0.tunables ≡ s.tunables
unfolding attach_damage try_attach
attach_damage-tunables e s = ground arith

pub attach_damage-IsQuiet : (e : Env) (s : Shim) → All IsQuiet (attach_damage e s).1
unfolding attach_damage try_attach
attach_damage-IsQuiet e s = ground arith

pub refresh-SameEarly : (e : Env) (s : Shim) → SameEarly s (refresh_tunables e (resolve e s))
unfolding refresh_tunables resolve
refresh-SameEarly e s = ground arith

pub IsKept-move :
    (s t : Shim) (out : Shim × List Call × ℤ) → SameEarly s t → IsKept t out → IsKept s out
IsKept-move s t out f k = record {
  quiet = k.quiet;
  parms = k.parms ∙ f.parms;
  stamp = k.stamp ∙ f.stamp;
  cache = k.cache ∙ f.cache;
  pending = k.pending ∙ f.pending;
}

-- The effect of a call on `s`, if it is the effect on a state that agrees with `s`.
move :
    (e : Env) (a : Args) (s t : Shim) (out : Shim × List Call × ℤ)
    → SameEarly s t
    → IsKept t out ⊎ IsDriven e a t out.0
    → IsKept s out ⊎ IsDriven e a s out.0
move e a s t out f (inl k) = inl (IsKept-move s t out f k)
move e a s t out f (inr d) = inr (record {
  real = d.real;
  enabled = d.enabled;
  marker = d.marker ∙ ap (λ ps. int32 (marker_of ps +ℤ pos 1)) f.parms;
  pending = d.pending;
  stamp = d.stamp;
  spaced = rw f.stamp at d.spaced;
})

module _ (e : Env) (a : Args) where
  react-Effect :
      is_test_only a.flags ≡ false
      → (r : Read) (s : Shim) (calls : List Call) → All IsQuiet calls
      → s.tunables.enable ≢ pos 0
      → length s.parms ≡ epdc_damage_max
      → IsKept s (react e a r s calls) ⊎ IsDriven e a s (react e a r s calls).0
  unfolding react
  react-Effect real r s calls q on eight =
      let s₁ = (skip_same r s).1 in
      let f = skip_same-SameEarly r s in
      move e a s s₁ _ f (elim (Bool-cases (skip_same r s).0) [
        | inl same ↦ rw same (inl (forward-IsKept e a s₁ calls q))
        | inr new ↦
            rw new (
              pace-Effect e a real r s₁ calls q (rw (skip_same-tunables r s) on) (rw f.parms eight))
      ])

  show-Effect :
      is_test_only a.flags ≡ false
      → (s : Shim) → s.tunables.enable ≢ pos 0
      → length s.parms ≡ epdc_damage_max
      → IsKept s (show e a s) ⊎ IsDriven e a s (show e a s).0
  unfolding show
  show-Effect real s on eight =
      let s₁ = (attach_damage e s).0 in
      let f = attach_damage-SameEarly e s in
      let r = read_damage e s₁ in
      move e a s (record s₁ { last_dmg_seq = r.last_dmg_seq }) _
        (record { parms = f.parms; stamp = f.stamp; cache = f.cache; pending = f.pending })
        (react-Effect real r (record s₁ { last_dmg_seq = r.last_dmg_seq }) (attach_damage e s).1
          (attach_damage-IsQuiet e s) (rw (attach_damage-tunables e s) on) (rw f.parms eight))

  -- A commit with `g_parms` of eight entries has one of two effects. Either it adds nothing to the
  -- request and leaves the parameters, the time of the last injection, the cache and the flag of
  -- the settle thread as they were; or it is no validation pass, the shim is enabled, the marker is
  -- advanced by one, the settle flag set, the time stamped, and the interval since the last
  -- injection has passed.
  pub commit-Effect :
      (s : Shim)
      → length s.parms ≡ epdc_damage_max
      → IsKept s (commit e a s) ⊎ IsDriven e a s (commit e a s).0
  unfolding commit
  commit-Effect s eight =
      let s₁ = refresh_tunables e (resolve e s) in
      let f = refresh-SameEarly e s in
      move e a s s₁ _ f
        (elim (Bool-cases (is_test_only a.flags || eqb_ℤ s₁.tunables.enable (pos 0))) [
          | inl off ↦ rw off (inl (forward-IsKept e a s₁ [] tt))
          | inr on ↦ rw on (show-Effect (ground arith) s₁ (ground arith) (rw f.parms eight))
        ])
