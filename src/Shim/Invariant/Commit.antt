-- ===== src/Shim/Invariant/Commit.antt =====
-- `drmModeAtomicCommit` keeps the invariant, a helper at a time.
use palma2pro_eos.Base.{
  ℕ, ◌+◌, ◌≡◌, refl, ◌∙◌, ◌||◌, Option, List, [], ◌∷◌, inl, inr, arith, length, length-append,
  Distinct-snoc, Bool-cases, ltb,
}
use palma2pro_eos.Base.Int.{ℤ, pos, int32-IsInt32, eqb_ℤ}
use palma2pro_eos.Shim.State.{Upd, Pend, Shim, Env, Call, recheck}
use palma2pro_eos.Shim.Tunables.{now_ms, resolve, refresh_tunables, read_tunables}
use palma2pro_eos.Shim.Damage.{Read, attach_damage, try_attach, read_damage}
use palma2pro_eos.Shim.Parms.{init_parms, policy}
use palma2pro_eos.Shim.Parms.Panel.{length-fill}
use palma2pro_eos.Shim.Parms.Cadence.{next_count-IsCount}
use palma2pro_eos.Shim.Lookup.Cache.{Outcome, hit, refused, added, lookup-Outcome, find_entry-none}
use palma2pro_eos.Shim.Lookup.Cache
use palma2pro_eos.Shim.Settle.{start_settle_thread}
use palma2pro_eos.Shim.Commit.{
  Args, is_test_only, forward, skip_same, bump_marker, inject_one, inject, submit, drive, pace,
  react, show, commit, throttled, since_inject,
}
use palma2pro_eos.Shim.Invariant.{IsValid}

pub resolve-IsValid : (e : Env) (s : Shim) → IsValid s → IsValid (resolve e s)
unfolding resolve
resolve-IsValid e s v = ground arith

refresh_tunables-IsValid : (e : Env) (s : Shim) → IsValid s → IsValid (refresh_tunables e s)
unfolding refresh_tunables read_tunables
refresh_tunables-IsValid e s v = elim (Bool-cases (ltb (s.commits_since_recheck + 1) recheck)) [
  | inl wait ↦ rw wait (record {
    parms = v.parms;
    pend = v.pend;
    cache = v.cache;
    fullevery = v.fullevery;
    counted = v.counted;
    recheck_below = ground arith;
    tried_below = v.tried_below;
    marker = v.marker;
  })
  | inr now ↦ rw now (record {
    parms = v.parms;
    pend = v.pend;
    cache = v.cache;
    fullevery = int32-IsInt32 _;
    counted = v.counted;
    recheck_below = omega arith;
    tried_below = v.tried_below;
    marker = v.marker;
  })
]

attach_damage-IsValid : (e : Env) (s : Shim) → IsValid s → IsValid (attach_damage e s).0
unfolding attach_damage try_attach
attach_damage-IsValid e s v = ground arith

skip_same-IsValid : (r : Read) (s : Shim) → IsValid s → IsValid (skip_same r s).1
unfolding skip_same
skip_same-IsValid r s v = ground arith

start_settle_thread-IsValid : (s : Shim) → IsValid s → IsValid (start_settle_thread s).0
unfolding start_settle_thread
start_settle_thread-IsValid s v = ground arith

Outcome-IsValid :
    {e : Env} {obj : ℕ} {s : Shim} {out : Option ℕ × Shim}
    → Outcome e obj s out
    → IsValid s
    → IsValid out.1
Outcome-IsValid (hit h) v = v
Outcome-IsValid (refused h) v = v
Outcome-IsValid {obj} {s} (added new room fbid c same) v = record {
  parms = v.parms;
  pend = v.pend;
  cache = record {
    few = rw length-append (omega arith);
    distinct =
        Distinct-snoc Cache.key s.cache c v.cache.distinct
          (rw same (find_entry-none 0 obj s.cache new));
  };
  fullevery = v.fullevery;
  counted = v.counted;
  recheck_below = v.recheck_below;
  tried_below = v.tried_below;
  marker = v.marker;
}

inject-IsValid :
    (e : Env) (req n : ℕ) (ps : List Pend) (s : Shim) → IsValid s → IsValid (inject e req n ps s).0
unfolding inject inject_one
inject-IsValid e req n [] s v = v
inject-IsValid e req n (p ∷ ps) s v =
    inject-IsValid e req n ps _ (Outcome-IsValid (lookup-Outcome e p.obj s) v)

forward-IsValid :
    (e : Env) (a : Args) (s : Shim) (calls : List Call)
    → IsValid s
    → IsValid (forward e a s calls).0
unfolding forward
forward-IsValid e a s calls v = record {
  parms = v.parms;
  pend = record { few = omega arith; distinct = tt };
  cache = v.cache;
  fullevery = v.fullevery;
  counted = v.counted;
  recheck_below = v.recheck_below;
  tried_below = v.tried_below;
  marker = v.marker;
}

length-bump_marker : (ps : List Upd) → length (bump_marker ps) ≡ length ps
unfolding bump_marker
length-bump_marker [] = refl
length-bump_marker (p ∷ ps) = refl

drive-IsValid :
    (e : Env) (a : Args) (r : Read) (dt : ℤ) (s : Shim) (calls : List Call)
    → IsValid s
    → IsValid (drive e a r dt s calls).0
unfolding drive submit init_parms policy
drive-IsValid e a r dt s calls v = forward-IsValid e a _ _ (
    inject-IsValid e a.req _ _ _ (
      start_settle_thread-IsValid _ (record {
        parms = length-fill _ _ _ _ _ ∙ length-bump_marker s.parms ∙ v.parms;
        pend = v.pend;
        cache = v.cache;
        fullevery = v.fullevery;
        counted = next_count-IsCount s.tunables s.updates_since_full v.fullevery v.counted;
        recheck_below = v.recheck_below;
        tried_below = v.tried_below;
        marker = v.marker;
      })))

pace-IsValid :
    (e : Env) (a : Args) (r : Read) (s : Shim) (calls : List Call)
    → IsValid s
    → IsValid (pace e a r s calls).0
unfolding pace
pace-IsValid e a r s calls v =
    let dt = since_inject (now_ms e s.symbols) s.last_inject_ms in
    elim (Bool-cases (throttled s dt)) [
      | inl wait ↦ rw wait (forward-IsValid e a s calls v)
      | inr go ↦ rw go (drive-IsValid e a r dt _ calls (ground arith))
    ]

react-IsValid :
    (e : Env) (a : Args) (r : Read) (s : Shim) (calls : List Call)
    → IsValid s
    → IsValid (react e a r s calls).0
unfolding react
react-IsValid e a r s calls v =
    let v₁ = skip_same-IsValid r s v in
    elim (Bool-cases (skip_same r s).0) [
      | inl same ↦ rw same (forward-IsValid e a _ calls v₁)
      | inr new ↦ rw new (pace-IsValid e a r _ calls v₁)
    ]

show-IsValid : (e : Env) (a : Args) (s : Shim) → IsValid s → IsValid (show e a s).0
unfolding show
show-IsValid e a s v =
    let v₁ = attach_damage-IsValid e s v in
    react-IsValid e a (read_damage e (attach_damage e s).0) _ (attach_damage e s).1 (ground arith)

pub commit-IsValid : (e : Env) (a : Args) (s : Shim) → IsValid s → IsValid (commit e a s).0
unfolding commit
commit-IsValid e a s v =
    let s₁ = refresh_tunables e (resolve e s) in
    let v₁ = refresh_tunables-IsValid e _ (resolve-IsValid e s v) in
    elim (Bool-cases (is_test_only a.flags || eqb_ℤ s₁.tunables.enable (pos 0))) [
      | inl off ↦ rw off (forward-IsValid e a s₁ [] v₁)
      | inr on ↦ rw on (show-IsValid e a s₁ v₁)
    ]
