-- ===== src/Shim/Invariant/Reach.antt =====
-- The entry points of the shim in any order.
use palma2pro_eos.Base.{ℕ, refl, inl, inr, arith, Bool-cases}
use palma2pro_eos.Base.Int.{ℤ, pos, int32-IsInt32, IsInt32, ◌+ℤ◌, ◌≤ℤ◌}
use palma2pro_eos.Shim.State.{Shim, Env, init}
use palma2pro_eos.Shim.Request.{add_property}
use palma2pro_eos.Shim.Request.Slots.{add-IsPending}
use palma2pro_eos.Shim.Settle.{settle_due, settle_now, settle_round, next_marker}
use palma2pro_eos.Shim.Commit.{Args, commit}
use palma2pro_eos.Shim.Invariant.{IsValid}
use palma2pro_eos.Shim.Invariant.Commit.{resolve-IsValid, commit-IsValid}

-- One call of an entry point, or one round of the settle thread.
pub data Step (s : Shim) : Shim → Type 0 where
  add : (e : Env) (req obj prop value : ℕ) → Step s (add_property e req obj prop value s).0
  commits : (e : Env) (a : Args) → Step s (commit e a s).0
  settles : (e : Env) → Step s (settle_round e s).0

pub data Reach : Shim → Type 0 where
  start : Reach init
  later : {s t : Shim} → Reach s → Step s t → Reach t

init-IsValid : IsValid init
init-IsValid = record {
  parms = refl;
  pend = record { few = omega arith; distinct = tt };
  cache = record { few = omega arith; distinct = tt };
  fullevery = omega arith;
  counted = omega arith;
  recheck_below = omega arith;
  tried_below = omega arith;
  marker = omega arith;
}

add_property-IsValid :
    (e : Env) (req obj prop value : ℕ) (s : Shim)
    → IsValid s
    → IsValid (add_property e req obj prop value s).0
unfolding add_property
add_property-IsValid e req obj prop value s v =
    let v₁ = resolve-IsValid e s v in
    record {
      parms = v₁.parms;
      pend = add-IsPending _ prop value obj _ v₁.pend;
      cache = v₁.cache;
      fullevery = v₁.fullevery;
      counted = v₁.counted;
      recheck_below = v₁.recheck_below;
      tried_below = v₁.tried_below;
      marker = v₁.marker;
    }

next_marker-pos : (m : ℤ) → (pos 1 ≤ℤ next_marker m) × IsInt32 (next_marker m)
unfolding next_marker
next_marker-pos m = ground (arith, int32-IsInt32 (m +ℤ pos 1))

settle_now-IsValid : (e : Env) (s : Shim) → IsValid s → IsValid (settle_now e s).0
unfolding settle_now
settle_now-IsValid e s v = ground (arith, next_marker-pos s.settle_marker)

settle_round-IsValid : (e : Env) (s : Shim) → IsValid s → IsValid (settle_round e s).0
unfolding settle_round
settle_round-IsValid e s v = elim (Bool-cases (settle_due e s)) [
  | inl due ↦ rw due (settle_now-IsValid e _ (ground arith))
  | inr early ↦ rw early v
]

Step-IsValid : {s t : Shim} → Step s t → IsValid s → IsValid t
Step-IsValid {s} (add e req obj prop value) v = add_property-IsValid e req obj prop value s v
Step-IsValid {s} (commits e a) v = commit-IsValid e a s v
Step-IsValid {s} (settles e) v = settle_round-IsValid e s v

-- After any sequence of calls of the two interposed functions and rounds of the settle thread,
-- with whatever answers: the tables are within their arrays, no object stands twice among the
-- pending ones or in the cache, the count of updates since a full flash stays below 2 ^ 31 - 1, the
-- counts of commits since the last reading of the tunables and of attempts to attach stay at most
-- 30, and the settle marker is an `int` that is not negative.
pub Reach-IsValid : {s : Shim} → Reach s → IsValid s
Reach-IsValid start = init-IsValid
Reach-IsValid (later r st) = Step-IsValid st (Reach-IsValid r)
