-- ===== src/Shim/Request.antt =====
-- `drmModeAtomicAddProperty`: the objects that the composer itself puts in the request.
pub mod Slots
use palma2pro_eos.Base.{
  ℕ, zero, suc, ◌+◌, ◌%◌, ◌^◌, ◌&&◌, not, Option, none, some, List, [], ◌∷◌, ◌++◌, ltb, ◌==◌,
  if◌then◌else◌, length,
}
use palma2pro_eos.Base.Int.{ℤ}
use palma2pro_eos.Shim.State.{Pend, Shim, Env, Call, real_add, max_obj}
use palma2pro_eos.Shim.Tunables.{resolve}

-- the loop that looks for the slot, from index `i`
unfoldable pub find_pend : ℕ → ℕ → List Pend → Option ℕ
find_pend i obj [] = none
find_pend i obj (p ∷ ps) =
    let rest = find_pend (i + 1) obj ps in if p.obj == obj then some i else rest

-- the slot, appended if there is none and there is room
unfoldable pub take_slot : ℕ → List Pend → Option ℕ × List Pend
take_slot obj ps = elim (find_pend 0 obj ps) [
  | some i ↦ (some i, ps)
  | none ↦
      if ltb (length ps) max_obj
      then (some (length ps), ps ++ record { obj = obj; fb = 0 } ∷ [])
      else (none, ps)
]

-- `pend_fb[slot] = (u32)value`
unfoldable pub set_fb : ℕ → ℕ → List Pend → List Pend
set_fb i value [] = []
set_fb zero value (p ∷ ps) = record p { fb = value % 2 ^ 32 } ∷ ps
set_fb (suc i) value (p ∷ ps) = p ∷ set_fb i value ps

unfoldable pub note_fb : ℕ → ℕ → ℕ → Option ℕ × List Pend → List Pend
unfolding set_fb
note_fb fbid prop value (none, ps) = ps
note_fb fbid prop value (some i, ps) =
    if not (fbid == 0) && prop == fbid then set_fb i value ps else ps

unfoldable pub add_property : Env → ℕ → ℕ → ℕ → ℕ → Shim → Shim × List Call × ℤ
add_property e req obj prop value s =
    let s₁ = resolve e s in
    (
      record s₁ { pend = note_fb s₁.fbid_prop prop value (take_slot obj s₁.pend) },
      real_add req obj prop value ∷ [],
      e.add_rc,
    )
