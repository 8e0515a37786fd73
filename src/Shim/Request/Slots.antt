-- ===== src/Shim/Request/Slots.antt =====
-- The list of pending objects stays small and without repetition.
use palma2pro_eos.Base.{
  ℕ, zero, suc, ◌+◌, ◌≤◌, ◌≡◌, ◌≢◌, refl, ap, not, ◌&&◌, Option, none, some, List, [], ◌∷◌, inl,
  inr, arith, length, length-append, All, Distinct, Distinct-snoc, Bool-cases, Option-cases, ◌==◌,
  ltb,
}
use palma2pro_eos.Shim.State.{Pend, max_obj}
use palma2pro_eos.Shim.Request.{find_pend, take_slot, set_fb, note_fb}

abbrev pub key : Pend → ℕ
key p = p.obj

pub record IsPending (ps : List Pend) : Type 0 where
  pub few : length ps ≤ max_obj
  pub distinct : Distinct key ps

find_pend-none :
    (i obj : ℕ) (ps : List Pend) → find_pend i obj ps ≡ none → All (λ p. key p ≢ obj) ps
unfolding find_pend
find_pend-none i obj [] h = tt
find_pend-none i obj (p ∷ ps) h = (ground arith, find_pend-none (i + 1) obj ps (ground arith))

take_slot-IsPending : (obj : ℕ) (ps : List Pend) → IsPending ps → IsPending (take_slot obj ps).1
unfolding take_slot
take_slot-IsPending obj ps v = elim (Option-cases (find_pend 0 obj ps)) [
  | inr (i, found) ↦ rw (found, take_slot) v
  | inl new ↦
      rw (new, take_slot)
        (elim (Bool-cases (ltb (length ps) max_obj)) [
          | inr full ↦ rw full v
          | inl room ↦ rw room (record {
            few = rw length-append (ground arith);
            distinct =
                Distinct-snoc key ps (record { obj = obj; fb = 0 }) v.distinct
                  (find_pend-none 0 obj ps new);
          })
        ])
]

set_fb-All :
    (k i value : ℕ) (ps : List Pend)
    → All (λ p. key p ≢ k) ps
    → All (λ p. key p ≢ k) (set_fb i value ps)
unfolding set_fb
set_fb-All k i value [] h = tt
set_fb-All k zero value (p ∷ ps) h = h
set_fb-All k (suc i) value (p ∷ ps) h = (h.0, set_fb-All k i value ps h.1)

set_fb-Distinct :
    (i value : ℕ) (ps : List Pend) → Distinct key ps → Distinct key (set_fb i value ps)
unfolding set_fb
set_fb-Distinct i value [] d = tt
set_fb-Distinct zero value (p ∷ ps) d = d
set_fb-Distinct (suc i) value (p ∷ ps) d =
    (set_fb-All p.obj i value ps d.0, set_fb-Distinct i value ps d.1)

length-set_fb : (i value : ℕ) (ps : List Pend) → length (set_fb i value ps) ≡ length ps
unfolding set_fb
length-set_fb i value [] = refl
length-set_fb zero value (p ∷ ps) = refl
length-set_fb (suc i) value (p ∷ ps) = ap suc (length-set_fb i value ps)

note_fb-IsPending :
    (fbid prop value : ℕ) (i : Option ℕ) (ps : List Pend)
    → IsPending ps
    → IsPending (note_fb fbid prop value (i, ps))
unfolding note_fb
note_fb-IsPending fbid prop value none ps v = v
note_fb-IsPending fbid prop value (some i) ps v =
    elim (Bool-cases (not (fbid == 0) && prop == fbid)) [
      | inr other ↦ rw other v
      | inl fb ↦ rw fb (record {
        few = rw length-set_fb v.few;
        distinct = set_fb-Distinct i value ps v.distinct;
      })
    ]

pub add-IsPending :
    (fbid prop value obj : ℕ) (ps : List Pend)
    → IsPending ps
    → IsPending (note_fb fbid prop value (take_slot obj ps))
add-IsPending fbid prop value obj ps v =
    note_fb-IsPending fbid prop value (take_slot obj ps).0 (take_slot obj ps).1
      (take_slot-IsPending obj ps v)
