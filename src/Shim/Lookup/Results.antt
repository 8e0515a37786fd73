-- ===== src/Shim/Lookup/Results.antt =====
-- What `lookup` does with the results of libdrm, which it holds in `op` and `pr` and has to free.
use palma2pro_eos.Base.{
  ℕ, ◌≡◌, ◌⊎◌, inl, inr, refl, ap, ◌∙◌, Bool, true, false, ◌&&◌, not, Option, none, some, List, [],
  ◌∷◌, ◌++◌, arith, ltb, if◌then◌else◌, length, codes, Option-cases, Bool-cases,
}
use palma2pro_eos.Shim.State.{Symbols, Shim, Env, PropRes, max_obj}
use palma2pro_eos.Shim.Numbers.{str_eq}
use palma2pro_eos.Shim.Lookup.{find_entry, add_entry, lookup}
use palma2pro_eos.Shim.Lookup.Cache.{
  Outcome, hit, refused, added, find_entry-append, find_entry-more, query-obj,
}

-- the two pointers of `lookup`
pub data Pointer : Type 0 where
  op : Pointer
  pr : Pointer

-- libdrm returns a result into the pointer, a field of it is read, or it is freed.
pub data Use : Type 0 where
  got : Pointer → Use
  read : Pointer → Use
  freed : Pointer → Use

-- The reads of the three tests, which are these as `str_eq` answers them: the name for each, and the
-- id where one holds. The third is made only if the second fails.
unfoldable pub test_uses : Bool → Bool → Bool → List Use
test_uses fb parms cnt =
    (read pr ∷ (if fb then read pr ∷ [] else []))
    ++ read pr ∷ (if parms then read pr ∷ [] else read pr ∷ (if cnt then read pr ∷ [] else []))

unfoldable pub name_uses : PropRes → List Use
unfolding test_uses
name_uses r =
    test_uses (str_eq r.name (codes "FB_ID")) (str_eq r.name (codes "EPDC_UPDATE_PARMS_ADDR"))
      (str_eq r.name (codes "EPDC_UPDATE_CNT"))

-- one turn of the loop behind its test: `op->props[i]`, and what `p_get_prop` returns for it
unfoldable pub turn_uses : Symbols → Option PropRes → List Use
unfolding name_uses
turn_uses y none = read op ∷ []
turn_uses y (some r) =
    read op ∷ got pr ∷ (name_uses r ++ (if y.free_prop then freed pr ∷ [] else []))

-- the loop, with the reads of `op->count_props` in its tests
unfoldable pub loop_uses : Env → Symbols → List ℕ → List Use
unfolding turn_uses
loop_uses e y [] = read op ∷ []
loop_uses e y (p ∷ ps) = read op ∷ (turn_uses y (e.property p) ++ loop_uses e y ps)

unfoldable pub plane_uses : Env → Symbols → Option (List ℕ) → List Use
unfolding loop_uses
plane_uses e y none = []
plane_uses e y (some ps) =
    got op ∷ (loop_uses e y ps ++ (if y.free_objprops then freed op ∷ [] else []))

-- one call of `lookup`
unfoldable pub lookup_uses : Env → ℕ → Shim → List Use
unfolding plane_uses
lookup_uses e obj s = elim (find_entry 0 obj s.cache) [
  | some i ↦ []
  | none ↦
      if not (ltb (length s.cache) max_obj)
      then []
      else if not (s.symbols.get_objprops && s.symbols.get_prop)
      then []
      else plane_uses e s.symbols (e.objprops obj)
]

-- Which of the pointers hold a result that is not freed yet.
pub record Held : Type 0 where
  pub of_op : Bool
  pub of_pr : Bool

abbrev pub nothing_held : Held
nothing_held = record { of_op = false; of_pr = false }

-- `none` for a result that is lost under another, read after it has been freed, or freed twice
unfoldable pub use_one : Use → Held → Option Held
use_one (got op) h = if h.of_op then none else some (record h { of_op = true })
use_one (got pr) h = if h.of_pr then none else some (record h { of_pr = true })
use_one (read op) h = if h.of_op then some h else none
use_one (read pr) h = if h.of_pr then some h else none
use_one (freed op) h = if h.of_op then some (record h { of_op = false }) else none
use_one (freed pr) h = if h.of_pr then some (record h { of_pr = false }) else none

unfoldable pub use_all : List Use → Option Held → Option Held
unfolding use_one
use_all us none = none
use_all [] (some h) = some h
use_all (u ∷ us) (some h) = use_all us (use_one u h)

pub use_all-append :
    (us vs : List Use) (o : Option Held) → use_all (us ++ vs) o ≡ use_all vs (use_all us o)
unfolding use_all
use_all-append us vs none = refl
use_all-append [] vs (some h) = refl
use_all-append (u ∷ us) vs (some h) = use_all-append us vs (use_one u h)

abbrev op_held : Held
op_held = record { of_op = true; of_pr = false }

abbrev both_held : Held
both_held = record { of_op = true; of_pr = true }

test_uses-kept :
    (fb parms cnt : Bool) → use_all (test_uses fb parms cnt) (some both_held) ≡ some both_held
unfolding test_uses use_all
test_uses-kept true true cnt = refl
test_uses-kept true false true = refl
test_uses-kept true false false = refl
test_uses-kept false true cnt = refl
test_uses-kept false false true = refl
test_uses-kept false false false = refl

turn_uses-kept :
    (y : Symbols) (o : Option PropRes)
    → y.free_prop ≡ true
    → use_all (turn_uses y o) (some op_held) ≡ some op_held
unfolding turn_uses use_all name_uses
turn_uses-kept y none h = refl
turn_uses-kept y (some r) h = rw h (
    use_all-append (name_uses r) (freed pr ∷ []) (some both_held)
    ∙ ap (use_all (freed pr ∷ [])) (test_uses-kept _ _ _))

loop_uses-kept :
    (e : Env) (y : Symbols) (ps : List ℕ)
    → y.free_prop ≡ true
    → use_all (loop_uses e y ps) (some op_held) ≡ some op_held
unfolding loop_uses use_all
loop_uses-kept e y [] h = refl
loop_uses-kept e y (p ∷ ps) h =
    use_all-append (turn_uses y (e.property p)) (loop_uses e y ps) (some op_held)
    ∙ ap (use_all (loop_uses e y ps)) (turn_uses-kept y (e.property p) h)
    ∙ loop_uses-kept e y ps h

plane_uses-kept :
    (e : Env) (y : Symbols) (o : Option (List ℕ))
    → y.free_prop ≡ true
    → y.free_objprops ≡ true
    → use_all (plane_uses e y o) (some nothing_held) ≡ some nothing_held
unfolding plane_uses use_all
plane_uses-kept e y none h k = refl
plane_uses-kept e y (some ps) h k = rw k (
    use_all-append (loop_uses e y ps) (freed op ∷ []) (some op_held)
    ∙ ap (use_all (freed op ∷ [])) (loop_uses-kept e y ps h))

-- There is an entry for the object, or no way to make one.
abbrev pub Asked : ℕ → Shim → Type 0
Asked obj s =
    ((i : ℕ) × (find_entry 0 obj s.cache ≡ some i))
    ⊎ ((ltb (length s.cache) max_obj ≡ false)
        ⊎ (s.symbols.get_objprops && s.symbols.get_prop ≡ false))

pub Asked-uses : (e : Env) (obj : ℕ) (s : Shim) → Asked obj s → lookup_uses e obj s ≡ []
unfolding lookup_uses
Asked-uses e obj s (inl (i, found)) = rw (found, lookup_uses) refl
Asked-uses e obj s (inr h) = elim (Option-cases (find_entry 0 obj s.cache)) [
  | inr (i, found) ↦ rw (found, lookup_uses) refl
  | inl new ↦ elim h [
    | inl full ↦ rw (new, lookup_uses) (rw full refl)
    | inr absent ↦ rw (new, lookup_uses) (rw absent (ground arith))
  ]
]

-- What the outcome of a lookup keeps.
pub Outcome-symbols :
    {e : Env} {obj : ℕ} {s : Shim} {out : Option ℕ × Shim}
    → Outcome e obj s out
    → out.1.symbols ≡ s.symbols
Outcome-symbols (hit h) = refl
Outcome-symbols (refused h) = refl
Outcome-symbols (added new room fbid c same) = refl

pub Outcome-Asked :
    {e : Env} {q : ℕ} {s : Shim} {out : Option ℕ × Shim} (obj : ℕ)
    → Outcome e q s out
    → Asked obj s
    → Asked obj out.1
Outcome-Asked obj (hit h) k = k
Outcome-Asked obj (refused h) k = k
Outcome-Asked obj (added new room fbid c same) (inl (i, found)) =
    inl (i, find_entry-more 0 obj _ c i found)
Outcome-Asked obj (added new room fbid c same) (inr (inl full)) = absurd (ground arith)
Outcome-Asked obj (added new room fbid c same) (inr (inr absent)) = inr (inr absent)

pub lookup-Asked : (e : Env) (obj : ℕ) (s : Shim) → Asked obj (lookup e obj s).1
unfolding lookup add_entry
lookup-Asked e obj s = elim (Option-cases (find_entry 0 obj s.cache)) [
  | inr (i, found) ↦ rw (found, lookup) (inl (i, found))
  | inl new ↦
      rw (new, lookup)
        (elim (Bool-cases (ltb (length s.cache) max_obj)) [
          | inr full ↦ rw full (inr (inl full))
          | inl room ↦ rw room (elim (Bool-cases (s.symbols.get_objprops && s.symbols.get_prop)) [
            | inr absent ↦ rw absent (inr (inr absent))
            | inl there ↦
                rw there
                  (inl (_, find_entry-append 0 obj s.cache _ new (query-obj e obj s.fbid_prop)))
          ])
        ])
]

pub lookup_uses-kept :
    (e : Env) (obj : ℕ) (s : Shim)
    → s.symbols.free_prop ≡ true
    → s.symbols.free_objprops ≡ true
    → use_all (lookup_uses e obj s) (some nothing_held) ≡ some nothing_held
unfolding lookup_uses use_all
lookup_uses-kept e obj s h k = elim (Option-cases (find_entry 0 obj s.cache)) [
  | inr (i, found) ↦ rw (found, lookup_uses) refl
  | inl new ↦
      rw (new, lookup_uses)
        (elim (Bool-cases (ltb (length s.cache) max_obj)) [
          | inr full ↦ rw full refl
          | inl room ↦ rw room (elim (Bool-cases (s.symbols.get_objprops && s.symbols.get_prop)) [
            | inr absent ↦ rw absent refl
            | inl there ↦ rw there (plane_uses-kept e s.symbols (e.objprops obj) h k)
          ])
        ])
]
