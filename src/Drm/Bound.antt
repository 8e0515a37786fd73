-- ===== src/Drm/Bound.antt =====
-- What the count of the second call decides.
use palma2pro_eos.Base.{
  ℕ, zero, suc, ◌+◌, ◌≤◌, ◌≡◌, ◌≢◌, refl, ◌↔◌, ◌⊎◌, inl, inr, true, false, not, ◌||◌, some, List,
  [], ◌∷◌, ◌++◌, arith, ◌==◌, Bool-cases,
}
use palma2pro_eos.Drm.{Block, ids, Env, Call, free, vals, dump_props, dump_second, dump_obj}
use palma2pro_eos.Drm.Heap.{Heap, effect, IsLive, IsValid}
use palma2pro_eos.Drm.Memory.{opened, dump_obj-Keeps}

some-injective : (m n : ℕ) → some m ≡ some n → m ≡ n
some-injective m n e = cc e

IsValid-head : (h : Heap) (xs ys : List Call) → IsValid h (xs ++ ys) → IsValid h xs
unfolding IsValid
IsValid-head h [] ys v = tt
IsValid-head h (x ∷ xs) ys (l, v) = (l, IsValid-head (effect x h) xs ys v)

-- a valid run of the loop ends inside the array
dump_props-inside :
    (e : Env) (id type k i n : ℕ) (h : Heap)
    → h.id_size ≡ some n
    → IsValid h (dump_props e id type k i)
    → (k ≡ 0) ⊎ (i + k ≤ n)
unfolding dump_props IsValid effect
dump_props-inside e id type zero i n h z v = inl refl
dump_props-inside e id type (suc k) i n h z v =
    let head : IsLive (palma2pro_eos.Drm.read ids i) h =
      elim (Bool-cases (e.property_ok (e.prop_of id type i))) [
        | inl p ↦ (rw p at v).0
        | inr p ↦ (rw p at v).0
      ] in
    let rest : IsValid h (dump_props e id type k (i + 1)) =
      elim (Bool-cases (e.property_ok (e.prop_of id type i))) [
        | inl p ↦ (rw p at v).1.1.1.1
        | inr p ↦ (rw p at v).1.1
      ] in
    let same : head.0 ≡ n = cc (head.1, z) in
    elim (dump_props-inside e id type k (i + 1) n h z rest) [
      | inl none_left ↦ inr (omega (arith, head.2, same))
      | inr fits ↦ inr (omega arith)
    ]

-- For an object for which both calls succeed, the first with a count other than 0, and memory is
-- found: the reads and the frees for it are valid exactly if the second count, up to which the loop
-- goes, is not greater than the first, for which the arrays have been allocated.
pub dump_obj-IsValid_iff :
    (e : Env) (id type : ℕ) (h : Heap)
    → e.first_ok id type ≡ true
    → e.second_ok id type ≡ true
    → e.first_count id type ≢ 0
    → IsValid h (dump_obj e id type) ↔ (e.second_count id type ≤ e.first_count id type)
unfolding dump_obj dump_second IsValid effect
dump_obj-IsValid_iff e id type h f s some_props =
    let n = e.first_count id type in
    let k = e.second_count id type in
    let goes_on : (not (e.first_ok id type) || n == 0) ≡ false = rw f (ground arith) in
    (
      λ v.
          let reads : IsValid (opened n h)
              (dump_props e id type k 0 ++ (free ids ∷ free vals ∷ [])) =
            (rw (goes_on, s) at v).1.1.1.1 in
          let props = IsValid-head (opened n h) (dump_props e id type k 0) _ reads in
          elim (dump_props-inside e id type k 0 n (opened n h) refl props) [
            | inl z ↦ omega arith
            | inr fits ↦ omega arith
          ],
      λ fits. (dump_obj-Keeps e id type h fits).0,
    )
