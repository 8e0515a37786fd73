-- ===== src/Drm/Memory.antt =====
-- No read leaves its array, if no count grows between the two calls that ask for it.
use palma2pro_eos.Base.{
  ℕ, zero, suc, ◌+◌, ◌≤◌, ◌<◌, ◌≡◌, ◌≢◌, refl, ap, sym, subst, ◌∙◌, inl, inr, not, ◌||◌, none, some,
  List, [], ◌∷◌, ◌++◌, arith, ◌==◌, Bool-cases,
}
use palma2pro_eos.Base.Int.{pos, ltb_ℤ}
use palma2pro_eos.Drm.{
  Block, crtcs, conns, planes, ids, vals, Env, Call, free, close, dump_props, dump_second, dump_obj,
  dump_objs, one_or, client_caps, get_arrays, dump_all, main,
}
use palma2pro_eos.Drm.Heap.{
  Heap, nothing_live, size, effect, IsValid, after, after-append, IsValid-append,
}

-- Valid from a heap, with the heap afterwards.
abbrev pub Runs : Heap → List Call → Heap → Type 0
Runs h calls h' = IsValid h calls × (after h calls ≡ h')

pub Runs-append :
    (h₁ h₂ h₃ : Heap) (xs ys : List Call) → Runs h₁ xs h₂ → Runs h₂ ys h₃ → Runs h₁ (xs ++ ys) h₃
Runs-append h₁ h₂ h₃ xs ys r s = (
  IsValid-append h₁ xs ys r.0 (subst (λ h. IsValid h ys) (sym r.1) s.0),
  after-append h₁ xs ys ∙ ap (λ h. after h ys) r.1 ∙ s.1,
)

pub dump_props-Runs :
    (e : Env) (id type k i n : ℕ) (h : Heap)
    → h.id_size ≡ some n
    → h.val_size ≡ some n
    → i + k ≤ n
    → Runs h (dump_props e id type k i) h
unfolding dump_props IsValid after effect
dump_props-Runs e id type zero i n h a b fits = (tt, refl)
dump_props-Runs e id type (suc k) i n h a b fits =
    let (v, same) = dump_props-Runs e id type k (i + 1) n h a b (omega arith) in
    let inside : i < n = omega arith in
    elim (Bool-cases (e.property_ok (e.prop_of id type i))) [
      | inl p ↦ rw p (((n, a, inside), (tt, ((n, a, inside), ((n, b, inside), v)))), same)
      | inr p ↦ rw p (((n, a, inside), (tt, v)), same)
    ]

-- the heap with the two arrays of one object, and after them
abbrev pub opened : ℕ → Heap → Heap
opened n h = record h { id_size = some n; val_size = some n }

abbrev pub closed : Heap → Heap
closed h = record h { id_size = none; val_size = none }

dump_second-Runs :
    (e : Env) (id type : ℕ) (h : Heap)
    → e.second_count id type ≤ e.first_count id type
    → Runs (opened (e.first_count id type) h) (dump_second e id type) (closed h)
unfolding dump_second IsValid after effect
dump_second-Runs e id type h fits =
    let n = e.first_count id type in
    let frees : Runs (opened n h) (free ids ∷ free vals ∷ []) (closed h) =
      (((n, refl), ((n, refl), tt)), refl) in
    elim (Bool-cases (e.second_ok id type)) [
      | inl o ↦
          let (v, s) =
            Runs-append (opened n h) (opened n h) (closed h)
              (dump_props e id type (e.second_count id type) 0) _
              (dump_props-Runs e id type _ 0 n (opened n h) refl refl (omega arith)) frees in
          rw o ((tt, v), s)
      | inr o ↦ rw o ((tt, frees.0), frees.1)
    ]

-- the arrays of the objects are as they have been
abbrev pub Same : Heap → Heap → Type 0
Same h h' =
    (h'.crtc_size ≡ h.crtc_size) × (h'.conn_size ≡ h.conn_size) × (h'.plane_size ≡ h.plane_size)

-- valid, with the arrays of the objects kept
abbrev pub Keeps : Heap → List Call → Type 0
Keeps h calls = IsValid h calls × Same h (after h calls)

pub dump_obj-Keeps :
    (e : Env) (id type : ℕ) (h : Heap)
    → e.second_count id type ≤ e.first_count id type
    → Keeps h (dump_obj e id type)
unfolding dump_obj IsValid after effect
dump_obj-Keeps e id type h fits =
    let (v, s) = dump_second-Runs e id type h fits in
    elim (Bool-cases (not (e.first_ok id type) || e.first_count id type == 0)) [
      | inl o ↦ rw o ((tt, tt), (refl, refl, refl))
      | inr o ↦ rw o (
        (tt, (tt, (tt, v))),
        (ap (λ k. k.crtc_size) s, ap (λ k. k.conn_size) s, ap (λ k. k.plane_size) s),
      )
    ]

-- the size of an array of objects depends on the three alone
size-Same :
    (b : Block) (h h' : Heap) (n : ℕ)
    → b ≢ ids
    → b ≢ vals
    → Same h h'
    → size b h ≡ some n
    → size b h' ≡ some n
size-Same crtcs h h' n i v s z = s.0 ∙ z
size-Same conns h h' n i v s z = s.1 ∙ z
size-Same planes h h' n i v s z = s.2 ∙ z
size-Same ids h h' n i v s z = absurd (i refl)
size-Same vals h h' n i v s z = absurd (v refl)

module _ (e : Env) (steady : (id type : ℕ) → e.second_count id type ≤ e.first_count id type) where
  dump_objs-Keeps :
      (b : Block) (type k i n : ℕ) (h : Heap)
      → b ≢ ids
      → b ≢ vals
      → size b h ≡ some n
      → i + k ≤ n
      → Keeps h (dump_objs e b type k i)
  unfolding dump_objs IsValid after effect
  dump_objs-Keeps b type zero i n h bi bv z fits = (tt, (refl, refl, refl))
  dump_objs-Keeps b type (suc k) i n h bi bv z fits =
      let id = e.object_of b i in
      let h₁ = after h (dump_obj e id type) in
      let (v, s) = dump_obj-Keeps e id type h (steady id type) in
      let (vs, ss) =
        dump_objs-Keeps b type k (i + 1) n h₁ bi bv (size-Same b h h₁ n bi bv s z) (omega arith) in
      let end : after h (dump_obj e id type ++ dump_objs e b type k (i + 1))
          ≡ after h₁ (dump_objs e b type k (i + 1)) =
        after-append h (dump_obj e id type) _ in
      (
        ((n, z, omega arith), IsValid-append h (dump_obj e id type) _ v vs),
        (
          ap (λ x. x.crtc_size) end ∙ ss.0 ∙ s.0,
          ap (λ x. x.conn_size) end ∙ ss.1 ∙ s.1,
          ap (λ x. x.plane_size) end ∙ ss.2 ∙ s.2,
        ),
      )

  dump_all-IsValid :
      (h : Heap)
      → h.crtc_size ≡ some (one_or e.nc)
      → h.conn_size ≡ some (one_or e.nn)
      → h.plane_size ≡ some (one_or e.np)
      → e.count_crtcs ≤ e.nc
      → e.count_connectors ≤ e.nn
      → e.count_planes ≤ e.np
      → IsValid h (dump_all e)
  unfolding dump_all
  dump_all-IsValid h zc zn zp fc fn fp =
      let cs = dump_objs e crtcs 0xcccccccc e.count_crtcs 0 in
      let ns = dump_objs e conns 0xc0c0c0c0 e.count_connectors 0 in
      let ps = dump_objs e planes 0xeeeeeeee e.count_planes 0 in
      let h₁ = after h cs in
      let h₂ = after h₁ ns in
      let (vc, sc) =
        dump_objs-Keeps crtcs 0xcccccccc e.count_crtcs 0 _ h (λ q. cc) (λ q. cc) zc
          (ground arith) in
      let (vn, sn) =
        dump_objs-Keeps conns 0xc0c0c0c0 e.count_connectors 0 _ h₁ (λ q. cc) (λ q. cc) (sc.1 ∙ zn)
          (ground arith) in
      let (vp, sp) =
        dump_objs-Keeps planes 0xeeeeeeee e.count_planes 0 _ h₂ (λ q. cc) (λ q. cc)
          (sn.2 ∙ sc.2 ∙ zp) (ground arith) in
      IsValid-append h (cs ++ ns) ps (IsValid-append h cs ns vc vn)
        (subst (λ x. IsValid x ps) (sym (after-append h cs ns)) vp)

-- Where no count is greater behind the second of the two calls that ask for it than behind the
-- first, for the objects of each kind and for the properties of each object, and memory is found:
-- whatever else the driver answers, a run reads the arrays of objects and of properties only where
-- they have been allocated and not yet freed, and frees no array twice.
pub main-IsValid :
    (e : Env)
    → ((id type : ℕ) → e.second_count id type ≤ e.first_count id type)
    → e.count_crtcs ≤ e.nc
    → e.count_connectors ≤ e.nn
    → e.count_planes ≤ e.np
    → IsValid nothing_live (main e).0
unfolding main IsValid after effect client_caps get_arrays
main-IsValid e steady fc fn fp = elim (Bool-cases (ltb_ℤ e.fd (pos 0))) [
  | inl c ↦ rw c (tt, tt)
  | inr c ↦ elim (Bool-cases (not e.resources_ok)) [
    | inl r ↦ rw (c, r) (tt, (tt, (tt, (tt, tt))))
    | inr r ↦
        let h : Heap = record nothing_live {
          crtc_size = some (one_or e.nc);
          conn_size = some (one_or e.nn);
          plane_size = some (one_or e.np);
        } in
        rw (c, r)
          (
            tt,
            (
              tt,
              (
                tt,
                (
                  tt,
                  (
                    tt,
                    (
                      tt,
                      (
                        tt,
                        (
                          tt,
                          (
                            tt,
                            (
                              tt,
                              IsValid-append h (dump_all e) (close ∷ [])
                                  (dump_all-IsValid e steady h refl refl refl fc fn fp) (tt, tt),
                            ),
                          ),
                        ),
                      ),
                    ),
                  ),
                ),
              ),
            ),
          )
  ]
]
