-- ===== src/Shim/Lookup/Planes.antt =====
-- What `lookup` finds for a plane of the panel.
use palma2pro_eos.Base.{
  ℕ, ◌<◌, ◌≡◌, refl, ◌⊎◌, inl, inr, true, false, ◌&&◌, Option, none, some, List, [], ◌∷◌, ◌++◌,
  arith, ltb, length, codes, All, Any,
}
use palma2pro_eos.Shim.State.{Entry, Shim, Env, PropRes, max_obj}
use palma2pro_eos.Shim.Numbers.{str_eq}
use palma2pro_eos.Shim.Lookup.{find_entry, learn, learn_all, no_entry, query, add_entry, lookup}

abbrev pub parms_name : List ℕ
parms_name = codes "EPDC_UPDATE_PARMS_ADDR"

abbrev pub cnt_name : List ℕ
cnt_name = codes "EPDC_UPDATE_CNT"

-- libdrm answers for the property with one of the name.
abbrev pub HasName : Env → List ℕ → ℕ → Type 0
HasName e name p = (r : PropRes) × (e.property p ≡ some r) × (r.name ≡ name)

-- If it does, the property has the id.
abbrev pub HasId : Env → List ℕ → ℕ → ℕ → Type 0
HasId e name id p =
    (r : PropRes) → e.property p ≡ some r → str_eq r.name name ≡ true → r.prop_id ≡ id

-- The object has the two properties, with ids of their own.
pub record IsPlane (e : Env) (obj parms cnt : ℕ) : Type 0 where
  pub props : List ℕ
  pub told : e.objprops obj ≡ some props
  pub some_parms : Any (HasName e parms_name) props
  pub some_cnt : Any (HasName e cnt_name) props
  pub only_parms : All (HasId e parms_name parms) props
  pub only_cnt : All (HasId e cnt_name cnt) props

abbrev step : Option PropRes → ℕ × Entry → ℕ × Entry
step o k = elim o [ none ↦ k | some r ↦ learn r k ]

module _ (v : ℕ) where
  step-parms :
      (o : Option PropRes) (k : ℕ × Entry)
      → ((r : PropRes) → o ≡ some r → str_eq r.name parms_name ≡ true → r.prop_id ≡ v)
      → k.1.parms_prop ≡ v
      → (step o k).1.parms_prop ≡ v
  unfolding learn
  step-parms none k only h = h
  step-parms (some r) (fbid, c) only h = ground (arith, only r refl)

  step-cnt :
      (o : Option PropRes) (k : ℕ × Entry)
      → ((r : PropRes) → o ≡ some r → str_eq r.name cnt_name ≡ true → r.prop_id ≡ v)
      → k.1.cnt_prop ≡ v
      → (step o k).1.cnt_prop ≡ v
  unfolding learn
  step-cnt none k only h = h
  step-cnt (some r) (fbid, c) only h = ground (arith, only r refl)

  set-parms :
      (o : Option PropRes) (k : ℕ × Entry)
      → ((r : PropRes) → o ≡ some r → str_eq r.name parms_name ≡ true → r.prop_id ≡ v)
      → (r : PropRes) → o ≡ some r
      → r.name ≡ parms_name
      → (step o k).1.parms_prop ≡ v
  unfolding learn str_eq
  set-parms o (fbid, c) only r e n =
      let hit : str_eq r.name parms_name ≡ true = rw n refl in
      let id = only r e hit in rw (e, hit) id

  set-cnt :
      (o : Option PropRes) (k : ℕ × Entry)
      → ((r : PropRes) → o ≡ some r → str_eq r.name cnt_name ≡ true → r.prop_id ≡ v)
      → (r : PropRes) → o ≡ some r
      → r.name ≡ cnt_name
      → (step o k).1.cnt_prop ≡ v
  unfolding learn str_eq
  set-cnt o (fbid, c) only r e n =
      let hit : str_eq r.name cnt_name ≡ true = rw n refl in
      let other : str_eq r.name parms_name ≡ false = rw n refl in
      let id = only r e hit in rw (e, other, hit) id

  learn_all-parms :
      (e : Env) (ps : List ℕ) (k : ℕ × Entry)
      → All (HasId e parms_name v) ps
      → (k.1.parms_prop ≡ v) ⊎ Any (HasName e parms_name) ps
      → (learn_all e ps k).1.parms_prop ≡ v
  unfolding learn_all
  learn_all-parms e [] k only (inl h) = h
  learn_all-parms e [] k only (inr h) = absurd h
  learn_all-parms e (p ∷ ps) k only (inl h) =
      learn_all-parms e ps _ only.1 (inl (step-parms (e.property p) k only.0 h))
  learn_all-parms e (p ∷ ps) k only (inr (inl (r, at, n))) =
      learn_all-parms e ps _ only.1 (inl (set-parms (e.property p) k only.0 r at n))
  learn_all-parms e (p ∷ ps) k only (inr (inr h)) = learn_all-parms e ps _ only.1 (inr h)

  learn_all-cnt :
      (e : Env) (ps : List ℕ) (k : ℕ × Entry)
      → All (HasId e cnt_name v) ps
      → (k.1.cnt_prop ≡ v) ⊎ Any (HasName e cnt_name) ps
      → (learn_all e ps k).1.cnt_prop ≡ v
  unfolding learn_all
  learn_all-cnt e [] k only (inl h) = h
  learn_all-cnt e [] k only (inr h) = absurd h
  learn_all-cnt e (p ∷ ps) k only (inl h) =
      learn_all-cnt e ps _ only.1 (inl (step-cnt (e.property p) k only.0 h))
  learn_all-cnt e (p ∷ ps) k only (inr (inl (r, at, n))) =
      learn_all-cnt e ps _ only.1 (inl (set-cnt (e.property p) k only.0 r at n))
  learn_all-cnt e (p ∷ ps) k only (inr (inr h)) = learn_all-cnt e ps _ only.1 (inr h)

-- The entry that a query makes for a plane.
query-IsPlane :
    (e : Env) (obj parms cnt fbid : ℕ)
    → IsPlane e obj parms cnt
    → ((query e obj fbid).1.parms_prop ≡ parms) × ((query e obj fbid).1.cnt_prop ≡ cnt)
unfolding query
query-IsPlane e obj parms cnt fbid h =
    let start : ℕ × Entry = (fbid, no_entry obj) in
    rw (h.told, query)
      (
        learn_all-parms parms e h.props start h.only_parms (inr h.some_parms),
        learn_all-cnt cnt e h.props start h.only_cnt (inr h.some_cnt),
      )

-- A plane that is new gets the next entry, if there is room and libdrm is found.
pub lookup-IsPlane :
    (e : Env) (obj parms cnt : ℕ) (s : Shim)
    → IsPlane e obj parms cnt
    → find_entry 0 obj s.cache ≡ none
    → length s.cache < max_obj
    → s.symbols.get_objprops && s.symbols.get_prop ≡ true
    → (fbid : ℕ) × (c : Entry) × (lookup e obj s
        ≡ (some (length s.cache), record s { cache = s.cache ++ c ∷ []; fbid_prop = fbid }))
      × (c.parms_prop ≡ parms)
      × (c.cnt_prop ≡ cnt)
unfolding add_entry lookup query
lookup-IsPlane e obj parms cnt s h new room there =
    let (p, n) = query-IsPlane e obj parms cnt s.fbid_prop h in
    let fits : ltb (length s.cache) max_obj ≡ true = ground arith in
    (
      (query e obj s.fbid_prop).0,
      (query e obj s.fbid_prop).1,
      rw (new, lookup) (rw (fits, there) refl),
      p,
      n,
    )
