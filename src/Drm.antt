-- ===== src/Drm.antt =====
-- src/drmprops.c: the list of the display driver's objects and their properties.
pub mod Heap
pub mod Memory
pub mod Bound
use palma2pro_eos.Base.{
  ℕ, zero, suc, ◌+◌, Bool, true, false, not, ◌&&◌, ◌||◌, List, [], ◌∷◌, ◌++◌, ◌==◌, if◌then◌else◌,
}
use palma2pro_eos.Base.Int.{ℤ, pos, ltb_ℤ}

-- the arrays that are allocated
pub data Block : Type 0 where
  crtcs : Block
  conns : Block
  planes : Block
  ids : Block
  vals : Block

-- What the kernel answers; a `count` is what stands in the field of the struct behind the call.
pub record Env : Type 0 where
  pub fd : ℤ
  pub resources_ok : Bool  -- of the first GETRESOURCES
  pub nc : ℕ
  pub nn : ℕ
  pub count_crtcs : ℕ  -- behind the second
  pub count_connectors : ℕ
  pub np : ℕ
  pub count_planes : ℕ  -- behind the second
  pub object_of : Block → ℕ → ℕ  -- the members of the first three arrays
  pub first_ok : (id type : ℕ) → Bool  -- of the first OBJ_GETPROPERTIES for an object
  pub first_count : (id type : ℕ) → ℕ
  pub second_ok : (id type : ℕ) → Bool
  pub second_count : (id type : ℕ) → ℕ
  pub prop_of : (id type i : ℕ) → ℕ
  pub property_ok : (prop : ℕ) → Bool

pub data Call : Type 0 where
  open_card : Call
  set_client_cap : (capability value : ℕ) → Call
  get_resources : (count_crtcs count_connectors : ℕ) → Call
  get_plane_resources : (count_planes : ℕ) → Call
  calloc : Block → (members : ℕ) → Call
  read : Block → (i : ℕ) → Call
  free : Block → Call
  obj_get_properties : (id type count_props : ℕ) → Call
  get_property : (prop : ℕ) → Call
  close : Call

-- the loop over the properties of an object, with `n` turns left, at i
unfoldable pub dump_props : Env → (id type n i : ℕ) → List Call
dump_props e id type zero i = []
dump_props e id type (suc n) i =
    let prop = e.prop_of id type i in
    let rest = dump_props e id type n (i + 1) in
    if e.property_ok prop
    then read ids i ∷ get_property prop ∷ read ids i ∷ read vals i ∷ rest
    else read ids i ∷ get_property prop ∷ rest

-- from the second call on
unfoldable pub dump_second : Env → (id type : ℕ) → List Call
unfolding dump_props
dump_second e id type =
    let props =
      if e.second_ok id type then dump_props e id type (e.second_count id type) 0 else [] in
    obj_get_properties id type (e.first_count id type) ∷ (props ++ (free ids ∷ free vals ∷ []))

unfoldable pub dump_obj : Env → (id type : ℕ) → List Call
unfolding dump_second
dump_obj e id type =
    let n = e.first_count id type in
    if not (e.first_ok id type) || n == 0
    then obj_get_properties id type 0 ∷ []
    else obj_get_properties id type 0 ∷ calloc ids n ∷ calloc vals n ∷ dump_second e id type

-- a loop over the objects of an array, with `n` turns left, at i
unfoldable pub dump_objs : Env → Block → (type n i : ℕ) → List Call
unfolding dump_obj
dump_objs e b type zero i = []
dump_objs e b type (suc n) i =
    read b i ∷ (dump_obj e (e.object_of b i) type ++ dump_objs e b type n (i + 1))

-- `n ? n : 1`
abbrev pub one_or : ℕ → ℕ
one_or n = if n == 0 then 1 else n

unfoldable pub client_caps : List Call
client_caps = set_client_cap 2 1 ∷ set_client_cap 3 1 ∷ []

-- the arrays of the objects, with the calls that fill them
unfoldable pub get_arrays : Env → List Call
get_arrays e =
    calloc crtcs (one_or e.nc)
    ∷ calloc conns (one_or e.nn)
    ∷ get_resources e.nc e.nn
    ∷ get_plane_resources 0
    ∷ calloc planes (one_or e.np)
    ∷ get_plane_resources e.np
    ∷ []

-- the loops over the objects of each kind
unfoldable pub dump_all : Env → List Call
unfolding dump_objs
dump_all e =
    dump_objs e crtcs 0xcccccccc e.count_crtcs 0
    ++ dump_objs e conns 0xc0c0c0c0 e.count_connectors 0
    ++ dump_objs e planes 0xeeeeeeee e.count_planes 0

-- with the exit status
unfoldable pub main : Env → List Call × ℤ
unfolding client_caps get_arrays dump_all
main e =
    if ltb_ℤ e.fd (pos 0)
    then (open_card ∷ [], pos 1)
    else if not e.resources_ok
    then ((open_card ∷ []) ++ client_caps ++ (get_resources 0 0 ∷ []), pos 1)
    else (
      (open_card ∷ [])
          ++ client_caps
          ++ (get_resources 0 0 ∷ [])
          ++ get_arrays e
          ++ dump_all e
          ++ (close ∷ []),
      pos 0,
    )
