-- ===== src/Shim/Lookup.antt =====
-- `lookup`: the cache of property ids, one entry for each object that was asked about.
pub mod Cache
pub mod Results
pub mod Planes
use palma2pro_eos.Base.{
  ℕ, zero, suc, ◌+◌, Bool, ◌&&◌, not, Option, none, some, List, [], ◌∷◌, ◌++◌, ltb, ◌==◌,
  if◌then◌else◌, length, codes,
}
use palma2pro_eos.Shim.State.{Entry, Shim, Env, PropRes, max_obj}
use palma2pro_eos.Shim.Numbers.{str_eq}

-- the first loop, from index `i`
unfoldable pub find_entry : ℕ → ℕ → List Entry → Option ℕ
find_entry i obj [] = none
find_entry i obj (c ∷ cs) =
    let rest = find_entry (i + 1) obj cs in if c.obj == obj then some i else rest

-- What one turn of the loop over the properties learns: `g_fbid_prop` and the new entry.
unfoldable pub learn : PropRes → ℕ × Entry → ℕ × Entry
learn r (fbid, c) = (
  if str_eq r.name (codes "FB_ID") then r.prop_id else fbid,
  if str_eq r.name (codes "EPDC_UPDATE_PARMS_ADDR")
      then record c { parms_prop = r.prop_id }
      else if str_eq r.name (codes "EPDC_UPDATE_CNT")
      then record c { cnt_prop = r.prop_id }
      else c,
)

-- the loop; a property that cannot be read is skipped
unfoldable pub learn_all : Env → List ℕ → ℕ × Entry → ℕ × Entry
learn_all e [] k = k
learn_all e (p ∷ ps) k = learn_all e ps (elim (e.property p) [ none ↦ k | some r ↦ learn r k ])

abbrev pub no_entry : ℕ → Entry
no_entry obj = record { obj = obj; parms_prop = 0; cnt_prop = 0 }

-- what the calls of libdrm for `obj` yield; an object that is no plane is remembered with zeros
unfoldable pub query : Env → ℕ → ℕ → ℕ × Entry
unfolding learn learn_all
query e obj fbid = elim (e.objprops obj) [
  | none ↦ (fbid, no_entry obj)
  | some ps ↦ learn_all e ps (fbid, no_entry obj)
]

unfoldable pub add_entry : Env → ℕ → Shim → Option ℕ × Shim
add_entry e obj s =
    let (fbid, c) = query e obj s.fbid_prop in
    (some (length s.cache), record s { cache = s.cache ++ c ∷ []; fbid_prop = fbid })

-- the index in the cache; `none` is -1
unfoldable pub lookup : Env → ℕ → Shim → Option ℕ × Shim
unfolding add_entry
lookup e obj s = elim (find_entry 0 obj s.cache) [
  | some i ↦ (some i, s)
  | none ↦
      if not (ltb (length s.cache) max_obj)
      then (none, s)
      else if not (s.symbols.get_objprops && s.symbols.get_prop)
      then (none, s)
      else add_entry e obj s
]
