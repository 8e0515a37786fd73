-- ===== src/Drm/Heap.antt =====
-- The arrays that are live at a point of a run, and what a valid run does with them.
use palma2pro_eos.Base.{ℕ, ◌<◌, ◌≡◌, refl, Option, none, some, List, [], ◌∷◌, ◌++◌}
use palma2pro_eos.Drm.{
  Block, crtcs, conns, planes, ids, vals, Call, open_card, set_client_cap, get_resources,
  get_plane_resources, calloc, read, free, obj_get_properties, get_property, close,
}

-- the sizes of the live arrays
pub record Heap : Type 0 where
  pub crtc_size : Option ℕ
  pub conn_size : Option ℕ
  pub plane_size : Option ℕ
  pub id_size : Option ℕ
  pub val_size : Option ℕ

abbrev pub nothing_live : Heap
nothing_live = record {
  crtc_size = none;
  conn_size = none;
  plane_size = none;
  id_size = none;
  val_size = none;
}

abbrev pub size : Block → Heap → Option ℕ
size crtcs h = h.crtc_size
size conns h = h.conn_size
size planes h = h.plane_size
size ids h = h.id_size
size vals h = h.val_size

abbrev pub resize : Block → Option ℕ → Heap → Heap
resize crtcs o h = record h { crtc_size = o }
resize conns o h = record h { conn_size = o }
resize planes o h = record h { plane_size = o }
resize ids o h = record h { id_size = o }
resize vals o h = record h { val_size = o }

-- the heap behind a call
unfoldable pub effect : Call → Heap → Heap
effect (calloc b n) h = resize b (some n) h
effect (free b) h = resize b none h
effect (read b i) h = h
effect open_card h = h
effect (set_client_cap c v) h = h
effect (get_resources c n) h = h
effect (get_plane_resources n) h = h
effect (obj_get_properties id type n) h = h
effect (get_property p) h = h
effect close h = h

-- A read is inside a live array, and only a live array is freed.
abbrev pub IsLive : Call → Heap → Type 0
IsLive (read b i) h = (n : ℕ) × (size b h ≡ some n) × (i < n)
IsLive (free b) h = (n : ℕ) × (size b h ≡ some n)
IsLive (calloc b n) h = Unit
IsLive open_card h = Unit
IsLive (set_client_cap c v) h = Unit
IsLive (get_resources c n) h = Unit
IsLive (get_plane_resources n) h = Unit
IsLive (obj_get_properties id type n) h = Unit
IsLive (get_property p) h = Unit
IsLive close h = Unit

unfoldable pub IsValid : Heap → List Call → Type 0
IsValid h [] = Unit
IsValid h (c ∷ calls) = IsLive c h × IsValid (effect c h) calls

unfoldable pub after : Heap → List Call → Heap
unfolding effect
after h [] = h
after h (c ∷ calls) = after (effect c h) calls

pub after-append : (h : Heap) (xs ys : List Call) → after h (xs ++ ys) ≡ after (after h xs) ys
unfolding after
after-append h [] ys = refl
after-append h (x ∷ xs) ys = after-append (effect x h) xs ys

pub IsValid-append :
    (h : Heap) (xs ys : List Call) → IsValid h xs → IsValid (after h xs) ys → IsValid h (xs ++ ys)
unfolding IsValid after
IsValid-append h [] ys x y = y
IsValid-append h (x ∷ xs) ys (l, v) y = (l, IsValid-append (effect x h) xs ys v y)
