-- ===== src/Publish.antt =====
-- SurfaceFlinger's half of the damage path, from
-- patches/main/0002-frameworks-native-surfaceflinger-publish-epd-damage.patch: `epdcDamageMap`,
-- `collectEpdcDamage`, `publishEpdcDamage` and the call in `finishFrame`. The android::Region is the
-- list of its rectangles in the order of its iterator; `getBounds`, the transform and the dirty
-- region of the output are SurfaceFlinger's own and are parameters.
pub mod Rects
pub mod Writes
pub mod Attach
pub mod Shown
pub mod Frames
pub mod Session
use palma2pro_eos.Base.{
  ℕ, zero, suc, ◌+◌, ◌*◌, ◌%◌, ◌^◌, Bool, true, false, not, ◌&&◌, ◌||◌, Option, none, some, List,
  [], ◌∷◌, ◌++◌, ltb, leb, ◌==◌, if◌then◌else◌, length,
}
use palma2pro_eos.Base.Int.{ℤ, pos, ltb_ℤ}
use palma2pro_eos.Shim.State.{Rect, epdc_damage_max, epdc_damage_magic, epdc_damage_version}
use palma2pro_eos.Seqlock.{Cells, update}

-- `struct epdc_damage_shm`: field k of rectangle i is cell 4 i + k.
pub record Page : Type 0 where
  pub magic : ℕ
  pub version : ℕ
  pub seq : ℕ
  pub cells : Cells

-- the stores to the mapping
pub data Store : Type 0 where
  store_magic : (word : ℕ) → Store
  store_version : (word : ℕ) → Store
  store_seq : (word : ℕ) → Store
  store_count : (word : ℕ) → Store
  store_full : (word : ℕ) → Store
  store_cell : (i : ℕ) → (a : ℤ) → Store

unfoldable pub perform : Store → Page → Page
perform (store_magic w) p = record p { magic = w }
perform (store_version w) p = record p { version = w }
perform (store_seq w) p = record p { seq = w }
perform (store_count w) p = record p { cells = record p.cells { count = w } }
perform (store_full w) p = record p { cells = record p.cells { full = w } }
perform (store_cell i a) p = record p { cells = record p.cells { cell = update p.cells.cell i a } }

unfoldable pub perform_all : List Store → Page → Page
perform_all [] p = p
perform_all (x ∷ xs) p = perform_all xs (perform x p)

-- What the kernel answers to the calls of `epdcDamageMap`.
pub record Platform : Type 0 where
  pub fd : ℤ
  pub truncates : Bool  -- `ftruncate` returns 0
  pub maps : Bool  -- `mmap` does not return MAP_FAILED

pub data Call : Type 0 where
  open_map : Call
  ftruncate : (fd : ℤ) → (size : ℕ) → Call
  mmap : (fd : ℤ) → (size : ℕ) → Call
  close : (fd : ℤ) → Call

-- the stores to a new mapping
abbrev pub init_stores : List Store
init_stores =
    store_count 0
    ∷ store_full 1
    ∷ store_version epdc_damage_version
    ∷ store_seq 2
    ∷ store_magic epdc_damage_magic
    ∷ []

-- the function that initialises `sMap`: whether there is a mapping, the calls and the stores
unfoldable pub make_map : Platform → Bool × List Call × List Store
make_map w =
    if ltb_ℤ w.fd (pos 0)
    then (false, open_map ∷ [], [])
    else if not w.truncates
    then (false, open_map ∷ ftruncate w.fd 4096 ∷ close w.fd ∷ [], [])
    else if not w.maps
    then (false, open_map ∷ ftruncate w.fd 4096 ∷ mmap w.fd 4096 ∷ close w.fd ∷ [], [])
    else (true, open_map ∷ ftruncate w.fd 4096 ∷ mmap w.fd 4096 ∷ close w.fd ∷ [], init_stores)

-- `epdcDamageMap`; `s_map` is none until the first call, and says then whether there is a mapping.
unfoldable pub epdc_damage_map : Platform → Option Bool → Bool × List Call × List Store
epdc_damage_map w none = make_map w
epdc_damage_map w (some mapped) = (mapped, [], [])

-- an output of SurfaceFlinger, as far as it is read
pub record Output : Type 0 where
  pub display_id : Bool  -- it is a physical display
  pub dirty : List Rect  -- `getDirtyRegion`, in layer stack space
  pub transform : List Rect → List Rect

unfoldable pub collect_epdc_damage : Output → List Rect
collect_epdc_damage o = o.transform o.dirty

-- the loop that counts, from `total`
unfoldable pub count_rects : List Rect → ℕ → ℕ
count_rects [] total = total
count_rects (r ∷ rs) total = count_rects rs (total + 1)

-- the loop that copies, at `n`
unfoldable pub copy_region : List Rect → ℕ → List Rect
copy_region [] n = []
copy_region (r ∷ rs) n =
    let rest = copy_region rs (n + 1) in if ltb n epdc_damage_max then r ∷ rest else []

-- The local `rects`, as far as it is filled; `n` is its length.
unfoldable pub pick_rects : (List Rect → Rect) → List Rect → Bool → List Rect
pick_rects get_bounds damage force =
    if force
    then []
    else if ltb 0 (count_rects damage 0) && leb (count_rects damage 0) epdc_damage_max
    then copy_region damage 0
    else if ltb epdc_damage_max (count_rects damage 0)
    then get_bounds damage ∷ []
    else []

-- the fields of the rectangles one after the other
unfoldable pub cell_of : List Rect → ℕ → ℤ
cell_of [] j = pos 0
cell_of (r ∷ rs) zero = r.left
cell_of (r ∷ rs) (suc zero) = r.top
cell_of (r ∷ rs) (suc (suc zero)) = r.right
cell_of (r ∷ rs) (suc (suc (suc zero))) = r.bottom
cell_of (r ∷ rs) (suc (suc (suc (suc j)))) = cell_of rs j

-- `forceFull || n == 0`
unfoldable pub full_word : List Rect → Bool → ℕ
full_word rects force = if force || length rects == 0 then 1 else 0

unfoldable pub publication : (List Rect → Rect) → List Rect → Bool → Cells
publication get_bounds damage force =
    let rects = pick_rects get_bounds damage force in
    record { count = length rects; full = full_word rects force; cell = cell_of rects }

-- the stores of `s->rect[i] = rects[i]`, from cell `next` on
unfoldable pub rect_stores : List Rect → ℕ → List Store
rect_stores [] next = []
rect_stores (r ∷ rs) next =
    store_cell next r.left
    ∷ store_cell (next + 1) r.top
    ∷ store_cell (next + 2) r.right
    ∷ store_cell (next + 3) r.bottom
    ∷ rect_stores rs (next + 4)

-- The stores of `publishEpdcDamage`; `word` is what the load of `seq` gives.
unfoldable pub publish_stores : (List Rect → Rect) → List Rect → Bool → ℕ → List Store
publish_stores get_bounds damage force word =
    let rects = pick_rects get_bounds damage force in
    let seq = (word + 1) % 2 ^ 32 in
    store_seq seq
    ∷ store_count (length rects)
    ∷ store_full (full_word rects force)
    ∷ (rect_stores rects 0 ++ store_seq ((seq + 1) % 2 ^ 32) ∷ [])

-- the rest of `publishEpdcDamage`, behind the call of `epdcDamageMap` with its outcome
unfoldable pub publish_to :
    (List Rect → Rect)
    → Page
    → List Rect
    → Bool
    → Bool × List Call × List Store
    → Bool × List Call × List Store
publish_to get_bounds page damage force (false, calls, stores) = (false, calls, stores)
publish_to get_bounds page damage force (true, calls, stores) =
    (true, calls, stores ++ publish_stores get_bounds damage force (perform_all stores page).seq)

-- `publishEpdcDamage` on a mapping whose memory is `page`: `s_map`, the calls and the stores
unfoldable pub publish :
    (List Rect → Rect)
    → Platform
    → Option Bool
    → Page
    → List Rect
    → Bool
    → Bool × List Call × List Store
publish get_bounds w s_map page damage force =
    publish_to get_bounds page damage force (epdc_damage_map w s_map)

-- the lines that the patch adds to `finishFrame`
unfoldable pub finish_frame :
    (List Rect → Rect)
    → Platform
    → Option Bool
    → Page
    → Output
    → Option Bool × List Call × List Store
finish_frame get_bounds w s_map page o =
    let (mapped, calls, stores) = publish get_bounds w s_map page (collect_epdc_damage o) false in
    if o.display_id then (some mapped, calls, stores) else (s_map, [], [])
