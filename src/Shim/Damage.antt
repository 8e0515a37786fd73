-- ===== src/Shim/Damage.antt =====
-- `attach_damage` and `read_damage`: the reader's side of src/epdc_damage.h.
pub mod Reads
use palma2pro_eos.Base.{
  ℕ, zero, suc, ◌+◌, ◌%◌, Bool, true, false, ◌&&◌, not, List, [], ◌∷◌, ltb, ◌==◌, if◌then◌else◌,
}
use palma2pro_eos.Base.Int.{ℤ, pos, int32, ltb_ℤ}
use palma2pro_eos.Shim.State.{
  Rect, Shim, Env, Attempt, Call, open_damage, mmap_damage, recheck, epdc_damage_max,
  epdc_damage_magic, epdc_damage_version,
}

-- the part behind the retry counter: open, map and check the header
unfoldable pub try_attach : Env → Shim → Shim × List Call
try_attach e s =
    if not (s.symbols.open_ && s.symbols.mmap)
    then (s, [])
    else if ltb_ℤ e.damage_fd (pos 0)
    then (s, open_damage ∷ [])
    else if not e.damage_map
    then (s, open_damage ∷ mmap_damage e.damage_fd ∷ [])
    else if e.magic == epdc_damage_magic && e.version == epdc_damage_version
    then (record s { attached = true }, open_damage ∷ mmap_damage e.damage_fd ∷ [])
    else (s, open_damage ∷ mmap_damage e.damage_fd ∷ [])

unfoldable pub attach_damage : Env → Shim → Shim × List Call
attach_damage e s =
    if s.attached
    then (s, [])
    else if ltb (s.dmg_tried + 1) recheck
    then (record s { dmg_tried = s.dmg_tried + 1 }, [])
    else try_attach e (record s { dmg_tried = 0 })

-- What `read_damage` returns: `rects` is the filled part of `out`, its length the result.
pub record Read : Type 0 where
  pub rects : List Rect
  pub full : ℤ
  pub changed : Bool
  pub last_dmg_seq : ℕ

-- `out[i … i + n - 1]`
unfoldable pub copy_rects : (ℕ → Rect) → ℕ → ℕ → List Rect
copy_rects rect i zero = []
copy_rects rect i (suc n) = rect i ∷ copy_rects rect (i + 1) n

unfoldable pub clip_count : ℕ → ℕ
clip_count n = if ltb epdc_damage_max n then epdc_damage_max else n

-- neither of the two `continue`s is taken
unfoldable pub accepts : Attempt → Bool
accepts a = not (a.s1 % 2 == 1) && a.s1 == a.s2

unfoldable pub accepted : Attempt → ℕ → Read
accepted a last = record {
  rects = copy_rects a.rect 0 (clip_count a.count);
  full = int32 (pos a.full);
  changed = not (a.s1 == last);
  last_dmg_seq = a.s1;
}

unfoldable pub unusable : ℕ → Read
unusable last = record { rects = []; full = pos 0; changed = true; last_dmg_seq = last }

-- the loop with `k` attempts left, at attempt `i`
unfoldable pub attempts : (ℕ → Attempt) → ℕ → ℕ → ℕ → Read
attempts look zero i last = unusable last
attempts look (suc k) i last =
    let rest = attempts look k (i + 1) last in
    if accepts (look i) then accepted (look i) last else rest

unfoldable pub read_damage : Env → Shim → Read
read_damage e s =
    if s.attached then attempts e.attempt 4 0 s.last_dmg_seq else unusable s.last_dmg_seq
