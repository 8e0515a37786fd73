-- ===== src/Publish/Rects.antt =====
-- What is published, as the reader of src/epdcshim.c gets it.
use palma2pro_eos.Base.{
  ℕ, zero, suc, ◌+◌, ◌*◌, ◌%◌, ◌^◌, ◌≤◌, ◌<◌, ◌≡◌, refl, ap, ◌∙◌, ◌⊎◌, inl, inr, Bool, true, false,
  List, [], ◌∷◌, arith, length, Any, Bool-cases, ltb, leb,
}
use palma2pro_eos.Base.Int.{pos, int32}
use palma2pro_eos.Shim.State.{Rect, epdc_damage_max}
use palma2pro_eos.Shim.Damage.{clip_count, copy_rects, accepted}
use palma2pro_eos.Shim.Parms.Panel.{Contains, IsDamaged}
use palma2pro_eos.Seqlock.{rect_at, attempt_at}
use palma2pro_eos.Publish.{count_rects, copy_region, pick_rects, cell_of, full_word, publication}

count_rects-length : (rs : List Rect) (n : ℕ) → count_rects rs n ≡ n + length rs
unfolding count_rects
count_rects-length [] n = omega arith
count_rects-length (r ∷ rs) n = count_rects-length rs (n + 1) ∙ omega arith

copy_region-whole :
    (rs : List Rect) (n : ℕ) → n + length rs ≤ epdc_damage_max → copy_region rs n ≡ rs
unfolding copy_region
copy_region-whole [] n fits = refl
copy_region-whole (r ∷ rs) n fits =
    let less : ltb n epdc_damage_max ≡ true = ground arith in
    rw less (ap (λ x. r ∷ x) (copy_region-whole rs (n + 1) (omega arith)))

-- The three outcomes of the choice of rectangles.
pub data Picked (get_bounds : List Rect → Rect) (damage : List Rect) (force : Bool)
    : List Rect → Type 0 where
  nothing : (force ≡ true) ⊎ (damage ≡ []) → Picked get_bounds damage force []
  each :
      force ≡ false
      → 0 < length damage
      → length damage ≤ epdc_damage_max
      → Picked get_bounds damage force damage
  bounds :
      force ≡ false
      → epdc_damage_max < length damage
      → Picked get_bounds damage force (get_bounds damage ∷ [])

count-length : (rs : List Rect) → count_rects rs 0 ≡ length rs
count-length rs = count_rects-length rs 0 ∙ omega arith

module _ (get_bounds : List Rect → Rect) where
  pub pick_rects-Picked :
      (damage : List Rect) (force : Bool)
      → Picked get_bounds damage force (pick_rects get_bounds damage force)
  unfolding pick_rects
  pick_rects-Picked damage true = nothing (inl refl)
  pick_rects-Picked [] false = rw (count-length, ltb, leb) (nothing (inr refl))
  pick_rects-Picked (d ∷ ds) false =
      let some_left : ltb 0 (length (d ∷ ds)) ≡ true = ground arith in
      elim (Bool-cases (leb (length (d ∷ ds)) epdc_damage_max)) [
        | inl few ↦
            rw (count-length (d ∷ ds), some_left, few, copy_region-whole (d ∷ ds) 0 (ground arith))
              (each refl (omega arith) (ground arith))
        | inr many ↦
            let over : ltb epdc_damage_max (length (d ∷ ds)) ≡ true = ground arith in
            rw (count-length (d ∷ ds), some_left, many, over) (bounds refl (ground arith))
      ]

  Picked-few :
      {damage : List Rect} {force : Bool} (rects : List Rect)
      → Picked get_bounds damage force rects
      → length rects ≤ epdc_damage_max
  Picked-few rects (nothing h) = omega arith
  Picked-few rects (each h some_left few) = few
  Picked-few rects (bounds h many) = omega arith

  pub publication-few :
      (damage : List Rect) (force : Bool)
      → (publication get_bounds damage force).count ≤ epdc_damage_max
  unfolding publication
  publication-few damage force = Picked-few _ (pick_rects-Picked damage force)

cell_of-next :
    (r : Rect) (rs : List Rect) (i j : ℕ)
    → cell_of (r ∷ rs) (4 * (i + 1) + j) ≡ cell_of rs (4 * i + j)
unfolding cell_of
cell_of-next r rs i j =
    let e : 4 * (i + 1) + j ≡ suc (suc (suc (suc (4 * i + j)))) = omega arith in rw e refl

rect_at-next :
    (r : Rect) (rs : List Rect) (i : ℕ)
    → rect_at (cell_of (r ∷ rs)) (i + 1) ≡ rect_at (cell_of rs) i
rect_at-next r rs i =
    let e : 4 * (i + 1) ≡ 4 * (i + 1) + 0 = omega arith in
    let e' : 4 * i + 0 ≡ 4 * i = omega arith in
    rw (
      ap (cell_of (r ∷ rs)) e ∙ cell_of-next r rs i 0 ∙ ap (cell_of rs) e',
      cell_of-next r rs i 1,
      cell_of-next r rs i 2,
      cell_of-next r rs i 3,
    )

copy_rects-next :
    (r : Rect) (rs : List Rect) (i k : ℕ)
    → copy_rects (rect_at (cell_of (r ∷ rs))) (i + 1) k ≡ copy_rects (rect_at (cell_of rs)) i k
unfolding copy_rects
copy_rects-next r rs i zero = refl
copy_rects-next r rs i (suc k) =
    rw (copy_rects-next r rs (i + 1) k)
      (ap (λ x. x ∷ copy_rects (rect_at (cell_of rs)) (i + 1) k) (rect_at-next r rs i))

rect_at-first : (r : Rect) (rs : List Rect) → rect_at (cell_of (r ∷ rs)) 0 ≡ r
unfolding cell_of
rect_at-first r rs = refl

-- The reader gets back the rectangles that were written.
copy_rects-cell_of : (rs : List Rect) → copy_rects (rect_at (cell_of rs)) 0 (length rs) ≡ rs
unfolding copy_rects
copy_rects-cell_of [] = refl
copy_rects-cell_of (r ∷ rs) =
    rw (copy_rects-next r rs 0 (length rs), copy_rects-cell_of rs)
      (ap (λ x. x ∷ rs) (rect_at-first r rs))

clip_count-few : (n : ℕ) → n ≤ epdc_damage_max → clip_count n ≡ n
unfolding clip_count
clip_count-few n few = ground arith

-- The pixel has changed: the caller forces a full refresh, or a rectangle of the region holds it.
abbrev pub IsChanged : ℕ → ℕ → List Rect → Bool → Type 0
IsChanged x y damage force = (force ≡ true) ⊎ Any (Contains x y) damage

-- As `getBounds` is documented: the bounding rectangle holds what the rectangles hold.
abbrev pub Bounds : (List Rect → Rect) → Type 0
Bounds get_bounds =
    (x y : ℕ) (region : List Rect) → Any (Contains x y) region → Contains x y (get_bounds region)

module _ (get_bounds : List Rect → Rect) where
  -- Whatever the region and whether or not a full refresh is forced: an undisturbed attempt on
  -- what `publishEpdcDamage` writes returns exactly the rectangles it has chosen, none of them
  -- dropped, with its full flag and the sequence number of the publication.
  pub publication-read :
      (damage : List Rect) (force : Bool) (v last : ℕ)
      → let rects = pick_rects get_bounds damage force in
        let r = accepted (attempt_at v (publication get_bounds damage force)) last in
        (r.rects ≡ rects)
        × (length rects ≤ epdc_damage_max)
        × (r.full ≡ pos (full_word rects force))
        × (r.last_dmg_seq ≡ v % 2 ^ 32)
  unfolding accepted publication full_word int32
  publication-read damage force v last =
      let rects = pick_rects get_bounds damage force in
      let few : length rects ≤ epdc_damage_max =
        Picked-few get_bounds rects (pick_rects-Picked get_bounds damage force) in
      (rw (clip_count-few (length rects) few) (copy_rects-cell_of rects), few, ground arith, refl)

  Picked-IsDamaged :
      (x y : ℕ) {damage : List Rect} {force : Bool} (rects : List Rect)
      → Bounds get_bounds
      → IsChanged x y damage force
      → Picked get_bounds damage force rects
      → IsDamaged x y rects (pos (full_word rects force))
  unfolding full_word
  Picked-IsDamaged x y rects holds h (nothing why) = inr (inl refl)
  Picked-IsDamaged x y rects holds (inl f) (each h some_left few) = absurd (cc (f, h))
  Picked-IsDamaged x y rects holds (inr p) (each h some_left few) = inr (inr p)
  Picked-IsDamaged x y rects holds (inl f) (bounds h many) = absurd (cc (f, h))
  Picked-IsDamaged x y {damage} rects holds (inr p) (bounds h many) =
      inr (inr (inl (holds x y damage p)))

  -- The pixel is refreshed by whoever honours what an undisturbed attempt returns.
  pub publication-IsDamaged :
      (x y : ℕ) (damage : List Rect) (force : Bool) (v last : ℕ)
      → Bounds get_bounds
      → IsChanged x y damage force
      → let r = accepted (attempt_at v (publication get_bounds damage force)) last in
        IsDamaged x y r.rects r.full
  publication-IsDamaged x y damage force v last holds h =
      let (same, few, full, seq) = publication-read damage force v last in
      rw (same, full) (Picked-IsDamaged x y _ holds h (pick_rects-Picked get_bounds damage force))
