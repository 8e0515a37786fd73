-- ===== src/Ebc/Push/Frame.antt =====
-- The bytes that ebcpush writes.
use Prim.Native.String.{String}
use native.Mathlib.Nat.{mul_comm, mul-le-mul_right}
use palma2pro_eos.Base.{
  ℕ, zero, suc, ◌+◌, ◌*◌, ◌%◌, ◌^◌, ◌≤◌, ◌<◌, ◌≡◌, refl, subst, inl, inr, arith, codes, ltb,
  if◌then◌else◌, All, All-append, Bool-cases,
}
use palma2pro_eos.Base.Int.{ℤ, pos, negsuc, ltb_ℤ, pos_part, to_word, IsInt32, eqb_ℤ}
use palma2pro_eos.Ebc.Device.{
  Text, strcmp_eq, BufInfo, Call, jot, open_ebc, ioctl, mmap, load, store, memset, close, World,
  Run, stop_at,
}
use palma2pro_eos.Ebc.Push.{Options, frame_len, row, rows, fill, send, draw, map, get, push}
use palma2pro_eos.Ebc.Device.Stages.{before-All, if-All}

-- The call maps just `len` bytes, or writes or reads below them, or does not touch the mapping.
abbrev pub IsInside : ℕ → Call → Type 0
IsInside len (store a v) = a < len
IsInside len (memset v n) = n ≤ len
IsInside len (load a) = a < len
IsInside len (jot _) = Unit
IsInside len open_ebc = Unit
IsInside len (ioctl _ _ _) = Unit
IsInside len (mmap _ n _) = n ≡ len
IsInside len (close _) = Unit

row-IsInside :
    (len width y x n : ℕ) → y * width + x + n ≤ len → All (IsInside len) (row width y x n)
unfolding row
row-IsInside len width y x zero h = tt
row-IsInside len width y x (suc n) h =
    (omega arith, row-IsInside len width y (x + 1) n (omega arith))

rows_step : (width y n len : ℕ) → (y + suc n) * width ≤ len → y * width + 0 + width ≤ len
rows_step width y n len h = omega (arith, mul-le-mul_right width (the_le y n))
  where
    the_le : (y n : ℕ) → suc y ≤ y + suc n
    the_le y n = omega arith

rows-IsInside : (len width y n : ℕ) → (y + n) * width ≤ len → All (IsInside len) (rows width y n)
unfolding rows
rows-IsInside len width y zero h = tt
rows-IsInside len width y (suc n) h =
    All-append (IsInside len) (row width y 0 width) (rows width (y + 1) n)
      (row-IsInside len width y 0 width (rows_step width y n len h))
      (rows-IsInside len width (y + 1) n (subst (λ m. m * width ≤ len) (omega arith) h))

small : (w h : ℕ) → w ≤ 2 ^ 31 → h ≤ 2 ^ 31 → w * h < 2 ^ 64
small w h hw hh = omega (arith, mul-le-mul_right h hw)

word_of_small : (n : ℕ) → n < 2 ^ 64 → n % 2 ^ 64 ≡ n
word_of_small n h = omega arith

at_least : (n : ℕ) → n ≤ (if ltb n 4096 then 4096 else n)
at_least n = ground arith

area_lem :
    (w h : ℤ)
    → IsInt32 w
    → IsInt32 h
    → let len = to_word (2 ^ 64) w * to_word (2 ^ 64) h % 2 ^ 64 in
      pos_part h * pos_part w ≤ (if ltb len 4096 then 4096 else len)
area_lem (negsuc w) h hw hh = omega arith
area_lem (pos w) (negsuc h) hw hh = omega arith
area_lem (pos w) (pos h) hw hh =
    let e₁ : w % 2 ^ 64 ≡ w = omega arith in
    let e₂ : h % 2 ^ 64 ≡ h = omega arith in
    let e₃ : w * h % 2 ^ 64 ≡ w * h =
      word_of_small (w * h) (small w h (omega arith) (omega arith)) in
    rw (e₁, e₂, e₃, mul_comm h w) (at_least (w * h))

-- the product of two non-negative `int`s is not cut
frame_len_lem :
    (i : BufInfo)
    → IsInt32 i.width
    → IsInt32 i.height
    → pos_part i.height * pos_part i.width ≤ frame_len i
unfolding frame_len
frame_len_lem i hw hh = area_lem i.width i.height hw hh

-- what is drawn stays below `frame_len`
fill-IsInside :
    (pattern : Text) (i : BufInfo)
    → IsInt32 i.width
    → IsInt32 i.height
    → All (IsInside (frame_len i)) (fill pattern i)
unfolding fill
fill-IsInside pattern i hw hh = elim (Bool-cases (strcmp_eq pattern (codes "black"))) [
  | inl e ↦ rw e (omega arith, tt)
  | inr e ↦ elim (Bool-cases (strcmp_eq pattern (codes "white"))) [
    | inl f ↦ rw (e, f) (omega arith, tt)
    | inr f ↦
        rw (e, f)
          (rows-IsInside (frame_len i) (pos_part i.width) 0 (pos_part i.height)
            (omega (arith, frame_len_lem i hw hh)))
  ]
]

stop_at-IsInside :
    (len : ℕ) (stage k : ℤ) (line : String) (r : Run)
    → All (IsInside len) r.0
    → All (IsInside len) (stop_at stage k line r).0
unfolding stop_at
stop_at-IsInside len stage k line r h = if-All (IsInside len) (eqb_ℤ stage k) _ r (tt, tt) h

module _ (w : World) (o : Options) (hw : IsInt32 (w.answer (pos 0x7003)).width)
    (hh : IsInt32 (w.answer (pos 0x7003)).height) where
  abbrev len : ℕ
  len = frame_len (w.answer (pos 0x7003))

  draw-IsInside : All (IsInside len) (draw w o).0
  unfolding draw send
  draw-IsInside =
      before-All (IsInside len) _ _ (tt, tt)
        (before-All (IsInside len) _ _ (fill-IsInside o.pattern (w.answer (pos 0x7003)) hw hh) (
          before-All (IsInside len) _ _ (tt, tt)
            (stop_at-IsInside len o.stage (pos 3) _ (send w) (tt, (tt, (tt, (tt, tt)))))))

  map-IsInside : All (IsInside len) (map w o).0
  unfolding map
  map-IsInside =
      before-All (IsInside len) _ _ (tt, (refl, tt))
        (if-All (IsInside len) w.is_mapped _ _
          (before-All (IsInside len) _ _ (tt, tt)
            (stop_at-IsInside len o.stage (pos 2) _ (draw w o) draw-IsInside))
          (tt, tt))

  get-IsInside : All (IsInside len) (get w o).0
  unfolding get
  get-IsInside =
      before-All (IsInside len) _ _ (tt, (tt, (tt, (tt, (tt, tt)))))
        (if-All (IsInside len) (ltb_ℤ (w.rc (pos 0x7000)) (pos 0)) _ _ (tt, tt)
          (stop_at-IsInside len o.stage (pos 1) _ (map w o) map-IsInside))

-- Where the width and height that the driver gives are values of an `int`: for every pattern, stage
-- and answer of the device there is a length such that a run of ebcpush behind its options maps just
-- that, and every byte that it stores and every block that it fills lies inside it.
pub push-IsInside :
    (w : World) (o : Options)
    → IsInt32 (w.answer (pos 0x7003)).width
    → IsInt32 (w.answer (pos 0x7003)).height
    → (len : ℕ) × All (IsInside len) (push w o).0
unfolding push
push-IsInside w o hw hh =
    let len = frame_len (w.answer (pos 0x7003)) in
    (
      len,
      before-All (IsInside len) _ _ (tt, (tt, tt))
          (if-All (IsInside len) (ltb_ℤ w.fd (pos 0)) _ _ (tt, tt)
            (before-All (IsInside len) _ _ (tt, (tt, (tt, (tt, (tt, tt)))))
              (stop_at-IsInside len o.stage (pos 0) _ (get w o) (get-IsInside w o hw hh)))),
    )
