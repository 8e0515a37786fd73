-- ===== src/Ebc/Push/Levels.antt =====
-- What a stage of ebcpush may do, and that a lower stage does the beginning of it.
use palma2pro_eos.Base.{
  ℕ, zero, suc, ◌+◌, ◌≤◌, ◌<◌, inl, inr, [], ◌∷◌, arith, codes, if◌then◌else◌, All, All-append,
  Bool-cases,
}
use palma2pro_eos.Base.Int.{pos, pos_part, ltb_ℤ, eqb_ℤ}
use palma2pro_eos.Ebc.Device.{
  Text, strcmp_eq, BufInfo, Call, jot, open_ebc, ioctl, mmap, load, store, memset, close, World,
  Run,
}
use palma2pro_eos.Ebc.Device.Stages.{
  Begins, Begins-refl, before-All, if-Begins, if-All, before-Begins, stop_at-Begins, stop_at-All,
}
use palma2pro_eos.Ebc.Push.{Options, row, rows, fill, send, draw, map, get, push}

abbrev pub push_at : Options → ℕ → Options
push_at o i = record o { stage = pos i }

module _ (w : World) (o : Options) (i j : ℕ) (h : i ≤ j) where
  draw-Begins : 2 < i → Begins (draw w (push_at o i)) (draw w (push_at o j))
  unfolding draw
  draw-Begins hi = before-Begins _ _ _ (
      before-Begins _ _ _
        (before-Begins _ _ _ (stop_at-Begins i j 3 _ _ _ hi h (λ _. Begins-refl (send w)))))

  map-Begins : 1 < i → Begins (map w (push_at o i)) (map w (push_at o j))
  unfolding map
  map-Begins hi = before-Begins _ _ _ (
      if-Begins w.is_mapped _ _ _ _
        (before-Begins _ _ _ (stop_at-Begins i j 2 _ _ _ hi h draw-Begins))
        (Begins-refl (jot "  mmap failed: %s" ∷ [], pos 1)))

  get-Begins : 0 < i → Begins (get w (push_at o i)) (get w (push_at o j))
  unfolding get
  get-Begins hi = before-Begins _ _ _ (
      if-Begins _ _ _ _ _ (Begins-refl (jot "no buffer, stopping" ∷ [], pos 1))
        (stop_at-Begins i j 1 _ _ _ hi h map-Begins))

  -- For stages i ≤ j of ebcpush with the same options, in the same world: what stage i does on the
  -- device is the beginning of what stage j does.
  pub push-Begins : Begins (push w (push_at o i)) (push w (push_at o j))
  unfolding push
  push-Begins = before-Begins _ _ _ (
      if-Begins _ _ _ _ _ (Begins-refl (jot "open failed: %s" ∷ [], pos 1))
        (before-Begins _ _ _ (stop_at-Begins i j 0 _ _ _ (omega arith) h get-Begins)))

-- the stage that first does such a thing: the requests 0x7003, 0x7000 and 0x7001 are of stages 0, 1
-- and 4, the mapping is of stage 2, and touching it of stage 3
abbrev pub level : Call → ℕ
level (ioctl fd request arg) =
    if eqb_ℤ request (pos 0x7003) then 0 else if eqb_ℤ request (pos 0x7000) then 1 else 4
level (mmap _ _ _) = 2
level (load _) = 3
level (store _ _) = 3
level (memset _ _) = 3
level (jot _) = 0
level open_ebc = 0
level (close _) = 0

row-level : (width y x n i : ℕ) → 3 ≤ i → All (λ c. level c ≤ i) (row width y x n)
unfolding row
row-level width y x zero i h = tt
row-level width y x (suc n) i h = (h, row-level width y (x + 1) n i h)

rows-level : (width y n i : ℕ) → 3 ≤ i → All (λ c. level c ≤ i) (rows width y n)
unfolding rows
rows-level width y zero i h = tt
rows-level width y (suc n) i h =
    All-append _ (row width y 0 width) _ (row-level width y 0 width i h)
      (rows-level width (y + 1) n i h)

fill-level :
    (pattern : Text) (b : BufInfo) (i : ℕ) → 3 ≤ i → All (λ c. level c ≤ i) (fill pattern b)
unfolding fill
fill-level pattern b i h = elim (Bool-cases (strcmp_eq pattern (codes "black"))) [
  | inl e ↦ rw e (h, tt)
  | inr e ↦ elim (Bool-cases (strcmp_eq pattern (codes "white"))) [
    | inl f ↦ rw (e, f) (h, tt)
    | inr f ↦ rw (e, f) (rows-level (pos_part b.width) 0 (pos_part b.height) i h)
  ]
]

module _ (w : World) (o : Options) (i : ℕ) where
  abbrev IsLow : Call → Type 0
  IsLow c = level c ≤ i

  abbrev Fits : Run → Type 0
  Fits a = All IsLow a.0

  draw-level : 2 < i → Fits (draw w (push_at o i))
  unfolding draw send
  draw-level h =
      before-All IsLow _ _ (omega arith, tt)
        (before-All IsLow _ _ (fill-level o.pattern _ i h) (
          before-All IsLow _ _ (omega arith, tt)
            (stop_at-All IsLow i 3 _ _ h (omega arith) (λ further. ground arith))))

  map-level : 1 < i → Fits (map w (push_at o i))
  unfolding map
  map-level h =
      before-All IsLow _ _ (omega arith, (h, tt))
        (if-All IsLow w.is_mapped _ (jot "  mmap failed: %s" ∷ [], pos 1)
          (before-All IsLow _ _ (omega arith, tt)
            (stop_at-All IsLow i 2 _ _ h (omega arith) draw-level))
          (omega arith, tt))

  get-level : 0 < i → Fits (get w (push_at o i))
  unfolding get
  get-level h = before-All IsLow _ _ (ground arith) (
      if-All IsLow (ltb_ℤ (w.rc (pos 0x7000)) (pos 0)) (jot "no buffer, stopping" ∷ [], pos 1) _
        (omega arith, tt)
        (stop_at-All IsLow i 1 "stage 1 done" (map w (push_at o i)) h (omega arith) map-level))

  -- Stage i of ebcpush does only what the stages up to i are for: below stage 4 no buffer is sent,
  -- below 3 the mapping is not touched, below 2 nothing is mapped, and stage 0 asks for the geometry
  -- alone.
  pub push-level : Fits (push w (push_at o i))
  unfolding push
  push-level =
      before-All IsLow _ _ (omega arith, (omega arith, tt))
        (if-All IsLow (ltb_ℤ w.fd (pos 0)) (jot "open failed: %s" ∷ [], pos 1) _ (omega arith, tt)
          (before-All IsLow _ _ (ground arith)
            (stop_at-All IsLow i 0 _ _ (omega arith) (omega arith) get-level)))
