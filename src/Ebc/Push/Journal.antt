-- ===== src/Ebc/Push/Journal.antt =====
-- The journal of ebcpush names the step before it is made.
use mathlib.Core.List.{append_assoc}
use palma2pro_eos.Base.{ℕ, zero, suc, ◌+◌, refl, inl, inr, List, [], ◌∷◌, ◌++◌, codes, Bool-cases}
use palma2pro_eos.Base.Int.{pos, pos_part, ltb_ℤ}
use palma2pro_eos.Ebc.Device.{Text, strcmp_eq, BufInfo, Call, jot, World, before, stop_at}
use palma2pro_eos.Ebc.Device.Journal.{
  IsJournalled, IsJournalled-any, stop_at-IsJournalled, if-IsJournalled,
}
use palma2pro_eos.Ebc.Push.{Options, row, rows, fill, send, draw, map, get, push}

row-IsJournalled :
    (width y x n : ℕ) (rest : List Call)
    → IsJournalled [] rest
    → IsJournalled [] (row width y x n ++ rest)
unfolding row
row-IsJournalled width y x zero rest h = h
row-IsJournalled width y x (suc n) rest h = row-IsJournalled width y (x + 1) n rest h

rows-IsJournalled :
    (width y n : ℕ) (rest : List Call)
    → IsJournalled [] rest
    → IsJournalled [] (rows width y n ++ rest)
unfolding rows
rows-IsJournalled width y zero rest h = h
rows-IsJournalled width y (suc n) rest h =
    rw (append_assoc (row width y 0 width) (rows width (y + 1) n) rest)
      (row-IsJournalled width y 0 width _ (rows-IsJournalled width (y + 1) n rest h))

fill-IsJournalled :
    (pattern : Text) (i : BufInfo) (rest : List Call)
    → IsJournalled [] rest
    → IsJournalled [] (fill pattern i ++ rest)
unfolding fill
fill-IsJournalled pattern i rest h = elim (Bool-cases (strcmp_eq pattern (codes "black"))) [
  | inl e ↦ rw e h
  | inr e ↦ elim (Bool-cases (strcmp_eq pattern (codes "white"))) [
    | inl f ↦ rw (e, f) h
    | inr f ↦ rw (e, f) (rows-IsJournalled (pos_part i.width) 0 (pos_part i.height) rest h)
  ]
]

module _ (w : World) (o : Options) where
  draw-IsJournalled : IsJournalled [] (draw w o).0
  unfolding draw send before
  draw-IsJournalled =
      let stop = stop_at o.stage (pos 3) "stage 3 done (nothing submitted)" (send w) in
      let i = w.answer (pos 0x7003) in
      IsJournalled-any _ (fill o.pattern i ++ jot "  filled" ∷ stop.0) (
        fill-IsJournalled o.pattern i (jot "  filled" ∷ stop.0) (
          stop_at-IsJournalled _ o.stage (pos 3) "stage 3 done (nothing submitted)" (send w)
            (inl (inr (inr (inl (refl, refl)))), tt)))

  map-IsJournalled : IsJournalled [] (map w o).0
  unfolding map before
  map-IsJournalled = (
    inl (inr refl),
    if-IsJournalled _ w.is_mapped
        (before (jot "  mmap ok at %p" ∷ [])
          (stop_at o.stage (pos 2) "stage 2 done (mapping untouched)" (draw w o)))
        (jot "  mmap failed: %s" ∷ [], pos 1)
        (stop_at-IsJournalled _ o.stage (pos 2) "stage 2 done (mapping untouched)" (draw w o)
          draw-IsJournalled)
        tt,
  )

  get-IsJournalled : IsJournalled [] (get w o).0
  unfolding get before
  get-IsJournalled = (
    inr (inl (inr (inl (refl, inr refl)))),
    if-IsJournalled _ (ltb_ℤ (w.rc (pos 0x7000)) (pos 0)) (jot "no buffer, stopping" ∷ [], pos 1)
        (stop_at o.stage (pos 1) "stage 1 done" (map w o)) tt
        (stop_at-IsJournalled _ o.stage (pos 1) "stage 1 done" (map w o) map-IsJournalled),
  )

  -- In every run of ebcpush behind its options, each request and the mapping is named by a line of
  -- the journal written since the last thing that was done on the device.
  pub push-IsJournalled : IsJournalled [] (push w o).0
  unfolding push before
  push-IsJournalled =
      if-IsJournalled [] (ltb_ℤ w.fd (pos 0)) (jot "open failed: %s" ∷ [], pos 1) _ tt
        (
          inl (inl (refl, refl)),
          stop_at-IsJournalled _ o.stage (pos 0) "stage 0 done" (get w o) get-IsJournalled,
        )
