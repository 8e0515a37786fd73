-- ===== src/Ebc/Probe/Journal.antt =====
-- The journal of ebcprobe names the step before it is made.
use palma2pro_eos.Base.{inl, inr, ℕ, zero, suc, ◌+◌, refl, List, [], ◌∷◌, ◌++◌}
use palma2pro_eos.Base.Int.{pos, ltb_ℤ}
use palma2pro_eos.Ebc.Device.{Call, jot, World, before, stop_at}
use palma2pro_eos.Ebc.Device.Journal.{
  IsJournalled, IsJournalled-any, stop_at-IsJournalled, if-IsJournalled,
}
use palma2pro_eos.Ebc.Probe.{Options, loads, submit, write, read, map, get, probe}

loads-IsJournalled :
    (i n : ℕ) (rest : List Call) → IsJournalled [] rest → IsJournalled [] (loads i n ++ rest)
unfolding loads
loads-IsJournalled i zero rest h = h
loads-IsJournalled i (suc n) rest h = loads-IsJournalled (i + 1) n rest h

module _ (w : World) (o : Options) where
  write-IsJournalled : IsJournalled [] (write w o).0
  unfolding write submit before
  write-IsJournalled =
      stop_at-IsJournalled _ o.stage (pos 4) "stage 4 done (no update submitted)" (submit w o)
        (inr (inl (inr (inr (inr (inl (refl, refl)))))), tt)

  read-IsJournalled : IsJournalled [] (read w o).0
  unfolding read before
  read-IsJournalled =
      let stop = stop_at o.stage (pos 3) "stage 3 done" (write w o) in
      IsJournalled-any _ (loads 0 4096 ++ jot "  read ok, checksum=%u" ∷ stop.0) (
        loads-IsJournalled 0 4096 (jot "  read ok, checksum=%u" ∷ stop.0)
          (stop_at-IsJournalled _ o.stage (pos 3) "stage 3 done" (write w o) write-IsJournalled))

  map-IsJournalled : IsJournalled [] (map w o).0
  unfolding map before
  map-IsJournalled = (
    inl (inl refl),
    if-IsJournalled _ w.is_mapped
        (before (jot "  mmap ok at %p" ∷ [])
          (stop_at o.stage (pos 2) "stage 2 done (not touching the mapping)" (read w o)))
        (jot "  mmap failed: %s" ∷ [], pos 1)
        (stop_at-IsJournalled _ o.stage (pos 2) "stage 2 done (not touching the mapping)" (read w o)
          read-IsJournalled)
        tt,
  )

  get-IsJournalled : IsJournalled [] (get w o).0
  unfolding get before
  get-IsJournalled = (
    inl (inr (inl (refl, inl refl))),
    stop_at-IsJournalled _ o.stage (pos 1) "stage 1 done" (map w o) map-IsJournalled,
  )

  -- In every run of ebcprobe behind its options, each request and the mapping is named by a line of
  -- the journal written since the last thing that was done on the device.
  pub probe-IsJournalled : IsJournalled [] (probe w o).0
  unfolding probe before
  probe-IsJournalled =
      if-IsJournalled [] (ltb_ℤ w.fd (pos 0)) (jot "open failed: %s" ∷ [], pos 1) _ tt
        (
          inl (inl (refl, refl)),
          stop_at-IsJournalled _ o.stage (pos 0) "stage 0 done" (get w o) get-IsJournalled,
        )
