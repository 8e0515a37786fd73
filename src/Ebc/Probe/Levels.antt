-- ===== src/Ebc/Probe/Levels.antt =====
-- What a stage of ebcprobe may do, and that a lower stage does the beginning of it.
use palma2pro_eos.Base.{ℕ, zero, suc, ◌+◌, ◌≤◌, ◌<◌, ◌≡◌, refl, [], ◌∷◌, arith, if◌then◌else◌, All}
use palma2pro_eos.Base.Int.{pos, ltb_ℤ, eqb_ℤ}
use palma2pro_eos.Ebc.Device.{Call, jot, open_ebc, ioctl, mmap, load, store, memset, close, World}
use palma2pro_eos.Ebc.Device.Stages.{
  Begins, Begins-refl, before-Begins, if-Begins, stop_at-Begins, before-All, if-All, stop_at-All,
}
use palma2pro_eos.Ebc.Probe.{
  Options, map_len, map_offset, loads, submit, write, read, map, get, probe,
}

abbrev pub probe_at : Options → ℕ → Options
probe_at o i = record o { stage = pos i }

module _ (w : World) (o : Options) (i j : ℕ) (h : i ≤ j) where
  write-Begins : 3 < i → Begins (write w (probe_at o i)) (write w (probe_at o j))
  unfolding write submit map_len
  write-Begins hi =
      before-Begins _ _ _ (stop_at-Begins i j 4 _ _ _ hi h (λ _. Begins-refl (submit w o)))

  read-Begins : 2 < i → Begins (read w (probe_at o i)) (read w (probe_at o j))
  unfolding read
  read-Begins hi =
      before-Begins _ _ _
        (before-Begins _ _ _ (before-Begins _ _ _ (stop_at-Begins i j 3 _ _ _ hi h write-Begins)))

  map-Begins : 1 < i → Begins (map w (probe_at o i)) (map w (probe_at o j))
  unfolding map map_len map_offset
  map-Begins hi = before-Begins _ _ _ (
      if-Begins w.is_mapped _ _ _ _
        (before-Begins _ _ _ (stop_at-Begins i j 2 _ _ _ hi h read-Begins))
        (Begins-refl (jot "  mmap failed: %s" ∷ [], pos 1)))

  get-Begins : 0 < i → Begins (get w (probe_at o i)) (get w (probe_at o j))
  unfolding get
  get-Begins hi = before-Begins _ _ _ (stop_at-Begins i j 1 _ _ _ hi h map-Begins)

  -- For stages i ≤ j of ebcprobe with the same options, in the same world: what stage i does on the
  -- device is the beginning of what stage j does.
  pub probe-Begins : Begins (probe w (probe_at o i)) (probe w (probe_at o j))
  unfolding probe
  probe-Begins = before-Begins _ _ _ (
      if-Begins _ _ _ _ _ (Begins-refl (jot "open failed: %s" ∷ [], pos 1))
        (before-Begins _ _ _ (stop_at-Begins i j 0 _ _ _ (omega arith) h get-Begins)))

-- Stage i allows the call, if the mapping has `len` bytes: the request 0x7003 in every stage, 0x7000
-- from 1 on, the mapping from 2, reads inside it from 3, writes inside it from 4, and only in
-- stage 5 and above the request 0x700c.
abbrev pub IsAllowed : (i len : ℕ) → Call → Type 0
IsAllowed i len (ioctl fd request arg) =
    (if eqb_ℤ request (pos 0x7003) then 0 else if eqb_ℤ request (pos 0x7000) then 1 else 5) ≤ i
IsAllowed i len (mmap _ n _) = (2 ≤ i) × (n ≡ len)
IsAllowed i len (load a) = (3 ≤ i) × (a < len)
IsAllowed i len (store a v) = (4 ≤ i) × (a < len)
IsAllowed i len (memset v n) = (4 ≤ i) × (n ≤ len)
IsAllowed i len (jot _) = Unit
IsAllowed i len open_ebc = Unit
IsAllowed i len (close _) = Unit

map_len-page : (o : Options) → 4096 ≤ map_len o
unfolding map_len
map_len-page o = ground arith

loads-IsAllowed : (i len a n : ℕ) → 3 ≤ i → a + n ≤ len → All (IsAllowed i len) (loads a n)
unfolding loads
loads-IsAllowed i len a zero h fits = tt
loads-IsAllowed i len a (suc n) h fits =
    ((h, omega arith), loads-IsAllowed i len (a + 1) n h (omega arith))

module _ (w : World) (o : Options) (i : ℕ) where
  abbrev P : Call → Type 0
  P = IsAllowed i (map_len o)

  map_len_lem : map_len (probe_at o i) ≡ map_len o
  unfolding map_len
  map_len_lem = refl

  write-IsAllowed : 3 < i → All P (write w (probe_at o i)).0
  unfolding write submit map_len
  write-IsAllowed h =
      before-All P _ _ (tt, ((h, omega arith), (tt, tt)))
        (stop_at-All P i 4 _ _ h tt (λ further. (tt, (tt, (ground arith, (tt, (tt, tt)))))))

  read-IsAllowed : 2 < i → All P (read w (probe_at o i)).0
  unfolding read
  read-IsAllowed h =
      before-All P _ _ (tt, tt)
        (before-All P _ _ (loads-IsAllowed i (map_len o) 0 4096 h (map_len-page o))
          (before-All P _ _ (tt, tt) (stop_at-All P i 3 _ _ h tt write-IsAllowed)))

  map-IsAllowed : 1 < i → All P (map w (probe_at o i)).0
  unfolding map map_len
  map-IsAllowed h =
      before-All P _ _ (tt, ((h, map_len_lem), tt))
        (if-All P w.is_mapped _ (jot "  mmap failed: %s" ∷ [], pos 1)
          (before-All P _ _ (tt, tt) (stop_at-All P i 2 _ _ h tt read-IsAllowed)) (tt, tt))

  get-IsAllowed : 0 < i → All P (get w (probe_at o i)).0
  unfolding get
  get-IsAllowed h =
      before-All P _ _ (tt, (h, (tt, (tt, tt))))
        (stop_at-All P i 1 "stage 1 done" (map w (probe_at o i)) h tt map-IsAllowed)

  -- Stage i of ebcprobe does only what the stages up to i are for, with any options: below stage 5
  -- no update is submitted, below 4 nothing is written, below 3 nothing read, below 2 nothing is
  -- mapped; and what it reads and writes lies inside the mapping.
  pub probe-IsAllowed : All P (probe w (probe_at o i)).0
  unfolding probe
  probe-IsAllowed =
      before-All P _ _ (tt, (tt, (tt, tt)))
        (if-All P (ltb_ℤ w.fd (pos 0)) (jot "open failed: %s" ∷ [], pos 1) _ (tt, tt)
          (before-All P _ _ (tt, (tt, (omega arith, (tt, (tt, tt)))))
            (stop_at-All P i 0 _ _ (omega arith) tt get-IsAllowed)))
