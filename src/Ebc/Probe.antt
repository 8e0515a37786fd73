-- ===== src/Ebc/Probe.antt =====
-- src/ebcprobe.c: the update path in stages.
pub mod Levels
pub mod Journal
use palma2pro_eos.Base.{ℕ, zero, suc, ◌+◌, List, [], ◌∷◌, if◌then◌else◌, codes}
use palma2pro_eos.Base.Int.{ℤ, pos, negsuc, pos_part, int32, int64, ◌*ℤ◌, ltb_ℤ, leb_ℤ}
use palma2pro_eos.Ebc.Device.{
  Text, strcmp_eq, SendUpdate, zeroed, update, Call, jot, open_ebc, ioctl, mmap, load, memset,
  World, Run, each_arg, before, stop_at,
}

-- the locals that the arguments set; the path of the journal is left out
pub record Options : Type 0 where
  pub stage : ℤ
  pub rw_ : ℤ
  pub rh : ℤ
  pub flags : ℤ
  pub marker : ℤ
  pub mode : ℤ
  pub forced_offset : ℤ

-- `--rect`, which needs two arguments behind it
unfoldable pub rect_arg : World → Text → List Text → Options → ℕ × Options
rect_arg w b [] o = (0, o)
rect_arg w b (c ∷ rest) o = (2, record o { rw_ = w.atoi b; rh = w.atoi c })

-- one turn of the loop over `argv`
unfoldable pub consume : World → Text → List Text → Options → ℕ × Options
unfolding rect_arg
consume w a [] o = (0, o)
consume w a (b ∷ rest) o =
    if strcmp_eq a (codes "--log")
    then (1, o)
    else if strcmp_eq a (codes "--rect")
    then rect_arg w b rest o
    else if strcmp_eq a (codes "--flags")
    then (1, record o { flags = int32 (w.strtol b) })
    else if strcmp_eq a (codes "--marker")
    then (1, record o { marker = w.atoi b })
    else if strcmp_eq a (codes "--mode")
    then (1, record o { mode = w.atoi b })
    else if strcmp_eq a (codes "--offset")
    then (1, record o { forced_offset = w.strtol b })
    else (0, o)

-- `(long)rw * rh * 4`, at least a page
unfoldable pub map_len : Options → ℕ
map_len o =
    let len = int64 (int64 (o.rw_ *ℤ o.rh) *ℤ pos 4) in
    if ltb_ℤ len (pos 4096) then 4096 else pos_part len

unfoldable pub map_offset : Options → ℤ
map_offset o = if leb_ℤ (pos 0) o.forced_offset then o.forced_offset else pos 0

-- the loop of stage 3 with `n` turns left, at `i`
unfoldable pub loads : (i n : ℕ) → List Call
loads i zero = []
loads i (suc n) = load i ∷ loads (i + 1) n

abbrev pub small_update : Options → SendUpdate
small_update o = record {
  x = pos 0;
  y = pos 0;
  right = o.rw_;
  bottom = o.rh;
  waveform_mode = o.mode;
  update_mode = pos 1;
  update_marker = o.marker;
  unknown_1c = pos 0;
  flags = o.flags;
  unknown_24 = pos 0;
}

unfoldable pub submit : World → Options → Run
submit w o = (
  jot "SET_EBC_SEND_UPDATE rect=(0,0)-(%d,%d) mode=%d marker=%d flags=0x%x"
      ∷ jot "  >>> submitting now; if the log stops here, THIS is what hangs"
      ∷ ioctl w.fd (pos 0x700c) (update (small_update o))
      ∷ jot "  rc=%d errno=%d"
      ∷ jot "stage 5 done -- survived"
      ∷ [],
  pos 0,
)

unfoldable pub write : World → Options → Run
write w o =
    before
      (jot "writing %dx%d block into the mapping" ∷ memset 0 (map_len o) ∷ jot "  write ok" ∷ [])
      (stop_at o.stage (pos 4) "stage 4 done (no update submitted)" (submit w o))

unfoldable pub read : World → Options → Run
read w o = before (jot "reading 4096 bytes from the mapping" ∷ []) (
    before (loads 0 4096) (
      before (jot "  read ok, checksum=%u" ∷ [])
        (stop_at o.stage (pos 3) "stage 3 done" (write w o))))

unfoldable pub map : World → Options → Run
map w o = before (jot "mmap offset=%ld len=%ld" ∷ mmap w.fd (map_len o) (map_offset o) ∷ []) (
    if w.is_mapped
    then before (jot "  mmap ok at %p" ∷ [])
        (stop_at o.stage (pos 2) "stage 2 done (not touching the mapping)" (read w o))
    else (jot "  mmap failed: %s" ∷ [], pos 1))

unfoldable pub get : World → Options → Run
get w o =
    before
      (jot "ioctl GET_EBC_BUFFER (0x%x)"
        ∷ ioctl w.fd (pos 0x7000) (zeroed 64)
        ∷ jot "  rc=%d errno=%d"
        ∷ jot "  buf words"
        ∷ [])
      (stop_at o.stage (pos 1) "stage 1 done" (map w o))

-- `main` behind the options
unfoldable pub probe : World → Options → Run
probe w o =
    before (jot "=== ebcprobe stage %d (pid %d) ===" ∷ jot "opening /dev/ebc" ∷ open_ebc ∷ []) (
      if ltb_ℤ w.fd (pos 0)
      then (jot "open failed: %s" ∷ [], pos 1)
      else before
          (jot "open ok, fd=%d"
            ∷ jot "ioctl GET_EBC_BUFFER_INFO (0x%x)"
            ∷ ioctl w.fd (pos 0x7003) (zeroed 64)
            ∷ jot "  rc=%d errno=%d"
            ∷ jot "  info words"
            ∷ [])
          (stop_at o.stage (pos 0) "stage 0 done" (get w o)))

-- with the arguments behind the program's name
unfoldable pub main : World → List Text → Run
main w [] = ([], pos 2)
main w (stage ∷ rest) = probe w (
    each_arg (consume w) 0 rest (record {
      stage = w.atoi stage;
      rw_ = pos 64;
      rh = pos 64;
      flags = pos 0;
      marker = pos 1;
      mode = pos 2;
      forced_offset = negsuc 0;
    }))
