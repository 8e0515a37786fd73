-- ===== src/Ebc/Push.antt =====
-- src/ebcpush.c: one frame by way of GET_EBC_BUFFER, in stages.
pub mod Frame
pub mod Levels
pub mod Journal
use palma2pro_eos.Base.{
  ℕ, zero, suc, ◌+◌, ◌*◌, ◌/◌, ◌%◌, ◌^◌, List, [], ◌∷◌, ◌++◌, ltb, ◌==◌, if◌then◌else◌, codes,
}
use palma2pro_eos.Base.Int.{ℤ, pos, pos_part, to_word, ltb_ℤ}
use palma2pro_eos.Ebc.Device.{
  Text, strcmp_eq, BufInfo, zero_info, info, Call, jot, open_ebc, ioctl, mmap, store, memset, World,
  Run, each_arg, before, stop_at,
}

-- the locals that the arguments set; the path of the journal is left out
pub record Options : Type 0 where
  pub stage : ℤ
  pub mode : ℤ
  pub pattern : Text

-- one turn of the loop over `argv`
unfoldable pub consume : World → Text → List Text → Options → ℕ × Options
consume w a [] o = (0, o)
consume w a (b ∷ rest) o =
    if strcmp_eq a (codes "--log")
    then (1, o)
    else if strcmp_eq a (codes "--mode")
    then (1, record o { mode = w.atoi b })
    else if strcmp_eq a (codes "--pattern")
    then (1, record o { pattern = b })
    else (0, o)

-- `(size_t)info.width * info.height`, at least a page
unfoldable pub frame_len : BufInfo → ℕ
frame_len i =
    let len = to_word (2 ^ 64) i.width * to_word (2 ^ 64) i.height % 2 ^ 64 in
    if ltb len 4096 then 4096 else len

unfoldable pub checker_byte : (x y : ℕ) → ℕ
checker_byte x y = if (x / 64 + y / 64) % 2 == 1 then 0xff else 0

-- the inner loop with `n` turns left, at `x`
unfoldable pub row : (width y x n : ℕ) → List Call
row width y x zero = []
row width y x (suc n) = store (y * width + x) (checker_byte x y) ∷ row width y (x + 1) n

-- the outer loop with `n` turns left, at `y`
unfoldable pub rows : (width y n : ℕ) → List Call
unfolding row
rows width y zero = []
rows width y (suc n) = row width y 0 width ++ rows width (y + 1) n

-- the loops run while `x < width` and `y < height`: never, if these are negative
unfoldable pub fill : Text → BufInfo → List Call
unfolding rows
fill pattern i =
    if strcmp_eq pattern (codes "black")
    then memset 0 (frame_len i) ∷ []
    else if strcmp_eq pattern (codes "white")
    then memset 0xff (frame_len i) ∷ []
    else rows (pos_part i.width) 0 (pos_part i.height)

-- the argument of GET_EBC_BUFFER
abbrev pub wanted : BufInfo → ℤ → BufInfo
wanted i mode = record zero_info {
  epd_mode = mode;
  width = i.width;
  height = i.height;
  win_x2 = i.width;
  win_y2 = i.height;
}

-- from the second jot of stage 4 on
unfoldable pub send : World → Run
send w = (
  jot ">>> ioctl EBC_SEND_BUFFER (0x%x) mode=%d -- THIS should refresh the panel"
      ∷ ioctl w.fd (pos 0x7001) (info (w.answer (pos 0x7000)))
      ∷ jot "  rc=%d errno=%d"
      ∷ jot "=== stage 4 done -- look at the panel ==="
      ∷ [],
  pos 0,
)

unfoldable pub draw : World → Options → Run
draw w o = before (jot "filling buffer, pattern=%s" ∷ []) (
    before (fill o.pattern (w.answer (pos 0x7003))) (
      before (jot "  filled" ∷ [])
        (stop_at o.stage (pos 3) "stage 3 done (nothing submitted)" (send w))))

unfoldable pub map : World → Options → Run
map w o =
    before
      (jot "mmap len=%zu offset=%d"
        ∷ mmap w.fd (frame_len (w.answer (pos 0x7003))) (w.answer (pos 0x7000)).offset
        ∷ [])
      (if w.is_mapped
        then before (jot "  mmap ok at %p" ∷ [])
            (stop_at o.stage (pos 2) "stage 2 done (mapping untouched)" (draw w o))
        else (jot "  mmap failed: %s" ∷ [], pos 1))

unfoldable pub get : World → Options → Run
get w o =
    before
      (jot ">>> ioctl GET_EBC_BUFFER (0x%x) -- if the log stops here, the free-buffer"
        ∷ jot "    queue is still empty; the composer has not released its buffers"
        ∷ ioctl w.fd (pos 0x7000) (info (wanted (w.answer (pos 0x7003)) o.mode))
        ∷ jot "  rc=%d errno=%d -- RETURNED"
        ∷ jot "buf"
        ∷ [])
      (if ltb_ℤ (w.rc (pos 0x7000)) (pos 0)
        then (jot "no buffer, stopping" ∷ [], pos 1)
        else stop_at o.stage (pos 1) "stage 1 done" (map w o))

-- `main` behind the options
unfoldable pub push : World → Options → Run
push w o = before (jot "=== ebcpush stage %d (pid %d) ===" ∷ open_ebc ∷ []) (
    if ltb_ℤ w.fd (pos 0)
    then (jot "open failed: %s" ∷ [], pos 1)
    else before
        (jot "opened %s fd=%d"
          ∷ jot "ioctl GET_EBC_BUFFER_INFO (0x%x)"
          ∷ ioctl w.fd (pos 0x7003) (info zero_info)
          ∷ jot "  rc=%d errno=%d"
          ∷ jot "info"
          ∷ [])
        (stop_at o.stage (pos 0) "stage 0 done" (get w o)))

-- with the arguments behind the program's name
unfoldable pub main : World → List Text → Run
main w [] = ([], pos 2)
main w (stage ∷ rest) = push w (
    each_arg (consume w) 0 rest
      (record { stage = w.atoi stage; mode = pos 2; pattern = codes "checker" }))
