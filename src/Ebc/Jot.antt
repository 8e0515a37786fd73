-- ===== src/Ebc/Jot.antt =====
-- The journal line of src/ebcprobe.c, ebcinit.c and ebcpush.c (`jot`, the same in each), and the
-- lines of words of src/ebcprobe.c and of the information of src/ebcpush.c.
pub mod Whole
pub mod Durable
use Prim.Native.String.{String}
use palma2pro_eos.Base.{
  ℕ, zero, suc, ◌+◌, Option, none, some, List, [], ◌∷◌, ◌++◌, ltb, if◌then◌else◌, length, take,
}
use palma2pro_eos.Base.Int.{ℤ, pos, leb_ℤ}
use palma2pro_eos.Print.{Piece, lit, int, render, Line, empty, put}
use palma2pro_eos.Ebc.Device.{BufInfo}

-- where a line goes
pub data Sink : Type 0 where
  print : (bytes : List ℕ) → Sink
  flush : Sink
  write : (fd : ℤ) (bytes : List ℕ) → Sink
  fsync : (fd : ℤ) → Sink

-- the first `n` bytes of the buffer, with the newline at its place
unfoldable pub jot_bytes : List ℕ → List ℕ
jot_bytes text =
    let n = length text in take (if ltb 510 n then 510 else n) (take 511 text) ++ 0x0a ∷ []

-- with the text that `vsnprintf` makes, unless it fails
unfoldable pub jot : (log_fd : ℤ) → Option (List ℕ) → List Sink
unfolding jot_bytes
jot log_fd none = []
jot log_fd (some text) =
    print (jot_bytes text)
    ∷ flush
    ∷ (if leb_ℤ (pos 0) log_fd then write log_fd (jot_bytes text) ∷ fsync log_fd ∷ [] else [])

-- the loop over the words, with `n` turns left, at i
unfoldable pub word_loop : (ℕ → ℤ) → (n i : ℕ) → Line → Line
word_loop w zero i l = l
word_loop w (suc n) i l =
    let rest = word_loop w n (i + 1) (put 512 (lit " " ∷ int (w i) ∷ []) l) in
    if ltb l.off 496 then rest else l

unfoldable pub dump_words : (log_fd : ℤ) → String → (ℕ → ℤ) → (count : ℕ) → List Sink
unfolding jot word_loop
dump_words log_fd label w count =
    jot log_fd (some (word_loop w count 0 (put 512 (lit label ∷ lit ":" ∷ []) empty)).bytes)

-- the pieces of the line of src/ebcpush.c
unfoldable pub info_pieces : String → BufInfo → List Piece
info_pieces tag i =
    lit "  "
    ∷ lit tag
    ∷ lit ": offset="
    ∷ int i.offset
    ∷ lit " epd_mode="
    ∷ int i.epd_mode
    ∷ lit " "
    ∷ int i.width
    ∷ lit "x"
    ∷ int i.height
    ∷ lit " panel_color="
    ∷ int i.panel_color
    ∷ lit " win=("
    ∷ int i.win_x1
    ∷ lit ","
    ∷ int i.win_y1
    ∷ lit ")-("
    ∷ int i.win_x2
    ∷ lit ","
    ∷ int i.win_y2
    ∷ lit ") "
    ∷ int i.width_mm
    ∷ lit "x"
    ∷ int i.height_mm
    ∷ lit " mm"
    ∷ []

unfoldable pub dump_info : (log_fd : ℤ) → String → BufInfo → List Sink
unfolding jot info_pieces
dump_info log_fd tag i = jot log_fd (some (render (info_pieces tag i)))
