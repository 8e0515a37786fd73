-- ===== src/Print.antt =====
-- What the tools use of the `printf` family: pieces of text, and lines built up in a buffer of fixed
-- size by repeated calls of `snprintf`.
pub mod Widths
pub mod Values
use Prim.Native.String.{String}
use palma2pro_eos.Base.{
  ℕ, zero, suc, ◌+◌, ◌-◌, ◌/◌, ◌%◌, ◌^◌, List, [], ◌∷◌, ◌++◌, ltb, leb, ◌==◌, if◌then◌else◌, length,
  take, codes,
}
use palma2pro_eos.Base.Int.{ℤ, pos, negsuc, to_word}

abbrev pub digit_char : ℕ → ℕ
digit_char d = if ltb d 10 then d + b'0' else d + b'a' - 10

-- the digits of n to the base, with the last in front of `done`; n + 1 is enough fuel
unfoldable pub digits : (base fuel n : ℕ) → List ℕ → List ℕ
digits base zero n done = done
digits base (suc fuel) n done =
    let rest = digits base fuel (n / base) (digit_char (n % base) ∷ done) in
    if ltb n base then digit_char n ∷ done else rest

-- `%u`, `%d`, `%#x` and `%02x`
unfoldable pub unsigned : ℕ → List ℕ
unsigned n = digits 10 (n + 1) n []

unfoldable pub decimal : ℤ → List ℕ
decimal (pos n) = unsigned n
decimal (negsuc n) = b'-' ∷ unsigned (suc n)

unfoldable pub hex : ℕ → List ℕ
hex n = if n == 0 then b'0' ∷ [] else b'0' ∷ b'x' ∷ digits 16 (n + 1) n []

unfoldable pub hex2 : ℕ → List ℕ
hex2 n = digit_char (n / 16) ∷ digit_char (n % 16) ∷ []

pub data Piece : Type 0 where
  lit : String → Piece
  int : ℤ → Piece  -- %d
  bits : ℤ → Piece  -- %#x, of an int read as unsigned
  byte : ℕ → Piece  -- %02x

unfoldable pub piece : Piece → List ℕ
unfolding decimal hex hex2
piece (lit s) = codes s
piece (int a) = decimal a
piece (bits a) = hex (to_word (2 ^ 32) a)
piece (byte b) = hex2 b

unfoldable pub render : List Piece → List ℕ
unfolding piece
render [] = []
render (p ∷ ps) = piece p ++ render ps

-- A buffer: the bytes that are known to stand in it, and the sum of what the calls have returned,
-- at which the next one goes on.
pub record Line : Type 0 where
  pub bytes : List ℕ
  pub off : ℕ

abbrev pub empty : Line
empty = record { bytes = []; off = 0 }

-- `cap - off`, as a size_t
abbrev pub room : (cap off : ℕ) → ℕ
room cap off = if leb off cap then cap - off else 2 ^ 64 + cap - off

-- `off += snprintf(buffer + off, cap - off, …)`: cut to the room, with a zero at its end
unfoldable pub put : ℕ → List Piece → Line → Line
unfolding render
put cap ps l = record {
  bytes = l.bytes ++ take (room cap l.off - 1) (render ps);
  off = l.off + length (render ps);
}
