-- ===== src/Shim/Numbers/Texts.antt =====
-- `parse_num` reads back what is written in decimal or hexadecimal.
use palma2pro_eos.Base.{ℕ, ◌+◌, ◌-◌, ◌*◌, Bool, true, false, List, [], ◌∷◌, ltb, if◌then◌else◌}
use palma2pro_eos.Base.Int.{ℤ, pos, ◌-ℤ◌}

-- the character of a digit; behind 9 come the letters, and these are upper-case ones if so marked
abbrev pub char_of : Bool × ℕ → ℕ
char_of d = if ltb d.1 10 then d.1 + b'0' else if d.0 then d.1 + b'A' - 10 else d.1 + b'a' - 10

unfoldable pub chars : List (Bool × ℕ) → List ℕ
chars [] = []
chars (d ∷ ds) = char_of d ∷ chars ds

-- Horner's rule, from `acc`
unfoldable pub value : ℕ → ℕ → List (Bool × ℕ) → ℕ
value base acc [] = acc
value base acc (d ∷ ds) = value base (acc * base + d.1) ds

pub data Base : Type 0 where
  decimal : Base
  hexadecimal : Base

abbrev pub radix : Base → ℕ
radix decimal = 10
radix hexadecimal = 16

-- `0x` or `0X` before the digits of a hexadecimal number, `-` before a negative one
abbrev pub prefix : Bool → Base → List ℕ → List ℕ
prefix big decimal s = s
prefix big hexadecimal s = b'0' ∷ (if big then b'X' else b'x') ∷ s

abbrev pub sign : Bool → List ℕ → List ℕ
sign true s = b'-' ∷ s
sign false s = s

abbrev pub signed_value : Bool → ℕ → ℤ
signed_value true v = pos 0 -ℤ pos v
signed_value false v = pos v
