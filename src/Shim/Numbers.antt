-- ===== src/Shim/Numbers.antt =====
-- `str_eq` and `parse_num`: texts as their bytes, without the terminating zero.
pub mod Texts
pub mod Names
use palma2pro_eos.Base.{
  ℕ, ◌+◌, ◌-◌, Bool, true, false, ◌&&◌, ◌||◌, Option, none, some, List, [], ◌∷◌, leb, ◌==◌,
  if◌then◌else◌, drop,
}
use palma2pro_eos.Base.Int.{ℤ, pos, ◌+ℤ◌, ◌-ℤ◌, ◌*ℤ◌, int64}

-- `*s`: the byte at the pointer, zero at the end
abbrev pub peek : List ℕ → ℕ
peek [] = 0
peek (c ∷ s) = c

unfoldable pub str_eq : List ℕ → List ℕ → Bool
str_eq [] b = 0 == peek b
str_eq (x ∷ a) [] = x == 0
str_eq (x ∷ a) (y ∷ b) = if x == 0 then x == y else if x == y then str_eq a b else false

unfoldable pub digit : ℕ → ℕ → Option ℕ
digit base c =
    if leb b'0' c && leb c b'9'
    then some (c - b'0')
    else if (base == 16 && leb b'a' c) && leb c b'f'
    then some (c - b'a' + 10)
    else if (base == 16 && leb b'A' c) && leb c b'F'
    then some (c - b'A' + 10)
    else none

-- the loop: `v` and `any` at its end
scan : ℕ → List ℕ → ℤ → Bool → ℤ × Bool
scan base [] v any = (v, any)
scan base (c ∷ s) v any = elim (digit base c) [
  | none ↦ (v, any)
  | some d ↦ scan base s (int64 (v *ℤ pos base +ℤ pos d)) true
]

finish : Bool → ℤ → ℤ × Bool → ℤ
finish neg dflt (v, any) = if any then (if neg then int64 (pos 0 -ℤ v) else v) else dflt

is_hex : List ℕ → Bool
is_hex s = peek s == b'0' && (peek (drop 1 s) == b'x' || peek (drop 1 s) == b'X')

unsigned : Bool → List ℕ → ℤ → ℤ
unsigned neg s dflt =
    if is_hex s
    then finish neg dflt (scan 16 (drop 2 s) (pos 0) false)
    else finish neg dflt (scan 10 s (pos 0) false)

unfoldable pub parse_num : List ℕ → ℤ → ℤ
unfolding digit scan finish is_hex unsigned
parse_num s dflt =
    if peek s == 0
    then dflt
    else if peek s == b'-'
    then unsigned true (drop 1 s) dflt
    else unsigned false s dflt
