-- ===== src/Ebc/Dump.antt =====
-- `dump_buffer` of src/ebctool.c: a buffer as text, as words and as bytes.
pub mod Readback
use palma2pro_eos.Base.{
  ℕ, zero, suc, ◌+◌, ◌-◌, ◌/◌, ◌%◌, List, [], ◌∷◌, ◌++◌, ◌&&◌, ltb, leb, ◌==◌, if◌then◌else◌,
  length, replicate, codes,
}
use palma2pro_eos.Print.{digits, decimal, hex2}
use palma2pro_eos.Trace.{word}

-- each loop has `n` turns left, at i
unfoldable pub ascii : (ℕ → ℕ) → (n i : ℕ) → List ℕ
ascii p zero i = []
ascii p (suc n) i =
    let c = p i in
    (if leb 32 c && ltb c 127 then c else if c == 0 then b' ' else b'.') ∷ ascii p n (i + 1)

-- filled up to the width from the left
unfoldable pub pad : (fill width : ℕ) → List ℕ → List ℕ
pad fill width text = replicate (width - length text) fill ++ text

unfoldable pub ints : (ℕ → ℕ) → (n i : ℕ) → List ℕ
unfolding pad
ints p zero i = []
ints p (suc n) i =
    (if i % 6 == 0 then codes "\n   " else [])
    ++ (b' ' ∷ pad b' ' 11 (decimal (word p i)))
    ++ ints p n (i + 1)

-- `%04zx`
unfoldable pub hex4 : ℕ → List ℕ
unfolding pad
hex4 i = pad b'0' 4 (digits 16 (i + 1) i [])

-- what stands in front of byte i
unfoldable pub hex_head : ℕ → List ℕ
unfolding hex4
hex_head i = if i % 16 == 0 then codes "\n    " ++ hex4 i ++ codes ": " else []

unfoldable pub hexes : (ℕ → ℕ) → (n i : ℕ) → List ℕ
unfolding hex_head
hexes p zero i = []
hexes p (suc n) i = hex_head i ++ (hex2 (p i) ++ (b' ' ∷ hexes p n (i + 1)))

-- what is printed
unfoldable pub dump_buffer : (ℕ → ℕ) → (len : ℕ) → List ℕ
unfolding ascii ints hexes
dump_buffer p len =
    codes "\n  as ascii: \""
    ++ ascii p len 0
    ++ codes "\"\n  as int32:"
    ++ ints p (len / 4) 0
    ++ codes "\n\n  as hex:"
    ++ hexes p len 0
    ++ codes "\n"
