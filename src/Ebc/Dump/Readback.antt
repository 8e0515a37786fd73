-- ===== src/Ebc/Dump/Readback.antt =====
-- The bytes can be read back from what is printed of them.
use palma2pro_eos.Base.{
  ℕ, zero, suc, ◌+◌, ◌-◌, ◌*◌, ◌/◌, ◌%◌, ◌≤◌, ◌<◌, ◌≡◌, refl, ap, inl, inr, List, [], ◌∷◌, ◌++◌,
  arith, ◌==◌, if◌then◌else◌, length, length-append, replicate, drop, codes, Bool-cases,
}
use palma2pro_eos.Print.{digits, digit_char, hex2}
use palma2pro_eos.Print.Widths.{length-digits}
use palma2pro_eos.Print.Values.{digit_value, digit_value-char}
use palma2pro_eos.Ebc.Fb.Histogram.{contents}
use palma2pro_eos.Ebc.Dump.{pad, hex4, hex_head, hexes}

-- two digits and a space, with what is behind them
unfoldable read_byte : (List ℕ → List ℕ) → List ℕ → List ℕ
unfolding digit_value
read_byte next (h ∷ l ∷ space ∷ text) = (16 * digit_value h + digit_value l) ∷ next text
read_byte next _ = []

-- A reader of n bytes: in front of every sixteenth it passes over eleven characters.
unfoldable pub read_hexes : (n i : ℕ) → List ℕ → List ℕ
unfolding read_byte
read_hexes zero i text = []
read_hexes (suc n) i text =
    read_byte (read_hexes n (i + 1)) (if i % 16 == 0 then drop 11 text else text)

length-replicate : (n c : ℕ) → length (replicate n c) ≡ n
length-replicate zero c = refl
length-replicate (suc n) c = ap suc (length-replicate n c)

length-hex4 : (i : ℕ) → i < 65536 → length (hex4 i) ≡ 4
unfolding hex4 pad
length-hex4 i h =
    let ds = digits 16 (i + 1) i [] in
    let few : length ds ≤ 4 =
      omega (arith, length-digits 16 (i + 1) i 3 [] (omega arith) (omega arith)) in
    omega (
      arith,
      length-append (replicate (4 - length ds) b'0') ds,
      length-replicate (4 - length ds) b'0',
      few,
    )

drop-append : (n : ℕ) (xs ys : List ℕ) → length xs ≡ n → drop n (xs ++ ys) ≡ ys
drop-append zero [] ys h = refl
drop-append zero (x ∷ xs) ys h = absurd (omega arith)
drop-append (suc n) [] ys h = absurd (omega arith)
drop-append (suc n) (x ∷ xs) ys h = drop-append n xs ys (omega arith)

-- the reader passes over what stands in front of a byte
pass_head :
    (i : ℕ) (text : List ℕ)
    → i < 65536
    → (if i % 16 == 0 then drop 11 (hex_head i ++ text) else hex_head i ++ text) ≡ text
unfolding hex_head
pass_head i text small = elim (Bool-cases (i % 16 == 0)) [
  | inl z ↦
      let long : length (codes "\n    " ++ hex4 i ++ codes ": ") ≡ 11 = omega (
        arith,
        length-append (codes "\n    " ++ hex4 i) (codes ": "),
        length-append (codes "\n    ") (hex4 i),
        length-hex4 i small,
      ) in
      rw z (drop-append 11 (codes "\n    " ++ hex4 i ++ codes ": ") text long)
  | inr z ↦ rw z refl
]

-- For a buffer of bytes, as far as the offset has four hexadecimal digits: what is printed as hex,
-- the offsets at the head of each line included, can be read back, and gives the bytes in order.
pub read_hexes-hexes :
    (p : ℕ → ℕ) (n i : ℕ)
    → ((j : ℕ) → p j < 256)
    → i + n ≤ 65536
    → read_hexes n i (hexes p n i) ≡ contents p n i
unfolding read_hexes hexes contents read_byte hex2
read_hexes-hexes p zero i byte small = refl
read_hexes-hexes p (suc n) i byte small =
    let text = hex2 (p i) ++ (b' ' ∷ hexes p n (i + 1)) in
    let value : 16 * digit_value (digit_char (p i / 16)) + digit_value (digit_char (p i % 16))
        ≡ p i =
      omega (
        arith,
        byte i,
        digit_value-char (p i / 16) (omega (arith, byte i)),
        digit_value-char (p i % 16) (omega arith),
      ) in
    rw (pass_head i text (omega arith), value)
      (ap (λ xs. p i ∷ xs) (read_hexes-hexes p n (i + 1) byte (omega arith)))
