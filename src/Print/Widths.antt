-- ===== src/Print/Widths.antt =====
-- How long printed pieces are, and when a line in a buffer is whole.
use native.Mathlib.Nat.{div-lt_iff_lt-mul, pow-suc, pow-zero, one-mul}
use palma2pro_eos.Base.{
  ℕ, zero, suc, ◌+◌, ◌-◌, ◌*◌, ◌/◌, ◌%◌, ◌^◌, ◌≤◌, ◌<◌, ◌≡◌, refl, ap, subst, ◌∙◌, inl, inr, true,
  List, [], ◌∷◌, ◌++◌, arith, ltb, ◌==◌, length, length-append, take, codes, All, Bool-cases,
}
use palma2pro_eos.Base.Int.{ℤ, pos, negsuc, IsInt32}
use palma2pro_eos.Print.{
  digits, digit_char, unsigned, decimal, hex, hex2, Piece, lit, int, bits, byte, piece, render,
  Line, room, put,
}

pow_one : (b : ℕ) → b ^ 1 ≡ b
pow_one b = pow-suc b 0 ∙ ap (λ m. m * b) (pow-zero b) ∙ one-mul b

-- A number below base ^ (k + 1) has at most k + 1 digits.
pub length-digits :
    (base fuel n k : ℕ) (done : List ℕ)
    → 0 < base
    → n < base ^ suc k
    → length (digits base fuel n done) ≤ suc k + length done
unfolding digits
length-digits base zero n k done some_base h = omega arith
length-digits base (suc fuel) n zero done some_base h =
    let e : ltb n base ≡ true = ground (arith, pow_one base) in rw e (omega arith)
length-digits base (suc fuel) n (suc k) done some_base h = elim (Bool-cases (ltb n base)) [
  | inl e ↦ rw e (omega arith)
  | inr e ↦
      let less : n / base < base ^ suc k =
        (div-lt_iff_lt-mul some_base).1 (subst (λ m. n < m) (pow-suc base (suc k)) h) in
      rw e (
        omega (
          arith,
          length-digits base fuel (n / base) k (digit_char (n % base) ∷ done) some_base less,
        ))
]

length-unsigned : (n k : ℕ) → n < 10 ^ suc k → length (unsigned n) ≤ suc k
unfolding unsigned
length-unsigned n k h = omega (arith, length-digits 10 (n + 1) n k [] (omega arith) h)

length-decimal : (a : ℤ) → IsInt32 a → length (decimal a) ≤ 11
unfolding decimal
length-decimal (pos n) h = omega (arith, length-unsigned n 9 (omega arith))
length-decimal (negsuc n) h = omega (arith, length-unsigned (suc n) 9 (omega arith))

length-hex : (n : ℕ) → n < 2 ^ 32 → length (hex n) ≤ 10
unfolding hex
length-hex n h = elim (Bool-cases (n == 0)) [
  | inl e ↦ rw e (omega arith)
  | inr e ↦ rw e (omega (arith, length-digits 16 (n + 1) n 7 [] (omega arith) h))
]

-- the widest that a piece can be, and what a call has to give for that
abbrev pub width : Piece → ℕ
width (lit s) = length (codes s)
width (int a) = 11
width (bits a) = 10
width (byte b) = 2

abbrev pub IsPrintable : Piece → Type 0
IsPrintable (lit s) = Unit
IsPrintable (int a) = IsInt32 a
IsPrintable (bits a) = IsInt32 a
IsPrintable (byte b) = Unit

abbrev pub widths : List Piece → ℕ
widths [] = 0
widths (p ∷ ps) = width p + widths ps

length-piece : (p : Piece) → IsPrintable p → length (piece p) ≤ width p
unfolding piece hex2
length-piece (lit s) h = omega arith
length-piece (int a) h = length-decimal a h
length-piece (bits (pos n)) h = length-hex (n % 2 ^ 32) (omega arith)
length-piece (bits (negsuc n)) h = length-hex (2 ^ 32 - 1 - n % 2 ^ 32) (omega arith)
length-piece (byte b) h = omega arith

pub length-render : (ps : List Piece) → All IsPrintable ps → length (render ps) ≤ widths ps
unfolding render
length-render [] h = omega arith
length-render (p ∷ ps) h =
    omega (arith, length-append (piece p) (render ps), length-piece p h.0, length-render ps h.1)

-- Nothing has been cut: every byte that the calls have counted stands in the buffer, with room for
-- the zero.
pub record IsWhole (cap : ℕ) (l : Line) : Type 0 where
  pub fits : l.off < cap
  pub kept : length l.bytes ≡ l.off

pub take_all : {A : Type 0} (n : ℕ) (xs : List A) → length xs ≤ n → take n xs ≡ xs
take_all zero [] h = refl
take_all zero (x ∷ xs) h = absurd (omega arith)
take_all (suc n) [] h = refl
take_all (suc n) (x ∷ xs) h = ap (λ l. x ∷ l) (take_all n xs (omega arith))

-- A call that fits leaves the buffer whole, with its text at the end.
pub put-IsWhole :
    (cap : ℕ) (ps : List Piece) (l : Line)
    → IsWhole cap l
    → All IsPrintable ps
    → l.off + widths ps < cap
    → IsWhole cap (put cap ps l)
      × ((put cap ps l).bytes ≡ l.bytes ++ render ps)
      × ((put cap ps l).off ≤ l.off + widths ps)
unfolding put
put-IsWhole cap ps l w ok fits =
    let short = length-render ps ok in
    let all : take (room cap l.off - 1) (render ps) ≡ render ps =
      take_all (room cap l.off - 1) (render ps) (ground (arith, short, w.fits)) in
    rw all (
      record {
        fits = omega (arith, short);
        kept = length-append l.bytes (render ps) ∙ ap (λ n. n + length (render ps)) w.kept;
      },
      refl,
      omega (arith, short),
    )
