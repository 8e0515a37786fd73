-- ===== src/Print/Values.antt =====
-- What printed digits stand for, with fuel enough for all of them.
use native.Mathlib.Nat.{mul-le-mul_left, div-lt_iff_lt-mul, mod-lt, div-add-mod'}
use palma2pro_eos.Base.{
  ℕ, zero, suc, ◌+◌, ◌-◌, ◌*◌, ◌/◌, ◌%◌, ◌≤◌, ◌<◌, ◌≡◌, ap, ◌∙◌, inl, inr, List, [], ◌∷◌, arith,
  ltb, leb, if◌then◌else◌, Bool-cases,
}
use palma2pro_eos.Print.{digit_char, digits}

-- the value of a digit
unfoldable pub digit_value : ℕ → ℕ
digit_value c = if leb c b'9' then c - b'0' else c - b'a' + 10

pub digit_value-char : (d : ℕ) → d < 16 → digit_value (digit_char d) ≡ d
unfolding digit_value
digit_value-char d h = ground arith

-- the value of digits to the base, behind those that have made up n
unfoldable pub read_digits : (base n : ℕ) → List ℕ → ℕ
read_digits base n [] = n
read_digits base n (c ∷ cs) = read_digits base (n * base + digit_value c) cs

div_less : (base fuel n : ℕ) → 2 ≤ base → base ≤ n → n < suc fuel → n / base < fuel
div_less base fuel n two big h =
    (div-lt_iff_lt-mul (omega arith)).1 (omega (arith, mul-le-mul_left fuel two))

-- With fuel above n, the digits of n have its value.
pub read_digits-digits :
    (base fuel n : ℕ) (done : List ℕ)
    → 2 ≤ base
    → base ≤ 16
    → n < fuel
    → read_digits base 0 (digits base fuel n done) ≡ read_digits base n done
unfolding read_digits digits
read_digits-digits base zero n done two few h = absurd (omega arith)
read_digits-digits base (suc fuel) n done two few h = elim (Bool-cases (ltb n base)) [
  | inl e ↦
      rw e (ap (λ k. read_digits base k done) (omega (arith, digit_value-char n (ground arith))))
  | inr e ↦
      let less : n / base < fuel = div_less base fuel n two (ground arith) h in
      let last : n % base < base = mod-lt n (omega arith) in
      rw e (
        read_digits-digits base fuel (n / base) (digit_char (n % base) ∷ done) two few less
        ∙ ap (λ k. read_digits base k done)
            (ap (λ d. n / base * base + d) (digit_value-char (n % base) (omega arith))
              ∙ div-add-mod' n base))
]
