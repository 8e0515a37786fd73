-- ===== src/Base/Words.antt =====
-- Arrays of `int32_t` in the bytes of memory, the lowest byte of a word first.
use Prim.Native.Nat.{ℕ, zero, suc, ◌+◌, ◌*◌, ◌/◌, ◌%◌, ◌^◌, ◌<◌}
use mathlib.Core.Path.{◌≡◌, refl, ap, ◌∙◌}
use native.Mathlib.Omega.{arith}
use palma2pro_eos.Base.Int.{ℤ, IsInt32, to_word, signed}

-- byte k of a word
unfoldable pub byte_of : ℕ → ℕ → ℕ
byte_of n zero = n % 0x100
byte_of n (suc k) = byte_of (n / 0x100) k

-- the bytes of the words that `f` numbers
unfoldable pub bytes_of_words : (ℕ → ℤ) → ℕ → ℕ
unfolding byte_of
bytes_of_words f j = byte_of (to_word (2 ^ 32) (f (j / 4))) (j % 4)

-- word i, as an `int32_t`
abbrev pub word_at : (ℕ → ℕ) → ℕ → ℤ
word_at b i =
    let n = b (4 * i) + 2 ^ 8 * b (4 * i + 1) + 2 ^ 16 * b (4 * i + 2) + 2 ^ 24 * b (4 * i + 3) in
    signed (2 ^ 32) (n % 2 ^ 32)

four_bytes :
    (n : ℕ)
    → n < 2 ^ 32
    → byte_of n 0 + 2 ^ 8 * byte_of n 1 + 2 ^ 16 * byte_of n 2 + 2 ^ 24 * byte_of n 3 ≡ n
unfolding byte_of
four_bytes n h = omega arith

signed_back : (a : ℤ) → IsInt32 a → signed (2 ^ 32) (to_word (2 ^ 32) a % 2 ^ 32) ≡ a
signed_back a h = ground arith

to_word_lt : (a : ℤ) → to_word (2 ^ 32) a < 2 ^ 32
to_word_lt a = ground arith

module _ (f : ℕ → ℤ) where
  byte_at : (i k : ℕ) → k < 4 → bytes_of_words f (4 * i + k) ≡ byte_of (to_word (2 ^ 32) (f i)) k
  unfolding bytes_of_words
  byte_at i k h =
      let q : (4 * i + k) / 4 ≡ i = omega arith in
      let r : (4 * i + k) % 4 ≡ k = omega arith in rw (q, r) refl

  -- A word is read as it was written.
  pub word_at-bytes_of_words : (i : ℕ) → IsInt32 (f i) → word_at (bytes_of_words f) i ≡ f i
  word_at-bytes_of_words i h =
      let e : 4 * i ≡ 4 * i + 0 = omega arith in
      rw
        (
          ap (bytes_of_words f) e ∙ byte_at i 0 (omega arith),
          byte_at i 1 (omega arith),
          byte_at i 2 (omega arith),
          byte_at i 3 (omega arith),
          four_bytes (to_word (2 ^ 32) (f i)) (to_word_lt (f i)),
        )
        (signed_back (f i) h)
