-- ===== src/Shim/Memory.antt =====
-- The `memset` and `memcpy` of src/epdcshim.c, over a memory of bytes.
pub mod Ranges
use palma2pro_eos.Base.{ℕ, zero, suc, ◌+◌, ◌%◌, ◌==◌, if◌then◌else◌}
use palma2pro_eos.Base.Int.{ℤ, to_word}

abbrev pub Memory : Type 0
Memory = ℕ → ℕ

-- `*p = v`
abbrev pub store : Memory → ℕ → ℕ → Memory
store m p v a = if a == p then v else m a

-- the loop with `n` turns left, at `p`
unfoldable pub set_from : (p c n : ℕ) → Memory → Memory
set_from p c zero m = m
set_from p c (suc n) m = set_from (p + 1) c n (store m p c)

-- the result is the memory behind the call, which returns `d`
unfoldable pub memset : (d : ℕ) → ℤ → (n : ℕ) → Memory → Memory
unfolding set_from
memset d c n m = set_from d (to_word 256 c) n m

unfoldable pub memcpy : (d s n : ℕ) → Memory → Memory
memcpy d s zero m = m
memcpy d s (suc n) m = memcpy (d + 1) (s + 1) n (store m d (m s))
