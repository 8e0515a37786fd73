-- ===== src/Shim/Memory/Ranges.antt =====
-- What `memset` and `memcpy` leave in memory.
use palma2pro_eos.Base.{
  ℕ, zero, suc, ◌+◌, ◌-◌, ◌≤◌, ◌<◌, ◌≡◌, ap, ◌∙◌, Bool, ◌⊎◌, inl, inr, arith, ltb, leb, ◌&&◌,
  if◌then◌else◌,
}
use palma2pro_eos.Base.Int.{ℤ, to_word}
use palma2pro_eos.Shim.Memory.{Memory, store, set_from, memset, memcpy}

-- the address lies in the `n` bytes from `p` on
abbrev pub is_in : (p n a : ℕ) → Bool
is_in p n a = leb p a && ltb a (p + n)

set_from_lem :
    (p c n : ℕ) (m : Memory) (a : ℕ) → set_from p c n m a ≡ (if is_in p n a then c else m a)
unfolding set_from
set_from_lem p c zero m a = ground arith
set_from_lem p c (suc n) m a = set_from_lem (p + 1) c n (store m p c) a ∙ ground arith

-- Behind `memset(d, c, n)` the `n` bytes from `d` on are the low byte of c, and all others are as
-- they were.
pub memset_lem :
    (d : ℕ) (c : ℤ) (n : ℕ) (m : Memory) (a : ℕ)
    → memset d c n m a ≡ (if is_in d n a then to_word 256 c else m a)
unfolding memset
memset_lem d c n m a = set_from_lem d (to_word 256 c) n m a

-- Behind `memcpy(d, s, n)`, if the `n` bytes from `d` on start at or below the source or behind its
-- end, they are what the `n` bytes from `s` on were before the call, and all others are as they were.
pub memcpy_lem :
    (d s n : ℕ) (m : Memory) (a : ℕ)
    → (d ≤ s) ⊎ (s + n ≤ d)
    → memcpy d s n m a ≡ (if is_in d n a then m (s + (a - d)) else m a)
unfolding memcpy
memcpy_lem d s zero m a apart = ground arith
memcpy_lem d s (suc n) m a apart =
    memcpy_lem (d + 1) (s + 1) n (store m d (m s)) a (closer apart)
    ∙ ground (arith, apart, further, here)
  where
    closer : (d ≤ s) ⊎ (s + suc n ≤ d) → (d + 1 ≤ s + 1) ⊎ (s + 1 + n ≤ d + 1)
    closer (inl h) = inl (omega arith)
    closer (inr h) = inr (omega arith)

    further : d < a → m (s + 1 + (a - (d + 1))) ≡ m (s + (a - d))
    further h = ap m (omega arith)

    here : a ≡ d → m s ≡ m (s + (a - d))
    here h = ap m (omega arith)
