-- ===== src/Shim/Numbers/Names.antt =====
-- `str_eq` decides equality of names.
use palma2pro_eos.Base.{ℕ, ◌≡◌, ◌≢◌, refl, true, ◌↔◌, List, [], ◌∷◌, arith, All}
use palma2pro_eos.Shim.Numbers.{str_eq}

-- a text as C holds it, with no zero before its end
abbrev pub IsText : List ℕ → Type 0
IsText s = All (λ c. c ≢ 0) s

-- For two texts without a zero byte, `str_eq` answers true exactly when they are the same text.
pub str_eq_iff : (a b : List ℕ) → IsText a → IsText b → (str_eq a b ≡ true) ↔ (a ≡ b)
unfolding str_eq
str_eq_iff [] [] ta tb = (λ _. refl, λ _. refl)
str_eq_iff [] (y ∷ b) ta tb = ground arith
str_eq_iff (x ∷ a) [] ta tb = ground arith
str_eq_iff (x ∷ a) (y ∷ b) ta tb = ground (arith, str_eq_iff a b ta.1 tb.1)
