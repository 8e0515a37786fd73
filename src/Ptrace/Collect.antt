-- ===== src/Ptrace/Collect.antt =====
-- What a list of actions holds of one kind.
use mathlib.Core.List.{append_assoc}
use palma2pro_eos.Base.{◌≡◌, refl, ap, sym, ◌∙◌, List, [], ◌∷◌, ◌++◌, All}
use palma2pro_eos.Ptrace.{Action}

unfoldable pub collect {ℓ} : {B : Type ℓ} → (Action → List B) → List Action → List B
collect f [] = []
collect f (a ∷ actions) = f a ++ collect f actions

pub collect-append {ℓ} :
    {B : Type ℓ} (f : Action → List B) (xs ys : List Action)
    → collect f (xs ++ ys) ≡ collect f xs ++ collect f ys
unfolding collect
collect-append f [] ys = refl
collect-append f (a ∷ xs) ys =
    ap (λ l. f a ++ l) (collect-append f xs ys)
    ∙ sym (append_assoc (f a) (collect f xs) (collect f ys))

-- the actions that nothing is taken of
pub collect-nil {ℓ} :
    {B : Type ℓ} (f : Action → List B) (xs : List Action)
    → All (λ a. f a ≡ []) xs
    → collect f xs ≡ []
unfolding collect
collect-nil f [] h = refl
collect-nil f (a ∷ xs) h = ap (λ l. l ++ collect f xs) h.0 ∙ collect-nil f xs h.1
