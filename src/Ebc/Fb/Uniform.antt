-- ===== src/Ebc/Fb/Uniform.antt =====
-- What the verdict says of the bytes.
use palma2pro_eos.Base.{
  ℕ, zero, suc, ◌+◌, ◌^◌, ◌≤◌, ◌<◌, ◌≡◌, refl, sym, subst, ◌↔◌, ◌⊎◌, inl, inr, true, false, List,
  [], ◌∷◌, arith, leb, ◌==◌, if◌then◌else◌, length, All, Any, Bool-cases,
}
use palma2pro_eos.Ebc.Fb.{Hist, count_bytes, Tally, tally_step, tally, survey, is_uniform}
use palma2pro_eos.Ebc.Fb.Histogram.{contents, count, histogram_lem, survey_top}

-- the bytes that the histogram has
unfoldable values : Hist → (n i : ℕ) → List ℕ
values hist zero i = []
values hist (suc n) i = let rest = values hist n (i + 1) in if hist i == 0 then rest else i ∷ rest

tally-distinct :
    (hist : Hist) (n i : ℕ) (t : Tally)
    → (tally hist n i t).distinct ≡ t.distinct + length (values hist n i)
unfolding tally values
tally-distinct hist zero i t = omega arith
tally-distinct hist (suc n) i t = elim (Bool-cases (hist i == 0)) [
  | inl e ↦
      let next : (tally_step hist i t).distinct ≡ t.distinct = rw e refl in
      rw e (omega (arith, tally-distinct hist n (i + 1) (tally_step hist i t), next))
  | inr e ↦
      let next : (tally_step hist i t).distinct ≡ t.distinct + 1 = rw e refl in
      rw e (omega (arith, tally-distinct hist n (i + 1) (tally_step hist i t), next))
]

Ascending : List ℕ → Type 0
Ascending [] = Unit
Ascending (x ∷ xs) = All (λ y. x < y) xs × Ascending xs

values_from : (hist : Hist) (n i k : ℕ) → k < i → All (λ y. k < y) (values hist n i)
unfolding values
values_from hist zero i k h = tt
values_from hist (suc n) i k h = elim (Bool-cases (hist i == 0)) [
  | inl e ↦ rw e (values_from hist n (i + 1) k (omega arith))
  | inr e ↦ rw e (h, values_from hist n (i + 1) k (omega arith))
]

values-Ascending : (hist : Hist) (n i : ℕ) → Ascending (values hist n i)
unfolding values Ascending
values-Ascending hist zero i = tt
values-Ascending hist (suc n) i = elim (Bool-cases (hist i == 0)) [
  | inl e ↦ rw e (values-Ascending hist n (i + 1))
  | inr e ↦ rw e (values_from hist n (i + 1) i (omega arith), values-Ascending hist n (i + 1))
]

values-All :
    (hist : Hist) (P : ℕ → Type 0) (n i : ℕ)
    → ((v : ℕ) → 0 < hist v → P v)
    → All P (values hist n i)
unfolding values
values-All hist P zero i h = tt
values-All hist P (suc n) i h = elim (Bool-cases (hist i == 0)) [
  | inl e ↦ rw e (values-All hist P n (i + 1) h)
  | inr e ↦ rw e (h i (ground arith), values-All hist P n (i + 1) h)
]

values-Any :
    (hist : Hist) (n i v : ℕ) → 0 < hist v → i ≤ v → v < i + n → Any (λ x. v ≡ x) (values hist n i)
unfolding values
values-Any hist zero i v h lo hi = absurd (omega arith)
values-Any hist (suc n) i v h lo hi = elim (Bool-cases (v == i)) [
  | inl e ↦
      let same : v ≡ i = ground arith in
      let some_i : (hist i == 0) ≡ false = subst (λ k. (hist k == 0) ≡ false) same (ground arith) in
      rw some_i (inl same)
  | inr e ↦
      let later = values-Any hist n (i + 1) v h (ground arith) (omega arith) in
      elim (Bool-cases (hist i == 0)) [ inl z ↦ rw z later | inr z ↦ rw z (inr later) ]
]

-- one of two
abbrev OneOf : (a b c : ℕ) → Type 0
OneOf a b c = (c ≡ a) ⊎ (c ≡ b)

-- The list has at most two different members.
abbrev pub HasTwo : List ℕ → Type 0
HasTwo xs = (a : ℕ) × (b : ℕ) × All (λ c. (c ≡ a) ⊎ (c ≡ b)) xs

Ascending-pair : (a b : ℕ) (vs : List ℕ) → Ascending vs → All (OneOf a b) vs → length vs ≤ 2
unfolding Ascending
Ascending-pair a b [] s h = omega arith
Ascending-pair a b (x ∷ []) s h = omega arith
Ascending-pair a b (x ∷ y ∷ []) s h = omega arith
Ascending-pair a b (x ∷ y ∷ z ∷ vs) s h = absurd (ground arith)

-- a short list of bytes has all of them in a pair
short_pair :
    (vs : List ℕ)
    → length vs ≤ 2
    → (a : ℕ) × (b : ℕ) × ((v : ℕ) → Any (λ x. v ≡ x) vs → OneOf a b v)
short_pair [] h = (0, 0, λ v m. absurd m)
short_pair (x ∷ []) h = (x, x, λ v m. elim m [ inl e ↦ inl e | inr n ↦ absurd n ])
short_pair (x ∷ y ∷ []) h =
    (x, y, λ v m. elim m [ inl e ↦ inl e | inr m ↦ elim m [ inl e ↦ inr e | inr n ↦ absurd n ] ])
short_pair (x ∷ y ∷ z ∷ vs) h = absurd (omega arith)

count-All : (P : ℕ → Type 0) (v : ℕ) (xs : List ℕ) → All P xs → 0 < count v xs → P v
unfolding count
count-All P v [] h c = absurd (omega arith)
count-All P v (x ∷ xs) h c = elim (Bool-cases (v == x)) [
  | inl e ↦ subst P (ground arith) h.0
  | inr e ↦ count-All P v xs h.1 (ground arith)
]

count_member : (v : ℕ) (xs : List ℕ) → Any (λ x. v ≡ x) xs → 0 < count v xs
unfolding count
count_member v [] m = absurd m
count_member v (x ∷ xs) (inl e) = ground arith
count_member v (x ∷ xs) (inr m) = ground (arith, count_member v xs m)

All-members : (P : ℕ → Type 0) (xs : List ℕ) → ((v : ℕ) → Any (λ x. v ≡ x) xs → P v) → All P xs
All-members P [] h = tt
All-members P (x ∷ xs) h = (h x (inl refl), All-members P xs (λ v m. h v (inr m)))

All-any : (P : ℕ → Type 0) (v : ℕ) (xs : List ℕ) → All P xs → Any (λ x. v ≡ x) xs → P v
All-any P v [] h m = absurd m
All-any P v (x ∷ xs) h (inl e) = subst P (sym e) h.0
All-any P v (x ∷ xs) h (inr m) = All-any P v xs h.1 m

leb_iff : (m n : ℕ) → (leb m n ≡ true) ↔ (m ≤ n)
leb_iff m n = ground arith

-- For a mapping of n bytes, n below 2^64: the verdict is UNIFORM exactly if there are two values
-- such that each byte of the mapping is one of them.
survey_uniform :
    (mem : ℕ → ℕ) (n : ℕ)
    → n < 2 ^ 64
    → All (λ c. c < 256) (contents mem n 0)
    → (is_uniform (survey mem n) ≡ true) ↔ HasTwo (contents mem n 0)
unfolding survey
survey_uniform mem n h bytes =
    let hist = count_bytes mem n 0 (λ x. 0) in
    let vs = values hist 256 0 in
    let xs = contents mem n 0 in
    let size : (survey mem n).distinct ≡ length vs =
      omega (arith, tally-distinct hist 256 0 (record { distinct = 0; top = 0; topval = 0 })) in
    let counted : (v : ℕ) → hist v ≡ count v xs = λ v. histogram_lem mem n v h in
    (
      λ u.
          let (a, b, pair) = short_pair vs (subst (λ k. k ≤ 2) size ((leb_iff _ 2).0 u)) in
          (
            a,
            b,
            All-members (OneOf a b) xs (λ v m. pair v (
                values-Any hist 256 0 v (omega (arith, counted v, count_member v xs m))
                  (omega arith) (omega (arith, All-any (λ c. c < 256) v xs bytes m)))),
          ),
      λ two.
          let few = Ascending-pair two.0 two.1 vs (values-Ascending hist 256 0) (
            values-All hist (OneOf two.0 two.1) 256 0
              (λ v p. count-All (OneOf two.0 two.1) v xs two.2 (omega (arith, counted v, p)))) in
          (leb_iff _ 2).1 (subst (λ k. k ≤ 2) (sym size) few),
    )

-- For a mapping of n bytes, n below 2^64, and any byte v: the verdict is UNIFORM exactly if there
-- are two values such that each byte of the mapping is one of them. What is reported as the most
-- common byte is a byte; the number that is printed with it is how often it occurs in the mapping;
-- and v occurs less often than that, or as often, and then the reported byte is not the greater of
-- the two.
pub survey_lem :
    (mem : ℕ → ℕ) (n v : ℕ)
    → n < 2 ^ 64
    → v < 256
    → All (λ c. c < 256) (contents mem n 0)
    → let t = survey mem n in
      let xs = contents mem n 0 in
      ((is_uniform t ≡ true) ↔ HasTwo xs)
      × (t.topval < 256)
      × (t.top ≡ count t.topval xs)
      × ((count v xs < t.top) ⊎ ((count v xs ≡ t.top) × (t.topval ≤ v)))
survey_lem mem n v h byte bytes =
    let (is_byte, often, rarer) = survey_top mem n v h byte in
    (survey_uniform mem n h bytes, is_byte, often, rarer)
