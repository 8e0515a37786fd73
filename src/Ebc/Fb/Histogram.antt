-- ===== src/Ebc/Fb/Histogram.antt =====
-- The histogram counts the bytes, and the most common byte is the one that is reported.
use palma2pro_eos.Base.{
  ℕ, zero, suc, ◌+◌, ◌^◌, ◌≤◌, ◌<◌, ◌≡◌, refl, sym, subst, ◌∙◌, ◌⊎◌, inl, inr, List, [], ◌∷◌, arith,
  ltb, ◌==◌, if◌then◌else◌, Bool-cases,
}
use palma2pro_eos.Ebc.Fb.{Hist, bump, count_bytes, Tally, tally_step, tally, survey}

-- the bytes of a mapping: n of them, from i on
unfoldable pub contents : (ℕ → ℕ) → (n i : ℕ) → List ℕ
contents mem zero i = []
contents mem (suc n) i = mem i ∷ contents mem n (i + 1)

-- how often a byte occurs in a list
unfoldable pub count : ℕ → List ℕ → ℕ
count v [] = 0
count v (x ∷ xs) = if v == x then suc (count v xs) else count v xs

count_bytes-count :
    (mem : ℕ → ℕ) (n i : ℕ) (hist : Hist) (v : ℕ)
    → hist v + n < 2 ^ 64
    → count_bytes mem n i hist v ≡ hist v + count v (contents mem n i)
unfolding count_bytes count contents
count_bytes-count mem zero i hist v h = omega arith
count_bytes-count mem (suc n) i hist v h = elim (Bool-cases (v == mem i)) [
  | inl e ↦
      let next : bump hist (mem i) v ≡ hist v + 1 = ground arith in
      rw e (
        omega (
          arith,
          count_bytes-count mem n (i + 1) (bump hist (mem i)) v (omega (arith, next)),
          next,
        ))
  | inr e ↦
      let next : bump hist (mem i) v ≡ hist v = ground arith in
      rw e (
        omega (
          arith,
          count_bytes-count mem n (i + 1) (bump hist (mem i)) v (omega (arith, next)),
          next,
        ))
]

-- the histogram of a mapping
pub histogram_lem :
    (mem : ℕ → ℕ) (n v : ℕ)
    → n < 2 ^ 64
    → count_bytes mem n 0 (λ x. 0) v ≡ count v (contents mem n 0)
histogram_lem mem n v h = omega (arith, count_bytes-count mem n 0 (λ x. 0) v (omega arith))

-- a byte that the loop over the histogram has come by
abbrev Seen : Hist → ℕ → Tally → Type 0
Seen hist v t = (hist v < t.top) ⊎ ((hist v ≡ t.top) × (t.topval ≤ v))

-- the byte that is kept has been met, or all have been rare
abbrev Kept : Hist → Tally → Type 0
Kept hist t = ((t.top ≡ 0) × (t.topval ≡ 0)) ⊎ (t.top ≡ hist t.topval)

module _ (hist : Hist) where
  step-Seen : (i v : ℕ) (t : Tally) → v < i → Seen hist v t → Seen hist v (tally_step hist i t)
  step-Seen i v t h s = ground arith

  step-Seen_now : (v : ℕ) (t : Tally) → t.topval ≤ v → Seen hist v (tally_step hist v t)
  step-Seen_now v t h = ground arith

  step-topval : (i : ℕ) (t : Tally) → t.topval ≤ i → (tally_step hist i t).topval ≤ i
  step-topval i t h = ground arith

  step-Kept : (i : ℕ) (t : Tally) → Kept hist t → Kept hist (tally_step hist i t)
  step-Kept i t k = elim (Bool-cases (ltb t.top (hist i))) [
    | inl e ↦ rw e (inr refl)
    | inr e ↦ rw e k
  ]

  tally-Seen : (n i v : ℕ) (t : Tally) → v < i → Seen hist v t → Seen hist v (tally hist n i t)
  unfolding tally
  tally-Seen zero i v t h s = s
  tally-Seen (suc n) i v t h s = tally-Seen n (i + 1) v _ (omega arith) (step-Seen i v t h s)

  tally_later-Seen :
      (n i v : ℕ) (t : Tally) → t.topval ≤ i → i ≤ v → v < i + n → Seen hist v (tally hist n i t)
  unfolding tally
  tally_later-Seen zero i v t h lo hi = absurd (omega arith)
  tally_later-Seen (suc n) i v t h lo hi = elim (Bool-cases (v == i)) [
    | inl e ↦
        let same : v ≡ i = ground arith in
        subst (λ k. Seen hist k (tally hist n (i + 1) (tally_step hist i t))) (sym same)
          (tally-Seen n (i + 1) i _ (omega arith) (step-Seen_now i t h))
    | inr e ↦
        tally_later-Seen n (i + 1) v _ (omega (arith, step-topval i t h)) (ground arith)
          (omega arith)
  ]

  tally-Kept : (n i : ℕ) (t : Tally) → Kept hist t → Kept hist (tally hist n i t)
  unfolding tally
  tally-Kept zero i t k = k
  tally-Kept (suc n) i t k = tally-Kept n (i + 1) _ (step-Kept i t k)

  tally-topval : (n i : ℕ) (t : Tally) → t.topval ≤ i → (tally hist (suc n) i t).topval ≤ i + n
  unfolding tally
  tally-topval zero i t h = omega (arith, step-topval i t h)
  tally-topval (suc n) i t h =
      omega (arith, tally-topval n (i + 1) (tally_step hist i t) (omega (arith, step-topval i t h)))

-- For a mapping of n bytes, n below 2^64, and any byte v: what is reported as the most common byte
-- is a byte; the number that is printed with it is how often it occurs in the mapping; and v occurs
-- less often than that, or as often, and then the reported byte is not the greater of the two.
pub survey_top :
    (mem : ℕ → ℕ) (n v : ℕ)
    → n < 2 ^ 64
    → v < 256
    → let t = survey mem n in
      let xs = contents mem n 0 in
      (t.topval < 256)
      × (t.top ≡ count t.topval xs)
      × ((count v xs < t.top) ⊎ ((count v xs ≡ t.top) × (t.topval ≤ v)))
unfolding survey
survey_top mem n v h byte =
    let hist = count_bytes mem n 0 (λ x. 0) in
    let none_yet : Tally = record { distinct = 0; top = 0; topval = 0 } in
    let seen : (v : ℕ) → v < 256 → Seen hist v (survey mem n) =
      λ v b. tally_later-Seen hist 256 0 v none_yet (omega arith) (omega arith) (omega arith) in
    let counted : (v : ℕ) → hist v ≡ count v (contents mem n 0) = λ v. histogram_lem mem n v h in
    let kept : (survey mem n).top ≡ hist (survey mem n).topval =
      elim (tally-Kept hist 256 0 none_yet (inl (refl, refl))) [
        | inl z ↦
            subst (λ k. (survey mem n).top ≡ hist k) (sym z.1)
              (ground (arith, seen 0 (omega arith), z.0))
        | inr e ↦ e
      ] in
    (
      omega (arith, tally-topval hist 255 0 none_yet (omega arith)),
      kept ∙ counted _,
      subst
          (λ m. (m < (survey mem n).top) ⊎ ((m ≡ (survey mem n).top) × ((survey mem n).topval ≤ v)))
          (counted v) (seen v byte),
    )
