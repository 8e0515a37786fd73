-- ===== src/Shim/Damage/Reads.antt =====
-- What `read_damage` returns, in terms of its four attempts.
use palma2pro_eos.Base.{
  ℕ, zero, suc, ◌+◌, ◌≤◌, ◌<◌, ◌≡◌, refl, ap, ◌⊎◌, inl, inr, true, false, arith, length, Bool-cases,
}
use native.Mathlib.Decide.{dec_lt}
use palma2pro_eos.Shim.State.{Rect, Shim, Env, Attempt, epdc_damage_max}
use palma2pro_eos.Shim.Damage.{
  Read, copy_rects, clip_count, accepts, accepted, unusable, attempts, read_damage,
}

-- attempt `j` is the first of `i … i + k - 1` that is accepted
pub record IsFirst (look : ℕ → Attempt) (i k j : ℕ) : Type 0 where
  pub from : i ≤ j
  pub below : j < i + k
  pub taken : accepts (look j) ≡ true
  pub earlier : (m : ℕ) → i ≤ m → m < j → accepts (look m) ≡ false

abbrev pub NoneAccepted : (ℕ → Attempt) → ℕ → ℕ → Type 0
NoneAccepted look i k = (m : ℕ) → i ≤ m → m < i + k → accepts (look m) ≡ false

-- The result is what the first accepted attempt read, or that of an unusable region.
abbrev pub IsResult : (ℕ → Attempt) → ℕ → ℕ → ℕ → Read → Type 0
IsResult look i k last r =
    ((j : ℕ) × IsFirst look i k j × (r ≡ accepted (look j) last))
    ⊎ (NoneAccepted look i k × (r ≡ unusable last))

-- One more rejected attempt in front.
IsResult-step :
    (look : ℕ → Attempt) (i k last : ℕ) (r : Read)
    → accepts (look i) ≡ false
    → IsResult look (i + 1) k last r
    → IsResult look i (suc k) last r
IsResult-step look i k last r torn (inl (j, f, e)) = inl (
  j,
  record {
    from = omega (arith, f.from);
    below = omega (arith, f.below);
    taken = f.taken;
    earlier = λ m a b. at m (dec_lt i m) a b;
  },
  e,
)
  where
    at : (m : ℕ) → Dec (i < m) → i ≤ m → m < j → accepts (look m) ≡ false
    at m (yes lt) a b = f.earlier m (omega arith) b
    at m (no ge) a b = let same : m ≡ i = omega arith in rw same torn
IsResult-step look i k last r torn (inr (none_ok, e)) = inr (λ m a b. at m (dec_lt i m) a b, e)
  where
    at : (m : ℕ) → Dec (i < m) → i ≤ m → m < i + suc k → accepts (look m) ≡ false
    at m (yes lt) a b = none_ok m (omega arith) (omega arith)
    at m (no ge) a b = let same : m ≡ i = omega arith in rw same torn

attempts-IsResult :
    (look : ℕ → Attempt) (k i last : ℕ) → IsResult look i k last (attempts look k i last)
unfolding attempts
attempts-IsResult look zero i last = inr ((λ m a b. absurd (omega arith)), refl)
attempts-IsResult look (suc k) i last = elim (Bool-cases (accepts (look i))) [
  | inl ok ↦ rw ok (
      inl (
        i,
        record {
          from = omega arith;
          below = omega arith;
          taken = ok;
          earlier = λ m a b. absurd (omega arith);
        },
        refl,
      ))
  | inr torn ↦ rw torn (IsResult-step look i k last _ torn (attempts-IsResult look k (i + 1) last))
]

length-copy_rects : (rect : ℕ → Rect) (i n : ℕ) → length (copy_rects rect i n) ≡ n
unfolding copy_rects
length-copy_rects rect i zero = refl
length-copy_rects rect i (suc n) = ap suc (length-copy_rects rect (i + 1) n)

clip_count-le_max : (n : ℕ) → clip_count n ≤ epdc_damage_max
unfolding clip_count
clip_count-le_max n = ground arith

fits_of :
    (look : ℕ → Attempt) (i k last : ℕ) (r : Read)
    → IsResult look i k last r
    → length r.rects ≤ epdc_damage_max
unfolding accepted unusable
fits_of look i k last r (inl (j, f, e)) = rw e (
    rw (length-copy_rects (look j).rect 0 (clip_count (look j).count))
      (clip_count-le_max (look j).count))
fits_of look i k last r (inr (none_ok, e)) = rw e (omega arith)

-- With the mapping attached, `read_damage` makes at most four attempts and returns what the first
-- accepted one read; if none is accepted it reports a change and no rectangle, and keeps the known
-- sequence number, so that the whole panel is refreshed now and the damage read again. In both
-- cases there are at most eight rectangles.
pub read_damage-IsResult :
    (e : Env) (s : Shim)
    → s.attached ≡ true
    → IsResult e.attempt 0 4 s.last_dmg_seq (read_damage e s)
      × (length (read_damage e s).rects ≤ epdc_damage_max)
unfolding read_damage
read_damage-IsResult e s h =
    let r = attempts-IsResult e.attempt 4 0 s.last_dmg_seq in
    rw h (r, fits_of e.attempt 0 4 s.last_dmg_seq _ r)
