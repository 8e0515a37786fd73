-- ===== src/Seqlock/Reads.antt =====
-- `read_damage` against a running writer: its loop, with each attempt taken from the interleaving.
use palma2pro_eos.Base.{
  ℕ, zero, suc, ◌+◌, ◌*◌, ◌^◌, ◌<◌, ◌≤◌, leb, arith, ◌≡◌, refl, subst, sym, ◌⊎◌, inl, inr, true,
  false, Bool-cases,
}
use palma2pro_eos.Base.Int.{ℤ}
use palma2pro_eos.Shim.State.{Attempt, Shim, Env}
use palma2pro_eos.Shim.Damage.{Read, clip_count, accepts, accepted, unusable, attempts, read_damage}
use palma2pro_eos.Seqlock.{reading, System, Reach, attempt_of, attempt_at}
use palma2pro_eos.Seqlock.Safety.{accepted-untorn}

-- An attempt that a reader has made in a state of the system, with all that it reads behind it, and
-- fewer than 2 ^ 32 stores to `seq` since its first load.
pub record Made (junk : ℕ → ℤ) (a : Attempt) : Type 0 where
  pub system : System
  pub v : ℕ
  pub n : ℕ
  pub f : ℕ
  pub got : ℕ → ℤ
  pub reach : Reach junk system
  pub done : system.reader ≡ reading v n f (4 * clip_count n) got
  pub few : system.ver < v + 2 ^ 32
  pub same : a ≡ attempt_of system v n f got

-- Each attempt fails its checks, or has been made against the running writer.
abbrev pub Looks : (ℕ → ℤ) → (ℕ → Attempt) → Type 0
Looks junk look = (j : ℕ) → (accepts (look j) ≡ false) ⊎ Made junk (look j)

-- What is returned is what an undisturbed reader gets of the publication whose number one of the `k`
-- attempts from the i-th on has loaded, in the run of the writer against which just that attempt was
-- made; or else nothing, and then all `k` failed their checks.
abbrev pub IsPublication :
    (junk : ℕ → ℤ) (look : ℕ → Attempt) → Looks junk look → (i k last : ℕ) → Read → Type 0
IsPublication junk look made i k last r =
    ((r ≡ unusable last) × ((j : ℕ) → i ≤ j → j < i + k → accepts (look j) ≡ false))
    ⊎ ((j : ℕ) × (i ≤ j)
        × (j < i + k)
        × (m : Made junk (look j)) × (made j ≡ inr m)
        × (r ≡ accepted (attempt_at m.v (m.system.published m.v)) last))

Made-accepted :
    (junk : ℕ → ℤ) (a : Attempt) (last : ℕ) (m : Made junk a)
    → accepts a ≡ true
    → accepted a last ≡ accepted (attempt_at m.v (m.system.published m.v)) last
Made-accepted junk a last m ok =
    let b = attempt_of m.system m.v m.n m.f m.got in
    let passes : accepts b ≡ true = subst (λ x. accepts x ≡ true) m.same ok in
    subst (λ x. accepted x last ≡ accepted (attempt_at m.v (m.system.published m.v)) last)
      (sym m.same) (accepted-untorn m.v m.n m.f m.got last m.reach m.done m.few passes)

sum-cases : {A B : Type 0} (d : A ⊎ B) → ((a : A) × (d ≡ inl a)) ⊎ ((b : B) × (d ≡ inr b))
sum-cases (inl a) = inl (a, refl)
sum-cases (inr b) = inr (b, refl)

one_later :
    (junk : ℕ → ℤ) (look : ℕ → Attempt) (made : Looks junk look) (i k last : ℕ) (r : Read)
    → accepts (look i) ≡ false
    → IsPublication junk look made (i + 1) k last r
    → IsPublication junk look made i (suc k) last r
one_later junk look made i k last r torn (inl (e, all)) = inl (
  e,
  λ j lo hi. elim (Bool-cases (leb (i + 1) j)) [
    | inl p ↦ all j (ground arith) (omega arith)
    | inr p ↦ let same : i ≡ j = ground arith in subst (λ n. accepts (look n) ≡ false) same torn
  ],
)
one_later junk look made i k last r torn (inr (j, lo, hi, m, by, e)) =
    inr (j, omega arith, omega arith, m, by, e)

attempts-IsPublication :
    (junk : ℕ → ℤ) (look : ℕ → Attempt) (made : Looks junk look) (k i last : ℕ)
    → IsPublication junk look made i k last (attempts look k i last)
unfolding attempts
attempts-IsPublication junk look made zero i last = inl (refl, λ j lo hi. absurd (omega arith))
attempts-IsPublication junk look made (suc k) i last = elim (Bool-cases (accepts (look i))) [
  | inr torn ↦ rw torn (
      one_later junk look made i k last _ torn
        (attempts-IsPublication junk look made k (i + 1) last))
  | inl ok ↦ elim (sum-cases (made i)) [
    | inl (torn, e) ↦ absurd (cc (ok, torn))
    | inr (m, e) ↦
        rw ok (inr (i, omega arith, omega arith, m, e, Made-accepted junk (look i) last m ok))
  ]
]

-- Where each attempt either fails its checks or has been made, in any interleaving with a writer,
-- with fewer than 2 ^ 32 stores to `seq` during it: `read_damage` of an attached shim returns what an
-- undisturbed reader gets of one publication, the one whose number one of its four attempts has
-- loaded, in the run of the writer against which that attempt was made; or that the region is
-- unusable, and then all four failed their checks. If the shim is not attached, the region is
-- unusable.
pub read_damage-IsPublication :
    (junk : ℕ → ℤ) (e : Env) (s : Shim) (made : Looks junk e.attempt)
    → ((s.attached ≡ false) × (read_damage e s ≡ unusable s.last_dmg_seq))
      ⊎ ((s.attached ≡ true)
          × IsPublication junk e.attempt made 0 4 s.last_dmg_seq (read_damage e s))
unfolding read_damage
read_damage-IsPublication junk e s made = elim (Bool-cases s.attached) [
  | inl at ↦ inr (at, rw at (attempts-IsPublication junk e.attempt made 4 0 s.last_dmg_seq))
  | inr off ↦ inl (off, rw off refl)
]
