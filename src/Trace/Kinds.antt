-- ===== src/Trace/Kinds.antt =====
-- The table of descriptors: its form, and how long an entry lasts.
use palma2pro_eos.Base.{
  ℕ, zero, suc, ◌<◌, ◌≡◌, ◌≢◌, refl, ap, ◌∙◌, inl, inr, true, false, ◌&&◌, Option, none, some, List,
  [], ◌∷◌, arith, get_elem?, set, Bool-cases, Option-cases,
}
use palma2pro_eos.Base.Int.{ℤ, pos, negsuc, pos_part, ltb_ℤ, leb_ℤ, eqb_ℤ}
use palma2pro_eos.Trace.{Trace, Pointer, Env, max_fd, entry, classify, kind_of, look, ioctl}
use palma2pro_eos.Trace.Forwards.{ensure_resolved}

get_elem?-set : (xs : List ℤ) (i j : ℕ) (v : ℤ) → i ≢ j → get_elem? (set xs i v) j ≡ get_elem? xs j
get_elem?-set [] i j v h = refl
get_elem?-set (x ∷ xs) zero zero v h = absurd (h refl)
get_elem?-set (x ∷ xs) zero (suc j) v h = refl
get_elem?-set (x ∷ xs) (suc i) zero v h = refl
get_elem?-set (x ∷ xs) (suc i) (suc j) v h = get_elem?-set xs i j v (λ e. h (ap suc e))

get_elem?-set_same :
    (xs : List ℤ) (i : ℕ) (v k : ℤ) → get_elem? xs i ≡ some k → get_elem? (set xs i v) i ≡ some v
get_elem?-set_same [] i v k h = cc
get_elem?-set_same (x ∷ xs) zero v k h = refl
get_elem?-set_same (x ∷ xs) (suc i) v k h = get_elem?-set_same xs i v k h

-- a settled entry, and one that is not
abbrev pub Settled : List ℤ → ℕ → ℤ → Type 0
Settled kinds i k = (get_elem? kinds i ≡ some k) × (k ≢ negsuc 0)

kind_of-settled : (tgt : List ℕ) → kind_of tgt ≢ negsuc 0
unfolding kind_of
kind_of-settled tgt h = ground arith

classify-settled : (e : Env) (fd : ℤ) → classify e fd ≢ negsuc 0
unfolding classify
classify-settled e fd = elim (Option-cases (e.link fd)) [
  | inl f ↦ rw (f, classify) (λ h. cc)
  | inr (tgt, f) ↦ rw (f, classify) (kind_of-settled _)
]

entry-Settled :
    (e : Env) (fd : ℤ) (kinds : List ℤ) (o : Option ℤ) (i : ℕ) (k : ℤ)
    → get_elem? kinds (pos_part fd) ≡ o
    → Settled kinds i k
    → Settled (entry e fd kinds o).kinds i k
unfolding entry
entry-Settled e fd kinds none i k at h = h
entry-Settled e fd kinds (some old) i k at h = elim (Bool-cases (eqb_ℤ old (negsuc 0))) [
  | inl new ↦ rw new (get_elem?-set kinds (pos_part fd) i _ (λ same. h.1 (met same new)) ∙ h.0, h.1)
  | inr known ↦ rw known h
]
  where
    fresh : (a : ℤ) → eqb_ℤ a (negsuc 0) ≡ true → a ≡ negsuc 0
    fresh (pos n) h = absurd (ground arith)
    fresh (negsuc n) h = ground arith

    met : pos_part fd ≡ i → eqb_ℤ old (negsuc 0) ≡ true → k ≡ negsuc 0
    met same new = cc (fresh old new, same, at, h.0)

look-Settled :
    (e : Env) (fd : ℤ) (kinds : List ℤ) (i : ℕ) (k : ℤ)
    → Settled kinds i k
    → Settled (look e fd kinds).kinds i k
unfolding look
look-Settled e fd kinds i k h = elim (Bool-cases (leb_ℤ (pos 0) fd && ltb_ℤ fd (pos max_fd))) [
  | inl r ↦ rw r (entry-Settled e fd kinds _ i k refl h)
  | inr r ↦ rw r h
]

-- the test of the range, for a descriptor of the table
in_range : (i : ℕ) → i < max_fd → leb_ℤ (pos 0) (pos i) && ltb_ℤ (pos i) (pos max_fd) ≡ true
in_range i small = ground arith

unsettled_lem : (k : ℤ) → k ≢ negsuc 0 → eqb_ℤ k (negsuc 0) ≡ false
unsettled_lem (pos n) h = ground arith
unsettled_lem (negsuc n) h = ground arith

look-of_Settled :
    (e : Env) (kinds : List ℤ) (i : ℕ) (k : ℤ)
    → i < max_fd
    → Settled kinds i k
    → (look e (pos i) kinds).kind ≡ k
unfolding look entry
look-of_Settled e kinds i k small h = rw (in_range i small, h.0, unsettled_lem k h.1) refl

-- the first call on a descriptor of the table
look_first :
    (e : Env) (kinds : List ℤ) (i : ℕ)
    → i < max_fd
    → get_elem? kinds i ≡ some (negsuc 0)
    → Settled (look e (pos i) kinds).kinds i (classify e (pos i))
unfolding look entry
look_first e kinds i small new =
    rw (in_range i small, new)
      (get_elem?-set_same kinds i _ (negsuc 0) new, classify-settled e (pos i))

-- a call of the interposed `ioctl`
pub record Use : Type 0 where
  pub env : Env
  pub fd : ℤ
  pub request : ℤ
  pub arg : Pointer

-- the state after a sequence of calls
pub run_uses : List Use → Trace → Trace
run_uses [] s = s
run_uses (u ∷ us) s = run_uses us (ioctl u.env u.fd u.request u.arg s).0

run_uses-Settled :
    (us : List Use) (s : Trace) (i : ℕ) (k : ℤ)
    → s.resolved ≡ true
    → Settled s.fdkind i k
    → Settled (run_uses us s).fdkind i k
unfolding run_uses ioctl
run_uses-Settled [] s i k r h = h
run_uses-Settled (u ∷ us) s i k r h =
    run_uses-Settled us _ i k (ap (λ x. x.0.resolved) (ensure_resolved u.env s r) ∙ r)
      (simp (ensure_resolved u.env s r) (look-Settled u.env u.fd s.fdkind i k h))

-- Once the library is loaded: a descriptor of the table that has not been met is classified by the
-- first call on it, and every later call, after any others and whatever the descriptor has come to
-- stand for by then, takes it for the same kind.
pub first_kind :
    (e : Env) (i : ℕ) (request : ℤ) (p : Pointer) (s : Trace) (us : List Use) (e' : Env)
    → i < max_fd
    → s.resolved ≡ true
    → get_elem? s.fdkind i ≡ some (negsuc 0)
    → let s' = run_uses us (ioctl e (pos i) request p s).0 in
      (look e' (pos i) s'.fdkind).kind ≡ classify e (pos i)
unfolding ioctl
first_kind e i request p s us e' small r new = look-of_Settled e' _ i _ small (
    run_uses-Settled us _ i _ (ap (λ x. x.0.resolved) (ensure_resolved e s r) ∙ r)
      (simp (ensure_resolved e s r) (look_first e s.fdkind i small new)))
