-- ===== src/Trace/Forwards.antt =====
-- Every call goes on to the real `ioctl`, once, and nothing else reaches a driver.
use palma2pro_eos.Base.{
  ℕ, ◌≡◌, refl, ap, ◌⊎◌, inl, inr, true, false, List, [], ◌∷◌, ◌++◌, arith, Bool-cases,
}
use palma2pro_eos.Base.Int.{ℤ, pos, eqb_ℤ}
use palma2pro_eos.Print.{Line}
use palma2pro_eos.Trace.{
  Trace, Pointer, null, block, Env, Call, open_log, write_log, readlink, real_ioctl, emit, load,
  dump_arg, look, traced, update_or, forward, ensure, ioctl,
}

-- the calls of the real `ioctl`, and the lines that are written
unfoldable pub forwarded : List Call → List (ℤ × ℤ × Pointer)
forwarded [] = []
forwarded (real_ioctl fd request p ∷ calls) = (fd, request, p) ∷ forwarded calls
forwarded (open_log ∷ calls) = forwarded calls
forwarded (write_log _ _ _ ∷ calls) = forwarded calls
forwarded (readlink _ ∷ calls) = forwarded calls

unfoldable pub logged : List Call → List Line
logged [] = []
logged (write_log _ _ l ∷ calls) = l ∷ logged calls
logged (real_ioctl _ _ _ ∷ calls) = logged calls
logged (open_log ∷ calls) = logged calls
logged (readlink _ ∷ calls) = logged calls

forwarded-append : (xs ys : List Call) → forwarded (xs ++ ys) ≡ forwarded xs ++ forwarded ys
unfolding forwarded
forwarded-append [] ys = refl
forwarded-append (real_ioctl _ _ _ ∷ xs) ys = rw (forwarded-append xs ys) refl
forwarded-append (open_log ∷ xs) ys = forwarded-append xs ys
forwarded-append (write_log _ _ _ ∷ xs) ys = forwarded-append xs ys
forwarded-append (readlink _ ∷ xs) ys = forwarded-append xs ys

logged-append : (xs ys : List Call) → logged (xs ++ ys) ≡ logged xs ++ logged ys
unfolding logged
logged-append [] ys = refl
logged-append (write_log _ _ l ∷ xs) ys = ap (λ ls. l ∷ ls) (logged-append xs ys)
logged-append (open_log ∷ xs) ys = logged-append xs ys
logged-append (real_ioctl _ _ _ ∷ xs) ys = logged-append xs ys
logged-append (readlink _ ∷ xs) ys = logged-append xs ys

forwarded-emit : (logfd : ℤ) (size : ℕ) (l : Line) → forwarded (emit logfd size l) ≡ []
unfolding emit forwarded
forwarded-emit logfd size l = ground arith

module _ (e : Env) (logfd kind fd request : ℤ) where
  forwarded-traced :
      (p : Pointer) → forwarded (traced e logfd kind fd request p) ≡ (fd, request, p) ∷ []
  unfolding traced dump_arg forwarded
  forwarded-traced p = simp (forwarded-append, forwarded-emit)

  forwarded-update :
      (p : Pointer) → forwarded (update_or e logfd kind fd request p) ≡ (fd, request, p) ∷ []
  unfolding update_or forwarded
  forwarded-update null = forwarded-traced null
  forwarded-update (block b a) = elim (Bool-cases (eqb_ℤ request (pos 0x700c))) [
    | inl u ↦ rw u (ap (λ l. (fd, request, block b a) ∷ l) (forwarded-emit logfd 256 _))
    | inr u ↦ rw u (forwarded-traced (block b a))
  ]

  forwarded-forward :
      (p : Pointer) → forwarded (forward e logfd kind fd request p) ≡ (fd, request, p) ∷ []
  unfolding forward forwarded
  forwarded-forward p = elim (Bool-cases (eqb_ℤ kind (pos 0))) [
    | inl z ↦ rw z refl
    | inr z ↦ rw z (forwarded-update p)
  ]

forwarded-look : (e : Env) (fd : ℤ) (kinds : List ℤ) → forwarded (look e fd kinds).calls ≡ []
unfolding look forwarded
forwarded-look e fd kinds = ground arith

forwarded-load : (e : Env) (s : Trace) → forwarded (load e s).1 ≡ []
unfolding load forwarded
forwarded-load e s = forwarded-emit e.log 128 _

forwarded-ensure : (e : Env) (s : Trace) → forwarded (ensure e s).1 ≡ []
unfolding ensure forwarded
forwarded-ensure e s = elim (Bool-cases s.resolved) [
  | inl h ↦ simp (h)
  | inr h ↦ simp (h, forwarded-load)
]

pub ensure_resolved : (e : Env) (s : Trace) → s.resolved ≡ true → ensure e s ≡ (s, [])
unfolding ensure
ensure_resolved e s h = simp (h)

logged-look : (e : Env) (fd : ℤ) (kinds : List ℤ) → logged (look e fd kinds).calls ≡ []
unfolding look logged
logged-look e fd kinds = ground arith

logged-forward :
    (e : Env) (logfd kind fd request : ℤ) (p : Pointer)
    → eqb_ℤ kind (pos 0) ≡ true
    → logged (forward e logfd kind fd request p) ≡ []
unfolding forward logged
logged-forward e logfd kind fd request p h = rw h refl

-- Whatever the descriptor, the request and the state: the real `ioctl` is called exactly once, with
-- the arguments of the call, and its result is returned. And unless this call loads the library, or
-- the descriptor is of a kind that is traced, no line is written.
pub ioctl-Forwards :
    (e : Env) (fd request : ℤ) (p : Pointer) (s : Trace)
    → let out = ioctl e fd request p s in
      (forwarded out.1 ≡ (fd, request, p) ∷ [])
      × (out.2 ≡ e.rc)
      × ((s.resolved ≡ false)
          ⊎ (eqb_ℤ (look e fd s.fdkind).kind (pos 0) ≡ false)
          ⊎ (logged out.1 ≡ []))
unfolding ioctl logged
ioctl-Forwards e fd request p s = (
  simp (forwarded-append, forwarded-ensure, forwarded-look, forwarded-forward),
  refl,
  elim (Bool-cases s.resolved) [
    | inl h ↦ elim (Bool-cases (eqb_ℤ (look e fd s.fdkind).kind (pos 0))) [
      | inl k ↦ inr (
          inr (
            simp (
              ensure_resolved e s h,
              logged-append,
              logged-look,
              logged-forward e s.logfd (look e fd s.fdkind).kind fd request p k,
            )))
      | inr k ↦ inr (inl k)
    ]
    | inr h ↦ inl h
  ],
)
