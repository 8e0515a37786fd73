-- ===== src/Ebc/Init/Replay.antt =====
-- What ebcinit asks of the device.
use palma2pro_eos.Base.{
  ◌≡◌, refl, ap, sym, inl, inr, Bool, true, false, List, [], ◌∷◌, arith, All, Any, All-append,
  Bool-cases, if◌then◌else◌,
}
use palma2pro_eos.Base.Int.{ℤ, pos, ◌≤ℤ◌, ◌<ℤ◌, ltb_ℤ, leb_ℤ}
use palma2pro_eos.Ebc.Device.{
  Call, Arg, null, zeroed, jot, open_ebc, ioctl, mmap, load, store, memset, close, World, before,
}
use palma2pro_eos.Ebc.Device.Stages.{device, before-All, if-All}
use palma2pro_eos.Ebc.Init.{Request, is_skipped, step, steps, k_seq, replay}

-- The whole sequence, in the order of the vendor's start-up.
abbrev pub whole : World → List Call
whole w =
    open_ebc
    ∷ ioctl w.fd (pos 0x7029) (zeroed 4096)
    ∷ ioctl w.fd (pos 0x7021) (zeroed 4096)
    ∷ ioctl w.fd (pos 0x701e) (zeroed 4096)
    ∷ ioctl w.fd (pos 0x7022) null
    ∷ close w.fd
    ∷ []

-- Without `--only`, if the device opens, ebcinit makes the four requests in the order of the
-- start-up, the last with no argument, whatever each returns, closes the device and exits with 0.
pub replay-whole :
    (w : World) (only : ℤ)
    → pos 0 ≤ℤ w.fd
    → only <ℤ pos 0
    → (device (replay w only).0 ≡ whole w) × ((replay w only).1 ≡ pos 0)
unfolding replay steps step is_skipped before device
replay-whole w only opens h =
    let there : ltb_ℤ w.fd (pos 0) ≡ false = ground arith in
    let all : leb_ℤ (pos 0) only ≡ false = ground arith in rw (there, all) (refl, refl)

abbrev pub arg_of : Request → Arg
arg_of r = if r.null_arg then null else zeroed 4096

-- one of the four requests, with the argument of the sequence, and the one of `--only` if it is
-- given
abbrev pub IsKnown : ℤ → Call → Type 0
IsKnown only (ioctl fd req arg) =
    Any (λ r. (r.req ≡ req) × (arg ≡ arg_of r)) k_seq × (pos 0 ≤ℤ only → req ≡ only)
IsKnown only (mmap _ _ _) = ⊥
IsKnown only (load _) = ⊥
IsKnown only (store _ _) = ⊥
IsKnown only (memset _ _) = ⊥
IsKnown only (jot _) = Unit
IsKnown only open_ebc = Unit
IsKnown only (close _) = Unit

kept_lem : (only req : ℤ) → is_skipped only req ≡ false → pos 0 ≤ℤ only → req ≡ only
unfolding is_skipped
kept_lem only req h nat = ground arith

known-arg :
    (r : Request) (ks : List Request)
    → Any (λ k. k ≡ r) ks
    → Any (λ k. (k.req ≡ r.req) × (arg_of r ≡ arg_of k)) ks
known-arg r [] h = absurd h
known-arg r (k ∷ ks) (inl e) = inl (ap (λ x. x.req) e, ap arg_of (sym e))
known-arg r (k ∷ ks) (inr h) = inr (known-arg r ks h)

step-IsKnown :
    (w : World) (only req : ℤ) (b : Bool)
    → let r : Request = record { req = req; null_arg = b } in
      Any (λ k. k ≡ r) k_seq → is_skipped only req ≡ false → All (IsKnown only) (step w r)
unfolding step
step-IsKnown w only req true known h =
    (tt, ((known-arg _ k_seq known, kept_lem only req h), (tt, tt)))
step-IsKnown w only req false known h =
    (tt, ((known-arg _ k_seq known, kept_lem only req h), (tt, (tt, tt))))

steps-IsKnown :
    (w : World) (only : ℤ) (rs : List Request)
    → All (λ r. Any (λ k. k ≡ r) k_seq) rs
    → All (IsKnown only) (steps w only rs)
unfolding steps
steps-IsKnown w only [] known = tt
steps-IsKnown w only (r ∷ rs) known = elim (Bool-cases (is_skipped only r.req)) [
  | inl e ↦ rw e (steps-IsKnown w only rs known.1)
  | inr e ↦ rw e (
      All-append (IsKnown only) (step w r) (steps w only rs)
        (step-IsKnown w only r.req r.null_arg known.0 e) (steps-IsKnown w only rs known.1))
]

-- ebcinit makes no request but the four of the start-up, each with its argument there, and with
-- `--only` none but that one; it maps nothing.
pub replay-IsKnown : (w : World) (only : ℤ) → All (IsKnown only) (replay w only).0
unfolding replay
replay-IsKnown w only =
    before-All (IsKnown only) _ _ (tt, (tt, tt))
      (if-All (IsKnown only) (ltb_ℤ w.fd (pos 0)) (jot "open %s failed: %s" ∷ [], pos 1) _ (tt, tt)
        (before-All (IsKnown only) _ _ (tt, tt)
          (before-All (IsKnown only) _ _
            (steps-IsKnown w only k_seq (
              inl refl,
              (inr (inl refl), (inr (inr (inl refl)), (inr (inr (inr (inl refl))), tt))),
            ))
            (tt, (tt, tt)))))
