-- ===== src/Ebc/Init/Journal.antt =====
-- The journal of ebcinit names the step before it is made.
use mathlib.Core.List.{append_assoc}
use palma2pro_eos.Base.{refl, inl, inr, Bool, true, false, List, [], ◌∷◌, ◌++◌, Bool-cases}
use palma2pro_eos.Base.Int.{ℤ, pos, ltb_ℤ}
use palma2pro_eos.Ebc.Device.{Call, jot, close, World, before}
use palma2pro_eos.Ebc.Device.Journal.{IsJournalled, IsJournalled-any, if-IsJournalled}
use palma2pro_eos.Ebc.Init.{Request, is_skipped, step, steps, k_seq, replay}

step-IsJournalled :
    (w : World) (req : ℤ) (b : Bool) (rest : List Call)
    → IsJournalled [] rest
    → let r : Request = record { req = req; null_arg = b } in IsJournalled [] (step w r ++ rest)
unfolding step
step-IsJournalled w req true rest h = (inl (inr (inr (inr (inr refl)))), IsJournalled-any _ rest h)
step-IsJournalled w req false rest h = (inl (inr (inr (inr (inr refl)))), IsJournalled-any _ rest h)

steps-IsJournalled :
    (w : World) (only : ℤ) (rs : List Request) (rest : List Call)
    → IsJournalled [] rest
    → IsJournalled [] (steps w only rs ++ rest)
unfolding steps
steps-IsJournalled w only [] rest h = h
steps-IsJournalled w only (r ∷ rs) rest h = elim (Bool-cases (is_skipped only r.req)) [
  | inl e ↦ rw e (steps-IsJournalled w only rs rest h)
  | inr e ↦
      rw (e, append_assoc (step w r) (steps w only rs) rest)
        (step-IsJournalled w r.req r.null_arg (steps w only rs ++ rest)
          (steps-IsJournalled w only rs rest h))
]

-- In every run of ebcinit behind its options, each request is named by a line of the journal written
-- since the last thing that was done on the device.
pub replay-IsJournalled : (w : World) (only : ℤ) → IsJournalled [] (replay w only).0
unfolding replay before
replay-IsJournalled w only =
    if-IsJournalled [] (ltb_ℤ w.fd (pos 0)) (jot "open %s failed: %s" ∷ [], pos 1) _ tt
      (IsJournalled-any _
        (steps w only k_seq ++ jot "=== sequence complete, survived ===" ∷ close w.fd ∷ [])
        (steps-IsJournalled w only k_seq
          (jot "=== sequence complete, survived ===" ∷ close w.fd ∷ []) tt))
