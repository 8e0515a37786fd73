-- ===== src/Shim/Settle/Rounds.antt =====
-- What a round of the settle thread does, and what it does not repeat.
use mathlib.Core.List.{append-nil}
use palma2pro_eos.Base.{
  sym, ◌-◌, ◌^◌, ◌≡◌, refl, ◌∙◌, ap, ◌⊎◌, inl, inr, true, false, ◌&&◌, List, [], ◌∷◌, ◌++◌, arith,
  Bool-cases,
}
use palma2pro_eos.Base.Int.{ℤ, pos, int32, ◌+ℤ◌, ◌≤ℤ◌, ◌<ℤ◌}
use palma2pro_eos.Shim.State.{
  Upd, Shim, Env, Call, real_add, real_commit, open_damage, mmap_damage, create_thread, open_ebc,
  send_update, close_ebc,
}
use palma2pro_eos.Shim.Parms.{marker_of}
use palma2pro_eos.Shim.Settle.{next_marker, settle_upd, settle_now, settle_due, settle_round}

-- the updates that were sent
unfoldable pub sent : List Call → List Upd
sent [] = []
sent (send_update fd u ∷ calls) = u ∷ sent calls
sent (real_add _ _ _ _ ∷ calls) = sent calls
sent (_ ∷ calls) = sent calls

sent-append : (xs ys : List Call) → sent (xs ++ ys) ≡ sent xs ++ sent ys
unfolding sent
sent-append [] ys = refl
sent-append (send_update fd u ∷ xs) ys = ap (λ us. u ∷ us) (sent-append xs ys)
sent-append (real_add _ _ _ _ ∷ xs) ys = sent-append xs ys
sent-append (real_commit _ _ _ _ ∷ xs) ys = sent-append xs ys
sent-append (open_damage ∷ xs) ys = sent-append xs ys
sent-append (mmap_damage _ ∷ xs) ys = sent-append xs ys
sent-append (create_thread ∷ xs) ys = sent-append xs ys
sent-append (open_ebc ∷ xs) ys = sent-append xs ys
sent-append (close_ebc _ ∷ xs) ys = sent-append xs ys

-- rounds with no commit in between
pub run_rounds : List Env → Shim → Shim × List Call
run_rounds [] s = (s, [])
run_rounds (e ∷ es) s =
    let (s₁, calls) = settle_round e s in let (s₂, more) = run_rounds es s₁ in (s₂, calls ++ more)

settle_due-pending : (e : Env) (s : Shim) → s.settle_pending ≡ false → settle_due e s ≡ false
unfolding settle_due
settle_due-pending e s h = ground arith

settle_round-idle : (e : Env) (s : Shim) → settle_due e s ≡ false → settle_round e s ≡ (s, [])
unfolding settle_round
settle_round-idle e s h = rw h

idle_rounds : (es : List Env) (s : Shim) → s.settle_pending ≡ false → run_rounds es s ≡ (s, [])
unfolding run_rounds
idle_rounds [] s h = refl
idle_rounds (e ∷ es) s h =
    simp (settle_round-idle e s (settle_due-pending e s h), idle_rounds es s h)

pub settle_now-sent :
    (e : Env) (s : Shim)
    → (sent (settle_now e s).1 ≡ [])
      ⊎ (sent (settle_now e s).1 ≡ settle_upd s (next_marker s.settle_marker) ∷ [])
unfolding settle_now sent
settle_now-sent e s = ground arith

settle_now-pending : (e : Env) (s : Shim) → (settle_now e s).0.settle_pending ≡ s.settle_pending
unfolding settle_now
settle_now-pending e s = ground arith

-- a due round, and any rounds after it, send what that round sends
pub run_rounds-due :
    (e : Env) (es : List Env) (s : Shim)
    → settle_due e s ≡ true
    → sent (run_rounds (e ∷ es) s).1 ≡ sent (settle_now e (record s { settle_pending = false })).1
unfolding run_rounds settle_round
run_rounds-due e es s due =
    let t : Shim = record s { settle_pending = false } in
    simp (due, idle_rounds es (settle_now e t).0 (settle_now-pending e t), append-nil)

pub run_rounds-early :
    (e : Env) (es : List Env) (s : Shim)
    → settle_due e s ≡ false
    → run_rounds (e ∷ es) s ≡ run_rounds es s
unfolding run_rounds
run_rounds-early e es s early = simp (settle_round-idle e s early)

pub sent-run_nil : (s : Shim) → sent (run_rounds [] s).1 ≡ []
unfolding run_rounds sent
sent-run_nil s = refl

pub run_nil-pending : (s : Shim) → (run_rounds [] s).0.settle_pending ≡ s.settle_pending
unfolding run_rounds
run_nil-pending s = refl

-- a due round lowers the flag for good
pub run_rounds-down :
    (e : Env) (es : List Env) (s : Shim)
    → settle_due e s ≡ true
    → (run_rounds (e ∷ es) s).0.settle_pending ≡ false
unfolding run_rounds settle_round
run_rounds-down e es s due =
    let t : Shim = record s { settle_pending = false } in
    let down = settle_now-pending e t in simp (due, idle_rounds es (settle_now e t).0 down, down)

-- However many rounds the settle thread makes without a commit in between, it sends nothing, or
-- one update: the whole panel, with the settle waveform and the next marker.
pub run_rounds-once :
    (es : List Env) (s : Shim)
    → let u = settle_upd s (next_marker s.settle_marker) in
      (sent (run_rounds es s).1 ≡ []) ⊎ (sent (run_rounds es s).1 ≡ u ∷ [])
unfolding settle_upd
run_rounds-once [] s = inl (sent-run_nil s)
run_rounds-once (e ∷ es) s = elim (Bool-cases (settle_due e s)) [
  | inl due ↦
      rw (run_rounds-due e es s due) (settle_now-sent e (record s { settle_pending = false }))
  | inr early ↦ rw (run_rounds-early e es s early) (run_rounds-once es s)
]

-- A settle that finds no device is not tried again: from a due round whose open fails, no further
-- rounds without a commit send an update, though the panel has not been settled.
pub failed_settle-lost :
    (e : Env) (es : List Env) (s : Shim)
    → settle_due e s ≡ true
    → e.ebc_fd <ℤ pos 0
    → sent (run_rounds (e ∷ es) s).1 ≡ []
unfolding settle_now sent
failed_settle-lost e es s due fails = run_rounds-due e es s due ∙ ground arith

next_marker_lem : (m : ℤ) → pos 0 ≤ℤ m → m <ℤ pos (2 ^ 31 - 1) → next_marker m ≡ m +ℤ pos 1
unfolding next_marker int32 ◌+ℤ◌
next_marker_lem m lo hi = ground arith

-- The markers of commits and of settles are counted apart. If the marker of the last commit is one
-- above that of the last settle, that of the settle is between 0 and
-- 2 ^ 31 - 2, and the symbols for the device are found and it opens, then a due round sends one
-- update, which carries the very marker of the last commit.
pub settle_marker-collides :
    (e : Env) (s : Shim)
    → pos 0 ≤ℤ s.settle_marker
    → s.settle_marker <ℤ pos (2 ^ 31 - 1)
    → marker_of s.parms ≡ s.settle_marker +ℤ pos 1
    → settle_due e s ≡ true
    → s.symbols.open_ && s.symbols.ioctl ≡ true
    → pos 0 ≤ℤ e.ebc_fd
    → (u : Upd) × (sent (settle_round e s).1 ≡ u ∷ []) × (u.update_marker ≡ marker_of s.parms)
unfolding settle_round settle_now sent settle_upd
settle_marker-collides e s lo hi one_more due there opens = (
  settle_upd s (next_marker s.settle_marker),
  ground arith,
  next_marker_lem s.settle_marker lo hi ∙ sym one_more,
)
