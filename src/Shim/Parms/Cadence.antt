-- ===== src/Shim/Parms/Cadence.antt =====
-- When `init_parms` forces a full flash, and which waveform it takes.
use palma2pro_eos.Base.{
  ℕ, suc, ◌+◌, ◌-◌, ◌%◌, ◌^◌, ◌<◌, ◌≡◌, refl, ◌∙◌, ap, Bool, List, [], ◌∷◌, arith, length, ◌==◌,
  ◌||◌, if◌then◌else◌,
}
use native.Mathlib.Nat.{zero-add, mod-lt, mod-add-mod}
use palma2pro_eos.Base.Int.{ℤ, pos, negsuc, int32, IsInt32, ◌+ℤ◌, ◌≤ℤ◌, ◌<ℤ◌}
use palma2pro_eos.Shim.State.{Tunables}
use palma2pro_eos.Shim.Parms.{motion_wf, policy, is_full_due, next_count}

int32-suc : (n : ℕ) → suc n < 2 ^ 31 → int32 (pos n +ℤ pos 1) ≡ pos (suc n)
unfolding int32 ◌+ℤ◌
int32-suc n h = ground arith

suc_mod : (c n : ℕ) → c < n → suc c % n ≡ (if suc c == n then 0 else suc c)
suc_mod c n h = grind arith

suc_mod-add : (c n k : ℕ) → (suc c % n + k) % n ≡ (c + suc k) % n
suc_mod-add c n k = mod-add-mod (suc c) n k ∙ ap (λ m. m % n) (omega arith)

suc_mod-eq : (c n : ℕ) → 0 < n → (suc (c % n) == n) ≡ (suc c % n == 0)
suc_mod-eq c n h =
    let e : suc (c % n) % n ≡ suc c % n =
      ap (λ m. m % n) (omega arith) ∙ mod-add-mod c n 1 ∙ ap (λ m. m % n) (omega arith) in
    ground (arith, suc_mod (c % n) n (mod-lt c h))

-- what the counter of updates never leaves, so that its increment does not overflow
abbrev pub IsCount : ℤ → Type 0
IsCount c = (pos 0 ≤ℤ c) × (c <ℤ pos (2 ^ 31 - 1))

pub next_count-IsCount :
    (t : Tunables) (c : ℤ) → IsInt32 t.fullevery → IsCount c → IsCount (next_count t c)
unfolding next_count is_full_due
next_count-IsCount t (pos c) h hc = rw (int32-suc c (omega arith)) (ground arith)
next_count-IsCount t (negsuc c) h hc = absurd (omega arith)

module _ (t : Tunables) (n : ℕ) (h : t.fullevery ≡ pos n) (small : n < 2 ^ 31) where
  is_full_due_lem : (c : ℕ) → c < n → is_full_due t (pos c) ≡ (suc c == n)
  unfolding is_full_due
  is_full_due_lem c hc = ground (arith, int32-suc c)

  next_count_lem : (c : ℕ) → c < n → next_count t (pos c) ≡ pos (suc c % n)
  unfolding next_count
  next_count_lem c hc =
      rw (suc_mod c n hc, is_full_due_lem c hc, int32-suc c (omega arith), h) (ground arith)

-- The counter after `policy` at each call in turn.
pub run_policies : Tunables → ℤ → List (ℤ × Bool) → ℤ
run_policies t c [] = c
run_policies t c ((dt, force) ∷ calls) =
    run_policies t (policy t c dt force).updates_since_full calls

module _ (t : Tunables) (n : ℕ) (h : t.fullevery ≡ pos n) (small : n < 2 ^ 31)
    (some_n : 0 < n) where
  run_policies-mod :
      (c : ℕ) (calls : List (ℤ × Bool))
      → c < n
      → run_policies t (pos c) calls ≡ pos ((c + length calls) % n)
  unfolding run_policies policy
  run_policies-mod c [] hc = ap pos (grind arith)
  run_policies-mod c ((dt, force) ∷ calls) hc = rw (next_count_lem t n h small c hc) (
      run_policies-mod (suc c % n) calls (mod-lt _ some_n)
      ∙ ap pos (suc_mod-add c n (length calls)))

  is_full_due-run :
      (calls : List (ℤ × Bool))
      → is_full_due t (run_policies t (pos 0) calls) ≡ (suc (length calls) % n == 0)
  is_full_due-run calls =
      ap (is_full_due t)
        (run_policies-mod 0 calls some_n ∙ ap (λ m. pos (m % n)) (zero-add (length calls)))
      ∙ is_full_due_lem t n h small (length calls % n) (mod-lt _ some_n)
      ∙ suc_mod-eq (length calls) n some_n

  -- With `fullevery` at n, 0 < n < 2 ^ 31, the next update after any history of calls is a forced
  -- full-panel flash in mode 1 with the quality waveform exactly when its number is a multiple of
  -- n; otherwise the caller's wish for a full refresh, the mode of the tunables and the waveform for
  -- the time since the last update hold.
  pub policy-cadence :
      (calls : List (ℤ × Bool)) (dt : ℤ) (force : Bool)
      → let p = policy t (run_policies t (pos 0) calls) dt force in
        let due = suc (length calls) % n == 0 in
        (p.force_full ≡ due || force)
        × (p.upd ≡ (if due then pos 1 else t.upd))
        × (p.wf ≡ (if due then t.wf else motion_wf t dt))
  unfolding policy
  policy-cadence calls dt force = rw (is_full_due-run calls) (refl, refl, refl)
