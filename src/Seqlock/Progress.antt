-- ===== src/Seqlock/Progress.antt =====
-- A reader that is left alone gets through.
use palma2pro_eos.Base.{ℕ, zero, suc, ◌+◌, ◌*◌, ◌%◌, ◌≤◌, ◌≡◌, refl, subst, true, arith}
use palma2pro_eos.Base.Int.{ℤ}
use palma2pro_eos.Shim.Damage.{clip_count, accepts, accepted}
use palma2pro_eos.Seqlock.{
  idle, Reader, reading, System, update, Load, load_seq, load_count, load_full, load_cell, leave,
  read, Reach, next, attempt_of, attempt_at,
}
use palma2pro_eos.Seqlock.Safety.{idle-even, accepted-untorn}

-- what the reader's loads alone can lead to
pub data Loads (s : System) : System → Type 0 where
  stay : Loads s s
  then_ :
      {t : System} {r : Reader}
      → Loads s t
      → Load t.ver t.mem t.reader r
      → Loads s (record t { reader = r })

Loads-Reach : {junk : ℕ → ℤ} {s t : System} → Reach junk s → Loads s t → Reach junk t
Loads-Reach r stay = r
Loads-Reach r (then_ ls l) = next (Loads-Reach r ls) (read l)

abbrev pub at_cell : System → (n f k : ℕ) → (ℕ → ℤ) → System
at_cell s n f k got = record s { reader = reading s.ver n f k got }

-- the loads of the cells below k
cells_loads :
    (s : System) (n f k : ℕ) (got : ℕ → ℤ)
    → k ≤ 4 * clip_count n
    → Loads s (at_cell s n f 0 got)
    → (got' : ℕ → ℤ) × Loads s (at_cell s n f k got')
cells_loads s n f zero got h ls = (got, ls)
cells_loads s n f (suc k) got h ls =
    let (got', ls') = cells_loads s n f k got (omega arith) ls in
    let got'' = update got' k (s.mem.cell k) in
    let more : Loads s (at_cell s n f (k + 1) got'') = then_ ls' (load_cell (omega arith)) in
    (got'', subst (λ m. Loads s (at_cell s n f m got'')) (omega arith) more)

-- the attempt up to the loads of the cells
first_loads :
    (s : System)
    → s.ver % 2 ≡ 0
    → (junk : ℕ → ℤ) → Loads s (at_cell s s.mem.count s.mem.full 0 junk)
first_loads s even junk =
    then_ (then_ (then_ (then_ stay leave) (load_seq (omega arith))) load_count) (load_full junk)

-- From every state that can be reached, with the writer between two publications and wherever the
-- reader stands: loads of the reader alone lead to a state in which its attempt has read all that it
-- reads and passes its checks, and what it returns is what the latest publication gives.
pub undisturbed_read :
    {junk : ℕ → ℤ} (s : System) (last : ℕ)
    → Reach junk s
    → s.writer ≡ idle
    → (n : ℕ) × (f : ℕ) × (got : ℕ → ℤ) × Loads s (at_cell s n f (4 * clip_count n) got)
      × (let a = attempt_of s s.ver n f got in
          (accepts a ≡ true)
          × (accepted a last ≡ accepted (attempt_at s.ver (s.published s.ver)) last))
unfolding accepts
undisturbed_read {junk} s last r e =
    let even = idle-even r e in
    let n = s.mem.count in
    let f = s.mem.full in
    let (got, ls) =
      cells_loads s n f (4 * clip_count n) junk (omega arith) (first_loads s even junk) in
    let passes : accepts (attempt_of s s.ver n f got) ≡ true = ground arith in
    (
      n,
      f,
      got,
      ls,
      (passes, accepted-untorn s.ver n f got last (Loads-Reach r ls) refl (omega arith) passes),
    )
