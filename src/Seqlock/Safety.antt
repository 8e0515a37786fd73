-- ===== src/Seqlock/Safety.antt =====
-- A read that passes its checks is one publication, never a mixture of two.
use palma2pro_eos.Base.{ℕ, zero, suc, ◌+◌, ◌*◌, ◌%◌, ◌^◌, ◌<◌, ◌≤◌, ◌≡◌, refl, true, arith, ==_refl}
use palma2pro_eos.Base.Int.{ℤ}
use palma2pro_eos.Shim.State.{epdc_damage_max}
use palma2pro_eos.Shim.Damage.{clip_count, copy_rects, accepts, accepted}
use palma2pro_eos.Seqlock.{
  Cells, Writer, idle, wrote_seq, wrote_count, writing, Reader, waiting, got_seq, got_count,
  reading, System, update, Write, begin, store_count, store_full, store_cell, finish, Load,
  load_seq, load_count, load_full, load_cell, leave, Step, write, read, Reach, here, next, rect_at,
  attempt_of, attempt_at,
}

-- The cells that count are those of `p`.
record Agrees (m p : Cells) : Type 0 where
  count : m.count ≡ p.count
  full : m.full ≡ p.full
  cells : (j : ℕ) → j < 4 * p.count → m.cell j ≡ p.cell j

-- While the writer is idle memory is the last publication; otherwise `ver` is odd.
abbrev Stable : ℕ → Cells → (ℕ → Cells) → Writer → Type 0
Stable ver m p idle = (ver % 2 ≡ 0) × ((p ver).count ≤ epdc_damage_max) × Agrees m (p ver)
Stable ver m p (wrote_seq c) = (ver % 2 ≡ 1) × (c.count ≤ epdc_damage_max)
Stable ver m p (wrote_count c) = (ver % 2 ≡ 1) × (c.count ≤ epdc_damage_max) × (m.count ≡ c.count)
Stable ver m p (writing c k) =
    (ver % 2 ≡ 1)
    × (c.count ≤ epdc_damage_max)
    × (m.count ≡ c.count)
    × (m.full ≡ c.full)
    × ((j : ℕ) → j < k → m.cell j ≡ c.cell j)

-- What has been read is of publication `v`, unless the writer has begun another since.
abbrev Fresh : ℕ → (ℕ → Cells) → Reader → Type 0
Fresh ver p waiting = Unit {0}
Fresh ver p (got_seq v) = (v ≤ ver) × (v % 2 ≡ 0)
Fresh ver p (got_count v n) = (v ≤ ver) × (v % 2 ≡ 0) × (ver ≡ v → n ≡ (p v).count)
Fresh ver p (reading v n f k got) =
    (v ≤ ver)
    × (v % 2 ≡ 0)
    × (ver ≡ v → n ≡ (p v).count)
    × (ver ≡ v → f ≡ (p v).full)
    × ((j : ℕ) → ver ≡ v → j < k → got j ≡ (p v).cell j)

pub update_at {ℓ} : {A : Type ℓ} (f : ℕ → A) (i : ℕ) (a : A) → update f i a i ≡ a
update_at f i a = rw ==_refl

Write-Stable :
    {ver ver' : ℕ} {m m' : Cells} {p p' : ℕ → Cells} {w w' : Writer}
    → Write ver m p w ver' m' p' w'
    → Stable ver m p w
    → Stable ver' m' p' w'
Write-Stable (begin p few) h = (omega arith, few)
Write-Stable store_count h = (h.0, h.1, refl)
Write-Stable store_full h = (h.0, h.1, h.2, refl, λ j lt. absurd (omega arith))
Write-Stable (store_cell lt) h = (h.0, h.1, h.2, h.3, λ j le. ground (arith, h.4 j))
Write-Stable {ver} {p} (finish {p = c} e) h = rw (update_at p (ver + 1) c) (
  omega (arith, h.0),
  h.1,
  record { count = h.2; full = h.3; cells = λ j lt. h.4 j (omega arith) },
)

-- A store leaves what the reader has: it is of a publication that stays in `published`.
Write-Fresh :
    {ver ver' : ℕ} {m m' : Cells} {p p' : ℕ → Cells} {w w' : Writer}
    → Write ver m p w ver' m' p' w'
    → (r : Reader) → Fresh ver p r
    → Fresh ver' p' r
Write-Fresh (begin c few) waiting h = tt
Write-Fresh (begin c few) (got_seq v) h = (omega arith, h.1)
Write-Fresh (begin c few) (got_count v n) h = (omega arith, h.1, λ e. absurd (omega (arith, h.0)))
Write-Fresh (begin c few) (reading v n f k got) h = (
  omega arith,
  h.1,
  λ e. absurd (omega (arith, h.0)),
  λ e. absurd (omega (arith, h.0)),
  λ j e. absurd (omega (arith, h.0)),
)
Write-Fresh store_count r h = h
Write-Fresh store_full r h = h
Write-Fresh (store_cell lt) r h = h
Write-Fresh (finish e) waiting h = tt
Write-Fresh (finish e) (got_seq v) h = (omega arith, h.1)
Write-Fresh (finish e) (got_count v n) h = (omega arith, h.1, λ e. absurd (omega (arith, h.0)))
Write-Fresh (finish e) (reading v n f k got) h = (
  omega arith,
  h.1,
  λ e. absurd (omega (arith, h.0)),
  λ e. absurd (omega (arith, h.0)),
  λ j e. absurd (omega (arith, h.0)),
)

-- At an even `ver` memory is the publication of that number.
Stable-Agrees :
    (ver : ℕ) (m : Cells) (p : ℕ → Cells) (w : Writer)
    → Stable ver m p w
    → (v : ℕ) → v % 2 ≡ 0
    → ver ≡ v
    → Agrees m (p v)
Stable-Agrees ver m p idle st v even e = rw (← e) st.2
Stable-Agrees ver m p (wrote_seq c) st v even e = absurd (omega (arith, st.0))
Stable-Agrees ver m p (wrote_count c) st v even e = absurd (omega (arith, st.0))
Stable-Agrees ver m p (writing c k) st v even e = absurd (omega (arith, st.0))

pub clip_count-le : (n : ℕ) → clip_count n ≤ n
unfolding clip_count
clip_count-le n = ground arith

module _ {ver : ℕ} {m : Cells} (p : ℕ → Cells) (w : Writer) (st : Stable ver m p w) where
  Load-Fresh : {r r' : Reader} → Load ver m r r' → Fresh ver p r → Fresh ver p r'
  Load-Fresh (load_seq even) h = (omega arith, omega arith)
  Load-Fresh (load_count {v}) h = (h.0, h.1, λ e. (Stable-Agrees ver m p w st v h.1 e).count)
  Load-Fresh (load_full {v} junk) h = (
    h.0,
    h.1,
    h.2,
    λ e. (Stable-Agrees ver m p w st v h.1 e).full,
    λ j e lt. absurd (omega arith),
  )
  Load-Fresh (load_cell {v} {n} {f} {next = k} {got} lt) h = (h.0, h.1, h.2, h.3, cells)
    where
      cells : (j : ℕ) → ver ≡ v → j < k + 1 → update got k (m.cell k) j ≡ (p v).cell j
      cells j e le =
          let now = Stable-Agrees ver m p w st v h.1 e in
          ground (arith, h.4 j e, now.cells j, h.2 e, clip_count-le n)
  Load-Fresh leave h = tt

record Inv (s : System) : Type 0 where
  stable : Stable s.ver s.mem s.published s.writer
  fresh : Fresh s.ver s.published s.reader

Step-Inv : {s t : System} → Step s t → Inv s → Inv t
Step-Inv {s} (write w) inv = record {
  stable = Write-Stable w inv.stable;
  fresh = Write-Fresh w s.reader inv.fresh;
}
Step-Inv {s} (read l) inv = record {
  stable = inv.stable;
  fresh = Load-Fresh s.published s.writer inv.stable l inv.fresh;
}

Reach-Inv : {junk : ℕ → ℤ} {s : System} → Reach junk s → Inv s
Reach-Inv {junk} here = record {
  stable = (refl, omega arith, record { count = refl; full = refl; cells = λ j lt. refl });
  fresh = tt;
}
Reach-Inv (next r st) = Step-Inv st (Reach-Inv r)

pub rect_at-cong :
    (a b : ℕ → ℤ) (n i k : ℕ)
    → ((j : ℕ) → j < 4 * n → a j ≡ b j)
    → i + k ≤ n
    → copy_rects (rect_at a) i k ≡ copy_rects (rect_at b) i k
unfolding copy_rects
rect_at-cong a b n i zero h fits = refl
rect_at-cong a b n i (suc k) h fits = rw (
  h (4 * i) (omega arith),
  h (4 * i + 1) (omega arith),
  h (4 * i + 2) (omega arith),
  h (4 * i + 3) (omega arith),
  rect_at-cong a b n (i + 1) k h (omega arith),
)

-- In every interleaving of the writer's stores and the reader's loads: if a reader that has read
-- all it reads passes both checks, and the writer has made fewer than 2 ^ 32 stores to `seq` since
-- the load of `s1`, then what the attempt returns is what one publication would give to an
-- undisturbed read.
pub accepted-untorn :
    {junk : ℕ → ℤ} {s : System} (v n f : ℕ) (got : ℕ → ℤ) (last : ℕ)
    → Reach junk s
    → s.reader ≡ reading v n f (4 * clip_count n) got
    → s.ver < v + 2 ^ 32
    → accepts (attempt_of s v n f got) ≡ true
    → accepted (attempt_of s v n f got) last ≡ accepted (attempt_at v (s.published v)) last
unfolding accepted accepts
accepted-untorn {s} v n f got last r e few ok = rw (
  rect_at-cong got (s.published v).cell (clip_count n) 0 (clip_count n) (λ j. fresh.4 j same)
      (omega arith),
  fresh.2 same,
  fresh.3 same,
)
  where
    fresh : Fresh s.ver s.published (reading v n f (4 * clip_count n) got)
    fresh = rw e at (Reach-Inv r).fresh

    same_word : v % 2 ^ 32 ≡ s.ver % 2 ^ 32
    same_word = ground arith

    same : s.ver ≡ v
    same = omega (arith, fresh.0, same_word)

-- between publications `seq` is even
pub idle-even : {junk : ℕ → ℤ} {s : System} → Reach junk s → s.writer ≡ idle → s.ver % 2 ≡ 0
idle-even {s} r e = stable.0
  where
    stable : Stable s.ver s.mem s.published idle
    stable = rw e at (Reach-Inv r).stable

-- between publications memory is read as the latest one
pub idle_read :
    {junk : ℕ → ℤ} {s : System}
    → Reach junk s
    → s.writer ≡ idle
    → (last : ℕ)
    → accepted (attempt_of s s.ver s.mem.count s.mem.full s.mem.cell) last
      ≡ accepted (attempt_at s.ver (s.published s.ver)) last
unfolding accepted
idle_read {s} r e last =
    rw (now.count, now.full)
      (rw
        (rect_at-cong s.mem.cell p.cell (clip_count p.count) 0 (clip_count p.count)
          (λ j lt. now.cells j (omega (arith, clip_count-le p.count))) (omega arith))
        refl)
  where
    p : Cells
    p = s.published s.ver

    stable : Stable s.ver s.mem s.published idle
    stable = rw e at (Reach-Inv r).stable

    now : Agrees s.mem p
    now = stable.2
