-- ===== src/Seqlock/Relaxed.antt =====
-- The reader of src/epdcshim.c without sequential consistency. Its first load of `seq` is an acquire
-- load, so what follows stays behind it. The loads of `count`, `full` and the cells are plain, and
-- so free to be made after the second load of `seq`: an acquire load does not keep back the loads in
-- front of it. The writer's stores are seen in the order of its code.
use palma2pro_eos.Base.{
  ℕ, zero, suc, ◌+◌, ◌*◌, ◌%◌, ◌^◌, ◌<◌, ◌≤◌, ◌≡◌, refl, ◌∙◌, subst, true, Option, none, some,
  arith,
}
use palma2pro_eos.Base.Int.{ℤ}
use palma2pro_eos.Shim.State.{Attempt, epdc_damage_max}
use palma2pro_eos.Shim.Damage.{clip_count, accepts, accepted}
use palma2pro_eos.Seqlock.{
  Cells, Writer, idle, wrote_seq, writing, System, update, Write, begin, store_count, store_full,
  store_cell, Reach, rect_at, attempt_at,
}
use palma2pro_eos.Seqlock.Safety.{idle-even, rect_at-cong, clip_count-le}

-- The loads of an attempt that have been made behind the one of `s1`, which has met `v`: the two
-- fields, the cells below `next`, and the one of `s2`.
pub record Loaded : Type 0 where
  pub v : ℕ
  pub count : Option ℕ
  pub full : Option ℕ
  pub next : ℕ
  pub got : ℕ → ℤ
  pub last : Option ℕ

-- One load of an attempt, in any order but that of the cells, which wait for the count.
pub data FreeLoad (ver : ℕ) (m : Cells) : Loaded → Loaded → Type 0 where
  free_count : {l : Loaded} → l.count ≡ none → FreeLoad ver m l (record l { count = some m.count })
  free_full : {l : Loaded} → l.full ≡ none → FreeLoad ver m l (record l { full = some m.full })
  free_cell :
      {l : Loaded} (n : ℕ)
      → l.count ≡ some n
      → l.next < 4 * clip_count n
      → FreeLoad ver m l (record l { next = l.next + 1; got = update l.got l.next (m.cell l.next) })
  free_last : {l : Loaded} → l.last ≡ none → FreeLoad ver m l (record l { last = some ver })

-- The writer, and an attempt that has begun.
pub record Race : Type 0 where
  pub ver : ℕ
  pub mem : Cells
  pub writer : Writer
  pub published : ℕ → Cells
  pub loaded : Loaded

pub data Runs (s : Race) : Race → Type 0 where
  rest : Runs s s
  stores :
      {t : Race} {ver : ℕ} {m : Cells} {p : ℕ → Cells} {w : Writer}
      → Runs s t
      → Write t.ver t.mem t.published t.writer ver m p w
      → Runs s (record { ver = ver; mem = m; writer = w; published = p; loaded = t.loaded })
  loads :
      {t : Race} {l : Loaded}
      → Runs s t
      → FreeLoad t.ver t.mem t.loaded l
      → Runs s (record t { loaded = l })

-- the load of `s1`, in a state of the seqlock
abbrev pub begun : System → (ℕ → ℤ) → Race
begun s junk = record {
  ver = s.ver;
  mem = s.mem;
  writer = s.writer;
  published = s.published;
  loaded = record { v = s.ver; count = none; full = none; next = 0; got = junk; last = none };
}

-- an attempt that has made all its loads
abbrev pub race_attempt : ℕ → ℕ → ℕ → ℕ → (ℕ → ℤ) → Attempt
race_attempt v n f last got = record {
  s1 = v % 2 ^ 32;
  count = n;
  full = f;
  rect = rect_at got;
  s2 = last % 2 ^ 32;
}

-- the loads of the fields and of `s2`, with the writer at rest
abbrev pub early : System → (ℕ → ℤ) → Loaded
early s junk = record {
  v = s.ver;
  count = some s.mem.count;
  full = some s.mem.full;
  next = 0;
  got = junk;
  last = some s.ver;
}

early-Runs :
    (s : System) (junk : ℕ → ℤ)
    → Runs (begun s junk) (record (begun s junk) { loaded = early s junk })
early-Runs s junk = loads (loads (loads rest (free_count refl)) (free_full refl)) (free_last refl)

module _ (s : System) (junk : ℕ → ℤ) (q : Cells) where
  -- the writer has stored the cells below k
  abbrev stored : ℕ → (ℕ → ℤ) → Race
  stored k cell = record {
    ver = s.ver + 1;
    mem = record { count = q.count; full = q.full; cell = cell };
    writer = writing q k;
    published = s.published;
    loaded = early s junk;
  }

  stored-Runs :
      s.writer ≡ idle
      → q.count ≤ epdc_damage_max
      → (k : ℕ) → k ≤ 4 * q.count
      → (cell : ℕ → ℤ) × Runs (begun s junk) (stored k cell) × ((j : ℕ) → j < k → cell j ≡ q.cell j)
  stored-Runs at few zero h =
      let w : Write s.ver s.mem s.published s.writer (s.ver + 1) s.mem s.published (wrote_seq q) =
        rw at (begin q few) in
      (
        s.mem.cell,
        stores (stores (stores (early-Runs s junk) w) store_count) store_full,
        λ j lt. absurd (omega arith),
      )
  stored-Runs at few (suc k) h =
      let (cell, runs, same) = stored-Runs at few k (omega arith) in
      let cell' = update cell k (q.cell k) in
      let more : Runs (begun s junk) (stored (k + 1) cell') =
        stores runs (store_cell (omega arith)) in
      (
        cell',
        subst (λ m. Runs (begun s junk) (stored m cell')) (omega arith) more,
        λ j lt. ground (arith, same j),
      )

  -- the reader has then loaded the cells below i
  loaded-Runs :
      (k : ℕ) (cell : ℕ → ℤ) (i : ℕ)
      → Runs (begun s junk) (stored k cell)
      → i ≤ 4 * clip_count s.mem.count
      → (got : ℕ → ℤ) × Runs
          (begun s junk)
          (record (stored k cell) { loaded = record (early s junk) { next = i; got = got } })
        × ((j : ℕ) → j < i → got j ≡ cell j)
  loaded-Runs k cell zero runs h = (junk, runs, λ j lt. absurd (omega arith))
  loaded-Runs k cell (suc i) runs h =
      let (got, runs', same) = loaded-Runs k cell i runs (omega arith) in
      let got' = update got i (cell i) in
      let goal = λ (m : ℕ).
        Runs (begun s junk)
          (record (stored k cell) { loaded = record (early s junk) { next = m; got = got' } }) in
      let more : goal (i + 1) = loads runs' (free_cell s.mem.count refl (omega arith)) in
      (got', subst goal (omega arith) more, λ j lt. ground (arith, same j))

-- The acquire loads alone do not rule out a torn read. From every state that the seqlock reaches,
-- with the writer between two publications, and for any next publication of at most eight
-- rectangles, and at least as many as the one in memory: an attempt that begins there can be made, with plain loads behind the second load of
-- `seq`, such that it has loaded all that it loads and passes both checks, and returns the count,
-- the flag and the sequence number of the publication in memory with the rectangles of the next.
pub torn_read :
    (junk junk' : ℕ → ℤ) (s : System) (q : Cells) (known : ℕ)
    → Reach junk s
    → s.writer ≡ idle
    → q.count ≤ epdc_damage_max
    → s.mem.count ≤ q.count
    → let n = s.mem.count in
      let f = s.mem.full in
      (t : Race) × Runs (begun s junk') t
      × (got : ℕ → ℤ) × (t.loaded ≡ record (early s junk') { next = 4 * clip_count n; got = got })
      × (accepts (race_attempt s.ver n f s.ver got) ≡ true)
      × (accepted (race_attempt s.ver n f s.ver got) known
          ≡ accepted (attempt_at s.ver (record q { count = n; full = f })) known)
unfolding accepts accepted
torn_read junk junk' s q known r at few covers =
    let n = s.mem.count in
    let (cell, runs, same) = stored-Runs s junk' q at few (4 * q.count) (omega arith) in
    let (got, runs', same') =
      loaded-Runs s junk' q (4 * q.count) cell (4 * clip_count n) runs (omega arith) in
    let even = idle-even r at in
    (
      _,
      runs',
      got,
      refl,
      ground arith,
      rw
          (rect_at-cong got q.cell (clip_count n) 0 (clip_count n)
            (λ j lt. same' j lt ∙ same j (omega (arith, clip_count-le n))) (omega arith))
          refl,
    )
