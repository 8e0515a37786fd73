-- ===== src/Seqlock.antt =====
-- The seqlock of src/epdc_damage.h between two processes: the writer of
-- patches/main/0002-frameworks-native-surfaceflinger-publish-epd-damage.patch and the reader of
-- src/epdcshim.c, one load or store at a time, in any interleaving. Memory is sequentially
-- consistent. `ver` counts the stores to `seq`; the word in memory is `ver % 2 ^ 32`.
pub mod Safety
pub mod Progress
pub mod Reads
pub mod Relaxed
use palma2pro_eos.Base.{
  ℕ, ◌+◌, ◌*◌, ◌%◌, ◌^◌, ◌<◌, ◌≤◌, ◌≡◌, Bool, true, false, ◌==◌, if◌then◌else◌,
}
use palma2pro_eos.Base.Int.{ℤ, pos}
use palma2pro_eos.Shim.State.{Rect, Attempt, epdc_damage_max}
use palma2pro_eos.Shim.Damage.{clip_count}

-- The mapping behind `seq`: field k of rectangle i is cell 4 i + k.
pub record Cells : Type 0 where
  pub count : ℕ
  pub full : ℕ
  pub cell : ℕ → ℤ

-- Where the writer stands in `publishEpdcDamage`, with what it publishes.
pub data Writer : Type 0 where
  idle : Writer
  wrote_seq : Cells → Writer
  wrote_count : Cells → Writer
  writing : Cells → (next : ℕ) → Writer  -- cells below `next` are written

-- Where the reader stands in an attempt of `read_damage`. `v` is the value of `ver` that its load
-- of `s1` has met, `got` holds the cells below `next` that it has read.
pub data Reader : Type 0 where
  waiting : Reader
  got_seq : (v : ℕ) → Reader
  got_count : (v n : ℕ) → Reader
  reading : (v n f next : ℕ) → (got : ℕ → ℤ) → Reader

pub record System : Type 0 where
  pub ver : ℕ
  pub mem : Cells
  pub writer : Writer
  pub reader : Reader
  pub published : ℕ → Cells  -- the publication that ended with each value of `ver`

abbrev pub update {ℓ} : {A : Type ℓ} → (ℕ → A) → ℕ → A → ℕ → A
update f i a j = if i == j then a else f j

-- The writer's stores. The rectangles number `count`, at most `epdc_damage_max`.
pub data Write (ver : ℕ) (m : Cells) (pub_ : ℕ → Cells)
    : Writer → ℕ → Cells → (ℕ → Cells) → Writer → Type 0 where
  begin :
      (p : Cells) → p.count ≤ epdc_damage_max → Write ver m pub_ idle (ver + 1) m pub_ (wrote_seq p)
  store_count :
      {p : Cells}
      → Write ver m pub_ (wrote_seq p) ver (record m { count = p.count }) pub_ (wrote_count p)
  store_full :
      {p : Cells}
      → Write ver m pub_ (wrote_count p) ver (record m { full = p.full }) pub_ (writing p 0)
  store_cell :
      {p : Cells} {next : ℕ}
      → next < 4 * p.count
      → Write ver m pub_
          (writing p next)
          ver
          (record m { cell = update m.cell next (p.cell next) })
          pub_
          (writing p (next + 1))
  finish :
      {p : Cells} {next : ℕ}
      → next ≡ 4 * p.count
      → Write ver m pub_ (writing p next) (ver + 1) m (update pub_ (ver + 1) p) idle

-- The reader's loads; `s2` is loaded when all is read. An attempt may be given up at any point: the
-- loop begins the next one.
pub data Load (ver : ℕ) (m : Cells) : Reader → Reader → Type 0 where
  load_seq : ver % 2 ^ 32 % 2 ≡ 0 → Load ver m waiting (got_seq ver)
  load_count : {v : ℕ} → Load ver m (got_seq v) (got_count v m.count)
  load_full : {v n : ℕ} (junk : ℕ → ℤ) → Load ver m (got_count v n) (reading v n m.full 0 junk)
  load_cell :
      {v n f next : ℕ} {got : ℕ → ℤ}
      → next < 4 * clip_count n
      → Load ver m
          (reading v n f next got)
          (reading v n f (next + 1) (update got next (m.cell next)))
  leave : {r : Reader} → Load ver m r waiting

pub data Step (s : System) : System → Type 0 where
  write :
      {ver : ℕ} {m : Cells} {p : ℕ → Cells} {w : Writer}
      → Write s.ver s.mem s.published s.writer ver m p w
      → Step s (record { ver = ver; mem = m; writer = w; reader = s.reader; published = p })
  read : {r : Reader} → Load s.ver s.mem s.reader r → Step s (record s { reader = r })

-- After `epdcDamageMap`: a full refresh is asked for, under `seq` 2.
abbrev pub first : (ℕ → ℤ) → Cells
first junk = record { count = 0; full = 1; cell = junk }

abbrev pub start : (ℕ → ℤ) → System
start junk = record {
  ver = 2;
  mem = first junk;
  writer = idle;
  reader = waiting;
  published = λ _. first junk;
}

pub data Reach (junk : ℕ → ℤ) : System → Type 0 where
  here : Reach junk (start junk)
  next : {s t : System} → Reach junk s → Step s t → Reach junk t

abbrev pub rect_at : (ℕ → ℤ) → ℕ → Rect
rect_at cell i = record {
  left = cell (4 * i);
  top = cell (4 * i + 1);
  right = cell (4 * i + 2);
  bottom = cell (4 * i + 3);
}

-- the loads of a whole attempt that ends by loading `s2` now
abbrev pub attempt_of : System → ℕ → ℕ → ℕ → (ℕ → ℤ) → Attempt
attempt_of s v n f got = record {
  s1 = v % 2 ^ 32;
  count = n;
  full = f;
  rect = rect_at got;
  s2 = s.ver % 2 ^ 32;
}

-- a publication as an undisturbed attempt would read it
abbrev pub attempt_at : ℕ → Cells → Attempt
attempt_at v p = record {
  s1 = v % 2 ^ 32;
  count = p.count;
  full = p.full;
  rect = rect_at p.cell;
  s2 = v % 2 ^ 32;
}
