-- ===== src/Settling.antt =====
-- `drmModeAtomicCommit` and `settle_thread` of src/epdcshim.c at the same time: the two variables
-- that they share, `last_inject_ms` and `g_settle_pending`, one access at a time, in any
-- interleaving. Memory is sequentially consistent; the thread reads the clock and `last_inject_ms`
-- in one step. The two fields at the end of System are for the theorems, and no step reads them.
pub mod Safety
pub mod Lost
pub mod Handlers
use palma2pro_eos.Base.{Bool, true, false, not, ◌&&◌, ◌||◌, ◌≡◌, if◌then◌else◌}
use palma2pro_eos.Base.Int.{ℤ, pos, negsuc, int64, ◌-ℤ◌, ◌≤ℤ◌, ltb_ℤ, leb_ℤ, eqb_ℤ}

-- where a commit stands
pub data Commit : Type 0 where
  outside : Commit
  timed : (t : ℤ) → Commit  -- it has passed the test of the interval at t
  injected : Commit  -- `last_inject_ms` is set
  marked : Commit  -- `g_settle_pending` is set

-- where a round of the thread stands
pub data Thread : Type 0 where
  sleeping : Thread
  saw_pending : Thread
  saw_quiet : Thread
  cleared : Thread  -- `g_settle_pending` is cleared

pub record System : Type 0 where
  pub now : ℤ
  pub last_inject_ms : ℤ
  pub pending : Bool
  pub commit : Commit
  pub thread : Thread
  pub drawn : Bool  -- the panel has been drawn since the last settle
  pub missed : Bool  -- the flag was cleared under a commit that was marked, or a settle found no device

abbrev pub is_marked : Commit → Bool
is_marked marked = true
is_marked outside = false
is_marked (timed t) = false
is_marked injected = false

-- the test of a commit at the clock's time: it is not too early for another update
abbrev pub passes : (interval last t : ℤ) → Bool
passes interval last t =
    let dt = if eqb_ℤ last (pos 0) then negsuc 0 else int64 (t -ℤ last) in
    not ((ltb_ℤ (pos 0) interval && leb_ℤ (pos 0) dt) && ltb_ℤ dt interval)

-- the test of the thread
abbrev pub is_quiet : (settlems last t : ℤ) → Bool
is_quiet settlems last t = not (ltb_ℤ (int64 (t -ℤ last)) settlems)

pub data Step (settlems interval : ℤ) (s : System) : System → Type 0 where
  tick : (t : ℤ) → s.now ≤ℤ t → Step settlems interval s (record s { now = t })
  time_commit :
      s.commit ≡ outside
      → passes interval s.last_inject_ms s.now ≡ true
      → Step settlems interval s (record s { commit = timed s.now })
  inject :
      (t : ℤ)
      → s.commit ≡ timed t
      → Step settlems interval s (record s { last_inject_ms = t; commit = injected })
  mark :
      s.commit ≡ injected → Step settlems interval s (record s { pending = true; commit = marked })
  draw : s.commit ≡ marked → Step settlems interval s (record s { commit = outside; drawn = true })
  see_pending :
      s.thread ≡ sleeping
      → eqb_ℤ settlems (pos 0) ≡ false
      → s.pending ≡ true
      → Step settlems interval s (record s { thread = saw_pending })
  see_quiet :
      s.thread ≡ saw_pending
      → is_quiet settlems s.last_inject_ms s.now ≡ true
      → Step settlems interval s (record s { thread = saw_quiet })
  see_busy :
      s.thread ≡ saw_pending
      → is_quiet settlems s.last_inject_ms s.now ≡ false
      → Step settlems interval s (record s { thread = sleeping })
  clear :
      s.thread ≡ saw_quiet
      → Step settlems interval s
          (record s { pending = false; thread = cleared; missed = s.missed || is_marked s.commit })
  send :
      s.thread ≡ cleared → Step settlems interval s (record s { thread = sleeping; drawn = false })
  send_fails :
      s.thread ≡ cleared → Step settlems interval s (record s { thread = sleeping; missed = true })

abbrev pub start : ℤ → System
start t = record {
  now = t;
  last_inject_ms = pos 0;
  pending = false;
  commit = outside;
  thread = sleeping;
  drawn = false;
  missed = false;
}

-- the states that follow from one
pub data Steps (settlems interval : ℤ) (s : System) : System → Type 0 where
  here : Steps settlems interval s s
  next :
      {t u : System}
      → Steps settlems interval s t
      → Step settlems interval t u
      → Steps settlems interval s u
