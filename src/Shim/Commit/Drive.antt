-- ===== src/Shim/Commit/Drive.antt =====
-- What driving the panel does to the state, and when the clock allows it.
use palma2pro_eos.Base.{
  sym, ap, ◌∙◌, ℕ, ◌≡◌, ◌≢◌, refl, ◌⊎◌, inl, inr, true, false, Option, List, [], ◌∷◌, ◌++◌, arith,
  length, All, All-append, Bool-cases,
}
use palma2pro_eos.Base.Int.{ℤ, pos, int32, int64, ◌+ℤ◌, ◌-ℤ◌, ◌≤ℤ◌, ◌<ℤ◌}
use palma2pro_eos.Shim.State.{
  Rect, Upd, Pend, Shim, Env, Call, real_add, real_commit, open_damage, mmap_damage, create_thread,
  open_ebc, send_update, close_ebc, epdc_damage_max,
}
use palma2pro_eos.Shim.Tunables.{now_ms}
use palma2pro_eos.Shim.Damage.{Read}
use palma2pro_eos.Shim.Parms.{Policy, init_parms, chosen, fill, write_parm, marker_of}
use palma2pro_eos.Shim.Lookup.{lookup}
use palma2pro_eos.Shim.Lookup.Cache.{Outcome, hit, refused, added, lookup-Outcome}
use palma2pro_eos.Shim.Settle.{start_settle_thread}
use palma2pro_eos.Shim.Commit.{
  Args, is_test_only, forward, bump_marker, inject_one, inject, submit, drive, pace, throttled,
  since_inject,
}

-- a call that adds nothing to the request
abbrev pub IsQuiet : Call → Type 0
IsQuiet (real_add _ _ _ _) = ⊥
IsQuiet (real_commit _ _ _ _) = Unit
IsQuiet open_damage = Unit
IsQuiet (mmap_damage _) = Unit
IsQuiet create_thread = Unit
IsQuiet open_ebc = Unit
IsQuiet (send_update _ _) = Unit
IsQuiet (close_ebc _) = Unit

-- The commit added nothing; the parameters, the clock of the last injection, the cache and what the
-- settle thread reads are as they were.
pub record IsKept (s : Shim) (out : Shim × List Call × ℤ) : Type 0 where
  pub quiet : All IsQuiet out.1
  pub parms : out.0.parms ≡ s.parms
  pub stamp : out.0.last_inject_ms ≡ s.last_inject_ms
  pub cache : out.0.cache ≡ s.cache
  pub pending : out.0.settle_pending ≡ s.settle_pending

-- The time since the last injection reaches the interval, there was none, there is no interval, or
-- the clock ran backwards.
abbrev pub IsSpaced : ℤ → ℤ → ℤ → Type 0
IsSpaced interval now last =
    (interval ≤ℤ pos 0)
    ⊎ ((last ≡ pos 0) ⊎ ((int64 (now -ℤ last) <ℤ pos 0) ⊎ (interval ≤ℤ int64 (now -ℤ last))))

pub record IsDriven (e : Env) (a : Args) (s s' : Shim) : Type 0 where
  pub real : is_test_only a.flags ≡ false
  pub enabled : s'.tunables.enable ≢ pos 0
  pub marker : marker_of s'.parms ≡ int32 (marker_of s.parms +ℤ pos 1)
  pub pending : s'.settle_pending ≡ true
  pub stamp : s'.last_inject_ms ≡ now_ms e s'.symbols
  pub spaced : IsSpaced s'.tunables.interval (now_ms e s'.symbols) s.last_inject_ms

-- what the last loop leaves alone
pub record SameButCache (s s' : Shim) : Type 0 where
  pub parms : s'.parms ≡ s.parms
  tunables : s'.tunables ≡ s.tunables
  symbols : s'.symbols ≡ s.symbols
  stamp : s'.last_inject_ms ≡ s.last_inject_ms
  pending : s'.settle_pending ≡ s.settle_pending
  pub attached : s'.attached ≡ s.attached
  pub last : s'.last_dmg_seq ≡ s.last_dmg_seq
  pub sig : s'.last_fb_sig ≡ s.last_fb_sig
  pub settles : s'.settle_marker ≡ s.settle_marker

same_refl : (s : Shim) → SameButCache s s
same_refl s = record {
  parms = refl;
  tunables = refl;
  symbols = refl;
  stamp = refl;
  pending = refl;
  attached = refl;
  last = refl;
  sig = refl;
  settles = refl;
}

same_trans : (s t u : Shim) → SameButCache s t → SameButCache t u → SameButCache s u
same_trans s t u a b = record {
  parms = b.parms ∙ a.parms;
  tunables = b.tunables ∙ a.tunables;
  symbols = b.symbols ∙ a.symbols;
  stamp = b.stamp ∙ a.stamp;
  pending = b.pending ∙ a.pending;
  attached = b.attached ∙ a.attached;
  last = b.last ∙ a.last;
  sig = b.sig ∙ a.sig;
  settles = b.settles ∙ a.settles;
}

Outcome-same :
    {e : Env} {obj : ℕ} {s : Shim} {out : Option ℕ × Shim}
    → Outcome e obj s out
    → SameButCache s out.1
Outcome-same {s} (hit h) = same_refl s
Outcome-same {s} (refused h) = same_refl s
Outcome-same {s} (added new room fbid c same) = record {
  parms = refl;
  tunables = refl;
  symbols = refl;
  stamp = refl;
  pending = refl;
  attached = refl;
  last = refl;
  sig = refl;
  settles = refl;
}

inject-same :
    (e : Env) (req n : ℕ) (ps : List Pend) (s : Shim) → SameButCache s (inject e req n ps s).0
unfolding inject inject_one
inject-same e req n [] s = same_refl s
inject-same e req n (p ∷ ps) s =
    same_trans s (lookup e p.obj s).1 _ (Outcome-same (lookup-Outcome e p.obj s))
      (inject-same e req n ps (lookup e p.obj s).1)

start_settle_thread-same : (s : Shim) → SameButCache s (start_settle_thread s).0
unfolding start_settle_thread
start_settle_thread-same s = ground arith

marker_of-fill :
    (p : Policy) (flag : ℤ) (rects : List Rect) (parms : List Upd)
    → marker_of (fill p flag (marker_of parms) rects parms) ≡ marker_of parms
unfolding fill write_parm
marker_of-fill p flag [] parms = refl
marker_of-fill p flag (r ∷ rs) [] = refl
marker_of-fill p flag (r ∷ rs) (u ∷ us) = refl

init_parms-marker :
    (dt : ℤ) (dmg : List Rect) (full : ℤ) (s : Shim)
    → marker_of (init_parms dt dmg full s).0.parms ≡ marker_of s.parms
unfolding init_parms
init_parms-marker dt dmg full s = marker_of-fill _ s.tunables.flag (chosen _ dmg) s.parms

marker_of-bump :
    (parms : List Upd)
    → length parms ≡ epdc_damage_max
    → marker_of (bump_marker parms) ≡ int32 (marker_of parms +ℤ pos 1)
unfolding bump_marker
marker_of-bump [] h = absurd (omega arith)
marker_of-bump (u ∷ us) h = refl

throttled-IsSpaced :
    (s : Shim) (now : ℤ)
    → throttled s (since_inject now s.last_inject_ms) ≡ false
    → IsSpaced s.tunables.interval now s.last_inject_ms
unfolding throttled since_inject
throttled-IsSpaced s now h = ground arith

IsQuiet-append : (xs ys : List Call) → All IsQuiet xs → All IsQuiet ys → All IsQuiet (xs ++ ys)
IsQuiet-append = All-append IsQuiet

pub submit-same :
    (e : Env) (a : Args) (n : ℕ) (s : Shim) (calls : List Call)
    → SameButCache (record s { settle_pending = true }) (submit e a n s calls).0
unfolding submit forward
submit-same e a n s calls =
    let s₀ : Shim = record s { settle_pending = true } in
    let s₁ = (start_settle_thread s₀).0 in
    let f = same_trans s₀ s₁ _ (start_settle_thread-same s₀) (inject-same e a.req n s₁.pend s₁) in
    record {
      parms = f.parms;
      tunables = f.tunables;
      symbols = f.symbols;
      stamp = f.stamp;
      pending = f.pending;
      attached = f.attached;
      last = f.last;
      sig = f.sig;
      settles = f.settles;
    }

pub submit-parms :
    (e : Env) (a : Args) (n : ℕ) (s : Shim) (calls : List Call)
    → (submit e a n s calls).0.parms ≡ s.parms
submit-parms e a n s calls = (submit-same e a n s calls).parms

module _ (e : Env) (a : Args) where
  pub forward-IsKept :
      (s : Shim) (calls : List Call) → All IsQuiet calls → IsKept s (forward e a s calls)
  unfolding forward
  forward-IsKept s calls q = record {
    quiet = IsQuiet-append calls _ q (tt, tt);
    parms = refl;
    stamp = refl;
    cache = refl;
    pending = refl;
  }

  module _ (real : is_test_only a.flags ≡ false) where
    drive-IsDriven :
        (r : Read) (dt now : ℤ) (s : Shim) (calls : List Call)
        → s.tunables.enable ≢ pos 0
        → length s.parms ≡ epdc_damage_max
        → now ≡ now_ms e s.symbols
        → IsSpaced s.tunables.interval now s.last_inject_ms
        → IsDriven e a s (drive e a r dt (record s { last_inject_ms = now }) calls).0
    unfolding drive init_parms
    drive-IsDriven r dt now s calls on eight clock spaced =
        let f = submit-same e a _ _ calls in
        record {
          real = real;
          enabled = rw f.tunables on;
          marker =
              ap marker_of f.parms
              ∙ init_parms-marker dt r.rects r.full (record s { parms = bump_marker s.parms })
              ∙ marker_of-bump s.parms eight;
          pending = f.pending;
          stamp = f.stamp ∙ clock ∙ ap (now_ms e) (sym f.symbols);
          spaced = rw (f.tunables, f.symbols) (rw clock at spaced);
        }

    pub pace-Effect :
        (r : Read) (s : Shim) (calls : List Call)
        → All IsQuiet calls
        → s.tunables.enable ≢ pos 0
        → length s.parms ≡ epdc_damage_max
        → IsKept s (pace e a r s calls) ⊎ IsDriven e a s (pace e a r s calls).0
    unfolding pace
    pace-Effect r s calls q on eight =
        let now = now_ms e s.symbols in
        elim (Bool-cases (throttled s (since_inject now s.last_inject_ms))) [
          | inl wait ↦ rw wait (inl (forward-IsKept s calls q))
          | inr go ↦ rw go (
              inr (
                drive-IsDriven r (since_inject now s.last_inject_ms) now s calls on eight refl
                  (throttled-IsSpaced s now go)))
        ]
