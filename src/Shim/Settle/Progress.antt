-- ===== src/Shim/Settle/Progress.antt =====
-- A settle that is pending is made once the panel has been quiet for long enough.
use palma2pro_eos.Base.{
  ◌≡◌, ◌≢◌, refl, ◌∙◌, ap, ◌⊎◌, inl, inr, ◌++◌, if◌then◌else◌, true, false, ◌&&◌, List, [], ◌∷◌,
  arith, All, Any, Bool-cases,
}
use palma2pro_eos.Base.Int.{
  ℤ, pos, int32, int64, ◌-ℤ◌, eqb_ℤ, leb_ℤ, ltb_ℤ, ◌+ℤ◌, IsInt32, ◌≤ℤ◌, ◌<ℤ◌,
}
use palma2pro_eos.Shim.State.{Upd, Shim, Env, Call}
use palma2pro_eos.Shim.Tunables.{now_ms}
use palma2pro_eos.Shim.Settle.{next_marker, settle_upd, settle_now, settle_due}
use palma2pro_eos.Shim.Settle.Rounds.{
  sent, run_rounds, run_rounds-due, run_rounds-early, run_rounds-down, sent-run_nil,
  run_nil-pending,
}

quiet_due :
    (e : Env) (s : Shim)
    → s.settle_pending ≡ true
    → eqb_ℤ s.tunables.settlems (pos 0) ≡ false
    → s.tunables.settlems ≤ℤ int64 (now_ms e s.symbols -ℤ s.last_inject_ms)
    → settle_due e s ≡ true
unfolding settle_due
quiet_due e s pending on quiet = rw (pending, on) (ground arith)

settle_now-sends :
    (e : Env) (s : Shim)
    → s.symbols.open_ && s.symbols.ioctl ≡ true
    → pos 0 ≤ℤ e.ebc_fd
    → sent (settle_now e s).1 ≡ settle_upd s (next_marker s.settle_marker) ∷ []
unfolding settle_now sent
settle_now-sends e s there opens = ground arith

-- Where a settle is pending, settling is switched on, the symbols for the device are found, and the
-- device opens in every round: if the clock of one of the rounds, without a commit in between, is
-- at least `settlems` past the last update, the rounds send one update, the whole panel with the
-- settle waveform and the next marker.
pub run_rounds-Sends :
    (es : List Env) (s : Shim)
    → s.settle_pending ≡ true
    → eqb_ℤ s.tunables.settlems (pos 0) ≡ false
    → s.symbols.open_ && s.symbols.ioctl ≡ true
    → All (λ e. pos 0 ≤ℤ e.ebc_fd) es
    → Any (λ e. s.tunables.settlems ≤ℤ int64 (now_ms e s.symbols -ℤ s.last_inject_ms)) es
    → sent (run_rounds es s).1 ≡ settle_upd s (next_marker s.settle_marker) ∷ []
unfolding settle_upd
run_rounds-Sends [] s pending on there opens quiet = absurd quiet
run_rounds-Sends (e ∷ es) s pending on there opens quiet = elim (Bool-cases (settle_due e s)) [
  | inl due ↦
      run_rounds-due e es s due
      ∙ settle_now-sends e (record s { settle_pending = false }) there opens.0
  | inr early ↦ elim quiet [
    | inl now ↦ absurd (cc (quiet_due e s pending on now, early))
    | inr later ↦
        rw (run_rounds-early e es s early) (run_rounds-Sends es s pending on there opens.1 later)
  ]
]

-- what the clock of a round says, with `settlems` and the time of the last update as they are
abbrev pub quiet_for : Env → Shim → ℤ
quiet_for e s = int64 (now_ms e s.symbols -ℤ s.last_inject_ms)

-- The first of the rounds that finds the panel quiet for long enough.
pub record IsFirst (es : List Env) (s : Shim) (e : Env) : Type 0 where
  pub early : List Env
  pub late : List Env
  pub split : es ≡ early ++ e ∷ late
  pub waiting : All (λ d. quiet_for d s <ℤ s.tunables.settlems) early
  pub due : s.tunables.settlems ≤ℤ quiet_for e s

early-due : (e : Env) (s : Shim) → quiet_for e s <ℤ s.tunables.settlems → settle_due e s ≡ false
unfolding settle_due
early-due e s h = ground arith

due-quiet : (e : Env) (s : Shim) → settle_due e s ≡ true → s.tunables.settlems ≤ℤ quiet_for e s
unfolding settle_due
due-quiet e s h = ground arith

not_due-early :
    (e : Env) (s : Shim)
    → s.settle_pending ≡ true
    → s.tunables.settlems ≢ pos 0
    → settle_due e s ≡ false
    → quiet_for e s <ℤ s.tunables.settlems
unfolding settle_due
not_due-early e s pending on h = ground arith

-- The whole panel with the settle waveform, under the marker behind that of the last settle; behind
-- 2 ^ 31 - 1, and behind a negative one, comes 1.
abbrev pub whole_panel : Shim → Upd
whole_panel s = record {
  rect = record { left = pos 0; top = pos 0; right = pos 1648; bottom = pos 824 };
  waveform_mode = s.tunables.settlewf;
  update_mode = pos 1;
  update_marker =
      if leb_ℤ (pos 0) s.settle_marker && ltb_ℤ s.settle_marker (pos 2147483647)
      then s.settle_marker +ℤ pos 1
      else pos 1;
  temp = pos 0;
  flag = s.tunables.flag;
  reserved = pos 0;
}

next_marker-whole :
    (m : ℤ)
    → IsInt32 m
    → next_marker m ≡ (if leb_ℤ (pos 0) m && ltb_ℤ m (pos 2147483647) then m +ℤ pos 1 else pos 1)
unfolding next_marker int32 ◌+ℤ◌
next_marker-whole m fits = ground arith

-- what a settle sends
abbrev pub settle_updates : Env → Shim → List Upd
settle_updates e s =
    if (s.symbols.open_ && s.symbols.ioctl) && leb_ℤ (pos 0) e.ebc_fd
    then whole_panel s ∷ []
    else []

-- What the rounds come to: no round is due, or the first that is makes the only settle.
abbrev pub Settles : List Env → Shim → Shim × List Call → Type 0
Settles es s out =
    (All (λ e. quiet_for e s <ℤ s.tunables.settlems) es
      × (sent out.1 ≡ [])
      × (out.0.settle_pending ≡ true))
    ⊎ ((e : Env) × IsFirst es s e
        × (sent out.1 ≡ settle_updates e s)
        × (out.0.settle_pending ≡ false))

settle_upd_lem :
    (s : Shim)
    → IsInt32 s.settle_marker
    → settle_upd s (next_marker s.settle_marker) ≡ whole_panel s
unfolding settle_upd
settle_upd_lem s fits = rw (next_marker-whole s.settle_marker fits) refl

settle_now-sent :
    (e : Env) (s : Shim)
    → sent (settle_now e (record s { settle_pending = false })).1 ≡ (
        if (s.symbols.open_ && s.symbols.ioctl) && leb_ℤ (pos 0) e.ebc_fd
        then settle_upd s (next_marker s.settle_marker) ∷ []
        else [])
unfolding settle_now settle_upd sent
settle_now-sent e s = ground arith

settle_now-updates :
    (e : Env) (s : Shim)
    → IsInt32 s.settle_marker
    → sent (settle_now e (record s { settle_pending = false })).1 ≡ settle_updates e s
settle_now-updates e s fits = rw (← settle_upd_lem s fits) (settle_now-sent e s)

Settles-later :
    (e : Env) (es : List Env) (s : Shim) (out : Shim × List Call)
    → quiet_for e s <ℤ s.tunables.settlems
    → Settles es s out
    → Settles (e ∷ es) s out
Settles-later e es s out early (inl (all, none, up)) = inl ((early, all), none, up)
Settles-later e es s out early (inr (d, f, made, down)) = inr (
  d,
  record {
    early = e ∷ f.early;
    late = f.late;
    split = ap (λ l. e ∷ l) f.split;
    waiting = (early, f.waiting);
    due = f.due;
  },
  made,
  down,
)

-- Where a settle is pending, settling is switched on and the marker of the last settle is a value of
-- an `int`, for any rounds of the thread without a
-- commit in between: either in none of them has the panel been quiet for `settlems`, and then
-- nothing is sent and the settle stays pending; or in the first in which it has, the flag goes
-- down, and then one update is sent, the whole panel, all 1648 x 824 pixels, with the settle waveform
-- and the marker behind the last settle's (1, where that is no positive `int`), if the symbols for the device are found and the device opens in that very round, and none if not,
-- whatever the later rounds find.
pub run_rounds-Settles :
    (es : List Env) (s : Shim)
    → IsInt32 s.settle_marker
    → s.settle_pending ≡ true
    → s.tunables.settlems ≢ pos 0
    → Settles es s (run_rounds es s)
run_rounds-Settles [] s fits pending on = inl (tt, sent-run_nil s, run_nil-pending s ∙ pending)
run_rounds-Settles (e ∷ es) s fits pending on = elim (Bool-cases (settle_due e s)) [
  | inl due ↦ inr (
    e,
    record { early = []; late = es; split = refl; waiting = tt; due = due-quiet e s due },
    run_rounds-due e es s due ∙ settle_now-updates e s fits,
    run_rounds-down e es s due,
  )
  | inr early ↦ rw (run_rounds-early e es s early) (
      Settles-later e es s (run_rounds es s) (not_due-early e s pending on early)
        (run_rounds-Settles es s fits pending on))
]
