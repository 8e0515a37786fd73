-- ===== src/Settling/Safety.antt =====
-- What has been drawn is settled in the end, as long as nothing goes between a mark and its drawing.
use palma2pro_eos.Base.{◌≡◌, ◌≢◌, refl, sym, ◌∙◌, ◌⊎◌, inl, inr, Bool, true, false, ◌||◌, arith}
use palma2pro_eos.Base.Int.{ℤ}
use palma2pro_eos.Settling.{
  Commit, outside, timed, injected, marked, Thread, saw_pending, cleared, System, is_marked, Step,
  tick, time_commit, inject, mark, draw, see_pending, see_quiet, see_busy, clear, send, send_fails,
  start, Steps, here, next,
}

-- The flag is up, or the thread is about to send.
abbrev pub WillSettle : System → Type 0
WillSettle s = (s.pending ≡ true) ⊎ (s.thread ≡ cleared)

record Inv (s : System) : Type 0 where
  at_mark : s.missed ≡ false → s.commit ≡ marked → s.pending ≡ true
  at_drawn : s.missed ≡ false → s.drawn ≡ true → WillSettle s

pending_of :
    (s : System) (c : Thread) → c ≢ cleared → s.thread ≡ c → WillSettle s → s.pending ≡ true
pending_of s c differs at (inl p) = p
pending_of s c differs at (inr t) = absurd (differs (sym at ∙ t))

or_false : (a b : Bool) → a || b ≡ false → (a ≡ false) × (b ≡ false)
or_false a b h = ground arith

marked_lem : (c : Commit) → is_marked c ≡ false → c ≢ marked
marked_lem outside h = λ e. cc
marked_lem (timed t) h = λ e. cc
marked_lem injected h = λ e. cc
marked_lem marked h = absurd (cc h)

Step-Inv : {settlems interval : ℤ} {s t : System} → Step settlems interval s t → Inv s → Inv t
Step-Inv (tick t le) inv = record { at_mark = inv.at_mark; at_drawn = inv.at_drawn }
Step-Inv (time_commit at p) inv = record { at_mark = λ m e. absurd (cc e); at_drawn = inv.at_drawn }
Step-Inv (inject t at) inv = record { at_mark = λ m e. absurd (cc e); at_drawn = inv.at_drawn }
Step-Inv (mark at) inv = record { at_mark = λ m e. refl; at_drawn = λ m d. inl refl }
Step-Inv (draw at) inv = record {
  at_mark = λ m e. absurd (cc e);
  at_drawn = λ m d. inl (inv.at_mark m at);
}
Step-Inv {s} (see_pending at on p) inv = record { at_mark = inv.at_mark; at_drawn = λ m d. inl p }
Step-Inv {s} (see_quiet at q) inv = record {
  at_mark = inv.at_mark;
  at_drawn = λ m d. inl (pending_of s saw_pending (λ e. cc) at (inv.at_drawn m d));
}
Step-Inv {s} (see_busy at q) inv = record {
  at_mark = inv.at_mark;
  at_drawn = λ m d. inl (pending_of s saw_pending (λ e. cc) at (inv.at_drawn m d));
}
Step-Inv {s} (clear at) inv = record {
  at_mark = λ m e. absurd (marked_lem s.commit (or_false s.missed _ m).1 e);
  at_drawn = λ m d. inr refl;
}
Step-Inv {s} (send at) inv = record { at_mark = inv.at_mark; at_drawn = λ m d. absurd (cc d) }
Step-Inv (send_fails at) inv = record {
  at_mark = λ m e. absurd (cc m);
  at_drawn = λ m d. absurd (cc m);
}

Steps-Inv : {settlems interval : ℤ} {s t : System} → Steps settlems interval s t → Inv s → Inv t
Steps-Inv here inv = inv
Steps-Inv (next r st) inv = Step-Inv st (Steps-Inv r inv)

-- In every interleaving of commits and rounds of the settle thread, from the start: if the panel has
-- been drawn since the last settle, then the flag is up, so that a later round settles it, or the
-- thread is just about to send; unless the thread has, at some time, cleared the flag while a commit
-- stood between setting it and drawing, or has found no device.
pub drawn-WillSettle :
    {settlems interval : ℤ} (t : ℤ) (s : System)
    → Steps settlems interval (start t) s
    → s.missed ≡ false
    → s.drawn ≡ true
    → (s.pending ≡ true) ⊎ (s.thread ≡ cleared)
drawn-WillSettle t s r m d =
    (Steps-Inv r
        (record { at_mark = λ m e. absurd (cc e); at_drawn = λ m d. absurd (cc d) })).at_drawn
      m d
