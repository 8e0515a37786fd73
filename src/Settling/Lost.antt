-- ===== src/Settling/Lost.antt =====
-- A settle that is made before the frame it is for.
use palma2pro_eos.Base.{◌≡◌, refl, true, false}
use palma2pro_eos.Base.Int.{ℤ, pos, eqb_ℤ}
use palma2pro_eos.Settling.{
  outside, marked, sleeping, saw_quiet, cleared, System, Step, passes, is_quiet, time_commit,
  inject, mark, draw, see_pending, see_quiet, clear, send, Steps, here, next,
}

-- The race: in `u` a commit has set the flag and has not drawn, and the thread is past its tests; the
-- thread clears the flag and sends its update, and only then does the commit draw.
pub record Loses (settlems interval : ℤ) (s t : System) : Type 0 where
  pub u : System
  pub before : Steps settlems interval s u
  pub is_set : (u.commit ≡ marked) × (u.pending ≡ true) × (u.thread ≡ saw_quiet)
  pub v : System
  pub clears : Step settlems interval u v
  pub is_clear : (v.commit ≡ marked) × (v.pending ≡ false) × (v.thread ≡ cleared)
  pub w : System
  pub sends : Step settlems interval v w
  pub is_sent : (w.commit ≡ marked) × (w.drawn ≡ false) × (w.thread ≡ sleeping)
  pub draws : Step settlems interval w t
  pub is_lost :
      (t.commit ≡ outside) × (t.thread ≡ sleeping) × (t.pending ≡ false) × (t.drawn ≡ true)

-- From every state with no commit under way, the thread asleep and the flag up, if settling is
-- switched on, the panel has been quiet for long enough and the interval lets a commit pass: a
-- commit can get in between two accesses of the thread, so that it is the flag this commit has set
-- that the thread clears, and the thread sends its update before the commit draws. What is drawn
-- then is left with the flag down, without a settle.
pub settle_lost :
    (settlems interval : ℤ) (s : System)
    → s.commit ≡ outside
    → s.thread ≡ sleeping
    → s.pending ≡ true
    → eqb_ℤ settlems (pos 0) ≡ false
    → is_quiet settlems s.last_inject_ms s.now ≡ true
    → passes interval s.last_inject_ms s.now ≡ true
    → (t : System) × Loses settlems interval s t
settle_lost settlems interval s c th p on quiet pass =
    let s₁ = next here (see_pending th on p) in
    let s₂ = next s₁ (see_quiet refl quiet) in
    let s₃ = next s₂ (time_commit c pass) in
    let s₄ = next s₃ (inject s.now refl) in
    let s₅ = next s₄ (mark refl) in
    (
      _,
      record {
        u = _;
        before = s₅;
        is_set = (refl, refl, refl);
        v = _;
        clears = clear refl;
        is_clear = (refl, refl, refl);
        w = _;
        sends = send refl;
        is_sent = (refl, refl, refl);
        draws = draw refl;
        is_lost = (refl, refl, refl, refl);
      },
    )
