-- ===== src/Ebc/Refresh/Series.antt =====
-- What the loop of ebcrefresh sends.
use mathlib.Core.List.{append-nil}
use palma2pro_eos.Base.{
  ℕ, zero, suc, ◌+◌, ◌≤◌, ◌<◌, ◌≡◌, ◌≢◌, ◌^◌, ◌⊎◌, refl, ap, sym, subst, ◌∙◌, inl, inr, Bool, true,
  false, Option, some, List, [], ◌∷◌, ◌++◌, arith, Bool-cases,
}
use palma2pro_eos.Base.Int.{ℤ, pos, ltb_ℤ, ◌≤ℤ◌, ◌<ℤ◌, int32_fits}
use palma2pro_eos.Ebc.Device.{SendUpdate, World, BufInfo}
use palma2pro_eos.Ebc.Refresh.{
  Options, Turns, turn_update, Event, send, usleep, open_ebc, get_info, close, goes_on, pause,
  then_, loop, geometry, close_after, refresh,
}

-- the updates among the events
unfoldable pub sent : List Event → List SendUpdate
sent [] = []
sent (send u ∷ es) = u ∷ sent es
sent (usleep _ ∷ es) = sent es
sent (open_ebc ∷ es) = sent es
sent (get_info ∷ es) = sent es
sent (close ∷ es) = sent es

-- an update of the whole screen, with a marker
abbrev pub screen_update : Options → ℤ × ℤ → ℤ → SendUpdate
screen_update o (w, h) marker = record {
  x = pos 0;
  y = pos 0;
  right = w;
  bottom = h;
  waveform_mode = o.mode;
  update_mode = pos 1;
  update_marker = marker;
  unknown_1c = pos 0;
  flags = o.flags;
  unknown_24 = pos 0;
}

-- `n` such updates, with the markers i + 1, i + 2 and so on
unfoldable pub series : Options → ℤ × ℤ → (i n : ℕ) → List SendUpdate
series o g i zero = []
series o g i (suc n) = screen_update o g (pos (i + 1)) ∷ series o g (i + 1) n

turn_update_lem :
    (o : Options) (g : ℤ × ℤ) (i : ℕ)
    → i + 1 < 2 ^ 31
    → turn_update o g i ≡ screen_update o g (pos (i + 1))
unfolding turn_update
turn_update_lem o (w, h) i small = rw (int32_fits (pos (i + 1)) (omega arith)) refl

-- The width and height that the driver gives, if it answers with positive ones, else 1648 x 824.
abbrev pub IsScreen : World → ℤ × ℤ → Type 0
IsScreen w g =
    let i : BufInfo = w.answer (pos 0x7003) in
    ((w.rc (pos 0x7003) ≡ pos 0)
      × (pos 0 <ℤ i.width)
      × (pos 0 <ℤ i.height)
      × (g ≡ (i.width, i.height)))
    ⊎ (((w.rc (pos 0x7003) ≢ pos 0) ⊎ ((i.width ≤ℤ pos 0) ⊎ (i.height ≤ℤ pos 0)))
        × (g ≡ (pos 1648, pos 824)))

geometry-IsScreen : (w : World) → IsScreen w (geometry w)
unfolding geometry
geometry-IsScreen w = ground arith

-- No signal comes and no request is refused.
pub record IsQuiet (t : Turns) : Type 0 where
  pub stop : (i : ℕ) → t.stop i ≡ false
  pub invalid : (i : ℕ) → t.invalid i ≡ false

-- The loop ends, having sent the updates of `turns` turns, at most `most` and all of these if
-- nothing interrupts it.
pub record Ends (t : Turns) (o : Options) (g : ℤ × ℤ) (i most : ℕ) (r : Option (List Event))
    : Type 0 where
  pub events : List Event
  pub returns : r ≡ some events
  pub turns : ℕ
  pub sends : sent events ≡ series o g i turns
  pub few : turns ≤ most
  pub all : IsQuiet t → turns ≡ most

sent-pause : (o : Options) (i : ℕ) (es : List Event) → sent (pause o i ++ es) ≡ sent es
unfolding pause sent
sent-pause o i es = ground arith

true≢false : {b : Bool} → b ≡ true → b ≡ false → ⊥
true≢false h k = cc

module _ (t : Turns) (o : Options) (g : ℤ × ℤ) (n : ℕ) (h : o.count ≡ pos n)
    (small : n < 2 ^ 31) where
  goes_on_lem : (i : ℕ) → i < n → goes_on o.count i ≡ true
  unfolding goes_on
  goes_on_lem i less = ground arith

  goes_on-end : (i : ℕ) → i ≡ n → goes_on o.count i ≡ false
  unfolding goes_on
  goes_on-end i e = ground arith

  one_more :
      (i k : ℕ) (r : Option (List Event))
      → i < n
      → Ends t o g (i + 1) k r
      → Ends t o g i (suc k) (then_ (send (turn_update o g i) ∷ pause o i) r)
  unfolding then_ sent series
  one_more i k r less e = record {
    events = send (turn_update o g i) ∷ (pause o i ++ e.events);
    returns = rw e.returns refl;
    turns = suc e.turns;
    sends =
        ap (λ us. turn_update o g i ∷ us) (sent-pause o i e.events ∙ e.sends)
        ∙ ap (λ u. u ∷ series o g (i + 1) e.turns) (turn_update_lem o g i (omega arith));
    few = omega (arith, e.few);
    all = λ quiet. ap suc (e.all quiet);
  }

  loop-Ends_from : (k i : ℕ) → i + k ≡ n → Ends t o g i k (loop t o g (suc k) i)
  unfolding loop sent series
  loop-Ends_from zero i e = rw (goes_on-end i (omega arith)) (record {
    events = [];
    returns = refl;
    turns = 0;
    sends = refl;
    few = omega arith;
    all = λ quiet. refl;
  })
  loop-Ends_from (suc k) i e = rw (goes_on_lem i (omega arith)) (elim (Bool-cases (t.stop i)) [
    | inl s ↦ rw s (record {
      events = [];
      returns = refl;
      turns = 0;
      sends = refl;
      few = omega arith;
      all = λ quiet. absurd (true≢false s (quiet.stop i));
    })
    | inr s ↦ elim (Bool-cases (t.invalid i)) [
      | inl v ↦
          rw (s, v)
            (record {
              events = send (turn_update o g i) ∷ [];
              returns = refl;
              turns = 1;
              sends = ap (λ u. u ∷ []) (turn_update_lem o g i (omega arith));
              few = omega arith;
              all = λ quiet. absurd (true≢false v (quiet.invalid i));
            })
      | inr v ↦ rw (s, v) (one_more i k _ (omega arith) (loop-Ends_from k (i + 1) (omega arith)))
    ]
  ])

  loop-Ends : Ends t o g 0 n (loop t o g (suc n) 0)
  loop-Ends = loop-Ends_from n 0 (omega arith)

sent-append : (xs ys : List Event) → sent (xs ++ ys) ≡ sent xs ++ sent ys
unfolding sent
sent-append [] ys = refl
sent-append (send u ∷ xs) ys = ap (λ us. u ∷ us) (sent-append xs ys)
sent-append (usleep _ ∷ xs) ys = sent-append xs ys
sent-append (open_ebc ∷ xs) ys = sent-append xs ys
sent-append (get_info ∷ xs) ys = sent-append xs ys
sent-append (close ∷ xs) ys = sent-append xs ys

-- A run that has opened the device ends with exit status 0, and has sent the updates of `turns`
-- turns: at most `most`, and all of these if nothing interrupts it.
pub record Finishes (t : Turns) (o : Options) (g : ℤ × ℤ) (most : ℕ) (r : Option (List Event × ℤ))
    : Type 0 where
  pub events : List Event
  pub returns : r ≡ some (events, pos 0)
  pub turns : ℕ
  pub sends : sent events ≡ series o g 0 turns
  pub few : turns ≤ most
  pub all : IsQuiet t → turns ≡ most

close_after-Finishes :
    (t : Turns) (o : Options) (g : ℤ × ℤ) (n : ℕ) (r : Option (List Event))
    → Ends t o g 0 n r
    → Finishes t o g n (close_after r)
unfolding close_after sent
close_after-Finishes t o g n r e = record {
  events = open_ebc ∷ get_info ∷ e.events ++ close ∷ [];
  returns = rw e.returns refl;
  turns = e.turns;
  sends = sent-append e.events (close ∷ []) ∙ append-nil (sent e.events) ∙ e.sends;
  few = e.few;
  all = e.all;
}

-- With `--count` at n, not negative and below 2 ^ 31, and no `--help`: if the device opens, ebcrefresh
-- ends, within n turns and a test of its loop, with exit status 0. What it has sent are the first
-- updates of a series whose markers count up from 1, each with the waveform and the flags of the
-- options, from the origin over the whole width and height that the driver has given, or 1648 x 824
-- if it gives none or one that is not positive: at most n of them, and all n if no signal comes and
-- no request is refused with EINVAL.
pub refresh-Finishes :
    (w : World) (t : Turns) (o : Options) (n : ℕ)
    → o.count ≡ pos n
    → n < 2 ^ 31
    → o.help ≡ false
    → pos 0 ≤ℤ w.fd
    → (g : ℤ × ℤ) × IsScreen w g × Finishes t o g n (refresh w t o (suc n))
unfolding refresh
refresh-Finishes w t o n counted small no_help opens =
    let there : ltb_ℤ w.fd (pos 0) ≡ false = ground arith in
    (
      geometry w,
      geometry-IsScreen w,
      subst (λ r. Finishes t o (geometry w) n r) (sym (loop_only no_help there))
          (close_after-Finishes t o (geometry w) n _ (loop-Ends t o (geometry w) n counted small)),
    )
  where
    loop_only :
        o.help ≡ false
        → ltb_ℤ w.fd (pos 0) ≡ false
        → refresh w t o (suc n) ≡ close_after (loop t o (geometry w) (suc n) 0)
    loop_only h k = simp (h, k)
