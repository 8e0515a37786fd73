-- ===== src/Shim/Parms/Panel.antt =====
-- What `init_parms` submits: rectangles on the panel, which cover the damage.
use palma2pro_eos.Base.{
  ℕ, zero, suc, ◌≤◌, ◌<◌, ◌≡◌, refl, ap, ◌≢◌, ◌⊎◌, inl, inr, Bool, true, false, not, List, [], ◌∷◌,
  arith, length, take, drop, All, Any,
}
use palma2pro_eos.Base.Int.{ℤ, pos, ◌≤ℤ◌, ◌<ℤ◌, eqb_ℤ}
use palma2pro_eos.Shim.State.{Rect, Upd, Shim, epdc_damage_max, panel_w, panel_h}
use palma2pro_eos.Shim.Parms.{
  Policy, policy, panel, clamp_rect, clamp_all, chosen, marker_of, write_parm, fill, init_parms,
}

-- not empty, and inside the panel
pub record IsOnPanel (r : Rect) : Type 0 where
  pub left : pos 0 ≤ℤ r.left
  pub top : pos 0 ≤ℤ r.top
  pub wide : r.left <ℤ r.right
  pub high : r.top <ℤ r.bottom
  pub right : r.right ≤ℤ panel_w
  pub bottom : r.bottom ≤ℤ panel_h

-- The pixel lies in the rectangle, whose right and bottom edges are exclusive.
pub record Contains (x y : ℕ) (r : Rect) : Type 0 where
  pub left : r.left ≤ℤ pos x
  pub right : pos x <ℤ r.right
  pub top : r.top ≤ℤ pos y
  pub bottom : pos y <ℤ r.bottom

clamp_rect-IsOnPanel : (d : Rect) → IsOnPanel (clamp_rect d)
unfolding clamp_rect
clamp_rect-IsOnPanel d = ground arith

module _ (x y : ℕ) (hx : x < 1648) (hy : y < 824) where
  panel-Contains : Contains x y panel
  panel-Contains = omega arith

  clamp_rect-Contains : (d : Rect) → Contains x y d → Contains x y (clamp_rect d)
  unfolding clamp_rect
  clamp_rect-Contains d h = ground arith

  clamp_all-Contains :
      (k : ℕ) (ds : List Rect)
      → length ds ≤ k
      → Any (Contains x y) ds
      → Any (Contains x y) (clamp_all (take k ds))
  unfolding clamp_all
  clamp_all-Contains k [] fits h = absurd h
  clamp_all-Contains zero (d ∷ ds) fits h = absurd (omega arith)
  clamp_all-Contains (suc k) (d ∷ ds) fits (inl h) = inl (clamp_rect-Contains d h)
  clamp_all-Contains (suc k) (d ∷ ds) fits (inr h) = inr (clamp_all-Contains k ds (omega arith) h)

clamp_all-IsOnPanel : (k : ℕ) (ds : List Rect) → All IsOnPanel (clamp_all (take k ds))
unfolding clamp_all
clamp_all-IsOnPanel zero ds = tt
clamp_all-IsOnPanel (suc k) [] = tt
clamp_all-IsOnPanel (suc k) (d ∷ ds) = (clamp_rect-IsOnPanel d, clamp_all-IsOnPanel k ds)

length-clamp_all : (k : ℕ) (ds : List Rect) → length (clamp_all (take k ds)) ≤ k
unfolding clamp_all
length-clamp_all zero ds = omega arith
length-clamp_all (suc k) [] = omega arith
length-clamp_all (suc k) (d ∷ ds) = omega (arith, length-clamp_all k ds)

-- the rectangles of one submission
pub record IsChoice (rects : List Rect) : Type 0 where
  pub some_left : 1 ≤ length rects
  pub few : length rects ≤ epdc_damage_max
  pub on_panel : All IsOnPanel rects

panel-IsChoice : IsChoice (panel ∷ [])
panel-IsChoice = record { some_left = omega arith; few = omega arith; on_panel = (omega arith, tt) }

pub chosen-IsChoice : (force : Bool) (ds : List Rect) → IsChoice (chosen force ds)
unfolding chosen
chosen-IsChoice force [] = panel-IsChoice
chosen-IsChoice true (d ∷ ds) = panel-IsChoice
chosen-IsChoice false (d ∷ ds) = record {
  some_left = omega arith;
  few = length-clamp_all epdc_damage_max (d ∷ ds);
  on_panel = clamp_all-IsOnPanel epdc_damage_max (d ∷ ds);
}

-- An entry that the kernel accepts, with the marker of the submission.
pub record IsSubmission (marker flag : ℤ) (u : Upd) : Type 0 where
  pub on_panel : IsOnPanel u.rect
  pub marked : u.update_marker ≡ marker
  pub flagged : u.flag ≡ flag
  pub no_temp : u.temp ≡ pos 0
  pub no_reserved : u.reserved ≡ pos 0

fill-All :
    (p : Policy) (flag marker : ℤ) (rects : List Rect) (parms : List Upd)
    → All IsOnPanel rects
    → length rects ≤ length parms
    → All (IsSubmission marker flag) (take (length rects) (fill p flag marker rects parms))
unfolding fill write_parm
fill-All p flag marker [] parms on fits = tt
fill-All p flag marker (r ∷ rs) [] on fits = absurd (omega arith)
fill-All p flag marker (r ∷ rs) (u ∷ parms) on fits = (
  record { on_panel = on.0; marked = refl; flagged = refl; no_temp = refl; no_reserved = refl },
  fill-All p flag marker rs parms on.1 (omega arith),
)

fill-drop :
    (p : Policy) (flag marker : ℤ) (rects : List Rect) (parms : List Upd)
    → drop (length rects) (fill p flag marker rects parms) ≡ drop (length rects) parms
unfolding fill
fill-drop p flag marker [] parms = refl
fill-drop p flag marker (r ∷ rs) [] = refl
fill-drop p flag marker (r ∷ rs) (u ∷ parms) = fill-drop p flag marker rs parms

pub length-fill :
    (p : Policy) (flag marker : ℤ) (rects : List Rect) (parms : List Upd)
    → length (fill p flag marker rects parms) ≡ length parms
unfolding fill
length-fill p flag marker [] parms = refl
length-fill p flag marker (r ∷ rs) [] = refl
length-fill p flag marker (r ∷ rs) (u ∷ parms) = ap suc (length-fill p flag marker rs parms)

fill-Any :
    (P : Rect → Type 0) (p : Policy) (flag marker : ℤ) (rects : List Rect) (parms : List Upd)
    → length rects ≤ length parms
    → Any P rects
    → Any (λ u. P u.rect) (take (length rects) (fill p flag marker rects parms))
unfolding fill write_parm
fill-Any P p flag marker [] parms fits h = absurd h
fill-Any P p flag marker (r ∷ rs) [] fits h = absurd (omega arith)
fill-Any P p flag marker (r ∷ rs) (u ∷ parms) fits (inl h) = inl h
fill-Any P p flag marker (r ∷ rs) (u ∷ parms) fits (inr h) =
    inr (fill-Any P p flag marker rs parms (omega arith) h)

-- What `init_parms` leaves: between one and eight entries are to be submitted, each on the panel
-- and with the marker of the first; the entries behind them are as they were.
pub record Submits (s s' : Shim) (n : ℕ) : Type 0 where
  pub at_least : 1 ≤ n
  pub at_most : n ≤ epdc_damage_max
  pub submitted : All (IsSubmission (marker_of s.parms) s.tunables.flag) (take n s'.parms)
  pub kept : drop n s'.parms ≡ drop n s.parms
  pub size : length s'.parms ≡ length s.parms

-- With eight entries in `g_parms`, and for every damage list, timing and tunable, `init_parms`
-- submits between one and eight rectangles, each a non-empty part of the panel, all with the marker
-- that entry 0 had; it leaves the entries behind them and the length of `g_parms` alone.
pub init_parms-Submits :
    (dt : ℤ) (dmg : List Rect) (full : ℤ) (s : Shim)
    → length s.parms ≡ epdc_damage_max
    → Submits s (init_parms dt dmg full s).0 (init_parms dt dmg full s).1
unfolding init_parms
init_parms-Submits dt dmg full s eight = record {
  at_least = c.some_left;
  at_most = c.few;
  submitted =
      fill-All p s.tunables.flag (marker_of s.parms) rects s.parms c.on_panel
        (omega (arith, c.few));
  kept = fill-drop p s.tunables.flag (marker_of s.parms) rects s.parms;
  size = length-fill p s.tunables.flag (marker_of s.parms) rects s.parms;
}
  where
    p : Policy
    p = policy s.tunables s.updates_since_full dt (not (eqb_ℤ full (pos 0)))

    rects : List Rect
    rects = chosen p.force_full dmg

    c : IsChoice rects
    c = chosen-IsChoice p.force_full dmg

chosen-Contains :
    (x y : ℕ) (force : Bool) (ds : List Rect)
    → x < 1648
    → y < 824
    → length ds ≤ epdc_damage_max
    → (force ≡ true) ⊎ ((ds ≡ []) ⊎ Any (Contains x y) ds)
    → Any (Contains x y) (chosen force ds)
unfolding chosen
chosen-Contains x y force [] hx hy fits h = inl (panel-Contains x y hx hy)
chosen-Contains x y true (d ∷ ds) hx hy fits h = inl (panel-Contains x y hx hy)
chosen-Contains x y false (d ∷ ds) hx hy fits (inl h) = cc
chosen-Contains x y false (d ∷ ds) hx hy fits (inr (inl h)) = cc
chosen-Contains x y false (d ∷ ds) hx hy fits (inr (inr h)) =
    clamp_all-Contains x y hx hy epdc_damage_max (d ∷ ds) fits h

-- A pixel needs a refresh: the writer asks for all, says nothing, or damaged the pixel.
abbrev pub IsDamaged : ℕ → ℕ → List Rect → ℤ → Type 0
IsDamaged x y dmg full = (full ≢ pos 0) ⊎ ((dmg ≡ []) ⊎ Any (Contains x y) dmg)

policy-forced :
    (s : Shim) (dt full : ℤ)
    → full ≢ pos 0
    → (policy s.tunables s.updates_since_full dt (not (eqb_ℤ full (pos 0)))).force_full ≡ true
unfolding policy
policy-forced s dt full h = ground arith

-- With eight entries in `g_parms` and at most eight in the damage list, every pixel of the panel
-- that needs a refresh lies in a submitted rectangle: each of them, if a full refresh is asked for or
-- the list is empty, and else those of its rectangles.
pub init_parms-Contains :
    (x y : ℕ) (dt : ℤ) (dmg : List Rect) (full : ℤ) (s : Shim)
    → length s.parms ≡ epdc_damage_max
    → length dmg ≤ epdc_damage_max
    → x < 1648
    → y < 824
    → IsDamaged x y dmg full
    → Any
        (λ u. Contains x y u.rect)
        (take (init_parms dt dmg full s).1 (init_parms dt dmg full s).0.parms)
unfolding init_parms
init_parms-Contains x y dt dmg full s eight fits hx hy h =
    fill-Any (Contains x y) p s.tunables.flag (marker_of s.parms) (chosen p.force_full dmg) s.parms
      (omega (arith, (chosen-IsChoice p.force_full dmg).few))
      (chosen-Contains x y p.force_full dmg hx hy fits (cases h))
  where
    p : Policy
    p = policy s.tunables s.updates_since_full dt (not (eqb_ℤ full (pos 0)))

    cases : IsDamaged x y dmg full → (p.force_full ≡ true) ⊎ ((dmg ≡ []) ⊎ Any (Contains x y) dmg)
    cases (inl all) = inl (policy-forced s dt full all)
    cases (inr part) = inr part
