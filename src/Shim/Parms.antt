-- ===== src/Shim/Parms.antt =====
-- `init_parms`: the refresh policy, and the rectangles that are submitted.
pub mod Panel
pub mod Cadence
pub mod Layout
use palma2pro_eos.Base.{
  ℕ, Bool, true, false, ◌&&◌, ◌||◌, not, List, [], ◌∷◌, if◌then◌else◌, take, length,
}
use palma2pro_eos.Base.Int.{ℤ, pos, int32, ◌+ℤ◌, ltb_ℤ, leb_ℤ, eqb_ℤ}
use palma2pro_eos.Shim.State.{Rect, Upd, Tunables, Shim, epdc_damage_max, panel_w, panel_h}

-- the locals after the two tests, and the counter
pub record Policy : Type 0 where
  pub wf : ℤ
  pub upd : ℤ
  pub force_full : Bool
  pub updates_since_full : ℤ

-- `wf` after the first test
unfoldable pub motion_wf : Tunables → ℤ → ℤ
motion_wf t dt =
    if (ltb_ℤ (pos 0) t.fastwf && leb_ℤ (pos 0) dt) && ltb_ℤ dt t.fastms then t.fastwf else t.wf

-- the condition of the second test, after which `count` is the incremented counter
unfoldable pub is_full_due : Tunables → ℤ → Bool
is_full_due t count = ltb_ℤ (pos 0) t.fullevery && leb_ℤ t.fullevery (int32 (count +ℤ pos 1))

unfoldable pub next_count : Tunables → ℤ → ℤ
next_count t count =
    if is_full_due t count
    then pos 0
    else if ltb_ℤ (pos 0) t.fullevery
    then int32 (count +ℤ pos 1)
    else count

unfoldable pub policy : Tunables → ℤ → ℤ → Bool → Policy
policy t count dt force = record {
  wf = if is_full_due t count then t.wf else motion_wf t dt;
  upd = if is_full_due t count then pos 1 else t.upd;
  force_full = is_full_due t count || force;
  updates_since_full = next_count t count;
}

abbrev pub panel : Rect
panel = record { left = pos 0; top = pos 0; right = panel_w; bottom = panel_h }

-- the clamp, and the whole panel in place of an empty rectangle
unfoldable pub clamp_rect : Rect → Rect
clamp_rect d =
    let l = if ltb_ℤ d.left (pos 0) then pos 0 else d.left in
    let t = if ltb_ℤ d.top (pos 0) then pos 0 else d.top in
    let r = if ltb_ℤ panel_w d.right then panel_w else d.right in
    let b = if ltb_ℤ panel_h d.bottom then panel_h else d.bottom in
    if leb_ℤ r l || leb_ℤ b t then panel else record { left = l; top = t; right = r; bottom = b }

clamp_all : List Rect → List Rect
clamp_all [] = []
clamp_all (d ∷ ds) = clamp_rect d ∷ clamp_all ds

-- the rectangles of the loop, one for each turn
unfoldable pub chosen : Bool → List Rect → List Rect
unfolding clamp_all
chosen force [] = panel ∷ []
chosen force (d ∷ ds) = if force then panel ∷ [] else clamp_all (take epdc_damage_max (d ∷ ds))

-- `g_parms[0].update_marker`
abbrev pub marker_of : List Upd → ℤ
marker_of [] = pos 0
marker_of (p ∷ ps) = p.update_marker

-- the writes of one turn
unfoldable pub write_parm : Policy → ℤ → ℤ → Rect → Upd
write_parm p flag marker r = record {
  rect = r;
  waveform_mode = p.wf;
  update_mode = p.upd;
  update_marker = marker;
  temp = pos 0;
  flag = flag;
  reserved = pos 0;
}

-- The loop over `g_parms`: the entries behind the last rectangle stay.
unfoldable pub fill : Policy → ℤ → ℤ → List Rect → List Upd → List Upd
unfolding write_parm
fill p flag marker [] parms = parms
fill p flag marker (r ∷ rs) [] = []
fill p flag marker (r ∷ rs) (u ∷ parms) = write_parm p flag marker r ∷ fill p flag marker rs parms

unfoldable pub init_parms : ℤ → List Rect → ℤ → Shim → Shim × ℕ
init_parms dt dmg full s =
    let p = policy s.tunables s.updates_since_full dt (not (eqb_ℤ full (pos 0))) in
    let rects = chosen p.force_full dmg in
    (
      record s {
        updates_since_full = p.updates_since_full;
        parms = fill p s.tunables.flag (marker_of s.parms) rects s.parms;
      },
      length rects,
    )
