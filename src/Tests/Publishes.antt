-- ===== src/Tests/Publishes.antt =====
-- From a region to the panel, on the sample.
use palma2pro_eos.Base.{
  ℕ, ◌≤◌, ◌≡◌, ◌↔◌, refl, inl, inr, true, false, none, List, [], ◌∷◌, arith, length, if◌then◌else◌,
}
use palma2pro_eos.Base.Int.{pos, ltb_ℤ, int32, int64, ◌+ℤ◌, ◌-ℤ◌, ◌*ℤ◌}
use palma2pro_eos.Shim.State.{Rect, Shim, zero_rect, epdc_damage_max, init}
use palma2pro_eos.Shim.Numbers.{str_eq, parse_num}
use palma2pro_eos.Shim.Tunables.{resolve, prop_num, now_ms, read_tunables, refresh_tunables}
use palma2pro_eos.Shim.Damage.{
  try_attach, attach_damage, copy_rects, clip_count, accepts, accepted, unusable, attempts,
  read_damage,
}
use palma2pro_eos.Shim.Parms.{
  motion_wf, is_full_due, next_count, policy, clamp_rect, chosen, write_parm, fill, init_parms,
}
use palma2pro_eos.Shim.Lookup.{find_entry, learn, learn_all, query, add_entry, lookup}
use palma2pro_eos.Shim.Request.{find_pend, take_slot, set_fb, note_fb, add_property}
use palma2pro_eos.Shim.Settle.{start_settle_thread}
use palma2pro_eos.Shim.Commit.{
  is_test_only, forward, fb_sig, skip_same, since_inject, throttled, bump_marker, entry_calls,
  slot_calls, inject_one, inject, submit, drive, pace, react, show, commit,
}
use palma2pro_eos.Shim.Parms.Panel.{Contains}
use palma2pro_eos.Shim.Commit.Shown.{Shows}
use palma2pro_eos.Seqlock.{System, Reach, here, start, attempt_at}
use palma2pro_eos.Publish.{
  Page, Platform, Output, count_rects, copy_region, pick_rects, cell_of, full_word, publication,
  rect_stores, publish_stores, perform, perform_all, finish_frame,
}
use palma2pro_eos.Publish.Rects.{Bounds, publication-read}
use palma2pro_eos.Publish.Writes.{page_of, Runs, IsPublished, publish_stores-Runs}
use palma2pro_eos.Publish.Attach.{IsNew, after, try_attach-start}
use palma2pro_eos.Publish.Shown.{changed_pixel-Shows}
use palma2pro_eos.Publish.Frames.{
  published, seeing, begins, publishes, commits, adds, next_commit-Shows,
}
use palma2pro_eos.Publish.Session.{IsFrame, finish_frame-IsFrame}
use palma2pro_eos.Tests.Damages.{junk, copied, one_rect, whole_read, reading_env, attached}
use palma2pro_eos.Tests.Sample.{all_symbols, line, far, env, args}

-- the least and the greatest edges of two rectangles
abbrev join : Rect → Rect → Rect
join a b = record {
  left = if ltb_ℤ a.left b.left then a.left else b.left;
  top = if ltb_ℤ a.top b.top then a.top else b.top;
  right = if ltb_ℤ a.right b.right then b.right else a.right;
  bottom = if ltb_ℤ a.bottom b.bottom then b.bottom else a.bottom;
}

hull : List Rect → Rect
hull [] = zero_rect
hull (r ∷ rs) = join r (hull rs)

join_left : (x y : ℕ) (a b : Rect) → Contains x y a → Contains x y (join a b)
join_left x y a b h = ground arith

join_right : (x y : ℕ) (a b : Rect) → Contains x y b → Contains x y (join a b)
join_right x y a b h = ground arith

hull-Bounds : Bounds hull
unfolding hull
hull-Bounds x y [] h = absurd h
hull-Bounds x y (r ∷ rs) (inl h) = join_left x y r (hull rs) h
hull-Bounds x y (r ∷ rs) (inr h) = join_right x y r (hull rs) (hull-Bounds x y rs h)

program : Unit {0}
unfolding resolve prop_num now_ms read_tunables refresh_tunables try_attach attach_damage copy_rects
    clip_count accepts accepted unusable attempts read_damage motion_wf is_full_due next_count
    policy clamp_rect chosen write_parm fill init_parms find_pend take_slot set_fb note_fb
    add_property find_entry learn learn_all query add_entry lookup start_settle_thread is_test_only
    forward fb_sig skip_same since_inject throttled bump_marker entry_calls slot_calls inject_one
    inject submit drive pace react show commit int32 int64 ◌+ℤ◌ ◌-ℤ◌ ◌*ℤ◌ parse_num str_eq
    count_rects copy_region pick_rects cell_of full_word publication rect_stores publish_stores
    perform perform_all published hull
program = tt

-- nine rectangles, more than the mapping holds
abbrev nine : List Rect
nine = far ∷ line ∷ line ∷ line ∷ line ∷ line ∷ line ∷ line ∷ line ∷ []

-- they are published as one
collapsed : pick_rects hull nine false ≡ hull nine ∷ []
unfolding program
collapsed = refl

publication-read_example :
    let rects = pick_rects hull nine false in
    let r = accepted (attempt_at 4 (publication hull nine false)) 2 in
    (r.rects ≡ rects)
    × (length rects ≤ epdc_damage_max)
    × (r.full ≡ pos (full_word rects false))
    × (r.last_dmg_seq ≡ 4)
publication-read_example = publication-read hull nine false 4 2

publish_stores-Runs_example :
    (t : System) × Runs (start junk) (publish_stores hull nine false 2) t
    × IsPublished (start junk) (publication hull nine false) t
    × Reach junk t
publish_stores-Runs_example = publish_stores-Runs hull nine false junk (start junk) here refl

-- a file of zeros
abbrev new_page : Page
new_page = record {
  magic = 0;
  version = 0;
  seq = 0;
  cells = record { count = 0; full = 0; cell = junk };
}

new_page-IsNew : IsNew junk new_page
new_page-IsNew = record { magic = refl; version = refl; cell = refl }

-- the shim looks when all is stored
try_attach-start_example :
    (((try_attach env (record init { symbols = all_symbols })).0.attached ≡ true) ↔ (5 ≤ 5))
    × (5 ≤ 5 → after 5 new_page ≡ page_of (start junk))
unfolding perform perform_all
try_attach-start_example =
    try_attach-start junk 5 5 new_page env (record init { symbols = all_symbols }) new_page-IsNew
      (omega arith) refl refl refl (refl, refl, omega arith, refl)

abbrev world : Platform
world = record { fd = pos 6; truncates = true; maps = true }

abbrev output : Output
output = record { display_id = true; dirty = line ∷ []; transform = λ r. far ∷ r }

finish_frame-IsFrame_example :
    IsFrame hull junk world none
      (far ∷ line ∷ [])
      0
      new_page
      (finish_frame hull world none new_page output)
finish_frame-IsFrame_example =
    finish_frame-IsFrame hull junk world none 0 new_page output refl (refl, new_page-IsNew)

one_rect-written : one_rect ≡ publication hull (line ∷ []) false
unfolding program
one_rect-written = refl

-- the plane is in the request, and known
abbrev one_plane : Shim
one_plane = record attached {
  pend = record { obj = 5; fb = 1 } ∷ [];
  cache = record { obj = 5; parms_prop = 10; cnt_prop = 11 } ∷ [];
}

-- the pixel is read while the writer is at rest
changed_pixel-Shows_example :
    Shows 100 40 5 10 11 reading_env args (commit reading_env args one_plane)
unfolding program
changed_pixel-Shows_example =
    changed_pixel-Shows hull junk 100 40 5 10 11 reading_env args one_plane (omega arith)
      (omega arith) (inl refl) (inl (0, _, refl, refl, refl, refl)) hull-Bounds (omega arith)
      (omega arith)
      (λ j. inr (record {
        made = record {
          system = whole_read.0;
          v = 4;
          n = 1;
          f = 0;
          got = copied (copied one_rect.cell);
          reach = whole_read.1;
          done = refl;
          few = omega arith;
          same = refl;
        };
        publishes = record {
          damage = line ∷ [];
          force = false;
          changed = inr (inl (omega arith));
          written = one_rect-written;
        };
      }))
      refl refl refl (λ h. cc) refl refl

-- one frame is published and committed, and then a second one
abbrev first_page : Page
first_page = published hull (line ∷ []) (page_of (start junk))

abbrev shown_once : Shim
shown_once =
    let s = (add_property env 77 5 12 1 init).0 in
    (add_property env 78 5 12 2 (commit (seeing first_page env) args s).0).0

next_commit-Shows_example :
    let e = seeing (published hull nine first_page) env in
    Shows 1647 823 5 10 11 e args (commit e args shown_once)
unfolding program
next_commit-Shows_example =
    next_commit-Shows hull junk 1647 823 5 10 11 1 first_page shown_once (omega arith) (omega arith)
      (inl refl) hull-Bounds
      (adds env 78 5 12 2 (commits env args (adds env 77 5 12 1 (publishes (line ∷ []) begins))))
      (omega arith) (omega arith) (omega arith) nine env args (inl (omega arith))
      (inl (0, _, refl, refl, refl, refl)) refl refl (λ h. cc) refl
