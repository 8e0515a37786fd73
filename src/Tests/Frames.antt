-- ===== src/Tests/Frames.antt =====
-- Commits of a composer whose SurfaceFlinger publishes no damage, and what they hold of libdrm.
use palma2pro_eos.Base.{
  ℕ, ◌+◌, ◌*◌, ◌≡◌, ◌≢◌, refl, ◌⊎◌, inl, true, some, [], ◌∷◌, arith, get_elem?,
}
use palma2pro_eos.Base.Int.{pos, negsuc, int32, int64, ◌+ℤ◌, ◌-ℤ◌, ◌*ℤ◌}
use palma2pro_eos.Base.Words.{word_at}
use palma2pro_eos.Shim.State.{Rect, Upd, default_tunables, Shim, Env, init}
use palma2pro_eos.Shim.Numbers.{str_eq, parse_num}
use palma2pro_eos.Shim.Tunables.{resolve, prop_num, now_ms, read_tunables, refresh_tunables}
use palma2pro_eos.Shim.Damage.{try_attach, attach_damage, unusable, read_damage}
use palma2pro_eos.Shim.Parms.{
  motion_wf, is_full_due, next_count, policy, clamp_rect, chosen, marker_of, write_parm, fill,
  init_parms,
}
use palma2pro_eos.Shim.Parms.Panel.{IsOnPanel}
use palma2pro_eos.Shim.Parms.Layout.{words_of, parms_bytes, policy_of, init_parms-words}
use palma2pro_eos.Shim.Lookup.{find_entry, learn, learn_all, query, add_entry, lookup}
use palma2pro_eos.Shim.Lookup.Results.{use_all, nothing_held}
use palma2pro_eos.Shim.Request.{find_pend, take_slot, set_fb, note_fb, add_property}
use palma2pro_eos.Shim.Settle.{settle_due, settle_round, start_settle_thread}
use palma2pro_eos.Shim.Settle.Rounds.{sent}
use palma2pro_eos.Shim.Settle.Markers.{commit_then_settle-collide}
use palma2pro_eos.Shim.Commit.{
  is_test_only, forward, fb_sig, skip_same, since_inject, throttled, bump_marker, entry_calls,
  slot_calls, inject_one, inject, submit, drive, pace, react, show, commit,
}
use palma2pro_eos.Shim.Commit.Drive.{IsKept}
use palma2pro_eos.Shim.Commit.Shown.{Shows}
use palma2pro_eos.Shim.Commit.Same.{IsFallback, Idle, rest, adds}
use palma2pro_eos.Shim.Commit.Same.Frames.{next_frame, two_frames-collide}
use palma2pro_eos.Shim.Commit.Results.{inject_uses, inject_uses-balanced}
use palma2pro_eos.Tests.Sample.{all_symbols, line, far, env, args, busy}

program : Unit {0}
unfolding resolve prop_num now_ms read_tunables refresh_tunables try_attach attach_damage unusable
    read_damage motion_wf is_full_due next_count policy clamp_rect chosen write_parm fill init_parms
    find_entry learn learn_all query add_entry lookup find_pend take_slot set_fb note_fb
    add_property start_settle_thread is_test_only forward fb_sig skip_same since_inject throttled
    bump_marker entry_calls slot_calls inject_one inject submit drive pace react show commit int32
    int64 ◌+ℤ◌ ◌-ℤ◌ ◌*ℤ◌ parse_num str_eq
program = tt

-- there is no file to attach to
abbrev no_damage : Env
no_damage = record env { damage_fd = negsuc 1 }

-- The plane shows buffer 40, and the plane below it buffer 90.
abbrev two_planes : Shim
two_planes = record init {
  resolved = true;
  symbols = all_symbols;
  fbid_prop = 12;
  pend = record { obj = 5; fb = 40 } ∷ record { obj = 7; fb = 90 } ∷ [];
}

-- the next request, with other buffers
abbrev next_request : ℕ → ℕ → Shim
next_request f g =
    let s₁ = (commit no_damage args two_planes).0 in
    let s₂ = (add_property no_damage 78 5 12 f s₁).0 in (add_property no_damage 78 7 12 g s₂).0

assembled : (f g : ℕ) → Idle (commit no_damage args two_planes).0 (next_request f g)
assembled f g = adds (adds rest no_damage 78 5 12 f) no_damage 78 7 12 g

two_planes-IsFallback : IsFallback no_damage args two_planes
unfolding program
two_planes-IsFallback = record {
  real = refl;
  enabled = λ h. cc;
  apart = refl;
  skips = λ h. cc;
  known = λ h. cc;
}

next-IsFallback : IsFallback no_damage args (next_request 41 90)
unfolding program
next-IsFallback = record {
  real = refl;
  enabled = λ h. cc;
  apart = refl;
  skips = λ h. cc;
  known = λ h. cc;
}

collided-IsFallback : IsFallback no_damage args (next_request 41 59)
unfolding program
collided-IsFallback = record {
  real = refl;
  enabled = λ h. cc;
  apart = refl;
  skips = λ h. cc;
  known = λ h. cc;
}

-- The upper plane flips to buffer 41.
next_frame_example :
    let s = next_request 41 90 in
    ((◌≡◌ {A = ℕ} 40 41) × IsKept s (commit no_damage args s))
    ⊎ ((◌≢◌ {A = ℕ} 40 41) × Shows 1647 823 5 10 11 no_damage args (commit no_damage args s))
unfolding program
next_frame_example =
    next_frame 1647 823 no_damage no_damage args args two_planes (next_request 41 90) []
      (record { obj = 7; fb = 90 } ∷ []) 5 40 41 5 10 11 (omega arith) (omega arith) (omega arith)
      (omega arith) two_planes-IsFallback refl (assembled 41 90) next-IsFallback refl (omega arith)
      (omega arith) (inl refl) (inl (0, _, refl, refl, refl, refl)) refl refl

-- The lower plane flips to buffer 59 at the same time.
two_frames-collide_example :
    IsKept (next_request 41 59) (commit no_damage args (next_request 41 59))
unfolding program
two_frames-collide_example =
    two_frames-collide no_damage no_damage args args two_planes (next_request 41 59) [] [] 5 7 40 59
      two_planes-IsFallback refl (assembled 41 59) collided-IsFallback refl

-- the marker in the bytes of the second struct
init_parms-words_example :
    let p = policy_of (pos 500) (pos 0) init in
    (r : Rect) × (get_elem? (chosen p.force_full (line ∷ far ∷ [])) 1 ≡ some r)
    × IsOnPanel r
    × (get_elem? (words_of r p.wf p.upd (marker_of init.parms) init.tunables.flag) 6
        ≡ some (
            word_at
              (parms_bytes (init_parms (pos 500) (line ∷ far ∷ []) (pos 0) init).0.parms)
              (10 * 1 + 6)))
unfolding program
init_parms-words_example =
    init_parms-words (pos 500) (line ∷ far ∷ []) (pos 0) init 1 6 refl (omega arith)
      (record { wf = omega arith; fastwf = omega arith; upd = omega arith; flag = omega arith })
      (omega arith) (omega arith)

inject_uses-balanced_example :
    let s = record busy { symbols = all_symbols } in
    (use_all (inject_uses env s.pend s) (some nothing_held) ≡ some nothing_held)
    × (inject_uses no_damage s.pend (inject env 77 1 s.pend s).0 ≡ [])
inject_uses-balanced_example =
    let s : Shim = record busy { symbols = all_symbols } in
    inject_uses-balanced env no_damage 77 1 s.pend s refl refl

-- the next commit will be the first
abbrev fresh : Shim
fresh = record busy {
  resolved = true;
  symbols = all_symbols;
  commits_since_recheck = 0;
  tunables = record default_tunables { settlems = pos 400 };
}

-- two seconds later
abbrev later : Env
later = record env { sec = 9 }

commit_then_settle-collide_example :
    IsKept fresh (commit no_damage args fresh)
    ⊎ ((marker_of (commit no_damage args fresh).0.parms ≡ marker_of fresh.parms +ℤ pos 1)
        × (u : Upd) × (sent (settle_round later (commit no_damage args fresh).0).1 ≡ u ∷ [])
        × (u.update_marker ≡ marker_of (commit no_damage args fresh).0.parms))
unfolding program settle_due
commit_then_settle-collide_example =
    commit_then_settle-collide no_damage later args fresh refl (omega arith) (omega arith) refl refl
      refl (omega arith)
