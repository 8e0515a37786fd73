-- ===== src/Tests/Commits.antt =====
-- Commits on the sample.
use palma2pro_eos.Base.{ℕ, ◌≤◌, ◌≡◌, refl, ◌⊎◌, inl, inr, true, [], ◌∷◌, arith}
use palma2pro_eos.Base.Int.{pos, int32, int64, ◌+ℤ◌, ◌-ℤ◌, ◌*ℤ◌}
use palma2pro_eos.Shim.State.{
  default_tunables, Shim, Env, real_add, real_commit, open_damage, mmap_damage, create_thread, init,
}
use palma2pro_eos.Shim.Numbers.{str_eq, parse_num}
use palma2pro_eos.Shim.Tunables.{resolve, prop_num, now_ms, read_tunables, refresh_tunables}
use palma2pro_eos.Shim.Damage.{
  try_attach, attach_damage, copy_rects, clip_count, accepts, accepted, unusable, attempts,
  read_damage,
}
use palma2pro_eos.Shim.Parms.{
  motion_wf, is_full_due, next_count, policy, clamp_rect, chosen, write_parm, fill, init_parms,
}
use palma2pro_eos.Shim.Lookup.{find_entry, learn, learn_all, query, add_entry, lookup}
use palma2pro_eos.Shim.Settle.{start_settle_thread}
use palma2pro_eos.Shim.Commit.{
  is_test_only, forward, fb_sig, skip_same, since_inject, throttled, bump_marker, entry_calls,
  slot_calls, inject_one, inject, submit, drive, pace, react, show, commit,
}
use palma2pro_eos.Shim.Request.{add_property}
use palma2pro_eos.Shim.Commit.Calls.{Forwards, commit-Forwards}
use palma2pro_eos.Shim.Commit.Drive.{IsKept, IsDriven}
use palma2pro_eos.Shim.Lookup.Planes.{IsPlane}
use palma2pro_eos.Shim.Commit.Planes.{Adds}
use palma2pro_eos.Shim.Commit.Planes.Reached.{commit-Adds}
use palma2pro_eos.Shim.Commit.Lost.{IsSilent, run_commits, throttled_damage-lost}
use palma2pro_eos.Shim.Invariant.{IsValid}
use palma2pro_eos.Shim.Invariant.Reach.{Reach-IsValid, start, later, add, commits}
use palma2pro_eos.Tests.Sample.{all_symbols, env, args, busy}

program : Unit {0}
unfolding resolve prop_num now_ms read_tunables refresh_tunables try_attach attach_damage copy_rects
    clip_count accepts accepted unusable attempts read_damage motion_wf is_full_due next_count
    policy clamp_rect chosen write_parm fill init_parms find_entry learn learn_all query add_entry
    lookup start_settle_thread is_test_only forward fb_sig skip_same since_inject throttled
    bump_marker entry_calls slot_calls inject_one inject submit drive pace react show commit int32
    int64 ◌+ℤ◌ ◌-ℤ◌ ◌*ℤ◌ parse_num str_eq
program = tt

-- The plane gets the address and the count; object 6 is no plane.
commit_calls :
    (commit env args busy).1
    ≡ open_damage
      ∷ mmap_damage (pos 9)
      ∷ create_thread
      ∷ real_add 77 5 10 0x7000
      ∷ real_add 77 5 11 1
      ∷ real_commit 3 77 0 0
      ∷ []
unfolding program
commit_calls = refl

commit-Forwards_example : Forwards env args busy.pend (commit env args busy)
commit-Forwards_example = commit-Forwards env args busy

-- plane 5 is new, and can be asked about
sample-IsPlane : IsPlane env 5 10 11
unfolding str_eq
sample-IsPlane = record {
  props = 10 ∷ 11 ∷ 12 ∷ [];
  told = refl;
  some_parms = inl (_, refl, refl);
  some_cnt = inr (inl (_, refl, refl));
  only_parms = (λ r e h. cc, (λ r e h. cc, (λ r e h. cc, tt)));
  only_cnt = (λ r e h. cc, (λ r e h. cc, (λ r e h. cc, tt)));
}

commit-Adds_example :
    IsKept busy (commit env args busy)
    ⊎ (IsDriven env args busy (commit env args busy).0
        × (n : ℕ) × (1 ≤ n)
        × (n ≤ 8)
        × Adds env 77 5 10 11 n (commit env args busy).1)
unfolding program
commit-Adds_example =
    commit-Adds env args 5 10 11 (omega arith) (omega arith) busy refl (inl refl)
      (inr (sample-IsPlane, refl, omega arith, refl))

abbrev added : Shim
added = (add_property env 77 5 12 1 init).0

Reach-IsValid_example : IsValid (commit env args added).0
Reach-IsValid_example = Reach-IsValid (later (later start (add env 77 5 12 1)) (commits env args))

-- attached since earlier, with the last injection 100 ms ago and an interval of 120 ms
abbrev waiting : Shim
waiting = record init {
  attached = true;
  resolved = true;
  symbols = all_symbols;
  commits_since_recheck = 0;
  tunables = record default_tunables { interval = pos 120 };
  last_inject_ms = pos 7400;
  last_dmg_seq = 2;
}

-- a second later
abbrev env_later : Env
env_later = record env { sec = 8 }

throttled_damage-lost_example :
    IsSilent 4 waiting (run_commits ((env, args) ∷ (env_later, args) ∷ []) waiting)
unfolding program
throttled_damage-lost_example =
    throttled_damage-lost env args waiting ((env_later, args) ∷ []) refl refl (λ h. cc) refl refl
      ((refl, refl), tt)
