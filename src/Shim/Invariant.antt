-- ===== src/Shim/Invariant.antt =====
-- The invariant of the static variables of src/epdcshim.c.
pub mod Commit
pub mod Reach
use palma2pro_eos.Base.{
  ℕ, zero, suc, ◌+◌, ◌-◌, ◌^◌, ◌≤◌, ◌<◌, ◌≡◌, ◌≢◌, refl, ap, subst, sym, ◌∙◌, Bool, true, false,
  not, ◌||◌, Option, none, some, List, [], ◌∷◌, ◌++◌, inl, inr, arith, length, length-append, All,
  Distinct, Distinct-snoc, Bool-cases, ltb,
}
use palma2pro_eos.Base.Int.{ℤ, pos, int32, int32-IsInt32, IsInt32, ◌+ℤ◌, ◌≤ℤ◌, ◌<ℤ◌, eqb_ℤ}
use palma2pro_eos.Shim.State.{
  Tunables, Upd, Entry, Pend, Shim, Env, Call, max_obj, epdc_damage_max, recheck, init,
}
use palma2pro_eos.Shim.Tunables.{now_ms, resolve, refresh_tunables, read_tunables}
use palma2pro_eos.Shim.Damage.{Read, attach_damage, try_attach, read_damage}
use palma2pro_eos.Shim.Parms.{init_parms, next_count, policy, chosen}
use palma2pro_eos.Shim.Parms.Panel.{length-fill}
use palma2pro_eos.Shim.Parms.Cadence.{IsCount, next_count-IsCount}
use palma2pro_eos.Shim.Lookup.{lookup}
use palma2pro_eos.Shim.Lookup.Cache.{Outcome, hit, refused, added, lookup-Outcome, find_entry-none}
use palma2pro_eos.Shim.Lookup.Cache
use palma2pro_eos.Shim.Request.{add_property, take_slot, note_fb}
use palma2pro_eos.Shim.Request.Slots.{IsPending, add-IsPending}
use palma2pro_eos.Shim.Settle.{settle_now, settle_round, start_settle_thread, next_marker}
use palma2pro_eos.Shim.Commit.{
  Args, is_test_only, forward, skip_same, bump_marker, inject_one, inject, submit, drive, pace,
  react, show, commit, throttled, since_inject,
}

pub record IsCache (cs : List Entry) : Type 0 where
  pub few : length cs ≤ max_obj
  pub distinct : Distinct Cache.key cs

pub record IsValid (s : Shim) : Type 0 where
  pub parms : length s.parms ≡ epdc_damage_max
  pub pend : IsPending s.pend
  pub cache : IsCache s.cache
  pub fullevery : IsInt32 s.tunables.fullevery
  pub counted : IsCount s.updates_since_full
  pub recheck_below : s.commits_since_recheck ≤ recheck
  pub tried_below : s.dmg_tried ≤ recheck
  pub marker : (pos 0 ≤ℤ s.settle_marker) × IsInt32 s.settle_marker
