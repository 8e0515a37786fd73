-- ===== src/Shim/Commit.antt =====
-- `drmModeAtomicCommit`.
pub mod Calls
pub mod Drive
pub mod Effect
pub mod Lost
pub mod Shown
pub mod Known
pub mod Same
pub mod Results
pub mod Planes
use palma2pro_eos.Base.{
  ℕ, ◌+◌, ◌*◌, ◌/◌, ◌%◌, ◌^◌, Bool, true, false, ◌&&◌, ◌||◌, not, Option, none, some, List, [], ◌∷◌,
  ◌++◌, ◌==◌, if◌then◌else◌, get_elem?,
}
use palma2pro_eos.Base.Int.{ℤ, pos, int32, int64, ◌+ℤ◌, ◌-ℤ◌, ltb_ℤ, leb_ℤ, eqb_ℤ}
use palma2pro_eos.Shim.State.{Upd, Entry, Pend, Shim, Env, Call, real_add, real_commit}
use palma2pro_eos.Shim.Tunables.{resolve, refresh_tunables, now_ms}
use palma2pro_eos.Shim.Damage.{Read, attach_damage, read_damage}
use palma2pro_eos.Shim.Parms.{init_parms}
use palma2pro_eos.Shim.Lookup.{lookup}
use palma2pro_eos.Shim.Settle.{start_settle_thread}

-- the arguments of the call
pub record Args : Type 0 where
  pub fd : ℕ
  pub req : ℕ
  pub flags : ℕ
  pub user : ℕ

-- `flags & ATOMIC_TEST_ONLY`
unfoldable pub is_test_only : ℕ → Bool
is_test_only flags = flags / 0x100 % 2 == 1

-- `n_pend = 0; return real_commit(…);`, behind the calls made so far
unfoldable pub forward : Env → Args → Shim → List Call → Shim × List Call × ℤ
forward e a s calls =
    (record s { pend = [] }, calls ++ real_commit a.fd a.req a.flags a.user ∷ [], e.commit_rc)

-- the loop that computes `sig`, in `u32`
unfoldable pub fb_sig : List Pend → ℕ → ℕ
fb_sig [] sig = sig
fb_sig (p ∷ ps) sig = fb_sig ps ((sig * 31 + p.obj * 131 + p.fb) % 2 ^ 32)

-- Whether there is nothing new to show, and the state after the two tests.
unfoldable pub skip_same : Read → Shim → Bool × Shim
skip_same r s =
    if s.attached
    then (not r.changed, s)
    else if not (eqb_ℤ s.tunables.skipsame (pos 0)) && not (s.fbid_prop == 0)
    then if fb_sig s.pend 0 == s.last_fb_sig
      then (true, s)
      else (false, record s { last_fb_sig = fb_sig s.pend 0 })
    else (false, s)

-- `last_inject_ms ? t - last_inject_ms : -1`
unfoldable pub since_inject : ℤ → ℤ → ℤ
since_inject t last = if eqb_ℤ last (pos 0) then int64 (pos 0 -ℤ pos 1) else int64 (t -ℤ last)

unfoldable pub throttled : Shim → ℤ → Bool
throttled s dt =
    ltb_ℤ (pos 0) s.tunables.interval && leb_ℤ (pos 0) dt && ltb_ℤ dt s.tunables.interval

-- `g_parms[0].update_marker++`, as the machine's addition wraps it
unfoldable pub bump_marker : List Upd → List Upd
bump_marker [] = []
bump_marker (p ∷ ps) = record p { update_marker = int32 (p.update_marker +ℤ pos 1) } ∷ ps

-- the two `real_add`s for the plane of one cache entry
unfoldable pub entry_calls : Env → ℕ → ℕ → ℕ → Option Entry → List Call
entry_calls e req obj n none = []
entry_calls e req obj n (some c) =
    if c.parms_prop == 0 || c.cnt_prop == 0
    then []
    else real_add req obj c.parms_prop e.parms_addr ∷ real_add req obj c.cnt_prop n ∷ []

-- the tests of `idx` and of the entry there
unfoldable pub slot_calls : Env → ℕ → ℕ → ℕ → List Entry → Option ℕ → List Call
unfolding entry_calls
slot_calls e req obj n cache none = []
slot_calls e req obj n cache (some i) = entry_calls e req obj n (get_elem? cache i)

-- one turn of the last loop
unfoldable pub inject_one : Env → ℕ → ℕ → Pend → Shim → Shim × List Call
inject_one e req n p s =
    let (idx, s₁) = lookup e p.obj s in (s₁, slot_calls e req p.obj n s₁.cache idx)

unfoldable pub inject : Env → ℕ → ℕ → List Pend → Shim → Shim × List Call
inject e req n [] s = (s, [])
inject e req n (p ∷ ps) s =
    let (s₁, calls) = inject_one e req n p s in
    let (s₂, more) = inject e req n ps s₁ in (s₂, calls ++ more)

-- from `g_settle_pending = 1` to the end
unfoldable pub submit : Env → Args → ℕ → Shim → List Call → Shim × List Call × ℤ
submit e a n s calls =
    let (s₁, started) = start_settle_thread (record s { settle_pending = true }) in
    let (s₂, added) = inject e a.req n s₁.pend s₁ in forward e a s₂ (calls ++ (started ++ added))

-- from `g_parms[0].update_marker++` to the end
unfoldable pub drive : Env → Args → Read → ℤ → Shim → List Call → Shim × List Call × ℤ
drive e a r dt s calls =
    let (s₁, n) = init_parms dt r.rects r.full (record s { parms = bump_marker s.parms }) in
    submit e a n s₁ calls

-- from the clock on
unfoldable pub pace : Env → Args → Read → Shim → List Call → Shim × List Call × ℤ
pace e a r s calls =
    let t = now_ms e s.symbols in
    let dt = since_inject t s.last_inject_ms in
    if throttled s dt
    then forward e a s calls
    else drive e a r dt (record s { last_inject_ms = t }) calls

-- from `if (g_dmg)` on, with what `read_damage` returned
unfoldable pub react : Env → Args → Read → Shim → List Call → Shim × List Call × ℤ
react e a r s calls =
    let (same, s₁) = skip_same r s in if same then forward e a s₁ calls else pace e a r s₁ calls

-- from `attach_damage` on
unfoldable pub show : Env → Args → Shim → Shim × List Call × ℤ
show e a s =
    let (s₁, calls) = attach_damage e s in
    let r = read_damage e s₁ in react e a r (record s₁ { last_dmg_seq = r.last_dmg_seq }) calls

unfoldable pub commit : Env → Args → Shim → Shim × List Call × ℤ
commit e a s =
    let s₁ = refresh_tunables e (resolve e s) in
    if is_test_only a.flags || eqb_ℤ s₁.tunables.enable (pos 0)
    then forward e a s₁ []
    else show e a s₁
