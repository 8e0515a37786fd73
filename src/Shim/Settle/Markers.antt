-- ===== src/Shim/Settle/Markers.antt =====
-- The markers of `drmModeAtomicCommit` and of `settle_now`, which are counted apart.
use palma2pro_eos.Base.{
  ◌^◌, ◌-◌, ◌≡◌, refl, ap, sym, ◌∙◌, ◌⊎◌, inl, inr, true, ◌&&◌, ◌||◌, List, [], ◌∷◌, length, arith,
  Bool-cases,
}
use palma2pro_eos.Base.Int.{ℤ, pos, int32, ◌+ℤ◌, ◌≤ℤ◌, ◌<ℤ◌, eqb_ℤ}
use palma2pro_eos.Shim.State.{Upd, Shim, Env, Call, epdc_damage_max}
use palma2pro_eos.Shim.Tunables.{now_ms, resolve, refresh_tunables}
use palma2pro_eos.Shim.Damage.{Read, try_attach, attach_damage}
use palma2pro_eos.Shim.Parms.{marker_of, init_parms}
use palma2pro_eos.Shim.Settle.{settle_due, settle_round}
use palma2pro_eos.Shim.Settle.Rounds.{sent, settle_marker-collides}
use palma2pro_eos.Shim.Commit.{
  Args, is_test_only, forward, skip_same, drive, pace, react, show, commit, throttled, since_inject,
}
use palma2pro_eos.Shim.Commit.Drive.{IsKept, submit-same}
use palma2pro_eos.Shim.Commit.Lost.{refreshed}
use palma2pro_eos.Shim.Commit.Effect.{commit-Effect}

-- A commit does not count settles.
module _ (e : Env) (a : Args) where
  drive-settles :
      (r : Read) (dt : ℤ) (s : Shim) (calls : List Call)
      → (drive e a r dt s calls).0.settle_marker ≡ s.settle_marker
  unfolding drive init_parms
  drive-settles r dt s calls = (submit-same e a _ _ calls).settles

  pace-settles :
      (r : Read) (s : Shim) (calls : List Call)
      → (pace e a r s calls).0.settle_marker ≡ s.settle_marker
  unfolding pace forward
  pace-settles r s calls =
      let t = now_ms e s.symbols in
      let dt = since_inject t s.last_inject_ms in
      elim (Bool-cases (throttled s dt)) [
        | inl wait ↦ rw wait refl
        | inr go ↦ rw go (drive-settles r dt (record s { last_inject_ms = t }) calls)
      ]

  skip_same-settles : (r : Read) (s : Shim) → (skip_same r s).1.settle_marker ≡ s.settle_marker
  unfolding skip_same
  skip_same-settles r s = ground arith

  react-settles :
      (r : Read) (s : Shim) (calls : List Call)
      → (react e a r s calls).0.settle_marker ≡ s.settle_marker
  unfolding react forward
  react-settles r s calls = elim (Bool-cases (skip_same r s).0) [
    | inl same ↦ rw same (skip_same-settles r s)
    | inr new ↦ rw new (pace-settles r (skip_same r s).1 calls ∙ skip_same-settles r s)
  ]

  attach_damage-settles : (s : Shim) → (attach_damage e s).0.settle_marker ≡ s.settle_marker
  unfolding attach_damage try_attach
  attach_damage-settles s = ground arith

  refreshed-settles : (s : Shim) → (refreshed e s).settle_marker ≡ s.settle_marker
  unfolding refresh_tunables resolve
  refreshed-settles s = ground arith

  commit-settles : (s : Shim) → (commit e a s).0.settle_marker ≡ s.settle_marker
  unfolding commit show forward
  commit-settles s =
      let s₁ = refreshed e s in
      elim (Bool-cases (is_test_only a.flags || eqb_ℤ s₁.tunables.enable (pos 0))) [
        | inl off ↦ rw off (refreshed-settles s)
        | inr on ↦ rw on (
            react-settles _ _ (attach_damage e s₁).1
            ∙ attach_damage-settles s₁
            ∙ refreshed-settles s)
      ]

one_more : (m : ℤ) → pos 0 ≤ℤ m → m <ℤ pos (2 ^ 31 - 1) → int32 (m +ℤ pos 1) ≡ m +ℤ pos 1
unfolding int32 ◌+ℤ◌
one_more m lo hi = ground arith

-- The comment in the source wants markers to be unique. If the marker of the last commit is that of
-- the last settle, between 0 and 2 ^ 31 - 2, and `g_parms` has eight entries, a commit has one of two
-- effects. Either it adds nothing to the request and leaves parameters, stamp, cache and flag as they
-- were; or it takes the next marker, and if the next round of the settle thread is due, the symbols
-- for the device are found and it opens, this round sends one update, under that very marker.
pub commit_then_settle-collide :
    (e e' : Env) (a : Args) (s : Shim)
    → length s.parms ≡ epdc_damage_max
    → pos 0 ≤ℤ s.settle_marker
    → s.settle_marker <ℤ pos (2 ^ 31 - 1)
    → marker_of s.parms ≡ s.settle_marker
    → settle_due e' (commit e a s).0 ≡ true
    → (commit e a s).0.symbols.open_ && (commit e a s).0.symbols.ioctl ≡ true
    → pos 0 ≤ℤ e'.ebc_fd
    → IsKept s (commit e a s)
      ⊎ ((marker_of (commit e a s).0.parms ≡ marker_of s.parms +ℤ pos 1)
          × (u : Upd) × (sent (settle_round e' (commit e a s).0).1 ≡ u ∷ [])
          × (u.update_marker ≡ marker_of (commit e a s).0.parms))
commit_then_settle-collide e e' a s eight lo hi level due there opens =
    elim (commit-Effect e a s eight) [
      | inl k ↦ inl k
      | inr d ↦
          let s' = (commit e a s).0 in
          let same = commit-settles e a s in
          let up : marker_of s'.parms ≡ s.settle_marker +ℤ pos 1 =
            d.marker ∙ ap (λ m. int32 (m +ℤ pos 1)) level ∙ one_more s.settle_marker lo hi in
          let (u, one, under) =
            settle_marker-collides e' s' (rw same lo) (rw same hi) (rw same up) due there opens in
          inr (up ∙ ap (λ m. m +ℤ pos 1) (sym level), u, one, under)
    ]
