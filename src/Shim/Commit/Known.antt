-- ===== src/Shim/Commit/Known.antt =====
-- What a commit does to the sequence number that the shim knows.
use palma2pro_eos.Base.{◌≡◌, refl, ◌∙◌, ◌⊎◌, inl, inr, ◌||◌, List, arith, Bool-cases}
use palma2pro_eos.Base.Int.{ℤ, pos, eqb_ℤ}
use palma2pro_eos.Shim.State.{Shim, Env, Call}
use palma2pro_eos.Shim.Tunables.{now_ms}
use palma2pro_eos.Shim.Damage.{Read, attach_damage, read_damage}
use palma2pro_eos.Shim.Parms.{init_parms}
use palma2pro_eos.Shim.Commit.{
  Args, is_test_only, forward, skip_same, drive, pace, react, show, commit, throttled, since_inject,
}
use palma2pro_eos.Shim.Commit.Drive.{submit-same}
use palma2pro_eos.Shim.Commit.Lost.{refreshed, refreshed-last}

module _ (e : Env) (a : Args) where
  drive-last :
      (r : Read) (dt : ℤ) (s : Shim) (calls : List Call)
      → (drive e a r dt s calls).0.last_dmg_seq ≡ s.last_dmg_seq
  unfolding drive init_parms
  drive-last r dt s calls = (submit-same e a _ _ calls).last

  pace-last :
      (r : Read) (s : Shim) (calls : List Call)
      → (pace e a r s calls).0.last_dmg_seq ≡ s.last_dmg_seq
  unfolding pace forward
  pace-last r s calls =
      let t = now_ms e s.symbols in
      let dt = since_inject t s.last_inject_ms in
      elim (Bool-cases (throttled s dt)) [
        | inl wait ↦ rw wait refl
        | inr go ↦ rw go (drive-last r dt (record s { last_inject_ms = t }) calls)
      ]

  skip_same-last : (r : Read) (s : Shim) → (skip_same r s).1.last_dmg_seq ≡ s.last_dmg_seq
  unfolding skip_same
  skip_same-last r s = ground arith

  react-last :
      (r : Read) (s : Shim) (calls : List Call)
      → (react e a r s calls).0.last_dmg_seq ≡ s.last_dmg_seq
  unfolding react forward
  react-last r s calls = elim (Bool-cases (skip_same r s).0) [
    | inl same ↦ rw same (skip_same-last r s)
    | inr new ↦ rw new (pace-last r (skip_same r s).1 calls ∙ skip_same-last r s)
  ]

  -- A commit leaves the number that it knew, or the one that `read_damage` has found.
  pub commit-last :
      (s : Shim)
      → ((commit e a s).0.last_dmg_seq ≡ s.last_dmg_seq)
        ⊎ ((commit e a s).0.last_dmg_seq
            ≡ (read_damage e (attach_damage e (refreshed e s)).0).last_dmg_seq)
  unfolding commit show forward
  commit-last s =
      let s₁ = refreshed e s in
      elim (Bool-cases (is_test_only a.flags || eqb_ℤ s₁.tunables.enable (pos 0))) [
        | inl off ↦ rw off (inl (refreshed-last e s))
        | inr on ↦ rw on (inr (react-last _ _ (attach_damage e s₁).1))
      ]
