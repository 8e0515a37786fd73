-- ===== src/Shim/Commit/Same.antt =====
-- The shim without SurfaceFlinger's damage: a commit is told from the last one by the signature of
-- the frame buffers that the composer has put in the request.
pub mod Frames
use palma2pro_eos.Base.{
  ℕ, ◌+◌, ◌*◌, ◌%◌, ◌^◌, ◌<◌, ◌≤◌, ◌≡◌, ◌≢◌, refl, sym, ap, ◌∙◌, ◌⊎◌, inl, inr, true, false, not,
  ◌==◌, ==_iff, ◌||◌, List, [], ◌∷◌, ◌++◌, arith, length, All, Bool-cases,
}
use palma2pro_eos.Base.Int.{ℤ, pos, eqb_ℤ}
use palma2pro_eos.Shim.State.{Pend, Shim, Env, Call, epdc_damage_max}
use palma2pro_eos.Shim.Tunables.{now_ms, resolve, refresh_tunables}
use palma2pro_eos.Shim.Damage.{try_attach, attach_damage, unusable, read_damage}
use palma2pro_eos.Shim.Parms.{init_parms}
use palma2pro_eos.Shim.Request.{add_property}
use palma2pro_eos.Shim.Settle.{settle_now, settle_round}
use palma2pro_eos.Shim.Commit.{
  Args, is_test_only, forward, fb_sig, skip_same, drive, pace, react, show, commit, throttled,
  since_inject,
}
use palma2pro_eos.Shim.Commit.Drive.{IsQuiet, IsKept, forward-IsKept, submit-same}
use palma2pro_eos.Shim.Commit.Lost.{refreshed, refreshed-parms}

-- A commit that is no validation pass, with the shim enabled, no damage mapping even after the
-- attempt to attach, `skipsame` on, and the property FB_ID known.
pub record IsFallback (e : Env) (a : Args) (s : Shim) : Type 0 where
  pub real : is_test_only a.flags ≡ false
  pub enabled : (refreshed e s).tunables.enable ≢ pos 0
  pub apart : (attach_damage e (refreshed e s)).0.attached ≡ false
  pub skips : (refreshed e s).tunables.skipsame ≢ pos 0
  pub known : s.fbid_prop ≢ 0

-- What the shim does between two commits of a frame: the composer assembles its request and has it
-- validated, and the settle thread makes its rounds.
pub data Idle (s : Shim) : Shim → Type 0 where
  rest : Idle s s
  adds :
      {t : Shim}
      → Idle s t
      → (e : Env) (req obj prop value : ℕ) → Idle s (add_property e req obj prop value t).0
  settles : {t : Shim} → Idle s t → (e : Env) → Idle s (settle_round e t).0
  validates :
      {t : Shim}
      → Idle s t
      → (e : Env) (a : Args) → is_test_only a.flags ≡ true
      → Idle s (commit e a t).0

add-sig :
    (e : Env) (req obj prop value : ℕ) (s : Shim)
    → (add_property e req obj prop value s).0.last_fb_sig ≡ s.last_fb_sig
unfolding add_property resolve
add-sig e req obj prop value s = ground arith

settle-sig : (e : Env) (s : Shim) → (settle_round e s).0.last_fb_sig ≡ s.last_fb_sig
unfolding settle_round settle_now
settle-sig e s = ground arith

refreshed-sig : (e : Env) (s : Shim) → (refreshed e s).last_fb_sig ≡ s.last_fb_sig
unfolding refresh_tunables resolve
refreshed-sig e s = ground arith

pub refreshed-pend : (e : Env) (s : Shim) → (refreshed e s).pend ≡ s.pend
unfolding refresh_tunables resolve
refreshed-pend e s = ground arith

refreshed-fbid : (e : Env) (s : Shim) → (refreshed e s).fbid_prop ≡ s.fbid_prop
unfolding refresh_tunables resolve
refreshed-fbid e s = ground arith

refreshed-stamp : (e : Env) (s : Shim) → (refreshed e s).last_inject_ms ≡ s.last_inject_ms
unfolding refresh_tunables resolve
refreshed-stamp e s = ground arith

refreshed-cache : (e : Env) (s : Shim) → (refreshed e s).cache ≡ s.cache
unfolding refresh_tunables resolve
refreshed-cache e s = ground arith

refreshed-pending : (e : Env) (s : Shim) → (refreshed e s).settle_pending ≡ s.settle_pending
unfolding refresh_tunables resolve
refreshed-pending e s = ground arith

validate-sig :
    (e : Env) (a : Args) (s : Shim)
    → is_test_only a.flags ≡ true
    → (commit e a s).0.last_fb_sig ≡ s.last_fb_sig
unfolding commit forward
validate-sig e a s h = rw h (refreshed-sig e s)

pub Idle-sig : {s t : Shim} → Idle s t → t.last_fb_sig ≡ s.last_fb_sig
Idle-sig rest = refl
Idle-sig (adds {t} i e req obj prop value) = add-sig e req obj prop value t ∙ Idle-sig i
Idle-sig (settles {t} i e) = settle-sig e t ∙ Idle-sig i
Idle-sig (validates {t} i e a h) = validate-sig e a t h ∙ Idle-sig i

-- Beyond the mapping, an attempt to attach changes its counter alone.
attach_damage_lem :
    (e : Env) (s : Shim)
    → let t = (attach_damage e s).0 in
      t ≡ record s { attached = t.attached; dmg_tried = t.dmg_tried }
unfolding attach_damage try_attach
attach_damage_lem e s = ground arith

module _ (e : Env) (a : Args) (s : Shim) (fall : IsFallback e a s) where
  -- the state in which the frame is told from the last one
  pub told : Shim
  told = record (refreshed e s) {
    attached = false;
    dmg_tried = (attach_damage e (refreshed e s)).0.dmg_tried;
  }

  attached_told : (attach_damage e (refreshed e s)).0 ≡ told
  unfolding told
  attached_told =
      let t = (attach_damage e (refreshed e s)).0 in
      attach_damage_lem e (refreshed e s)
      ∙ ap (λ b. record (refreshed e s) { attached = b; dmg_tried = t.dmg_tried }) fall.apart

  commit-told :
      commit e a s
      ≡ react e a (unusable (refreshed e s).last_dmg_seq) told (attach_damage e (refreshed e s)).1
  unfolding commit show read_damage unusable told
  commit-told =
      let on : eqb_ℤ (refreshed e s).tunables.enable (pos 0) ≡ false =
        ground (arith, fall.enabled) in
      rw (fall.real, on, attached_told) refl

  skipping :
      (not (eqb_ℤ (refreshed e s).tunables.skipsame (pos 0)) ≡ true)
      × (not ((refreshed e s).fbid_prop == 0) ≡ true)
  skipping = (ground (arith, fall.skips), ground (arith, fall.known, refreshed-fbid e s))

  told-pend : told.pend ≡ s.pend
  unfolding told
  told-pend = refreshed-pend e s

  -- A frame with the signature of the last one is passed on.
  pub commit-same :
      fb_sig s.pend 0 ≡ s.last_fb_sig
      → commit e a s ≡ forward e a told (attach_damage e (refreshed e s)).1
  unfolding react skip_same unusable told
  commit-same h =
      let hit : (fb_sig (refreshed e s).pend 0 == (refreshed e s).last_fb_sig) ≡ true =
        rw (refreshed-pend e s, refreshed-sig e s, h) ((==_iff _ _).1 refl) in
      commit-told ∙ rw (skipping.0, skipping.1, hit) refl

  -- Any other is drawn if the interval lets it.
  pub commit-new :
      fb_sig s.pend 0 ≢ s.last_fb_sig
      → commit e a s
        ≡ pace e a
            (unusable (refreshed e s).last_dmg_seq)
            (record told { last_fb_sig = fb_sig s.pend 0 })
            (attach_damage e (refreshed e s)).1
  unfolding react skip_same unusable told
  commit-new h =
      let miss : (fb_sig (refreshed e s).pend 0 == (refreshed e s).last_fb_sig) ≡ false =
        rw (refreshed-pend e s, refreshed-sig e s) (ground (arith, h)) in
      commit-told ∙ rw (skipping.0, skipping.1, miss, refreshed-pend e s) refl

  pace-sig :
      (t : Shim) (calls : List Call)
      → (pace e a (unusable (refreshed e s).last_dmg_seq) t calls).0.last_fb_sig ≡ t.last_fb_sig
  unfolding pace forward drive init_parms
  pace-sig t calls =
      let now = now_ms e t.symbols in
      elim (Bool-cases (throttled t (since_inject now t.last_inject_ms))) [
        | inl wait ↦ rw wait refl
        | inr go ↦ rw go (submit-same e a _ _ calls).sig
      ]

  -- Drawn or not, the frame is the last one from now on.
  pub commit-sig : (commit e a s).0.last_fb_sig ≡ fb_sig s.pend 0
  unfolding forward told
  commit-sig = elim (Bool-cases (fb_sig s.pend 0 == s.last_fb_sig)) [
    | inl e₁ ↦
        let h : fb_sig s.pend 0 ≡ s.last_fb_sig = (==_iff _ _).0 e₁ in
        ap (λ (out : Shim × List Call × ℤ). out.0.last_fb_sig) (commit-same h)
        ∙ refreshed-sig e s
        ∙ sym h
    | inr e₁ ↦
        ap (λ (out : Shim × List Call × ℤ). out.0.last_fb_sig) (commit-new (ground arith))
        ∙ pace-sig (record told { last_fb_sig = fb_sig s.pend 0 })
            (attach_damage e (refreshed e s)).1
  ]

  pub told-IsKept : (calls : List Call) → All IsQuiet calls → IsKept s (forward e a told calls)
  unfolding told
  told-IsKept calls q =
      let k = forward-IsKept e a told calls q in
      record {
        quiet = k.quiet;
        parms = k.parms ∙ refreshed-parms e s;
        stamp = k.stamp ∙ refreshed-stamp e s;
        cache = k.cache ∙ refreshed-cache e s;
        pending = k.pending ∙ refreshed-pending e s;
      }
