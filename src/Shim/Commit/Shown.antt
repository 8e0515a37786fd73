-- ===== src/Shim/Commit/Shown.antt =====
-- What a commit that drives the panel submits for the damage it has read, and to which planes.
use palma2pro_eos.Base.{
  ℕ, ◌<◌, ◌≤◌, ◌≡◌, ◌≢◌, refl, ap, sym, subst, ◌∙◌, true, false, List, [], ◌∷◌, length, take, Any,
}
use palma2pro_eos.Base.Int.{ℤ, pos}
use palma2pro_eos.Shim.State.{Upd, Shim, Env, Call, epdc_damage_max}
use palma2pro_eos.Shim.Tunables.{now_ms}
use palma2pro_eos.Shim.Damage.{Read, read_damage}
use palma2pro_eos.Shim.Damage.Reads.{read_damage-IsResult}
use palma2pro_eos.Shim.Parms.{init_parms}
use palma2pro_eos.Shim.Parms.Panel.{Contains, IsDamaged, init_parms-Contains}
use palma2pro_eos.Shim.Commit.{
  Args, is_test_only, skip_same, bump_marker, submit, drive, pace, react, commit, throttled,
  since_inject,
}
use palma2pro_eos.Shim.Commit.Drive.{submit-parms}
use palma2pro_eos.Shim.Commit.Lost.{refreshed, refreshed-attached, refreshed-parms, commit-attached}
use palma2pro_eos.Shim.Commit.Same.{refreshed-pend}
use palma2pro_eos.Shim.Commit.Effect.{refresh-SameEarly}
use palma2pro_eos.Shim.Commit.Planes.{Adds, Ready}
use palma2pro_eos.Shim.Commit.Planes.Reached.{SamePlanes, submit-Adds}

-- The plane gets the address of the parameters and a count, and one of that many entries of the
-- parameters, as the commit leaves them, holds the pixel.
pub record Shows (x y obj parms cnt : ℕ) (e : Env) (a : Args) (out : Shim × List Call × ℤ)
    : Type 0 where
  pub count : ℕ
  pub added : Adds e a.req obj parms cnt count out.1
  pub shown : Any (λ u. Contains x y u.rect) (take count out.0.parms)

-- The commit ends by submitting entries for the planes of `s`, one of which holds the pixel.
pub record Drives (x y : ℕ) (e : Env) (a : Args) (s : Shim) (out : Shim × List Call × ℤ)
    : Type 0 where
  pub count : ℕ
  pub state : Shim
  pub calls : List Call
  pub submitted : out ≡ submit e a count state calls
  pub shown : Any (λ u. Contains x y u.rect) (take count state.parms)
  pub same : SamePlanes s state

Drives-move :
    (x y : ℕ) (e : Env) (a : Args) (s t : Shim) (out : Shim × List Call × ℤ)
    → SamePlanes s t
    → Drives x y e a t out
    → Drives x y e a s out
Drives-move x y e a s t out f d = record {
  count = d.count;
  state = d.state;
  calls = d.calls;
  submitted = d.submitted;
  shown = d.shown;
  same = record {
    pend = d.same.pend ∙ f.pend;
    cache = d.same.cache ∙ f.cache;
    symbols = d.same.symbols ∙ f.symbols;
  };
}

pub Drives-Shows :
    (x y obj parms cnt : ℕ) (e : Env) (a : Args) (s : Shim) (out : Shim × List Call × ℤ)
    → parms ≢ 0
    → cnt ≢ 0
    → Any (λ p. p.obj ≡ obj) s.pend
    → Ready e obj parms cnt (length s.pend) s.cache s.symbols
    → Drives x y e a s out
    → Shows x y obj parms cnt e a out
Drives-Shows x y obj parms cnt e a s out some_parms some_cnt here ready d = record {
  count = d.count;
  added =
      subst (λ (o : Shim × List Call × ℤ). Adds e a.req obj parms cnt d.count o.1) (sym d.submitted)
        (submit-Adds e a obj parms cnt some_parms some_cnt d.count d.state d.calls
          (subst (λ ps. Any (λ p. p.obj ≡ obj) ps) (sym d.same.pend) here)
          (rw (d.same.pend, d.same.cache, d.same.symbols) ready));
  shown =
      subst (λ us. Any (λ u. Contains x y u.rect) (take d.count us))
        (sym (submit-parms e a d.count d.state d.calls)
          ∙ sym (ap (λ (o : Shim × List Call × ℤ). o.0.parms) d.submitted))
        d.shown;
}

length-bump_marker : (parms : List Upd) → length (bump_marker parms) ≡ length parms
unfolding bump_marker
length-bump_marker [] = refl
length-bump_marker (u ∷ us) = refl

-- Reading the tunables changes nothing that makes a plane ready.
pub refreshed-Ready :
    (e : Env) (s : Shim) (obj parms cnt : ℕ)
    → Ready e obj parms cnt (length s.pend) s.cache (refreshed e s).symbols
    → Ready e obj parms cnt
        (length (refreshed e s).pend)
        (refreshed e s).cache
        (refreshed e s).symbols
refreshed-Ready e s obj parms cnt ready =
    rw (refreshed-pend e s, (refresh-SameEarly e s).cache) ready

module _ (x y : ℕ) (hx : x < 1648) (hy : y < 824) (e : Env) (a : Args) where
  drive-Drives :
      (r : Read) (dt : ℤ) (s : Shim) (calls : List Call)
      → length s.parms ≡ epdc_damage_max
      → length r.rects ≤ epdc_damage_max
      → IsDamaged x y r.rects r.full
      → Drives x y e a s (drive e a r dt s calls)
  unfolding drive init_parms
  drive-Drives r dt s calls eight fits h =
      let t : Shim = record s { parms = bump_marker s.parms } in
      let out = init_parms dt r.rects r.full t in
      record {
        count = out.1;
        state = out.0;
        calls = calls;
        submitted = refl;
        shown =
            init_parms-Contains x y dt r.rects r.full t (length-bump_marker s.parms ∙ eight) fits hx
              hy h;
        same = record { pend = refl; cache = refl; symbols = refl };
      }

  pub pace-Drives :
      (r : Read) (s : Shim) (calls : List Call)
      → length s.parms ≡ epdc_damage_max
      → length r.rects ≤ epdc_damage_max
      → IsDamaged x y r.rects r.full
      → throttled s (since_inject (now_ms e s.symbols) s.last_inject_ms) ≡ false
      → Drives x y e a s (pace e a r s calls)
  unfolding pace
  pace-Drives r s calls eight fits h go =
      let t : Shim = record s { last_inject_ms = now_ms e s.symbols } in
      rw go (
        Drives-move x y e a s t _ (record { pend = refl; cache = refl; symbols = refl })
          (drive-Drives r _ t calls eight fits h))

  react-new :
      (r : Read) (s : Shim)
      → s.attached ≡ true
      → r.changed ≡ true
      → react e a r s [] ≡ pace e a r s []
  unfolding react skip_same
  react-new r s h c = simp (h, c)

  -- The shim is attached and enabled, with eight entries in `g_parms`; the commit is no validation
  -- pass, reads new damage, and the interval has passed. Then it drives the panel, with every pixel
  -- that what it has read asks for.
  pub commit-Drives :
      (s : Shim)
      → length s.parms ≡ epdc_damage_max
      → s.attached ≡ true
      → is_test_only a.flags ≡ false
      → (refreshed e s).tunables.enable ≢ pos 0
      → (read_damage e (refreshed e s)).changed ≡ true
      → throttled
          (refreshed e s)
          (since_inject (now_ms e (refreshed e s).symbols) (refreshed e s).last_inject_ms)
        ≡ false
      → IsDamaged x y (read_damage e (refreshed e s)).rects (read_damage e (refreshed e s)).full
      → Drives x y e a (refreshed e s) (commit e a s)
  unfolding throttled
  commit-Drives s eight h real on new go asked =
      let s₁ = refreshed e s in
      let r = read_damage e s₁ in
      let t : Shim = record s₁ { last_dmg_seq = r.last_dmg_seq } in
      let h₁ = refreshed-attached e s ∙ h in
      rw (commit-attached e a s real on h ∙ react-new r t h₁ new) (
        Drives-move x y e a s₁ t _ (record { pend = refl; cache = refl; symbols = refl })
          (pace-Drives r t [] (ap length (refreshed-parms e s) ∙ eight)
            (read_damage-IsResult e s₁ h₁).1 asked go))

  module _ (obj parms cnt : ℕ) where
    pub commit-Shows :
        (s : Shim)
        → parms ≢ 0
        → cnt ≢ 0
        → Any (λ p. p.obj ≡ obj) s.pend
        → Ready e obj parms cnt (length s.pend) s.cache (refreshed e s).symbols
        → length s.parms ≡ epdc_damage_max
        → s.attached ≡ true
        → is_test_only a.flags ≡ false
        → (refreshed e s).tunables.enable ≢ pos 0
        → (read_damage e (refreshed e s)).changed ≡ true
        → throttled
            (refreshed e s)
            (since_inject (now_ms e (refreshed e s).symbols) (refreshed e s).last_inject_ms)
          ≡ false
        → IsDamaged x y (read_damage e (refreshed e s)).rects (read_damage e (refreshed e s)).full
        → Shows x y obj parms cnt e a (commit e a s)
    commit-Shows s some_parms some_cnt here ready eight h real on new go asked =
        Drives-Shows x y obj parms cnt e a (refreshed e s) _ some_parms some_cnt
          (subst (λ ps. Any (λ p. p.obj ≡ obj) ps) (sym (refreshed-pend e s)) here)
          (refreshed-Ready e s obj parms cnt ready) (commit-Drives s eight h real on new go asked)
