-- ===== src/Publish/Shown.antt =====
-- From SurfaceFlinger's damage to the panel: `publishEpdcDamage`, the seqlock, `read_damage` and
-- `drmModeAtomicCommit` together.
use palma2pro_eos.Base.{
  ℕ, ◌<◌, ◌≡◌, ◌≢◌, refl, ap, sym, subst, ◌∙◌, Bool, true, false, ◌⊎◌, inl, inr, List, length, Any,
}
use palma2pro_eos.Base.Int.{ℤ, pos}
use palma2pro_eos.Shim.State.{Rect, Shim, Env, Attempt, epdc_damage_max}
use palma2pro_eos.Shim.Tunables.{now_ms}
use palma2pro_eos.Shim.Damage.{Read, accepts, accepted, unusable, read_damage}
use palma2pro_eos.Shim.Damage.Reads.{IsResult, read_damage-IsResult}
use palma2pro_eos.Shim.Parms.Panel.{IsDamaged}
use palma2pro_eos.Shim.Commit.{Args, is_test_only, commit, throttled, since_inject}
use palma2pro_eos.Shim.Commit.Lost.{refreshed, refreshed-attached}
use palma2pro_eos.Shim.Commit.Planes.{Ready}
use palma2pro_eos.Shim.Commit.Shown.{Shows, commit-Shows}
use palma2pro_eos.Seqlock.{Cells, attempt_of, attempt_at}
use palma2pro_eos.Seqlock.Safety.{accepted-untorn}
use palma2pro_eos.Seqlock.Reads.{Made}
use palma2pro_eos.Publish.{publication}
use palma2pro_eos.Publish.Rects.{IsChanged, Bounds, publication-IsDamaged}

-- It is what `publishEpdcDamage` writes for a region in which the pixel has changed.
pub record Publishes (get_bounds : List Rect → Rect) (x y : ℕ) (p : Cells) : Type 0 where
  pub damage : List Rect
  pub force : Bool
  pub changed : IsChanged x y damage force
  pub written : p ≡ publication get_bounds damage force

-- An attempt made against the running writer, whose publication is one in which the pixel has
-- changed.
pub record Meets (get_bounds : List Rect → Rect) (junk : ℕ → ℤ) (x y : ℕ) (b : Attempt)
    : Type 0 where
  pub made : Made junk b
  pub publishes : Publishes get_bounds x y (made.system.published made.v)

module _ (get_bounds : List Rect → Rect) (junk : ℕ → ℤ) (x y : ℕ) (holds : Bounds get_bounds) where
  Meets-IsDamaged :
      (b : Attempt) (last : ℕ)
      → Meets get_bounds junk x y b
      → accepts b ≡ true
      → IsDamaged x y (accepted b last).rects (accepted b last).full
  Meets-IsDamaged b last meets ok =
      let m = meets.made in
      let p = meets.publishes in
      let passes : accepts (attempt_of m.system m.v m.n m.f m.got) ≡ true =
        subst (λ z. accepts z ≡ true) m.same ok in
      let read : accepted b last
          ≡ accepted (attempt_at m.v (publication get_bounds p.damage p.force)) last =
        ap (λ z. accepted z last) m.same
        ∙ accepted-untorn m.v m.n m.f m.got last m.reach m.done m.few passes
        ∙ ap (λ c. accepted (attempt_at m.v c) last) p.written in
      subst (λ (r : Read). IsDamaged x y r.rects r.full) (sym read)
        (publication-IsDamaged get_bounds x y p.damage p.force m.v last holds p.changed)

  IsResult-IsDamaged :
      (look : ℕ → Attempt) (last : ℕ) (r : Read)
      → ((j : ℕ) → (accepts (look j) ≡ false) ⊎ Meets get_bounds junk x y (look j))
      → IsResult look 0 4 last r
      → IsDamaged x y r.rects r.full
  unfolding unusable
  IsResult-IsDamaged look last r meets (inr (none_ok, e)) =
      subst (λ (q : Read). IsDamaged x y q.rects q.full) (sym e) (inr (inl refl))
  IsResult-IsDamaged look last r meets (inl (j, f, e)) = elim (meets j) [
    | inl torn ↦ absurd (cc (torn, f.taken))
    | inr m ↦
        subst (λ (q : Read). IsDamaged x y q.rects q.full) (sym e)
          (Meets-IsDamaged (look j) last m f.taken)
  ]

-- From the region to the panel. Take a pixel of the panel, and a commit during which every attempt
-- to read the damage either fails its checks or is made, in any interleaving, against a writer
-- whose publication is that of a region in which the pixel has changed, with fewer than 2 ^ 32
-- stores to `seq` meanwhile. The shim is attached and enabled, with eight entries in `g_parms`; the
-- commit is no validation pass, takes the damage as new, and the interval has passed. Then for each
-- plane of the request whose two ids, not 0, the shim has or can learn (the object is new, libdrm
-- gives it properties of the two names, each with one id, libdrm's two functions are found, and the
-- cache has room for the objects of the request), the commit adds to the request the address of the
-- parameters and right behind it a count, under these ids, and among that many entries of the
-- parameters, as it leaves them, is a rectangle that holds the pixel. This is so whichever way the
-- region was written: rectangle by rectangle, as its bounds, or as a full refresh.
pub changed_pixel-Shows :
    (get_bounds : List Rect → Rect) (junk : ℕ → ℤ) (x y obj parms cnt : ℕ) (e : Env) (a : Args)
    (s : Shim)
    → parms ≢ 0
    → cnt ≢ 0
    → Any (λ p. p.obj ≡ obj) s.pend
    → Ready e obj parms cnt (length s.pend) s.cache (refreshed e s).symbols
    → Bounds get_bounds
    → x < 1648
    → y < 824
    → ((j : ℕ) → (accepts (e.attempt j) ≡ false) ⊎ Meets get_bounds junk x y (e.attempt j))
    → length s.parms ≡ epdc_damage_max
    → s.attached ≡ true
    → is_test_only a.flags ≡ false
    → (refreshed e s).tunables.enable ≢ pos 0
    → (read_damage e (refreshed e s)).changed ≡ true
    → throttled
        (refreshed e s)
        (since_inject (now_ms e (refreshed e s).symbols) (refreshed e s).last_inject_ms)
      ≡ false
    → Shows x y obj parms cnt e a (commit e a s)
changed_pixel-Shows get_bounds junk x y obj parms cnt e a s np nc here ready holds hx hy meets eight
      h real on new go =
    commit-Shows x y hx hy e a obj parms cnt s np nc here ready eight h real on new go (
      IsResult-IsDamaged get_bounds junk x y holds e.attempt (refreshed e s).last_dmg_seq _ meets
        (read_damage-IsResult e (refreshed e s) (refreshed-attached e s ∙ h)).0)
