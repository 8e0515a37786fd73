-- ===== src/Shim/Commit/Same/Frames.antt =====
-- The signature of the frame buffers tells one frame from the next, as long as one of them changes.
use palma2pro_eos.Base.{
  ℕ, ◌+◌, ◌*◌, ◌%◌, ◌^◌, ◌<◌, ◌≡◌, ◌≢◌, refl, sym, ap, ◌∙◌, ◌⊎◌, inl, inr, false, List, [], ◌∷◌,
  ◌++◌, arith, length, Any, Bool-cases, ◌==◌, ==_iff, subst,
}
use palma2pro_eos.Shim.State.{Pend, Shim, Env, epdc_damage_max}
use palma2pro_eos.Shim.Tunables.{now_ms}
use palma2pro_eos.Shim.Damage.{attach_damage, unusable}
use palma2pro_eos.Shim.Commit.{Args, fb_sig, commit, throttled, since_inject}
use palma2pro_eos.Shim.Commit.Drive.{IsKept}
use palma2pro_eos.Shim.Commit.Effect.{attach_damage-IsQuiet}
use palma2pro_eos.Shim.Commit.Lost.{refreshed, refreshed-parms}
use palma2pro_eos.Shim.Commit.Planes.{Ready}
use palma2pro_eos.Shim.Commit.Shown.{Shows, Drives-Shows, refreshed-Ready, pace-Drives}
use palma2pro_eos.Shim.Commit.Same.{
  refreshed-pend, IsFallback, Idle, Idle-sig, told, told-IsKept, commit-same, commit-new,
  commit-sig,
}

-- The signature of the frame is fixed by what follows in it and by its value so far.
fb_sig-injective :
    (ps : List Pend) (m n : ℕ) → m < 2 ^ 32 → n < 2 ^ 32 → m ≢ n → fb_sig ps m ≢ fb_sig ps n
unfolding fb_sig
fb_sig-injective [] m n hm hn d = d
fb_sig-injective (p ∷ ps) m n hm hn d =
    fb_sig-injective ps ((m * 31 + p.obj * 131 + p.fb) % 2 ^ 32)
      ((n * 31 + p.obj * 131 + p.fb) % 2 ^ 32) (omega arith) (omega arith)
      (λ e. d (omega (arith, e)))

fb_sig-append : (xs ys : List Pend) (n : ℕ) → fb_sig (xs ++ ys) n ≡ fb_sig ys (fb_sig xs n)
unfolding fb_sig
fb_sig-append [] ys n = refl
fb_sig-append (x ∷ xs) ys n = fb_sig-append xs ys _

-- the composer's request with the buffer `fb` on the plane `obj`, between other objects
abbrev pub frame : List Pend → ℕ → ℕ → List Pend → List Pend
frame xs obj fb ys = xs ++ record { obj = obj; fb = fb } ∷ ys

frame-signature :
    (xs ys : List Pend) (obj f g : ℕ)
    → f < 2 ^ 32
    → g < 2 ^ 32
    → f ≢ g
    → fb_sig (frame xs obj f ys) 0 ≢ fb_sig (frame xs obj g ys) 0
unfolding fb_sig
frame-signature xs ys obj f g hf hg d =
    let n = fb_sig xs 0 in
    λ e.
      fb_sig-injective ys ((n * 31 + obj * 131 + f) % 2 ^ 32) ((n * 31 + obj * 131 + g) % 2 ^ 32)
        (omega arith) (omega arith) (λ q. d (omega (arith, q)))
        (sym (fb_sig-append xs (record { obj = obj; fb = f } ∷ ys) 0)
          ∙ e
          ∙ fb_sig-append xs (record { obj = obj; fb = g } ∷ ys) 0)

module _ (e₀ e : Env) (a₀ a : Args) (s₀ s : Shim) where
  -- what the shim knows of the frame before
  last_frame : IsFallback e₀ a₀ s₀ → Idle (commit e₀ a₀ s₀).0 s → s.last_fb_sig ≡ fb_sig s₀.pend 0
  last_frame fall₀ idle = Idle-sig idle ∙ commit-sig e₀ a₀ s₀ fall₀

  again-IsKept :
      IsFallback e₀ a₀ s₀
      → Idle (commit e₀ a₀ s₀).0 s
      → IsFallback e a s
      → fb_sig s.pend 0 ≡ fb_sig s₀.pend 0
      → IsKept s (commit e a s)
  again-IsKept fall₀ idle fall same =
      rw (commit-same e a s fall (same ∙ sym (last_frame fall₀ idle))) (
        told-IsKept e a s fall (attach_damage e (refreshed e s)).1
          (attach_damage-IsQuiet e (refreshed e s)))

new-Shows :
    (x y obj parms cnt : ℕ) (e : Env) (a : Args) (s : Shim)
    → parms ≢ 0
    → cnt ≢ 0
    → Any (λ p. p.obj ≡ obj) s.pend
    → Ready e obj parms cnt (length s.pend) s.cache (refreshed e s).symbols
    → x < 1648
    → y < 824
    → IsFallback e a s
    → fb_sig s.pend 0 ≢ s.last_fb_sig
    → length s.parms ≡ epdc_damage_max
    → throttled
        (refreshed e s)
        (since_inject (now_ms e (refreshed e s).symbols) (refreshed e s).last_inject_ms)
      ≡ false
    → Shows x y obj parms cnt e a (commit e a s)
unfolding told unusable throttled
new-Shows x y obj parms cnt e a s np nc here ready hx hy fall new eight go =
    let s₂ : Shim = record (told e a s fall) { last_fb_sig = fb_sig s.pend 0 } in
    rw (commit-new e a s fall new) (
      Drives-Shows x y obj parms cnt e a s₂ _ np nc
        (subst (λ ps. Any (λ p. p.obj ≡ obj) ps) (sym (refreshed-pend e s)) here)
        (refreshed-Ready e s obj parms cnt ready)
        (pace-Drives x y hx hy e a (unusable (refreshed e s).last_dmg_seq) s₂
          (attach_damage e (refreshed e s)).1 (ap length (refreshed-parms e s) ∙ eight)
          (omega arith) (inr (inl refl)) go))

-- Without SurfaceFlinger's damage: the shim has met a frame, drawn or not, by a commit that is no
-- validation pass, and meets the next one, which has the same objects in the same order and the
-- same buffers but for one plane. In between there are any property calls, validation passes and
-- rounds of the settle thread, and for both commits the shim is enabled, `skipsame` is on, FB_ID is
-- known and the attempt to attach fails. If `g_parms` has eight entries and the interval has
-- passed, the second commit leaves the panel alone if the buffer on that plane is the same. Else,
-- for each pixel of the panel, and each plane of the request whose two ids, not 0, the shim has or
-- can learn (the object is new, libdrm gives it properties of the two names, each with one id,
-- libdrm's two functions are found, and the cache has room for the objects of the request), it adds
-- to the request the address of the parameters and right behind it a count, under these ids, and
-- among that many entries of the parameters, as it leaves them, is a rectangle that holds the
-- pixel.
pub next_frame :
    (x y : ℕ) (e₀ e : Env) (a₀ a : Args) (s₀ s : Shim) (xs ys : List Pend)
    (obj f g target parms cnt : ℕ)
    → x < 1648
    → y < 824
    → f < 2 ^ 32
    → g < 2 ^ 32
    → IsFallback e₀ a₀ s₀
    → s₀.pend ≡ frame xs obj f ys
    → Idle (commit e₀ a₀ s₀).0 s
    → IsFallback e a s
    → s.pend ≡ frame xs obj g ys
    → parms ≢ 0
    → cnt ≢ 0
    → Any (λ p. p.obj ≡ target) s.pend
    → Ready e target parms cnt (length s.pend) s.cache (refreshed e s).symbols
    → length s.parms ≡ epdc_damage_max
    → throttled
        (refreshed e s)
        (since_inject (now_ms e (refreshed e s).symbols) (refreshed e s).last_inject_ms)
      ≡ false
    → ((f ≡ g) × IsKept s (commit e a s))
      ⊎ ((f ≢ g) × Shows x y target parms cnt e a (commit e a s))
next_frame x y e₀ e a₀ a s₀ s xs ys obj f g target parms cnt hx hy hf hg fall₀ old idle fall now np
      nc here ready eight go =
    elim (Bool-cases (f == g)) [
      | inl same ↦
          let h : f ≡ g = (==_iff f g).0 same in
          inl (
            h,
            again-IsKept e₀ e a₀ a s₀ s fall₀ idle fall (
                ap (λ l. fb_sig l 0) now
                ∙ ap (λ b. fb_sig (frame xs obj b ys) 0) (sym h)
                ∙ sym (ap (λ l. fb_sig l 0) old)),
          )
      | inr other ↦
          let d : f ≢ g = ground arith in
          inr (
            d,
            new-Shows x y target parms cnt e a s np nc here ready hx hy fall
                (λ h. frame-signature xs ys obj f g hf hg d (
                  sym (ap (λ l. fb_sig l 0) old)
                  ∙ sym (last_frame e₀ e a₀ a s₀ s fall₀ idle)
                  ∙ sym h
                  ∙ ap (λ l. fb_sig l 0) now))
                eight go,
          )
    ]

two_words :
    (m k f g : ℕ)
    → ((m + (f + 1)) % 2 ^ 32 * 31 + k + g) % 2 ^ 32
      ≡ ((m + f) % 2 ^ 32 * 31 + k + (g + 31)) % 2 ^ 32
two_words m k f g = omega arith

two-signature :
    (xs ys : List Pend) (o q f g : ℕ)
    → fb_sig (frame xs o (f + 1) (record { obj = q; fb = g } ∷ ys)) 0
      ≡ fb_sig (frame xs o f (record { obj = q; fb = g + 31 } ∷ ys)) 0
unfolding fb_sig
two-signature xs ys o q f g =
    let n = fb_sig xs 0 in
    fb_sig-append xs (record { obj = o; fb = f + 1 } ∷ record { obj = q; fb = g } ∷ ys) 0
    ∙ ap (fb_sig ys) (two_words (n * 31 + o * 131) (q * 131) f g)
    ∙ sym (fb_sig-append xs (record { obj = o; fb = f } ∷ record { obj = q; fb = g + 31 } ∷ ys) 0)

-- Without SurfaceFlinger's damage, as long as the shim is enabled with `skipsame` on: if of two
-- neighbours in the request the buffer of the first goes up by one and that of the second down by
-- 31, the new frame is taken for the old one. The commit leaves the panel alone, whatever the
-- clock says.
pub two_frames-collide :
    (e₀ e : Env) (a₀ a : Args) (s₀ s : Shim) (xs ys : List Pend) (o q f g : ℕ)
    → IsFallback e₀ a₀ s₀
    → s₀.pend ≡ frame xs o f (record { obj = q; fb = g + 31 } ∷ ys)
    → Idle (commit e₀ a₀ s₀).0 s
    → IsFallback e a s
    → s.pend ≡ frame xs o (f + 1) (record { obj = q; fb = g } ∷ ys)
    → IsKept s (commit e a s)
two_frames-collide e₀ e a₀ a s₀ s xs ys o q f g fall₀ old idle fall now =
    again-IsKept e₀ e a₀ a s₀ s fall₀ idle fall
      (ap (λ l. fb_sig l 0) now ∙ two-signature xs ys o q f g ∙ sym (ap (λ l. fb_sig l 0) old))
