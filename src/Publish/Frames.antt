-- ===== src/Publish/Frames.antt =====
-- SurfaceFlinger and the shim taking turns: publications, commits, property calls and rounds of the
-- settle thread in any order, each as a whole.
use palma2pro_eos.Base.{
  ℕ, ◌+◌, ◌*◌, ◌%◌, ◌^◌, ◌<◌, ◌≤◌, ◌≡◌, ◌≢◌, refl, ap, sym, subst, ◌∙◌, true, false, ◌⊎◌, inl, inr,
  List, arith, Any, length,
}
use palma2pro_eos.Base.Int.{ℤ, pos}
use palma2pro_eos.Shim.State.{Rect, Shim, Env, Attempt, init}
use palma2pro_eos.Shim.Tunables.{now_ms, resolve}
use palma2pro_eos.Shim.Damage.{
  Read, accepts, accepted, unusable, attempts, attach_damage, try_attach, read_damage,
}
use palma2pro_eos.Shim.Parms.Panel.{Contains, IsDamaged}
use palma2pro_eos.Shim.Request.{add_property}
use palma2pro_eos.Shim.Settle.{settle_now, settle_round}
use palma2pro_eos.Shim.Commit.{Args, is_test_only, commit, throttled, since_inject}
use palma2pro_eos.Shim.Commit.Lost.{refreshed, refreshed-attached, refreshed-last}
use palma2pro_eos.Shim.Commit.Known.{commit-last}
use palma2pro_eos.Shim.Commit.Planes.{Ready}
use palma2pro_eos.Shim.Commit.Shown.{Shows, commit-Shows}
use palma2pro_eos.Shim.Invariant.Reach.{Reach-IsValid}
use palma2pro_eos.Shim.Invariant.Reach
use palma2pro_eos.Seqlock.{Cells, System, idle, rect_at, attempt_of, attempt_at, start}
use palma2pro_eos.Seqlock
use palma2pro_eos.Seqlock.Safety.{idle_read}
use palma2pro_eos.Publish.{Page, Store, perform_all, publish_stores, publication}
use palma2pro_eos.Publish.Writes.{page_of, Runs, done, also, publish_stores-Runs}
use palma2pro_eos.Publish.Rects.{Bounds, publication-IsDamaged}

-- the mapping after `publishEpdcDamage`
unfoldable pub published : (List Rect → Rect) → List Rect → Page → Page
published get_bounds damage p = perform_all (publish_stores get_bounds damage false p.seq) p

-- an attempt to read the mapping while nothing is stored to it
abbrev pub attempt_on : Page → Attempt
attempt_on p = record {
  s1 = p.seq;
  count = p.cells.count;
  full = p.cells.full;
  rect = rect_at p.cells.cell;
  s2 = p.seq;
}

-- the shim's calls see the mapping
abbrev pub seeing : Page → Env → Env
seeing p e = record e { magic = p.magic; version = p.version; attempt = λ i. attempt_on p }

-- The mapping and the shim's state after `n` publications, and any commits, property calls and
-- rounds of the settle thread between them.
pub data Run (get_bounds : List Rect → Rect) (junk : ℕ → ℤ) : ℕ → Page → Shim → Type 0 where
  begins : Run get_bounds junk 0 (page_of (start junk)) init
  publishes :
      {n : ℕ} {p : Page} {s : Shim} (damage : List Rect)
      → Run get_bounds junk n p s
      → Run get_bounds junk (n + 1) (published get_bounds damage p) s
  commits :
      {n : ℕ} {p : Page} {s : Shim} (e : Env) (a : Args)
      → Run get_bounds junk n p s
      → Run get_bounds junk n p (commit (seeing p e) a s).0
  adds :
      {n : ℕ} {p : Page} {s : Shim} (e : Env) (req obj prop value : ℕ)
      → Run get_bounds junk n p s
      → Run get_bounds junk n p (add_property e req obj prop value s).0
  settles :
      {n : ℕ} {p : Page} {s : Shim} (e : Env)
      → Run get_bounds junk n p s
      → Run get_bounds junk n p (settle_round e s).0

-- The mapping is that of a state of the seqlock after `n` publications.
pub record Holds (junk : ℕ → ℤ) (n : ℕ) (p : Page) : Type 0 where
  pub system : System
  pub reach : Seqlock.Reach junk system
  pub writer : system.writer ≡ idle
  pub ver : system.ver ≡ 2 * n + 2
  pub same : p ≡ page_of system

pub Runs-perform :
    {s t : System} {xs : List Store} → Runs s xs t → perform_all xs (page_of s) ≡ page_of t
unfolding perform_all
Runs-perform done = refl
Runs-perform (also x {xs} w same eff rest) = ap (perform_all xs) eff ∙ Runs-perform rest

pub start-Holds : (junk : ℕ → ℤ) → Holds junk 0 (page_of (start junk))
start-Holds junk = record {
  system = start junk;
  reach = Seqlock.here;
  writer = refl;
  ver = omega arith;
  same = refl;
}

module _ (get_bounds : List Rect → Rect) (junk : ℕ → ℤ) where
  -- one more publication, which is in the mapping
  pub published-Holds :
      (n : ℕ) (p : Page) (damage : List Rect)
      → Holds junk n p
      → (h : Holds junk (n + 1) (published get_bounds damage p)) × (h.system.published h.system.ver
          ≡ publication get_bounds damage false)
  unfolding published
  published-Holds n p damage h =
      let (t, runs, ends, reach) =
        publish_stores-Runs get_bounds damage false junk h.system h.reach h.writer in
      (
        record {
          system = t;
          reach = reach;
          writer = ends.writer;
          ver = ends.ver ∙ omega (arith, h.ver);
          same = rw h.same (Runs-perform runs);
        },
        ends.published,
      )

Holds-even : {junk : ℕ → ℤ} {n : ℕ} {p : Page} → Holds junk n p → p.seq ≡ (2 * n + 2) % 2 ^ 32
Holds-even {n} {p} h = rw h.same (rw h.ver refl)

Holds-accepts : {junk : ℕ → ℤ} {n : ℕ} {p : Page} → Holds junk n p → accepts (attempt_on p) ≡ true
unfolding accepts
Holds-accepts {n} {p} h = ground (arith, Holds-even h)

-- with the mapping attached the first attempt is taken
read_now :
    (p : Page) (e : Env) (s : Shim)
    → accepts (attempt_on p) ≡ true
    → s.attached ≡ true
    → read_damage (seeing p e) s ≡ accepted (attempt_on p) s.last_dmg_seq
unfolding read_damage attempts
read_now p e s ok h = rw (h, ok) refl

attach_damage-last : (e : Env) (s : Shim) → (attach_damage e s).0.last_dmg_seq ≡ s.last_dmg_seq
unfolding attach_damage try_attach
attach_damage-last e s = ground arith

read_damage-last :
    (p : Page) (e : Env) (s : Shim)
    → accepts (attempt_on p) ≡ true
    → ((read_damage (seeing p e) s).last_dmg_seq ≡ s.last_dmg_seq)
      ⊎ ((read_damage (seeing p e) s).last_dmg_seq ≡ p.seq)
unfolding read_damage attempts accepted unusable
read_damage-last p e s ok = ground arith

-- A commit that sees the mapping knows the number it knew, or the mapping's.
commit-knows :
    (p : Page) (e : Env) (a : Args) (s : Shim)
    → accepts (attempt_on p) ≡ true
    → let t = (commit (seeing p e) a s).0 in
      (t.last_dmg_seq ≡ s.last_dmg_seq) ⊎ (t.last_dmg_seq ≡ p.seq)
commit-knows p e a s ok =
    let e' = seeing p e in
    let s₁ = refreshed e' s in
    let s₂ = (attach_damage e' s₁).0 in
    let kept = attach_damage-last e' s₁ ∙ refreshed-last e' s in
    elim (commit-last e' a s) [
      | inl same ↦ inl same
      | inr read ↦ elim (read_damage-last p e s₂ ok) [
        | inl same ↦ inl (read ∙ same ∙ kept)
        | inr new ↦ inr (read ∙ new)
      ]
    ]

add_property-last :
    (e : Env) (req obj prop value : ℕ) (s : Shim)
    → (add_property e req obj prop value s).0.last_dmg_seq ≡ s.last_dmg_seq
unfolding add_property resolve
add_property-last e req obj prop value s = ground arith

settle_round-last : (e : Env) (s : Shim) → (settle_round e s).0.last_dmg_seq ≡ s.last_dmg_seq
unfolding settle_round settle_now
settle_round-last e s = ground arith

-- The shim knows no number that has not been published.
record Inv (junk : ℕ → ℤ) (n : ℕ) (p : Page) (s : Shim) : Type 0 where
  holds : Holds junk n p
  shim : Reach.Reach s
  known : s.last_dmg_seq ≤ 2 * n + 2

module _ {get_bounds : List Rect → Rect} {junk : ℕ → ℤ} where
  Run-Inv : {n : ℕ} {p : Page} {s : Shim} → Run get_bounds junk n p s → Inv junk n p s
  Run-Inv begins = record { holds = start-Holds junk; shim = Reach.start; known = omega arith }
  Run-Inv (publishes {n} {p} damage r) =
      let i = Run-Inv r in
      record {
        holds = (published-Holds get_bounds junk n p damage i.holds).0;
        shim = i.shim;
        known = omega (arith, i.known);
      }
  Run-Inv (commits {n} {p} {s} e a r) =
      let i = Run-Inv r in
      record {
        holds = i.holds;
        shim = Reach.later i.shim (Reach.commits (seeing p e) a);
        known = elim (commit-knows p e a s (Holds-accepts i.holds)) [
          | inl same ↦ omega (arith, i.known, same)
          | inr new ↦ omega (arith, new, Holds-even i.holds)
        ];
      }
  Run-Inv (adds {s} e req obj prop value r) =
      let i = Run-Inv r in
      record {
        holds = i.holds;
        shim = Reach.later i.shim (Reach.add e req obj prop value);
        known = omega (arith, i.known, add_property-last e req obj prop value s);
      }
  Run-Inv (settles {s} e r) =
      let i = Run-Inv r in
      record {
        holds = i.holds;
        shim = Reach.later i.shim (Reach.settles e);
        known = omega (arith, i.known, settle_round-last e s);
      }

-- What is read of a publication is new to a shim that knows only earlier numbers.
read-new :
    (p : Page) (last n : ℕ)
    → p.seq ≡ (2 * (n + 1) + 2) % 2 ^ 32
    → last ≤ 2 * n + 2
    → n < 2147483646
    → (accepted (attempt_on p) last).changed ≡ true
unfolding accepted
read-new p last n seq known few = ground arith

-- SurfaceFlinger has made fewer than 2 ^ 31 - 2 publications since it initialised the mapping, and
-- between them there were any commits, property calls and rounds of the settle thread, from the
-- start of the shim. It now publishes a region, and the next commit comes while nothing is stored.
-- If the shim is attached and enabled, the commit is no validation pass and the interval has
-- passed, then the damage is taken as new: for any pixel of the panel in that region, and each
-- plane of the request whose two ids, not 0, the shim has or can learn (the object is new, libdrm
-- gives it properties of the two names, each with one id, libdrm's two functions are found, and the
-- cache has room for the objects of the request), the commit adds to the request the address of the
-- parameters and right behind it a count, under these ids, and among that many entries of the
-- parameters, as it leaves them, is a rectangle that holds the pixel.
pub next_commit-Shows :
    (get_bounds : List Rect → Rect) (junk : ℕ → ℤ) (x y obj parms cnt n : ℕ) (p : Page) (s : Shim)
    → parms ≢ 0
    → cnt ≢ 0
    → Any (λ p. p.obj ≡ obj) s.pend
    → Bounds get_bounds
    → Run get_bounds junk n p s
    → n < 2147483646
    → x < 1648
    → y < 824
    → (damage : List Rect) (e : Env) (a : Args) → Any (Contains x y) damage
    → Ready
        (seeing (published get_bounds damage p) e)
        obj
        parms
        cnt
        (length s.pend)
        s.cache
        (refreshed (seeing (published get_bounds damage p) e) s).symbols
    → s.attached ≡ true
    → is_test_only a.flags ≡ false
    → (refreshed (seeing (published get_bounds damage p) e) s).tunables.enable ≢ pos 0
    → (let e' = seeing (published get_bounds damage p) e in
        throttled
          (refreshed e' s)
          (since_inject (now_ms e' (refreshed e' s).symbols) (refreshed e' s).last_inject_ms)
        ≡ false)
    → let e' = seeing (published get_bounds damage p) e in
      Shows x y obj parms cnt e' a (commit e' a s)
next_commit-Shows get_bounds junk x y obj parms cnt n p s np nc here holds run few hx hy damage e a
      h ready at real on go =
    commit-Shows x y hx hy e' a obj parms cnt s np nc here ready (Reach-IsValid i.shim).parms at
      real on (new now) go asked
  where
    p' : Page
    p' = published get_bounds damage p

    e' : Env
    e' = seeing p' e

    i : Inv junk n p s
    i = Run-Inv run

    after :
        (h : Holds junk (n + 1) p') × (h.system.published h.system.ver
          ≡ publication get_bounds damage false)
    after = published-Holds get_bounds junk n p damage i.holds

    s₁ : Shim
    s₁ = refreshed e' s

    now : read_damage e' s₁ ≡ accepted (attempt_on p') s₁.last_dmg_seq
    now = read_now p' e s₁ (Holds-accepts after.0) (refreshed-attached e' s ∙ at)

    new :
        read_damage e' s₁ ≡ accepted (attempt_on p') s₁.last_dmg_seq
        → (read_damage e' s₁).changed ≡ true
    new eq =
        ap (λ (r : Read). r.changed) eq
        ∙ read-new p' s₁.last_dmg_seq n (Holds-even after.0)
            (omega (arith, i.known, refreshed-last e' s)) few

    written :
        accepted (attempt_on p') s₁.last_dmg_seq
        ≡ accepted
            (attempt_at after.0.system.ver (publication get_bounds damage false))
            s₁.last_dmg_seq
    written =
        ap (λ q. accepted (attempt_on q) s₁.last_dmg_seq) after.0.same
        ∙ idle_read after.0.reach after.0.writer s₁.last_dmg_seq
        ∙ ap (λ c. accepted (attempt_at after.0.system.ver c) s₁.last_dmg_seq) after.1

    asked : IsDamaged x y (read_damage e' s₁).rects (read_damage e' s₁).full
    asked =
        subst (λ (r : Read). IsDamaged x y r.rects r.full) (sym (now ∙ written))
          (publication-IsDamaged get_bounds x y damage false after.0.system.ver s₁.last_dmg_seq
            holds (inr h))
