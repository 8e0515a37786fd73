-- ===== src/Publish/Attach.antt =====
-- A mapping that SurfaceFlinger initialises while the shim tries to attach.
use palma2pro_eos.Base.{ℕ, zero, suc, ◌≤◌, ◌≡◌, ◌↔◌, sym, refl, ap, ◌∙◌, true, false, arith, take}
use palma2pro_eos.Base.Int.{ℤ, pos, ◌≤ℤ◌}
use palma2pro_eos.Shim.Damage.{try_attach}
use palma2pro_eos.Shim.State.{Shim, Env, epdc_damage_magic, epdc_damage_version}
use palma2pro_eos.Seqlock.{start}
use palma2pro_eos.Publish.{Page, perform, perform_all, init_stores}
use palma2pro_eos.Publish.Writes.{page_of}

-- the mapping with the first `k` of the stores made
abbrev pub after : ℕ → Page → Page
after k p = perform_all (take k init_stores) p

-- a new file holds zeros but for the rectangles
pub record IsNew (junk : ℕ → ℤ) (p : Page) : Type 0 where
  pub magic : p.magic ≡ 0
  pub version : p.version ≡ 0
  pub cell : p.cells.cell ≡ junk

module _ {junk : ℕ → ℤ} {p : Page} (new : IsNew junk p) where
  pub after_all : (k : ℕ) → 5 ≤ k → after k p ≡ page_of (start junk)
  unfolding perform_all perform
  after_all zero h = absurd (omega arith)
  after_all (suc zero) h = absurd (omega arith)
  after_all (suc (suc zero)) h = absurd (omega arith)
  after_all (suc (suc (suc zero))) h = absurd (omega arith)
  after_all (suc (suc (suc (suc zero)))) h = absurd (omega arith)
  after_all (suc (suc (suc (suc (suc zero))))) h = rw new.cell refl
  after_all (suc (suc (suc (suc (suc (suc k)))))) h = rw new.cell refl

  magic_last : (k : ℕ) → (after k p).magic ≡ epdc_damage_magic → 5 ≤ k
  unfolding perform_all perform
  magic_last zero h = absurd (cc (new.magic, h))
  magic_last (suc zero) h = absurd (cc (new.magic, h))
  magic_last (suc (suc zero)) h = absurd (cc (new.magic, h))
  magic_last (suc (suc (suc zero))) h = absurd (cc (new.magic, h))
  magic_last (suc (suc (suc (suc zero)))) h = absurd (cc (new.magic, h))
  magic_last (suc (suc (suc (suc (suc k))))) h = omega arith

try_attach_iff :
    (e : Env) (s : Shim)
    → s.attached ≡ false
    → (try_attach e s).0.attached ≡ true
    → (e.magic ≡ epdc_damage_magic)
unfolding try_attach
try_attach_iff e s off h = ground arith

-- SurfaceFlinger makes its stores to a new file while the shim, whose calls succeed, looks at it:
-- `k` of them are made when the shim loads the magic number, and `k'` when it then loads the version.
-- The shim attaches exactly if all five stores are made when it loads the magic number. The mapping
-- is then the one in which the seqlock starts, with a full refresh asked for under sequence number 2.
pub try_attach-start :
    (junk : ℕ → ℤ) (k k' : ℕ) (p : Page) (e : Env) (s : Shim)
    → IsNew junk p
    → k ≤ k'
    → e.magic ≡ (after k p).magic
    → e.version ≡ (after k' p).version
    → s.attached ≡ false
    → (s.symbols.open_ ≡ true)
      × (s.symbols.mmap ≡ true)
      × (pos 0 ≤ℤ e.damage_fd)
      × (e.damage_map ≡ true)
    → (((try_attach e s).0.attached ≡ true) ↔ (5 ≤ k)) × (5 ≤ k → after k p ≡ page_of (start junk))
unfolding try_attach
try_attach-start junk k k' p e s new le magic version off h = (
  (
    (λ at. magic_last new k (sym magic ∙ try_attach_iff e s off at)),
    (λ all.
        let m : e.magic ≡ epdc_damage_magic =
          magic ∙ ap (λ (q : Page). q.magic) (after_all new k all) in
        let v : e.version ≡ epdc_damage_version =
          version ∙ ap (λ (q : Page). q.version) (after_all new k' (omega arith)) in
        ground arith),
  ),
  after_all new k,
)
