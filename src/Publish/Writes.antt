-- ===== src/Publish/Writes.antt =====
-- `publishEpdcDamage` makes the stores of the seqlock's writer, in its order.
use palma2pro_eos.Base.{
  ℕ, suc, ◌+◌, ◌*◌, ◌%◌, ◌^◌, ◌<◌, ◌≤◌, ◌≡◌, refl, sym, ap, subst, ◌∙◌, Bool, List, [], ◌∷◌, ◌++◌,
  arith, length, ==_refl,
}
use palma2pro_eos.Base.Int.{ℤ}
use palma2pro_eos.Shim.State.{Rect, epdc_damage_max, epdc_damage_magic, epdc_damage_version}
use palma2pro_eos.Seqlock.{
  Cells, idle, wrote_seq, wrote_count, writing, System, update, Write, begin, store_count,
  store_full, store_cell, finish, write, Reach, next,
}
use palma2pro_eos.Publish
use palma2pro_eos.Publish.{
  Page, Store, perform, pick_rects, cell_of, full_word, publication, rect_stores, publish_stores,
}
use palma2pro_eos.Publish.Rects.{publication-few}

-- the mapping of a state of the seqlock
abbrev pub page_of : System → Page
page_of s = record {
  magic = epdc_damage_magic;
  version = epdc_damage_version;
  seq = s.ver % 2 ^ 32;
  cells = s.mem;
}

-- The stores, one after the other, are steps of the seqlock's writer that change the mapping in the
-- same way.
pub data Runs : System → List Store → System → Type 0 where
  done : {s : System} → Runs s [] s
  also :
      {s t u : System} (x : Store) {xs : List Store}
      → Write s.ver s.mem s.published s.writer t.ver t.mem t.published t.writer
      → t.reader ≡ s.reader
      → perform x (page_of s) ≡ page_of t
      → Runs t xs u
      → Runs s (x ∷ xs) u

-- the writer in the middle of the cells
abbrev at_next : System → Cells → (ℕ → ℤ) → ℕ → System
at_next s p cell k = record s { mem = record s.mem { cell = cell }; writer = writing p k }

Runs-Reach :
    {junk : ℕ → ℤ} {s t : System} {xs : List Store} → Reach junk s → Runs s xs t → Reach junk t
Runs-Reach r done = r
Runs-Reach {junk} {s} r (also {t = m} x w same eff rest) =
    Runs-Reach (subst (λ i. Reach junk (record m { reader = i })) (sym same) (next r (write w)))
      rest

-- the stores lead to a state with `Q`
record Ends (Q : System → Type 0) (s : System) (xs : List Store) : Type 0 where
  last : System
  runs : Runs s xs last
  good : Q last

module _ (Q : System → Type 0) (p : Cells) (s : System) where
  cell-Ends :
      (cell : ℕ → ℤ) (k : ℕ) (a : ℤ) (xs : List Store)
      → k < 4 * p.count
      → p.cell k ≡ a
      → Ends Q (at_next s p (update cell k (p.cell k)) (k + 1)) xs
      → Ends Q (at_next s p cell k) (Publish.store_cell k a ∷ xs)
  unfolding perform
  cell-Ends cell k a xs lt e rest = record {
    last = rest.last;
    runs = also (Publish.store_cell k a) (store_cell lt) refl (rw e refl) rest.runs;
    good = rest.good;
  }

  rects-Ends :
      (rs : List Rect) (k : ℕ) (xs : List Store)
      → k + 4 * length rs ≡ 4 * p.count
      → ((j : ℕ) → p.cell (k + j) ≡ cell_of rs j)
      → ((cell : ℕ → ℤ) → Ends Q (at_next s p cell (4 * p.count)) xs)
      → (cell : ℕ → ℤ) → Ends Q (at_next s p cell k) (rect_stores rs k ++ xs)
  unfolding rect_stores cell_of
  rects-Ends [] k xs fits same rest cell =
      subst (λ m. Ends Q (at_next s p cell m) xs) (omega arith) (rest cell)
  rects-Ends (r ∷ rs) k xs fits same rest cell =
      let at0 : p.cell k ≡ r.left = ap p.cell (omega arith) ∙ same 0 in
      let more =
        rects-Ends rs (k + 4) xs (omega arith)
          (λ j. ap p.cell (omega arith) ∙ same (suc (suc (suc (suc j))))) rest in
      cell-Ends cell k r.left _ (omega arith) at0 (
        cell-Ends _ (k + 1) r.top _ (omega arith) (same 1) (
          step (k + 1 + 1) (k + 2) (omega arith) (
            cell-Ends _ (k + 2) r.right _ (omega arith) (same 2) (
              step (k + 2 + 1) (k + 3) (omega arith) (
                cell-Ends _ (k + 3) r.bottom _ (omega arith) (same 3)
                  (step (k + 3 + 1) (k + 4) (omega arith) (more _)))))))
    where
      step :
          {cell : ℕ → ℤ} {xs : List Store} (i j : ℕ)
          → j ≡ i
          → Ends Q (at_next s p cell j) xs
          → Ends Q (at_next s p cell i) xs
      step {cell} {xs} i j e = subst (λ m. Ends Q (at_next s p cell m) xs) e

seq_word : (v : ℕ) → (v % 2 ^ 32 + 1) % 2 ^ 32 ≡ (v + 1) % 2 ^ 32
seq_word v = omega arith

two_words : (v : ℕ) → ((v % 2 ^ 32 + 1) % 2 ^ 32 + 1) % 2 ^ 32 ≡ (v + 1 + 1) % 2 ^ 32
two_words v = omega arith

-- The writer has ended a publication of `p`, the next one of `s`.
pub record IsPublished (s : System) (p : Cells) (t : System) : Type 0 where
  pub writer : t.writer ≡ idle
  pub ver : t.ver ≡ s.ver + 2
  pub published : t.published t.ver ≡ p
  pub reader : t.reader ≡ s.reader

-- From every state of the seqlock that is reached with the writer idle, whatever the reader is
-- doing, and for every region: the stores of `publishEpdcDamage`, with the sequence number that it
-- loads, are one by one the steps of the seqlock's writer with the same effect on the mapping, the
-- wrap-around of the number included; they end in a reached state, with the writer idle and with
-- the publication of that region.
pub publish_stores-Runs :
    (get_bounds : List Rect → Rect) (damage : List Rect) (force : Bool) (junk : ℕ → ℤ) (s : System)
    → Reach junk s
    → s.writer ≡ idle
    → (t : System) × Runs s (publish_stores get_bounds damage force (page_of s).seq) t
      × IsPublished s (publication get_bounds damage force) t
      × Reach junk t
unfolding publish_stores publication perform
publish_stores-Runs get_bounds damage force junk s r e =
    (all.last, all.runs, all.good, Runs-Reach r all.runs)
  where
    p : Cells
    p = publication get_bounds damage force

    t₁ : System
    t₁ = record s { ver = s.ver + 1; writer = wrote_seq p }

    t₂ : System
    t₂ = record t₁ { mem = record s.mem { count = p.count }; writer = wrote_count p }

    t₃ : System
    t₃ = record t₂ { mem = record t₂.mem { full = p.full }; writer = writing p 0 }

    start :
        (c : Cells)
        → c.count ≤ epdc_damage_max
        → Write s.ver s.mem s.published s.writer (s.ver + 1) s.mem s.published (wrote_seq c)
    start c few =
        subst (λ w. Write s.ver s.mem s.published w (s.ver + 1) s.mem s.published (wrote_seq c))
          (sym e) (begin c few)

    word : ℕ
    word = (s.ver % 2 ^ 32 + 1) % 2 ^ 32

    end :
        (cell : ℕ → ℤ)
        → Ends
            (IsPublished s p)
            (at_next t₃ p cell (4 * p.count))
            (Publish.store_seq ((word + 1) % 2 ^ 32) ∷ [])
    end cell = record {
      last = record t₃ {
        ver = s.ver + 1 + 1;
        mem = record t₃.mem { cell = cell };
        published = update s.published (s.ver + 1 + 1) p;
        writer = idle;
      };
      runs = also (Publish.store_seq _) (finish refl) refl (rw (two_words s.ver) refl) done;
      good = record {
        writer = refl;
        ver = omega arith;
        published = rw ==_refl refl;
        reader = refl;
      };
    }

    all : Ends (IsPublished s p) s (publish_stores get_bounds damage force (page_of s).seq)
    all =
        let few = publication-few get_bounds damage force in
        let rest =
          rects-Ends (IsPublished s p) p t₃ (pick_rects get_bounds damage force) 0 _ (omega arith)
            (λ j. ap p.cell (omega arith)) end s.mem.cell in
        record {
          last = rest.last;
          runs =
              also {t = t₁} (Publish.store_seq word) (start p few) refl (rw (seq_word s.ver) refl) (
                also {t = t₂} (Publish.store_count p.count) store_count refl refl
                  (also {t = t₃} (Publish.store_full p.full) store_full refl refl rest.runs));
          good = rest.good;
        }
