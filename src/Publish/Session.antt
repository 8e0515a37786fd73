-- ===== src/Publish/Session.antt =====
-- `finishFrame` from the first frame on.
use palma2pro_eos.Base.{
  ℕ, ◌+◌, ◌≡◌, refl, sym, subst, Bool, true, false, ◌⊎◌, inl, inr, Option, none, some, List, [],
  ◌∷◌, ◌++◌, arith, Any, Bool-cases,
}
use palma2pro_eos.Base.Int.{ℤ, pos, ◌<ℤ◌, ◌≤ℤ◌, ltb_ℤ}
use palma2pro_eos.Shim.State.{Rect}
use palma2pro_eos.Seqlock.{start}
use palma2pro_eos.Publish.{
  Page, Store, perform_all, init_stores, publish_stores, Platform, Call, close, make_map,
  epdc_damage_map, Output, collect_epdc_damage, publish, publish_to, finish_frame, publication,
}
use palma2pro_eos.Publish.Writes.{page_of}
use palma2pro_eos.Publish.Attach.{IsNew, after_all}
use palma2pro_eos.Publish.Frames.{Holds, published, start-Holds, published-Holds}

-- What `sMap` says of the file after `n` publications.
abbrev pub Mapped : (ℕ → ℤ) → ℕ → Page → Option Bool → Type 0
Mapped junk n p none = (n ≡ 0) × IsNew junk p
Mapped junk n p (some false) = Unit {0}
Mapped junk n p (some true) = Holds junk n p

-- The mapping holds a publication of `damage`, as the one numbered `n`.
pub record HasPublished (get_bounds : List Rect → Rect) (junk : ℕ → ℤ) (damage : List Rect) (n : ℕ)
    (p : Page) : Type 0 where
  pub holds : Holds junk n p
  pub newest : holds.system.published holds.system.ver ≡ publication get_bounds damage false

perform_all-append :
    (xs ys : List Store) (p : Page) → perform_all (xs ++ ys) p ≡ perform_all ys (perform_all xs p)
unfolding perform_all
perform_all-append [] ys p = refl
perform_all-append (x ∷ xs) ys p = perform_all-append xs ys _

-- There is a mapping: it was made earlier, or the file now opens, gets its size and can be mapped.
abbrev pub Maps : Platform → Option Bool → Type 0
Maps w none = (pos 0 ≤ℤ w.fd) × (w.truncates ≡ true) × (w.maps ≡ true)
Maps w (some mapped) = mapped ≡ true

-- There is none: the first call failed, or one of these three fails now.
abbrev pub Lacks : Platform → Option Bool → Type 0
Lacks w none = (w.fd <ℤ pos 0) ⊎ ((w.truncates ≡ false) ⊎ (w.maps ≡ false))
Lacks w (some mapped) = mapped ≡ false

-- The two results of the function that initialises `sMap`.
data Made (w : Platform) : Bool × List Call × List Store → Type 0 where
  failed :
      (calls : List Call)
      → Lacks w none
      → (w.fd <ℤ pos 0) ⊎ Any (λ c. c ≡ close w.fd) calls
      → Made w (false, calls, [])
  mapped :
      (calls : List Call)
      → Maps w none
      → Any (λ c. c ≡ close w.fd) calls
      → Made w (true, calls, init_stores)

make_map-Made : (w : Platform) → Made w (make_map w)
unfolding make_map
make_map-Made w = elim (Bool-cases (ltb_ℤ w.fd (pos 0))) [
  | inl bad ↦ rw bad (failed _ (inl (ground arith)) (inl (ground arith)))
  | inr good ↦ elim (Bool-cases w.truncates) [
    | inr short ↦ simp (good, short) (failed _ (inr (inl short)) (inr (inr (inr (inl refl)))))
    | inl whole ↦ elim (Bool-cases w.maps) [
      | inr off ↦
          simp (good, whole, off) (failed _ (inr (inr off)) (inr (inr (inr (inr (inl refl))))))
      | inl on ↦
          simp (good, whole, on) (mapped _ (ground arith, whole, on) (inr (inr (inr (inl refl)))))
    ]
  ]
]

-- The calls leave no descriptor open, and either there is no mapping and nothing is stored, or the
-- stores publish `damage`.
pub record IsFrame (get_bounds : List Rect → Rect) (junk : ℕ → ℤ) (w : Platform)
    (s_map : Option Bool) (damage : List Rect) (n : ℕ) (p : Page)
    (r : Option Bool × List Call × List Store) : Type 0 where
  pub closed : (r.1 ≡ []) ⊎ ((w.fd <ℤ pos 0) ⊎ Any (λ c. c ≡ close w.fd) r.1)
  pub result :
      (Lacks w s_map × (r.0 ≡ some false) × (r.2 ≡ []))
      ⊎ (Maps w s_map
          × (r.0 ≡ some true)
          × HasPublished get_bounds junk damage (n + 1) (perform_all r.2 p))

module _ (get_bounds : List Rect → Rect) (junk : ℕ → ℤ) (w : Platform) (damage : List Rect) where
  published-HasPublished :
      (n : ℕ) (p : Page)
      → Holds junk n p
      → HasPublished get_bounds junk damage (n + 1) (published get_bounds damage p)
  published-HasPublished n p h =
      let (next, newest) = published-Holds get_bounds junk n p damage h in
      record { holds = next; newest = newest }

  -- what a physical display's `finish_frame` returns for what `publish` does
  abbrev frame : Bool × List Call × List Store → Option Bool × List Call × List Store
  frame (m, calls, stores) = (some m, calls, stores)

  first-IsFrame :
      (p : Page) (m : Bool × List Call × List Store)
      → IsNew junk p
      → Made w m
      → IsFrame get_bounds junk w none damage 0 p (frame (publish_to get_bounds p damage false m))
  unfolding publish_to perform_all published
  first-IsFrame p m new (failed calls lacks h) = record {
    closed = inr h;
    result = inl (lacks, refl, refl);
  }
  first-IsFrame p m new (mapped calls maps h) =
      let q = perform_all init_stores p in
      let whole : q ≡ page_of (start junk) = after_all new 5 (omega arith) in
      record {
        closed = inr (inr h);
        result = inr (
          maps,
          refl,
          subst (HasPublished get_bounds junk damage 1)
              (sym
                (perform_all-append init_stores (publish_stores get_bounds damage false q.seq) p))
              (published-HasPublished 0 q (subst (Holds junk 0) (sym whole) (start-Holds junk))),
        );
      }

  later-IsFrame :
      (n : ℕ) (p : Page)
      → Holds junk n p
      → IsFrame get_bounds junk w
          (some true)
          damage
          n
          p
          (frame (publish_to get_bounds p damage false (true, [], [])))
  unfolding publish_to perform_all
  later-IsFrame n p h = record {
    closed = inl refl;
    result = inr (refl, refl, unfold published in published-HasPublished n p h);
  }

  never-IsFrame :
      (n : ℕ) (p : Page)
      → IsFrame get_bounds junk w
          (some false)
          damage
          n
          p
          (frame (publish_to get_bounds p damage false (false, [], [])))
  unfolding publish_to
  never-IsFrame n p = record { closed = inl refl; result = inl (refl, refl, refl) }

-- `finishFrame` of a physical display, after `n` publications, whatever the kernel answers. On the
-- first call the file is new; later there is a mapping, which holds the last publication, or there is
-- none. Either there is no mapping, because on the first call the file did not open, did not take its
-- size or could not be mapped, and then nothing is stored; or there is one, made earlier or by a
-- first call in which these three succeeded, and then what has been stored since the
-- file was made is the initialisation followed by whole publications, the newest that of
-- the output's transformed dirty region. The file descriptor is closed, if it was opened.
pub finish_frame-IsFrame :
    (get_bounds : List Rect → Rect) (junk : ℕ → ℤ) (w : Platform) (s_map : Option Bool) (n : ℕ)
    (p : Page) (o : Output)
    → o.display_id ≡ true
    → Mapped junk n p s_map
    → IsFrame get_bounds junk w s_map
        (o.transform o.dirty)
        n
        p
        (finish_frame get_bounds w s_map p o)
unfolding finish_frame publish epdc_damage_map collect_epdc_damage
finish_frame-IsFrame get_bounds junk w none n p o phys h = simp (phys) (
    rw h.0
      (first-IsFrame get_bounds junk w (o.transform o.dirty) p (make_map w) h.1 (make_map-Made w)))
finish_frame-IsFrame get_bounds junk w (some true) n p o phys h =
    simp (phys) (later-IsFrame get_bounds junk w (o.transform o.dirty) n p h)
finish_frame-IsFrame get_bounds junk w (some false) n p o phys h =
    simp (phys) (never-IsFrame get_bounds junk w (o.transform o.dirty) n p)
