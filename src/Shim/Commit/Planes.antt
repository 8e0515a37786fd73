-- ===== src/Shim/Commit/Planes.antt =====
-- What the loop over the pending objects gives to a plane.
pub mod Reached
use palma2pro_eos.Base.{
  ℕ, zero, suc, ◌+◌, ◌≤◌, ◌≡◌, ◌≢◌, refl, sym, subst, ◌∙◌, ◌⊎◌, inl, inr, true, false, ◌&&◌, ◌||◌,
  Option, none, some, List, [], ◌∷◌, ◌++◌, arith, ◌==◌, ==_iff, length, length-append, get_elem?,
  get_elem?-append, Any, Bool-cases,
}
use palma2pro_eos.Shim.State.{Entry, Symbols, Pend, Shim, Env, Call, real_add, max_obj}
use palma2pro_eos.Shim.Lookup.{find_entry, lookup}
use palma2pro_eos.Shim.Lookup.Cache.{
  Outcome, hit, refused, added, lookup-Outcome, lookup-known, find_entry-more,
}
use palma2pro_eos.Shim.Lookup.Planes.{IsPlane, lookup-IsPlane}
use palma2pro_eos.Shim.Commit.{entry_calls, slot_calls, inject_one, inject}

-- Among the calls, the plane gets the address of the parameters and right behind it the count `n`.
pub data Adds (e : Env) (req obj parms cnt n : ℕ) : List Call → Type 0 where
  now :
      {calls : List Call}
      → Adds e req obj parms cnt n
          (real_add req obj parms e.parms_addr ∷ real_add req obj cnt n ∷ calls)
  later :
      {c : Call} {calls : List Call}
      → Adds e req obj parms cnt n calls
      → Adds e req obj parms cnt n (c ∷ calls)

module _ (e : Env) (req obj parms cnt n : ℕ) where
  pub Adds-behind :
      (xs ys : List Call) → Adds e req obj parms cnt n ys → Adds e req obj parms cnt n (xs ++ ys)
  Adds-behind [] ys h = h
  Adds-behind (x ∷ xs) ys h = later (Adds-behind xs ys h)

  pub Adds-before :
      (ys : List Call) {xs : List Call}
      → Adds e req obj parms cnt n xs
      → Adds e req obj parms cnt n (xs ++ ys)
  Adds-before ys now = now
  Adds-before ys (later h) = later (Adds-before ys h)

-- The cache has the ids of the plane; or the object is new and a plane, there is room for `room`
-- more objects, and the functions of libdrm are found.
abbrev pub Ready : Env → (obj parms cnt room : ℕ) → List Entry → Symbols → Type 0
Ready e obj parms cnt room cs y =
    ((i : ℕ) × (c : Entry) × (find_entry 0 obj cs ≡ some i)
      × (get_elem? cs i ≡ some c)
      × (c.parms_prop ≡ parms)
      × (c.cnt_prop ≡ cnt))
    ⊎ (IsPlane e obj parms cnt
        × (find_entry 0 obj cs ≡ none)
        × (length cs + room ≤ max_obj)
        × (y.get_objprops && y.get_prop ≡ true))

get_elem?-more :
    (cs : List Entry) (d : Entry) (i : ℕ) (c : Entry)
    → get_elem? cs i ≡ some c
    → get_elem? (cs ++ d ∷ []) i ≡ some c
get_elem?-more [] d i c h = cc
get_elem?-more (x ∷ cs) d zero c h = h
get_elem?-more (x ∷ cs) d (suc i) c h = get_elem?-more cs d i c h

find_entry-other :
    (i obj : ℕ) (cs : List Entry) (c : Entry)
    → find_entry i obj cs ≡ none
    → c.obj ≢ obj
    → find_entry i obj (cs ++ c ∷ []) ≡ none
unfolding find_entry
find_entry-other i obj [] c h d = ground arith
find_entry-other i obj (x ∷ cs) c h d = ground (arith, find_entry-other (i + 1) obj cs c)

-- A lookup of another object leaves a plane ready.
Outcome-Ready :
    {e' : Env} {q : ℕ} {s : Shim} {out : Option ℕ × Shim} (e : Env) (obj parms cnt room : ℕ)
    → Outcome e' q s out
    → q ≢ obj
    → Ready e obj parms cnt (suc room) s.cache s.symbols
    → Ready e obj parms cnt room out.1.cache out.1.symbols
Outcome-Ready e obj parms cnt room (hit h) d (inl k) = inl k
Outcome-Ready e obj parms cnt room (hit h) d (inr k) = inr (k.0, k.1, omega (arith, k.2), k.3)
Outcome-Ready e obj parms cnt room (refused h) d (inl k) = inl k
Outcome-Ready e obj parms cnt room (refused h) d (inr k) = inr (k.0, k.1, omega (arith, k.2), k.3)
Outcome-Ready {s} e obj parms cnt room (added new few fbid c same) d (inl (i, b, at, there, p, n)) =
    inl (i, b, find_entry-more 0 obj s.cache c i at, get_elem?-more s.cache c i b there, p, n)
Outcome-Ready {s} e obj parms cnt room (added new few fbid c same) d (inr (h, at, fits, there)) =
    inr (
      h,
      find_entry-other 0 obj s.cache c at (λ q. d (sym same ∙ q)),
      omega (arith, length-append s.cache (c ∷ []), fits),
      there,
    )

module _ (e : Env) (req n obj parms cnt : ℕ) (some_parms : parms ≢ 0) (some_cnt : cnt ≢ 0) where
  entry-Adds :
      (c : Entry)
      → c.parms_prop ≡ parms
      → c.cnt_prop ≡ cnt
      → Adds e req obj parms cnt n (entry_calls e req obj n (some c))
  unfolding entry_calls
  entry-Adds c p k =
      let set : c.parms_prop == 0 || c.cnt_prop == 0 ≡ false = ground arith in
      rw set (rw (p, k) now)

  one-Adds :
      (fb : ℕ) (s : Shim) (room : ℕ)
      → Ready e obj parms cnt (suc room) s.cache s.symbols
      → Adds e req obj parms cnt n (inject_one e req n (record { obj = obj; fb = fb }) s).1
  unfolding inject_one slot_calls
  one-Adds fb s room (inl (i, c, at, there, p, k)) =
      rw (lookup-known e obj s i at) (rw there (entry-Adds c p k))
  one-Adds fb s room (inr (h, new, fits, there)) =
      let (fbid, c, found, p, k) =
        lookup-IsPlane e obj parms cnt s h new (omega (arith, fits)) there in
      rw found (rw (get_elem?-append s.cache c) (entry-Adds c p k))

  pub inject-Adds :
      (ps : List Pend) (s : Shim)
      → Any (λ p. p.obj ≡ obj) ps
      → Ready e obj parms cnt (length ps) s.cache s.symbols
      → Adds e req obj parms cnt n (inject e req n ps s).1
  unfolding inject inject_one
  inject-Adds [] s h r = absurd h
  inject-Adds (p ∷ ps) s h r = elim (Bool-cases (p.obj == obj)) [
    | inl same ↦ Adds-before e req obj parms cnt n (inject e req n ps (lookup e p.obj s).1).1 (
        subst
          (λ o.
            Adds e req obj parms cnt n
              (slot_calls e req o n (lookup e o s).1.cache (lookup e o s).0))
          (sym ((==_iff p.obj obj).0 same)) (one-Adds p.fb s (length ps) r))
    | inr other ↦
        let d : p.obj ≢ obj = ground arith in
        let rest : Any (λ q. q.obj ≡ obj) ps = elim h [ inl z ↦ absurd (d z) | inr z ↦ z ] in
        Adds-behind e req obj parms cnt n
          (slot_calls e req p.obj n (lookup e p.obj s).1.cache (lookup e p.obj s).0)
          (inject e req n ps (lookup e p.obj s).1).1
          (inject-Adds ps (lookup e p.obj s).1 rest
            (Outcome-Ready e obj parms cnt (length ps) (lookup-Outcome e p.obj s) d r))
  ]
