-- ===== src/Shim/Lookup/Cache.antt =====
-- The cache of `lookup`: what an index means, and that an answer is kept.
use palma2pro_eos.Base.{
  ℕ, zero, suc, Any, subst, ◌+◌, ◌≤◌, ◌<◌, ◌≡◌, ◌≢◌, refl, ap, sym, ◌∙◌, inl, inr, ◌&&◌, Option,
  none, some, List, [], ◌∷◌, ◌++◌, arith, length, length-append, get_elem?, get_elem?-append, All,
  Bool-cases, Option-cases, ◌==◌, ==_iff, ltb,
}
use mathlib.Core.List.{append-nil}
use palma2pro_eos.Shim.State.{Entry, Shim, Env, PropRes, max_obj}
use palma2pro_eos.Shim.Lookup.{find_entry, learn, learn_all, no_entry, query, add_entry, lookup}

abbrev pub key : Entry → ℕ
key c = c.obj

-- The search from index `i` finds an entry of the object, or there is none.
find_entry-some :
    (i obj : ℕ) (cs : List Entry) (j : ℕ)
    → find_entry i obj cs ≡ some j
    → (k : ℕ) × (j ≡ i + k) × (c : Entry) × (get_elem? cs k ≡ some c) × (c.obj ≡ obj)
unfolding find_entry
find_entry-some i obj [] j h = cc
find_entry-some i obj (c ∷ cs) j h = elim (Bool-cases (c.obj == obj)) [
  | inl hit ↦ (0, ground arith, c, refl, (==_iff c.obj obj).0 hit)
  | inr miss ↦
      let (k, at, d, found, same) = find_entry-some (i + 1) obj cs j (ground arith) in
      (suc k, omega arith, d, found, same)
]

pub find_entry-none :
    (i obj : ℕ) (cs : List Entry) → find_entry i obj cs ≡ none → All (λ c. key c ≢ obj) cs
unfolding find_entry
find_entry-none i obj [] h = tt
find_entry-none i obj (c ∷ cs) h = (ground arith, find_entry-none (i + 1) obj cs (ground arith))

pub find_entry-append :
    (i obj : ℕ) (cs : List Entry) (c : Entry)
    → find_entry i obj cs ≡ none
    → c.obj ≡ obj
    → find_entry i obj (cs ++ c ∷ []) ≡ some (i + length cs)
unfolding find_entry
find_entry-append i obj [] c h e = ground arith
find_entry-append i obj (d ∷ cs) c h e = ground (arith, find_entry-append (i + 1) obj cs c)

pub find_entry-more :
    (i obj : ℕ) (cs : List Entry) (c : Entry) (j : ℕ)
    → find_entry i obj cs ≡ some j
    → find_entry i obj (cs ++ c ∷ []) ≡ some j
unfolding find_entry
find_entry-more i obj [] c j h = cc
find_entry-more i obj (d ∷ cs) c j h = ground (arith, find_entry-more (i + 1) obj cs c j)

learn-obj : (r : PropRes) (k : ℕ × Entry) → (learn r k).1.obj ≡ k.1.obj
unfolding learn
learn-obj r (fbid, c) = ground arith

learn_opt-obj :
    (o : Option PropRes) (k : ℕ × Entry)
    → (elim o as (λ _. ℕ × Entry) [ none ↦ k | some r ↦ learn r k ]).1.obj ≡ k.1.obj
learn_opt-obj none k = refl
learn_opt-obj (some r) k = learn-obj r k

learn_all-obj : (e : Env) (ps : List ℕ) (k : ℕ × Entry) → (learn_all e ps k).1.obj ≡ k.1.obj
unfolding learn_all
learn_all-obj e [] k = refl
learn_all-obj e (p ∷ ps) k = learn_all-obj e ps _ ∙ learn_opt-obj (e.property p) k

pub query-obj : (e : Env) (obj fbid : ℕ) → (query e obj fbid).1.obj ≡ obj
unfolding query
query-obj e obj fbid = go (e.objprops obj)
  where
    go :
        (o : Option (List ℕ))
        → (elim o as (λ _. ℕ × Entry) [
          | none ↦ (fbid, no_entry obj)
          | some ps ↦ learn_all e ps (fbid, no_entry obj)
        ]).1.obj
          ≡ obj
    go none = refl
    go (some ps) = learn_all-obj e ps (fbid, no_entry obj)

-- The outcome of a lookup from state `s`.
pub data Outcome (e : Env) (obj : ℕ) (s : Shim) : Option ℕ × Shim → Type 0 where
  hit : {i : ℕ} → find_entry 0 obj s.cache ≡ some i → Outcome e obj s (some i, s)
  refused : find_entry 0 obj s.cache ≡ none → Outcome e obj s (none, s)
  added :
      find_entry 0 obj s.cache ≡ none
      → length s.cache < max_obj
      → (fbid : ℕ) (c : Entry) → c.obj ≡ obj
      → Outcome e obj s
          (some (length s.cache), record s { cache = s.cache ++ c ∷ []; fbid_prop = fbid })

pub lookup-Outcome : (e : Env) (obj : ℕ) (s : Shim) → Outcome e obj s (lookup e obj s)
unfolding lookup add_entry
lookup-Outcome e obj s = elim (Option-cases (find_entry 0 obj s.cache)) [
  | inr (i, found) ↦ rw (found, lookup) (hit found)
  | inl new ↦
      rw (new, lookup)
        (elim (Bool-cases (ltb (length s.cache) max_obj)) [
          | inr full ↦ rw full (refused new)
          | inl room ↦ rw room (elim (Bool-cases (s.symbols.get_objprops && s.symbols.get_prop)) [
            | inr absent ↦ rw absent (refused new)
            | inl there ↦ rw there (added new (ground arith) _ _ (query-obj e obj s.fbid_prop))
          ])
        ])
]

pub lookup-known :
    (e : Env) (obj : ℕ) (s : Shim) (i : ℕ)
    → find_entry 0 obj s.cache ≡ some i
    → lookup e obj s ≡ (some i, s)
unfolding lookup
lookup-known e obj s i h = rw (h, lookup)

some_eq : (d c : Entry) → some d ≡ some c → d ≡ c
some_eq d c h = cc

found_there :
    (obj i : ℕ) (cs : List Entry)
    → find_entry 0 obj cs ≡ some i
    → (c : Entry) × (get_elem? cs i ≡ some c) × (c.obj ≡ obj)
found_there obj i cs h =
    let (k, at, c, found, same) = find_entry-some 0 obj cs i h in
    let e : k ≡ i = omega arith in (c, rw e at found, same)

-- An index that a lookup returns is that of an entry for the object.
pub lookup-entry :
    (e : Env) (obj : ℕ) (s : Shim) (i : ℕ)
    → (lookup e obj s).0 ≡ some i
    → (c : Entry) × (get_elem? (lookup e obj s).1.cache i ≡ some c) × (c.obj ≡ obj)
lookup-entry e obj s i h = go (lookup e obj s) (lookup-Outcome e obj s) h
  where
    go :
        (out : Option ℕ × Shim)
        → Outcome e obj s out
        → out.0 ≡ some i
        → (c : Entry) × (get_elem? out.1.cache i ≡ some c) × (c.obj ≡ obj)
    go (none, t) o h = cc
    go (some j, t) (hit found) h = found_there obj i s.cache (found ∙ h)
    go (some j, t) (added new room fbid c same) h =
        let at : length s.cache ≡ i = ground arith in
        (c, rw (← at) (get_elem?-append s.cache c), same)

Any-before : (P : Entry → Type 0) (cs : List Entry) (c : Entry) → Any P cs → Any P (cs ++ c ∷ [])
Any-before P [] c h = absurd h
Any-before P (d ∷ cs) c (inl h) = inl h
Any-before P (d ∷ cs) c (inr h) = inr (Any-before P cs c h)

-- A lookup keeps the entries that are there.
pub lookup-grows :
    (e : Env) (obj : ℕ) (s : Shim) (P : Entry → Type 0)
    → Any P s.cache
    → Any P (lookup e obj s).1.cache
lookup-grows e obj s P h = go (lookup e obj s) (lookup-Outcome e obj s)
  where
    go : (out : Option ℕ × Shim) → Outcome e obj s out → Any P out.1.cache
    go (none, t) (refused new) = h
    go (some j, t) (hit found) = h
    go (some j, t) (added new room fbid c same) = Any-before P s.cache c h

pub get_elem?-Any :
    (P : Entry → Type 0) (cs : List Entry) (i : ℕ) (c : Entry)
    → get_elem? cs i ≡ some c
    → P c
    → Any P cs
get_elem?-Any P [] i c h p = cc
get_elem?-Any P (d ∷ cs) zero c h p = inl (subst P (sym (some_eq d c h)) p)
get_elem?-Any P (d ∷ cs) (suc i) c h p = inr (get_elem?-Any P cs i c h p)

-- With at most 32 entries in the cache: an index that a lookup returns is that of an entry for the
-- object, in a cache that only grows at its end, to at most 32 entries; and the next lookup of the
-- object, whatever libdrm then answers, returns the same index and changes nothing.
pub lookup_again :
    (e e' : Env) (obj : ℕ) (s : Shim) (i : ℕ)
    → length s.cache ≤ max_obj
    → (lookup e obj s).0 ≡ some i
    → let s' = (lookup e obj s).1 in
      ((c : Entry) × (get_elem? s'.cache i ≡ some c) × (c.obj ≡ obj))
      × ((new : List Entry) × (s'.cache ≡ s.cache ++ new))
      × (length s'.cache ≤ max_obj)
      × (lookup e' obj s' ≡ (some i, s'))
lookup_again e e' obj s i few h = go (lookup e obj s) (lookup-Outcome e obj s) h
  where
    go :
        (out : Option ℕ × Shim)
        → Outcome e obj s out
        → out.0 ≡ some i
        → ((c : Entry) × (get_elem? out.1.cache i ≡ some c) × (c.obj ≡ obj))
          × ((new : List Entry) × (out.1.cache ≡ s.cache ++ new))
          × (length out.1.cache ≤ max_obj)
          × (lookup e' obj out.1 ≡ (some i, out.1))
    go (none, t) o h = cc
    go (some j, t) (hit found) h =
        let known : find_entry 0 obj s.cache ≡ some i = found ∙ h in
        (
          found_there obj i s.cache known,
          ([], sym (append-nil s.cache)),
          few,
          lookup-known e' obj s i known,
        )
    go (some j, t) (added new room fbid c same) h =
        let at : length s.cache ≡ i = ground arith in
        (
          (c, rw (← at) (get_elem?-append s.cache c), same),
          (c ∷ [], refl),
          rw length-append (omega arith),
          lookup-known e' obj t i
              (find_entry-append 0 obj s.cache c new same ∙ ap some (omega arith)),
        )
