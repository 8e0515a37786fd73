-- ===== src/Shim/Commit/Results.antt =====
-- The results of libdrm in the loop of a commit over the pending objects.
use palma2pro_eos.Base.{ℕ, ◌≡◌, refl, ap, ◌∙◌, true, some, List, [], ◌∷◌, ◌++◌, All, All-imp}
use palma2pro_eos.Shim.State.{Pend, Shim, Env}
use palma2pro_eos.Shim.Lookup.{lookup}
use palma2pro_eos.Shim.Lookup.Cache.{lookup-Outcome}
use palma2pro_eos.Shim.Lookup.Results.{
  Use, lookup_uses, use_all, use_all-append, nothing_held, Asked, Asked-uses, Outcome-symbols,
  Outcome-Asked, lookup-Asked, lookup_uses-kept,
}
use palma2pro_eos.Shim.Commit.{inject_one, inject}

-- the calls of `lookup` for the pending objects
unfoldable pub inject_uses : Env → List Pend → Shim → List Use
unfolding lookup_uses
inject_uses e [] s = []
inject_uses e (p ∷ ps) s = lookup_uses e p.obj s ++ inject_uses e ps (lookup e p.obj s).1

inject_uses-kept :
    (e : Env) (ps : List Pend) (s : Shim)
    → s.symbols.free_prop ≡ true
    → s.symbols.free_objprops ≡ true
    → use_all (inject_uses e ps s) (some nothing_held) ≡ some nothing_held
unfolding inject_uses use_all
inject_uses-kept e [] s h k = refl
inject_uses-kept e (p ∷ ps) s h k =
    let same = Outcome-symbols (lookup-Outcome e p.obj s) in
    use_all-append (lookup_uses e p.obj s) (inject_uses e ps (lookup e p.obj s).1)
      (some nothing_held)
    ∙ ap (use_all (inject_uses e ps (lookup e p.obj s).1)) (lookup_uses-kept e p.obj s h k)
    ∙ inject_uses-kept e ps (lookup e p.obj s).1 (rw same h) (rw same k)

inject-Asked :
    (e : Env) (req n obj : ℕ) (ps : List Pend) (s : Shim)
    → Asked obj s
    → Asked obj (inject e req n ps s).0
unfolding inject inject_one
inject-Asked e req n obj [] s h = h
inject-Asked e req n obj (p ∷ ps) s h =
    inject-Asked e req n obj ps (lookup e p.obj s).1
      (Outcome-Asked obj (lookup-Outcome e p.obj s) h)

all-Asked :
    (e : Env) (req n : ℕ) (ps : List Pend) (s : Shim)
    → All (λ p. Asked p.obj (inject e req n ps s).0) ps
unfolding inject inject_one
all-Asked e req n [] s = tt
all-Asked e req n (p ∷ ps) s = (
  inject-Asked e req n p.obj ps (lookup e p.obj s).1 (lookup-Asked e p.obj s),
  all-Asked e req n ps (lookup e p.obj s).1,
)

Asked-none :
    (e : Env) (ps : List Pend) (s : Shim) → All (λ p. Asked p.obj s) ps → inject_uses e ps s ≡ []
unfolding inject_uses
Asked-none e [] s h = refl
Asked-none e (p ∷ ps) s h = rw (Asked-uses e p.obj s h.0) (
    Asked-none e ps (lookup e p.obj s).1 (
      All-imp (λ q. Asked q.obj s) (λ q. Asked q.obj (lookup e p.obj s).1)
        (λ q a. Outcome-Asked q.obj (lookup-Outcome e p.obj s) a) ps h.1))

-- Where both functions that free results are found: in the loop of a commit over the pending
-- objects, whatever libdrm answers, each result of libdrm is read only while it is held, no result
-- is lost under the next one, and each is freed, once. And a further loop over the same objects,
-- with any answers, asks libdrm for nothing.
pub inject_uses-balanced :
    (e e' : Env) (req n : ℕ) (ps : List Pend) (s : Shim)
    → s.symbols.free_prop ≡ true
    → s.symbols.free_objprops ≡ true
    → (use_all (inject_uses e ps s) (some nothing_held) ≡ some nothing_held)
      × (inject_uses e' ps (inject e req n ps s).0 ≡ [])
inject_uses-balanced e e' req n ps s h k =
    (inject_uses-kept e ps s h k, Asked-none e' ps (inject e req n ps s).0 (all-Asked e req n ps s))
