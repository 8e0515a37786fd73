-- ===== src/Ebc/Device/Journal.antt =====
-- What it means for a run to be journalled, and to be the beginning of another.
use Prim.Native.String.{String}
use palma2pro_eos.Base.{
  ◌≡◌, refl, ap, ◌⊎◌, inl, inr, Any, Bool, true, false, Bool-cases, if◌then◌else◌, List, [], ◌∷◌,
  ◌++◌,
}
use palma2pro_eos.Base.Int.{ℤ, pos, eqb_ℤ}
use palma2pro_eos.Ebc.Device.{
  Call, jot, open_ebc, ioctl, mmap, load, store, memset, close, Run, stop_at,
}

-- The line of the journal names the request; the last one prints the number of any request.
abbrev pub IsNamed : ℤ → String → Type 0
IsNamed request line =
    ((request ≡ pos 0x7003) × (line ≡ "ioctl GET_EBC_BUFFER_INFO (0x%x)"))
    ⊎ (((request ≡ pos 0x7000)
          × ((line ≡ "ioctl GET_EBC_BUFFER (0x%x)")
              ⊎ (line
                  ≡ ">>> ioctl GET_EBC_BUFFER (0x%x) -- if the log stops here, the free-buffer")))
        ⊎ (((request ≡ pos 0x7001)
              × (line
                  ≡ ">>> ioctl EBC_SEND_BUFFER (0x%x) mode=%d -- THIS should refresh the panel"))
            ⊎ (((request ≡ pos 0x700c)
                  × (line ≡ "SET_EBC_SEND_UPDATE rect=(0,0)-(%d,%d) mode=%d marker=%d flags=0x%x"))
                ⊎ (line ≡ "  >>> ioctl 0x%04x %s -- if the log stops here, THIS hangs"))))

-- The line announces a mapping.
abbrev pub IsMapLine : String → Type 0
IsMapLine line = (line ≡ "mmap offset=%ld len=%ld") ⊎ (line ≡ "mmap len=%zu offset=%d")

-- Every request, and every mapping, is named by a line of the journal, written since the last thing
-- that was done on the device; `lines` are those that have just been written.
abbrev pub IsJournalled : (lines : List String) → List Call → Type 0
IsJournalled lines [] = Unit
IsJournalled lines (jot l ∷ calls) = IsJournalled (l ∷ lines) calls
IsJournalled lines (ioctl _ r _ ∷ calls) = Any (IsNamed r) lines × IsJournalled [] calls
IsJournalled lines (mmap _ _ _ ∷ calls) = Any IsMapLine lines × IsJournalled [] calls
IsJournalled lines (open_ebc ∷ calls) = IsJournalled [] calls
IsJournalled lines (load _ ∷ calls) = IsJournalled [] calls
IsJournalled lines (store _ _ ∷ calls) = IsJournalled [] calls
IsJournalled lines (memset _ _ ∷ calls) = IsJournalled [] calls
IsJournalled lines (close _ ∷ calls) = IsJournalled [] calls

Any-more : (P : String → Type 0) (xs ys : List String) → Any P xs → Any P (xs ++ ys)
Any-more P [] ys h = absurd h
Any-more P (x ∷ xs) ys (inl h) = inl h
Any-more P (x ∷ xs) ys (inr h) = inr (Any-more P xs ys h)

IsJournalled-more :
    (xs ys : List String) (calls : List Call)
    → IsJournalled xs calls
    → IsJournalled (xs ++ ys) calls
IsJournalled-more xs ys [] h = tt
IsJournalled-more xs ys (jot l ∷ calls) h = IsJournalled-more (l ∷ xs) ys calls h
IsJournalled-more xs ys (open_ebc ∷ calls) h = h
IsJournalled-more xs ys (load _ ∷ calls) h = h
IsJournalled-more xs ys (store _ _ ∷ calls) h = h
IsJournalled-more xs ys (memset _ _ ∷ calls) h = h
IsJournalled-more xs ys (close _ ∷ calls) h = h
IsJournalled-more xs ys (ioctl _ r _ ∷ calls) h = (Any-more (IsNamed r) xs ys h.0, h.1)
IsJournalled-more xs ys (mmap _ _ _ ∷ calls) h = (Any-more IsMapLine xs ys h.0, h.1)

pub IsJournalled-any :
    (lines : List String) (calls : List Call) → IsJournalled [] calls → IsJournalled lines calls
IsJournalled-any lines calls h = IsJournalled-more [] lines calls h

pub stop_at-IsJournalled :
    (lines : List String) (stage k : ℤ) (line : String) (a : Run)
    → IsJournalled [] a.0
    → IsJournalled lines (stop_at stage k line a).0
unfolding stop_at
stop_at-IsJournalled lines stage k line a h = elim (Bool-cases (eqb_ℤ stage k)) [
  | inl e ↦ rw e tt
  | inr e ↦ rw e (IsJournalled-any lines a.0 h)
]

pub if-IsJournalled :
    (lines : List String) (c : Bool) (a b : Run)
    → IsJournalled lines a.0
    → IsJournalled lines b.0
    → IsJournalled lines (if c then a else b).0
if-IsJournalled lines true a b h k = h
if-IsJournalled lines false a b h k = k

-- a run that has begun like `b` may have stopped after `a`
abbrev pub IsPrefix : List Call → List Call → Type 0
IsPrefix a b = (rest : List Call) × (a ++ rest ≡ b)

pub IsPrefix-nil : (b : List Call) → IsPrefix [] b
IsPrefix-nil b = (b, refl)

pub IsPrefix-cons : (c : Call) (a b : List Call) → IsPrefix a b → IsPrefix (c ∷ a) (c ∷ b)
IsPrefix-cons c a b (rest, e) = (rest, ap (λ l. c ∷ l) e)

pub IsPrefix-append : (l a b : List Call) → IsPrefix a b → IsPrefix (l ++ a) (l ++ b)
IsPrefix-append [] a b p = p
IsPrefix-append (c ∷ l) a b p = IsPrefix-cons c _ _ (IsPrefix-append l a b p)
