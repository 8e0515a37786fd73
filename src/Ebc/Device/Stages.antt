-- ===== src/Ebc/Device/Stages.antt =====
-- Runs that stop at a stage: what they do is the beginning of what a later stage does.
use Prim.Native.String.{String}
use mathlib.Core.List.{append-nil}
use palma2pro_eos.Base.{
  ℕ, ◌≤◌, ◌<◌, ◌≡◌, refl, inl, inr, Bool, true, false, if◌then◌else◌, List, [], ◌∷◌, ◌++◌, arith,
  All, All-append, Bool-cases,
}
use palma2pro_eos.Base.Int.{pos, eqb_ℤ}
use palma2pro_eos.Ebc.Device.{
  Call, jot, open_ebc, ioctl, mmap, load, store, memset, close, Run, before, stop_at,
}
use palma2pro_eos.Ebc.Device.Journal.{IsPrefix, IsPrefix-nil, IsPrefix-append}

-- the calls without the journal
unfoldable pub device : List Call → List Call
device [] = []
device (jot _ ∷ calls) = device calls
device (open_ebc ∷ calls) = open_ebc ∷ device calls
device (ioctl fd request arg ∷ calls) = ioctl fd request arg ∷ device calls
device (mmap fd len offset ∷ calls) = mmap fd len offset ∷ device calls
device (load a ∷ calls) = load a ∷ device calls
device (store a v ∷ calls) = store a v ∷ device calls
device (memset v len ∷ calls) = memset v len ∷ device calls
device (close fd ∷ calls) = close fd ∷ device calls

device-append : (xs ys : List Call) → device (xs ++ ys) ≡ device xs ++ device ys
unfolding device
device-append [] ys = refl
device-append (jot _ ∷ xs) ys = device-append xs ys
device-append (open_ebc ∷ xs) ys = rw (device-append xs ys) refl
device-append (ioctl _ _ _ ∷ xs) ys = rw (device-append xs ys) refl
device-append (mmap _ _ _ ∷ xs) ys = rw (device-append xs ys) refl
device-append (load _ ∷ xs) ys = rw (device-append xs ys) refl
device-append (store _ _ ∷ xs) ys = rw (device-append xs ys) refl
device-append (memset _ _ ∷ xs) ys = rw (device-append xs ys) refl
device-append (close _ ∷ xs) ys = rw (device-append xs ys) refl

-- On the device, `a` does the beginning of what `b` does.
abbrev pub Begins : Run → Run → Type 0
Begins a b = IsPrefix (device a.0) (device b.0)

pub before-Begins :
    (calls : List Call) (a b : Run) → Begins a b → Begins (before calls a) (before calls b)
unfolding before
before-Begins calls a b p =
    rw (device-append calls a.0, device-append calls b.0)
      (IsPrefix-append (device calls) (device a.0) (device b.0) p)

pub Begins-refl : (a : Run) → Begins a a
Begins-refl a = ([], append-nil (device a.0))

pub if-Begins :
    (c : Bool) (a a' b b' : Run)
    → Begins a a'
    → Begins b b'
    → Begins (if c then a else b) (if c then a' else b')
if-Begins true a a' b b' h k = h
if-Begins false a a' b b' h k = k

pub if-All :
    (P : Call → Type 0) (c : Bool) (a b : Run)
    → All P a.0
    → All P b.0
    → All P (if c then a else b).0
if-All P true a b h k = h
if-All P false a b h k = k

pub stop_at-Begins :
    (i j k : ℕ) (line : String) (a b : Run)
    → k ≤ i
    → i ≤ j
    → (k < i → Begins a b)
    → Begins (stop_at (pos i) (pos k) line a) (stop_at (pos j) (pos k) line b)
unfolding stop_at device
stop_at-Begins i j k line a b hk hij further = elim (Bool-cases (eqb_ℤ (pos i) (pos k))) [
  | inl e ↦ rw e (IsPrefix-nil _)
  | inr e ↦
      let other : eqb_ℤ (pos j) (pos k) ≡ false = ground arith in
      rw (e, other) (further (ground arith))
]

pub stop_at-All :
    (P : Call → Type 0) (i k : ℕ) (line : String) (a : Run)
    → k ≤ i
    → P (jot line)
    → (k < i → All P a.0)
    → All P (stop_at (pos i) (pos k) line a).0
unfolding stop_at
stop_at-All P i k line a hk ok further = elim (Bool-cases (eqb_ℤ (pos i) (pos k))) [
  | inl e ↦ rw e (ok, tt)
  | inr e ↦ rw e (further (ground arith))
]

pub before-All :
    (P : Call → Type 0) (calls : List Call) (a : Run)
    → All P calls
    → All P a.0
    → All P (before calls a).0
unfolding before
before-All P calls a h k = All-append P calls a.0 h k
