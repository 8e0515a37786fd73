-- ===== src/Ebc/Fb.antt =====
-- src/ebcfb.c: a map of the panel's buffer that is only read, with a histogram of its bytes.
pub mod Histogram
pub mod Uniform
pub mod Extent
use palma2pro_eos.Base.{
  ℕ, zero, suc, ◌+◌, ◌-◌, ◌*◌, ◌/◌, ◌%◌, ◌^◌, Bool, Option, none, some, List, [], ◌∷◌, ◌++◌, ltb,
  leb, ◌==◌, if◌then◌else◌, codes,
}
use palma2pro_eos.Base.Int.{ℤ, pos, pos_part, ltb_ℤ}
use palma2pro_eos.Ebc.Device.{Text, strcmp_eq}

pub record Options : Type 0 where
  pub map_len : ℕ
  pub words : ℤ

-- What libc and the kernel answer.
pub record Env : Type 0 where
  pub fd : ℤ  -- what `open` of /dev/ebc returns
  pub info : ℕ → ℤ  -- the words of `info` behind the request
  pub mapping : ℕ → Option (ℕ → ℕ)  -- the bytes of a mapping of that length, unless `mmap` fails
  pub atoi : Text → ℤ
  pub strtoul : Text → ℕ  -- in base 0

pub data Call : Type 0 where
  open_ebc : Call
  ioctl : (fd request : ℤ) → Call
  show : (word : ℕ) → Call  -- a word of `info` is read and printed
  mmap : (fd : ℤ) (len : ℕ) → Call
  load : (address : ℕ) → Call  -- of a byte of the mapping
  munmap : (len : ℕ) → Call
  close : (fd : ℤ) → Call

-- an option that takes an argument
unfoldable pub option : Env → (a b : Text) → Options → Option Options
option e a b o =
    if strcmp_eq a (codes "--len")
    then some (record o { map_len = e.strtoul b })
    else if strcmp_eq a (codes "--words")
    then some (record o { words = e.atoi b })
    else none

-- the loop over `argv`, which `--help` ends
unfoldable pub read_args : Env → List Text → Options → Option Options
unfolding option
read_args e [] o = some o
read_args e (a ∷ []) o = if strcmp_eq a (codes "--help") then none else some o
read_args e (a ∷ b ∷ rest) o = elim (option e a b o) [
  | some o' ↦ read_args e rest o'
  | none ↦
      let others = read_args e (b ∷ rest) o in if strcmp_eq a (codes "--help") then none else others
]

-- the words that are printed
abbrev pub shown : ℤ → ℕ
shown words = if ltb_ℤ (pos 64) words then 64 else pos_part words

unfoldable pub shows : (n i : ℕ) → List Call
shows zero i = []
shows (suc n) i = show i ∷ shows n (i + 1)

abbrev pub side : (measured dflt : ℤ) → ℕ
side measured dflt = if ltb_ℤ (pos 0) measured then pos_part measured else pos_part dflt

unfoldable pub default_len : Env → ℕ
default_len e = side (e.info 3) (pos 1648) * side (e.info 2) (pos 824) % 2 ^ 64

-- `(map_len + 0xfff) & ~(size_t)0xfff`
unfoldable pub round_up : ℕ → ℕ
round_up len = let n = (len + 0xfff) % 2 ^ 64 in n - n % 0x1000

unfoldable pub map_len : Env → Options → ℕ
unfolding default_len round_up
map_len e o = round_up (if o.map_len == 0 then default_len e else o.map_len)

abbrev pub Hist : Type 0
Hist = ℕ → ℕ

-- `hist[v]++`
abbrev pub bump : Hist → ℕ → Hist
bump hist v = λ x. if x == v then (hist x + 1) % 2 ^ 64 else hist x

-- the first loop over the mapping, with `n` turns left, at i
unfoldable pub count_bytes : (ℕ → ℕ) → (n i : ℕ) → Hist → Hist
count_bytes mem zero i hist = hist
count_bytes mem (suc n) i hist = count_bytes mem n (i + 1) (bump hist (mem i))

pub record Tally : Type 0 where
  pub distinct : ℕ
  pub top : ℕ
  pub topval : ℕ

abbrev pub tally_step : Hist → ℕ → Tally → Tally
tally_step hist i t = record {
  distinct = if hist i == 0 then t.distinct else t.distinct + 1;
  top = if ltb t.top (hist i) then hist i else t.top;
  topval = if ltb t.top (hist i) then i else t.topval;
}

-- the loop over the histogram
unfoldable pub tally : Hist → (n i : ℕ) → Tally → Tally
tally hist zero i t = t
tally hist (suc n) i t = tally hist n (i + 1) (tally_step hist i t)

-- what is said of a mapping of n bytes
unfoldable pub survey : (ℕ → ℕ) → ℕ → Tally
unfolding count_bytes tally
survey mem n =
    tally (count_bytes mem n 0 (λ v. 0)) 256 0 (record { distinct = 0; top = 0; topval = 0 })

-- whether the verdict is UNIFORM
abbrev pub is_uniform : Tally → Bool
is_uniform t = leb t.distinct 2

-- a loop that reads n bytes from an address on
unfoldable pub loads : (n address : ℕ) → List Call
loads zero address = []
loads (suc n) address = load address ∷ loads n (address + 1)

-- the calls, the exit status, and what is found
pub record Outcome : Type 0 where
  pub calls : List Call
  pub status : ℤ
  pub found : Option Tally

-- from the test of what `mmap` has returned on
unfoldable pub inspect : Env → (len : ℕ) → Option (ℕ → ℕ) → Outcome
unfolding survey loads
inspect e len none = record { calls = close e.fd ∷ []; status = pos 2; found = none }
inspect e len (some mem) = record {
  calls = loads len 0 ++ loads 64 0 ++ loads 64 (len / 2) ++ (munmap len ∷ close e.fd ∷ []);
  status = pos 0;
  found = some (survey mem len);
}

-- `main` behind the options
unfoldable pub dump : Env → Options → Outcome
unfolding inspect map_len shows
dump e o =
    let rest = inspect e (map_len e o) (e.mapping (map_len e o)) in
    if ltb_ℤ e.fd (pos 0)
    then record { calls = open_ebc ∷ []; status = pos 1; found = none }
    else record rest {
      calls =
          (open_ebc ∷ ioctl e.fd (pos 0x7003) ∷ [])
          ++ shows (shown o.words) 0
          ++ (mmap e.fd (map_len e o) ∷ rest.calls);
    }

-- with the arguments behind the program's name
unfoldable pub main : Env → List Text → Outcome
unfolding read_args dump
main e args = elim (read_args e args (record { map_len = 0; words = pos 32 })) [
  | none ↦ record { calls = []; status = pos 0; found = none }
  | some o ↦ dump e o
]
