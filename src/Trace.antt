-- ===== src/Trace.antt =====
-- src/ebctrace.c: the `ioctl` that is preloaded into the vendor's display stack, logs what it is
-- called with on /dev/ebc and /dev/dri, and forwards it.
pub mod Lines
pub mod Forwards
pub mod Kinds
pub mod Layout
use Prim.Native.String.{String}
use palma2pro_eos.Base.{
  ℕ, zero, suc, ◌+◌, ◌*◌, ◌%◌, ◌^◌, Bool, true, false, ◌&&◌, Option, none, some, List, [], ◌∷◌,
  ◌++◌, ltb, ◌==◌, if◌then◌else◌, length, take, set, get_elem?, replicate, codes,
}
use palma2pro_eos.Base.Int.{ℤ, pos, negsuc, pos_part, signed, ltb_ℤ, leb_ℤ, eqb_ℤ}
use palma2pro_eos.Print.{Piece, lit, int, bits, byte, Line, empty, put}
use palma2pro_eos.Ebc.Device.{Text, strcmp_eq}
use palma2pro_eos.Ebc.Tool.{c_text}

-- the static variables; `real_ioctl` is set once the constructor has run
pub record Trace : Type 0 where
  pub resolved : Bool
  pub logfd : ℤ
  pub fdkind : List ℤ

abbrev pub max_fd : ℕ
max_fd = 1024

-- before the constructor: static memory is zero
abbrev pub unloaded : Trace
unloaded = record { resolved = false; logfd = negsuc 0; fdkind = replicate max_fd (pos 0) }

-- The pointer that the caller passes: null, or at least 48 bytes, which the driver may change.
pub data Pointer : Type 0 where
  null : Pointer
  block : (before after : ℕ → ℕ) → Pointer

-- What libc and the kernel answer during one call.
pub record Env : Type 0 where
  pub log : ℤ  -- what `open` of the log returns
  pub pid : ℤ
  pub link : ℤ → Option Text  -- what /proc/self/fd says of a descriptor; its first 255 bytes are read
  pub rc : ℤ  -- what the real `ioctl` returns

-- What the library does, in its order.
pub data Call : Type 0 where
  open_log : Call
  write_log : (fd : ℤ) (size : ℕ) → Line → Call  -- a line in a buffer of that size
  readlink : (fd : ℤ) → Call
  real_ioctl : (fd request : ℤ) → Pointer → Call

unfoldable pub emit : ℤ → (size : ℕ) → Line → List Call
emit logfd size l = if leb_ℤ (pos 0) logfd then write_log logfd size l ∷ [] else []

abbrev pub attached_line : ℤ → Line
attached_line pid =
    put 128 (lit "\n=== ebctrace attached, pid " ∷ int pid ∷ lit " ===\n" ∷ []) empty

-- `ebctrace_init`
unfoldable pub load : Env → Trace → Trace × List Call
load e s = (
  record { resolved = true; logfd = e.log; fdkind = replicate max_fd (negsuc 0) },
  open_log ∷ emit e.log 128 (attached_line e.pid),
)

-- `strncmp(tgt, prefix, length of prefix) == 0`
unfoldable pub strncmp_eq : Text → Text → Bool
strncmp_eq tgt [] = true
strncmp_eq [] (y ∷ prefix) = false
strncmp_eq (x ∷ tgt) (y ∷ prefix) = x == y && strncmp_eq tgt prefix

unfoldable pub kind_of : Text → ℤ
unfolding strncmp_eq
kind_of tgt =
    if length tgt == 0
    then pos 0
    else if strcmp_eq (c_text tgt) (codes "/dev/ebc")
    then pos 1
    else if strncmp_eq (c_text tgt) (codes "/dev/dri/")
    then pos 2
    else pos 0

unfoldable pub classify : Env → ℤ → ℤ
unfolding kind_of
classify e fd = elim (e.link fd) [ none ↦ pos 0 | some tgt ↦ kind_of (take 255 tgt) ]

-- word i of the bytes at a pointer
abbrev pub word : (ℕ → ℕ) → ℕ → ℤ
word b i =
    let n = b (4 * i) + 2 ^ 8 * b (4 * i + 1) + 2 ^ 16 * b (4 * i + 2) + 2 ^ 24 * b (4 * i + 3) in
    signed (2 ^ 32) (n % 2 ^ 32)

-- the break in front of byte i, if a row begins with it
unfoldable pub hex_row : ℕ → Line → Line
hex_row i l = if i % 16 == 0 then put 512 (lit "\n      " ∷ []) l else l

-- the loop over the bytes with `n` turns left, at i
unfoldable pub hex_loop : (ℕ → ℕ) → (n i : ℕ) → Line → Line
unfolding hex_row
hex_loop b zero i l = l
hex_loop b (suc n) i l = hex_loop b n (i + 1) (put 512 (byte (b i) ∷ lit " " ∷ []) (hex_row i l))

-- the loop over the words
unfoldable pub int_loop : (ℕ → ℕ) → (n i : ℕ) → Line → Line
int_loop b zero i l = l
int_loop b (suc n) i l = int_loop b n (i + 1) (put 512 (lit " " ∷ int (word b i) ∷ []) l)

abbrev pub tag_line : String → Line
tag_line tag = put 512 (lit "    " ∷ lit tag ∷ lit ":" ∷ []) empty

unfoldable pub dump_line : String → Option (ℕ → ℕ) → Line
unfolding hex_loop int_loop
dump_line tag none = put 512 (lit " (null)\n" ∷ []) (tag_line tag)
dump_line tag (some b) =
    put 512 (lit "\n" ∷ [])
      (int_loop b 12 0 (put 512 (lit "\n      as int32:" ∷ []) (hex_loop b 48 0 (tag_line tag))))

abbrev pub bytes_before : Pointer → Option (ℕ → ℕ)
bytes_before null = none
bytes_before (block b a) = some b

abbrev pub bytes_after : Pointer → Option (ℕ → ℕ)
bytes_after null = none
bytes_after (block b a) = some a

-- `dump_arg`
unfoldable pub dump_arg : ℤ → String → Option (ℕ → ℕ) → List Call
unfolding dump_line
dump_arg logfd tag p = emit logfd 512 (dump_line tag p)

-- What `kind` and the table come to, with the call that a first classification makes.
pub record Look : Type 0 where
  pub kinds : List ℤ
  pub kind : ℤ
  pub calls : List Call

-- with the entry of the table, if the descriptor has one
unfoldable pub entry : Env → ℤ → List ℤ → Option ℤ → Look
entry e fd kinds none = record { kinds = kinds; kind = pos 0; calls = [] }
entry e fd kinds (some k) =
    if eqb_ℤ k (negsuc 0)
    then record {
      kinds = set kinds (pos_part fd) (classify e fd);
      kind = classify e fd;
      calls = readlink fd ∷ [];
    }
    else record { kinds = kinds; kind = k; calls = [] }

unfoldable pub look : Env → ℤ → List ℤ → Look
unfolding entry
look e fd kinds =
    if leb_ℤ (pos 0) fd && ltb_ℤ fd (pos max_fd)
    then entry e fd kinds (get_elem? kinds (pos_part fd))
    else record { kinds = kinds; kind = pos 0; calls = [] }

-- the part for SET_EBC_SEND_UPDATE: one line in two calls
abbrev pub update_pieces : (ℕ → ℤ) → List Piece
update_pieces w =
    lit "UPD rect=("
    ∷ int (w 0)
    ∷ lit ","
    ∷ int (w 1)
    ∷ lit ")-("
    ∷ int (w 2)
    ∷ lit ","
    ∷ int (w 3)
    ∷ lit ") wf="
    ∷ int (w 4)
    ∷ lit " mode="
    ∷ int (w 5)
    ∷ lit " marker="
    ∷ int (w 6)
    ∷ lit " f1c="
    ∷ int (w 7)
    ∷ lit " flags="
    ∷ bits (w 8)
    ∷ lit " f24="
    ∷ int (w 9)
    ∷ []

abbrev pub update_line : (ℕ → ℕ) → Line
update_line b = put 256 (update_pieces (word b)) empty

abbrev pub result_line : ℤ → (ℕ → ℕ) → Line
result_line rc b = put 256 (lit " -> rc=" ∷ int rc ∷ lit "\n" ∷ []) (update_line b)

abbrev pub kind_name : ℤ → String
kind_name k = if eqb_ℤ k (pos 1) then "ebc" else "dri"

abbrev pub head_line : (kind request fd : ℤ) → Line
head_line kind request fd =
    put 160
      (lit "\n["
        ∷ lit (kind_name kind)
        ∷ lit "] ioctl req="
        ∷ bits request
        ∷ lit " ("
        ∷ int request
        ∷ lit ") fd="
        ∷ int fd
        ∷ lit "\n"
        ∷ [])
      empty

abbrev pub tail_line : ℤ → Line
tail_line rc = put 160 (lit "    -> rc=" ∷ int rc ∷ lit "\n" ∷ []) empty

-- a call on any other descriptor, or with any other request
unfoldable pub traced : Env → ℤ → (kind fd request : ℤ) → Pointer → List Call
traced e logfd kind fd request p =
    let after = emit logfd 160 (tail_line e.rc) ++ dump_arg logfd "out" (bytes_after p) in
    emit logfd 160 (head_line kind request fd)
    ++ dump_arg logfd "in " (bytes_before p)
    ++ (real_ioctl fd request p ∷ after)

-- the call of SET_EBC_SEND_UPDATE, unless it has no argument
unfoldable pub update_or : Env → ℤ → (kind fd request : ℤ) → Pointer → List Call
unfolding traced
update_or e logfd kind fd request null = traced e logfd kind fd request null
update_or e logfd kind fd request (block b a) =
    if eqb_ℤ request (pos 0x700c)
    then real_ioctl fd request (block b a) ∷ emit logfd 256 (result_line e.rc b)
    else traced e logfd kind fd request (block b a)

-- from the test of `kind` on
unfoldable pub forward : Env → ℤ → (kind fd request : ℤ) → Pointer → List Call
forward e logfd kind fd request p =
    if eqb_ℤ kind (pos 0) then real_ioctl fd request p ∷ [] else update_or e logfd kind fd request p

-- the constructor's work, if it has not been done
unfoldable pub ensure : Env → Trace → Trace × List Call
ensure e s = if s.resolved then (s, []) else load e s

-- the interposed `ioctl`: the state, the calls and the result
unfoldable pub ioctl : Env → (fd request : ℤ) → Pointer → Trace → Trace × List Call × ℤ
ioctl e fd request p s =
    let (s₁, calls) = ensure e s in
    let l = look e fd s₁.fdkind in
    (
      record s₁ { fdkind = l.kinds },
      calls ++ l.calls ++ forward e s₁.logfd l.kind fd request p,
      e.rc,
    )
