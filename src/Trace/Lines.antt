-- ===== src/Trace/Lines.antt =====
-- Nothing that the library logs is cut off, and nothing beside its buffers is read or written.
use Prim.Native.String.{String}
use palma2pro_eos.Base.{
  ℕ, zero, suc, ◌+◌, ◌*◌, ◌/◌, ◌%◌, ◌^◌, ◌≤◌, ◌<◌, ◌≡◌, refl, inl, inr, Bool, true, false, Option,
  none, some, List, [], ◌∷◌, ◌++◌, arith, ◌==◌, if◌then◌else◌, codes, length, All, All-append,
  Bool-cases,
}
use palma2pro_eos.Base.Int.{ℤ, pos, eqb_ℤ, leb_ℤ, IsInt32}
use palma2pro_eos.Print.{Piece, lit, int, Line, empty, put}
use palma2pro_eos.Print.Widths.{IsWhole, IsPrintable, widths, put-IsWhole}
use palma2pro_eos.Trace.{
  Trace, Pointer, null, block, Env, Call, open_log, write_log, readlink, real_ioctl, emit, load,
  attached_line, word, hex_row, hex_loop, int_loop, tag_line, dump_line, bytes_before, bytes_after,
  dump_arg, look, entry, update_pieces, update_line, result_line, kind_name, head_line, tail_line,
  traced, update_or, forward, ensure, ioctl,
}

-- whole, and at most `n` bytes long so far
abbrev Fits : ℕ → ℕ → Line → Type 0
Fits cap n l = IsWhole cap l × (l.off ≤ n)

put-Fits :
    (cap n : ℕ) (ps : List Piece) (l : Line)
    → Fits cap n l
    → All IsPrintable ps
    → n + widths ps < cap
    → Fits cap (n + widths ps) (put cap ps l)
put-Fits cap n ps l (w, off) ok fits =
    let r = put-IsWhole cap ps l w ok (omega arith) in (r.0, omega (arith, r.2))

Fits-more : (cap m n : ℕ) (l : Line) → Fits cap m l → m ≤ n → Fits cap n l
Fits-more cap m n l (w, off) h = (w, omega arith)

empty-Fits : (cap : ℕ) → 0 < cap → Fits cap 0 empty
empty-Fits cap h = (record { fits = h; kept = refl }, omega arith)

pub word-IsInt32 : (b : ℕ → ℕ) (i : ℕ) → IsInt32 (word b i)
word-IsInt32 b i = lem _
  where
    lem : (n : ℕ) → IsInt32 (palma2pro_eos.Base.Int.signed (2 ^ 32) (n % 2 ^ 32))
    lem n = ground arith

-- how long the dump of i bytes can be, behind the tag
abbrev hex_width : ℕ → ℕ
hex_width i = 8 + 3 * i + 7 * ((i + 15) / 16)

-- the same with the break in front of byte i
abbrev row_width : ℕ → ℕ
row_width i = 8 + 3 * i + 7 * ((i + 16) / 16)

hex_row-Fits :
    (i : ℕ) (l : Line) → i < 48 → Fits 512 (hex_width i) l → Fits 512 (row_width i) (hex_row i l)
unfolding hex_row
hex_row-Fits i l small f = elim (Bool-cases (i % 16 == 0)) [
  | inl z ↦ rw z (
      Fits-more 512 _ (row_width i) _
        (put-Fits 512 (hex_width i) (lit "\n      " ∷ []) l f (tt, tt) (omega arith))
        (ground arith))
  | inr z ↦ rw z (Fits-more 512 (hex_width i) (row_width i) l f (omega arith))
]

hex_loop-Fits :
    (b : ℕ → ℕ) (n i : ℕ) (l : Line)
    → i + n ≡ 48
    → Fits 512 (hex_width i) l
    → Fits 512 173 (hex_loop b n i l)
unfolding hex_loop
hex_loop-Fits b zero i l e f = Fits-more 512 (hex_width i) 173 l f (omega arith)
hex_loop-Fits b (suc n) i l e f = hex_loop-Fits b n (i + 1) _ (omega arith) (
    Fits-more 512 _ (hex_width (i + 1)) _
      (put-Fits 512 (row_width i) _ _ (hex_row-Fits i l (omega arith) f) (tt, (tt, tt))
        (omega arith))
      (omega arith))

int_loop-Fits :
    (b : ℕ → ℕ) (n i : ℕ) (l : Line)
    → i + n ≡ 12
    → Fits 512 (189 + 12 * i) l
    → Fits 512 333 (int_loop b n i l)
unfolding int_loop
int_loop-Fits b zero i l e f = Fits-more 512 (189 + 12 * i) 333 l f (omega arith)
int_loop-Fits b (suc n) i l e f = int_loop-Fits b n (i + 1) _ (omega arith) (
    Fits-more 512 _ (189 + 12 * (i + 1)) _
      (put-Fits 512 (189 + 12 * i) _ l f (tt, (word-IsInt32 b i, tt)) (omega arith)) (omega arith))

tag_line-Fits : (tag : String) → length (codes tag) ≡ 3 → Fits 512 8 (tag_line tag)
tag_line-Fits tag h =
    Fits-more 512 _ 8 _
      (put-Fits 512 0 (lit "    " ∷ lit tag ∷ lit ":" ∷ []) empty (empty-Fits 512 (omega arith))
        (tt, (tt, (tt, tt))) (omega arith))
      (omega arith)

dump_line-IsWhole :
    (tag : String) (p : Option (ℕ → ℕ)) → length (codes tag) ≡ 3 → IsWhole 512 (dump_line tag p)
unfolding dump_line
dump_line-IsWhole tag none h =
    (put-Fits 512 8 (lit " (null)\n" ∷ []) _ (tag_line-Fits tag h) (tt, tt) (omega arith)).0
dump_line-IsWhole tag (some b) h =
    let bytes_fit = hex_loop-Fits b 48 0 _ refl (tag_line-Fits tag h) in
    let head_fits =
      put-Fits 512 173 (lit "\n      as int32:" ∷ []) _ bytes_fit (tt, tt) (omega arith) in
    let words_fit = int_loop-Fits b 12 0 _ refl head_fits in
    (put-Fits 512 333 (lit "\n" ∷ []) _ words_fit (tt, tt) (omega arith)).0

attached_line-IsWhole : (pid : ℤ) → IsInt32 pid → IsWhole 128 (attached_line pid)
attached_line-IsWhole pid h =
    (put-Fits 128 0 (lit "\n=== ebctrace attached, pid " ∷ int pid ∷ lit " ===\n" ∷ []) empty
      (empty-Fits 128 (omega arith)) (tt, (h, (tt, tt))) (omega arith)).0

tail_line-IsWhole : (rc : ℤ) → IsInt32 rc → IsWhole 160 (tail_line rc)
tail_line-IsWhole rc h =
    (put-Fits 160 0 (lit "    -> rc=" ∷ int rc ∷ lit "\n" ∷ []) empty (empty-Fits 160 (omega arith))
      (tt, (h, (tt, tt))) (omega arith)).0

pub update_pieces-IsPrintable :
    (w : ℕ → ℤ) → ((i : ℕ) → IsInt32 (w i)) → All IsPrintable (update_pieces w)
update_pieces-IsPrintable f w = (
  tt,
  (
    w 0,
    (
      tt,
      (
        w 1,
        (
          tt,
          (
            w 2,
            (
              tt,
              (
                w 3,
                (tt, (w 4, (tt, (w 5, (tt, (w 6, (tt, (w 7, (tt, (w 8, (tt, (w 9, tt)))))))))))),
              ),
            ),
          ),
        ),
      ),
    ),
  ),
)

pub widths-update_pieces : (w : ℕ → ℤ) → widths (update_pieces w) ≤ 182
widths-update_pieces w = omega arith

update_line-Fits : (b : ℕ → ℕ) → Fits 256 182 (update_line b)
update_line-Fits b =
    Fits-more 256 _ 182 _
      (put-Fits 256 0 (update_pieces (word b)) empty (empty-Fits 256 (omega arith))
        (update_pieces-IsPrintable (word b) (word-IsInt32 b)) (omega arith))
      (omega arith)

result_line-IsWhole : (rc : ℤ) (b : ℕ → ℕ) → IsInt32 rc → IsWhole 256 (result_line rc b)
result_line-IsWhole rc b h =
    (put-Fits 256 182 (lit " -> rc=" ∷ int rc ∷ lit "\n" ∷ []) _ (update_line-Fits b)
      (tt, (h, (tt, tt))) (omega arith)).0

head_line-IsWhole :
    (kind request fd : ℤ) → IsInt32 request → IsInt32 fd → IsWhole 160 (head_line kind request fd)
head_line-IsWhole kind request fd r f =
    let name : length (codes (kind_name kind)) ≡ 3 = elim (Bool-cases (eqb_ℤ kind (pos 1))) [
      | inl e ↦ rw e refl
      | inr e ↦ rw e refl
    ] in
    (put-Fits 160 0 _ empty (empty-Fits 160 (omega arith))
      (tt, (tt, (tt, (r, (tt, (r, (tt, (f, (tt, tt))))))))) (omega arith)).0

-- a write to the log gives no byte that is not in its buffer
abbrev pub IsWholeWrite : Call → Type 0
IsWholeWrite (write_log fd size l) = IsWhole size l
IsWholeWrite open_log = Unit
IsWholeWrite (readlink fd) = Unit
IsWholeWrite (real_ioctl fd request p) = Unit

emit-IsWhole :
    (logfd : ℤ) (size : ℕ) (l : Line) → IsWhole size l → All IsWholeWrite (emit logfd size l)
unfolding emit
emit-IsWhole logfd size l h = elim (Bool-cases (leb_ℤ (pos 0) logfd)) [
  | inl e ↦ rw e (h, tt)
  | inr e ↦ rw e tt
]

dump_arg-IsWhole :
    (logfd : ℤ) (tag : String) (p : Option (ℕ → ℕ))
    → length (codes tag) ≡ 3
    → All IsWholeWrite (dump_arg logfd tag p)
unfolding dump_arg
dump_arg-IsWhole logfd tag p h = emit-IsWhole logfd 512 _ (dump_line-IsWhole tag p h)

module _ (e : Env) (logfd kind fd request : ℤ) (rc : IsInt32 e.rc) (r : IsInt32 request)
    (f : IsInt32 fd) where
  traced-IsWhole : (p : Pointer) → All IsWholeWrite (traced e logfd kind fd request p)
  unfolding traced
  traced-IsWhole p =
      let out : List Call =
        emit logfd 160 (tail_line e.rc) ++ dump_arg logfd "out" (bytes_after p) in
      let rest : All IsWholeWrite (real_ioctl fd request p ∷ out) = (
        tt,
        All-append IsWholeWrite _ _ (emit-IsWhole logfd 160 _ (tail_line-IsWhole e.rc rc))
            (dump_arg-IsWhole logfd "out" (bytes_after p) refl),
      ) in
      All-append IsWholeWrite _ _
        (All-append IsWholeWrite _ _
          (emit-IsWhole logfd 160 _ (head_line-IsWhole kind request fd r f))
          (dump_arg-IsWhole logfd "in " (bytes_before p) refl))
        rest

  update_or-IsWhole : (p : Pointer) → All IsWholeWrite (update_or e logfd kind fd request p)
  unfolding update_or
  update_or-IsWhole null = traced-IsWhole null
  update_or-IsWhole (block b a) = elim (Bool-cases (eqb_ℤ request (pos 0x700c))) [
    | inl u ↦ rw u (tt, emit-IsWhole logfd 256 _ (result_line-IsWhole e.rc b rc))
    | inr u ↦ rw u (traced-IsWhole (block b a))
  ]

  forward-IsWhole : (p : Pointer) → All IsWholeWrite (forward e logfd kind fd request p)
  unfolding forward
  forward-IsWhole p = elim (Bool-cases (eqb_ℤ kind (pos 0))) [
    | inl z ↦ rw z (tt, tt)
    | inr z ↦ rw z (update_or-IsWhole p)
  ]

look-IsWhole : (e : Env) (fd : ℤ) (kinds : List ℤ) → All IsWholeWrite (look e fd kinds).calls
unfolding look entry
look-IsWhole e fd kinds = ground arith

ensure-IsWhole : (e : Env) (s : Trace) → IsInt32 e.pid → All IsWholeWrite (ensure e s).1
unfolding ensure load
ensure-IsWhole e s h = elim (Bool-cases s.resolved) [
  | inl r ↦ simp (r) tt
  | inr r ↦ simp (r) (tt, emit-IsWhole e.log 128 _ (attached_line-IsWhole e.pid h))
]

-- Where the process id, the result, the descriptor and the request are ints: every line that a call
-- writes has been printed without a cut, and the bytes that are written all lie in its buffer, which
-- has room for the zero as well; this holds for the dumps of any 48 bytes, and of a null pointer.
pub ioctl-IsWhole :
    (e : Env) (fd request : ℤ) (p : Pointer) (s : Trace)
    → IsInt32 e.pid
    → IsInt32 e.rc
    → IsInt32 fd
    → IsInt32 request
    → All IsWholeWrite (ioctl e fd request p s).1
unfolding ioctl
ioctl-IsWhole e fd request p s pid rc f r =
    All-append IsWholeWrite _ _
      (All-append IsWholeWrite _ _ (ensure-IsWhole e s pid) (look-IsWhole e fd _))
      (forward-IsWhole e _ _ fd request rc r f p)
