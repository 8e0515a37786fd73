-- ===== src/Trace/Layout.antt =====
-- The struct that the tools submit, in the bytes that src/ebctrace.c reads.
use palma2pro_eos.Base.{ℕ, zero, suc, ◌≡◌, refl, ap, ◌∙◌, true, false, List, [], ◌∷◌, ◌++◌, arith}
use palma2pro_eos.Base.Int.{ℤ, pos, IsInt32, leb_ℤ, eqb_ℤ, ◌≤ℤ◌}
use palma2pro_eos.Base.Words.{bytes_of_words, word_at-bytes_of_words}
use palma2pro_eos.Ebc.Device.{SendUpdate}
use palma2pro_eos.Print.{Piece, lit, int, bits, render, Line, empty, put}
use palma2pro_eos.Print.Widths.{IsWhole, put-IsWhole}
use palma2pro_eos.Trace.{
  Env, write_log, real_ioctl, block, emit, word, update_pieces, result_line, update_or, forward,
}
use palma2pro_eos.Trace.Lines.{word-IsInt32, update_pieces-IsPrintable, widths-update_pieces}

-- the fields of the struct in their order
unfoldable pub field : SendUpdate → ℕ → ℤ
field u zero = u.x
field u (suc zero) = u.y
field u (suc (suc zero)) = u.right
field u (suc (suc (suc zero))) = u.bottom
field u (suc (suc (suc (suc zero)))) = u.waveform_mode
field u (suc (suc (suc (suc (suc zero))))) = u.update_mode
field u (suc (suc (suc (suc (suc (suc zero)))))) = u.update_marker
field u (suc (suc (suc (suc (suc (suc (suc zero))))))) = u.unknown_1c
field u (suc (suc (suc (suc (suc (suc (suc (suc zero)))))))) = u.flags
field u (suc (suc (suc (suc (suc (suc (suc (suc (suc i))))))))) = u.unknown_24

-- the bytes of the struct in memory
unfoldable pub bytes_of : SendUpdate → ℕ → ℕ
unfolding bytes_of_words
bytes_of u = bytes_of_words (field u)

-- The trace reads each field as it was written.
word-field : (u : SendUpdate) (i : ℕ) → IsInt32 (field u i) → word (bytes_of u) i ≡ field u i
unfolding bytes_of
word-field u i h = word_at-bytes_of_words (field u) i h

-- a value of each field fits an `int32_t`
abbrev pub IsUpdate : SendUpdate → Type 0
IsUpdate u =
    IsInt32 u.x
    × IsInt32 u.y
    × IsInt32 u.right
    × IsInt32 u.bottom
    × IsInt32 u.waveform_mode
    × IsInt32 u.update_mode
    × IsInt32 u.update_marker
    × IsInt32 u.unknown_1c
    × IsInt32 u.flags
    × IsInt32 u.unknown_24

-- each field of an update behind its name
abbrev pub named_fields : SendUpdate → List Piece
named_fields u =
    lit "UPD rect=("
    ∷ int u.x
    ∷ lit ","
    ∷ int u.y
    ∷ lit ")-("
    ∷ int u.right
    ∷ lit ","
    ∷ int u.bottom
    ∷ lit ") wf="
    ∷ int u.waveform_mode
    ∷ lit " mode="
    ∷ int u.update_mode
    ∷ lit " marker="
    ∷ int u.update_marker
    ∷ lit " f1c="
    ∷ int u.unknown_1c
    ∷ lit " flags="
    ∷ bits u.flags
    ∷ lit " f24="
    ∷ int u.unknown_24
    ∷ []

update_pieces-field :
    (u : SendUpdate) → IsUpdate u → update_pieces (word (bytes_of u)) ≡ named_fields u
unfolding field
update_pieces-field u h =
    rw
      (
        word-field u 0 h.0,
        word-field u 1 h.1,
        word-field u 2 h.2,
        word-field u 3 h.3,
        word-field u 4 h.4,
        word-field u 5 h.5,
        word-field u 6 h.6,
        word-field u 7 h.7,
        word-field u 8 h.8,
        word-field u 9 h.9,
      )
      refl

-- the line for an update and the result of its request
abbrev pub line_of : SendUpdate → ℤ → List ℕ
line_of u rc = render (named_fields u) ++ render (lit " -> rc=" ∷ int rc ∷ lit "\n" ∷ [])

result_line-line_of :
    (u : SendUpdate) (rc : ℤ)
    → IsUpdate u
    → IsInt32 rc
    → (result_line rc (bytes_of u)).bytes ≡ line_of u rc
result_line-line_of u rc h r =
    let ps = update_pieces (word (bytes_of u)) in
    let new : IsWhole 256 empty = record { fits = omega arith; kept = refl } in
    let (whole, bytes, off) =
      put-IsWhole 256 ps empty new
        (update_pieces-IsPrintable (word (bytes_of u)) (word-IsInt32 (bytes_of u)))
        (omega (arith, widths-update_pieces (word (bytes_of u)))) in
    let (whole', bytes', off') =
      put-IsWhole 256 (lit " -> rc=" ∷ int rc ∷ lit "\n" ∷ []) (put 256 ps empty) whole
        (tt, (r, (tt, tt))) (omega (arith, off, widths-update_pieces (word (bytes_of u)))) in
    bytes'
    ∙ ap (λ l. l ++ render (lit " -> rc=" ∷ int rc ∷ lit "\n" ∷ []))
        (bytes ∙ ap render (update_pieces-field u h))

-- An update that a tool submits by SET_EBC_SEND_UPDATE on a traced descriptor, in the bytes of its
-- struct, with a log that is open: the real request is made with these bytes, and then one line is
-- written. It holds each of the ten fields with the value that the tool has put in it, whatever the
-- values, under its name: rect, wf, mode, marker, f1c, flags (as hexadecimal), f24; and the result of
-- the request. Nothing of it is cut.
pub forward-line_of :
    (e : Env) (logfd kind fd : ℤ) (u : SendUpdate) (after : ℕ → ℕ)
    → IsUpdate u
    → IsInt32 e.rc
    → pos 0 ≤ℤ logfd
    → eqb_ℤ kind (pos 0) ≡ false
    → (l : Line) × (l.bytes ≡ line_of u e.rc)
      × (forward e logfd kind fd (pos 0x700c) (block (bytes_of u) after)
          ≡ real_ioctl fd (pos 0x700c) (block (bytes_of u) after) ∷ write_log logfd 256 l ∷ [])
unfolding forward update_or emit
forward-line_of e logfd kind fd u after h r open_ traced =
    let log : leb_ℤ (pos 0) logfd ≡ true = ground arith in
    (result_line e.rc (bytes_of u), result_line-line_of u e.rc h r, rw (traced, log) refl)
