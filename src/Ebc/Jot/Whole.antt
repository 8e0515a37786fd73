-- ===== src/Ebc/Jot/Whole.antt =====
-- A line of words reaches the journal whole.
use Prim.Native.String.{String}
use mathlib.Core.List.{append_assoc, append-nil}
use palma2pro_eos.Base.{
  ℕ, zero, suc, ◌+◌, ◌*◌, ◌≤◌, ◌<◌, ◌≡◌, refl, ap, sym, ◌∙◌, true, false, some, List, [], ◌∷◌, ◌++◌,
  arith, ltb, length, take, codes, All,
}
use palma2pro_eos.Base.Int.{ℤ, IsInt32}
use palma2pro_eos.Print.{Piece, lit, int, piece, render, Line, empty, put}
use palma2pro_eos.Print.Widths.{IsWhole, IsPrintable, widths, put-IsWhole, length-render, take_all}
use palma2pro_eos.Ebc.Device.{BufInfo}
use palma2pro_eos.Ebc.Jot.{jot_bytes, jot, word_loop, dump_words, info_pieces}

render-append : (ps qs : List Piece) → render (ps ++ qs) ≡ render ps ++ render qs
unfolding render
render-append [] qs = refl
render-append (p ∷ ps) qs =
    ap (λ l. piece p ++ l) (render-append ps qs)
    ∙ sym (append_assoc (piece p) (render ps) (render qs))

-- n words from i on, each behind a space
unfoldable pub words_of : (ℕ → ℤ) → (n i : ℕ) → List Piece
words_of w zero i = []
words_of w (suc n) i = lit " " ∷ int (w i) ∷ words_of w n (i + 1)

words_of-widths : (w : ℕ → ℤ) (n i : ℕ) → widths (words_of w n i) ≡ 12 * n
unfolding words_of
words_of-widths w zero i = refl
words_of-widths w (suc n) i = omega (arith, words_of-widths w n (i + 1))

module _ (w : ℕ → ℤ) (ints : (i : ℕ) → IsInt32 (w i)) where
  words_of-IsPrintable : (n i : ℕ) → All IsPrintable (words_of w n i)
  unfolding words_of
  words_of-IsPrintable zero i = tt
  words_of-IsPrintable (suc n) i = (tt, (ints i, words_of-IsPrintable n (i + 1)))

  word_loop-whole :
      (n i : ℕ) (l : Line)
      → IsWhole 512 l
      → l.off + 12 * n < 508
      → (word_loop w n i l).bytes ≡ l.bytes ++ render (words_of w n i)
  unfolding word_loop words_of render
  word_loop-whole zero i l ok fits = sym (append-nil l.bytes)
  word_loop-whole (suc n) i l ok fits =
      let early : ltb l.off 496 ≡ true = ground arith in
      let one : List Piece = lit " " ∷ int (w i) ∷ [] in
      let (whole, bytes, off) = put-IsWhole 512 one l ok (tt, (ints i, tt)) (omega arith) in
      rw early (
        word_loop-whole n (i + 1) (put 512 one l) whole (omega (arith, off))
        ∙ ap (λ b. b ++ render (words_of w n (i + 1))) bytes
        ∙ append_assoc l.bytes (render one) _
        ∙ ap (λ b. l.bytes ++ b) (sym (render-append one (words_of w n (i + 1)))))

jot_bytes-short : (text : List ℕ) → length text ≤ 510 → jot_bytes text ≡ text ++ 0x0a ∷ []
unfolding jot_bytes
jot_bytes-short text h =
    let short : ltb 510 (length text) ≡ false = ground arith in
    rw short (
      ap (λ l. l ++ 0x0a ∷ [])
        (ap (take (length text)) (take_all 511 text (omega arith))
          ∙ take_all (length text) text (omega arith)))

-- Where the words are ints, and the label and twelve bytes for each word come to less than 500
-- bytes: the line is the label, a colon, and every word behind a space, as one call of `printf`
-- would give them; no word is left out and no byte is cut off on the way to the journal.
pub dump_words-whole :
    (log_fd : ℤ) (label : String) (w : ℕ → ℤ) (count : ℕ)
    → ((i : ℕ) → IsInt32 (w i))
    → length (codes label) + 12 * count < 500
    → let text = render (lit label ∷ lit ":" ∷ words_of w count 0) in
      (dump_words log_fd label w count ≡ jot log_fd (some text))
      × (jot_bytes text ≡ text ++ 0x0a ∷ [])
unfolding dump_words
dump_words-whole log_fd label w count ints fits =
    let head : List Piece = lit label ∷ lit ":" ∷ [] in
    let words = words_of w count 0 in
    let start : IsWhole 512 empty = record { fits = omega arith; kept = refl } in
    let (whole, bytes, off) = put-IsWhole 512 head empty start (tt, (tt, tt)) (omega arith) in
    let line =
      word_loop-whole w ints count 0 (put 512 head empty) whole (omega (arith, off))
      ∙ ap (λ b. b ++ render words) bytes
      ∙ sym (render-append head words) in
    (
      ap (λ b. jot log_fd (some b)) line,
      jot_bytes-short _ (
          omega (
            arith,
            length-render (head ++ words) (tt, (tt, words_of-IsPrintable w ints count 0)),
            words_of-widths w count 0,
          )),
    )

-- the fields are ints
abbrev pub IsFilled : BufInfo → Type 0
IsFilled i =
    (IsInt32 i.offset × IsInt32 i.epd_mode × IsInt32 i.width × IsInt32 i.height)
    × (IsInt32 i.panel_color × IsInt32 i.win_x1 × IsInt32 i.win_y1 × IsInt32 i.win_x2)
    × (IsInt32 i.win_y2 × IsInt32 i.width_mm × IsInt32 i.height_mm)

-- Nor is anything of the information of the buffer, under a label of at most 200 bytes.
dump_info-whole :
    (tag : String) (i : BufInfo)
    → IsFilled i
    → length (codes tag) ≤ 200
    → jot_bytes (render (info_pieces tag i)) ≡ render (info_pieces tag i) ++ 0x0a ∷ []
unfolding info_pieces
dump_info-whole tag i (a, b, c) short =
    let pieces = info_pieces tag i in
    let ok : All IsPrintable pieces = (
      tt,
      (
        tt,
        (
          tt,
          (
            a.0,
            (
              tt,
              (
                a.1,
                (
                  tt,
                  (
                    a.2,
                    (
                      tt,
                      (
                        a.3,
                        (
                          tt,
                          (
                            b.0,
                            (
                              tt,
                              (
                                b.1,
                                (
                                  tt,
                                  (
                                    b.2,
                                    (tt, (b.3, (tt, (c.0, (tt, (c.1, (tt, (c.2, (tt, tt))))))))),
                                  ),
                                ),
                              ),
                            ),
                          ),
                        ),
                      ),
                    ),
                  ),
                ),
              ),
            ),
          ),
        ),
      ),
    ) in
    jot_bytes-short _ (omega (arith, length-render pieces ok))
