-- ===== src/Shim/Parms/Layout.antt =====
-- `g_parms` in memory, whose address goes to the kernel: eight structs of ten words.
use palma2pro_eos.Base.{
  ℕ, zero, suc, ◌+◌, ◌*◌, ◌/◌, ◌%◌, ◌<◌, ◌≤◌, ◌≡◌, refl, ap, sym, ◌∙◌, Bool, not, Option, none,
  some, List, [], ◌∷◌, arith, length, get_elem?, All,
}
use palma2pro_eos.Base.Int.{ℤ, pos, negsuc, IsInt32, ◌≤ℤ◌, eqb_ℤ}
use palma2pro_eos.Base.Words.{bytes_of_words, word_at, word_at-bytes_of_words}
use palma2pro_eos.Shim.State.{Rect, Upd, Tunables, Shim, epdc_damage_max, panel_w}
use palma2pro_eos.Shim.Parms.{
  Policy, policy, motion_wf, chosen, marker_of, write_parm, fill, init_parms,
}
use palma2pro_eos.Shim.Parms.Panel.{IsOnPanel, chosen-IsChoice}

-- word k of a `struct upd`
unfoldable pub upd_word : Upd → ℕ → ℤ
upd_word u zero = u.rect.left
upd_word u (suc zero) = u.rect.top
upd_word u (suc (suc zero)) = u.rect.right
upd_word u (suc (suc (suc zero))) = u.rect.bottom
upd_word u (suc (suc (suc (suc zero)))) = u.waveform_mode
upd_word u (suc (suc (suc (suc (suc zero))))) = u.update_mode
upd_word u (suc (suc (suc (suc (suc (suc zero)))))) = u.update_marker
upd_word u (suc (suc (suc (suc (suc (suc (suc zero))))))) = u.temp
upd_word u (suc (suc (suc (suc (suc (suc (suc (suc zero)))))))) = u.flag
upd_word u (suc (suc (suc (suc (suc (suc (suc (suc (suc k))))))))) = u.reserved

-- word k of an entry, if there is one
entry_word : Option Upd → ℕ → ℤ
entry_word none k = pos 0
entry_word (some u) k = upd_word u k

-- word w of the array, whose structs have 40 bytes each
unfoldable pub parms_word : List Upd → ℕ → ℤ
unfolding entry_word upd_word
parms_word parms w = entry_word (get_elem? parms (w / 10)) (w % 10)

-- the bytes from `&g_parms[0]` on
unfoldable pub parms_bytes : List Upd → ℕ → ℕ
unfolding bytes_of_words parms_word
parms_bytes parms = bytes_of_words (parms_word parms)

parms_word_lem :
    (parms : List Upd) (w : ℕ) → parms_word parms w ≡ entry_word (get_elem? parms (w / 10)) (w % 10)
unfolding parms_word
parms_word_lem parms w = refl

parms_word-at :
    (parms : List Upd) (i k : ℕ) (u : Upd)
    → k < 10
    → get_elem? parms i ≡ some u
    → parms_word parms (10 * i + k) ≡ upd_word u k
unfolding entry_word
parms_word-at parms i k u h at =
    let q : (10 * i + k) / 10 ≡ i = omega arith in
    let r : (10 * i + k) % 10 ≡ k = omega arith in
    rw (parms_word_lem parms (10 * i + k), q, r, at) refl

-- What is written to one entry is read as written, word by word.
parms_bytes-at :
    (parms : List Upd) (i k : ℕ) (u : Upd)
    → k < 10
    → get_elem? parms i ≡ some u
    → IsInt32 (upd_word u k)
    → word_at (parms_bytes parms) (10 * i + k) ≡ upd_word u k
unfolding parms_bytes
parms_bytes-at parms i k u h at fits =
    let e = parms_word-at parms i k u h at in
    word_at-bytes_of_words (parms_word parms) (10 * i + k) (rw e fits) ∙ e

fill-at :
    (p : Policy) (flag marker : ℤ) (rects : List Rect) (parms : List Upd) (i : ℕ) (r : Rect)
    → length rects ≤ length parms
    → get_elem? rects i ≡ some r
    → get_elem? (fill p flag marker rects parms) i ≡ some (write_parm p flag marker r)
unfolding fill
fill-at p flag marker [] parms i r fits at = cc
fill-at p flag marker (x ∷ xs) [] i r fits at = absurd (omega arith)
fill-at p flag marker (x ∷ xs) (u ∷ us) zero r fits at = ground arith
fill-at p flag marker (x ∷ xs) (u ∷ us) (suc i) r fits at =
    fill-at p flag marker xs us i r (omega arith) at

get_elem?-below :
    (xs : List Rect) (i : ℕ)
    → i < length xs
    → All IsOnPanel xs
    → (r : Rect) × (get_elem? xs i ≡ some r) × IsOnPanel r
get_elem?-below [] i h on = absurd (omega arith)
get_elem?-below (x ∷ xs) zero h on = (x, refl, on.0)
get_elem?-below (x ∷ xs) (suc i) h on = get_elem?-below xs i (omega arith) on.1

-- the tunables that are written to the array are ints, as `refresh_tunables` leaves them
pub record HasInts (t : Tunables) : Type 0 where
  pub wf : IsInt32 t.wf
  pub fastwf : IsInt32 t.fastwf
  pub upd : IsInt32 t.upd
  pub flag : IsInt32 t.flag

policy-ints :
    (t : Tunables) (count dt : ℤ) (force : Bool)
    → HasInts t
    → IsInt32 (policy t count dt force).wf × IsInt32 (policy t count dt force).upd
unfolding policy motion_wf
policy-ints t count dt force h = ground arith

-- the policy of a submission
abbrev pub policy_of : ℤ → ℤ → Shim → Policy
policy_of dt full s = policy s.tunables s.updates_since_full dt (not (eqb_ℤ full (pos 0)))

between_int : (a : ℤ) → pos 0 ≤ℤ a → a ≤ℤ panel_w → IsInt32 a
between_int (pos n) lo hi = omega arith
between_int (negsuc n) lo hi = absurd (omega arith)

edges_ints :
    (r : Rect) → IsOnPanel r → IsInt32 r.left × IsInt32 r.top × IsInt32 r.right × IsInt32 r.bottom
edges_ints r on = (
  between_int r.left on.left (omega arith),
  between_int r.top on.top (omega arith),
  between_int r.right (omega arith) (omega arith),
  between_int r.bottom (omega arith) (omega arith),
)

zero_int : IsInt32 (pos 0)
zero_int = omega arith

write_parm-ints :
    (p : Policy) (flag marker : ℤ) (r : Rect) (k : ℕ)
    → IsInt32 p.wf
    → IsInt32 p.upd
    → IsInt32 flag
    → IsInt32 marker
    → IsOnPanel r
    → k < 10
    → IsInt32 (upd_word (write_parm p flag marker r) k)
unfolding upd_word write_parm
write_parm-ints p flag marker r zero wf upd fits marked on h = (edges_ints r on).0
write_parm-ints p flag marker r (suc zero) wf upd fits marked on h = (edges_ints r on).1
write_parm-ints p flag marker r (suc (suc zero)) wf upd fits marked on h = (edges_ints r on).2
write_parm-ints p flag marker r (suc (suc (suc zero))) wf upd fits marked on h = (edges_ints r on).3
write_parm-ints p flag marker r (suc (suc (suc (suc zero)))) wf upd fits marked on h = wf
write_parm-ints p flag marker r (suc (suc (suc (suc (suc zero))))) wf upd fits marked on h = upd
write_parm-ints p flag marker r (suc (suc (suc (suc (suc (suc zero)))))) wf upd fits marked on h =
    marked
write_parm-ints p flag marker r (suc (suc (suc (suc (suc (suc (suc zero))))))) wf upd fits marked on
      h =
    zero_int
write_parm-ints p flag marker r (suc (suc (suc (suc (suc (suc (suc (suc zero)))))))) wf upd fits
      marked on h =
    fits
write_parm-ints p flag marker r (suc (suc (suc (suc (suc (suc (suc (suc (suc k))))))))) wf upd fits
      marked on h =
    zero_int

-- the ten words that an update should have
abbrev pub words_of : (r : Rect) (wf upd marker flag : ℤ) → List ℤ
words_of r wf upd marker flag =
    r.left ∷ r.top ∷ r.right ∷ r.bottom ∷ wf ∷ upd ∷ marker ∷ pos 0 ∷ flag ∷ pos 0 ∷ []

write_parm-words :
    (p : Policy) (flag marker : ℤ) (r : Rect) (k : ℕ)
    → k < 10
    → get_elem? (words_of r p.wf p.upd marker flag) k
      ≡ some (upd_word (write_parm p flag marker r) k)
unfolding upd_word write_parm
write_parm-words p flag marker r zero h = refl
write_parm-words p flag marker r (suc zero) h = refl
write_parm-words p flag marker r (suc (suc zero)) h = refl
write_parm-words p flag marker r (suc (suc (suc zero))) h = refl
write_parm-words p flag marker r (suc (suc (suc (suc zero)))) h = refl
write_parm-words p flag marker r (suc (suc (suc (suc (suc zero))))) h = refl
write_parm-words p flag marker r (suc (suc (suc (suc (suc (suc zero)))))) h = refl
write_parm-words p flag marker r (suc (suc (suc (suc (suc (suc (suc zero))))))) h = refl
write_parm-words p flag marker r (suc (suc (suc (suc (suc (suc (suc (suc zero)))))))) h = refl
write_parm-words p flag marker r (suc (suc (suc (suc (suc (suc (suc (suc (suc zero))))))))) h = refl
write_parm-words p flag marker r (suc (suc (suc (suc (suc (suc (suc (suc (suc (suc k)))))))))) h =
    absurd (omega arith)

-- In the bytes at `&g_parms[0]` that `init_parms` leaves, struct i begins at byte 40 i. With eight
-- entries in `g_parms`, a marker and tunables that are ints, and i below the count that it returns,
-- the ten words there, read as `int32_t`, are those of rectangle i of the ones that it has chosen,
-- which is on the panel, of the waveform and the mode of the policy, of the marker of entry 0, of
-- the flag of the tunables, and zeros for the temperature and the reserved word.
pub init_parms-words :
    (dt : ℤ) (dmg : List Rect) (full : ℤ) (s : Shim) (i k : ℕ)
    → length s.parms ≡ epdc_damage_max
    → IsInt32 (marker_of s.parms)
    → HasInts s.tunables
    → i < (init_parms dt dmg full s).1
    → k < 10
    → let p = policy_of dt full s in
      (r : Rect) × (get_elem? (chosen p.force_full dmg) i ≡ some r)
      × IsOnPanel r
      × (get_elem? (words_of r p.wf p.upd (marker_of s.parms) s.tunables.flag) k
          ≡ some (word_at (parms_bytes (init_parms dt dmg full s).0.parms) (10 * i + k)))
unfolding init_parms
init_parms-words dt dmg full s i k eight marked ints hi hk =
    let p = policy_of dt full s in
    let marker = marker_of s.parms in
    let flag = s.tunables.flag in
    let rects = chosen p.force_full dmg in
    let c = chosen-IsChoice p.force_full dmg in
    let (r, at, on) = get_elem?-below rects i hi c.on_panel in
    let (wf, upd) =
      policy-ints s.tunables s.updates_since_full dt (not (eqb_ℤ full (pos 0))) ints in
    let fits = write_parm-ints p flag marker r k wf upd ints.flag marked on hk in
    let there = fill-at p flag marker rects s.parms i r (omega (arith, c.few)) at in
    (
      r,
      at,
      on,
      write_parm-words p flag marker r k hk
          ∙ ap some (sym (parms_bytes-at (fill p flag marker rects s.parms) i k _ hk there fits)),
    )
