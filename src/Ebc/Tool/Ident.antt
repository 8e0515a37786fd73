-- ===== src/Ebc/Tool/Ident.antt =====
-- When `ebctool ident` succeeds.
use palma2pro_eos.Base.{
  ◌≡◌, ◌≢◌, refl, ap, sym, subst, Bool, ◌↔◌, ◌⊎◌, inl, inr, true, false, List, [], ◌∷◌, ◌++◌, arith,
  take, Any, All, Bool-cases, if◌then◌else◌,
}
use palma2pro_eos.Base.Int.{ℤ, pos, ◌≤ℤ◌, ltb_ℤ, eqb_ℤ}
use palma2pro_eos.Ebc.Device.{Text, World}
use palma2pro_eos.Ebc.Tool.{
  c_text, starts_with, strstr, is_match, hunt, cmd_ident, driver_sn_needle, driver_sn_candidates,
}

-- the needle stands somewhere in the text
abbrev pub Holds : Text → Text → Type 0
Holds needle s = (before after : Text) × (s ≡ before ++ needle ++ after)

starts_with-append : (p s : Text) → starts_with p s ≡ true → (after : Text) × (s ≡ p ++ after)
unfolding starts_with
starts_with-append [] s h = (s, refl)
starts_with-append (x ∷ p) [] h = absurd (ground arith)
starts_with-append (x ∷ p) (y ∷ s) h =
    let both : (x ≡ y) × (starts_with p s ≡ true) = ground arith in
    let (after, e) = starts_with-append p s both.1 in (after, cc)

starts_with_lem : (p after : Text) → starts_with p (p ++ after) ≡ true
unfolding starts_with
starts_with_lem [] after = refl
starts_with_lem (x ∷ p) after = ground (arith, starts_with_lem p after)

strstr-Holds : (s needle : Text) → strstr s needle ≡ true → Holds needle s
unfolding strstr
strstr-Holds [] needle h = let (after, e) = starts_with-append needle [] h in ([], after, e)
strstr-Holds (c ∷ s) needle h = elim (Bool-cases (starts_with needle (c ∷ s))) [
  | inl here ↦ let (after, e) = starts_with-append needle (c ∷ s) here in ([], after, e)
  | inr not_here ↦
      let (before, after, e) = strstr-Holds s needle (ground arith) in
      (c ∷ before, after, ap (λ t. c ∷ t) e)
]

strstr_nil : (s : Text) → strstr s [] ≡ true
unfolding strstr starts_with
strstr_nil [] = refl
strstr_nil (c ∷ s) = refl

Holds-strstr : (before needle after : Text) → strstr (before ++ needle ++ after) needle ≡ true
unfolding strstr
Holds-strstr [] [] after = strstr_nil after
Holds-strstr [] (x ∷ needle) after = ground (arith, starts_with_lem (x ∷ needle) after)
Holds-strstr (c ∷ before) needle after = ground (arith, Holds-strstr before needle after)

true≢false : {b : Bool} → b ≡ true → b ≡ false → ⊥
true≢false h k = cc

-- The driver answers the request with a text that holds the needle.
pub record IsSerial (w : World) (cmd : ℤ) : Type 0 where
  pub succeeds : pos 0 ≤ℤ w.rc cmd
  pub answers : Holds driver_sn_needle (c_text (take 511 (w.reply cmd)))

strstr_iff : (s needle : Text) → (strstr s needle ≡ true) ↔ Holds needle s
strstr_iff s needle = (
  strstr-Holds s needle,
  λ (before, after, e).
      subst (λ t. strstr t needle ≡ true) (sym e) (Holds-strstr before needle after),
)

guarded_iff :
    (x : ℤ) (b : Bool)
    → ((if ltb_ℤ x (pos 0) then false else b) ≡ true) ↔ ((pos 0 ≤ℤ x) × (b ≡ true))
guarded_iff x b = ground arith

is_match_iff : (w : World) (cmd : ℤ) → (is_match w cmd ≡ true) ↔ IsSerial w cmd
unfolding is_match
is_match_iff w cmd =
    let (to, from) = strstr_iff (c_text (take 511 (w.reply cmd))) driver_sn_needle in
    let (apart, join) = guarded_iff (w.rc cmd) _ in
    (
      λ h. record { succeeds = (apart h).0; answers = to (apart h).1 },
      λ r. join (r.succeeds, from r.answers),
    )

abbrev IsRequest : ℤ → Type 0
IsRequest cmd = cmd ≢ pos 0

-- the loop ends with a request exactly if it began with one or met a match
hunt_iff :
    (w : World) (cmds : List ℤ) (found : ℤ)
    → All IsRequest cmds
    → ((hunt w cmds found).1 ≢ pos 0) ↔ ((found ≢ pos 0) ⊎ Any (IsSerial w) cmds)
unfolding hunt
hunt_iff w [] found ok = (inl, λ h. cases h)
  where
    cases : (found ≢ pos 0) ⊎ ⊥ → found ≢ pos 0
    cases (inl h) = h
    cases (inr h) = absurd h
hunt_iff w (cmd ∷ cmds) found ok = elim (Bool-cases (is_match w cmd)) [
  | inl hit ↦
      let (to, from) = hunt_iff w cmds cmd ok.1 in
      let serial = (is_match_iff w cmd).0 hit in
      rw hit (λ h. inr (inl serial), λ h. from (inl ok.0))
  | inr miss ↦
      let (to, from) = hunt_iff w cmds found ok.1 in
      rw miss (
        λ h. elim (to h) [ inl f ↦ inl f | inr a ↦ inr (inr a) ],
        λ h. elim h [
          | inl f ↦ from (inl f)
          | inr (inl serial) ↦ absurd (true≢false ((is_match_iff w cmd).1 serial) miss)
          | inr (inr a) ↦ from (inr a)
        ],
      )
]

exit_lem :
    (w : World)
    → let found = (hunt w driver_sn_candidates (pos 0)).1 in
      (cmd_ident w).1
      ≡ (if ltb_ℤ w.fd (pos 0) then pos 1 else if eqb_ℤ found (pos 0) then pos 1 else pos 0)
unfolding cmd_ident
exit_lem w = elim (Bool-cases (ltb_ℤ w.fd (pos 0))) [ inl e ↦ rw e refl | inr e ↦ rw e refl ]

exit_iff :
    (fd found : ℤ)
    → ((if ltb_ℤ fd (pos 0) then pos 1 else if eqb_ℤ found (pos 0) then pos 1 else pos 0) ≡ pos 0)
      ↔ ((pos 0 ≤ℤ fd) × (found ≢ pos 0))
exit_iff fd found = ground arith

Any-of_start :
    (w : World)
    → (pos 0 ≢ pos 0) ⊎ Any (IsSerial w) driver_sn_candidates
    → Any (IsSerial w) driver_sn_candidates
Any-of_start w (inl h) = absurd (h refl)
Any-of_start w (inr h) = h

-- `ebctool ident` exits with 0 exactly if the device opens and one of the seven candidates succeeds
-- and answers with a text that holds the name of the driver.
pub cmd_ident_iff :
    (w : World)
    → ((cmd_ident w).1 ≡ pos 0) ↔ ((pos 0 ≤ℤ w.fd) × Any (IsSerial w) driver_sn_candidates)
cmd_ident_iff w =
    let found = (hunt w driver_sn_candidates (pos 0)).1 in
    let (to, from) = hunt_iff w driver_sn_candidates (pos 0) (ground arith) in
    let (apart, join) = exit_iff w.fd found in
    rw (exit_lem w) (
      λ h. ((apart h).0, Any-of_start w (to (apart h).1)),
      λ (opened, any). join (opened, from (inr any)),
    )
