-- ===== src/Ebc/Tool/Requests.antt =====
-- Which requests a run of ebctool makes, and that it closes the device.
use palma2pro_eos.Base.{
  ◌≡◌, ◌≢◌, ℕ, refl, sym, subst, ◌⊎◌, inl, inr, Bool, true, false, List, [], ◌∷◌, ◌++◌, arith,
  codes, All, Any, Bool-cases, ◌||◌,
}
use palma2pro_eos.Base.Int.{ℤ, pos, int32, ◌<ℤ◌, ltb_ℤ}
use palma2pro_eos.Ebc.Device.{
  Text, strcmp_eq, SendUpdate, Arg, zeroed, update, Call, open_ebc, ioctl, close, World,
}
use palma2pro_eos.Ebc.Tool.{
  cmd_info, cmd_ident, cmd_refresh, hunt, refresh_args, info_request, main,
}

strcmp_eq_lem : (a b : Text) → strcmp_eq a b ≡ true → a ≡ b
unfolding strcmp_eq
strcmp_eq_lem [] [] h = refl
strcmp_eq_lem [] (y ∷ b) h = absurd (ground arith)
strcmp_eq_lem (x ∷ a) [] h = absurd (ground arith)
strcmp_eq_lem (x ∷ a) (y ∷ b) h =
    let both : (x ≡ y) × (strcmp_eq a b ≡ true) = ground arith in
    let tail = strcmp_eq_lem a b both.1 in cc

pub requests : ℤ → List (ℤ × Arg) → List Call
requests fd [] = []
requests fd ((request, arg) ∷ rest) = ioctl fd request arg ∷ requests fd rest

-- What a run asks of the device, in order, and that it closes a device it has opened, as the last
-- thing. It opens none only if its command is not a known one.
pub data Session (w : World) (known : Bool) (P : List (ℤ × Arg) → Type 0) : List Call → Type 0 where
  no_device : known ≡ false → Session w known P []
  refused : w.fd <ℤ pos 0 → Session w known P (open_ebc ∷ [])
  served :
      (asked : List (ℤ × Arg))
      → P asked
      → Session w known P (open_ebc ∷ requests w.fd asked ++ close w.fd ∷ [])

-- a request that only reads, with a buffer of 512 zeros
abbrev pub probing : ℕ → ℤ × Arg
probing request = (pos request, zeroed 512)

-- an update of the whole screen, under marker 1
abbrev pub screen_update : ℤ → SendUpdate
screen_update waveform = record {
  x = pos 0;
  y = pos 0;
  right = pos 1648;
  bottom = pos 824;
  waveform_mode = waveform;
  update_mode = pos 1;
  update_marker = pos 1;
  unknown_1c = pos 4096;
  flags = pos 0x21000;
  unknown_24 = pos 0;
}

-- the requests that a command and its arguments stand for
pub data IsAsked (w : World) (args : List Text) : Text → List (ℤ × Arg) → Type 0 where
  by_default : args ≡ [] → IsAsked w args (codes "info") ((pos 0x7003, zeroed 256) ∷ [])
  by_name :
      (a : Text) (rest : List Text)
      → args ≡ a ∷ rest
      → IsAsked w args (codes "info") ((int32 (w.strtol a), zeroed 256) ∷ [])
  by_ident : IsAsked w args (codes "ident") (
      probing 0x7002
      ∷ probing 0x7003
      ∷ probing 0x7004
      ∷ probing 0x7005
      ∷ probing 0x7006
      ∷ probing 0x7007
      ∷ probing 0x7008
      ∷ [])
  by_refresh :
      (mode : ℤ)
      → Any (λ a. a ≡ codes "--go") args
      → IsAsked w args (codes "refresh") ((pos 0x700c, update (screen_update mode)) ∷ [])
  by_dry_run : All (λ a. a ≢ codes "--go") args → IsAsked w args (codes "refresh") []

info-IsAsked :
    (w : World) (args : List Text)
    → IsAsked w args (codes "info") ((info_request w args, zeroed 256) ∷ [])
info-IsAsked w [] = by_default refl
info-IsAsked w (a ∷ rest) = by_name a rest refl

info-Session :
    (w : World) (known : Bool) (args : List Text)
    → Session w known (IsAsked w args (codes "info")) (cmd_info w (info_request w args)).0
unfolding cmd_info requests
info-Session w known args = elim (Bool-cases (ltb_ℤ w.fd (pos 0))) [
  | inl e ↦ rw e (refused (ground arith))
  | inr e ↦ rw e (served ((info_request w args, zeroed 256) ∷ []) (info-IsAsked w args))
]

ident-Session :
    (w : World) (known : Bool) (args : List Text)
    → Session w known (IsAsked w args (codes "ident")) (cmd_ident w).0
unfolding cmd_ident hunt requests
ident-Session w known args = elim (Bool-cases (ltb_ℤ w.fd (pos 0))) [
  | inl e ↦ rw e (refused (ground arith))
  | inr e ↦ rw e (served _ by_ident)
]

strcmp_eq_refl : (a : Text) → strcmp_eq a a ≡ true
unfolding strcmp_eq
strcmp_eq_refl [] = refl
strcmp_eq_refl (x ∷ a) = ground (arith, strcmp_eq_refl a)

-- without `--go` among the arguments
refresh_args-dry :
    (w : World) (args : List Text) (mode : ℤ) (go : Bool)
    → (refresh_args w args (mode, go)).1 ≡ false
    → (go ≡ false) × All (λ a. a ≢ codes "--go") args
unfolding refresh_args
refresh_args-dry w [] mode go h = (h, tt)
refresh_args-dry w (a ∷ args) mode go h = elim (Bool-cases (strcmp_eq a (codes "--go"))) [
  | inl e ↦
      let both = refresh_args-dry w args mode true (rw (e, refresh_args) at h) in
      absurd (cc (both.0))
  | inr e ↦
      let (off, rest) =
        refresh_args-dry w args (int32 (w.strtol a)) go (rw (e, refresh_args) at h) in
      (
        off,
        (
          λ same. absurd (
              cc (
                strcmp_eq_refl (codes "--go"),
                subst (λ b. strcmp_eq b (codes "--go") ≡ false) same e,
              )),
          rest,
        ),
      )
]

refresh_args-go :
    (w : World) (args : List Text) (mode : ℤ) (go : Bool)
    → (refresh_args w args (mode, go)).1 ≡ true
    → (go ≡ true) ⊎ Any (λ a. a ≡ codes "--go") args
unfolding refresh_args
refresh_args-go w [] mode go h = inl h
refresh_args-go w (a ∷ args) mode go h = elim (Bool-cases (strcmp_eq a (codes "--go"))) [
  | inl e ↦ inr (inl (strcmp_eq_lem a (codes "--go") e))
  | inr e ↦ elim (refresh_args-go w args (int32 (w.strtol a)) go (rw (e, refresh_args) at h)) [
    | inl g ↦ inl g
    | inr any ↦ inr (inr any)
  ]
]

refresh-Session :
    (w : World) (known : Bool) (args : List Text) (mode : ℤ) (go : Bool)
    → (go ≡ true → Any (λ a. a ≡ codes "--go") args)
    → (go ≡ false → All (λ a. a ≢ codes "--go") args)
    → Session w known (IsAsked w args (codes "refresh")) (cmd_refresh w mode go).0
unfolding cmd_refresh requests
refresh-Session w known args mode true asked dry = elim (Bool-cases (ltb_ℤ w.fd (pos 0))) [
  | inl e ↦ rw e (refused (ground arith))
  | inr e ↦ rw e (served _ (by_refresh mode (asked refl)))
]
refresh-Session w known args mode false asked dry = elim (Bool-cases (ltb_ℤ w.fd (pos 0))) [
  | inl e ↦ rw e (refused (ground arith))
  | inr e ↦ rw e (served [] (by_dry_run (dry refl)))
]

refresh_main-Session :
    (w : World) (known : Bool) (args : List Text)
    → let o = refresh_args w args (pos 1, false) in
      Session w known (IsAsked w args (codes "refresh")) (cmd_refresh w o.0 o.1).0
refresh_main-Session w known args =
    refresh-Session w known args _ _ (λ h. of_go (refresh_args-go w args (pos 1) false h))
      (λ h. (refresh_args-dry w args (pos 1) false h).1)
  where
    of_go : (false ≡ true) ⊎ Any (λ a. a ≡ codes "--go") args → Any (λ a. a ≡ codes "--go") args
    of_go (inl h) = absurd (ground arith)
    of_go (inr any) = any

-- what a command does, under its name
named :
    (w : World) (known : Bool) (args : List Text) (command name : Text) (calls : List Call)
    → strcmp_eq command name ≡ true
    → Session w known (IsAsked w args name) calls
    → Session w known (IsAsked w args command) calls
named w known args command name calls e s =
    subst (λ c. Session w known (IsAsked w args c) calls) (sym (strcmp_eq_lem command name e)) s

-- one of the three commands
abbrev pub is_command : Text → Bool
is_command c =
    strcmp_eq c (codes "info") || strcmp_eq c (codes "ident") || strcmp_eq c (codes "refresh")

-- Whatever the arguments: a run of ebctool with one of its three commands opens the device; if that
-- succeeds it closes the device last, and between asks just what its command stands for. `ident` makes
-- the seven requests 0x7002 to 0x7008 in this order, `info` the one that its first argument names
-- (any number) or, without arguments, 0x7003; `refresh` makes the request 0x700c with an update of
-- the whole screen if `--go` is among its arguments, and else none. With another command it does
-- nothing.
pub main-Session :
    (w : World) (command : Text) (args : List Text)
    → Session w (is_command command) (IsAsked w args command) (main w (command ∷ args)).0
unfolding main
main-Session w command args = elim (Bool-cases (strcmp_eq command (codes "info"))) [
  | inl e ↦ rw e (named w true args command _ _ e (info-Session w true args))
  | inr n ↦ elim (Bool-cases (strcmp_eq command (codes "ident"))) [
    | inl e ↦ rw (n, e) (named w true args command _ _ e (ident-Session w true args))
    | inr m ↦ elim (Bool-cases (strcmp_eq command (codes "refresh"))) [
      | inl e ↦ rw (n, m, e) (named w true args command _ _ e (refresh_main-Session w true args))
      | inr l ↦ rw (n, m, l) (no_device refl)
    ]
  ]
]
