-- ===== src/Ebc/Tool.antt =====
-- src/ebctool.c: `info`, `ident` and `refresh`. What it prints is not modelled.
pub mod Ident
pub mod Requests
use palma2pro_eos.Base.{
  ℕ, zero, Bool, true, false, ◌&&◌, ◌||◌, List, [], ◌∷◌, ◌++◌, ◌==◌, if◌then◌else◌, codes, take,
}
use palma2pro_eos.Base.Int.{ℤ, pos, int32, ltb_ℤ, eqb_ℤ}
use palma2pro_eos.Ebc.Device.{
  Text, strcmp_eq, SendUpdate, Arg, zeroed, update, Call, open_ebc, ioctl, close, World, Run,
}

abbrev pub driver_sn_candidates : List ℤ
driver_sn_candidates =
    pos 0x7002 ∷ pos 0x7003 ∷ pos 0x7004 ∷ pos 0x7005 ∷ pos 0x7006 ∷ pos 0x7007 ∷ pos 0x7008 ∷ []

abbrev pub driver_sn_needle : Text
driver_sn_needle = codes "ONYX_EBC_DRIVER_VERSION"

unfoldable pub cmd_info : World → ℤ → Run
cmd_info w cmd = if ltb_ℤ w.fd (pos 0) then (open_ebc ∷ [], pos 1) else (
  open_ebc ∷ ioctl w.fd cmd (zeroed 256) ∷ close w.fd ∷ [],
  if ltb_ℤ (w.rc cmd) (pos 0) then pos 1 else pos 0,
)

-- the text in a buffer: up to its first zero
unfoldable pub c_text : List ℕ → Text
c_text [] = []
c_text (c ∷ s) = let rest = c_text s in if c == 0 then [] else c ∷ rest

unfoldable pub starts_with : Text → Text → Bool
starts_with [] s = true
starts_with (x ∷ p) [] = false
starts_with (x ∷ p) (y ∷ s) = x == y && starts_with p s

-- `strstr` finds the needle
unfoldable pub strstr : Text → Text → Bool
unfolding starts_with
strstr [] needle = starts_with needle []
strstr (c ∷ s) needle = starts_with needle (c ∷ s) || strstr s needle

-- the test of one candidate; `buf[511]` is set to zero
unfoldable pub is_match : World → ℤ → Bool
unfolding c_text strstr
is_match w cmd =
    if ltb_ℤ (w.rc cmd) (pos 0)
    then false
    else strstr (c_text (take 511 (w.reply cmd))) driver_sn_needle

-- the loop over the candidates, and `found` at its end
unfoldable pub hunt : World → List ℤ → ℤ → List Call × ℤ
unfolding is_match
hunt w [] found = ([], found)
hunt w (cmd ∷ cmds) found =
    let (calls, last) = hunt w cmds (if is_match w cmd then cmd else found) in
    (ioctl w.fd cmd (zeroed 512) ∷ calls, last)

unfoldable pub cmd_ident : World → Run
unfolding hunt
cmd_ident w =
    if ltb_ℤ w.fd (pos 0)
    then (open_ebc ∷ [], pos 1)
    else let (calls, found) = hunt w driver_sn_candidates (pos 0) in
      (open_ebc ∷ calls ++ close w.fd ∷ [], if eqb_ℤ found (pos 0) then pos 1 else pos 0)

abbrev pub refresh_update : ℤ → SendUpdate
refresh_update waveform = record {
  x = pos 0;
  y = pos 0;
  right = pos 1648;
  bottom = pos 824;
  waveform_mode = waveform;
  update_mode = pos 1;
  update_marker = pos 1;
  unknown_1c = pos 4096;
  flags = pos 0x21000;
  unknown_24 = pos 0;
}

unfoldable pub cmd_refresh : World → ℤ → Bool → Run
cmd_refresh w waveform submit =
    if ltb_ℤ w.fd (pos 0)
    then (open_ebc ∷ [], pos 1)
    else if submit
    then (
      open_ebc ∷ ioctl w.fd (pos 0x700c) (update (refresh_update waveform)) ∷ close w.fd ∷ [],
      if ltb_ℤ (w.rc (pos 0x700c)) (pos 0) then pos 1 else pos 0,
    )
    else (open_ebc ∷ close w.fd ∷ [], pos 0)

-- the loop over the arguments of `refresh`: `mode` and `go`
unfoldable pub refresh_args : World → List Text → ℤ × Bool → ℤ × Bool
refresh_args w [] o = o
refresh_args w (a ∷ rest) (mode, go) =
    refresh_args w rest
      (if strcmp_eq a (codes "--go") then (mode, true) else (int32 (w.strtol a), go))

abbrev pub info_request : World → List Text → ℤ
info_request w [] = pos 0x7003
info_request w (a ∷ rest) = int32 (w.strtol a)

-- `main`, with `argv[1]` and the arguments behind it
unfoldable pub main : World → List Text → Run
unfolding cmd_info cmd_ident cmd_refresh refresh_args
main w [] = ([], pos 2)
main w (command ∷ rest) =
    if strcmp_eq command (codes "info")
    then cmd_info w (info_request w rest)
    else if strcmp_eq command (codes "ident")
    then cmd_ident w
    else if strcmp_eq command (codes "refresh")
    then cmd_refresh w (refresh_args w rest (pos 1, false)).0 (refresh_args w rest (pos 1, false)).1
    else ([], pos 2)
