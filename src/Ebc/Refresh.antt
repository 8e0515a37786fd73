-- ===== src/Ebc/Refresh.antt =====
-- src/ebcrefresh.c: a full update, once, a number of times, or until a signal.
pub mod Series
use palma2pro_eos.Base.{
  ℕ, zero, suc, ◌+◌, Bool, true, false, ◌&&◌, ◌||◌, Option, none, some, List, [], ◌∷◌, ◌++◌,
  if◌then◌else◌, codes,
}
use palma2pro_eos.Base.Int.{ℤ, pos, int32, ltb_ℤ, eqb_ℤ}
use palma2pro_eos.Ebc.Device.{Text, strcmp_eq, BufInfo, SendUpdate, World, each_arg}

-- the locals that the arguments set; `quiet`, which only guards output, is left out
pub record Options : Type 0 where
  pub mode : ℤ
  pub flags : ℤ
  pub interval_ms : ℤ
  pub count : ℤ
  pub help : Bool  -- `--help` was met, so that `main` has returned 0

abbrev pub default_options : Options
default_options = record {
  mode = pos 2;
  flags = pos 0x21000;
  interval_ms = pos 0;
  count = pos 1;
  help = false;
}

-- an option that takes a value, with that value
unfoldable pub set_value : World → Text → Text → Options → ℕ × Options
set_value w a b o =
    if strcmp_eq a (codes "--mode")
    then (1, record o { mode = w.atoi b })
    else if strcmp_eq a (codes "--flags")
    then (1, record o { flags = int32 (w.strtol b) })
    else if strcmp_eq a (codes "--interval")
    then (1, record o { interval_ms = w.atoi b })
    else if strcmp_eq a (codes "--count")
    then (1, record o { count = w.atoi b })
    else (0, record o { help = o.help || strcmp_eq a (codes "--help") })

-- one turn of the loop over `argv`
unfoldable pub consume : World → Text → List Text → Options → ℕ × Options
unfolding set_value
consume w a [] o = (0, record o { help = o.help || strcmp_eq a (codes "--help") })
consume w a (b ∷ rest) o = set_value w a b o

-- What happens around turn i: the signal has come before it, and its request is refused with EINVAL.
pub record Turns : Type 0 where
  pub stop : ℕ → Bool
  pub invalid : ℕ → Bool

-- `w` and `h`: words 3 and 2 of the driver's answer, if it is given and both are positive
unfoldable pub geometry : World → ℤ × ℤ
geometry w =
    let i = w.answer (pos 0x7003) in
    if eqb_ℤ (w.rc (pos 0x7003)) (pos 0) && ltb_ℤ (pos 0) i.width && ltb_ℤ (pos 0) i.height
    then (i.width, i.height)
    else (pos 1648, pos 824)

unfoldable pub turn_update : Options → ℤ × ℤ → ℕ → SendUpdate
turn_update o (w, h) i = record {
  x = pos 0;
  y = pos 0;
  right = w;
  bottom = h;
  waveform_mode = o.mode;
  update_mode = pos 1;
  update_marker = int32 (pos (i + 1));
  unknown_1c = pos 0;
  flags = o.flags;
  unknown_24 = pos 0;
}

pub data Event : Type 0 where
  send : SendUpdate → Event
  usleep : (ms : ℤ) → Event
  open_ebc : Event
  get_info : Event
  close : Event

unfoldable pub goes_on : ℤ → ℕ → Bool
goes_on count i = ltb_ℤ count (pos 0) || ltb_ℤ (pos i) count

unfoldable pub pause : Options → ℕ → List Event
pause o i =
    if ltb_ℤ (pos 0) o.interval_ms && (ltb_ℤ o.count (pos 0) || ltb_ℤ (pos (i + 1)) o.count)
    then usleep o.interval_ms ∷ []
    else []

unfoldable pub then_ : List Event → Option (List Event) → Option (List Event)
then_ es none = none
then_ es (some rest) = some (es ++ rest)

-- the loop from turn i on; `none` if the fuel is out before it ends
unfoldable pub loop : Turns → Options → ℤ × ℤ → (fuel i : ℕ) → Option (List Event)
loop t o g zero i = none
loop t o g (suc fuel) i =
    let rest = loop t o g fuel (i + 1) in
    if goes_on o.count i
    then if t.stop i
      then some []
      else if t.invalid i
      then some (send (turn_update o g i) ∷ [])
      else then_ (send (turn_update o g i) ∷ pause o i) rest
    else some []

-- the end of `main`, behind the loop
unfoldable pub close_after : Option (List Event) → Option (List Event × ℤ)
close_after none = none
close_after (some es) = some (open_ebc ∷ get_info ∷ es ++ close ∷ [], pos 0)

-- `main` behind the options
unfoldable pub refresh : World → Turns → Options → (fuel : ℕ) → Option (List Event × ℤ)
refresh w t o fuel =
    if o.help
    then some ([], pos 0)
    else if ltb_ℤ w.fd (pos 0)
    then some (open_ebc ∷ [], pos 1)
    else close_after (loop t o (geometry w) fuel 0)

-- with the arguments behind the program's name
unfoldable pub main : World → Turns → List Text → (fuel : ℕ) → Option (List Event × ℤ)
main w t args fuel = refresh w t (each_arg (consume w) 0 args default_options) fuel
