-- ===== src/Ebc/Device.antt =====
-- What the tools share: the structs of the driver, their calls, and the loop over the options.
pub mod Journal
pub mod Stages
use Prim.Native.String.{String}
use palma2pro_eos.Base.{
  ℕ, zero, suc, Bool, true, false, ◌&&◌, List, [], ◌∷◌, ◌++◌, ◌==◌, if◌then◌else◌,
}
use palma2pro_eos.Base.Int.{ℤ, pos, eqb_ℤ}

-- the bytes of an argument, without the terminating zero
abbrev pub Text : Type 0
Text = List ℕ

-- `!strcmp(a, b)`
unfoldable pub strcmp_eq : Text → Text → Bool
strcmp_eq [] [] = true
strcmp_eq [] (y ∷ b) = false
strcmp_eq (x ∷ a) [] = false
strcmp_eq (x ∷ a) (y ∷ b) = x == y && strcmp_eq a b

-- `struct ebc_buf_info`
pub record BufInfo : Type 0 where
  pub offset : ℤ
  pub epd_mode : ℤ
  pub height : ℤ
  pub width : ℤ
  pub panel_color : ℤ
  pub win_x1 : ℤ
  pub win_y1 : ℤ
  pub win_x2 : ℤ
  pub win_y2 : ℤ
  pub width_mm : ℤ
  pub height_mm : ℤ

abbrev pub zero_info : BufInfo
zero_info = record {
  offset = pos 0;
  epd_mode = pos 0;
  height = pos 0;
  width = pos 0;
  panel_color = pos 0;
  win_x1 = pos 0;
  win_y1 = pos 0;
  win_x2 = pos 0;
  win_y2 = pos 0;
  width_mm = pos 0;
  height_mm = pos 0;
}

-- `struct ebc_send_update`; `rect[0]` to `rect[3]` are `x`, `y`, `right` and `bottom`
pub record SendUpdate : Type 0 where
  pub x : ℤ
  pub y : ℤ
  pub right : ℤ
  pub bottom : ℤ
  pub waveform_mode : ℤ
  pub update_mode : ℤ
  pub update_marker : ℤ
  pub unknown_1c : ℤ
  pub flags : ℤ
  pub unknown_24 : ℤ

-- the third argument of `ioctl`
pub data Arg : Type 0 where
  null : Arg
  zeroed : (bytes : ℕ) → Arg
  info : BufInfo → Arg
  update : SendUpdate → Arg

pub data Call : Type 0 where
  jot : (format : String) → Call  -- a journal line, on storage at return if --log is given
  open_ebc : Call
  ioctl : (fd request : ℤ) → Arg → Call
  mmap : (fd : ℤ) (len : ℕ) (offset : ℤ) → Call
  load : (address : ℕ) → Call  -- of a byte of the mapping
  store : (address value : ℕ) → Call
  memset : (value len : ℕ) → Call
  close : (fd : ℤ) → Call

-- What libc and the kernel answer during one run, in which no request is made twice.
pub record World : Type 0 where
  pub fd : ℤ  -- what `open` of /dev/ebc returns
  pub rc : ℤ → ℤ  -- the result of a request
  pub answer : ℤ → BufInfo  -- its struct afterwards
  pub reply : ℤ → List ℕ  -- its bytes afterwards
  pub is_mapped : Bool
  pub atoi : Text → ℤ
  pub strtol : Text → ℤ  -- in base 0

-- a run of `main`: what it does, and the exit status
abbrev pub Run : Type 0
Run = List Call × ℤ

-- The loop over `argv`. `consume` takes an argument and those behind it, and says how many of these
-- it has used up (its `++i`).
unfoldable pub each_arg : {O : Type 0} → (Text → List Text → O → ℕ × O) → ℕ → List Text → O → O
each_arg consume skip [] o = o
each_arg consume (suc skip) (a ∷ rest) o = each_arg consume skip rest o
each_arg consume zero (a ∷ rest) o =
    let (skip, o') = consume a rest o in each_arg consume skip rest o'

-- the statements `calls`, and then `rest`
unfoldable pub before : List Call → Run → Run
before calls rest = (calls ++ rest.0, rest.1)

-- `if (stage == k) { jot(line); return 0; }`, and then `rest`
unfoldable pub stop_at : (stage k : ℤ) → String → Run → Run
stop_at stage k line rest = if eqb_ℤ stage k then (jot line ∷ [], pos 0) else rest
