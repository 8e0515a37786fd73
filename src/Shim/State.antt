-- ===== src/Shim/State.antt =====
-- The data of src/epdcshim.c and src/epdc_damage.h: the static variables of the shim, and what the
-- world answers to one call of a handler.
use Prim.Native.String.{String}
use palma2pro_eos.Base.{ℕ, Bool, false, Option, List, [], replicate}
use palma2pro_eos.Base.Int.{ℤ, pos}

abbrev pub epdc_damage_max : ℕ
epdc_damage_max = 8

abbrev pub epdc_damage_magic : ℕ
epdc_damage_magic = 0x43504445

abbrev pub epdc_damage_version : ℕ
epdc_damage_version = 1

abbrev pub panel_w : ℤ
panel_w = pos 1648

abbrev pub panel_h : ℤ
panel_h = pos 824

abbrev pub recheck : ℕ
recheck = 30

abbrev pub max_obj : ℕ
max_obj = 32

-- `struct epdc_damage_rect`; also the `rect[4]` of `struct upd`, in the same order.
pub record Rect : Type 0 where
  pub left : ℤ
  pub top : ℤ
  pub right : ℤ
  pub bottom : ℤ

-- `struct upd` and `struct ebc_upd`
pub record Upd : Type 0 where
  pub rect : Rect
  pub waveform_mode : ℤ
  pub update_mode : ℤ
  pub update_marker : ℤ
  pub temp : ℤ
  pub flag : ℤ
  pub reserved : ℤ

-- the variables `t_…`
pub record Tunables : Type 0 where
  pub enable : ℤ
  pub wf : ℤ
  pub upd : ℤ
  pub flag : ℤ
  pub interval : ℤ
  pub fastwf : ℤ
  pub fastms : ℤ
  pub fullevery : ℤ
  pub skipsame : ℤ
  pub settlems : ℤ
  pub settlewf : ℤ

-- one index of `c_obj`, `c_parms_prop` and `c_cnt_prop`
pub record Entry : Type 0 where
  pub obj : ℕ
  pub parms_prop : ℕ
  pub cnt_prop : ℕ

-- one index of `pend` and `pend_fb`
pub record Pend : Type 0 where
  pub obj : ℕ
  pub fb : ℕ

-- Which of the optional entry points `dlsym` has found.
pub record Symbols : Type 0 where
  pub get_objprops : Bool
  pub free_objprops : Bool
  pub get_prop : Bool
  pub free_prop : Bool
  pub prop_get : Bool
  pub clock_gettime : Bool
  pub open_ : Bool
  pub mmap : Bool
  pub ioctl : Bool
  pub close : Bool
  pub pthread_create : Bool

pub record Shim : Type 0 where
  pub resolved : Bool  -- `real_add` is set
  pub symbols : Symbols
  pub tunables : Tunables
  pub commits_since_recheck : ℕ
  pub last_inject_ms : ℤ
  pub updates_since_full : ℤ
  pub attached : Bool  -- `g_dmg` is set
  pub dmg_tried : ℕ
  pub last_dmg_seq : ℕ
  pub cache : List Entry  -- the first `c_n` entries
  pub pend : List Pend  -- the first `n_pend` entries
  pub fbid_prop : ℕ
  pub last_fb_sig : ℕ
  pub parms : List Upd  -- `g_parms`
  pub settle_pending : Bool
  pub settle_started : Bool
  pub settle_marker : ℤ

-- What the loads of one attempt of the seqlock read returned.
pub record Attempt : Type 0 where
  pub s1 : ℕ
  pub count : ℕ
  pub full : ℕ
  pub rect : ℕ → Rect
  pub s2 : ℕ

-- `propres_t`, as far as it is read; the name as bytes without the terminator
pub record PropRes : Type 0 where
  pub prop_id : ℕ
  pub name : List ℕ

-- The answers of libdrm, libc and the kernel during one call.
pub record Env : Type 0 where
  pub dlsym : Symbols
  pub prop : String → List ℕ  -- the text of a system property, empty if it is not set
  pub sec : ℕ  -- CLOCK_MONOTONIC
  pub nsec : ℕ
  pub damage_fd : ℤ  -- what `open` of the damage file returns
  pub damage_map : Bool  -- `mmap` succeeds
  pub magic : ℕ
  pub version : ℕ
  pub attempt : ℕ → Attempt
  pub objprops : ℕ → Option (List ℕ)  -- the property ids of a plane
  pub property : ℕ → Option PropRes
  pub ebc_fd : ℤ  -- what `open` of /dev/ebc returns
  pub parms_addr : ℕ  -- `&g_parms[0]`
  pub add_rc : ℤ
  pub commit_rc : ℤ

-- The calls that leave the shim, in the order in which it makes them.
pub data Call : Type 0 where
  real_add : (req obj prop value : ℕ) → Call
  real_commit : (fd req flags user : ℕ) → Call
  open_damage : Call
  mmap_damage : (fd : ℤ) → Call
  create_thread : Call
  open_ebc : Call
  send_update : (fd : ℤ) → Upd → Call
  close_ebc : (fd : ℤ) → Call

abbrev pub zero_rect : Rect
zero_rect = record { left = pos 0; top = pos 0; right = pos 0; bottom = pos 0 }

abbrev pub zero_upd : Upd
zero_upd = record {
  rect = zero_rect;
  waveform_mode = pos 0;
  update_mode = pos 0;
  update_marker = pos 0;
  temp = pos 0;
  flag = pos 0;
  reserved = pos 0;
}

abbrev pub no_symbols : Symbols
no_symbols = record {
  get_objprops = false;
  free_objprops = false;
  get_prop = false;
  free_prop = false;
  prop_get = false;
  clock_gettime = false;
  open_ = false;
  mmap = false;
  ioctl = false;
  close = false;
  pthread_create = false;
}

-- the initial values of the static variables
abbrev pub default_tunables : Tunables
default_tunables = record {
  enable = pos 1;
  wf = pos 2;
  upd = pos 1;
  flag = pos 0x21000;
  interval = pos 0;
  fastwf = pos 0;
  fastms = pos 250;
  fullevery = pos 0;
  skipsame = pos 1;
  settlems = pos 0;
  settlewf = pos 2;
}

abbrev pub init : Shim
init = record {
  resolved = false;
  symbols = no_symbols;
  tunables = default_tunables;
  commits_since_recheck = recheck;
  last_inject_ms = pos 0;
  updates_since_full = pos 0;
  attached = false;
  dmg_tried = recheck;
  last_dmg_seq = 0;
  cache = [];
  pend = [];
  fbid_prop = 0;
  last_fb_sig = 0;
  parms = replicate epdc_damage_max zero_upd;
  settle_pending = false;
  settle_started = false;
  settle_marker = pos 0;
}
