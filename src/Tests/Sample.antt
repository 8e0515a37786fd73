-- ===== src/Tests/Sample.antt =====
-- A composer with one plane, number 5, and the answers of its libraries.
use palma2pro_eos.Base.{ℕ, true, ◌==◌, if◌then◌else◌, Option, none, some, [], ◌∷◌, codes}
use palma2pro_eos.Base.Int.{pos}
use palma2pro_eos.Shim.State.{
  Rect, Symbols, Shim, Env, Attempt, PropRes, zero_rect, epdc_damage_magic, init,
}
use palma2pro_eos.Shim.Commit.{Args}

abbrev pub all_symbols : Symbols
all_symbols = record {
  get_objprops = true;
  free_objprops = true;
  get_prop = true;
  free_prop = true;
  prop_get = true;
  clock_gettime = true;
  open_ = true;
  mmap = true;
  ioctl = true;
  close = true;
  pthread_create = true;
}

abbrev pub line : Rect
line = record { left = pos 100; top = pos 40; right = pos 300; bottom = pos 60 }

abbrev pub far : Rect
far = record { left = pos 1600; top = pos 800; right = pos 1700; bottom = pos 900 }

-- one rectangle under sequence number 4
abbrev pub one_line : ℕ → Attempt
one_line i = record {
  s1 = 4;
  count = 1;
  full = 0;
  rect = λ j. if j == 0 then line else zero_rect;
  s2 = 4;
}

abbrev pub names : ℕ → Option PropRes
names p =
    if p == 10
    then some (record { prop_id = 10; name = codes "EPDC_UPDATE_PARMS_ADDR" })
    else if p == 11
    then some (record { prop_id = 11; name = codes "EPDC_UPDATE_CNT" })
    else if p == 12
    then some (record { prop_id = 12; name = codes "FB_ID" })
    else none

abbrev pub env : Env
env = record {
  dlsym = all_symbols;
  prop = λ name. [];
  sec = 7;
  nsec = 500_000_000;
  damage_fd = pos 9;
  damage_map = true;
  magic = epdc_damage_magic;
  version = 1;
  attempt = one_line;
  objprops = λ obj. if obj == 5 then some (10 ∷ 11 ∷ 12 ∷ []) else none;
  property = names;
  ebc_fd = pos 8;
  parms_addr = 0x7000;
  add_rc = pos 0;
  commit_rc = pos 0;
}

abbrev pub args : Args
args = record { fd = 3; req = 77; flags = 0; user = 0 }

-- `init`, with two objects in the request
abbrev pub busy : Shim
busy = record init { pend = record { obj = 5; fb = 1 } ∷ record { obj = 6; fb = 0 } ∷ [] }
