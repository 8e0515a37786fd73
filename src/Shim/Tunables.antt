-- ===== src/Shim/Tunables.antt =====
-- `resolve`, `prop_num`, `now_ms` and `refresh_tunables`.
use Prim.Native.String.{String}
use palma2pro_eos.Base.{◌+◌, ◌*◌, ◌/◌, true, ltb, if◌then◌else◌}
use palma2pro_eos.Base.Int.{ℤ, pos, int32, int64}
use palma2pro_eos.Shim.State.{Symbols, Tunables, Shim, Env, recheck}
use palma2pro_eos.Shim.Numbers.{parse_num}

-- libdrm, whose functions are interposed, is loaded: `dlsym` finds `real_add` and `real_commit`.
unfoldable pub resolve : Env → Shim → Shim
resolve e s = if s.resolved then s else record s { resolved = true; symbols = e.dlsym }

unfoldable pub prop_num : Env → Symbols → String → ℤ → ℤ
prop_num e y name dflt = if y.prop_get then parse_num (e.prop name) dflt else dflt

unfoldable pub now_ms : Env → Symbols → ℤ
now_ms e y = if y.clock_gettime then int64 (pos (e.sec * 1000 + e.nsec / 1000000)) else pos 0

unfoldable pub read_tunables : Env → Symbols → Tunables
read_tunables e y = record {
  enable = int32 (prop_num e y "persist.epdcshim.enable" (pos 1));
  wf = int32 (prop_num e y "persist.epdcshim.wf" (pos 2));
  upd = int32 (prop_num e y "persist.epdcshim.upd" (pos 1));
  flag = int32 (prop_num e y "persist.epdcshim.flag" (pos 0x21000));
  interval = int32 (prop_num e y "persist.epdcshim.interval" (pos 0));
  fastwf = int32 (prop_num e y "persist.epdcshim.fastwf" (pos 0));
  fastms = int32 (prop_num e y "persist.epdcshim.fastms" (pos 250));
  fullevery = int32 (prop_num e y "persist.epdcshim.fullevery" (pos 0));
  skipsame = int32 (prop_num e y "persist.epdcshim.skipsame" (pos 1));
  settlems = int32 (prop_num e y "persist.epdcshim.settlems" (pos 0));
  settlewf = int32 (prop_num e y "persist.epdcshim.settlewf" (pos 2));
}

unfoldable pub refresh_tunables : Env → Shim → Shim
refresh_tunables e s =
    if ltb (s.commits_since_recheck + 1) recheck
    then record s { commits_since_recheck = s.commits_since_recheck + 1 }
    else record s { commits_since_recheck = 0; tunables = read_tunables e s.symbols }
