-- ===== src/Tests/Tools.antt =====
-- The tools of /dev/ebc in a small world.
use palma2pro_eos.Base.{
  ℕ, refl, ◌==◌, false, true, ◌≤◌, true, [], ◌∷◌, arith, codes, All, if◌then◌else◌,
}
use palma2pro_eos.Base.Int.{ℤ, pos, negsuc, eqb_ℤ}
use palma2pro_eos.Ebc.Device.{strcmp_eq, World, BufInfo, zero_info}
use palma2pro_eos.Ebc.Tool
use palma2pro_eos.Ebc.Tool.{cmd_ident, driver_sn_candidates}
use palma2pro_eos.Ebc.Tool.Requests.{Session, IsAsked, main-Session}
use palma2pro_eos.Ebc.Refresh
use palma2pro_eos.Ebc.Refresh.{Turns, refresh, default_options}
use palma2pro_eos.Ebc.Refresh.Series.{IsScreen, Finishes, refresh-Finishes}
use palma2pro_eos.Ebc.Push
use palma2pro_eos.Ebc.Push.{fill, frame_len, push, get, map, send, draw, row, rows, checker_byte}
use palma2pro_eos.Ebc.Push.Frame.{IsInside, push-IsInside}
use palma2pro_eos.Ebc.Push.Levels.{push_at, level}
use palma2pro_eos.Ebc.Probe
use palma2pro_eos.Ebc.Probe.{probe, map_len}
use palma2pro_eos.Ebc.Probe.Levels.{probe_at, IsAllowed}
use palma2pro_eos.Ebc.Device.Stages.{Begins}
use palma2pro_eos.Ebc.Staged.{staged_tools}

abbrev frame : BufInfo
frame = record zero_info { width = pos 66; height = pos 2; offset = pos 4096 }

-- a device that knows its serial number under 0x7002, as the stock kernel does
abbrev world : World
world = record {
  fd = pos 5;
  rc = λ request. if eqb_ℤ request (pos 0x7003) then negsuc 21 else pos 0;
  answer = λ request. frame;
  reply =
      λ request. if eqb_ℤ request (pos 0x7002) then codes "ONYX_EBC_DRIVER_VERSION_2.00" else [];
  is_mapped = true;
  atoi = λ text. pos 0;
  strtol = λ text. pos 2;
}

abbrev pushed : Push.Options
pushed = record { stage = pos 0; mode = pos 2; pattern = codes "checker" }

abbrev probed : Probe.Options
probed = record {
  stage = pos 0;
  rw_ = pos 64;
  rh = pos 64;
  flags = pos 0;
  marker = pos 1;
  mode = pos 2;
  forced_offset = negsuc 0;
}

main-Session_example :
    Session world true
      (IsAsked world (codes "2" ∷ codes "--go" ∷ []) (codes "refresh"))
      (Tool.main world (codes "refresh" ∷ codes "2" ∷ codes "--go" ∷ [])).0
unfolding strcmp_eq
main-Session_example = main-Session world (codes "refresh") (codes "2" ∷ codes "--go" ∷ [])

push-IsInside_example : (len : ℕ) × All (IsInside len) (push world (push_at pushed 4)).0
push-IsInside_example = push-IsInside world (push_at pushed 4) (omega arith) (omega arith)

staged_tools_example :
    All (λ c. level c ≤ 2) (push world (push_at pushed 2)).0
    × Begins (push world (push_at pushed 2)) (push world (push_at pushed 3))
    × All (IsAllowed 2 (map_len probed)) (probe world (probe_at probed 2)).0
    × Begins (probe world (probe_at probed 2)) (probe world (probe_at probed 3))
staged_tools_example = staged_tools world pushed probed 2 3 (omega arith)

abbrev thrice : Refresh.Options
thrice = record default_options { count = pos 3; interval_ms = pos 500 }

-- the signal comes before the third turn
abbrev interrupted : Turns
interrupted = record { stop = λ i. if i == 2 then true else false; invalid = λ i. false }

refresh-Finishes_example :
    (g : ℤ × ℤ) × IsScreen world g
    × Finishes interrupted thrice g 3 (refresh world interrupted thrice 4)
refresh-Finishes_example =
    refresh-Finishes world interrupted thrice 3 refl (omega arith) refl (omega arith)
