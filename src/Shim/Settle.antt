-- ===== src/Shim/Settle.antt =====
-- `settle_now`, one round of `settle_thread`, and `start_settle_thread`.
pub mod Rounds
pub mod Progress
pub mod Markers
use palma2pro_eos.Base.{ℕ, Bool, true, false, ◌&&◌, ◌||◌, not, List, [], ◌∷◌, if◌then◌else◌}
use palma2pro_eos.Base.Int.{ℤ, pos, int32, int64, ◌+ℤ◌, ◌-ℤ◌, ltb_ℤ, leb_ℤ, eqb_ℤ}
use palma2pro_eos.Shim.State.{Upd, Shim, Env, Call, create_thread, open_ebc, send_update, close_ebc}
use palma2pro_eos.Shim.Tunables.{now_ms}
use palma2pro_eos.Shim.Parms.{panel}

-- `if (++marker <= 0) marker = 1;`, with the increment as the machine's addition wraps it
unfoldable pub next_marker : ℤ → ℤ
next_marker m = let m' = int32 (m +ℤ pos 1) in if leb_ℤ m' (pos 0) then pos 1 else m'

unfoldable pub settle_upd : Shim → ℤ → Upd
settle_upd s marker = record {
  rect = panel;
  waveform_mode = s.tunables.settlewf;
  update_mode = pos 1;
  update_marker = marker;
  temp = pos 0;
  flag = s.tunables.flag;
  reserved = pos 0;
}

unfoldable pub settle_now : Env → Shim → Shim × List Call
settle_now e s =
    if not (s.symbols.open_ && s.symbols.ioctl)
    then (s, [])
    else if ltb_ℤ e.ebc_fd (pos 0)
    then (s, open_ebc ∷ [])
    else let m = next_marker s.settle_marker in
      (
        record s { settle_marker = m },
        open_ebc
            ∷ send_update e.ebc_fd (settle_upd s m)
            ∷ (if s.symbols.close then close_ebc e.ebc_fd ∷ [] else []),
      )

-- the tests that end a round of the loop with `continue`
unfoldable pub settle_due : Env → Shim → Bool
settle_due e s =
    not (eqb_ℤ s.tunables.settlems (pos 0))
    && s.settle_pending
    && not (ltb_ℤ (int64 (now_ms e s.symbols -ℤ s.last_inject_ms)) s.tunables.settlems)

-- one round with no commit in between
unfoldable pub settle_round : Env → Shim → Shim × List Call
settle_round e s =
    if settle_due e s then settle_now e (record s { settle_pending = false }) else (s, [])

unfoldable pub start_settle_thread : Shim → Shim × List Call
start_settle_thread s =
    if s.settle_started || not s.symbols.pthread_create
    then (s, [])
    else (record s { settle_started = true }, create_thread ∷ [])
