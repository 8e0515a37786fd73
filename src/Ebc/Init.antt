-- ===== src/Ebc/Init.antt =====
-- src/ebcinit.c: the four start-up requests, or one of them.
pub mod Replay
pub mod Journal
use palma2pro_eos.Base.{ℕ, Bool, true, false, ◌&&◌, not, List, [], ◌∷◌, ◌++◌, if◌then◌else◌, codes}
use palma2pro_eos.Base.Int.{ℤ, pos, negsuc, int32, ltb_ℤ, leb_ℤ, eqb_ℤ}
use palma2pro_eos.Ebc.Device.{
  Text, strcmp_eq, null, zeroed, Call, jot, open_ebc, ioctl, close, World, Run, each_arg, before,
}

-- one element of `kSeq`
pub record Request : Type 0 where
  pub req : ℤ
  pub null_arg : Bool

abbrev pub k_seq : List Request
k_seq =
    record { req = pos 0x7029; null_arg = false }
    ∷ record { req = pos 0x7021; null_arg = false }
    ∷ record { req = pos 0x701e; null_arg = false }
    ∷ record { req = pos 0x7022; null_arg = true }
    ∷ []

-- one turn of the loop over `argv`, which sets `only`; the path of the journal is left out
unfoldable pub consume : World → Text → List Text → ℤ → ℕ × ℤ
consume w a [] only = (0, only)
consume w a (b ∷ rest) only =
    if strcmp_eq a (codes "--log")
    then (1, only)
    else if strcmp_eq a (codes "--only")
    then (1, int32 (w.strtol b))
    else (0, only)

-- `continue`, in the loop over `kSeq`
unfoldable pub is_skipped : ℤ → ℤ → Bool
is_skipped only req = leb_ℤ (pos 0) only && not (eqb_ℤ req only)

unfoldable pub step : World → Request → List Call
step w r =
    if r.null_arg
    then jot "  >>> ioctl 0x%04x %s -- if the log stops here, THIS hangs"
      ∷ ioctl w.fd r.req null
      ∷ jot "      rc=%d errno=%d (%s)"
      ∷ []
    else jot "  >>> ioctl 0x%04x %s -- if the log stops here, THIS hangs"
      ∷ ioctl w.fd r.req (zeroed 4096)
      ∷ jot "      rc=%d errno=%d (%s)"
      ∷ jot "      out[0..5] = %d %d %d %d %d %d"
      ∷ []

unfoldable pub steps : World → ℤ → List Request → List Call
unfolding is_skipped step
steps w only [] = []
steps w only (r ∷ rs) = (if is_skipped only r.req then [] else step w r) ++ steps w only rs

-- `main` behind the options
unfoldable pub replay : World → ℤ → Run
unfolding steps
replay w only = before (jot "=== ebcinit (pid %d) ===" ∷ open_ebc ∷ []) (
    if ltb_ℤ w.fd (pos 0)
    then (jot "open %s failed: %s" ∷ [], pos 1)
    else before (jot "opened %s fd=%d" ∷ []) (
        before (steps w only k_seq)
          (jot "=== sequence complete, survived ===" ∷ close w.fd ∷ [], pos 0)))

-- with the arguments behind the program's name
unfoldable pub main : World → List Text → Run
main w args = replay w (each_arg (consume w) 0 args (negsuc 0))
