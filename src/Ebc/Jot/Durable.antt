-- ===== src/Ebc/Jot/Durable.antt =====
-- The journal on storage: the runs of src/ebcinit.c, ebcpush.c and ebcprobe.c with `jot` taken apart.
use Prim.Native.String.{String}
use palma2pro_eos.Base.{ℕ, ◌+◌, ◌≡◌, Option, List, [], ◌∷◌}
use palma2pro_eos.Base.Int.{ℤ}
use palma2pro_eos.Ebc.Device.{Text, Call, jot, open_ebc, ioctl, mmap, load, store, memset, close}
use palma2pro_eos.Ebc.Device.Journal.{IsJournalled}
use palma2pro_eos.Ebc.Jot.{Sink, print, flush, write, fsync, jot_bytes}
use palma2pro_eos.Ebc.Jot
use palma2pro_eos.Ebc.Push
use palma2pro_eos.Ebc.Probe

-- what a run does, with its journal lines taken apart
pub data Act : Type 0 where
  sink : Sink → Act
  device : Call → Act

abbrev sinks : List Sink → List Act → List Act
sinks [] rest = rest
sinks (s ∷ ss) rest = sink s ∷ sinks ss rest

-- The calls from the line numbered `i` on; `text` is what `vsnprintf` makes of each line.
unfoldable pub expand : (log_fd : ℤ) → (ℕ → Option Text) → ℕ → List Call → List Act
expand log_fd text i [] = []
expand log_fd text i (jot f ∷ calls) =
    sinks (Jot.jot log_fd (text i)) (expand log_fd text (i + 1) calls)
expand log_fd text i (open_ebc ∷ calls) = device open_ebc ∷ expand log_fd text i calls
expand log_fd text i (ioctl fd r a ∷ calls) = device (ioctl fd r a) ∷ expand log_fd text i calls
expand log_fd text i (mmap fd l o ∷ calls) = device (mmap fd l o) ∷ expand log_fd text i calls
expand log_fd text i (load a ∷ calls) = device (load a) ∷ expand log_fd text i calls
expand log_fd text i (store a v ∷ calls) = device (store a v) ∷ expand log_fd text i calls
expand log_fd text i (memset v l ∷ calls) = device (memset v l) ∷ expand log_fd text i calls
expand log_fd text i (close fd ∷ calls) = device (close fd) ∷ expand log_fd text i calls

-- what has just been done with the log
pub data Mark : Type 0 where
  other : Mark
  written : Mark
  synced : Mark

abbrev pub after_sync : Mark → Mark
after_sync other = other
after_sync written = synced
after_sync synced = other

-- Every request, and every mapping, stands directly behind a write to the log and the fsync of it.
abbrev pub IsSynced : ℤ → Mark → List Act → Type 0
IsSynced log m [] = Unit
IsSynced log m (sink (print _) ∷ es) = IsSynced log other es
IsSynced log m (sink flush ∷ es) = IsSynced log other es
IsSynced log m (sink (write fd _) ∷ es) = (fd ≡ log) × IsSynced log written es
IsSynced log m (sink (fsync fd) ∷ es) = (fd ≡ log) × IsSynced log (after_sync m) es
IsSynced log m (device (ioctl _ _ _) ∷ es) = (m ≡ synced) × IsSynced log other es
IsSynced log m (device (mmap _ _ _) ∷ es) = (m ≡ synced) × IsSynced log other es
IsSynced log m (device (jot _) ∷ es) = ⊥
IsSynced log m (device open_ebc ∷ es) = IsSynced log other es
IsSynced log m (device (load _) ∷ es) = IsSynced log other es
IsSynced log m (device (store _ _) ∷ es) = IsSynced log other es
IsSynced log m (device (memset _ _) ∷ es) = IsSynced log other es
IsSynced log m (device (close _) ∷ es) = IsSynced log other es

abbrev pub IsDurable : ℤ → List Act → Type 0
IsDurable log es = IsSynced log other es

-- Each request and each mapping is on storage before it is made: under a line that names it, written
-- since the last thing that was done on the device, and directly behind an fsync of the log.
abbrev pub IsRecorded : ℤ → (ℕ → Option Text) → List Call → Type 0
IsRecorded log text calls = IsDurable log (expand log text 0 calls) × IsJournalled [] calls
