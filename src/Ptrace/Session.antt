-- ===== src/Ptrace/Session.antt =====
-- A whole session: from the threads that are seized to those that are let go.
use palma2pro_eos.Base.{ℕ, List, [], ◌∷◌}
use palma2pro_eos.Base.Int.{ℤ}
use palma2pro_eos.Ptrace.Collect.{collect}
use palma2pro_eos.Ptrace.{
  Action, seize, interrupt, wait, get_regs, read_path, print, resume, sleep, detach,
}

abbrev pub detached_by : Action → List ℤ
detached_by (detach tid) = tid ∷ []
detached_by (seize tid) = []
detached_by (interrupt tid) = []
detached_by (wait tid) = []
detached_by (get_regs tid) = []
detached_by (read_path fd) = []
detached_by (print h) = []
detached_by (resume tid sig) = []
detached_by sleep = []

abbrev pub detached : List Action → List ℤ
detached = collect detached_by

-- each thread with signal 0
unfoldable pub started : List ℤ → List (ℤ × ℕ)
started [] = []
started (tid ∷ tids) = (tid, 0) ∷ started tids
