-- ===== src/Ebc/Staged.antt =====
-- The two tools that run in stages, src/ebcpush.c and src/ebcprobe.c.
use palma2pro_eos.Base.{ℕ, ◌≤◌, All}
use palma2pro_eos.Ebc.Device.{World}
use palma2pro_eos.Ebc.Device.Stages.{Begins}
use palma2pro_eos.Ebc.Push
use palma2pro_eos.Ebc.Push.{push}
use palma2pro_eos.Ebc.Push.Levels.{push_at, level, push-level, push-Begins}
use palma2pro_eos.Ebc.Probe
use palma2pro_eos.Ebc.Probe.{probe, map_len}
use palma2pro_eos.Ebc.Probe.Levels.{probe_at, IsAllowed, probe-IsAllowed, probe-Begins}

-- Stage i of either tool does only what the stages up to i are for, with any options, whatever the
-- device answers. In ebcpush no buffer is sent below stage 4, the mapping is not touched below 3,
-- nothing is mapped below 2, and stage 0 asks for the geometry alone. In ebcprobe no update is
-- submitted below stage 5, nothing is written below 4, nothing read below 3, nothing mapped below
-- 2, and what it reads and writes lies inside the mapping. And for i ≤ j, with the same options and
-- answers, what stage i does on the device is the beginning of what stage j does.
pub staged_tools :
    (w : World) (o : Push.Options) (q : Probe.Options) (i j : ℕ)
    → i ≤ j
    → All (λ c. level c ≤ i) (push w (push_at o i)).0
      × Begins (push w (push_at o i)) (push w (push_at o j))
      × All (IsAllowed i (map_len q)) (probe w (probe_at q i)).0
      × Begins (probe w (probe_at q i)) (probe w (probe_at q j))
staged_tools w o q i j h =
    (push-level w o i, push-Begins w o i j h, probe-IsAllowed w q i, probe-Begins w q i j h)
