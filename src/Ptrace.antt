-- ===== src/Ptrace.antt =====
-- src/ebcptrace.c: the tracer that follows the threads of a process by ptrace and prints their calls
-- of `ioctl` on the display devices.
pub mod Collect
pub mod Resumes
pub mod Hits
pub mod Threads
pub mod Session
use palma2pro_eos.Base.{
  ℕ, zero, suc, ◌+◌, ◌%◌, Bool, true, false, not, ◌&&◌, ◌||◌, Option, none, some, List, [], ◌∷◌,
  ◌++◌, ltb, leb, ◌==◌, if◌then◌else◌, codes, length, drop, get_elem?, take,
}
use palma2pro_eos.Base.Int.{ℤ, pos, int32, int64, ◌+ℤ◌, eqb_ℤ}
use palma2pro_eos.Ebc.Device.{Text, strcmp_eq}
use palma2pro_eos.Ebc.Tool.{strstr, c_text}

abbrev pub max_tid : ℕ
max_tid = 65536

-- what `waitpid` reports: nothing, the end of a thread, or a stop with the signal of its status
pub data Report : Type 0 where
  nothing : Report
  gone : (tid : ℕ) → Report
  stopped : (tid sig : ℕ) → Report

-- the registers of `struct arm64_regs` that are read
pub record Regs : Type 0 where
  pub x0 : ℕ
  pub x1 : ℕ
  pub x2 : ℕ
  pub x8 : ℕ

-- A turn of the loop: the report, and what the kernel would answer to the questions about it.
pub record Turn : Type 0 where
  pub report : Report
  pub regs : Option Regs
  pub link : ℤ → Option Text  -- what /proc/pid/fd says of a descriptor
  pub peek : ℕ → Option (ℕ → ℤ)  -- ten words at an address of the process

-- what is printed of the argument
pub data Detail : Type 0 where
  no_detail : Detail
  update : (ℕ → ℤ) → Detail
  words : (ℕ → ℤ) → Detail

pub record Hit : Type 0 where
  pub tid : ℕ
  pub path : Text
  pub request : ℕ
  pub detail : Detail

-- What the program does.
pub data Action : Type 0 where
  seize : (tid : ℤ) → Action
  interrupt : (tid : ℤ) → Action
  wait : (tid : ℤ) → Action
  get_regs : (tid : ℕ) → Action
  read_path : (fd : ℤ) → Action
  print : Hit → Action
  resume : (tid : ℤ) (sig : ℕ) → Action  -- PTRACE_SYSCALL
  sleep : Action
  detach : (tid : ℤ) → Action

pub record State : Type 0 where
  pub in_syscall : ℕ → Bool
  pub hits : ℤ

abbrev pub start : State
start = record { in_syscall = λ i. false; hits = pos 0 }

-- `fd_path`: the text in the buffer of 256 bytes
unfoldable pub fd_path : Option Text → Text
fd_path none = []
fd_path (some k) = c_text (take 255 k)

abbrev pub is_display : Text → Bool
is_display p = strstr p (codes "/dev/ebc") || strstr p (codes "/dev/dri")

unfoldable pub detail_of : Turn → (request address : ℕ) → Detail
detail_of t request address = if address == 0 then no_detail else elim (t.peek address) [
  | none ↦ no_detail
  | some u ↦ if request == 0x700c then update u else words u
]

-- behind the test of the request
unfoldable pub on_request : Turn → (tid : ℕ) → Regs → List Action × Option Hit
unfolding fd_path detail_of
on_request t tid r =
    let fd = int32 (pos r.x0) in
    let p = fd_path (t.link fd) in
    let hit : Hit = record {
      tid = tid;
      path = p;
      request = r.x1;
      detail = detail_of t r.x1 r.x2;
    } in
    if is_display p then (read_path fd ∷ print hit ∷ [], some hit) else (read_path fd ∷ [], none)

abbrev pub is_asked : Regs → Bool
is_asked r = r.x8 == 29 && leb 0x7000 r.x1 && leb r.x1 0x7300

-- on entry to a system call
unfoldable pub on_regs : Turn → (tid : ℕ) → Option Regs → List Action × Option Hit
unfolding on_request
on_regs t tid none = (get_regs tid ∷ [], none)
on_regs t tid (some r) =
    let (actions, hit) = on_request t tid r in
    if is_asked r then (get_regs tid ∷ actions, hit) else (get_regs tid ∷ [], none)

-- `hits++`, if something has been printed
abbrev pub count_hit : Option Hit → ℤ → ℤ
count_hit none n = n
count_hit (some h) n = int64 (n +ℤ pos 1)

abbrev pub set_flag : (ℕ → Bool) → ℕ → Bool → ℕ → Bool
set_flag flags idx b = λ i. if i == idx then b else flags i

-- a stop for a system call
unfoldable pub on_syscall : Turn → (tid : ℕ) → State → State × List Action
unfolding on_regs
on_syscall t tid s =
    let idx = tid % max_tid in
    let entering = not (s.in_syscall idx) in
    let (actions, hit) = on_regs t tid t.regs in
    let flags = set_flag s.in_syscall idx entering in
    if entering
    then (
      record { in_syscall = flags; hits = count_hit hit s.hits },
      actions ++ resume (pos tid) 0 ∷ [],
    )
    else (record { in_syscall = flags; hits = s.hits }, resume (pos tid) 0 ∷ [])

-- the signal that a stop for another reason ends with; 5 and 19 are SIGTRAP and SIGSTOP
abbrev pub passed_on : ℕ → ℕ
passed_on sig = if sig == 5 || sig == 19 then 0 else sig

unfoldable pub on_report : Turn → Report → State → State × List Action
unfolding on_syscall
on_report t nothing s = (s, sleep ∷ [])
on_report t (gone tid) s = (s, [])
on_report t (stopped tid sig) s =
    if sig == 133 then on_syscall t tid s else (s, resume (pos tid) (passed_on sig) ∷ [])

-- the loop of `main`, for the turns that the deadline leaves
unfoldable pub run : List Turn → State → State × List Action
unfolding on_report
run [] s = (s, [])
run (t ∷ turns) s =
    let (s₁, now) = on_report t t.report s in let (s₂, later) = run turns s₁ in (s₂, now ++ later)

-- What libc and the kernel answer when the threads are seized.
pub record Kernel : Type 0 where
  pub tasks : Option (List Text)  -- the names in /proc/pid/task
  pub atoi : Text → ℤ
  pub seizes : ℤ → Bool
  pub interrupts : ℤ → Bool
  pub waits : ℤ → Bool

abbrev pub is_number : Text → Bool
is_number name = elim (get_elem? name 0) [ none ↦ false | some c ↦ leb b'0' c && leb c b'9' ]

-- the calls for one thread, and whether it goes into `tids`
unfoldable pub attach : Kernel → ℤ → List Action × Bool
attach k tid =
    if not (k.seizes tid)
    then (seize tid ∷ [], false)
    else if not (k.interrupts tid)
    then (seize tid ∷ interrupt tid ∷ [], false)
    else (seize tid ∷ interrupt tid ∷ wait tid ∷ [], k.waits tid)

-- the body of the loop of `attach_all`
unfoldable pub attach_entry : Kernel → (pid : ℤ) (main_only : Bool) → Text → List Action × Bool
unfolding attach
attach_entry k pid main_only name =
    if not (is_number name)
    then ([], false)
    else if main_only && not (eqb_ℤ (k.atoi name) pid)
    then ([], false)
    else attach k (k.atoi name)

-- the loop, with `room` places of `tids` left
unfoldable pub attach_loop :
    Kernel → (pid : ℤ) (main_only : Bool) (room : ℕ) → List Text → List Action × List ℤ
unfolding attach_entry
attach_loop k pid main_only room [] = ([], [])
attach_loop k pid main_only zero (name ∷ names) = ([], [])
attach_loop k pid main_only (suc room) (name ∷ names) =
    let (actions, held) = attach_entry k pid main_only name in
    let (more, tids) = attach_loop k pid main_only (if held then room else suc room) names in
    (actions ++ more, if held then k.atoi name ∷ tids else tids)

unfoldable pub attach_all : Kernel → (pid : ℤ) (main_only : Bool) (max : ℕ) → List Action × List ℤ
unfolding attach_loop
attach_all k pid main_only max = elim k.tasks [
  | none ↦ ([], [])
  | some names ↦ attach_loop k pid main_only max names
]

abbrev pub each : (ℤ → Action) → List ℤ → List Action
each f [] = []
each f (tid ∷ tids) = f tid ∷ each f tids

-- `main` behind the arguments, with the exit status
unfoldable pub trace : Kernel → List Turn → (pid : ℤ) (main_only : Bool) → List Action × ℤ
unfolding attach_all run
trace k turns pid main_only =
    let (attaching, tids) = attach_all k pid main_only 4096 in
    let (s, tracing) = run turns start in
    if length tids == 0
    then (attaching, pos 1)
    else (attaching ++ each (λ tid. resume tid 0) tids ++ tracing ++ each detach tids, pos 0)

-- the arguments: the process, the seconds, and perhaps `main`
unfoldable pub main : Kernel → List Turn → List Text → List Action × ℤ
unfolding trace
main k turns [] = ([], pos 2)
main k turns (pid ∷ []) = ([], pos 2)
main k turns (pid ∷ secs ∷ []) = trace k turns (k.atoi pid) false
main k turns (pid ∷ secs ∷ a ∷ rest) = trace k turns (k.atoi pid) (strcmp_eq a (codes "main"))
