-- ===== src/Ptrace/Resumes.antt =====
-- Every stop is ended once, and no thread is resumed that has not stopped.
use palma2pro_eos.Base.{
  ℕ, ◌%◌, ◌≡◌, refl, ap, ◌∙◌, inl, inr, ◌||◌, Option, none, some, List, [], ◌∷◌, ◌++◌, ◌==◌,
  if◌then◌else◌, Bool-cases,
}
use palma2pro_eos.Base.Int.{ℤ, pos, int32}
use palma2pro_eos.Ptrace.Collect.{collect, collect-append}
use palma2pro_eos.Ptrace.{
  Report, nothing, gone, stopped, Regs, Turn, Action, seize, interrupt, wait, get_regs, read_path,
  print, resume, sleep, detach, State, is_display, is_asked, fd_path, on_request, on_regs,
  on_syscall, on_report, run,
}

-- the calls that let a thread go on, with the signal that it gets
abbrev pub resumed_by : Action → List (ℤ × ℕ)
resumed_by (resume tid sig) = (tid, sig) ∷ []
resumed_by (seize tid) = []
resumed_by (interrupt tid) = []
resumed_by (wait tid) = []
resumed_by (get_regs tid) = []
resumed_by (read_path fd) = []
resumed_by (print h) = []
resumed_by sleep = []
resumed_by (detach tid) = []

abbrev pub resumed : List Action → List (ℤ × ℕ)
resumed = collect resumed_by

-- The signal that a stop is to end with: none for the stops of ptrace itself and for SIGSTOP (the
-- numbers 133, 5 and 19), otherwise the one that has stopped the thread.
abbrev pub signal_for : ℕ → ℕ
signal_for sig = if sig == 133 || sig == 5 || sig == 19 then 0 else sig

-- the stops among the reports, with their signals
unfoldable pub stops : List Turn → List (ℤ × ℕ)
stops [] = []
stops (t ∷ turns) = elim t.report [
  | nothing ↦ stops turns
  | gone tid ↦ stops turns
  | stopped tid sig ↦ (pos tid, signal_for sig) ∷ stops turns
]

on_request-resumed : (t : Turn) (tid : ℕ) (r : Regs) → resumed (on_request t tid r).0 ≡ []
unfolding on_request collect
on_request-resumed t tid r = elim (Bool-cases (is_display (fd_path (t.link (int32 (pos r.x0)))))) [
  | inl e ↦ rw e refl
  | inr e ↦ rw e refl
]

on_regs-resumed : (t : Turn) (tid : ℕ) (o : Option Regs) → resumed (on_regs t tid o).0 ≡ []
unfolding on_regs collect
on_regs-resumed t tid none = refl
on_regs-resumed t tid (some r) = elim (Bool-cases (is_asked r)) [
  | inl e ↦ rw e (on_request-resumed t tid r)
  | inr e ↦ rw e refl
]

on_syscall-resumed :
    (t : Turn) (tid : ℕ) (s : State) → resumed (on_syscall t tid s).1 ≡ (pos tid, 0) ∷ []
unfolding on_syscall collect
on_syscall-resumed t tid s = elim (Bool-cases (s.in_syscall (tid % 65536))) [
  | inl e ↦ rw e refl
  | inr e ↦ rw e (
      collect-append resumed_by (on_regs t tid t.regs).0 (resume (pos tid) 0 ∷ [])
      ∙ ap (λ l. l ++ (pos tid, 0) ∷ []) (on_regs-resumed t tid t.regs))
]

stop-resumed :
    (t : Turn) (tid sig : ℕ) (s : State)
    → resumed (on_report t (stopped tid sig) s).1 ≡ (pos tid, signal_for sig) ∷ []
unfolding on_report collect
stop-resumed t tid sig s = elim (Bool-cases (sig == 133)) [
  | inl e ↦ rw e (on_syscall-resumed t tid s)
  | inr e ↦ rw e refl
]

report-resumed :
    (t : Turn) (r : Report) (turns : List Turn) (s : State)
    → resumed (on_report t r s).1 ++ stops turns ≡ stops (record t { report = r } ∷ turns)
unfolding stops on_report collect
report-resumed t nothing turns s = refl
report-resumed t (gone tid) turns s = refl
report-resumed t (stopped tid sig) turns s = ap (λ l. l ++ stops turns) (stop-resumed t tid sig s)

-- Whatever is reported turn by turn, and from any state: the loop resumes exactly the threads that
-- it has been told have stopped, each once for each of its stops, in the order of the reports; and
-- it passes on the signal of the stop, but for those of ptrace itself and a SIGSTOP.
pub run-Resumes : (turns : List Turn) (s : State) → resumed (run turns s).1 ≡ stops turns
unfolding run collect stops
run-Resumes [] s = refl
run-Resumes (t ∷ turns) s =
    collect-append resumed_by (on_report t t.report s).1 _
    ∙ ap (λ l. resumed (on_report t t.report s).1 ++ l)
        (run-Resumes turns (on_report t t.report s).0)
    ∙ report-resumed t t.report turns s
