-- ===== src/Ptrace/Hits.antt =====
-- Which stops are taken for the entry of a system call, and what is printed of them.
use mathlib.Core.List.{append-nil}
use palma2pro_eos.Base.{
  ℕ, zero, suc, ◌+◌, ◌%◌, ◌^◌, ◌<◌, ◌≡◌, refl, ap, sym, subst, ◌∙◌, inl, inr, Bool, true, false,
  not, ◌&&◌, Option, none, some, List, [], ◌∷◌, ◌++◌, arith, ◌==◌, leb, ◌||◌, codes, take,
  if◌then◌else◌, length, length-append, Bool-cases,
}
use palma2pro_eos.Base.Int.{pos, int32, int64, ◌+ℤ◌}
use palma2pro_eos.Ptrace.Collect.{collect, collect-append}
use palma2pro_eos.Ebc.Device.{Text}
use palma2pro_eos.Ebc.Tool.{strstr, c_text}
use palma2pro_eos.Ptrace.{
  Report, nothing, gone, stopped, Regs, Turn, Hit, Action, seize, interrupt, wait, get_regs,
  read_path, print, resume, sleep, detach, State, start, is_display, is_asked, fd_path, detail_of,
  on_request, on_regs, count_hit, on_syscall, on_report, run,
}

abbrev is_even : ℕ → Bool
is_even zero = true
is_even (suc n) = not (is_even n)

-- a stop for a system call, of a thread whose number is i modulo 65536
unfoldable is_call_in : ℕ → Report → Bool
is_call_in i nothing = false
is_call_in i (gone tid) = false
is_call_in i (stopped tid sig) = sig == 133 && i == tid % 65536

unfoldable calls_in : ℕ → List Turn → ℕ
calls_in i [] = 0
calls_in i (t ∷ turns) = if is_call_in i t.report then suc (calls_in i turns) else calls_in i turns

-- a link to a display device, of which 255 bytes are read
abbrev names_display : Option Text → Bool
names_display none = false
names_display (some k) =
    strstr (c_text (take 255 k)) (codes "/dev/ebc")
    || strstr (c_text (take 255 k)) (codes "/dev/dri")

-- The registers are those of an `ioctl`, number 29, with a request from 0x7000 to 0x7300 and a
-- descriptor of a display device.
abbrev is_wanted : Turn → Regs → Bool
is_wanted t r =
    (r.x8 == 29 && leb 0x7000 r.x1 && leb r.x1 0x7300) && names_display (t.link (int32 (pos r.x0)))

-- the line for a stop with these registers
abbrev line_for : Turn → ℕ → Regs → Hit
line_for t tid r = record {
  tid = tid;
  path = fd_path (t.link (int32 (pos r.x0)));
  request = r.x1;
  detail = detail_of t r.x1 r.x2;
}

abbrev hits_by : Turn → ℕ → Option Regs → List Hit
hits_by t tid none = []
hits_by t tid (some r) = if is_wanted t r then line_for t tid r ∷ [] else []

abbrev listed : Option Hit → List Hit
listed none = []
listed (some h) = h ∷ []

-- what is to be printed in a turn, after those of `past`
unfoldable hits_at : List Turn → Turn → Report → List Hit
hits_at past t nothing = []
hits_at past t (gone tid) = []
hits_at past t (stopped tid sig) =
    if sig == 133 && is_even (calls_in (tid % 65536) past) then hits_by t tid t.regs else []

-- and in a sequence of turns
unfoldable pub hits_of : List Turn → List Turn → List Hit
unfolding hits_at calls_in is_call_in
hits_of past [] = []
hits_of past (t ∷ turns) = hits_at past t t.report ++ hits_of (t ∷ past) turns

abbrev pub printed_by : Action → List Hit
printed_by (print h) = h ∷ []
printed_by (seize tid) = []
printed_by (interrupt tid) = []
printed_by (wait tid) = []
printed_by (get_regs tid) = []
printed_by (read_path fd) = []
printed_by (resume tid sig) = []
printed_by sleep = []
printed_by (detach tid) = []

abbrev pub printed : List Action → List Hit
printed = collect printed_by

-- The flags say which slots have had an odd number of stops.
Follows : State → List Turn → Type 0
Follows s past = (i : ℕ) → s.in_syscall i ≡ not (is_even (calls_in i past))

not-not : (b : Bool) → not (not b) ≡ b
not-not true = refl
not-not false = refl

syscall-Follows :
    (past : List Turn) (t : Turn) (tid : ℕ) (s : State)
    → Follows s past
    → (i : ℕ)
    → (on_syscall t tid s).0.in_syscall i
      ≡ not (is_even (if i == tid % 65536 then suc (calls_in i past) else calls_in i past))
unfolding on_syscall Follows
syscall-Follows past t tid s f i = elim (Bool-cases (i == tid % 65536)) [
  | inl e ↦
      let same : i ≡ tid % 65536 = ground arith in
      elim (Bool-cases (s.in_syscall (tid % 65536))) [
        | inl b ↦
            rw (b, e)
              (ap not (sym (subst (λ k. s.in_syscall k ≡ true) (sym same) b)) ∙ ap not (f i))
        | inr b ↦
            rw (b, e)
              (ap not (sym (subst (λ k. s.in_syscall k ≡ false) (sym same) b)) ∙ ap not (f i))
      ]
  | inr e ↦ elim (Bool-cases (s.in_syscall (tid % 65536))) [
    | inl b ↦ rw (b, e) (f i)
    | inr b ↦ rw (b, e) (f i)
  ]
]

report-Follows :
    (past : List Turn) (t : Turn) (r : Report) (s : State)
    → Follows s past
    → Follows (on_report t r s).0 (record t { report = r } ∷ past)
unfolding on_report Follows calls_in is_call_in
report-Follows past t nothing s f i = f i
report-Follows past t (gone tid) s f i = f i
report-Follows past t (stopped tid sig) s f i = elim (Bool-cases (sig == 133)) [
  | inl e ↦ rw e (syscall-Follows past t tid s f i)
  | inr e ↦ rw e (f i)
]

on_request-printed :
    (t : Turn) (tid : ℕ) (r : Regs) → printed (on_request t tid r).0 ≡ listed (on_request t tid r).1
unfolding on_request collect
on_request-printed t tid r = elim (Bool-cases (is_display (fd_path (t.link (int32 (pos r.x0)))))) [
  | inl e ↦ rw e refl
  | inr e ↦ rw e refl
]

on_regs-printed :
    (t : Turn) (tid : ℕ) (o : Option Regs)
    → printed (on_regs t tid o).0 ≡ listed (on_regs t tid o).1
unfolding on_regs collect
on_regs-printed t tid none = refl
on_regs-printed t tid (some r) = elim (Bool-cases (is_asked r)) [
  | inl e ↦ rw e (on_request-printed t tid r)
  | inr e ↦ rw e refl
]

is_display-names : (o : Option Text) → is_display (fd_path o) ≡ names_display o
unfolding fd_path strstr
is_display-names none = refl
is_display-names (some k) = refl

on_regs-hits : (t : Turn) (tid : ℕ) (o : Option Regs) → listed (on_regs t tid o).1 ≡ hits_by t tid o
unfolding on_regs on_request
on_regs-hits t tid none = refl
on_regs-hits t tid (some r) =
    let link = t.link (int32 (pos r.x0)) in
    elim (Bool-cases (is_asked r)) [
      | inr e ↦ rw e refl
      | inl e ↦ elim (Bool-cases (is_display (fd_path link))) [
        | inl d ↦ rw (e, ← is_display-names link, d) refl
        | inr d ↦ rw (e, ← is_display-names link, d) refl
      ]
    ]

report-printed :
    (past : List Turn) (t : Turn) (r : Report) (s : State)
    → Follows s past
    → printed (on_report t r s).1 ≡ hits_at past t r
unfolding on_report on_syscall collect hits_at Follows
report-printed past t nothing s f = refl
report-printed past t (gone tid) s f = refl
report-printed past t (stopped tid sig) s f = elim (Bool-cases (sig == 133)) [
  | inl e ↦
      let even : is_even (calls_in (tid % 65536) past) ≡ not (s.in_syscall (tid % 65536)) =
        sym (not-not _) ∙ ap not (sym (f (tid % 65536))) in
      elim (Bool-cases (s.in_syscall (tid % 65536))) [
        | inl b ↦ rw (e, even, b) refl
        | inr b ↦
            rw (e, even, b)
              (collect-append printed_by (on_regs t tid t.regs).0 (resume (pos tid) 0 ∷ [])
                ∙ append-nil _
                ∙ on_regs-printed t tid t.regs
                ∙ on_regs-hits t tid t.regs)
      ]
  | inr e ↦ rw e refl
]

run-printed :
    (turns past : List Turn) (s : State)
    → Follows s past
    → printed (run turns s).1 ≡ hits_of past turns
unfolding run collect hits_of
run-printed [] past s f = refl
run-printed (t ∷ turns) past s f =
    collect-append printed_by (on_report t t.report s).1 _
    ∙ ap (λ l. l ++ printed (run turns (on_report t t.report s).0).1)
        (report-printed past t t.report s f)
    ∙ ap (λ l. hits_at past t t.report ++ l)
        (run-printed turns (t ∷ past) _ (report-Follows past t t.report s f))

count_hit-length :
    (h : Option Hit) (n : ℕ) → suc n < 2 ^ 63 → count_hit h (pos n) ≡ pos (n + length (listed h))
unfolding int64 ◌+ℤ◌
count_hit-length none n small = ap pos (omega arith)
count_hit-length (some h) n small = ground arith

listed_one : (h : Option Hit) → length (listed h) < 2
listed_one none = omega arith
listed_one (some h) = omega arith

-- one more for what has been printed, which is one line at most
Counts : ℕ → State × List Action → Type 0
Counts n out = (out.0.hits ≡ pos (n + length (printed out.1))) × (length (printed out.1) < 2)

syscall-Counts :
    (t : Turn) (tid : ℕ) (s : State) (n : ℕ)
    → s.hits ≡ pos n
    → suc n < 2 ^ 63
    → Counts n (on_syscall t tid s)
unfolding on_syscall collect Counts
syscall-Counts t tid s n h small = elim (Bool-cases (s.in_syscall (tid % 65536))) [
  | inl b ↦ rw b (h ∙ ap pos (omega arith), omega arith)
  | inr b ↦
      let lines : printed ((on_regs t tid t.regs).0 ++ resume (pos tid) 0 ∷ [])
          ≡ listed (on_regs t tid t.regs).1 =
        collect-append printed_by (on_regs t tid t.regs).0 (resume (pos tid) 0 ∷ [])
        ∙ append-nil _
        ∙ on_regs-printed t tid t.regs in
      rw (b, lines)
        (
          ap (count_hit (on_regs t tid t.regs).1) h
              ∙ count_hit-length (on_regs t tid t.regs).1 n small,
          listed_one (on_regs t tid t.regs).1,
        )
]

report-Counts :
    (t : Turn) (r : Report) (s : State) (n : ℕ)
    → s.hits ≡ pos n
    → suc n < 2 ^ 63
    → Counts n (on_report t r s)
unfolding on_report collect Counts
report-Counts t nothing s n h small = (h ∙ ap pos (omega arith), omega arith)
report-Counts t (gone tid) s n h small = (h ∙ ap pos (omega arith), omega arith)
report-Counts t (stopped tid sig) s n h small = elim (Bool-cases (sig == 133)) [
  | inl e ↦ rw e (syscall-Counts t tid s n h small)
  | inr e ↦ rw e (h ∙ ap pos (omega arith), omega arith)
]

run-hits :
    (turns : List Turn) (s : State) (n : ℕ)
    → s.hits ≡ pos n
    → n + length turns < 2 ^ 63
    → (run turns s).0.hits ≡ pos (n + length (printed (run turns s).1))
unfolding run collect Counts
run-hits [] s n h small = h ∙ ap pos (omega arith)
run-hits (t ∷ turns) s n h small =
    let now = (on_report t t.report s).1 in
    let later = (run turns (on_report t t.report s).0).1 in
    let (c, few) = report-Counts t t.report s n h (omega arith) in
    run-hits turns _ _ c (omega arith)
    ∙ ap pos (
        omega (
          arith,
          ap length (collect-append printed_by now later),
          length-append (printed now) (printed later),
        ))

-- For fewer than 2^63 turns from the start: what is printed is, in order, one line for each stop for
-- a system call that finds registers with an `ioctl`, a request from 0x7000 to 0x7300 and a
-- descriptor whose link names /dev/ebc or /dev/dri, and that comes after an even number of stops for system calls of threads with the same number
-- modulo 65536, ended threads included; and the number at the end is how many lines these are.
pub run-Hits :
    (turns : List Turn)
    → length turns < 2 ^ 63
    → (printed (run turns start).1 ≡ hits_of [] turns)
      × ((run turns start).0.hits ≡ pos (length (hits_of [] turns)))
unfolding Follows calls_in
run-Hits turns small =
    let lines = run-printed turns [] start (λ i. refl) in
    (
      lines,
      run-hits turns start 0 refl (omega arith)
          ∙ ap (λ l. pos (0 + length l)) lines
          ∙ ap pos (omega arith),
    )
