-- ===== src/Tests/Tracers.antt =====
-- The preloaded `ioctl` and the tracer by ptrace on concrete calls.
use palma2pro_eos.Base.{
  ◌≡◌, refl, ◌⊎◌, true, false, none, some, List, [], ◌∷◌, arith, All, codes, length, if◌then◌else◌,
}
use palma2pro_eos.Base.Int.{pos, negsuc, eqb_ℤ}
use palma2pro_eos.Print.{Line, render, piece, decimal, hex, unsigned, digits}
use palma2pro_eos.Ebc.Device.{strcmp_eq, SendUpdate}
use palma2pro_eos.Trace
use palma2pro_eos.Trace.Layout.{field, bytes_of, line_of, forward-line_of}
use palma2pro_eos.Trace.{
  forward, write_log, real_ioctl, Trace, unloaded, load, null, block, classify, look, ioctl,
}
use palma2pro_eos.Trace.Forwards.{forwarded, logged, ioctl-Forwards}
use palma2pro_eos.Trace.Kinds.{Use, run_uses, first_kind}
use palma2pro_eos.Trace.Lines.{IsWholeWrite, ioctl-IsWhole}
use palma2pro_eos.Ptrace.{Report, nothing, gone, stopped, Turn, start, run, Kernel}
use palma2pro_eos.Ptrace.Hits.{hits_of, printed, run-Hits}

-- descriptor 7 is the panel's
abbrev panel_env : Trace.Env
panel_env = record {
  log = pos 3;
  pid = pos 1234;
  link = λ fd. if eqb_ℤ fd (pos 7) then some (codes "/dev/ebc") else none;
  rc = negsuc 21;
}

-- and later of another file
abbrev reopened : Trace.Env
reopened = record panel_env { link = λ fd. none }

abbrev loaded : Trace
loaded = (load panel_env unloaded).0

abbrev bytes : Trace.Pointer
bytes = block (λ i. i) (λ i. 255)

ioctl-Forwards_example :
    let out = ioctl panel_env (pos 7) (pos 0x700c) bytes unloaded in
    (forwarded out.1 ≡ (pos 7, pos 0x700c, bytes) ∷ [])
    × (out.2 ≡ negsuc 21)
    × ((unloaded.resolved ≡ false)
        ⊎ (eqb_ℤ (look panel_env (pos 7) unloaded.fdkind).kind (pos 0) ≡ false)
        ⊎ (logged out.1 ≡ []))
ioctl-Forwards_example = ioctl-Forwards panel_env (pos 7) (pos 0x700c) bytes unloaded

abbrev use_again : Use
use_again = record { env = reopened; fd = pos 7; request = pos 1; arg = null }

first_kind_example :
    let s' = run_uses (use_again ∷ []) (ioctl panel_env (pos 7) (pos 1) null loaded).0 in
    (look reopened (pos 7) s'.fdkind).kind ≡ classify panel_env (pos 7)
unfolding load
first_kind_example =
    first_kind panel_env 7 (pos 1) null loaded (use_again ∷ []) reopened (omega arith) refl refl

ioctl-IsWhole_example : All IsWholeWrite (ioctl panel_env (pos 7) (pos 0x700c) bytes unloaded).1
ioctl-IsWhole_example =
    ioctl-IsWhole panel_env (pos 7) (pos 0x700c) bytes unloaded (omega arith, omega arith)
      (omega arith, omega arith) (omega arith, omega arith) (omega arith, omega arith)

abbrev sent_update : SendUpdate
sent_update = record {
  x = pos 10;
  y = pos 20;
  right = pos 110;
  bottom = pos 70;
  waveform_mode = pos 2;
  update_mode = pos 1;
  update_marker = pos 7;
  unknown_1c = negsuc 0;
  flags = pos 0x21000;
  unknown_24 = negsuc 4;
}

-- the line reads back the negative fields too
sent_line :
    line_of sent_update (negsuc 21)
    ≡ codes "UPD rect=(10,20)-(110,70) wf=2 mode=1 marker=7 f1c=-1 flags=0x21000 f24=-5 -> rc=-22\n"
unfolding field render piece decimal hex unsigned digits
sent_line = refl

forward-line_of_example :
    (l : Line) × (l.bytes ≡ line_of sent_update (negsuc 21))
    × (forward panel_env
          (pos 3)
          (pos 1)
          (pos 7)
          (pos 0x700c)
          (block (bytes_of sent_update) (λ i. 0))
        ≡ real_ioctl (pos 7) (pos 0x700c) (block (bytes_of sent_update) (λ i. 0))
          ∷ write_log (pos 3) 256 l
          ∷ [])
forward-line_of_example =
    forward-line_of panel_env (pos 3) (pos 1) (pos 7) sent_update (λ i. 0) (omega arith)
      (omega arith) (omega arith) refl

-- a stop in the `ioctl` with the request 0x700c on descriptor 7
abbrev turn : Report → Turn
turn r = record {
  report = r;
  regs = some (record { x0 = 7; x1 = 0x700c; x2 = 0x1000; x8 = 29 });
  link = panel_env.link;
  peek = λ address. some (λ i. pos i);
}

-- a call is entered and left, there is a signal, and another thread of the slot makes a call
abbrev turns : List Turn
turns =
    turn (stopped 100 133)
    ∷ turn (stopped 100 133)
    ∷ turn (stopped 100 17)
    ∷ turn nothing
    ∷ turn (stopped 65636 133)
    ∷ turn (gone 100)
    ∷ []

run-Hits_example :
    (printed (run turns start).1 ≡ hits_of [] turns)
    × ((run turns start).0.hits ≡ pos (length (hits_of [] turns)))
run-Hits_example = run-Hits turns (omega arith)

-- the second thread cannot be seized
abbrev kernel : Kernel
kernel = record {
  tasks = some (codes "." ∷ codes "100" ∷ codes "101" ∷ []);
  atoi = λ name. if strcmp_eq name (codes "100") then pos 100 else pos 101;
  seizes = λ tid. eqb_ℤ tid (pos 100);
  interrupts = λ tid. true;
  waits = λ tid. true;
}
