-- ===== src/Ptrace/Threads.antt =====
-- Which threads are seized, and what becomes of them.
use mathlib.Core.List.{append_assoc}
use palma2pro_eos.Base.{
  ℕ, zero, suc, ◌≤◌, ◌≡◌, refl, ap, sym, ◌∙◌, ◌⊎◌, inl, inr, Bool, true, false, not, ◌&&◌, List, [],
  ◌∷◌, ◌++◌, arith, if◌then◌else◌, length, All, All-imp, Bool-cases, Option-cases,
}
use palma2pro_eos.Base.Int.{ℤ, pos, negsuc, eqb_ℤ}
use palma2pro_eos.Ebc.Device.{Text}
use palma2pro_eos.Ptrace.Collect.{collect, collect-append}
use palma2pro_eos.Ptrace.{
  Action, seize, interrupt, wait, Kernel, attach, attach_entry, is_number, attach_loop, attach_all,
}

-- A thread that the three calls have succeeded for, of those that are asked for.
abbrev pub IsHeld : Kernel → ℤ → Bool → ℤ → Type 0
IsHeld k pid main_only tid =
    (k.seizes tid ≡ true)
    × (k.interrupts tid ≡ true)
    × (k.waits tid ≡ true)
    × ((main_only ≡ false) ⊎ (tid ≡ pid))

-- Among the calls, the thread is seized, interrupted and waited for, in this order without another
-- call in between.
abbrev pub IsTaken : List Action → ℤ → Type 0
IsTaken calls tid =
    (before : List Action) × (behind : List Action) × (calls
      ≡ before ++ (seize tid ∷ interrupt tid ∷ wait tid ∷ behind))

IsTaken-behind : (xs calls : List Action) (tid : ℤ) → IsTaken calls tid → IsTaken (xs ++ calls) tid
IsTaken-behind xs calls tid (before, behind, e) =
    (xs ++ before, behind, ap (λ l. xs ++ l) e ∙ sym (append_assoc xs before _))

pub IsTaken-before :
    (calls ys : List Action) (tid : ℤ) → IsTaken calls tid → IsTaken (calls ++ ys) tid
IsTaken-before calls ys tid (before, behind, e) =
    (before, behind ++ ys, ap (λ l. l ++ ys) e ∙ append_assoc before _ ys)

eqb_ℤ-eq : (a b : ℤ) → eqb_ℤ a b ≡ true → a ≡ b
eqb_ℤ-eq (pos m) (pos n) h = ap pos (ground arith)
eqb_ℤ-eq (pos m) (negsuc n) h = absurd (ground arith)
eqb_ℤ-eq (negsuc m) (pos n) h = absurd (ground arith)
eqb_ℤ-eq (negsuc m) (negsuc n) h = ap negsuc (ground arith)

module _ (k : Kernel) (pid : ℤ) (main_only : Bool) where
  attach_held :
      (tid : ℤ)
      → (attach k tid).1 ≡ true
      → (k.seizes tid ≡ true) × (k.interrupts tid ≡ true) × (k.waits tid ≡ true)
  unfolding attach
  attach_held tid h = elim (Bool-cases (k.seizes tid)) [
    | inr n ↦ absurd (cc (rw n at h))
    | inl s ↦ elim (Bool-cases (k.interrupts tid)) [
      | inr n ↦ absurd (cc (rw (s, n) at h))
      | inl i ↦ (s, i, rw (s, i) at h)
    ]
  ]

  attach_entry-IsHeld :
      (name : Text)
      → (attach_entry k pid main_only name).1 ≡ true
      → IsHeld k pid main_only (k.atoi name)
  unfolding attach_entry
  attach_entry-IsHeld name h = elim (Bool-cases (not (is_number name))) [
    | inl n ↦ absurd (cc (rw n at h))
    | inr n ↦ elim (Bool-cases main_only) [
      | inr every ↦
          let (s, i, w) = attach_held (k.atoi name) (rw (n, every) at h) in (s, i, w, inl every)
      | inl only ↦ elim (Bool-cases (eqb_ℤ (k.atoi name) pid)) [
        | inr other ↦ absurd (cc (rw (n, only, other) at h))
        | inl main_thread ↦
            let (s, i, w) = attach_held (k.atoi name) (rw (n, only, main_thread) at h) in
            (s, i, w, inr (eqb_ℤ-eq (k.atoi name) pid main_thread))
      ]
    ]
  ]

  attach_loop-IsHeld :
      (room : ℕ) (names : List Text)
      → let tids = (attach_loop k pid main_only room names).1 in
        (length tids ≤ room) × All (IsHeld k pid main_only) tids
  unfolding attach_loop
  attach_loop-IsHeld room [] = (omega arith, tt)
  attach_loop-IsHeld zero (name ∷ names) = (omega arith, tt)
  attach_loop-IsHeld (suc room) (name ∷ names) =
      elim (Bool-cases (attach_entry k pid main_only name).1) [
        | inl h ↦
            let (few, held) = attach_loop-IsHeld room names in
            rw h (omega (arith, few), (attach_entry-IsHeld name h, held))
        | inr h ↦ rw h (attach_loop-IsHeld (suc room) names)
      ]

  attach_entry-calls :
      (name : Text)
      → (attach_entry k pid main_only name).1 ≡ true
      → (attach_entry k pid main_only name).0
        ≡ seize (k.atoi name) ∷ interrupt (k.atoi name) ∷ wait (k.atoi name) ∷ []
  unfolding attach_entry attach
  attach_entry-calls name h = elim (Bool-cases (not (is_number name))) [
    | inl n ↦ absurd (cc (rw n at h))
    | inr n ↦ elim (Bool-cases (main_only && not (eqb_ℤ (k.atoi name) pid))) [
      | inl o ↦ absurd (cc (rw (n, o) at h))
      | inr o ↦ elim (Bool-cases (k.seizes (k.atoi name))) [
        | inr s ↦ absurd (cc (rw (n, o, s) at h))
        | inl s ↦ elim (Bool-cases (k.interrupts (k.atoi name))) [
          | inr i ↦ absurd (cc (rw (n, o, s, i) at h))
          | inl i ↦ rw (n, o, s, i) refl
        ]
      ]
    ]
  ]

  attach_loop-IsTaken :
      (room : ℕ) (names : List Text)
      → let (calls, tids) = attach_loop k pid main_only room names in All (IsTaken calls) tids
  unfolding attach_loop
  attach_loop-IsTaken room [] = tt
  attach_loop-IsTaken zero (name ∷ names) = tt
  attach_loop-IsTaken (suc room) (name ∷ names) =
      elim (Bool-cases (attach_entry k pid main_only name).1) [
        | inl h ↦
            let (more, tids) = attach_loop k pid main_only room names in
            let three = attach_entry-calls name h in
            rw (h, three)
              (
                ([], more, refl),
                All-imp (IsTaken more) _ (λ t. IsTaken-behind _ more t) tids
                    (attach_loop-IsTaken room names),
              )
        | inr h ↦
            let (more, tids) = attach_loop k pid main_only (suc room) names in
            rw h (
              All-imp (IsTaken more) _ (λ t. IsTaken-behind _ more t) tids
                (attach_loop-IsTaken (suc room) names))
      ]

  pub attach_all-IsTaken :
      (max : ℕ) → let (calls, tids) = attach_all k pid main_only max in All (IsTaken calls) tids
  unfolding attach_all
  attach_all-IsTaken max = elim (Option-cases k.tasks) [
    | inl n ↦ rw n tt
    | inr (names, s) ↦ rw s (attach_loop-IsTaken max names)
  ]

  pub attach_all-IsHeld :
      (max : ℕ)
      → let tids = (attach_all k pid main_only max).1 in
        (length tids ≤ max) × All (IsHeld k pid main_only) tids
  unfolding attach_all
  attach_all-IsHeld max = elim (Option-cases k.tasks) [
    | inl n ↦ rw n (omega arith, tt)
    | inr (names, s) ↦ rw s (attach_loop-IsHeld max names)
  ]

  -- nothing is taken of the calls that seize threads
  module _ {B : Type 0} (f : Action → List B) (fs : (tid : ℤ) → f (seize tid) ≡ [])
      (fi : (tid : ℤ) → f (interrupt tid) ≡ []) (fw : (tid : ℤ) → f (wait tid) ≡ []) where
    collect-entry : (name : Text) → collect f (attach_entry k pid main_only name).0 ≡ []
    unfolding attach_entry attach collect
    collect-entry name =
        let tid = k.atoi name in
        elim (Bool-cases (not (is_number name))) [
          | inl n ↦ rw n refl
          | inr n ↦ elim (Bool-cases (main_only && not (eqb_ℤ tid pid))) [
            | inl o ↦ rw (n, o) refl
            | inr o ↦ elim (Bool-cases (not (k.seizes tid))) [
              | inl a ↦ rw (n, o, a, fs tid) refl
              | inr a ↦ elim (Bool-cases (not (k.interrupts tid))) [
                | inl b ↦ rw (n, o, a, b, fs tid, fi tid) refl
                | inr b ↦ rw (n, o, a, b, fs tid, fi tid, fw tid) refl
              ]
            ]
          ]
        ]

    collect-loop :
        (room : ℕ) (names : List Text) → collect f (attach_loop k pid main_only room names).0 ≡ []
    unfolding attach_loop collect
    collect-loop room [] = refl
    collect-loop zero (name ∷ names) = refl
    collect-loop (suc room) (name ∷ names) =
        let (actions, held) = attach_entry k pid main_only name in
        collect-append f actions _
        ∙ ap
            (λ l.
              l
              ++ collect f (attach_loop k pid main_only (if held then room else suc room) names).0)
            (collect-entry name)
        ∙ (elim (Bool-cases held) [
          | inl h ↦ rw h (collect-loop room names)
          | inr h ↦ rw h (collect-loop (suc room) names)
        ])

    pub collect-all : (max : ℕ) → collect f (attach_all k pid main_only max).0 ≡ []
    unfolding attach_all collect
    collect-all max = elim (Option-cases k.tasks) [
      | inl n ↦ rw n refl
      | inr (names, s) ↦ rw s (collect-loop max names)
    ]
