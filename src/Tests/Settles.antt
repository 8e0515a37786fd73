-- ===== src/Tests/Settles.antt =====
-- Rounds of the settle thread on concrete states.
use palma2pro_eos.Base.{◌≡◌, refl, ◌⊎◌, true, false, [], ◌∷◌, arith}
use palma2pro_eos.Base.Int.{pos, int64, ◌-ℤ◌}
use palma2pro_eos.Shim.State.{default_tunables, Shim, Env, init}
use palma2pro_eos.Shim.Tunables.{now_ms}
use palma2pro_eos.Shim.Settle.{settle_upd, settle_round}
use palma2pro_eos.Shim.Settle.Rounds.{run_rounds}
use palma2pro_eos.Shim.Settle.Progress.{Settles, run_rounds-Settles}
use palma2pro_eos.Settling
use palma2pro_eos.Settling.{
  System, outside, sleeping, cleared, Steps, here, next, time_commit, inject, mark, draw,
}
use palma2pro_eos.Settling.Safety.{drawn-WillSettle}
use palma2pro_eos.Settling.Lost.{Loses, settle_lost}
use palma2pro_eos.Settling.Handlers.{CommitSteps, RoundSteps, handlers-Steps}
use palma2pro_eos.Shim.Commit.{commit}
use palma2pro_eos.Tests.Sample.{all_symbols, env, args, busy}

-- the first commit has been made, half a second before `env`
abbrev committed : Shim
committed = record init {
  resolved = true;
  symbols = all_symbols;
  tunables = record default_tunables { settlems = pos 400 };
  settle_pending = true;
  last_inject_ms = pos 7000;
  parms = settle_upd init (pos 1) ∷ [];
}

abbrev no_device : Env
no_device = record env { ebc_fd = pos 0 -ℤ pos 2 }

-- the panel is quiet for long enough in the first round already, in which the device is missing
run_rounds-Settles_example :
    Settles (no_device ∷ env ∷ []) committed (run_rounds (no_device ∷ env ∷ []) committed)
run_rounds-Settles_example =
    run_rounds-Settles (no_device ∷ env ∷ []) committed (omega arith) refl (λ h. cc)

-- the first commit, and the state behind it
abbrev one_commit : (s : System) × Steps (pos 400) (pos 0) (Settling.start (pos 1000)) s
one_commit =
    let s₁ = next here (time_commit refl refl) in
    let s₂ = next s₁ (inject (pos 1000) refl) in
    let s₃ = next s₂ (mark refl) in (_, next s₃ (draw refl))

drawn-WillSettle_example : (one_commit.0.pending ≡ true) ⊎ (one_commit.0.thread ≡ cleared)
drawn-WillSettle_example = drawn-WillSettle (pos 1000) one_commit.0 one_commit.1 refl refl

-- half a second later
abbrev waiting : System
waiting = record one_commit.0 { now = pos 1500 }

settle_lost_example : (t : System) × Loses (pos 400) (pos 0) waiting t
unfolding int64 ◌-ℤ◌
settle_lost_example = settle_lost (pos 400) (pos 0) waiting refl refl refl refl refl refl

handlers-Steps_example :
    CommitSteps (pos 400) env busy sleeping false false (commit env args busy).0
    × RoundSteps (pos 0) (now_ms env busy.symbols) busy false false (settle_round env busy)
handlers-Steps_example = handlers-Steps (pos 400) (pos 0) env args busy sleeping false false refl
