-- ===== src/Tests/Damages.antt =====
-- The seqlock, the rectangles and the texts on concrete inputs.
use palma2pro_eos.Base.{
  ◌⊎◌, ℕ, ◌*◌, ◌<◌, ◌≡◌, refl, inr, Bool, true, false, List, [], ◌∷◌, arith, ltb,
}
use palma2pro_eos.Base.Int.{ℤ, pos}
use palma2pro_eos.Shim.State.{Tunables, default_tunables, Shim, Env, init}
use palma2pro_eos.Shim.Damage.{clip_count, accepts, accepted, read_damage, unusable}
use palma2pro_eos.Shim.Parms.{policy, init_parms}
use palma2pro_eos.Shim.Parms.Panel.{Submits, init_parms-Submits}
use palma2pro_eos.Shim.Parms.Cadence.{run_policies, policy-cadence}
use palma2pro_eos.Seqlock.{
  Cells, System, update, Reach, here, next, write, read, begin, store_count, store_full, store_cell,
  finish, load_seq, load_count, load_full, load_cell, attempt_of, attempt_at,
}
use palma2pro_eos.Seqlock.Safety.{accepted-untorn}
use palma2pro_eos.Seqlock.Reads.{Looks, IsPublication, read_damage-IsPublication}
use palma2pro_eos.Seqlock.Relaxed.{Race, Runs, begun, early, race_attempt, torn_read}
use palma2pro_eos.Seqlock.Progress.{Loads, at_cell, undisturbed_read}
use palma2pro_eos.Publish.{cell_of}
use palma2pro_eos.Tests.Sample.{line, far, env}

abbrev pub junk : ℕ → ℤ
junk i = pos 0

abbrev pub one_rect : Cells
one_rect = record { count = 1; full = 0; cell = cell_of (line ∷ []) }

-- the first four cells of `from`, copied one by one over the junk
abbrev pub copied : (ℕ → ℤ) → ℕ → ℤ
copied from = update (update (update (update junk 0 (from 0)) 1 (from 1)) 2 (from 2)) 3 (from 3)

pub below : (k n : ℕ) → ltb k n ≡ true → k < n
below k n h = ground arith

pub four_cells : (k : ℕ) → k < 4 → k < 4 * clip_count 1
unfolding clip_count
four_cells k h = ground arith

-- one publication, then one undisturbed read
abbrev pub whole_read : (s : System) × Reach junk s
whole_read =
    let w₁ = next here (write (begin one_rect (omega arith))) in
    let w₂ = next w₁ (write store_count) in
    let w₃ = next w₂ (write store_full) in
    let w₄ = next w₃ (write (store_cell (below _ _ refl))) in
    let w₅ = next w₄ (write (store_cell (below _ _ refl))) in
    let w₆ = next w₅ (write (store_cell (below _ _ refl))) in
    let w₇ = next w₆ (write (store_cell (below _ _ refl))) in
    let w₈ = next w₇ (write (finish refl)) in
    let r₁ = next w₈ (read (load_seq refl)) in
    let r₂ = next r₁ (read load_count) in
    let r₃ = next r₂ (read (load_full junk)) in
    let r₄ = next r₃ (read (load_cell (four_cells _ (below _ _ refl)))) in
    let r₅ = next r₄ (read (load_cell (four_cells _ (below _ _ refl)))) in
    let r₆ = next r₅ (read (load_cell (four_cells _ (below _ _ refl)))) in
    (_, next r₆ (read (load_cell (four_cells _ (below _ _ refl)))))

accepted-untorn_example :
    let a = attempt_of whole_read.0 4 1 0 (copied (copied one_rect.cell)) in
    accepted a 2 ≡ accepted (attempt_at 4 (whole_read.0.published 4)) 2
unfolding accepts clip_count
accepted-untorn_example =
    accepted-untorn 4 1 0 (copied (copied one_rect.cell)) 2 whole_read.1 refl (omega arith) refl

undisturbed_read_example :
    let s = whole_read.0 in
    (n : ℕ) × (f : ℕ) × (got : ℕ → ℤ) × Loads s (at_cell s n f (4 * clip_count n) got)
    × (let a = attempt_of s 4 n f got in
        (accepts a ≡ true) × (accepted a 2 ≡ accepted (attempt_at 4 (s.published 4)) 2))
unfolding clip_count
undisturbed_read_example = undisturbed_read whole_read.0 2 whole_read.1 refl

-- every attempt is that read
abbrev pub reading_env : Env
reading_env = record env {
  attempt = λ i. attempt_of whole_read.0 4 1 0 (copied (copied one_rect.cell));
}

abbrev pub attached : Shim
attached = record init { attached = true }

looking : Looks junk reading_env.attempt
unfolding clip_count
looking j = inr (record {
  system = whole_read.0;
  v = 4;
  n = 1;
  f = 0;
  got = copied (copied one_rect.cell);
  reach = whole_read.1;
  done = refl;
  few = omega arith;
  same = refl;
})

read_damage-IsPublication_example :
    ((attached.attached ≡ false) × (read_damage reading_env attached ≡ unusable 0))
    ⊎ ((attached.attached ≡ true)
        × IsPublication junk reading_env.attempt looking 0 4 0 (read_damage reading_env attached))
read_damage-IsPublication_example = read_damage-IsPublication junk reading_env attached looking

init_parms-Submits_example :
    let r = init_parms (pos 100) (line ∷ far ∷ []) (pos 0) init in Submits init r.0 r.1
init_parms-Submits_example = init_parms-Submits (pos 100) (line ∷ far ∷ []) (pos 0) init refl

abbrev every_third : Tunables
every_third = record default_tunables { fullevery = pos 3 }

-- the third update flashes
policy-cadence_example :
    let calls : List (ℤ × Bool) = (pos 20, false) ∷ (pos 30, true) ∷ [] in
    let p = policy every_third (run_policies every_third (pos 0) calls) (pos 40) false in
    (p.force_full ≡ true) × (p.upd ≡ pos 1) × (p.wf ≡ every_third.wf)
policy-cadence_example =
    policy-cadence every_third 3 refl (omega arith) (omega arith)
      ((pos 20, false) ∷ (pos 30, true) ∷ []) (pos 40) false

-- the next publication, of another rectangle
abbrev other_rect : Cells
other_rect = record { count = 1; full = 0; cell = cell_of (far ∷ []) }

torn_read_example :
    let s = whole_read.0 in
    (t : Race) × Runs (begun s junk) t
    × (got : ℕ → ℤ) × (t.loaded ≡ record (early s junk) { next = 4 * clip_count 1; got = got })
    × (accepts (race_attempt 4 1 0 4 got) ≡ true)
    × (accepted (race_attempt 4 1 0 4 got) 2 ≡ accepted (attempt_at 4 other_rect) 2)
torn_read_example =
    torn_read junk junk whole_read.0 other_rect 2 whole_read.1 refl (omega arith) (omega arith)
