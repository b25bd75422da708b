-- ===== src/Scenario/Budget.antt =====
-- The tick budget of the scenarios, with a runtime that executes every tick a decision asks for.
use llm_vs_zombies.Base.{
  ℕ, zero, suc, ◌+◌, ◌-◌, ◌≤◌, ◌≡◌, none, some, List, [], ◌∷◌, if◌then◌else◌, arith, length, ◌==◌,
  Bool-cases, inl, inr,
}
use llm_vs_zombies.Scenario.{Decision, Stages, decide, decide_late, step, new_stages}

-- A run: decisions while ticks remain, on fuel.
unfoldable pub run : ℕ → ℕ → ℕ → ℕ → Stages → List Decision
unfolding decide
run puff_col zero tick remaining s = []
run puff_col (suc fuel) tick remaining s =
    let d = decide puff_col tick remaining s in
    let rest =
      run puff_col fuel (tick + (d.0).advance_ticks) (remaining - (d.0).advance_ticks) d.1 in
    if remaining == 0 then [] else d.0 ∷ rest

abbrev pub advanced : List Decision → ℕ
advanced [] = 0
advanced (d ∷ ds) = d.advance_ticks + advanced ds

abbrev pub acted : List Decision → ℕ
acted [] = 0
acted (d ∷ ds) = length d.actions + acted ds

-- the actions that are still to come
abbrev to_come : Stages → ℕ
to_come s =
    (elim s.spawn_tick [ none ↦ 1 | some _ ↦ 0 ]) + (elim s.plant_tick [ none ↦ 1 | some _ ↦ 0 ])

-- A decision never asks for more ticks than remain.
pub decide-bounded :
    (puff_col tick remaining : ℕ) (s : Stages)
    → ((decide puff_col tick remaining s).0).advance_ticks ≤ remaining
unfolding decide decide_late step
decide-bounded puff_col tick remaining s = ground arith

-- A decision with ticks left makes progress: it acts, and an action fewer is to come, or it advances.
decide-progress :
    (puff_col tick remaining : ℕ) (s : Stages)
    → 1 ≤ remaining
    → let d = decide puff_col tick remaining s in
      (to_come d.1 + length (d.0).actions ≡ to_come s)
      × (1 ≤ (d.0).advance_ticks + length (d.0).actions)
unfolding decide decide_late step
decide-progress puff_col tick remaining s h = ground (arith, h)

run-acted :
    (puff_col fuel tick remaining : ℕ) (s : Stages)
    → acted (run puff_col fuel tick remaining s) ≤ to_come s
unfolding run
run-acted puff_col zero tick remaining s = omega arith
run-acted puff_col (suc fuel) tick remaining s = elim (Bool-cases (remaining == 0)) [
  | inl e ↦ rw e (omega arith)
  | inr e ↦
      let d = decide puff_col tick remaining s in
      let later =
        run-acted puff_col fuel (tick + (d.0).advance_ticks) (remaining - (d.0).advance_ticks)
          d.1 in
      let now = decide-progress puff_col tick remaining s (ground (arith, e)) in
      rw e (omega (arith, later, now.0))
]

-- With fuel for every tick and every action that is to come, a run spends the whole budget.
run-spends :
    (puff_col fuel tick remaining : ℕ) (s : Stages)
    → remaining + to_come s ≤ fuel
    → advanced (run puff_col fuel tick remaining s) ≡ remaining
unfolding run
run-spends puff_col zero tick remaining s h = omega (arith, h)
run-spends puff_col (suc fuel) tick remaining s h = elim (Bool-cases (remaining == 0)) [
  | inl e ↦ rw e (ground (arith, e))
  | inr e ↦
      let d = decide puff_col tick remaining s in
      let bound = decide-bounded puff_col tick remaining s in
      let now = decide-progress puff_col tick remaining s (ground (arith, e)) in
      let later =
        run-spends puff_col fuel (tick + (d.0).advance_ticks) (remaining - (d.0).advance_ticks) d.1
          (omega (arith, h, bound, now.0, now.1)) in
      rw e (omega (arith, later, bound))
]

-- Whatever the bait column and the first tick, a run of a fresh scenario with a budget of `budget`
-- ticks ends within `budget + 2` decisions, having advanced exactly the budget and acted at most twice.
pub run-budget :
    (puff_col tick budget : ℕ)
    → (advanced (run puff_col (budget + 2) tick budget new_stages) ≡ budget)
      × (acted (run puff_col (budget + 2) tick budget new_stages) ≤ 2)
run-budget puff_col tick budget = (
  run-spends puff_col (budget + 2) tick budget new_stages (omega arith),
  run-acted puff_col (budget + 2) tick budget new_stages,
)
