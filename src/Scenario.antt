-- ===== src/Scenario.antt =====
-- The forked scenarios examples/liangyi_gargantuar_a.py and examples/liangyi_gargantuar_b.py, which
-- differ in `PUFF_COL` only. Where the tick stands before a stage's first tick, Python's difference
-- is negative and ℕ's is 0: both are more than a chunk away from the stage's end.
pub mod Budget
pub mod Fork
mod Tests
use llm_vs_zombies.Base.{
  ℕ, ◌+◌, ◌-◌, Bool, true, false, Option, none, some, List, [], ◌∷◌, ltb, leb, if◌then◌else◌,
}

pub data Action : Type 0 where
  spawn : (kind row col : ℕ) → Action
  plant : (kind row col : ℕ) → Action

pub record Decision : Type 0 where
  pub actions : List Action
  pub advance_ticks : ℕ

-- `GargantuarScenario`
pub record Stages : Type 0 where
  pub spawn_tick : Option ℕ
  pub plant_tick : Option ℕ
  pub fork_done : Bool

abbrev pub new_stages : Stages
new_stages = record { spawn_tick = none; plant_tick = none; fork_done = false }

abbrev pub min : ℕ → ℕ → ℕ
min a b = if leb a b then a else b

-- `_step`
unfoldable pub step : ℕ → ℕ → ℕ → ℕ
step want chunk remaining = min (min want chunk) remaining

abbrev pub wait : ℕ → Decision
wait ticks = record { actions = []; advance_ticks = ticks }

abbrev pub act : Action → Decision
act a = record { actions = a ∷ []; advance_ticks = 0 }

-- `decide` after the spawn and the approach
unfoldable pub decide_late : ℕ → ℕ → ℕ → Stages → Decision × Stages
unfolding step
decide_late puff_col tick remaining s = elim s.plant_tick [
  | none ↦ (act (plant 8 6 puff_col), record s { plant_tick = some tick })
  | some planted ↦ (
    wait (
        if ltb (tick - planted) 240
        then step (240 - (tick - planted)) 40 remaining
        else min 100 remaining),
    record s { fork_done = true },
  )
]

-- `GargantuarScenario.decide`
unfoldable pub decide : ℕ → ℕ → ℕ → Stages → Decision × Stages
unfolding decide_late step
decide puff_col tick remaining s = elim s.spawn_tick [
  | none ↦ (act (spawn 23 6 9), record s { spawn_tick = some tick })
  | some spawned ↦
      if ltb (tick - spawned) 400
      then (wait (step (400 - (tick - spawned)) 40 remaining), s)
      else decide_late puff_col tick remaining s
]

-- the two files
abbrev pub decide_a : ℕ → ℕ → Stages → Decision × Stages
decide_a = decide 7

abbrev pub decide_b : ℕ → ℕ → Stages → Decision × Stages
decide_b = decide 6
