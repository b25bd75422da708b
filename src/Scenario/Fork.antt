-- ===== src/Scenario/Fork.antt =====
-- The fork of the scenarios: one request stream but for the bait column.
use llm_vs_zombies.Base.{
  ℕ, zero, suc, ◌+◌, ◌-◌, ◌≡◌, refl, ◌∷◌, map, ◌==◌, Bool-cases, Option, none, some, Bool, ltb, ap,
  inl, inr,
}
use llm_vs_zombies.Scenario.{Action, spawn, plant, Decision, Stages, decide, decide_late}
use llm_vs_zombies.Scenario.Budget.{run}

-- an action with the bait moved to a column; a gargantuar is no bait
abbrev pub rebait_action : ℕ → Action → Action
rebait_action col (spawn kind row c) = spawn kind row c
rebait_action col (plant kind row c) = plant kind row col

abbrev pub rebait : ℕ → Decision → Decision
rebait col d = record d { actions = map (rebait_action col) d.actions }

abbrev IsRebaited : ℕ → ℕ → ℕ → ℕ → Stages → Type 0
IsRebaited a b tick remaining s =
    decide b tick remaining s
    ≡ (rebait b (decide a tick remaining s).0, (decide a tick remaining s).1)

abbrev stages : Option ℕ → Option ℕ → Bool → Stages
stages spawned planted forked = record {
  spawn_tick = spawned;
  plant_tick = planted;
  fork_done = forked;
}

rebaited :
    (a b tick remaining : ℕ) (spawned planted : Option ℕ) (forked : Bool)
    → IsRebaited a b tick remaining (stages spawned planted forked)
unfolding decide decide_late
rebaited a b tick remaining none planted forked = refl
rebaited a b tick remaining (some n) none forked = elim (Bool-cases (ltb (tick - n) 400)) [
  | inl l ↦ rw l refl
  | inr l ↦ rw l refl
]
rebaited a b tick remaining (some n) (some m) forked = elim (Bool-cases (ltb (tick - n) 400)) [
  | inl l ↦ rw l refl
  | inr l ↦ rw l refl
]

decide-rebait : (a b tick remaining : ℕ) (s : Stages) → IsRebaited a b tick remaining s
decide-rebait a b tick remaining s =
    rebaited a b tick remaining s.spawn_tick s.plant_tick s.fork_done

-- The runs of two scenarios that differ in the bait column make the same decisions, in the same
-- number and with the same ticks, but for the column of the bait.
pub run-rebait :
    (a b fuel tick remaining : ℕ) (s : Stages)
    → run b fuel tick remaining s ≡ map (rebait b) (run a fuel tick remaining s)
unfolding run
run-rebait a b zero tick remaining s = refl
run-rebait a b (suc fuel) tick remaining s = elim (Bool-cases (remaining == 0)) [
  | inl e ↦ rw e refl
  | inr e ↦
      let d = decide a tick remaining s in
      let next =
        run-rebait a b fuel (tick + (d.0).advance_ticks) (remaining - (d.0).advance_ticks) d.1 in
      rw (e, decide-rebait a b tick remaining s) (ap (λ ds. rebait b d.0 ∷ ds) next)
]
