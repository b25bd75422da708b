-- ===== src/Scenario/Tests.antt =====
-- The scenario theorems at the constants of the two files.
use llm_vs_zombies.Base.{◌+◌, ◌≤◌, ◌≡◌, map}
use llm_vs_zombies.Scenario.{new_stages}
use llm_vs_zombies.Scenario.Budget.{run, advanced, acted, run-budget}
use llm_vs_zombies.Scenario.Fork.{rebait, run-rebait}

run-budget_example :
    (advanced (run 7 (1000 + 2) 0 1000 new_stages) ≡ 1000)
    × (acted (run 7 (1000 + 2) 0 1000 new_stages) ≤ 2)
run-budget_example = run-budget 7 0 1000

run-rebait_example : run 6 30 0 1000 new_stages ≡ map (rebait 6) (run 7 30 0 1000 new_stages)
run-rebait_example = run-rebait 7 6 30 0 1000 new_stages
