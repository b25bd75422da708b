-- ===== src/Workers/Tests.antt =====
-- The schedule of cold workers at concrete inputs.
use llm_vs_zombies.Base.{
  ◌⊎◌, ℕ, ◌+◌, ◌≤◌, ◌≡◌, refl, true, false, List, [], ◌∷◌, none, some, if◌then◌else◌, ◌==◌, leb,
  length, arith,
}
use llm_vs_zombies.Workers.{
  poll_all, Workers, Schedule, Report, schedule, main_loop, fresh, polled, wait,
}
use llm_vs_zombies.Workers.Measure.{HasDeadline}
use llm_vs_zombies.Workers.Counted.{count, count_results, schedule-counted}
use llm_vs_zombies.Workers.Limits.{Refused, begins, polls, waits, Reached-limit, main_loop-stopped}

-- Every worker is done at its second poll; the worker of task 2 fails.
abbrev steady : Workers
steady = record {
  poll = λ r age. if leb 1 age then some (if r == 2 then false else true) else none;
  starts = λ r. true;
  interrupts = λ t. false;
}

abbrev tasks : List ℕ
tasks = 3 ∷ 2 ∷ 1 ∷ 4 ∷ []

steady-HasDeadline : HasDeadline steady 1
steady-HasDeadline = record { due = λ r age h. ground (arith, h) }

tasks_once : (r : ℕ) → count r tasks ≤ 1
tasks_once r = ground arith

-- The failure of task 2 is seen before the others start.
failing_run :
    schedule steady 13 tasks
    ≡ some (record {
      results = (2, false) ∷ (3, true) ∷ [];
      not_started = 1 ∷ 4 ∷ [];
      stopped_after_failure = true;
    })
unfolding schedule
failing_run = refl

schedule-counted_example :
    (report : Report) × (schedule steady 13 tasks ≡ some report)
    × ((r : ℕ) → count_results r report.results + count r report.not_started ≡ count r tasks)
schedule-counted_example =
    schedule-counted 1 steady 13 tasks steady-HasDeadline tasks_once (omega arith)

Reached-limit_example : length (polled steady (wait (polled steady (fresh tasks)))).running ≤ 2
Reached-limit_example =
    Reached-limit steady tasks (polled steady (wait (polled steady (fresh tasks))))
      (polls (waits (polls begins)))

-- Both running workers are done at this poll, and that of task 2 has failed.
abbrev at_failure : Schedule
at_failure = wait (polled steady (fresh tasks))

abbrev stopped : Schedule
stopped = record {
  pending = 1 ∷ 4 ∷ [];
  running = [];
  results = (3, true) ∷ (2, false) ∷ [];
  failed = true;
}

stops : main_loop steady 3 1 at_failure ≡ some stopped
unfolding main_loop
stops = refl

seen : (polled steady at_failure).failed ≡ true
unfolding main_loop
seen = refl

main_loop-stopped_example :
    (stopped.pending ≡ (polled steady at_failure).pending)
    × ((((poll_all steady at_failure).failed ≡ true)
          × (polled steady at_failure ≡ poll_all steady at_failure))
        ⊎ (((poll_all steady at_failure).failed ≡ false)
            × Refused steady at_failure.pending (polled steady at_failure).pending))
main_loop-stopped_example = main_loop-stopped steady 3 1 at_failure stopped seen stops
