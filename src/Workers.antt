-- ===== src/Workers.antt =====
-- src/llm_vs_zombies/cold_workers.py, `schedule`, which runs two cold workers at a time. The worker
-- processes are outside: a worker is collected with its verdict, or still runs, by its age in polls; a
-- start succeeds or raises; and a wait of the parent may raise.
pub mod Measure
pub mod Ending
pub mod Counted
pub mod Limits
pub mod Running
mod Tests
use mathlib.Core.Option
use llm_vs_zombies.Base.{
  ℕ, zero, suc, ◌+◌, Bool, true, false, ◌&&◌, ◌||◌, List, [], ◌∷◌, ◌++◌, Option, none, some,
  if◌then◌else◌, ◌==◌, ltb, leb, length, any, not, Dict, insert,
}

-- A task is named by its `repeat`. `poll r age` is what `collect_if_finished` answers about the worker of
-- `r` at its poll number `age`: the `passed` of its result, whether the worker exited, its deadline
-- was over or the query failed.
pub record Workers : Type 0 where
  pub poll : ℕ → ℕ → Option Bool
  pub starts : ℕ → Bool
  pub interrupts : ℕ → Bool

pub record Schedule : Type 0 where
  pub pending : List ℕ
  -- the age of each running worker
  pub running : Dict ℕ
  pub results : List (ℕ × Bool)
  pub failed : Bool

-- After a round the main loop goes on, or it is left.
pub data Round : Type 0 where
  goes_on : Schedule → Round
  leaves : Schedule → Round

-- `wait`, until every running worker is one poll older
unfoldable pub older : Dict ℕ → Dict ℕ
older [] = []
older ((r, age) ∷ d) = (r, suc age) ∷ older d

unfoldable pub wait : Schedule → Schedule
unfolding older
wait s = record s { running = older s.running }

module _ (w : Workers) where
  -- The poll of every running worker: those that still run, and the results of the others.
  unfoldable pub still : Dict ℕ → Dict ℕ
  still [] = []
  still ((r, age) ∷ d) =
      let rest = still d in elim (w.poll r age) [ none ↦ (r, age) ∷ rest | some _ ↦ rest ]

  unfoldable pub collected : Dict ℕ → List (ℕ × Bool)
  collected [] = []
  collected ((r, age) ∷ d) =
      let rest = collected d in
      elim (w.poll r age) [ none ↦ rest | some passed ↦ (r, passed) ∷ rest ]

  unfoldable pub poll_all : Schedule → Schedule
  unfolding still collected
  poll_all s = record s {
    running = still s.running;
    results = s.results ++ collected s.running;
    failed = s.failed || any (λ result. not result.1) (collected s.running);
  }

  -- The loop that fills a vacancy, over the pending tasks.
  unfoldable pub refill : List ℕ → Schedule → Schedule
  refill [] s = record s { pending = [] }
  refill (r ∷ rest) s =
      let started = refill rest (record s { running = insert r 0 s.running }) in
      if s.failed || leb 2 (length s.running)
      then record s { pending = r ∷ rest }
      else if w.starts r
      then started
      else record s { pending = rest; results = s.results ++ (r, false) ∷ []; failed = true }

  abbrev pub polled : Schedule → Schedule
  polled s = refill (poll_all s).pending (poll_all s)

  abbrev pub after_round : ℕ → Schedule → Round
  after_round t s =
      if length s.running == 0
      then (if s.failed then leaves s else goes_on s)
      else if w.interrupts t
      then leaves (record s { failed = true })
      else goes_on (wait s)

  -- The main loop, `t` rounds after its start; `none` is more rounds than `fuel`.
  unfoldable pub main_loop : ℕ → ℕ → Schedule → Option Schedule
  unfolding poll_all refill wait
  main_loop zero t s = none
  main_loop (suc fuel) t s =
      if length s.pending == 0 && length s.running == 0
      then some s
      else elim (after_round t (polled s)) [
        | leaves s' ↦ some s'
        | goes_on s' ↦ main_loop fuel (suc t) s'
      ]

  -- The loop of the `finally` block, whose results do not count as failures; a wait that raises is noted
  -- and the loop goes on.
  abbrev pub drained : Schedule → Schedule
  drained s = record s {
    running = older (still s.running);
    results = s.results ++ collected s.running;
  }

  unfoldable pub drain : ℕ → Schedule → Option Schedule
  unfolding still collected older
  drain zero s = none
  drain (suc fuel) s = elim (length s.running == 0) [
    | true ↦ some s
    | false ↦ drain fuel (drained s)
  ]

-- `sorted(results, key=lambda item: item["repeat"])`
unfoldable pub insert_result : ℕ × Bool → List (ℕ × Bool) → List (ℕ × Bool)
insert_result r [] = r ∷ []
insert_result r (s ∷ rs) = if leb r.0 s.0 then r ∷ s ∷ rs else s ∷ insert_result r rs

unfoldable pub sort_results : List (ℕ × Bool) → List (ℕ × Bool)
unfolding insert_result
sort_results [] = []
sort_results (r ∷ rs) = insert_result r (sort_results rs)

pub record Report : Type 0 where
  pub results : List (ℕ × Bool)
  pub not_started : List ℕ
  pub stopped_after_failure : Bool

abbrev pub report : Schedule → Report
report s = record {
  results = sort_results s.results;
  not_started = s.pending;
  stopped_after_failure = s.failed;
}

abbrev pub fresh : List ℕ → Schedule
fresh tasks = record { pending = tasks; running = []; results = []; failed = false }

abbrev pub then_drain : Workers → ℕ → Option Schedule → Option Report
then_drain w fuel none = none
then_drain w fuel (some s) = Option.map report (drain w fuel s)

unfoldable pub schedule : Workers → ℕ → List ℕ → Option Report
unfolding main_loop drain sort_results
schedule w fuel tasks = then_drain w fuel (main_loop w fuel 0 (fresh tasks))
