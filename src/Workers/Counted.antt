-- ===== src/Workers/Counted.antt =====
-- Counts of the tasks, the results and the running workers through a schedule.
use llm_vs_zombies.Base.{
  ℕ, zero, suc, ◌+◌, ◌*◌, ◌≤◌, ◌<◌, ◌≡◌, refl, sym, ap, ◌∙◌, Bool, false, ◌&&◌, ◌||◌, List, [], ◌∷◌,
  ◌++◌, some, some-injective, if◌then◌else◌, ◌==◌, leb, length, Bool-cases, Option-cases, inl, inr,
  arith, Dict, insert,
}
use llm_vs_zombies.Workers.{
  Workers, Schedule, Report, still, collected, older, wait, poll_all, refill, polled, Round,
  after_round, goes_on, leaves, main_loop, drain, drained, schedule, fresh, report, insert_result,
  sort_results,
}
use llm_vs_zombies.Workers.Measure.{HasDeadline}
use llm_vs_zombies.Workers.Ending.{schedule-total}

module _ (r : ℕ) where
  -- How often the repeat is in a list, among results and among the running workers.
  abbrev pub count : List ℕ → ℕ
  count [] = 0
  count (x ∷ xs) = (if r == x then 1 else 0) + count xs

  abbrev pub count_results : List (ℕ × Bool) → ℕ
  count_results [] = 0
  count_results (x ∷ xs) = (if r == x.0 then 1 else 0) + count_results xs

  abbrev pub count_running : Dict ℕ → ℕ
  count_running [] = 0
  count_running ((j, age) ∷ d) = (if r == j then 1 else 0) + count_running d

  abbrev pub tally : Schedule → ℕ
  tally s = count_results s.results + count_running s.running + count s.pending

  count_results-append :
      (xs ys : List (ℕ × Bool)) → count_results (xs ++ ys) ≡ count_results xs + count_results ys
  count_results-append [] ys = omega arith
  count_results-append (x ∷ xs) ys = omega (arith, count_results-append xs ys)

  count_running-older : (d : Dict ℕ) → count_running (older d) ≡ count_running d
  unfolding older
  count_running-older [] = refl
  count_running-older ((j, age) ∷ d) = omega (arith, count_running-older d)

  count-collected :
      (w : Workers) (d : Dict ℕ)
      → count_results (collected w d) + count_running (still w d) ≡ count_running d
  unfolding collected still
  count-collected w [] = omega arith
  count-collected w ((j, age) ∷ d) = elim (Option-cases (w.poll j age)) [
    | inl e ↦ rw (e, collected, still) (omega (arith, count-collected w d))
    | inr (p, e) ↦ rw (e, collected, still) (omega (arith, count-collected w d))
  ]

  count_running-insert :
      (j age : ℕ) (d : Dict ℕ)
      → count_running d + (if r == j then 1 else 0) ≤ 1
      → count_running (insert j age d) ≡ count_running d + (if r == j then 1 else 0)
  count_running-insert j age [] h = omega arith
  count_running-insert j age ((i, a) ∷ d) h = ground (arith, count_running-insert j age d)

  count_results-insert_result :
      (x : ℕ × Bool) (xs : List (ℕ × Bool))
      → count_results (insert_result x xs) ≡ (if r == x.0 then 1 else 0) + count_results xs
  unfolding insert_result
  count_results-insert_result x [] = refl
  count_results-insert_result x (y ∷ ys) = elim (Bool-cases (leb x.0 y.0)) [
    | inl e ↦ rw e refl
    | inr e ↦ rw e (omega (arith, count_results-insert_result x ys))
  ]

  count_results-sort_results :
      (xs : List (ℕ × Bool)) → count_results (sort_results xs) ≡ count_results xs
  unfolding sort_results
  count_results-sort_results [] = refl
  count_results-sort_results (x ∷ xs) =
      omega (arith, count_results-insert_result x (sort_results xs), count_results-sort_results xs)

  poll_all-tally : (w : Workers) (s : Schedule) → tally (poll_all w s) ≡ tally s
  unfolding poll_all
  poll_all-tally w s =
      omega
        (arith, count_results-append s.results (collected w s.running), count-collected w s.running)

-- The tasks are distinct, and what a state holds of them is at most one of each.
abbrev pub AtMostOnce : Schedule → Type 0
AtMostOnce s = (x : ℕ) → tally x s ≤ 1

module _ (w : Workers) where
  refill-tally :
      (tasks : List ℕ) (s : Schedule)
      → AtMostOnce (record s { pending = tasks })
      → (r : ℕ) → tally r (refill w tasks s) ≡ tally r (record s { pending = tasks })
  unfolding refill
  refill-tally [] s once r = refl
  refill-tally (j ∷ rest) s once r =
      let moved = λ (x : ℕ). count_running-insert x j 0 s.running (omega (arith, once x)) in
      elim (Bool-cases (s.failed || leb 2 (length s.running))) [
        | inl stop ↦ rw stop refl
        | inr on ↦ elim (Bool-cases (w.starts j)) [
          | inl started ↦
              rw (on, started)
                (omega (
                  arith,
                  moved r,
                  refill-tally rest (record s { running = insert j 0 s.running })
                      (λ x. omega (arith, moved x, once x)) r,
                ))
          | inr refused ↦
              rw (on, refused) (omega (arith, count_results-append r s.results ((j, false) ∷ [])))
        ]
      ]

  polled-tally : (s : Schedule) → AtMostOnce s → (r : ℕ) → tally r (polled w s) ≡ tally r s
  unfolding poll_all
  polled-tally s once r =
      refill-tally s.pending (poll_all w s) (λ x. omega (arith, once x, poll_all-tally x w s)) r
      ∙ poll_all-tally r w s

  abbrev round_tally : ℕ → Round → ℕ
  round_tally r (leaves s) = tally r s
  round_tally r (goes_on s) = tally r s

  after_round-tally : (r t : ℕ) (s : Schedule) → round_tally r (after_round w t s) ≡ tally r s
  unfolding wait
  after_round-tally r t s = elim (Bool-cases (length s.running == 0)) [
    | inl e ↦ elim (Bool-cases s.failed) [ inl f ↦ rw (e, f) refl | inr f ↦ rw (e, f) refl ]
    | inr e ↦ elim (Bool-cases (w.interrupts t)) [
      | inl i ↦ rw (e, i) refl
      | inr i ↦ rw (e, i) (omega (arith, count_running-older r s.running))
    ]
  ]

  continue-tally :
      (fuel t : ℕ) (s s' : Schedule) (o : Round)
      → ((s1 : Schedule)
          → AtMostOnce s1
          → main_loop w fuel t s1 ≡ some s'
          → (r : ℕ) → tally r s' ≡ tally r s1)
      → (elim o [ leaves s1 ↦ some s1 | goes_on s1 ↦ main_loop w fuel t s1 ]) ≡ some s'
      → ((r : ℕ) → round_tally r o ≡ tally r s)
      → AtMostOnce s
      → (r : ℕ) → tally r s' ≡ tally r s
  continue-tally fuel t s s' (leaves s1) ih h same once r =
      ap (tally r) (some-injective _ _ (sym h)) ∙ same r
  continue-tally fuel t s s' (goes_on s1) ih h same once r =
      ih s1 (λ x. omega (arith, same x, once x)) h r ∙ same r

  main_loop-tally :
      (fuel t : ℕ) (s s' : Schedule)
      → AtMostOnce s
      → main_loop w fuel t s ≡ some s'
      → (r : ℕ) → tally r s' ≡ tally r s
  unfolding main_loop
  main_loop-tally zero t s s' once h = cc
  main_loop-tally (suc fuel) t s s' once h =
      elim (Bool-cases (length s.pending == 0 && length s.running == 0)) [
        | inl idle ↦ λ r. ap (tally r) (some-injective _ _ (sym (rw (idle, main_loop) at h)))
        | inr busy ↦
            continue-tally fuel (suc t) s s' (after_round w t (polled w s))
              (λ s1 once1. main_loop-tally fuel (suc t) s1 s' once1) (rw (busy, main_loop) at h)
              (λ r. after_round-tally r t (polled w s) ∙ polled-tally s once r) once
      ]

  drained-tally : (r : ℕ) (s : Schedule) → tally r (drained w s) ≡ tally r s
  drained-tally r s = omega (
    arith,
    count_results-append r s.results (collected w s.running),
    count-collected r w s.running,
    count_running-older r (still w s.running),
  )

  drain-tally :
      (fuel : ℕ) (s s' : Schedule) → drain w fuel s ≡ some s' → (r : ℕ) → tally r s' ≡ tally r s
  unfolding drain
  drain-tally zero s s' h r = cc
  drain-tally (suc fuel) s s' h r = elim (Bool-cases (length s.running == 0)) [
    | inl e ↦ ap (tally r) (some-injective _ _ (sym (rw (e, drain) at h)))
    | inr e ↦ drain-tally fuel (drained w s) s' (rw (e, drain) at h) r ∙ drained-tally r s
  ]

-- If the tasks are distinct, every worker is collected once its deadline is over, and the rounds are more
-- than `bound + 2` for each task, then `schedule` returns a report, in which every task has one result or
-- is listed as not started, never both, and nothing else has a result.
pub schedule-counted :
    (bound : ℕ) (w : Workers) (fuel : ℕ) (tasks : List ℕ)
    → HasDeadline w bound
    → ((r : ℕ) → count r tasks ≤ 1)
    → (bound + 2) * length tasks < fuel
    → (report : Report) × (schedule w fuel tasks ≡ some report)
      × ((r : ℕ) → count_results r report.results + count r report.not_started ≡ count r tasks)
unfolding schedule
schedule-counted bound w fuel tasks due once enough =
    let (s, s', run, ended, empty) = schedule-total bound w due fuel tasks enough in
    (
      report s',
      rw (run, ended) refl,
      λ r. omega (
        arith,
        count_results-sort_results r s'.results,
        drain-tally w fuel s s' ended r,
        main_loop-tally w fuel 0 (fresh tasks) s (λ x. omega (arith, once x)) run r,
        ap (count_running r) empty,
      ),
    )
