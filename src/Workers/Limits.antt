-- ===== src/Workers/Limits.antt =====
-- The states of a schedule, their workers, and the rounds after a failure.
use llm_vs_zombies.Base.{
  All, ◌++◌, ◌⊎◌, ℕ, zero, suc, ◌+◌, ◌≤◌, ◌<◌, ◌≡◌, refl, sym, ap, subst, ◌∙◌, true, false, ◌&&◌,
  ◌||◌, List, [], ◌∷◌, some, some-injective, ◌==◌, leb, length, Bool-cases, Option-cases, inl, inr,
  arith, Dict, insert,
}
use llm_vs_zombies.Workers.{
  Workers, Schedule, still, older, wait, poll_all, refill, polled, Round, after_round, goes_on,
  leaves, main_loop, drained, fresh,
}

length-insert : (r age : ℕ) (d : Dict ℕ) → length (insert r age d) ≤ length d + 1
length-insert r age [] = omega arith
length-insert r age ((j, a) ∷ d) = ground (arith, length-insert r age d)

length-older : (d : Dict ℕ) → length (older d) ≡ length d
unfolding older
length-older [] = refl
length-older ((r, age) ∷ d) = ap suc (length-older d)

module _ (w : Workers) where
  length-still : (d : Dict ℕ) → length (still w d) ≤ length d
  unfolding still
  length-still [] = omega arith
  length-still ((r, age) ∷ d) = elim (Option-cases (w.poll r age)) [
    | inl e ↦ rw (e, still) (omega (arith, length-still d))
    | inr (p, e) ↦ rw (e, still) (omega (arith, length-still d))
  ]

  refill-limit :
      (tasks : List ℕ) (s : Schedule) → length s.running ≤ 2 → length (refill w tasks s).running ≤ 2
  unfolding refill
  refill-limit [] s h = h
  refill-limit (r ∷ rest) s h = elim (Bool-cases (s.failed || leb 2 (length s.running))) [
    | inl stop ↦ rw stop h
    | inr on ↦
        let below : length s.running < 2 = ground arith in
        elim (Bool-cases (w.starts r)) [
          | inl started ↦
              rw (on, started)
                (refill-limit rest (record s { running = insert r 0 s.running })
                  (omega (arith, length-insert r 0 s.running)))
          | inr refused ↦ rw (on, refused) h
        ]
  ]

  polled-limit : (s : Schedule) → length s.running ≤ 2 → length (polled w s).running ≤ 2
  unfolding poll_all
  polled-limit s h = refill-limit s.pending (poll_all w s) (omega (arith, length-still s.running))

  -- The states of a schedule: its rounds with their poll and starts, their waits, and the last polls.
  pub data Reached (tasks : List ℕ) : Schedule → Type 0 where
    begins : Reached tasks (fresh tasks)
    polls : {s : Schedule} → Reached tasks s → Reached tasks (polled w s)
    waits : {s : Schedule} → Reached tasks s → Reached tasks (wait s)
    interrupted : {s : Schedule} → Reached tasks s → Reached tasks (record s { failed = true })
    drains : {s : Schedule} → Reached tasks s → Reached tasks (drained w s)

  -- In every state of a schedule, whatever the workers do, at most two workers run.
  pub Reached-limit : (tasks : List ℕ) (s : Schedule) → Reached tasks s → length s.running ≤ 2
  unfolding wait
  Reached-limit tasks _ begins = omega arith
  Reached-limit tasks _ (polls {s} r) = polled-limit s (Reached-limit tasks s r)
  Reached-limit tasks _ (waits {s} r) =
      omega (arith, length-older s.running, Reached-limit tasks s r)
  Reached-limit tasks _ (interrupted {s} r) = Reached-limit tasks s r
  Reached-limit tasks _ (drains {s} r) =
      omega
        (arith, length-older (still w s.running), length-still s.running, Reached-limit tasks s r)

  -- The tasks are those that were started, one that was not, and those that stay pending.
  pub record Refused (tasks pending : List ℕ) : Type 0 where
    pub started : List ℕ
    pub refused : ℕ
    pub split : tasks ≡ started ++ refused ∷ pending
    pub all_started : All (λ r. w.starts r ≡ true) started
    pub not_started : w.starts refused ≡ false

  refill-pending :
      (tasks : List ℕ) (s : Schedule)
      → s.failed ≡ true
      → ((refill w tasks s).pending ≡ tasks) × ((refill w tasks s).failed ≡ true)
  unfolding refill
  refill-pending [] s f = (refl, f)
  refill-pending (r ∷ rest) s f = rw f (refl, refl)

  polled-pending :
      (s : Schedule)
      → s.failed ≡ true
      → ((polled w s).pending ≡ s.pending) × ((polled w s).failed ≡ true)
  unfolding poll_all
  polled-pending s f =
      let failed : (poll_all w s).failed ≡ true = rw f refl in
      refill-pending s.pending (poll_all w s) failed

  abbrev Stopped : List ℕ → Round → Type 0
  Stopped tasks (leaves s) = s.pending ≡ tasks
  Stopped tasks (goes_on s) = (s.pending ≡ tasks) × (s.failed ≡ true)

  after_round-Stopped :
      (t : ℕ) (s : Schedule) → s.failed ≡ true → Stopped s.pending (after_round w t s)
  unfolding wait
  after_round-Stopped t s f = elim (Bool-cases (length s.running == 0)) [
    | inl e ↦ rw (e, f) refl
    | inr e ↦ elim (Bool-cases (w.interrupts t)) [
      | inl i ↦ rw (e, i) refl
      | inr i ↦ rw (e, i) (refl, f)
    ]
  ]

  continue-Stopped :
      (fuel t : ℕ) (s' : Schedule) (tasks : List ℕ) (o : Round)
      → ((s : Schedule) → s.failed ≡ true → main_loop w fuel t s ≡ some s' → s'.pending ≡ s.pending)
      → (elim o [ leaves s1 ↦ some s1 | goes_on s1 ↦ main_loop w fuel t s1 ]) ≡ some s'
      → Stopped tasks o
      → s'.pending ≡ tasks
  continue-Stopped fuel t s' tasks (leaves s) ih h e =
      ap (λ r. r.pending) (some-injective _ _ (sym h)) ∙ e
  continue-Stopped fuel t s' tasks (goes_on s) ih h (e, f) = ih s f h ∙ e

  -- The loop from a state that has failed before.
  main_loop-failed :
      (fuel t : ℕ) (s s' : Schedule)
      → s.failed ≡ true
      → main_loop w fuel t s ≡ some s'
      → s'.pending ≡ s.pending
  unfolding main_loop
  main_loop-failed zero t s s' f h = cc
  main_loop-failed (suc fuel) t s s' f h =
      elim (Bool-cases (length s.pending == 0 && length s.running == 0)) [
        | inl idle ↦ ap (λ r. r.pending) (some-injective _ _ (sym (rw (idle, main_loop) at h)))
        | inr busy ↦
            let (kept, failed) = polled-pending s f in
            continue-Stopped fuel (suc t) s' s.pending (after_round w t (polled w s))
              (λ s1. main_loop-failed fuel (suc t) s1 s') (rw (busy, main_loop) at h)
              (subst (λ ts. Stopped ts (after_round w t (polled w s))) kept
                (after_round-Stopped t (polled w s) failed))
      ]

  -- A poll that saw a failure is followed by no start.
  polled-failed : (s : Schedule) → (poll_all w s).failed ≡ true → polled w s ≡ poll_all w s
  unfolding refill poll_all
  polled-failed s f = start_none s.pending refl
    where
      start_none :
          (tasks : List ℕ) → tasks ≡ s.pending → refill w tasks (poll_all w s) ≡ poll_all w s
      start_none [] e = rw e refl
      start_none (r ∷ rest) e = rw (f, e) refl

  -- Starts that end in a failure end at the first task that was not started.
  refill-Refused :
      (tasks : List ℕ) (s : Schedule)
      → s.failed ≡ false
      → (refill w tasks s).failed ≡ true
      → Refused tasks (refill w tasks s).pending
  unfolding refill
  refill-Refused [] s f h = cc
  refill-Refused (r ∷ rest) s f h = elim (Bool-cases (s.failed || leb 2 (length s.running))) [
    | inl full ↦ cc (let late : s.failed ≡ true = rw full at h in late)
    | inr room ↦ elim (Bool-cases (w.starts r)) [
      | inr stays ↦
          rw (room, stays)
            (record {
              started = [];
              refused = r;
              split = refl;
              all_started = tt;
              not_started = stays;
            })
      | inl went ↦
          let on =
            refill-Refused rest (record s { running = insert r 0 s.running }) f
              (rw (room, went) at h) in
          rw (room, went)
            (record {
              started = r ∷ on.started;
              refused = on.refused;
              split = ap (λ ts. r ∷ ts) on.split;
              all_started = (went, on.all_started);
              not_started = on.not_started;
            })
    ]
  ]

  -- If a failure is seen by the end of the poll and the starts of a round, then the main loop, if it
  -- ends, ends with the tasks that are pending at that moment, so that none of them is ever started.
  -- If the poll saw the failure, the round starts nothing after it; otherwise every task before the
  -- first one whose start failed was started, and all tasks after it stay pending.
  pub main_loop-stopped :
      (fuel t : ℕ) (s s' : Schedule)
      → (polled w s).failed ≡ true
      → main_loop w fuel t s ≡ some s'
      → (s'.pending ≡ (polled w s).pending)
        × ((((poll_all w s).failed ≡ true) × (polled w s ≡ poll_all w s))
            ⊎ (((poll_all w s).failed ≡ false) × Refused s.pending (polled w s).pending))
  unfolding main_loop refill
  main_loop-stopped zero t s s' f h = cc
  main_loop-stopped (suc fuel) t s s' f h = (
    elim (Bool-cases (length s.pending == 0 && length s.running == 0)) [
      | inl idle ↦
          ap (λ r. r.pending) (some-injective _ _ (sym (rw (idle, main_loop) at h)))
          ∙ sym (none_pending s.pending refl idle)
      | inr busy ↦
          continue-Stopped fuel (suc t) s' (polled w s).pending (after_round w t (polled w s))
            (λ s1. main_loop-failed fuel (suc t) s1 s') (rw (busy, main_loop) at h)
            (after_round-Stopped t (polled w s) f)
    ],
    elim (Bool-cases (poll_all w s).failed) [
      | inl seen ↦ inl (seen, polled-failed s seen)
      | inr unseen ↦ inr (unseen, refill-Refused s.pending (poll_all w s) unseen f)
    ],
  )
    where
      none_pending :
          (tasks : List ℕ)
          → tasks ≡ s.pending
          → (length tasks == 0 && length s.running == 0) ≡ true
          → (refill w tasks (poll_all w s)).pending ≡ tasks
      none_pending [] e h = refl
      none_pending (r ∷ rest) e h = absurd (ground (arith, h))
