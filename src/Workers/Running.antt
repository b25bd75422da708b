-- ===== src/Workers/Running.antt =====
-- The main loop of a schedule as a run of its steps.
use llm_vs_zombies.Base.{
  ℕ, zero, suc, ◌≡◌, subst, Bool, true, false, ◌&&◌, List, some, some-injective, if◌then◌else◌,
  ◌==◌, length, Bool-cases, inl, inr,
}
use llm_vs_zombies.Workers.{
  Workers, Schedule, polled, Round, after_round, goes_on, leaves, main_loop,
}
use llm_vs_zombies.Workers.Limits.{Reached, polls, waits, interrupted}

module _ (w : Workers) where
  abbrev ReachedRound : List ℕ → Round → Type 0
  ReachedRound tasks (leaves s) = Reached w tasks s
  ReachedRound tasks (goes_on s) = Reached w tasks s

  idle_round :
      (tasks : List ℕ) (s : Schedule) (b : Bool)
      → Reached w tasks s
      → ReachedRound tasks (if b then leaves s else goes_on s)
  idle_round tasks s true r = r
  idle_round tasks s false r = r

  after_round-Reached :
      (tasks : List ℕ) (t : ℕ) (s : Schedule)
      → Reached w tasks s
      → ReachedRound tasks (after_round w t s)
  after_round-Reached tasks t s r = elim (Bool-cases (length s.running == 0)) [
    | inl e ↦ rw e (idle_round tasks s s.failed r)
    | inr e ↦ elim (Bool-cases (w.interrupts t)) [
      | inl i ↦ rw (e, i) (interrupted r)
      | inr i ↦ rw (e, i) (waits r)
    ]
  ]

  continue-Reached :
      (tasks : List ℕ) (fuel t : ℕ) (s' : Schedule) (o : Round)
      → ((s : Schedule) → Reached w tasks s → main_loop w fuel t s ≡ some s' → Reached w tasks s')
      → (elim o [ leaves s1 ↦ some s1 | goes_on s1 ↦ main_loop w fuel t s1 ]) ≡ some s'
      → ReachedRound tasks o
      → Reached w tasks s'
  continue-Reached tasks fuel t s' (leaves s) ih h r =
      subst (Reached w tasks) (some-injective _ _ h) r
  continue-Reached tasks fuel t s' (goes_on s) ih h r = ih s r h

  -- Started in a state of a schedule, the main loop ends, if it does, in a state that the polls with
  -- their starts, the waits and an interrupt lead to.
  pub main_loop-Reached :
      (tasks : List ℕ) (fuel t : ℕ) (s s' : Schedule)
      → Reached w tasks s
      → main_loop w fuel t s ≡ some s'
      → Reached w tasks s'
  unfolding main_loop
  main_loop-Reached tasks zero t s s' r h = cc
  main_loop-Reached tasks (suc fuel) t s s' r h =
      elim (Bool-cases (length s.pending == 0 && length s.running == 0)) [
        | inl idle ↦ subst (Reached w tasks) (some-injective _ _ (rw (idle, main_loop) at h)) r
        | inr busy ↦
            continue-Reached tasks fuel (suc t) s' (after_round w t (polled w s))
              (λ s1 r1. main_loop-Reached tasks fuel (suc t) s1 s' r1) (rw (busy, main_loop) at h)
              (after_round-Reached tasks t (polled w s) (polls r))
      ]
