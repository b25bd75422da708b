-- ===== src/Workers/Ending.antt =====
-- The rounds of both loops, and the fuel that they need.
use llm_vs_zombies.Base.{
  ℕ, zero, suc, ◌+◌, ◌*◌, ◌≤◌, ◌<◌, ◌≡◌, ◌⊎◌, ap, inl, inr, refl, ◌∙◌, true, false, ◌&&◌, List, [],
  ◌∷◌, Option, some, ◌==◌, length, Bool-cases, List-cases, arith, Dict,
}
use llm_vs_zombies.Workers.{
  Workers, Schedule, older, wait, polled, poll_all, refill, after_round, goes_on, leaves, main_loop,
  drain, drained, fresh, still,
}
use llm_vs_zombies.Workers.Measure.{
  HasDeadline, weight, measure, weight-older-insert, weight-older_nil, weight_nil,
  weight-older-still, polled-measure, round-measure,
}

module _ (bound : ℕ) (w : Workers) (h : HasDeadline w bound) where
  -- A result that weighs at most `m`.
  abbrev Finishes : Option Schedule → ℕ → Type 0
  Finishes o m = (s : Schedule) × (o ≡ some s) × (measure bound s ≤ m)

  -- The failure flag is never taken back, and a failure stops the starts.
  refill-failed :
      (tasks : List ℕ) (s : Schedule) → s.failed ≡ true → (refill w tasks s).failed ≡ true
  unfolding refill
  refill-failed [] s f = f
  refill-failed (r ∷ rest) s f = rw f refl

  polled-failed : (s : Schedule) → (polled w s).failed ≡ false → s.failed ≡ false
  unfolding poll_all
  polled-failed s f = elim (Bool-cases s.failed) [
    | inr e ↦ e
    | inl e ↦
        let sticky : (poll_all w s).failed ≡ true = rw e refl in
        let after = refill-failed s.pending (poll_all w s) sticky in cc
  ]

  wait-weight :
      (s : Schedule)
      → measure bound (wait s) ≡ weight bound (older s.running) + (bound + 2) * length s.pending
  unfolding wait
  wait-weight s = refl

  none_running : (s : Schedule) → s.running ≡ [] → (length s.running == 0) ≡ true
  none_running s e = ground (arith, ap length e)

  some_running :
      (s : Schedule) (x : ℕ × ℕ) (d : Dict ℕ) → s.running ≡ x ∷ d → (length s.running == 0) ≡ false
  some_running s x d e = ground (arith, ap length e)

  drain-total :
      (fuel : ℕ) (s : Schedule)
      → weight bound s.running < fuel
      → (s' : Schedule) × (drain w fuel s ≡ some s') × (s'.running ≡ [])
  unfolding drain
  drain-total zero s lt = absurd (omega arith)
  drain-total (suc fuel) s lt = elim (List-cases s.running) [
    | inl none_left ↦ (s, rw (none_running s none_left, drain) refl, none_left)
    | inr (x, d, e) ↦
        let falls = weight-older-still bound w h s.running in
        let (s', run, done) = drain-total fuel (drained w s) (omega (arith, falls, ap length e)) in
        (s', rw (some_running s x d e, drain) run, done)
  ]

  -- A failure with nothing running leaves nothing to start.
  refill-running :
      (tasks : List ℕ) (s : Schedule) → s.failed ≡ true → (refill w tasks s).running ≡ s.running
  unfolding refill
  refill-running [] s f = refl
  refill-running (r ∷ rest) s f = rw f refl

  polled-idle : (s : Schedule) → s.running ≡ [] → s.failed ≡ true → (polled w s).running ≡ []
  unfolding poll_all still
  polled-idle s e f =
      let failed : (poll_all w s).failed ≡ true = rw f refl in
      refill-running s.pending (poll_all w s) failed ∙ ap (still w) e

  can_start :
      (s : Schedule) (x : ℕ × ℕ) (d : Dict ℕ)
      → (polled w s).running ≡ x ∷ d
      → (s.failed ≡ false) ⊎ (1 ≤ length s.running)
  can_start s x d e = elim (Bool-cases s.failed) [
    | inr f ↦ inl f
    | inl f ↦ elim (List-cases s.running) [
      | inl idle ↦ let gone = polled-idle s idle f in cc
      | inr (y, d', e') ↦ inr (omega (arith, ap length e'))
    ]
  ]

  lowered :
      (s : Schedule)
      → 1 ≤ length s.pending + length s.running
      → (s.failed ≡ false) ⊎ (1 ≤ length s.running)
      → weight bound (older (polled w s).running) + (bound + 2) * length (polled w s).pending
        < measure bound s
  lowered s busy can =
      round-measure bound w h (λ d. weight bound (older d)) (weight-older-insert bound)
        (weight-older_nil bound w h) (weight-older-still bound w h) s.pending s.running s.results
        s.failed busy can

  -- One round from a state with something to do: what is left of the loop is lighter.
  round_lem :
      (t : ℕ) (s : Schedule)
      → 1 ≤ length s.pending + length s.running
      → ((s' : Schedule) × (after_round w t (polled w s) ≡ leaves s')
          × (measure bound s' ≤ measure bound s))
        ⊎ ((s' : Schedule) × (after_round w t (polled w s) ≡ goes_on s')
            × (measure bound s' < measure bound s))
  round_lem t s busy =
      let q = polled w s in
      let never = polled-measure bound w h s in
      elim (List-cases q.running) [
        | inl idle ↦ elim (Bool-cases q.failed) [
          | inl f ↦ inl (q, rw (none_running q idle, f) refl, never)
          | inr f ↦ inr (
            q,
            rw (none_running q idle, f) refl,
            omega (
              arith,
              lowered s busy (inl (polled-failed s f)),
              ap (λ d. weight bound (older d)) idle,
              ap (weight bound) idle,
              weight_nil bound w h,
              weight-older_nil bound w h,
            ),
          )
        ]
        | inr (x, d, e) ↦ elim (Bool-cases (w.interrupts t)) [
          | inl i ↦ inl (record q { failed = true }, rw (some_running q x d e, i) refl, never)
          | inr i ↦ inr (
            wait q,
            rw (some_running q x d e, i) refl,
            omega (arith, wait-weight q, lowered s busy (can_start s x d e)),
          )
        ]
      ]

  pub main_loop-total :
      (fuel t : ℕ) (s : Schedule)
      → measure bound s < fuel
      → Finishes (main_loop w fuel t s) (measure bound s)
  unfolding main_loop
  main_loop-total zero t s lt = absurd (omega arith)
  main_loop-total (suc fuel) t s lt =
      elim (Bool-cases (length s.pending == 0 && length s.running == 0)) [
        | inl idle ↦ (s, rw (idle, main_loop) refl, omega arith)
        | inr busy ↦ elim (round_lem t s (ground arith)) [
          | inl (s', left, m) ↦ (s', rw (busy, main_loop, left) refl, m)
          | inr (s', on, m) ↦
              let (s'', run, m') = main_loop-total fuel (suc t) s' (omega arith) in
              (s'', rw (busy, main_loop, on) run, omega arith)
        ]
      ]

  weight-fresh : (tasks : List ℕ) → measure bound (fresh tasks) ≡ (bound + 2) * length tasks
  unfolding weight
  weight-fresh tasks = omega arith

  pub schedule-total :
      (fuel : ℕ) (tasks : List ℕ)
      → (bound + 2) * length tasks < fuel
      → (s s' : Schedule) × (main_loop w fuel 0 (fresh tasks) ≡ some s)
        × (drain w fuel s ≡ some s')
        × (s'.running ≡ [])
  schedule-total fuel tasks lt =
      let (s, run, m) = main_loop-total fuel 0 (fresh tasks) (omega (arith, weight-fresh tasks)) in
      let (s', drained_to, empty) = drain-total fuel s (omega (arith, weight-fresh tasks)) in
      (s, s', run, drained_to, empty)
