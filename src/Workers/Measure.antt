-- ===== src/Workers/Measure.antt =====
-- A weight of the workers that run and the tasks that are pending, which the rounds lower.
use llm_vs_zombies.Base.{
  ℕ, suc, ◌+◌, ◌-◌, ◌*◌, ◌≤◌, ◌<◌, ◌≡◌, ◌⊎◌, inl, inr, refl, Bool, true, false, ◌||◌, List, [], ◌∷◌,
  ◌++◌, leb, length, is_some, Bool-cases, Option-cases, arith, Dict, insert,
}
use llm_vs_zombies.Workers.{Workers, Schedule, still, collected, poll_all, refill, older, polled}

-- Whatever its verdict, a worker is collected at every poll from number `bound` on: its deadline is over.
pub record HasDeadline (w : Workers) (bound : ℕ) : Type 0 where
  pub due : (r age : ℕ) → bound ≤ age → is_some (w.poll r age) ≡ true

module _ (bound : ℕ) where
  unfoldable pub weight : Dict ℕ → ℕ
  weight [] = 0
  weight ((r, age) ∷ d) = suc (bound - age) + weight d

  abbrev pub measure : Schedule → ℕ
  measure s = weight s.running + (bound + 2) * length s.pending

  weight-insert : (r : ℕ) (d : Dict ℕ) → weight (insert r 0 d) ≤ weight d + (bound + 1)
  unfolding weight
  weight-insert r [] = omega arith
  weight-insert r ((j, age) ∷ d) = ground (arith, weight-insert r d)

  pub weight-older-insert :
      (r : ℕ) (d : Dict ℕ) → weight (older (insert r 0 d)) ≤ weight (older d) + (bound + 1)
  unfolding weight older
  weight-older-insert r [] = omega arith
  weight-older-insert r ((j, age) ∷ d) = ground (arith, weight-older-insert r d)

  pub weight-older : (d : Dict ℕ) → weight (older d) ≤ weight d
  unfolding weight older
  weight-older [] = omega arith
  weight-older ((r, age) ∷ d) = omega (arith, weight-older d)

  module _ (w : Workers) (h : HasDeadline w bound) where
    -- A poll and a wait take one from every running worker.
    pub weight-older-still : (d : Dict ℕ) → weight (older (still w d)) + length d ≤ weight d
    unfolding weight older still
    weight-older-still [] = omega arith
    weight-older-still ((r, age) ∷ d) = elim (Option-cases (w.poll r age)) [
      | inr (p, e) ↦ rw (e, weight) (omega (arith, weight-older-still d))
      | inl e ↦
          rw (e, weight)
            (elim (Bool-cases (leb bound age)) [
              | inl l ↦
                  cc (let clash : false ≡ true = rw e at (h.due r age (ground arith)) in clash)
              | inr l ↦ ground (arith, weight-older-still d)
            ])
    ]

    weight-still : (d : Dict ℕ) → weight (still w d) ≤ weight d
    unfolding weight still
    weight-still [] = omega arith
    weight-still ((r, age) ∷ d) = elim (Option-cases (w.poll r age)) [
      | inr (p, e) ↦ rw (e, weight) (omega (arith, weight-still d))
      | inl e ↦ rw (e, weight) (omega (arith, weight-still d))
    ]

  -- Nothing runs and nothing has failed.
  abbrev resting : List ℕ → List (ℕ × Bool) → Schedule
  resting pending results = record {
    pending = pending;
    running = [];
    results = results;
    failed = false;
  }

  -- A start moves less to the running workers than the pending task weighs.
  module _ (w : Workers) (W : Dict ℕ → ℕ)
      (grows : (r : ℕ) (d : Dict ℕ) → W (insert r 0 d) ≤ W d + (bound + 1)) where
    refill-measure :
        (tasks : List ℕ) (s : Schedule)
        → W (refill w tasks s).running + (bound + 2) * length (refill w tasks s).pending
          ≤ W s.running + (bound + 2) * length tasks
    unfolding refill
    refill-measure [] s = omega arith
    refill-measure (r ∷ rest) s =
        let step = refill-measure rest (record s { running = insert r 0 s.running }) in
        elim (Bool-cases (s.failed || leb 2 (length s.running))) [
          | inl stop ↦ rw stop (omega arith)
          | inr on ↦ elim (Bool-cases (w.starts r)) [
            | inl started ↦ rw (on, started) (grind (arith, step, grows r s.running))
            | inr refused ↦ rw (on, refused) (grind arith)
          ]
        ]

    -- With nothing running and no failure, a pending task is started or fails to start.
    refill-starts :
        (r : ℕ) (rest pending : List ℕ) (results : List (ℕ × Bool))
        → W [] ≡ 0
        → W (refill w (r ∷ rest) (resting pending results)).running
            + (bound + 2) * length (refill w (r ∷ rest) (resting pending results)).pending
          < (bound + 2) * length (r ∷ rest)
    unfolding refill
    refill-starts r rest pending results z =
        let step = refill-measure rest (record {
          pending = pending;
          running = insert r 0 [];
          results = results;
          failed = false;
        }) in
        let new = grows r [] in
        elim (Bool-cases (w.starts r)) [
          | inl started ↦ rw started (grind (arith, step, new, z))
          | inr refused ↦ rw refused (grind (arith, z))
        ]

  module _ (w : Workers) (h : HasDeadline w bound) where
    pub weight_nil : weight [] ≡ 0
    unfolding weight
    weight_nil = refl

    pub weight-older_nil : weight (older []) ≡ 0
    unfolding weight older
    weight-older_nil = refl

    -- The state after the poll and the starts of a round weighs no more.
    pub polled-measure : (s : Schedule) → measure (polled w s) ≤ measure s
    unfolding poll_all
    polled-measure s = omega (
      arith,
      refill-measure w weight weight-insert s.pending (poll_all w s),
      weight-still w h s.running,
    )

    refilled-measure :
        (W : Dict ℕ → ℕ) (grows : (r : ℕ) (d : Dict ℕ) → W (insert r 0 d) ≤ W d + (bound + 1))
        (s : Schedule)
        → W (polled w s).running + (bound + 2) * length (polled w s).pending
          ≤ W (still w s.running) + (bound + 2) * length s.pending
    unfolding poll_all
    refilled-measure W grows s = refill-measure w W grows s.pending (poll_all w s)

    from_rest :
        (W : Dict ℕ → ℕ) (grows : (r : ℕ) (d : Dict ℕ) → W (insert r 0 d) ≤ W d + (bound + 1))
        (vanishes : W [] ≡ 0) (r : ℕ) (rest : List ℕ) (results : List (ℕ × Bool))
        → W (polled w (resting (r ∷ rest) results)).running
            + (bound + 2) * length (polled w (resting (r ∷ rest) results)).pending
          < weight [] + (bound + 2) * length (r ∷ rest)
    unfolding poll_all still collected weight
    from_rest W grows vanishes r rest results =
        omega (arith, refill-starts w W grows r rest (r ∷ rest) (results ++ []) vanishes)

    abbrev pub made : List ℕ → Dict ℕ → List (ℕ × Bool) → Bool → Schedule
    made pending d results failed = record {
      pending = pending;
      running = d;
      results = results;
      failed = failed;
    }

    -- A weight that vanishes with nothing running and falls by every poll is lowered by a round, unless
    -- there is nothing to do, or nothing runs after a failure.
    pub round-measure :
        (W : Dict ℕ → ℕ) (grows : (r : ℕ) (d : Dict ℕ) → W (insert r 0 d) ≤ W d + (bound + 1))
        (vanishes : W [] ≡ 0) (falls : (d : Dict ℕ) → W (still w d) + length d ≤ weight d)
        (pending : List ℕ) (d : Dict ℕ) (results : List (ℕ × Bool)) (failed : Bool)
        → 1 ≤ length pending + length d
        → (failed ≡ false) ⊎ (1 ≤ length d)
        → W (polled w (made pending d results failed)).running
            + (bound + 2) * length (polled w (made pending d results failed)).pending
          < weight d + (bound + 2) * length pending
    round-measure W grows vanishes falls pending (x ∷ d) results failed busy can =
        let a = refilled-measure W grows (made pending (x ∷ d) results failed) in
        let b = falls (x ∷ d) in omega (arith, a, b)
    round-measure W grows vanishes falls [] [] results failed busy can = absurd (omega arith)
    round-measure W grows vanishes falls (r ∷ rest) [] results failed busy (inr run) =
        absurd (omega arith)
    round-measure W grows vanishes falls (r ∷ rest) [] results false busy (inl f) =
        from_rest W grows vanishes r rest results
    round-measure W grows vanishes falls (r ∷ rest) [] results true busy (inl f) = cc
