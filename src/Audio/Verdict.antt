-- ===== src/Audio/Verdict.antt =====
-- The verdict of `compare_traces` of virtual_audio.py.
use llm_vs_zombies.Base.{
  ℕ, ◌+◌, ◌==◌, ◌≡◌, ◌↔◌, refl, subst, ap, ◌∙◌, Bool, true, none, List, [], ◌∷◌, length, arith,
  Bool-cases, ==→eq, ==-refl, Option-cases, inl, inr,
}
use llm_vs_zombies.Audio.Foley.{Outcome}
use llm_vs_zombies.Audio.Stream.{Frame, Query, FoleyTrace}
use llm_vs_zombies.Base.Deciding.{Decides}
use llm_vs_zombies.Audio.Compare.{
  DifferenceKey, in_frame, frame_count, outcome, event_count, query_result, query_count,
  first_unequal, list_difference, difference, compare_traces,
}

module _ {ℓ} {A : Type ℓ} (eq : A → A → Bool) (d : Decides eq) where
  first_unequal-none :
      (i : ℕ) (xs ys : List A) → length xs ≡ length ys → first_unequal eq i xs ys ≡ none → xs ≡ ys
  unfolding first_unequal
  first_unequal-none i [] [] l = λ e. refl
  first_unequal-none i [] (y ∷ ys) l = absurd (omega (arith, l))
  first_unequal-none i (x ∷ xs) [] l = absurd (omega (arith, l))
  first_unequal-none i (x ∷ xs) (y ∷ ys) l = elim (Bool-cases (eq x y)) [
    | inl h ↦ rw h λ e.
        let rest = first_unequal-none (i + 1) xs ys (omega (arith, l)) e in
        ap (λ z. z ∷ xs) (d.sound x y h) ∙ ap (λ zs. y ∷ zs) rest
    | inr h ↦ rw h λ e. cc
  ]

  first_unequal_self : (i : ℕ) (xs : List A) → first_unequal eq i xs xs ≡ none
  unfolding first_unequal
  first_unequal_self i [] = refl
  first_unequal_self i (x ∷ xs) = rw (d.reflexive x) (first_unequal_self (i + 1) xs)

  list_difference-none :
      (at count : DifferenceKey) (xs ys : List A)
      → list_difference eq at count xs ys ≡ none
      → xs ≡ ys
  unfolding list_difference
  list_difference-none at count xs ys = elim (Option-cases (first_unequal eq 0 xs ys)) [
    | inl h ↦ elim (Bool-cases (length xs == length ys)) [
      | inl l ↦ rw (list_difference, h, l) λ e. first_unequal-none 0 xs ys (==→eq _ _ l) h
      | inr l ↦ rw (list_difference, h, l) λ e. cc
    ]
    | inr (i, h) ↦ rw (list_difference, h) λ e. cc
  ]

  list_difference_self :
      (at count : DifferenceKey) (xs : List A) → list_difference eq at count xs xs ≡ none
  unfolding list_difference
  list_difference_self at count xs =
      rw (list_difference, first_unequal_self 0 xs, ==-refl (length xs)) refl

  list_difference-same :
      (at count : DifferenceKey) (xs ys : List A)
      → xs ≡ ys
      → list_difference eq at count xs ys ≡ none
  list_difference-same at count xs ys e =
      subst (λ zs. list_difference eq at count xs zs ≡ none) e (list_difference_self at count xs)

-- What `compare_traces` reads of two traces is equal.
abbrev pub SameRun : {F : Type 0} → FoleyTrace F → FoleyTrace F → Type 0
SameRun left right =
    (left.frames ≡ right.frames) × (left.events ≡ right.events) × (left.queries ≡ right.queries)

module _ {F : Type 0} (eq_frame : Frame → Frame → Bool) (eq_outcome : Outcome → Outcome → Bool)
    (eq_query : Query → Query → Bool) (frames : Decides eq_frame) (outcomes : Decides eq_outcome)
    (queries : Decides eq_query) where
  difference-none :
      (left right : FoleyTrace F)
      → difference eq_frame eq_outcome eq_query left right ≡ none
      → SameRun left right
  unfolding difference
  difference-none left right =
      elim (Option-cases (list_difference eq_frame in_frame frame_count left.frames right.frames)) [
        | inr (x, h) ↦ rw (difference, h) λ e. cc
        | inl h ↦
            elim (Option-cases
              (list_difference eq_outcome outcome event_count left.events right.events)) [
                | inr (x, k) ↦ rw (difference, h, k) λ e. cc
                | inl k ↦
                    rw (difference, h, k)
                      λ e. (
                        list_difference-none eq_frame frames in_frame frame_count _ _ h,
                        list_difference-none eq_outcome outcomes outcome event_count _ _ k,
                        list_difference-none eq_query queries query_result query_count _ _ e,
                      )
              ]
      ]

  difference-same :
      (left right : FoleyTrace F)
      → SameRun left right
      → difference eq_frame eq_outcome eq_query left right ≡ none
  unfolding difference
  difference-same left right (f, o, q) =
      rw
        (
          difference,
          list_difference-same eq_frame frames in_frame frame_count _ _ f,
          list_difference-same eq_outcome outcomes outcome event_count _ _ o,
        )
        (list_difference-same eq_query queries query_result query_count _ _ q)

  -- Where the tests of frames, events and queries decide equality, `compare_traces` answers `equal`
  -- exactly for traces with the same frames, events and queries, whatever their intents and counters.
  pub compare_traces_iff :
      (left right : FoleyTrace F)
      → ((compare_traces eq_frame eq_outcome eq_query left right).equal ≡ true) ↔ SameRun left right
  unfolding compare_traces
  compare_traces_iff left right =
      (agree, λ e. rw (compare_traces, difference-same left right e) refl)
    where
      agree :
          (compare_traces eq_frame eq_outcome eq_query left right).equal ≡ true → SameRun left right
      agree e = elim (Option-cases (difference eq_frame eq_outcome eq_query left right)) [
        | inl h ↦ difference-none left right h
        | inr (x, h) ↦ absurd (ground (arith, e, h))
      ]
