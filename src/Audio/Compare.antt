-- ===== src/Audio/Compare.antt =====
-- `compare_traces` of virtual_audio.py: the verdict and the place of the first difference. The
-- equality of the frames, events and queries, which are dictionaries, is a parameter.
use llm_vs_zombies.Base.{
  ℕ, ◌+◌, ◌==◌, Bool, true, false, Option, none, some, List, [], ◌∷◌, length, if◌then◌else◌,
}
use Prim.Native.Nat.{min}
use llm_vs_zombies.Audio.Foley.{Outcome}
use llm_vs_zombies.Audio.Stream.{Frame, Query, FoleyTrace}

-- what differs first; `in_frame` stands for the first key that differs in two frames
pub data DifferenceKey : Type 0 where
  in_frame frame_count outcome event_count query_result query_count : DifferenceKey

pub record Difference : Type 0 where
  pub index : ℕ
  pub key : DifferenceKey

-- `none` for `equal`
pub record Comparison : Type 0 where
  pub equal : Bool
  pub frames : ℕ
  pub first_difference : Option Difference

-- the index of the first two items of `zip(left, right)` that differ
unfoldable pub first_unequal {ℓ} : {A : Type ℓ} → (A → A → Bool) → ℕ → List A → List A → Option ℕ
first_unequal eq i [] ys = none
first_unequal eq i (x ∷ xs) [] = none
first_unequal eq i (x ∷ xs) (y ∷ ys) =
    let later = first_unequal eq (i + 1) xs ys in if eq x y then later else some i

-- a pair of lists: the first items that differ, or the count
unfoldable pub list_difference {ℓ} :
    {A : Type ℓ}
    → (A → A → Bool)
    → DifferenceKey
    → DifferenceKey
    → List A
    → List A
    → Option Difference
unfolding first_unequal
list_difference eq at count left right = elim (first_unequal eq 0 left right) [
  | some i ↦ some (record { index = i; key = at })
  | none ↦
      if length left == length right
      then none
      else some (record { index = min (length left) (length right); key = count })
]

module _ {F : Type 0} (eq_frame : Frame → Frame → Bool) (eq_outcome : Outcome → Outcome → Bool)
    (eq_query : Query → Query → Bool) where
  -- the frames, then the events, then the queries
  unfoldable pub difference : FoleyTrace F → FoleyTrace F → Option Difference
  unfolding list_difference
  difference left right =
      elim (list_difference eq_frame in_frame frame_count left.frames right.frames) [
        | some d ↦ some d
        | none ↦ elim (list_difference eq_outcome outcome event_count left.events right.events) [
          | some d ↦ some d
          | none ↦ list_difference eq_query query_result query_count left.queries right.queries
        ]
      ]

  -- `compare_traces`
  unfoldable pub compare_traces : FoleyTrace F → FoleyTrace F → Comparison
  unfolding difference
  compare_traces left right =
      let found = difference left right in
      record {
        equal = elim found [ none ↦ true | some d ↦ false ];
        frames = min (length left.frames) (length right.frames);
        first_difference = found;
      }
