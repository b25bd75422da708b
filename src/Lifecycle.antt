-- ===== src/Lifecycle.antt =====
-- src/llm_vs_zombies/lifecycle_events.py: the order of a session's records (`_sequence_problems`) and the
-- nesting of its invocations (`_nesting_problems`). A problem is kept by its kind and line.
pub mod Nested
pub mod Sorted
pub mod Increasing
pub mod Distinct
mod Tests
use llm_vs_zombies.Base.{
  ℕ, zero, suc, ◌+◌, ◌-◌, Bool, true, false, ◌&&◌, ◌||◌, List, [], ◌∷◌, ◌++◌, Option, none, some,
  if◌then◌else◌, ◌==◌, ltb, leb, length, any, not, on_some, codes, ℤ, pos, negsuc, ltb_ℤ, eqb_ℤ,
  ◌+ℤ◌, ◌-ℤ◌, map,
}
use llm_vs_zombies.Base.Deciding.{eq_list}
use llm_vs_zombies.Json.{Json, null, bool, int, float, str, arr, obj, Fields, get}
use llm_vs_zombies.Json.Equal.{equal}

-- `_MAX_INVOCATION_DEPTH`
abbrev pub max_invocation_depth : ℕ
max_invocation_depth = 32

pub data Problem : Type 0 where
  duplicated_sequence : ℕ → Problem
  decreasing_sequence : ℕ → Problem
  duplicate_invocation : ℕ → Problem
  not_contiguous : Problem
  entry_gap : ℕ → Problem
  outside_order : ℕ → Problem
  wrong_depth : ℕ → Problem
  wrong_parent : ℕ → Problem
  still_open : Problem

-- The value, if it is a dictionary.
abbrev pub as_dict : Option Json → Option Fields
as_dict (some (obj fs)) = some fs
as_dict _ = none

-- The value, if its type is int.
abbrev pub as_integer : Option Json → Option ℤ
as_integer (some (int n)) = some n
as_integer _ = none

-- `d.get(key)`, where a missing key gives `None`
abbrev pub or_null : Option Json → Json
or_null none = null
or_null (some v) = v

-- `_record_event`
unfoldable pub record_event : Json → Option Fields
record_event (obj line) = as_dict (get (codes "event") line)
record_event _ = none

-- `event.get("capture_sequence") if event else None`, if it is an int
unfoldable pub sequence_of : Json → Option ℤ
unfolding record_event
sequence_of line = elim (record_event line) [
  | none ↦ none
  | some event ↦ as_integer (get (codes "capture_sequence") event)
]

-- The comparison with the sequence of the record before, if there was one.
abbrev pub order_problem : Option ℤ → ℤ → ℕ → List Problem
order_problem none sequence index = []
order_problem (some previous) sequence index =
    if ltb_ℤ previous sequence
    then []
    else if eqb_ℤ sequence previous
    then duplicated_sequence index ∷ []
    else decreasing_sequence index ∷ []

-- The loop of `_sequence_problems`.
unfoldable pub sequence_loop : Option ℤ → ℕ → List Json → List Problem
unfolding sequence_of
sequence_loop previous index [] = []
sequence_loop previous index (line ∷ lines) = elim (sequence_of line) [
  | none ↦ sequence_loop previous (suc index) lines
  | some sequence ↦
      order_problem previous sequence index ++ sequence_loop (some sequence) (suc index) lines
]

unfoldable pub sequence_problems : List Json → List Problem
unfolding sequence_loop
sequence_problems = sequence_loop none 0

-- An invocation that its record names, at the line of the record.
pub record Invocation : Type 0 where
  pub index : ℕ
  pub invocation_id : ℕ
  pub depth : Json
  pub parent : Json

-- The positive `invocation_id` of a dictionary.
abbrev pub positive : Option ℤ → Option ℕ
positive (some (pos n)) = if n == 0 then none else some n
positive _ = none

abbrev pub invocation_at : ℕ → Option Fields → Option Invocation
invocation_at index none = none
invocation_at index (some fs) = elim (positive (as_integer (get (codes "invocation_id") fs))) [
  | none ↦ none
  | some id ↦ some (record {
    index = index;
    invocation_id = id;
    depth = or_null (get (codes "depth") fs);
    parent = or_null (get (codes "parent_invocation_id") fs);
  })
]

unfoldable pub invocation_of : ℕ → Json → Option Invocation
unfolding record_event
invocation_of index line = elim (record_event line) [
  | none ↦ none
  | some event ↦ invocation_at index (as_dict (get (codes "invocation") event))
]

-- The first loop: the invocations in the lines' order, without a repeated identifier, and the problems.
unfoldable pub collect : ℕ → List ℕ → List Json → List Invocation × List Problem
unfolding invocation_of
collect index seen [] = ([], [])
collect index seen (line ∷ lines) = elim (invocation_of index line) [
  | none ↦ collect (suc index) seen lines
  | some v ↦
      let again = collect (suc index) seen lines in
      let rest = collect (suc index) (v.invocation_id ∷ seen) lines in
      if any (λ i. i == v.invocation_id) seen
      then (again.0, duplicate_invocation index ∷ again.1)
      else (v ∷ rest.0, rest.1)
]

-- `stack.extend(range(next_id, next_id + count))`, with the top of the stack first
unfoldable pub push_range : ℕ → ℕ → List ℕ → List ℕ
push_range next zero stack = stack
push_range next (suc count) stack = push_range (suc next) count (next ∷ stack)

abbrev pub expected_parent : List ℕ → Json
expected_parent [] = null
expected_parent (top ∷ ancestors) = int (pos top)

abbrev pub is_null : Json → Bool
is_null null = true
is_null _ = false

abbrev pub depth_problem : Invocation → List ℕ → List Problem
depth_problem v ancestors =
    if is_null v.depth || equal v.depth (int (pos (length ancestors)))
    then []
    else wrong_depth v.index ∷ []

abbrev pub parent_problem : Invocation → List ℕ → List Problem
parent_problem v ancestors =
    if equal v.parent (expected_parent ancestors) then [] else wrong_parent v.index ∷ []

-- The walk over the invocations with the stack and the next identifier.
unfoldable pub walk : Bool → List Invocation → List ℕ → ℕ → List Problem
unfolding push_range
walk strict [] [] next = []
walk strict [] (top ∷ stack) next = if strict then still_open ∷ [] else []
walk strict (v ∷ vs) stack next =
    let id = v.invocation_id in
    let entered = leb next id in
    let stack' = if entered then push_range next (id + 1 - next) stack else stack in
    let next' = if entered then id + 1 else next in
    if entered && ltb max_invocation_depth (length stack + id - next + 1)
    then entry_gap v.index ∷ []
    else elim stack' [
      | [] ↦ outside_order v.index ∷ []
      | top ∷ ancestors ↦
          let on = walk strict vs ancestors next' in
          if top == id
          then depth_problem v ancestors ++ (parent_problem v ancestors ++ on)
          else outside_order v.index ∷ []
    ]

-- `sorted(ids)`
unfoldable pub insert_id : ℕ → List ℕ → List ℕ
insert_id i [] = i ∷ []
insert_id i (j ∷ js) = if leb i j then i ∷ j ∷ js else j ∷ insert_id i js

unfoldable pub sort_ids : List ℕ → List ℕ
unfolding insert_id
sort_ids [] = []
sort_ids (i ∷ is) = insert_id i (sort_ids is)

-- `list(range(first, first + count))`
unfoldable pub range_from : ℕ → ℕ → List ℕ
range_from first zero = []
range_from first (suc count) = first ∷ range_from (suc first) count

abbrev pub ids : List Invocation → List ℕ
ids [] = []
ids (v ∷ vs) = v.invocation_id ∷ ids vs

-- The checks of the collected invocations.
unfoldable pub nesting_of : Bool → List Invocation → List Problem
unfolding walk sort_ids range_from
nesting_of strict invocations =
    if length invocations == 0
    then []
    else if strict
        && not (eq_list ◌==◌ (sort_ids (ids invocations)) (range_from 1 (length invocations)))
    then not_contiguous ∷ []
    else walk strict invocations [] 1

unfoldable pub nesting_problems : Bool → List Json → List Problem
unfolding collect nesting_of
nesting_problems strict lines =
    let (invocations, problems) = collect 0 [] lines in problems ++ nesting_of strict invocations
