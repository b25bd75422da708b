-- ===== src/Lifecycle/Tests.antt =====
-- The order and the nesting of lifecycle records at concrete inputs.
use llm_vs_zombies.Base.{List, ℕ, ◌≤◌, ◌≡◌, ◌↔◌, refl, true, [], ◌∷◌, codes, pos, Pairwise, arith}
use llm_vs_zombies.Json.{Json, null, int, obj, end, field}
use llm_vs_zombies.Lifecycle.{
  duplicated_sequence, wrong_parent, sequence_problems, nesting_problems, nesting_of,
  max_invocation_depth,
}
use llm_vs_zombies.Lifecycle.Nested.{Forest, nothing, call, exits, height}
use llm_vs_zombies.Lifecycle.Sorted.{nesting_of-exits}
use llm_vs_zombies.Lifecycle.Increasing.{sequences, Before, sequence_problems_iff}
use llm_vs_zombies.Json.Equal.{equal}

abbrev numbered : ℕ → Json
numbered n =
    obj (field (codes "event") (obj (field (codes "capture_sequence") (int (pos n)) end)) end)

abbrev nested : ℕ → ℕ → Json → Json
nested id depth parent = obj (
    field (codes "event")
      (obj (
        field (codes "invocation")
          (obj (
            field (codes "invocation_id") (int (pos id)) (
              field (codes "depth") (int (pos depth))
                (field (codes "parent_invocation_id") parent end))))
          end))
      end)

repeated :
    sequence_problems (numbered 3 ∷ numbered 3 ∷ numbered 5 ∷ []) ≡ duplicated_sequence 1 ∷ []
unfolding sequence_problems
repeated = refl

-- Call 1 with call 2 within it, which exits first.
within : nesting_problems true (nested 2 1 (int (pos 1)) ∷ nested 1 0 null ∷ []) ≡ []
unfolding nesting_problems equal
within = refl

orphan : nesting_problems true (nested 2 1 null ∷ nested 1 0 null ∷ []) ≡ wrong_parent 0 ∷ []
unfolding nesting_problems equal
orphan = refl

-- Two calls, the first with two calls within it.
abbrev calls : Forest
calls = call (call nothing (call nothing nothing)) (call nothing nothing)

shallow : height calls ≤ max_invocation_depth
unfolding height
shallow = omega arith

nesting_of-exits_example : nesting_of true (exits [] 1 calls) ≡ []
nesting_of-exits_example = nesting_of-exits true calls shallow

sequence_problems_iff_example :
    (sequence_problems (numbered 3 ∷ null ∷ numbered 5 ∷ []) ≡ [])
    ↔ Pairwise Before (sequences (numbered 3 ∷ null ∷ numbered 5 ∷ []))
sequence_problems_iff_example = sequence_problems_iff (numbered 3 ∷ null ∷ numbered 5 ∷ [])

abbrev repeating : List Json
repeating = nested 2 1 null ∷ null ∷ nested 2 0 null ∷ nested 1 0 null ∷ []
