-- ===== src/Actions/Tests.antt =====
-- The comparison of actions at concrete inputs.
use llm_vs_zombies.Base.{ℕ, ◌≡◌, ◌↔◌, refl, [], ◌∷◌, length, pos, codes, ok, err}
use llm_vs_zombies.Json.{int, str, obj, Fields, end, field}
use llm_vs_zombies.Actions.{all_equal, action_count, compare_action_steps, key_error}
use llm_vs_zombies.Actions.Verdict.{AllAlike, compare_action_steps_iff}
use llm_vs_zombies.Base.{insert_name, sorted_set, ◌>>=◌}
use llm_vs_zombies.Actions.{equal_methods, method_of, normalize_step}
use llm_vs_zombies.Json.Equal.{equal}
use llm_vs_zombies.Json.Difference.{diff_keys, first_difference}

abbrev step : ℕ → Fields
step id =
    field (codes "request")
      (obj (
        field (codes "request_id") (int (pos id)) (
          field (codes "method") (str (codes "advance"))
            (field (codes "branch") (int (pos id)) end))))
      end

-- Two runs whose requests differ in their identity alone.
same_actions : compare_action_steps (step 4 ∷ []) (step 7 ∷ []) ≡ ok (all_equal 1)
unfolding compare_action_steps ◌>>=◌ method_of equal_methods equal first_difference normalize_step
    diff_keys sorted_set insert_name
same_actions = refl

no_request : compare_action_steps (end ∷ []) (step 7 ∷ []) ≡ err key_error
unfolding compare_action_steps ◌>>=◌ method_of
no_request = refl

shorter : compare_action_steps [] (step 7 ∷ []) ≡ ok (action_count 0 1)
unfolding compare_action_steps
shorter = refl

compare_action_steps_iff_example :
    (compare_action_steps (step 4 ∷ []) (step 7 ∷ []) ≡ ok (all_equal 1))
    ↔ ((1 ≡ length (step 4 ∷ [])) × AllAlike (step 4 ∷ []) (step 7 ∷ []))
compare_action_steps_iff_example = compare_action_steps_iff (step 4 ∷ []) (step 7 ∷ []) 1
