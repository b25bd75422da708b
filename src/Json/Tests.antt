-- ===== src/Json/Tests.antt =====
-- The theorems on JSON values at concrete inputs.
use llm_vs_zombies.Base.{
  ◌≡◌, ◌↔◌, refl, true, List, [], ◌∷◌, none, some, pos, Str, codes, ok, err, ok-injective, subst,
  Result,
}
use llm_vs_zombies.Json.{Json, null, bool, int, float, str, arr, obj, nil, item, Fields, end, field}
use llm_vs_zombies.Json.Same.{same}
use llm_vs_zombies.Json.Equal.{equal}
use llm_vs_zombies.Json.Difference.{first_difference, of_type}
use llm_vs_zombies.Json.Difference.Agreement.{first_difference-none_iff}
use llm_vs_zombies.Json.Pointer.{parse_tokens, PatchError, invalid_escape}
use llm_vs_zombies.Json.Patch.{add, remove, apply, step_into}
use llm_vs_zombies.Json.Patch.Undo.{IsNew, apply-remove-add}
use llm_vs_zombies.Json.Difference.{child_path, diff_keys}
use llm_vs_zombies.Base.{insert_name, on_some, replace, sorted_set, ◌>>=◌}
use llm_vs_zombies.Json.{eq_float, insert_item, put}
use llm_vs_zombies.Json.Pointer.{index_of}

abbrev seed : Fields
seed = field (codes "wave") (int (pos 3)) (field (codes "sun") (float 4611686018427387904) end)

abbrev swapped : Fields
swapped = field (codes "sun") (float 4611686018427387904) (field (codes "wave") (int (pos 3)) end)

abbrev flag : Fields
flag = field (codes "sun") (float 4611686018427387904) (field (codes "wave") (bool true) end)

order_of_keys : first_difference (obj seed) (obj swapped) [] ≡ none
unfolding first_difference diff_keys sorted_set insert_name eq_float
order_of_keys = refl

bool_for_int :
    first_difference (obj seed) (obj flag) []
    ≡ some (of_type (codes "/wave") (int (pos 3)) (bool true))
unfolding first_difference diff_keys sorted_set insert_name eq_float child_path replace
bool_for_int = refl

-- `1 == True` and `2.0 == 2`
equal_numbers : equal (int (pos 1)) (bool true) ≡ true
unfolding equal
equal_numbers = refl

equal_float : equal (float 4611686018427387904) (int (pos 2)) ≡ true
unfolding equal
equal_float = refl

bad_escape : parse_tokens (codes "/a~2") ≡ err invalid_escape
unfolding parse_tokens ◌>>=◌
bad_escape = refl

abbrev document : Json
document = obj (field (codes "plants") (arr (item (str (codes "pea")) (item null nil))) end)

abbrev second : List Str
second = codes "plants" ∷ codes "1" ∷ []

abbrev longer : Json
longer =
    obj (
      field (codes "plants") (arr (item (str (codes "pea")) (item (bool true) (item null nil))))
        end)

addition : apply (add (bool true)) second document ≡ ok longer
unfolding apply ◌>>=◌ on_some index_of put insert_item
addition = refl

abbrev plants : Json
plants = arr (item (str (codes "pea")) (item null nil))

IsNew-child :
    (child : Json)
    → ◌≡◌ {A = Result PatchError Json} (ok plants) (ok child)
    → IsNew (codes "1" ∷ []) child
IsNew-child child h = subst (IsNew (codes "1" ∷ [])) (ok-injective h) refl

second-IsNew : IsNew second document
unfolding step_into on_some
second-IsNew = IsNew-child

first_difference-none_iff_example :
    (first_difference (obj seed) (obj swapped) [] ≡ none) ↔ (same (obj seed) (obj swapped) ≡ true)
first_difference-none_iff_example = first_difference-none_iff (obj seed) (obj swapped) []

apply-remove-add_example : apply remove second longer ≡ ok document
apply-remove-add_example = apply-remove-add second (bool true) document longer addition second-IsNew
