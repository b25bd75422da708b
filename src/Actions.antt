-- ===== src/Actions.antt =====
-- src/llm_vs_zombies/action_compare.py: the comparison of two runs' actions, from the steps that the
-- trace reader returns.
pub mod Verdict
mod Tests
use llm_vs_zombies.Base.{
  ℕ, zero, suc, Bool, true, false, List, [], ◌∷◌, Option, none, some, if◌then◌else◌, ◌==◌, length,
  not, any, Str, eq_name, lt_name, codes, Result, ok, err, ◌>>=◌,
}
use llm_vs_zombies.Json.{
  Json, null, bool, int, float, str, arr, obj, Items, nil, item, Fields, end, field, get, put, pop,
}
use llm_vs_zombies.Json.Equal.{equal}
use llm_vs_zombies.Json.Difference.{Difference, first_difference}

-- `IDENTITY_KEYS`
abbrev pub identity_keys : List Str
identity_keys =
    codes "request_id"
    ∷ codes "run_id"
    ∷ codes "branch_id"
    ∷ codes "session_id"
    ∷ codes "recorded_at"
    ∷ []

abbrev pub is_identity : Str → Bool
is_identity k = any (eq_name k) identity_keys

-- One field more among fields sorted by their keys.
unfoldable pub insert_field : Str → Json → Fields → Fields
insert_field k v end = field k v end
insert_field k v (field j w fs) =
    if lt_name k j then field k v (field j w fs) else field j w (insert_field k v fs)

unfoldable mutual
  unfolding insert_field

  pub normalize : Json → Json
  normalize (obj fs) = obj (normalize_fields fs)
  normalize (arr xs) = arr (normalize_items xs)
  normalize v = v

  pub normalize_items : Items → Items
  normalize_items nil = nil
  normalize_items (item x xs) = item (normalize x) (normalize_items xs)

  pub normalize_fields : Fields → Fields
  normalize_fields end = end
  normalize_fields (field k v fs) =
      if is_identity k
      then normalize_fields fs
      else insert_field k (normalize v) (normalize_fields fs)

-- `request.pop("branch", None)`, if the request is a dictionary
unfoldable pub pop_branch : Option Json → Fields → Fields
unfolding pop put
pop_branch (some (obj request)) step =
    put (codes "request") (obj (pop (codes "branch") request)) step
pop_branch _ step = step

unfoldable pub normalize_step : Fields → Json
unfolding normalize pop_branch
normalize_step step = normalize (obj (pop_branch (get (codes "request") step) step))

pub data ActionError : Type 0 where
  key_error : ActionError
  attribute_error : ActionError

-- `step["request"].get("method")`
unfoldable pub method_of : Fields → Result ActionError (Option Json)
method_of step = elim (get (codes "request") step) [
  | none ↦ err key_error
  | some (obj request) ↦ ok (get (codes "method") request)
  | some _ ↦ err attribute_error
]

-- `left == right`, with `None` for what `get` did not find
unfoldable pub equal_methods : Option Json → Option Json → Bool
equal_methods none none = true
equal_methods none (some null) = true
equal_methods (some null) none = true
equal_methods (some m) (some n) = equal m n
equal_methods _ _ = false

-- The report, without the fields that label it.
pub data Comparison : Type 0 where
  action_count : ℕ → ℕ → Comparison
  action_method : ℕ → Option Json → Option Json → Comparison
  action_or_result : ℕ → Difference → Comparison
  all_equal : ℕ → Comparison

abbrev pub on_difference :
    Option Difference → ℕ → Result ActionError Comparison → Result ActionError Comparison
on_difference (some d) index rest = ok (action_or_result index d)
on_difference none index rest = rest

-- The loop over both lists, from `index` on; `total` steps are compared in all.
unfoldable pub compare_from : ℕ → ℕ → List Fields → List Fields → Result ActionError Comparison
compare_from total index (left ∷ ls) (right ∷ rs) =
    let rest = compare_from total (suc index) ls rs in
    do
      l ← method_of left
      r ← method_of right
      if not (equal_methods l r)
          then ok (action_method index l r)
          else on_difference (first_difference (normalize_step left) (normalize_step right) [])
              index rest
compare_from total index _ _ = ok (all_equal total)

unfoldable pub compare_action_steps : List Fields → List Fields → Result ActionError Comparison
unfolding compare_from
compare_action_steps ls rs =
    if length ls == length rs
    then compare_from (length ls) 0 ls rs
    else ok (action_count (length ls) (length rs))
