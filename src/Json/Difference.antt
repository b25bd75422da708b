-- ===== src/Json/Difference.antt =====
-- src/llm_vs_zombies/audit_compare.py, `first_difference`.
pub mod Agreement
use llm_vs_zombies.Base.{
  ℕ, zero, suc, ◌+◌, ◌/◌, ◌%◌, Bool, true, false, List, [], ◌∷◌, ◌++◌, Option, none, some,
  if◌then◌else◌, ◌==◌, is_some, eqb_ℤ, Str, eq_name, find, sorted_set, decimal, replace, codes,
}
use llm_vs_zombies.Base.Deciding.{eq_bool}
use llm_vs_zombies.Json.{
  Json, null, bool, int, float, str, arr, obj, Items, nil, item, Fields, end, field, count, get,
  keys, eq_float,
}

pub data Difference : Type 0 where
  of_type : Str → Json → Json → Difference
  missing_field : Str → Option Json → Option Json → Difference
  array_length : Str → ℕ → ℕ → Difference
  of_value : Str → Json → Json → Difference

-- `a or b` on results whose dictionaries are never empty: `if difference: return difference`
abbrev pub first_some : Option Difference → Option Difference → Option Difference
first_some none e = e
first_some (some d) e = some d

-- `path + "/" + key.replace("~", "~0").replace("/", "~1")`
unfoldable pub child_path : Str → Str → Str
child_path path key = path ++ b'/' ∷ replace b'/' (codes "~1") (replace b'~' (codes "~0") key)

abbrev pub different : Bool → Difference → Option Difference
different true d = none
different false d = some d

-- What the loop does at one key, from `first_difference` at the expected value.
abbrev pub diff_at :
    Option (Json → Str → Option Difference) → Option Json → Option Json → Str → Option Difference
diff_at (some diff) l (some w) child = diff w child
diff_at _ l r child = some (missing_field child l r)

-- The loop over the sorted keys of both dictionaries.
unfoldable pub diff_keys :
    List (Str × (Json → Str → Option Difference))
    → Fields
    → Fields
    → Str
    → List Str
    → Option Difference
diff_keys diffs fs gs path [] = none
diff_keys diffs fs gs path (k ∷ ks) =
    first_some (diff_at (find k diffs) (get k fs) (get k gs) (child_path path k))
      (diff_keys diffs fs gs path ks)

unfoldable mutual
  pub first_difference : Json → Json → Str → Option Difference
  first_difference null null path = none
  first_difference (bool a) (bool b) path =
      different (eq_bool a b) (of_value path (bool a) (bool b))
  first_difference (int a) (int b) path = different (eqb_ℤ a b) (of_value path (int a) (int b))
  first_difference (float a) (float b) path =
      different (eq_float a b) (of_value path (float a) (float b))
  first_difference (str a) (str b) path = different (eq_name a b) (of_value path (str a) (str b))
  first_difference (arr xs) (arr ys) path =
      first_some (diff_zip xs ys path 0)
        (different (count xs == count ys) (array_length path (count xs) (count ys)))
  first_difference (obj fs) (obj gs) path =
      diff_keys (differences fs) fs gs path (sorted_set (keys fs ++ keys gs))
  first_difference expected actual path = some (of_type path expected actual)

  pub diff_zip : Items → Items → Str → ℕ → Option Difference
  diff_zip (item x xs) (item y ys) path index =
      first_some (first_difference x y (path ++ b'/' ∷ decimal index))
        (diff_zip xs ys path (suc index))
  diff_zip _ _ path index = none

  -- `first_difference` at each expected value
  pub differences : Fields → List (Str × (Json → Str → Option Difference))
  differences end = []
  differences (field k v fs) = (k, first_difference v) ∷ differences fs
