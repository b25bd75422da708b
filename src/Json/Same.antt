-- ===== src/Json/Same.antt =====
-- src/llm_vs_zombies/sound_effects.py, `same`: equality of evidence that never takes a bool for an
-- integer.
use llm_vs_zombies.Base.{
  Bool, true, false, ◌&&◌, List, [], ◌∷◌, Option, some, ◌==◌, all, eqb_ℤ, Str, eq_name, find,
}
use llm_vs_zombies.Base.Deciding.{eq_bool}
use llm_vs_zombies.Json.{
  Json, null, bool, int, float, str, arr, obj, Items, item, Fields, end, field, count, get, keys,
  has, eq_float,
}

-- `left.keys() == right.keys()`
abbrev pub eq_keys : Fields → Fields → Bool
eq_keys fs gs = all (λ k. has k gs) (keys fs) && all (λ k. has k fs) (keys gs)

-- `same(left[k], right[k])`, from the test of `left[k]`
abbrev pub same_at : Option (Json → Bool) → Option Json → Bool
same_at (some test) (some w) = test w
same_at _ _ = false

unfoldable mutual
  pub same : Json → Json → Bool
  same null null = true
  same (bool a) (bool b) = eq_bool a b
  same (int a) (int b) = eqb_ℤ a b
  same (float a) (float b) = eq_float a b
  same (str a) (str b) = eq_name a b
  same (arr xs) (arr ys) = (count xs == count ys) && same_zip xs ys
  same (obj fs) (obj gs) =
      eq_keys fs gs && all (λ k. same_at (find k (tests fs)) (get k gs)) (keys fs)
  same _ _ = false

  -- `all(same(a, b) for a, b in zip(left, right))`
  pub same_zip : Items → Items → Bool
  same_zip (item x xs) (item y ys) = same x y && same_zip xs ys
  same_zip _ _ = true

  -- `same` at each value of the left dictionary
  pub tests : Fields → List (Str × (Json → Bool))
  tests end = []
  tests (field k v fs) = (k, same v) ∷ tests fs
