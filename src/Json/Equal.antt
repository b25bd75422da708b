-- ===== src/Json/Equal.antt =====
-- Python's `==` on JSON values: numbers compare by value, a bool among them, and the order of a
-- dictionary's fields does not matter.
use llm_vs_zombies.Base.{
  ℕ, ◌+◌, ◌-◌, ◌*◌, ◌/◌, ◌%◌, ◌^◌, Bool, true, false, ◌&&◌, ◌||◌, List, [], ◌∷◌, if◌then◌else◌,
  ◌==◌, leb, all, ℤ, pos, negsuc, eqb_ℤ, Str, eq_name, find,
}
use llm_vs_zombies.Json.{
  Json, null, bool, int, float, str, arr, obj, Items, item, Fields, end, field, count, get, keys,
  eq_float,
}
use llm_vs_zombies.Json.Same.{eq_keys, same_at}

-- A float's fraction and biased exponent; 2047 marks infinities and NaNs.
abbrev fraction : ℕ → ℕ
fraction a = a % 2 ^ 52

abbrev exponent : ℕ → ℕ
exponent a = a / 2 ^ 52 % 2 ^ 11

-- The magnitude of a float is the number `n`.
abbrev is_magnitude : ℕ → ℕ → Bool
is_magnitude a n =
    if exponent a == 2047
    then false
    else if exponent a == 0
    then fraction a == 0 && n == 0
    else if leb 1075 (exponent a)
    then (2 ^ 52 + fraction a) * 2 ^ (exponent a - 1075) == n
    else (2 ^ 52 + fraction a) == n * 2 ^ (1075 - exponent a)

-- `float == int`
unfoldable pub float_is : ℕ → ℤ → Bool
float_is a (pos n) = (a / 2 ^ 63 == 0 && is_magnitude a n) || (n == 0 && is_magnitude a 0)
float_is a (negsuc n) = a / 2 ^ 63 == 1 && is_magnitude a (n + 1)

-- A bool is the integer 0 or 1.
abbrev pub as_int : Bool → ℤ
as_int true = pos 1
as_int false = pos 0

unfoldable mutual
  unfolding float_is

  pub equal : Json → Json → Bool
  equal null null = true
  equal (bool a) (bool b) = eqb_ℤ (as_int a) (as_int b)
  equal (bool a) (int b) = eqb_ℤ (as_int a) b
  equal (int a) (bool b) = eqb_ℤ a (as_int b)
  equal (int a) (int b) = eqb_ℤ a b
  equal (float a) (float b) = eq_float a b
  equal (float a) (int b) = float_is a b
  equal (float a) (bool b) = float_is a (as_int b)
  equal (int a) (float b) = float_is b a
  equal (bool a) (float b) = float_is b (as_int a)
  equal (str a) (str b) = eq_name a b
  equal (arr xs) (arr ys) = (count xs == count ys) && equal_zip xs ys
  equal (obj fs) (obj gs) =
      eq_keys fs gs && all (λ k. same_at (find k (equals fs)) (get k gs)) (keys fs)
  equal _ _ = false

  pub equal_zip : Items → Items → Bool
  equal_zip (item x xs) (item y ys) = equal x y && equal_zip xs ys
  equal_zip _ _ = true

  -- `equal` at each value of the left dictionary
  pub equals : Fields → List (Str × (Json → Bool))
  equals end = []
  equals (field k v fs) = (k, equal v) ∷ equals fs
