-- ===== src/Json.antt =====
-- JSON values as Python's `json` module reads them. A `str` is the list of its code points, a `dict`
-- its fields in insertion order, a `float` the bits of its IEEE 754 binary64 value.
pub mod Same
pub mod Difference
pub mod Equal
pub mod Pointer
pub mod Patch
mod Tests
use llm_vs_zombies.Base.{
  ℕ, zero, suc, ◌-◌, ◌%◌, ◌^◌, ◌≡◌, refl, Bool, true, false, ◌&&◌, ◌||◌, not, List, [], ◌∷◌, Option,
  none, some, if◌then◌else◌, ◌==◌, ltb, leb, ℤ, Str, eq_name, is_some, arith, map,
}

mutual
  pub data Json : Type 0 where
    null : Json
    bool : Bool → Json
    int : ℤ → Json
    float : ℕ → Json
    str : Str → Json
    arr : Items → Json
    obj : Fields → Json

  pub data Items : Type 0 where
    nil : Items
    item : Json → Items → Items

  pub data Fields : Type 0 where
    end : Fields
    field : Str → Json → Fields → Fields

-- `len(xs)`
abbrev pub count : Items → ℕ
count nil = 0
count (item x xs) = suc (count xs)

-- `d.get(k)`; `none` is a missing key.
abbrev pub get : Str → Fields → Option Json
get k end = none
get k (field j v fs) = if eq_name k j then some v else get k fs

-- `list(d)`
abbrev pub keys : Fields → List Str
keys end = []
keys (field k v fs) = k ∷ keys fs

-- `k in d`
abbrev pub has : Str → Fields → Bool
has k fs = is_some (get k fs)

-- `a == b` on floats: a NaN equals nothing, and the two zeros are equal.
abbrev is_nan : ℕ → Bool
is_nan a = ltb (2 ^ 63 - 2 ^ 52) (a % 2 ^ 63)

abbrev is_zero : ℕ → Bool
is_zero a = a % 2 ^ 63 == 0

pub eq_float : ℕ → ℕ → Bool
eq_float a b =
    if is_nan a || is_nan b then false else if is_zero a && is_zero b then true else a == b

-- `d.pop(key, None)`
unfoldable pub pop : Str → Fields → Fields
pop k end = end
pop k (field j v fs) = if eq_name k j then fs else field j v (pop k fs)

-- `d[key] = v`
unfoldable pub put : Str → Json → Fields → Fields
put k v end = field k v end
put k v (field j w fs) = if eq_name k j then field j v fs else field j w (put k v fs)

-- `xs[i]`
abbrev pub get_item : Items → ℕ → Option Json
get_item nil i = none
get_item (item x xs) zero = some x
get_item (item x xs) (suc i) = get_item xs i

-- `xs[i] = v`, `xs.insert(i, v)` and `del xs[i]`, for an index that the list has
unfoldable pub set_item : Items → ℕ → Json → Items
set_item nil i v = nil
set_item (item x xs) zero v = item v xs
set_item (item x xs) (suc i) v = item x (set_item xs i v)

unfoldable pub insert_item : Items → ℕ → Json → Items
insert_item xs zero v = item v xs
insert_item nil (suc i) v = item v nil
insert_item (item x xs) (suc i) v = item x (insert_item xs i v)

unfoldable pub delete_item : Items → ℕ → Items
delete_item nil i = nil
delete_item (item x xs) zero = xs
delete_item (item x xs) (suc i) = item x (delete_item xs i)
