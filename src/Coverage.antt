-- ===== src/Coverage.antt =====
-- src/llm_vs_zombies/b0_coverage.py: the leaves of a captured state, the patterns that claim them, and the
-- value that a pointer leads to.
pub mod Found
pub mod Placed
pub mod Reported
pub mod Agreeing
mod Tests
use mathlib.Core.Option
use llm_vs_zombies.Base.{
  ℕ, suc, Bool, true, false, ◌&&◌, ◌||◌, List, [], ◌∷◌, ◌++◌, Option, none, some, if◌then◌else◌,
  ◌==◌, leb, ltb, length, all, map, Str, eq_name, codes, find, sorted_set, decimal, Result, ok, err,
  ◌>>=◌,
}
use llm_vs_zombies.Json.{
  Json, null, bool, int, float, str, arr, obj, Items, nil, item, Fields, end, field, get, get_item,
  keys,
}
use llm_vs_zombies.Json.Difference.{child_path}
use llm_vs_zombies.Json.Pointer.{split, unescape, is_digit, number_from}

-- The leaves of the value at a key, from `leaves` at that value.
abbrev pub leaves_at : Option (Str → List Str) → Str → List Str
leaves_at none child = []
leaves_at (some below) child = below child

-- The loop over the sorted keys.
unfoldable pub leaves_keys : List (Str × (Str → List Str)) → Str → List Str → List Str
leaves_keys below prefix [] = []
leaves_keys below prefix (k ∷ ks) =
    leaves_at (find k below) (child_path prefix k) ++ leaves_keys below prefix ks

unfoldable mutual
  unfolding leaves_keys

  pub leaves : Json → Str → List Str
  leaves (obj end) prefix = prefix ∷ []
  leaves (obj (field k v fs)) prefix =
      leaves_keys (leaves_below (field k v fs)) prefix (sorted_set (keys (field k v fs)))
  leaves (arr nil) prefix = prefix ∷ []
  leaves (arr (item x xs)) prefix = leaves_items (item x xs) prefix 0
  leaves _ prefix = prefix ∷ []

  pub leaves_items : Items → Str → ℕ → List Str
  leaves_items nil prefix index = []
  leaves_items (item x xs) prefix index =
      leaves x (prefix ++ b'/' ∷ decimal index) ++ leaves_items xs prefix (suc index)

  -- `leaves` at each value
  pub leaves_below : Fields → List (Str × (Str → List Str))
  leaves_below end = []
  leaves_below (field k v fs) = (k, leaves v) ∷ leaves_below fs

pub data CoverageError : Type 0 where
  invalid_pattern : CoverageError

-- `_segments`
unfoldable pub segments : Str → Result CoverageError (List Str)
unfolding split unescape
segments [] = ok []
segments (c ∷ rest) = if c == b'/' then ok (map unescape (split b'/' rest)) else err invalid_pattern

-- `all(expect == "*" or expect == value for expect, value in zip(wanted, actual))`
abbrev pub agree : List Str → List Str → Bool
agree (w ∷ ws) (a ∷ as') = (eq_name w (codes "*") || eq_name w a) && agree ws as'
agree _ _ = true

unfoldable pub matches : Str → Str → Result CoverageError Bool
unfolding segments
matches pointer pattern' = do
  wanted ← segments pattern'
  actual ← segments pointer
  ok (leb (length wanted) (length actual) && agree wanted actual)

unfoldable pub covers_leaf : Str → Str → Result CoverageError Bool
unfolding segments matches
covers_leaf pointer pattern' = do
  matched ← matches pointer pattern'
  wanted ← segments pattern'
  actual ← segments pointer
  ok (if matched then true else ltb (length actual) (length wanted) && agree wanted actual)

-- `token.isascii() and token.isdecimal()`
abbrev pub is_decimal : Str → Bool
is_decimal [] = false
is_decimal (c ∷ cs) = all is_digit (c ∷ cs)

-- The loop of `_type_at`; `none` is where it returns None before the last token.
unfoldable pub descend : Json → List Str → Option Json
unfolding number_from
descend node [] = some node
descend (obj fs) (token ∷ tokens) = elim (get token fs) [
  | none ↦ none
  | some child ↦ descend child tokens
]
descend (arr xs) (token ∷ tokens) =
    elim (if is_decimal token then get_item xs (number_from 0 token) else none) [
      | none ↦ none
      | some child ↦ descend child tokens
    ]
descend _ (token ∷ tokens) = none

-- None, where nothing is found, is the value null as well.
abbrev pub or_null : Option Json → Json
or_null none = null
or_null (some v) = v

unfoldable pub type_at : Json → Str → Result CoverageError Json
unfolding segments descend
type_at document pointer = do tokens ← segments pointer; ok (or_null (descend document tokens))
