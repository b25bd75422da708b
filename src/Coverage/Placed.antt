-- ===== src/Coverage/Placed.antt =====
-- The place of a difference that `first_difference` reports, and the steps that lead to it.
use llm_vs_zombies.Base.{
  ℕ, ◌≡◌, ◌≢◌, ◌⊎◌, refl, sym, ap, subst, ◌∙◌, Bool, true, false, ◌||◌, ◌==◌, List, [], ◌∷◌, ◌++◌,
  Option, none, some, some-injective, is_some, inl, inr, In, In-append, Bool-cases, Option-cases,
  arith, Str, decimal, sorted_set,
}
use llm_vs_zombies.Base.Names.Sets.{In-of_sorted_set}
use llm_vs_zombies.Json.{Json, arr, obj, Items, Fields, count, get, get_item, keys}
use llm_vs_zombies.Json.Same.{same}
use llm_vs_zombies.Json.Difference.{
  Difference, of_type, missing_field, array_length, of_value, first_difference, child_path,
  different,
}
use llm_vs_zombies.Json.Difference.Agreement.{first_difference-none_iff, has_of_In}
use llm_vs_zombies.Json.Pointer.RoundTrip.{path_of}
use llm_vs_zombies.Json.Pointer.Decimal.{number_from-decimal, child_path-decimal}
use llm_vs_zombies.Coverage.{descend}
use llm_vs_zombies.Coverage.Found.{is_decimal-decimal}

-- The path of a difference.
abbrev pub place : Difference → Str
place (of_type path l r) = path
place (missing_field path l r) = path
place (array_length path m n) = path
place (of_value path l r) = path

-- What a difference says of the expected and of the actual value at its place: they are the values it
-- shows and are not the same, or exactly one of them is there, or they are arrays of the counts it
-- shows, which differ.
abbrev pub Shows : Difference → Option Json → Option Json → Type 0
Shows (of_type path l r) x y = (x ≡ some l) × (y ≡ some r) × (same l r ≢ true)
Shows (missing_field path l r) x y =
    (x ≡ l) × (y ≡ r) × ((l ≡ none) ⊎ (r ≡ none)) × ((is_some l || is_some r) ≡ true)
Shows (array_length path m n) x y =
    (xs : Items) × (ys : Items) × (x ≡ some (arr xs))
    × (y ≡ some (arr ys))
    × (m ≡ count xs)
    × (n ≡ count ys)
    × (m ≢ n)
Shows (of_value path l r) x y = (x ≡ some l) × (y ≡ some r) × (same l r ≢ true)

-- The difference lies below both values, and its path goes on from theirs.
pub record Reports (e a : Json) (path : Str) (d : Difference) : Type 0 where
  pub tokens : List Str
  pub goes_on : place d ≡ path_of path tokens
  pub shown : Shows d (descend e tokens) (descend a tokens)

pub not_same :
    (e a : Json) (path : Str) (d : Difference)
    → first_difference e a path ≡ some d
    → same e a ≢ true
not_same e a path d h s =
    cc (let bad : some d ≡ none = sym h ∙ (first_difference-none_iff e a path).1 s in bad)

module _ (e a : Json) (path : Str) where
  pub type_here : same e a ≢ true → Reports e a path (of_type path e a)
  unfolding descend
  type_here n = record { tokens = []; goes_on = refl; shown = (refl, refl, n) }

  value_here : same e a ≢ true → Reports e a path (of_value path e a)
  unfolding descend
  value_here n = record { tokens = []; goes_on = refl; shown = (refl, refl, n) }

  pub at_value :
      (b : Bool) (d : Difference)
      → same e a ≢ true
      → different b (of_value path e a) ≡ some d
      → Reports e a path d
  at_value true d n h = cc
  at_value false d n h = subst (Reports e a path) (some-injective _ _ h) (value_here n)

pub at_length :
    (xs ys : Items) (path : Str) (d : Difference)
    → different (count xs == count ys) (array_length path (count xs) (count ys)) ≡ some d
    → Reports (arr xs) (arr ys) path d
unfolding descend
at_length xs ys path d = elim (Bool-cases (count xs == count ys)) [
  | inl e ↦ rw e (λ h. cc)
  | inr e ↦ rw e (λ h. subst (Reports (arr xs) (arr ys) path) (some-injective _ _ h) (record {
    tokens = [];
    goes_on = refl;
    shown = (xs, ys, refl, refl, refl, refl, λ same_count. ground (arith, e));
  }))
]

pub at_field :
    (fs gs : Fields) (k path : Str) (v w : Json) (d : Difference)
    → get k fs ≡ some v
    → get k gs ≡ some w
    → Reports v w (child_path path k) d
    → Reports (obj fs) (obj gs) path d
unfolding descend
at_field fs gs k path v w d l r b = record {
  tokens = k ∷ b.tokens;
  goes_on = b.goes_on;
  shown = rw (descend, l, r) b.shown;
}

pub at_item :
    (xs ys : Items) (i : ℕ) (path : Str) (v w : Json) (d : Difference)
    → get_item xs i ≡ some v
    → get_item ys i ≡ some w
    → Reports v w (path ++ b'/' ∷ decimal i) d
    → Reports (arr xs) (arr ys) path d
unfolding descend
at_item xs ys i path v w d l r b = record {
  tokens = decimal i ∷ b.tokens;
  goes_on = b.goes_on ∙ ap (λ q. path_of q b.tokens) (sym (child_path-decimal path i));
  shown = rw (descend, is_decimal-decimal i, number_from-decimal i, l, r) b.shown;
}

descend-key : (fs : Fields) (k : Str) → descend (obj fs) (k ∷ []) ≡ get k fs
unfolding descend
descend-key fs k = elim (Option-cases (get k fs)) [
  | inl x ↦ rw (descend, x) refl
  | inr (v, x) ↦ rw (descend, x) refl
]

pub at_missing :
    (fs gs : Fields) (k path : Str)
    → (get k fs ≡ none) ⊎ (get k gs ≡ none)
    → (is_some (get k fs) || is_some (get k gs)) ≡ true
    → Reports (obj fs) (obj gs) path (missing_field (child_path path k) (get k fs) (get k gs))
at_missing fs gs k path one there = record {
  tokens = k ∷ [];
  goes_on = refl;
  shown = (descend-key fs k, descend-key gs k, one, there);
}

pub key_there :
    (fs gs : Fields) (k : Str)
    → In k (sorted_set (keys fs ++ keys gs))
    → (is_some (get k fs) || is_some (get k gs)) ≡ true
key_there fs gs k m =
    elim (In-append (keys fs) (keys gs) k (In-of_sorted_set (keys fs ++ keys gs) k m)) [
      | inl l ↦ ground (arith, has_of_In fs k l)
      | inr r ↦ ground (arith, has_of_In gs k r)
    ]
