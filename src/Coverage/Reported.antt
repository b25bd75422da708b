-- ===== src/Coverage/Reported.antt =====
-- What `first_difference` reports, at the place that its path names.
use llm_vs_zombies.Base.{
  ℕ, suc, ◌+◌, ◌≡◌, ◌⊎◌, refl, ap, subst, ◌∙◌, List, [], ◌∷◌, ◌++◌, Option, none, some,
  some-injective, inl, inr, In, Bool-cases, Option-cases, arith, Str, eq_name, find, decimal, ok,
}
use llm_vs_zombies.Json.{
  Json, null, bool, int, float, str, arr, obj, Items, nil, item, Fields, end, field, get, get_item,
}
use llm_vs_zombies.Json.Difference.{
  Difference, missing_field, first_difference, diff_zip, diff_keys, diff_at, differences,
  first_some, child_path,
}
use llm_vs_zombies.Json.Pointer.{parse_tokens}
use llm_vs_zombies.Json.Pointer.RoundTrip.{parse_tokens-path_of}
use llm_vs_zombies.Coverage.{descend}
use llm_vs_zombies.Coverage.Placed.{
  place, Shows, Reports, type_here, at_value, not_same, at_length, at_field, at_item, at_missing,
  key_there,
}

-- A difference of the loop over keys is one at some key.
some_key :
    (diffs : List (Str × (Json → Str → Option Difference))) (fs gs : Fields) (path : Str)
    (ks : List Str) (d : Difference)
    → diff_keys diffs fs gs path ks ≡ some d
    → (k : Str) × In k ks
      × (diff_at (find k diffs) (get k fs) (get k gs) (child_path path k) ≡ some d)
unfolding diff_keys
some_key diffs fs gs path [] d h = cc
some_key diffs fs gs path (k ∷ ks) d h =
    elim (Option-cases (diff_at (find k diffs) (get k fs) (get k gs) (child_path path k))) [
      | inl x ↦ let (j, m, e) = some_key diffs fs gs path ks d (rw x at h) in (j, inr m, e)
      | inr (d', x) ↦ (k, inl refl, x ∙ (rw x at h))
    ]

first_some-cases :
    (a b : Option Difference) (d : Difference)
    → first_some a b ≡ some d
    → (a ≡ some d) ⊎ (b ≡ some d)
first_some-cases none b d h = inr h
first_some-cases (some x) b d h = inl h

-- Both values at a key, or the one that is missing.
abbrev AtKey : Fields → Str → Option Json → Str → Difference → Type 0
AtKey fs k w child d =
    ((v : Json) × (a : Json) × (get k fs ≡ some v) × (w ≡ some a) × Reports v a child d)
    ⊎ ((missing_field child (get k fs) w ≡ d) × ((get k fs ≡ none) ⊎ (w ≡ none)))

mutual
  unfolding first_difference

  under :
      (e a : Json) (path : Str) (d : Difference)
      → first_difference e a path ≡ some d
      → Reports e a path d
  under null null path d h = cc
  under (bool a) (bool b) path d h =
      at_value (bool a) (bool b) path _ d (not_same (bool a) (bool b) path d h) h
  under (int a) (int b) path d h =
      at_value (int a) (int b) path _ d (not_same (int a) (int b) path d h) h
  under (float a) (float b) path d h =
      at_value (float a) (float b) path _ d (not_same (float a) (float b) path d h) h
  under (str a) (str b) path d h =
      at_value (str a) (str b) path _ d (not_same (str a) (str b) path d h) h
  under (arr xs) (arr ys) path d h = elim (first_some-cases (diff_zip xs ys path 0) _ d h) [
    | inl z ↦
        let (j, x, y, l, r, b) = under_items xs ys path 0 d z in
        at_item xs ys j path x y d l r (
          subst (λ i. Reports x y (path ++ b'/' ∷ decimal i) d)
            (let q : 0 + j ≡ j = omega arith in q) b)
    | inr z ↦ at_length xs ys path d z
  ]
  under (obj fs) (obj gs) path d h =
      let (k, m, at) = some_key (differences fs) fs gs path _ d h in
      elim (under_key fs k (get k gs) (child_path path k) d at) [
        | inl (v, w, l, r, b) ↦ at_field fs gs k path v w d l r b
        | inr (missing, one) ↦
            subst (Reports (obj fs) (obj gs) path) missing
              (at_missing fs gs k path one (key_there fs gs k m))
      ]
  under e a path d h =
      subst (Reports e a path) (some-injective _ _ h) (type_here e a path (not_same e a path d h))

  under_items :
      (xs ys : Items) (path : Str) (index : ℕ) (d : Difference)
      → diff_zip xs ys path index ≡ some d
      → (j : ℕ) × (x : Json) × (y : Json) × (get_item xs j ≡ some x)
        × (get_item ys j ≡ some y)
        × Reports x y (path ++ b'/' ∷ decimal (index + j)) d
  under_items nil ys path index d h = cc
  under_items (item x xs) nil path index d h = cc
  under_items (item x xs) (item y ys) path index d h =
      elim (first_some-cases (first_difference x y (path ++ b'/' ∷ decimal index)) _ d h) [
        | inl z ↦ (
          0,
          x,
          y,
          refl,
          refl,
          subst (λ i. Reports x y (path ++ b'/' ∷ decimal i) d)
              (let q : index ≡ index + 0 = omega arith in q)
              (under x y (path ++ b'/' ∷ decimal index) d z),
        )
        | inr z ↦
            let (j, v, w, l, r, b) = under_items xs ys path (suc index) d z in
            (
              suc j,
              v,
              w,
              l,
              r,
              subst (λ i. Reports v w (path ++ b'/' ∷ decimal i) d)
                  (let q : suc index + j ≡ index + suc j = omega arith in q) b,
            )
      ]

  under_key :
      (fs : Fields) (k : Str) (w : Option Json) (child : Str) (d : Difference)
      → diff_at (find k (differences fs)) (get k fs) w child ≡ some d
      → AtKey fs k w child d
  under_key end k w child d h = inr (some-injective _ _ h, inl refl)
  under_key (field j v fs) k w child d h = elim (Bool-cases (eq_name k j)) [
    | inl e ↦ elim (Option-cases w) [
      | inl x ↦ rw (e, x) (inr (some-injective _ _ (rw (e, x) at h), inr refl))
      | inr (a, x) ↦ rw (e, x) (inl (v, a, refl, refl, under v a child d (rw (e, x) at h)))
    ]
    | inr e ↦ rw e (under_key fs k w child d (rw e at h))
  ]

-- Where `first_difference` reports a difference of two documents, `_parse_tokens` reads its path, of
-- any keys and indices, as tokens that lead in both documents to what the difference shows: two values
-- that are not the same, a value and a missing one, or two arrays of the different lengths.
pub first_difference-Shows :
    (expected actual : Json) (d : Difference)
    → first_difference expected actual [] ≡ some d
    → (tokens : List Str) × (parse_tokens (place d) ≡ ok tokens)
      × Shows d (descend expected tokens) (descend actual tokens)
first_difference-Shows expected actual d h =
    let b = under expected actual [] d h in
    (b.tokens, ap parse_tokens b.goes_on ∙ parse_tokens-path_of b.tokens, b.shown)
