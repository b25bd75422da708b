-- ===== src/Coverage/Found.antt =====
-- The leaves that `leaves` names and the values that their pointers lead to.
use llm_vs_zombies.Base.{
  ℕ, suc, ◌+◌, ◌≡◌, refl, sym, ap, subst, ◌∙◌, Bool, true, false, List, [], ◌∷◌, ◌++◌, some, inl,
  inr, In, not-In-nil, In-append, Bool-cases, arith, Str, eq_name, find, decimal, ok, ◌>>=◌,
}
use llm_vs_zombies.Json.{
  Json, null, bool, int, float, str, arr, obj, Items, nil, item, Fields, end, field, get, get_item,
}
use llm_vs_zombies.Json.Difference.{child_path}
use llm_vs_zombies.Json.Pointer.RoundTrip.{path_of, parts-path_of}
use llm_vs_zombies.Json.Pointer.Decimal.{number_from-decimal, decimal-digits, child_path-decimal}
use llm_vs_zombies.Coverage.{
  leaves, leaves_at, leaves_keys, leaves_items, leaves_below, segments, descend, type_at,
  is_decimal,
}

-- Nothing lies below the value.
abbrev pub is_leaf : Json → Bool
is_leaf (obj (field _ _ _)) = false
is_leaf (arr (item _ _)) = false
is_leaf _ = true

-- The pointer goes on from the path of `v` to a leaf below it.
pub record Below (v : Json) (path p : Str) : Type 0 where
  pub tokens : List Str
  pub leaf : Json
  pub goes_on : p ≡ path_of path tokens
  pub found : descend v tokens ≡ some leaf
  pub last : is_leaf leaf ≡ true

here : (v : Json) (path p : Str) → is_leaf v ≡ true → In p (path ∷ []) → Below v path p
unfolding descend
here v path p l (inl e) = record { tokens = []; leaf = v; goes_on = e; found = refl; last = l }
here v path p l (inr m) = not-In-nil p m

at_field :
    (fs : Fields) (k path p : Str) (v : Json)
    → get k fs ≡ some v
    → Below v (child_path path k) p
    → Below (obj fs) path p
unfolding descend
at_field fs k path p v h b = record {
  tokens = k ∷ b.tokens;
  leaf = b.leaf;
  goes_on = b.goes_on;
  found = rw (h, descend) b.found;
  last = b.last;
}

pub is_decimal-decimal : (n : ℕ) → is_decimal (decimal n) ≡ true
is_decimal-decimal n = let (d, ds, e, digits) = decimal-digits n in rw e digits

at_item :
    (xs : Items) (i : ℕ) (path p : Str) (v : Json)
    → get_item xs i ≡ some v
    → Below v (path ++ b'/' ∷ decimal i) p
    → Below (arr xs) path p
unfolding descend
at_item xs i path p v h b = record {
  tokens = decimal i ∷ b.tokens;
  leaf = b.leaf;
  goes_on = b.goes_on ∙ ap (λ q. path_of q b.tokens) (sym (child_path-decimal path i));
  found = rw (descend, is_decimal-decimal i, number_from-decimal i, h) b.found;
  last = b.last;
}

-- A leaf of the loop over keys is one at some key.
some_key :
    (below : List (Str × (Str → List Str))) (path p : Str) (ks : List Str)
    → In p (leaves_keys below path ks)
    → (k : Str) × In p (leaves_at (find k below) (child_path path k))
unfolding leaves_keys
some_key below path p [] m = not-In-nil p m
some_key below path p (k ∷ ks) m =
    elim (In-append (leaves_at (find k below) (child_path path k)) (leaves_keys below path ks) p
      m) [ inl l ↦ (k, l) | inr r ↦ some_key below path p ks r ]

mutual
  unfolding leaves

  under : (v : Json) (path p : Str) → In p (leaves v path) → Below v path p
  under (obj end) path p m = here (obj end) path p refl m
  under (arr nil) path p m = here (arr nil) path p refl m
  under null path p m = here null path p refl m
  under (bool b) path p m = here (bool b) path p refl m
  under (int n) path p m = here (int n) path p refl m
  under (float n) path p m = here (float n) path p refl m
  under (str s) path p m = here (str s) path p refl m
  under (obj (field k v fs)) path p m =
      let (key, at) = some_key (leaves_below (field k v fs)) path p _ m in
      let (w, h, b) = under_key (field k v fs) key (child_path path key) p at in
      at_field (field k v fs) key path p w h b
  under (arr (item x xs)) path p m =
      let (j, w, h, b) = under_items (item x xs) path p 0 m in
      at_item (item x xs) j path p w h
        (subst (λ i. Below w (path ++ b'/' ∷ decimal i) p) (let q : 0 + j ≡ j = omega arith in q) b)

  under_items :
      (xs : Items) (path p : Str) (index : ℕ)
      → In p (leaves_items xs path index)
      → (j : ℕ) × (v : Json) × (get_item xs j ≡ some v)
        × Below v (path ++ b'/' ∷ decimal (index + j)) p
  under_items nil path p index m = not-In-nil p m
  under_items (item x xs) path p index m =
      elim (In-append (leaves x (path ++ b'/' ∷ decimal index)) (leaves_items xs path (suc index)) p
        m) [
          | inl l ↦ (
            0,
            x,
            refl,
            subst (λ i. Below x (path ++ b'/' ∷ decimal i) p)
                (let q : index ≡ index + 0 = omega arith in q)
                (under x (path ++ b'/' ∷ decimal index) p l),
          )
          | inr r ↦
              let (j, v, h, b) = under_items xs path p (suc index) r in
              (
                suc j,
                v,
                h,
                subst (λ i. Below v (path ++ b'/' ∷ decimal i) p)
                    (let q : suc index + j ≡ index + suc j = omega arith in q) b,
              )
        ]

  under_key :
      (fs : Fields) (k child p : Str)
      → In p (leaves_at (find k (leaves_below fs)) child)
      → (v : Json) × (get k fs ≡ some v) × Below v child p
  under_key end k child p m = not-In-nil p m
  under_key (field j v fs) k child p m = elim (Bool-cases (eq_name k j)) [
    | inl e ↦ (v, rw e refl, under v child p (rw e at m))
    | inr e ↦ let (w, h, b) = under_key fs k child p (rw e at m) in (w, rw e h, b)
  ]

pub segments-path_of : (ks : List Str) → segments (path_of [] ks) ≡ ok ks
unfolding segments
segments-path_of [] = refl
segments-path_of (k ∷ ks) =
    let (rest, e, parts) = parts-path_of k ks in rw (e, segments) (ap ok parts)

-- Every pointer that `leaves` names in a document splits into the tokens of a value that the document
-- holds with nothing below it, and `_type_at` returns this value for the pointer.
pub type_at-leaves :
    (document : Json) (p : Str)
    → In p (leaves document [])
    → (tokens : List Str) × (v : Json) × (segments p ≡ ok tokens)
      × (descend document tokens ≡ some v)
      × (type_at document p ≡ ok v)
      × (is_leaf v ≡ true)
unfolding type_at ◌>>=◌
type_at-leaves document p m =
    let b = under document [] p m in
    let read : segments p ≡ ok b.tokens = rw b.goes_on (segments-path_of b.tokens) in
    (b.tokens, b.leaf, read, b.found, rw (read, b.found) refl, b.last)
