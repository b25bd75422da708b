-- ===== src/Json/Difference/Agreement.antt =====
-- `first_difference` against `same`.
use llm_vs_zombies.Base.{
  ℕ, suc, ◌≡◌, ◌↔◌, inl, inr, refl, Bool, true, false, List, [], ◌∷◌, ◌++◌, Option, none, some,
  ◌==◌, all, In, not-In-nil, In-all, all_of_In, In-append, In-append_left, In-append_right,
  Bool-cases, arith, Str, eq_name, eq_name→eq, eq_name_refl, find, sorted_set, decimal, is_some,
  and-eq_true,
}
use llm_vs_zombies.Base.Names.Sets.{In-sorted_set, In-of_sorted_set}
use llm_vs_zombies.Json.{
  Json, null, bool, int, float, str, arr, obj, Items, nil, item, Fields, end, field, count, get,
  keys, has,
}
use llm_vs_zombies.Json.Same.{same, same_zip, same_at, tests, eq_keys}
use llm_vs_zombies.Json.Difference.{
  Difference, first_difference, diff_zip, diff_keys, diff_at, differences, first_some, child_path,
  different, array_length,
}

pub has_of_In : (fs : Fields) (k : Str) → In k (keys fs) → has k fs ≡ true
has_of_In end k m = not-In-nil k m
has_of_In (field j v fs) k (inl e) = rw (e, eq_name_refl) refl
has_of_In (field j v fs) k (inr m) = ground (arith, has_of_In fs k m)

pub In-of_has : (fs : Fields) (k : Str) → has k fs ≡ true → In k (keys fs)
In-of_has end k h = cc
In-of_has (field j v fs) k h = elim (Bool-cases (eq_name k j)) [
  | inl e ↦ inl (eq_name→eq k j e)
  | inr e ↦ inr (In-of_has fs k (ground arith))
]

-- What `same` found at a key shows that both dictionaries have it.
has_of_same_at :
    (fs : Fields) (k : Str) (w : Option Json)
    → same_at (find k (tests fs)) w ≡ true
    → (has k fs ≡ true) × (is_some w ≡ true)
unfolding same
has_of_same_at end k w h = cc
has_of_same_at (field j v fs) k none h = ground (arith, has_of_same_at fs k none)
has_of_same_at (field j v fs) k (some w) h = ground (arith, has_of_same_at fs k (some w))

module _ (diffs : List (Str × (Json → Str → Option Difference))) (fs gs : Fields) (path : Str) where
  abbrev at_key : Str → Option Difference
  at_key k = diff_at (find k diffs) (get k fs) (get k gs) (child_path path k)

  none_at :
      (ks : List Str) (k : Str) → diff_keys diffs fs gs path ks ≡ none → In k ks → at_key k ≡ none
  unfolding diff_keys
  none_at [] k h m = not-In-nil k m
  none_at (j ∷ ks) k h (inl e) = rw e (ground arith)
  none_at (j ∷ ks) k h (inr m) = none_at ks k (ground arith) m

  diff_keys-none :
      (ks : List Str)
      → ((k : Str) → In k ks → at_key k ≡ none)
      → diff_keys diffs fs gs path ks ≡ none
  unfolding diff_keys
  diff_keys-none [] h = refl
  diff_keys-none (j ∷ ks) h = rw (h j (inl refl)) (diff_keys-none ks (λ k m. h k (inr m)))

first_some-none : (d e : Option Difference) → first_some d e ≡ none → (d ≡ none) × (e ≡ none)
first_some-none none e h = (refl, h)
first_some-none (some d) e h = cc

-- Objects agree once each expected value does.
module _ (fs gs : Fields) (path : Str)
    (agree_at : (k : Str) (l w : Option Json) (child : Str)
      → (diff_at (find k (differences fs)) l w child ≡ none)
        ↔ (same_at (find k (tests fs)) w ≡ true)) where
  same_of_none : first_difference (obj fs) (obj gs) path ≡ none → same (obj fs) (obj gs) ≡ true
  unfolding first_difference same
  same_of_none h =
      let at = λ (k : Str) (m : In k (keys fs ++ keys gs)).
        (agree_at k (get k fs) (get k gs) (child_path path k)).0 (
          none_at (differences fs) fs gs path (sorted_set (keys fs ++ keys gs)) k h
            (In-sorted_set (keys fs ++ keys gs) k m)) in
      let left = λ (k : Str) (m : In k (keys fs)). at k (In-append_left (keys fs) (keys gs) k m) in
      let right =
        λ (k : Str) (m : In k (keys gs)). at k (In-append_right (keys fs) (keys gs) k m) in
      rw
        (
          all_of_In (λ k. has k gs) (keys fs)
              (λ k m. (has_of_same_at fs k (get k gs) (left k m)).1),
          all_of_In (λ k. has k fs) (keys gs)
              (λ k m. (has_of_same_at fs k (get k gs) (right k m)).0),
          all_of_In (λ k. same_at (find k (tests fs)) (get k gs)) (keys fs) left,
        )
        refl

  none_of_same : same (obj fs) (obj gs) ≡ true → first_difference (obj fs) (obj gs) path ≡ none
  unfolding first_difference same
  none_of_same h =
      let (both, equal) = and-eq_true (eq_keys fs gs) _ h in
      let (_, right) = and-eq_true (all (λ k. has k gs) (keys fs)) _ both in
      let left = λ (k : Str) (m : In k (keys fs)).
        In-all (λ k. same_at (find k (tests fs)) (get k gs)) (keys fs) k equal m in
      diff_keys-none (differences fs) fs gs path (sorted_set (keys fs ++ keys gs)) λ k m.
        (agree_at k (get k fs) (get k gs) (child_path path k)).1
          (elim (In-append (keys fs) (keys gs) k (In-of_sorted_set (keys fs ++ keys gs) k m)) [
            | inl l ↦ left k l
            | inr r ↦ left k (In-of_has fs k (In-all (λ k. has k fs) (keys gs) k right r))
          ])

at_value :
    (v : Json)
    → ((w : Json) (child : Str) → (first_difference v w child ≡ none) ↔ (same v w ≡ true))
    → (l w : Option Json) (child : Str)
    → (diff_at (some (first_difference v)) l w child ≡ none) ↔ (same_at (some (same v)) w ≡ true)
at_value v both l none child = (λ h. cc, λ h. cc)
at_value v both l (some w) child = both w child

different-none : (b : Bool) (d : Difference) → (different b d ≡ none) ↔ (b ≡ true)
different-none true d = (λ h. refl, λ h. refl)
different-none false d = (λ h. cc, λ h. cc)

at_array :
    (xs ys : Items) (path : Str)
    → (diff_zip xs ys path 0 ≡ none) ↔ (same_zip xs ys ≡ true)
    → (first_difference (arr xs) (arr ys) path ≡ none) ↔ (same (arr xs) (arr ys) ≡ true)
unfolding first_difference same
at_array xs ys path both =
    let length = different-none (count xs == count ys) (array_length path (count xs) (count ys)) in
    (
      λ h.
          let (a, b) = first_some-none (diff_zip xs ys path 0) _ h in
          rw (length.0 b, both.0 a) refl,
      λ h.
          let (a, b) = and-eq_true (count xs == count ys) (same_zip xs ys) h in
          rw (both.1 b, a) refl,
    )

mutual
  unfolding first_difference same

  agree : (e a : Json) (path : Str) → (first_difference e a path ≡ none) ↔ (same e a ≡ true)
  agree (arr xs) (arr ys) path = at_array xs ys path (agree_zip xs ys path 0)
  agree (obj fs) (obj gs) path =
      (same_of_none fs gs path (agree_at fs), none_of_same fs gs path (agree_at fs))
  agree null null path = ground arith
  agree (bool a) (bool b) path = ground arith
  agree (int a) (int b) path = ground arith
  agree (float a) (float b) path = ground arith
  agree (str a) (str b) path = ground arith
  agree _ _ path = (λ h. cc, λ h. cc)

  agree_zip :
      (xs ys : Items) (path : Str) (index : ℕ)
      → (diff_zip xs ys path index ≡ none) ↔ (same_zip xs ys ≡ true)
  agree_zip nil ys path index = (λ h. refl, λ h. refl)
  agree_zip (item x xs) nil path index = (λ h. refl, λ h. refl)
  agree_zip (item x xs) (item y ys) path index =
      let head = agree x y (path ++ b'/' ∷ decimal index) in
      let rest = agree_zip xs ys path (suc index) in
      (
        λ h. let (a, b) = first_some-none _ _ h in rw (head.0 a, rest.0 b) refl,
        λ h. let (a, b) = and-eq_true _ _ h in rw (head.1 a, rest.1 b) refl,
      )

  agree_at :
      (fs : Fields) (k : Str) (l w : Option Json) (child : Str)
      → (diff_at (find k (differences fs)) l w child ≡ none)
        ↔ (same_at (find k (tests fs)) w ≡ true)
  agree_at end k l w child = (λ h. cc, λ h. cc)
  agree_at (field j v fs) k l w child = elim (Bool-cases (eq_name k j)) [
    | inl e ↦ rw e (at_value v (agree v) l w child)
    | inr e ↦ rw e (agree_at fs k l w child)
  ]

-- `first_difference` finds no difference between two values exactly where `same` holds of them,
-- whatever the path it starts at.
pub first_difference-none_iff :
    (e a : Json) (path : Str) → (first_difference e a path ≡ none) ↔ (same e a ≡ true)
first_difference-none_iff = agree
