-- ===== src/Actions/Verdict.antt =====
-- What `compare_action_steps` calls equal.
use llm_vs_zombies.Base.{
  ℕ, suc, ◌≡◌, ◌↔◌, refl, true, List, [], ◌∷◌, Option, if◌then◌else◌, ◌==◌, ==→eq, ==-refl, ap,
  length, not, Bool-cases, Option-cases, arith, inl, inr, Result, ok, ◌>>=◌, >>=-eq-ok,
}
use llm_vs_zombies.Json.{Json, Fields}
use llm_vs_zombies.Json.Same.{same}
use llm_vs_zombies.Json.Difference.{first_difference}
use llm_vs_zombies.Json.Difference.Agreement.{first_difference-none_iff}
use llm_vs_zombies.Actions.{
  ActionError, method_of, equal_methods, normalize_step, Comparison, action_count, action_method,
  action_or_result, all_equal, compare_from, compare_action_steps, on_difference,
}

-- Both steps have a request, their methods are equal, and they are the same once normalized.
pub record Alike (left right : Fields) : Type 0 where
  pub left_method : Option Json
  pub right_method : Option Json
  pub left_has : method_of left ≡ ok left_method
  pub right_has : method_of right ≡ ok right_method
  pub methods : equal_methods left_method right_method ≡ true
  pub steps : same (normalize_step left) (normalize_step right) ≡ true

abbrev pub AllAlike : List Fields → List Fields → Type 0
AllAlike [] [] = Unit
AllAlike (l ∷ ls) (r ∷ rs) = Alike l r × AllAlike ls rs
AllAlike _ _ = ⊥

module _ (left right : Fields) (index : ℕ) (rest : Result ActionError Comparison) where
  abbrev compared : Option Json → Option Json → Result ActionError Comparison
  compared l r =
      if not (equal_methods l r)
      then ok (action_method index l r)
      else on_difference (first_difference (normalize_step left) (normalize_step right) []) index
          rest

  Alike-of_compared :
      (l r : Option Json) (n : ℕ)
      → method_of left ≡ ok l
      → method_of right ≡ ok r
      → compared l r ≡ ok (all_equal n)
      → Alike left right × (rest ≡ ok (all_equal n))
  Alike-of_compared l r n hl hr h = elim (Bool-cases (equal_methods l r)) [
    | inr e ↦ cc (let bad : ok (action_method index l r) ≡ ok (all_equal n) = rw e at h in bad)
    | inl e ↦
        elim (Option-cases (first_difference (normalize_step left) (normalize_step right) [])) [
          | inr (d, f) ↦
              cc
                (let bad : ok (action_or_result index d) ≡ ok (all_equal n) = rw (e, f) at h in bad)
          | inl f ↦ (
            record {
              left_method = l;
              right_method = r;
              left_has = hl;
              right_has = hr;
              methods = e;
              steps = (first_difference-none_iff _ _ []).0 f;
            },
            rw (e, f) at h,
          )
        ]
  ]

compare_from-Alike :
    (total index n : ℕ) (ls rs : List Fields)
    → length ls ≡ length rs
    → compare_from total index ls rs ≡ ok (all_equal n)
    → AllAlike ls rs
unfolding compare_from
compare_from-Alike total index n [] [] e h = tt
compare_from-Alike total index n [] (r ∷ rs) e h = absurd (omega arith)
compare_from-Alike total index n (l ∷ ls) [] e h = absurd (omega arith)
compare_from-Alike total index n (l ∷ ls) (r ∷ rs) e h =
    let (ml, hl, h') = >>=-eq-ok (method_of l) _ h in
    let (mr, hr, h'') = >>=-eq-ok (method_of r) _ h' in
    let (alike, rest) =
      Alike-of_compared l r index (compare_from total (suc index) ls rs) ml mr n hl hr h'' in
    (alike, compare_from-Alike total (suc index) n ls rs (omega arith) rest)

compare_from-all_equal :
    (total index : ℕ) (ls rs : List Fields)
    → AllAlike ls rs
    → compare_from total index ls rs ≡ ok (all_equal total)
unfolding compare_from ◌>>=◌
compare_from-all_equal total index [] [] a = refl
compare_from-all_equal total index [] (r ∷ rs) a = elim a [ ]
compare_from-all_equal total index (l ∷ ls) [] a = elim a [ ]
compare_from-all_equal total index (l ∷ ls) (r ∷ rs) (a, as') =
    rw (a.left_has, a.right_has, a.methods, (first_difference-none_iff _ _ []).1 a.steps)
      (compare_from-all_equal total (suc index) ls rs as')

length-AllAlike : (ls rs : List Fields) → AllAlike ls rs → length ls ≡ length rs
length-AllAlike [] [] a = refl
length-AllAlike [] (r ∷ rs) a = elim a [ ]
length-AllAlike (l ∷ ls) [] a = elim a [ ]
length-AllAlike (l ∷ ls) (r ∷ rs) (_, a) = ap suc (length-AllAlike ls rs a)

-- `compare_action_steps` answers that `n` steps are equal exactly if there are `n` steps on each side
-- and any two at the same place have a request, equal methods, and the same content once normalized.
pub compare_action_steps_iff :
    (ls rs : List Fields) (n : ℕ)
    → (compare_action_steps ls rs ≡ ok (all_equal n)) ↔ ((n ≡ length ls) × AllAlike ls rs)
unfolding compare_action_steps
compare_action_steps_iff ls rs n = (to, from)
  where
    to : compare_action_steps ls rs ≡ ok (all_equal n) → (n ≡ length ls) × AllAlike ls rs
    to h = elim (Bool-cases (length ls == length rs)) [
      | inl e ↦
          let run : compare_from (length ls) 0 ls rs ≡ ok (all_equal n) = rw e at h in
          let alike = compare_from-Alike (length ls) 0 n ls rs (==→eq _ _ e) run in
          (cc (compare_from-all_equal (length ls) 0 ls rs alike), alike)
      | inr e ↦ cc (
          let bad : ok (action_count (length ls) (length rs)) ≡ ok (all_equal n) = rw e at h in bad)
    ]

    from : (n ≡ length ls) × AllAlike ls rs → compare_action_steps ls rs ≡ ok (all_equal n)
    from (e, alike) =
        rw (e, length-AllAlike ls rs alike, ==-refl (length rs))
          (rw (← length-AllAlike ls rs alike) (compare_from-all_equal (length ls) 0 ls rs alike))
