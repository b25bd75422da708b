-- ===== src/Coverage/Agreeing.antt =====
-- Which leaves a pattern accounts for.
use llm_vs_zombies.Base.{
  ℕ, ◌≡◌, ◌↔◌, refl, Bool, true, ◌&&◌, ◌||◌, List, [], ◌∷◌, if◌then◌else◌, leb, ltb, length,
  Bool-cases, inl, inr, arith, Str, eq_name, eq_name→eq, eq_name_refl, codes, ok, ◌>>=◌,
  ok-injective, and-eq_true, Result, ap, sym, ◌∙◌,
}
use llm_vs_zombies.Json.Pointer.RoundTrip.{path_of}
use llm_vs_zombies.Coverage.{CoverageError, agree, matches, covers_leaf}
use llm_vs_zombies.Coverage.Found.{segments-path_of}

abbrev pub star : Str
star = codes "*"

-- The keys of a pattern and of a pointer agree as far as both go, where a star agrees with any key.
pub data Agree : List Str → List Str → Type 0 where
  pattern_ends : {actual : List Str} → Agree [] actual
  pointer_ends : {wanted : List Str} → Agree wanted []
  any_key :
      {key : Str} {wanted actual : List Str}
      → Agree wanted actual
      → Agree (star ∷ wanted) (key ∷ actual)
  same_key :
      {key : Str} {wanted actual : List Str}
      → Agree wanted actual
      → Agree (key ∷ wanted) (key ∷ actual)

covers_leaf-agree :
    (actual wanted : List Str)
    → covers_leaf (path_of [] actual) (path_of [] wanted) ≡ ok (agree wanted actual)
unfolding covers_leaf matches ◌>>=◌
covers_leaf-agree actual wanted =
    rw (segments-path_of wanted, segments-path_of actual)
      (settle (length wanted) (length actual) (agree wanted actual))
  where
    settle :
        (w a : ℕ) (b : Bool)
        → ◌≡◌ {A = Result CoverageError Bool}
            (ok (if leb w a && b then true else ltb a w && b))
            (ok b)
    settle w a b =
        ap ok (let q : (if leb w a && b then true else ltb a w && b) ≡ b = ground arith in q)

agree-Agree : (wanted actual : List Str) → agree wanted actual ≡ true → Agree wanted actual
agree-Agree [] actual h = pattern_ends
agree-Agree (w ∷ ws) [] h = pointer_ends
agree-Agree (w ∷ ws) (a ∷ as') h =
    let (first, rest) = and-eq_true (eq_name w star || eq_name w a) _ h in
    let on = agree-Agree ws as' rest in
    elim (Bool-cases (eq_name w star)) [
      | inl e ↦ rw (eq_name→eq w star e) (any_key on)
      | inr e ↦ rw (eq_name→eq w a (ground (arith, first))) (same_key on)
    ]

Agree-agree : (wanted actual : List Str) → Agree wanted actual → agree wanted actual ≡ true
Agree-agree _ _ pattern_ends = refl
Agree-agree [] _ pointer_ends = refl
Agree-agree (w ∷ ws) _ pointer_ends = refl
Agree-agree _ _ (any_key {key} {wanted} {actual} h) = Agree-agree wanted actual h
Agree-agree _ _ (same_key {key} {wanted} {actual} h) =
    rw (eq_name_refl key, Agree-agree wanted actual h) (ground arith)

-- `covers_leaf` holds of a pointer and a pattern that are written from keys exactly if the keys agree as
-- far as both go, whichever is longer, where a star of the pattern agrees with any key.
pub covers_leaf_iff :
    (actual wanted : List Str)
    → (covers_leaf (path_of [] actual) (path_of [] wanted) ≡ ok true) ↔ Agree wanted actual
covers_leaf_iff actual wanted = (
  λ h. agree-Agree wanted actual (ok-injective (sym (covers_leaf-agree actual wanted) ∙ h)),
  λ h. covers_leaf-agree actual wanted ∙ ap ok (Agree-agree wanted actual h),
)
