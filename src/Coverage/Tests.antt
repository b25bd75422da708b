-- ===== src/Coverage/Tests.antt =====
-- The leaves and the patterns of coverage at concrete inputs.
use llm_vs_zombies.Base.{
  ◌≡◌, ◌↔◌, refl, inl, inr, true, List, [], ◌∷◌, some, In, Str, codes, pos, ok,
}
use llm_vs_zombies.Json.{Json, null, int, arr, obj, nil, item, end, field}
use llm_vs_zombies.Json.Pointer.RoundTrip.{path_of}
use llm_vs_zombies.Coverage.{leaves, covers_leaf, type_at, segments, descend}
use llm_vs_zombies.Coverage.Found.{is_leaf, type_at-leaves}
use llm_vs_zombies.Coverage.Agreeing.{Agree, covers_leaf_iff}
use llm_vs_zombies.Base.{decimal, insert_name, replace, replace_pair, sorted_set, ◌>>=◌}
use llm_vs_zombies.Json.Difference.{child_path, first_difference, Difference, of_type, diff_keys}
use llm_vs_zombies.Json.Pointer.{parse_tokens}
use llm_vs_zombies.Coverage.Placed.{place, Shows}
use llm_vs_zombies.Coverage.Reported.{first_difference-Shows}

abbrev state : Json
state = obj (
    field (codes "zombies") (arr (item (int (pos 5)) (item (obj end) nil)))
      (field (codes "a/b") null end))

state-leaves : leaves state [] ≡ codes "/a~1b" ∷ codes "/zombies/0" ∷ codes "/zombies/1" ∷ []
unfolding leaves sorted_set insert_name child_path replace decimal
state-leaves = refl

second_leaf : In (codes "/zombies/1") (leaves state [])
unfolding leaves sorted_set insert_name child_path replace decimal
second_leaf = inr (inr (inl refl))

null_structure : covers_leaf (codes "/challenge") (codes "/challenge/completed_rounds") ≡ ok true
unfolding covers_leaf ◌>>=◌ replace_pair
null_structure = refl

type_at-leaves_example :
    (tokens : List Str) × (v : Json) × (segments (codes "/zombies/1") ≡ ok tokens)
    × (descend state tokens ≡ some v)
    × (type_at state (codes "/zombies/1") ≡ ok v)
    × (is_leaf v ≡ true)
type_at-leaves_example = type_at-leaves state (codes "/zombies/1") second_leaf

covers_leaf_iff_example :
    (covers_leaf
        (path_of [] (codes "zombies" ∷ codes "7" ∷ codes "row" ∷ []))
        (path_of [] (codes "zombies" ∷ codes "*" ∷ []))
      ≡ ok true)
    ↔ Agree (codes "zombies" ∷ codes "*" ∷ []) (codes "zombies" ∷ codes "7" ∷ codes "row" ∷ [])
covers_leaf_iff_example =
    covers_leaf_iff (codes "zombies" ∷ codes "7" ∷ codes "row" ∷ [])
      (codes "zombies" ∷ codes "*" ∷ [])

abbrev later_state : Json
later_state =
    obj (field (codes "a/b") (arr (item null (item (obj end) nil))) (field (codes "sun") null end))

abbrev earlier_state : Json
earlier_state =
    obj (field (codes "sun") null (field (codes "a/b") (arr (item null (item null nil))) end))

abbrev at_second : Difference
at_second = of_type (codes "/a~1b/1") null (obj end)

differs : first_difference earlier_state later_state [] ≡ some at_second
unfolding first_difference diff_keys sorted_set insert_name child_path replace decimal
differs = refl

first_difference-Shows_example :
    (tokens : List Str) × (parse_tokens (place at_second) ≡ ok tokens)
    × Shows at_second (descend earlier_state tokens) (descend later_state tokens)
first_difference-Shows_example = first_difference-Shows earlier_state later_state at_second differs
