-- ===== src/Json/Patch/Undo.antt =====
-- An addition and the removal at the same path.
use llm_vs_zombies.Base.{
  ℕ, zero, suc, ◌≤◌, ◌<◌, ◌≡◌, refl, ap, true, false, List, [], ◌∷◌, Option, none, some, arith, Str,
  eq_name, eq_name_refl, codes, ok, err, ◌>>=◌, >>=-eq-ok, ok-injective, on_some,
}
use llm_vs_zombies.Json.{
  Json, null, bool, int, float, str, arr, obj, Items, nil, item, Fields, end, field, count, get,
  put, pop, get_item, set_item, insert_item, delete_item,
}
use llm_vs_zombies.Json.Pointer.{PatchError, index_of}
use llm_vs_zombies.Json.Patch.{add, remove, apply, apply_at, step_into, put_back}

module _ (k : Str) where
  get-put : (v : Json) (fs : Fields) → get k (put k v fs) ≡ some v
  unfolding put
  get-put v end = rw eq_name_refl refl
  get-put v (field j w fs) = ground (arith, get-put v fs)

  pop-put : (v : Json) (fs : Fields) → get k fs ≡ none → pop k (put k v fs) ≡ fs
  unfolding put pop
  pop-put v end h = rw eq_name_refl refl
  pop-put v (field j w fs) h = ground (arith, pop-put v fs)

  put-put : (c d : Json) (fs : Fields) → get k fs ≡ some c → put k c (put k d fs) ≡ fs
  unfolding put
  put-put c d end h = cc
  put-put c d (field j w fs) h = ground (arith, put-put c d fs)

count-insert_item : (xs : Items) (i : ℕ) (v : Json) → count (insert_item xs i v) ≡ suc (count xs)
unfolding insert_item
count-insert_item nil zero v = refl
count-insert_item (item x xs) zero v = refl
count-insert_item nil (suc i) v = refl
count-insert_item (item x xs) (suc i) v = ap suc (count-insert_item xs i v)

delete_item-insert_item :
    (xs : Items) (i : ℕ) (v : Json) → i ≤ count xs → delete_item (insert_item xs i v) i ≡ xs
unfolding insert_item delete_item
delete_item-insert_item nil zero v h = refl
delete_item-insert_item (item x xs) zero v h = refl
delete_item-insert_item nil (suc i) v h = absurd (omega arith)
delete_item-insert_item (item x xs) (suc i) v h =
    ap (item x) (delete_item-insert_item xs i v (omega arith))

count-set_item : (xs : Items) (i : ℕ) (v : Json) → count (set_item xs i v) ≡ count xs
unfolding set_item
count-set_item nil i v = refl
count-set_item (item x xs) zero v = refl
count-set_item (item x xs) (suc i) v = ap suc (count-set_item xs i v)

get_item-set_item :
    (xs : Items) (i : ℕ) (v : Json) → i < count xs → get_item (set_item xs i v) i ≡ some v
unfolding set_item
get_item-set_item nil i v h = absurd (omega arith)
get_item-set_item (item x xs) zero v h = refl
get_item-set_item (item x xs) (suc i) v h = get_item-set_item xs i v (omega arith)

set_item-set_item :
    (xs : Items) (i : ℕ) (c d : Json) → get_item xs i ≡ some c → set_item (set_item xs i d) i c ≡ xs
unfolding set_item
set_item-set_item nil i c d h = cc
set_item-set_item (item x xs) zero c d h = cc
set_item-set_item (item x xs) (suc i) c d h = ap (item x) (set_item-set_item xs i c d h)

-- An index below the count, which the same token names in any list that is as long.
index_of-same :
    (xs ys : Items) (token : Str) (i : ℕ)
    → index_of xs token false ≡ ok i
    → count ys ≡ count xs
    → (index_of ys token false ≡ ok i) × (i < count xs)
unfolding index_of
index_of-same xs ys token i h e = ground arith

-- An index to insert at, other than `-`, names an item once the list is longer by one.
index_of-longer :
    (xs ys : Items) (token : Str) (i : ℕ)
    → index_of xs token true ≡ ok i
    → eq_name token (codes "-") ≡ false
    → count ys ≡ suc (count xs)
    → (index_of ys token false ≡ ok i) × (i ≤ count xs)
unfolding index_of
index_of-longer xs ys token i h n e = ground arith

on_some-eq_ok :
    {A : Type 0} (o : Option A) (e : PatchError) (c : A) → on_some o (err e) ok ≡ ok c → o ≡ some c
unfolding on_some
on_some-eq_ok none e c h = cc
on_some-eq_ok (some a) e c h = cc

-- One step of the path: what was put back is found again, and the old child can be put back.
put_back_lem :
    (document : Json) (token : Str) (child changed after : Json)
    → step_into document token ≡ ok child
    → put_back document token changed ≡ ok after
    → (step_into after token ≡ ok changed) × (put_back after token child ≡ ok document)
unfolding step_into put_back ◌>>=◌ on_some
put_back_lem (obj fs) token child changed after h p =
    let found = on_some-eq_ok (get token fs) _ child h in
    let e = ok-injective p in
    rw (← e) (
      rw (get-put token changed fs, on_some) refl,
      ap (λ gs. ok (obj gs)) (put-put token child changed fs found),
    )
put_back_lem (arr xs) token child changed after h p =
    let (i, named, h') = >>=-eq-ok (index_of xs token false) _ h in
    let found = on_some-eq_ok (get_item xs i) _ child h' in
    let e =
      ok-injective
        (let q : ok (arr (set_item xs i changed)) ≡ ok after = rw (named, ◌>>=◌) at p in q) in
    let (again, below) =
      index_of-same xs (set_item xs i changed) token i named (count-set_item xs i changed) in
    rw (← e) (
      rw (again, ◌>>=◌, get_item-set_item xs i changed below, on_some) refl,
      rw (again, ◌>>=◌) (ap (λ ys. ok (arr ys)) (set_item-set_item xs i child changed found)),
    )
put_back_lem null token child changed after h p = cc
put_back_lem (bool _) token child changed after h p = cc
put_back_lem (int _) token child changed after h p = cc
put_back_lem (float _) token child changed after h p = cc
put_back_lem (str _) token child changed after h p = cc

-- The last token is new to the parent: no key of the object, or an index of the array.
abbrev pub IsNewAt : Str → Json → Type 0
IsNewAt token (obj fs) = get token fs ≡ none
IsNewAt token (arr xs) = eq_name token (codes "-") ≡ false
IsNewAt token _ = Unit

-- The same at the end of a path.
abbrev pub IsNew : List Str → Json → Type 0
IsNew [] document = ⊥
IsNew (token ∷ []) document = IsNewAt token document
IsNew (token ∷ next ∷ tokens) document =
    (child : Json) → step_into document token ≡ ok child → IsNew (next ∷ tokens) child

remove-add_at :
    (token : Str) (v document after : Json)
    → apply_at (add v) token document ≡ ok after
    → IsNewAt token document
    → apply_at remove token after ≡ ok document
unfolding apply_at ◌>>=◌
remove-add_at token v (obj fs) after h new =
    let e = ok-injective h in
    rw (← e, get-put token v fs) (ap (λ gs. ok (obj gs)) (pop-put token v fs new))
remove-add_at token v (arr xs) after h new =
    let (i, named, h') = >>=-eq-ok (index_of xs token true) _ h in
    let e = ok-injective h' in
    let (again, below) =
      index_of-longer xs (insert_item xs i v) token i named new (count-insert_item xs i v) in
    rw (← e) (rw (again, ◌>>=◌) (ap (λ ys. ok (arr ys)) (delete_item-insert_item xs i v below)))
remove-add_at token v null after h new = cc
remove-add_at token v (bool _) after h new = cc
remove-add_at token v (int _) after h new = cc
remove-add_at token v (float _) after h new = cc
remove-add_at token v (str _) after h new = cc

-- If an addition applies, at a path whose last token is no key of its object and not the `-` of an
-- array, then the removal at that path applies to the result and gives the document back.
pub apply-remove-add :
    (tokens : List Str) (v document after : Json)
    → apply (add v) tokens document ≡ ok after
    → IsNew tokens document
    → apply remove tokens after ≡ ok document
unfolding apply ◌>>=◌
apply-remove-add [] v document after h new = elim new [ ]
apply-remove-add (token ∷ []) v document after h new = remove-add_at token v document after h new
apply-remove-add (token ∷ next ∷ tokens) v document after h new =
    let (child, into, h') = >>=-eq-ok (step_into document token) _ h in
    let (changed, applied, back) = >>=-eq-ok (apply (add v) (next ∷ tokens) child) _ h' in
    let (found, put) = put_back_lem document token child changed after into back in
    rw (found, ◌>>=◌, apply-remove-add (next ∷ tokens) v child changed applied (new child into)) put
