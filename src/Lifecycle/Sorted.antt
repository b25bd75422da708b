-- ===== src/Lifecycle/Sorted.antt =====
-- The identifiers of a forest of calls, and all checks of its exits.
use mathlib.Core.List.{append_assoc, append-nil}
use llm_vs_zombies.Base.{
  ℕ, zero, suc, ◌+◌, ◌≤◌, ◌≡◌, refl, sym, ap, ◌∙◌, Bool, true, List, [], ◌∷◌, ◌++◌, ◌==◌, length,
  length-append, All, All-append, arith,
}
use llm_vs_zombies.Base.Deciding.{eq_list, eq_list-Decides, eq_nat-Decides}
use llm_vs_zombies.Lifecycle.{
  max_invocation_depth, Invocation, insert_id, sort_ids, range_from, ids, walk, nesting_of,
}
use llm_vs_zombies.Lifecycle.Nested.{
  Forest, nothing, call, size, height, exits, exit_of, walk-exits, push_range-none,
}

insert_all : List ℕ → List ℕ → List ℕ
insert_all [] l = l
insert_all (i ∷ is) l = insert_id i (insert_all is l)

insert_all-append : (xs ys l : List ℕ) → insert_all (xs ++ ys) l ≡ insert_all xs (insert_all ys l)
unfolding insert_all
insert_all-append [] ys l = refl
insert_all-append (x ∷ xs) ys l = ap (insert_id x) (insert_all-append xs ys l)

sort_ids-insert_all : (xs : List ℕ) → sort_ids xs ≡ insert_all xs []
unfolding insert_all sort_ids
sort_ids-insert_all [] = refl
sort_ids-insert_all (x ∷ xs) = ap (insert_id x) (sort_ids-insert_all xs)

ids-append : (vs ws : List Invocation) → ids (vs ++ ws) ≡ ids vs ++ ids ws
ids-append [] ws = refl
ids-append (v ∷ vs) ws = ap (λ l. v.invocation_id ∷ l) (ids-append vs ws)

insert_id-first : (i : ℕ) (l : List ℕ) → All (λ x. i ≤ x) l → insert_id i l ≡ i ∷ l
unfolding insert_id
insert_id-first i [] h = refl
insert_id-first i (x ∷ l) h = ground arith

insert_all-after :
    (n : ℕ) (xs l : List ℕ) → All (λ x. n + 1 ≤ x) xs → insert_all xs (n ∷ l) ≡ n ∷ insert_all xs l
unfolding insert_all insert_id
insert_all-after n [] l h = refl
insert_all-after n (x ∷ xs) l h = rw (insert_all-after n xs l h.1) (ground (arith, h.0))

range_from-All : (b n k : ℕ) → b ≤ n → All (λ x. b ≤ x) (range_from n k)
unfolding range_from
range_from-All b n zero h = tt
range_from-All b n (suc k) h = (h, range_from-All b (suc n) k (omega arith))

range_from-append :
    (n a b c : ℕ) → c ≡ n + a → range_from n a ++ range_from c b ≡ range_from n (a + b)
unfolding range_from
range_from-append n zero b c e =
    ap (λ f. range_from f b) (let q : c ≡ n = omega arith in q)
    ∙ ap (range_from n) (let q : b ≡ 0 + b = omega arith in q)
range_from-append n (suc a) b c e =
    ap (λ l. n ∷ l) (range_from-append (suc n) a b c (omega arith))
    ∙ ap (range_from n) (let q : suc (a + b) ≡ suc a + b = omega arith in q)

exits-All :
    (ancestors : List ℕ) (b n : ℕ) (f : Forest)
    → b ≤ n
    → All (λ x. b ≤ x) (ids (exits ancestors n f))
unfolding exits
exits-All ancestors b n nothing h = tt
exits-All ancestors b n (call within after) h =
    rw (ids-append (exits (n ∷ ancestors) (n + 1) within) _) (
      All-append (λ x. b ≤ x) _ _ (exits-All (n ∷ ancestors) b (n + 1) within (omega arith))
        (h, exits-All ancestors b (n + 1 + size within) after (omega arith)))

All-weaken : (a b : ℕ) (l : List ℕ) → a ≤ b → All (λ x. b ≤ x) l → All (λ x. a ≤ x) l
All-weaken a b [] h k = tt
All-weaken a b (x ∷ l) h k = (omega (arith, k.0), All-weaken a b l h k.1)

insert_all-exits :
    (ancestors : List ℕ) (n : ℕ) (f : Forest) (l : List ℕ)
    → All (λ x. n + size f ≤ x) l
    → insert_all (ids (exits ancestors n f)) l ≡ range_from n (size f) ++ l
unfolding exits size insert_all range_from
insert_all-exits ancestors n nothing l h = refl
insert_all-exits ancestors n (call within after) l h =
    let xs = ids (exits (n ∷ ancestors) (n + 1) within) in
    let ys = ids (exits ancestors (n + 1 + size within) after) in
    let m = range_from (n + 1 + size within) (size after) ++ l in
    let later = insert_all-exits ancestors (n + 1 + size within) after l (
      All-weaken (n + 1 + size within + size after) (n + suc (size within + size after)) l
        (omega arith) h) in
    let above : All (λ x. n + 1 + size within ≤ x) m =
      All-append (λ x. n + 1 + size within ≤ x) (range_from (n + 1 + size within) (size after)) l
        (range_from-All _ (n + 1 + size within) (size after) (omega arith))
        (All-weaken (n + 1 + size within) (n + suc (size within + size after)) l (omega arith) h) in
    let earlier = insert_all-exits (n ∷ ancestors) (n + 1) within m above in
    ap (λ z. insert_all z l) (ids-append (exits (n ∷ ancestors) (n + 1) within) _)
    ∙ insert_all-append xs (n ∷ ys) l
    ∙ ap (λ z. insert_all xs (insert_id n z)) later
    ∙ ap (insert_all xs)
        (insert_id-first n m (All-weaken n (n + 1 + size within) m (omega arith) above))
    ∙ insert_all-after n xs m (exits-All (n ∷ ancestors) (n + 1) (n + 1) within (omega arith))
    ∙ ap (λ z. n ∷ z) earlier
    ∙ ap (λ f. n ∷ (range_from f (size within) ++ m)) (let q : n + 1 ≡ suc n = omega arith in q)
    ∙ ap (λ z. n ∷ z) (sym (append_assoc (range_from (suc n) (size within)) _ l))
    ∙ ap (λ z. n ∷ (z ++ l))
        (range_from-append (suc n) (size within) (size after) (n + 1 + size within) (omega arith))

length-exits : (ancestors : List ℕ) (n : ℕ) (f : Forest) → length (exits ancestors n f) ≡ size f
unfolding exits size
length-exits ancestors n nothing = refl
length-exits ancestors n (call within after) = omega (
  arith,
  length-append (exits (n ∷ ancestors) (n + 1) within)
      (exit_of n ancestors ∷ exits ancestors (n + 1 + size within) after),
  length-exits (n ∷ ancestors) (n + 1) within,
  length-exits ancestors (n + 1 + size within) after,
)

sorted_exits : (f : Forest) → sort_ids (ids (exits [] 1 f)) ≡ range_from 1 (length (exits [] 1 f))
sorted_exits f =
    sort_ids-insert_all (ids (exits [] 1 f))
    ∙ insert_all-exits [] 1 f [] tt
    ∙ append-nil (range_from 1 (size f))
    ∙ ap (range_from 1) (sym (length-exits [] 1 f))

walked :
    (strict : Bool) (f : Forest)
    → height f ≤ max_invocation_depth
    → walk strict (exits [] 1 f) [] 1 ≡ []
unfolding walk size height exits
walked strict nothing h = refl
walked strict (call within after) h =
    ap (λ l. walk strict l [] 1) (sym (append-nil (exits [] 1 (call within after))))
    ∙ walk-exits strict (call within after) 1 1 [] [] [] (omega arith) (push_range-none 1 [])
        (omega arith)

-- The exits of any forest of calls that is at most 32 deep, numbered at their entries from 1 on, have no
-- nesting problem, in a finished stream and in a live prefix that ends with the session's last call.
pub nesting_of-exits :
    (strict : Bool) (f : Forest)
    → height f ≤ max_invocation_depth
    → nesting_of strict (exits [] 1 f) ≡ []
unfolding nesting_of
nesting_of-exits strict f h =
    let contiguous : eq_list ◌==◌ (sort_ids (ids (exits [] 1 f)))
          (range_from 1 (length (exits [] 1 f)))
        ≡ true =
      rw (sorted_exits f)
        ((eq_list-Decides ◌==◌ eq_nat-Decides).reflexive (range_from 1 (length (exits [] 1 f)))) in
    rw (contiguous, walked strict f h) (ground arith)
