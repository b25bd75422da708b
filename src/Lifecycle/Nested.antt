-- ===== src/Lifecycle/Nested.antt =====
-- The walk over the exits of a forest of calls.
use mathlib.Core.List.{append_assoc}
use llm_vs_zombies.Base.{
  ℕ, zero, suc, ◌+◌, ◌-◌, ◌≤◌, ◌<◌, ◌≡◌, refl, ap, ◌∙◌, Bool, true, false, List, [], ◌∷◌, ◌++◌,
  if◌then◌else◌, ==-refl, ltb, leb, length, arith, pos, eqb_ℤ-refl,
}
use llm_vs_zombies.Json.{int}
use llm_vs_zombies.Json.Equal.{equal}
use llm_vs_zombies.Lifecycle.{
  max_invocation_depth, Problem, Invocation, push_range, expected_parent, depth_problem,
  parent_problem, walk,
}

-- The calls of a session: a first call with the calls within it, and the calls after it.
pub data Forest : Type 0 where
  nothing : Forest
  call : Forest → Forest → Forest

unfoldable pub size : Forest → ℕ
size nothing = 0
size (call within after) = suc (size within + size after)

abbrev pub larger : ℕ → ℕ → ℕ
larger a b = if leb a b then b else a

unfoldable pub height : Forest → ℕ
height nothing = 0
height (call within after) = larger (suc (height within)) (height after)

-- The record that a call writes at its exit: calls are numbered at their entry, and the ancestors are
-- the calls that are open around it, the innermost first. Its line and its other fields do not matter.
abbrev pub exit_of : ℕ → List ℕ → Invocation
exit_of n ancestors = record {
  index = n;
  invocation_id = n;
  depth = int (pos (length ancestors));
  parent = expected_parent ancestors;
}

-- What the calls of a forest write, from the number `n` on.
unfoldable pub exits : List ℕ → ℕ → Forest → List Invocation
exits ancestors n nothing = []
exits ancestors n (call within after) =
    exits (n ∷ ancestors) (n + 1) within
    ++ exit_of n ancestors ∷ exits ancestors (n + 1 + size within) after

push_range-suc :
    (m k : ℕ) (stack : List ℕ) → push_range m (suc k) stack ≡ (m + k) ∷ push_range m k stack
unfolding push_range
push_range-suc m zero stack = ap (λ x. x ∷ stack) (omega arith)
push_range-suc m (suc k) stack =
    push_range-suc (suc m) k (m ∷ stack)
    ∙ ap (λ x. x ∷ push_range (suc m) k (m ∷ stack)) (omega arith)

push_range-next :
    (n m : ℕ) (stack ancestors : List ℕ)
    → m ≤ n
    → push_range m (n - m) stack ≡ ancestors
    → push_range m (n + 1 - m) stack ≡ n ∷ ancestors
push_range-next n m stack ancestors h e =
    ap (λ k. push_range m k stack) (let q : n + 1 - m ≡ suc (n - m) = omega arith in q)
    ∙ push_range-suc m (n - m) stack
    ∙ ap (λ x. x ∷ push_range m (n - m) stack) (let q : m + (n - m) ≡ n = omega arith in q)
    ∙ ap (λ r. n ∷ r) e

length-push_range : (m k : ℕ) (stack : List ℕ) → length (push_range m k stack) ≡ k + length stack
unfolding push_range
length-push_range m zero stack = omega arith
length-push_range m (suc k) stack = omega (arith, length-push_range (suc m) k (m ∷ stack))

own_depth : (n : ℕ) (ancestors : List ℕ) → depth_problem (exit_of n ancestors) ancestors ≡ []
unfolding equal
own_depth n ancestors = rw (eqb_ℤ-refl (pos (length ancestors))) refl

own_parent : (n : ℕ) (ancestors : List ℕ) → parent_problem (exit_of n ancestors) ancestors ≡ []
unfolding equal
own_parent n [] = refl
own_parent n (top ∷ ancestors) = rw (eqb_ℤ-refl (pos top)) refl

-- The exit of the call on top of the stack, whose entry is known.
walk-top :
    (strict : Bool) (n next : ℕ) (ancestors : List ℕ) (vs : List Invocation)
    → n < next
    → walk strict (exit_of n ancestors ∷ vs) (n ∷ ancestors) next ≡ walk strict vs ancestors next
unfolding walk
walk-top strict n next ancestors vs h =
    let seen : leb next n ≡ false = ground arith in
    rw (seen, walk, seen, ==-refl n, own_depth n ancestors, own_parent n ancestors) refl

-- The exit of a call that no exit has shown yet, with those around it that no exit has shown.
walk-entering :
    (strict : Bool) (n m : ℕ) (stack ancestors : List ℕ) (vs : List Invocation)
    → m ≤ n
    → push_range m (n - m) stack ≡ ancestors
    → length ancestors < max_invocation_depth
    → walk strict (exit_of n ancestors ∷ vs) stack m ≡ walk strict vs ancestors (n + 1)
unfolding walk
walk-entering strict n m stack ancestors vs h e bound =
    let entered : leb m n ≡ true = ground arith in
    let fits : ltb max_invocation_depth (length stack + n - m + 1) ≡ false =
      ground (arith, length-push_range m (n - m) stack, ap length e) in
    let top = push_range-next n m stack ancestors h e in
    rw (entered, fits, walk, top, entered, ==-refl n, own_depth n ancestors, own_parent n ancestors)
      refl

-- After the exits of a forest, the walk stands where the forest ends.
abbrev pub after_forest : Bool → Forest → ℕ → List ℕ → List ℕ → ℕ → List Invocation → List Problem
after_forest strict nothing n stack ancestors m vs = walk strict vs stack m
after_forest strict (call within after) n stack ancestors m vs =
    walk strict vs ancestors (n + size (call within after))

pub push_range-none : (n : ℕ) (stack : List ℕ) → push_range n (n - n) stack ≡ stack
unfolding push_range
push_range-none n stack = ap (λ k. push_range n k stack) (let q : n - n ≡ 0 = omega arith in q)

own-exit :
    (strict : Bool) (within : Forest) (n m : ℕ) (stack ancestors : List ℕ) (rest : List Invocation)
    → m ≤ n
    → push_range m (n - m) stack ≡ ancestors
    → length ancestors < max_invocation_depth
    → after_forest strict within (n + 1) stack (n ∷ ancestors) m (exit_of n ancestors ∷ rest)
      ≡ walk strict rest ancestors (n + 1 + size within)
unfolding size
own-exit strict nothing n m stack ancestors rest h e bound =
    walk-entering strict n m stack ancestors rest h e bound
    ∙ ap (walk strict rest ancestors) (let q : n + 1 ≡ n + 1 + 0 = omega arith in q)
own-exit strict (call a b) n m stack ancestors rest h e bound =
    walk-top strict n (n + 1 + size (call a b)) ancestors rest (omega arith)

same_end :
    (strict : Bool) (within after : Forest) (n : ℕ) (ancestors : List ℕ) (vs : List Invocation)
    → after_forest strict after (n + 1 + size within) ancestors ancestors (n + 1 + size within) vs
      ≡ walk strict vs ancestors (n + size (call within after))
unfolding size
same_end strict within nothing n ancestors vs =
    ap (walk strict vs ancestors)
      (let q : n + 1 + size within ≡ n + suc (size within + 0) = omega arith in q)
same_end strict within (call a b) n ancestors vs = ap (walk strict vs ancestors) (
    let q : n + 1 + size within + suc (size a + size b)
        ≡ n + suc (size within + suc (size a + size b)) =
      omega arith in
    q)

pub walk-exits :
    (strict : Bool) (f : Forest) (n m : ℕ) (stack ancestors : List ℕ) (vs : List Invocation)
    → m ≤ n
    → push_range m (n - m) stack ≡ ancestors
    → length ancestors + height f ≤ max_invocation_depth
    → walk strict (exits ancestors n f ++ vs) stack m ≡ after_forest strict f n stack ancestors m vs
unfolding exits size height
walk-exits strict nothing n m stack ancestors vs h e bound = refl
walk-exits strict (call within after) n m stack ancestors vs h e bound =
    let rest = exits ancestors (n + 1 + size within) after ++ vs in
    let deeper = push_range-next n m stack ancestors h e in
    let inner =
      walk-exits strict within (n + 1) m stack (n ∷ ancestors) (exit_of n ancestors ∷ rest)
        (omega arith) deeper (ground arith) in
    let outer =
      walk-exits strict after (n + 1 + size within) (n + 1 + size within) ancestors ancestors vs
        (omega arith) (push_range-none (n + 1 + size within) ancestors) (ground arith) in
    ap (λ l. walk strict l stack m) (append_assoc (exits (n ∷ ancestors) (n + 1) within) _ vs)
    ∙ inner
    ∙ own-exit strict within n m stack ancestors rest h e (ground arith)
    ∙ outer
    ∙ same_end strict within after n ancestors vs
