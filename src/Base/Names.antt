-- ===== src/Base/Names.antt =====
-- Python's `str` as the list of its code points: equality, order, decimal numerals, and dictionaries
-- with such keys.
pub mod Sets
use Prim.Native.Nat.{ℕ, zero, suc, ◌+◌, ◌/◌, ◌%◌}
use mathlib.Core.Path.{◌≡◌, refl}
use mathlib.Core.Logic.{◌↔◌}
use mathlib.Core.Bool.{Bool, true, false, ◌&&◌}
use mathlib.Core.List.{List, [], ◌∷◌, ◌++◌}
use mathlib.Core.Option.{Option, none, some}
use native.Mathlib.Omega.{arith}
use llm_vs_zombies.Base.Tests.{ltb, ◌==◌, if◌then◌else◌}
use llm_vs_zombies.Base.Deciding.{eq_list, eq_list-Decides, eq_nat-Decides}

abbrev pub Str : Type 0
Str = List ℕ

abbrev pub eq_name : Str → Str → Bool
eq_name = eq_list ◌==◌

pub eq_name→eq : (a b : Str) → eq_name a b ≡ true → a ≡ b
eq_name→eq = (eq_list-Decides ◌==◌ eq_nat-Decides).sound

pub eq_name_refl : (a : Str) → eq_name a a ≡ true
eq_name_refl = (eq_list-Decides ◌==◌ eq_nat-Decides).reflexive

-- `a < b` on texts
abbrev pub lt_name : Str → Str → Bool
lt_name [] [] = false
lt_name [] (y ∷ ys) = true
lt_name (x ∷ xs) [] = false
lt_name (x ∷ xs) (y ∷ ys) = if x == y then lt_name xs ys else ltb x y

-- One key more in a sorted list without duplicates.
unfoldable pub insert_name : Str → List Str → List Str
insert_name k [] = k ∷ []
insert_name k (j ∷ ks) =
    if eq_name k j then j ∷ ks else if lt_name k j then k ∷ j ∷ ks else j ∷ insert_name k ks

-- `sorted(set(names))`
unfoldable pub sorted_set : List Str → List Str
sorted_set [] = []
sorted_set (k ∷ ks) = insert_name k (sorted_set ks)

module _ {ℓ} {V : Type ℓ} where
  -- `d.get(k)`
  abbrev pub find : Str → List (Str × V) → Option V
  find k [] = none
  find k ((j, v) ∷ d) = if eq_name k j then some v else find k d

-- `str(n)`: every round divides by ten, so `n + 1` rounds are enough.
unfoldable pub digits : ℕ → ℕ → Str → Str
digits zero n out = out
digits (suc fuel) n out =
    let shown = (b'0' + n % 10) ∷ out in
    let rest = digits fuel (n / 10) shown in if n / 10 == 0 then shown else rest

unfoldable pub decimal : ℕ → Str
unfolding digits
decimal n = digits (suc n) n []

-- `text.replace(c, by)` for one character `c`
unfoldable pub replace : ℕ → Str → Str → Str
replace c by [] = []
replace c by (x ∷ xs) = (if x == c then by else x ∷ []) ++ replace c by xs

-- `text.replace(ab, c)` for two characters `a` and `b`
unfoldable pub replace_pair : ℕ → ℕ → ℕ → Str → Str
replace_pair a b c [] = []
replace_pair a b c (x ∷ []) = x ∷ []
replace_pair a b c (x ∷ y ∷ xs) =
    let found = c ∷ replace_pair a b c xs in
    let on = x ∷ replace_pair a b c (y ∷ xs) in if x == a && y == b then found else on

pub eq_name_iff : (a b : Str) → (eq_name a b ≡ true) ↔ (a ≡ b)
eq_name_iff a b = (eq_name→eq a b, λ e. rw e (eq_name_refl b))
