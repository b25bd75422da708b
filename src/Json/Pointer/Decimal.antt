-- ===== src/Json/Pointer/Decimal.antt =====
-- The decimal numerals of indices, their digits and the paths of items.
use llm_vs_zombies.Base.{
  ℕ, zero, suc, ◌+◌, ◌/◌, ◌%◌, ◌<◌, ◌≡◌, refl, ap, ◌∙◌, true, false, [], ◌∷◌, ◌++◌, ◌==◌, all,
  Bool-cases, inl, inr, arith, Str, decimal, digits, replace, codes, and-eq_true, subst,
}
use llm_vs_zombies.Json.Pointer.{is_digit, number_from}
use llm_vs_zombies.Json.Difference.{child_path}

number_from-digits :
    (fuel n : ℕ) (out : Str) → n < fuel → number_from 0 (digits fuel n out) ≡ number_from n out
unfolding digits number_from
number_from-digits zero n out h = absurd (omega arith)
number_from-digits (suc fuel) n out h = elim (Bool-cases (n / 10 == 0)) [
  | inl e ↦ rw e (ap (λ m. number_from m out) (ground arith))
  | inr e ↦ rw e (
      number_from-digits fuel (n / 10) ((b'0' + n % 10) ∷ out) (ground arith)
      ∙ ap (λ m. number_from m out) (omega arith))
]

pub number_from-decimal : (n : ℕ) → number_from 0 (decimal n) ≡ n
unfolding decimal number_from
number_from-decimal n = number_from-digits (suc n) n [] (omega arith)

digit : (n : ℕ) → is_digit (b'0' + n % 10) ≡ true
digit n = ground arith

all-digits :
    (fuel n : ℕ) (out : Str) → all is_digit out ≡ true → all is_digit (digits fuel n out) ≡ true
unfolding digits
all-digits zero n out h = h
all-digits (suc fuel) n out h = elim (Bool-cases (n / 10 == 0)) [
  | inl e ↦ rw (e, digit n) h
  | inr e ↦ rw e (all-digits fuel (n / 10) ((b'0' + n % 10) ∷ out) (rw (digit n) h))
]

digits-nonempty :
    (fuel n c : ℕ) (out : Str) → (d : ℕ) × (ds : Str) × (digits fuel n (c ∷ out) ≡ d ∷ ds)
unfolding digits
digits-nonempty zero n c out = (c, out, refl)
digits-nonempty (suc fuel) n c out = elim (Bool-cases (n / 10 == 0)) [
  | inl e ↦ rw e (b'0' + n % 10, c ∷ out, refl)
  | inr e ↦ rw e (digits-nonempty fuel (n / 10) (b'0' + n % 10) (c ∷ out))
]

decimal_cons : (n : ℕ) → (d : ℕ) × (ds : Str) × (decimal n ≡ d ∷ ds)
unfolding decimal digits
decimal_cons n = elim (Bool-cases (n / 10 == 0)) [
  | inl e ↦ rw e (b'0' + n % 10, [], refl)
  | inr e ↦ rw e (digits-nonempty n (n / 10) (b'0' + n % 10) [])
]

decimal-all-digits : (n : ℕ) → all is_digit (decimal n) ≡ true
unfolding decimal
decimal-all-digits n = all-digits (suc n) n [] refl

pub decimal-digits :
    (n : ℕ) → (d : ℕ) × (ds : Str) × (decimal n ≡ d ∷ ds) × (all is_digit (d ∷ ds) ≡ true)
decimal-digits n =
    let (d, ds, e) = decimal_cons n in
    (d, ds, e, subst (λ t. all is_digit t ≡ true) e (decimal-all-digits n))

replace-digits :
    (c : ℕ) (by text : Str)
    → is_digit c ≡ false
    → all is_digit text ≡ true
    → replace c by text ≡ text
unfolding replace
replace-digits c by [] n h = refl
replace-digits c by (x ∷ xs) n h =
    let (first, rest) = and-eq_true (is_digit x) _ h in
    let other : (x == c) ≡ false = ground arith in rw (other, replace-digits c by xs n rest) refl

-- An item's path is that of a key that is its index.
pub child_path-decimal :
    (path : Str) (n : ℕ) → child_path path (decimal n) ≡ path ++ b'/' ∷ decimal n
unfolding child_path
child_path-decimal path n =
    let (d, ds, e, digits) = decimal-digits n in
    rw
      (
        e,
        replace-digits b'~' (codes "~0") (d ∷ ds) refl digits,
        replace-digits b'/' (codes "~1") (d ∷ ds) refl digits,
      )
      refl
