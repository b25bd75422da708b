-- ===== src/Base/Deciding.antt =====
-- Boolean tests that decide equality, for products, lists and options and along injections.
use mathlib.Core.Path.{◌≡◌, refl, ap, ◌∙◌}
use mathlib.Core.Bool.{Bool, true, false, ◌&&◌}
use mathlib.Core.List.{List, [], ◌∷◌}
use mathlib.Core.Option.{Option, none, some}
use llm_vs_zombies.Base.Tests.{◌==◌, ==→eq, ==-refl, and-eq_true}
use llm_vs_zombies.Base.Int.{eqb_ℤ, eqb_ℤ→eq, eqb_ℤ-refl}

pub record Decides {ℓ} {A : Type ℓ} (eq : A → A → Bool) : Type ℓ where
  pub sound : (x y : A) → eq x y ≡ true → x ≡ y
  pub reflexive : (x : A) → eq x x ≡ true

abbrev pub eq_bool : Bool → Bool → Bool
eq_bool true true = true
eq_bool false false = true
eq_bool _ _ = false

pub eq_bool-Decides : Decides eq_bool
eq_bool-Decides = record { sound = λ x y h. sound x y h; reflexive = reflexive }
  where
    sound : (x y : Bool) → eq_bool x y ≡ true → x ≡ y
    sound true true h = refl
    sound true false h = cc
    sound false true h = cc
    sound false false h = refl

    reflexive : (x : Bool) → eq_bool x x ≡ true
    reflexive true = refl
    reflexive false = refl

pub eq_nat-Decides : Decides ◌==◌
eq_nat-Decides = record { sound = ==→eq; reflexive = ==-refl }

pub eqb_ℤ-Decides : Decides eqb_ℤ
eqb_ℤ-Decides = record { sound = eqb_ℤ→eq; reflexive = eqb_ℤ-refl }

abbrev pub eq_pair : {A B : Type 0} → (A → A → Bool) → (B → B → Bool) → A × B → A × B → Bool
eq_pair p q x y = p x.0 y.0 && q x.1 y.1

module _ {A B : Type 0} (p : A → A → Bool) (q : B → B → Bool) (dp : Decides p)
    (dq : Decides q) where
  pub eq_pair-Decides : Decides (eq_pair p q)
  eq_pair-Decides = record {
    sound = λ x y h.
        let (l, r) = and-eq_true (p x.0 y.0) (q x.1 y.1) h in
        let e = dp.sound x.0 y.0 l in let f = dq.sound x.1 y.1 r in λ i. (e i, f i);
    reflexive = λ x. rw (dp.reflexive x.0) (dq.reflexive x.1);
  }

abbrev pub eq_list : {A : Type 0} → (A → A → Bool) → List A → List A → Bool
eq_list p [] [] = true
eq_list p (x ∷ xs) (y ∷ ys) = p x y && eq_list p xs ys
eq_list p _ _ = false

abbrev pub eq_option : {A : Type 0} → (A → A → Bool) → Option A → Option A → Bool
eq_option p none none = true
eq_option p (some x) (some y) = p x y
eq_option p _ _ = false

abbrev pub eq_along : {A B : Type 0} → (A → B) → (B → B → Bool) → A → A → Bool
eq_along f p x y = p (f x) (f y)

module _ {A : Type 0} (p : A → A → Bool) (d : Decides p) where
  pub eq_list-Decides : Decides (eq_list p)
  eq_list-Decides = record { sound = sound; reflexive = reflexive }
    where
      sound : (xs ys : List A) → eq_list p xs ys ≡ true → xs ≡ ys
      sound [] [] h = refl
      sound [] (y ∷ ys) h = cc
      sound (x ∷ xs) [] h = cc
      sound (x ∷ xs) (y ∷ ys) h =
          let (l, r) = and-eq_true (p x y) (eq_list p xs ys) h in
          ap (λ z. z ∷ xs) (d.sound x y l) ∙ ap (λ zs. y ∷ zs) (sound xs ys r)

      reflexive : (xs : List A) → eq_list p xs xs ≡ true
      reflexive [] = refl
      reflexive (x ∷ xs) = rw (d.reflexive x) (reflexive xs)

  pub eq_option-Decides : Decides (eq_option p)
  eq_option-Decides = record { sound = sound; reflexive = reflexive }
    where
      sound : (x y : Option A) → eq_option p x y ≡ true → x ≡ y
      sound none none h = refl
      sound none (some y) h = cc
      sound (some x) none h = cc
      sound (some x) (some y) h = ap some (d.sound x y h)

      reflexive : (x : Option A) → eq_option p x x ≡ true
      reflexive none = refl
      reflexive (some a) = d.reflexive a

module _ {A B : Type 0} (f : A → B) (injective : (x y : A) → f x ≡ f y → x ≡ y) (p : B → B → Bool)
    (d : Decides p) where
  pub eq_along-Decides : Decides (eq_along f p)
  eq_along-Decides = record {
    sound = λ x y h. injective x y (d.sound (f x) (f y) h);
    reflexive = λ x. d.reflexive (f x);
  }
