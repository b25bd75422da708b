-- ===== src/Audio/Coverage.antt =====
-- `union_frames` of virtual_audio.py counts each covered frame once.
use llm_vs_zombies.Base.{
  ℕ, zero, suc, ◌+◌, ◌-◌, ◌<◌, ◌≤◌, ◌≡◌, refl, sym, ap, ◌∙◌, Bool, true, false, ◌&&◌, ◌||◌, Option,
  none, some, List, [], ◌∷◌, ltb, leb, any, All, arith, Bool-cases, inl, inr, ltb→ge, leb→le,
}
use llm_vs_zombies.Audio.Intervals.{union_from}

abbrev pub bit : Bool → ℕ
bit true = 1
bit false = 0

-- how many of the first `n` numbers a test accepts
abbrev pub count : ℕ → (ℕ → Bool) → ℕ
count zero p = 0
count (suc n) p = count n p + bit (p n)

-- a frame of one of the intervals
abbrev pub within : ℕ → ℕ × ℕ → Bool
within n i = leb i.0 n && ltb n i.1

abbrev pub covered : List (ℕ × ℕ) → ℕ → Bool
covered intervals n = any (within n) intervals

count-add :
    (n : ℕ) (p q r : ℕ → Bool)
    → ((k : ℕ) → k < n → bit (p k) ≡ bit (q k) + bit (r k))
    → count n p ≡ count n q + count n r
count-add zero p q r h = refl
count-add (suc n) p q r h =
    let now = h n (omega arith) in
    let before = count-add n p q r (λ k l. h k (omega (arith, l))) in omega (arith, now, before)

pub count_congr : (n : ℕ) (p q : ℕ → Bool) → ((k : ℕ) → k < n → p k ≡ q k) → count n p ≡ count n q
count_congr zero p q h = refl
count_congr (suc n) p q h =
    let now = h n (omega arith) in
    let before = count_congr n p q (λ k l. h k (omega (arith, l))) in
    omega (arith, ap bit now, before)

count-none : (n : ℕ) (p : ℕ → Bool) → ((k : ℕ) → p k ≡ false) → count n p ≡ 0
count-none zero p h = refl
count-none (suc n) p h = rw (h n) (omega (arith, count-none n p h))

count-from : (n a : ℕ) → count n (leb a) ≡ n - a
count-from zero a = omega arith
count-from (suc n) a = ground (arith, count-from n a)

count-within : (n a b : ℕ) → a ≤ b → b ≤ n → count n (λ k. within k (a, b)) ≡ b - a
count-within zero a b l h = omega (arith, l, h)
count-within (suc n) a b l h = elim (Bool-cases (leb b n)) [
  | inl e ↦
      let rest = count-within n a b l (leb→le _ _ e) in
      let outside : within n (a, b) ≡ false = ground (arith, e) in rw outside (omega (arith, rest))
  | inr e ↦
      count_congr (suc n) _ (leb a) (λ k m. ground (arith, e, h, m))
      ∙ (count-from (suc n) a ∙ ap (λ x. x - a) (ground (arith, e, h)))
]

-- the end of what is counted already
abbrev reached : Option ℕ → ℕ
reached none = 0
reached (some r) = r

abbrev pub IsSorted : List (ℕ × ℕ) → Type 0
IsSorted [] = Unit
IsSorted (x ∷ xs) = All (λ i. x.0 ≤ i.0) xs × IsSorted xs

covered-early : (a k : ℕ) (xs : List (ℕ × ℕ)) → All (λ i. a ≤ i.0) xs → k < a → covered xs k ≡ false
covered-early a k [] h l = refl
covered-early a k (x ∷ xs) h l = ground (arith, h.0, covered-early a k xs h.1 l, l)

module _ (r a b k : ℕ) (c : Bool) where
  -- one frame's share, by where the new interval stands
  share-empty : b ≤ a → (leb r k && c) ≡ (leb r k && (within k (a, b) || c))
  share-empty l = ground (arith, l)

  share-inside : b ≤ r → (leb r k && c) ≡ (leb r k && (within k (a, b) || c))
  share-inside l = ground (arith, l)

  share-past :
      a < b
      → r ≤ a
      → (k < a → c ≡ false)
      → bit (leb r k && (within k (a, b) || c)) ≡ bit (within k (a, b)) + bit (leb b k && c)
  share-past l m h = ground (arith, l, m, h)

  share-grown :
      a ≤ r
      → r < b
      → bit (leb r k && (within k (a, b) || c)) ≡ bit (within k (r, b)) + bit (leb b k && c)
  share-grown l m = ground (arith, l, m)

pub union_from-count :
    (n : ℕ) (current : Option ℕ) (intervals : List (ℕ × ℕ))
    → IsSorted intervals
    → All (λ i. i.1 ≤ n) intervals
    → union_from current intervals ≡ count n (λ k. leb (reached current) k && covered intervals k)
unfolding union_from
union_from-count n current [] s h = sym (
    count-none n _
      (λ k. elim (Bool-cases (leb (reached current) k)) [ inl e ↦ rw e refl | inr e ↦ rw e refl ]))
union_from-count n none ((a, b) ∷ intervals) s h = elim (Bool-cases (leb b a)) [
  | inl e ↦
      rw (union_from, e)
        (union_from-count n none intervals s.1 h.1
          ∙ count_congr n _ _ (λ k m. share-empty 0 a b k _ (leb→le _ _ e)))
  | inr e ↦
      let within_now = count-within n a b (ground (arith, e)) h.0 in
      let after = union_from-count n (some b) intervals s.1 h.1 in
      let shares =
        count-add n (λ k. leb 0 k && covered ((a, b) ∷ intervals) k) (λ k. within k (a, b))
          (λ k. leb b k && covered intervals k)
          (λ k m.
            share-past 0 a b k (covered intervals k) (ground (arith, e)) (omega arith)
              (covered-early a k intervals s.0)) in
      rw (union_from, e) (omega (arith, within_now, after, shares))
]
union_from-count n (some r) ((a, b) ∷ intervals) s h = elim (Bool-cases (leb b a)) [
  | inl e ↦
      rw (union_from, e)
        (union_from-count n (some r) intervals s.1 h.1
          ∙ count_congr n _ _ (λ k m. share-empty r a b k _ (leb→le _ _ e)))
  | inr e ↦ elim (Bool-cases (ltb r a)) [
    | inl p ↦
        let within_now = count-within n a b (ground (arith, e)) h.0 in
        let after = union_from-count n (some b) intervals s.1 h.1 in
        let shares =
          count-add n (λ k. leb r k && covered ((a, b) ∷ intervals) k) (λ k. within k (a, b))
            (λ k. leb b k && covered intervals k)
            (λ k m.
              share-past r a b k (covered intervals k) (ground (arith, e)) (ground (arith, p))
                (covered-early a k intervals s.0)) in
        rw (union_from, e, p) (omega (arith, within_now, after, shares))
    | inr p ↦ elim (Bool-cases (ltb r b)) [
      | inl g ↦
          let within_now = count-within n r b (ground (arith, g)) h.0 in
          let after = union_from-count n (some b) intervals s.1 h.1 in
          let shares =
            count-add n (λ k. leb r k && covered ((a, b) ∷ intervals) k) (λ k. within k (r, b))
              (λ k. leb b k && covered intervals k)
              (λ k m.
                share-grown r a b k (covered intervals k) (ltb→ge _ _ p) (ground (arith, g))) in
          rw (union_from, e, p, g) (omega (arith, within_now, after, shares))
      | inr g ↦
          rw (union_from, e, p, g)
            (union_from-count n (some r) intervals s.1 h.1
              ∙ count_congr n _ _ (λ k m. share-inside r a b k _ (ltb→ge _ _ g)))
    ]
  ]
]
