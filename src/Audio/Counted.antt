-- ===== src/Audio/Counted.antt =====
-- `union_frames` of virtual_audio.py sorts its intervals first, which changes no frame that is covered.
use llm_vs_zombies.Base.{
  ℕ, ◌≤◌, ◌≡◌, refl, ap, ◌∙◌, Bool, ◌||◌, none, List, [], ◌∷◌, All, arith, Bool-cases, inl, inr,
}
use llm_vs_zombies.Audio.Intervals.{before, place, ordered, union_frames}
use llm_vs_zombies.Audio.Coverage.{count, within, covered, IsSorted, count_congr, union_from-count}

All-place :
    (P : ℕ × ℕ → Type 0) (x : ℕ × ℕ) (ys : List (ℕ × ℕ)) → P x → All P ys → All P (place x ys)
unfolding place
All-place P x [] p h = (p, tt)
All-place P x (y ∷ ys) p h = elim (Bool-cases (before x y)) [
  | inl e ↦ rw e (p, h)
  | inr e ↦ rw e (h.0, All-place P x ys p h.1)
]

All-ordered : (P : ℕ × ℕ → Type 0) (xs : List (ℕ × ℕ)) → All P xs → All P (ordered xs)
unfolding ordered
All-ordered P [] h = tt
All-ordered P (x ∷ xs) h = All-place P x (ordered xs) h.0 (All-ordered P xs h.1)

All-later : (a b : ℕ) (xs : List (ℕ × ℕ)) → a ≤ b → All (λ i. b ≤ i.0) xs → All (λ i. a ≤ i.0) xs
All-later a b [] l h = tt
All-later a b (x ∷ xs) l h = (omega (arith, l, h.0), All-later a b xs l h.1)

place-IsSorted : (x : ℕ × ℕ) (ys : List (ℕ × ℕ)) → IsSorted ys → IsSorted (place x ys)
unfolding place
place-IsSorted x [] h = (tt, tt)
place-IsSorted x (y ∷ ys) h = elim (Bool-cases (before x y)) [
  | inl e ↦
      let first : x.0 ≤ y.0 = ground (arith, e) in rw e ((first, All-later x.0 y.0 ys first h.0), h)
  | inr e ↦ rw e (All-place (λ i. y.0 ≤ i.0) x ys (ground (arith, e)) h.0, place-IsSorted x ys h.1)
]

ordered-IsSorted : (xs : List (ℕ × ℕ)) → IsSorted (ordered xs)
unfolding ordered
ordered-IsSorted [] = tt
ordered-IsSorted (x ∷ xs) = place-IsSorted x (ordered xs) (ordered-IsSorted xs)

covered-place :
    (k : ℕ) (x : ℕ × ℕ) (ys : List (ℕ × ℕ)) → covered (place x ys) k ≡ (within k x || covered ys k)
unfolding place
covered-place k x [] = refl
covered-place k x (y ∷ ys) = elim (Bool-cases (before x y)) [
  | inl e ↦ rw e refl
  | inr e ↦ rw (e, covered-place k x ys) (swapped (within k y) (within k x) (covered ys k))
]
  where
    swapped : (a b c : Bool) → (a || (b || c)) ≡ (b || (a || c))
    swapped a b c = ground arith

covered-ordered : (k : ℕ) (xs : List (ℕ × ℕ)) → covered (ordered xs) k ≡ covered xs k
unfolding ordered
covered-ordered k [] = refl
covered-ordered k (x ∷ xs) =
    covered-place k x (ordered xs) ∙ ap (λ c. within k x || c) (covered-ordered k xs)

-- For intervals that end within the first `n` frames, in any order, overlapping or empty, the answer
-- of `union_frames` is the number of the frames below `n` that lie in one of the intervals.
pub union_frames-count :
    (n : ℕ) (intervals : List (ℕ × ℕ))
    → All (λ i. i.1 ≤ n) intervals
    → union_frames intervals ≡ count n (covered intervals)
unfolding union_frames
union_frames-count n intervals h =
    union_from-count n none (ordered intervals) (ordered-IsSorted intervals)
      (All-ordered (λ i. i.1 ≤ n) intervals h)
    ∙ count_congr n _ _ (λ k m. ground (arith, covered-ordered k intervals))
