-- ===== src/Lifecycle/Increasing.antt =====
-- `_sequence_problems` against increasing sequences.
use llm_vs_zombies.Base.{
  ℕ, suc, ◌≡◌, ◌↔◌, refl, true, List, [], ◌∷◌, ◌++◌, Option, none, some, Option-cases, inl, inr,
  All, Pairwise, arith, ℤ, ltb_ℤ,
}
use llm_vs_zombies.Json.{Json}
use llm_vs_zombies.Lifecycle.{Problem, order_problem, sequence_of, sequence_loop, sequence_problems}

-- The sequence numbers of the records that have one, in their order.
unfoldable pub sequences : List Json → List ℤ
sequences [] = []
sequences (line ∷ lines) = elim (sequence_of line) [
  | none ↦ sequences lines
  | some n ↦ n ∷ sequences lines
]

abbrev pub Before : ℤ → ℤ → Type 0
Before a b = ltb_ℤ a b ≡ true

Before-trans : (a b c : ℤ) → Before a b → Before b c → Before a c
Before-trans a b c h k = ground arith

All-Before : (a b : ℤ) (l : List ℤ) → Before a b → All (Before b) l → All (Before a) l
All-Before a b [] h k = tt
All-Before a b (c ∷ l) h k = (Before-trans a b c h k.0, All-Before a b l h k.1)

abbrev After : Option ℤ → List ℤ → Type 0
After none l = Unit
After (some p) l = All (Before p) l

order-none : (p n : ℤ) (index : ℕ) → order_problem (some p) n index ≡ [] → Before p n
order-none p n index h = ground arith

append-eq_nil : {A : Type 0} (xs ys : List A) → xs ++ ys ≡ [] → (xs ≡ []) × (ys ≡ [])
append-eq_nil [] ys h = (refl, h)
append-eq_nil (x ∷ xs) ys h = cc

loop-increasing :
    (previous : Option ℤ) (index : ℕ) (lines : List Json)
    → sequence_loop previous index lines ≡ []
    → After previous (sequences lines) × Pairwise Before (sequences lines)
unfolding sequence_loop sequences
loop-increasing none index [] h = (tt, tt)
loop-increasing (some p) index [] h = (tt, tt)
loop-increasing previous index (line ∷ lines) h = elim (Option-cases (sequence_of line)) [
  | inl e ↦
      rw (e, sequences) (loop-increasing previous (suc index) lines (rw (e, sequence_loop) at h))
  | inr (n, e) ↦
      let (first, rest) =
        append-eq_nil (order_problem previous n index) (sequence_loop (some n) (suc index) lines)
          (rw (e, sequence_loop) at h) in
      let (above, pairs) = loop-increasing (some n) (suc index) lines rest in
      rw (e, sequences) (placed previous n (sequences lines) index first above, (above, pairs))
]
  where
    placed :
        (previous : Option ℤ) (n : ℤ) (l : List ℤ) (index : ℕ)
        → order_problem previous n index ≡ []
        → All (Before n) l
        → After previous (n ∷ l)
    placed none n l index h above = tt
    placed (some p) n l index h above =
        (order-none p n index h, All-Before p n l (order-none p n index h) above)

increasing-loop :
    (previous : Option ℤ) (index : ℕ) (lines : List Json)
    → After previous (sequences lines)
    → Pairwise Before (sequences lines)
    → sequence_loop previous index lines ≡ []
unfolding sequence_loop sequences
increasing-loop previous index [] after pairs = refl
increasing-loop previous index (line ∷ lines) after pairs = elim (Option-cases (sequence_of line)) [
  | inl e ↦
      rw (e, sequence_loop)
        (increasing-loop previous (suc index) lines (rw (e, sequences) at after)
          (rw (e, sequences) at pairs))
  | inr (n, e) ↦
      rw (e, sequence_loop)
        (joined previous n index (sequences lines) (rw (e, sequences) at after) (
          let p : Pairwise Before (n ∷ sequences lines) = rw (e, sequences) at pairs in
          increasing-loop (some n) (suc index) lines p.0 p.1))
]
  where
    joined :
        (previous : Option ℤ) (n : ℤ) (index : ℕ) (l : List ℤ) {rest : List Problem}
        → After previous (n ∷ l)
        → rest ≡ []
        → order_problem previous n index ++ rest ≡ []
    joined none n index l h e = e
    joined (some p) n index l h e = rw (h.0, e) refl

-- `_sequence_problems` reports nothing exactly if of any two records that have a sequence number, the
-- earlier has the smaller one.
pub sequence_problems_iff :
    (lines : List Json) → (sequence_problems lines ≡ []) ↔ Pairwise Before (sequences lines)
unfolding sequence_problems
sequence_problems_iff lines =
    (λ h. (loop-increasing none 0 lines h).1, λ h. increasing-loop none 0 lines tt h)
