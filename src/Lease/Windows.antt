-- ===== src/Lease/Windows.antt =====
-- A journal that `verify_lease_journal` of branch_workers.py passes has disjoint lease windows.
use llm_vs_zombies.Base.{
  ℕ, ◌≤◌, ◌≡◌, refl, sym, ap, subst, ◌∙◌, true, ◌⊎◌, inl, inr, Option, List, [], ◌∷◌, arith, All,
  Pairwise, Bool-cases, ltb, leb, ltb→ge, ok, >>=-eq-ok, ok-injective, and-eq_true,
}
use llm_vs_zombies.Lease.Journal.{
  Entry, Timed, timed_only, place, by_start, overlaps_from, overlaps_of, Report, report_of,
  verify_lease_journal, is_nil,
}

-- a window that ends no earlier than it starts
abbrev pub IsForward : Timed → Type 0
IsForward t = t.start_at ≤ t.end_at

-- one of two windows ends before the other starts
abbrev pub Disjoint : Timed → Timed → Type 0
Disjoint t u = (t.end_at ≤ u.start_at) ⊎ (u.end_at ≤ t.start_at)

Disjoint-sym : (t u : Timed) → Disjoint t u → Disjoint u t
Disjoint-sym t u (inl h) = inr h
Disjoint-sym t u (inr h) = inl h

module _ (P : Timed → Type 0) where
  All-place : (t : Timed) (us : List Timed) → P t → All P us → All P (place t us)
  unfolding place
  All-place t [] p h = (p, tt)
  All-place t (u ∷ us) p h = elim (Bool-cases (leb t.start_at u.start_at)) [
    | inl e ↦ rw e (p, h)
    | inr e ↦ rw e (h.0, All-place t us p h.1)
  ]

  All-by_start : (ts : List Timed) → All P ts → All P (by_start ts)
  unfolding by_start
  All-by_start [] h = tt
  All-by_start (t ∷ ts) h = All-place t (by_start ts) h.0 (All-by_start ts h.1)

  -- the other way round
  All-unplace : (t : Timed) (us : List Timed) → All P (place t us) → P t × All P us
  unfolding place
  All-unplace t [] = λ h. h
  All-unplace t (u ∷ us) = elim (Bool-cases (leb t.start_at u.start_at)) [
    | inl e ↦ rw e (λ h. h)
    | inr e ↦ rw e (λ h. let rest = All-unplace t us h.1 in (rest.0, (h.0, rest.1)))
  ]

  All-unsorted : (ts : List Timed) → All P (by_start ts) → All P ts
  unfolding by_start
  All-unsorted [] h = tt
  All-unsorted (t ∷ ts) h =
      let parts = All-unplace t (by_start ts) h in (parts.0, All-unsorted ts parts.1)

Pairwise-unplace :
    (t : Timed) (us : List Timed)
    → Pairwise Disjoint (place t us)
    → All (Disjoint t) us × Pairwise Disjoint us
unfolding place
Pairwise-unplace t [] = λ h. h
Pairwise-unplace t (u ∷ us) = elim (Bool-cases (leb t.start_at u.start_at)) [
  | inl e ↦ rw e (λ h. h)
  | inr e ↦ rw e (λ h.
      let rest = Pairwise-unplace t us h.1 in
      let heads = All-unplace (Disjoint u) t us h.0 in
      ((Disjoint-sym u t heads.0, rest.0), (heads.1, rest.1)))
]

Pairwise-unsorted : (ts : List Timed) → Pairwise Disjoint (by_start ts) → Pairwise Disjoint ts
unfolding by_start
Pairwise-unsorted [] h = tt
Pairwise-unsorted (t ∷ ts) h =
    let parts = Pairwise-unplace t (by_start ts) h in
    (All-unsorted (Disjoint t) ts parts.0, Pairwise-unsorted ts parts.1)

neighbours :
    (t u : Timed) (ts : List Timed)
    → overlaps_from t (u ∷ ts) ≡ []
    → (t.end_at ≤ u.start_at) × (overlaps_from u ts ≡ [])
unfolding overlaps_from
neighbours t u ts e = elim (Bool-cases (ltb u.start_at t.end_at)) [
  | inl x ↦ absurd (ground (arith, e, x))
  | inr x ↦ (ltb→ge _ _ x, ground (arith, e, x))
]

-- Neighbours that do not overlap, all forward, leave `t` before everything that follows.
follows :
    (n : ℕ) (t : Timed) (ts : List Timed)
    → overlaps_from t ts ≡ []
    → n ≤ t.end_at
    → All IsForward ts
    → All (λ u. n ≤ u.start_at) ts
follows n t [] e h f = tt
follows n t (u ∷ ts) e h f =
    let (before, rest) = neighbours t u ts e in
    (omega (arith, before, h), follows n u ts rest (omega (arith, before, h, f.0)) f.1)

All-inl :
    (n : ℕ) (t : Timed) (ts : List Timed)
    → t.end_at ≤ n
    → All (λ u. n ≤ u.start_at) ts
    → All (Disjoint t) ts
All-inl n t [] h f = tt
All-inl n t (u ∷ ts) h f = (inl (omega (arith, h, f.0)), All-inl n t ts h f.1)

apart :
    (t : Timed) (ts : List Timed)
    → overlaps_from t ts ≡ []
    → All IsForward ts
    → Pairwise Disjoint (t ∷ ts)
apart t [] e f = (tt, tt)
apart t (u ∷ ts) e f = (
  All-inl t.end_at t (u ∷ ts) (omega arith) (follows t.end_at t (u ∷ ts) e (omega arith) f),
  apart u ts (neighbours t u ts e).1 f.1,
)

overlaps_of-Disjoint :
    (ts : List Timed) → overlaps_of ts ≡ [] → All IsForward ts → Pairwise Disjoint ts
unfolding overlaps_of
overlaps_of-Disjoint [] e f = tt
overlaps_of-Disjoint (t ∷ ts) e f = apart t ts e f.1

is_nil-eq : {A : Type 0} (xs : List A) → is_nil xs ≡ true → xs ≡ []
is_nil-eq [] h = refl
is_nil-eq (x ∷ xs) h = cc

-- If `verify_lease_journal` passes a journal and every window with known instants ends no earlier
-- than it starts, then of any two such windows one ends before the other starts.
pub verify_lease_journal-Disjoint :
    (journal : List Entry) (expect : Option ℕ) (report : Report)
    → verify_lease_journal journal expect ≡ ok report
    → report.passed ≡ true
    → All IsForward (timed_only report.reading.intervals)
    → Pairwise Disjoint (timed_only report.reading.intervals)
unfolding verify_lease_journal
verify_lease_journal-Disjoint journal expect report h p f =
    let (r, _, e) = >>=-eq-ok _ _ h in
    let q : report_of expect r ≡ report = ok-injective e in
    let passed : (report_of expect r).passed ≡ true = ap (λ x. x.passed) q ∙ p in
    let forward : All IsForward (timed_only r.intervals) =
      subst (λ x. All IsForward (timed_only x.reading.intervals)) (sym q) f in
    subst (λ x. Pairwise Disjoint (timed_only x.reading.intervals)) q
      (Pairwise-unsorted _ (
        overlaps_of-Disjoint _ (is_nil-eq _ (and-eq_true _ _ passed).1)
          (All-by_start IsForward _ forward)))
