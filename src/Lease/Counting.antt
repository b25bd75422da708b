-- ===== src/Lease/Counting.antt =====
-- The numbers of entries in a journal that `verify_lease_journal` of branch_workers.py passes.
use llm_vs_zombies.Base.{
  ℕ, suc, ◌+◌, ◌≡◌, refl, ap, subst, ◌∙◌, true, ◌&&◌, ◌⊎◌, inl, inr, Option, none, some, List, [],
  ◌∷◌, ◌++◌, map, arith, Bool-cases, Option-cases, ok, >>=-eq-ok, ok-injective, and-eq_true, length,
  length-append, is_some,
}
use llm_vs_zombies.Lease.Journal.{
  Entry, Event, acquire, release, abandoned, unknown, key, Key, Report, report_of,
  verify_lease_journal, is_nil, Problem, flagged, Reading, no_reading, read_all, read_entry,
  read_acquire, read_release, read_abandoned, find_open, without, count_problems, unclosed,
}

-- Where no problem was found, each acquisition is open, released or abandoned.
abbrev IsPaired : Reading → Type 0
IsPaired r =
    r.problems ≡ []
    → (r.acquires ≡ length r.open_tokens + (r.releases + r.abandoned_count))
      × (length r.intervals ≡ r.releases)
      × (length r.unbounded ≡ r.abandoned_count)

length-without :
    (k : Key) (table : List (Key × Entry)) (e : Entry)
    → find_open k table ≡ some e
    → length table ≡ suc (length (without k table))
unfolding find_open without
length-without k [] e h = cc
length-without k ((j, f) ∷ table) e h = ground (arith, h, length-without k table e)

flagged-IsPaired : (p : Problem) (r : Reading) → IsPaired (flagged p r)
flagged-IsPaired p r h = absurd (not_nil r.problems h)
  where
    not_nil : (ps : List Problem) → ps ++ p ∷ [] ≡ [] → ⊥
    not_nil [] h = cc
    not_nil (q ∷ ps) h = cc

length-snoc : {A : Type 0} (xs : List A) (y : A) → length (xs ++ y ∷ []) ≡ length xs + 1
length-snoc xs y = length-append xs (y ∷ [])

read_acquire-IsPaired :
    (e : Entry) (r : Reading) → IsPaired r → (w : Reading) → read_acquire e r ≡ ok w → IsPaired w
unfolding read_acquire
read_acquire-IsPaired e r h = elim (Bool-cases (is_some e.branch_id && is_some e.token)) [
  | inr x ↦ rw (read_acquire, x) (λ w q. cc)
  | inl x ↦ elim (Bool-cases (is_some (find_open (key e) r.open_tokens))) [
    | inl y ↦
        rw (read_acquire, x, y) (λ w q. subst IsPaired (ok-injective q) (flagged-IsPaired _ _))
    | inr y ↦
        rw (read_acquire, x, y)
          (λ w q. subst IsPaired (ok-injective q) (λ p. (
            omega (arith, (h p).0, length-append r.open_tokens ((key e, e) ∷ [])),
            (h p).1,
            (h p).2,
          )))
  ]
]

read_release-IsPaired : (e : Entry) (r : Reading) → IsPaired r → IsPaired (read_release e r)
unfolding read_release
read_release-IsPaired e r h = elim (Option-cases (find_open (key e) r.open_tokens)) [
  | inl x ↦ rw (read_release, x) (flagged-IsPaired _ _)
  | inr (o, x) ↦
      rw (read_release, x)
        λ p.
          let fewer = length-without (key e) r.open_tokens o x in
          (
            omega (arith, (h p).0, fewer),
            length-snoc r.intervals _ ∙ ap (λ n. n + 1) (h p).1,
            (h p).2,
          )
]

read_abandoned-IsPaired : (e : Entry) (r : Reading) → IsPaired r → IsPaired (read_abandoned e r)
unfolding read_abandoned
read_abandoned-IsPaired e r h = elim (Option-cases (find_open (key e) r.open_tokens)) [
  | inl x ↦ rw (read_abandoned, x) (flagged-IsPaired _ _)
  | inr (o, x) ↦
      rw (read_abandoned, x)
        λ p.
          let fewer = length-without (key e) r.open_tokens o x in
          (
            omega (arith, (h p).0, fewer),
            (h p).1,
            length-snoc r.unbounded _ ∙ ap (λ n. n + 1) (h p).2,
          )
]

read_entry-IsPaired :
    (v : Event) (e : Entry) (r : Reading)
    → IsPaired r
    → (w : Reading) → read_entry v e r ≡ ok w
    → IsPaired w
unfolding read_entry
read_entry-IsPaired acquire e r h w q = read_acquire-IsPaired e r h w q
read_entry-IsPaired release e r h w q =
    subst IsPaired (ok-injective q) (read_release-IsPaired e r h)
read_entry-IsPaired abandoned e r h w q =
    subst IsPaired (ok-injective q) (read_abandoned-IsPaired e r h)
read_entry-IsPaired unknown e r h w q = subst IsPaired (ok-injective q) (flagged-IsPaired _ r)

read_all-IsPaired :
    (journal : List Entry) (r : Reading)
    → IsPaired r
    → (w : Reading) → read_all journal r ≡ ok w
    → IsPaired w
unfolding read_all
read_all-IsPaired [] r h w q = subst IsPaired (ok-injective q) h
read_all-IsPaired (e ∷ journal) r h w q =
    let (m, first, rest) = >>=-eq-ok (read_entry e.event e r) _ q in
    read_all-IsPaired journal m (read_entry-IsPaired e.event e r h m first) w rest

pub append-nils :
    (ps qs rs : List Problem) → is_nil (ps ++ qs ++ rs) ≡ true → (ps ≡ []) × (qs ≡ []) × (rs ≡ [])
append-nils [] [] [] h = (refl, refl, refl)
append-nils [] [] (r ∷ rs) h = cc
append-nils [] (q ∷ qs) rs h = cc
append-nils (p ∷ ps) qs rs h = cc

map_nil : (table : List (Key × Entry)) → map (λ _. unclosed) table ≡ [] → table ≡ []
map_nil [] h = refl
map_nil (x ∷ table) h = cc

expected :
    (expect : Option ℕ) (acquires : ℕ)
    → count_problems expect acquires ≡ []
    → (expect ≡ none) ⊎ (expect ≡ some acquires)
expected none a h = inl refl
expected (some m) a h = inr (ap some (ground (arith, h)))

-- If `verify_lease_journal` passes a journal, then no window is left open, there are as many
-- acquisitions as releases and abandonments, as many intervals as releases and as many unbounded
-- windows as abandonments, and no number of acquisitions was expected, or it is the number found.
pub verify_lease_journal-paired :
    (journal : List Entry) (expect : Option ℕ) (report : Report)
    → verify_lease_journal journal expect ≡ ok report
    → report.passed ≡ true
    → (report.reading.open_tokens ≡ [])
      × (report.reading.acquires ≡ report.reading.releases + report.reading.abandoned_count)
      × (length report.reading.intervals ≡ report.reading.releases)
      × (length report.reading.unbounded ≡ report.reading.abandoned_count)
      × ((expect ≡ none) ⊎ (expect ≡ some report.reading.acquires))
unfolding verify_lease_journal
verify_lease_journal-paired journal expect report h p =
    let (r, run, e) = >>=-eq-ok _ _ h in
    subst IsSound (ok-injective e)
      (sound r (read_all-IsPaired journal no_reading (λ x. (refl, refl, refl)) r run)) p
  where
    IsSound : Report → Type 0
    IsSound x =
        x.passed ≡ true
        → (x.reading.open_tokens ≡ [])
          × (x.reading.acquires ≡ x.reading.releases + x.reading.abandoned_count)
          × (length x.reading.intervals ≡ x.reading.releases)
          × (length x.reading.unbounded ≡ x.reading.abandoned_count)
          × ((expect ≡ none) ⊎ (expect ≡ some x.reading.acquires))

    sound : (r : Reading) → IsPaired r → IsSound (report_of expect r)
    sound r h p =
        let (none_found, none_open, counted) =
          append-nils r.problems _ (count_problems expect r.acquires) (and-eq_true _ _ p).0 in
        let closed = map_nil r.open_tokens none_open in
        let paired = h none_found in
        (
          closed,
          omega (arith, paired.0, ap length closed),
          paired.1,
          paired.2,
          expected expect r.acquires counted,
        )
