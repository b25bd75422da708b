-- ===== src/Lease/Pairing.antt =====
-- The acquisitions of a journal and what closes each of them.
use llm_vs_zombies.Base.{
  ℕ, ◌+◌, ◌≡◌, ◌⊎◌, refl, sym, ap, subst, ◌∙◌, true, ◌&&◌, Option, none, some, List, [], ◌∷◌, ◌++◌,
  length, arith, Bool-cases, Option-cases, inl, inr, ok, >>=-eq-ok, ok-injective, and-eq_true,
  is_some,
}
use mathlib.Core.List.{append_assoc, append-nil}
use llm_vs_zombies.Lease.Journal.{
  Entry, Event, acquire, release, abandoned, unknown, key, Key, Interval, Report, Problem, Reading,
  no_reading, read_all, read_entry, read_acquire, read_release, read_abandoned, find_open,
  count_problems, verify_lease_journal,
}
use llm_vs_zombies.Lease.Counting.{verify_lease_journal-paired, append-nils}
use llm_vs_zombies.Lease.Opened.{
  Paired, at_end, acquires, releases, abandons, entries_of, IsKeyed, find_open-IsFound,
  find_open-fresh, entries_of-append, IsKeyed-append,
}

snoc-not_nil : (ps : List Problem) (p : Problem) → ps ++ p ∷ [] ≡ [] → ⊥
snoc-not_nil [] p h = cc
snoc-not_nil (q ∷ ps) p h = cc

-- An entry that leaves no problem had none before it.
read_entry-problems :
    (v : Event) (e : Entry) (r m : Reading)
    → read_entry v e r ≡ ok m
    → m.problems ≡ []
    → r.problems ≡ []
unfolding read_entry
read_entry-problems acquire e r m = elim (Bool-cases (is_some e.branch_id && is_some e.token)) [
  | inr x ↦ rw (read_acquire, x) (λ h p. cc)
  | inl x ↦ elim (Bool-cases (is_some (find_open (key e) r.open_tokens))) [
    | inl y ↦
        rw (read_acquire, x, y)
          (λ h p. absurd (snoc-not_nil _ _ (ap (λ t. t.problems) (ok-injective h) ∙ p)))
    | inr y ↦ rw (read_acquire, x, y) (λ h p. ap (λ t. t.problems) (ok-injective h) ∙ p)
  ]
]
read_entry-problems release e r m = elim (Option-cases (find_open (key e) r.open_tokens)) [
  | inl x ↦
      rw (read_release, x)
        (λ h p. absurd (snoc-not_nil _ _ (ap (λ t. t.problems) (ok-injective h) ∙ p)))
  | inr (o, x) ↦ rw (read_release, x) (λ h p. ap (λ t. t.problems) (ok-injective h) ∙ p)
]
read_entry-problems abandoned e r m = elim (Option-cases (find_open (key e) r.open_tokens)) [
  | inl x ↦
      rw (read_abandoned, x)
        (λ h p. absurd (snoc-not_nil _ _ (ap (λ t. t.problems) (ok-injective h) ∙ p)))
  | inr (o, x) ↦ rw (read_abandoned, x) (λ h p. ap (λ t. t.problems) (ok-injective h) ∙ p)
]
read_entry-problems unknown e r m =
    λ h p. absurd (snoc-not_nil _ _ (ap (λ t. t.problems) (ok-injective h) ∙ p))

read_all-problems :
    (journal : List Entry) (r w : Reading)
    → read_all journal r ≡ ok w
    → w.problems ≡ []
    → r.problems ≡ []
unfolding read_all
read_all-problems [] r w h p = ap (λ t. t.problems) (ok-injective h) ∙ p
read_all-problems (e ∷ journal) r w h p =
    let (m, first, rest) = >>=-eq-ok (read_entry e.event e r) _ h in
    read_entry-problems e.event e r m first (read_all-problems journal m w rest p)

-- The intervals and the unbounded windows that a journal adds are those of its pairing.
record Adds (r w : Reading) (journal : List Entry) : Type 0 where
  is : List Interval
  us : List Key
  intervals : w.intervals ≡ r.intervals ++ is
  unbounded : w.unbounded ≡ r.unbounded ++ us
  paired : Paired (entries_of r.open_tokens) journal is us

module _ (e : Entry) (journal : List Entry) (w : Reading) where
  read_acquire-Adds :
      (r m : Reading)
      → e.event ≡ acquire
      → IsKeyed r.open_tokens
      → read_acquire e r ≡ ok m
      → m.problems ≡ []
      → (IsKeyed m.open_tokens → Adds m w journal)
      → Adds r w (e ∷ journal)
  unfolding read_acquire
  read_acquire-Adds r m v k = elim (Bool-cases (is_some e.branch_id && is_some e.token)) [
    | inr x ↦ rw (read_acquire, x) (λ h p on. cc)
    | inl x ↦ elim (Bool-cases (is_some (find_open (key e) r.open_tokens))) [
      | inl y ↦
          rw (read_acquire, x, y)
            (λ h p on. absurd (snoc-not_nil _ _ (ap (λ t. t.problems) (ok-injective h) ∙ p)))
      | inr y ↦
          rw (read_acquire, x, y)
            (λ h p on.
              let later =
                subst (λ t. IsKeyed t.open_tokens → Adds t w journal) (sym (ok-injective h)) on
                  (IsKeyed-append r.open_tokens e k) in
              record {
                is = later.is;
                us = later.us;
                intervals = later.intervals;
                unbounded = later.unbounded;
                paired = acquires v (find_open-fresh (key e) r.open_tokens k y) (
                    subst (λ l. Paired l journal later.is later.us)
                      (entries_of-append r.open_tokens (key e) e) later.paired);
              })
    ]
  ]

  read_release-Adds :
      (r m : Reading)
      → e.event ≡ release
      → IsKeyed r.open_tokens
      → read_release e r ≡ m
      → m.problems ≡ []
      → (IsKeyed m.open_tokens → Adds m w journal)
      → Adds r w (e ∷ journal)
  unfolding read_release
  read_release-Adds r m v k = elim (Option-cases (find_open (key e) r.open_tokens)) [
    | inl x ↦
        rw (read_release, x) (λ h p on. absurd (snoc-not_nil _ _ (ap (λ t. t.problems) h ∙ p)))
    | inr (o, x) ↦
        rw (read_release, x)
          (λ h p on.
            let f = find_open-IsFound (key e) r.open_tokens o k x in
            let later = subst (λ t. IsKeyed t.open_tokens → Adds t w journal) (sym h) on f.keyed in
            let first : Interval = record {
              window = key e;
              start_ns = o.monotonic_ns;
              end_ns = e.monotonic_ns;
            } in
            record {
              is = first ∷ later.is;
              us = later.us;
              intervals = later.intervals ∙ append_assoc r.intervals _ later.is;
              unbounded = later.unbounded;
              paired =
                  subst (λ l. Paired l (e ∷ journal) (first ∷ later.is) later.us) f.table_is
                    (releases f.before f.after o v f.own
                      (subst (λ l. Paired l journal later.is later.us) (sym f.left) later.paired));
            })
  ]

  read_abandoned-Adds :
      (r m : Reading)
      → e.event ≡ abandoned
      → IsKeyed r.open_tokens
      → read_abandoned e r ≡ m
      → m.problems ≡ []
      → (IsKeyed m.open_tokens → Adds m w journal)
      → Adds r w (e ∷ journal)
  unfolding read_abandoned
  read_abandoned-Adds r m v k = elim (Option-cases (find_open (key e) r.open_tokens)) [
    | inl x ↦
        rw (read_abandoned, x) (λ h p on. absurd (snoc-not_nil _ _ (ap (λ t. t.problems) h ∙ p)))
    | inr (o, x) ↦
        rw (read_abandoned, x)
          (λ h p on.
            let f = find_open-IsFound (key e) r.open_tokens o k x in
            let later = subst (λ t. IsKeyed t.open_tokens → Adds t w journal) (sym h) on f.keyed in
            record {
              is = later.is;
              us = key e ∷ later.us;
              intervals = later.intervals;
              unbounded = later.unbounded ∙ append_assoc r.unbounded _ later.us;
              paired =
                  subst (λ l. Paired l (e ∷ journal) later.is (key e ∷ later.us)) f.table_is
                    (abandons f.before f.after o v f.own
                      (subst (λ l. Paired l journal later.is later.us) (sym f.left) later.paired));
            })
  ]

  read_entry-Adds :
      (v : Event) (r m : Reading)
      → e.event ≡ v
      → IsKeyed r.open_tokens
      → read_entry v e r ≡ ok m
      → m.problems ≡ []
      → (IsKeyed m.open_tokens → Adds m w journal)
      → Adds r w (e ∷ journal)
  unfolding read_entry
  read_entry-Adds acquire r m v k h p on = read_acquire-Adds r m v k h p on
  read_entry-Adds release r m v k h p on = read_release-Adds r m v k (ok-injective h) p on
  read_entry-Adds abandoned r m v k h p on = read_abandoned-Adds r m v k (ok-injective h) p on
  read_entry-Adds unknown r m v k h p on =
      absurd (snoc-not_nil _ _ (ap (λ t. t.problems) (ok-injective h) ∙ p))

read_all-Adds :
    (journal : List Entry) (r w : Reading)
    → IsKeyed r.open_tokens
    → read_all journal r ≡ ok w
    → w.problems ≡ []
    → w.open_tokens ≡ []
    → Adds r w journal
unfolding read_all
read_all-Adds [] r w k h p o =
    let e = ok-injective h in
    record {
      is = [];
      us = [];
      intervals = ap (λ t. t.intervals) (sym e) ∙ sym (append-nil r.intervals);
      unbounded = ap (λ t. t.unbounded) (sym e) ∙ sym (append-nil r.unbounded);
      paired =
          subst (λ l. Paired (entries_of l) [] [] []) (sym (ap (λ t. t.open_tokens) e ∙ o)) at_end;
    }
read_all-Adds (e ∷ journal) r w k h p o =
    let (m, first, rest) = >>=-eq-ok (read_entry e.event e r) _ h in
    read_entry-Adds e journal w e.event r m refl k first (read_all-problems journal m w rest p)
      (λ keyed. read_all-Adds journal m w keyed rest p o)

-- If `verify_lease_journal` passes a journal, then its entries pair off in their order: every
-- acquisition takes a branch and token that is not open, and is closed later by exactly one release or
-- abandonment of its branch and token, no other entry stands in the journal, and nothing is open at
-- the end. The report's intervals are the pairs with a release, each from its acquisition's instant to
-- its release's, and its unbounded windows those with an abandonment, in the order of the closings. No
-- number of acquisitions was expected, or it is the number found, which is that of the closings.
pub verify_lease_journal-Paired :
    (journal : List Entry) (expect : Option ℕ) (report : Report)
    → verify_lease_journal journal expect ≡ ok report
    → report.passed ≡ true
    → Paired [] journal report.reading.intervals report.reading.unbounded
      × (report.reading.acquires
          ≡ length report.reading.intervals + length report.reading.unbounded)
      × ((expect ≡ none) ⊎ (expect ≡ some report.reading.acquires))
unfolding verify_lease_journal
verify_lease_journal-Paired journal expect report h p =
    let (closed, total, released, left, found) =
      verify_lease_journal-paired journal expect report h p in
    let (r, run, e) = >>=-eq-ok _ _ h in
    let same = ap (λ t. t.reading) (ok-injective e) in
    let clean =
      (append-nils r.problems _ (count_problems expect r.acquires)
        (and-eq_true _ _ (ap (λ t. t.passed) (ok-injective e) ∙ p)).0).0 in
    let adds =
      read_all-Adds journal no_reading r tt run clean (ap (λ t. t.open_tokens) same ∙ closed) in
    (
      subst (λ t. Paired [] journal t.intervals t.unbounded) same
          (subst (λ l. Paired [] journal l r.unbounded) (sym adds.intervals)
            (subst (λ l. Paired [] journal adds.is l) (sym adds.unbounded) adds.paired)),
      omega (arith, total, released, left),
      found,
    )
