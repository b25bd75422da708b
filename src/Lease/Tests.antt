-- ===== src/Lease/Tests.antt =====
-- The lease theorems at concrete journals.
use llm_vs_zombies.Base.{
  ℕ, ◌+◌, ◌≡◌, ◌⊎◌, refl, Option, none, some, List, [], ◌∷◌, ◌++◌, String, arith, ok, err, ◌>>=◌,
  keep, Pairwise, length, not,
}
use llm_vs_zombies.Lease.Journal.{
  Entry, Event, acquire, release, abandoned, Report, no_reading, report_of, eq_text,
  lease_open_records, close_open_lease, verify_lease_journal, timed_only,
}
use llm_vs_zombies.Lease.Sealing.{lease_open_records-close_open_lease}
use llm_vs_zombies.Lease.Windows.{Disjoint, verify_lease_journal-Disjoint}
use llm_vs_zombies.Lease.Opened.{Paired}
use llm_vs_zombies.Lease.Pairing.{verify_lease_journal-Paired}

abbrev line : Event → String → String → ℕ → Entry
line e branch token now = record {
  event = e;
  branch_id = some branch;
  token = some token;
  monotonic_ns = some now;
}

-- two windows one after the other, and one that the parent sealed
abbrev journal : List Entry
journal =
    line acquire "left" "t1" 10
    ∷ line release "left" "t1" 20
    ∷ line acquire "right" "t2" 25
    ∷ line release "right" "t2" 40
    ∷ line acquire "left" "t3" 41
    ∷ line abandoned "left" "t3" 60
    ∷ []

abbrev report : Report
unfolding verify_lease_journal
report = elim (verify_lease_journal journal (some 3)) [
  | ok r ↦ r
  | err e ↦ report_of none no_reading
]

verify_lease_journal-journal : verify_lease_journal journal (some 3) ≡ ok report
unfolding verify_lease_journal ◌>>=◌
verify_lease_journal-journal = refl

verify_lease_journal-Disjoint_example : Pairwise Disjoint (timed_only report.reading.intervals)
unfolding timed_only report ◌>>=◌
verify_lease_journal-Disjoint_example =
    verify_lease_journal-Disjoint journal (some 3) report verify_lease_journal-journal refl
      (omega arith, (omega arith, tt))

verify_lease_journal-Paired_example :
    Paired [] journal report.reading.intervals report.reading.unbounded
    × (report.reading.acquires ≡ length report.reading.intervals + length report.reading.unbounded)
    × ((◌≡◌ {A = Option ℕ} (some 3) none) ⊎ (some 3 ≡ some report.reading.acquires))
unfolding report ◌>>=◌
verify_lease_journal-Paired_example =
    verify_lease_journal-Paired journal (some 3) report verify_lease_journal-journal refl

abbrev unsealed : List Entry
unsealed = line acquire "left" "t1" 10 ∷ line acquire "right" "t2" 12 ∷ []

lease_open_records-close_open_lease_example :
    lease_open_records (unsealed ++ close_open_lease unsealed (λ i. i + 100) "left")
    ≡ keep (λ e. not (eq_text e.branch_id (some "left"))) (lease_open_records unsealed)
lease_open_records-close_open_lease_example =
    lease_open_records-close_open_lease (λ i. i + 100) "left" unsealed
