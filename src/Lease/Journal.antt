-- ===== src/Lease/Journal.antt =====
-- `lease_open_records`, `close_open_lease` and `verify_lease_journal` of branch_workers.py, on a
-- journal that `read_journal` has read. A branch or a token is a text or `None`; other JSON values
-- are outside the model's range, as are the fields that only label a report.
use llm_vs_zombies.Base.{
  ℕ, ◌+◌, ◌==◌, Bool, true, false, ◌&&◌, not, Option, none, some, List, [], ◌∷◌, ◌++◌, map, String,
  str_eq, Result, ok, err, ◌>>=◌, any, keep, ltb, leb, if◌then◌else◌, is_some,
}

pub data Event : Type 0 where
  acquire release abandoned unknown : Event

abbrev pub is_acquire : Event → Bool
is_acquire acquire = true
is_acquire _ = false

-- `event in ("release", "abandoned")`
abbrev pub is_closing : Event → Bool
is_closing release = true
is_closing abandoned = true
is_closing _ = false

abbrev pub Key : Type 0
Key = Option String × Option String

-- `monotonic_ns` is `none` where it is not an integer
pub record Entry : Type 0 where
  pub event : Event
  pub branch_id : Option String
  pub token : Option String
  pub monotonic_ns : Option ℕ

abbrev pub key : Entry → Key
key e = (e.branch_id, e.token)

abbrev pub eq_text : Option String → Option String → Bool
eq_text none none = true
eq_text (some a) (some b) = str_eq a b
eq_text _ _ = false

abbrev pub eq_key : Key → Key → Bool
eq_key a b = eq_text a.0 b.0 && eq_text a.1 b.1

-- the keys that a release or an abandonment closed
unfoldable pub closed_keys : List Entry → List Key
closed_keys [] = []
closed_keys (e ∷ journal) =
    if is_closing e.event then key e ∷ closed_keys journal else closed_keys journal

abbrev pub mem_key : Key → List Key → Bool
mem_key k = any (eq_key k)

-- `lease_open_records`
unfoldable pub lease_open_records : List Entry → List Entry
unfolding closed_keys
lease_open_records journal =
    let closed = closed_keys journal in
    keep (λ e. is_acquire e.event && not (mem_key (key e) closed)) journal

abbrev pub abandonment : ℕ → String → Entry → Entry
abandonment now branch_id e = record {
  event = abandoned;
  branch_id = some branch_id;
  token = e.token;
  monotonic_ns = some now;
}

-- the entries that seal the open windows; `clock i` is what call `i` of `time.monotonic_ns` answers
unfoldable pub seal : (ℕ → ℕ) → ℕ → String → List Entry → List Entry
seal clock i branch_id [] = []
seal clock i branch_id (e ∷ entries) =
    abandonment (clock i) branch_id e ∷ seal clock (i + 1) branch_id entries

-- `close_open_lease`: the entries that it appends
unfoldable pub close_open_lease : List Entry → (ℕ → ℕ) → String → List Entry
unfolding lease_open_records seal
close_open_lease journal clock branch_id =
    seal clock 0 branch_id
      (keep (λ e. eq_text e.branch_id (some branch_id)) (lease_open_records journal))

pub record Interval : Type 0 where
  pub window : Key
  pub start_ns : Option ℕ
  pub end_ns : Option ℕ

pub data Problem : Type 0 where
  reused_token release_without_acquire abandonment_without_acquire unknown_event unclosed
        wrong_count :
      Problem

pub data LeaseError : Type 0 where
  needs_branch_and_token : LeaseError

pub record Reading : Type 0 where
  pub open_tokens : List (Key × Entry)
  pub intervals : List Interval
  pub unbounded : List Key
  pub problems : List Problem
  pub acquires : ℕ
  pub releases : ℕ
  pub abandoned_count : ℕ

abbrev pub no_reading : Reading
no_reading = record {
  open_tokens = [];
  intervals = [];
  unbounded = [];
  problems = [];
  acquires = 0;
  releases = 0;
  abandoned_count = 0;
}

-- `open_tokens.get(key)` and what is left without the key
unfoldable pub find_open : Key → List (Key × Entry) → Option Entry
find_open k [] = none
find_open k ((j, e) ∷ table) = if eq_key k j then some e else find_open k table

unfoldable pub without : Key → List (Key × Entry) → List (Key × Entry)
without k [] = []
without k ((j, e) ∷ table) = if eq_key k j then table else (j, e) ∷ without k table

abbrev pub flagged : Problem → Reading → Reading
flagged p r = record r { problems = r.problems ++ p ∷ [] }

-- the bodies of the loop, by event
unfoldable pub read_acquire : Entry → Reading → Result LeaseError Reading
unfolding find_open
read_acquire e r =
    let counted = record r { acquires = r.acquires + 1 } in
    if not (is_some e.branch_id && is_some e.token)
    then err needs_branch_and_token
    else if is_some (find_open (key e) r.open_tokens)
    then ok (flagged reused_token counted)
    else ok (record counted { open_tokens = r.open_tokens ++ (key e, e) ∷ [] })

unfoldable pub read_release : Entry → Reading → Reading
unfolding find_open without
read_release e r =
    let counted = record r { releases = r.releases + 1 } in
    elim (find_open (key e) r.open_tokens) [
      | none ↦ flagged release_without_acquire counted
      | some opened ↦
          let entry : Interval = record {
            window = key e;
            start_ns = opened.monotonic_ns;
            end_ns = e.monotonic_ns;
          } in
          record counted {
            open_tokens = without (key e) r.open_tokens;
            intervals = r.intervals ++ entry ∷ [];
          }
    ]

unfoldable pub read_abandoned : Entry → Reading → Reading
unfolding find_open without
read_abandoned e r =
    let counted = record r { abandoned_count = r.abandoned_count + 1 } in
    elim (find_open (key e) r.open_tokens) [
      | none ↦ flagged abandonment_without_acquire counted
      | some opened ↦ record counted {
        open_tokens = without (key e) r.open_tokens;
        unbounded = r.unbounded ++ key e ∷ [];
      }
    ]

unfoldable pub read_entry : Event → Entry → Reading → Result LeaseError Reading
unfolding read_acquire read_release read_abandoned
read_entry acquire e r = read_acquire e r
read_entry release e r = ok (read_release e r)
read_entry abandoned e r = ok (read_abandoned e r)
read_entry unknown e r = ok (flagged unknown_event r)

-- `for index, item in enumerate(records, 1)`
unfoldable pub read_all : List Entry → Reading → Result LeaseError Reading
unfolding read_entry
read_all [] r = ok r
read_all (e ∷ journal) r = read_entry e.event e r >>= read_all journal

pub record Timed : Type 0 where
  pub window : Key
  pub start_at : ℕ
  pub end_at : ℕ

-- the intervals whose two instants are integers
unfoldable pub timed_only : List Interval → List Timed
timed_only [] = []
timed_only (i ∷ intervals) = elim i.start_ns [
  | none ↦ timed_only intervals
  | some a ↦ elim i.end_ns [
    | none ↦ timed_only intervals
    | some b ↦ record { window = i.window; start_at = a; end_at = b } ∷ timed_only intervals
  ]
]

-- `sorted(..., key=start_ns)`, which is stable
unfoldable pub place : Timed → List Timed → List Timed
place t [] = t ∷ []
place t (u ∷ us) = if leb t.start_at u.start_at then t ∷ u ∷ us else u ∷ place t us

unfoldable pub by_start : List Timed → List Timed
unfolding place
by_start [] = []
by_start (t ∷ ts) = place t (by_start ts)

-- the pairs of neighbours of which the right one starts before the left one ends
unfoldable pub overlaps_from : Timed → List Timed → List (Key × Key)
overlaps_from left [] = []
overlaps_from left (right ∷ rest) =
    let later = overlaps_from right rest in
    if ltb right.start_at left.end_at then (left.window, right.window) ∷ later else later

unfoldable pub overlaps_of : List Timed → List (Key × Key)
unfolding overlaps_from
overlaps_of [] = []
overlaps_of (t ∷ ts) = overlaps_from t ts

pub record Report : Type 0 where
  pub reading : Reading
  pub overlaps : List (Key × Key)
  pub problems : List Problem
  pub passed : Bool

abbrev pub is_nil {ℓ} : {A : Type ℓ} → List A → Bool
is_nil [] = true
is_nil (_ ∷ _) = false

-- `expect is not None and acquires != expect`
abbrev pub count_problems : Option ℕ → ℕ → List Problem
count_problems none acquires = []
count_problems (some n) acquires = if acquires == n then [] else wrong_count ∷ []

abbrev pub report_of : Option ℕ → Reading → Report
report_of expect r =
    let overlaps = overlaps_of (by_start (timed_only r.intervals)) in
    let problems =
      r.problems ++ map (λ _. unclosed) r.open_tokens ++ count_problems expect r.acquires in
    record {
      reading = r;
      overlaps = overlaps;
      problems = problems;
      passed = is_nil problems && is_nil overlaps;
    }

-- `verify_lease_journal`
unfoldable pub verify_lease_journal : List Entry → Option ℕ → Result LeaseError Report
unfolding read_all overlaps_of by_start timed_only
verify_lease_journal journal expect = read_all journal no_reading >>= λ r. ok (report_of expect r)
