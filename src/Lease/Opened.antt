-- ===== src/Lease/Opened.antt =====
-- What closes an acquisition of a journal, and the table of the acquisitions that are open.
use text.Mathlib.TextEquality.{eq_iff as str_eq_iff}
use llm_vs_zombies.Base.{
  ◌≡◌, ◌≢◌, refl, sym, ap, ◌∙◌, true, false, Option, none, some, List, [], ◌∷◌, ◌++◌, map,
  Bool-cases, inl, inr, and-eq_true, is_some, All, some-injective, String,
}
use llm_vs_zombies.Lease.Journal.{
  Entry, acquire, release, abandoned, key, Key, Interval, eq_text, eq_key, find_open, without,
}

-- The journal goes on with these open acquisitions: an acquisition takes a key that is not open, and
-- every release and every abandonment closes one open acquisition of its own branch and token, which
-- gives the next interval, from the acquisition's instant on, or the next unbounded window.
pub data Paired : List Entry → List Entry → List Interval → List Key → Type 0 where
  at_end : Paired [] [] [] []
  acquires :
      {open_ rest : List Entry} {e : Entry} {is : List Interval} {us : List Key}
      → e.event ≡ acquire
      → All (λ o. key o ≢ key e) open_
      → Paired (open_ ++ e ∷ []) rest is us
      → Paired open_ (e ∷ rest) is us
  releases :
      (before after : List Entry) (o : Entry) {rest : List Entry} {e : Entry} {is : List Interval}
      {us : List Key}
      → e.event ≡ release
      → key o ≡ key e
      → Paired (before ++ after) rest is us
      → Paired
          (before ++ o ∷ after)
          (e ∷ rest)
          (record { window = key e; start_ns = o.monotonic_ns; end_ns = e.monotonic_ns } ∷ is)
          us
  abandons :
      (before after : List Entry) (o : Entry) {rest : List Entry} {e : Entry} {is : List Interval}
      {us : List Key}
      → e.event ≡ abandoned
      → key o ≡ key e
      → Paired (before ++ after) rest is us
      → Paired (before ++ o ∷ after) (e ∷ rest) is (key e ∷ us)

eq_text→eq : (a b : Option String) → eq_text a b ≡ true → a ≡ b
eq_text→eq none none h = refl
eq_text→eq none (some b) h = cc
eq_text→eq (some a) none h = cc
eq_text→eq (some a) (some b) h = ap some ((str_eq_iff a b).0 h)

eq_text_self : (a : Option String) → eq_text a a ≡ true
eq_text_self none = refl
eq_text_self (some a) = (str_eq_iff a a).1 refl

eq_key→eq : (a b : Key) → eq_key a b ≡ true → a ≡ b
eq_key→eq a b h =
    let (l, r) = and-eq_true (eq_text a.0 b.0) (eq_text a.1 b.1) h in
    λ i. (eq_text→eq a.0 b.0 l i, eq_text→eq a.1 b.1 r i)

abbrev pub entries_of : List (Key × Entry) → List Entry
entries_of = map (λ p. p.1)

-- Every entry of the table stands under its own key.
abbrev pub IsKeyed : List (Key × Entry) → Type 0
IsKeyed = All (λ p. p.0 ≡ key p.1)

-- What `find_open` finds is an entry of that key, and `without` takes it out.
pub record IsFound (k : Key) (table : List (Key × Entry)) (o : Entry) : Type 0 where
  pub before : List Entry
  pub after : List Entry
  pub own : key o ≡ k
  pub table_is : before ++ o ∷ after ≡ entries_of table
  pub left : before ++ after ≡ entries_of (without k table)
  pub keyed : IsKeyed (without k table)

pub find_open-IsFound :
    (k : Key) (table : List (Key × Entry)) (o : Entry)
    → IsKeyed table
    → find_open k table ≡ some o
    → IsFound k table o
unfolding find_open without
find_open-IsFound k [] o h f = cc
find_open-IsFound k ((j, e) ∷ table) o h f = elim (Bool-cases (eq_key k j)) [
  | inl x ↦
      let same : e ≡ o = some-injective _ _ (rw x at f) in
      record {
        before = [];
        after = entries_of table;
        own = ap key (sym same) ∙ sym h.0 ∙ sym (eq_key→eq k j x);
        table_is = ap (λ y. y ∷ entries_of table) (sym same);
        left = rw x refl;
        keyed = rw x h.1;
      }
  | inr x ↦
      let on = find_open-IsFound k table o h.1 (rw x at f) in
      record {
        before = e ∷ on.before;
        after = on.after;
        own = on.own;
        table_is = ap (λ l. e ∷ l) on.table_is;
        left = rw x (ap (λ l. e ∷ l) on.left);
        keyed = rw x (h.0, on.keyed);
      }
]

pub find_open-fresh :
    (k : Key) (table : List (Key × Entry))
    → IsKeyed table
    → is_some (find_open k table) ≡ false
    → All (λ o. key o ≢ k) (entries_of table)
unfolding find_open
find_open-fresh k [] h f = tt
find_open-fresh k ((j, e) ∷ table) h f = elim (Bool-cases (eq_key k j)) [
  | inl x ↦ cc (let bad : true ≡ false = rw x at f in bad)
  | inr x ↦ (
    λ same. cc (
        let bad : true ≡ false =
          sym (rw (eq_text_self k.0, eq_text_self k.1) refl)
          ∙ ap (eq_key k) (sym same ∙ sym h.0)
          ∙ x in
        bad),
    find_open-fresh k table h.1 (rw x at f),
  )
]

pub entries_of-append :
    (table : List (Key × Entry)) (k : Key) (e : Entry)
    → entries_of (table ++ (k, e) ∷ []) ≡ entries_of table ++ e ∷ []
entries_of-append [] k e = refl
entries_of-append (p ∷ table) k e = ap (λ l. p.1 ∷ l) (entries_of-append table k e)

pub IsKeyed-append :
    (table : List (Key × Entry)) (e : Entry) → IsKeyed table → IsKeyed (table ++ (key e, e) ∷ [])
IsKeyed-append [] e h = (refl, tt)
IsKeyed-append (p ∷ table) e h = (h.0, IsKeyed-append table e h.1)
