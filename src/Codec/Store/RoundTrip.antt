-- ===== src/Codec/Store/RoundTrip.antt =====
-- What the store reads after a compression that returned.
use mathlib.Core.List.{reverse, append_cancel_right}
use llm_vs_zombies.Base.{
  ◌≡◌, ◌⊎◌, refl, sym, ap, ◌∙◌, true, false, List, [], ◌∷◌, ◌++◌, Option, none, some, if◌then◌else◌,
  is_some, Str, eq_name, eq_name→eq, eq_name_iff, eq_name_refl, find, Bool-cases, Option-cases,
  some-injective, inl, inr, arith, All, In, not-In-nil, codes,
}
use llm_vs_zombies.Codec.Directory.{
  Bytes, Directory, is_jsonl, is_partial, gz, gz_partial, ends_with, starts_with, partial-gz,
  not-jsonl-gz,
}
use llm_vs_zombies.Codec.Compress.{
  Codec, Fault, in_compressing, in_hashing, in_replacing, Outcome, stored, raised, Run, finished,
  failed, Entry, container, temporary, compress_one, compress_names, work, entry_of, compressing,
  verifying, replacing, reproduces,
}
use llm_vs_zombies.Codec.Store.{find_entry}
use llm_vs_zombies.Codec.Kept.{compress_one-kept, KeptAtOutcome}
use llm_vs_zombies.Codec.Rollback.{continue}

-- Evidence is not a partial file.
jsonl-whole : (p : Str) → is_jsonl p ≡ true → is_partial p ≡ false
unfolding ends_with
jsonl-whole p = tail (reverse p)
  where
    tail :
        (r : Str)
        → starts_with (reverse (codes ".jsonl")) r ≡ true
        → starts_with (reverse gz_partial) r ≡ false
    tail [] h = cc
    tail (x ∷ []) h = ground arith
    tail (x ∷ y ∷ r) h = ground arith

-- The name of a container determines that of the evidence.
container-injective : (n m : Str) → container n ≡ container m → n ≡ m
container-injective n m e = append_cancel_right n m gz e

find_entry-append :
    (n : Str) (es : List Entry) (e : Entry)
    → find_entry n (es ++ e ∷ []) ≡ (
        if is_some (find_entry n es)
        then find_entry n es
        else if eq_name n e.name
        then some e
        else none)
unfolding find_entry
find_entry-append n [] e = refl
find_entry-append n (x ∷ es) e = ground (arith, find_entry-append n es e)

module _ (c : Codec) (name : Str) (plain : Bytes) where
  -- An outcome that is stored has the entry of the plain bytes.
  abbrev HasEntry : Outcome → Type 0
  HasEntry (stored d e) = e ≡ entry_of c name plain
  HasEntry (raised d error) = Unit

  replacing-HasEntry :
      (fault : Option Fault) (d : Directory) → HasEntry (replacing c fault name plain d)
  replacing-HasEntry (some in_replacing) d = tt
  replacing-HasEntry none d = refl
  replacing-HasEntry (some (in_compressing _)) d = refl
  replacing-HasEntry (some in_hashing) d = refl

  verifying-HasEntry :
      (o : Option Bytes) (fault : Option Fault) (d : Directory)
      → HasEntry (verifying c o fault name plain d)
  verifying-HasEntry none fault d = tt
  verifying-HasEntry (some recovered) fault d = elim (Bool-cases (reproduces c recovered plain)) [
    | inl e ↦ rw e (replacing-HasEntry fault d)
    | inr e ↦ rw e tt
  ]

  compressing-HasEntry :
      (fault : Option Fault) (d : Directory) → HasEntry (compressing c fault name plain d)
  compressing-HasEntry (some (in_compressing bytes)) d = tt
  compressing-HasEntry (some in_hashing) d = tt
  compressing-HasEntry none d = verifying-HasEntry _ none _
  compressing-HasEntry (some in_replacing) d = verifying-HasEntry _ (some in_replacing) _

  compress_one-HasEntry : (d : Directory) → HasEntry (compress_one c name plain d)
  unfolding compress_one
  compress_one-HasEntry d = elim (Bool-cases (is_some (find (temporary name) d))) [
    | inl e ↦ rw e tt
    | inr e ↦ rw e (compressing-HasEntry (c.fault name) d)
  ]

other_container : (n m : Str) → eq_name n m ≡ false → eq_name (container n) (container m) ≡ false
other_container n m h = elim (Bool-cases (eq_name (container n) (container m))) [
  | inr e ↦ e
  | inl e ↦ cc (
      let clash : eq_name n m ≡ true =
        (eq_name_iff n m).1 (container-injective n m (eq_name→eq _ _ e)) in
      clash)
]

-- What the loop has done: evidence is still there, and every entry describes evidence that its container
-- holds.
module _ (c : Codec) (start : Directory) where
  pub record IsRight (es : List Entry) (d : Directory) : Type 0 where
    pub kept : (p : Str) → is_jsonl p ≡ true → find p d ≡ find p start
    pub right :
        (n : Str) (e : Entry) (plain : Bytes)
        → find_entry n es ≡ some e
        → find n start ≡ some plain
        → (e ≡ entry_of c n plain) × (find (container n) d ≡ some (c.compress plain))

  abbrev KeptAt : Str → Bytes → Directory → Directory → Type 0
  KeptAt name plain d d' =
      (p : Str)
      → is_partial p ≡ false
      → find p d' ≡ (if eq_name p (container name) then some (c.compress plain) else find p d)

  kept_stored :
      (es : List Entry) (d d' : Directory) (name : Str) (plain : Bytes)
      → IsRight es d
      → KeptAt name plain d d'
      → (p : Str) → is_jsonl p ≡ true
      → find p d' ≡ find p start
  kept_stored es d d' name plain h after p jsonl =
      rw (after p (jsonl-whole p jsonl)) (elim (Bool-cases (eq_name p (container name))) [
        | inl e ↦ cc (
            let clash : true ≡ false =
              sym jsonl ∙ rw (eq_name→eq p (container name) e) (not-jsonl-gz name) in
            clash)
        | inr e ↦ rw e (h.kept p jsonl)
      ])

  right_stored :
      (es : List Entry) (d d' : Directory) (name : Str) (own : Bytes)
      → IsRight es d
      → KeptAt name own d d'
      → find name start ≡ some own
      → (n : Str) (e : Entry) (plain : Bytes)
      → find_entry n (es ++ entry_of c name own ∷ []) ≡ some e
      → find n start ≡ some plain
      → (e ≡ entry_of c n plain) × (find (container n) d' ≡ some (c.compress plain))
  right_stored es d d' name own h after mine n e plain found theirs =
      let found' = sym (find_entry-append n es (entry_of c name own)) ∙ found in
      elim (Bool-cases (eq_name n name)) [
        | inl same ↦
            let s = eq_name→eq n name same in
            let owns : own ≡ plain =
              some-injective _ _ (sym mine ∙ ap (λ k. find k start) (sym s) ∙ theirs) in
            (
              elim (Option-cases (find_entry n es)) [
                | inl none_yet ↦
                    sym (
                      some-injective _ _ (
                        let q : some (entry_of c name own) ≡ some e =
                          rw (none_yet, same) at found' in
                        q))
                    ∙ λ i. entry_of c (sym s i) (owns i)
                | inr (e', before) ↦
                    (h.right n e plain
                      (before ∙ (let q : some e' ≡ some e = rw before at found' in q)) theirs).0
              ],
              rw (after (container n) (partial-gz n), s, eq_name_refl (container name), owns) refl,
            )
        | inr other ↦
            let before : find_entry n es ≡ some e = elim (Option-cases (find_entry n es)) [
              | inl none_yet ↦ cc (let q : none ≡ some e = rw (none_yet, other) at found' in q)
              | inr (e', b) ↦ b ∙ (let q : some e' ≡ some e = rw b at found' in q)
            ] in
            let (l, r) = h.right n e plain before theirs in
            (l, rw (after (container n) (partial-gz n), other_container n name other) r)
      ]

  -- A finished loop has an entry for each of its names, and for what had one before.
  abbrev pub RunIsRight : List Str → List Entry → Run → Type 0
  RunIsRight names es (failed d written error) = Unit
  RunIsRight names es (finished d es') =
      IsRight es' d
      × ((n : Str)
          → In n names ⊎ (is_some (find_entry n es) ≡ true)
          → is_some (find_entry n es') ≡ true)

  still_found :
      (n name : Str) (plain : Bytes) (es : List Entry)
      → (n ≡ name) ⊎ (is_some (find_entry n es) ≡ true)
      → is_some (find_entry n (es ++ entry_of c name plain ∷ [])) ≡ true
  still_found n name plain es (inl e) =
      rw (find_entry-append n es (entry_of c name plain)) (ground (arith, eq_name_iff n name))
  still_found n name plain es (inr h) = rw (find_entry-append n es (entry_of c name plain), h) h

  next-IsRight :
      (names : List Str) (es : List Entry) (name : Str) (plain : Bytes) (run : Run)
      → RunIsRight names (es ++ entry_of c name plain ∷ []) run
      → RunIsRight (name ∷ names) es run
  next-IsRight names es name plain (failed d written error) h = tt
  next-IsRight names es name plain (finished d es') (h, found) = (h, pick)
    where
      pick :
          (n : Str)
          → In n (name ∷ names) ⊎ (is_some (find_entry n es) ≡ true)
          → is_some (find_entry n es') ≡ true
      pick n (inl (inl e)) = found n (inr (still_found n name plain es (inl e)))
      pick n (inl (inr m)) = found n (inl m)
      pick n (inr old) = found n (inr (still_found n name plain es (inr old)))

  continue-IsRight :
      (names written : List Str) (es : List Entry) (name : Str) (plain : Bytes) (d : Directory)
      (o : Outcome)
      → HasEntry c name plain o
      → ((p : Str) (whole : is_partial p ≡ false) → KeptAtOutcome c name plain d p whole o)
      → find name start ≡ some plain
      → IsRight es d
      → ((d' : Directory)
          → IsRight (es ++ entry_of c name plain ∷ []) d'
          → RunIsRight names (es ++ entry_of c name plain ∷ []) (
              compress_names c names
                (written ++ container name ∷ [])
                (es ++ entry_of c name plain ∷ [])
                d'))
      → RunIsRight (name ∷ names) es (continue c start names written es name d o)
  continue-IsRight names written es name plain d (raised d' error) entry after mine h next = tt
  continue-IsRight names written es name plain d (stored d' e) entry after mine h next = rw entry (
      next-IsRight names es name plain _ (
        next d' (record {
          kept = kept_stored es d d' name plain h after;
          right = right_stored es d d' name plain h after mine;
        })))

  work-IsRight :
      (names written : List Str) (es : List Entry) (name : Str) (d : Directory) (o : Option Bytes)
      → find name d ≡ o
      → is_jsonl name ≡ true
      → IsRight es d
      → ((plain : Bytes) (d' : Directory)
          → IsRight (es ++ entry_of c name plain ∷ []) d'
          → RunIsRight names (es ++ entry_of c name plain ∷ []) (
              compress_names c names
                (written ++ container name ∷ [])
                (es ++ entry_of c name plain ∷ [])
                d'))
      → RunIsRight (name ∷ names) es (continue c start names written es name d (work c o name d))
  work-IsRight names written es name d none there jsonl h next = tt
  work-IsRight names written es name d (some plain) there jsonl h next =
      continue-IsRight names written es name plain d (compress_one c name plain d)
        (compress_one-HasEntry c name plain d) (compress_one-kept c name plain d)
        (sym (h.kept name jsonl) ∙ there) h (next plain)

  pub compress_names-IsRight :
      (names written : List Str) (es : List Entry) (d : Directory)
      → All (λ n. is_jsonl n ≡ true) names
      → IsRight es d
      → RunIsRight names es (compress_names c names written es d)
  unfolding compress_names
  compress_names-IsRight [] written es d jsonl h = (h, no_more)
    where
      no_more :
          (n : Str)
          → In n [] ⊎ (is_some (find_entry n es) ≡ true)
          → is_some (find_entry n es) ≡ true
      no_more n (inl m) = not-In-nil n m
      no_more n (inr old) = old
  compress_names-IsRight (name ∷ names) written es d jsonl h =
      work-IsRight names written es name d (find name d) refl jsonl.0 h λ plain d' h'.
        compress_names-IsRight names (written ++ container name ∷ [])
          (es ++ entry_of c name plain ∷ []) d' jsonl.1 h'
