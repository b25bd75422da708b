-- ===== src/Codec/Store/Reading.antt =====
-- Evidence that was compressed, as the store reads it.
use llm_vs_zombies.Base.{
  ◌≡◌, refl, sym, ap, ◌∙◌, true, false, List, [], ◌∷◌, Option, none, some, ◌==◌, ==-refl, length,
  any, is_some, Str, eq_name, eq_name→eq, eq_name_iff, eq_name_refl, find, map, Bool-cases,
  Option-cases, inl, inr, arith, All, In, In-keep, In-keep_test, All-of_In, not-In-nil, Result, ok,
  err, ◌>>=◌, on_some,
}
use llm_vs_zombies.Base.Names.Sets.{In-sorted_set, In-of_sorted_set}
use llm_vs_zombies.Codec.Directory.{Bytes, Directory, is_jsonl, not-jsonl-gz}
use llm_vs_zombies.Codec.Compress.{
  Codec, CodecError, already_compressed, no_evidence, already_contains_containers, Run, finished,
  failed, Archive, Entry, container, compress_names, compress_evidence, entry_of, jsonl_names,
  settle, reclaim, LateFault, writing_receipt, syncing_receipt, unlinking, syncing_directory,
}
use llm_vs_zombies.Codec.Store.{
  find_entry, entry, stored_path, open_evidence, verify, stored_sha256,
}
use llm_vs_zombies.Codec.Kept.{find-unlink_all}
use llm_vs_zombies.Codec.Store.RoundTrip.{IsRight, RunIsRight, compress_names-IsRight}

In-files :
    (d : Directory) (name : Str) (content : Bytes)
    → find name d ≡ some content
    → In name (map (λ file. file.0) d)
In-files [] name content h = cc
In-files ((n, c) ∷ d) name content h = elim (Bool-cases (eq_name name n)) [
  | inl e ↦ inl (eq_name→eq name n e)
  | inr e ↦ inr (In-files d name content (rw e at h))
]

jsonl_names-jsonl : (d : Directory) → All (λ n. is_jsonl n ≡ true) (jsonl_names d)
unfolding jsonl_names
jsonl_names-jsonl d =
    All-of_In _ (jsonl_names d)
      λ n m. In-keep_test is_jsonl (map (λ file. file.0) d) n (In-of_sorted_set _ n m)

In-jsonl_names :
    (d : Directory) (name : Str) (content : Bytes)
    → find name d ≡ some content
    → is_jsonl name ≡ true
    → In name (jsonl_names d)
unfolding jsonl_names
In-jsonl_names d name content h jsonl =
    In-sorted_set _ name (In-keep is_jsonl _ name (In-files d name content h) jsonl)

any-In : (name : Str) (names : List Str) → In name names → any (eq_name name) names ≡ true
any-In name [] m = not-In-nil name m
any-In name (n ∷ names) (inl e) = ground (arith, eq_name_iff name n)
any-In name (n ∷ names) (inr m) = ground (arith, any-In name names m)

any-container :
    (name : Str) (names : List Str)
    → All (λ n. is_jsonl n ≡ true) names
    → any (eq_name (container name)) names ≡ false
any-container name [] h = refl
any-container name (n ∷ names) (jsonl, h) = elim (Bool-cases (eq_name (container name) n)) [
  | inr e ↦ rw e (any-container name names h)
  | inl e ↦ cc (
      let clash : true ≡ false =
        sym jsonl ∙ rw (← eq_name→eq (container name) n e) (not-jsonl-gz name) in
      clash)
]

-- What the store sees after a compression that returned.
pub record IsStored (c : Codec) (a : Archive) (name : Str) (plain : Bytes) : Type 0 where
  pub has_entry : entry a name ≡ some (entry_of c name plain)
  pub has_container : find (container name) a.files ≡ some (c.compress plain)
  pub reclaimed : find name a.files ≡ none

reclaim-IsStored :
    (c : Codec) (late : Option LateFault) (a a' : Archive) (es : List Entry) (d : Directory)
    (es' : List Entry) (name : Str) (plain : Bytes)
    → RunIsRight c a.files (jsonl_names a.files) [] (finished d es')
    → is_jsonl name ≡ true
    → find name a.files ≡ some plain
    → reclaim late a (jsonl_names a.files) d es' ≡ (a', ok es)
    → IsStored c a' name plain
unfolding entry on_some
reclaim-IsStored c none a a' es d es' name plain (right, found) jsonl there h =
    let there_in = In-jsonl_names a.files name plain there jsonl in
    rw (← ap (λ r. r.0) h) (elim (Option-cases (find_entry name es')) [
      | inl none_yet ↦
          cc (let clash : false ≡ true = rw none_yet at (found name (inl there_in)) in clash)
      | inr (e, f) ↦
          let (l, r) = right.right name e plain f there in
          record {
            has_entry = f ∙ ap some l;
            has_container =
                rw
                  (
                    find-unlink_all (container name) (jsonl_names a.files) d,
                    any-container name (jsonl_names a.files) (jsonl_names-jsonl a.files),
                  )
                  r;
            reclaimed =
                rw
                  (
                    find-unlink_all name (jsonl_names a.files) d,
                    any-In name (jsonl_names a.files) there_in,
                  )
                  refl;
          }
    ])
reclaim-IsStored c (some writing_receipt) a a' es d es' name plain right jsonl there h = cc
reclaim-IsStored c (some syncing_receipt) a a' es d es' name plain right jsonl there h = cc
reclaim-IsStored c (some (unlinking n)) a a' es d es' name plain right jsonl there h = cc
reclaim-IsStored c (some syncing_directory) a a' es d es' name plain right jsonl there h = cc

settle-IsStored :
    (c : Codec) (a a' : Archive) (es : List Entry) (run : Run) (name : Str) (plain : Bytes)
    → RunIsRight c a.files (jsonl_names a.files) [] run
    → is_jsonl name ≡ true
    → find name a.files ≡ some plain
    → settle c a (jsonl_names a.files) run ≡ (a', ok es)
    → IsStored c a' name plain
settle-IsStored c a a' es (failed d written error) name plain right jsonl there h = cc
settle-IsStored c a a' es (finished d es') name plain right jsonl there h =
    reclaim-IsStored c c.late_fault a a' es d es' name plain right jsonl there h

nothing_done : (c : Codec) (d : Directory) → IsRight c d [] d
unfolding find_entry
nothing_done c d = record { kept = λ p _. refl; right = λ n e plain h _. cc }

refused :
    {B : Type 0} (a a' : Archive) (e : CodecError) (es : List Entry)
    → ◌≡◌ {A = Archive × Result CodecError (List Entry)} (a, err e) (a', ok es)
    → B
refused a a' e es h = cc

-- Past the guards, the archive is what the loop left.
passed :
    (c : Codec) (a a' : Archive) (es : List Entry)
    → compress_evidence c a ≡ (a', ok es)
    → settle c a (jsonl_names a.files) (compress_names c (jsonl_names a.files) [] [] a.files)
      ≡ (a', ok es)
unfolding compress_evidence
passed c a a' es h = elim (Bool-cases (is_some a.receipt)) [
  | inl old ↦ refused a a' already_compressed es (rw old at h)
  | inr old ↦ elim (Bool-cases (length (jsonl_names a.files) == 0)) [
    | inl empty ↦ refused a a' no_evidence es (rw (old, empty) at h)
    | inr empty ↦
        elim (Bool-cases (any (λ n. is_some (find (container n) a.files)) (jsonl_names a.files))) [
          | inl there ↦ refused a a' already_contains_containers es (rw (old, empty, there) at h)
          | inr there ↦ rw (old, empty, there) at h
        ]
  ]
]

pub compress_evidence-IsStored :
    (c : Codec) (a a' : Archive) (es : List Entry) (name : Str) (plain : Bytes)
    → compress_evidence c a ≡ (a', ok es)
    → is_jsonl name ≡ true
    → find name a.files ≡ some plain
    → IsStored c a' name plain
compress_evidence-IsStored c a a' es name plain h jsonl there =
    settle-IsStored c a a' es _ name plain
      (compress_names-IsRight c a.files (jsonl_names a.files) [] [] a.files
        (jsonl_names-jsonl a.files) (nothing_done c a.files))
      jsonl there (passed c a a' es h)

module _ (c : Codec) (gzip : (b : Bytes) → c.decompress (c.compress b) ≡ some b) where
  IsStored-open :
      (a : Archive) (name : Str) (plain : Bytes)
      → IsStored c a name plain
      → open_evidence c a name ≡ ok plain
  unfolding open_evidence stored_path ◌>>=◌
  IsStored-open a name plain h = rw (h.has_entry, h.has_container, h.has_container, gzip plain) refl

  IsStored-verify :
      (a : Archive) (name : Str) (plain : Bytes) → IsStored c a name plain → verify c a name ≡ ok tt
  unfolding verify stored_path stored_sha256 ◌>>=◌ on_some
  IsStored-verify a name plain h =
      rw
        (
          h.has_entry,
          h.has_container,
          h.has_container,
          eq_name_refl (c.sha256 (c.compress plain)),
          gzip plain,
          eq_name_refl (c.sha256 plain),
          ==-refl (length plain),
          h.reclaimed,
        )
        refl

  -- If gzip gives back what it compressed and `compress_evidence` returns, then for every evidence file
  -- of the directory the store reads the bytes that the file held and verifies them, and the file
  -- itself is gone.
  pub open_evidence-compress_evidence :
      (a a' : Archive) (es : List Entry) (name : Str) (plain : Bytes)
      → compress_evidence c a ≡ (a', ok es)
      → is_jsonl name ≡ true
      → find name a.files ≡ some plain
      → (open_evidence c a' name ≡ ok plain)
        × (verify c a' name ≡ ok tt)
        × (find name a'.files ≡ none)
  open_evidence-compress_evidence a a' es name plain h jsonl there =
      let s = compress_evidence-IsStored c a a' es name plain h jsonl there in
      (IsStored-open a' name plain s, IsStored-verify a' name plain s, s.reclaimed)
