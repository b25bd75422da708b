-- ===== src/Codec/Rollback.antt =====
-- The handler of a compression that raises.
use llm_vs_zombies.Base.{
  ◌≡◌, ◌≢◌, refl, sym, ap, ◌∙◌, Result, ok, Bool, subst, true, false, ◌||◌, List, [], ◌∷◌, ◌++◌,
  Option, none, some, if◌then◌else◌, ◌==◌, length, any, is_some, Str, eq_name, eq_name_iff, find,
  Bool-cases, Option-cases, inl, inr, arith, All, err,
}
use llm_vs_zombies.Codec.Directory.{Bytes, Directory, is_partial, drop_partials, find-drop_partials}
use llm_vs_zombies.Codec.Compress.{
  Codec, CodecError, Outcome, stored, raised, Run, finished, failed, Archive, Entry, container,
  compress_one, compress_names, unlink_all, compress_evidence, work, settle, reclaim, LateFault,
  writing_receipt, syncing_receipt, unlinking, syncing_directory, late_error, is_late, jsonl_names,
}
use llm_vs_zombies.Codec.Kept.{find-unlink_all, KeptAtOutcome, compress_one-kept}

-- The directory without the containers written so far is the one that the run started from.
module _ (c : Codec) (start : Directory) where
  abbrev IsUndone : List Str → Directory → Type 0
  IsUndone written d =
      (p : Str) → is_partial p ≡ false → find p (unlink_all written d) ≡ find p start

  abbrev RunIsUndone : Run → Type 0
  RunIsUndone (finished d entries) = Unit
  RunIsUndone (failed d written error) = IsUndone written d

  any-append :
      (p : Str) (xs : List Str) (n : Str)
      → any (eq_name p) (xs ++ n ∷ []) ≡ (any (eq_name p) xs || eq_name p n)
  any-append p [] n = ground arith
  any-append p (x ∷ xs) n = ground (arith, any-append p xs n)

  after_stored :
      (name : Str) (plain : Bytes) (written : List Str) (d d' : Directory)
      → find (container name) start ≡ none
      → ((p : Str)
          → is_partial p ≡ false
          → find p d' ≡ (if eq_name p (container name) then some (c.compress plain) else find p d))
      → IsUndone written d
      → IsUndone (written ++ container name ∷ []) d'
  after_stored name plain written d d' absent kept undone p whole =
      rw
        (
          find-unlink_all p (written ++ container name ∷ []) d',
          any-append p written (container name),
          kept p whole,
        )
        (ground (
          arith,
          eq_name_iff p (container name),
          undone p whole,
          find-unlink_all p written d,
          absent,
        ))

  -- The rest of the loop, after the work on one name.
  abbrev pub continue : List Str → List Str → List Entry → Str → Directory → Outcome → Run
  continue names written es name d o = elim o [
    | stored d' entry ↦
        compress_names c names (written ++ container name ∷ []) (es ++ entry ∷ []) d'
    | raised d' error ↦ failed d' written error
  ]

  continue-IsUndone :
      (names written : List Str) (es : List Entry) (name : Str) (plain : Bytes) (d : Directory)
      (o : Outcome)
      → find (container name) start ≡ none
      → ((p : Str) (whole : is_partial p ≡ false) → KeptAtOutcome c name plain d p whole o)
      → IsUndone written d
      → ((d' : Directory) (entry : Entry)
          → IsUndone (written ++ container name ∷ []) d'
          → RunIsUndone
              (compress_names c names (written ++ container name ∷ []) (es ++ entry ∷ []) d'))
      → RunIsUndone (continue names written es name d o)
  continue-IsUndone names written es name plain d (stored d' entry) absent kept undone next =
      next d' entry (after_stored name plain written d d' absent kept undone)
  continue-IsUndone names written es name plain d (raised d' error) absent kept undone next =
      λ p whole.
        rw (find-unlink_all p written d', kept p whole, ← find-unlink_all p written d)
          (undone p whole)

  work-IsUndone :
      (names written : List Str) (es : List Entry) (name : Str) (d : Directory) (o : Option Bytes)
      → find (container name) start ≡ none
      → IsUndone written d
      → ((d' : Directory) (entry : Entry)
          → IsUndone (written ++ container name ∷ []) d'
          → RunIsUndone
              (compress_names c names (written ++ container name ∷ []) (es ++ entry ∷ []) d'))
      → RunIsUndone (continue names written es name d (work c o name d))
  work-IsUndone names written es name d none absent undone next = undone
  work-IsUndone names written es name d (some plain) absent undone next =
      continue-IsUndone names written es name plain d (compress_one c name plain d) absent
        (compress_one-kept c name plain d) undone next

  compress_names-IsUndone :
      (names written : List Str) (es : List Entry) (d : Directory)
      → All (λ n. find (container n) start ≡ none) names
      → IsUndone written d
      → RunIsUndone (compress_names c names written es d)
  unfolding compress_names
  compress_names-IsUndone [] written es d absent undone = tt
  compress_names-IsUndone (name ∷ names) written es d absent undone =
      work-IsUndone names written es name d (find name d) absent.0 undone λ d' entry u.
        compress_names-IsUndone names (written ++ container name ∷ []) (es ++ entry ∷ []) d'
          absent.1 u

none_of_any :
    (f : Str → Str) (d : Directory) (names : List Str)
    → any (λ n. is_some (find (f n) d)) names ≡ false
    → All (λ n. find (f n) d ≡ none) names
none_of_any f d [] h = tt
none_of_any f d (n ∷ names) h = elim (Option-cases (find (f n) d)) [
  | inl e ↦ (e, none_of_any f d names (ground arith))
  | inr (x, e) ↦ cc (let bad : true ≡ false = rw e at h in bad)
]

raises_late : Result CodecError (List Entry) → Bool
raises_late (ok es) = false
raises_late (err e) = is_late e

not_late :
    (e : CodecError) (f : LateFault)
    → is_late e ≡ false
    → ◌≢◌ {A = Result CodecError (List Entry)} (err (late_error f)) (err e)
unfolding raises_late
not_late e f early h = cc (let bad : true ≡ false = ap raises_late h ∙ early in bad)

reclaim-late :
    (late : Option LateFault) (a : Archive) (names : List Str) (d : Directory)
    (entries : List Entry) (e : CodecError)
    → is_late e ≡ false
    → (reclaim late a names d entries).1 ≢ err e
reclaim-late none a names d entries e early h = cc
reclaim-late (some writing_receipt) a names d entries e early h = not_late e _ early h
reclaim-late (some syncing_receipt) a names d entries e early h = not_late e _ early h
reclaim-late (some (unlinking n)) a names d entries e early h = not_late e _ early h
reclaim-late (some syncing_directory) a names d entries e early h = not_late e _ early h

settle-files :
    (c : Codec) (a : Archive) (names : List Str) (run : Run) (e : CodecError)
    → drop_partials a.files ≡ a.files
    → is_late e ≡ false
    → ((d : Directory) (written : List Str) (error : CodecError)
        → run ≡ failed d written error
        → (p : Str) → is_partial p ≡ false
        → find p (unlink_all written d) ≡ find p a.files)
    → (settle c a names run).1 ≡ err e
    → (p : Str)
    → (find p (settle c a names run).0.files ≡ find p a.files)
      × ((settle c a names run).0.receipt ≡ a.receipt)
settle-files c a names (finished d entries) e clean early undone h p =
    absurd (reclaim-late c.late_fault a names d entries e early h)
settle-files c a names (failed d written error) e clean early undone h p = (
  elim (Bool-cases (is_partial p)) [
    | inr whole ↦
        rw (find-drop_partials p (unlink_all written d), whole)
          (undone d written error refl p whole)
    | inl part ↦
        rw (find-drop_partials p (unlink_all written d), part)
          (sym (rw (← clean) (rw (find-drop_partials p a.files, part) refl)))
  ],
  refl,
)

unlink_none : (d : Directory) (q : Str) → find q (unlink_all [] d) ≡ find q d
unfolding unlink_all
unlink_none d q = refl

-- Where `compress_evidence` raises before it writes the receipt, whether a guard refuses the archive or
-- gzip, the comparison or the system fails at any name, every path of the directory holds what it held
-- and the receipt is the old one, if no partial file lay in the directory.
pub compress_evidence-rollback :
    (c : Codec) (a : Archive) (e : CodecError)
    → drop_partials a.files ≡ a.files
    → is_late e ≡ false
    → (compress_evidence c a).1 ≡ err e
    → (p : Str)
    → (find p (compress_evidence c a).0.files ≡ find p a.files)
      × ((compress_evidence c a).0.receipt ≡ a.receipt)
unfolding compress_evidence
compress_evidence-rollback c a e clean early h p = elim (Bool-cases (is_some a.receipt)) [
  | inl old ↦ rw old (refl, refl)
  | inr old ↦ elim (Bool-cases (length (jsonl_names a.files) == 0)) [
    | inl empty ↦ rw (old, empty) (refl, refl)
    | inr empty ↦
        elim (Bool-cases (any (λ n. is_some (find (container n) a.files)) (jsonl_names a.files))) [
          | inl there ↦ rw (old, empty, there) (refl, refl)
          | inr there ↦
              rw (old, empty, there)
                (settle-files c a (jsonl_names a.files) _ e clean early
                  (λ d written error run. subst (RunIsUndone c a.files) run (
                    compress_names-IsUndone c a.files (jsonl_names a.files) [] [] a.files
                      (none_of_any container a.files (jsonl_names a.files) there)
                      (λ q _. unlink_none a.files q)))
                  (rw (old, empty, there) at h) p)
        ]
  ]
]
