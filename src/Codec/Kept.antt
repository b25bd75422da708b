-- ===== src/Codec/Kept.antt =====
-- What the work of `compress_evidence` on one name leaves at the other names.
use llm_vs_zombies.Base.{
  ◌≡◌, refl, true, false, List, [], ◌∷◌, Option, none, some, if◌then◌else◌, any, is_some, Str,
  eq_name, eq_name→eq, find, Bool-cases, inl, inr, arith,
}
use llm_vs_zombies.Codec.Directory.{
  Bytes, Directory, write, unlink, is_partial, find-write, find-unlink, partial_partial,
}
use llm_vs_zombies.Codec.Compress.{
  Codec, Fault, in_compressing, in_hashing, in_replacing, Outcome, stored, raised, container,
  temporary, compress_one, unlink_all, compressing, verifying, replacing, reproduces,
}

pub find-unlink_all :
    (p : Str) (names : List Str) (d : Directory)
    → find p (unlink_all names d) ≡ (if any (eq_name p) names then none else find p d)
unfolding unlink_all
find-unlink_all p [] d = refl
find-unlink_all p (n ∷ names) d =
    rw (find-unlink_all p names (unlink n d), find-unlink p n d) (ground arith)

-- What the work on one name leaves at the names that are not partial.
module _ (c : Codec) (name : Str) (plain : Bytes) (d : Directory) (p : Str)
    (whole : is_partial p ≡ false) where
  not_temporary : eq_name p (temporary name) ≡ false
  not_temporary = elim (Bool-cases (eq_name p (temporary name))) [
    | inr e ↦ e
    | inl e ↦ cc (
        let clash : is_partial p ≡ true =
          rw (eq_name→eq p (temporary name) e) (partial_partial name) in
        clash)
  ]

  abbrev pub KeptAtOutcome : Outcome → Type 0
  KeptAtOutcome (raised d' error) = find p d' ≡ find p d
  KeptAtOutcome (stored d' entry) =
      find p d' ≡ (if eq_name p (container name) then some (c.compress plain) else find p d)

  find-write-temporary : (bytes : Bytes) → find p (write (temporary name) bytes d) ≡ find p d
  find-write-temporary bytes = rw (find-write p (temporary name) bytes d, not_temporary) refl

  finish :
      (bytes : Bytes) → KeptAtOutcome (replacing c none name plain (write (temporary name) bytes d))
  finish bytes =
      rw
        (
          find-write p (container name) (c.compress plain)
              (unlink (temporary name) (write (temporary name) bytes d)),
          find-unlink p (temporary name) (write (temporary name) bytes d),
          not_temporary,
          find-write-temporary bytes,
        )
        refl

  replacing-kept :
      (fault : Option Fault) (bytes : Bytes)
      → KeptAtOutcome (replacing c fault name plain (write (temporary name) bytes d))
  replacing-kept (some in_replacing) bytes = find-write-temporary bytes
  replacing-kept none bytes = finish bytes
  replacing-kept (some (in_compressing _)) bytes = finish bytes
  replacing-kept (some in_hashing) bytes = finish bytes

  verifying-kept :
      (recovered : Option Bytes) (fault : Option Fault) (bytes : Bytes)
      → KeptAtOutcome (verifying c recovered fault name plain (write (temporary name) bytes d))
  verifying-kept none fault bytes = find-write-temporary bytes
  verifying-kept (some recovered) fault bytes = elim (Bool-cases (reproduces c recovered plain)) [
    | inl e ↦ rw e (replacing-kept fault bytes)
    | inr e ↦ rw e (find-write-temporary bytes)
  ]

  compressing-kept : (fault : Option Fault) → KeptAtOutcome (compressing c fault name plain d)
  compressing-kept (some (in_compressing bytes)) = find-write-temporary bytes
  compressing-kept (some in_hashing) = find-write-temporary (c.compress plain)
  compressing-kept none = verifying-kept _ none (c.compress plain)
  compressing-kept (some in_replacing) = verifying-kept _ (some in_replacing) (c.compress plain)

  pub compress_one-kept : KeptAtOutcome (compress_one c name plain d)
  unfolding compress_one
  compress_one-kept = elim (Bool-cases (is_some (find (temporary name) d))) [
    | inl e ↦ rw e refl
    | inr e ↦ rw e (compressing-kept (c.fault name))
  ]
