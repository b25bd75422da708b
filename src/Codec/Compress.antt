-- ===== src/Codec/Compress.antt =====
-- `compress_evidence`: every JSONL file of a directory is replaced by a verified container.
use llm_vs_zombies.Base.{
  ℕ, Bool, true, false, take, ◌&&◌, List, [], ◌∷◌, ◌++◌, Option, none, some, if◌then◌else◌, ◌==◌,
  length, any, is_some, Str, eq_name, find, sorted_set, map, keep, Result, ok, err,
}
use llm_vs_zombies.Codec.Directory.{
  Bytes, Directory, write, unlink, is_jsonl, gz, gz_partial, drop_partials,
}

-- An entry of the receipt; the name of the container and of the codec follow from the name.
pub record Entry : Type 0 where
  pub name : Str
  pub plain_sha256 : Str
  pub plain_bytes : ℕ
  pub stored_sha256 : Str
  pub stored_bytes : ℕ

-- A directory with the receipt, if there is one; `files` holds neither the receipt's file nor its temporary
-- file, which no other operation reads.
pub record Archive : Type 0 where
  pub files : Directory
  pub receipt : Option (List Entry)

-- Where the operating system raises in the work on one name; an interrupted compression leaves bytes.
pub data Fault : Type 0 where
  in_compressing : Bytes → Fault
  in_hashing : Fault
  in_replacing : Fault

-- Where the operating system raises after the loop, outside its handler: before the receipt is in place,
-- when the directory is synchronized with the receipt in it, at one of the names to reclaim, the given
-- number of them being gone, or when the directory is synchronized last.
pub data LateFault : Type 0 where
  writing_receipt : LateFault
  syncing_receipt : LateFault
  unlinking : ℕ → LateFault
  syncing_directory : LateFault

-- gzip and SHA-256, the faults that meet each name, and the one after the loop. The removals of the
-- handler itself do not fail, and no interrupt falls between two calls.
pub record Codec : Type 0 where
  pub compress : Bytes → Bytes
  pub decompress : Bytes → Option Bytes
  pub sha256 : Bytes → Str
  pub fault : Str → Option Fault
  pub late_fault : Option LateFault

pub data CodecError : Type 0 where
  already_compressed : CodecError
  no_evidence : CodecError
  already_contains_containers : CodecError
  does_not_reproduce : Str → CodecError
  -- an exception of the operating system or of gzip
  system_error : Str → CodecError
  -- one of the operating system after the loop
  late_error : LateFault → CodecError

abbrev pub is_late : CodecError → Bool
is_late (late_error _) = true
is_late _ = false

-- What the body of the loop leaves for one name.
pub data Outcome : Type 0 where
  stored : Directory → Entry → Outcome
  raised : Directory → CodecError → Outcome

abbrev pub container : Str → Str
container name = name ++ gz

abbrev pub temporary : Str → Str
temporary name = name ++ gz_partial

module _ (c : Codec) where
  -- `(recovered_sha, recovered_bytes) == (plain_sha, plain_bytes)`
  abbrev pub reproduces : Bytes → Bytes → Bool
  reproduces recovered plain =
      eq_name (c.sha256 recovered) (c.sha256 plain) && length recovered == length plain

  abbrev pub entry_of : Str → Bytes → Entry
  entry_of name plain = record {
    name = name;
    plain_sha256 = c.sha256 plain;
    plain_bytes = length plain;
    stored_sha256 = c.sha256 (c.compress plain);
    stored_bytes = length (c.compress plain);
  }

  -- `os.replace(temporary, stored)` and the entry
  abbrev pub replaced : Str → Bytes → Directory → Outcome
  replaced name plain d =
      stored (write (container name) (c.compress plain) (unlink (temporary name) d))
        (entry_of name plain)

  abbrev pub replacing : Option Fault → Str → Bytes → Directory → Outcome
  replacing (some in_replacing) name plain d = raised d (system_error name)
  replacing _ name plain d = replaced name plain d

  -- The comparison with the plain bytes.
  abbrev pub verifying : Option Bytes → Option Fault → Str → Bytes → Directory → Outcome
  verifying none fault name plain d = raised d (system_error name)
  verifying (some recovered) fault name plain d =
      if reproduces recovered plain
      then replacing fault name plain d
      else raised d (does_not_reproduce name)

  abbrev pub hashing : Option Fault → Str → Bytes → Directory → Outcome
  hashing (some in_hashing) name plain d = raised d (system_error name)
  hashing fault name plain d = verifying (c.decompress (c.compress plain)) fault name plain d

  abbrev pub compressing : Option Fault → Str → Bytes → Directory → Outcome
  compressing (some (in_compressing bytes)) name plain d =
      raised (write (temporary name) bytes d) (system_error name)
  compressing fault name plain d =
      hashing fault name plain (write (temporary name) (c.compress plain) d)

  -- The temporary file is opened with "xb", which refuses a file that exists.
  unfoldable pub compress_one : Str → Bytes → Directory → Outcome
  compress_one name plain d =
      if is_some (find (temporary name) d)
      then raised d (system_error name)
      else compressing (c.fault name) name plain d

-- What the loop over the names leaves: its entries, or the containers it wrote and its error.
pub data Run : Type 0 where
  finished : Directory → List Entry → Run
  failed : Directory → List Str → CodecError → Run

module _ (c : Codec) where
  abbrev pub work : Option Bytes → Str → Directory → Outcome
  work none name d = raised d (system_error name)
  work (some plain) name d = compress_one c name plain d

  unfoldable pub compress_names : List Str → List Str → List Entry → Directory → Run
  unfolding compress_one
  compress_names [] written entries d = finished d entries
  compress_names (name ∷ names) written entries d = elim (work (find name d) name d) [
    | stored d' entry ↦
        compress_names names (written ++ container name ∷ []) (entries ++ entry ∷ []) d'
    | raised d' error ↦ failed d' written error
  ]

unfoldable pub unlink_all : List Str → Directory → Directory
unfolding unlink
unlink_all [] d = d
unlink_all (name ∷ names) d = unlink_all names (unlink name d)

-- `sorted(path.name for path in directory.iterdir() if path.name.endswith(".jsonl"))`
unfoldable pub jsonl_names : Directory → List Str
unfolding sorted_set
jsonl_names d = sorted_set (keep is_jsonl (map (λ file. file.0) d))

-- `_write_receipt`, the removal of the plain files and `_fsync_directory`, which no handler guards.
abbrev pub reclaim :
    Option LateFault
    → Archive
    → List Str
    → Directory
    → List Entry
    → Archive × Result CodecError (List Entry)
reclaim none a names d entries =
    (record { files = unlink_all names d; receipt = some entries }, ok entries)
reclaim (some writing_receipt) a names d entries =
    (record a { files = d }, err (late_error writing_receipt))
reclaim (some syncing_receipt) a names d entries =
    (record { files = d; receipt = some entries }, err (late_error syncing_receipt))
reclaim (some (unlinking n)) a names d entries = (
  record { files = unlink_all (take n names) d; receipt = some entries },
  err (late_error (unlinking n)),
)
reclaim (some syncing_directory) a names d entries = (
  record { files = unlink_all names d; receipt = some entries },
  err (late_error syncing_directory),
)

-- The handler removes the containers and the partial files, and raises again.
abbrev pub settle : Codec → Archive → List Str → Run → Archive × Result CodecError (List Entry)
settle c a names (finished d entries) = reclaim c.late_fault a names d entries
settle c a names (failed d written error) =
    (record a { files = drop_partials (unlink_all written d) }, err error)

unfoldable pub compress_evidence : Codec → Archive → Archive × Result CodecError (List Entry)
unfolding compress_names unlink_all jsonl_names drop_partials
compress_evidence c a =
    let names = jsonl_names a.files in
    if is_some a.receipt
    then (a, err already_compressed)
    else if length names == 0
    then (a, err no_evidence)
    else if any (λ name. is_some (find (container name) a.files)) names
    then (a, err already_contains_containers)
    else settle c a names (compress_names c names [] [] a.files)
