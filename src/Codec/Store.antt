-- ===== src/Codec/Store.antt =====
-- `EvidenceStore`: the store that resolves the names of evidence to their stored form.
pub mod RoundTrip
pub mod Reading
pub mod Recorded
use llm_vs_zombies.Base.{
  ℕ, Bool, true, false, ◌&&◌, ◌||◌, List, [], ◌∷◌, ◌++◌, Option, none, some, if◌then◌else◌, ◌==◌,
  length, any, is_some, not, on_some, Str, eq_name, find, Result, ok, err, ◌>>=◌, ◌>>◌, raise_if,
}
use llm_vs_zombies.Codec.Directory.{Bytes, Directory, is_jsonl, gz, ends_with}
use llm_vs_zombies.Codec.Compress.{Codec, Entry, Archive, container}

pub data StoreError : Type 0 where
  lacks_receipt : StoreError
  not_declared : Str → StoreError
  missing_evidence : Str → StoreError
  stored_changed : Str → StoreError
  no_longer_reproduces : Str → StoreError
  leftover_differs : Str → StoreError
  -- a container that gzip cannot read
  not_a_container : Str → StoreError

-- `self.entries.get(name)`
unfoldable pub find_entry : Str → List Entry → Option Entry
find_entry name [] = none
find_entry name (e ∷ es) = if eq_name name e.name then some e else find_entry name es

-- `__init__`: the store is its archive.
unfoldable pub open_store : Archive → Result StoreError Archive
unfolding ends_with
open_store a =
    if not (is_some a.receipt) && any (λ file. ends_with gz file.0) a.files
    then err lacks_receipt
    else ok a

abbrev pub entries : Archive → List Entry
entries a = on_some a.receipt [] (λ es. es)

unfoldable pub entry : Archive → Str → Option Entry
unfolding find_entry on_some
entry a name = find_entry name (entries a)

-- The name of the file that holds the evidence.
unfoldable pub stored_path : Archive → Str → Result StoreError Str
unfolding entry
stored_path a name =
    if is_some (entry a name)
    then ok (if is_some (find (container name) a.files) then container name else name)
    else if is_some a.receipt && is_jsonl name
    then err (not_declared name)
    else ok name

unfoldable pub exists : Archive → Str → Result StoreError Bool
unfolding entry
exists a name =
    if is_some (entry a name)
    then ok (is_some (find (container name) a.files) || is_some (find name a.files))
    else if is_some a.receipt && is_jsonl name
    then err (not_declared name)
    else ok (is_some (find name a.files))

abbrev pub existing : {A : Type 0} → Option A → Str → Result StoreError A
existing none name = err (missing_evidence name)
existing (some a) name = ok a

unfoldable pub size : Archive → Str → Result StoreError ℕ
unfolding stored_path
size a name = do
  path ← stored_path a name
  content ← existing (find path a.files) name
  ok (length content)

module _ (c : Codec) where
  -- The `digest` of an entry, or of the plain file where there is none.
  abbrev pub digest_of : Option Entry → (Entry → Str) → Archive → Str → Result StoreError Str
  digest_of (some e) digest a name = ok (digest e)
  digest_of none digest a name = do
    content ← existing (find name a.files) name
    ok (c.sha256 content)

  unfoldable pub plain_sha256 : Archive → Str → Result StoreError Str
  unfolding entry
  plain_sha256 a name = digest_of (entry a name) (λ e. e.plain_sha256) a name

  unfoldable pub stored_sha256 : Archive → Str → Result StoreError Str
  unfolding entry
  stored_sha256 a name = digest_of (entry a name) (λ e. e.stored_sha256) a name

  abbrev pub unpacked : Option Bytes → Str → Result StoreError Bytes
  unpacked none name = err (not_a_container name)
  unpacked (some bytes) name = ok bytes

  -- The bytes that a reader of `open(name)` gets.
  unfoldable pub open_evidence : Archive → Str → Result StoreError Bytes
  unfolding entry stored_path
  open_evidence a name = do
    path ← stored_path a name
    content ← existing (find path a.files) name
    if is_some (entry a name) then unpacked (c.decompress content) name else ok content

  -- `(plain_sha256, plain_bytes)` of an entry is that of the bytes.
  abbrev pub describes : Entry → Bytes → Bool
  describes e bytes = eq_name (c.sha256 bytes) e.plain_sha256 && length bytes == e.plain_bytes

  -- The part of `verify` about a container and the plain file beside it.
  abbrev pub verify_plain : Option Entry → Bytes → Archive → Str → Result StoreError (Unit {0})
  verify_plain none content a name = ok tt
  verify_plain (some e) content a name = do
    bytes ← unpacked (c.decompress content) name
    raise_if (not (describes e bytes)) (no_longer_reproduces name)
    raise_if (on_some (find name a.files) false (λ leftover. not (describes e leftover)))
        (leftover_differs name)

  unfoldable pub verify : Archive → Str → Result StoreError (Unit {0})
  unfolding entry stored_path stored_sha256 on_some
  verify a name = do
    path ← stored_path a name
    content ← on_some (find path a.files) (err (stored_changed path)) ok
    expected ← stored_sha256 a name
    raise_if (not (eq_name (c.sha256 content) expected)) (stored_changed path)
    verify_plain (entry a name) content a name
