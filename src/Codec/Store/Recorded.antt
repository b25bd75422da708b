-- ===== src/Codec/Store/Recorded.antt =====
-- What the store says of evidence without opening it, after a compression that returned.
use llm_vs_zombies.Base.{◌≡◌, refl, true, List, some, length, Str, find, ok, ◌>>=◌}
use llm_vs_zombies.Codec.Directory.{Bytes, is_jsonl}
use llm_vs_zombies.Codec.Compress.{Codec, Archive, Entry, compress_evidence}
use llm_vs_zombies.Codec.Store.{stored_path, exists, size, plain_sha256, stored_sha256}
use llm_vs_zombies.Codec.Store.Reading.{IsStored, compress_evidence-IsStored}

module _ (c : Codec) (a : Archive) (name : Str) (plain : Bytes) (h : IsStored c a name plain) where
  IsStored-exists : exists a name ≡ ok true
  unfolding exists
  IsStored-exists = rw (h.has_entry, h.has_container) refl

  IsStored-size : size a name ≡ ok (length (c.compress plain))
  unfolding size stored_path ◌>>=◌
  IsStored-size = rw (h.has_entry, h.has_container, h.has_container) refl

  IsStored-plain_sha256 : plain_sha256 c a name ≡ ok (c.sha256 plain)
  unfolding plain_sha256
  IsStored-plain_sha256 = rw h.has_entry refl

  IsStored-stored_sha256 : stored_sha256 c a name ≡ ok (c.sha256 (c.compress plain))
  unfolding stored_sha256
  IsStored-stored_sha256 = rw h.has_entry refl

-- If `compress_evidence` returns, then for every evidence file of the directory the store says that it
-- exists, gives the digest of the bytes that the file held as its plain digest, and the digest and the
-- size of its container as those that are stored.
pub exists-compress_evidence :
    (c : Codec) (a a' : Archive) (es : List Entry) (name : Str) (plain : Bytes)
    → compress_evidence c a ≡ (a', ok es)
    → is_jsonl name ≡ true
    → find name a.files ≡ some plain
    → (exists a' name ≡ ok true)
      × (plain_sha256 c a' name ≡ ok (c.sha256 plain))
      × (stored_sha256 c a' name ≡ ok (c.sha256 (c.compress plain)))
      × (size a' name ≡ ok (length (c.compress plain)))
exists-compress_evidence c a a' es name plain h jsonl there =
    let s = compress_evidence-IsStored c a a' es name plain h jsonl there in
    (
      IsStored-exists c a' name plain s,
      IsStored-plain_sha256 c a' name plain s,
      IsStored-stored_sha256 c a' name plain s,
      IsStored-size c a' name plain s,
    )
