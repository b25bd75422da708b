-- ===== src/Codec/Tests.antt =====
-- The compression of evidence at concrete inputs.
use llm_vs_zombies.Base.{
  ◌≡◌, refl, true, [], ◌∷◌, Option, none, some, if◌then◌else◌, Str, eq_name, find, codes, ok, err,
}
use llm_vs_zombies.Codec.Directory.{Bytes, is_jsonl, drop_partials, ends_with}
use llm_vs_zombies.Codec.Compress.{
  Codec, Entry, Archive, Fault, in_replacing, compress_evidence, system_error,
}
use llm_vs_zombies.Codec.Store.{open_evidence, verify, exists, plain_sha256, stored_sha256, size}
use llm_vs_zombies.Codec.Store.Recorded.{exists-compress_evidence}
use llm_vs_zombies.Codec.Rollback.{compress_evidence-rollback}
use llm_vs_zombies.Codec.Store.Reading.{open_evidence-compress_evidence}
use llm_vs_zombies.Base.{insert_name}
use llm_vs_zombies.Codec.Directory.{write}

abbrev decompressed : Bytes → Option Bytes
decompressed [] = none
decompressed (b ∷ bytes) = some bytes

-- A container is its bytes behind a mark, and a digest is the bytes themselves.
abbrev marked : (Str → Option Fault) → Codec
marked fault = record {
  compress = λ bytes. 31 ∷ bytes;
  decompress = decompressed;
  sha256 = λ bytes. bytes;
  fault = fault;
  late_fault = none;
}

abbrev sound : Codec
sound = marked (λ name. none)

abbrev failing : Codec
failing = marked (λ name. if eq_name name (codes "b.jsonl") then some in_replacing else none)

abbrev recorded : Archive
recorded = record {
  files = (codes "b.jsonl", 1 ∷ 2 ∷ []) ∷ (codes "m.json", 3 ∷ []) ∷ (codes "a.jsonl", 4 ∷ []) ∷ [];
  receipt = none;
}

abbrev entry_of_a : Entry
entry_of_a = record {
  name = codes "a.jsonl";
  plain_sha256 = 4 ∷ [];
  plain_bytes = 1;
  stored_sha256 = 31 ∷ 4 ∷ [];
  stored_bytes = 2;
}

abbrev entry_of_b : Entry
entry_of_b = record {
  name = codes "b.jsonl";
  plain_sha256 = 1 ∷ 2 ∷ [];
  plain_bytes = 2;
  stored_sha256 = 31 ∷ 1 ∷ 2 ∷ [];
  stored_bytes = 3;
}

abbrev compressed : Archive
compressed = record {
  files =
      (codes "m.json", 3 ∷ [])
      ∷ (codes "a.jsonl.gz", 31 ∷ 4 ∷ [])
      ∷ (codes "b.jsonl.gz", 31 ∷ 1 ∷ 2 ∷ [])
      ∷ [];
  receipt = some (entry_of_a ∷ entry_of_b ∷ []);
}

compression : compress_evidence sound recorded ≡ (compressed, ok (entry_of_a ∷ entry_of_b ∷ []))
unfolding compress_evidence ends_with insert_name write
compression = refl

failure : (compress_evidence failing recorded).1 ≡ err (system_error (codes "b.jsonl"))
unfolding compress_evidence ends_with insert_name write
failure = refl

b-is_jsonl : is_jsonl (codes "b.jsonl") ≡ true
unfolding ends_with
b-is_jsonl = refl

clean : drop_partials recorded.files ≡ recorded.files
unfolding drop_partials ends_with
clean = refl

compress_evidence-rollback_example :
    (find (codes "a.jsonl.gz") (compress_evidence failing recorded).0.files
      ≡ find (codes "a.jsonl.gz") recorded.files)
    × ((compress_evidence failing recorded).0.receipt ≡ recorded.receipt)
compress_evidence-rollback_example =
    compress_evidence-rollback failing recorded (system_error (codes "b.jsonl")) clean refl failure
      (codes "a.jsonl.gz")

open_evidence-compress_evidence_example :
    (open_evidence sound compressed (codes "b.jsonl") ≡ ok (1 ∷ 2 ∷ []))
    × (verify sound compressed (codes "b.jsonl") ≡ ok tt)
    × (find (codes "b.jsonl") compressed.files ≡ none)
open_evidence-compress_evidence_example =
    open_evidence-compress_evidence sound (λ bytes. refl) recorded compressed
      (entry_of_a ∷ entry_of_b ∷ []) (codes "b.jsonl") (1 ∷ 2 ∷ []) compression b-is_jsonl refl

exists-compress_evidence_example :
    (exists compressed (codes "b.jsonl") ≡ ok true)
    × (plain_sha256 sound compressed (codes "b.jsonl") ≡ ok (1 ∷ 2 ∷ []))
    × (stored_sha256 sound compressed (codes "b.jsonl") ≡ ok (31 ∷ 1 ∷ 2 ∷ []))
    × (size compressed (codes "b.jsonl") ≡ ok 3)
exists-compress_evidence_example =
    exists-compress_evidence sound recorded compressed (entry_of_a ∷ entry_of_b ∷ [])
      (codes "b.jsonl") (1 ∷ 2 ∷ []) compression b-is_jsonl refl
