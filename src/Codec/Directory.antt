-- ===== src/Codec/Directory.antt =====
-- A directory of files, and the names that the codec gives them.
use mathlib.Core.List.{reverse, reverse-append}
use llm_vs_zombies.Base.{
  ℕ, ◌≡◌, refl, ap, Bool, true, false, ◌&&◌, List, [], ◌∷◌, ◌++◌, none, some, if◌then◌else◌, ◌==◌,
  arith, Str, eq_name, eq_name_iff, find, codes,
}

abbrev pub Bytes : Type 0
Bytes = List ℕ

abbrev pub Directory : Type 0
Directory = List (Str × Bytes)

-- `path.write_bytes(content)`, whether the file is there or not
unfoldable pub write : Str → Bytes → Directory → Directory
write name content [] = (name, content) ∷ []
write name content ((n, c) ∷ d) =
    if eq_name name n then (n, content) ∷ d else (n, c) ∷ write name content d

-- `path.unlink(missing_ok=True)`
unfoldable pub unlink : Str → Directory → Directory
unlink name [] = []
unlink name ((n, c) ∷ d) =
    let rest = unlink name d in if eq_name name n then rest else (n, c) ∷ rest

abbrev pub starts_with : Str → Str → Bool
starts_with [] text = true
starts_with (p ∷ ps) [] = false
starts_with (p ∷ ps) (x ∷ xs) = p == x && starts_with ps xs

-- `text.endswith(suffix)`
unfoldable pub ends_with : Str → Str → Bool
ends_with suffix text = starts_with (reverse suffix) (reverse text)

abbrev pub is_jsonl : Str → Bool
is_jsonl = ends_with (codes ".jsonl")

-- `SUFFIX`
abbrev pub gz : Str
gz = codes ".gz"

abbrev pub gz_partial : Str
gz_partial = codes ".gz.partial"

abbrev pub is_partial : Str → Bool
is_partial = ends_with gz_partial

-- `for path in directory.glob("*.gz.partial"): path.unlink()`
unfoldable pub drop_partials : Directory → Directory
drop_partials [] = []
drop_partials ((n, c) ∷ d) =
    let rest = drop_partials d in if is_partial n then rest else (n, c) ∷ rest

module _ (p : Str) where
  pub find-write :
      (name : Str) (content : Bytes) (d : Directory)
      → find p (write name content d) ≡ (if eq_name p name then some content else find p d)
  unfolding write
  find-write name content [] = refl
  find-write name content ((n, c) ∷ d) =
      ground
        (arith, eq_name_iff name n, eq_name_iff p name, eq_name_iff p n, find-write name content d)

  pub find-unlink :
      (name : Str) (d : Directory)
      → find p (unlink name d) ≡ (if eq_name p name then none else find p d)
  unfolding unlink
  find-unlink name [] = ground arith
  find-unlink name ((n, c) ∷ d) =
      ground (arith, eq_name_iff name n, eq_name_iff p name, eq_name_iff p n, find-unlink name d)

  pub find-drop_partials :
      (d : Directory) → find p (drop_partials d) ≡ (if is_partial p then none else find p d)
  unfolding drop_partials
  find-drop_partials [] = ground arith
  find-drop_partials ((n, c) ∷ d) =
      ground (arith, eq_name_iff p n, ap is_partial {x = p} {y = n}, find-drop_partials d)

pub not-jsonl-gz : (name : Str) → is_jsonl (name ++ gz) ≡ false
unfolding ends_with
not-jsonl-gz name = rw (reverse-append name gz) refl

pub not-jsonl-partial : (name : Str) → is_jsonl (name ++ gz_partial) ≡ false
unfolding ends_with
not-jsonl-partial name = rw (reverse-append name gz_partial) refl

pub partial-gz : (name : Str) → is_partial (name ++ gz) ≡ false
unfolding ends_with
partial-gz name = rw (reverse-append name gz) refl

pub partial_partial : (name : Str) → is_partial (name ++ gz_partial) ≡ true
unfolding ends_with
partial_partial name = rw (reverse-append name gz_partial) refl
