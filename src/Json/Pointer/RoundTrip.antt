-- ===== src/Json/Pointer/RoundTrip.antt =====
-- The paths that `first_difference` writes, as `_parse_tokens` reads them.
use llm_vs_zombies.Base.{
  map, ℕ, ◌≡◌, refl, ap, sym, ◌∙◌, true, false, List, [], ◌∷◌, ◌++◌, if◌then◌else◌, ◌==◌,
  Bool-cases, inl, inr, arith, Str, replace, replace_pair, codes, ok, ◌>>=◌,
}
use mathlib.Core.List.{append_assoc, append-nil}
use llm_vs_zombies.Json.Pointer.{parse_tokens, read_parts, split, onto, is_escaped, unescape}
use llm_vs_zombies.Json.Difference.{child_path}

replace-append :
    (c : ℕ) (by xs ys : Str) → replace c by (xs ++ ys) ≡ replace c by xs ++ replace c by ys
unfolding replace
replace-append c by [] ys = refl
replace-append c by (x ∷ xs) ys =
    rw (replace-append c by xs ys, append_assoc (if x == c then by else x ∷ [])) refl

escape : Str → Str
escape key = replace b'/' (codes "~1") (replace b'~' (codes "~0") key)

-- What one character becomes.
abbrev escaped : ℕ → Str
escaped c = if c == b'~' then codes "~0" else if c == b'/' then codes "~1" else c ∷ []

escape-nil : escape [] ≡ []
unfolding escape replace
escape-nil = refl

escape-cons : (c : ℕ) (key : Str) → escape (c ∷ key) ≡ escaped c ++ escape key
unfolding escape replace
escape-cons c key = elim (Bool-cases (c == b'~')) [ inl e ↦ rw e refl | inr e ↦ rw e refl ]

-- Reading escaped text: the two replacements are undone one after the other.
replace_pair-skip :
    (a b c x : ℕ) (xs : Str)
    → (x == a) ≡ false
    → replace_pair a b c (x ∷ xs) ≡ x ∷ replace_pair a b c xs
unfolding replace_pair
replace_pair-skip a b c x [] h = refl
replace_pair-skip a b c x (y ∷ xs) h = rw h refl

undo_slash : (key : Str) → replace_pair b'~' b'1' b'/' (escape key) ≡ replace b'~' (codes "~0") key
unfolding replace_pair replace
undo_slash [] = rw escape-nil refl
undo_slash (c ∷ key) = rw (escape-cons c key) (elim (Bool-cases (c == b'~')) [
  | inl e ↦ rw (e, replace_pair-skip b'~' b'1' b'/' b'0' (escape key) refl, undo_slash key) refl
  | inr e ↦ elim (Bool-cases (c == b'/')) [
    | inl f ↦ rw (e, f, undo_slash key) (ground arith)
    | inr f ↦ rw (e, f, replace_pair-skip b'~' b'1' b'/' c (escape key) e, undo_slash key) refl
  ]
])

undo_tilde : (key : Str) → replace_pair b'~' b'0' b'~' (replace b'~' (codes "~0") key) ≡ key
unfolding replace_pair replace
undo_tilde [] = refl
undo_tilde (c ∷ key) = elim (Bool-cases (c == b'~')) [
  | inl e ↦ rw (e, undo_tilde key) (ground arith)
  | inr e ↦
      rw (e, replace_pair-skip b'~' b'0' b'~' c (replace b'~' (codes "~0") key) e, undo_tilde key)
        refl
]

unescape-escape : (key : Str) → unescape (escape key) ≡ key
unfolding unescape
unescape-escape key = ap (replace_pair b'~' b'0' b'~') (undo_slash key) ∙ undo_tilde key

is_escaped-skip : (x : ℕ) (xs : Str) → (x == b'~') ≡ false → is_escaped (x ∷ xs) ≡ is_escaped xs
unfolding is_escaped
is_escaped-skip x [] h = rw h refl
is_escaped-skip x (y ∷ xs) h = rw h refl

escape-IsEscaped : (key : Str) → is_escaped (escape key) ≡ true
unfolding is_escaped
escape-IsEscaped [] = rw escape-nil refl
escape-IsEscaped (c ∷ key) = rw (escape-cons c key) (elim (Bool-cases (c == b'~')) [
  | inl e ↦ rw e (escape-IsEscaped key)
  | inr e ↦ elim (Bool-cases (c == b'/')) [
    | inl f ↦ rw (e, f) (escape-IsEscaped key)
    | inr f ↦ rw (e, f, is_escaped-skip c (escape key) e) (escape-IsEscaped key)
  ]
])

split-skip : (c : ℕ) (xs : Str) → (c == b'/') ≡ false → split b'/' (c ∷ xs) ≡ onto c (split b'/' xs)
unfolding split
split-skip c xs h = rw h refl

-- An escaped key holds no `/`, so that it is one part.
split-escape :
    (key rest : Str) → split b'/' (escape key ++ b'/' ∷ rest) ≡ escape key ∷ split b'/' rest
unfolding split
split-escape [] rest = rw escape-nil refl
split-escape (c ∷ key) rest = rw (escape-cons c key) (elim (Bool-cases (c == b'~')) [
  | inl e ↦ rw (e, split-escape key rest) refl
  | inr e ↦ elim (Bool-cases (c == b'/')) [
    | inl f ↦ rw (e, f, split-escape key rest) refl
    | inr f ↦ rw (e, f, split-skip c (escape key ++ b'/' ∷ rest) f, split-escape key rest) refl
  ]
])

split-escape_last : (key : Str) → split b'/' (escape key) ≡ escape key ∷ []
unfolding split
split-escape_last [] = rw escape-nil refl
split-escape_last (c ∷ key) = rw (escape-cons c key) (elim (Bool-cases (c == b'~')) [
  | inl e ↦ rw (e, split-escape_last key) refl
  | inr e ↦ elim (Bool-cases (c == b'/')) [
    | inl f ↦ rw (e, f, split-escape_last key) refl
    | inr f ↦ rw (e, f, split-skip c (escape key) f, split-escape_last key) refl
  ]
])

-- The path that `first_difference` has after it went through the keys.
abbrev pub path_of : Str → List Str → Str
path_of path [] = path
path_of path (key ∷ ks) = path_of (child_path path key) ks

-- The same path, written key by key from the left.
rendered : List Str → Str
rendered [] = []
rendered (key ∷ ks) = b'/' ∷ (escape key ++ rendered ks)

path_of-rendered : (path : Str) (ks : List Str) → path_of path ks ≡ path ++ rendered ks
unfolding rendered escape child_path
path_of-rendered path [] = sym (append-nil path)
path_of-rendered path (key ∷ ks) =
    path_of-rendered (child_path path key) ks ∙ append_assoc path (b'/' ∷ escape key) (rendered ks)

read_part :
    (key : Str) (parts : List Str) (rest : List Str)
    → read_parts parts ≡ ok rest
    → read_parts (escape key ∷ parts) ≡ ok (key ∷ rest)
unfolding read_parts ◌>>=◌
read_part key parts rest h = rw (escape-IsEscaped key, h, unescape-escape key) refl

read_no_parts : read_parts [] ≡ ok []
unfolding read_parts
read_no_parts = refl

read-rendered :
    (key : Str) (ks : List Str)
    → read_parts (split b'/' (escape key ++ rendered ks)) ≡ ok (key ∷ ks)
unfolding rendered
read-rendered key [] =
    rw (append-nil (escape key), split-escape_last key) (read_part key [] [] read_no_parts)
read-rendered key (next ∷ ks) =
    rw (split-escape key (escape next ++ rendered ks))
      (read_part key _ (next ∷ ks) (read-rendered next ks))

-- Whatever keys, of any characters, are appended to the empty path one by one, `_parse_tokens` reads
-- the path as these keys.
pub parse_tokens-path_of : (ks : List Str) → parse_tokens (path_of [] ks) ≡ ok ks
unfolding parse_tokens rendered
parse_tokens-path_of [] = refl
parse_tokens-path_of (key ∷ ks) = rw (path_of-rendered [] (key ∷ ks)) (read-rendered key ks)

unescape-rendered :
    (key : Str) (ks : List Str) → map unescape (split b'/' (escape key ++ rendered ks)) ≡ key ∷ ks
unfolding rendered
unescape-rendered key [] =
    rw (append-nil (escape key), split-escape_last key, unescape-escape key) refl
unescape-rendered key (next ∷ ks) =
    rw
      (
        split-escape key (escape next ++ rendered ks),
        unescape-escape key,
        unescape-rendered next ks,
      )
      refl

-- The path of at least one key, without its first character, has the keys as its parts.
pub parts-path_of :
    (key : Str) (ks : List Str)
    → (rest : Str) × (path_of [] (key ∷ ks) ≡ b'/' ∷ rest)
      × (map unescape (split b'/' rest) ≡ key ∷ ks)
unfolding rendered
parts-path_of key ks =
    (escape key ++ rendered ks, path_of-rendered [] (key ∷ ks), unescape-rendered key ks)
