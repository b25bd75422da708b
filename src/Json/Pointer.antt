-- ===== src/Json/Pointer.antt =====
-- src/llm_vs_zombies/audit_compare.py: JSON Pointers (`_parse_tokens`) and array indices (`_index`).
pub mod RoundTrip
pub mod Decimal
use llm_vs_zombies.Base.{
  ℕ, suc, ◌+◌, ◌-◌, ◌*◌, Bool, true, false, ◌&&◌, ◌||◌, List, [], ◌∷◌, Option, none, some,
  if◌then◌else◌, ◌==◌, leb, ltb, length, all, Str, eq_name, replace_pair, codes, Result, ok, err,
  ◌>>=◌, ◌>>◌, raise_if, not,
}
use llm_vs_zombies.Json.{Items, count}

-- The `EvidenceError` of a patch, by its message.
pub data PatchError : Type 0 where
  invalid_pointer : PatchError
  invalid_escape : PatchError
  traverses_scalar : PatchError
  invalid_index : PatchError
  index_out_of_bounds : PatchError
  invalid_target : PatchError
  not_an_array : PatchError
  unsupported_operation : PatchError
  invalid_fields : PatchError
  root_removed : PatchError
  -- the TypeError of an operation name that is a list or a dictionary
  unhashable : PatchError

-- One character more at the front of the first part.
abbrev pub onto : ℕ → List Str → List Str
onto x [] = (x ∷ []) ∷ []
onto x (part ∷ parts) = (x ∷ part) ∷ parts

-- `text.split(c)`
unfoldable pub split : ℕ → Str → List Str
split c [] = [] ∷ []
split c (x ∷ xs) = let parts = split c xs in if x == c then [] ∷ parts else onto x parts

-- The loop over a part: every `~` is followed by `0` or `1`.
unfoldable pub is_escaped : Str → Bool
is_escaped [] = true
is_escaped (x ∷ []) = not (x == b'~')
is_escaped (x ∷ y ∷ xs) =
    if x == b'~' then (y == b'0' || y == b'1') && is_escaped xs else is_escaped (y ∷ xs)

-- `part.replace("~1", "/").replace("~0", "~")`
unfoldable pub unescape : Str → Str
unescape part = replace_pair b'~' b'0' b'~' (replace_pair b'~' b'1' b'/' part)

unfoldable pub read_parts : List Str → Result PatchError (List Str)
unfolding is_escaped unescape
read_parts [] = ok []
read_parts (part ∷ parts) = do
  raise_if (not (is_escaped part)) invalid_escape
  rest ← read_parts parts
  ok (unescape part ∷ rest)

unfoldable pub parse_tokens : Str → Result PatchError (List Str)
unfolding read_parts split
parse_tokens [] = ok []
parse_tokens (c ∷ rest) = if c == b'/' then read_parts (split b'/' rest) else err invalid_pointer

abbrev pub is_digit : ℕ → Bool
is_digit c = leb b'0' c && leb c b'9'

-- `int(token)` for ASCII digits
unfoldable pub number_from : ℕ → Str → ℕ
number_from n [] = n
number_from n (c ∷ cs) = number_from (n * 10 + (c - b'0')) cs

-- `token.isascii() and token.isdecimal() and not (len(token) > 1 and token[0] == "0")`
abbrev pub is_index : Str → Bool
is_index [] = false
is_index (c ∷ []) = is_digit c
is_index (c ∷ d ∷ cs) = all is_digit (c ∷ d ∷ cs) && not (c == b'0')

-- `_index` of a list; `add` allows the index after the last and its name `-`.
unfoldable pub index_of : Items → Str → Bool → Result PatchError ℕ
unfolding number_from
index_of xs token add =
    if add && eq_name token (codes "-")
    then ok (count xs)
    else if not (is_index token)
    then err invalid_index
    else if leb (count xs + (if add then 1 else 0)) (number_from 0 token)
    then err index_out_of_bounds
    else ok (number_from 0 token)
