-- ===== src/Json/Patch.antt =====
-- src/llm_vs_zombies/audit_compare.py, `patch`: the add, remove and replace operations of RFC 6902 that
-- the native recorder writes. A document is a value; the parent that the code changes in place is
-- rebuilt along its path.
pub mod Undo
use llm_vs_zombies.Base.{
  ℕ, Bool, true, false, ◌&&◌, ◌||◌, List, [], ◌∷◌, Option, none, some, if◌then◌else◌, not, on_some,
  Str, eq_name, codes, Result, ok, err, ◌>>=◌, ◌>>◌, raise_if, all, any, is_some,
}
use llm_vs_zombies.Json.{
  Json, null, bool, int, float, str, arr, obj, Items, nil, item, Fields, end, field, get, put, pop,
  has, keys, get_item, set_item, insert_item, delete_item,
}
use llm_vs_zombies.Json.Pointer.{
  PatchError, traverses_scalar, invalid_target, not_an_array, unsupported_operation, invalid_fields,
  root_removed, unhashable, invalid_pointer, parse_tokens, index_of,
}

pub data Operation : Type 0 where
  add : Json → Operation
  remove : Operation
  replace : Json → Operation

-- `parent[_index(parent, token)]`
unfoldable pub step_into : Json → Str → Result PatchError Json
step_into (obj fs) token = on_some (get token fs) (err invalid_target) ok
step_into (arr xs) token = do
  i ← index_of xs token false
  on_some (get_item xs i) (err invalid_target) ok
step_into _ token = err traverses_scalar

-- The parent with a child put back at the token that led to it.
unfoldable pub put_back : Json → Str → Json → Result PatchError Json
put_back (obj fs) token child = ok (obj (put token child fs))
put_back (arr xs) token child = do i ← index_of xs token false; ok (arr (set_item xs i child))
put_back _ token child = err traverses_scalar

-- What an operation does at the last token, to the parent.
unfoldable pub apply_at : Operation → Str → Json → Result PatchError Json
apply_at (add v) token (obj fs) = ok (obj (put token v fs))
apply_at (add v) token (arr xs) = do i ← index_of xs token true; ok (arr (insert_item xs i v))
apply_at remove token (obj fs) =
    if has token fs then ok (obj (pop token fs)) else err invalid_target
apply_at remove token (arr xs) = do i ← index_of xs token false; ok (arr (delete_item xs i))
apply_at (replace v) token (obj fs) =
    if has token fs then ok (obj (put token v fs)) else err invalid_target
apply_at (replace v) token (arr xs) = do i ← index_of xs token false; ok (arr (set_item xs i v))
apply_at _ token _ = err traverses_scalar

-- One operation along its tokens; no token names the whole document.
unfoldable pub apply : Operation → List Str → Json → Result PatchError Json
unfolding apply_at step_into put_back
apply (add v) [] document = ok v
apply remove [] document = err root_removed
apply (replace v) [] document = ok v
apply op (token ∷ []) document = apply_at op token document
apply op (token ∷ next ∷ tokens) document = do
  child ← step_into document token
  changed ← apply op (next ∷ tokens) child
  put_back document token changed

-- `set(operation) == names`, where the keys of a dictionary are distinct
abbrev pub has_exactly : List Str → Fields → Bool
has_exactly names fs = all (λ k. any (eq_name k) names) (keys fs) && all (λ k. has k fs) names

abbrev pub on_hashable : Option Json → Result PatchError (Option Str)
on_hashable (some (str name)) = ok (some name)
on_hashable (some (arr _)) = err unhashable
on_hashable (some (obj _)) = err unhashable
on_hashable _ = ok none

abbrev pub eq_op : Option Str → Str → Bool
eq_op none name = false
eq_op (some op) name = eq_name op name

-- The operation's name, once it is one of the three.
unfoldable pub read_operation : Fields → Result PatchError Operation
read_operation fs = do
  op ← on_hashable (get (codes "op") fs)
  raise_if (not (eq_op op (codes "add") || eq_op op (codes "remove") || eq_op op (codes "replace")))
      unsupported_operation
  let removing = eq_op op (codes "remove")
  raise_if
      (not (
        has_exactly
          (if removing
            then codes "op" ∷ codes "path" ∷ []
            else codes "op" ∷ codes "path" ∷ codes "value" ∷ [])
          fs))
      invalid_fields
  let value = on_some (get (codes "value") fs) null (λ v. v)
  ok (if removing then remove else if eq_op op (codes "add") then add value else replace value)

-- `_tokens`
abbrev pub tokens_of : Option Json → Result PatchError (List Str)
tokens_of (some (str pointer)) = parse_tokens pointer
tokens_of _ = err invalid_pointer

unfoldable pub patch_one : Json → Json → Result PatchError Json
unfolding read_operation apply
patch_one (obj fs) document = do
  op ← read_operation fs
  tokens ← tokens_of (get (codes "path") fs)
  apply op tokens document
patch_one _ document = err unsupported_operation

unfoldable pub patch_all : Items → Json → Result PatchError Json
unfolding patch_one
patch_all nil document = ok document
patch_all (item operation operations) document =
    patch_one operation document >>= patch_all operations

unfoldable pub patch : Json → Json → Result PatchError Json
unfolding patch_all
patch document (arr operations) = patch_all operations document
patch document _ = err not_an_array
