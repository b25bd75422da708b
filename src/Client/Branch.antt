-- ===== src/Client/Branch.antt =====
-- `branch_scope_id`, `declared_branch_scope` and `_adopt_branch_scope`: the branch that a runtime declares
-- for itself, and the branch that a client is bound to.
pub mod Bound
use llm_vs_zombies.Base.{
  ℕ, Bool, true, false, ◌&&◌, ◌||◌, List, [], ◌∷◌, Option, none, some, if◌then◌else◌, ◌==◌, leb,
  length, all, any, not, Str, eq_name, codes, Result, ok, err, ◌>>=◌, ◌>>◌, raise_if, is_some,
}
use llm_vs_zombies.Json.{Json, null, str, obj, Fields, end, field, get}
use llm_vs_zombies.Json.Pointer.{is_digit}

pub data ScopeError : Type 0 where
  invalid_id : ScopeError
  malformed : ScopeError
  invalid_mode : ScopeError
  no_branch_id : ScopeError
  unscoped_with_id : ScopeError
  invalid_origin : ScopeError
  invalid_dedup_key : ScopeError
  not_declared : ScopeError
  other_branch : ScopeError

abbrev pub is_letter : ℕ → Bool
is_letter c = (leb b'A' c && leb c b'Z') || (leb b'a' c && leb c b'z')

abbrev pub is_alphanumeric : ℕ → Bool
is_alphanumeric c = is_letter c || is_digit c

-- `_BRANCH_ID`, `[A-Za-z0-9][A-Za-z0-9._:-]{0,63}`
abbrev pub is_branch_id : Str → Bool
is_branch_id [] = false
is_branch_id (c ∷ cs) =
    is_alphanumeric c
    && (all (λ d. is_alphanumeric d || any (λ e. d == e) (codes "._:-")) cs && leb (length cs) 63)

-- `branch_scope_id`
unfoldable pub branch_scope_id : Json → Result ScopeError Str
branch_scope_id (str name) = if is_branch_id name then ok name else err invalid_id
branch_scope_id _ = err invalid_id

-- `BRANCH_SCHEMA`
abbrev pub branch_schema : Str
branch_schema = codes "lvz.branch-scope.v1"

pub record Scope : Type 0 where
  -- the mode is "branch", and not "unscoped"
  pub scoped : Bool
  pub branch_id : Option Str
  pub parent_branch_id : Option Str
  pub origin : Option Str
  pub dedup_key : Option Str

abbrev pub is_schema : Option Json → Bool
is_schema (some (str s)) = eq_name s branch_schema
is_schema _ = false

-- `mode in ("branch", "unscoped")`, with the mode
abbrev pub read_mode : Option Json → Result ScopeError Bool
read_mode (some (str mode)) =
    if eq_name mode (codes "branch")
    then ok true
    else if eq_name mode (codes "unscoped")
    then ok false
    else err invalid_mode
read_mode _ = err invalid_mode

-- `declared`, once it is checked against the mode
abbrev pub read_id : Bool → Option Json → Result ScopeError (Option Str)
read_id true (some (str name)) = do id ← branch_scope_id (str name); ok (some id)
read_id true _ = err no_branch_id
read_id false none = ok none
read_id false (some null) = ok none
read_id false _ = err unscoped_with_id

abbrev pub read_parent : Option Json → Result ScopeError (Option Str)
read_parent none = ok none
read_parent (some null) = ok none
read_parent (some parent) = do id ← branch_scope_id parent; ok (some id)

-- The check of an origin and of a dedup key.
abbrev pub read_text : ScopeError → Option Json → Result ScopeError (Option Str)
read_text e none = ok none
read_text e (some null) = ok none
read_text e (some (str text)) = ok (some text)
read_text e _ = err e

-- The declaration, once it is not None.
unfoldable pub read_scope : Json → Result ScopeError Scope
unfolding branch_scope_id
read_scope (obj value) = do
  raise_if (not (is_schema (get (codes "schema") value))) malformed
  scoped ← read_mode (get (codes "mode") value)
  id ← read_id scoped (get (codes "branch_id") value)
  parent ← read_parent (get (codes "parent_branch_id") value)
  origin ← read_text invalid_origin (get (codes "origin") value)
  dedup ← read_text invalid_dedup_key (get (codes "dedup_key") value)
  ok (record {
    scoped = scoped;
    branch_id = id;
    parent_branch_id = parent;
    origin = origin;
    dedup_key = dedup;
  })
read_scope _ = err malformed

abbrev pub read_declared : Option Json → Result ScopeError (Option Scope)
read_declared none = ok none
read_declared (some null) = ok none
read_declared (some value) = do scope ← read_scope value; ok (some scope)

unfoldable pub declared_branch_scope : Fields → Result ScopeError (Option Scope)
unfolding read_scope
declared_branch_scope hello = read_declared (get (codes "branch") hello)

-- `_branch_scope` and `_branch_id` of a client
pub record Binding : Type 0 where
  pub scope : Option Scope
  pub branch : Option Str

abbrev pub id_of : Option Scope → Option Str
id_of none = none
id_of (some scope) = scope.branch_id

abbrev pub check_expected : Option Str → Option Str → Result ScopeError (Unit {0})
check_expected none id = ok tt
check_expected (some expected) none = err not_declared
check_expected (some expected) (some id) = raise_if (not (eq_name id expected)) other_branch

-- `_adopt_branch_scope` of a client with its `_expected_branch`; one that raises leaves the client bound
-- as it was.
unfoldable pub adopt_branch_scope : Option Str → Bool → Fields → Result ScopeError Binding
unfolding declared_branch_scope
adopt_branch_scope expected enforce hello = do
  scope ← declared_branch_scope hello
  check_expected (if enforce then expected else none) (id_of scope)
  ok (record { scope = scope; branch = id_of scope })

-- The declaration that `declared_branch_scope` returns, as the dictionary that it is.
abbrev pub or_none : Option Str → Json
or_none none = null
or_none (some text) = str text

unfoldable pub declaration : Scope → Json
declaration s = obj (
    field (codes "schema") (str branch_schema) (
      field (codes "mode") (str (if s.scoped then codes "branch" else codes "unscoped")) (
        field (codes "branch_id") (or_none s.branch_id) (
          field (codes "parent_branch_id") (or_none s.parent_branch_id) (
            field (codes "origin") (or_none s.origin)
              (field (codes "dedup_key") (or_none s.dedup_key) end))))))
