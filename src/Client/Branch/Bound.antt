-- ===== src/Client/Branch/Bound.antt =====
-- What a client is bound to once it adopted a scope.
use llm_vs_zombies.Base.{
  ◌≡◌, refl, ap, Bool, true, false, Option, none, some, if◌then◌else◌, Str, eq_name, eq_name→eq,
  codes, ok, err, ◌>>=◌, >>=-eq-ok, ok-injective, raise_if, Bool-cases, inl, inr, is_some,
}
use llm_vs_zombies.Json.{Json, null, bool, int, float, str, arr, obj, Fields, get}
use llm_vs_zombies.Client.Branch.{
  ScopeError, Scope, Binding, is_branch_id, branch_scope_id, read_mode, read_id, read_parent,
  read_text, read_scope, read_declared, declared_branch_scope, id_of, check_expected,
  adopt_branch_scope, declaration, or_none,
}

-- Any identifier is of the grammar of branches.
abbrev pub IsId : Option Str → Type 0
IsId none = Unit
IsId (some name) = is_branch_id name ≡ true

-- A branch has an identifier exactly if it is scoped, the identifiers are of the grammar of branches, and
-- the scope written out as its dictionary is read as itself.
pub record IsScope (s : Scope) : Type 0 where
  pub has_id : is_some s.branch_id ≡ s.scoped
  pub id : IsId s.branch_id
  pub parent : IsId s.parent_branch_id
  pub again : read_scope (declaration s) ≡ ok s

branch_scope_id-IsId :
    (v : Json) (name : Str) → branch_scope_id v ≡ ok name → is_branch_id name ≡ true
unfolding branch_scope_id
branch_scope_id-IsId (str name) n h = elim (Bool-cases (is_branch_id name)) [
  | inl e ↦ rw (← ok-injective (let q : ok name ≡ ok n = rw e at h in q)) e
  | inr e ↦ cc (let q : err _ ≡ ok n = rw e at h in q)
]
branch_scope_id-IsId null n h = cc
branch_scope_id-IsId (bool _) n h = cc
branch_scope_id-IsId (int _) n h = cc
branch_scope_id-IsId (float _) n h = cc
branch_scope_id-IsId (arr _) n h = cc
branch_scope_id-IsId (obj _) n h = cc

read_some :
    (v : Json) (o : Option Str)
    → (branch_scope_id v >>= λ id. ok (some id)) ≡ ok o
    → (is_some o ≡ true) × IsId o
read_some v o h =
    let (id, e, h') = >>=-eq-ok (branch_scope_id v) _ h in
    rw (← ok-injective h') (refl, branch_scope_id-IsId v id e)

read_id-IsId :
    (scoped : Bool) (v : Option Json) (o : Option Str)
    → read_id scoped v ≡ ok o
    → (is_some o ≡ scoped) × IsId o
read_id-IsId true (some (str name)) o h = read_some (str name) o h
read_id-IsId true none o h = cc
read_id-IsId true (some null) o h = cc
read_id-IsId true (some (bool _)) o h = cc
read_id-IsId true (some (int _)) o h = cc
read_id-IsId true (some (float _)) o h = cc
read_id-IsId true (some (arr _)) o h = cc
read_id-IsId true (some (obj _)) o h = cc
read_id-IsId false none o h = rw (← ok-injective h) (refl, tt)
read_id-IsId false (some null) o h = rw (← ok-injective h) (refl, tt)
read_id-IsId false (some (str _)) o h = cc
read_id-IsId false (some (bool _)) o h = cc
read_id-IsId false (some (int _)) o h = cc
read_id-IsId false (some (float _)) o h = cc
read_id-IsId false (some (arr _)) o h = cc
read_id-IsId false (some (obj _)) o h = cc

read_parent-IsId : (v : Option Json) (o : Option Str) → read_parent v ≡ ok o → IsId o
read_parent-IsId none o h = rw (← ok-injective h) tt
read_parent-IsId (some null) o h = rw (← ok-injective h) tt
read_parent-IsId (some (str s)) o h = (read_some (str s) o h).1
read_parent-IsId (some (bool b)) o h = (read_some (bool b) o h).1
read_parent-IsId (some (int n)) o h = (read_some (int n) o h).1
read_parent-IsId (some (float n)) o h = (read_some (float n) o h).1
read_parent-IsId (some (arr xs)) o h = (read_some (arr xs) o h).1
read_parent-IsId (some (obj fs)) o h = (read_some (obj fs) o h).1

mode_again :
    (b : Bool) → read_mode (some (str (if b then codes "branch" else codes "unscoped"))) ≡ ok b
mode_again true = refl
mode_again false = refl

id_again :
    (scoped : Bool) (o : Option Str)
    → is_some o ≡ scoped
    → IsId o
    → read_id scoped (some (or_none o)) ≡ ok o
unfolding branch_scope_id ◌>>=◌
id_again true none e h = cc
id_again false none e h = refl
id_again true (some name) e h = rw h refl
id_again false (some name) e h = cc

parent_again : (o : Option Str) → IsId o → read_parent (some (or_none o)) ≡ ok o
unfolding branch_scope_id ◌>>=◌
parent_again none h = refl
parent_again (some name) h = rw h refl

text_again : (e : ScopeError) (o : Option Str) → read_text e (some (or_none o)) ≡ ok o
text_again e none = refl
text_again e (some text) = refl

read_again :
    (s : Scope)
    → is_some s.branch_id ≡ s.scoped
    → IsId s.branch_id
    → IsId s.parent_branch_id
    → read_scope (declaration s) ≡ ok s
unfolding read_scope declaration ◌>>=◌
read_again s has id parent =
    rw
      (
        mode_again s.scoped,
        id_again s.scoped s.branch_id has id,
        parent_again s.parent_branch_id parent,
        text_again _ s.origin,
        text_again _ s.dedup_key,
      )
      refl

read_scope-IsScope : (v : Json) (s : Scope) → read_scope v ≡ ok s → IsScope s
unfolding read_scope
read_scope-IsScope (obj value) s h =
    let (u, _, h1) = >>=-eq-ok (raise_if _ _) _ h in
    let (scoped, _, h2) = >>=-eq-ok (read_mode (get (codes "mode") value)) _ h1 in
    let (id, read, h3) = >>=-eq-ok (read_id scoped (get (codes "branch_id") value)) _ h2 in
    let (parent, parents, h4) =
      >>=-eq-ok (read_parent (get (codes "parent_branch_id") value)) _ h3 in
    let (origin, _, h5) = >>=-eq-ok (read_text _ (get (codes "origin") value)) _ h4 in
    let (dedup, _, h6) = >>=-eq-ok (read_text _ (get (codes "dedup_key") value)) _ h5 in
    let (has, own) = read_id-IsId scoped _ id read in
    let above = read_parent-IsId _ parent parents in
    rw (← ok-injective h6)
      (record { has_id = has; id = own; parent = above; again = read_again _ has own above })
read_scope-IsScope null s h = cc
read_scope-IsScope (bool _) s h = cc
read_scope-IsScope (int _) s h = cc
read_scope-IsScope (float _) s h = cc
read_scope-IsScope (str _) s h = cc
read_scope-IsScope (arr _) s h = cc

abbrev pub IsDeclared : Option Scope → Type 0
IsDeclared none = Unit
IsDeclared (some s) = IsScope s

from_scope :
    (v : Json) (o : Option Scope) → (read_scope v >>= λ s. ok (some s)) ≡ ok o → IsDeclared o
from_scope v o h =
    let (s, e, h') = >>=-eq-ok (read_scope v) _ h in
    rw (← ok-injective h') (read_scope-IsScope v s e)

read_declared-IsDeclared :
    (v : Option Json) (o : Option Scope) → read_declared v ≡ ok o → IsDeclared o
read_declared-IsDeclared none o h = rw (← ok-injective h) tt
read_declared-IsDeclared (some null) o h = rw (← ok-injective h) tt
read_declared-IsDeclared (some (bool b)) o h = from_scope (bool b) o h
read_declared-IsDeclared (some (int n)) o h = from_scope (int n) o h
read_declared-IsDeclared (some (float n)) o h = from_scope (float n) o h
read_declared-IsDeclared (some (str s)) o h = from_scope (str s) o h
read_declared-IsDeclared (some (arr xs)) o h = from_scope (arr xs) o h
read_declared-IsDeclared (some (obj fs)) o h = from_scope (obj fs) o h

-- The branch is the one expected, if one is.
abbrev pub Follows : Option Str → Option Str → Type 0
Follows none id = Unit
Follows (some expected) id = id ≡ some expected

check_expected-Follows :
    (expected id : Option Str) (u : Unit {0})
    → check_expected expected id ≡ ok u
    → Follows expected id
check_expected-Follows none id u h = tt
check_expected-Follows (some expected) none u h = cc
check_expected-Follows (some expected) (some id) u h = elim (Bool-cases (eq_name id expected)) [
  | inl e ↦ ap some (eq_name→eq id expected e)
  | inr e ↦ cc (let q : err _ ≡ ok u = rw e at h in q)
]

-- A client that adopts the scope of a hello is bound to the branch of that scope, which is the branch it
-- expects if it expects one and the expectation is enforced. The scope has an identifier exactly if it is
-- scoped, its identifiers are of the grammar of branches, and it reads again as itself.
pub adopt_branch_scope-Follows :
    (expected : Option Str) (enforce : Bool) (hello : Fields) (b : Binding)
    → adopt_branch_scope expected enforce hello ≡ ok b
    → (b.branch ≡ id_of b.scope)
      × Follows (if enforce then expected else none) b.branch
      × IsDeclared b.scope
unfolding adopt_branch_scope declared_branch_scope
adopt_branch_scope-Follows expected enforce hello b h =
    let (scope, e, h1) = >>=-eq-ok (read_declared (get (codes "branch") hello)) _ h in
    let (u, c, h2) =
      >>=-eq-ok (check_expected (if enforce then expected else none) (id_of scope)) _ h1 in
    rw (← ok-injective h2) (
      refl,
      check_expected-Follows (if enforce then expected else none) (id_of scope) u c,
      read_declared-IsDeclared _ scope e,
    )
