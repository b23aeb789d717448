-- ===== src/ScopeTree/Lookup.antt =====
-- Walks from a scope up to the root. A scope and its ancestors are a list, the scope itself first,
-- so `this.parent` is the rest of the list and an empty list is the missing parent of the root.
use wasmnizer_ts.ScopeTree.{
  ScopeKind, Var, block_kind, class_kind, function_kind, global_kind, namespace_kind,
}
use wasmnizer_ts.Base.{
  Bool, Bool-cases, List, Option, [], ap, false, if◌then◌else◌, inl, inr, none, refl, some, sym,
  true, ℕ, ◌++◌, ◌==◌, ◌||◌, ◌∙◌, ◌∷◌, ◌≡◌, ◌≢◌,
}

pub record ScopeFrame : Type 0 where
  pub kind : ScopeKind
  pub name : ℕ
  pub has_declare : Bool
  pub has_abstract : Bool
  pub variable_array : List Var
  pub param_array : List Var
  pub declare_identifier_list : List ℕ

-- What was found, or else the second.
abbrev pub or_else {ℓ} : {B : Type ℓ} → Option B → Option B → Option B
or_else none o = o
or_else (some v) o = some v

-- `_nestFindScopeItem`
unfoldable pub nest_find {ℓ} :
    {B : Type ℓ} → (ScopeFrame → Option B) → Bool → List ScopeFrame → Option B
nest_find search nested [] = none
nest_find search nested (s ∷ ps) =
    let rest = nest_find search nested ps in or_else (search s) (if nested then rest else none)

unfoldable pub find_named : ℕ → List Var → Option Var
find_named n [] = none
find_named n (v ∷ vs) = if v.var_name == n then some v else find_named n vs

unfoldable pub is_function : ScopeKind → Bool
is_function global_kind = false
is_function function_kind = true
is_function block_kind = false
is_function class_kind = false
is_function namespace_kind = false

unfoldable pub find_own : ℕ → ScopeFrame → Option Var
find_own n s =
    or_else (find_named n s.variable_array)
      (if is_function s.kind then find_named n s.param_array else none)

unfoldable pub find_variable : ℕ → Bool → List ScopeFrame → Option Var
find_variable n nested chain = nest_find (find_own n) nested chain

unfoldable pub is_declare : List ScopeFrame → Bool
is_declare [] = false
is_declare (s ∷ ps) = s.has_declare || is_declare ps

unfoldable pub is_abstract : List ScopeFrame → Bool
is_abstract [] = false
is_abstract (s ∷ ps) = s.has_abstract || is_declare ps

-- The functions that `getRootFunctionScope` collects, and the last of them.
unfoldable pub flatten_scopes : List ScopeFrame → List ScopeFrame
flatten_scopes [] = []
flatten_scopes (s ∷ ps) = if is_function s.kind then s ∷ flatten_scopes ps else flatten_scopes ps

unfoldable pub last_of : List ScopeFrame → Option ScopeFrame
last_of [] = none
last_of (s ∷ []) = some s
last_of (s ∷ t ∷ ss) = last_of (t ∷ ss)

unfoldable pub get_root_function_scope : List ScopeFrame → Option ScopeFrame
get_root_function_scope chain = last_of (flatten_scopes chain)

-- `Set.add`
unfoldable pub add_name : ℕ → List ℕ → List ℕ
add_name n [] = n ∷ []
add_name n (m ∷ ms) = if m == n then m ∷ ms else m ∷ add_name n ms

unfoldable pub declare_in : ℕ → ScopeFrame → ScopeFrame
declare_in n s = record s { declare_identifier_list = add_name n s.declare_identifier_list }

unfoldable pub is_global : ScopeKind → Bool
is_global global_kind = true
is_global function_kind = false
is_global block_kind = false
is_global class_kind = false
is_global namespace_kind = false

unfoldable pub is_namespace : ScopeKind → Bool
is_namespace global_kind = false
is_namespace function_kind = false
is_namespace block_kind = false
is_namespace class_kind = false
is_namespace namespace_kind = true

unfoldable pub renamed : ℕ → ScopeFrame → ℕ
renamed n s = if is_namespace s.kind then s.name else n

-- `addDeclareName`, with the scopes after.
unfoldable pub add_declare_name : ℕ → List ScopeFrame → List ScopeFrame
add_declare_name n [] = []
add_declare_name n (s ∷ ps) =
    let rest = add_declare_name (renamed n s) ps in
    if is_global s.kind then declare_in n s ∷ ps else s ∷ rest

-- All variables in sight, innermost first; in a function its variables before its parameters.
unfoldable pub own_vars : ScopeFrame → List Var
own_vars s = s.variable_array ++ (if is_function s.kind then s.param_array else [])

unfoldable pub visible : List ScopeFrame → List Var
visible [] = []
visible (s ∷ ps) = own_vars s ++ visible ps

find_named-append :
    (n : ℕ) (vs ws : List Var)
    → find_named n (vs ++ ws) ≡ or_else (find_named n vs) (find_named n ws)
unfolding find_named
find_named-append n [] ws = refl
find_named-append n (v ∷ vs) ws = elim (Bool-cases (v.var_name == n)) [
  | inl e ↦ rw (find_named, e) refl
  | inr e ↦ rw (find_named, e) (find_named-append n vs ws)
]

find_own-own_vars : (n : ℕ) (s : ScopeFrame) → find_own n s ≡ find_named n (own_vars s)
unfolding find_own own_vars find_named
find_own-own_vars n s = elim (Bool-cases (is_function s.kind)) [
  | inl e ↦ rw (find_own, own_vars, e) (sym (find_named-append n s.variable_array s.param_array))
  | inr e ↦ rw (find_own, own_vars, e) (sym (find_named-append n s.variable_array []))
]

or_else-none : (o : Option Var) → or_else o none ≡ o
or_else-none none = refl
or_else-none (some v) = refl

nested_lem :
    (n : ℕ) (ps : List ScopeFrame) → nest_find (find_own n) true ps ≡ find_named n (visible ps)
unfolding nest_find visible find_named
nested_lem n [] = refl
nested_lem n (s ∷ ps) =
    ap (λ o. or_else o (nest_find (find_own n) true ps)) (find_own-own_vars n s)
    ∙ ap (or_else (find_named n (own_vars s))) (nested_lem n ps)
    ∙ sym (find_named-append n (own_vars s) (visible ps))

-- `findVariable` searched through the enclosing scopes gives the first variable of that name among
-- all those in sight, listed from the scope itself outwards, in a function with its parameters
-- after its variables. Not nested, it gives the first among those of the scope itself.
pub find_variable_lem :
    (n : ℕ) (s : ScopeFrame) (ps : List ScopeFrame)
    → (find_variable n true (s ∷ ps) ≡ find_named n (visible (s ∷ ps)))
      × (find_variable n false (s ∷ ps) ≡ find_named n (own_vars s))
unfolding find_variable nest_find
find_variable_lem n s ps =
    (nested_lem n (s ∷ ps), or_else-none (find_own n s) ∙ find_own-own_vars n s)

-- The names of the namespaces among the scopes, from the inside out.
unfoldable pub namespace_names_of : ScopeKind → ℕ → List ℕ
namespace_names_of namespace_kind n = n ∷ []
namespace_names_of global_kind n = []
namespace_names_of function_kind n = []
namespace_names_of block_kind n = []
namespace_names_of class_kind n = []

unfoldable pub namespace_names : List ScopeFrame → List ℕ
namespace_names [] = []
namespace_names (s ∷ ps) = namespace_names_of s.kind s.name ++ namespace_names ps

-- The last of the names after the first one.
unfoldable pub last_name : ℕ → List ℕ → ℕ
last_name n [] = n
last_name n (m ∷ ms) = last_name m ms

unfoldable pub is_listed : ℕ → List ℕ → Bool
is_listed n [] = false
is_listed n (m ∷ ms) = m == n || is_listed n ms

-- The scope with the name behind its list, unless it is in the list.
abbrev pub listing : ℕ → ScopeFrame → ScopeFrame
listing n s = record s {
  declare_identifier_list =
      if is_listed n s.declare_identifier_list
      then s.declare_identifier_list
      else s.declare_identifier_list ++ (n ∷ []);
}

-- No scope among these is a module.
pub data NoGlobal : List ScopeFrame → Type 0 where
  no_frames : NoGlobal []
  inner_frame :
      {s : ScopeFrame} {ps : List ScopeFrame}
      → s.kind ≢ global_kind
      → NoGlobal ps
      → NoGlobal (s ∷ ps)

add_name_lem :
    (n : ℕ) (ms : List ℕ) → add_name n ms ≡ (if is_listed n ms then ms else ms ++ (n ∷ []))
unfolding add_name is_listed
add_name_lem n [] = refl
add_name_lem n (m ∷ ms) = elim (Bool-cases (m == n)) [
  | inl e ↦ rw (add_name, is_listed, e) refl
  | inr e ↦ rw (add_name, is_listed, e, add_name_lem n ms) (inside (is_listed n ms))
]
  where
    inside :
        (b : Bool)
        → (m ∷ (if b then ms else ms ++ (n ∷ []))) ≡ (if b then m ∷ ms else m ∷ (ms ++ (n ∷ [])))
    inside true = refl
    inside false = refl

declare_in-listing : (n : ℕ) (s : ScopeFrame) → declare_in n s ≡ listing n s
unfolding declare_in
declare_in-listing n s =
    ap (λ (l : List ℕ). record s { declare_identifier_list = l })
      (add_name_lem n s.declare_identifier_list)

not_global : (k : ScopeKind) → k ≢ global_kind → is_global k ≡ false
unfolding is_global
not_global global_kind h = absurd (h refl)
not_global function_kind h = refl
not_global block_kind h = refl
not_global class_kind h = refl
not_global namespace_kind h = refl

last_name-renamed :
    (n : ℕ) (s : ScopeFrame) (ms : List ℕ)
    → last_name n (namespace_names_of s.kind s.name ++ ms) ≡ last_name (renamed n s) ms
unfolding last_name renamed is_namespace namespace_names_of
last_name-renamed n s ms = go s.kind
  where
    go :
        (k : ScopeKind)
        → last_name n (namespace_names_of k s.name ++ ms)
          ≡ last_name (if is_namespace k then s.name else n) ms
    go namespace_kind = refl
    go global_kind = refl
    go function_kind = refl
    go block_kind = refl
    go class_kind = refl

add_declare_name-append :
    (n : ℕ) (inside ps : List ScopeFrame)
    → NoGlobal inside
    → add_declare_name n (inside ++ ps)
      ≡ inside ++ add_declare_name (last_name n (namespace_names inside)) ps
unfolding add_declare_name namespace_names last_name
add_declare_name-append n [] ps no_frames = refl
add_declare_name-append n (s ∷ inside) ps (inner_frame e i) =
    rw (add_declare_name, not_global s.kind e)
      (ap (λ t. s ∷ t)
        (add_declare_name-append (renamed n s) inside ps i
          ∙ ap (λ (k : ℕ). inside ++ add_declare_name k ps)
              (sym (last_name-renamed n s (namespace_names inside)))))

declare_here :
    (n : ℕ) (g : ScopeFrame) (ps : List ScopeFrame)
    → g.kind ≡ global_kind
    → add_declare_name n (g ∷ ps) ≡ listing n g ∷ ps
unfolding add_declare_name is_global
declare_here n g ps e =
    rw (add_declare_name, ap is_global e) (ap (λ (s : ScopeFrame). s ∷ ps) (declare_in-listing n g))

declare_nowhere : (n : ℕ) (ps : List ScopeFrame) → NoGlobal ps → add_declare_name n ps ≡ ps
unfolding add_declare_name
declare_nowhere n [] i = refl
declare_nowhere n (s ∷ ps) (inner_frame e i) =
    rw (add_declare_name, not_global s.kind e)
      (ap (λ t. s ∷ t) (declare_nowhere (renamed n s) ps i))

-- `addDeclareName` from a scope in a module puts one name behind the list of that module, the
-- nearest one, unless the list has it: the name of the outermost namespace around the scope and
-- inside the module, or the name itself when there is no such namespace. All other scopes stay as
-- they are. Outside of every module it changes nothing.
pub add_declare_name_lem :
    (n : ℕ) (inside : List ScopeFrame) (g : ScopeFrame) (ps : List ScopeFrame)
    → NoGlobal inside
    → g.kind ≡ global_kind
    → (add_declare_name n (inside ++ (g ∷ ps))
        ≡ inside ++ (listing (last_name n (namespace_names inside)) g ∷ ps))
      × (add_declare_name n inside ≡ inside)
add_declare_name_lem n inside g ps i e = (
  add_declare_name-append n inside (g ∷ ps) i
      ∙ ap (λ t. inside ++ t) (declare_here (last_name n (namespace_names inside)) g ps e),
  declare_nowhere n inside i,
)
