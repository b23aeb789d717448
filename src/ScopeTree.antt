-- ===== src/ScopeTree.antt =====
-- src/scope.ts: the tree of scopes, with the numbering of the local variables. A name is a number
-- standing for the string. An index of `-1` is `none`. A scope carries its kind, its local index,
-- its parameters, its variables and its children; only a function has parameters.
pub mod Indices
pub mod Initial
pub mod Lookup
pub mod Tests
use wasmnizer_ts.Base.{
  Bool, List, Option, [], false, if◌then◌else◌, length, none, some, true, ℕ, ◌+◌, ◌∷◌,
}

pub data ScopeKind : Type 0 where
  global_kind function_kind block_kind class_kind namespace_kind : ScopeKind

pub record Var : Type 0 where
  pub var_name : ℕ
  pub var_index : Option ℕ

mutual
  pub data ScopeNode : Type 0 where
    node : ScopeKind → Option ℕ → List Var → List Var → ScopeNodes → ScopeNode

  pub data ScopeNodes : Type 0 where
    no_scopes : ScopeNodes
    scopes : ScopeNode → ScopeNodes → ScopeNodes

-- `BuiltinNames.envParamLen`
abbrev pub env_param_len : ℕ
env_param_len = 2

unfoldable pub set_var_index : Var → ℕ → Var
set_var_index v i = record v { var_index = some i }

-- `setVarIndex(this.localIndex++)` on each variable, and the local index after.
unfoldable pub number_vars : List Var → ℕ → List Var × ℕ
number_vars [] n = ([], n)
number_vars (v ∷ vs) n = let (ws, k) = number_vars vs (n + 1) in (set_var_index v n ∷ ws, k)

unfoldable pub owns_locals : ScopeKind → Bool
owns_locals global_kind = false
owns_locals function_kind = true
owns_locals block_kind = true
owns_locals class_kind = false
owns_locals namespace_kind = false

unfoldable pub number_own : ScopeKind → List Var → ℕ → List Var × ℕ
number_own k vs n = if owns_locals k then number_vars vs n else (vs, n)

unfoldable pub kind_of : ScopeNode → ScopeKind
kind_of (node k l ps vs cs) = k

unfoldable pub is_block : ScopeKind → Bool
is_block global_kind = false
is_block function_kind = false
is_block block_kind = true
is_block class_kind = false
is_block namespace_kind = false

-- `assignVariableIndex`, with the local index of the scope it is called on before and after. Only
-- blocks among the children are entered.
unfoldable mutual
  pub assign_variable_index : ScopeNode → ℕ → ScopeNode × ℕ
  assign_variable_index (node k l ps vs cs) n =
      let (ws, n1) = number_own k vs n in
      let (ds, n2) = assign_children cs n1 in (node k l ps ws ds, n2)

  pub assign_children : ScopeNodes → ℕ → ScopeNodes × ℕ
  assign_children no_scopes n = (no_scopes, n)
  assign_children (scopes c cs) n =
      let (d, n1) = if is_block (kind_of c) then assign_variable_index c n else (c, n) in
      let (ds, n2) = assign_children cs n1 in (scopes d ds, n2)

unfoldable pub with_local_index : ℕ → ScopeNode → ScopeNode
with_local_index n (node k l ps vs cs) = node k (some n) ps vs cs

unfoldable pub start_at : ℕ → ScopeNode → Option ScopeNode
start_at n s = let (t, k) = assign_variable_index s n in some (with_local_index k t)

-- `none` is the exception at a second call.
unfoldable pub init_variable_index : ScopeNode → Option ScopeNode
init_variable_index (node k (some l) ps vs cs) = none
init_variable_index (node function_kind none ps vs cs) =
    start_at (length ps + env_param_len) (node function_kind none ps vs cs)
init_variable_index (node global_kind none ps vs cs) = start_at 0 (node global_kind none ps vs cs)
init_variable_index (node block_kind none ps vs cs) = some (node block_kind none ps vs cs)
init_variable_index (node class_kind none ps vs cs) = some (node class_kind none ps vs cs)
init_variable_index (node namespace_kind none ps vs cs) = some (node namespace_kind none ps vs cs)

-- `setVarIndex(index + envParamLen)` on each parameter from the index on.
unfoldable pub number_params : ℕ → List Var → List Var
number_params i [] = []
number_params i (p ∷ ps) = set_var_index p (i + env_param_len) ∷ number_params (i + 1) ps

unfoldable pub init_param_index : ScopeNode → ScopeNode
init_param_index (node function_kind l ps vs cs) = node function_kind l (number_params 0 ps) vs cs
init_param_index (node global_kind l ps vs cs) = node global_kind l ps vs cs
init_param_index (node block_kind l ps vs cs) = node block_kind l ps vs cs
init_param_index (node class_kind l ps vs cs) = node class_kind l ps vs cs
init_param_index (node namespace_kind l ps vs cs) = node namespace_kind l ps vs cs

-- The local index before, and the one after.
unfoldable pub next_index : Option ℕ → ℕ
next_index none = 0
next_index (some n) = n + 1

unfoldable pub allocate_local_index : ScopeNode → Option ℕ × ScopeNode
allocate_local_index (node k l ps vs cs) = (l, node k (some (next_index l)) ps vs cs)

unfoldable pub reset_local_index : ScopeNode → ScopeNode
reset_local_index (node k l ps vs cs) = node k none ps vs cs
