-- ===== src/SemanticCheck/Syntax.antt =====
-- src/type.ts, src/expression.ts, src/statement.ts, src/variable.ts and src/scope.ts, as far as the
-- checker reads them. A kind that it does not tell apart is `other_…`. Every expression has a type.
use Prim.Native.String.{String}
use wasmnizer_ts.Base.{Bool, List, Option, [], false, none, some, suc, true, ℕ, ◌∷◌}

-- `TSClass` with its chain of base classes, which ends.
pub record ClassInfo : Type 0 where
  pub name : String
  pub id : ℕ
  pub literal : Bool

pub data TsClass : Type 0 where
  root : ClassInfo → TsClass
  derived : ClassInfo → TsClass → TsClass

abbrev pub class_info : TsClass → ClassInfo
class_info (root c) = c
class_info (derived c b) = c

abbrev pub class_name : TsClass → String
class_name c = (class_info c).name

abbrev pub type_id : TsClass → ℕ
type_id c = (class_info c).id

abbrev pub is_literal : TsClass → Bool
is_literal c = (class_info c).literal

mutual
  pub data Ty : Type 0 where
    void_type any_type union_type : Ty
    class_type interface_type : TsClass → Ty
    array_type : Ty → Ty
    -- parameters, `hasRest()`, and the type returned
    function_type : Tys → Bool → Ty → Ty
    other_type : Ty

  pub data Tys : Type 0 where
    no_types : Tys
    types : Ty → Tys → Tys

abbrev pub types_list : Tys → List Ty
types_list no_types = []
types_list (types t ts) = t ∷ types_list ts

abbrev pub is_any : Ty → Bool
is_any any_type = true
is_any _ = false

abbrev pub is_void : Ty → Bool
is_void void_type = true
is_void _ = false

abbrev pub element_type : Ty → Option Ty
element_type (array_type t) = some t
element_type _ = none

mutual
  -- The type of the expression comes first.
  pub data Expr : Type 0 where
    call : Ty → Expr → Exprs → Expr
    binary : Ty → Expr → Expr → Expr
    -- the object and the property
    property_access : Ty → Expr → Expr → Expr
    other_expr : Ty → Expr

  pub data Exprs : Type 0 where
    no_exprs : Exprs
    exprs : Expr → Exprs → Exprs

abbrev pub expr_type : Expr → Ty
expr_type (call t f args) = t
expr_type (binary t l r) = t
expr_type (property_access t o p) = t
expr_type (other_expr t) = t

abbrev pub count_exprs : Exprs → ℕ
count_exprs no_exprs = 0
count_exprs (exprs e es) = suc (count_exprs es)

-- A variable or a parameter.
pub record Variable : Type 0 where
  pub var_type : Ty
  pub init_expression : Option Expr

pub data Stmt : Type 0 where
  if_stmt : Expr → Stmt
  return_stmt : Option Expr → Stmt
  -- `while` and `do … while`
  loop_stmt : Expr → Stmt
  -- condition and incrementor
  for_stmt : Option Expr → Option Expr → Stmt
  expression_stmt : Expr → Stmt
  case_clause : Expr → Stmt
  switch_stmt : Expr → Stmt
  other_stmt : Stmt

pub data ScopeKind : Type 0 where
  function_scope global_scope block_scope class_scope namespace_scope plain_scope : ScopeKind

abbrev pub is_function : ScopeKind → Bool
is_function function_scope = true
is_function _ = false

-- A scope without its children. Parameters and `return_type` are read of function scopes only.
pub record ScopeData : Type 0 where
  pub kind : ScopeKind
  pub mangled_name : String
  pub vars : List Variable
  pub params : List Variable
  pub return_type : Ty
  pub statements : List Stmt

mutual
  pub data Scope : Type 0 where
    scope : ScopeData → Scopes → Scope

  pub data Scopes : Type 0 where
    no_scopes : Scopes
    scopes : Scope → Scopes → Scopes
