-- ===== src/SemanticCheck.antt =====
-- src/semantic_check.ts: the rules that are checked on the scope tree before code is generated.
-- `SemanticCheck.Syntax` has the types, expressions, statements and scopes as the checker reads
-- them.
--
-- A check takes the errors found so far to those found after it; `none` is the `TypeError` of a
-- read from `undefined` or `null`. `this.curScope` is passed as a scope with its ancestors,
-- nearest first.
pub mod Syntax
pub mod Nominal
pub mod Rest
pub mod Framing
pub mod Passing
pub mod Functions
pub mod Tests
use Prim.Native.String.{String}
use text.Mathlib.Text.{◌==◌ as str_eq}
use wasmnizer_ts.Base.{
  Bool, List, Option, [], false, get_elem?, if◌then◌else◌, leb, length, map, none, not, replicate,
  some, take, true, ℕ, ◌&&◌, ◌++◌, ◌+◌, ◌-◌, ◌==◌, ◌||◌, ◌∷◌,
}
use wasmnizer_ts.SemanticCheck.Syntax.{
  Expr, Exprs, Scope, ScopeData, Scopes, Stmt, TsClass, Ty, Variable, binary, block_scope, call,
  case_clause, class_name, class_scope, class_type, count_exprs, derived, element_type, expr_type,
  expression_stmt, exprs, for_stmt, function_scope, function_type, global_scope, if_stmt, is_any,
  is_function, is_literal, is_void, loop_stmt, namespace_scope, no_exprs, no_scopes, other_stmt,
  plain_scope, property_access, return_stmt, root, scope, scopes, switch_stmt, type_id, types_list,
}

pub data ErrorKind : Type 0 where
  nominal_class closure_or_inner_function_default_param invoke_any_obj : ErrorKind
  void_type_as_var_type : ErrorKind

pub data ErrorFlag : Type 0 where
  binary_operation_on_nominal_class return_types_are_nominal_class : ErrorFlag
  args_and_params_types_are_nominal_class closure_or_inner_func_has_default_params : ErrorFlag
  invoke_any_object void_type_as_variable_type : ErrorFlag

-- The message is built from the kind, the flag and, for nominal classes, the two classes.
pub record SemanticError : Type 0 where
  pub error_kind : ErrorKind
  pub error_flag : ErrorFlag
  pub classes : List TsClass
  pub scope_name : String

abbrev pub Check : Type 0
Check = List SemanticError → Option (List SemanticError)

infixl 5 ◌>>◌
abbrev pub ◌>>◌ : Check → Check → Check
◌>>◌ m k errs = elim (m errs) [ none ↦ none | some errs' ↦ k errs' ]

abbrev pub pass : Check
pass errs = some errs

abbrev pub crash : Check
crash errs = none

abbrev pub push : SemanticError → Check
push e errs = some (errs ++ e ∷ [])

-- `_getScopeByType(ScopeKind.FunctionScope)` from the first scope of the list on.
unfoldable pub nearest_function_scope : List ScopeData → Option ScopeData
nearest_function_scope [] = none
nearest_function_scope (s ∷ ss) = elim (is_function s.kind) [
  | true ↦ some s
  | false ↦ nearest_function_scope ss
]

unfoldable pub get_scope_name : ScopeData → List ScopeData → String
get_scope_name s ancestors = elim s.kind [
  | function_scope ↦ s.mangled_name
  | global_scope ↦ s.mangled_name
  | block_scope ↦ elim (nearest_function_scope (s ∷ ancestors)) [
    | none ↦ s.mangled_name
    | some f ↦ f.mangled_name
  ]
  | class_scope ↦ s.mangled_name
  | namespace_scope ↦ s.mangled_name
  | plain_scope ↦ "unknown scope"
]

-- `while (base) { if (base.className === left.className) return; base = base.getBase(); }`
unfoldable pub has_base_named : String → TsClass → Bool
has_base_named n (root c) = false
has_base_named n (derived c b) = str_eq (class_name b) n || has_base_named n b

-- The tests behind those for interfaces and non-classes.
unfoldable pub classes_fit : TsClass → TsClass → Bool
unfolding has_base_named
classes_fit left right =
    ((is_literal left || is_literal right) && type_id left == type_id right)
    || (str_eq (class_name left) (class_name right) || has_base_named (class_name left) right)

-- `left` may be `undefined`.
unfoldable pub nominal_class_check : Option Ty → Ty → ErrorFlag → String → Check
nominal_class_check (some (class_type left)) (class_type right) flag name =
    if classes_fit left right
    then pass
    else push (record {
      error_kind = nominal_class;
      error_flag = flag;
      classes = right ∷ left ∷ [];
      scope_name = name;
    })
nominal_class_check _ right flag name = pass

unfoldable pub invoke_any_obj_check : Option Ty → Ty → String → Check
invoke_any_obj_check none expr_ty name = crash
invoke_any_obj_check (some left) expr_ty name =
    if not (is_any left) && is_any expr_ty
    then push (record {
      error_kind = invoke_any_obj;
      error_flag = invoke_any_object;
      classes = [];
      scope_name = name;
    })
    else pass

unfoldable pub void_type_check : Ty → String → Check
void_type_check t name =
    if is_void t
    then push (record {
      error_kind = void_type_as_var_type;
      error_flag = void_type_as_variable_type;
      classes = [];
      scope_name = name;
    })
    else pass

unfoldable pub binary_operate_check : Ty → Ty → String → Check
binary_operate_check left right name =
    nominal_class_check (some left) right binary_operation_on_nominal_class name

-- `paramTypes[paramTypes.length - 1].elementType`: nothing for no parameters (a crash), and
-- `undefined` for a last parameter that is no array.
unfoldable pub rest_element : List Ty → Option (Option Ty)
rest_element [] = none
rest_element (t ∷ []) = some (element_type t)
rest_element (t ∷ u ∷ ts) = rest_element (u ∷ ts)

-- The parameter types against which `args` arguments are checked.
unfoldable pub expand_rest : Bool → List Ty → ℕ → Option (List (Option Ty))
expand_rest false params args = some (map some params)
expand_rest true params args = elim (rest_element params) [
  | none ↦ none
  | some rest ↦ some (
      if leb (length params) args
      then take (length params - 1) (map some params) ++ replicate (args + 1 - length params) rest
      else map some params)
]

abbrev pub param_at : List (Option Ty) → ℕ → Option Ty
param_at ts i = elim (get_elem? ts i) [ none ↦ none | some t ↦ t ]

-- `argExpr instanceof PropertyAccessExpression`, and then the type of its object.
abbrev pub accessed_object : Expr → Option Ty
accessed_object (property_access t o p) = some (expr_type o)
accessed_object _ = none

abbrev pub accessed_property : Expr → Option Ty
accessed_property (property_access t o p) = some (expr_type p)
accessed_property _ = none

unfoldable pub invoke_any_obj_check_of : Option Ty → Option Ty → String → Check
invoke_any_obj_check_of left none name = pass
invoke_any_obj_check_of left (some t) name = invoke_any_obj_check left t name

-- The loop over the arguments, from the `i`-th on.
unfoldable pub check_args : List (Option Ty) → ℕ → Exprs → String → Check
check_args ts i no_exprs name = pass
check_args ts i (exprs e es) name =
    nominal_class_check (param_at ts i) (expr_type e) args_and_params_types_are_nominal_class name
    >> void_type_check (expr_type e) name
    >> invoke_any_obj_check_of (param_at ts i) (accessed_object e) name
    >> check_args ts (i + 1) es name

-- `checkCallExpr`, by the type of the callee: nothing unless it is a function type.
unfoldable pub check_call_of : Ty → Exprs → String → Check
check_call_of (function_type params has_rest result) args name =
    elim (expand_rest has_rest (types_list params) (count_exprs args)) [
      | none ↦ crash
      | some ts ↦ check_args ts 0 args name
    ]
check_call_of _ args name = pass

unfoldable pub check_call_expr : Expr → Exprs → String → Check
check_call_expr callee args name = check_call_of (expr_type callee) args name

abbrev is_property_access : Expr → Bool
is_property_access (property_access t o p) = true
is_property_access _ = false

unfoldable pub expr_accept : Option Expr → String → Check
expr_accept (some (call t callee args)) name =
    if is_property_access callee && is_any (expr_type callee)
    then pass
    else check_call_expr callee args name
expr_accept (some (binary t l r)) name =
    binary_operate_check (expr_type l) (expr_type r) name
    >> invoke_any_obj_check_of (some (expr_type l)) (accessed_property r) name
expr_accept _ name = pass

unfoldable pub var_init_accept : Variable → String → Check
var_init_accept v name = elim v.init_expression [
  | none ↦ pass
  | some e ↦
      void_type_check v.var_type name
      >> binary_operate_check v.var_type (expr_type e) name
      >> invoke_any_obj_check_of (some v.var_type) (accessed_object e) name
]

unfoldable pub default_param_accept : ScopeData → List ScopeData → Check
default_param_accept s [] = crash
default_param_accept s (p ∷ ps) = elim (nearest_function_scope (p ∷ ps)) [
  | none ↦ pass
  | some f ↦ push (record {
    error_kind = closure_or_inner_function_default_param;
    error_flag = closure_or_inner_func_has_default_params;
    classes = [];
    scope_name = get_scope_name s (p ∷ ps);
  })
]

unfoldable pub return_type_check : Expr → ScopeData → List ScopeData → Check
return_type_check e s ancestors = elim (nearest_function_scope (s ∷ ancestors)) [
  | none ↦ crash
  | some f ↦
      nominal_class_check (some f.return_type) (expr_type e) return_types_are_nominal_class
        (get_scope_name s ancestors)
      >> invoke_any_obj_check_of (some f.return_type) (accessed_object e)
          (get_scope_name s ancestors)
]

-- The expression that `stmtAccept` picks by the class of the statement.
abbrev stmt_expr : Stmt → Option Expr
stmt_expr (if_stmt c) = some c
stmt_expr (return_stmt e) = e
stmt_expr (loop_stmt c) = some c
stmt_expr (for_stmt c i) = c
stmt_expr (expression_stmt e) = some e
stmt_expr (case_clause e) = some e
stmt_expr (switch_stmt c) = some c
stmt_expr other_stmt = none

abbrev pub incrementor_check : Stmt → String → Check
incrementor_check (for_stmt c i) name = expr_accept i name
incrementor_check _ name = pass

abbrev pub return_check : Stmt → ScopeData → List ScopeData → Check
return_check (return_stmt (some e)) s ancestors = return_type_check e s ancestors
return_check _ s ancestors = pass

unfoldable pub stmt_accept : Stmt → ScopeData → List ScopeData → Check
stmt_accept stmt s ancestors =
    expr_accept (stmt_expr stmt) (get_scope_name s ancestors)
    >> incrementor_check stmt (get_scope_name s ancestors)
    >> return_check stmt s ancestors

unfoldable pub check_vars : List Variable → String → Check
check_vars [] name = pass
check_vars (v ∷ vs) name =
    expr_accept v.init_expression name >> var_init_accept v name >> check_vars vs name

unfoldable pub check_params : List Variable → String → Check
check_params [] name = pass
check_params (p ∷ ps) name =
    void_type_check p.var_type name
    >> expr_accept p.init_expression name
    >> var_init_accept p name
    >> check_params ps name

abbrev pub has_init : Variable → Bool
has_init v = elim v.init_expression [ none ↦ false | some e ↦ true ]

unfoldable pub has_default_param : List Variable → Bool
has_default_param [] = false
has_default_param (p ∷ ps) = has_init p || has_default_param ps

unfoldable pub check_stmts : List Stmt → ScopeData → List ScopeData → Check
check_stmts [] s ancestors = pass
check_stmts (t ∷ ts) s ancestors = stmt_accept t s ancestors >> check_stmts ts s ancestors

-- The part for a `FunctionScope`.
unfoldable pub check_function : ScopeData → List ScopeData → Check
check_function s ancestors =
    check_params s.params (get_scope_name s ancestors)
    >> (if has_default_param s.params then default_param_accept s ancestors else pass)

-- The callback that `sematicCheck` hands to `traverseScopTree`.
unfoldable pub check_scope : ScopeData → List ScopeData → Check
check_scope s ancestors =
    check_vars s.vars (get_scope_name s ancestors)
    >> (if is_function s.kind then check_function s ancestors else pass)
    >> check_stmts s.statements s ancestors

-- `traverseScopTree`: the scope, then its children in order.
unfoldable mutual
  pub traverse_scope : Scope → List ScopeData → Check
  traverse_scope (scope s cs) ancestors =
      check_scope s ancestors >> traverse_scopes cs (s ∷ ancestors)

  pub traverse_scopes : Scopes → List ScopeData → Check
  traverse_scopes no_scopes ancestors = pass
  traverse_scopes (scopes c cs) ancestors =
      traverse_scope c ancestors >> traverse_scopes cs ancestors

pub data Verdict : Type 0 where
  accepted : Verdict
  semantic_check_error : List SemanticError → Verdict
  type_error : Verdict

abbrev pub verdict : Option (List SemanticError) → Verdict
verdict none = type_error
verdict (some []) = accepted
verdict (some (e ∷ es)) = semantic_check_error (e ∷ es)

-- `sematicCheck` over the global scopes.
unfoldable pub semantic_check : Scopes → Verdict
semantic_check globals = verdict (traverse_scopes globals [] [])
