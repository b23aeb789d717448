-- ===== src/SemanticCheck/Tests.antt =====
-- The theorems of the checker on small scope trees.
use wasmnizer_ts.SemanticCheck.{
  SemanticError, accepted, binary_operate_check, binary_operation_on_nominal_class, check_call_of,
  check_function, check_params, check_scope, check_stmts, check_vars, classes_fit,
  default_param_accept, expr_accept, get_scope_name, has_base_named, has_default_param,
  invoke_any_obj_check_of, nearest_function_scope, nominal_class_check, return_type_check,
  semantic_check, semantic_check_error, stmt_accept, traverse_scope, var_init_accept,
  void_type_as_var_type, void_type_as_variable_type, void_type_check,
}
use wasmnizer_ts.SemanticCheck.Syntax.{
  Expr, ScopeData, Scopes, TsClass, Variable, array_type, class_type, derived, exprs,
  function_scope, function_type, global_scope, is_void, no_exprs, no_scopes, no_types, other_expr,
  return_stmt, root, scope, scopes, types, void_type,
}
use wasmnizer_ts.SemanticCheck.Nominal.{
  Accepts, base_named, fits, inherits, nominal_class_check-pass_iff,
}
use wasmnizer_ts.SemanticCheck.Rest.{check_call_of-rest, check_pairs}
use wasmnizer_ts.SemanticCheck.Passing.{Reports, semantic_check-error_iff}
use wasmnizer_ts.SemanticCheck.Functions.{check_scope-clean_function}
use wasmnizer_ts.Base.{
  List, [], arith, false, get_elem?, none, refl, some, true, ℕ, ◌↔◌, ◌∷◌, ◌≡◌, ◌≢◌,
}

abbrev animal : TsClass
animal = root (record { name = "Animal"; id = 1; literal = false })

abbrev cat : TsClass
cat = derived (record { name = "Cat"; id = 2; literal = false }) animal

-- `function f(x: Cat, …rest: Animal[])` in a module, with one statement.
abbrev param : Variable
param = record { var_type = class_type cat; init_expression = none }

abbrev with_default : Variable
with_default = record {
  var_type = class_type animal;
  init_expression = some (other_expr (class_type cat));
}

abbrev void_param : Variable
void_param = record { var_type = void_type; init_expression = none }

abbrev function_data : List Variable → ScopeData
function_data ps = record {
  kind = function_scope;
  mangled_name = "f";
  vars = [];
  params = ps;
  return_type = class_type animal;
  statements = return_stmt (some (other_expr (class_type cat))) ∷ [];
}

abbrev global_data : ScopeData
global_data = record {
  kind = global_scope;
  mangled_name = "main";
  vars = [];
  params = [];
  return_type = void_type;
  statements = [];
}

-- The function in a global scope.
abbrev program : List Variable → Scopes
program ps =
    scopes (scope global_data (scopes (scope (function_data ps) no_scopes) no_scopes)) no_scopes

good : semantic_check (program (param ∷ with_default ∷ [])) ≡ accepted
unfolding semantic_check traverse_scope check_scope check_vars check_function check_params
    has_default_param default_param_accept nearest_function_scope check_stmts stmt_accept
    expr_accept var_init_accept return_type_check nominal_class_check invoke_any_obj_check_of
    void_type_check binary_operate_check classes_fit has_base_named get_scope_name
good = refl

abbrev void_error : SemanticError
void_error = record {
  error_kind = void_type_as_var_type;
  error_flag = void_type_as_variable_type;
  classes = [];
  scope_name = "f";
}

bad : semantic_check (program (void_param ∷ [])) ≡ semantic_check_error (void_error ∷ [])
unfolding semantic_check traverse_scope check_scope check_vars check_function check_params
    has_default_param default_param_accept nearest_function_scope check_stmts stmt_accept
    expr_accept var_init_accept return_type_check nominal_class_check invoke_any_obj_check_of
    void_type_check binary_operate_check classes_fit has_base_named get_scope_name
bad = refl

semantic_check-error_iff_example :
    semantic_check (program (void_param ∷ [])) ≡ semantic_check_error (void_error ∷ [])
    ↔ Reports (program (void_param ∷ [])) [] (void_error ∷ []) × (void_error ∷ [] ≢ [])
semantic_check-error_iff_example =
    semantic_check-error_iff (program (void_param ∷ [])) (void_error ∷ [])

nominal_class_check-pass_iff_example :
    (nominal_class_check
        (some (class_type animal))
        (class_type cat)
        binary_operation_on_nominal_class
        "f"
        []
      ≡ some [])
    ↔ Accepts (some (class_type animal)) (class_type cat)
nominal_class_check-pass_iff_example =
    nominal_class_check-pass_iff (some (class_type animal)) (class_type cat)
      binary_operation_on_nominal_class "f" []

fits_base : Accepts (some (class_type animal)) (class_type cat)
fits_base = fits (inherits (base_named refl))

abbrev arg : Expr
arg = other_expr (class_type cat)

check_call_of-rest_example :
    check_call_of
      (function_type
        (types (class_type cat) (types (array_type (class_type animal)) no_types))
        true
        void_type)
      (exprs arg (exprs arg (exprs arg no_exprs)))
      "f"
    ≡ check_pairs
        ((some (class_type cat), arg)
          ∷ (some (class_type animal), arg)
          ∷ (some (class_type animal), arg)
          ∷ [])
        "f"
check_call_of-rest_example =
    check_call_of-rest (types (class_type cat) no_types)
      (types (class_type cat) (types (array_type (class_type animal)) no_types))
      (array_type (class_type animal)) void_type (exprs arg (exprs arg (exprs arg no_exprs))) "f"
      refl (omega arith)

clean_function :
    check_scope (function_data (param ∷ with_default ∷ [])) (global_data ∷ []) [] ≡ some []
unfolding check_scope check_vars check_function check_params has_default_param default_param_accept
    nearest_function_scope check_stmts stmt_accept expr_accept var_init_accept return_type_check
    nominal_class_check invoke_any_obj_check_of void_type_check binary_operate_check classes_fit
    has_base_named get_scope_name
clean_function = refl

check_scope-clean_function_example :
    ((i : ℕ) (p : Variable)
      → get_elem? (param ∷ with_default ∷ []) i ≡ some p
      → is_void p.var_type ≡ false)
    × (has_default_param (param ∷ with_default ∷ []) ≡ true
        → (nearest_function_scope (global_data ∷ []) ≡ none) × ((global_data ∷ []) ≢ []))
check_scope-clean_function_example =
    check_scope-clean_function (function_data (param ∷ with_default ∷ [])) (global_data ∷ []) refl
      clean_function
