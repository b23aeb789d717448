-- ===== src/SemanticCheck/Framing.antt =====
-- A check on the errors found so far, against the same check on none.
use mathlib.Core.List.{append-nil, append_assoc}
use Prim.Native.String.{String}
use wasmnizer_ts.Base.{
  Bool, List, Option, [], ap, false, if◌then◌else◌, none, refl, some, sym, true, ℕ, ◌++◌, ◌+◌, ◌∙◌,
  ◌∷◌, ◌≡◌,
}
use wasmnizer_ts.SemanticCheck.Syntax.{
  Expr, Exprs, ScopeData, Stmt, Ty, Variable, binary, call, class_type, count_exprs, expr_type,
  exprs, for_stmt, function_type, no_exprs, return_stmt, types_list,
}
use wasmnizer_ts.SemanticCheck.{
  Check, ErrorFlag, SemanticError, binary_operate_check, check_args, check_call_expr, check_call_of,
  check_function, check_params, check_scope, check_stmts, check_vars, classes_fit, crash,
  default_param_accept, expand_rest, expr_accept, incrementor_check, invoke_any_obj_check,
  invoke_any_obj_check_of, nearest_function_scope, nominal_class_check, pass, push, return_check,
  return_type_check, stmt_accept, var_init_accept, void_type_check, ◌>>◌,
}

-- The errors `errs`, then those of a check that starts with none.
abbrev pub after : List SemanticError → Option (List SemanticError) → Option (List SemanticError)
after errs none = none
after errs (some new) = some (errs ++ new)

abbrev pub Frames : Check → Type 0
Frames m = (errs : List SemanticError) → m errs ≡ after errs (m [])

pub pass-Frames : Frames pass
pass-Frames errs = rw append-nil

push-Frames : (e : SemanticError) → Frames (push e)
push-Frames e errs = refl

crash-Frames : Frames crash
crash-Frames errs = refl

after-after :
    (errs new : List SemanticError) (r : Option (List SemanticError))
    → after (errs ++ new) r ≡ after errs (after new r)
after-after errs new none = refl
after-after errs new (some x) = ap some (append_assoc errs new x)

pub seq-after :
    (m k : Check) (errs : List SemanticError) (r : Option (List SemanticError))
    → m errs ≡ r
    → (m >> k) errs ≡ elim r [ none ↦ none | some e ↦ k e ]
seq-after m k errs r h =
    ap (λ (o : Option (List SemanticError)). elim o [ none ↦ none | some e ↦ k e ]) h

pub seq-Frames : (m k : Check) → Frames m → Frames k → Frames (m >> k)
seq-Frames m k fm fk errs = go (m []) refl
  where
    go : (r : Option (List SemanticError)) → m [] ≡ r → (m >> k) errs ≡ after errs ((m >> k) [])
    go none e =
        seq-after m k errs none (fm errs ∙ ap (after errs) e)
        ∙ sym (ap (after errs) (seq-after m k [] none e))
    go (some new) e =
        seq-after m k errs (some (errs ++ new)) (fm errs ∙ ap (after errs) e)
        ∙ fk (errs ++ new)
        ∙ after-after errs new (k [])
        ∙ ap (after errs) (sym (fk new))
        ∙ sym (ap (after errs) (seq-after m k [] (some new) e))

pub if-Frames : (b : Bool) (m k : Check) → Frames m → Frames k → Frames (if b then m else k)
if-Frames true m k fm fk = fm
if-Frames false m k fm fk = fk

pub option-Frames :
    {A : Type 0} (o : Option A) (n : Check) (f : A → Check)
    → Frames n
    → ((a : A) → Frames (f a))
    → Frames (elim o [ none ↦ n | some a ↦ f a ])
option-Frames none n f fn ff = fn
option-Frames (some a) n f fn ff = ff a

pub nominal_class_check-Frames :
    (left : Option Ty) (right : Ty) (flag : ErrorFlag) (name : String)
    → Frames (nominal_class_check left right flag name)
unfolding nominal_class_check
nominal_class_check-Frames (some (class_type left)) (class_type right) flag name =
    if-Frames (classes_fit left right) pass _ pass-Frames (push-Frames _)
nominal_class_check-Frames _ right flag name = pass-Frames

pub invoke_any_obj_check-Frames :
    (left : Option Ty) (t : Ty) (name : String) → Frames (invoke_any_obj_check left t name)
unfolding invoke_any_obj_check
invoke_any_obj_check-Frames none t name = crash-Frames
invoke_any_obj_check-Frames (some left) t name = if-Frames _ _ _ (push-Frames _) pass-Frames

pub void_type_check-Frames : (t : Ty) (name : String) → Frames (void_type_check t name)
unfolding void_type_check
void_type_check-Frames t name = if-Frames _ _ _ (push-Frames _) pass-Frames

pub invoke_any_obj_check_of-Frames :
    (left o : Option Ty) (name : String) → Frames (invoke_any_obj_check_of left o name)
unfolding invoke_any_obj_check_of
invoke_any_obj_check_of-Frames left none name = pass-Frames
invoke_any_obj_check_of-Frames left (some t) name = invoke_any_obj_check-Frames left t name

pub check_args-Frames :
    (ts : List (Option Ty)) (i : ℕ) (es : Exprs) (name : String) → Frames (check_args ts i es name)
unfolding check_args
check_args-Frames ts i no_exprs name = pass-Frames
check_args-Frames ts i (exprs e es) name =
    seq-Frames _ _
      (seq-Frames _ _
        (seq-Frames _ _ (nominal_class_check-Frames _ _ _ _) (void_type_check-Frames _ _))
        (invoke_any_obj_check_of-Frames _ _ _))
      (check_args-Frames ts (i + 1) es name)

pub check_call_of-Frames :
    (t : Ty) (args : Exprs) (name : String) → Frames (check_call_of t args name)
unfolding check_call_of
check_call_of-Frames (function_type params has_rest result) args name =
    option-Frames (expand_rest has_rest (types_list params) (count_exprs args)) _ _ crash-Frames
      (λ ts. check_args-Frames ts 0 args name)
check_call_of-Frames _ args name = pass-Frames

pub check_call_expr-Frames :
    (callee : Expr) (args : Exprs) (name : String) → Frames (check_call_expr callee args name)
unfolding check_call_expr
check_call_expr-Frames callee args name = check_call_of-Frames (expr_type callee) args name

pub expr_accept-Frames : (e : Option Expr) (name : String) → Frames (expr_accept e name)
unfolding expr_accept binary_operate_check
expr_accept-Frames (some (call t callee args)) name =
    if-Frames _ _ _ pass-Frames (check_call_expr-Frames callee args name)
expr_accept-Frames (some (binary t l r)) name =
    seq-Frames _ _ (nominal_class_check-Frames _ _ _ _) (invoke_any_obj_check_of-Frames _ _ _)
expr_accept-Frames _ name = pass-Frames

pub var_init_accept-Frames : (v : Variable) (name : String) → Frames (var_init_accept v name)
unfolding var_init_accept binary_operate_check
var_init_accept-Frames v name = option-Frames v.init_expression _ _ pass-Frames (λ e.
    seq-Frames _ _
      (seq-Frames _ _ (void_type_check-Frames _ _) (nominal_class_check-Frames _ _ _ _))
      (invoke_any_obj_check_of-Frames _ _ _))

pub default_param_accept-Frames :
    (s : ScopeData) (ps : List ScopeData) → Frames (default_param_accept s ps)
unfolding default_param_accept
default_param_accept-Frames s [] = crash-Frames
default_param_accept-Frames s (p ∷ ps) =
    option-Frames (nearest_function_scope (p ∷ ps)) _ _ pass-Frames (λ f. push-Frames _)

pub return_type_check-Frames :
    (e : Expr) (s : ScopeData) (ps : List ScopeData) → Frames (return_type_check e s ps)
unfolding return_type_check
return_type_check-Frames e s ps =
    option-Frames (nearest_function_scope (s ∷ ps)) _ _ crash-Frames (λ f.
      seq-Frames _ _ (nominal_class_check-Frames _ _ _ _) (invoke_any_obj_check_of-Frames _ _ _))

incrementor_check-Frames : (t : Stmt) (name : String) → Frames (incrementor_check t name)
incrementor_check-Frames (for_stmt c i) name = expr_accept-Frames i name
incrementor_check-Frames _ name = pass-Frames

return_check-Frames :
    (t : Stmt) (s : ScopeData) (ps : List ScopeData) → Frames (return_check t s ps)
return_check-Frames (return_stmt (some e)) s ps = return_type_check-Frames e s ps
return_check-Frames _ s ps = pass-Frames

pub check_vars-Frames : (vs : List Variable) (name : String) → Frames (check_vars vs name)
unfolding check_vars
check_vars-Frames [] name = pass-Frames
check_vars-Frames (v ∷ vs) name =
    seq-Frames _ _ (seq-Frames _ _ (expr_accept-Frames _ _) (var_init_accept-Frames v name))
      (check_vars-Frames vs name)

pub check_params-Frames : (vs : List Variable) (name : String) → Frames (check_params vs name)
unfolding check_params
check_params-Frames [] name = pass-Frames
check_params-Frames (v ∷ vs) name =
    seq-Frames _ _
      (seq-Frames _ _ (seq-Frames _ _ (void_type_check-Frames _ _) (expr_accept-Frames _ _))
        (var_init_accept-Frames v name))
      (check_params-Frames vs name)

pub check_stmts-Frames :
    (ts : List Stmt) (s : ScopeData) (ps : List ScopeData) → Frames (check_stmts ts s ps)
unfolding check_stmts stmt_accept
check_stmts-Frames [] s ps = pass-Frames
check_stmts-Frames (t ∷ ts) s ps =
    seq-Frames _ _
      (seq-Frames _ _ (seq-Frames _ _ (expr_accept-Frames _ _) (incrementor_check-Frames t _))
        (return_check-Frames t s ps))
      (check_stmts-Frames ts s ps)

pub check_function-Frames : (s : ScopeData) (ps : List ScopeData) → Frames (check_function s ps)
unfolding check_function
check_function-Frames s ps =
    seq-Frames _ _ (check_params-Frames _ _)
      (if-Frames _ _ _ (default_param_accept-Frames s ps) pass-Frames)

pub check_scope-Frames : (s : ScopeData) (ps : List ScopeData) → Frames (check_scope s ps)
unfolding check_scope
check_scope-Frames s ps =
    seq-Frames _ _
      (seq-Frames _ _ (check_vars-Frames _ _)
        (if-Frames _ _ _ (check_function-Frames s ps) pass-Frames))
      (check_stmts-Frames _ s ps)
