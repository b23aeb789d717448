-- ===== src/SemanticCheck/Functions.antt =====
-- What an error-free check says of a function scope.
use Prim.Native.String.{String}
use wasmnizer_ts.SemanticCheck.{
  Check, check_function, check_params, check_scope, check_vars,
  closure_or_inner_func_has_default_params, closure_or_inner_function_default_param,
  default_param_accept, expr_accept, get_scope_name, has_default_param, nearest_function_scope,
  pass, push, var_init_accept, void_type_check, ◌>>◌,
}
use wasmnizer_ts.SemanticCheck.Syntax.{ScopeData, Ty, Variable, is_function, is_void}
use wasmnizer_ts.SemanticCheck.Framing.{
  Frames, check_function-Frames, check_params-Frames, check_stmts-Frames,
  default_param_accept-Frames, expr_accept-Frames, if-Frames, pass-Frames, var_init_accept-Frames,
}
use wasmnizer_ts.SemanticCheck.Passing.{append-eq-nil, seq-eq-some}
use wasmnizer_ts.Base.{
  Bool, Bool-cases, List, Option, [], ap, arith, false, get_elem?, if◌then◌else◌, inl, inr, none,
  refl, some, suc, sym, true, zero, ℕ, ◌∙◌, ◌∷◌, ◌≡◌, ◌≢◌,
}

seq-clean : (m k : Check) → Frames k → (m >> k) [] ≡ some [] → (m [] ≡ some []) × (k [] ≡ some [])
seq-clean m k fk h =
    let (a, b, ma, kb, e) = seq-eq-some m k fk h in
    let (ea, eb) = append-eq-nil a b (sym e) in (ma ∙ ap some ea, kb ∙ ap some eb)

void_type_check-clean :
    (t : Ty) (name : String) → void_type_check t name [] ≡ some [] → is_void t ≡ false
unfolding void_type_check
void_type_check-clean t name h = elim (Bool-cases (is_void t)) [
  | inl e ↦ ground (arith, e, h)
  | inr e ↦ e
]

some-eq : (q p : Variable) → some q ≡ some p → q ≡ p
some-eq q p e = cc

first : (q p : Variable) → q ≡ p → is_void q.var_type ≡ false → is_void p.var_type ≡ false
first q p e h = ap (λ (v : Variable). is_void v.var_type) (sym e) ∙ h

check_params-cons :
    (q : Variable) (ps : List Variable) (name : String)
    → check_params (q ∷ ps) name [] ≡ some []
    → (is_void q.var_type ≡ false) × (check_params ps name [] ≡ some [])
unfolding check_params
check_params-cons q ps name h =
    let void = void_type_check q.var_type name in
    let expr = expr_accept q.init_expression name in
    let (front, rest) =
      seq-clean (void >> expr >> var_init_accept q name) _ (check_params-Frames ps name) h in
    let (front, init) = seq-clean (void >> expr) _ (var_init_accept-Frames q name) front in
    let (first, rest_of_front) =
      seq-clean void _ (expr_accept-Frames q.init_expression name) front in
    (void_type_check-clean q.var_type name first, rest)

check_params-clean :
    (ps : List Variable) (name : String)
    → check_params ps name [] ≡ some []
    → (i : ℕ) (p : Variable) → get_elem? ps i ≡ some p
    → is_void p.var_type ≡ false
check_params-clean [] name h i p e = cc
check_params-clean (q ∷ ps) name h zero p e =
    first q p (some-eq q p e) (check_params-cons q ps name h).0
check_params-clean (q ∷ ps) name h (suc i) p e =
    check_params-clean ps name (check_params-cons q ps name h).1 i p e

default_param_accept-clean :
    (s : ScopeData) (ps : List ScopeData)
    → default_param_accept s ps [] ≡ some []
    → (nearest_function_scope ps ≡ none) × (ps ≢ [])
unfolding default_param_accept
default_param_accept-clean s [] h = cc
default_param_accept-clean s (p ∷ ps) h = go (nearest_function_scope (p ∷ ps)) refl h
  where
    go :
        (r : Option ScopeData)
        → nearest_function_scope (p ∷ ps) ≡ r
        → (elim r as (λ r. Check) [
          | none ↦ pass
          | some f ↦ push (record {
            error_kind = closure_or_inner_function_default_param;
            error_flag = closure_or_inner_func_has_default_params;
            classes = [];
            scope_name = get_scope_name s (p ∷ ps);
          })
        ])
            []
          ≡ some []
        → (nearest_function_scope (p ∷ ps) ≡ none) × ((p ∷ ps) ≢ [])
    go none e k = (e, λ n. cc)
    go (some f) e k = cc

if-clean : (b : Bool) (m : Check) → (if b then m else pass) [] ≡ some [] → b ≡ true → m [] ≡ some []
if-clean true m h e = h
if-clean false m h e = cc

-- A function scope whose check ends without an error has no parameter of type `void`; and if one of
-- its parameters has a default value, the function is not nested in another one: it has a parent
-- scope, and no scope around it is a function scope.
pub check_scope-clean_function :
    (s : ScopeData) (ancestors : List ScopeData)
    → is_function s.kind ≡ true
    → check_scope s ancestors [] ≡ some []
    → ((i : ℕ) (p : Variable) → get_elem? s.params i ≡ some p → is_void p.var_type ≡ false)
      × (has_default_param s.params ≡ true
          → (nearest_function_scope ancestors ≡ none) × (ancestors ≢ []))
unfolding check_scope check_function
check_scope-clean_function s ancestors f h =
    let (front, stmts) =
      seq-clean
        (check_vars s.vars (get_scope_name s ancestors)
          >> (if is_function s.kind then check_function s ancestors else pass))
        _ (check_stmts-Frames s.statements s ancestors) h in
    let (vars, own) =
      seq-clean (check_vars s.vars (get_scope_name s ancestors)) _
        (if-Frames (is_function s.kind) _ _ (check_function-Frames s ancestors) pass-Frames)
        front in
    let (params, defaults) =
      seq-clean (check_params s.params (get_scope_name s ancestors)) _
        (if-Frames (has_default_param s.params) _ _ (default_param_accept-Frames s ancestors)
          pass-Frames)
        (if-clean _ (check_function s ancestors) own f) in
    (
      check_params-clean s.params _ params,
      λ d. default_param_accept-clean s ancestors (if-clean _ _ defaults d),
    )
