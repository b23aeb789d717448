-- ===== src/ScopeTree/Initial.antt =====
-- `initVariableIndex` and `initParamIndex`: the indices of a function's or a module's locals.
use wasmnizer_ts.ScopeTree.{
  ScopeNode, ScopeNodes, Var, allocate_local_index, assign_variable_index, block_kind, class_kind,
  function_kind, global_kind, init_param_index, init_variable_index, namespace_kind, node,
  number_params, set_var_index, start_at, with_local_index,
}
use wasmnizer_ts.ScopeTree.Indices.{assign-Assigned, forget, indices, locals, range, range-append}
use wasmnizer_ts.Base.{
  List, [], ap, arith, length, none, refl, some, suc, sym, ℕ, ◌++◌, ◌+◌, ◌∙◌, ◌∷◌, ◌≡◌,
}

-- What `initVariableIndex` makes of a scope that it numbers from `first` on.
pub record IsInitialised (s : ScopeNode) (first : ℕ) (t : ScopeNode) : Type 0 where
  pub consecutive : indices (locals t) ≡ range first (length (locals s))
  pub next : (allocate_local_index t).0 ≡ some (first + length (locals s))
  pub otherwise : forget t ≡ forget (with_local_index (first + length (locals s)) s)
  pub only_once : init_variable_index t ≡ none

start_at-IsInitialised :
    (s : ScopeNode) (first : ℕ)
    → (t : ScopeNode) × (start_at first s ≡ some t) × IsInitialised s first t
unfolding start_at with_local_index allocate_local_index init_variable_index forget
    assign_variable_index locals
start_at-IsInitialised (node k l ps vs cs) first =
    let s = node k l ps vs cs in
    let (a, f) = assign-Assigned s first in
    let last = first + length (locals s) in
    (
      with_local_index (assign_variable_index s first).1 (assign_variable_index s first).0,
      refl,
      record {
        consecutive = a.consecutive;
        next = ap some a.counted;
        otherwise =
            ap (λ (j : ℕ). with_local_index j (forget (assign_variable_index s first).0)) a.counted
            ∙ ap (with_local_index last) f;
        only_once = refl;
      },
    )

-- `initVariableIndex` of a function or a module that has no local index yet gives the variables of
-- the function and of the blocks nested in it, or of the module's blocks, in order, consecutive
-- indices: from the number of parameters and environment parameters on in a function, from 0 on in
-- a module. The next index allocated is the one after the last. Nothing else of the scope changes,
-- in particular not the functions, classes and namespaces nested in it, and a second call throws.
-- Other scopes stay as they are.
pub init_variable_index_lem :
    (ps vs : List Var) (cs : ScopeNodes)
    → ((t : ScopeNode) × (init_variable_index (node function_kind none ps vs cs) ≡ some t)
        × IsInitialised (node function_kind none ps vs cs) (length ps + 2) t)
      × ((t : ScopeNode) × (init_variable_index (node global_kind none ps vs cs) ≡ some t)
          × IsInitialised (node global_kind none ps vs cs) 0 t)
      × (init_variable_index (node block_kind none ps vs cs) ≡ some (node block_kind none ps vs cs))
      × (init_variable_index (node class_kind none ps vs cs) ≡ some (node class_kind none ps vs cs))
      × (init_variable_index (node namespace_kind none ps vs cs)
          ≡ some (node namespace_kind none ps vs cs))
unfolding init_variable_index
init_variable_index_lem ps vs cs = (
  start_at-IsInitialised (node function_kind none ps vs cs) (length ps + 2),
  start_at-IsInitialised (node global_kind none ps vs cs) 0,
  refl,
  refl,
  refl,
)

number_params_lem :
    (ps : List Var) (i : ℕ)
    → (indices (number_params i ps) ≡ range (i + 2) (length ps))
      × (length (number_params i ps) ≡ length ps)
unfolding number_params set_var_index
number_params_lem [] i = (refl, refl)
number_params_lem (p ∷ ps) i =
    let (a, b) = number_params_lem ps (i + 1) in
    (
      ap (λ t. some (i + 2) ∷ t)
          (a ∙ ap (λ j. range j (length ps)) {x = i + 1 + 2} {y = i + 2 + 1} (omega arith)),
      ap suc b,
    )

unfoldable pub params : ScopeNode → List Var
params (node k l ps vs cs) = ps

params-forget : (s : ScopeNode) → params (forget s) ≡ params s
unfolding params forget
params-forget (node k l ps vs cs) = refl

-- Once its parameters and its variables are numbered, the parameters of a function, then its
-- variables and those of the blocks nested in it have the indices from 2 on, without a gap and each
-- its own, and an index allocated later is above all of them.
pub init_indices-consecutive :
    (ps vs : List Var) (cs : ScopeNodes)
    → (t : ScopeNode) × (init_variable_index (init_param_index (node function_kind none ps vs cs))
        ≡ some t)
      × (indices (params t) ++ indices (locals t)
          ≡ range 2 (length ps + length (locals (node function_kind none ps vs cs))))
      × ((allocate_local_index t).0
          ≡ some (2 + (length ps + length (locals (node function_kind none ps vs cs)))))
unfolding init_param_index params locals init_variable_index start_at assign_variable_index
    with_local_index number_params forget
init_indices-consecutive ps vs cs =
    let (a, b) = number_params_lem ps 0 in
    let qs = number_params 0 ps in
    let (t, e, r) = start_at-IsInitialised (node function_kind none qs vs cs) (length qs + 2) in
    let same_params : params t ≡ qs = sym (params-forget t) ∙ ap params r.otherwise in
    (
      t,
      e,
      ap (λ u. indices u ++ indices (locals t)) same_params
          ∙ ap (λ u. u ++ indices (locals t)) a
          ∙ ap (λ u. range 2 (length ps) ++ u)
              (r.consecutive
                ∙ ap (λ j. range j (length (locals (node function_kind none ps vs cs))))
                    {x = length qs + 2} {y = 2 + length ps} (omega (arith, b)))
          ∙ sym (range-append 2 (length ps) (length (locals (node function_kind none ps vs cs)))),
      r.next ∙ ap some (omega (arith, b)),
    )
