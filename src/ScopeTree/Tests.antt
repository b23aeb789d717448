-- ===== src/ScopeTree/Tests.antt =====
-- The numbering on a function with a block and a nested function.
use wasmnizer_ts.ScopeTree.{
  ScopeKind, ScopeNode, ScopeNodes, Var, allocate_local_index, block_kind, class_kind,
  function_kind, global_kind, init_param_index, init_variable_index, is_block, kind_of,
  namespace_kind, no_scopes, node, owns_locals, scopes,
}
use wasmnizer_ts.ScopeTree.Indices.{indices, locals, own, range}
use wasmnizer_ts.ScopeTree.Lookup.{
  NoGlobal, ScopeFrame, add_declare_name, add_declare_name_lem, find_named, find_variable,
  find_variable_lem, inner_frame, is_global, last_name, listing, namespace_names,
  namespace_names_of, no_frames, own_vars, visible,
}
use wasmnizer_ts.ScopeTree.Initial.{
  IsInitialised, init_indices-consecutive, init_variable_index_lem, params,
}
use wasmnizer_ts.Base.{
  List, [], ap, false, length, none, refl, some, sym, true, ℕ, ◌++◌, ◌+◌, ◌∙◌, ◌∷◌, ◌≡◌, ◌≢◌,
}

abbrev var : ℕ → Var
var n = record { var_name = n; var_index = none }

abbrev a_block : ScopeNode
a_block = node block_kind none [] (var 5 ∷ var 6 ∷ []) no_scopes

abbrev nested_function : ScopeNode
nested_function = node function_kind none [] (var 7 ∷ []) no_scopes

abbrev inner : ScopeNodes
inner = scopes nested_function (scopes a_block no_scopes)

abbrev a_function : ScopeNode
a_function = node function_kind none (var 1 ∷ []) (var 2 ∷ var 3 ∷ []) inner

init_variable_index_lem_example :
    ((t : ScopeNode) × (init_variable_index a_function ≡ some t) × IsInitialised a_function 3 t)
    × ((t : ScopeNode) × (init_variable_index
            (node global_kind none (var 1 ∷ []) (var 2 ∷ var 3 ∷ []) inner)
          ≡ some t)
        × IsInitialised (node global_kind none (var 1 ∷ []) (var 2 ∷ var 3 ∷ []) inner) 0 t)
    × (init_variable_index (node block_kind none (var 1 ∷ []) (var 2 ∷ var 3 ∷ []) inner)
        ≡ some (node block_kind none (var 1 ∷ []) (var 2 ∷ var 3 ∷ []) inner))
    × (init_variable_index (node class_kind none (var 1 ∷ []) (var 2 ∷ var 3 ∷ []) inner)
        ≡ some (node class_kind none (var 1 ∷ []) (var 2 ∷ var 3 ∷ []) inner))
    × (init_variable_index (node namespace_kind none (var 1 ∷ []) (var 2 ∷ var 3 ∷ []) inner)
        ≡ some (node namespace_kind none (var 1 ∷ []) (var 2 ∷ var 3 ∷ []) inner))
init_variable_index_lem_example = init_variable_index_lem (var 1 ∷ []) (var 2 ∷ var 3 ∷ []) inner

init_indices-consecutive_example :
    (t : ScopeNode) × (init_variable_index (init_param_index a_function) ≡ some t)
    × (indices (params t) ++ indices (locals t) ≡ range 2 (1 + length (locals a_function)))
    × ((allocate_local_index t).0 ≡ some (2 + (1 + length (locals a_function))))
init_indices-consecutive_example = init_indices-consecutive (var 1 ∷ []) (var 2 ∷ var 3 ∷ []) inner

-- The block's variables come after the function's, and those of the nested function are not
-- counted.
four_locals : length (locals a_function) ≡ 4
unfolding locals own owns_locals is_block kind_of
four_locals = refl

abbrev a_frame : ScopeKind → ℕ → List Var → List Var → ScopeFrame
a_frame k n vs ps = record {
  kind = k;
  name = n;
  has_declare = false;
  has_abstract = false;
  variable_array = vs;
  param_array = ps;
  declare_identifier_list = [];
}

abbrev function_frame : ScopeFrame
function_frame = a_frame function_kind 20 (var 2 ∷ []) (var 1 ∷ [])

abbrev inner_namespace : ScopeFrame
inner_namespace = a_frame namespace_kind 30 [] []

abbrev outer_namespace : ScopeFrame
outer_namespace = a_frame namespace_kind 31 [] []

abbrev module_frame : ScopeFrame
module_frame = a_frame global_kind 40 (var 1 ∷ var 4 ∷ []) []

find_variable_lem_example :
    (find_variable 4 true (function_frame ∷ module_frame ∷ [])
      ≡ find_named 4 (visible (function_frame ∷ module_frame ∷ [])))
    × (find_variable 4 false (function_frame ∷ module_frame ∷ [])
        ≡ find_named 4 (own_vars function_frame))
find_variable_lem_example = find_variable_lem 4 function_frame (module_frame ∷ [])

not_a_module : (k : ScopeKind) → is_global k ≡ false → k ≢ global_kind
unfolding is_global
not_a_module k e p = absurd (is_no_module (sym (ap is_global p) ∙ e))
  where
    is_no_module : true ≡ false → ⊥
    is_no_module h = absurd cc

in_namespaces : NoGlobal (function_frame ∷ inner_namespace ∷ outer_namespace ∷ [])
unfolding is_global
in_namespaces = inner_frame (not_a_module function_kind refl) (
    inner_frame (not_a_module namespace_kind refl)
      (inner_frame (not_a_module namespace_kind refl) no_frames))

add_declare_name_lem_example :
    (add_declare_name 5 (function_frame ∷ inner_namespace ∷ outer_namespace ∷ module_frame ∷ [])
      ≡ function_frame ∷ inner_namespace ∷ outer_namespace ∷ listing 31 module_frame ∷ [])
    × (add_declare_name 5 (function_frame ∷ inner_namespace ∷ outer_namespace ∷ [])
        ≡ function_frame ∷ inner_namespace ∷ outer_namespace ∷ [])
unfolding namespace_names namespace_names_of last_name
add_declare_name_lem_example =
    add_declare_name_lem 5 (function_frame ∷ inner_namespace ∷ outer_namespace ∷ []) module_frame []
      in_namespaces refl
