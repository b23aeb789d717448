-- ===== src/IrFunction/Tests.antt =====
-- Runs of the code generation of src/semantics/ir/function.ts on a function with two variables.
use wasmnizer_ts.IrFunction.Parts.{build_binary_expr, is_equal_operator, is_known}
use mathlib.Core.Option.{some-injective, none-ne-some}
use wasmnizer_ts.IrFunction.Machine.{
  ExecutesAll, IsPlain, Meaning, and_then, assign, assign_operated, done, of_binary, of_literal,
  of_local, updated,
}
use wasmnizer_ts.IrFunction.Slots.{Agrees, IsScope, updated_other, updated_same}
use wasmnizer_ts.IrFunction.Assignments.{RunsTo, build_function-ExecutesAll, flattened, start_vars}
use wasmnizer_ts.IrFunction.Buildable.{CanBuild, CanBuildAll}
use wasmnizer_ts.IrFunction.Built.{BuildsInBounds, build_function-CanBuild}
use wasmnizer_ts.IrFunction.Building.{CanLoad, CanSave, CanSaveRef}
use wasmnizer_ts.IrFunction.Returns.{is_found_at}
use wasmnizer_ts.IrFunction.{
  Context, LocalVars, build_function_var, build_local, build_save_var, build_var_of,
  build_var_value, find_var, get_local_var_index, larger, place_of, pop_block_vars, push_local_vars,
  save_function_var, save_var_of, update_temp,
}
use wasmnizer_ts.IrCode.Instructions.{
  block_code, branch_code, load_const_code, load_local_code, save_local_code,
}
use wasmnizer_ts.IrFunction.Tree.{
  Decl, FunctionData, Value, Values, binary_expr, block_branch, block_value, decl_ref,
  literal_value, local_storage, local_var, no_values, value, values, var_value,
}
use wasmnizer_ts.IrFunction.Builder.{IrFunction, build_function, build_value, build_values}
use wasmnizer_ts.IrFunction.Locals.{IsStacked}
use wasmnizer_ts.IrFunction.Lookup.{IsPlace, get_local_var_index_lem, slots}
use wasmnizer_ts.IrFunction.Room.{HasDirectBlocks, HaveDirectBlocks, needed}
use wasmnizer_ts.IrFunction.Indices.{IsInBounds, build_function-IsInBounds}
use wasmnizer_ts.IrCode.{
  IrCodes, Ty, add_op, binary_code, binary_kind, codes, equals_token, kind_value, new_binary_op,
  no_codes, number_kind, of_kind, one, plus_equals, plus_token, value_type_of, void_kind, ◌+++◌,
}
use wasmnizer_ts.GlobalContext.{ModuleNode, new_global_context}
use wasmnizer_ts.DataPool.{new_data_pool}
use wasmnizer_ts.Base.{
  Bool-cases, List, Option, [], ap, false, get_elem?, inl, inr, none, refl, some, suc, sym, true,
  zero, ℕ, ◌+◌, ◌==◌, ◌∙◌, ◌∷◌, ◌≡◌, ◌⊎◌,
}

abbrev number_type : Ty
number_type = of_kind number_kind 0

abbrev void_type : Ty
void_type = of_kind void_kind 0

abbrev a_local : ℕ → Decl
a_local i = record {
  decl_id = i;
  decl_name = i;
  storage = local_storage;
  decl_type = number_type;
  is_ref = false;
}

abbrev var_of : ℕ → Value
var_of i =
    value number_type (var_value (record { var_kind = local_var; var_ref = decl_ref (a_local i) }))

abbrev literal_of : ℕ → Value
literal_of n = value number_type (literal_value n)

abbrev inner_block : Value
inner_block = value void_type (
    block_value
      (record { id = 2; is_loop = false; var_list = some (a_local 8 ∷ []); ref_list = none })
      (values (value number_type (binary_expr equals_token (var_of 8) (literal_of 5))) (
        values (value number_type (binary_expr plus_equals (var_of 7) (var_of 8)))
          (values (value void_type (block_branch 1)) no_values))))

abbrev outer_block : Value
outer_block = value void_type (
    block_value
      (record { id = 1; is_loop = false; var_list = some (a_local 7 ∷ []); ref_list = none })
      (values inner_block no_values))

abbrev a_function : FunctionData
a_function = record {
  parameters = none;
  closure_vars = none;
  function_vars = some (a_local 7 ∷ []);
  this_class = none;
}

abbrev no_module : ModuleNode
no_module = record { vars = []; functions = []; named_types = []; object_descriptions = [] }

outer_block-HasDirectBlocks : HasDirectBlocks outer_block
unfolding HasDirectBlocks HaveDirectBlocks needed larger
outer_block-HasDirectBlocks = ((refl, (refl, (refl, tt))), tt)

build_function-IsInBounds_example :
    IsInBounds a_function
      (build_function a_function outer_block (new_global_context no_module) new_data_pool)
build_function-IsInBounds_example =
    build_function-IsInBounds a_function outer_block (new_global_context no_module) new_data_pool
      outer_block-HasDirectBlocks

abbrev two_entries : List LocalVars
two_entries =
    record { start = 1; vars = a_local 8 ∷ [] } ∷ record { start = 0; vars = a_local 7 ∷ [] } ∷ []

two_entries-IsStacked : IsStacked two_entries
unfolding IsStacked
two_entries-IsStacked = (refl, (refl, tt))

get_local_var_index_lem_example :
    IsPlace (a_local 8) (slots two_entries) (get_local_var_index (a_local 8) two_entries)
get_local_var_index_lem_example =
    get_local_var_index_lem (a_local 8) two_entries two_entries-IsStacked

abbrev codes_of : Option (IrFunction × Context) → Option IrCodes
codes_of none = none
codes_of (some (ir, c)) = some ir.ir_codes

abbrev inner_codes : IrCodes
inner_codes = codes (load_const_code 5 number_type) (
    codes (save_local_code 2 number_type) (
      codes (load_local_code 1 number_type) (
        codes (load_local_code 2 number_type) (
          codes (binary_code number_type add_op)
            (codes (save_local_code 1 number_type) (codes (branch_code 1) no_codes))))))

-- The function does return, with both blocks in its code.
outer_block_codes :
    codes_of (build_function a_function outer_block (new_global_context no_module) new_data_pool)
    ≡ some (one (block_code 1 false void_type (one (block_code 2 false void_type inner_codes))))
unfolding build_function build_value build_values build_binary_expr build_var_value
    build_function_var build_save_var save_var_of save_function_var build_var_of build_local
    get_local_var_index find_var place_of push_local_vars pop_block_vars is_equal_operator
    new_binary_op binary_kind is_known ◌+++◌ value_type_of kind_value update_temp
outer_block_codes = refl

-- Addition of numbers, and names that are identities.
abbrev addition : Meaning ℕ
addition = record { constant = λ n. n; apply = λ k a b. a + b }

abbrev same_name : ℕ → ℕ
same_name i = i

abbrev assignments : Values
assignments = values (value number_type (binary_expr plus_equals (var_of 7) (literal_of 5))) (
    values
      (value number_type (
        binary_expr equals_token (var_of 7)
          (value number_type (binary_expr plus_token (var_of 7) (var_of 7)))))
      no_values)

abbrev start_env : ℕ → Option ℕ
start_env = updated (λ i. none) 7 1

abbrev end_env : ℕ → Option ℕ
end_env = updated (updated start_env 7 6) 7 12

a_local-IsPlain : IsPlain same_name (a_local 7)
a_local-IsPlain = record { is_local = refl; no_ref = refl; is_named = refl }

assignments-ExecutesAll : ExecutesAll addition same_name start_env assignments end_env
unfolding is_equal_operator binary_kind
assignments-ExecutesAll =
    and_then
      (assign_operated number_type number_type plus_equals add_op (a_local 7) (literal_of 5) 1 5
        refl refl a_local-IsPlain refl (of_literal number_type 5))
      (and_then
        (assign number_type number_type (a_local 7)
          (value number_type (binary_expr plus_token (var_of 7) (var_of 7))) 6 12 a_local-IsPlain
          refl
          (of_binary number_type plus_token add_op (var_of 7) (var_of 7) 6 6 refl refl
            (of_local number_type (a_local 7) 6 a_local-IsPlain refl)
            (of_local number_type (a_local 7) 6 a_local-IsPlain refl)))
        done)

a_function-named :
    (i : ℕ) (d : Decl) → get_elem? (a_local 7 ∷ a_local 7 ∷ []) i ≡ some d → d.decl_name ≡ d.decl_id
a_function-named zero d e =
    let p = some-injective (a_local 7) d e in
    ap (λ (x : Decl). x.decl_name) (sym p) ∙ ap (λ (x : Decl). x.decl_id) p
a_function-named (suc zero) d e = a_function-named zero d e
a_function-named (suc (suc i)) d e = absurd cc

a_function-IsScope : IsScope same_name (start_vars a_function)
unfolding IsStacked push_local_vars slots
a_function-IsScope = record {
  stacked = (refl, (refl, tt));
  named = a_function-named;
  injective = λ a b e. e;
}

start_env-Agrees : Agrees same_name (start_vars a_function) start_env (0 ∷ 1 ∷ [])
unfolding push_local_vars get_local_var_index find_var place_of
start_env-Agrees v d n e = go (Bool-cases (7 == v.decl_id))
  where
    go :
        ((7 == v.decl_id) ≡ true) ⊎ ((7 == v.decl_id) ≡ false)
        → (i : ℕ) × (get_local_var_index v (start_vars a_function) ≡ some i)
          × (get_elem? (0 ∷ 1 ∷ []) i ≡ some d)
    go (inl t) = (1, rw t refl, sym (updated_same (λ i. none) 7 1 v.decl_id t) ∙ e)
    go (inr t) = absurd (none-ne-some d (sym (updated_other (λ i. none) 7 1 v.decl_id t) ∙ e))

build_function-ExecutesAll_example :
    RunsTo addition same_name
      (start_vars a_function)
      (build_function a_function
        (flattened a_function void_type 1 assignments)
        (new_global_context no_module)
        new_data_pool)
      (9 ∷ [])
      (0 ∷ 1 ∷ [])
      end_env
build_function-ExecutesAll_example =
    build_function-ExecutesAll addition same_name a_function void_type 1 assignments
      (new_global_context no_module) new_data_pool start_env end_env (9 ∷ []) (0 ∷ 1 ∷ [])
      a_function-IsScope start_env-Agrees assignments-ExecutesAll

outer_block-CanBuild :
    CanBuild a_function (push_local_vars a_function.function_vars []) [] outer_block
unfolding CanBuild CanBuildAll CanSave CanSaveRef CanLoad is_found_at get_local_var_index find_var
    place_of push_local_vars is_known binary_kind
outer_block-CanBuild = (
  tt,
  (
    (
      tt,
      (
        (inl (refl, (refl, refl)), (refl, refl), tt),
        ((inr (inl ((add_op, refl), (refl, refl))), (refl, refl), (refl, refl)), (refl, tt)),
      ),
    ),
    tt,
  ),
)

build_function-CanBuild_example :
    BuildsInBounds a_function
      (build_function a_function outer_block (new_global_context no_module) new_data_pool)
build_function-CanBuild_example =
    build_function-CanBuild a_function outer_block (new_global_context no_module) new_data_pool
      outer_block-CanBuild outer_block-HasDirectBlocks
