-- ===== src/IrFunction/Builder.antt =====
-- `IRFunction.buildValue` and `build` of src/semantics/ir/function.ts.
use wasmnizer_ts.IrFunction.{
  Build, Context, block_refs, build_var_value, calc_local_var_count, count_vars, dec_temp,
  dec_temp_but_one, emit, in_globals, in_pool, inc_temp, nothing, push_local_vars, with_number,
  ◌>>◌,
}
use wasmnizer_ts.DataPool.{DataPool}
use wasmnizer_ts.IrFunction.Tree.{
  FunctionData, Inits, Value, Values, an_init, binary_expr, block_branch, block_branch_if,
  block_value, closure_call, count_inits, count_values, direct_call, direct_getter, direct_setter,
  dynamic_call, dynamic_get, dynamic_set, element_get, element_set, function_call, literal_value,
  missing, new_array, new_array_len, new_closure_function, new_constructor_object,
  new_from_class_object, new_literal_array, new_literal_object, no_inits, no_values,
  object_cast_object, offset_call, offset_get, offset_getter, offset_set, offset_setter,
  other_value, plain_cast, return_nothing, return_value, shape_call, shape_get, shape_set,
  super_value, this_value, type_of, value, values, var_value, vtable_call, vtable_get, vtable_set,
}
use wasmnizer_ts.IrCode.{IrCodes, any_type, of_kind, void_kind}
use wasmnizer_ts.IrCode.Instructions.{
  branch_code, branch_if_code, call_code, constructor_call_code, dynamic_call_code,
  get_dynamic_code, get_offset_code, get_shape_code, get_vtable_code, load_const_code,
  load_this_code, method_call_code, new_array_length_code, new_array_params_code, new_closure_code,
  new_dynamic_code, new_object_code, return_code, set_dynamic_code, set_offset_code, set_shape_code,
  set_vtable_code, shape_call_code, swap_code, vtable_call_code,
}
use wasmnizer_ts.GlobalContext.{GlobalContext, get_class_index, get_function_index, new_s}
use wasmnizer_ts.Base.{List, Option, [], drop, none, some, ℕ, ◌+◌}
use wasmnizer_ts.IrFunction.Parts.{
  branch_to_known, build_binary_expr, build_method_call, closure_inits, compound, dup_second,
  dup_top, element_get_code, element_set_code, emit_binary, getter_code, in_block,
  load_function_ref, load_getter, load_super, set_member, shape_code, this_type,
}

unfoldable mutual
  pub build_value : FunctionData → Value → Build
  build_value f (value t (block_value b vs)) =
      in_block b t (block_refs f b.ref_list >> build_values f vs)
  build_value f (value t (block_branch k)) = branch_to_known k (emit (branch_code k))
  build_value f (value t (block_branch_if k on_true condition)) =
      branch_to_known k (dec_temp 1 >> emit (branch_if_code k on_true))
  build_value f (value t this_value) = emit (load_this_code (this_type f.this_class)) >> inc_temp 1
  build_value f (value t super_value) = load_super f.this_class >> inc_temp 1
  build_value f (value t (literal_value n)) = emit (load_const_code n t) >> inc_temp 1
  build_value f (value t (var_value v)) = build_var_value f t v.var_kind v.var_ref
  build_value f (value t (binary_expr o l r)) =
      build_binary_expr f o t l (build_value f l) (build_value f r)
  build_value f (value t (function_call g ps)) =
      build_value f g
      >> inc_temp 1
      >> build_values f ps
      >> emit (call_code t (count_values ps))
      >> dec_temp (count_values ps)
  build_value f (value t closure_call) = nothing
  build_value f (value t (element_get k owner i)) =
      build_value f i >> build_value f owner >> emit (element_get_code k t) >> dec_temp 1
  build_value f (value t (element_set k op owner i v)) =
      let new = build_value f v in
      build_value f owner
      >> build_value f i
      >> compound op
          (λ o.
            dup_second (type_of owner)
            >> dup_second (type_of i)
            >> inc_temp 2
            >> new
            >> emit_binary o t)
          new
      >> emit (element_set_code k t)
      >> dec_temp 2
  build_value f (value t (new_constructor_object k o ps)) =
      with_number (in_globals (get_class_index k new_s)) (λ i. emit (new_object_code i o))
      >> inc_temp 1
      >> build_values f ps
      >> emit (constructor_call_code t (count_values ps))
      >> dec_temp (count_values ps)
  build_value f (value t (new_literal_object k o ms is)) =
      with_number (in_globals (get_class_index k new_s)) (λ i. emit (new_object_code i o))
      >> inc_temp 1
      >> build_inits f ms is
      >> dec_temp (count_inits is)
  build_value f (value t (new_from_class_object c ps)) =
      build_value f c
      >> emit (new_dynamic_code t)
      >> build_values f ps
      >> emit (constructor_call_code t (count_values ps))
      >> dec_temp (count_values ps)
  build_value f (value t (new_literal_array vs)) =
      build_values f vs
      >> emit (new_array_params_code (count_values vs) t)
      >> dec_temp_but_one (count_values vs)
  build_value f (value t (new_array vs)) =
      build_values f vs
      >> emit (new_array_params_code (count_values vs) t)
      >> dec_temp_but_one (count_values vs)
  build_value f (value t (new_array_len n)) =
      build_value f n >> emit (new_array_length_code t) >> inc_temp 1
  build_value f (value t (new_closure_function k vs)) =
      with_number (in_globals (get_function_index k new_s)) (λ i. emit (new_closure_code i t))
      >> inc_temp 1
      >> closure_inits f vs
  build_value f (value t (plain_cast v)) = build_value f v
  build_value f (value t (object_cast_object shape meta v)) =
      build_value f v >> shape_code shape meta t >> inc_temp 1
  build_value f (value t (direct_getter g owner)) =
      load_function_ref g (λ _. t)
      >> inc_temp 1
      >> build_value f owner
      >> emit (method_call_code t 0)
      >> dec_temp 1
  build_value f (value t (direct_setter s g op owner v)) =
      let new = build_value f v in
      load_function_ref s (λ _. t)
      >> inc_temp 1
      >> build_value f owner
      >> compound op
          (λ o.
            load_getter g t
            >> dup_second (type_of owner)
            >> emit (method_call_code t 0)
            >> inc_temp 1
            >> new
            >> emit_binary o t)
          new
      >> emit (method_call_code (of_kind void_kind 0) 0)
      >> dec_temp 3
  build_value f (value t (direct_call g r owner ps)) =
      load_function_ref g (λ return_type. return_type)
      >> inc_temp 1
      >> build_value f owner
      >> build_method_call r (count_values ps) (build_values f ps)
  build_value f (value t (offset_get i owner)) = build_value f owner >> emit (get_offset_code i t)
  build_value f (value t (offset_getter i owner)) =
      build_value f owner
      >> dup_top (type_of owner)
      >> inc_temp 1
      >> emit (get_offset_code i t)
      >> emit swap_code
      >> emit (method_call_code t 0)
      >> dec_temp 1
  build_value f (value t (offset_set i op owner v)) =
      let new = build_value f v in
      build_value f owner
      >> compound op
          (λ o.
            dup_top (type_of owner)
            >> emit (get_offset_code i t)
            >> inc_temp 1
            >> new
            >> emit_binary o t)
          new
      >> emit (set_offset_code i t)
      >> dec_temp 2
  build_value f (value t (offset_setter i g op owner v)) =
      let new = build_value f v in
      build_value f owner
      >> dup_top (type_of owner)
      >> inc_temp 1
      >> emit (get_offset_code i t)
      >> emit swap_code
      >> inc_temp 2
      >> compound op
          (λ o.
            dup_top (type_of owner)
            >> getter_code g t
            >> dup_second (type_of owner)
            >> emit (method_call_code t 0)
            >> inc_temp 1
            >> new
            >> emit_binary o t)
          new
      >> emit (method_call_code t 1)
      >> dec_temp 3
  build_value f (value t (offset_call i ft r owner ps)) =
      build_value f owner
      >> dup_top (type_of owner)
      >> inc_temp 1
      >> emit (get_offset_code i ft)
      >> emit swap_code
      >> build_method_call r (count_values ps) (build_values f ps)
  build_value f (value t (vtable_get i owner)) = build_value f owner >> emit (get_vtable_code i t)
  build_value f (value t (shape_get i owner)) = build_value f owner >> emit (get_shape_code i t)
  build_value f (value t (vtable_set i op owner v)) =
      let new = build_value f v in
      build_value f owner
      >> compound op
          (λ o.
            dup_top (type_of owner)
            >> emit (get_vtable_code i t)
            >> inc_temp 1
            >> new
            >> emit_binary o t)
          new
      >> emit (set_vtable_code i t)
      >> dec_temp 1
  build_value f (value t (shape_set i op owner v)) =
      let new = build_value f v in
      build_value f owner
      >> compound op
          (λ o.
            dup_top (type_of owner)
            >> emit (get_shape_code i t)
            >> inc_temp 1
            >> new
            >> emit_binary o t)
          new
      >> emit (set_shape_code i t)
      >> dec_temp 1
  build_value f (value t (vtable_call i owner ps)) =
      build_value f owner
      >> build_values f ps
      >> emit (vtable_call_code i (count_values ps) t)
      >> dec_temp (count_values ps)
  build_value f (value t (shape_call i owner ps)) =
      build_value f owner
      >> build_values f ps
      >> emit (shape_call_code i (count_values ps) t)
      >> dec_temp (count_values ps)
  build_value f (value t (dynamic_get s owner)) =
      build_value f owner >> with_number (in_pool s) (λ i. emit (get_dynamic_code i))
  build_value f (value t (dynamic_set s op owner v)) =
      let new = build_value f v in
      build_value f owner
      >> with_number (in_pool s) (λ i.
        compound op
          (λ o.
            dup_top (type_of owner)
            >> emit (get_dynamic_code i)
            >> inc_temp 1
            >> new
            >> emit_binary o any_type)
          new
        >> emit (set_dynamic_code i))
  build_value f (value t (dynamic_call s owner ps)) =
      let params = build_values f ps in
      build_value f owner
      >> with_number (in_pool s) (λ i. params >> emit (dynamic_call_code i (count_values ps)))
      >> dec_temp (count_values ps)
  build_value f (value t (return_value v)) =
      build_value f v >> emit (return_code (some (type_of v)))
  build_value f (value t return_nothing) = emit (return_code none)
  build_value f (value t other_value) = nothing

  pub build_values : FunctionData → Values → Build
  build_values f no_values = nothing
  build_values f (values v vs) = build_value f v >> build_values f vs

  pub build_inits : FunctionData → List ℕ → Inits → Build
  build_inits f ms no_inits = nothing
  build_inits f ms (missing is) = build_inits f (drop 1 ms) is
  build_inits f ms (an_init v is) =
      dup_top (type_of v)
      >> build_value f v
      >> set_member ms (type_of v)
      >> build_inits f (drop 1 ms) is

-- What `IRFunction.build` leaves of a function with a flattened value.
pub record IrFunction : Type 0 where
  pub ir_codes : IrCodes
  pub ir_param_count : ℕ
  pub ir_var_count : ℕ
  pub ir_temp_count : ℕ
  pub ir_closure_count : ℕ

-- `new Context(global, func, this)`
abbrev pub new_context : FunctionData → GlobalContext → DataPool → Context
new_context f g p = record {
  max_temp = 0;
  temp_added = 0;
  temp_removed = 0;
  known_blocks = [];
  local_vars_stack = push_local_vars f.function_vars [];
  globals = g;
  pool = p;
}

-- `Context.varCount`
unfoldable pub var_count : FunctionData → Value → ℕ
var_count f v = count_vars f.function_vars + calc_local_var_count v

abbrev pub ir_function : FunctionData → Value → IrCodes → Context → IrFunction
ir_function f v cs c = record {
  ir_codes = cs;
  ir_param_count = count_vars f.parameters;
  ir_var_count = var_count f v;
  ir_temp_count = c.max_temp;
  ir_closure_count = count_vars f.closure_vars;
}

-- `IRFunction.build` with a flattened value.
unfoldable pub build_function :
    FunctionData → Value → GlobalContext → DataPool → Option (IrFunction × Context)
build_function f v g p = elim (build_value f v (new_context f g p)) [
  | none ↦ none
  | some (cs, c) ↦ some (ir_function f v cs c, c)
]
