-- ===== src/IrFunction/ValueSteps.antt =====
-- About `IRFunction.buildValue` (src/semantics/ir/function.ts): the step of each kind of value.
use wasmnizer_ts.IrFunction.Parts.{
  build_binary_expr, close_block, closure_inits, dup_top, element_get_code, element_set_code,
  in_block, open_block, save_left, set_member,
}
use wasmnizer_ts.IrFunction.{
  Build, Context, LocalVars, block_refs, emit, in_globals, inc_temp, next_start, pop_block_vars,
  push_local_vars, with_number, ◌>>◌,
}
use wasmnizer_ts.IrCode.Instructions.{new_closure_code}
use wasmnizer_ts.GlobalContext.{get_function_index, new_s}
use wasmnizer_ts.IrFunction.Tree.{
  BlockData, ElementKind, FunctionData, Value, array_index, binary_expr, block_branch,
  block_branch_if, block_value, closure_call, direct_call, direct_getter, direct_setter,
  dynamic_call, dynamic_get, dynamic_set, element_get, element_set, function_call, literal_value,
  new_array, new_array_len, new_closure_function, new_constructor_object, new_from_class_object,
  new_literal_array, new_literal_object, object_cast_object, object_index, object_key, offset_call,
  offset_get, offset_getter, offset_set, offset_setter, other_value, plain_cast, return_nothing,
  return_value, shape_call, shape_get, shape_set, string_index, super_value, this_value, type_of,
  value, var_value, vtable_call, vtable_get, vtable_set,
}
use wasmnizer_ts.IrFunction.Sound.{
  CodeFits, CodesFit, Ends, IndexFits, OperandFits, Sound, Sound->>,
}
use wasmnizer_ts.IrFunction.Locals.{IsStacked, pop_block_vars-push_local_vars}
use wasmnizer_ts.IrFunction.Steps.{
  Sound-branch_to_known, Sound-closure_inits, Sound-getter_code, Sound-load_function_ref,
  Sound-load_getter, Sound-load_super, Sound-save_left, Sound-set_member, Sound-shape_code,
  Sound-var_value, sound_steps,
}
use wasmnizer_ts.IrFunction.Builder.{build_inits, build_value, build_values}
use wasmnizer_ts.IrCode.{IrCodes, Operator, Ty, equals_token}
use wasmnizer_ts.Base.{List, Option, ap, none, some, ℕ, ◌∙◌, ◌≤◌}

ruleset sound_rules = (
  sound_steps, Sound-load_function_ref, Sound-shape_code, Sound-set_member, Sound-getter_code,
  Sound-load_getter, Sound-load_super, Sound-branch_to_known,
)

module _ (n : ℕ) (st : List LocalVars) where
  Ends-close_block :
      (b : BlockData) (t : Ty) (o : Option (IrCodes × Context))
      → Ends n (push_local_vars b.var_list st) o
      → Ends n st (close_block b t o)
  unfolding CodesFit CodeFits OperandFits
  Ends-close_block b t none h = tt
  Ends-close_block b t (some (cs, c)) (h, e) =
      ((h, tt), ap (pop_block_vars b.var_list) e ∙ pop_block_vars-push_local_vars b.var_list st)

  Sound-in_block :
      (b : BlockData) (t : Ty) (m : Build)
      → Sound n (push_local_vars b.var_list st) m
      → Sound n st (in_block b t m)
  Sound-in_block b t m s = record {
    ends = λ c e.
        Ends-close_block b t (m (open_block b c))
          (s.ends (open_block b c) (ap (push_local_vars b.var_list) e));
  }

  Sound-build_binary_expr :
      (f : FunctionData) (o : Operator) (t : Ty) (v : Value) (l r : Build)
      → Sound n st l
      → Sound n st r
      → Sound n st (save_left f v)
      → Sound n st (build_binary_expr f o t v l r)
  unfolding build_binary_expr
  Sound-build_binary_expr f equals_token t v l r a b s = search (sound_rules) depth 9
  Sound-build_binary_expr f o t v l r a b s = search (sound_rules) depth 9

element_get_code-CodeFits : (n : ℕ) (k : ElementKind) (t : Ty) → CodeFits n (element_get_code k t)
unfolding CodeFits OperandFits IndexFits element_get_code
element_get_code-CodeFits n string_index t = tt
element_get_code-CodeFits n array_index t = tt
element_get_code-CodeFits n object_index t = tt
element_get_code-CodeFits n object_key t = tt

element_set_code-CodeFits : (n : ℕ) (k : ElementKind) (t : Ty) → CodeFits n (element_set_code k t)
unfolding CodeFits OperandFits IndexFits element_set_code
element_set_code-CodeFits n string_index t = tt
element_set_code-CodeFits n array_index t = tt
element_set_code-CodeFits n object_index t = tt
element_set_code-CodeFits n object_key t = tt

-- What the step of a value takes from the steps of its parts.
module _ (f : FunctionData) (n : ℕ) (st : List LocalVars) where
  unfoldable pub PartsSound : Value → Type 0
  PartsSound (value t (binary_expr o v w)) =
      Sound n st (build_value f v) × Sound n st (build_value f w)
  PartsSound (value t (element_get k v w)) =
      Sound n st (build_value f v) × Sound n st (build_value f w)
  PartsSound (value t (direct_setter s g op v w)) =
      Sound n st (build_value f v) × Sound n st (build_value f w)
  PartsSound (value t (offset_set i op v w)) =
      Sound n st (build_value f v) × Sound n st (build_value f w)
  PartsSound (value t (offset_setter i g op v w)) =
      Sound n st (build_value f v) × Sound n st (build_value f w)
  PartsSound (value t (vtable_set i op v w)) =
      Sound n st (build_value f v) × Sound n st (build_value f w)
  PartsSound (value t (shape_set i op v w)) =
      Sound n st (build_value f v) × Sound n st (build_value f w)
  PartsSound (value t (dynamic_set s op v w)) =
      Sound n st (build_value f v) × Sound n st (build_value f w)
  PartsSound (value t (element_set k op u v w)) =
      Sound n st (build_value f u) × Sound n st (build_value f v) × Sound n st (build_value f w)
  PartsSound (value t (function_call v vs)) =
      Sound n st (build_value f v) × Sound n st (build_values f vs)
  PartsSound (value t (new_from_class_object v vs)) =
      Sound n st (build_value f v) × Sound n st (build_values f vs)
  PartsSound (value t (direct_call g p v vs)) =
      Sound n st (build_value f v) × Sound n st (build_values f vs)
  PartsSound (value t (offset_call i ft p v vs)) =
      Sound n st (build_value f v) × Sound n st (build_values f vs)
  PartsSound (value t (vtable_call i v vs)) =
      Sound n st (build_value f v) × Sound n st (build_values f vs)
  PartsSound (value t (shape_call i v vs)) =
      Sound n st (build_value f v) × Sound n st (build_values f vs)
  PartsSound (value t (dynamic_call s v vs)) =
      Sound n st (build_value f v) × Sound n st (build_values f vs)
  PartsSound (value t (new_array_len v)) = Sound n st (build_value f v)
  PartsSound (value t (plain_cast v)) = Sound n st (build_value f v)
  PartsSound (value t (object_cast_object s m v)) = Sound n st (build_value f v)
  PartsSound (value t (direct_getter g v)) = Sound n st (build_value f v)
  PartsSound (value t (offset_get i v)) = Sound n st (build_value f v)
  PartsSound (value t (offset_getter i v)) = Sound n st (build_value f v)
  PartsSound (value t (vtable_get i v)) = Sound n st (build_value f v)
  PartsSound (value t (shape_get i v)) = Sound n st (build_value f v)
  PartsSound (value t (dynamic_get s v)) = Sound n st (build_value f v)
  PartsSound (value t (return_value v)) = Sound n st (build_value f v)
  PartsSound (value t (new_constructor_object k o vs)) = Sound n st (build_values f vs)
  PartsSound (value t (new_literal_array vs)) = Sound n st (build_values f vs)
  PartsSound (value t (new_array vs)) = Sound n st (build_values f vs)
  PartsSound (value t (new_literal_object k o ms is)) = Sound n st (build_inits f ms is)
  PartsSound (value t (block_value b vs)) =
      Sound n (push_local_vars b.var_list st) (block_refs f b.ref_list >> build_values f vs)
  PartsSound (value t _) = Unit {0}

module _ (f : FunctionData) (n : ℕ) (st : List LocalVars) (h : IsStacked st)
    (room : next_start st ≤ n) where
  pub Sound-step : (v : Value) → PartsSound f n st v → Sound n st (build_value f v)
  unfolding PartsSound build_value CodeFits OperandFits IndexFits
  Sound-step (value t (binary_expr o v w)) (a, b) =
      Sound-build_binary_expr n st f o t v (build_value f v) (build_value f w) a b
        (Sound-save_left n st h room f v)
  Sound-step (value t (element_get k v w)) (a, b) =
      search (sound_rules, element_get_code-CodeFits) depth 16
  Sound-step (value t (direct_setter s g op v w)) (a, b) = search (sound_rules) depth 16
  Sound-step (value t (offset_set i op v w)) (a, b) = search (sound_rules) depth 16
  Sound-step (value t (offset_setter i g op v w)) (a, b) = search (sound_rules) depth 16
  Sound-step (value t (vtable_set i op v w)) (a, b) = search (sound_rules) depth 16
  Sound-step (value t (shape_set i op v w)) (a, b) = search (sound_rules) depth 16
  Sound-step (value t (dynamic_set s op v w)) (a, b) = search (sound_rules) depth 16
  Sound-step (value t (element_set k op u v w)) (a, b, c) =
      search (sound_rules, element_set_code-CodeFits) depth 16
  Sound-step (value t (function_call v vs)) (a, b) = search (sound_rules) depth 16
  Sound-step (value t (new_from_class_object v vs)) (a, b) = search (sound_rules) depth 16
  Sound-step (value t (direct_call g p v vs)) (a, b) = search (sound_rules) depth 16
  Sound-step (value t (offset_call i ft p v vs)) (a, b) = search (sound_rules) depth 16
  Sound-step (value t (vtable_call i v vs)) (a, b) = search (sound_rules) depth 16
  Sound-step (value t (shape_call i v vs)) (a, b) = search (sound_rules) depth 16
  Sound-step (value t (dynamic_call s v vs)) (a, b) = search (sound_rules) depth 16
  Sound-step (value t (new_array_len v)) a = search (sound_rules) depth 16
  Sound-step (value t (plain_cast v)) a = a
  Sound-step (value t (object_cast_object s m v)) a = search (sound_rules) depth 16
  Sound-step (value t (direct_getter g v)) a = search (sound_rules) depth 16
  Sound-step (value t (offset_get i v)) a = search (sound_rules) depth 16
  Sound-step (value t (offset_getter i v)) a = search (sound_rules) depth 16
  Sound-step (value t (vtable_get i v)) a = search (sound_rules) depth 16
  Sound-step (value t (shape_get i v)) a = search (sound_rules) depth 16
  Sound-step (value t (dynamic_get s v)) a = search (sound_rules) depth 16
  Sound-step (value t (return_value v)) a = search (sound_rules) depth 16
  Sound-step (value t (new_constructor_object k o vs)) a = search (sound_rules) depth 16
  Sound-step (value t (new_literal_array vs)) a = search (sound_rules) depth 16
  Sound-step (value t (new_array vs)) a = search (sound_rules) depth 16
  Sound-step (value t (new_literal_object k o ms is)) a = search (sound_rules) depth 16
  Sound-step (value t (block_branch k)) a = search (sound_rules)
  Sound-step (value t (block_branch_if k b v)) a = search (sound_rules)
  Sound-step (value t this_value) a = search (sound_rules)
  Sound-step (value t super_value) a = search (sound_rules)
  Sound-step (value t (literal_value n)) a = search (sound_rules)
  Sound-step (value t closure_call) a = search (sound_rules)
  Sound-step (value t return_nothing) a = search (sound_rules)
  Sound-step (value t other_value) a = search (sound_rules)
  Sound-step (value t (var_value v)) a = Sound-var_value n st h room f t v.var_kind v.var_ref
  Sound-step (value t (new_closure_function k vs)) a =
      Sound->> n st
        (with_number (in_globals (get_function_index k new_s)) (λ i. emit (new_closure_code i t))
          >> inc_temp 1)
        (closure_inits f vs) (search (sound_rules)) (Sound-closure_inits n st h room f vs)
  Sound-step (value t (block_value b vs)) a =
      Sound-in_block n st b t (block_refs f b.ref_list >> build_values f vs) a

pub Sound-init :
    (n : ℕ) (st : List LocalVars) (f : FunctionData) (ms : List ℕ) (v : Value)
    → Sound n st (build_value f v)
    → Sound n st (dup_top (type_of v) >> build_value f v >> set_member ms (type_of v))
unfolding CodeFits OperandFits IndexFits
Sound-init n st f ms v a = search (sound_rules)
