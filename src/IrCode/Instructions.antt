-- ===== src/IrCode/Instructions.antt =====
-- The static methods of `IRCode` (src/semantics/ir/ircode.ts), one function each, by the kind of
-- the instruction.
use wasmnizer_ts.IrCode.{
  IrCode, IrCodes, Operand, Ty, any_type, any_value, array_index_get_op, array_index_set_op,
  bind_shape_op, block_op, branch_false_op, branch_op, branch_true_op, build_shape_op, call_op,
  code, constructor_call_op, dup_op, dynamic_call_op, get_dynamic_op, get_offset_op, get_shape_op,
  get_vtable_op, import_function_op, init_closure_value_op, ir_block, literal, load_class_op,
  load_closure_op, load_const_op, load_function_op, load_global_op, load_local_op, load_param_op,
  method_call_op, new_array_length_op, new_array_params_op, new_closure_op, new_dynamic_op,
  new_object_op, new_ref_op, no_operand, number, object_index_get_op, object_index_set_op,
  object_key_get_op, object_key_set_op, object_value, of_kind, pack_call, pack_import, read_ref_op,
  reference_value, return_op, save_closure_op, save_global_op, save_local_op, save_param_op,
  set_dynamic_op, set_offset_op, set_shape_op, set_vtable_op, shape_call_op, string_index_get_op,
  string_index_set_op, string_kind, string_value, swap_op, target, typed, undefined_type,
  undefined_value, void_kind, vtable_call_op, write_ref_op,
}
use wasmnizer_ts.Base.{Bool, Option, if◌then◌else◌, none, some, ℕ}

abbrev pub load_const_code : ℕ → Ty → IrCode
load_const_code v t = typed load_const_op t (literal v)

abbrev pub load_this_code : Option Ty → IrCode
load_this_code t = code load_param_op object_value t (number 0)

abbrev pub load_local_code : ℕ → Ty → IrCode
load_local_code i t = typed load_local_op t (number i)

abbrev pub load_global_code : ℕ → Ty → IrCode
load_global_code i t = typed load_global_op t (number i)

abbrev pub load_function_code : ℕ → Ty → IrCode
load_function_code i t = typed load_function_op t (number i)

abbrev pub load_param_code : ℕ → Ty → IrCode
load_param_code i t = typed load_param_op t (number i)

abbrev pub load_closure_code : ℕ → Ty → IrCode
load_closure_code i t = typed load_closure_op t (number i)

abbrev pub save_param_code : ℕ → Ty → IrCode
save_param_code i t = typed save_param_op t (number i)

abbrev pub save_local_code : ℕ → Ty → IrCode
save_local_code i t = typed save_local_op t (number i)

abbrev pub save_global_code : ℕ → Ty → IrCode
save_global_code i t = typed save_global_op t (number i)

abbrev pub save_closure_code : ℕ → Ty → IrCode
save_closure_code i t = typed save_closure_op t (number i)

abbrev pub load_class_code : ℕ → Ty → IrCode
load_class_code i t = code load_class_op object_value (some t) (number i)

abbrev pub new_ref_code : Ty → IrCode
new_ref_code t = code new_ref_op reference_value (some t) no_operand

abbrev pub read_ref_code : Ty → IrCode
read_ref_code t = typed read_ref_op t no_operand

abbrev pub write_ref_code : Ty → IrCode
write_ref_code t = typed write_ref_op t no_operand

abbrev pub call_code : Ty → ℕ → IrCode
call_code t n = typed call_op t (number n)

abbrev pub method_call_code : Ty → ℕ → IrCode
method_call_code t n = typed method_call_op t (number n)

abbrev pub constructor_call_code : Ty → ℕ → IrCode
constructor_call_code t n = code constructor_call_op undefined_value (some t) (number n)

abbrev pub dup_code : Operand → Ty → IrCode
dup_code o t = typed dup_op t o

abbrev pub swap_code : IrCode
swap_code = code swap_op any_value (some (of_kind void_kind 0)) no_operand

abbrev pub new_object_code : ℕ → Ty → IrCode
new_object_code i t = code new_object_op object_value (some t) (number i)

abbrev pub new_dynamic_code : Ty → IrCode
new_dynamic_code t = code new_dynamic_op object_value (some t) no_operand

abbrev pub new_array_length_code : Ty → IrCode
new_array_length_code t = code new_array_length_op object_value (some t) no_operand

abbrev pub new_array_params_code : ℕ → Ty → IrCode
new_array_params_code n t = code new_array_params_op object_value (some t) (number n)

abbrev pub new_closure_code : ℕ → Ty → IrCode
new_closure_code i t = code new_closure_op object_value (some t) (number i)

abbrev pub init_closure_value_code : ℕ → Ty → IrCode
init_closure_value_code i t = typed init_closure_value_op t (number i)

abbrev pub string_index_get_code : IrCode
string_index_get_code =
    code string_index_get_op string_value (some (of_kind string_kind 0)) no_operand

abbrev pub string_index_set_code : IrCode
string_index_set_code =
    code string_index_set_op string_value (some (of_kind string_kind 0)) no_operand

abbrev pub array_index_get_code : Ty → IrCode
array_index_get_code t = typed array_index_get_op t no_operand

abbrev pub array_index_set_code : Ty → IrCode
array_index_set_code t = typed array_index_set_op t no_operand

abbrev pub object_index_get_code : Ty → IrCode
object_index_get_code t = typed object_index_get_op t no_operand

abbrev pub object_index_set_code : Ty → IrCode
object_index_set_code t = typed object_index_set_op t no_operand

abbrev pub object_key_get_code : Ty → IrCode
object_key_get_code t = typed object_key_get_op t no_operand

abbrev pub object_key_set_code : Ty → IrCode
object_key_set_code t = typed object_key_set_op t no_operand

abbrev pub get_offset_code : ℕ → Ty → IrCode
get_offset_code i t = typed get_offset_op t (number i)

abbrev pub set_offset_code : ℕ → Ty → IrCode
set_offset_code i t = typed set_offset_op t (number i)

abbrev pub get_vtable_code : ℕ → Ty → IrCode
get_vtable_code i t = typed get_vtable_op t (number i)

abbrev pub set_vtable_code : ℕ → Ty → IrCode
set_vtable_code i t = typed set_vtable_op t (number i)

abbrev pub get_shape_code : ℕ → Ty → IrCode
get_shape_code i t = typed get_shape_op t (number i)

abbrev pub set_shape_code : ℕ → Ty → IrCode
set_shape_code i t = typed set_shape_op t (number i)

abbrev pub vtable_call_code : ℕ → ℕ → Ty → IrCode
vtable_call_code i n t = typed vtable_call_op t (number (pack_call i n))

abbrev pub shape_call_code : ℕ → ℕ → Ty → IrCode
shape_call_code i n t = typed shape_call_op t (number (pack_call i n))

abbrev pub get_dynamic_code : ℕ → IrCode
get_dynamic_code i = code get_dynamic_op any_value (some any_type) (number i)

abbrev pub set_dynamic_code : ℕ → IrCode
set_dynamic_code i = code set_dynamic_op any_value (some any_type) (number i)

abbrev pub dynamic_call_code : ℕ → ℕ → IrCode
dynamic_call_code i n = code dynamic_call_op any_value (some any_type) (number (pack_call i n))

abbrev pub bind_shape_code : ℕ → Ty → IrCode
bind_shape_code i t = typed bind_shape_op t (number i)

abbrev pub build_shape_code : ℕ → Ty → IrCode
build_shape_code i t = typed build_shape_op t (number i)

abbrev pub block_code : ℕ → Bool → Ty → IrCodes → IrCode
block_code id loop t cs = typed block_op t (ir_block id loop cs)

abbrev pub branch_code : ℕ → IrCode
branch_code id = code branch_op undefined_value (some undefined_type) (target id)

-- `IRCode.NewBranchIf`
abbrev pub branch_if_code : ℕ → Bool → IrCode
branch_if_code id b =
    code (if b then branch_true_op else branch_false_op) undefined_value (some undefined_type)
      (target id)

-- `IRCode.NewReturn`
abbrev pub return_code : Option Ty → IrCode
return_code none = code return_op undefined_value (some undefined_type) no_operand
return_code (some t) = typed return_op t no_operand

abbrev pub import_function_code : ℕ → ℕ → IrCode
import_function_code m f =
    code import_function_op undefined_value (some undefined_type) (number (pack_import m f))
