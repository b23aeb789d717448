-- ===== src/IrCode.antt =====
-- src/semantics/ir/ircode.ts: the instructions of the bytecode. An instruction has its kind, the
-- kind of its value, the type and an operand; `none` is a type that is `undefined`. A type is its
-- kind and a number standing for its identity, and carries the wide type where it has one. The
-- type arguments of calls are left out. A block is named by the number of the value it is made
-- for.
pub mod Instructions
pub mod Packing
pub mod Tests
use wasmnizer_ts.Base.{
  Bool, Option, if◌then◌else◌, ltb, none, some, ℕ, ◌%◌, ◌*◌, ◌+◌, ◌-◌, ◌/◌, ◌^◌,
}

-- `IRCodeKind`
pub data IrCodeKind : Type 0 where
  unknown_op load_const_op load_string_op load_param_op load_local_op load_global_op load_closure_op
        load_function_op load_class_op load_undefined_op load_null_op save_param_op save_local_op
        save_global_op save_closure_op drop_op dup_op swap_op new_ref_op read_ref_op write_ref_op
        add_op sub_op mult_op div_op mod_op assign_op assign_add_op assign_sub_op assign_mult_op
        assign_div_op assign_mod_op lt_op lte_op gt_op gte_op eq_op eq2_op neq_op neq2_op and_op
        or_op not_op inc_op dec_op is_null_op call_op method_call_op constructor_call_op
        get_offset_op set_offset_op get_vtable_op set_vtable_op vtable_call_op get_shape_op
        set_shape_op shape_call_op get_dynamic_op set_dynamic_op dynamic_call_op string_index_get_op
        string_index_set_op array_index_get_op array_index_set_op object_index_get_op
        object_index_set_op object_key_get_op object_key_set_op new_object_op new_dynamic_op
        new_closure_op new_array_params_op new_array_length_op init_closure_value_op instance_of_op
        instance_of_dynamic_op build_shape_op bind_shape_op unbound_shape_op get_key_iter_op
        get_value_iter_op next_iter_op return_op value_cast_op static_cast_op dyn_cast_op
        push_try_op pop_try_op throw_op finally_end_op await_op yield_op block_op branch_op
        branch_true_op branch_false_op import_function_op :
      IrCodeKind

-- `IRCodeValueType`
pub data IrCodeValueType : Type 0 where
  void_value native_value null_value undefined_value int_value int8_value uint8_value int16_value
        uint16_value int32_value uint32_value int64_value uint64_value f32_value f64_value
        boolean_value raw_string_value string_value any_value reference_value object_value
        interface_value enum_value generic_value :
      IrCodeValueType

-- `ValueTypeKind` but for unions and type parameters.
pub data TypeKind : Type 0 where
  void_kind undefined_kind null_kind never_kind int_kind number_kind boolean_kind raw_string_kind
        string_kind any_kind generic_kind array_kind set_kind map_kind object_kind interface_kind
        function_kind intersection_kind namespace_kind closure_context_kind empty_kind enum_kind
        tuple_kind wasm_i64_kind wasm_f32_kind wasm_array_kind wasm_struct_kind :
      TypeKind

pub data Ty : Type 0 where
  of_kind : TypeKind → ℕ → Ty
  wide_union wide_parameter : Ty → Ty

unfoldable pub kind_value : TypeKind → IrCodeValueType
kind_value void_kind = undefined_value
kind_value undefined_kind = undefined_value
kind_value null_kind = null_value
kind_value never_kind = null_value
kind_value int_kind = int_value
kind_value number_kind = f64_value
kind_value boolean_kind = boolean_value
kind_value raw_string_kind = raw_string_value
kind_value string_kind = string_value
kind_value any_kind = any_value
kind_value generic_kind = generic_value
kind_value array_kind = object_value
kind_value set_kind = object_value
kind_value map_kind = object_value
kind_value object_kind = object_value
kind_value interface_kind = interface_value
kind_value function_kind = object_value
kind_value intersection_kind = object_value
kind_value namespace_kind = object_value
kind_value closure_context_kind = object_value
kind_value empty_kind = object_value
kind_value enum_kind = enum_value
kind_value tuple_kind = object_value
kind_value wasm_i64_kind = object_value
kind_value wasm_f32_kind = object_value
kind_value wasm_array_kind = object_value
kind_value wasm_struct_kind = object_value

-- `GetIRCodeValueTypeFromType`
unfoldable pub value_type_of : Ty → IrCodeValueType
value_type_of (of_kind k i) = kind_value k
value_type_of (wide_union w) = value_type_of w
value_type_of (wide_parameter w) = value_type_of w

mutual
  pub data IrCode : Type 0 where
    code : IrCodeKind → IrCodeValueType → Option Ty → Operand → IrCode

  pub data Operand : Type 0 where
    no_operand : Operand
    number : ℕ → Operand
    minus : ℕ → Operand
    literal : ℕ → Operand
    target : ℕ → Operand
    ir_block : ℕ → Bool → IrCodes → Operand

  pub data IrCodes : Type 0 where
    no_codes : IrCodes
    codes : IrCode → IrCodes → IrCodes

infixr 5 ◌+++◌
unfoldable pub ◌+++◌ : IrCodes → IrCodes → IrCodes
no_codes +++ ds = ds
(codes c cs) +++ ds = codes c (cs +++ ds)

abbrev pub one : IrCode → IrCodes
one c = codes c no_codes

-- An instruction whose value is of the type.
abbrev pub typed : IrCodeKind → Ty → Operand → IrCode
typed k t o = code k (value_type_of t) (some t) o

abbrev pub undefined_type : Ty
undefined_type = of_kind undefined_kind 0

abbrev pub any_type : Ty
any_type = of_kind any_kind 0

-- `TypeScript` operators: `=`, the other assignments, and the rest that `NewBinaryOp` knows.
pub data Operator : Type 0 where
  equals_token : Operator
  plus_equals minus_equals asterisk_equals slash_equals percent_equals : Operator
  asterisk_asterisk_equals ampersand_equals ampersand_ampersand_equals : Operator
  bar_equals bar_bar_equals caret_equals : Operator
  plus_token minus_token asterisk_token slash_token percent_token : Operator
  less_than less_than_equals greater_than greater_than_equals : Operator
  equals_equals equals_equals_equals exclamation_equals exclamation_equals_equals : Operator
  ampersand_ampersand bar_bar : Operator
  other_operator : ℕ → Operator

-- The `switch` of `NewBinaryOp`; `none` is its exception.
unfoldable pub binary_kind : Operator → Option IrCodeKind
binary_kind plus_equals = some add_op
binary_kind plus_token = some add_op
binary_kind minus_equals = some sub_op
binary_kind minus_token = some sub_op
binary_kind asterisk_equals = some mult_op
binary_kind asterisk_token = some mult_op
binary_kind slash_equals = some div_op
binary_kind slash_token = some div_op
binary_kind percent_equals = some mod_op
binary_kind percent_token = some mod_op
binary_kind less_than = some lt_op
binary_kind less_than_equals = some lte_op
binary_kind greater_than = some gt_op
binary_kind greater_than_equals = some gte_op
binary_kind equals_equals = some eq_op
binary_kind equals_equals_equals = some eq2_op
binary_kind exclamation_equals = some neq_op
binary_kind exclamation_equals_equals = some neq2_op
binary_kind ampersand_ampersand = some and_op
binary_kind bar_bar = some or_op
binary_kind equals_token = none
binary_kind asterisk_asterisk_equals = none
binary_kind ampersand_equals = none
binary_kind ampersand_ampersand_equals = none
binary_kind bar_equals = none
binary_kind bar_bar_equals = none
binary_kind caret_equals = none
binary_kind (other_operator n) = none

abbrev pub binary_code : Ty → IrCodeKind → IrCode
binary_code t k = typed k t no_operand

-- `IRCode.NewBinaryOp`
unfoldable pub new_binary_op : Operator → Ty → Option IrCode
new_binary_op o t = elim (binary_kind o) [ none ↦ none | some k ↦ some (binary_code t k) ]

-- `((index & 0xffffff) << 8) | (param_count & 0xff)`
unfoldable pub pack_call : ℕ → ℕ → ℕ
pack_call i n = i % 2 ^ 24 * 2 ^ 8 + n % 2 ^ 8

-- `(this.oph as number) & 0xff`
unfoldable pub param_count : ℕ → ℕ
param_count w = w % 2 ^ 8

-- `(this.oph as number) >> 8`: the word is a signed one, so the bits are those of the quotient
-- for an index below 2 ^ 23.
unfoldable pub call_index : ℕ → ℕ
call_index w = if ltb w (2 ^ 31) then w / 2 ^ 8 else w / 2 ^ 8 + (2 ^ 32 - 2 ^ 24)

-- `((moduleIndex & 0xffff) << 16) | (funcIndex & 0xffff)`
unfoldable pub pack_import : ℕ → ℕ → ℕ
pack_import m f = m % 2 ^ 16 * 2 ^ 16 + f % 2 ^ 16
