-- ===== src/IrFunction/Parts.antt =====
-- The parts of `IRFunction.buildValue` that do not recurse, and `buildBinaryExprValue` and
-- `buildMethodCall` from the steps of their values.
use wasmnizer_ts.IrFunction.{
  Build, Context, build_save_var, build_var, dec_temp, emit, emit_known, in_globals, nothing,
  pop_block_vars, push_local_vars, throw, with_number, ◌>>◌,
}
use wasmnizer_ts.IrFunction.Tree.{
  BlockData, Decl, ElementKind, FunctionData, Value, VarRef, array_index, decl_ref, function_ref,
  object_index, object_key, object_ref, other_ref, string_index, value, var_value,
}
use wasmnizer_ts.IrCode.{
  IrCode, IrCodes, Operator, Ty, ampersand_ampersand_equals, ampersand_equals,
  asterisk_asterisk_equals, asterisk_equals, bar_bar_equals, bar_equals, caret_equals, equals_token,
  minus, minus_equals, new_binary_op, number, one, percent_equals, plus_equals, slash_equals,
}
use wasmnizer_ts.IrCode.Instructions.{
  array_index_get_code, array_index_set_code, bind_shape_code, block_code, build_shape_code,
  dup_code, get_offset_code, init_closure_value_code, load_function_code, load_this_code,
  method_call_code, object_index_get_code, object_index_set_code, object_key_get_code,
  object_key_set_code, set_offset_code, string_index_get_code, string_index_set_code,
}
use wasmnizer_ts.GlobalContext.{call_s, get_function_index, get_meta_index, get_shape_index}
use wasmnizer_ts.Base.{
  Bool, List, Option, [], false, if◌then◌else◌, none, some, suc, true, zero, ℕ, ◌+◌, ◌==◌, ◌||◌,
  ◌∷◌,
}

abbrev pub dup_top : Ty → Build
dup_top t = emit (dup_code (number 0) t)

abbrev pub dup_second : Ty → Build
dup_second t = emit (dup_code (minus 1) t)

abbrev pub emit_binary : Operator → Ty → Build
emit_binary o t = emit_known (new_binary_op o t)

-- `opKind && opKind != ts.SyntaxKind.EqualsToken`
unfoldable pub is_compound : Option Operator → Option Operator
is_compound none = none
is_compound (some equals_token) = none
is_compound (some o) = some o

-- `isEqualOperator`
unfoldable pub is_equal_operator : Operator → Bool
is_equal_operator equals_token = true
is_equal_operator plus_equals = true
is_equal_operator minus_equals = true
is_equal_operator asterisk_equals = true
is_equal_operator asterisk_asterisk_equals = true
is_equal_operator slash_equals = true
is_equal_operator percent_equals = true
is_equal_operator ampersand_equals = true
is_equal_operator ampersand_ampersand_equals = true
is_equal_operator bar_equals = true
is_equal_operator bar_bar_equals = true
is_equal_operator caret_equals = true
is_equal_operator _ = false

-- What a value is loaded with before an operator: with `=`, only the value.
abbrev pub compound : Option Operator → (Operator → Build) → Build → Build
compound op k plain = elim (is_compound op) [ none ↦ plain | some o ↦ k o ]

unfoldable pub element_get_code : ElementKind → Ty → IrCode
element_get_code string_index t = string_index_get_code
element_get_code array_index t = array_index_get_code t
element_get_code object_index t = object_index_get_code t
element_get_code object_key t = object_key_get_code t

unfoldable pub element_set_code : ElementKind → Ty → IrCode
element_set_code string_index t = string_index_set_code
element_set_code array_index t = array_index_set_code t
element_set_code object_index t = object_index_set_code t
element_set_code object_key t = object_key_set_code t

abbrev pub call_index_of : ℕ → (ℕ → Build) → Build
call_index_of k next = with_number (in_globals (get_function_index k call_s)) next

-- The call of a function that is referred to; another reference throws.
abbrev pub load_function_ref : VarRef → (Ty → Ty) → Build
load_function_ref (function_ref k r) t = call_index_of k (λ i. emit (load_function_code i (t r)))
load_function_ref (object_ref b k o) t = throw
load_function_ref (decl_ref v) t = throw
load_function_ref other_ref t = throw

-- `LoadThis` of the class, and of its super type.
abbrev pub this_type : Option (Ty × Option Ty) → Option Ty
this_type none = none
this_type (some (t, s)) = some t

abbrev pub load_super : Option (Ty × Option Ty) → Build
load_super none = throw
load_super (some (t, s)) = emit (load_this_code s)

-- The variables that a closure captures, from the place on.
unfoldable pub init_closure : FunctionData → ℕ → List (Option (Decl × Ty)) → Build
init_closure f i [] = nothing
init_closure f i (none ∷ vs) = throw
init_closure f i (some (v, t) ∷ vs) =
    build_var f v true >> emit (init_closure_value_code i t) >> init_closure f (i + 1) vs

abbrev pub closure_inits : FunctionData → Option (List (Option (Decl × Ty))) → Build
closure_inits f none = nothing
closure_inits f (some vs) = init_closure f 0 vs

-- `getIRBlock`; `none` is the missing block.
unfoldable pub is_known : ℕ → List ℕ → Bool
is_known k [] = false
is_known k (j ∷ js) = (j == k) || is_known k js

abbrev pub branch_to_known : ℕ → Build → Build
branch_to_known k m c = (if is_known k c.known_blocks then m else throw) c

abbrev pub open_block : BlockData → Context → Context
open_block b c = record c {
  known_blocks = b.id ∷ c.known_blocks;
  local_vars_stack = push_local_vars b.var_list c.local_vars_stack;
}

abbrev pub close_block : BlockData → Ty → Option (IrCodes × Context) → Option (IrCodes × Context)
close_block b t none = none
close_block b t (some (cs, c)) = some (
  one (block_code b.id b.is_loop t cs),
  record c { local_vars_stack = pop_block_vars b.var_list c.local_vars_stack },
)

-- The instructions of a block, in the block.
abbrev pub in_block : BlockData → Ty → Build → Build
in_block b t m c = close_block b t (m (open_block b c))

abbrev pub shape_code : Option (ℕ × ℕ) → ℕ → Ty → Build
shape_code none meta t =
    with_number (in_globals (get_meta_index meta)) (λ i. emit (build_shape_code i t))
shape_code (some (shape, generic)) meta t =
    with_number (in_globals (get_shape_index shape generic)) (λ i. emit (bind_shape_code i t))

-- `meta.members[i].index`
abbrev pub set_member : List ℕ → Ty → Build
set_member [] t = throw
set_member (m ∷ ms) t = emit (set_offset_code m t)

-- A getter whose index is missing, or 0, throws.
abbrev pub getter_code : Option ℕ → Ty → Build
getter_code none t = throw
getter_code (some zero) t = throw
getter_code (some (suc i)) t = emit (get_offset_code (suc i) t)

abbrev pub load_getter : Option VarRef → Ty → Build
load_getter none t = throw
load_getter (some r) t = load_function_ref r (λ _. t)

-- An assignment: the variable on the left is given what the step leaves.
abbrev pub save_left : FunctionData → Value → Build
save_left f (value t (var_value v)) = build_save_var f t v.var_kind v.var_ref
save_left f (value t _) = throw

abbrev pub is_var : Value → Bool
is_var (value t (var_value v)) = true
is_var (value t _) = false

-- `buildBinaryExprValue`, from the steps of the left and the right side.
unfoldable pub build_binary_expr : FunctionData → Operator → Ty → Value → Build → Build → Build
build_binary_expr f equals_token t left l r = r >> save_left f left
build_binary_expr f o t left l r =
    if is_equal_operator o
    then (if is_var left
        then l >> r >> emit_binary o t >> dec_temp 1 >> save_left f left
        else throw)
    else l >> r >> emit_binary o t >> dec_temp 1

-- `buildMethodCall`
abbrev pub build_method_call : Ty → ℕ → Build → Build
build_method_call t n params = params >> emit (method_call_code t n) >> dec_temp (n + 1)
