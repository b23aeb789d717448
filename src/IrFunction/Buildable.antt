-- ===== src/IrFunction/Buildable.antt =====
-- The values of src/semantics/ir/function.ts that are taken to be in order: their variables,
-- blocks and operators.
use wasmnizer_ts.IrFunction.{LocalVars, push_local_vars}
use wasmnizer_ts.IrFunction.Tree.{
  FunctionData, Value, Values, binary_expr, block_branch, block_branch_if, block_value,
  closure_call, element_get, element_set, function_call, literal_value, new_array, new_array_len,
  new_from_class_object, new_literal_array, no_values, offset_call, offset_get, offset_getter,
  offset_set, other_value, plain_cast, return_nothing, return_value, shape_call, shape_get,
  shape_set, this_value, value, values, var_value, vtable_call, vtable_get, vtable_set,
}
use wasmnizer_ts.IrFunction.Parts.{is_known}
use wasmnizer_ts.IrFunction.Returns.{CanCompound}
use wasmnizer_ts.IrFunction.Building.{AreFound, CanLoad, CanOperate}
use wasmnizer_ts.Base.{List, true, ℕ, ◌∷◌, ◌≡◌}

-- A value of one of these forms whose variables are found, whose branches go to one of the known
-- blocks or to a block around them, and whose operators have instructions.
unfoldable mutual
  pub CanBuild : FunctionData → List LocalVars → List ℕ → Value → Type 0
  CanBuild f st ks (value t (element_get k v w)) = CanBuild f st ks v × CanBuild f st ks w
  CanBuild f st ks (value t (offset_set i op v w)) =
      CanCompound op × CanBuild f st ks v × CanBuild f st ks w
  CanBuild f st ks (value t (vtable_set i op v w)) =
      CanCompound op × CanBuild f st ks v × CanBuild f st ks w
  CanBuild f st ks (value t (shape_set i op v w)) =
      CanCompound op × CanBuild f st ks v × CanBuild f st ks w
  CanBuild f st ks (value t (element_set k op u v w)) =
      CanCompound op × CanBuild f st ks u × CanBuild f st ks v × CanBuild f st ks w
  CanBuild f st ks (value t (binary_expr o v w)) =
      CanOperate f st o v × CanBuild f st ks v × CanBuild f st ks w
  CanBuild f st ks (value t (function_call v vs)) = CanBuild f st ks v × CanBuildAll f st ks vs
  CanBuild f st ks (value t (new_from_class_object v vs)) =
      CanBuild f st ks v × CanBuildAll f st ks vs
  CanBuild f st ks (value t (offset_call i ft p v vs)) = CanBuild f st ks v × CanBuildAll f st ks vs
  CanBuild f st ks (value t (vtable_call i v vs)) = CanBuild f st ks v × CanBuildAll f st ks vs
  CanBuild f st ks (value t (shape_call i v vs)) = CanBuild f st ks v × CanBuildAll f st ks vs
  CanBuild f st ks (value t (new_array_len v)) = CanBuild f st ks v
  CanBuild f st ks (value t (plain_cast v)) = CanBuild f st ks v
  CanBuild f st ks (value t (offset_get i v)) = CanBuild f st ks v
  CanBuild f st ks (value t (offset_getter i v)) = CanBuild f st ks v
  CanBuild f st ks (value t (vtable_get i v)) = CanBuild f st ks v
  CanBuild f st ks (value t (shape_get i v)) = CanBuild f st ks v
  CanBuild f st ks (value t (return_value v)) = CanBuild f st ks v
  CanBuild f st ks (value t (new_literal_array vs)) = CanBuildAll f st ks vs
  CanBuild f st ks (value t (new_array vs)) = CanBuildAll f st ks vs
  CanBuild f st ks (value t this_value) = Unit {0}
  CanBuild f st ks (value t (literal_value n)) = Unit {0}
  CanBuild f st ks (value t closure_call) = Unit {0}
  CanBuild f st ks (value t return_nothing) = Unit {0}
  CanBuild f st ks (value t other_value) = Unit {0}
  CanBuild f st ks (value t (block_branch k)) = (is_known k ks ≡ true)
  CanBuild f st ks (value t (block_branch_if k b v)) = (is_known k ks ≡ true)
  CanBuild f st ks (value t (var_value v)) = CanLoad f st v.var_kind v.var_ref
  CanBuild f st ks (value t (block_value b vs)) =
      AreFound f (push_local_vars b.var_list st) b.ref_list
      × CanBuildAll f (push_local_vars b.var_list st) (b.id ∷ ks) vs
  CanBuild f st ks (value t _) = ⊥

  pub CanBuildAll : FunctionData → List LocalVars → List ℕ → Values → Type 0
  CanBuildAll f st ks no_values = Unit {0}
  CanBuildAll f st ks (values v vs) = CanBuild f st ks v × CanBuildAll f st ks vs
