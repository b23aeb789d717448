-- ===== src/IrFunction/Built.antt =====
-- About exceptions of `IRFunction.buildValue` (src/semantics/ir/function.ts): the step of each
-- kind of value, and `build`.
use mathlib.Core.Option.{none-ne-some}
use wasmnizer_ts.IrFunction.Operating.{Returns-binary}
use wasmnizer_ts.IrFunction.Buildable.{CanBuild, CanBuildAll}
use wasmnizer_ts.IrFunction.{Context, LocalVars, block_refs, push_local_vars, ◌>>◌}
use wasmnizer_ts.IrFunction.Tree.{
  FunctionData, Value, Values, binary_expr, block_branch, block_branch_if, block_value,
  closure_call, element_get, element_set, function_call, literal_value, new_array, new_array_len,
  new_from_class_object, new_literal_array, no_values, offset_call, offset_get, offset_getter,
  offset_set, other_value, plain_cast, return_nothing, return_value, shape_call, shape_get,
  shape_set, this_value, value, values, var_value, vtable_call, vtable_get, vtable_set,
}
use wasmnizer_ts.IrFunction.Parts.{is_known}
use wasmnizer_ts.IrFunction.Builder.{
  IrFunction, build_function, build_value, build_values, ir_function, new_context,
}
use wasmnizer_ts.IrFunction.Returns.{CanCompound, Returned, Returns, Returns->>, Returns-nothing}
use wasmnizer_ts.IrFunction.Building.{
  CanLoad, CanOperate, Returns-block_refs, Returns-in_block, Returns-var_value, return_rules,
}
use wasmnizer_ts.IrFunction.Room.{HasDirectBlocks}
use wasmnizer_ts.IrFunction.Indices.{IsInBounds, build_function-IsInBounds}
use wasmnizer_ts.IrCode.{IrCodes}
use wasmnizer_ts.GlobalContext.{GlobalContext}
use wasmnizer_ts.DataPool.{DataPool}
use wasmnizer_ts.Base.{List, Option, [], none, refl, some, true, ℕ, ◌∷◌, ◌≡◌}

-- What the step of a value takes from the steps of its parts.
module _ (f : FunctionData) (st : List LocalVars) (ks : List ℕ) where
  unfoldable PartsReturn : Value → Type 0
  PartsReturn (value t (element_get k v w)) =
      Returns st ks (build_value f v) × Returns st ks (build_value f w)
  PartsReturn (value t (offset_set i op v w)) =
      CanCompound op × Returns st ks (build_value f v) × Returns st ks (build_value f w)
  PartsReturn (value t (vtable_set i op v w)) =
      CanCompound op × Returns st ks (build_value f v) × Returns st ks (build_value f w)
  PartsReturn (value t (shape_set i op v w)) =
      CanCompound op × Returns st ks (build_value f v) × Returns st ks (build_value f w)
  PartsReturn (value t (element_set k op u v w)) =
      CanCompound op
      × Returns st ks (build_value f u)
      × Returns st ks (build_value f v)
      × Returns st ks (build_value f w)
  PartsReturn (value t (binary_expr o v w)) =
      CanOperate f st o v × Returns st ks (build_value f v) × Returns st ks (build_value f w)
  PartsReturn (value t (function_call v vs)) =
      Returns st ks (build_value f v) × Returns st ks (build_values f vs)
  PartsReturn (value t (new_from_class_object v vs)) =
      Returns st ks (build_value f v) × Returns st ks (build_values f vs)
  PartsReturn (value t (offset_call i ft p v vs)) =
      Returns st ks (build_value f v) × Returns st ks (build_values f vs)
  PartsReturn (value t (vtable_call i v vs)) =
      Returns st ks (build_value f v) × Returns st ks (build_values f vs)
  PartsReturn (value t (shape_call i v vs)) =
      Returns st ks (build_value f v) × Returns st ks (build_values f vs)
  PartsReturn (value t (new_array_len v)) = Returns st ks (build_value f v)
  PartsReturn (value t (plain_cast v)) = Returns st ks (build_value f v)
  PartsReturn (value t (offset_get i v)) = Returns st ks (build_value f v)
  PartsReturn (value t (offset_getter i v)) = Returns st ks (build_value f v)
  PartsReturn (value t (vtable_get i v)) = Returns st ks (build_value f v)
  PartsReturn (value t (shape_get i v)) = Returns st ks (build_value f v)
  PartsReturn (value t (return_value v)) = Returns st ks (build_value f v)
  PartsReturn (value t (new_literal_array vs)) = Returns st ks (build_values f vs)
  PartsReturn (value t (new_array vs)) = Returns st ks (build_values f vs)
  PartsReturn (value t this_value) = Unit {0}
  PartsReturn (value t (literal_value n)) = Unit {0}
  PartsReturn (value t closure_call) = Unit {0}
  PartsReturn (value t return_nothing) = Unit {0}
  PartsReturn (value t other_value) = Unit {0}
  PartsReturn (value t (block_branch k)) = (is_known k ks ≡ true)
  PartsReturn (value t (block_branch_if k b v)) = (is_known k ks ≡ true)
  PartsReturn (value t (var_value v)) = CanLoad f st v.var_kind v.var_ref
  PartsReturn (value t (block_value b vs)) =
      Returns (push_local_vars b.var_list st) (b.id ∷ ks)
        (block_refs f b.ref_list >> build_values f vs)
  PartsReturn (value t _) = ⊥

  Returns-step : (v : Value) → PartsReturn v → Returns st ks (build_value f v)
  unfolding PartsReturn build_value
  Returns-step (value t (element_get k v w)) (a, b) = search (return_rules) depth 16
  Returns-step (value t (offset_set i op v w)) (a, b, c) = search (return_rules) depth 16
  Returns-step (value t (vtable_set i op v w)) (a, b, c) = search (return_rules) depth 16
  Returns-step (value t (shape_set i op v w)) (a, b, c) = search (return_rules) depth 16
  Returns-step (value t (element_set k op u v w)) (a, b, c, d) = search (return_rules) depth 16
  Returns-step (value t (binary_expr o v w)) (a, b, c) =
      Returns-binary st ks f o t v (build_value f v) (build_value f w) a b c
  Returns-step (value t (function_call v vs)) (a, b) = search (return_rules) depth 16
  Returns-step (value t (new_from_class_object v vs)) (a, b) = search (return_rules) depth 16
  Returns-step (value t (offset_call i ft p v vs)) (a, b) = search (return_rules) depth 16
  Returns-step (value t (vtable_call i v vs)) (a, b) = search (return_rules) depth 16
  Returns-step (value t (shape_call i v vs)) (a, b) = search (return_rules) depth 16
  Returns-step (value t (new_array_len v)) a = search (return_rules) depth 16
  Returns-step (value t (plain_cast v)) a = a
  Returns-step (value t (offset_get i v)) a = search (return_rules) depth 16
  Returns-step (value t (offset_getter i v)) a = search (return_rules) depth 16
  Returns-step (value t (vtable_get i v)) a = search (return_rules) depth 16
  Returns-step (value t (shape_get i v)) a = search (return_rules) depth 16
  Returns-step (value t (return_value v)) a = search (return_rules) depth 16
  Returns-step (value t (new_literal_array vs)) a = search (return_rules) depth 16
  Returns-step (value t (new_array vs)) a = search (return_rules) depth 16
  Returns-step (value t this_value) a = search (return_rules)
  Returns-step (value t (literal_value n)) a = search (return_rules)
  Returns-step (value t closure_call) a = search (return_rules)
  Returns-step (value t return_nothing) a = search (return_rules)
  Returns-step (value t other_value) a = search (return_rules)
  Returns-step (value t (block_branch k)) a = search (return_rules, a)
  Returns-step (value t (block_branch_if k b v)) a = search (return_rules, a)
  Returns-step (value t (var_value v)) a = Returns-var_value st ks f t v.var_kind v.var_ref a
  Returns-step (value t (block_value b vs)) a =
      Returns-in_block st ks b t (block_refs f b.ref_list >> build_values f vs) a
  Returns-step (value t _) a = elim a [ ]

module _ (f : FunctionData) where
  mutual
    unfolding PartsReturn build_values CanBuild CanBuildAll

    Returns-build_value :
        (st : List LocalVars) (ks : List ℕ) (v : Value)
        → CanBuild f st ks v
        → Returns st ks (build_value f v)
    Returns-build_value st ks (value t (element_get k v w)) (a, b) =
        Returns-step f st ks (value t (element_get k v w))
          (Returns-build_value st ks v a, Returns-build_value st ks w b)
    Returns-build_value st ks (value t (offset_set i op v w)) (a, b, c) =
        Returns-step f st ks (value t (offset_set i op v w))
          (a, Returns-build_value st ks v b, Returns-build_value st ks w c)
    Returns-build_value st ks (value t (vtable_set i op v w)) (a, b, c) =
        Returns-step f st ks (value t (vtable_set i op v w))
          (a, Returns-build_value st ks v b, Returns-build_value st ks w c)
    Returns-build_value st ks (value t (shape_set i op v w)) (a, b, c) =
        Returns-step f st ks (value t (shape_set i op v w))
          (a, Returns-build_value st ks v b, Returns-build_value st ks w c)
    Returns-build_value st ks (value t (element_set k op u v w)) (a, b, c, d) =
        Returns-step f st ks (value t (element_set k op u v w)) (
          a,
          Returns-build_value st ks u b,
          Returns-build_value st ks v c,
          Returns-build_value st ks w d,
        )
    Returns-build_value st ks (value t (binary_expr o v w)) (a, b, c) =
        Returns-step f st ks (value t (binary_expr o v w))
          (a, Returns-build_value st ks v b, Returns-build_value st ks w c)
    Returns-build_value st ks (value t (function_call v vs)) (a, b) =
        Returns-step f st ks (value t (function_call v vs))
          (Returns-build_value st ks v a, Returns-build_values st ks vs b)
    Returns-build_value st ks (value t (new_from_class_object v vs)) (a, b) =
        Returns-step f st ks (value t (new_from_class_object v vs))
          (Returns-build_value st ks v a, Returns-build_values st ks vs b)
    Returns-build_value st ks (value t (offset_call i ft p v vs)) (a, b) =
        Returns-step f st ks (value t (offset_call i ft p v vs))
          (Returns-build_value st ks v a, Returns-build_values st ks vs b)
    Returns-build_value st ks (value t (vtable_call i v vs)) (a, b) =
        Returns-step f st ks (value t (vtable_call i v vs))
          (Returns-build_value st ks v a, Returns-build_values st ks vs b)
    Returns-build_value st ks (value t (shape_call i v vs)) (a, b) =
        Returns-step f st ks (value t (shape_call i v vs))
          (Returns-build_value st ks v a, Returns-build_values st ks vs b)
    Returns-build_value st ks (value t (new_array_len v)) a =
        Returns-step f st ks (value t (new_array_len v)) (Returns-build_value st ks v a)
    Returns-build_value st ks (value t (plain_cast v)) a =
        Returns-step f st ks (value t (plain_cast v)) (Returns-build_value st ks v a)
    Returns-build_value st ks (value t (offset_get i v)) a =
        Returns-step f st ks (value t (offset_get i v)) (Returns-build_value st ks v a)
    Returns-build_value st ks (value t (offset_getter i v)) a =
        Returns-step f st ks (value t (offset_getter i v)) (Returns-build_value st ks v a)
    Returns-build_value st ks (value t (vtable_get i v)) a =
        Returns-step f st ks (value t (vtable_get i v)) (Returns-build_value st ks v a)
    Returns-build_value st ks (value t (shape_get i v)) a =
        Returns-step f st ks (value t (shape_get i v)) (Returns-build_value st ks v a)
    Returns-build_value st ks (value t (return_value v)) a =
        Returns-step f st ks (value t (return_value v)) (Returns-build_value st ks v a)
    Returns-build_value st ks (value t (new_literal_array vs)) a =
        Returns-step f st ks (value t (new_literal_array vs)) (Returns-build_values st ks vs a)
    Returns-build_value st ks (value t (new_array vs)) a =
        Returns-step f st ks (value t (new_array vs)) (Returns-build_values st ks vs a)
    Returns-build_value st ks (value t this_value) a = Returns-step f st ks (value t this_value) tt
    Returns-build_value st ks (value t (literal_value n)) a =
        Returns-step f st ks (value t (literal_value n)) tt
    Returns-build_value st ks (value t closure_call) a =
        Returns-step f st ks (value t closure_call) tt
    Returns-build_value st ks (value t return_nothing) a =
        Returns-step f st ks (value t return_nothing) tt
    Returns-build_value st ks (value t other_value) a =
        Returns-step f st ks (value t other_value) tt
    Returns-build_value st ks (value t (block_branch k)) a =
        Returns-step f st ks (value t (block_branch k)) (a)
    Returns-build_value st ks (value t (block_branch_if k b v)) a =
        Returns-step f st ks (value t (block_branch_if k b v)) (a)
    Returns-build_value st ks (value t (var_value v)) a =
        Returns-step f st ks (value t (var_value v)) (a)
    Returns-build_value st ks (value t (block_value b vs)) (a, c) =
        let inner = push_local_vars b.var_list st in
        Returns-step f st ks (value t (block_value b vs)) (
          Returns->> inner (b.id ∷ ks) (block_refs f b.ref_list) (build_values f vs)
            (Returns-block_refs inner (b.id ∷ ks) f b.ref_list a)
            (Returns-build_values inner (b.id ∷ ks) vs c))
    Returns-build_value st ks (value t _) a = elim a [ ]

    Returns-build_values :
        (st : List LocalVars) (ks : List ℕ) (vs : Values)
        → CanBuildAll f st ks vs
        → Returns st ks (build_values f vs)
    Returns-build_values st ks no_values a = Returns-nothing st ks
    Returns-build_values st ks (values v vs) (a, b) =
        Returns->> st ks (build_value f v) (build_values f vs) (Returns-build_value st ks v a)
          (Returns-build_values st ks vs b)

-- The function that is made, within the bounds of its count of variables.
abbrev pub BuildsInBounds : FunctionData → Option (IrFunction × Context) → Type 0
BuildsInBounds f o =
    (ir : IrFunction) × (c : Context) × (o ≡ some (ir, c)) × IsInBounds f (some (ir, c))

-- `IRFunction.build` throws nothing for a flattened value made of blocks, branches, `this`,
-- literals, variables of the function, binary operators, calls, elements, arrays, objects of a
-- class value, members by offset (but for setters), vtable or shape, casts of values and returns,
-- when every variable that it loads, saves or makes a reference of is found in the function, every
-- branch goes to a block around it, and every operator has an instruction or is `=`, with a
-- variable on the left of an assignment. If its blocks with variables also stand in blocks only,
-- the locals that the code uses are below the function's count of variables.
pub build_function-CanBuild :
    (f : FunctionData) (v : Value) (g : GlobalContext) (p : DataPool)
    → CanBuild f (push_local_vars f.function_vars []) [] v
    → HasDirectBlocks v
    → BuildsInBounds f (build_function f v g p)
unfolding build_function
build_function-CanBuild f v g p h d =
    go (build_value f v (new_context f g p))
      ((Returns-build_value f (push_local_vars f.function_vars []) [] v h).returned
        (new_context f g p) refl (λ k e. e))
      (build_function-IsInBounds f v g p d)
  where
    go :
        (o : Option (IrCodes × Context))
        → Returned (push_local_vars f.function_vars []) [] o
        → IsInBounds f (elim o [ none ↦ none | some (cs, c) ↦ some (ir_function f v cs c, c) ])
        → BuildsInBounds f (elim o [ none ↦ none | some (cs, c) ↦ some (ir_function f v cs c, c) ])
    go none (cs, c, e, q, r) b = absurd (none-ne-some (cs, c) e)
    go (some (cs, c)) r b = (ir_function f v cs c, c, refl, b)
