-- ===== src/IrFunction/Room.antt =====
-- About `calcLocalVarCount` of src/semantics/ir/function.ts: the most local variables that are in
-- scope at once.
use wasmnizer_ts.IrFunction.{
  LocalVars, calc_children, calc_local_var_count, count_vars, larger, next_start, push_local_vars,
}
use wasmnizer_ts.IrFunction.Tree.{
  Decl, Inits, Value, Values, an_init, binary_expr, block_branch_if, block_value, direct_call,
  direct_getter, direct_setter, dynamic_call, dynamic_get, dynamic_set, element_get, element_set,
  function_call, missing, new_array, new_array_len, new_constructor_object, new_from_class_object,
  new_literal_array, new_literal_object, no_inits, no_values, object_cast_object, offset_call,
  offset_get, offset_getter, offset_set, offset_setter, plain_cast, return_value, shape_call,
  shape_get, shape_set, value, values, vtable_call, vtable_get, vtable_set,
}
use wasmnizer_ts.IrFunction.Locals.{IsStacked, IsStacked-push, next_start-push_local_vars}
use wasmnizer_ts.Base.{List, Option, arith, ℕ, ◌+◌, ◌≡◌, ◌≤◌}

-- A block adds its variables to what its values need, and two values do not need theirs together.
unfoldable mutual
  pub needed : Value → ℕ
  needed (value t (block_value b vs)) = count_vars b.var_list + all_needed vs
  needed (value t (binary_expr o v w)) = larger (needed v) (needed w)
  needed (value t (element_get k v w)) = larger (needed v) (needed w)
  needed (value t (direct_setter s g op v w)) = larger (needed v) (needed w)
  needed (value t (offset_set i op v w)) = larger (needed v) (needed w)
  needed (value t (offset_setter i g op v w)) = larger (needed v) (needed w)
  needed (value t (vtable_set i op v w)) = larger (needed v) (needed w)
  needed (value t (shape_set i op v w)) = larger (needed v) (needed w)
  needed (value t (dynamic_set s op v w)) = larger (needed v) (needed w)
  needed (value t (element_set k op u v w)) = larger (needed u) (larger (needed v) (needed w))
  needed (value t (function_call v vs)) = larger (needed v) (all_needed vs)
  needed (value t (new_from_class_object v vs)) = larger (needed v) (all_needed vs)
  needed (value t (direct_call g r v vs)) = larger (needed v) (all_needed vs)
  needed (value t (offset_call i ft r v vs)) = larger (needed v) (all_needed vs)
  needed (value t (vtable_call i v vs)) = larger (needed v) (all_needed vs)
  needed (value t (shape_call i v vs)) = larger (needed v) (all_needed vs)
  needed (value t (dynamic_call s v vs)) = larger (needed v) (all_needed vs)
  needed (value t (new_array_len n)) = needed n
  needed (value t (plain_cast v)) = needed v
  needed (value t (object_cast_object s m v)) = needed v
  needed (value t (direct_getter g v)) = needed v
  needed (value t (offset_get i v)) = needed v
  needed (value t (offset_getter i v)) = needed v
  needed (value t (vtable_get i v)) = needed v
  needed (value t (shape_get i v)) = needed v
  needed (value t (dynamic_get s v)) = needed v
  needed (value t (return_value v)) = needed v
  needed (value t (block_branch_if k b v)) = needed v
  needed (value t (new_constructor_object k o vs)) = all_needed vs
  needed (value t (new_literal_array vs)) = all_needed vs
  needed (value t (new_array vs)) = all_needed vs
  needed (value t (new_literal_object k o ms is)) = inits_needed is
  needed (value t _) = 0

  pub all_needed : Values → ℕ
  all_needed no_values = 0
  all_needed (values v vs) = larger (needed v) (all_needed vs)

  pub inits_needed : Inits → ℕ
  inits_needed no_inits = 0
  inits_needed (missing is) = inits_needed is
  inits_needed (an_init v is) = larger (needed v) (inits_needed is)

-- Blocks with variables stand in blocks only, as they do in a flattened value.
unfoldable mutual
  pub HasDirectBlocks : Value → Type 0
  HasDirectBlocks (value t (block_value b vs)) = HaveDirectBlocks vs
  HasDirectBlocks v = needed v ≡ 0

  pub HaveDirectBlocks : Values → Type 0
  HaveDirectBlocks no_values = Unit {0}
  HaveDirectBlocks (values v vs) = HasDirectBlocks v × HaveDirectBlocks vs

larger_mono : (a b c d : ℕ) → a ≤ b → c ≤ d → larger a c ≤ larger b d
unfolding larger
larger_mono a b c d h k = ground arith

mutual
  unfolding needed all_needed calc_local_var_count calc_children HasDirectBlocks HaveDirectBlocks

  pub needed-calc_local_var_count :
      (v : Value) → HasDirectBlocks v → needed v ≤ calc_local_var_count v
  needed-calc_local_var_count (value t (block_value b vs)) h =
      omega (arith, all_needed-calc_children vs h)
  needed-calc_local_var_count (value t _) h = omega (arith, h)

  all_needed-calc_children : (vs : Values) → HaveDirectBlocks vs → all_needed vs ≤ calc_children vs
  all_needed-calc_children no_values h = omega arith
  all_needed-calc_children (values v vs) (h, k) =
      larger_mono (needed v) (calc_local_var_count v) (all_needed vs) (calc_children vs)
        (needed-calc_local_var_count v h) (all_needed-calc_children vs k)

-- The stack of local variables leaves room for `k` more below `n`.
pub record HasRoom (n : ℕ) (st : List LocalVars) (k : ℕ) : Type 0 where
  pub stacked : IsStacked st
  pub room : next_start st + k ≤ n

module _ {n : ℕ} {st : List LocalVars} where
  pub HasRoom-left : (a b : ℕ) → HasRoom n st (larger a b) → HasRoom n st a
  unfolding larger
  HasRoom-left a b r = record { stacked = r.stacked; room = ground (arith, r.room) }

  pub HasRoom-right : (a b : ℕ) → HasRoom n st (larger a b) → HasRoom n st b
  unfolding larger
  HasRoom-right a b r = record { stacked = r.stacked; room = ground (arith, r.room) }

  pub next_start_le : (k : ℕ) → HasRoom n st k → next_start st ≤ n
  next_start_le k r = omega (arith, r.room)

pub HasRoom-push :
    (n : ℕ) (st : List LocalVars) (vs : Option (List Decl)) (k : ℕ)
    → HasRoom n st (count_vars vs + k)
    → HasRoom n (push_local_vars vs st) k
HasRoom-push n st vs k r = record {
  stacked = IsStacked-push vs st r.stacked;
  room = omega (arith, r.room, next_start-push_local_vars vs st);
}
