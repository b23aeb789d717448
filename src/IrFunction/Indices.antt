-- ===== src/IrFunction/Indices.antt =====
-- About the local variables that the code of `IRFunction.build` (src/semantics/ir/function.ts)
-- uses, and those that `calcLocalVarCount` counts.
use wasmnizer_ts.IrFunction.Parts.{dup_top, set_member}
use wasmnizer_ts.IrFunction.{Context, LocalVars, block_refs, larger, push_local_vars, ◌>>◌}
use wasmnizer_ts.DataPool.{DataPool}
use wasmnizer_ts.IrFunction.Room.{
  HasDirectBlocks, HasRoom, HasRoom-left, HasRoom-push, HasRoom-right, all_needed, inits_needed,
  needed, needed-calc_local_var_count, next_start_le,
}
use wasmnizer_ts.GlobalContext.{GlobalContext}
use wasmnizer_ts.IrFunction.Tree.{
  BlockData, FunctionData, Inits, Value, Values, an_init, binary_expr, block_value, direct_call,
  direct_getter, direct_setter, dynamic_call, dynamic_get, dynamic_set, element_get, element_set,
  function_call, missing, new_array, new_array_len, new_constructor_object, new_from_class_object,
  new_literal_array, new_literal_object, no_inits, no_values, object_cast_object, offset_call,
  offset_get, offset_getter, offset_set, offset_setter, plain_cast, return_value, shape_call,
  shape_get, shape_set, type_of, value, values, vtable_call, vtable_get, vtable_set,
}
use wasmnizer_ts.IrFunction.Sound.{CodesFit, Ends, Sound, Sound->>, Sound-nothing}
use wasmnizer_ts.IrFunction.Locals.{IsStacked}
use wasmnizer_ts.IrFunction.Steps.{Sound-block_refs}
use wasmnizer_ts.IrFunction.Builder.{
  IrFunction, build_function, build_inits, build_value, build_values, ir_function, new_context,
  var_count,
}
use wasmnizer_ts.IrCode.{IrCodes}
use wasmnizer_ts.Base.{List, Option, [], arith, drop, none, refl, some, ℕ, ◌≡◌}
use wasmnizer_ts.IrFunction.ValueSteps.{PartsSound, Sound-init, Sound-step}

module _ (f : FunctionData) (n : ℕ) where
  step :
      {st : List LocalVars} {k : ℕ} (v : Value)
      → HasRoom n st k
      → PartsSound f n st v
      → Sound n st (build_value f v)
  step {st = st} {k = k} v r p = Sound-step f n st r.stacked (next_start_le k r) v p

  Sound-block :
      (b : BlockData) (vs : Values) (st : List LocalVars)
      → HasRoom n st (all_needed vs)
      → Sound n st (build_values f vs)
      → Sound n st (block_refs f b.ref_list >> build_values f vs)
  Sound-block b vs st r s =
      Sound->> n st (block_refs f b.ref_list) (build_values f vs)
        (Sound-block_refs n st r.stacked (next_start_le (all_needed vs) r) f b.ref_list) s

  mutual
    unfolding PartsSound build_values build_inits needed all_needed inits_needed

    Sound-build_value :
        (v : Value) (st : List LocalVars) → HasRoom n st (needed v) → Sound n st (build_value f v)
    Sound-build_value (value t (block_value b vs)) st r = step (value t (block_value b vs)) r (
        let inner = HasRoom-push n st b.var_list (all_needed vs) r in
        Sound-block b vs (push_local_vars b.var_list st) inner
          (Sound-build_values vs (push_local_vars b.var_list st) inner))
    Sound-build_value (value t (binary_expr o v w)) st r = step (value t (binary_expr o v w)) r (
      Sound-build_value v st (HasRoom-left (needed v) (needed w) r),
      Sound-build_value w st (HasRoom-right (needed v) (needed w) r),
    )
    Sound-build_value (value t (element_get k v w)) st r = step (value t (element_get k v w)) r (
      Sound-build_value v st (HasRoom-left (needed v) (needed w) r),
      Sound-build_value w st (HasRoom-right (needed v) (needed w) r),
    )
    Sound-build_value (value t (direct_setter s g op v w)) st r =
        step (value t (direct_setter s g op v w)) r (
          Sound-build_value v st (HasRoom-left (needed v) (needed w) r),
          Sound-build_value w st (HasRoom-right (needed v) (needed w) r),
        )
    Sound-build_value (value t (offset_set i op v w)) st r =
        step (value t (offset_set i op v w)) r (
          Sound-build_value v st (HasRoom-left (needed v) (needed w) r),
          Sound-build_value w st (HasRoom-right (needed v) (needed w) r),
        )
    Sound-build_value (value t (offset_setter i g op v w)) st r =
        step (value t (offset_setter i g op v w)) r (
          Sound-build_value v st (HasRoom-left (needed v) (needed w) r),
          Sound-build_value w st (HasRoom-right (needed v) (needed w) r),
        )
    Sound-build_value (value t (vtable_set i op v w)) st r =
        step (value t (vtable_set i op v w)) r (
          Sound-build_value v st (HasRoom-left (needed v) (needed w) r),
          Sound-build_value w st (HasRoom-right (needed v) (needed w) r),
        )
    Sound-build_value (value t (shape_set i op v w)) st r = step (value t (shape_set i op v w)) r (
      Sound-build_value v st (HasRoom-left (needed v) (needed w) r),
      Sound-build_value w st (HasRoom-right (needed v) (needed w) r),
    )
    Sound-build_value (value t (dynamic_set s op v w)) st r =
        step (value t (dynamic_set s op v w)) r (
          Sound-build_value v st (HasRoom-left (needed v) (needed w) r),
          Sound-build_value w st (HasRoom-right (needed v) (needed w) r),
        )
    Sound-build_value (value t (element_set k op u v w)) st r =
        let rest = HasRoom-right (needed u) (larger (needed v) (needed w)) r in
        step (value t (element_set k op u v w)) r (
          Sound-build_value u st (HasRoom-left (needed u) (larger (needed v) (needed w)) r),
          Sound-build_value v st (HasRoom-left (needed v) (needed w) rest),
          Sound-build_value w st (HasRoom-right (needed v) (needed w) rest),
        )
    Sound-build_value (value t (function_call v vs)) st r = step (value t (function_call v vs)) r (
      Sound-build_value v st (HasRoom-left (needed v) (all_needed vs) r),
      Sound-build_values vs st (HasRoom-right (needed v) (all_needed vs) r),
    )
    Sound-build_value (value t (new_from_class_object v vs)) st r =
        step (value t (new_from_class_object v vs)) r (
          Sound-build_value v st (HasRoom-left (needed v) (all_needed vs) r),
          Sound-build_values vs st (HasRoom-right (needed v) (all_needed vs) r),
        )
    Sound-build_value (value t (direct_call g p v vs)) st r =
        step (value t (direct_call g p v vs)) r (
          Sound-build_value v st (HasRoom-left (needed v) (all_needed vs) r),
          Sound-build_values vs st (HasRoom-right (needed v) (all_needed vs) r),
        )
    Sound-build_value (value t (offset_call i ft p v vs)) st r =
        step (value t (offset_call i ft p v vs)) r (
          Sound-build_value v st (HasRoom-left (needed v) (all_needed vs) r),
          Sound-build_values vs st (HasRoom-right (needed v) (all_needed vs) r),
        )
    Sound-build_value (value t (vtable_call i v vs)) st r = step (value t (vtable_call i v vs)) r (
      Sound-build_value v st (HasRoom-left (needed v) (all_needed vs) r),
      Sound-build_values vs st (HasRoom-right (needed v) (all_needed vs) r),
    )
    Sound-build_value (value t (shape_call i v vs)) st r = step (value t (shape_call i v vs)) r (
      Sound-build_value v st (HasRoom-left (needed v) (all_needed vs) r),
      Sound-build_values vs st (HasRoom-right (needed v) (all_needed vs) r),
    )
    Sound-build_value (value t (dynamic_call s v vs)) st r =
        step (value t (dynamic_call s v vs)) r (
          Sound-build_value v st (HasRoom-left (needed v) (all_needed vs) r),
          Sound-build_values vs st (HasRoom-right (needed v) (all_needed vs) r),
        )
    Sound-build_value (value t (new_array_len v)) st r =
        step (value t (new_array_len v)) r (Sound-build_value v st r)
    Sound-build_value (value t (plain_cast v)) st r =
        step (value t (plain_cast v)) r (Sound-build_value v st r)
    Sound-build_value (value t (object_cast_object s m v)) st r =
        step (value t (object_cast_object s m v)) r (Sound-build_value v st r)
    Sound-build_value (value t (direct_getter g v)) st r =
        step (value t (direct_getter g v)) r (Sound-build_value v st r)
    Sound-build_value (value t (offset_get i v)) st r =
        step (value t (offset_get i v)) r (Sound-build_value v st r)
    Sound-build_value (value t (offset_getter i v)) st r =
        step (value t (offset_getter i v)) r (Sound-build_value v st r)
    Sound-build_value (value t (vtable_get i v)) st r =
        step (value t (vtable_get i v)) r (Sound-build_value v st r)
    Sound-build_value (value t (shape_get i v)) st r =
        step (value t (shape_get i v)) r (Sound-build_value v st r)
    Sound-build_value (value t (dynamic_get s v)) st r =
        step (value t (dynamic_get s v)) r (Sound-build_value v st r)
    Sound-build_value (value t (return_value v)) st r =
        step (value t (return_value v)) r (Sound-build_value v st r)
    Sound-build_value (value t (new_constructor_object k o vs)) st r =
        step (value t (new_constructor_object k o vs)) r (Sound-build_values vs st r)
    Sound-build_value (value t (new_literal_array vs)) st r =
        step (value t (new_literal_array vs)) r (Sound-build_values vs st r)
    Sound-build_value (value t (new_array vs)) st r =
        step (value t (new_array vs)) r (Sound-build_values vs st r)
    Sound-build_value (value t (new_literal_object k o ms is)) st r =
        step (value t (new_literal_object k o ms is)) r (Sound-build_inits ms is st r)
    Sound-build_value (value t b) st r = step (value t b) r tt

    Sound-build_values :
        (vs : Values) (st : List LocalVars)
        → HasRoom n st (all_needed vs)
        → Sound n st (build_values f vs)
    Sound-build_values no_values st r = Sound-nothing n st
    Sound-build_values (values v vs) st r =
        Sound->> n st (build_value f v) (build_values f vs)
          (Sound-build_value v st (HasRoom-left (needed v) (all_needed vs) r))
          (Sound-build_values vs st (HasRoom-right (needed v) (all_needed vs) r))

    Sound-build_inits :
        (ms : List ℕ) (is : Inits) (st : List LocalVars)
        → HasRoom n st (inits_needed is)
        → Sound n st (build_inits f ms is)
    Sound-build_inits ms no_inits st r = Sound-nothing n st
    Sound-build_inits ms (missing is) st r = Sound-build_inits (drop 1 ms) is st r
    Sound-build_inits ms (an_init v is) st r =
        Sound->> n st (dup_top (type_of v) >> build_value f v >> set_member ms (type_of v))
          (build_inits f (drop 1 ms) is)
          (Sound-init n st f ms v
            (Sound-build_value v st (HasRoom-left (needed v) (inits_needed is) r)))
          (Sound-build_inits (drop 1 ms) is st (HasRoom-right (needed v) (inits_needed is) r))

-- The locals that the instructions load or save are below the count of the function, and all
-- blocks are closed.
abbrev pub IsInBounds : FunctionData → Option (IrFunction × Context) → Type 0
IsInBounds f none = Unit {0}
IsInBounds f (some (ir, c)) =
    CodesFit ir.ir_var_count ir.ir_codes × (c.local_vars_stack ≡ push_local_vars f.function_vars [])

-- When the blocks with variables of the flattened value stand in blocks only, the code that
-- `IRFunction.build` makes of it, where it throws no exception, loads and saves no local variable,
-- at any depth of blocks, whose index is not below the number of variables of the function; and
-- the variables of all blocks are popped again, which leaves those of the function.
pub build_function-IsInBounds :
    (f : FunctionData) (v : Value) (g : GlobalContext) (p : DataPool)
    → HasDirectBlocks v
    → IsInBounds f (build_function f v g p)
unfolding build_function var_count IsStacked push_local_vars
build_function-IsInBounds f v g p h =
    go (build_value f v (new_context f g p)) (s.ends (new_context f g p) refl)
  where
    r : HasRoom (var_count f v) (push_local_vars f.function_vars []) (needed v)
    r =
        HasRoom-push (var_count f v) [] f.function_vars (needed v)
          (record { stacked = tt; room = omega (arith, needed-calc_local_var_count v h) })

    s : Sound (var_count f v) (push_local_vars f.function_vars []) (build_value f v)
    s = Sound-build_value f (var_count f v) v (push_local_vars f.function_vars []) r

    go :
        (o : Option (IrCodes × Context))
        → Ends (var_count f v) (push_local_vars f.function_vars []) o
        → IsInBounds f (elim o [ none ↦ none | some (cs, c) ↦ some (ir_function f v cs c, c) ])
    go none e = tt
    go (some (cs, c)) (a, e) = (a, e)
