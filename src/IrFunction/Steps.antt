-- ===== src/IrFunction/Steps.antt =====
-- About `buildVar`, `buildSaveVar`, `buildBlockRefList` and the other steps of
-- src/semantics/ir/function.ts that do not recurse: the stack of local variables, and the indices
-- used.
use wasmnizer_ts.IrFunction.Parts.{
  branch_to_known, closure_inits, getter_code, init_closure, is_known, load_function_ref,
  load_getter, load_super, save_left, set_member, shape_code,
}
use wasmnizer_ts.IrFunction.{
  Build, Context, LocalVars, block_refs, build_block_ref_list, build_closure_var,
  build_function_var, build_global_var, build_local, build_param, build_save_var, build_var,
  build_var_of, build_var_value, emit, get_local_var_index, load_or_save, next_start, place_in,
  read_if_ref, save_function_var, save_global_var, save_var_of, throw, ◌>>◌,
}
use wasmnizer_ts.IrFunction.Locals.{IsBelow, IsBelow-get_local_var_index, IsBelow-weaken, IsStacked}
use wasmnizer_ts.IrCode.Instructions.{
  init_closure_value_code, load_closure_code, load_local_code, load_param_code, new_ref_code,
  save_closure_code, save_local_code, save_param_code,
}
use wasmnizer_ts.IrFunction.Tree.{
  Decl, FunctionData, Storage, Value, VarKind, VarRef, decl_ref, function_ref, global_const,
  global_var, local_storage, object_ref, other_ref, other_storage, other_var, param_storage, value,
  var_value,
}
use wasmnizer_ts.IrFunction.Sound.{
  CodeFits, Ends, IndexFits, OperandFits, Sound, Sound->>, Sound-compound, Sound-dec_temp,
  Sound-dec_temp_but_one, Sound-emit, Sound-emit_binary, Sound-if, Sound-in_globals, Sound-in_pool,
  Sound-inc_temp, Sound-nothing, Sound-throw,
}
use wasmnizer_ts.IrCode.{IrCode, Ty}
use wasmnizer_ts.Base.{
  Bool, List, Option, [], false, none, refl, some, suc, true, zero, ℕ, ◌+◌, ◌∷◌, ◌≡◌, ◌≤◌,
}

pub ruleset sound_steps = (
  Sound-nothing, Sound-throw, Sound-inc_temp, Sound-dec_temp, Sound-dec_temp_but_one, Sound->>,
  Sound-emit, Sound-in_globals, Sound-in_pool, Sound-if, Sound-emit_binary, Sound-compound,
)

module _ (n : ℕ) (st : List LocalVars) where
  pub Sound-load_function_ref : (r : VarRef) (t : Ty → Ty) → Sound n st (load_function_ref r t)
  unfolding CodeFits OperandFits IndexFits
  Sound-load_function_ref (function_ref k r) t = search (sound_steps)
  Sound-load_function_ref (object_ref b k o) t = search (sound_steps)
  Sound-load_function_ref (decl_ref v) t = search (sound_steps)
  Sound-load_function_ref other_ref t = search (sound_steps)

  pub Sound-shape_code : (s : Option (ℕ × ℕ)) (m : ℕ) (t : Ty) → Sound n st (shape_code s m t)
  unfolding CodeFits OperandFits IndexFits
  Sound-shape_code none m t = search (sound_steps)
  Sound-shape_code (some (s, g)) m t = search (sound_steps)

  pub Sound-set_member : (ms : List ℕ) (t : Ty) → Sound n st (set_member ms t)
  unfolding CodeFits OperandFits IndexFits
  Sound-set_member [] t = Sound-throw n st
  Sound-set_member (m ∷ ms) t = search (sound_steps)

  pub Sound-getter_code : (g : Option ℕ) (t : Ty) → Sound n st (getter_code g t)
  unfolding CodeFits OperandFits IndexFits
  Sound-getter_code none t = search (sound_steps)
  Sound-getter_code (some zero) t = search (sound_steps)
  Sound-getter_code (some (suc i)) t = search (sound_steps)

  pub Sound-load_getter : (g : Option VarRef) (t : Ty) → Sound n st (load_getter g t)
  Sound-load_getter none t = search (sound_steps)
  Sound-load_getter (some r) t = Sound-load_function_ref r (λ _. t)

  pub Sound-load_super : (c : Option (Ty × Option Ty)) → Sound n st (load_super c)
  unfolding CodeFits OperandFits IndexFits
  Sound-load_super none = search (sound_steps)
  Sound-load_super (some (t, s)) = search (sound_steps)

  pub Sound-branch_to_known : (k : ℕ) (m : Build) → Sound n st m → Sound n st (branch_to_known k m)
  Sound-branch_to_known k m s = record {
    ends = λ c. (Sound-if n st (is_known k c.known_blocks) m throw s (Sound-throw n st)).ends c;
  }

  pub Sound-read_if_ref : (v : Decl) → Sound n st (read_if_ref v)
  unfolding CodeFits OperandFits IndexFits
  Sound-read_if_ref v = search (sound_steps)

  Sound-load_or_save :
      (l s : IrCode) (load : Bool)
      → CodeFits n l
      → CodeFits n s
      → Sound n st (load_or_save load l s)
  Sound-load_or_save l s true a b = Sound-emit n st l a
  Sound-load_or_save l s false a b = Sound-emit n st s b

module _ (n : ℕ) (st : List LocalVars) (h : IsStacked st) (room : next_start st ≤ n) where
  Sound-build_closure_var :
      (f : FunctionData) (v : Decl) (load : Bool) → Sound n st (build_closure_var f v load)
  unfolding build_closure_var CodeFits OperandFits IndexFits
  Sound-build_closure_var f v load = go (place_in v f.closure_vars)
    where
      go :
          (o : Option ℕ)
          → Sound n st (elim o [
            | none ↦ throw
            | some i ↦
                load_or_save load
                  (load_closure_code i v.decl_type)
                  (save_closure_code i v.decl_type)
          ])
      go none = search (sound_steps)
      go (some i) = search (Sound-load_or_save)

  Ends-local :
      (f : FunctionData) (v : Decl) (load : Bool) (c : Context) (o : Option ℕ)
      → IsBelow n o
      → c.local_vars_stack ≡ st
      → Ends n st (elim o [
        | none ↦ build_closure_var f v load c
        | some i ↦
            load_or_save load (load_local_code i v.decl_type) (save_local_code i v.decl_type) c
      ])
  unfolding CodeFits OperandFits IndexFits
  Ends-local f v load c none k e = (Sound-build_closure_var f v load).ends c e
  Ends-local f v load c (some i) k e =
      (Sound-load_or_save n st (load_local_code i v.decl_type) (save_local_code i v.decl_type) load
          (k i refl) (k i refl)).ends
        c e

  Sound-build_local :
      (f : FunctionData) (v : Decl) (load : Bool) → Sound n st (build_local f v load)
  unfolding build_local
  Sound-build_local f v load = record {
    ends = λ c e.
        Ends-local f v load c (get_local_var_index v c.local_vars_stack)
          (rw e
            (IsBelow-weaken (get_local_var_index v st) room (IsBelow-get_local_var_index v st h)))
          e;
  }

  Sound-build_param :
      (f : FunctionData) (v : Decl) (load : Bool) → Sound n st (build_param f v load)
  unfolding build_param CodeFits OperandFits IndexFits
  Sound-build_param f v load = go (place_in v f.parameters)
    where
      go :
          (o : Option ℕ)
          → Sound n st (elim o [
            | none ↦ build_closure_var f v load
            | some i ↦
                load_or_save load (load_param_code i v.decl_type) (save_param_code i v.decl_type)
          ])
      go none = Sound-build_closure_var f v load
      go (some i) = search (Sound-load_or_save)

  Sound-build_var_of :
      (s : Storage) (f : FunctionData) (v : Decl) (load : Bool)
      → Sound n st (build_var_of s f v load)
  unfolding build_var_of
  Sound-build_var_of local_storage f v load = Sound-build_local f v load
  Sound-build_var_of param_storage f v load = Sound-build_param f v load
  Sound-build_var_of other_storage f v load = Sound-nothing n st

  Sound-build_var : (f : FunctionData) (v : Decl) (load : Bool) → Sound n st (build_var f v load)
  Sound-build_var f v load = Sound-build_var_of v.storage f v load

  pub Sound-block_ref_list :
      (f : FunctionData) (vs : List Decl) → Sound n st (build_block_ref_list f vs)
  unfolding build_block_ref_list CodeFits OperandFits IndexFits
  Sound-block_ref_list f [] = Sound-nothing n st
  Sound-block_ref_list f (v ∷ vs) =
      Sound->> n st (emit (new_ref_code v.decl_type) >> build_var f v false)
        (build_block_ref_list f vs) (search (sound_steps, Sound-build_var))
        (Sound-block_ref_list f vs)

  pub Sound-block_refs : (f : FunctionData) (vs : Option (List Decl)) → Sound n st (block_refs f vs)
  Sound-block_refs f none = Sound-nothing n st
  Sound-block_refs f (some vs) = Sound-block_ref_list f vs

  pub Sound-init_closure :
      (f : FunctionData) (i : ℕ) (vs : List (Option (Decl × Ty))) → Sound n st (init_closure f i vs)
  unfolding init_closure CodeFits OperandFits IndexFits
  Sound-init_closure f i [] = Sound-nothing n st
  Sound-init_closure f i (none ∷ vs) = Sound-throw n st
  Sound-init_closure f i (some (v, t) ∷ vs) =
      Sound->> n st (build_var f v true >> emit (init_closure_value_code i t))
        (init_closure f (i + 1) vs) (search (sound_steps, Sound-build_var))
        (Sound-init_closure f (i + 1) vs)

  pub Sound-closure_inits :
      (f : FunctionData) (vs : Option (List (Option (Decl × Ty)))) → Sound n st (closure_inits f vs)
  Sound-closure_inits f none = Sound-nothing n st
  Sound-closure_inits f (some vs) = Sound-init_closure f 0 vs

  Sound-function_var : (f : FunctionData) (r : VarRef) → Sound n st (build_function_var f r)
  unfolding build_function_var
  Sound-function_var f (decl_ref v) = search (sound_steps, Sound-build_var, Sound-read_if_ref)
  Sound-function_var f (function_ref i t) = Sound-nothing n st
  Sound-function_var f (object_ref b i t) = Sound-nothing n st
  Sound-function_var f other_ref = Sound-nothing n st

  Sound-global_var : (t : Ty) (b : Bool) (r : VarRef) → Sound n st (build_global_var t b r)
  unfolding build_global_var CodeFits OperandFits IndexFits
  Sound-global_var t b (decl_ref v) = search (sound_steps, Sound-read_if_ref)
  Sound-global_var t true (function_ref k r) = search (sound_steps)
  Sound-global_var t false (function_ref k r) = Sound-throw n st
  Sound-global_var t b (object_ref true k o) = search (sound_steps)
  Sound-global_var t b (object_ref false k o) = search (sound_steps)
  Sound-global_var t b other_ref = Sound-throw n st

  pub Sound-var_value :
      (f : FunctionData) (t : Ty) (k : VarKind) (r : VarRef) → Sound n st (build_var_value f t k r)
  unfolding build_var_value
  Sound-var_value f t global_var r = Sound-global_var t false r
  Sound-var_value f t global_const r = Sound-global_var t true r
  Sound-var_value f t other_var r = Sound-nothing n st
  Sound-var_value f t _ r = Sound-function_var f r

  Sound-save_function_var : (f : FunctionData) (v : Decl) → Sound n st (save_function_var f v)
  unfolding save_function_var CodeFits OperandFits IndexFits
  Sound-save_function_var f v = search (sound_steps, Sound-build_var)

  Sound-save_global_var : (t : Ty) (v : Decl) → Sound n st (save_global_var t v)
  unfolding save_global_var CodeFits OperandFits IndexFits
  Sound-save_global_var t v = search (sound_steps)

  Sound-save_var_of :
      (f : FunctionData) (t : Ty) (k : VarKind) (v : Decl) → Sound n st (save_var_of f t k v)
  unfolding save_var_of
  Sound-save_var_of f t global_var v = Sound-save_global_var t v
  Sound-save_var_of f t global_const v = Sound-save_global_var t v
  Sound-save_var_of f t other_var v = Sound-throw n st
  Sound-save_var_of f t _ v = Sound-save_function_var f v

  pub Sound-build_save_var :
      (f : FunctionData) (t : Ty) (k : VarKind) (r : VarRef) → Sound n st (build_save_var f t k r)
  unfolding build_save_var
  Sound-build_save_var f t k (decl_ref v) = search (sound_steps, Sound-save_var_of)
  Sound-build_save_var f t k (function_ref i r) = Sound-throw n st
  Sound-build_save_var f t k (object_ref b i o) = Sound-throw n st
  Sound-build_save_var f t k other_ref = Sound-throw n st

  pub Sound-save_left : (f : FunctionData) (v : Value) → Sound n st (save_left f v)
  Sound-save_left f (value t (var_value v)) = Sound-build_save_var f t v.var_kind v.var_ref
  Sound-save_left f (value t _) = Sound-throw n st
