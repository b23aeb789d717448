-- ===== src/IrFunction/Operating.antt =====
-- About exceptions of `buildSaveVar` and `buildBinaryExprValue` (src/semantics/ir/function.ts).
use wasmnizer_ts.IrFunction.{
  Build, LocalVars, build_save_var, build_var, dec_temp, emit, save_function_var, save_var_of,
  throw, ◌>>◌,
}
use wasmnizer_ts.IrFunction.Tree.{
  Decl, FunctionData, Value, VarKind, VarRef, decl_ref, function_ref, global_const, global_var,
  object_ref, other_ref, other_var, value, var_value,
}
use wasmnizer_ts.IrFunction.Parts.{
  build_binary_expr, emit_binary, is_equal_operator, is_var, save_left,
}
use wasmnizer_ts.IrFunction.Returns.{
  HasCode, Returns, Returns->>, Returns-dec_temp, Returns-emit_binary, is_found,
}
use wasmnizer_ts.IrCode.{Operator, Ty, equals_token}
use wasmnizer_ts.IrCode.Instructions.{write_ref_code}
use wasmnizer_ts.Base.{Bool, List, false, if◌then◌else◌, inl, inr, refl, true, ℕ, ◌≡◌}
use wasmnizer_ts.IrFunction.Building.{
  CanOperate, CanSave, CanSaveRef, is_function_kind, return_rules,
}

module _ (st : List LocalVars) (ks : List ℕ) where
  Returns-save_function_var :
      (f : FunctionData) (v : Decl) → is_found f st v ≡ true → Returns st ks (save_function_var f v)
  unfolding save_function_var
  Returns-save_function_var f v h = go v.is_ref
    where
      go :
          (b : Bool)
          → Returns st ks (
              if b
              then build_var f v true >> emit (write_ref_code v.decl_type)
              else build_var f v false)
      go true = search (return_rules, h)
      go false = search (return_rules, h)

  Returns-save_var :
      (f : FunctionData) (t : Ty) (k : VarKind) (v : Decl)
      → is_function_kind k ≡ true
      → is_found f st v ≡ true
      → Returns st ks (save_var_of f t k v)
  unfolding save_var_of
  Returns-save_var f t global_var v e h = absurd cc
  Returns-save_var f t global_const v e h = absurd cc
  Returns-save_var f t other_var v e h = absurd cc
  Returns-save_var f t k v e h = Returns-save_function_var f v h

  Returns-save_ref :
      (f : FunctionData) (t : Ty) (k : VarKind) (r : VarRef)
      → CanSaveRef f st k r
      → Returns st ks (build_save_var f t k r)
  unfolding build_save_var CanSaveRef
  Returns-save_ref f t k (decl_ref v) (e, h) =
      Returns->> st ks (save_var_of f t k v) (dec_temp 1) (Returns-save_var f t k v e h)
        (Returns-dec_temp st ks 1)
  Returns-save_ref f t k (function_ref i u) h = elim h [ ]
  Returns-save_ref f t k (object_ref b i u) h = elim h [ ]
  Returns-save_ref f t k other_ref h = elim h [ ]

  Returns-save_left :
      (f : FunctionData) (v : Value) → CanSave f st v → Returns st ks (save_left f v)
  unfolding CanSave
  Returns-save_left f (value t (var_value v)) h = Returns-save_ref f t v.var_kind v.var_ref h
  Returns-save_left f (value t _) h = elim h [ ]

  is_var-CanSave : (f : FunctionData) (v : Value) → CanSave f st v → is_var v ≡ true
  unfolding CanSave
  is_var-CanSave f (value t (var_value v)) h = refl
  is_var-CanSave f (value t _) h = elim h [ ]

  Returns-if :
      (b : Bool) (x y : Build)
      → Returns st ks x
      → Returns st ks y
      → Returns st ks (if b then x else y)
  Returns-if true x y r s = r
  Returns-if false x y r s = s

  Returns-if_var :
      (b : Bool) (x : Build) → b ≡ true → Returns st ks x → Returns st ks (if b then x else throw)
  Returns-if_var b x e r = rw e r

  Returns-if_plain :
      (b : Bool) (x y : Build) → b ≡ false → Returns st ks y → Returns st ks (if b then x else y)
  Returns-if_plain b x y e r = rw e r

  Returns-operated :
      (l r : Build) (o : Operator) (t : Ty)
      → HasCode o
      → Returns st ks l
      → Returns st ks r
      → Returns st ks (l >> r >> emit_binary o t >> dec_temp 1)
  Returns-operated l r o t c a b =
      Returns->> st ks (l >> r >> emit_binary o t) (dec_temp 1)
        (Returns->> st ks (l >> r) (emit_binary o t) (Returns->> st ks l r a b)
          (Returns-emit_binary st ks o t c))
        (Returns-dec_temp st ks 1)

  pub Returns-binary :
      (f : FunctionData) (o : Operator) (t : Ty) (v : Value) (l r : Build)
      → CanOperate f st o v
      → Returns st ks l
      → Returns st ks r
      → Returns st ks (build_binary_expr f o t v l r)
  unfolding build_binary_expr is_equal_operator
  Returns-binary f equals_token t v l r (inl (e, h)) a b =
      Returns->> st ks r (save_left f v) b (Returns-save_left f v h)
  Returns-binary f equals_token t v l r (inr (inl (c, h))) a b =
      Returns->> st ks r (save_left f v) b (Returns-save_left f v h)
  Returns-binary f equals_token t v l r (inr (inr (c, e))) a b = absurd cc
  Returns-binary f o t v l r (inl (e, h)) a b = absurd cc
  Returns-binary f o t v l r (inr (inl (c, h))) a b =
      let plain = Returns-operated l r o t c a b in
      Returns-if (is_equal_operator o)
        (if is_var v then l >> r >> emit_binary o t >> dec_temp 1 >> save_left f v else throw)
        (l >> r >> emit_binary o t >> dec_temp 1)
        (Returns-if_var (is_var v) (l >> r >> emit_binary o t >> dec_temp 1 >> save_left f v)
          (is_var-CanSave f v h)
          (Returns->> st ks (l >> r >> emit_binary o t >> dec_temp 1) (save_left f v) plain
            (Returns-save_left f v h)))
        plain
  Returns-binary f o t v l r (inr (inr (c, e))) a b =
      Returns-if_plain (is_equal_operator o)
        (if is_var v then l >> r >> emit_binary o t >> dec_temp 1 >> save_left f v else throw)
        (l >> r >> emit_binary o t >> dec_temp 1) e (Returns-operated l r o t c a b)
