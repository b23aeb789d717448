-- ===== src/IrFunction/Building.antt =====
-- About exceptions of `IRFunction.buildValue` (src/semantics/ir/function.ts): the steps of
-- variables and blocks.
use wasmnizer_ts.IrFunction.{
  Build, Context, LocalVars, block_refs, build_block_ref_list, build_function_var, build_var,
  build_var_value, emit, pop_block_vars, push_local_vars, ◌>>◌,
}
use wasmnizer_ts.IrFunction.Tree.{
  BlockData, Decl, FunctionData, Value, VarKind, VarRef, decl_ref, function_ref, global_const,
  global_var, object_ref, other_ref, other_var, value, var_value,
}
use wasmnizer_ts.IrFunction.Parts.{close_block, in_block, is_equal_operator, is_known, open_block}
use wasmnizer_ts.IrFunction.Locals.{pop_block_vars-push_local_vars}
use wasmnizer_ts.IrFunction.Returns.{
  HasCode, Knows, Returned, Returns, Returns->>, Returns-branch, Returns-build_var,
  Returns-compound, Returns-dec_temp, Returns-dec_temp_but_one, Returns-emit, Returns-emit_binary,
  Returns-inc_temp, Returns-nothing, Returns-read_if_ref, is_found,
}
use wasmnizer_ts.IrCode.{IrCodes, Operator, Ty, equals_token, one}
use wasmnizer_ts.IrCode.Instructions.{block_code, new_ref_code}
use wasmnizer_ts.Base.{
  Bool, Bool-cases, List, Option, [], ap, false, inl, inr, none, refl, some, sym, true, ℕ, ◌==◌,
  ◌||◌, ◌∙◌, ◌∷◌, ◌≡◌, ◌⊎◌,
}

pub ruleset return_rules = (
  Returns-nothing, Returns-inc_temp, Returns-dec_temp, Returns-dec_temp_but_one, Returns->>,
  Returns-emit, Returns-emit_binary, Returns-compound, Returns-branch, Returns-read_if_ref,
  Returns-build_var,
)

abbrev pub is_function_kind : VarKind → Bool
is_function_kind global_var = false
is_function_kind global_const = false
is_function_kind other_var = false
is_function_kind _ = true

-- A variable of the function that is found; globals are left out.
unfoldable pub CanSaveRef : FunctionData → List LocalVars → VarKind → VarRef → Type 0
CanSaveRef f st k (decl_ref v) = (is_function_kind k ≡ true) × (is_found f st v ≡ true)
CanSaveRef f st k r = ⊥

unfoldable pub CanSave : FunctionData → List LocalVars → Value → Type 0
CanSave f st (value t (var_value v)) = CanSaveRef f st v.var_kind v.var_ref
CanSave f st (value t _) = ⊥

unfoldable pub CanLoad : FunctionData → List LocalVars → VarKind → VarRef → Type 0
CanLoad f st k (decl_ref v) = (is_function_kind k ≡ true) × (is_found f st v ≡ true)
CanLoad f st k r = is_function_kind k ≡ true

-- `=` needs a variable to save in, another assignment an instruction too, and the rest the
-- instruction only.
abbrev pub CanOperate : FunctionData → List LocalVars → Operator → Value → Type 0
CanOperate f st o v =
    ((o ≡ equals_token) × CanSave f st v)
    ⊎ (HasCode o × CanSave f st v)
    ⊎ (HasCode o × (is_equal_operator o ≡ false))

unfoldable pub AreFoundAll : FunctionData → List LocalVars → List Decl → Type 0
AreFoundAll f st [] = Unit {0}
AreFoundAll f st (v ∷ vs) = (is_found f st v ≡ true) × AreFoundAll f st vs

abbrev pub AreFound : FunctionData → List LocalVars → Option (List Decl) → Type 0
AreFound f st none = Unit {0}
AreFound f st (some vs) = AreFoundAll f st vs

module _ (st : List LocalVars) (ks : List ℕ) where
  Returns-ref_list :
      (f : FunctionData) (vs : List Decl)
      → AreFoundAll f st vs
      → Returns st ks (build_block_ref_list f vs)
  unfolding build_block_ref_list AreFoundAll
  Returns-ref_list f [] h = Returns-nothing st ks
  Returns-ref_list f (v ∷ vs) (a, h) =
      Returns->> st ks (emit (new_ref_code v.decl_type) >> build_var f v false)
        (build_block_ref_list f vs) (search (return_rules, a)) (Returns-ref_list f vs h)

  pub Returns-block_refs :
      (f : FunctionData) (vs : Option (List Decl))
      → AreFound f st vs
      → Returns st ks (block_refs f vs)
  Returns-block_refs f none h = Returns-nothing st ks
  Returns-block_refs f (some vs) h = Returns-ref_list f vs h

  Knows-more : (k : ℕ) (js : List ℕ) → Knows ks js → Knows (k ∷ ks) (k ∷ js)
  unfolding is_known
  Knows-more k js h j e = elim (Bool-cases (k == j)) [
    | inl t ↦ rw t refl
    | inr t ↦ rw t (h j (sym (or_false (k == j) (is_known j ks) t) ∙ e))
  ]
    where
      or_false : (a b : Bool) → a ≡ false → a || b ≡ b
      or_false true b e = absurd cc
      or_false false b e = refl

  Knows-fewer : (k : ℕ) (js : List ℕ) → Knows (k ∷ ks) js → Knows ks js
  unfolding is_known
  Knows-fewer k js h j e = h j (or_true (k == j) (is_known j ks) e)
    where
      or_true : (a b : Bool) → b ≡ true → a || b ≡ true
      or_true true b e = refl
      or_true false b e = e

  Returned-close_block :
      (b : BlockData) (t : Ty) (o : Option (IrCodes × Context))
      → Returned (push_local_vars b.var_list st) (b.id ∷ ks) o
      → Returned st ks (close_block b t o)
  Returned-close_block b t o (cs, c, p, e, h) = (
    one (block_code b.id b.is_loop t cs),
    record c { local_vars_stack = pop_block_vars b.var_list c.local_vars_stack },
    rw p refl,
    ap (pop_block_vars b.var_list) e ∙ pop_block_vars-push_local_vars b.var_list st,
    Knows-fewer b.id c.known_blocks h,
  )

  pub Returns-in_block :
      (b : BlockData) (t : Ty) (m : Build)
      → Returns (push_local_vars b.var_list st) (b.id ∷ ks) m
      → Returns st ks (in_block b t m)
  Returns-in_block b t m s = record {
    returned = λ c e h. Returned-close_block b t (m (open_block b c)) (
        s.returned (open_block b c) (ap (push_local_vars b.var_list) e)
          (Knows-more b.id c.known_blocks h));
  }

  Returns-function_var :
      (f : FunctionData) (k : VarKind) (r : VarRef)
      → CanLoad f st k r
      → Returns st ks (build_function_var f r)
  unfolding build_function_var CanLoad
  Returns-function_var f k (decl_ref v) (p, a) = search (return_rules, a)
  Returns-function_var f k (function_ref i t) h = Returns-nothing st ks
  Returns-function_var f k (object_ref b i t) h = Returns-nothing st ks
  Returns-function_var f k other_ref h = Returns-nothing st ks

  pub Returns-var_value :
      (f : FunctionData) (t : Ty) (k : VarKind) (r : VarRef)
      → CanLoad f st k r
      → Returns st ks (build_var_value f t k r)
  unfolding build_var_value CanLoad
  Returns-var_value f t k r h = go k r (kind_of k r h) h
    where
      kind_of : (k : VarKind) (r : VarRef) → CanLoad f st k r → is_function_kind k ≡ true
      kind_of k (decl_ref v) (p, a) = p
      kind_of k (function_ref i u) h = h
      kind_of k (object_ref b i u) h = h
      kind_of k other_ref h = h

      go :
          (k : VarKind) (r : VarRef)
          → is_function_kind k ≡ true
          → CanLoad f st k r
          → Returns st ks (build_var_value f t k r)
      go global_var r e h = absurd cc
      go global_const r e h = absurd cc
      go other_var r e h = absurd cc
      go k r e h = Returns-function_var f k r h
