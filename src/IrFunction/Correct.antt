-- ===== src/IrFunction/Correct.antt =====
-- About the code of expressions and of saves in local variables (`buildBinaryExprValue`,
-- `buildSaveVar` of src/semantics/ir/function.ts).
use wasmnizer_ts.IrFunction.{
  Build, LocalVars, build_function_var, build_local, build_save_var, build_var, build_var_of,
  build_var_value, dec_temp, emit, get_local_var_index, inc_temp, load_or_save, nothing,
  read_if_ref, save_function_var, save_var_of, throw, ◌>>◌,
}
use wasmnizer_ts.IrFunction.Slots.{Agrees}
use wasmnizer_ts.IrFunction.Parts.{
  build_binary_expr, emit_binary, is_equal_operator, is_var, save_left,
}
use wasmnizer_ts.IrFunction.Builder.{build_value}
use wasmnizer_ts.IrCode.{
  IrCodeKind, Operator, Ty, binary_code, binary_kind, equals_token, new_binary_op,
}
use wasmnizer_ts.IrFunction.Tree.{Decl, FunctionData, Storage, Value, local_storage}
use wasmnizer_ts.IrFunction.Machine.{
  Evaluates, IsPlain, Meaning, local_value, of_binary, of_literal, of_local, operate, save, step,
  takes_two-binary_kind,
}
use wasmnizer_ts.IrFunction.Runs.{
  Does, Does->>, Does-dec_temp, Does-emit, Does-inc_temp, Does-nothing,
}
use wasmnizer_ts.IrCode.Instructions.{
  load_const_code, load_local_code, read_ref_code, save_local_code, write_ref_code,
}
use wasmnizer_ts.Base.{
  Bool, List, Option, false, get_elem?, if◌then◌else◌, length, lt→ltb, refl, set, some, true, ℕ,
  ◌<◌, ◌∷◌, ◌≡◌,
}

module _ {D : Type 0} (m : Meaning D) (name_of : ℕ → ℕ) (f : FunctionData)
    (st : List LocalVars) where
  Does-at :
      (v : Decl) (load : Bool) (i : ℕ) (s ls s' ls' : List D)
      → get_local_var_index v st ≡ some i
      → Does m st
          (load_or_save load (load_local_code i v.decl_type) (save_local_code i v.decl_type))
          s
          ls
          s'
          ls'
      → Does m st (build_local f v load) s ls s' ls'
  unfolding build_local
  Does-at v load i s ls s' ls' p x = record { does = λ c e. rw (build_local, e, p) (x.does c e) }

  Does-stored :
      (k : Storage) (v : Decl) (load : Bool) (s ls s' ls' : List D)
      → k ≡ local_storage
      → Does m st (build_local f v load) s ls s' ls'
      → Does m st (build_var_of k f v load) s ls s' ls'
  unfolding build_var_of
  Does-stored k v load s ls s' ls' h x = rw h x

  Does-load :
      (v : Decl) (d : D) (i : ℕ) (s ls : List D)
      → v.storage ≡ local_storage
      → get_local_var_index v st ≡ some i
      → get_elem? ls i ≡ some d
      → Does m st (build_var f v true) s ls (d ∷ s) ls
  unfolding step
  Does-load v d i s ls h p g = Does-stored v.storage v true s ls (d ∷ s) ls h (
      Does-at v true i s ls (d ∷ s) ls p
        (Does-emit m st (load_local_code i v.decl_type) s ls (d ∷ s) ls (rw g refl)))

  Does-save :
      (v : Decl) (d : D) (i : ℕ) (s ls : List D)
      → v.storage ≡ local_storage
      → get_local_var_index v st ≡ some i
      → i < length ls
      → Does m st (build_var f v false) (d ∷ s) ls s (set ls i d)
  unfolding step save
  Does-save v d i s ls h p g = Does-stored v.storage v false (d ∷ s) ls s (set ls i d) h (
      Does-at v false i (d ∷ s) ls s (set ls i d) p (
        Does-emit m st (save_local_code i v.decl_type) (d ∷ s) ls s (set ls i d)
          (rw (lt→ltb i (length ls) g) refl)))

  Does-if_false :
      (b : Bool) (x y : Build) (s ls s' ls' : List D)
      → b ≡ false
      → Does m st y s ls s' ls'
      → Does m st (if b then x else y) s ls s' ls'
  Does-if_false b x y s ls s' ls' e d = rw e d

  Does-if_true :
      (b : Bool) (x y : Build) (s ls s' ls' : List D)
      → b ≡ true
      → Does m st x s ls s' ls'
      → Does m st (if b then x else y) s ls s' ls'
  Does-if_true b x y s ls s' ls' e d = rw e d

  Does-local :
      (t : Ty) (v : Decl) (d : D) (i : ℕ) (s ls : List D)
      → IsPlain name_of v
      → get_local_var_index v st ≡ some i
      → get_elem? ls i ≡ some d
      → Does m st (build_value f (local_value t v)) s ls (d ∷ s) ls
  unfolding build_value build_var_value build_function_var
  Does-local t v d i s ls h p g =
      Does->> m st (build_var f v true >> read_if_ref v) (inc_temp 1) s ls (d ∷ s) ls (d ∷ s) ls
        (Does->> m st (build_var f v true) (read_if_ref v) s ls (d ∷ s) ls (d ∷ s) ls
          (Does-load v d i s ls h.is_local p g)
          (Does-if_false v.is_ref (emit (read_ref_code v.decl_type)) nothing (d ∷ s) ls (d ∷ s) ls
            h.no_ref (Does-nothing m st (d ∷ s) ls)))
        (Does-inc_temp m st 1 (d ∷ s) ls)

  Does-binary :
      (o : Operator) (t : Ty) (k : IrCodeKind) (a b : D) (s ls : List D)
      → binary_kind o ≡ some k
      → Does m st (emit_binary o t) (b ∷ a ∷ s) ls (m.apply k a b ∷ s) ls
  unfolding new_binary_op step operate
  Does-binary o t k a b s ls e =
      rw (new_binary_op, e)
        (Does-emit m st (binary_code t k) (b ∷ a ∷ s) ls (m.apply k a b ∷ s) ls
          (rw (takes_two-binary_kind o k e) refl))

  -- Both sides and the operator.
  pub Does-operated :
      (o : Operator) (t : Ty) (k : IrCodeKind) (l r : Build) (a b : D) (s ls : List D)
      → binary_kind o ≡ some k
      → Does m st l s ls (a ∷ s) ls
      → Does m st r (a ∷ s) ls (b ∷ a ∷ s) ls
      → Does m st (l >> r >> emit_binary o t >> dec_temp 1) s ls (m.apply k a b ∷ s) ls
  Does-operated o t k l r a b s ls e x y =
      let after = m.apply k a b ∷ s in
      Does->> m st (l >> r >> emit_binary o t) (dec_temp 1) s ls after ls after ls
        (Does->> m st (l >> r) (emit_binary o t) s ls (b ∷ a ∷ s) ls after ls
          (Does->> m st l r s ls (a ∷ s) ls (b ∷ a ∷ s) ls x y) (Does-binary o t k a b s ls e))
        (Does-dec_temp m st 1 after ls)

  pub Does-save_left :
      (t : Ty) (v : Decl) (d : D) (i : ℕ) (s ls : List D)
      → IsPlain name_of v
      → get_local_var_index v st ≡ some i
      → i < length ls
      → Does m st (save_left f (local_value t v)) (d ∷ s) ls s (set ls i d)
  unfolding build_save_var save_var_of save_function_var
  Does-save_left t v d i s ls h p g =
      Does->> m st (save_function_var f v) (dec_temp 1) (d ∷ s) ls s (set ls i d) s (set ls i d)
        (Does-if_false v.is_ref (build_var f v true >> emit (write_ref_code v.decl_type))
          (build_var f v false) (d ∷ s) ls s (set ls i d) h.no_ref
          (Does-save v d i s ls h.is_local p g))
        (Does-dec_temp m st 1 s (set ls i d))

  Does-plain_binary :
      (o : Operator) (t : Ty) (v : Value) (l r : Build) (s ls s' ls' : List D)
      → is_equal_operator o ≡ false
      → Does m st (l >> r >> emit_binary o t >> dec_temp 1) s ls s' ls'
      → Does m st (build_binary_expr f o t v l r) s ls s' ls'
  unfolding build_binary_expr is_equal_operator
  Does-plain_binary equals_token t v l r s ls s' ls' e x = absurd cc
  Does-plain_binary o t v l r s ls s' ls' e x =
      Does-if_false (is_equal_operator o)
        (if is_var v then l >> r >> emit_binary o t >> dec_temp 1 >> save_left f v else throw)
        (l >> r >> emit_binary o t >> dec_temp 1) s ls s' ls' e x

  pub Does-compound :
      (o : Operator) (k : IrCodeKind) (t u : Ty) (v : Decl) (l r : Build) (s ls s' ls' : List D)
      → is_equal_operator o ≡ true
      → binary_kind o ≡ some k
      → Does m st
          (l >> r >> emit_binary o t >> dec_temp 1 >> save_left f (local_value u v))
          s
          ls
          s'
          ls'
      → Does m st (build_binary_expr f o t (local_value u v) l r) s ls s' ls'
  unfolding build_binary_expr is_equal_operator binary_kind
  Does-compound equals_token k t u v l r s ls s' ls' e g x = absurd cc
  Does-compound o k t u v l r s ls s' ls' e g x =
      Does-if_true (is_equal_operator o)
        (l >> r >> emit_binary o t >> dec_temp 1 >> save_left f (local_value u v))
        (l >> r >> emit_binary o t >> dec_temp 1) s ls s' ls' e x

  -- The code of an expression pushes its value.
  pub Does-value :
      (env : ℕ → Option D) (ls : List D)
      → Agrees name_of st env ls
      → {v : Value} {d : D} → Evaluates m name_of env v d
      → (s : List D) → Does m st (build_value f v) s ls (d ∷ s) ls
  unfolding build_value step
  Does-value env ls a (of_literal t n) s =
      Does->> m st (emit (load_const_code n t)) (inc_temp 1) s ls (m.constant n ∷ s) ls
        (m.constant n ∷ s) ls (Does-emit m st (load_const_code n t) s ls (m.constant n ∷ s) ls refl)
        (Does-inc_temp m st 1 (m.constant n ∷ s) ls)
  Does-value env ls a (of_local t v d h e) s =
      let found = a v d h.is_named e in Does-local t v d found.0 s ls h found.1 found.2
  Does-value env ls a (of_binary t o k l r x y e g p q) s =
      Does-plain_binary o t l (build_value f l) (build_value f r) s ls (m.apply k x y ∷ s) ls e (
        Does-operated o t k (build_value f l) (build_value f r) x y s ls g (Does-value env ls a p s)
          (Does-value env ls a q (x ∷ s)))
