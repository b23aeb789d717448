-- ===== src/IrFunction/Machine.antt =====
-- What instructions do on a stack of values and the local variables, and what the expressions and
-- assignments they are made from mean, independent of the code.
use mathlib.Core.Option.{some-injective}
use wasmnizer_ts.IrFunction.Tree.{
  Decl, Value, Values, binary_expr, decl_ref, literal_value, local_storage, local_var, no_values,
  value, values, var_value,
}
use wasmnizer_ts.IrFunction.Parts.{is_equal_operator}
use wasmnizer_ts.IrCode.{
  IrCode, IrCodeKind, IrCodes, Operator, Ty, add_op, ampersand_ampersand, and_op, asterisk_equals,
  asterisk_token, bar_bar, binary_kind, code, codes, div_op, eq2_op, eq_op, equals_equals,
  equals_equals_equals, equals_token, exclamation_equals, exclamation_equals_equals, greater_than,
  greater_than_equals, gt_op, gte_op, ir_block, less_than, less_than_equals, literal, load_const_op,
  load_local_op, lt_op, lte_op, minus_equals, minus_token, mod_op, mult_op, neq2_op, neq_op,
  no_codes, no_operand, number, or_op, percent_equals, percent_token, plus_equals, plus_token,
  save_local_op, slash_equals, slash_token, sub_op,
}
use wasmnizer_ts.Base.{
  Bool, List, Option, [], ap, false, get_elem?, if◌then◌else◌, length, ltb, none, refl, set, some,
  sym, true, ℕ, ◌==◌, ◌∙◌, ◌∷◌, ◌≡◌,
}

-- The constants, and the operations of the instructions of two operands.
pub record Meaning (D : Type 0) : Type 0 where
  pub constant : ℕ → D
  pub apply : IrCodeKind → D → D → D

unfoldable pub takes_two : IrCodeKind → Bool
takes_two add_op = true
takes_two sub_op = true
takes_two mult_op = true
takes_two div_op = true
takes_two mod_op = true
takes_two lt_op = true
takes_two lte_op = true
takes_two gt_op = true
takes_two gte_op = true
takes_two eq_op = true
takes_two eq2_op = true
takes_two neq_op = true
takes_two neq2_op = true
takes_two and_op = true
takes_two or_op = true
takes_two _ = false

pub takes_two-binary_kind :
    (o : Operator) (k : IrCodeKind) → binary_kind o ≡ some k → takes_two k ≡ true
unfolding binary_kind takes_two
takes_two-binary_kind o k e = go o k e
  where
    is_that : (j k : IrCodeKind) → takes_two j ≡ true → some j ≡ some k → takes_two k ≡ true
    is_that j k h e = ap takes_two (sym (some-injective j k e)) ∙ h

    go : (o : Operator) (k : IrCodeKind) → binary_kind o ≡ some k → takes_two k ≡ true
    go plus_equals k e = is_that add_op k refl e
    go plus_token k e = is_that add_op k refl e
    go minus_equals k e = is_that sub_op k refl e
    go minus_token k e = is_that sub_op k refl e
    go asterisk_equals k e = is_that mult_op k refl e
    go asterisk_token k e = is_that mult_op k refl e
    go slash_equals k e = is_that div_op k refl e
    go slash_token k e = is_that div_op k refl e
    go percent_equals k e = is_that mod_op k refl e
    go percent_token k e = is_that mod_op k refl e
    go less_than k e = is_that lt_op k refl e
    go less_than_equals k e = is_that lte_op k refl e
    go greater_than k e = is_that gt_op k refl e
    go greater_than_equals k e = is_that gte_op k refl e
    go equals_equals k e = is_that eq_op k refl e
    go equals_equals_equals k e = is_that eq2_op k refl e
    go exclamation_equals k e = is_that neq_op k refl e
    go exclamation_equals_equals k e = is_that neq2_op k refl e
    go ampersand_ampersand k e = is_that and_op k refl e
    go bar_bar k e = is_that or_op k refl e
    go _ k e = absurd cc

abbrev pub Result : Type 0 → Type 0
Result D = Option (List D × List D)

module _ {D : Type 0} (m : Meaning D) where
  unfoldable pub operate : IrCodeKind → List D → List D → Result D
  operate k (r ∷ l ∷ s) ls = if takes_two k then some (m.apply k l r ∷ s, ls) else none
  operate k s ls = none

  abbrev pub pushed : Option D → List D → List D → Result D
  pushed none s ls = none
  pushed (some d) s ls = some (d ∷ s, ls)

  unfoldable pub save : ℕ → List D → List D → Result D
  save i [] ls = none
  save i (d ∷ s) ls = if ltb i (length ls) then some (s, set ls i d) else none

  -- The instructions of constants, local variables, operators and blocks; the others stop the
  -- machine.
  unfoldable mutual
    pub run : IrCodes → List D → List D → Result D
    run no_codes s ls = some (s, ls)
    run (codes c cs) s ls = elim (step c s ls) [ none ↦ none | some (s, ls) ↦ run cs s ls ]

    pub step : IrCode → List D → List D → Result D
    step (code k v t (ir_block n b cs)) s ls = run cs s ls
    step (code load_const_op v t (literal n)) s ls = some (m.constant n ∷ s, ls)
    step (code load_local_op v t (number i)) s ls = pushed (get_elem? ls i) s ls
    step (code save_local_op v t (number i)) s ls = save i s ls
    step (code k v t no_operand) s ls = operate k s ls
    step (code k v t o) s ls = none

-- An environment gives the values of variables by their identities.
abbrev pub updated : {D : Type 0} → (ℕ → Option D) → ℕ → D → ℕ → Option D
updated env x d y = if x == y then some d else env y

-- A local variable that is no reference, whose name goes with its identity.
pub record IsPlain (name_of : ℕ → ℕ) (v : Decl) : Type 0 where
  pub is_local : v.storage ≡ local_storage
  pub no_ref : v.is_ref ≡ false
  pub is_named : v.decl_name ≡ name_of v.decl_id

abbrev pub local_value : Ty → Decl → Value
local_value t v = value t (var_value (record { var_kind = local_var; var_ref = decl_ref v }))

module _ {D : Type 0} (m : Meaning D) (name_of : ℕ → ℕ) where
  -- The value of an expression.
  pub data Evaluates (env : ℕ → Option D) : Value → D → Type 0 where
    of_literal : (t : Ty) (n : ℕ) → Evaluates env (value t (literal_value n)) (m.constant n)
    of_local :
        (t : Ty) (v : Decl) (d : D)
        → IsPlain name_of v
        → env v.decl_id ≡ some d
        → Evaluates env (local_value t v) d
    of_binary :
        (t : Ty) (o : Operator) (k : IrCodeKind) (l r : Value) (a b : D)
        → is_equal_operator o ≡ false
        → binary_kind o ≡ some k
        → Evaluates env l a
        → Evaluates env r b
        → Evaluates env (value t (binary_expr o l r)) (m.apply k a b)

  -- An assignment to a variable that has a value.
  pub data Executes (env : ℕ → Option D) : Value → (ℕ → Option D) → Type 0 where
    assign :
        (t u : Ty) (v : Decl) (r : Value) (old d : D)
        → IsPlain name_of v
        → env v.decl_id ≡ some old
        → Evaluates env r d
        → Executes env
            (value t (binary_expr equals_token (local_value u v) r))
            (updated env v.decl_id d)
    assign_operated :
        (t u : Ty) (o : Operator) (k : IrCodeKind) (v : Decl) (r : Value) (old d : D)
        → is_equal_operator o ≡ true
        → binary_kind o ≡ some k
        → IsPlain name_of v
        → env v.decl_id ≡ some old
        → Evaluates env r d
        → Executes env
            (value t (binary_expr o (local_value u v) r))
            (updated env v.decl_id (m.apply k old d))

  pub data ExecutesAll : (ℕ → Option D) → Values → (ℕ → Option D) → Type 0 where
    done : {env : ℕ → Option D} → ExecutesAll env no_values env
    and_then :
        {env mid final : ℕ → Option D} {v : Value} {vs : Values}
        → Executes env v mid
        → ExecutesAll mid vs final
        → ExecutesAll env (values v vs) final
