-- ===== src/IrFunction/Assignments.antt =====
-- About the code that `IRFunction.build` (src/semantics/ir/function.ts) makes of a list of
-- assignments.
use mathlib.Core.Path.{subst}
use wasmnizer_ts.IrFunction.{
  Build, Context, LocalVars, dec_temp, nothing, pop_block_vars, push_local_vars, ◌>>◌,
}
use wasmnizer_ts.IrCode.Instructions.{block_code}
use wasmnizer_ts.IrFunction.Slots.{Agrees, Agrees-updated, IsScope, lt_of_get_elem?}
use wasmnizer_ts.IrFunction.Parts.{
  build_binary_expr, close_block, emit_binary, is_equal_operator, open_block, save_left,
}
use wasmnizer_ts.IrFunction.Builder.{
  IrFunction, build_function, build_value, build_values, ir_function, new_context,
}
use wasmnizer_ts.IrCode.{IrCodeKind, IrCodes, Operator, Ty, binary_kind, no_codes, one}
use wasmnizer_ts.IrFunction.Tree.{BlockData, Decl, FunctionData, Value, Values, block_value, value}
use wasmnizer_ts.IrFunction.Machine.{
  Executes, ExecutesAll, IsPlain, Meaning, and_then, assign, assign_operated, done, local_value,
  of_local, run, step, updated,
}
use wasmnizer_ts.IrFunction.Runs.{Does, Does->>, Does-nothing, Ran, append_none}
use wasmnizer_ts.Base.{List, Option, [], false, none, refl, set, some, true, ℕ, ◌∷◌, ◌≡◌}
use wasmnizer_ts.IrFunction.Correct.{Does-compound, Does-operated, Does-save_left, Does-value}
use wasmnizer_ts.GlobalContext.{GlobalContext}
use wasmnizer_ts.DataPool.{DataPool}

-- The step takes the machine to locals that agree with the environment, and leaves the stack as it
-- was.
abbrev Reaches :
    {D : Type 0}
    → Meaning D
    → (ℕ → ℕ)
    → List LocalVars
    → Build
    → (s ls : List D) → (ℕ → Option D)
    → Type 0
Reaches {D = D} m name_of st b s ls env =
    (ls' : List D) × Does m st b s ls s ls' × Agrees name_of st env ls'

module _ {D : Type 0} (m : Meaning D) (name_of : ℕ → ℕ) (f : FunctionData) (st : List LocalVars)
    (h : IsScope name_of st) where
  -- A value saved in a variable.
  Reaches-save :
      (b : Build) (env : ℕ → Option D) (s ls : List D) (u : Ty) (v : Decl) (old d : D)
      → IsPlain name_of v
      → env v.decl_id ≡ some old
      → Agrees name_of st env ls
      → Does m st b s ls (d ∷ s) ls
      → Reaches m name_of st (b >> save_left f (local_value u v)) s ls (updated env v.decl_id d)
  Reaches-save b env s ls u v old d p e a x =
      let found = a v old p.is_named e in
      let fits = lt_of_get_elem? ls found.0 old found.2 in
      (
        set ls found.0 d,
        Does->> m st b (save_left f (local_value u v)) s ls (d ∷ s) ls s (set ls found.0 d) x
            (Does-save_left m name_of f st u v d found.0 s ls p found.1 fits),
        Agrees-updated name_of st h env ls v found.0 d p.is_named found.1 fits a,
      )

  Reaches-compound :
      (env : ℕ → Option D) (s ls : List D) (t u : Ty) (o : Operator) (k : IrCodeKind) (v : Decl)
      (l r : Build)
      → is_equal_operator o ≡ true
      → binary_kind o ≡ some k
      → Reaches m name_of st
          (l >> r >> emit_binary o t >> dec_temp 1 >> save_left f (local_value u v))
          s
          ls
          env
      → Reaches m name_of st (build_binary_expr f o t (local_value u v) l r) s ls env
  Reaches-compound env s ls t u o k v l r q g (ls', y, b) =
      (ls', Does-compound m name_of f st o k t u v l r s ls s ls' q g y, b)

  Reaches-assignment :
      (env : ℕ → Option D) (s ls : List D)
      → Agrees name_of st env ls
      → {v : Value} {after : ℕ → Option D} → Executes m name_of env v after
      → Reaches m name_of st (build_value f v) s ls after
  unfolding build_value build_binary_expr
  Reaches-assignment env s ls a (assign t u v r old d p e x) =
      Reaches-save (build_value f r) env s ls u v old d p e a
        (Does-value m name_of f st env ls a x s)
  Reaches-assignment env s ls a (assign_operated t u o k v r old d q g p e x) =
      let left = build_value f (local_value u v) in
      let right = build_value f r in
      Reaches-compound (updated env v.decl_id (m.apply k old d)) s ls t u o k v left right q g (
        Reaches-save (left >> right >> emit_binary o t >> dec_temp 1) env s ls u v old
          (m.apply k old d) p e a
          (Does-operated m name_of f st o t k left right old d s ls g
            (Does-value m name_of f st env ls a (of_local u v old p e) s)
            (Does-value m name_of f st env ls a x (old ∷ s))))

  Reaches->> :
      (b c : Build) (s ls l1 : List D) (env : ℕ → Option D)
      → Does m st b s ls s l1
      → Reaches m name_of st c s l1 env
      → Reaches m name_of st (b >> c) s ls env
  Reaches->> b c s ls l1 env x (l2, y, a) = (l2, Does->> m st b c s ls s l1 s l2 x y, a)

  Reaches-assignments :
      (env : ℕ → Option D) (s ls : List D)
      → Agrees name_of st env ls
      → {vs : Values} {after : ℕ → Option D} → ExecutesAll m name_of env vs after
      → Reaches m name_of st (build_values f vs) s ls after
  unfolding build_values
  Reaches-assignments env s ls a done = (ls, Does-nothing m st s ls, a)
  Reaches-assignments env s ls a (and_then {mid = mid} {final = final} {v = v} {vs = vs} x xs) =
      let one = Reaches-assignment env s ls a x in
      Reaches->> (build_value f v) (build_values f vs) s ls one.0 final one.1
        (Reaches-assignments mid s one.0 one.2 xs)

-- The block that `flattenFunction` makes of a function none of whose parameters and variables is
-- captured by reference: it has the variables of the function, and no reference list.
abbrev pub root_block : FunctionData → ℕ → BlockData
root_block f k = record { id = k; is_loop = false; var_list = f.function_vars; ref_list = none }

abbrev pub flattened : FunctionData → Ty → ℕ → Values → Value
flattened f t k vs = value t (block_value (root_block f k) vs)

-- The stack of variables in that block: `Context` has pushed those of the function already.
abbrev pub start_vars : FunctionData → List LocalVars
start_vars f = push_local_vars f.function_vars (push_local_vars f.function_vars [])

-- A function is made, and its code leaves the stack as it was and the locals agreeing with an
-- environment.
abbrev pub RunsTo :
    {D : Type 0}
    → Meaning D
    → (ℕ → ℕ)
    → List LocalVars
    → Option (IrFunction × Context)
    → (s ls : List D) → (ℕ → Option D)
    → Type 0
RunsTo {D = D} m name_of st o s ls env =
    (ir : IrFunction) × (c : Context) × (ls' : List D) × (o ≡ some (ir, c))
    × (run m ir.ir_codes s ls ≡ some (s, ls'))
    × Agrees name_of st env ls'

module _ {D : Type 0} (m : Meaning D) (name_of : ℕ → ℕ) (f : FunctionData) (t : Ty) (k : ℕ)
    (vs : Values) (s ls : List D) where
  run-block_code :
      (cs : IrCodes) (ls' : List D)
      → run m cs s ls ≡ some (s, ls')
      → run m (one (block_code k false t cs)) s ls ≡ some (s, ls')
  unfolding run step
  run-block_code cs ls' e = rw e refl

  RunsTo-closed :
      (o : Option (IrCodes × Context)) (env : ℕ → Option D) (ls' : List D)
      → Ran m (start_vars f) o s ls s ls'
      → Agrees name_of (start_vars f) env ls'
      → RunsTo m name_of
          (start_vars f)
          (elim (close_block (root_block f k) t o) [
            | none ↦ none
            | some (cs, c) ↦ some (ir_function f (flattened f t k vs) cs c, c)
          ])
          s
          ls
          env
  unfolding run
  RunsTo-closed o env ls' (cs, c, p, e, r) a =
      let inner =
        subst (λ (x : IrCodes). run m x s ls ≡ some (s, ls')) (append_none cs) (r no_codes) in
      let closed = record c {
        local_vars_stack = pop_block_vars f.function_vars c.local_vars_stack;
      } in
      rw p (
        ir_function f (flattened f t k vs) (one (block_code k false t cs)) closed,
        closed,
        ls',
        refl,
        run-block_code cs ls' inner,
        a,
      )

-- For a function none of whose parameters and variables is captured by reference, flattened to its
-- block with a list of assignments to its local variables, by `=` or another assignment operator
-- that the bytecode has, of expressions made of literals, local variables and binary operators: if
-- names and identities of variables go together, the locals of the machine hold the values of the
-- variables, and the assignments, by their own meaning, lead to an environment, then
-- `IRFunction.build` throws nothing, and its code takes the machine, with any stack, to locals
-- that hold the values of that environment and leaves the stack as it was; whatever the constants
-- and the operators mean.
pub build_function-ExecutesAll :
    {D : Type 0} (m : Meaning D) (name_of : ℕ → ℕ) (f : FunctionData) (t : Ty) (k : ℕ) (vs : Values)
    (g : GlobalContext) (p : DataPool) (env after : ℕ → Option D) (s ls : List D)
    → IsScope name_of (start_vars f)
    → Agrees name_of (start_vars f) env ls
    → ExecutesAll m name_of env vs after
    → RunsTo m name_of (start_vars f) (build_function f (flattened f t k vs) g p) s ls after
unfolding build_function build_value push_local_vars
build_function-ExecutesAll m name_of f t k vs g p env after s ls h a x =
    let st = start_vars f in
    let b = root_block f k in
    let all = Reaches-assignments m name_of f st h env s ls a x in
    let steps =
      Does->> m st nothing (build_values f vs) s ls s ls s all.0 (Does-nothing m st s ls) all.1 in
    RunsTo-closed m name_of f t k vs s ls
      ((nothing >> build_values f vs) (open_block b (new_context f g p))) after all.0
      (steps.does (open_block b (new_context f g p)) refl) all.2
