-- ===== src/Flatten/Branches.antt =====
-- The statements outside the structured ones: what their translation does instead.
use mathlib.Core.Path.{subst}
use wasmnizer_ts.Base.{Option, [], arith, false, refl, some, true, ℕ, ◌+◌, ◌∷◌, ◌≡◌}
use wasmnizer_ts.Flatten.Statements.{
  Cases, Node, continue_node, default, if_node, present, return_node, switch_node, while_node,
}
use wasmnizer_ts.Flatten.Blocks.{Code, block, branch, branch_if, done, hint, ret, ◌++ᶜ◌}
use wasmnizer_ts.Flatten.{
  FlattenState, Stack, added, child, count_label, find_nearest_loop, flatten_cases,
  flatten_statement, make_block, make_unlabelled, new_block, one_block, orphan, pure, skip_loops,
  ◌>>=◌,
}
use wasmnizer_ts.Flatten.Semantics.{
  Machine, Run, end, escape, falls, jumped, leaves, next, outwards, passed, return, returned,
  returns, taken, through, unwind,
}
use wasmnizer_ts.Flatten.Structured.{>>=-eq-some}
use wasmnizer_ts.Flatten.Shape.{fst_of_some}

-- With an `else` part, a condition that fails leaves the whole `if`: the code reaches its end in
-- the state that the condition left, and no `else` part has run.
pub flatten_statement-if_else :
    (m : Machine) (x : ℕ) (n e : Node) (st : Stack) (fs : FlattenState) (s : m.State) {c : Code}
    {fs' : FlattenState}
    → flatten_statement (if_node x n (present e)) st fs ≡ some (c, fs')
    → (m.test x s).0 ≡ false
    → Run m c s next (m.test x s).1
unfolding flatten_statement make_block
flatten_statement-if_else m x n e st fs s {c} h p =
    let a = new_block (hint "if") (fs.label_index + 1) fs.block_count false false in
    let b = new_block (hint "if_true") (fs.label_index + 1 + 1) (fs.block_count + 1) false false in
    let d =
      new_block (hint "if_false") (fs.label_index + 1 + 1 + 1) (fs.block_count + 1 + 1) false
        false in
    let whole = λ (t' : Code) (e' : Code).
      one_block a (one_block d (block b (branch_if d.id x false (t' ++ᶜ branch a.id done)) e')) in
    let (t', u, done_t, k) =
      >>=-eq-some (flatten_statement n (orphan b ∷ added a st ∷ st))
        (λ t'. flatten_statement e (orphan d ∷ added a st ∷ st) >>= λ e'. pure (whole t' e'))
        (count_label (count_label (count_label fs))) h in
    let (e', u', done_e, k') =
      >>=-eq-some (flatten_statement e (orphan d ∷ added a st ∷ st)) (λ e'. pure (whole t' e')) u
        k in
    subst (λ c. Run m c s next (m.test x s).1) (fst_of_some refl k')
      (through (falls (through (leaves (escape (outwards (taken p) (omega arith))) refl refl) end))
        end)

-- A `while` loop whose body is `continue` ends after one test that holds.
pub flatten_statement-while_continue :
    (m : Machine) (x : ℕ) (st : Stack) (fs : FlattenState) (s : m.State) {c : Code}
    {fs' : FlattenState}
    → flatten_statement (while_node x (present continue_node)) st fs ≡ some (c, fs')
    → (m.test x s).0 ≡ true
    → Run m c s next (m.test x s).1
unfolding flatten_statement make_block make_unlabelled find_nearest_loop skip_loops
flatten_statement-while_continue m x [] fs s h p =
    subst (λ c. Run m c s next (m.test x s).1) (fst_of_some refl h)
      (through (leaves (escape (outwards (passed p jumped) (omega arith))) refl refl) end)
flatten_statement-while_continue m x (f ∷ st) fs s h p =
    subst (λ c. Run m c s next (m.test x s).1) (fst_of_some refl h)
      (through (leaves (escape (outwards (passed p jumped) (omega arith))) refl refl) end)

-- The default clause of a `switch` comes before the cases: where it returns, the whole statement
-- does, before any case is tested.
pub flatten_statement-switch_default :
    (m : Machine) (cs : Cases) (v : Option ℕ) (st : Stack) (fs : FlattenState) (s : m.State)
    {c : Code} {fs' : FlattenState}
    → flatten_statement (switch_node cs (default (present (return_node v)))) st fs ≡ some (c, fs')
    → Run m c s (returned v) s
unfolding flatten_statement make_block
flatten_statement-switch_default m cs v st fs s h =
    let a = new_block (hint "switch") (fs.label_index + 1) fs.block_count false true in
    let b =
      new_block (hint "switch_default") (fs.label_index + 1 + 1) (fs.block_count + 1) false false in
    let (c', u, done_c, k) =
      >>=-eq-some (flatten_cases 0 cs (child b (added a st) ∷ added a st ∷ st))
        (λ c'. pure (one_block a (one_block b (ret v c')))) (count_label (count_label fs)) h in
    subst (λ c. Run m c s (returned v) s) (fst_of_some refl k)
      (unwind (returns (unwind (returns return))))
