-- ===== src/Flatten/Shape.antt =====
-- The shape of the translation of a structured statement.
use mathlib.Core.Path.{subst}
use wasmnizer_ts.Base.{List, Option, arith, false, none, refl, some, sym, true, ◌+◌, ◌∷◌, ◌≡◌}
use wasmnizer_ts.Flatten.Statements.{
  Node, Nodes, OptNode, VarDecl, absent, basic_block, block_node, break_node, continue_node,
  do_while_node, for_in_node, for_node, for_of_node, if_node, no_nodes, other_node, present,
  return_node, switch_node, while_node, ◌∷ₙ◌,
}
use wasmnizer_ts.Flatten.Blocks.{Block, Code, branch, branch_if, done, hint, ◌++ᶜ◌}
use wasmnizer_ts.Flatten.{
  FlattenState, Stack, added, branch_unless, child, count_block, count_label, flatten_for_body,
  flatten_nodes, flatten_opt, flatten_statement, make_block, make_unlabelled, new_block, next_value,
  one_block, orphan, pure, with_vars, ◌>>=◌,
}
use wasmnizer_ts.Flatten.Structured.{
  >>=-eq-some, AreStructured, Compiled, CompiledAll, CompiledFor, CompiledOpt, IsStructured,
  IsStructuredOpt, basic, body_block, do_while, for, if_only, just, more, no_body, no_more, nothing,
  plain, return, scoped, while,
}

pub fst_of_some :
    {A B : Type 0} {a b : A} {u v : B} {r : Option (A × B)}
    → r ≡ some (a, u)
    → r ≡ some (b, v)
    → a ≡ b
fst_of_some e f = cc

with_vars-fields :
    (vs : Option (List VarDecl)) (b : Block)
    → ((with_vars vs b).id ≡ b.id) × ((with_vars vs b).is_loop ≡ b.is_loop)
unfolding with_vars
with_vars-fields none b = (refl, refl)
with_vars-fields (some vs) b = (refl, refl)

mutual
  unfolding flatten_statement make_block make_unlabelled

  compiled :
      (n : Node) (st : Stack) (s : FlattenState) {c : Code} {t : FlattenState}
      → IsStructured n
      → flatten_statement n st s ≡ some (c, t)
      → Compiled n c
  compiled (basic_block vs) st s h e = subst (Compiled (basic_block vs)) (fst_of_some refl e) basic
  compiled (return_node v) st s h e = subst (Compiled (return_node v)) (fst_of_some refl e) return
  compiled break_node st s h e = absurd h
  compiled continue_node st s h e = absurd h
  compiled (block_node none ns) st s h e = plain (compiled_all ns st s h e)
  compiled (block_node (some vs) ns) st s h e =
      let b = new_block (hint "block_node") (s.label_index + 1) s.block_count false false in
      let (body, u, run, k) =
        >>=-eq-some (flatten_nodes ns (added b st ∷ st))
          (λ body. pure (one_block (with_vars (some vs) b) body)) (count_label s) e in
      subst (Compiled (block_node (some vs) ns)) (fst_of_some refl k)
        (scoped (with_vars (some vs) b) (compiled_all ns _ _ h run))
  compiled (if_node c n absent) st s h e =
      let a = new_block (hint "if") (s.label_index + 1) s.block_count false false in
      let b = new_block (hint "if_true") (s.label_index + 1 + 1) (s.block_count + 1) false false in
      let (t', u, run, k) =
        >>=-eq-some (flatten_statement n (orphan b ∷ added a st ∷ st))
          (λ t'. pure (one_block a (one_block b (branch_if a.id c false t'))))
          (count_label (count_label s)) e in
      subst (Compiled (if_node c n absent)) (fst_of_some refl k)
        (if_only a b refl (omega arith) (compiled n _ _ h run))
  compiled (if_node c n (present x)) st s h e = absurd h
  compiled (while_node c n) st s h e =
      let a = new_block (hint "while") 0 s.block_count false true in
      let l = new_block (hint "while_loop") (s.label_index + 1) (s.block_count + 1) true false in
      let f = added a st in
      let (body, u, run, k) =
        >>=-eq-some (flatten_opt n (child l f ∷ f ∷ st))
          (λ body.
            pure (one_block a (one_block l (branch_if a.id c false (body ++ᶜ branch l.id done)))))
          (count_label (count_block s)) e in
      subst (Compiled (while_node c n)) (fst_of_some refl k)
        (while a l refl refl (omega arith) (compiled_opt n _ _ h run))
  compiled (do_while_node c n) st s h e =
      let a = new_block (hint "do_while") 0 s.block_count false true in
      let l = new_block (hint "do_while_loop") (s.label_index + 1) (s.block_count + 1) true false in
      let f = added a st in
      let (body, u, run, k) =
        >>=-eq-some (flatten_opt n (child l f ∷ f ∷ st))
          (λ body.
            pure (one_block a (one_block l (body ++ᶜ branch_if l.id c true (branch a.id done)))))
          (count_label (count_block s)) e in
      subst (Compiled (do_while_node c n)) (fst_of_some refl k)
        (do_while a l refl refl (omega arith) (compiled_opt n _ _ h run))
  compiled (for_node vs i c n v) st s h e =
      let a = new_block (hint "for") (s.label_index + 1) s.block_count false true in
      let l = new_block (hint "for_loop") (s.label_index + 1 + 1) (s.block_count + 1) true false in
      let f = added a st in
      let whole = λ (init : Code) (body : Code).
        one_block (with_vars vs a)
          (init ++ᶜ one_block l (branch_unless c a (body ++ᶜ next_value v (branch l.id done)))) in
      let (init, u, run, k) =
        >>=-eq-some (flatten_opt i (f ∷ st))
          (λ init. flatten_for_body n (child l f ∷ f ∷ st) >>= λ body. pure (whole init body))
          (count_label (count_label s)) e in
      let (body, u', run', k') =
        >>=-eq-some (flatten_for_body n (child l f ∷ f ∷ st)) (λ body. pure (whole init body)) u
          k in
      let (same_id, same_loop) = with_vars-fields vs a in
      subst (Compiled (for_node vs i c n v)) (fst_of_some refl k') (
        for a (with_vars vs a) l (sym same_id) same_loop refl (omega arith)
          (compiled_opt i _ _ h.0 run) (compiled_for n _ _ h.1 run'))
  compiled (switch_node cs d) st s h e = absurd h
  compiled for_in_node st s h e = absurd h
  compiled for_of_node st s h e = absurd h
  compiled other_node st s h e = absurd h

  compiled_all :
      (ns : Nodes) (st : Stack) (s : FlattenState) {c : Code} {t : FlattenState}
      → AreStructured ns
      → flatten_nodes ns st s ≡ some (c, t)
      → CompiledAll ns c
  compiled_all no_nodes st s h e = subst (CompiledAll no_nodes) (fst_of_some refl e) no_more
  compiled_all (n ∷ₙ ns) st s h e =
      let (c, u, run, k) =
        >>=-eq-some (flatten_statement n st) (λ c. flatten_nodes ns st >>= λ d. pure (c ++ᶜ d)) s
          e in
      let (d, u', run', k') = >>=-eq-some (flatten_nodes ns st) (λ d. pure (c ++ᶜ d)) u k in
      subst (CompiledAll (n ∷ₙ ns)) (fst_of_some refl k')
        (more (compiled n st s h.0 run) (compiled_all ns st u h.1 run'))

  compiled_opt :
      (n : OptNode) (st : Stack) (s : FlattenState) {c : Code} {t : FlattenState}
      → IsStructuredOpt n
      → flatten_opt n st s ≡ some (c, t)
      → CompiledOpt n c
  compiled_opt absent st s h e = subst (CompiledOpt absent) (fst_of_some refl e) nothing
  compiled_opt (present n) st s h e = just (compiled n st s h e)

  compiled_for :
      (n : OptNode) (st : Stack) (s : FlattenState) {c : Code} {t : FlattenState}
      → IsStructuredOpt n
      → flatten_for_body n st s ≡ some (c, t)
      → CompiledFor n c
  compiled_for absent st s h e = subst (CompiledFor absent) (fst_of_some refl e) no_body
  compiled_for (present n) st s h e =
      let b = new_block (hint "for_body") (s.label_index + 1) s.block_count false false in
      let (c, u, run, k) =
        >>=-eq-some (flatten_statement n (added b st ∷ st)) (λ c. pure (one_block b c))
          (count_label s) e in
      subst (CompiledFor (present n)) (fst_of_some refl k) (body_block b (compiled n _ _ h run))

pub flatten_statement-Compiled :
    (n : Node) (st : Stack) (s : FlattenState) {c : Code} {t : FlattenState}
    → IsStructured n
    → flatten_statement n st s ≡ some (c, t)
    → Compiled n c
flatten_statement-Compiled n st s h e = compiled n st s h e
