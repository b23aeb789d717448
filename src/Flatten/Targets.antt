-- ===== src/Flatten/Targets.antt =====
-- Where `break` and `continue` branch to, and when the translation throws.
use wasmnizer_ts.Base.{Option, [], ap, arith, false, none, refl, some, true, ◌+◌, ◌∙◌, ◌∷◌, ◌≡◌}
use wasmnizer_ts.Flatten.Statements.{
  Node, Nodes, OptNode, absent, basic_block, block_node, break_node, continue_node, do_while_node,
  for_in_node, for_node, for_of_node, if_node, no_nodes, other_node, present, return_node,
  switch_node, while_node, ◌∷ₙ◌,
}
use wasmnizer_ts.Flatten.Blocks.{Block, Code, branch, branch_if, done, hint, ret, ◌++ᶜ◌}
use wasmnizer_ts.Flatten.{
  Flat, FlattenState, Frame, Stack, added, branch_unless, child, count_block, count_label,
  find_nearest_loop, flatten_for_body, flatten_nodes, flatten_opt, flatten_statement, make_block,
  make_unlabelled, new_block, next_value, one_block, orphan, pure, skip_loops, values, with_vars,
  ◌>>=◌,
}
use wasmnizer_ts.Flatten.Structured.{AreStructured, IsStructured, IsStructuredOpt}

skip_loops-not_loop : (f : Frame) {b : Block} → skip_loops f ≡ some b → b.is_loop ≡ false
unfolding skip_loops
skip_loops-not_loop (orphan b) e = ground arith
skip_loops-not_loop (child d p) {b} e = ground (arith, skip_loops-not_loop p {b = b})

-- The block that `findNearestLoop` finds, the target of every `break` and `continue`, is never a
-- loop.
pub find_nearest_loop-not_loop :
    (st : Stack) {b : Block} → find_nearest_loop st ≡ some b → b.is_loop ≡ false
unfolding find_nearest_loop
find_nearest_loop-not_loop [] e = cc
find_nearest_loop-not_loop (f ∷ st) e = skip_loops-not_loop f e

abbrev Succeeds : {A : Type 0} → Flat A → FlattenState → Type 0
Succeeds {A} m s = (a : A) × (u : FlattenState) × (m s ≡ some (a, u))

abbrev continue_with :
    {A B : Type 0} → (A → Flat B) → Option (A × FlattenState) → Option (B × FlattenState)
continue_with f r = elim r [ none ↦ none | some (a, u) ↦ f a u ]

-- A step that succeeds, and what follows it.
then :
    {A B : Type 0} (m : Flat A) (f : A → Flat B) (s : FlattenState)
    → Succeeds m s
    → ((a : A) (u : FlattenState) → Succeeds (f a) u)
    → Succeeds (m >>= f) s
then m f s (a, u, e) k = let (b, v, e') = k a u in (b, v, ap (continue_with f) e ∙ e')

-- A step that succeeds, and the code made of its result.
emit :
    (m : Flat Code) (f : Code → Code) (s : FlattenState)
    → Succeeds m s
    → Succeeds (m >>= λ c. pure (f c)) s
emit m f s h = then m (λ c. pure (f c)) s h (λ c u. (f c, u, refl))

mutual
  unfolding flatten_statement make_block make_unlabelled

  total :
      (n : Node) (st : Stack) (s : FlattenState)
      → IsStructured n
      → Succeeds (flatten_statement n st) s
  total (basic_block vs) st s h = (values vs, s, refl)
  total (return_node v) st s h = (ret v done, s, refl)
  total break_node st s h = absurd h
  total continue_node st s h = absurd h
  total (block_node none ns) st s h = total_all ns st s h
  total (block_node (some vs) ns) st s h =
      let b = new_block (hint "block_node") (s.label_index + 1) s.block_count false false in
      emit (flatten_nodes ns (added b st ∷ st)) (one_block (with_vars (some vs) b)) (count_label s)
        (total_all ns _ _ h)
  total (if_node c n absent) st s h =
      let a = new_block (hint "if") (s.label_index + 1) s.block_count false false in
      let b = new_block (hint "if_true") (s.label_index + 1 + 1) (s.block_count + 1) false false in
      emit (flatten_statement n (orphan b ∷ added a st ∷ st))
        (λ t'. one_block a (one_block b (branch_if a.id c false t'))) (count_label (count_label s))
        (total n _ _ h)
  total (if_node c n (present e)) st s h = absurd h
  total (while_node c n) st s h =
      let a = new_block (hint "while") 0 s.block_count false true in
      let l = new_block (hint "while_loop") (s.label_index + 1) (s.block_count + 1) true false in
      let f = added a st in
      emit (flatten_opt n (child l f ∷ f ∷ st))
        (λ body. one_block a (one_block l (branch_if a.id c false (body ++ᶜ branch l.id done))))
        (count_label (count_block s)) (total_opt n _ _ h)
  total (do_while_node c n) st s h =
      let a = new_block (hint "do_while") 0 s.block_count false true in
      let l = new_block (hint "do_while_loop") (s.label_index + 1) (s.block_count + 1) true false in
      let f = added a st in
      emit (flatten_opt n (child l f ∷ f ∷ st))
        (λ body. one_block a (one_block l (body ++ᶜ branch_if l.id c true (branch a.id done))))
        (count_label (count_block s)) (total_opt n _ _ h)
  total (for_node vs i c n v) st s h =
      let a = new_block (hint "for") (s.label_index + 1) s.block_count false true in
      let l = new_block (hint "for_loop") (s.label_index + 1 + 1) (s.block_count + 1) true false in
      let f = added a st in
      let whole = λ (init : Code) (body : Code).
        one_block (with_vars vs a)
          (init ++ᶜ one_block l (branch_unless c a (body ++ᶜ next_value v (branch l.id done)))) in
      then (flatten_opt i (f ∷ st))
        (λ init. flatten_for_body n (child l f ∷ f ∷ st) >>= λ body. pure (whole init body))
        (count_label (count_label s)) (total_opt i _ _ h.0)
        (λ init u.
          emit (flatten_for_body n (child l f ∷ f ∷ st)) (whole init) u (total_for n _ _ h.1))
  total (switch_node cs d) st s h = absurd h
  total for_in_node st s h = absurd h
  total for_of_node st s h = absurd h
  total other_node st s h = absurd h

  total_all :
      (ns : Nodes) (st : Stack) (s : FlattenState)
      → AreStructured ns
      → Succeeds (flatten_nodes ns st) s
  total_all no_nodes st s h = (done, s, refl)
  total_all (n ∷ₙ ns) st s h =
      then (flatten_statement n st) (λ c. flatten_nodes ns st >>= λ d. pure (c ++ᶜ d)) s
        (total n st s h.0)
        (λ c u. emit (flatten_nodes ns st) (λ d. c ++ᶜ d) u (total_all ns st u h.1))

  total_opt :
      (n : OptNode) (st : Stack) (s : FlattenState)
      → IsStructuredOpt n
      → Succeeds (flatten_opt n st) s
  total_opt absent st s h = (done, s, refl)
  total_opt (present n) st s h = total n st s h

  total_for :
      (n : OptNode) (st : Stack) (s : FlattenState)
      → IsStructuredOpt n
      → Succeeds (flatten_for_body n st) s
  total_for absent st s h = (done, s, refl)
  total_for (present n) st s h =
      let b = new_block (hint "for_body") (s.label_index + 1) s.block_count false false in
      emit (flatten_statement n (added b st ∷ st)) (one_block b) (count_label s) (total n _ _ h)

-- A structured statement is always translated: no exception, in any context.
pub flatten_statement_total :
    (n : Node) (st : Stack) (s : FlattenState)
    → IsStructured n
    → (c : Code) × (t : FlattenState) × (flatten_statement n st s ≡ some (c, t))
flatten_statement_total n st s h = total n st s h
