-- ===== src/Flatten.antt =====
-- src/semantics/flatten.ts: statements become nested blocks with branches, for the bytecode
-- backend. `Flatten.Statements` has the statements, `Flatten.Blocks` the blocks; this file has the
-- translation.
--
-- The source appends each value to the block on top of a stack. Here a call returns the values
-- that it appends, in order, and the stack holds what is known of the open blocks: a block that is
-- pushed before it is added to another one (`push` without `addValue`) has no parent yet. Block
-- objects are told apart by a number of their own. `none` is the exception 'break unkown block'.
pub mod Statements
pub mod Blocks
pub mod Semantics
pub mod Structured
pub mod Shape
pub mod Correct
pub mod Targets
pub mod Branches
pub mod Conditions
pub mod Tests
use wasmnizer_ts.Base.{
  Bool, List, Option, [], false, if◌then◌else◌, none, some, true, ℕ, ◌++◌, ◌+◌, ◌∷◌,
}
use wasmnizer_ts.Flatten.Statements.{
  Cases, Node, Nodes, OptNode, VarDecl, absent, basic_block, block_node, break_node, case,
  continue_node, default, do_while_node, for_in_node, for_node, for_of_node, if_node, no_cases,
  no_default, no_nodes, other_node, present, return_node, switch_node, while_node, ◌∷ₙ◌,
}
use wasmnizer_ts.Flatten.Blocks.{
  Block, Code, Hint, block, branch, branch_if, done, hint, ret, switch_case, value, ◌++ᶜ◌,
}

-- `_labelIndex`, and the number of blocks made.
pub record FlattenState : Type 0 where
  pub label_index : ℕ
  pub block_count : ℕ

-- What `findNearestLoop` and `findNearestBreakTarget` read of a block on the stack.
pub data Frame : Type 0 where
  orphan : Block → Frame
  child : Block → Frame → Frame

abbrev pub frame_block : Frame → Block
frame_block (orphan b) = b
frame_block (child b p) = b

abbrev pub Stack : Type 0
Stack = List Frame

-- The frame of a block that `pushAdd` adds to the block on top.
abbrev pub added : Block → Stack → Frame
added b [] = orphan b
added b (f ∷ st) = child b f

-- `while (block && block.isLoop) block = block.parent`
unfoldable pub skip_loops : Frame → Option Block
skip_loops (orphan b) = if b.is_loop then none else some b
skip_loops (child b p) = if b.is_loop then skip_loops p else some b

unfoldable pub find_nearest_loop : Stack → Option Block
find_nearest_loop [] = none
find_nearest_loop (f ∷ st) = skip_loops f

unfoldable pub skip_break_targets : Frame → Option Block
skip_break_targets (orphan b) = if b.break_target then none else some b
skip_break_targets (child b p) = if b.break_target then skip_break_targets p else some b

unfoldable pub find_nearest_break_target : Stack → Option Block
find_nearest_break_target [] = none
find_nearest_break_target (f ∷ st) = skip_break_targets f

abbrev pub Flat : Type 0 → Type 0
Flat A = FlattenState → Option (A × FlattenState)

infixl 5 ◌>>=◌
abbrev pub ◌>>=◌ : {A B : Type 0} → Flat A → (A → Flat B) → Flat B
◌>>=◌ m f s = elim (m s) [ none ↦ none | some (a, s') ↦ f a s' ]

abbrev pub pure : {A : Type 0} → A → Flat A
pure a s = some (a, s)

abbrev pub throw : {A : Type 0} → Flat A
throw s = none

abbrev pub new_block : Hint → ℕ → ℕ → Bool → Bool → Block
new_block h label id is_loop break_target = record {
  id = id;
  label = (h, label);
  is_loop = is_loop;
  break_target = break_target;
  var_list = none;
  ref_list = none;
}

abbrev pub count_block : FlattenState → FlattenState
count_block s = record s { block_count = s.block_count + 1 }

abbrev pub count_label : FlattenState → FlattenState
count_label s = record { label_index = s.label_index + 1; block_count = s.block_count + 1 }

-- `new BlockValue(…, context.makeLabel(hint), isLoop, breakTarget)`
unfoldable pub make_block : Hint → Bool → Bool → Flat Block
make_block h is_loop break_target s =
    some (new_block h (s.label_index + 1) s.block_count is_loop break_target, count_label s)

-- `new BlockValue` with a label that `makeLabel` does not make.
unfoldable pub make_unlabelled : Hint → Bool → Bool → Flat Block
make_unlabelled label is_loop break_target s =
    some (new_block label 0 s.block_count is_loop break_target, count_block s)

unfoldable pub filter_by_ref : List VarDecl → List VarDecl
filter_by_ref [] = []
filter_by_ref (v ∷ vs) = if v.by_ref then v ∷ filter_by_ref vs else filter_by_ref vs

unfoldable pub build_var_reference_list : Option (List VarDecl) → Option (List VarDecl)
unfolding filter_by_ref
build_var_reference_list none = none
build_var_reference_list (some vs) = elim (filter_by_ref vs) [ [] ↦ none | v ∷ l ↦ some (v ∷ l) ]

unfoldable pub with_vars : Option (List VarDecl) → Block → Block
unfolding build_var_reference_list
with_vars none b = b
with_vars (some vs) b = record b {
  var_list = some vs;
  ref_list = build_var_reference_list (some vs);
}

-- A single block, as the values that it makes of a caller's block.
abbrev pub one_block : Block → Code → Code
one_block b body = block b body done

abbrev join_lists : Option (List VarDecl) → Option (List VarDecl) → Option (List VarDecl)
join_lists (some ps) (some vs) = some (ps ++ vs)
join_lists none vs = vs
join_lists ps none = ps

abbrev pub values : List ℕ → Code
values [] = done
values (v ∷ vs) = value v (values vs)

abbrev pub branch_unless : Option ℕ → Block → Code → Code
branch_unless none b rest = rest
branch_unless (some c) b rest = branch_if b.id c false rest

abbrev pub next_value : Option ℕ → Code → Code
next_value none rest = rest
next_value (some v) rest = value v rest

abbrev branch_to : Option Block → Flat Code
branch_to none = throw
branch_to (some b) = pure (branch b.id done)

abbrev branch_to_if_found : Option Block → Flat Code
branch_to_if_found none = pure done
branch_to_if_found (some b) = pure (branch b.id done)

-- `case_block.parent!.id`: the block on top when the case block is added. A case block always has
-- one.
abbrev pub parent_id : Stack → ℕ
parent_id [] = 0
parent_id (f ∷ st) = (frame_block f).id

unfoldable mutual
  pub flatten_statement : Node → Stack → Flat Code
  flatten_statement (basic_block vs) st = pure (values vs)
  flatten_statement (return_node v) st = pure (ret v done)
  flatten_statement break_node st = branch_to (find_nearest_loop st)
  flatten_statement continue_node st = branch_to_if_found (find_nearest_loop st)
  flatten_statement (block_node none ns) st = flatten_nodes ns st
  flatten_statement (block_node (some vs) ns) st = do
    b ← make_block (hint "block_node") false false
    body ← flatten_nodes ns (added b st ∷ st)
    pure (one_block (with_vars (some vs) b) body)
  flatten_statement (if_node c t absent) st = do
    if_block ← make_block (hint "if") false false
    true_block ← make_block (hint "if_true") false false
    t' ← flatten_statement t (orphan true_block ∷ added if_block st ∷ st)
    pure (one_block if_block (one_block true_block (branch_if if_block.id c false t')))
  flatten_statement (if_node c t (present e)) st = do
    if_block ← make_block (hint "if") false false
    true_block ← make_block (hint "if_true") false false
    false_block ← make_block (hint "if_false") false false
    t' ← flatten_statement t (orphan true_block ∷ added if_block st ∷ st)
    e' ← flatten_statement e (orphan false_block ∷ added if_block st ∷ st)
    pure (
        one_block if_block (
          one_block false_block (
            block true_block (branch_if false_block.id c false (t' ++ᶜ branch if_block.id done))
              e')))
  flatten_statement (while_node c body) st = do
    while_block ← make_unlabelled (hint "while") false true
    loop_block ← make_block (hint "while_loop") true false
    let f = added while_block st
    body' ← flatten_opt body (child loop_block f ∷ f ∷ st)
    pure (
        one_block while_block (
          one_block loop_block
            (branch_if while_block.id c false (body' ++ᶜ branch loop_block.id done))))
  flatten_statement (do_while_node c body) st = do
    while_block ← make_unlabelled (hint "do_while") false true
    loop_block ← make_block (hint "do_while_loop") true false
    let f = added while_block st
    body' ← flatten_opt body (child loop_block f ∷ f ∷ st)
    pure (
        one_block while_block (
          one_block loop_block
            (body' ++ᶜ branch_if loop_block.id c true (branch while_block.id done))))
  flatten_statement (for_node vs init c body next) st = do
    for_block ← make_block (hint "for") false true
    for_loop ← make_block (hint "for_loop") true false
    let f = added for_block st
    init' ← flatten_opt init (f ∷ st)
    body' ← flatten_for_body body (child for_loop f ∷ f ∷ st)
    pure (
        one_block (with_vars vs for_block) (
          init'
          ++ᶜ one_block for_loop
              (branch_unless c for_block (body' ++ᶜ next_value next (branch for_loop.id done)))))
  flatten_statement (switch_node cs no_default) st = do
    switch_block ← make_block (hint "switch") false true
    body ← flatten_cases 0 cs (added switch_block st ∷ st)
    pure (one_block switch_block body)
  flatten_statement (switch_node cs (default body)) st = do
    switch_block ← make_block (hint "switch") false true
    let f = added switch_block st
    def_block ← make_block (hint "switch_default") false false
    d ← flatten_opt body (child def_block f ∷ f ∷ st)
    c ← flatten_cases 0 cs (child def_block f ∷ f ∷ st)
    pure (one_block switch_block (one_block def_block (d ++ᶜ c)))
  flatten_statement for_in_node st = pure done
  flatten_statement for_of_node st = pure done
  flatten_statement other_node st = pure done

  pub flatten_nodes : Nodes → Stack → Flat Code
  flatten_nodes no_nodes st = pure done
  flatten_nodes (n ∷ₙ ns) st = do
    c ← flatten_statement n st
    d ← flatten_nodes ns st
    pure (c ++ᶜ d)

  pub flatten_opt : OptNode → Stack → Flat Code
  flatten_opt absent st = pure done
  flatten_opt (present n) st = flatten_statement n st

  -- The block `for_body`, which is made only for a body.
  pub flatten_for_body : OptNode → Stack → Flat Code
  flatten_for_body absent st = pure done
  flatten_for_body (present n) st = do
    b ← make_block (hint "for_body") false false
    c ← flatten_statement n (added b st ∷ st)
    pure (one_block b c)

  -- `for (let i = switchNode.caseClause.length - 1; i >= 0; i--)`: the last clause first.
  -- The clauses from the `i`-th on.
  pub flatten_cases : ℕ → Cases → Stack → Flat Code
  flatten_cases i no_cases st = pure done
  flatten_cases i (case v body cs) st = do
    later ← flatten_cases (i + 1) cs st
    b ← make_block (switch_case i) false false
    c ← flatten_opt body (added b st ∷ st)
    pure (later ++ᶜ one_block b (branch_if (parent_id st) v false c))

-- A new `FlattenContext`, and the root block.
abbrev pub first_state : FlattenState
first_state = record { label_index = 0; block_count = 1 }

abbrev root_block : Option (List VarDecl) → Option (List VarDecl) → Block
root_block vs refs = record {
  id = 0;
  label = (hint "", 0);
  is_loop = false;
  break_target = false;
  var_list = vs;
  ref_list = refs;
}

abbrev with_root : Block → Option (Code × FlattenState) → Option (Option (Block × Code))
with_root root none = none
with_root root (some (c, s)) = some (some (root, c))

-- `flattenFunction`: the body in a root block, and nothing for a function without a body.
unfoldable pub flatten_function :
    Option (List VarDecl) → Option (List VarDecl) → OptNode → Option (Option (Block × Code))
flatten_function var_list parameters absent = some none
flatten_function var_list parameters (present body) =
    let refs =
      join_lists (build_var_reference_list parameters) (build_var_reference_list var_list) in
    let root = root_block var_list refs in
    with_root root (flatten_statement body (orphan root ∷ []) first_state)
