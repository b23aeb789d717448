-- ===== src/Flatten/Semantics.antt =====
-- What statements and blocks mean, over any state: `exec` runs a value for its effect, `test` a
-- condition. Both are big-step relations, so a derivation is a run that ends.
use wasmnizer_ts.Base.{Bool, List, Option, [], false, none, not, some, true, ℕ, ◌∷◌, ◌≡◌, ◌≢◌}
use wasmnizer_ts.Flatten.Statements.{
  Node, Nodes, OptNode, VarDecl, absent, basic_block, block_node, break_node, continue_node,
  do_while_node, for_node, if_node, no_nodes, present, return_node, while_node, ◌∷ₙ◌,
}
use wasmnizer_ts.Flatten.Blocks.{Block, Code, block, branch, branch_if, done, ret, value}

-- How a sequence of values ends: at its end, by a branch to a block, or by a return.
pub data Outcome : Type 0 where
  next : Outcome
  jump : ℕ → Outcome
  returned : Option ℕ → Outcome

-- How a statement ends.
pub data Completion : Type 0 where
  normal : Completion
  broken : Completion
  continued : Completion
  completed : Option ℕ → Completion

-- Values and conditions are the expressions of the program.
pub record Machine : Type 1 where
  pub State : Type 0
  pub exec : ℕ → State → State
  pub test : ℕ → State → Bool × State

module _ (m : Machine) where
  open m use {State, exec, test}

  mutual
    pub data Run : Code → State → Outcome → State → Type 0 where
      end : {s : State} → Run done s next s
      step :
          {v : ℕ} {c : Code} {s t : State} {o : Outcome}
          → Run c (exec v s) o t
          → Run (value v c) s o t
      jumped : {k : ℕ} {c : Code} {s : State} → Run (branch k c) s (jump k) s
      taken :
          {k v : ℕ} {b : Bool} {c : Code} {s : State}
          → (test v s).0 ≡ b
          → Run (branch_if k v b c) s (jump k) (test v s).1
      passed :
          {k v : ℕ} {b : Bool} {c : Code} {s t : State} {o : Outcome}
          → (test v s).0 ≡ not b
          → Run c (test v s).1 o t
          → Run (branch_if k v b c) s o t
      return : {v : Option ℕ} {c : Code} {s : State} → Run (ret v c) s (returned v) s
      through :
          {b : Block} {body c : Code} {s t u : State} {o : Outcome}
          → RunBlock b body s next t
          → Run c t o u
          → Run (block b body c) s o u
      escape :
          {b : Block} {body c : Code} {s t : State} {k : ℕ}
          → RunBlock b body s (jump k) t
          → Run (block b body c) s (jump k) t
      unwind :
          {b : Block} {body c : Code} {s t : State} {v : Option ℕ}
          → RunBlock b body s (returned v) t
          → Run (block b body c) s (returned v) t

    -- A branch to a block leaves it, a branch to a loop starts it again.
    pub data RunBlock : Block → Code → State → Outcome → State → Type 0 where
      falls : {b : Block} {body : Code} {s t : State} → Run body s next t → RunBlock b body s next t
      leaves :
          {b : Block} {body : Code} {s t : State} {k : ℕ}
          → Run body s (jump k) t
          → k ≡ b.id
          → b.is_loop ≡ false
          → RunBlock b body s next t
      again :
          {b : Block} {body : Code} {s t u : State} {k : ℕ} {o : Outcome}
          → Run body s (jump k) t
          → k ≡ b.id
          → b.is_loop ≡ true
          → RunBlock b body t o u
          → RunBlock b body s o u
      outwards :
          {b : Block} {body : Code} {s t : State} {k : ℕ}
          → Run body s (jump k) t
          → k ≢ b.id
          → RunBlock b body s (jump k) t
      returns :
          {b : Block} {body : Code} {s t : State} {v : Option ℕ}
          → Run body s (returned v) t
          → RunBlock b body s (returned v) t

  -- A condition that is left out holds.
  abbrev pub holds : Option ℕ → State → Bool × State
  holds none s = (true, s)
  holds (some c) s = test c s

  abbrev pub exec_all : List ℕ → State → State
  exec_all [] s = s
  exec_all (v ∷ vs) s = exec_all vs (exec v s)

  abbrev pub exec_opt : Option ℕ → State → State
  exec_opt none s = s
  exec_opt (some v) s = exec v s

  -- A loop goes on after a body that ends normally or by `continue`.
  abbrev pub GoesOn : Completion → Type 0
  GoesOn normal = Unit
  GoesOn continued = Unit
  GoesOn _ = ⊥

  -- `break` ends the loop normally, a return ends the function.
  abbrev pub Leaves : Completion → Completion → Type 0
  Leaves broken o = o ≡ normal
  Leaves (completed v) o = o ≡ completed v
  Leaves _ o = ⊥

  mutual
    pub data Exec : Node → State → Completion → State → Type 0 where
      basic : {vs : List ℕ} {s : State} → Exec (basic_block vs) s normal (exec_all vs s)
      return : {v : Option ℕ} {s : State} → Exec (return_node v) s (completed v) s
      break : {s : State} → Exec break_node s broken s
      continue : {s : State} → Exec continue_node s continued s
      sequence :
          {vs : Option (List VarDecl)} {ns : Nodes} {s t : State} {o : Completion}
          → ExecAll ns s o t
          → Exec (block_node vs ns) s o t
      if_true :
          {c : ℕ} {n : Node} {e : OptNode} {s t : State} {o : Completion}
          → (test c s).0 ≡ true
          → Exec n (test c s).1 o t
          → Exec (if_node c n e) s o t
      if_false :
          {c : ℕ} {n : Node} {e : OptNode} {s t : State} {o : Completion}
          → (test c s).0 ≡ false
          → ExecOpt e (test c s).1 o t
          → Exec (if_node c n e) s o t
      while_stop :
          {c : ℕ} {b : OptNode} {s : State}
          → (test c s).0 ≡ false
          → Exec (while_node c b) s normal (test c s).1
      while_next :
          {c : ℕ} {b : OptNode} {s t u : State} {o o' : Completion}
          → (test c s).0 ≡ true
          → ExecOpt b (test c s).1 o t
          → GoesOn o
          → Exec (while_node c b) t o' u
          → Exec (while_node c b) s o' u
      while_leave :
          {c : ℕ} {b : OptNode} {s t : State} {o o' : Completion}
          → (test c s).0 ≡ true
          → ExecOpt b (test c s).1 o t
          → Leaves o o'
          → Exec (while_node c b) s o' t
      do_stop :
          {c : ℕ} {b : OptNode} {s t : State} {o : Completion}
          → ExecOpt b s o t
          → GoesOn o
          → (test c t).0 ≡ false
          → Exec (do_while_node c b) s normal (test c t).1
      do_next :
          {c : ℕ} {b : OptNode} {s t u : State} {o o' : Completion}
          → ExecOpt b s o t
          → GoesOn o
          → (test c t).0 ≡ true
          → Exec (do_while_node c b) (test c t).1 o' u
          → Exec (do_while_node c b) s o' u
      do_leave :
          {c : ℕ} {b : OptNode} {s t : State} {o o' : Completion}
          → ExecOpt b s o t
          → Leaves o o'
          → Exec (do_while_node c b) s o' t
      for :
          {vs : Option (List VarDecl)} {i b : OptNode} {c v : Option ℕ} {s t u : State}
          {o : Completion}
          → ExecOpt i s normal t
          → ExecFor c b v t o u
          → Exec (for_node vs i c b v) s o u

    pub data ExecAll : Nodes → State → Completion → State → Type 0 where
      none_left : {s : State} → ExecAll no_nodes s normal s
      first_then :
          {n : Node} {ns : Nodes} {s t u : State} {o : Completion}
          → Exec n s normal t
          → ExecAll ns t o u
          → ExecAll (n ∷ₙ ns) s o u
      first_ends :
          {n : Node} {ns : Nodes} {s t : State} {o : Completion}
          → Exec n s o t
          → o ≢ normal
          → ExecAll (n ∷ₙ ns) s o t

    pub data ExecOpt : OptNode → State → Completion → State → Type 0 where
      skip : {s : State} → ExecOpt absent s normal s
      run : {n : Node} {s t : State} {o : Completion} → Exec n s o t → ExecOpt (present n) s o t

    -- The rounds of a `for` loop, from its test on.
    pub data ExecFor : Option ℕ → OptNode → Option ℕ → State → Completion → State → Type 0 where
      for_stop :
          {c v : Option ℕ} {b : OptNode} {s : State}
          → (holds c s).0 ≡ false
          → ExecFor c b v s normal (holds c s).1
      for_next :
          {c v : Option ℕ} {b : OptNode} {s t u : State} {o o' : Completion}
          → (holds c s).0 ≡ true
          → ExecOpt b (holds c s).1 o t
          → GoesOn o
          → ExecFor c b v (exec_opt v t) o' u
          → ExecFor c b v s o' u
      for_leave :
          {c v : Option ℕ} {b : OptNode} {s t : State} {o o' : Completion}
          → (holds c s).0 ≡ true
          → ExecOpt b (holds c s).1 o t
          → Leaves o o'
          → ExecFor c b v s o' t
