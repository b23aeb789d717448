-- ===== src/Flatten/Structured.antt =====
-- The structured statements: those without `break`, `continue`, `else`, `switch` and `for … in/of`.
-- `Compiled` is the shape of their translation.
use wasmnizer_ts.Base.{List, Option, false, none, refl, some, true, ℕ, ◌≡◌, ◌≢◌}
use wasmnizer_ts.Flatten.Statements.{
  Node, Nodes, OptNode, VarDecl, absent, basic_block, block_node, break_node, continue_node,
  do_while_node, for_in_node, for_node, for_of_node, if_node, no_nodes, other_node, present,
  return_node, switch_node, while_node, ◌∷ₙ◌,
}
use wasmnizer_ts.Flatten.Blocks.{Block, Code, branch, branch_if, done, ret, ◌++ᶜ◌}
use wasmnizer_ts.Flatten.{Flat, FlattenState, branch_unless, next_value, one_block, values, ◌>>=◌}

abbrev mutual
  pub IsStructured : Node → Type 0
  IsStructured (basic_block vs) = Unit
  IsStructured (return_node v) = Unit
  IsStructured break_node = ⊥
  IsStructured continue_node = ⊥
  IsStructured (block_node vs ns) = AreStructured ns
  IsStructured (if_node c t absent) = IsStructured t
  IsStructured (if_node c t (present e)) = ⊥
  IsStructured (while_node c b) = IsStructuredOpt b
  IsStructured (do_while_node c b) = IsStructuredOpt b
  IsStructured (for_node vs i c b v) = IsStructuredOpt i × IsStructuredOpt b
  IsStructured (switch_node cs d) = ⊥
  IsStructured for_in_node = ⊥
  IsStructured for_of_node = ⊥
  IsStructured other_node = ⊥

  pub AreStructured : Nodes → Type 0
  AreStructured no_nodes = Unit
  AreStructured (n ∷ₙ ns) = IsStructured n × AreStructured ns

  pub IsStructuredOpt : OptNode → Type 0
  IsStructuredOpt absent = Unit
  IsStructuredOpt (present n) = IsStructured n

mutual
  pub data Compiled : Node → Code → Type 0 where
    basic : {vs : List ℕ} → Compiled (basic_block vs) (values vs)
    return : {v : Option ℕ} → Compiled (return_node v) (ret v done)
    plain : {ns : Nodes} {c : Code} → CompiledAll ns c → Compiled (block_node none ns) c
    scoped :
        {vs : List VarDecl} {ns : Nodes} {c : Code} (b : Block)
        → CompiledAll ns c
        → Compiled (block_node (some vs) ns) (one_block b c)
    if_only :
        {c : ℕ} {n : Node} {t : Code} (a b : Block)
        → a.is_loop ≡ false
        → a.id ≢ b.id
        → Compiled n t
        → Compiled (if_node c n absent) (one_block a (one_block b (branch_if a.id c false t)))
    while :
        {c : ℕ} {n : OptNode} {body : Code} (a l : Block)
        → a.is_loop ≡ false
        → l.is_loop ≡ true
        → a.id ≢ l.id
        → CompiledOpt n body
        → Compiled
            (while_node c n)
            (one_block a (one_block l (branch_if a.id c false (body ++ᶜ branch l.id done))))
    do_while :
        {c : ℕ} {n : OptNode} {body : Code} (a l : Block)
        → a.is_loop ≡ false
        → l.is_loop ≡ true
        → a.id ≢ l.id
        → CompiledOpt n body
        → Compiled
            (do_while_node c n)
            (one_block a (one_block l (body ++ᶜ branch_if l.id c true (branch a.id done))))
    for :
        {vs : Option (List VarDecl)} {i n : OptNode} {c v : Option ℕ} {init body : Code}
        (a a' l : Block)
        → a.id ≡ a'.id
        → a'.is_loop ≡ false
        → l.is_loop ≡ true
        → a.id ≢ l.id
        → CompiledOpt i init
        → CompiledFor n body
        → Compiled (for_node vs i c n v) (
            one_block a'
              (init ++ᶜ one_block l (branch_unless c a (body ++ᶜ next_value v (branch l.id done)))))

  pub data CompiledAll : Nodes → Code → Type 0 where
    no_more : CompiledAll no_nodes done
    more :
        {n : Node} {ns : Nodes} {c d : Code}
        → Compiled n c
        → CompiledAll ns d
        → CompiledAll (n ∷ₙ ns) (c ++ᶜ d)

  pub data CompiledOpt : OptNode → Code → Type 0 where
    nothing : CompiledOpt absent done
    just : {n : Node} {c : Code} → Compiled n c → CompiledOpt (present n) c

  -- The body of a `for` loop, in a block of its own.
  pub data CompiledFor : OptNode → Code → Type 0 where
    no_body : CompiledFor absent done
    body_block :
        {n : Node} {c : Code} (b : Block) → Compiled n c → CompiledFor (present n) (one_block b c)

-- Inversion of a step that does not throw.
pub >>=-eq-some :
    {A B : Type 0} (m : Flat A) (f : A → Flat B) (s : FlattenState) {b : B} {t : FlattenState}
    → (m >>= f) s ≡ some (b, t)
    → (a : A) × (u : FlattenState) × (m s ≡ some (a, u)) × (f a u ≡ some (b, t))
>>=-eq-some {A} {B} m f s {b} {t} h = go (m s) refl h
  where
    go :
        (r : Option (A × FlattenState))
        → m s ≡ r
        → (elim r as (λ r. Option (B × FlattenState)) [ none ↦ none | some (a, s') ↦ f a s' ])
          ≡ some (b, t)
        → (a : A) × (u : FlattenState) × (m s ≡ some (a, u)) × (f a u ≡ some (b, t))
    go none e k = cc
    go (some (a, u)) e k = (a, u, e, k)
