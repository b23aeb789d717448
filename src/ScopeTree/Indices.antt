-- ===== src/ScopeTree/Indices.antt =====
-- `assignVariableIndex`: the indices that the variables of a scope and of its blocks get.
use wasmnizer_ts.ScopeTree.{
  ScopeKind, ScopeNode, ScopeNodes, Var, assign_children, assign_variable_index, is_block, kind_of,
  no_scopes, node, number_own, number_vars, owns_locals, scopes, set_var_index,
}
use wasmnizer_ts.Base.{
  Bool-cases, List, Option, [], ap, arith, if◌then◌else◌, inl, inr, length, length-append, map,
  none, refl, some, suc, sym, zero, zero-add, ℕ, ◌++◌, ◌+◌, ◌∙◌, ◌∷◌, ◌≡◌,
}

-- The indices from `first` on.
abbrev pub range : ℕ → ℕ → List (Option ℕ)
range first zero = []
range first (suc n) = some first ∷ range (first + 1) n

abbrev pub indices : List Var → List (Option ℕ)
indices [] = []
indices (v ∷ vs) = v.var_index ∷ indices vs

unfoldable pub own : ScopeKind → List Var → List Var
own k vs = if owns_locals k then vs else []

-- The variables of the scope, if it is a function or a block, and those of the blocks in it, in
-- order.
unfoldable mutual
  pub locals : ScopeNode → List Var
  locals (node k l ps vs cs) = own k vs ++ child_locals cs

  pub child_locals : ScopeNodes → List Var
  child_locals no_scopes = []
  child_locals (scopes c cs) = (if is_block (kind_of c) then locals c else []) ++ child_locals cs

abbrev unset : Var → Var
unset v = record v { var_index = none }

-- The scope with the indices of these variables, and only of these, removed.
unfoldable mutual
  pub forget : ScopeNode → ScopeNode
  forget (node k l ps vs cs) =
      node k l ps (if owns_locals k then map unset vs else vs) (forget_children cs)

  pub forget_children : ScopeNodes → ScopeNodes
  forget_children no_scopes = no_scopes
  forget_children (scopes c cs) =
      scopes (if is_block (kind_of c) then forget c else c) (forget_children cs)

pub range-append : (first m n : ℕ) → range first (m + n) ≡ range first m ++ range (first + m) n
range-append first zero n =
    ap (range first) (zero-add n) ∙ ap (λ j. range j n) {x = first} {y = first + 0} (omega arith)
range-append first (suc m) n =
    ap (range first) {x = suc m + n} {y = suc (m + n)} (omega arith)
    ∙ ap (λ t. some first ∷ t)
        (range-append (first + 1) m n
          ∙ ap (λ j. range (first + 1) m ++ range j n) {x = first + 1 + m} {y = first + suc m}
              (omega arith))

number_vars_lem :
    (vs : List Var) (n : ℕ)
    → (indices (number_vars vs n).0 ≡ range n (length vs))
      × ((number_vars vs n).1 ≡ n + length vs)
      × (map unset (number_vars vs n).0 ≡ map unset vs)
unfolding number_vars set_var_index
number_vars_lem [] n = (refl, omega arith, refl)
number_vars_lem (v ∷ vs) n =
    let (a, b, c) = number_vars_lem vs (n + 1) in
    (ap (λ t. some n ∷ t) a, omega (arith, b), ap (λ t. unset v ∷ t) c)

indices-append : (vs ws : List Var) → indices (vs ++ ws) ≡ indices vs ++ indices ws
indices-append [] ws = refl
indices-append (v ∷ vs) ws = ap (λ t. v.var_index ∷ t) (indices-append vs ws)

-- The variables `new` are numbered from `first` on, as many as there were, up to `next`.
pub record AreNumbered (old new : List Var) (first next : ℕ) : Type 0 where
  pub consecutive : indices new ≡ range first (length old)
  pub counted : next ≡ first + length old

AreNumbered-append :
    (vs ws vs' ws' : List Var) (i j k : ℕ)
    → AreNumbered vs vs' i j
    → AreNumbered ws ws' j k
    → AreNumbered (vs ++ ws) (vs' ++ ws') i k
AreNumbered-append vs ws vs' ws' i j k a b = record {
  consecutive =
      indices-append vs' ws'
      ∙ ap (λ t. t ++ indices ws') a.consecutive
      ∙ ap (λ t. range i (length vs) ++ t) (b.consecutive ∙ ap (λ t. range t (length ws)) a.counted)
      ∙ sym (range-append i (length vs) (length ws))
      ∙ ap (range i) (sym (length-append vs ws));
  counted = omega (arith, a.counted, b.counted, length-append vs ws);
}

abbrev forget_own : ScopeKind → List Var → List Var
forget_own k vs = if owns_locals k then map unset vs else vs

own-AreNumbered :
    (k : ScopeKind) (vs : List Var) (n : ℕ)
    → AreNumbered (own k vs) (own k (number_own k vs n).0) n (number_own k vs n).1
      × (forget_own k (number_own k vs n).0 ≡ forget_own k vs)
unfolding own number_own
own-AreNumbered k vs n = elim (Bool-cases (owns_locals k)) [
  | inl e ↦
      let (a, b, c) = number_vars_lem vs n in
      rw (own, number_own, e) (record { consecutive = a; counted = b }, c)
  | inr e ↦ rw (own, number_own, e) (record { consecutive = refl; counted = omega arith }, refl)
]

kind-assign : (s : ScopeNode) (n : ℕ) → kind_of (assign_variable_index s n).0 ≡ kind_of s
unfolding assign_variable_index kind_of
kind-assign (node k l ps vs cs) n = refl

abbrev if_block : ScopeNode → List Var
if_block s = if is_block (kind_of s) then locals s else []

abbrev assign_child : ScopeNode → ℕ → ScopeNode × ℕ
assign_child c n = if is_block (kind_of c) then assign_variable_index c n else (c, n)

abbrev forget_child : ScopeNode → ScopeNode
forget_child c = if is_block (kind_of c) then forget c else c

abbrev pub AssignedNode : ScopeNode → ScopeNode → ℕ → ℕ → Type 0
AssignedNode s t n k = AreNumbered (locals s) (locals t) n k × (forget t ≡ forget s)

child-Assigned :
    (c : ScopeNode) (n : ℕ)
    → AssignedNode c (assign_variable_index c n).0 n (assign_variable_index c n).1
    → AreNumbered (if_block c) (if_block (assign_child c n).0) n (assign_child c n).1
      × (forget_child (assign_child c n).0 ≡ forget_child c)
child-Assigned c n (a, f) = elim (Bool-cases (is_block (kind_of c))) [
  | inl e ↦ rw (e, kind-assign c n, e) (a, f)
  | inr e ↦ rw (e, e) (record { consecutive = refl; counted = omega arith }, refl)
]

mutual
  unfolding assign_variable_index locals forget

  pub assign-Assigned :
      (s : ScopeNode) (n : ℕ)
      → AssignedNode s (assign_variable_index s n).0 n (assign_variable_index s n).1
  assign-Assigned (node k l ps vs cs) n =
      let (a, f) = own-AreNumbered k vs n in
      let (b, g) = assign_children-Assigned cs (number_own k vs n).1 in
      (AreNumbered-append _ _ _ _ _ _ _ a b, λ i. node k l ps (f i) (g i))

  assign_children-Assigned :
      (cs : ScopeNodes) (n : ℕ)
      → AreNumbered
          (child_locals cs)
          (child_locals (assign_children cs n).0)
          n
          (assign_children cs n).1
        × (forget_children (assign_children cs n).0 ≡ forget_children cs)
  assign_children-Assigned no_scopes n =
      (record { consecutive = refl; counted = omega arith }, refl)
  assign_children-Assigned (scopes c cs) n =
      let (a, f) = child-Assigned c n (assign-Assigned c n) in
      let (b, g) = assign_children-Assigned cs (assign_child c n).1 in
      (AreNumbered-append _ _ _ _ _ _ _ a b, λ i. scopes (f i) (g i))
