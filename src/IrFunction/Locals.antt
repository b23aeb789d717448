-- ===== src/IrFunction/Locals.antt =====
-- About `LocalVars`, `pushLocalVars` and `getLocalVarIndex` of src/semantics/ir/function.ts: the
-- indices.
use wasmnizer_ts.IrFunction.{
  LocalVars, count_vars, find_var, first_of, get_local_var_index, next_start, place_of,
  pop_block_vars, push_local_vars, shifted,
}
use wasmnizer_ts.IrFunction.Tree.{Decl}
use wasmnizer_ts.Base.{
  Bool, List, Option, [], arith, false, if◌then◌else◌, length, none, refl, some, suc, true, ℕ, ◌+◌,
  ◌<◌, ◌==◌, ◌||◌, ◌∷◌, ◌≡◌, ◌≤◌,
}

-- Each entry starts where the one below it ends.
unfoldable pub IsStacked : List LocalVars → Type 0
IsStacked [] = Unit {0}
IsStacked (l ∷ st) = (l.start ≡ next_start st) × IsStacked st

pub IsStacked-push :
    (vs : Option (List Decl)) (st : List LocalVars)
    → IsStacked st
    → IsStacked (push_local_vars vs st)
unfolding IsStacked push_local_vars
IsStacked-push none st h = h
IsStacked-push (some vs) st h = (refl, h)

pub next_start-push_local_vars :
    (vs : Option (List Decl)) (st : List LocalVars)
    → next_start (push_local_vars vs st) ≡ next_start st + count_vars vs
unfolding push_local_vars
next_start-push_local_vars none st = omega arith
next_start-push_local_vars (some vs) st = refl

pub pop_block_vars-push_local_vars :
    (vs : Option (List Decl)) (st : List LocalVars) → pop_block_vars vs (push_local_vars vs st) ≡ st
unfolding push_local_vars pop_block_vars
pop_block_vars-push_local_vars none st = refl
pop_block_vars-push_local_vars (some vs) st = refl

-- If there is a number, it is below `n`.
abbrev pub IsBelow : ℕ → Option ℕ → Type 0
IsBelow n o = (i : ℕ) → o ≡ some i → i < n

same_index : {i j : ℕ} → some i ≡ some j → i ≡ j
same_index e = cc

IsBelow-shifted : (n k : ℕ) (o : Option ℕ) → IsBelow n o → IsBelow (n + k) (shifted k o)
IsBelow-shifted n k none h i e = absurd cc
IsBelow-shifted n k (some j) h i e = omega (arith, h j refl, same_index e)

IsBelow-first_of : (n : ℕ) (o p : Option ℕ) → IsBelow n o → IsBelow n p → IsBelow n (first_of o p)
IsBelow-first_of n none p h k = k
IsBelow-first_of n (some i) p h k = h

IsBelow-if :
    (n : ℕ) (b : Bool) (o : Option ℕ)
    → IsBelow n o
    → IsBelow (suc n) (if b then some 0 else shifted 1 o)
IsBelow-if n true o h i e = omega (arith, same_index e)
IsBelow-if n false o h i e = omega (arith, IsBelow-shifted n 1 o h i e)

IsBelow-place_of : (v : Decl) (ds : List Decl) → IsBelow (length ds) (place_of v ds)
unfolding place_of
IsBelow-place_of v [] = λ i e. absurd cc
IsBelow-place_of v (d ∷ ds) =
    IsBelow-if (length ds) ((d.decl_id == v.decl_id) || (d.decl_name == v.decl_name))
      (place_of v ds) (IsBelow-place_of v ds)

pub IsBelow-weaken : {m n : ℕ} (o : Option ℕ) → m ≤ n → IsBelow m o → IsBelow n o
IsBelow-weaken o h k i e = omega (arith, k i e)

pub IsBelow-get_local_var_index :
    (v : Decl) (st : List LocalVars)
    → IsStacked st
    → IsBelow (next_start st) (get_local_var_index v st)
unfolding IsStacked get_local_var_index find_var
IsBelow-get_local_var_index v [] h = λ i e. absurd cc
IsBelow-get_local_var_index v (l ∷ st) (s, h) =
    IsBelow-first_of (l.start + length l.vars) (shifted l.start (place_of v l.vars))
      (get_local_var_index v st)
      (IsBelow-weaken (shifted l.start (place_of v l.vars)) (omega arith)
        (IsBelow-shifted (length l.vars) l.start (place_of v l.vars) (IsBelow-place_of v l.vars)))
      (IsBelow-weaken (get_local_var_index v st) (omega arith) (IsBelow-get_local_var_index v st h))
