-- ===== src/Flatten/Blocks.antt =====
-- src/semantics/value.ts: `BlockValue` and the branches to blocks. A sequence of values is a
-- `Code`.
use Prim.Native.String.{String}
use wasmnizer_ts.Base.{Bool, List, Option, ap, refl, ℕ, ◌≡◌}
use wasmnizer_ts.Flatten.Statements.{VarDecl}

-- What `makeLabel` is given; the text of a case block's hint ends in the number of its clause.
pub data Hint : Type 0 where
  hint : String → Hint
  switch_case : ℕ → Hint

-- A `BlockValue` without its values. `id` is the identity of the object, and
-- the label is its hint and the number that `makeLabel` adds (0 where it is not called).
pub record Block : Type 0 where
  pub id : ℕ
  pub label : Hint × ℕ
  pub is_loop : Bool
  pub break_target : Bool
  pub var_list : Option (List VarDecl)
  pub ref_list : Option (List VarDecl)

pub data Code : Type 0 where
  done : Code
  value : ℕ → Code → Code
  branch : ℕ → Code → Code
  -- the target, the condition, and the outcome of the condition on which it branches
  branch_if : ℕ → ℕ → Bool → Code → Code
  ret : Option ℕ → Code → Code
  block : Block → Code → Code → Code

infixr 65 ◌++ᶜ◌
abbrev pub ◌++ᶜ◌ : Code → Code → Code
done ++ᶜ d = d
value v c ++ᶜ d = value v (c ++ᶜ d)
branch k c ++ᶜ d = branch k (c ++ᶜ d)
branch_if k v b c ++ᶜ d = branch_if k v b (c ++ᶜ d)
ret v c ++ᶜ d = ret v (c ++ᶜ d)
block b body c ++ᶜ d = block b body (c ++ᶜ d)

pub append-done : (c : Code) → c ++ᶜ done ≡ c
append-done done = refl
append-done (value v c) = ap (value v) (append-done c)
append-done (branch k c) = ap (branch k) (append-done c)
append-done (branch_if k v b c) = ap (branch_if k v b) (append-done c)
append-done (ret v c) = ap (ret v) (append-done c)
append-done (block b body c) = ap (block b body) (append-done c)
