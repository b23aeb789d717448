-- ===== src/Flatten/Conditions.antt =====
-- src/semantics/flatten.ts, `flattenConditionValue`: a conditional value as nested blocks.
use Prim.Native.String.{String}
use wasmnizer_ts.Flatten.Blocks.{Block, Code, block, branch, branch_if, done, hint, value, ◌++ᶜ◌}
use wasmnizer_ts.Flatten.Semantics.{
  Machine, Outcome, Run, end, escape, falls, jumped, leaves, outwards, passed, step, taken, through,
}
use wasmnizer_ts.Base.{Bool, false, if◌then◌else◌, none, refl, true, ℕ, ◌≡◌, ◌≢◌}

-- `new BlockValue` with the text of its label.
abbrev pub condition_block : ℕ → String → Block
condition_block k text = record {
  id = k;
  label = (hint text, 0);
  is_loop = false;
  break_target = false;
  var_list = none;
  ref_list = none;
}

-- `flattenConditionValue`, with the identities of the three new blocks: the outer one, that which
-- a failing condition leaves, and that of the value for a condition that holds.
unfoldable pub flatten_condition_value : ℕ → ℕ → ℕ → ℕ → ℕ → ℕ → Code
flatten_condition_value outter false_id true_id condition true_expr false_expr =
    block (condition_block outter "condition_outter")
      (block (condition_block false_id "condition_false")
        (branch_if false_id condition false (
          block (condition_block true_id "condition_true") (value true_expr done)
            (branch outter done)))
        (value false_expr done))
      done

module _ (m : Machine) where
  open m use {State, exec, test}

  -- The value chosen by the condition.
  abbrev pub chosen : ℕ → ℕ → ℕ → State → State
  chosen c x y s = exec (if (test c s).0 then x else y) (test c s).1

  Run-chosen :
      (k f t c x y : ℕ) (b : Bool) (d : Code) (s u : State) (o : Outcome)
      → k ≢ f
      → (test c s).0 ≡ b
      → Run m d (exec (if b then x else y) (test c s).1) o u
      → Run m (flatten_condition_value k f t c x y ++ᶜ d) s o u
  unfolding flatten_condition_value
  Run-chosen k f t c x y true d s u o ne e r =
      through
        (leaves (escape (outwards (passed e (through (falls (step end)) jumped)) ne)) refl refl) r
  Run-chosen k f t c x y false d s u o ne e r =
      through (falls (through (leaves (taken e) refl refl) (step end))) r

  -- When the outer block is not the block that a failing condition leaves, the code of a
  -- conditional value tests the condition once, runs the first value if it holds and the second
  -- one if it does not, and goes on with whatever code follows.
  pub flatten_condition_value-Run :
      (k f t c x y : ℕ) (d : Code) (s u : State) (o : Outcome)
      → k ≢ f
      → Run m d (chosen c x y s) o u
      → Run m (flatten_condition_value k f t c x y ++ᶜ d) s o u
  flatten_condition_value-Run k f t c x y d s u o ne r =
      Run-chosen k f t c x y (test c s).0 d s u o ne refl r
