-- ===== src/Flatten/Tests.antt =====
-- Runs of the translation, and the theorems at concrete inputs.
use wasmnizer_ts.Base.{[], arith, false, ltb, none, refl, some, true, ℕ, ◌+◌, ◌∷◌, ◌≡◌, ◌≢◌}
use wasmnizer_ts.Flatten.Conditions.{flatten_condition_value, flatten_condition_value-Run}
use wasmnizer_ts.Flatten.Statements.{
  Node, absent, basic_block, break_node, case, continue_node, default, if_node, no_cases, present,
  return_node, switch_node, while_node,
}
use wasmnizer_ts.Flatten.Blocks.{
  Block, Code, block, branch, branch_if, done, hint, ret, switch_case, value, ◌++ᶜ◌,
}
use wasmnizer_ts.Flatten.{
  FlattenState, child, find_nearest_loop, first_state, flatten_function, flatten_statement,
  make_block, make_unlabelled, new_block, one_block, orphan, skip_loops,
}
use wasmnizer_ts.Flatten.Semantics.{
  Exec, Machine, Run, basic, next, normal, returned, run, step, end, while_next, while_stop,
}
use wasmnizer_ts.Flatten.Correct.{flatten_statement-Simulates}
use wasmnizer_ts.Flatten.Targets.{find_nearest_loop-not_loop}
use wasmnizer_ts.Flatten.Branches.{
  flatten_statement-if_else, flatten_statement-switch_default, flatten_statement-while_continue,
}

-- A counter: a value adds its number, a condition holds below its number.
abbrev counter : Machine
counter = record { State = ℕ; exec = λ v s. s + v; test = λ c s. (ltb s c, s) }

-- while (s < 2) { s += 1 }
abbrev count_up : Node
count_up = while_node 2 (present (basic_block (1 ∷ [])))

abbrev outer : Block
outer = new_block (hint "while") 0 1 false true

abbrev inner : Block
inner = new_block (hint "while_loop") 1 2 true false

abbrev count_up_code : Code
count_up_code = one_block outer (one_block inner (branch_if 1 2 false (value 1 (branch 2 done))))

abbrev three_blocks : FlattenState
three_blocks = record { label_index = 1; block_count = 3 }

flatten-count_up : flatten_statement count_up [] first_state ≡ some (count_up_code, three_blocks)
unfolding flatten_statement make_block make_unlabelled
flatten-count_up = refl

Exec-count_up : Exec counter count_up 0 normal 2
Exec-count_up = while_next refl (run basic) tt (while_next refl (run basic) tt (while_stop refl))

flatten_statement-Simulates_example : Run counter count_up_code 0 next 2
flatten_statement-Simulates_example =
    flatten_statement-Simulates counter count_up [] first_state tt flatten-count_up Exec-count_up

abbrev body_block : Block
body_block = new_block (hint "for_body") 3 3 false false

find_nearest_loop-not_loop_example : outer.is_loop ≡ false
unfolding find_nearest_loop skip_loops
find_nearest_loop-not_loop_example =
    find_nearest_loop-not_loop (child inner (orphan outer) ∷ orphan outer ∷ []) refl

-- if (s < 0) { s += 1 } else { s += 5 }
abbrev choose_code : Code
choose_code = one_block (new_block (hint "if") 1 1 false false) (
    one_block (new_block (hint "if_false") 3 3 false false) (
      block (new_block (hint "if_true") 2 2 false false)
        (branch_if 3 0 false (value 1 (branch 1 done))) (value 5 done)))

flatten-choose :
    flatten_statement
      (if_node 0 (basic_block (1 ∷ [])) (present (basic_block (5 ∷ []))))
      []
      first_state
    ≡ some (choose_code, record { label_index = 3; block_count = 4 })
unfolding flatten_statement make_block
flatten-choose = refl

flatten_statement-if_else_example : Run counter choose_code 7 next 7
flatten_statement-if_else_example =
    flatten_statement-if_else counter 0 (basic_block (1 ∷ [])) (basic_block (5 ∷ [])) [] first_state
      7 flatten-choose refl

abbrev continue_code : Code
continue_code = one_block outer (one_block inner (branch_if 1 2 false (branch 1 (branch 2 done))))

flatten-continue :
    flatten_statement (while_node 2 (present continue_node)) [] first_state
    ≡ some (continue_code, three_blocks)
unfolding flatten_statement make_block make_unlabelled find_nearest_loop skip_loops
flatten-continue = refl

flatten_statement-while_continue_example : Run counter continue_code 0 next 0
flatten_statement-while_continue_example =
    flatten_statement-while_continue counter 2 [] first_state 0 flatten-continue refl

abbrev switch_code : Code
switch_code = one_block (new_block (hint "switch") 1 1 false true) (
    one_block (new_block (hint "switch_default") 2 2 false false) (
      ret none (
        one_block (new_block (switch_case 0) 3 3 false false)
          (branch_if 2 9 false (value 1 done)))))

flatten-switch :
    flatten_statement
      (switch_node
        (case 9 (present (basic_block (1 ∷ []))) no_cases)
        (default (present (return_node none))))
      []
      first_state
    ≡ some (switch_code, record { label_index = 3; block_count = 4 })
unfolding flatten_statement make_block
flatten-switch = refl

flatten_statement-switch_default_example : Run counter switch_code 0 (returned none) 0
flatten_statement-switch_default_example =
    flatten_statement-switch_default counter (case 9 (present (basic_block (1 ∷ []))) no_cases) none
      [] first_state 0 flatten-switch

-- A `break` with no block to leave throws.
break_alone : flatten_statement break_node [] first_state ≡ none
unfolding flatten_statement find_nearest_loop
break_alone = refl

function_without_body : flatten_function none none absent ≡ some none
unfolding flatten_function
function_without_body = refl

abbrev two : ℕ
two = 2

one-ne-two : 1 ≢ two
one-ne-two e = omega (arith, e)

-- 1 < 3 ? 10 : 20, and the result is counted on by 1.
flatten_condition_value-Run_example :
    Run counter (flatten_condition_value 1 2 3 3 10 20 ++ᶜ value 1 done) 1 next 12
flatten_condition_value-Run_example =
    flatten_condition_value-Run counter 1 2 3 3 10 20 (value 1 done) 1 12 next one-ne-two (step end)
