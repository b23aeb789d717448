-- ===== src/IrFunction.antt =====
-- src/semantics/ir/function.ts: `Context` and `IRFunction`, which build the instructions of a
-- function from its flattened value. `none` stands for an exception. An instruction is pushed to
-- the block that is being built; here each step returns the instructions it pushes, and a block is
-- pushed when its own are known. The count of temporaries, which can be negative, is what was
-- added and what was removed. A block is in `_blockMap` if its number is in the list of the known
-- ones.
pub mod Tree
pub mod Parts
pub mod Builder
pub mod Sound
pub mod Locals
pub mod Lookup
pub mod Machine
pub mod Runs
pub mod Returns
pub mod Building
pub mod Operating
pub mod Buildable
pub mod Built
pub mod Slots
pub mod Correct
pub mod Assignments
pub mod Steps
pub mod Room
pub mod ValueSteps
pub mod Indices
pub mod Tests
use wasmnizer_ts.IrFunction.Tree.{
  Decl, FunctionData, Storage, Value, Values, VarKind, VarRef, block_value, decl_ref, function_ref,
  global_const, global_var, local_storage, no_values, object_ref, other_ref, other_storage,
  other_var, param_storage, value, values,
}
use wasmnizer_ts.IrCode.{IrCode, IrCodes, Ty, no_codes, one, ◌+++◌}
use wasmnizer_ts.IrCode.Instructions.{
  load_class_code, load_closure_code, load_function_code, load_global_code, load_local_code,
  load_param_code, new_ref_code, read_ref_code, save_closure_code, save_global_code,
  save_local_code, save_param_code, write_ref_code,
}
use wasmnizer_ts.GlobalContext.{
  GlobalContext, get_class_index, get_function_index, get_var_index, load_s, save_s,
}
use wasmnizer_ts.DataPool.{DataPool, add_string}
use wasmnizer_ts.Base.{
  Bool, List, Option, [], drop, false, if◌then◌else◌, length, ltb, none, some, suc, true, zero, ℕ,
  ◌+◌, ◌-◌, ◌==◌, ◌||◌, ◌∷◌,
}

pub record LocalVars : Type 0 where
  pub start : ℕ
  pub vars : List Decl

-- The variable stack has its top in front.
pub record Context : Type 0 where
  pub max_temp : ℕ
  pub temp_added : ℕ
  pub temp_removed : ℕ
  pub known_blocks : List ℕ
  pub local_vars_stack : List LocalVars
  pub globals : GlobalContext
  pub pool : DataPool

abbrev pub shifted : ℕ → Option ℕ → Option ℕ
shifted n none = none
shifted n (some i) = some (i + n)

-- A variable is found by its identity or by its name: the place of the first one.
unfoldable pub place_of : Decl → List Decl → Option ℕ
place_of v [] = none
place_of v (d ∷ ds) =
    let rest = place_of v ds in
    if (d.decl_id == v.decl_id) || (d.decl_name == v.decl_name) then some 0 else shifted 1 rest

unfoldable pub find_var : LocalVars → Decl → Option ℕ
find_var l v = shifted l.start (place_of v l.vars)

abbrev pub next_start : List LocalVars → ℕ
next_start [] = 0
next_start (s ∷ st) = s.start + length s.vars

unfoldable pub push_local_vars : Option (List Decl) → List LocalVars → List LocalVars
push_local_vars none st = st
push_local_vars (some vs) st = record { start = next_start st; vars = vs } ∷ st

unfoldable pub pop_block_vars : Option (List Decl) → List LocalVars → List LocalVars
pop_block_vars none st = st
pop_block_vars (some vs) st = drop 1 st

abbrev pub first_of : Option ℕ → Option ℕ → Option ℕ
first_of none o = o
first_of (some i) o = some i

unfoldable pub get_local_var_index : Decl → List LocalVars → Option ℕ
get_local_var_index v [] = none
get_local_var_index v (l ∷ st) = first_of (find_var l v) (get_local_var_index v st)

abbrev pub place_in : Decl → Option (List Decl) → Option ℕ
place_in v none = none
place_in v (some ds) = place_of v ds

abbrev pub count_vars : Option (List Decl) → ℕ
count_vars none = 0
count_vars (some vs) = length vs

unfoldable pub larger : ℕ → ℕ → ℕ
larger m n = if ltb m n then n else m

-- `calcLocalVarCount`
unfoldable mutual
  pub calc_local_var_count : Value → ℕ
  calc_local_var_count (value t (block_value b vs)) = count_vars b.var_list + calc_children vs
  calc_local_var_count (value t _) = 0

  pub calc_children : Values → ℕ
  calc_children no_values = 0
  calc_children (values v vs) = larger (calc_local_var_count v) (calc_children vs)

abbrev pub Build : Type 0
Build = Context → Option (IrCodes × Context)

abbrev pub joined : IrCodes → Option (IrCodes × Context) → Option (IrCodes × Context)
joined cs none = none
joined cs (some (ds, c)) = some (cs +++ ds, c)

abbrev pub continue_with : Build → Option (IrCodes × Context) → Option (IrCodes × Context)
continue_with k none = none
continue_with k (some (cs, c)) = joined cs (k c)

infixl 5 ◌>>◌
abbrev pub ◌>>◌ : Build → Build → Build
◌>>◌ m k c = continue_with k (m c)

abbrev pub nothing : Build
nothing c = some (no_codes, c)

abbrev pub throw : Build
throw c = none

-- `pushCode`
abbrev pub emit : IrCode → Build
emit op c = some (one op, c)

abbrev pub emit_known : Option IrCode → Build
emit_known none = throw
emit_known (some op) = emit op

-- The number that a step finds is handed to the next one.
abbrev pub number_then : (ℕ → Build) → Option (ℕ × Context) → Option (IrCodes × Context)
number_then k none = none
number_then k (some (i, c)) = k i c

abbrev pub with_number : (Context → Option (ℕ × Context)) → (ℕ → Build) → Build
with_number m k c = number_then k (m c)

abbrev pub put_globals : Context → Option (ℕ × GlobalContext) → Option (ℕ × Context)
put_globals c none = none
put_globals c (some (i, g)) = some (i, record c { globals = g })

abbrev pub in_globals :
    (GlobalContext → Option (ℕ × GlobalContext)) → Context → Option (ℕ × Context)
in_globals m c = put_globals c (m c.globals)

abbrev pub put_pool : Context → Option (ℕ × DataPool) → Option (ℕ × Context)
put_pool c none = none
put_pool c (some (i, p)) = some (i, record c { pool = p })

-- `addString`
abbrev pub in_pool : List ℕ → Context → Option (ℕ × Context)
in_pool s c = put_pool c (add_string s c.pool)

-- `update`, after `n` has been added.
unfoldable pub update_temp : Context → Context
update_temp c =
    if ltb (c.max_temp + c.temp_removed) c.temp_added
    then record c { max_temp = c.temp_added - c.temp_removed }
    else c

abbrev pub inc_temp : ℕ → Build
inc_temp n c = some (no_codes, update_temp (record c { temp_added = c.temp_added + n }))

abbrev pub dec_temp : ℕ → Build
dec_temp n c = some (no_codes, record c { temp_removed = c.temp_removed + n })

-- `decTemp(n - 1)`
abbrev pub dec_temp_but_one : ℕ → Build
dec_temp_but_one zero c = some (no_codes, record c { temp_added = c.temp_added + 1 })
dec_temp_but_one (suc n) c = dec_temp n c

abbrev pub load_or_save : Bool → IrCode → IrCode → Build
load_or_save load l s = emit (if load then l else s)

-- The end of `buildVar`, where neither a local nor a parameter was found.
unfoldable pub build_closure_var : FunctionData → Decl → Bool → Build
build_closure_var f v load = elim (place_in v f.closure_vars) [
  | none ↦ throw
  | some i ↦ load_or_save load (load_closure_code i v.decl_type) (save_closure_code i v.decl_type)
]

unfoldable pub build_local : FunctionData → Decl → Bool → Build
build_local f v load c = elim (get_local_var_index v c.local_vars_stack) [
  | none ↦ build_closure_var f v load c
  | some i ↦ load_or_save load (load_local_code i v.decl_type) (save_local_code i v.decl_type) c
]

unfoldable pub build_param : FunctionData → Decl → Bool → Build
build_param f v load = elim (place_in v f.parameters) [
  | none ↦ build_closure_var f v load
  | some i ↦ load_or_save load (load_param_code i v.decl_type) (save_param_code i v.decl_type)
]

-- `buildVar`
unfoldable pub build_var_of : Storage → FunctionData → Decl → Bool → Build
build_var_of local_storage f v load = build_local f v load
build_var_of param_storage f v load = build_param f v load
build_var_of other_storage f v load = nothing

abbrev pub build_var : FunctionData → Decl → Bool → Build
build_var f v load = build_var_of v.storage f v load

unfoldable pub build_block_ref_list : FunctionData → List Decl → Build
build_block_ref_list f [] = nothing
build_block_ref_list f (v ∷ vs) =
    emit (new_ref_code v.decl_type) >> build_var f v false >> build_block_ref_list f vs

abbrev pub block_refs : FunctionData → Option (List Decl) → Build
block_refs f none = nothing
block_refs f (some vs) = build_block_ref_list f vs

abbrev pub read_if_ref : Decl → Build
read_if_ref v = if v.is_ref then emit (read_ref_code v.decl_type) else nothing

-- A variable of the function.
unfoldable pub build_function_var : FunctionData → VarRef → Build
build_function_var f (decl_ref v) = build_var f v true >> read_if_ref v >> inc_temp 1
build_function_var f (function_ref i t) = nothing
build_function_var f (object_ref b i t) = nothing
build_function_var f other_ref = nothing

-- A global variable of a type.
unfoldable pub build_global_var : Ty → Bool → VarRef → Build
build_global_var t is_const (decl_ref v) =
    with_number (in_globals (get_var_index v.decl_id load_s)) (λ i. emit (load_global_code i t))
    >> read_if_ref v
    >> inc_temp 1
build_global_var t true (function_ref k r) =
    with_number (in_globals (get_function_index k load_s)) (λ i. emit (load_function_code i r))
    >> inc_temp 1
build_global_var t false (function_ref k r) = throw
build_global_var t is_const (object_ref true k o) =
    with_number (in_globals (get_class_index k load_s)) (λ i. emit (load_class_code i o))
    >> inc_temp 1
build_global_var t is_const (object_ref false k o) = inc_temp 1
build_global_var t is_const other_ref = throw

unfoldable pub build_var_value : FunctionData → Ty → VarKind → VarRef → Build
build_var_value f t global_var r = build_global_var t false r
build_var_value f t global_const r = build_global_var t true r
build_var_value f t other_var r = nothing
build_var_value f t _ r = build_function_var f r

-- `buildSaveVar` without the last step.
unfoldable pub save_function_var : FunctionData → Decl → Build
save_function_var f v =
    if v.is_ref
    then build_var f v true >> emit (write_ref_code v.decl_type)
    else build_var f v false

unfoldable pub save_global_var : Ty → Decl → Build
save_global_var t v =
    if v.is_ref
    then with_number (in_globals (get_var_index v.decl_id load_s))
        (λ i. emit (load_global_code i t))
      >> emit (write_ref_code v.decl_type)
    else with_number (in_globals (get_var_index v.decl_id save_s))
        (λ i. emit (save_global_code i t))

unfoldable pub save_var_of : FunctionData → Ty → VarKind → Decl → Build
save_var_of f t global_var v = save_global_var t v
save_var_of f t global_const v = save_global_var t v
save_var_of f t other_var v = throw
save_var_of f t _ v = save_function_var f v

unfoldable pub build_save_var : FunctionData → Ty → VarKind → VarRef → Build
build_save_var f t k (decl_ref v) = save_var_of f t k v >> dec_temp 1
build_save_var f t k (function_ref i r) = throw
build_save_var f t k (object_ref b i o) = throw
build_save_var f t k other_ref = throw
