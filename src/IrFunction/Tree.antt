-- ===== src/IrFunction/Tree.antt =====
-- The values that `IRFunction` builds code for (src/semantics/value.ts, `VarDeclareNode` and the
-- function of src/semantics/semantics_nodes.ts), with what it reads of them. Objects that are keys
-- of a map are numbers standing for their identities, and a name is a number standing for the
-- string. A missing list of parameters is an empty one; a type parameter list is left out.
use wasmnizer_ts.IrCode.{Operator, Ty}
use wasmnizer_ts.Base.{Bool, List, Option, ℕ, ◌+◌}

-- `VarStorageType`
pub data Storage : Type 0 where
  local_storage param_storage other_storage : Storage

pub record Decl : Type 0 where
  pub decl_id : ℕ
  pub decl_name : ℕ
  pub storage : Storage
  pub decl_type : Ty
  pub is_ref : Bool

-- What a variable refers to: a function with its return type; an object type, with whether it is a
-- class object, and its instance type; or a declaration.
pub data VarRef : Type 0 where
  function_ref : ℕ → Ty → VarRef
  object_ref : Bool → ℕ → Ty → VarRef
  decl_ref : Decl → VarRef
  other_ref : VarRef

pub data VarKind : Type 0 where
  local_var local_const param_var closure_var closure_const : VarKind
  global_var global_const other_var : VarKind

pub record VarValue : Type 0 where
  pub var_kind : VarKind
  pub var_ref : VarRef

pub record BlockData : Type 0 where
  pub id : ℕ
  pub is_loop : Bool
  pub var_list : Option (List Decl)
  pub ref_list : Option (List Decl)

pub data ElementKind : Type 0 where
  string_index array_index object_index object_key : ElementKind

-- A value is its type and what its class adds. The lists of a class come last.
mutual
  pub data Value : Type 0 where
    value : Ty → Body → Value

  pub data Body : Type 0 where
    block_value : BlockData → Values → Body
    block_branch : ℕ → Body
    block_branch_if : ℕ → Bool → Value → Body
    this_value super_value : Body
    literal_value : ℕ → Body
    var_value : VarValue → Body
    binary_expr : Operator → Value → Value → Body
    function_call : Value → Values → Body
    closure_call : Body
    element_get : ElementKind → Value → Value → Body
    element_set : ElementKind → Option Operator → Value → Value → Value → Body
    new_constructor_object : ℕ → Ty → Values → Body
    new_literal_object : ℕ → Ty → List ℕ → Inits → Body
    new_from_class_object : Value → Values → Body
    new_literal_array new_array : Values → Body
    new_array_len : Value → Body
    new_closure_function : ℕ → Option (List (Option (Decl × Ty))) → Body
    plain_cast : Value → Body
    object_cast_object : Option (ℕ × ℕ) → ℕ → Value → Body
    direct_getter : VarRef → Value → Body
    direct_setter : VarRef → Option VarRef → Option Operator → Value → Value → Body
    direct_call : VarRef → Ty → Value → Values → Body
    offset_get offset_getter : ℕ → Value → Body
    offset_set : ℕ → Option Operator → Value → Value → Body
    offset_setter : ℕ → Option ℕ → Option Operator → Value → Value → Body
    offset_call : ℕ → Ty → Ty → Value → Values → Body
    vtable_get shape_get : ℕ → Value → Body
    vtable_set shape_set : ℕ → Option Operator → Value → Value → Body
    vtable_call shape_call : ℕ → Value → Values → Body
    dynamic_get : List ℕ → Value → Body
    dynamic_set : List ℕ → Option Operator → Value → Value → Body
    dynamic_call : List ℕ → Value → Values → Body
    return_value : Value → Body
    return_nothing other_value : Body

  pub data Values : Type 0 where
    no_values : Values
    values : Value → Values → Values

  -- The initial values of an object literal, of which some are missing.
  pub data Inits : Type 0 where
    no_inits : Inits
    missing : Inits → Inits
    an_init : Value → Inits → Inits

abbrev pub type_of : Value → Ty
type_of (value t b) = t

unfoldable pub count_values : Values → ℕ
count_values no_values = 0
count_values (values v vs) = 1 + count_values vs

unfoldable pub count_inits : Inits → ℕ
count_inits no_inits = 0
count_inits (missing is) = 1 + count_inits is
count_inits (an_init v is) = 1 + count_inits is

-- The function a context is for: parameters, captured variables, variables, and the type of `this`
-- with its super type.
pub record FunctionData : Type 0 where
  pub parameters : Option (List Decl)
  pub closure_vars : Option (List Decl)
  pub function_vars : Option (List Decl)
  pub this_class : Option (Ty × Option Ty)
