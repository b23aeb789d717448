-- ===== src/ValueTypes.antt =====
-- src/semantics/value_types.ts: `equals` of the classes of types. A type is a finite tree; a
-- description is a number standing for its identity, and a type id of -1 is `none`. Whether two
-- types are the same object, which `Set.has` asks, is a parameter.
pub mod Equality
pub mod Same
pub mod Symmetry
pub mod Tests
use wasmnizer_ts.Base.{
  Bool, Option, false, if◌then◌else◌, none, some, suc, true, zero, ℕ, ◌&&◌, ◌+◌, ◌==◌, ◌||◌,
}

-- The classes with an `equals` of their own and, as `plain`, those without, by their kind. An
-- object type has its `LITERAL` flag, its description and its type id; an array its element.
mutual
  pub data ValueType : Type 0 where
    plain : ℕ → ℕ → ValueType
    set_type : ℕ → ValueType → ValueType
    map_type : ℕ → ValueType → ValueType → ValueType
    object_type : Bool → ℕ → ℕ → ValueType
    array_type : ValueType → ValueType
    union_type : ℕ → ValueTypes → ValueType
    function_type : ValueType → ValueTypes → ValueType
    type_parameter : Option ℕ → ValueType → ValueType

  pub data ValueTypes : Type 0 where
    no_types : ValueTypes
    types : ValueType → ValueTypes → ValueTypes

unfoldable pub count_types : ValueTypes → ℕ
count_types no_types = 0
count_types (types t ts) = 1 + count_types ts

-- A search and a test of all elements.
unfoldable pub any_type : (ValueType → Bool) → ValueTypes → Bool
any_type f no_types = false
any_type f (types t ts) = f t || any_type f ts

unfoldable pub all_types : (ValueType → Bool) → ValueTypes → Bool
all_types f no_types = true
all_types f (types t ts) = f t && all_types f ts

unfoldable pub all_pairs : (ValueType → ValueType → Bool) → ValueTypes → ValueTypes → Bool
all_pairs f no_types us = true
all_pairs f (types t ts) no_types = false
all_pairs f (types t ts) (types u us) = f t u && all_pairs f ts us

-- `this.typeId == other.typeId` where neither is -1, and else what the wide types say.
unfoldable pub parameters_equal : Option ℕ → Option ℕ → Bool → Bool
parameters_equal (some i) (some j) wide = i == j
parameters_equal none j wide = wide
parameters_equal (some i) none wide = wide

unfoldable pub objects_equal : Bool → Bool → Bool → Bool → Bool
objects_equal literal other_literal same_id same_meta =
    if literal && other_literal then same_id else same_meta

-- The answers of a call of `equals` are an argument, `eq`, of the methods that follow.
abbrev pub Test : Type 0
Test = ValueType → ValueType → Bool

-- `ValueType.equals` of a type that is not a function, for two types of one kind.
unfoldable pub base_equal : ℕ → ℕ → Bool
base_equal i j = i == j

unfoldable pub sets_equal : Test → ℕ → ValueType → ℕ → ValueType → Bool
sets_equal eq i e j f = base_equal i j && eq e f

unfoldable pub maps_equal : Test → ℕ → ValueType → ValueType → ℕ → ValueType → ValueType → Bool
maps_equal eq i k v j l w = base_equal i j && (eq k l && eq v w)

unfoldable pub arrays_equal : Test → ValueType → ValueType → Bool
arrays_equal eq e f = eq e f

unfoldable pub unions_equal : Test → Test → ℕ → ValueTypes → ℕ → ValueTypes → Bool
unions_equal same eq i ts j us =
    base_equal i j
    && ((count_types ts == count_types us)
        && all_types (λ t. any_type (λ u. same u t) us || any_type (λ u. eq u t) us) ts)

unfoldable pub functions_equal : Test → ValueType → ValueTypes → ValueType → ValueTypes → Bool
functions_equal eq r ps s qs = eq r s && ((count_types ps == count_types qs) && all_pairs eq ps qs)

-- One call of `equals`. Types of two classes have two kinds.
unfoldable pub equals_step : Test → Test → ValueType → ValueType → Bool
equals_step same eq (plain k i) (plain l j) = (k == l) && base_equal i j
equals_step same eq (set_type i e) (set_type j f) = sets_equal eq i e j f
equals_step same eq (map_type i k v) (map_type j l w) = maps_equal eq i k v j l w
equals_step same eq (object_type a m i) (object_type b n j) = objects_equal a b (i == j) (m == n)
equals_step same eq (array_type e) (array_type f) = arrays_equal eq e f
equals_step same eq (union_type i ts) (union_type j us) = unions_equal same eq i ts j us
equals_step same eq (function_type r ps) (function_type s qs) = functions_equal eq r ps s qs
equals_step same eq (type_parameter i w) (type_parameter j v) = parameters_equal i j (eq w v)
equals_step same eq _ _ = false

-- `equals` to a depth.
unfoldable pub equals : (ValueType → ValueType → Bool) → ℕ → ValueType → ValueType → Bool
equals same zero a b = false
equals same (suc n) a b = equals_step same (equals same n) a b
