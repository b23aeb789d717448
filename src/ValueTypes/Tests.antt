-- ===== src/ValueTypes/Tests.antt =====
-- The theorems on a function type over a union, and on types of arrays.
use wasmnizer_ts.ValueTypes.{
  ValueType, all_types, any_type, array_type, arrays_equal, base_equal, count_types, equals,
  equals_step, function_type, functions_equal, maps_equal, no_types, parameters_equal, plain,
  sets_equal, type_parameter, types, union_type, unions_equal,
}
use wasmnizer_ts.ValueTypes.Same.{SameType}
use wasmnizer_ts.ValueTypes.Equality.{depth, equals-SameType}
use wasmnizer_ts.ValueTypes.Symmetry.{equals-symmetric, union_free}
use wasmnizer_ts.Base.{Bool, arith, false, none, refl, some, true, ◌↔◌, ◌≡◌, ◌≤◌}

abbrev number : ValueType
number = plain 6 6

abbrev text : ValueType
text = plain 8 8

abbrev a_union : ValueType
a_union = union_type 40 (types number (types text no_types))

abbrev a_function : ValueType
a_function = function_type text (types a_union (types (array_type number) no_types))

-- Every two objects are the same.
abbrev always : ValueType → ValueType → Bool
always t u = true

-- No two objects are.
abbrev never : ValueType → ValueType → Bool
never t u = false

depth_fits : depth a_function ≤ 8
unfolding depth
depth_fits = omega arith

equals-SameType_example :
    (equals always 8 a_function a_function ≡ true) ↔ SameType always a_function a_function
equals-SameType_example = equals-SameType always a_function a_function 8 depth_fits depth_fits

no_union : union_free (array_type (type_parameter none number)) ≡ true
unfolding union_free
no_union = refl

no_other_union : union_free (array_type (type_parameter (some 9) number)) ≡ true
unfolding union_free
no_other_union = refl

equals-symmetric_example :
    equals never 4
      (array_type (type_parameter none number))
      (array_type (type_parameter (some 9) number))
    ≡ equals never 4
        (array_type (type_parameter (some 9) number))
        (array_type (type_parameter none number))
equals-symmetric_example =
    equals-symmetric never (array_type (type_parameter none number))
      (array_type (type_parameter (some 9) number)) 4 no_union no_other_union

-- Of unions with one type id and one size it asks only one direction.
abbrev repeated : ValueType
repeated =
    union_type 40
      (types (type_parameter none number) (types (type_parameter (some 9) number) no_types))

abbrev distinct : ValueType
distinct = union_type 40 (types (type_parameter (some 9) number) (types text no_types))

one_way : equals never 4 repeated distinct ≡ true
unfolding equals equals_step base_equal sets_equal maps_equal arrays_equal unions_equal
    functions_equal all_types any_type count_types parameters_equal
one_way = refl

not_back : equals never 4 distinct repeated ≡ false
unfolding equals equals_step base_equal sets_equal maps_equal arrays_equal unions_equal
    functions_equal all_types any_type count_types parameters_equal
not_back = refl
