-- ===== src/ObjectModel/Shapes.antt =====
-- `buildShape` of a description that is not generic and has no shape for the other one yet. A
-- shape member is an element of any type; `none` is the exception at a hole among the
-- description's members.
use wasmnizer_ts.ObjectModel.{
  MemberInfo, MemberType, Members, accessor_member, constructor_member, field_member, find_member,
  method_member, put,
}
use wasmnizer_ts.ObjectModel.Arrays.{slot}
use wasmnizer_ts.Base.{
  Bool, List, Option, [], false, if◌then◌else◌, length, none, replicate, some, true, ℕ, ◌&&◌, ◌||◌,
  ◌∷◌,
}

pub record Shape {ℓ} (A : Type ℓ) : Type ℓ where
  pub meta : Members
  pub shape_members : Option (List (Option A))

unfoldable pub get_member {ℓ} : {A : Type ℓ} → ℕ → Option (List (Option A)) → Option A
get_member i none = none
get_member i (some xs) = slot xs i

unfoldable pub all_present {ℓ} : {A : Type ℓ} → List (Option A) → Bool
all_present [] = true
all_present (none ∷ xs) = false
all_present (some a ∷ xs) = all_present xs

unfoldable pub is_static_shape {ℓ} : {A : Type ℓ} → Option (List (Option A)) → Bool
is_static_shape none = false
is_static_shape (some xs) = all_present xs

unfoldable pub is_data : MemberType → Bool
is_data field_member = true
is_data method_member = false
is_data constructor_member = false
is_data accessor_member = true

unfoldable pub same_type : MemberType → MemberType → Bool
same_type field_member field_member = true
same_type method_member method_member = true
same_type constructor_member constructor_member = true
same_type accessor_member accessor_member = true
same_type a b = false

unfoldable pub compatible : MemberType → MemberType → Bool
compatible a b = same_type a b || (is_data a && is_data b)

-- The member of the shape `from` that stands for the member, if there is one.
unfoldable pub counterpart {ℓ} : {A : Type ℓ} → Shape A → MemberInfo → Option A
counterpart from m = elim (find_member m.name from.meta) [
  | none ↦ none
  | some (k, f) ↦ if compatible f.type m.type then get_member f.index from.shape_members else none
]

unfoldable pub store {ℓ} : {A : Type ℓ} → ℕ → Option A → List (Option A) → List (Option A)
store i none xs = xs
store i (some a) xs = put xs i a

unfoldable pub fill {ℓ} :
    {A : Type ℓ} → Shape A → Members → List (Option A) → Option (List (Option A))
fill from [] xs = some xs
fill from (none ∷ ms) xs = none
fill from (some m ∷ ms) xs = fill from ms (store m.index (counterpart from m) xs)

unfoldable pub build_shape {ℓ} : {A : Type ℓ} → Members → Shape A → Option (Shape A)
build_shape {A = A} ms from = elim (fill from ms (replicate {A = Option A} (length ms) none)) [
  | none ↦ none
  | some xs ↦ some (record { meta = ms; shape_members = some xs })
]
