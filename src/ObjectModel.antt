-- ===== src/ObjectModel.antt =====
-- src/semantics/runtime.ts: object descriptions, their members and the shapes built between them.
-- A name is a number standing for the string; a value type and a method are numbers standing for
-- the objects. `none` stands for an exception. Arrays have holes, and a write past the end extends
-- them.
--
-- The flags word of a member is modelled in `MemberDescription`.
pub mod Arrays
pub mod Members
pub mod Shapes
pub mod Counterparts
pub mod Building
pub mod Updates
pub mod Tests
use wasmnizer_ts.MemberDescription.{set_overrid}
use wasmnizer_ts.Base.{
  Bool, List, Option, [], drop, if◌then◌else◌, none, some, suc, zero, ℕ, ◌+◌, ◌==◌, ◌∷◌,
}

pub data MemberType : Type 0 where
  field_member method_member constructor_member accessor_member : MemberType

pub record MemberInfo : Type 0 where
  pub name : ℕ
  pub type : MemberType
  pub index : ℕ
  pub is_optional : Bool
  pub value_type : ℕ
  pub method_or_accessor : Option ℕ
  pub is_own : Bool
  pub is_static : Bool
  pub static_field_init_value : Option ℕ
  pub flags : ℕ

abbrev pub Members : Type 0
Members = List (Option MemberInfo)

-- `members.find((m) => m && name == m.name)`, with the place.
unfoldable pub find_from : ℕ → ℕ → Members → Option (ℕ × MemberInfo)
find_from k n [] = none
find_from k n (none ∷ ms) = find_from (k + 1) n ms
find_from k n (some m ∷ ms) = if m.name == n then some (k, m) else find_from (k + 1) n ms

abbrev pub find_member : ℕ → Members → Option (ℕ × MemberInfo)
find_member n ms = find_from 0 n ms

-- The loop of `findFreeSlot`, on the members from `start` on; `none` is its exception.
unfoldable pub free_from : ℕ → Members → Option ℕ
free_from start [] = none
free_from start (none ∷ ms) = some start
free_from start (some m ∷ ms) = free_from (start + 1) ms

unfoldable pub find_free_slot : Members → ℕ → Option ℕ
find_free_slot ms start = free_from start (drop start ms)

-- `members[slot] = m`
unfoldable pub put {ℓ} : {A : Type ℓ} → List (Option A) → ℕ → A → List (Option A)
put [] zero a = some a ∷ []
put [] (suc i) a = none ∷ put [] i a
put (x ∷ xs) zero a = some a ∷ xs
put (x ∷ xs) (suc i) a = x ∷ put xs i a

-- What `updateMember` reads and writes: the members, and those of the base if there is one.
pub record Descriptions : Type 0 where
  pub members : Members
  pub base_members : Option Members

-- The arguments of `updateMember` but for the place.
pub record NewMember : Type 0 where
  pub new_name : ℕ
  pub new_type : MemberType
  pub new_optional : Bool
  pub new_value_type : ℕ
  pub new_own : Bool
  pub new_method_or_accessor : Option ℕ
  pub new_static : Bool
  pub new_init_value : Option ℕ

abbrev pub member_of : NewMember → ℕ → Option ℕ → MemberInfo
member_of a i accessor = record {
  name = a.new_name;
  type = a.new_type;
  index = i;
  is_optional = a.new_optional;
  value_type = a.new_value_type;
  method_or_accessor = accessor;
  is_own = a.new_own;
  is_static = a.new_static;
  static_field_init_value = a.new_init_value;
  flags = 0;
}

-- The member of that name in the base, except for the name `constructor`.
unfoldable pub super_member : ℕ → ℕ → Option Members → Option (ℕ × MemberInfo)
super_member constructor_name n none = none
super_member constructor_name n (some ms) = if n == constructor_name then none else find_member n ms

unfoldable pub mark_overrid : MemberInfo → MemberInfo
mark_overrid m = record m { flags = set_overrid m.flags }

-- `setOverrid` on the member of the base at its place.
abbrev pub mark_at : ℕ → MemberInfo → Option Members → Option Members
mark_at k m none = none
mark_at k m (some ms) = some (put ms k (mark_overrid m))

-- The new member, and the descriptions after.
unfoldable pub update_member : ℕ → NewMember → ℕ → Descriptions → Option (MemberInfo × Descriptions)
update_member constructor_name a i d =
    elim (super_member constructor_name a.new_name d.base_members) [
      | some (k, s) ↦
          let m =
            member_of a s.index
              (if a.new_own then a.new_method_or_accessor else s.method_or_accessor) in
          some (
            m,
            record { members = put d.members s.index m; base_members = mark_at k s d.base_members },
          )
      | none ↦ elim (find_free_slot d.members i) [
        | none ↦ none
        | some slot ↦
            let m = member_of a i a.new_method_or_accessor in
            some (m, record { members = put d.members slot m; base_members = d.base_members })
      ]
    ]
