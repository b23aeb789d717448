-- ===== src/ObjectModel/Tests.antt =====
-- The theorems on two classes with a few members; the names are 1 for `constructor`, 2, 3 and 4.
use mathlib.Core.Option.{some-injective, none-ne-some}
use wasmnizer_ts.ObjectModel.{
  MemberInfo, MemberType, Members, NewMember, accessor_member, field_member, find_free_slot,
  find_from, free_from, mark_overrid, member_of, method_member, put, super_member, update_member,
}
use wasmnizer_ts.ObjectModel.Arrays.{slot}
use wasmnizer_ts.ObjectModel.Members.{IsLeastFree, NoneFree}
use wasmnizer_ts.ObjectModel.Updates.{
  IsPlaced, IsWritten, update_member-fresh, update_member-override,
}
use wasmnizer_ts.ObjectModel.Building.{Holds, a_member, build_shape_lem, no_members}
use wasmnizer_ts.ObjectModel.Shapes.{
  Shape, build_shape, compatible, counterpart, fill, get_member, is_data, is_static_shape,
  same_type, store,
}
use wasmnizer_ts.Base.{
  List, Option, [], ap, false, length, none, refl, some, suc, sym, true, zero, ℕ, ◌<◌, ◌↔◌, ◌∷◌,
  ◌≡◌, ◌≢◌, ◌⊎◌,
}

abbrev a_method : ℕ → MemberType → NewMember
a_method n t = record {
  new_name = n;
  new_type = t;
  new_optional = false;
  new_value_type = 7;
  new_own = true;
  new_method_or_accessor = some 5;
  new_static = false;
  new_init_value = none;
}

abbrev plain : ℕ → MemberType → ℕ → MemberInfo
plain n t i = member_of (a_method n t) i (some 5)

abbrev base_table : Members
base_table = some (plain 2 field_member 0) ∷ some (plain 3 method_member 1) ∷ []

abbrev sub_table : Members
sub_table = some (plain 4 field_member 0) ∷ none ∷ none ∷ []

base-IsPlaced : IsPlaced base_table
unfolding slot
base-IsPlaced zero m e =
    ap (λ (t : MemberInfo). t.index) (some-injective m (plain 2 field_member 0) (sym e))
base-IsPlaced (suc zero) m e =
    ap (λ (t : MemberInfo). t.index) (some-injective m (plain 3 method_member 1) (sym e))
base-IsPlaced (suc (suc k)) m e = absurd (none-ne-some m e)

sub-IsPlaced : IsPlaced sub_table
unfolding slot
sub-IsPlaced zero m e =
    ap (λ (t : MemberInfo). t.index) (some-injective m (plain 4 field_member 0) (sym e))
sub-IsPlaced (suc zero) m e = absurd (none-ne-some m e)
sub-IsPlaced (suc (suc zero)) m e = absurd (none-ne-some m e)
sub-IsPlaced (suc (suc (suc k))) m e = absurd (none-ne-some m e)

update_member-override_example :
    (m : MemberInfo) × (ms' : Members) × (update_member 1
        (a_method 3 method_member)
        2
        (record { members = sub_table; base_members = some base_table })
      ≡ some (
        m,
        record {
          members = ms';
          base_members = some (put base_table 1 (mark_overrid (plain 3 method_member 1)));
        },
      ))
    × (m.name ≡ 3)
    × IsWritten sub_table ms' 1 m
    × IsPlaced ms'
    × IsWritten base_table
        (put base_table 1 (mark_overrid (plain 3 method_member 1)))
        1
        (mark_overrid (plain 3 method_member 1))
    × (super_member 1 3 (some (put base_table 1 (mark_overrid (plain 3 method_member 1))))
        ≡ some (1, mark_overrid (plain 3 method_member 1)))
unfolding super_member find_from
update_member-override_example =
    update_member-override 1 2 (a_method 3 method_member) sub_table base_table 1
      (plain 3 method_member 1) sub-IsPlaced base-IsPlaced refl

update_member-fresh_example :
    ((update_member 1
          (a_method 5 method_member)
          0
          (record { members = sub_table; base_members = some base_table })
        ≡ none)
      × NoneFree sub_table 0)
    ⊎ ((k : ℕ) × (m : MemberInfo) × (ms' : Members) × (update_member 1
            (a_method 5 method_member)
            0
            (record { members = sub_table; base_members = some base_table })
          ≡ some (m, record { members = ms'; base_members = some base_table }))
        × (m.name ≡ 5)
        × (m.index ≡ 0)
        × IsLeastFree sub_table 0 k
        × IsWritten sub_table ms' k m
        × (IsPlaced ms' ⊎ (0 < k)))
unfolding super_member find_from
update_member-fresh_example =
    update_member-fresh 1 0 (a_method 5 method_member) sub_table (some base_table) sub-IsPlaced refl

-- The place taken, the second, is not the index.
fresh_place : find_free_slot sub_table 0 ≡ some 1
unfolding find_free_slot free_from
fresh_place = refl

abbrev a_shape : Shape ℕ
a_shape = record { meta = base_table; shape_members = some (some 20 ∷ some 30 ∷ []) }

abbrev swapped : Members
swapped = some (plain 3 method_member 0) ∷ some (plain 2 accessor_member 1) ∷ []

build_shape_lem_example :
    (ys : List (Option ℕ)) × (build_shape swapped a_shape
      ≡ some (record { meta = swapped; shape_members = some ys }))
    × (length ys ≡ 2)
    × ((k : ℕ) → Holds a_shape (slot swapped k) (slot ys k))
    × ((is_static_shape (some ys) ≡ true) ↔ ((k : ℕ) → k < 2 → slot ys k ≢ none))
build_shape_lem_example = build_shape_lem swapped a_shape (a_member refl (a_member refl no_members))

-- Both members have their counterparts, at each other's places.
built :
    build_shape swapped a_shape
    ≡ some (record { meta = swapped; shape_members = some (some 30 ∷ some 20 ∷ []) })
unfolding build_shape fill store counterpart get_member slot put find_from compatible same_type
    is_data
built = refl
