-- ===== src/MemberDescription/Tests.antt =====
-- The theorems of the flags word at concrete offsets.
use wasmnizer_ts.MemberDescription.{
  get_getter_offset, get_setter_offset, is_overrid, set_getter_offset, set_setter_offset,
}
use wasmnizer_ts.MemberDescription.Offsets.{get_accessor_offsets-set}
use wasmnizer_ts.Base.{◌≡◌}

get_accessor_offsets-set_example :
    (get_getter_offset (set_setter_offset 9 (set_getter_offset 8 1)) ≡ 8)
    × (get_setter_offset (set_setter_offset 9 (set_getter_offset 8 1)) ≡ 9)
    × (is_overrid (set_setter_offset 9 (set_getter_offset 8 1)) ≡ is_overrid 1)
get_accessor_offsets-set_example = get_accessor_offsets-set 8 9 1
