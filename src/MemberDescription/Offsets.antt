-- ===== src/MemberDescription/Offsets.antt =====
-- What the flags word holds after it has been written.
use wasmnizer_ts.MemberDescription.{
  get_getter_offset, get_offset, get_setter_offset, is_overrid, set_getter_offset, set_offset,
  set_overrid, set_setter_offset,
}
use wasmnizer_ts.Base.{arith, true, ℕ, ◌%◌, ◌<◌, ◌^◌, ◌≡◌}

-- An offset below 2 ^ 29 reads back, also after the member is marked as overridden, and writing it
-- keeps the mark.
pub get_offset-set_offset :
    (off flags : ℕ)
    → off < 2 ^ 29
    → (get_offset (set_offset off flags) ≡ off)
      × (get_offset (set_overrid (set_offset off flags)) ≡ off)
      × (is_overrid (set_offset off flags) ≡ is_overrid flags)
      × (is_overrid (set_overrid flags) ≡ true)
unfolding get_offset set_offset set_overrid is_overrid
get_offset-set_offset off flags h = (omega arith, omega arith, ground arith, ground arith)

-- When the getter's offset is written first and the setter's then, both read back modulo 2 ^ 15,
-- whatever the word held before, and the override mark is kept.
pub get_accessor_offsets-set :
    (getter setter flags : ℕ)
    → let word = set_setter_offset setter (set_getter_offset getter flags) in
      (get_getter_offset word ≡ getter % 2 ^ 15)
      × (get_setter_offset word ≡ setter % 2 ^ 15)
      × (is_overrid word ≡ is_overrid flags)
unfolding get_getter_offset get_setter_offset set_getter_offset set_setter_offset get_offset
    set_offset is_overrid
get_accessor_offsets-set getter setter flags = (omega arith, omega arith, ground arith)

-- Writing the getter's offset replaces the setter's offset by the getter's offset of before.
pub get_setter_offset-set_getter_offset :
    (setter getter flags : ℕ)
    → get_setter_offset (set_getter_offset getter (set_setter_offset setter flags))
      ≡ get_getter_offset flags
unfolding get_getter_offset get_setter_offset set_getter_offset set_setter_offset get_offset
    set_offset
get_setter_offset-set_getter_offset setter getter flags = omega arith
