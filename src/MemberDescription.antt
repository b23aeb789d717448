-- ===== src/MemberDescription.antt =====
-- src/semantics/runtime.ts, `MemberDescription`: the flags word with the override flag in bit 0
-- and the offset above bit 1. An accessor packs the offsets of its getter and setter into one
-- offset. The word is its 32-bit pattern. An offset that is read is taken as its 30 bits, before
-- the sign extension of `>>`; the masks of the accessor's offsets cut that off anyway.
pub mod Offsets
pub mod Tests
use wasmnizer_ts.Base.{Bool, ℕ, ◌%◌, ◌*◌, ◌+◌, ◌-◌, ◌/◌, ◌==◌, ◌^◌}

-- `flags & 1`
unfoldable pub is_overrid : ℕ → Bool
is_overrid flags = flags % 2 == 1

-- `flags | 1`
unfoldable pub set_overrid : ℕ → ℕ
set_overrid flags = flags - flags % 2 + 1

-- `(off << 2) | (flags & 3)`
unfoldable pub set_offset : ℕ → ℕ → ℕ
set_offset off flags = off * 4 % 2 ^ 32 + flags % 4

-- `flags >> 2`
unfoldable pub get_offset : ℕ → ℕ
get_offset flags = flags / 4

-- `((offset & 0x7fff) << 15) | (off & 0x7fff)`
unfoldable pub set_getter_offset : ℕ → ℕ → ℕ
set_getter_offset off flags = set_offset (get_offset flags % 2 ^ 15 * 2 ^ 15 + off % 2 ^ 15) flags

unfoldable pub get_getter_offset : ℕ → ℕ
get_getter_offset flags = get_offset flags % 2 ^ 15

-- `(offset & 0x7fff) | ((off & 0x7fff) << 15)`
unfoldable pub set_setter_offset : ℕ → ℕ → ℕ
set_setter_offset off flags = set_offset (get_offset flags % 2 ^ 15 + off % 2 ^ 15 * 2 ^ 15) flags

unfoldable pub get_setter_offset : ℕ → ℕ
get_setter_offset flags = get_offset flags / 2 ^ 15 % 2 ^ 15
