-- ===== src/DataPool.antt =====
-- src/semantics/ir/data_pool.ts: the growing byte buffer into which the bytecode backend writes
-- strings and 32-bit words. An int32 argument stands for its bit pattern, a number below 2 ^ 32;
-- a string is the list of its UTF-16 code units.
pub mod Bytes
pub mod Words
pub mod Strings
pub mod AddString
pub mod Contents
pub mod Interning
pub mod Tests
use wasmnizer_ts.Base.{
  Bool, List, Option, [], false, if◌then◌else◌, leb, length, ltb, none, some, suc, true, zero, ℕ,
  ◌%◌, ◌&&◌, ◌+◌, ◌-◌, ◌/◌, ◌==◌, ◌^◌, ◌∷◌,
}

-- A JavaScript `Uint8Array`: a read out of bounds is `undefined`, a write there does nothing, and
-- a stored number is cut to its low eight bits.
pub record Uint8Array : Type 0 where
  pub len : ℕ
  pub at : ℕ → ℕ

abbrev pub new_uint8_array : ℕ → Uint8Array
new_uint8_array n = record { len = n; at = λ _. 0 }

abbrev pub read_at : Uint8Array → ℕ → Option ℕ
read_at a i = if ltb i a.len then some (a.at i) else none

abbrev pub write_at : Uint8Array → ℕ → ℕ → Uint8Array
write_at a i v =
    if ltb i a.len then record a { at = λ j. if j == i then v % 256 else a.at j } else a

-- `undefined` is stored as 0.
abbrev pub to_byte : Option ℕ → ℕ
to_byte none = 0
to_byte (some v) = v

abbrev pub inc_size : ℕ
inc_size = 4096

pub record DataPool : Type 0 where
  pub buffer : Uint8Array
  pub capacity : ℕ
  pub size : ℕ
  pub str_map : List (List ℕ × ℕ)

abbrev pub new_data_pool : DataPool
new_data_pool = record {
  buffer = new_uint8_array inc_size;
  capacity = inc_size;
  size = 0;
  str_map = [];
}

-- `for (let i = 0; i < this.size; i++) buffer[i] = this.buffer[i]`, by the rounds left.
unfoldable pub copy_bytes : ℕ → ℕ → Uint8Array → Uint8Array → Uint8Array
copy_bytes zero i from to = to
copy_bytes (suc r) i from to = copy_bytes r (i + 1) from (write_at to i (to_byte (read_at from i)))

unfoldable pub update_buffer_size : ℕ → DataPool → DataPool
update_buffer_size inc p =
    if ltb p.capacity (p.size + inc)
    then record p {
      buffer = copy_bytes p.size 0 p.buffer (new_uint8_array (p.capacity + inc_size));
      capacity = p.capacity + inc_size;
    }
    else p

unfoldable pub add_byte : ℕ → DataPool → ℕ × DataPool
add_byte byte p =
    let q = update_buffer_size 1 p in
    (q.size + 1 - 1, record q { buffer = write_at q.buffer q.size (byte % 256); size = q.size + 1 })

unfoldable pub get_current_size : DataPool → ℕ
get_current_size p = p.size

-- Little endian.
unfoldable pub add_int32 : ℕ → DataPool → ℕ × DataPool
add_int32 n p =
    let (size, p1) = add_byte (n % 256) p in
    let (_, p2) = add_byte (n / 2 ^ 8 % 256) p1 in
    let (_, p3) = add_byte (n / 2 ^ 16 % 256) p2 in
    let (_, p4) = add_byte (n / 2 ^ 24 % 256) p3 in (size, p4)

unfoldable pub set_byte : ℕ → ℕ → DataPool → DataPool
set_byte idx byte p = record p { buffer = write_at p.buffer idx (byte % 256) }

unfoldable pub set_int32 : ℕ → ℕ → DataPool → DataPool
set_int32 idx n p = set_byte (idx + 3) (n / 2 ^ 24 % 256) (
    set_byte (idx + 2) (n / 2 ^ 16 % 256)
      (set_byte (idx + 1) (n / 2 ^ 8 % 256) (set_byte idx (n % 256) p)))

abbrev pub codes_eq : List ℕ → List ℕ → Bool
codes_eq [] [] = true
codes_eq (c ∷ cs) (d ∷ ds) = c == d && codes_eq cs ds
codes_eq _ _ = false

unfoldable pub find_string : List ℕ → List (List ℕ × ℕ) → Option ℕ
find_string s [] = none
find_string s ((t, n) ∷ m) = if codes_eq t s then some n else find_string s m

-- The loop over the characters; `none` is the exception 'UTF-16 string not supported'.
unfoldable pub write_codes : List ℕ → ℕ → Uint8Array → Option Uint8Array
write_codes [] i b = some b
write_codes (c ∷ cs) i b = if leb 256 c then none else write_codes cs (i + 1) (write_at b i c)

-- `while (i % 4 != 0) this.buffer[i++] = 0`, with fuel; `none` if the fuel does not suffice.
unfoldable pub pad_zeros : ℕ → ℕ → Uint8Array → Option (ℕ × Uint8Array)
pad_zeros zero i b = if i % 4 == 0 then some (i, b) else none
pad_zeros (suc f) i b =
    let rest = pad_zeros f (i + 1) (write_at b i 0) in if i % 4 == 0 then some (i, b) else rest

-- The part of `addString` behind the call that makes room.
unfoldable pub store_string : List ℕ → DataPool → Option (ℕ × DataPool)
store_string s q = elim (write_codes s q.size q.buffer) [
  | none ↦ none
  | some b ↦ elim (pad_zeros 3 (length s + q.size + 1) (write_at b (length s + q.size) 0)) [
    | none ↦ none
    | some (i, b') ↦ some (q.size, record q { buffer = b'; size = i })
  ]
]

unfoldable pub append_string : List ℕ → DataPool → Option (ℕ × DataPool)
append_string s p = store_string s (update_buffer_size (length s) p)

unfoldable pub add_string : List ℕ → DataPool → Option (ℕ × DataPool)
unfolding find_string
add_string s p = elim (find_string s p.str_map) [ some n ↦ some (n, p) | none ↦ append_string s p ]

unfoldable pub get_string_count : DataPool → ℕ
get_string_count p = length p.str_map

-- `none` is the `RangeError` of a view that is longer than its buffer.
unfoldable pub get_data : DataPool → Option Uint8Array
get_data p =
    if leb p.size p.buffer.len then some (record { len = p.size; at = p.buffer.at }) else none
