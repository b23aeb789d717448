-- ===== src/DataPool/Tests.antt =====
-- Runs of the pool at concrete inputs, and the theorems at them.
use wasmnizer_ts.Base.{
  List, [], arith, false, none, refl, replicate, some, ℕ, ◌%◌, ◌++◌, ◌+◌, ◌<◌, ◌↔◌, ◌∷◌, ◌≡◌, ◌≤◌,
}
use wasmnizer_ts.DataPool.{
  DataPool, add_byte, add_int32, add_string, append_string, find_string, get_data, get_string_count,
  new_data_pool, new_uint8_array, pad_zeros, store_string, update_buffer_size, write_at,
  write_codes,
}
use wasmnizer_ts.DataPool.Bytes.{IsValid}
use wasmnizer_ts.DataPool.Words.{word_at}
use wasmnizer_ts.DataPool.Strings.{is_latin1}
use wasmnizer_ts.DataPool.AddString.{add_string-eq-none_iff, get_data-add_string}
use wasmnizer_ts.DataPool.Contents.{bytes, contents, contents-add_int32, contents-add_string}
use wasmnizer_ts.DataPool.Interning.{Reach-no_sharing, start}

new_data_pool-IsValid : IsValid new_data_pool
new_data_pool-IsValid = record {
  within = omega arith;
  sized = refl;
  octets = λ j. omega arith;
  aligned = refl;
}

-- A small pool that already holds one word.
abbrev small : DataPool
small = record { buffer = record { len = 8; at = λ _. 7 }; capacity = 8; size = 4; str_map = [] }

small-IsValid : IsValid small
small-IsValid = record {
  within = omega arith;
  sized = refl;
  octets = λ j. omega arith;
  aligned = refl;
}

-- "ab"
abbrev ab : List ℕ
ab = 97 ∷ 98 ∷ []

contents-add_int32_run :
    contents (add_int32 0x01020304 small).1 ≡ 7 ∷ 7 ∷ 7 ∷ 7 ∷ 4 ∷ 3 ∷ 2 ∷ 1 ∷ []
unfolding contents bytes add_int32 add_byte update_buffer_size
contents-add_int32_run = refl

wide_throws : add_string (300 ∷ []) small ≡ none
unfolding add_string append_string store_string write_codes update_buffer_size
wide_throws = refl

contents-add_int32_example :
    (contents (add_int32 0x01020304 small).1 ≡ contents small ++ 4 ∷ 3 ∷ 2 ∷ 1 ∷ [])
    × ((add_int32 0x01020304 small).0 ≡ 4)
    × (word_at (add_int32 0x01020304 small).1 4 ≡ 0x01020304)
    × IsValid (add_int32 0x01020304 small).1
contents-add_int32_example = contents-add_int32 0x01020304 small small-IsValid

contents-add_string_example :
    (q : DataPool) × (pad : ℕ) × (add_string ab small ≡ some (4, q))
    × (contents q ≡ contents small ++ (ab ++ replicate (pad + 1) 0))
    × (pad ≤ 3)
    × (q.size % 4 ≡ 0)
    × IsValid q
unfolding find_string
contents-add_string_example = contents-add_string ab small small-IsValid refl refl (omega arith)

add_string-eq-none_iff_example :
    (add_string (300 ∷ []) small ≡ none)
    ↔ ((find_string (300 ∷ []) [] ≡ none) × (is_latin1 (300 ∷ []) ≡ false))
add_string-eq-none_iff_example = add_string-eq-none_iff (300 ∷ []) small small-IsValid

-- Four characters fill the small pool: no room is left for the terminator.
get_data-add_string_example :
    (q : DataPool) × (add_string (1 ∷ 2 ∷ 3 ∷ 4 ∷ []) small ≡ some (4, q))
    × ((get_data q ≡ none) ↔ (8 ≤ ◌+◌ 4 4))
unfolding find_string
get_data-add_string_example = get_data-add_string (1 ∷ 2 ∷ 3 ∷ 4 ∷ []) small small-IsValid refl refl

abbrev with_ab : DataPool
with_ab = record {
  buffer = write_at (write_at (write_at (write_at (new_uint8_array 4096) 0 97) 1 98) 2 0) 3 0;
  capacity = 4096;
  size = 4;
  str_map = [];
}

add_ab : add_string ab new_data_pool ≡ some (0, with_ab)
unfolding add_string find_string append_string store_string write_codes pad_zeros update_buffer_size
add_ab = refl

abbrev with_ab_ab : DataPool
with_ab_ab = record {
  buffer = write_at (write_at (write_at (write_at with_ab.buffer 4 97) 5 98) 6 0) 7 0;
  capacity = 4096;
  size = 8;
  str_map = [];
}

add_ab_again : add_string ab with_ab ≡ some (4, with_ab_ab)
unfolding add_string find_string append_string store_string write_codes pad_zeros update_buffer_size
add_ab_again = refl

Reach-no_sharing_example : (get_string_count with_ab ≡ 0) × (◌<◌ 0 4)
Reach-no_sharing_example = Reach-no_sharing ab 0 4 start add_ab add_ab_again
