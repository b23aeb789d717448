-- ===== src/DataPool/AddString.antt =====
-- `addString` as a whole: what it stores, when it throws, and when the buffer is too small for it.
use wasmnizer_ts.Base.{
  Bool-cases, List, arith, false, get_or, if◌then◌else◌, inl, inr, length, ltb, none, refl, some,
  sym, true, ℕ, ◌%◌, ◌+◌, ◌<◌, ◌↔◌, ◌∙◌, ◌≡◌, ◌≤◌,
}
use wasmnizer_ts.DataPool.{
  DataPool, Uint8Array, add_string, append_string, find_string, get_data, inc_size, store_string,
  update_buffer_size, write_at, write_codes,
}
use wasmnizer_ts.DataPool.Bytes.{
  IsValid, at-write_at_ne, at-write_at_self, capacity-update_buffer_size, len-write_at,
  octets-write_at, size-update_buffer_size, update_buffer_size-Extends, update_buffer_size-IsValid,
}
use mathlib.Core.Path.{subst}
use wasmnizer_ts.DataPool.Strings.{
  Padded, at-put_codes, at-put_codes_below, is_latin1, len-put_codes, octets-put_codes, padded,
  put_codes, write_codes-eq,
}

-- The capacity that `updateBufferSize` leaves for the string: it grows once, by `inc_size`.
abbrev pub capacity_for : List ℕ → DataPool → ℕ
capacity_for s p = if ltb p.capacity (p.size + length s) then p.capacity + inc_size else p.capacity

-- What `addString` leaves behind for a string of bytes, in a pool that has been grown for it.
pub record Stored (s : List ℕ) (p q : DataPool) : Type 0 where
  pub result : store_string s p ≡ some (p.size, q)
  pub aligned_size : q.size % 4 ≡ 0
  pub end_from : p.size + length s + 1 ≤ q.size
  pub end_within : q.size ≤ p.size + length s + 4
  pub same_capacity : q.capacity ≡ p.capacity
  pub same_len : q.buffer.len ≡ p.buffer.len
  pub same_map : q.str_map ≡ p.str_map
  pub earlier : (j : ℕ) → j < p.size → q.buffer.at j ≡ p.buffer.at j
  pub characters :
      p.size + length s ≤ p.buffer.len
      → (k : ℕ) → k < length s
      → q.buffer.at (p.size + k) ≡ get_or s k 0
  pub zeros : (j : ℕ) → p.size + length s ≤ j → j < q.size → j < p.buffer.len → q.buffer.at j ≡ 0
  pub octets : ((j : ℕ) → p.buffer.at j < 256) → (j : ℕ) → q.buffer.at j < 256

store_string-result :
    (s : List ℕ) (p : DataPool) (b : Uint8Array)
    → write_codes s p.size p.buffer ≡ some b
    → (pad : Padded 3 (length s + p.size + 1) (write_at b (length s + p.size) 0))
    → store_string s p ≡ some (p.size, record p { buffer = pad.array; size = pad.stop })
unfolding store_string
store_string-result s p b e pad = rw (e, store_string) (rw (pad.result, store_string))

zeros-Padded :
    (z : ℕ) (b : Uint8Array) (pad : Padded 3 (z + 1) (write_at b z 0)) (j : ℕ)
    → z ≤ j
    → j < pad.stop
    → j < b.len
    → pad.array.at j ≡ 0
zeros-Padded z b pad j from to room =
    ground (arith, pad.below j, pad.padding j, at-write_at_self b z 0, len-write_at b z 0)

pub store_string-Stored :
    (s : List ℕ) (p : DataPool) → is_latin1 s ≡ true → (q : DataPool) × Stored s p q
store_string-Stored s p l =
    let b = put_codes s p.size p.buffer in
    let z = length s + p.size in
    let nul = write_at b z 0 in
    let pad = padded 3 (z + 1) nul (omega arith) (omega arith) in
    let len = len-put_codes s p.size p.buffer in
    (
      record p { buffer = pad.array; size = pad.stop },
      record {
        result = store_string-result s p b (rw (write_codes-eq s p.size p.buffer, l)) pad;
        aligned_size = pad.rounded;
        end_from = omega (arith, pad.from);
        end_within = omega (arith, pad.within);
        same_capacity = refl;
        same_len = pad.sized ∙ len-write_at b z 0 ∙ len;
        same_map = refl;
        earlier = λ j h.
            pad.below j (omega arith)
            ∙ at-write_at_ne b z 0 j (omega arith)
            ∙ at-put_codes_below s p.size p.buffer j h;
        characters = λ room k h.
            pad.below (p.size + k) (omega arith)
            ∙ at-write_at_ne b z 0 (p.size + k) (omega arith)
            ∙ at-put_codes s p.size p.buffer k l h room;
        zeros =
            λ j from to room. zeros-Padded z b pad j (omega arith) to (omega (arith, room, len));
        octets = λ o. pad.octets (octets-write_at b z 0 (octets-put_codes s p.size p.buffer o));
      },
    )

pub store_string-throws :
    (s : List ℕ) (p : DataPool) → is_latin1 s ≡ false → store_string s p ≡ none
unfolding store_string
store_string-throws s p l =
    rw (write_codes-eq s p.size p.buffer, store_string) (rw (l, store_string))

-- `addString` throws exactly for a string that is not yet known and has a code unit above 255.
pub add_string-eq-none_iff :
    (s : List ℕ) (p : DataPool)
    → IsValid p
    → (add_string s p ≡ none) ↔ ((find_string s p.str_map ≡ none) × (is_latin1 s ≡ false))
unfolding add_string append_string
add_string-eq-none_iff s p v =
    let g = update_buffer_size (length s) p in
    let w = update_buffer_size-IsValid (length s) p v in
    elim (Bool-cases (is_latin1 s)) [
      | inl l ↦ let (q, r) = store_string-Stored s g l in ground (arith, r.result)
      | inr l ↦ ground (arith, store_string-throws s g l)
    ]

-- The facts about a string that fits, byte by byte.
pub add_string_fits :
    (s : List ℕ) (p : DataPool)
    → IsValid p
    → find_string s p.str_map ≡ none
    → is_latin1 s ≡ true
    → p.size + length s < capacity_for s p
    → (q : DataPool) × (add_string s p ≡ some (p.size, q))
      × IsValid q
      × ((k : ℕ) → k < length s → q.buffer.at (p.size + k) ≡ get_or s k 0)
      × ((j : ℕ) → p.size + length s ≤ j → j < q.size → q.buffer.at j ≡ 0)
      × (p.size + length s < q.size)
      × (q.size ≤ p.size + length s + 4)
      × (q.size % 4 ≡ 0)
      × ((j : ℕ) → j < p.size → q.buffer.at j ≡ p.buffer.at j)
unfolding add_string append_string
add_string_fits s p v new l room =
    let g = update_buffer_size (length s) p in
    let w = update_buffer_size-IsValid (length s) p v in
    let e = update_buffer_size-Extends (length s) p v in
    let (q, r) = store_string-Stored s g l in
    let size = size-update_buffer_size (length s) p in
    let cap = capacity-update_buffer_size (length s) p in
    let fits : p.size + length s < g.capacity = omega (arith, cap, room) in
    let inside : p.size + length s < g.buffer.len = omega (arith, fits, w.sized) in
    (
      q,
      ground (arith, r.result, size),
      record {
        within =
            omega (arith, r.end_within, r.aligned_size, w.aligned, fits, size, r.same_capacity);
        sized = r.same_len ∙ w.sized ∙ sym r.same_capacity;
        octets = r.octets w.octets;
        aligned = omega (arith, w.aligned, r.same_capacity);
      },
      λ k h.
          subst (λ n. q.buffer.at (n + k) ≡ get_or s k 0) size
            (r.characters (omega (arith, inside, size)) k h),
      λ j from to.
          r.zeros j (omega (arith, size)) to
            (omega (arith, fits, size, r.end_within, r.aligned_size, w.sized, w.aligned)),
      omega (arith, r.end_from, size),
      omega (arith, r.end_within, size),
      r.aligned_size,
      λ j h. r.earlier j (omega (arith, size)) ∙ e.keeps j h,
    )

-- After a new string of bytes has been added to a valid pool, `getData` throws (its view is longer
-- than the buffer) exactly when the string and its terminator do not fit the room that one growth
-- step leaves.
pub get_data-add_string :
    (s : List ℕ) (p : DataPool)
    → IsValid p
    → find_string s p.str_map ≡ none
    → is_latin1 s ≡ true
    → (q : DataPool) × (add_string s p ≡ some (p.size, q))
      × ((get_data q ≡ none) ↔ (capacity_for s p ≤ p.size + length s))
unfolding add_string append_string get_data
get_data-add_string s p v new l =
    let g = update_buffer_size (length s) p in
    let w = update_buffer_size-IsValid (length s) p v in
    let (q, r) = store_string-Stored s g l in
    let size = size-update_buffer_size (length s) p in
    let cap = capacity-update_buffer_size (length s) p in
    let sized = w.sized in
    (
      q,
      ground (arith, r.result, size),
      (
        λ h.
            let over : q.buffer.len < q.size = ground arith in
            omega (arith, over, r.same_len, r.end_within, r.aligned_size, w.aligned, cap, size),
        λ h.
            let over : q.buffer.len < q.size =
              omega (arith, r.end_from, size, cap, h, sized, r.same_len) in
            ground (arith, over),
      ),
    )
