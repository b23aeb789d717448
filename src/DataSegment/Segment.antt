-- ===== src/DataSegment/Segment.antt =====
-- The bytes of the generated segment.
use mathlib.Core.Path.{subst}
use wasmnizer_ts.DataSegment.{
  DataSegmentContext, SegmentInfo, add_data, add_string, generate_segment, new_data_segment_context,
  reserved_space, write_bytes, write_infos,
}
use wasmnizer_ts.DataSegment.Layout.{
  IsValid, Laid, add_data-IsValid, add_string-IsValid, laid_cons, laid_nil,
  new_data_segment_context-IsValid,
}
use wasmnizer_ts.DataPool.{Uint8Array, new_uint8_array, write_at}
use wasmnizer_ts.DataPool.Bytes.{at-write_at_ne, at-write_at_self, len-write_at}
use wasmnizer_ts.Base.{
  List, [], add-zero, arith, get_elem?, get_or, length, refl, some, suc, zero, ℕ, ◌%◌, ◌+◌, ◌-◌,
  ◌<◌, ◌∙◌, ◌∷◌, ◌≡◌, ◌≤◌,
}

len-write_bytes : (bs : List ℕ) (t : ℕ) (a : Uint8Array) → (write_bytes bs t a).len ≡ a.len
unfolding write_bytes
len-write_bytes [] t a = refl
len-write_bytes (b ∷ bs) t a = len-write_bytes bs (t + 1) _ ∙ len-write_at a t b

at-write_bytes_below :
    (bs : List ℕ) (t : ℕ) (a : Uint8Array) (j : ℕ) → j < t → (write_bytes bs t a).at j ≡ a.at j
unfolding write_bytes
at-write_bytes_below [] t a j h = refl
at-write_bytes_below (b ∷ bs) t a j h =
    at-write_bytes_below bs (t + 1) _ j (omega arith) ∙ at-write_at_ne a t b j (omega arith)

at-write_bytes_in :
    (bs : List ℕ) (t : ℕ) (a : Uint8Array) (j : ℕ)
    → j < length bs
    → t + length bs ≤ a.len
    → (write_bytes bs t a).at (t + j) ≡ get_or bs j 0 % 256
unfolding write_bytes
at-write_bytes_in [] t a j h r = elim h [ ]
at-write_bytes_in (b ∷ bs) t a zero h r =
    rw (add-zero t)
      (at-write_bytes_below bs (t + 1) _ t (omega arith) ∙ at-write_at_self a t b (omega arith))
at-write_bytes_in (b ∷ bs) t a (suc j) h r =
    let e : t + suc j ≡ t + 1 + j = omega arith in
    rw e (
      at-write_bytes_in bs (t + 1) (write_at a t b) j (omega arith)
        (omega (arith, len-write_at a t b)))

at-write_infos_below :
    {lo hi : ℕ} {is : List SegmentInfo} (a : Uint8Array) (j : ℕ)
    → Laid lo is hi
    → reserved_space ≤ lo
    → j + reserved_space < lo
    → (write_infos is a).at j ≡ a.at j
unfolding write_infos
at-write_infos_below a j laid_nil r h = refl
at-write_infos_below a j (laid_cons {i = i} o al b t l) r h =
    at-write_infos_below _ j l (omega arith) (omega arith)
    ∙ at-write_bytes_below i.data_bytes (i.offset - reserved_space) a j (omega (arith, o))

pub Laid-le : {lo hi : ℕ} {is : List SegmentInfo} → Laid lo is hi → lo ≤ hi
Laid-le laid_nil = omega arith
Laid-le (laid_cons o al b t l) = omega (arith, Laid-le l)

len-write_infos : (is : List SegmentInfo) (a : Uint8Array) → (write_infos is a).len ≡ a.len
unfolding write_infos
len-write_infos [] a = refl
len-write_infos (i ∷ is) a = len-write_infos is _ ∙ len-write_bytes i.data_bytes _ a

InSegment : Uint8Array → ℕ → SegmentInfo → Type 0
InSegment a j i =
    (reserved_space ≤ i.offset)
    × (a.at (i.offset - reserved_space + j) ≡ get_or i.data_bytes j 0 % 256)

first_info :
    {lo mid hi : ℕ} {is : List SegmentInfo} (d : SegmentInfo) (a : Uint8Array) (j : ℕ)
    → d.offset ≡ lo
    → lo + length d.data_bytes ≤ mid
    → Laid mid is hi
    → reserved_space ≤ lo
    → hi ≤ a.len + reserved_space
    → j < length d.data_bytes
    → InSegment (write_infos (d ∷ is) a) j d
unfolding write_infos InSegment
first_info {is = is} d a j o b l r h lt =
    let t = d.offset - reserved_space in
    (
      omega (arith, o),
      at-write_infos_below _ (t + j) l (omega arith) (omega (arith, o))
          ∙ at-write_bytes_in d.data_bytes t a j lt (omega (arith, o, Laid-le l)),
    )

info-eq : (d i : SegmentInfo) → some d ≡ some i → d ≡ i
info-eq d i e = cc

at-write_infos :
    {lo hi : ℕ} {is : List SegmentInfo} (a : Uint8Array) (k : ℕ) (i : SegmentInfo) (j : ℕ)
    → Laid lo is hi
    → reserved_space ≤ lo
    → hi ≤ a.len + reserved_space
    → get_elem? is k ≡ some i
    → j < length i.data_bytes
    → InSegment (write_infos is a) j i
unfolding write_infos
at-write_infos a k i j laid_nil r h e l = cc
at-write_infos a zero i j (laid_cons {i = d} {is = is} o al b t l) r h e lt =
    subst (λ (x : SegmentInfo). j < length x.data_bytes → InSegment (write_infos (d ∷ is) a) j x)
      (info-eq d i e) (λ lt. first_info d a j o b l r h lt) lt
at-write_infos a (suc k) i j (laid_cons {i = d} {is = is} o al b t l) r h e lt =
    at-write_infos (write_bytes d.data_bytes (d.offset - reserved_space) a) k i j l (omega arith)
      (omega (arith, len-write_bytes d.data_bytes (d.offset - reserved_space) a)) e lt

-- The contexts that the backend can build.
pub data Reach : DataSegmentContext → Type 0 where
  fresh : Reach new_data_segment_context
  data_added : {c : DataSegmentContext} (bytes : List ℕ) → Reach c → Reach (add_data bytes c).1
  string_added : {c : DataSegmentContext} (s : List ℕ) → Reach c → Reach (add_string s c).1

-- In every context that the backend can build, the segments lie one behind the other from offset
-- 1024 to the current offset, each at a multiple of 4 and followed by at most three unused bytes.
pub Reach-IsValid : {c : DataSegmentContext} → Reach c → IsValid c
Reach-IsValid fresh = new_data_segment_context-IsValid
Reach-IsValid (data_added bytes r) = add_data-IsValid bytes _ (Reach-IsValid r)
Reach-IsValid (string_added s r) = add_string-IsValid s _ (Reach-IsValid r)

generate_segment-cons :
    (c : DataSegmentContext) (k : ℕ) (i : SegmentInfo)
    → get_elem? c.data_array k ≡ some i
    → generate_segment c
      ≡ some (
        reserved_space,
        write_infos c.data_array (new_uint8_array (c.current_offset - reserved_space)),
      )
unfolding generate_segment
generate_segment-cons c k i e = go c.data_array refl e
  where
    go :
        (is : List SegmentInfo)
        → c.data_array ≡ is
        → get_elem? is k ≡ some i
        → generate_segment c
          ≡ some (
            reserved_space,
            write_infos c.data_array (new_uint8_array (c.current_offset - reserved_space)),
          )
    go [] q e = cc
    go (x ∷ is) q e = rw (generate_segment, q)

-- In a context that the backend can build, `generateSegment` returns a segment for offset 1024 that
-- ends at the current offset and holds every byte that was added, at the offset returned for it.
pub generate_segment_lem :
    {c : DataSegmentContext} (k j : ℕ) (i : SegmentInfo)
    → Reach c
    → get_elem? c.data_array k ≡ some i
    → j < length i.data_bytes
    → (a : Uint8Array) × (generate_segment c ≡ some (reserved_space, a))
      × (a.len + reserved_space ≡ c.current_offset)
      × (reserved_space ≤ i.offset)
      × (a.at (i.offset - reserved_space + j) ≡ get_or i.data_bytes j 0 % 256)
unfolding InSegment
generate_segment_lem {c} k j i r e h =
    let v = Reach-IsValid r in
    let le = Laid-le v.laid in
    let a = new_uint8_array (c.current_offset - reserved_space) in
    let (from, byte) = at-write_infos a k i j v.laid (omega arith) (omega (arith, le)) e h in
    (
      write_infos c.data_array a,
      generate_segment-cons c k i e,
      omega (arith, le, len-write_infos c.data_array a),
      from,
      byte,
    )
