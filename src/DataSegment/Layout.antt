-- ===== src/DataSegment/Layout.antt =====
-- Where the segments lie, between the reserved space and the current offset.
use wasmnizer_ts.DataSegment.{
  DataSegmentContext, SegmentInfo, add_data, add_new_string, add_string, align_4, find_offset,
  new_data_segment_context, reserved_space, terminated, utf16_to_utf8,
}
use wasmnizer_ts.Base.{
  List, Option, [], arith, length, length-append, none, refl, some, ℕ, ◌%◌, ◌++◌, ◌+◌, ◌<◌, ◌∷◌,
  ◌≡◌, ◌≤◌,
}

-- The segments lie in order from `lo` to `hi`, each at a multiple of 4 and before the next.
pub data Laid : ℕ → List SegmentInfo → ℕ → Type 0 where
  laid_nil : {lo : ℕ} → Laid lo [] lo
  laid_cons :
      {lo mid hi : ℕ} {i : SegmentInfo} {is : List SegmentInfo}
      → i.offset ≡ lo
      → lo % 4 ≡ 0
      → lo + length i.data_bytes ≤ mid
      → mid < lo + length i.data_bytes + 4
      → Laid mid is hi
      → Laid lo (i ∷ is) hi

pub record IsValid (c : DataSegmentContext) : Type 0 where
  pub laid : Laid reserved_space c.data_array c.current_offset
  pub aligned : c.current_offset % 4 ≡ 0

Laid-snoc :
    {lo mid hi : ℕ} {is : List SegmentInfo} (i : SegmentInfo)
    → Laid lo is mid
    → i.offset ≡ mid
    → mid % 4 ≡ 0
    → mid + length i.data_bytes ≤ hi
    → hi < mid + length i.data_bytes + 4
    → Laid lo (is ++ i ∷ []) hi
Laid-snoc i laid_nil o a b t = laid_cons o a b t laid_nil
Laid-snoc i (laid_cons o' a' b' t' l) o a b t = laid_cons o' a' b' t' (Laid-snoc i l o a b t)

align_4-above : (x : ℕ) → x ≤ align_4 x
align_4-above x = omega arith

align_4-below : (x : ℕ) → align_4 x < x + 4
align_4-below x = omega arith

align_4-aligned : (x : ℕ) → align_4 x % 4 ≡ 0
align_4-aligned x = omega arith

pub new_data_segment_context-IsValid : IsValid new_data_segment_context
new_data_segment_context-IsValid = record { laid = laid_nil; aligned = refl }

append_info :
    (bytes : List ℕ) (m : List (List ℕ × ℕ)) (c : DataSegmentContext) (x : ℕ)
    → IsValid c
    → x ≡ c.current_offset + length bytes
    → IsValid (record {
      current_offset = align_4 x;
      string_offset_map = m;
      data_array = c.data_array ++ record { data_bytes = bytes; offset = c.current_offset } ∷ [];
    })
append_info bytes m c x v e = record {
  laid =
      Laid-snoc _ v.laid refl v.aligned (omega (arith, e, align_4-above x))
        (omega (arith, e, align_4-below x));
  aligned = align_4-aligned x;
}

pub add_data-IsValid :
    (bytes : List ℕ) (c : DataSegmentContext) → IsValid c → IsValid (add_data bytes c).1
unfolding add_data
add_data-IsValid bytes c v = append_info bytes _ c _ v refl

pub length-terminated : (s : List ℕ) → length (terminated s) ≡ length (utf16_to_utf8 s) + 1
length-terminated s = length-append (utf16_to_utf8 s) (0 ∷ [])

pub add_new_string-IsValid :
    (s : List ℕ) (c : DataSegmentContext) → IsValid c → IsValid (add_new_string s c).1
unfolding add_new_string
add_new_string-IsValid s c v =
    append_info (terminated s) _ c _ v (omega (arith, length-terminated s))

pub add_string-IsValid :
    (s : List ℕ) (c : DataSegmentContext) → IsValid c → IsValid (add_string s c).1
unfolding add_string
add_string-IsValid s c v = go (find_offset s c.string_offset_map)
  where
    go :
        (o : Option ℕ)
        → IsValid
            (elim o as (λ o. ℕ × DataSegmentContext) [
              | some n ↦ (n, c)
              | none ↦ add_new_string s c
            ]).1
    go none = add_new_string-IsValid s c v
    go (some n) = v
