-- ===== src/DataSegment/Reading.antt =====
-- Looking strings up, and reading them from the generated segment.
use wasmnizer_ts.DataSegment.{
  DataSegmentContext, SegmentInfo, add_data, add_new_string, add_string, find_offset,
  generate_segment, reserved_space, terminated, utf16_to_utf8,
}
use wasmnizer_ts.DataSegment.Layout.{length-terminated}
use wasmnizer_ts.DataSegment.Segment.{Reach, data_added, fresh, generate_segment_lem, string_added}
use wasmnizer_ts.DataPool.{Uint8Array, codes_eq}
use wasmnizer_ts.Base.{
  Bool, Bool-cases, List, Option, [], ap, arith, false, get_elem?, get_or, if◌then◌else◌, inl, inr,
  length, none, refl, some, suc, true, zero, ℕ, ◌%◌, ◌++◌, ◌+◌, ◌-◌, ◌<◌, ◌∙◌, ◌∷◌, ◌≡◌, ◌≤◌,
}

codes_eq_refl : (s : List ℕ) → codes_eq s s ≡ true
codes_eq_refl [] = refl
codes_eq_refl (c ∷ cs) = ground (arith, codes_eq_refl cs)

codes_eq_sound : (s t : List ℕ) → codes_eq s t ≡ true → s ≡ t
codes_eq_sound [] [] h = refl
codes_eq_sound [] (d ∷ ds) h = cc
codes_eq_sound (c ∷ cs) [] h = cc
codes_eq_sound (c ∷ cs) (d ∷ ds) h =
    let (e, rest) : (c ≡ d) × (codes_eq cs ds ≡ true) = ground (arith, h) in
    let tail = codes_eq_sound cs ds rest in cc

-- The segment at index `k` is the string's.
Holds : DataSegmentContext → List ℕ → ℕ → ℕ → Type 0
Holds c s n k = get_elem? c.data_array k ≡ some (record { data_bytes = terminated s; offset = n })

Cached : DataSegmentContext → Type 0
Cached c =
    (s : List ℕ) (n : ℕ) → find_offset s c.string_offset_map ≡ some n → (k : ℕ) × Holds c s n k

get_elem?-append_left :
    (xs ys : List SegmentInfo) (k : ℕ) {i : SegmentInfo}
    → get_elem? xs k ≡ some i
    → get_elem? (xs ++ ys) k ≡ some i
get_elem?-append_left [] ys k h = cc
get_elem?-append_left (x ∷ xs) ys zero h = h
get_elem?-append_left (x ∷ xs) ys (suc k) h = get_elem?-append_left xs ys k h

get_elem?-append_last :
    (xs : List SegmentInfo) (i : SegmentInfo) → get_elem? (xs ++ i ∷ []) (length xs) ≡ some i
get_elem?-append_last [] i = refl
get_elem?-append_last (x ∷ xs) i = get_elem?-append_last xs i

abbrev stored : List ℕ → ℕ → SegmentInfo
stored s n = record { data_bytes = terminated s; offset = n }

stored-eq :
    (s t : List ℕ) {m n : ℕ} → s ≡ t → some m ≡ some n → some (stored s m) ≡ some (stored t n)
stored-eq s t {m} {n} e f =
    let g : m ≡ n = cc in ap (λ u. some (stored u m)) e ∙ ap (λ v. some (stored t v)) g

add_new_string-Cached :
    (s : List ℕ) (c : DataSegmentContext) → Cached c → Cached (add_new_string s c).1
unfolding add_new_string Cached Holds find_offset
add_new_string-Cached s c h t n e = go (codes_eq s t) refl e
  where
    go :
        (b : Bool)
        → codes_eq s t ≡ b
        → (if b then some c.current_offset else find_offset t c.string_offset_map) ≡ some n
        → (k : ℕ) × (get_elem? (add_new_string s c).1.data_array k
            ≡ some (record { data_bytes = terminated t; offset = n }))
    go true q e = (
      length c.data_array,
      get_elem?-append_last c.data_array _ ∙ stored-eq s t (codes_eq_sound s t q) e,
    )
    go false q e = let (k, g) = h t n e in (k, get_elem?-append_left c.data_array _ k g)

add_data-Cached : (bytes : List ℕ) (c : DataSegmentContext) → Cached c → Cached (add_data bytes c).1
unfolding add_data Cached Holds
add_data-Cached bytes c h t n e =
    let (k, g) = h t n e in (k, get_elem?-append_left c.data_array _ k g)

add_string-Cached : (s : List ℕ) (c : DataSegmentContext) → Cached c → Cached (add_string s c).1
unfolding add_string
add_string-Cached s c h = go (find_offset s c.string_offset_map)
  where
    go :
        (o : Option ℕ)
        → Cached
            (elim o as (λ o. ℕ × DataSegmentContext) [
              | some n ↦ (n, c)
              | none ↦ add_new_string s c
            ]).1
    go none = add_new_string-Cached s c h
    go (some n) = h

Reach-Cached : {c : DataSegmentContext} → Reach c → Cached c
unfolding Cached find_offset
Reach-Cached fresh = λ s n e. cc
Reach-Cached (data_added bytes r) = add_data-Cached bytes _ (Reach-Cached r)
Reach-Cached (string_added s r) = add_string-Cached s _ (Reach-Cached r)

-- A string is known after it has been added, at the offset returned.
find_offset-add_string :
    (s : List ℕ) (c : DataSegmentContext)
    → find_offset s (add_string s c).1.string_offset_map ≡ some (add_string s c).0
unfolding add_string add_new_string find_offset
find_offset-add_string s c = go (find_offset s c.string_offset_map) refl
  where
    go :
        (o : Option ℕ)
        → find_offset s c.string_offset_map ≡ o
        → find_offset s
            (elim o as (λ o. ℕ × DataSegmentContext) [
              | some n ↦ (n, c)
              | none ↦ add_new_string s c
            ]).1.string_offset_map
          ≡ some
              (elim o as (λ o. ℕ × DataSegmentContext) [
                | some n ↦ (n, c)
                | none ↦ add_new_string s c
              ]).0
    go none q = rw (codes_eq_refl s) refl
    go (some n) q = q

add_string-known :
    (s : List ℕ) (c : DataSegmentContext) {n : ℕ}
    → find_offset s c.string_offset_map ≡ some n
    → add_string s c ≡ (n, c)
unfolding add_string
add_string-known s c h = rw (add_string, h) refl

-- Whether a string is known already or not, adding it a second time returns the offset of the first
-- time and leaves the context as it is.
pub add_string-twice :
    (s : List ℕ) (c : DataSegmentContext)
    → add_string s (add_string s c).1 ≡ ((add_string s c).0, (add_string s c).1)
add_string-twice s c = add_string-known s (add_string s c).1 (find_offset-add_string s c)

-- What may follow in the building of a context.
pub data Later : DataSegmentContext → DataSegmentContext → Type 0 where
  now : {c : DataSegmentContext} → Later c c
  data_later :
      {c d : DataSegmentContext} (bytes : List ℕ) → Later c d → Later c (add_data bytes d).1
  string_later : {c d : DataSegmentContext} (s : List ℕ) → Later c d → Later c (add_string s d).1

Later-Reach : {c d : DataSegmentContext} → Later c d → Reach c → Reach d
Later-Reach now r = r
Later-Reach (data_later bytes l) r = data_added bytes (Later-Reach l r)
Later-Reach (string_later s l) r = string_added s (Later-Reach l r)

find_offset-add_string_keeps :
    (s t : List ℕ) (c : DataSegmentContext) {n : ℕ}
    → find_offset t c.string_offset_map ≡ some n
    → find_offset t (add_string s c).1.string_offset_map ≡ some n
unfolding add_string add_new_string find_offset
find_offset-add_string_keeps s t c {n} h = go (find_offset s c.string_offset_map) refl
  where
    go :
        (o : Option ℕ)
        → find_offset s c.string_offset_map ≡ o
        → find_offset t
            (elim o as (λ o. ℕ × DataSegmentContext) [
              | some n ↦ (n, c)
              | none ↦ add_new_string s c
            ]).1.string_offset_map
          ≡ some n
    go none q = elim (Bool-cases (codes_eq s t)) [
      | inl e ↦ (let same = codes_eq_sound s t e in cc)
      | inr e ↦ rw e h
    ]
    go (some m) q = h

find_offset-Later :
    {c d : DataSegmentContext} (s : List ℕ) {n : ℕ}
    → Later c d
    → find_offset s c.string_offset_map ≡ some n
    → find_offset s d.string_offset_map ≡ some n
unfolding add_data
find_offset-Later s now h = h
find_offset-Later s (data_later bytes l) h = find_offset-Later s l h
find_offset-Later s (string_later t l) h =
    find_offset-add_string_keeps t s _ (find_offset-Later s l h)

-- The offset that `addString` returns in a context that the backend can build stays valid whatever
-- is added later: the segment generated in the end holds there the bytes that `utf16ToUtf8` makes
-- of the string, and a terminating zero.
pub generate_segment-add_string :
    (s : List ℕ) {c d : DataSegmentContext} (j : ℕ)
    → Reach c
    → Later (add_string s c).1 d
    → j < length (utf16_to_utf8 s) + 1
    → (a : Uint8Array) × (generate_segment d ≡ some (reserved_space, a))
      × (a.len + reserved_space ≡ d.current_offset)
      × (reserved_space ≤ (add_string s c).0)
      × (a.at ((add_string s c).0 - reserved_space + j)
          ≡ get_or (utf16_to_utf8 s ++ 0 ∷ []) j 0 % 256)
unfolding Cached Holds
generate_segment-add_string s {c} {d} j r l h =
    let rd = Later-Reach l (string_added s r) in
    let (k, e) = Reach-Cached rd s _ (find_offset-Later s l (find_offset-add_string s c)) in
    generate_segment_lem k j _ rd e (omega (arith, length-terminated s))
