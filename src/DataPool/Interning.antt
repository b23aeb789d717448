-- ===== src/DataPool/Interning.antt =====
-- The table of known strings: which pools the program can build, and what the table holds there.
use wasmnizer_ts.Base.{
  Bool-cases, List, [], ap, arith, inl, inr, length, refl, some, sym, ℕ, ◌<◌, ◌∙◌, ◌≡◌,
}
use wasmnizer_ts.DataPool.{
  DataPool, add_byte, add_int32, add_string, append_string, find_string, get_string_count,
  new_data_pool, set_byte, set_int32, update_buffer_size,
}
use wasmnizer_ts.DataPool.Bytes.{
  size-update_buffer_size, str_map-add_byte, str_map-update_buffer_size,
}
use wasmnizer_ts.DataPool.Words.{str_map-add_int32}
use wasmnizer_ts.DataPool.Strings.{is_latin1}
use wasmnizer_ts.DataPool.AddString.{store_string-Stored, store_string-throws}

-- The pools that the public methods build from a new one.
pub data Reach : DataPool → Type 0 where
  start : Reach new_data_pool
  byte : {p : DataPool} (b : ℕ) → Reach p → Reach (add_byte b p).1
  int32 : {p : DataPool} (n : ℕ) → Reach p → Reach (add_int32 n p).1
  patch : {p : DataPool} (i n : ℕ) → Reach p → Reach (set_int32 i n p)
  string : {p q : DataPool} (s : List ℕ) (n : ℕ) → Reach p → add_string s p ≡ some (n, q) → Reach q

str_map-set_int32 : (i n : ℕ) (p : DataPool) → (set_int32 i n p).str_map ≡ p.str_map
unfolding set_int32 set_byte
str_map-set_int32 i n p = refl

append_string-fields :
    (s : List ℕ) (p : DataPool) (n : ℕ) (q : DataPool)
    → append_string s p ≡ some (n, q)
    → (n ≡ p.size) × (q.str_map ≡ p.str_map) × (p.size < q.size)
unfolding append_string
append_string-fields s p n q h =
    let g = update_buffer_size (length s) p in
    elim (Bool-cases (is_latin1 s)) [
      | inl l ↦
          let (r, stored) = store_string-Stored s g l in
          ground (
            arith,
            stored.result,
            stored.same_map,
            stored.end_from,
            size-update_buffer_size (length s) p,
            str_map-update_buffer_size (length s) p,
          )
      | inr l ↦ cc (store_string-throws s g l)
    ]

add_string-unknown :
    (s : List ℕ) (p : DataPool) → p.str_map ≡ [] → add_string s p ≡ append_string s p
unfolding add_string find_string
add_string-unknown s p h = ground (arith, ap (find_string s) h)

-- In every pool that the program can build the table of strings is empty.
Reach-str_map : {p : DataPool} → Reach p → p.str_map ≡ []
unfolding add_string find_string
Reach-str_map start = refl
Reach-str_map (byte b r) = str_map-add_byte b _ ∙ Reach-str_map r
Reach-str_map (int32 n r) = str_map-add_int32 n _ ∙ Reach-str_map r
Reach-str_map (patch i n r) = str_map-set_int32 i n _ ∙ Reach-str_map r
Reach-str_map (string {p} {q} s n r e) =
    let empty = Reach-str_map r in
    let e' : append_string s p ≡ some (n, q) = sym (add_string-unknown s p empty) ∙ e in
    (append_string-fields s p n q e').1 ∙ empty

-- In every pool that the program can build no string counts as known, although strings may have
-- been added, and adding a string again stores a second copy behind the first.
pub Reach-no_sharing :
    {p q r : DataPool} (s : List ℕ) (n m : ℕ)
    → Reach p
    → add_string s p ≡ some (n, q)
    → add_string s q ≡ some (m, r)
    → (get_string_count q ≡ 0) × (n < m)
unfolding add_string find_string get_string_count
Reach-no_sharing {p} {q} {r} s n m reach first second =
    let before = Reach-str_map reach in
    let after = Reach-str_map (string s n reach first) in
    let f = append_string-fields s p n q (sym (add_string-unknown s p before) ∙ first) in
    let g = append_string-fields s q m r (sym (add_string-unknown s q after) ∙ second) in
    (rw after, omega (arith, f.0, f.2, g.0))
