-- ===== src/RuntimeData/Blocks.antt =====
-- A block of the data pool: a header that is written first and updated behind its words.
use wasmnizer_ts.RuntimeData.{BlockHeader, header_word, update_header, write_header}
use wasmnizer_ts.RuntimeData.Words.{
  add_words, add_words-Extends, add_words-IsValid, len-set_int32, low_words, read_words,
  read_words-add_words, read_words-set_int32, size-add_words,
}
use wasmnizer_ts.DataPool.{DataPool, add_int32, set_int32}
use wasmnizer_ts.DataPool.Bytes.{Extends, Extends-trans, IsValid}
use wasmnizer_ts.DataPool.Words.{
  add_int32-Extends, add_int32-IsValid, set_int32-IsValid, size-add_int32, size-set_int32, word_at,
  word_at-Extends, word_at-set_int32,
}
use wasmnizer_ts.Base.{
  List, arith, inl, inr, length, sym, ℕ, ◌%◌, ◌*◌, ◌+◌, ◌-◌, ◌^◌, ◌∙◌, ◌≡◌, ◌≤◌, ◌⊎◌,
}

-- The pool `q` is `p` with a block of type `t` behind it that counts `count` entries in the words
-- `ws`.
pub record HasBlock (p q : DataPool) (t count : ℕ) (ws : List ℕ) : Type 0 where
  pub header : word_at q p.size ≡ t % 16 * 2 ^ 28 + count % 2 ^ 28
  pub bytes : word_at q (p.size + 4) ≡ 4 * length ws % 2 ^ 32
  pub body : read_words q (p.size + 8) (length ws) ≡ low_words ws
  pub end : q.size ≡ p.size + 8 + 4 * length ws
  pub earlier : (i : ℕ) → i + 4 ≤ p.size → word_at q i ≡ word_at p i
  pub valid : IsValid q

abbrev pub empty_header : ℕ → BlockHeader
empty_header t = record { block_type = t; count = 0; size = 0 }

abbrev pub full_header : ℕ → ℕ → ℕ → BlockHeader
full_header t count size = record { block_type = t; count = count; size = size }

pub size-write_header : (b : BlockHeader) (p : DataPool) → (write_header b p).size ≡ p.size + 8
unfolding write_header
size-write_header b p =
    omega (
      arith,
      size-add_int32 b.size (add_int32 (header_word b) p).1,
      size-add_int32 (header_word b) p,
    )

pub write_header-IsValid : (b : BlockHeader) (p : DataPool) → IsValid p → IsValid (write_header b p)
unfolding write_header
write_header-IsValid b p v = add_int32-IsValid b.size _ (add_int32-IsValid (header_word b) p v)

pub write_header-Extends :
    (b : BlockHeader) (p : DataPool) → IsValid p → Extends p (write_header b p)
unfolding write_header
write_header-Extends b p v =
    Extends-trans (add_int32-Extends (header_word b) p v)
      (add_int32-Extends b.size _ (add_int32-IsValid (header_word b) p v))

small-header_word :
    (b : BlockHeader) → header_word b % 2 ^ 32 ≡ b.block_type % 16 * 2 ^ 28 + b.count % 2 ^ 28
unfolding header_word
small-header_word b = omega arith

set_int32_self :
    (i n : ℕ) (p : DataPool) → i + 4 ≤ p.buffer.len → word_at (set_int32 i n p) i ≡ n % 2 ^ 32
set_int32_self i n p h = (word_at-set_int32 i n p (i + 4) h (inr (omega arith))).0

set_int32_apart :
    (i n : ℕ) (p : DataPool) (j : ℕ)
    → i + 4 ≤ p.buffer.len
    → (j + 4 ≤ i) ⊎ (i + 4 ≤ j)
    → word_at (set_int32 i n p) j ≡ word_at p j
set_int32_apart i n p j h apart = (word_at-set_int32 i n p j h apart).1

-- Updating the header of a pool `q` that extends `p` by the header and the words.
update_header-HasBlock :
    (t count : ℕ) (ws : List ℕ) (p q : DataPool)
    → IsValid q
    → Extends p q
    → q.size ≡ p.size + 8 + 4 * length ws
    → read_words q (p.size + 8) (length ws) ≡ low_words ws
    → HasBlock p (update_header (full_header t count (4 * length ws)) p.size q) t count ws
unfolding update_header
update_header-HasBlock t count ws p q v e qs body =
    let n = header_word (full_header t count (4 * length ws)) in
    let q1 = set_int32 p.size n q in
    let v1 = set_int32-IsValid p.size n q v in
    let l1 = len-set_int32 p.size n q v in
    let room : p.size + 8 ≤ q.buffer.len = omega (arith, v.within, v.sized) in
    let room1 : p.size + 4 + 4 ≤ q1.buffer.len = omega (arith, l1, room) in
    record {
      header =
          set_int32_apart (p.size + 4) (4 * length ws) q1 p.size room1 (inl (omega arith))
          ∙ set_int32_self p.size n q (omega (arith, room))
          ∙ small-header_word (full_header t count (4 * length ws));
      bytes = set_int32_self (p.size + 4) (4 * length ws) q1 room1;
      body =
          read_words-set_int32 (p.size + 4) (4 * length ws) q1 (p.size + 8) (length ws) room1
            (omega arith)
          ∙ read_words-set_int32 p.size n q (p.size + 8) (length ws) (omega (arith, room))
              (omega arith)
          ∙ body;
      end = size-set_int32 (p.size + 4) (4 * length ws) q1 ∙ size-set_int32 p.size n q ∙ qs;
      earlier = λ i h.
          set_int32_apart (p.size + 4) (4 * length ws) q1 i room1 (inl (omega arith))
          ∙ set_int32_apart p.size n q i (omega (arith, room)) (inl h)
          ∙ word_at-Extends e i h;
      valid = set_int32-IsValid (p.size + 4) (4 * length ws) q1 v1;
    }

-- A block as the code writes it: an empty header, the words, and the header again.
abbrev pub write_block : ℕ → ℕ → DataPool → (DataPool → DataPool) → DataPool
write_block t count p body =
    let p1 = write_header (empty_header t) p in
    let p2 = body p1 in update_header (full_header t count (p2.size - p1.size)) (p1.size - 8) p2

eight : (n : ℕ) → n + 8 - 8 ≡ n
eight n = omega arith

pub write_block-HasBlock :
    (t count : ℕ) (ws : List ℕ) (p : DataPool) (body : DataPool → DataPool)
    → IsValid p
    → ((p1 : DataPool) → body p1 ≡ add_words ws p1)
    → HasBlock p (write_block t count p body) t count ws
write_block-HasBlock t count ws p body v same =
    let p1 = write_header (empty_header t) p in
    let s1 = size-write_header (empty_header t) p in
    let v1 = write_header-IsValid (empty_header t) p v in
    let s2 = size-add_words ws p1 in
    let p2 = add_words ws p1 in
    let bytes : p2.size - p1.size ≡ 4 * length ws = omega (arith, s2) in
    let start : p1.size - 8 ≡ p.size = omega (arith, s1) in
    let done =
      update_header-HasBlock t count ws p p2 (add_words-IsValid ws p1 v1)
        (Extends-trans (write_header-Extends (empty_header t) p v) (add_words-Extends ws p1 v1))
        (omega (arith, s1, s2)) (read_words-add_words ws p1 (p.size + 8) v1 (sym s1)) in
    rw (same p1, bytes, start) done
