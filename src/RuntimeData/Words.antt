-- ===== src/RuntimeData/Words.antt =====
-- A sequence of words in the data pool, and a block: a header of two words before such a sequence.
use wasmnizer_ts.DataPool.{DataPool, add_int32, set_byte, set_int32}
use wasmnizer_ts.DataPool.Bytes.{Extends, Extends-refl, Extends-trans, IsValid, len-write_at}
use wasmnizer_ts.DataPool.Words.{
  add_int32-Extends, add_int32-IsValid, size-add_int32, word_at, word_at-Extends, word_at-add_int32,
  word_at-set_int32,
}
use wasmnizer_ts.Base.{
  List, [], arith, inr, length, refl, suc, zero, ℕ, ◌%◌, ◌*◌, ◌++◌, ◌+◌, ◌^◌, ◌∙◌, ◌∷◌, ◌≡◌, ◌≤◌,
}

unfoldable pub add_words : List ℕ → DataPool → DataPool
add_words [] p = p
add_words (w ∷ ws) p = add_words ws (add_int32 w p).1

-- What a loader of the pool reads.
unfoldable pub read_words : DataPool → ℕ → ℕ → List ℕ
read_words q off zero = []
read_words q off (suc n) = word_at q off ∷ read_words q (off + 4) n

abbrev pub low_words : List ℕ → List ℕ
low_words [] = []
low_words (w ∷ ws) = (w % 2 ^ 32) ∷ low_words ws

pub add_words-append :
    (vs ws : List ℕ) (p : DataPool) → add_words (vs ++ ws) p ≡ add_words ws (add_words vs p)
unfolding add_words
add_words-append [] ws p = refl
add_words-append (v ∷ vs) ws p = add_words-append vs ws _

pub size-add_words : (ws : List ℕ) (p : DataPool) → (add_words ws p).size ≡ p.size + 4 * length ws
unfolding add_words
size-add_words [] p = omega arith
size-add_words (w ∷ ws) p = omega (arith, size-add_words ws (add_int32 w p).1, size-add_int32 w p)

pub add_words-IsValid : (ws : List ℕ) (p : DataPool) → IsValid p → IsValid (add_words ws p)
unfolding add_words
add_words-IsValid [] p v = v
add_words-IsValid (w ∷ ws) p v = add_words-IsValid ws _ (add_int32-IsValid w p v)

pub add_words-Extends : (ws : List ℕ) (p : DataPool) → IsValid p → Extends p (add_words ws p)
unfolding add_words
add_words-Extends [] p v = Extends-refl p
add_words-Extends (w ∷ ws) p v =
    Extends-trans (add_int32-Extends w p v) (add_words-Extends ws _ (add_int32-IsValid w p v))

pub read_words-add_words :
    (ws : List ℕ) (p : DataPool) (off : ℕ)
    → IsValid p
    → off ≡ p.size
    → read_words (add_words ws p) off (length ws) ≡ low_words ws
unfolding add_words read_words
read_words-add_words [] p off v e = refl
read_words-add_words (w ∷ ws) p off v e =
    let v1 = add_int32-IsValid w p v in
    let s = size-add_int32 w p in
    let first : word_at (add_words ws (add_int32 w p).1) p.size ≡ w % 2 ^ 32 =
      word_at-Extends (add_words-Extends ws _ v1) p.size (omega (arith, s))
      ∙ word_at-add_int32 w p v in
    let rest = read_words-add_words ws (add_int32 w p).1 (off + 4) v1 (omega (arith, s, e)) in
    cc (e, first, rest)

-- Reading behind a word that is set gives what was there before.
pub read_words-set_int32 :
    (i n : ℕ) (p : DataPool) (off k : ℕ)
    → i + 4 ≤ p.buffer.len
    → i + 4 ≤ off
    → read_words (set_int32 i n p) off k ≡ read_words p off k
unfolding read_words
read_words-set_int32 i n p off zero h b = refl
read_words-set_int32 i n p off (suc k) h b =
    let first = (word_at-set_int32 i n p off h (inr b)).1 in
    let rest = read_words-set_int32 i n p (off + 4) k h (omega arith) in cc (first, rest)

pub len-set_int32 :
    (i n : ℕ) (p : DataPool) → IsValid p → (set_int32 i n p).buffer.len ≡ p.buffer.len
unfolding set_int32 set_byte
len-set_int32 i n p v = omega (arith, len-write_at)
