-- ===== src/DataPool/Contents.antt =====
-- The pool as the list of its bytes.
use mathlib.Core.Path.{subst}
use wasmnizer_ts.Base.{
  List, [], add-zero, ap, arith, get_or, length, none, refl, replicate, some, suc, true, zero,
  zero-add, ℕ, ◌%◌, ◌++◌, ◌+◌, ◌-◌, ◌/◌, ◌<◌, ◌^◌, ◌∙◌, ◌∷◌, ◌≡◌, ◌≤◌,
}
use wasmnizer_ts.DataPool.{DataPool, Uint8Array, add_byte, add_int32, add_string, find_string}
use wasmnizer_ts.DataPool.Bytes.{
  Extends, IsValid, add_byte-Extends, add_byte-IsValid, add_byte-offset, at-add_byte, size-add_byte,
}
use wasmnizer_ts.DataPool.Strings.{is_latin1}
use wasmnizer_ts.DataPool.AddString.{add_string_fits, capacity_for}
use wasmnizer_ts.DataPool.Words.{add_int32-IsValid, add_int32-offset, word_at, word_at-add_int32}
use native.Mathlib.Nat.{mod-mod}
use mathlib.Core.List.{append_assoc}

-- `n` bytes from an index on.
unfoldable pub bytes : ℕ → ℕ → Uint8Array → List ℕ
bytes zero i a = []
bytes (suc n) i a = a.at i ∷ bytes n (i + 1) a

unfoldable pub contents : DataPool → List ℕ
unfolding bytes
contents p = bytes p.size 0 p.buffer

bytes-add : (m n i : ℕ) (a : Uint8Array) → bytes (m + n) i a ≡ bytes m i a ++ bytes n (i + m) a
unfolding bytes
bytes-add zero n i a = rw (zero-add n, add-zero i)
bytes-add (suc m) n i a =
    let e : suc m + n ≡ suc (m + n) = omega arith in
    let f : i + suc m ≡ i + 1 + m = omega arith in
    rw (e, f) (ap (λ l. a.at i ∷ l) (bytes-add m n (i + 1) a))

bytes-agree :
    (n i : ℕ) (a b : Uint8Array)
    → ((j : ℕ) → i ≤ j → j < i + n → a.at j ≡ b.at j)
    → bytes n i a ≡ bytes n i b
unfolding bytes
bytes-agree zero i a b h = refl
bytes-agree (suc n) i a b h = cc (
  h i (omega arith) (omega arith),
  bytes-agree n (i + 1) a b (λ j from to. h j (omega arith) (omega arith)),
)

bytes-eq_list :
    (s : List ℕ) (i : ℕ) (a : Uint8Array)
    → ((k : ℕ) → k < length s → a.at (i + k) ≡ get_or s k 0)
    → bytes (length s) i a ≡ s
unfolding bytes
bytes-eq_list [] i a h = refl
bytes-eq_list (c ∷ s) i a h =
    let first : a.at i ≡ c = subst (λ n. a.at n ≡ c) (add-zero i) (h 0 (omega arith)) in
    let rest =
      bytes-eq_list s (i + 1) a
        (λ k lt. subst (λ n. a.at n ≡ get_or s k 0) (omega arith) (h (suc k) (omega arith))) in
    cc (first, rest)

bytes-zeros :
    (n i : ℕ) (a : Uint8Array)
    → ((j : ℕ) → i ≤ j → j < i + n → a.at j ≡ 0)
    → bytes n i a ≡ replicate n 0
unfolding bytes
bytes-zeros zero i a h = refl
bytes-zeros (suc n) i a h = cc (
  h i (omega arith) (omega arith),
  bytes-zeros n (i + 1) a (λ j from to. h j (omega arith) (omega arith)),
)

-- A pool that extends another has its bytes first.
pub contents-Extends :
    {p q : DataPool} (n : ℕ)
    → Extends p q
    → q.size ≡ p.size + n
    → contents q ≡ contents p ++ bytes n p.size q.buffer
unfolding contents
contents-Extends {p} {q} n e h = rw h (
    bytes-add p.size n 0 q.buffer
    ∙ rw (zero-add p.size) (
        ap (λ l. l ++ bytes n p.size q.buffer)
          (bytes-agree p.size 0 q.buffer p.buffer (λ j from to. e.keeps j (omega arith)))))

-- `addByte` appends the low eight bits of its argument to a valid pool and returns their offset.
pub contents-add_byte :
    (b : ℕ) (p : DataPool)
    → IsValid p
    → (contents (add_byte b p).1 ≡ contents p ++ b % 256 ∷ [])
      × ((add_byte b p).0 ≡ p.size)
      × IsValid (add_byte b p).1
unfolding bytes
contents-add_byte b p v = (
  contents-Extends 1 (add_byte-Extends b p v) (size-add_byte b p) ∙ rw (at-add_byte b p v),
  add_byte-offset b p,
  add_byte-IsValid b p v,
)

-- A string of bytes that is new to a valid pool, and for which the room after one growth step
-- suffices (terminator included), is appended with its terminator and at most three more zeros, up
-- to a size that is a multiple of 4. Its offset is the old size, and the pool stays valid.
pub contents-add_string :
    (s : List ℕ) (p : DataPool)
    → IsValid p
    → find_string s p.str_map ≡ none
    → is_latin1 s ≡ true
    → p.size + length s < capacity_for s p
    → (q : DataPool) × (pad : ℕ) × (add_string s p ≡ some (p.size, q))
      × (contents q ≡ contents p ++ (s ++ replicate (pad + 1) 0))
      × (pad ≤ 3)
      × (q.size % 4 ≡ 0)
      × IsValid q
contents-add_string s p v new l room =
    let (q, result, valid, characters, zeros, grown, most, rounded, earlier) =
      add_string_fits s p v new l room in
    let pad = q.size - (p.size + length s) - 1 in
    let e : Extends p q = record { grows = omega (arith, grown); keeps = earlier } in
    let stored = bytes-eq_list s p.size q.buffer characters in
    let padding =
      bytes-zeros (pad + 1) (p.size + length s) q.buffer
        (λ j from to. zeros j from (omega (arith, grown))) in
    (
      q,
      pad,
      result,
      contents-Extends (length s + (pad + 1)) e (omega (arith, grown))
          ∙ ap (λ l. contents p ++ l)
              (bytes-add (length s) (pad + 1) p.size q.buffer ∙ cc (stored, padding)),
      omega (arith, most),
      rounded,
      valid,
    )

contents-add_int32_bytes :
    (n : ℕ) (p : DataPool)
    → IsValid p
    → contents (add_int32 n p).1
      ≡ contents p ++ n % 256 ∷ (n / 2 ^ 8 % 256) ∷ (n / 2 ^ 16 % 256) ∷ (n / 2 ^ 24 % 256) ∷ []
unfolding add_int32
contents-add_int32_bytes n p v =
    let (c1, _, v1) = contents-add_byte (n % 256) p v in
    let (c2, _, v2) = contents-add_byte (n / 2 ^ 8 % 256) _ v1 in
    let (c3, _, v3) = contents-add_byte (n / 2 ^ 16 % 256) _ v2 in
    let (c4, _, _) = contents-add_byte (n / 2 ^ 24 % 256) _ v3 in
    simp (c4, c3, c2, c1, append_assoc, mod-mod)

-- `addInt32` on a valid pool returns the old size, appends the four low bytes of its argument,
-- the lowest first, and leaves the pool valid. Read back, they are the argument modulo 2 ^ 32.
pub contents-add_int32 :
    (n : ℕ) (p : DataPool)
    → IsValid p
    → (contents (add_int32 n p).1
        ≡ contents p ++ n % 256 ∷ (n / 2 ^ 8 % 256) ∷ (n / 2 ^ 16 % 256) ∷ (n / 2 ^ 24 % 256) ∷ [])
      × ((add_int32 n p).0 ≡ p.size)
      × (word_at (add_int32 n p).1 p.size ≡ n % 2 ^ 32)
      × IsValid (add_int32 n p).1
contents-add_int32 n p v = (
  contents-add_int32_bytes n p v,
  add_int32-offset n p,
  word_at-add_int32 n p v,
  add_int32-IsValid n p v,
)
