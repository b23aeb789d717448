-- ===== src/DataPool/Words.antt =====
-- 32-bit words: `addInt32` and `setInt32` against reading four bytes back.
use wasmnizer_ts.Base.{
  arith, if◌then◌else◌, refl, ℕ, ◌%◌, ◌*◌, ◌+◌, ◌/◌, ◌<◌, ◌==◌, ◌^◌, ◌∙◌, ◌≡◌, ◌≤◌, ◌⊎◌,
}
use wasmnizer_ts.DataPool.{DataPool, add_byte, add_int32, set_byte, set_int32}
use wasmnizer_ts.DataPool.Bytes.{
  Extends, Extends-refl, Extends-trans, IsValid, add_byte-Extends, add_byte-IsValid,
  add_byte-offset, at-add_byte_later, len-write_at, octets-write_at, size-add_byte,
  str_map-add_byte,
}

-- The little-endian word at an offset, as a loader of the pool reads it.
abbrev pub word_at : DataPool → ℕ → ℕ
word_at p i =
    p.buffer.at i
    + 2 ^ 8 * p.buffer.at (i + 1)
    + 2 ^ 16 * p.buffer.at (i + 2)
    + 2 ^ 24 * p.buffer.at (i + 3)

-- A word that lies within the old pool reads the same in the extended one.
pub word_at-Extends :
    {p q : DataPool} → Extends p q → (i : ℕ) → i + 4 ≤ p.size → word_at q i ≡ word_at p i
word_at-Extends e i h = omega (
  arith,
  e.keeps i (omega arith),
  e.keeps (i + 1) (omega arith),
  e.keeps (i + 2) (omega arith),
  e.keeps (i + 3) (omega arith),
)

module _ (n : ℕ) (p : DataPool) (v : IsValid p) where
  pub add_int32-IsValid : IsValid (add_int32 n p).1
  unfolding add_int32
  add_int32-IsValid =
      add_byte-IsValid _ _ (add_byte-IsValid _ _ (add_byte-IsValid _ _ (add_byte-IsValid _ p v)))

  pub add_int32-Extends : Extends p (add_int32 n p).1
  unfolding add_int32
  add_int32-Extends =
      let v1 = add_byte-IsValid (n % 256) p v in
      let v2 = add_byte-IsValid (n / 2 ^ 8 % 256) _ v1 in
      let v3 = add_byte-IsValid (n / 2 ^ 16 % 256) _ v2 in
      Extends-trans (add_byte-Extends _ p v) (
        Extends-trans (add_byte-Extends _ _ v1)
          (Extends-trans (add_byte-Extends _ _ v2) (add_byte-Extends _ _ v3)))

pub add_int32-offset : (n : ℕ) (p : DataPool) → (add_int32 n p).0 ≡ p.size
unfolding add_int32
add_int32-offset n p = add_byte-offset _ p

pub size-add_int32 : (n : ℕ) (p : DataPool) → (add_int32 n p).1.size ≡ p.size + 4
unfolding add_int32
size-add_int32 n p = omega (arith, size-add_byte)

pub str_map-add_int32 : (n : ℕ) (p : DataPool) → (add_int32 n p).1.str_map ≡ p.str_map
unfolding add_int32
str_map-add_int32 n p = simp str_map-add_byte

pub word_at-add_int32 :
    (n : ℕ) (p : DataPool) → IsValid p → word_at (add_int32 n p).1 p.size ≡ n % 2 ^ 32
unfolding add_int32
word_at-add_int32 n p v =
    let p1 = (add_byte (n % 256) p).1 in
    let p2 = (add_byte (n / 2 ^ 8 % 256) p1).1 in
    let p3 = (add_byte (n / 2 ^ 16 % 256) p2).1 in
    let v1 = add_byte-IsValid (n % 256) p v in
    let v2 = add_byte-IsValid (n / 2 ^ 8 % 256) p1 v1 in
    let v3 = add_byte-IsValid (n / 2 ^ 16 % 256) p2 v2 in
    let e3 = add_byte-Extends (n / 2 ^ 24 % 256) p3 v3 in
    let e2 = Extends-trans (add_byte-Extends (n / 2 ^ 16 % 256) p2 v2) e3 in
    let e1 = Extends-trans (add_byte-Extends (n / 2 ^ 8 % 256) p1 v1) e2 in
    let s1 = size-add_byte (n % 256) p in
    let s2 = size-add_byte (n / 2 ^ 8 % 256) p1 in
    let s3 = size-add_byte (n / 2 ^ 16 % 256) p2 in
    omega (
      arith,
      at-add_byte_later (n % 256) p v e1 p.size refl,
      at-add_byte_later (n / 2 ^ 8 % 256) p1 v1 e2 (p.size + 1) (omega arith),
      at-add_byte_later (n / 2 ^ 16 % 256) p2 v2 e3 (p.size + 2) (omega arith),
      at-add_byte_later (n / 2 ^ 24 % 256) p3 v3 (Extends-refl _) (p.size + 3) (omega arith),
    )

len-set_byte : (i b : ℕ) (p : DataPool) → (set_byte i b p).buffer.len ≡ p.buffer.len
unfolding set_byte
len-set_byte i b p = len-write_at p.buffer i _

at-set_byte :
    (i b : ℕ) (p : DataPool) (j : ℕ)
    → i < p.buffer.len
    → (set_byte i b p).buffer.at j ≡ (if j == i then b % 256 else p.buffer.at j)
unfolding set_byte
at-set_byte i b p j h = ground arith

-- Every byte after `setInt32`: the four at the index, and those that stay.
at-set_int32 :
    (i n : ℕ) (p : DataPool) (j : ℕ)
    → i + 4 ≤ p.buffer.len
    → (set_int32 i n p).buffer.at j ≡ (
        if j == i + 3
        then n / 2 ^ 24 % 256
        else if j == i + 2
        then n / 2 ^ 16 % 256
        else if j == i + 1
        then n / 2 ^ 8 % 256
        else if j == i
        then n % 256
        else p.buffer.at j)
unfolding set_int32
at-set_int32 i n p j h =
    let p1 = set_byte i (n % 256) p in
    let p2 = set_byte (i + 1) (n / 2 ^ 8 % 256) p1 in
    let p3 = set_byte (i + 2) (n / 2 ^ 16 % 256) p2 in
    let l1 = len-set_byte i (n % 256) p in
    let l2 = len-set_byte (i + 1) (n / 2 ^ 8 % 256) p1 in
    let l3 = len-set_byte (i + 2) (n / 2 ^ 16 % 256) p2 in
    ground (
      arith,
      at-set_byte (i + 3) (n / 2 ^ 24 % 256) p3 j (omega arith),
      at-set_byte (i + 2) (n / 2 ^ 16 % 256) p2 j (omega arith),
      at-set_byte (i + 1) (n / 2 ^ 8 % 256) p1 j (omega arith),
      at-set_byte i (n % 256) p j (omega arith),
    )

-- `setInt32` at four bytes of the buffer stores the word modulo 2 ^ 32, and every word that does
-- not overlap them reads as before.
pub word_at-set_int32 :
    (i n : ℕ) (p : DataPool) (j : ℕ)
    → i + 4 ≤ p.buffer.len
    → (j + 4 ≤ i) ⊎ (i + 4 ≤ j)
    → (word_at (set_int32 i n p) i ≡ n % 2 ^ 32) × (word_at (set_int32 i n p) j ≡ word_at p j)
word_at-set_int32 i n p j h apart = (
  ground (
    arith,
    at-set_int32 i n p i h,
    at-set_int32 i n p (i + 1) h,
    at-set_int32 i n p (i + 2) h,
    at-set_int32 i n p (i + 3) h,
  ),
  ground (
    arith,
    at-set_int32 i n p j h,
    at-set_int32 i n p (j + 1) h,
    at-set_int32 i n p (j + 2) h,
    at-set_int32 i n p (j + 3) h,
  ),
)

set_byte-IsValid : (i b : ℕ) (p : DataPool) → IsValid p → IsValid (set_byte i b p)
unfolding set_byte
set_byte-IsValid i b p v = record {
  within = v.within;
  sized = len-write_at p.buffer i _ ∙ v.sized;
  octets = octets-write_at p.buffer i _ v.octets;
  aligned = v.aligned;
}

pub set_int32-IsValid : (i n : ℕ) (p : DataPool) → IsValid p → IsValid (set_int32 i n p)
unfolding set_int32
set_int32-IsValid i n p v =
    set_byte-IsValid _ _ _
      (set_byte-IsValid _ _ _ (set_byte-IsValid _ _ _ (set_byte-IsValid _ _ p v)))

pub size-set_int32 : (i n : ℕ) (p : DataPool) → (set_int32 i n p).size ≡ p.size
unfolding set_int32 set_byte
size-set_int32 i n p = refl
