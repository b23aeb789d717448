-- ===== src/DataPool/Bytes.antt =====
-- Single bytes: growing the buffer and appending a byte.
use wasmnizer_ts.Base.{
  ==_iff, Bool-cases, arith, if◌then◌else◌, inl, inr, ltb, refl, suc, sym, zero, ℕ, ◌%◌, ◌+◌, ◌<◌,
  ◌==◌, ◌∙◌, ◌≡◌, ◌≢◌, ◌≤◌,
}
use mathlib.Core.Path.{subst}
use wasmnizer_ts.DataPool.{
  DataPool, Uint8Array, add_byte, copy_bytes, inc_size, read_at, to_byte, update_buffer_size,
  write_at,
}

-- The size stays within the buffer, whose length is the recorded capacity.
pub record IsValid (p : DataPool) : Type 0 where
  pub within : p.size ≤ p.capacity
  pub sized : p.buffer.len ≡ p.capacity
  pub octets : (j : ℕ) → p.buffer.at j < 256
  pub aligned : p.capacity % 4 ≡ 0

-- `q` holds what `p` holds, and perhaps more behind it.
pub record Extends (p q : DataPool) : Type 0 where
  pub grows : p.size ≤ q.size
  pub keeps : (j : ℕ) → j < p.size → q.buffer.at j ≡ p.buffer.at j

pub Extends-refl : (p : DataPool) → Extends p p
Extends-refl p = record { grows = omega arith; keeps = λ j h. refl }

pub Extends-trans : {p q r : DataPool} → Extends p q → Extends q r → Extends p r
Extends-trans e f = record {
  grows = omega arith;
  keeps = λ j h. f.keeps j (omega arith) ∙ e.keeps j h;
}

pub len-write_at : (a : Uint8Array) (i v : ℕ) → (write_at a i v).len ≡ a.len
len-write_at a i v = ground arith

pub at-write_at_ne : (a : Uint8Array) (i v j : ℕ) → j ≢ i → (write_at a i v).at j ≡ a.at j
at-write_at_ne a i v j h = ground arith

pub at-write_at_self : (a : Uint8Array) (i v : ℕ) → i < a.len → (write_at a i v).at i ≡ v % 256
at-write_at_self a i v h = ground arith

len-copy_bytes : (r i : ℕ) (a b : Uint8Array) → (copy_bytes r i a b).len ≡ b.len
unfolding copy_bytes
len-copy_bytes zero i a b = refl
len-copy_bytes (suc r) i a b = len-copy_bytes r (i + 1) a _ ∙ len-write_at b i _

at-copy_bytes_below :
    (r i : ℕ) (a b : Uint8Array) (j : ℕ) → j < i → (copy_bytes r i a b).at j ≡ b.at j
unfolding copy_bytes
at-copy_bytes_below zero i a b j h = refl
at-copy_bytes_below (suc r) i a b j h =
    at-copy_bytes_below r (i + 1) a _ j (omega arith) ∙ at-write_at_ne b i _ j (omega arith)

pub octets-write_at :
    (a : Uint8Array) (i v : ℕ) → ((j : ℕ) → a.at j < 256) → (j : ℕ) → (write_at a i v).at j < 256
octets-write_at a i v h j = ground (arith, h j)

octets-copy_bytes :
    (r i : ℕ) (a b : Uint8Array)
    → ((j : ℕ) → b.at j < 256)
    → (j : ℕ) → (copy_bytes r i a b).at j < 256
unfolding copy_bytes
octets-copy_bytes zero i a b h j = h j
octets-copy_bytes (suc r) i a b h j = octets-copy_bytes r (i + 1) a _ (octets-write_at b i _ h) j

-- The bytes that the loop reaches are those of the old buffer; past its end they are 0.
at-copy_bytes :
    (r i : ℕ) (a b : Uint8Array) (j : ℕ)
    → ((k : ℕ) → a.at k < 256)
    → i ≤ j
    → j < i + r
    → j < b.len
    → (copy_bytes r i a b).at j ≡ to_byte (read_at a j)
unfolding copy_bytes
at-copy_bytes zero i a b j oct lo hi room = absurd (omega arith)
at-copy_bytes (suc r) i a b j oct lo hi room = elim (Bool-cases (i == j)) [
  | inl same ↦
      let e : i ≡ j = (==_iff i j).0 same in
      at-copy_bytes_below r (i + 1) a _ j (omega arith) ∙ ground (arith, e, oct i, oct j)
  | inr differ ↦
      let ne : i ≢ j = λ e. cc ((==_iff i j).1 e) in
      at-copy_bytes r (i + 1) a _ j oct (omega arith) (omega arith)
        (subst (λ n. j < n) (sym (len-write_at b i _)) room)
]

pub update_buffer_size-IsValid :
    (inc : ℕ) (p : DataPool) → IsValid p → IsValid (update_buffer_size inc p)
unfolding update_buffer_size
update_buffer_size-IsValid inc p v = elim (Bool-cases (ltb p.capacity (p.size + inc))) [
  | inl more ↦ rw more (record {
    within = omega (arith, v.within);
    sized = len-copy_bytes p.size 0 p.buffer _;
    octets = octets-copy_bytes p.size 0 p.buffer _ (λ j. omega arith);
    aligned = omega (arith, v.aligned);
  })
  | inr fits ↦ rw fits v
]

pub update_buffer_size-Extends :
    (inc : ℕ) (p : DataPool) → IsValid p → Extends p (update_buffer_size inc p)
unfolding update_buffer_size
update_buffer_size-Extends inc p v = elim (Bool-cases (ltb p.capacity (p.size + inc))) [
  | inl more ↦ rw more (record {
    grows = omega arith;
    keeps = λ j h.
        at-copy_bytes p.size 0 p.buffer _ j v.octets (omega arith) (omega arith)
          (omega (arith, v.within))
        ∙ ground (arith, v.sized, v.within);
  })
  | inr fits ↦ rw fits (Extends-refl p)
]

pub size-update_buffer_size : (inc : ℕ) (p : DataPool) → (update_buffer_size inc p).size ≡ p.size
unfolding update_buffer_size
size-update_buffer_size inc p = ground arith

-- One call makes room for one byte, and at most `inc_size` more.
pub capacity-update_buffer_size :
    (inc : ℕ) (p : DataPool)
    → (update_buffer_size inc p).capacity
      ≡ (if ltb p.capacity (p.size + inc) then p.capacity + inc_size else p.capacity)
unfolding update_buffer_size
capacity-update_buffer_size inc p = ground arith

pub str_map-update_buffer_size :
    (inc : ℕ) (p : DataPool) → (update_buffer_size inc p).str_map ≡ p.str_map
unfolding update_buffer_size
str_map-update_buffer_size inc p = ground arith

pub add_byte-offset : (b : ℕ) (p : DataPool) → (add_byte b p).0 ≡ p.size
unfolding add_byte
add_byte-offset b p = omega (arith, size-update_buffer_size 1 p)

pub size-add_byte : (b : ℕ) (p : DataPool) → (add_byte b p).1.size ≡ p.size + 1
unfolding add_byte
size-add_byte b p = omega (arith, size-update_buffer_size 1 p)

-- After the call for one byte there is room for it.
room-update_buffer_size :
    (p : DataPool) → IsValid p → (update_buffer_size 1 p).size < (update_buffer_size 1 p).buffer.len
room-update_buffer_size p v =
    let w = update_buffer_size-IsValid 1 p v in
    ground (arith, w.sized, v.within, size-update_buffer_size 1 p, capacity-update_buffer_size 1 p)

pub add_byte-IsValid : (b : ℕ) (p : DataPool) → IsValid p → IsValid (add_byte b p).1
unfolding add_byte
add_byte-IsValid b p v =
    let q = update_buffer_size 1 p in
    let w = update_buffer_size-IsValid 1 p v in
    record {
      within = omega (arith, w.sized, room-update_buffer_size p v);
      sized = len-write_at q.buffer q.size (b % 256) ∙ w.sized;
      octets = octets-write_at q.buffer q.size (b % 256) w.octets;
      aligned = w.aligned;
    }

pub add_byte-Extends : (b : ℕ) (p : DataPool) → IsValid p → Extends p (add_byte b p).1
unfolding add_byte
add_byte-Extends b p v =
    let q = update_buffer_size 1 p in
    let e = update_buffer_size-Extends 1 p v in
    record {
      grows = omega (arith, e.grows);
      keeps = λ j h. at-write_at_ne q.buffer q.size _ j (omega (arith, e.grows)) ∙ e.keeps j h;
    }

pub at-add_byte : (b : ℕ) (p : DataPool) → IsValid p → (add_byte b p).1.buffer.at p.size ≡ b % 256
unfolding add_byte
at-add_byte b p v =
    let q = update_buffer_size 1 p in
    subst (λ n. (write_at q.buffer q.size (b % 256)).at n ≡ b % 256) (size-update_buffer_size 1 p)
      (at-write_at_self q.buffer q.size (b % 256) (room-update_buffer_size p v) ∙ omega arith)

pub str_map-add_byte : (b : ℕ) (p : DataPool) → (add_byte b p).1.str_map ≡ p.str_map
unfolding add_byte
str_map-add_byte b p = str_map-update_buffer_size 1 p

-- The appended byte at an index that is known to be the old size, in any later pool.
pub at-add_byte_later :
    (b : ℕ) (p : DataPool) {q : DataPool}
    → IsValid p
    → Extends (add_byte b p).1 q
    → (i : ℕ) → i ≡ p.size
    → q.buffer.at i ≡ b % 256
at-add_byte_later b p v e i h =
    e.keeps i (omega (arith, size-add_byte b p)) ∙ rw h (at-add_byte b p v)
