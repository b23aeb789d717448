-- ===== src/DataPool/Strings.antt =====
-- Strings: the offset, the bytes, the terminator and the padding that `addString` leaves.
use wasmnizer_ts.Base.{
  Bool, List, [], add-zero, arith, get_or, if◌then◌else◌, length, ltb, none, refl, some, suc, true,
  zero, ℕ, ℕ_discrete, ◌%◌, ◌&&◌, ◌+◌, ◌<◌, ◌∙◌, ◌∷◌, ◌≡◌, ◌≢◌, ◌≤◌,
}
use wasmnizer_ts.DataPool.{Uint8Array, pad_zeros, write_at, write_codes}
use wasmnizer_ts.DataPool.Bytes.{at-write_at_ne, at-write_at_self, len-write_at, octets-write_at}

-- Every code unit fits a byte.
abbrev pub is_latin1 : List ℕ → Bool
is_latin1 [] = true
is_latin1 (c ∷ cs) = ltb c 256 && is_latin1 cs

-- The writes of the loop without its test.
pub put_codes : List ℕ → ℕ → Uint8Array → Uint8Array
put_codes [] i b = b
put_codes (c ∷ cs) i b = put_codes cs (i + 1) (write_at b i c)

pub write_codes-eq :
    (cs : List ℕ) (i : ℕ) (b : Uint8Array)
    → write_codes cs i b ≡ (if is_latin1 cs then some (put_codes cs i b) else none)
unfolding write_codes put_codes
write_codes-eq [] i b = refl
write_codes-eq (c ∷ cs) i b = ground (arith, write_codes-eq cs (i + 1) (write_at b i c))

pub len-put_codes : (cs : List ℕ) (i : ℕ) (b : Uint8Array) → (put_codes cs i b).len ≡ b.len
unfolding put_codes
len-put_codes [] i b = refl
len-put_codes (c ∷ cs) i b = len-put_codes cs (i + 1) _ ∙ len-write_at b i c

pub octets-put_codes :
    (cs : List ℕ) (i : ℕ) (b : Uint8Array)
    → ((j : ℕ) → b.at j < 256)
    → (j : ℕ) → (put_codes cs i b).at j < 256
unfolding put_codes
octets-put_codes [] i b h j = h j
octets-put_codes (c ∷ cs) i b h j = octets-put_codes cs (i + 1) _ (octets-write_at b i c h) j

pub at-put_codes_below :
    (cs : List ℕ) (i : ℕ) (b : Uint8Array) (j : ℕ) → j < i → (put_codes cs i b).at j ≡ b.at j
unfolding put_codes
at-put_codes_below [] i b j h = refl
at-put_codes_below (c ∷ cs) i b j h =
    at-put_codes_below cs (i + 1) _ j (omega arith) ∙ at-write_at_ne b i c j (omega arith)

pub at-put_codes :
    (cs : List ℕ) (i : ℕ) (b : Uint8Array) (k : ℕ)
    → is_latin1 cs ≡ true
    → k < length cs
    → i + length cs ≤ b.len
    → (put_codes cs i b).at (i + k) ≡ get_or cs k 0
unfolding put_codes
at-put_codes [] i b k l h room = absurd (omega arith)
at-put_codes (c ∷ cs) i b zero l h room = rw add-zero (
    at-put_codes_below cs (i + 1) _ i (omega arith)
    ∙ at-write_at_self b i c (omega arith)
    ∙ ground arith)
at-put_codes (c ∷ cs) i b (suc k) l h room =
    let e : i + suc k ≡ i + 1 + k = omega arith in
    rw e (
      at-put_codes cs (i + 1) (write_at b i c) k (ground arith) (omega arith)
        (rw (len-write_at b i c) (omega arith)))

-- What the padding loop leaves: it ends, at the next multiple of 4, and it writes only zeros.
pub record Padded (fuel i : ℕ) (b : Uint8Array) : Type 0 where
  pub stop : ℕ
  pub array : Uint8Array
  pub result : pad_zeros fuel i b ≡ some (stop, array)
  pub rounded : stop % 4 ≡ 0
  pub from : i ≤ stop
  pub within : stop ≤ i + 3
  pub sized : array.len ≡ b.len
  pub below : (j : ℕ) → j < i → array.at j ≡ b.at j
  pub padding : (j : ℕ) → i ≤ j → j < stop → j < b.len → array.at j ≡ 0
  pub octets : ((j : ℕ) → b.at j < 256) → (j : ℕ) → array.at j < 256

pad-done : (fuel i : ℕ) (b : Uint8Array) → i % 4 ≡ 0 → Padded fuel i b
unfolding pad_zeros
pad-done fuel i b h = record {
  stop = i;
  array = b;
  result = elim fuel as (λ f. pad_zeros f i b ≡ some (i, b)) [ zero ↦ rw h | suc f ↦ rw h ];
  rounded = h;
  from = omega arith;
  within = omega arith;
  sized = refl;
  below = λ j lt. refl;
  padding = λ j lo hi room. absurd (omega arith);
  octets = λ o. o;
}

pad-next :
    (fuel i : ℕ) (b : Uint8Array)
    → i % 4 ≢ 0
    → Padded fuel (i + 1) (write_at b i 0)
    → Padded (suc fuel) i b
unfolding pad_zeros
pad-next fuel i b h rest = record {
  stop = rest.stop;
  array = rest.array;
  result = ground (arith, rest.result);
  rounded = rest.rounded;
  from = omega (arith, rest.from);
  within = omega (arith, rest.within, rest.rounded, rest.from);
  sized = rest.sized ∙ len-write_at b i 0;
  below = λ j lt. rest.below j (omega arith) ∙ at-write_at_ne b i 0 j (omega arith);
  padding = λ j lo hi room.
      ground (arith, rest.below i, rest.padding j, at-write_at_self b i 0, len-write_at b i 0);
  octets = λ o. rest.octets (octets-write_at b i 0 o);
}

pub padded : (fuel i : ℕ) (b : Uint8Array) → (i + fuel) % 4 ≤ fuel → fuel ≤ 3 → Padded fuel i b
padded zero i b h small = pad-done zero i b (omega arith)
padded (suc f) i b h small = elim (ℕ_discrete (i % 4) 0) [
  | yes e ↦ pad-done (suc f) i b e
  | no ne ↦ pad-next f i b ne (padded f (i + 1) (write_at b i 0) (omega arith) (omega arith))
]
