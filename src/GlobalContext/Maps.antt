-- ===== src/GlobalContext/Maps.antt =====
-- Maps that number the elements of a list, and the arrays made of them.
use mathlib.Core.List.{append-nil, append_assoc}
use wasmnizer_ts.GlobalContext.{
  IndexMap, array_set, build_map_as_array, fill_array, index_from, map_get, map_set,
}
use wasmnizer_ts.Base.{
  List, Option, [], add-zero, ap, arith, get_elem?, length, length-append, map, none, refl,
  replicate, some, suc, sym, zero, ℕ, ◌++◌, ◌+◌, ◌-◌, ◌∙◌, ◌∷◌, ◌≡◌, ◌≢◌,
}

-- No element is at two places.
pub data AreDistinct : List ℕ → Type 0 where
  none_left : AreDistinct []
  one_more :
      {v : ℕ} {vs : List ℕ}
      → ((j : ℕ) → get_elem? vs j ≢ some v)
      → AreDistinct vs
      → AreDistinct (v ∷ vs)

abbrev pub enumerate : List ℕ → ℕ → IndexMap
enumerate [] i = []
enumerate (v ∷ vs) i = (v, i) ∷ enumerate vs (i + 1)

AllAbsent : List ℕ → IndexMap → Type 0
AllAbsent vs m = (j v : ℕ) → get_elem? vs j ≡ some v → map_get v m ≡ none

map_get-hit :
    {A : Type 0} (k l : ℕ) (v : A) (m : List (ℕ × A)) → l ≡ k → map_get k ((l, v) ∷ m) ≡ some v
unfolding map_get
map_get-hit k l v m h = ground arith

map_get-miss :
    {A : Type 0} (k l : ℕ) (v : A) (m : List (ℕ × A)) → l ≢ k → map_get k ((l, v) ∷ m) ≡ map_get k m
unfolding map_get
map_get-miss k l v m h = ground arith

absent-cons :
    (k l v : ℕ) (m : IndexMap) → map_get k ((l, v) ∷ m) ≡ none → (l ≢ k) × (map_get k m ≡ none)
unfolding map_get
absent-cons k l v m h = ground arith

map_set-miss :
    (k l v i : ℕ) (m : IndexMap) → l ≢ k → map_set k i ((l, v) ∷ m) ≡ (l, v) ∷ map_set k i m
unfolding map_set
map_set-miss k l v i m h = ground arith

map_set-absent : (k i : ℕ) (m : IndexMap) → map_get k m ≡ none → map_set k i m ≡ m ++ (k, i) ∷ []
unfolding map_set
map_set-absent k i [] h = refl
map_set-absent k i ((l, v) ∷ m) h =
    let (ne, e) = absent-cons k l v m h in
    map_set-miss k l v i m ne ∙ ap (λ r. (l, v) ∷ r) (map_set-absent k i m e)

map_get-append :
    (k l i : ℕ) (m : IndexMap) → map_get k m ≡ none → l ≢ k → map_get k (m ++ (l, i) ∷ []) ≡ none
unfolding map_get
map_get-append k l i [] h ne = ground arith
map_get-append k l i ((x, v) ∷ m) h ne = ground (arith, map_get-append k l i m)

index_from-enumerate :
    (vs : List ℕ) (i : ℕ) (m : IndexMap)
    → AreDistinct vs
    → AllAbsent vs m
    → index_from vs i m ≡ m ++ enumerate vs i
unfolding index_from AllAbsent
index_from-enumerate [] i m d h = sym (append-nil m)
index_from-enumerate (v ∷ vs) i m (one_more ne d) h =
    ap (λ x. index_from vs (i + 1) x) (map_set-absent v i m (h 0 v refl))
    ∙ index_from-enumerate vs (i + 1) (m ++ (v, i) ∷ []) d
        (λ j w e. map_get-append w v i m (h (suc j) w e) (λ q. ne j (e ∙ ap some (sym q))))
    ∙ append_assoc m ((v, i) ∷ []) (enumerate vs (i + 1))

pub index_from_new : (vs : List ℕ) → AreDistinct vs → index_from vs 1 [] ≡ enumerate vs 1
unfolding AllAbsent map_get
index_from_new vs d = index_from-enumerate vs 1 [] d (λ j v e. refl)

head-eq : (w v : ℕ) → some w ≡ some v → w ≡ v
head-eq w v e = cc

shift : (i j : ℕ) → i + 1 + j ≡ i + suc j
shift i j = omega arith

pub map_get-enumerate :
    (vs : List ℕ) (i j v : ℕ)
    → AreDistinct vs
    → get_elem? vs j ≡ some v
    → map_get v (enumerate vs i) ≡ some (i + j)
unfolding map_get
map_get-enumerate [] i j v d e = cc
map_get-enumerate (w ∷ vs) i zero v (one_more ne d) e =
    map_get-hit v w i (enumerate vs (i + 1)) (head-eq w v e) ∙ ap some (sym (add-zero i))
map_get-enumerate (w ∷ vs) i (suc j) v (one_more ne d) e =
    map_get-miss v w i (enumerate vs (i + 1)) (λ q. ne j (e ∙ ap some (sym q)))
    ∙ map_get-enumerate vs (i + 1) j v d e
    ∙ ap some (shift i j)

pub map_get-enumerate_absent :
    (vs : List ℕ) (i v : ℕ)
    → ((j : ℕ) → get_elem? vs j ≢ some v)
    → map_get v (enumerate vs i) ≡ none
unfolding map_get
map_get-enumerate_absent [] i v h = refl
map_get-enumerate_absent (w ∷ vs) i v h =
    map_get-miss v w i (enumerate vs (i + 1)) (λ q. h 0 (ap some q))
    ∙ map_get-enumerate_absent vs (i + 1) v (λ j. h (suc j))

length-enumerate : (vs : List ℕ) (i : ℕ) → length (enumerate vs i) ≡ length vs
length-enumerate [] i = refl
length-enumerate (v ∷ vs) i = ap suc (length-enumerate vs (i + 1))

array_set-append :
    (xs : List (Option ℕ)) (x : Option ℕ) (ys : List (Option ℕ)) (v : ℕ)
    → array_set (xs ++ x ∷ ys) (length xs) v ≡ xs ++ some v ∷ ys
unfolding array_set
array_set-append [] x ys v = refl
array_set-append (z ∷ xs) x ys v = ap (λ r. z ∷ r) (array_set-append xs x ys v)

fill_array-enumerate :
    (vs : List ℕ) (xs : List (Option ℕ)) (i : ℕ)
    → i ≡ length xs + 1
    → fill_array (enumerate vs i) (xs ++ replicate (length vs) none) ≡ xs ++ map some vs
unfolding fill_array
fill_array-enumerate [] xs i h = refl
fill_array-enumerate (v ∷ vs) xs i h =
    let e : i - 1 ≡ length xs = omega (arith, h) in
    let rest = replicate (length vs) none in
    ap (λ n. fill_array (enumerate vs (i + 1)) (array_set (xs ++ none ∷ rest) n v)) e
    ∙ ap (λ a. fill_array (enumerate vs (i + 1)) a)
        (array_set-append xs none rest v ∙ sym (append_assoc xs (some v ∷ []) rest))
    ∙ fill_array-enumerate vs (xs ++ some v ∷ []) (i + 1)
        (omega (arith, h, length-append xs (some v ∷ [])))
    ∙ append_assoc xs (some v ∷ []) (map some vs)

pub build_map_as_array-enumerate : (vs : List ℕ) → build_map_as_array (enumerate vs 1) ≡ map some vs
unfolding build_map_as_array
build_map_as_array-enumerate vs = rw (length-enumerate vs 1) (fill_array-enumerate vs [] 1 refl)
