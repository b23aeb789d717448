-- ===== src/SemanticCheck/Rest.antt =====
-- The rest parameter: which type each argument of a call is checked against.
use Prim.Native.String.{String}
use wasmnizer_ts.SemanticCheck.{
  Check, accessed_object, args_and_params_types_are_nominal_class, check_args, check_call_of,
  expand_rest, invoke_any_obj_check_of, nominal_class_check, param_at, pass, rest_element,
  void_type_check, ◌>>◌,
}
use wasmnizer_ts.SemanticCheck.Syntax.{
  Expr, Exprs, Ty, Tys, count_exprs, element_type, expr_type, exprs, function_type, no_exprs,
  types_list,
}
use wasmnizer_ts.Base.{
  List, Option, [], ap, arith, false, get_elem?, leb, length, length-append, map, refl, replicate,
  some, suc, take, true, zero, ℕ, ◌++◌, ◌+◌, ◌-◌, ◌<◌, ◌∙◌, ◌∷◌, ◌≡◌, ◌≤◌,
}

-- The element type of the last parameter, for at least one.
pub rest_element-snoc :
    (ts : List Ty) (t : Ty) → rest_element (ts ++ t ∷ []) ≡ some (element_type t)
unfolding rest_element
rest_element-snoc [] t = refl
rest_element-snoc (u ∷ []) t = refl
rest_element-snoc (u ∷ v ∷ ts) t = rest_element-snoc (v ∷ ts) t

length-snoc : {A : Type 0} (ts : List A) (t : A) → length (ts ++ t ∷ []) ≡ suc (length ts)
length-snoc ts t = ground (arith, length-append ts (t ∷ []))

take-map-snoc : (ts : List Ty) (t : Ty) → take (length ts) (map some (ts ++ t ∷ [])) ≡ map some ts
take-map-snoc [] t = refl
take-map-snoc (u ∷ ts) t = rw (take-map-snoc ts t)

le→leb : (a b : ℕ) → a ≤ b → leb a b ≡ true
le→leb a b h = ground arith

leb-lt : (a b : ℕ) → b < a → leb a b ≡ false
leb-lt a b h = ground arith

minus-one : (n : ℕ) → suc n - 1 ≡ n
minus-one n = omega arith

shift : (args n : ℕ) → args + 1 - suc n ≡ args - n
shift args n = omega arith

expand_rest-snoc :
    (ts : List Ty) (t : Ty) (args n : ℕ)
    → length (ts ++ t ∷ []) ≡ suc n
    → n < args
    → take n (map some (ts ++ t ∷ [])) ≡ map some ts
    → expand_rest true (ts ++ t ∷ []) args
      ≡ some (map some ts ++ replicate (args - n) (element_type t))
unfolding expand_rest
expand_rest-snoc ts t args n len h front = rw (
  expand_rest,
  rest_element-snoc ts t,
  len,
  le→leb (suc n) args (omega arith),
  minus-one n,
  shift args n,
  front,
)

expand_rest-snoc_short :
    (ts : List Ty) (t : Ty) (args n : ℕ)
    → length (ts ++ t ∷ []) ≡ suc n
    → args ≤ n
    → expand_rest true (ts ++ t ∷ []) args ≡ some (map some (ts ++ t ∷ []))
unfolding expand_rest
expand_rest-snoc_short ts t args n len h =
    rw (expand_rest, rest_element-snoc ts t, len, leb-lt (suc n) args (omega arith))

pub expand_rest_lem :
    (ts : List Ty) (t : Ty) (args : ℕ)
    → length ts < args
    → expand_rest true (ts ++ t ∷ []) args
      ≡ some (map some ts ++ replicate (args - length ts) (element_type t))
expand_rest_lem ts t args h =
    expand_rest-snoc ts t args (length ts) (length-snoc ts t) h (take-map-snoc ts t)

-- Each argument with what stands for its parameter: the types in order, then, for the further
-- ones, `rest`.
abbrev pub pair_up : List Ty → Option Ty → Exprs → List (Option Ty × Expr)
pair_up ts rest no_exprs = []
pair_up [] rest (exprs e es) = (rest, e) ∷ pair_up [] rest es
pair_up (t ∷ ts) rest (exprs e es) = (some t, e) ∷ pair_up ts rest es

-- What is reported of a pair, and then `others`.
abbrev check_pair : Option Ty → Expr → String → Check → Check
check_pair o e name others =
    nominal_class_check o (expr_type e) args_and_params_types_are_nominal_class name
    >> void_type_check (expr_type e) name
    >> invoke_any_obj_check_of o (accessed_object e) name
    >> others

pub check_pairs : List (Option Ty × Expr) → String → Check
check_pairs [] name = pass
check_pairs ((o, e) ∷ ps) name = check_pair o e name (check_pairs ps name)

abbrev type_at : List Ty → Option Ty → ℕ → Option Ty
type_at [] rest k = rest
type_at (t ∷ ts) rest zero = some t
type_at (t ∷ ts) rest (suc k) = type_at ts rest k

get_elem?-type_at :
    (ts : List Ty) (n : ℕ) (rest : Option Ty) (k : ℕ)
    → k < length ts + n
    → get_elem? (map some ts ++ replicate n rest) k ≡ some (type_at ts rest k)
get_elem?-type_at [] zero rest k h = absurd (omega (arith, h))
get_elem?-type_at [] (suc n) rest zero h = refl
get_elem?-type_at [] (suc n) rest (suc k) h = get_elem?-type_at [] n rest k (omega (arith, h))
get_elem?-type_at (t ∷ ts) n rest zero h = refl
get_elem?-type_at (t ∷ ts) n rest (suc k) h = get_elem?-type_at ts n rest k (omega (arith, h))

at-first :
    (xs : List (Option Ty)) (i : ℕ) (o : Option Ty)
    → get_elem? xs (i + 0) ≡ some o
    → get_elem? xs i ≡ some o
at-first xs i o e = ap (get_elem? xs) {x = i} {y = i + 0} (omega arith) ∙ e

param-some :
    (xs : List (Option Ty)) (i : ℕ) (o : Option Ty)
    → get_elem? xs (i + 0) ≡ some o
    → param_at xs i ≡ o
param-some xs i o e = rw (param_at, at-first xs i o e) refl

further :
    (xs : List (Option Ty)) (i k : ℕ) (o : Option Ty)
    → get_elem? xs (i + suc k) ≡ some o
    → get_elem? xs (i + 1 + k) ≡ some o
further xs i k o e = ap (get_elem? xs) {x = i + 1 + k} {y = i + suc k} (omega arith) ∙ e

check_args-pair :
    (xs : List (Option Ty)) (i : ℕ) (o : Option Ty) (e : Expr) (es : Exprs)
    (ps : List (Option Ty × Expr)) (name : String)
    → param_at xs i ≡ o
    → check_args xs (i + 1) es name ≡ check_pairs ps name
    → check_args xs i (exprs e es) name ≡ check_pairs ((o, e) ∷ ps) name
unfolding check_args check_pairs
check_args-pair xs i o e es ps name p q =
    ap (λ x. check_pair x e name (check_args xs (i + 1) es name)) p ∙ ap (check_pair o e name) q

check_args-pairs :
    (xs : List (Option Ty)) (i : ℕ) (ts : List Ty) (rest : Option Ty) (es : Exprs) (name : String)
    → ((k : ℕ) → k < count_exprs es → get_elem? xs (i + k) ≡ some (type_at ts rest k))
    → check_args xs i es name ≡ check_pairs (pair_up ts rest es) name
unfolding check_args check_pairs
check_args-pairs xs i ts rest no_exprs name f = refl
check_args-pairs xs i [] rest (exprs e es) name f =
    check_args-pair xs i rest e es (pair_up [] rest es) name
      (param-some xs i rest (f 0 (omega arith)))
      (check_args-pairs xs (i + 1) [] rest es name
        (λ k h. further xs i k rest (f (suc k) (omega (arith, h)))))
check_args-pairs xs i (t ∷ ts) rest (exprs e es) name f =
    check_args-pair xs i (some t) e es (pair_up ts rest es) name
      (param-some xs i (some t) (f 0 (omega arith)))
      (check_args-pairs xs (i + 1) ts rest es name
        (λ k h. further xs i k (type_at ts rest k) (f (suc k) (omega (arith, h)))))

-- In a call of a function with the parameters `ts` and a rest parameter of type `t`, with at least
-- one argument standing for the rest parameter, the arguments are checked in order: the first ones
-- each against the parameter at its place, and all further ones against the element type of the
-- rest parameter. Each is checked for nominal classes, then for the type void and then for an
-- object of the type any.
pub check_call_of-rest :
    (ts : Tys) (all : Tys) (t result : Ty) (args : Exprs) (name : String)
    → types_list all ≡ types_list ts ++ t ∷ []
    → length (types_list ts) < count_exprs args
    → check_call_of (function_type all true result) args name
      ≡ check_pairs (pair_up (types_list ts) (element_type t) args) name
unfolding check_call_of
check_call_of-rest ts all t result args name e h =
    let n = count_exprs args - length (types_list ts) in
    let expected = map some (types_list ts) ++ replicate n (element_type t) in
    rw (check_call_of, e, expand_rest_lem (types_list ts) t (count_exprs args) h)
      (check_args-pairs expected 0 (types_list ts) (element_type t) args name (λ k b.
        ap (get_elem? expected) {x = 0 + k} {y = k} (omega arith)
        ∙ get_elem?-type_at (types_list ts) n (element_type t) k (omega (arith, h, b))))
