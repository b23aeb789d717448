-- ===== src/IrFunction/Lookup.antt =====
-- About `getLocalVarIndex` of src/semantics/ir/function.ts: the stack of local variables laid out
-- as one list.
use wasmnizer_ts.IrFunction.{
  LocalVars, find_var, first_of, get_local_var_index, next_start, place_of, shifted,
}
use wasmnizer_ts.IrFunction.Tree.{Decl}
use wasmnizer_ts.IrFunction.Locals.{IsStacked}
use wasmnizer_ts.Base.{
  Bool, List, Option, [], add-zero, arith, false, get_elem?, if◌then◌else◌, length, length-append,
  none, refl, some, suc, sym, true, zero, ℕ, ◌++◌, ◌+◌, ◌==◌, ◌||◌, ◌∙◌, ◌∷◌, ◌≡◌,
}

-- The slots of the function: those of the outermost block first.
unfoldable pub slots : List LocalVars → List Decl
slots [] = []
slots (l ∷ st) = slots st ++ l.vars

abbrev pub is_same : Decl → Decl → Bool
is_same v d = (d.decl_id == v.decl_id) || (d.decl_name == v.decl_name)

unfoldable pub has_same : Decl → List Decl → Bool
has_same v [] = false
has_same v (d ∷ ds) = is_same v d || has_same v ds

-- An index is that of a variable with the same identity or name; none is given only if there is no
-- such variable.
abbrev pub IsPlace : Decl → List Decl → Option ℕ → Type 0
IsPlace v ds none = has_same v ds ≡ false
IsPlace v ds (some i) = (d : Decl) × (get_elem? ds i ≡ some d) × (is_same v d ≡ true)

add_one : (i : ℕ) → i + 1 ≡ suc i
add_one i = omega arith

IsPlace-if :
    (v d : Decl) (ds : List Decl) (b : Bool) (o : Option ℕ)
    → is_same v d ≡ b
    → IsPlace v ds o
    → IsPlace v (d ∷ ds) (if b then some 0 else shifted 1 o)
unfolding has_same
IsPlace-if v d ds true o e h = (d, refl, e)
IsPlace-if v d ds false none e h = rw (e, h) refl
IsPlace-if v d ds false (some i) e (x, g, k) = (x, rw (add_one i) g, k)

IsPlace-place_of : (v : Decl) (ds : List Decl) → IsPlace v ds (place_of v ds)
unfolding place_of has_same
IsPlace-place_of v [] = refl
IsPlace-place_of v (d ∷ ds) =
    IsPlace-if v d ds (is_same v d) (place_of v ds) refl (IsPlace-place_of v ds)

or_assoc : (a b c : Bool) → (a || b) || c ≡ a || (b || c)
or_assoc true b c = refl
or_assoc false b c = refl

has_same-append :
    (v : Decl) (ds es : List Decl) → has_same v (ds ++ es) ≡ has_same v ds || has_same v es
unfolding has_same
has_same-append v [] es = refl
has_same-append v (d ∷ ds) es =
    rw (has_same-append v ds es) (sym (or_assoc (is_same v d) (has_same v ds) (has_same v es)))

get_elem?-append_left :
    (ds es : List Decl) (i : ℕ) (d : Decl)
    → get_elem? ds i ≡ some d
    → get_elem? (ds ++ es) i ≡ some d
get_elem?-append_left [] es i d e = absurd cc
get_elem?-append_left (x ∷ ds) es zero d e = e
get_elem?-append_left (x ∷ ds) es (suc i) d e = get_elem?-append_left ds es i d e

plus_suc : (i n : ℕ) → i + suc n ≡ suc (i + n)
plus_suc i n = omega arith

get_elem?-append_right :
    (ds es : List Decl) (i : ℕ) → get_elem? (ds ++ es) (i + length ds) ≡ get_elem? es i
get_elem?-append_right [] es i = rw (add-zero i) refl
get_elem?-append_right (x ∷ ds) es i = rw (plus_suc i (length ds)) (get_elem?-append_right ds es i)

length-slots : (st : List LocalVars) → IsStacked st → length (slots st) ≡ next_start st
unfolding slots IsStacked
length-slots [] h = refl
length-slots (l ∷ st) (e, h) = omega (arith, length-append (slots st) l.vars, length-slots st h)

IsPlace-first_of :
    (v : Decl) (ds es : List Decl) (o p : Option ℕ)
    → IsPlace v es o
    → IsPlace v ds p
    → IsPlace v (ds ++ es) (first_of (shifted (length ds) o) p)
IsPlace-first_of v ds es none none h k = rw (has_same-append v ds es, h, k) refl
IsPlace-first_of v ds es none (some i) h (d, g, k) = (d, get_elem?-append_left ds es i d g, k)
IsPlace-first_of v ds es (some i) p (d, g, k) q = (d, get_elem?-append_right ds es i ∙ g, k)

-- Over a stack whose entries start where those below them end, the index that `getLocalVarIndex`
-- gives is the place, among the variables of all entries from the outermost on, of a variable with
-- the identity or the name that is looked for; and it gives none only when no variable of the
-- stack has either.
pub get_local_var_index_lem :
    (v : Decl) (st : List LocalVars)
    → IsStacked st
    → IsPlace v (slots st) (get_local_var_index v st)
unfolding slots get_local_var_index find_var IsStacked has_same
get_local_var_index_lem v [] h = refl
get_local_var_index_lem v (l ∷ st) (e, h) = rw (e ∙ sym (length-slots st h)) (
    IsPlace-first_of v (slots st) l.vars (place_of v l.vars) (get_local_var_index v st)
      (IsPlace-place_of v l.vars) (get_local_var_index_lem v st h))
