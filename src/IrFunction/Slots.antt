-- ===== src/IrFunction/Slots.antt =====
-- The locals of the machine as the values of the variables in scope, and what a write changes.
use mathlib.Core.Path.{subst}
use mathlib.Core.Option.{some-injective}
use wasmnizer_ts.IrFunction.{LocalVars, find_var, get_local_var_index, place_of}
use wasmnizer_ts.IrFunction.Tree.{Decl}
use wasmnizer_ts.IrFunction.Machine.{updated}
use wasmnizer_ts.IrFunction.Lookup.{IsPlace, get_local_var_index_lem, is_same, slots}
use wasmnizer_ts.IrFunction.Locals.{IsStacked}
use wasmnizer_ts.Base.{
  ==_iff, Bool-cases, List, Option, [], ap, arith, false, get_elem?, get_elem?-set_ne,
  get_elem?-set_self, inl, inr, length, refl, set, some, suc, sym, true, zero, ℕ, ◌<◌, ◌==◌, ◌∙◌,
  ◌∷◌, ◌≡◌, ◌⊎◌,
}

-- The stack of variables is laid out without gaps, and names are different for different variables.
pub record IsScope (name_of : ℕ → ℕ) (st : List LocalVars) : Type 0 where
  pub stacked : IsStacked st
  pub named : (i : ℕ) (d : Decl) → get_elem? (slots st) i ≡ some d → d.decl_name ≡ name_of d.decl_id
  pub injective : (a b : ℕ) → name_of a ≡ name_of b → a ≡ b

-- The locals hold the values of the variables.
abbrev pub Agrees : {D : Type 0} → (ℕ → ℕ) → List LocalVars → (ℕ → Option D) → List D → Type 0
Agrees {D = D} name_of st env ls =
    (v : Decl) (d : D)
    → v.decl_name ≡ name_of v.decl_id
    → env v.decl_id ≡ some d
    → (i : ℕ) × (get_local_var_index v st ≡ some i) × (get_elem? ls i ≡ some d)

is_same-or :
    (v d : Decl) → is_same v d ≡ true → (d.decl_id ≡ v.decl_id) ⊎ (d.decl_name ≡ v.decl_name)
is_same-or v d h = ground arith

module _ (name_of : ℕ → ℕ) (st : List LocalVars) (h : IsScope name_of st) where
  -- The variable at the index that is found has the identity looked for.
  slot_of :
      (v : Decl) (i : ℕ)
      → v.decl_name ≡ name_of v.decl_id
      → get_local_var_index v st ≡ some i
      → (d : Decl) × (get_elem? (slots st) i ≡ some d) × (d.decl_id ≡ v.decl_id)
  slot_of v i n e = go (subst (IsPlace v (slots st)) e (get_local_var_index_lem v st h.stacked))
    where
      go :
          IsPlace v (slots st) (some i)
          → (d : Decl) × (get_elem? (slots st) i ≡ some d) × (d.decl_id ≡ v.decl_id)
      go (d, g, s) = elim (is_same-or v d s) [
        | inl p ↦ (d, g, p)
        | inr p ↦ (d, g, h.injective d.decl_id v.decl_id (sym (h.named i d g) ∙ p ∙ n))
      ]

  same_slot :
      (v w : Decl) (i : ℕ)
      → v.decl_name ≡ name_of v.decl_id
      → w.decl_name ≡ name_of w.decl_id
      → get_local_var_index v st ≡ some i
      → get_local_var_index w st ≡ some i
      → v.decl_id ≡ w.decl_id
  same_slot v w i n k e g = go (slot_of v i n e) (slot_of w i k g)
    where
      go :
          (d : Decl) × (get_elem? (slots st) i ≡ some d) × (d.decl_id ≡ v.decl_id)
          → (d : Decl) × (get_elem? (slots st) i ≡ some d) × (d.decl_id ≡ w.decl_id)
          → v.decl_id ≡ w.decl_id
      go (d, a, p) (x, b, q) =
          sym p ∙ ap (λ (y : Decl). y.decl_id) (some-injective d x (sym a ∙ b)) ∙ q

place_of-same :
    (v w : Decl) (ds : List Decl)
    → v.decl_id ≡ w.decl_id
    → v.decl_name ≡ w.decl_name
    → place_of v ds ≡ place_of w ds
unfolding place_of
place_of-same v w [] e n = refl
place_of-same v w (d ∷ ds) e n = rw (e, n, place_of-same v w ds e n) refl

same_index :
    (v w : Decl) (st : List LocalVars)
    → v.decl_id ≡ w.decl_id
    → v.decl_name ≡ w.decl_name
    → get_local_var_index v st ≡ get_local_var_index w st
unfolding get_local_var_index find_var
same_index v w [] e n = refl
same_index v w (l ∷ st) e n = rw (place_of-same v w l.vars e n, same_index v w st e n) refl

pub lt_of_get_elem? :
    {D : Type 0} (ls : List D) (i : ℕ) (d : D) → get_elem? ls i ≡ some d → i < length ls
lt_of_get_elem? [] i d e = absurd cc
lt_of_get_elem? (x ∷ ls) zero d e = omega arith
lt_of_get_elem? (x ∷ ls) (suc i) d e = omega (arith, lt_of_get_elem? ls i d e)

module _ {D : Type 0} (env : ℕ → Option D) (x : ℕ) (d : D) (y : ℕ) where
  pub updated_same : x == y ≡ true → updated env x d y ≡ some d
  updated_same t = rw t refl

  pub updated_other : x == y ≡ false → updated env x d y ≡ env y
  updated_other t = rw t refl

equal_of : (a b : ℕ) → a == b ≡ true → a ≡ b
equal_of a b = (==_iff a b).0

module _ {D : Type 0} (name_of : ℕ → ℕ) (st : List LocalVars) (h : IsScope name_of st) where
  -- A write at the index of a variable gives that variable its value, and changes no other.
  pub Agrees-updated :
      (env : ℕ → Option D) (ls : List D) (v : Decl) (i : ℕ) (d : D)
      → v.decl_name ≡ name_of v.decl_id
      → get_local_var_index v st ≡ some i
      → i < length ls
      → Agrees name_of st env ls
      → Agrees name_of st (updated env v.decl_id d) (set ls i d)
  Agrees-updated env ls v i d n e k a w x nw ew = elim (Bool-cases (v.decl_id == w.decl_id)) [
    | inl t ↦ written t
    | inr t ↦ kept t (a w x nw (sym (updated_other env v.decl_id d w.decl_id t) ∙ ew))
  ]
    where
      written :
          v.decl_id == w.decl_id ≡ true
          → (j : ℕ) × (get_local_var_index w st ≡ some j) × (get_elem? (set ls i d) j ≡ some x)
      written t =
          let p = equal_of v.decl_id w.decl_id t in
          (
            i,
            same_index w v st (sym p) (nw ∙ ap name_of (sym p) ∙ sym n) ∙ e,
            get_elem?-set_self ls i d k ∙ (sym (updated_same env v.decl_id d w.decl_id t) ∙ ew),
          )

      kept :
          v.decl_id == w.decl_id ≡ false
          → (j : ℕ) × (get_local_var_index w st ≡ some j) × (get_elem? ls j ≡ some x)
          → (j : ℕ) × (get_local_var_index w st ≡ some j) × (get_elem? (set ls i d) j ≡ some x)
      kept t (j, q, g) = (
        j,
        q,
        get_elem?-set_ne ls d
              (λ r. different (same_slot name_of st h v w i n nw e (q ∙ ap some (sym r))) t)
            ∙ g,
      )
        where
          different : v.decl_id ≡ w.decl_id → v.decl_id == w.decl_id ≡ false → ⊥
          different p t = ground arith
