-- ===== src/IrFunction/Returns.antt =====
-- About exceptions of the steps of src/semantics/ir/function.ts: what it is to throw nothing, and
-- the steps of single instructions and variables.
use wasmnizer_ts.IrFunction.{
  Build, Context, LocalVars, build_closure_var, build_local, build_param, build_var, build_var_of,
  continue_with, dec_temp, dec_temp_but_one, emit, get_local_var_index, inc_temp, joined,
  load_or_save, nothing, place_in, read_if_ref, throw, update_temp, ◌>>◌,
}
use wasmnizer_ts.IrFunction.Tree.{
  Decl, FunctionData, Storage, local_storage, other_storage, param_storage,
}
use wasmnizer_ts.IrFunction.Parts.{branch_to_known, compound, emit_binary, is_compound, is_known}
use wasmnizer_ts.IrFunction.Sound.{stack-update_temp}
use wasmnizer_ts.IrCode.{
  IrCode, IrCodeKind, IrCodes, Operator, Ty, binary_code, binary_kind, new_binary_op, no_codes, one,
  ◌+++◌,
}
use wasmnizer_ts.IrCode.Instructions.{
  load_closure_code, load_local_code, load_param_code, read_ref_code, save_closure_code,
  save_local_code, save_param_code,
}
use wasmnizer_ts.Base.{
  Bool, Bool-cases, List, Option, false, if◌then◌else◌, inl, inr, ltb, none, refl, some, suc, true,
  zero, ℕ, ◌+◌, ◌||◌, ◌∙◌, ◌≡◌,
}

-- All blocks of the first list are in the second one.
abbrev pub Knows : List ℕ → List ℕ → Type 0
Knows ks js = (k : ℕ) → is_known k ks ≡ true → is_known k js ≡ true

-- Instructions, with the stack of variables as it was and the blocks still known.
abbrev pub Returned : List LocalVars → List ℕ → Option (IrCodes × Context) → Type 0
Returned st ks o =
    (cs : IrCodes) × (c : Context) × (o ≡ some (cs, c))
    × (c.local_vars_stack ≡ st)
    × Knows ks c.known_blocks

-- The step does so from every context with the stack and the known blocks.
pub record Returns (st : List LocalVars) (ks : List ℕ) (b : Build) : Type 0 where
  pub returned :
      (c : Context) → c.local_vars_stack ≡ st → Knows ks c.known_blocks → Returned st ks (b c)

-- The operator has an instruction.
abbrev pub HasCode : Operator → Type 0
HasCode o = (k : IrCodeKind) × (binary_kind o ≡ some k)

-- The operator of a compound assignment, if it is one, has an instruction.
abbrev pub CanCompound : Option Operator → Type 0
CanCompound op = (o : Operator) → is_compound op ≡ some o → HasCode o

abbrev is_some : Option ℕ → Bool
is_some none = false
is_some (some i) = true

-- `buildVar` finds the variable, or ignores it.
unfoldable pub is_found_at : Storage → FunctionData → List LocalVars → Decl → Bool
is_found_at local_storage f st v =
    is_some (get_local_var_index v st) || is_some (place_in v f.closure_vars)
is_found_at param_storage f st v =
    is_some (place_in v f.parameters) || is_some (place_in v f.closure_vars)
is_found_at other_storage f st v = true

abbrev pub is_found : FunctionData → List LocalVars → Decl → Bool
is_found f st v = is_found_at v.storage f st v

known-update_temp : (c : Context) → (update_temp c).known_blocks ≡ c.known_blocks
unfolding update_temp
known-update_temp c = elim (Bool-cases (ltb (c.max_temp + c.temp_removed) c.temp_added)) [
  | inl e ↦ rw (update_temp, e) refl
  | inr e ↦ rw (update_temp, e) refl
]

module _ (st : List LocalVars) (ks : List ℕ) where
  pub Returns-nothing : Returns st ks nothing
  Returns-nothing = record { returned = λ c e h. (no_codes, c, refl, e, h) }

  pub Returns-emit : (op : IrCode) → Returns st ks (emit op)
  Returns-emit op = record { returned = λ c e h. (one op, c, refl, e, h) }

  pub Returns-inc_temp : (n : ℕ) → Returns st ks (inc_temp n)
  Returns-inc_temp n = record {
    returned = λ c e h.
        let after = record c { temp_added = c.temp_added + n } in
        (
          no_codes,
          update_temp after,
          refl,
          stack-update_temp after ∙ e,
          rw (known-update_temp after) h,
        );
  }

  pub Returns-dec_temp : (n : ℕ) → Returns st ks (dec_temp n)
  Returns-dec_temp n = record {
    returned = λ c e h. (no_codes, record c { temp_removed = c.temp_removed + n }, refl, e, h);
  }

  pub Returns-dec_temp_but_one : (n : ℕ) → Returns st ks (dec_temp_but_one n)
  Returns-dec_temp_but_one zero = record {
    returned = λ c e h. (no_codes, record c { temp_added = c.temp_added + 1 }, refl, e, h);
  }
  Returns-dec_temp_but_one (suc n) = Returns-dec_temp n

  Returned-joined :
      (cs : IrCodes) (o : Option (IrCodes × Context))
      → Returned st ks o
      → Returned st ks (joined cs o)
  Returned-joined cs o (ds, c, p, e, h) = (cs +++ ds, c, rw p refl, e, h)

  Returned-continue_with :
      (b : Build) (o : Option (IrCodes × Context))
      → Returned st ks o
      → Returns st ks b
      → Returned st ks (continue_with b o)
  Returned-continue_with b o (cs, c, p, e, h) r = rw p (Returned-joined cs (b c) (r.returned c e h))

  pub Returns->> : (a b : Build) → Returns st ks a → Returns st ks b → Returns st ks (a >> b)
  Returns->> a b x y = record {
    returned = λ c e h. Returned-continue_with b (a c) (x.returned c e h) y;
  }

  pub Returns-emit_binary : (o : Operator) (t : Ty) → HasCode o → Returns st ks (emit_binary o t)
  unfolding new_binary_op
  Returns-emit_binary o t (k, e) = rw (new_binary_op, e) (Returns-emit (binary_code t k))

  pub Returns-compound :
      (op : Option Operator) (k : Operator → Build) (m : Build)
      → CanCompound op
      → ((o : Operator) → HasCode o → Returns st ks (k o))
      → Returns st ks m
      → Returns st ks (compound op k m)
  Returns-compound op k m h s t = go (is_compound op) h
    where
      go :
          (p : Option Operator)
          → ((o : Operator) → p ≡ some o → HasCode o)
          → Returns st ks (elim p [ none ↦ m | some o ↦ k o ])
      go none h = t
      go (some o) h = s o (h o refl)

  pub Returns-branch :
      (k : ℕ) (m : Build)
      → is_known k ks ≡ true
      → Returns st ks m
      → Returns st ks (branch_to_known k m)
  Returns-branch k m h s = record { returned = λ c e g. rw (g k h) (s.returned c e g) }

  pub Returns-read_if_ref : (v : Decl) → Returns st ks (read_if_ref v)
  Returns-read_if_ref v = go v.is_ref
    where
      go : (b : Bool) → Returns st ks (if b then emit (read_ref_code v.decl_type) else nothing)
      go true = Returns-emit (read_ref_code v.decl_type)
      go false = Returns-nothing

  Returns-load_or_save : (load : Bool) (l s : IrCode) → Returns st ks (load_or_save load l s)
  Returns-load_or_save load l s = Returns-emit (if load then l else s)

  Returns-closure_var :
      (f : FunctionData) (v : Decl) (load : Bool)
      → is_some (place_in v f.closure_vars) ≡ true
      → Returns st ks (build_closure_var f v load)
  unfolding build_closure_var
  Returns-closure_var f v load h = go (place_in v f.closure_vars) h
    where
      go :
          (o : Option ℕ)
          → is_some o ≡ true
          → Returns st ks (elim o [
            | none ↦ throw
            | some i ↦
                load_or_save load
                  (load_closure_code i v.decl_type)
                  (save_closure_code i v.decl_type)
          ])
      go none h = absurd cc
      go (some i) h =
          Returns-load_or_save load (load_closure_code i v.decl_type)
            (save_closure_code i v.decl_type)

  Returns-build_local :
      (f : FunctionData) (v : Decl) (load : Bool)
      → is_some (get_local_var_index v st) || is_some (place_in v f.closure_vars) ≡ true
      → Returns st ks (build_local f v load)
  unfolding build_local
  Returns-build_local f v load h = record {
    returned = λ c e g. rw (build_local, e) (go c e g (get_local_var_index v st) h);
  }
    where
      go :
          (c : Context)
          → c.local_vars_stack ≡ st
          → Knows ks c.known_blocks
          → (o : Option ℕ) → is_some o || is_some (place_in v f.closure_vars) ≡ true
          → Returned st ks (elim o [
            | none ↦ build_closure_var f v load c
            | some i ↦
                load_or_save load (load_local_code i v.decl_type) (save_local_code i v.decl_type) c
          ])
      go c e g none h = (Returns-closure_var f v load h).returned c e g
      go c e g (some i) h =
          (Returns-load_or_save load (load_local_code i v.decl_type)
              (save_local_code i v.decl_type)).returned
            c e g

  Returns-build_param :
      (f : FunctionData) (v : Decl) (load : Bool)
      → is_some (place_in v f.parameters) || is_some (place_in v f.closure_vars) ≡ true
      → Returns st ks (build_param f v load)
  unfolding build_param
  Returns-build_param f v load h = go (place_in v f.parameters) h
    where
      go :
          (o : Option ℕ)
          → is_some o || is_some (place_in v f.closure_vars) ≡ true
          → Returns st ks (elim o [
            | none ↦ build_closure_var f v load
            | some i ↦
                load_or_save load (load_param_code i v.decl_type) (save_param_code i v.decl_type)
          ])
      go none h = Returns-closure_var f v load h
      go (some i) h =
          Returns-load_or_save load (load_param_code i v.decl_type) (save_param_code i v.decl_type)

  Returns-build_var_of :
      (k : Storage) (f : FunctionData) (v : Decl) (load : Bool)
      → is_found_at k f st v ≡ true
      → Returns st ks (build_var_of k f v load)
  unfolding build_var_of is_found_at
  Returns-build_var_of local_storage f v load h = Returns-build_local f v load h
  Returns-build_var_of param_storage f v load h = Returns-build_param f v load h
  Returns-build_var_of other_storage f v load h = Returns-nothing

  pub Returns-build_var :
      (f : FunctionData) (v : Decl) (load : Bool)
      → is_found f st v ≡ true
      → Returns st ks (build_var f v load)
  Returns-build_var f v load h = Returns-build_var_of v.storage f v load h
