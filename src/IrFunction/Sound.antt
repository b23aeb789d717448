-- ===== src/IrFunction/Sound.antt =====
-- About the steps of src/semantics/ir/function.ts: the stack of local variables and the indices of
-- the locals in the instructions.
use wasmnizer_ts.IrFunction.Parts.{compound, emit_binary, is_compound}
use wasmnizer_ts.IrFunction.{
  Build, Context, LocalVars, continue_with, dec_temp, dec_temp_but_one, emit, emit_known,
  in_globals, in_pool, inc_temp, joined, nothing, number_then, put_globals, put_pool, throw,
  update_temp, with_number, ◌>>◌,
}
use wasmnizer_ts.GlobalContext.{GlobalContext}
use wasmnizer_ts.DataPool.{DataPool, add_string}
use wasmnizer_ts.IrCode.{
  IrCode, IrCodeKind, IrCodes, Operand, Operator, Ty, binary_code, binary_kind, code, codes,
  ir_block, literal, load_local_op, minus, new_binary_op, no_codes, no_operand, number,
  save_local_op, target, ◌+++◌,
}
use wasmnizer_ts.Base.{
  Bool, Bool-cases, List, Option, false, if◌then◌else◌, inl, inr, ltb, none, refl, some, suc, true,
  zero, ℕ, ◌+◌, ◌<◌, ◌∙◌, ◌≡◌,
}

-- The operand of a load or save of a local variable is below `n`.
unfoldable pub IndexFits : ℕ → IrCodeKind → ℕ → Type 0
IndexFits n load_local_op i = i < n
IndexFits n save_local_op i = i < n
IndexFits n _ i = Unit {0}

-- All instructions, in the blocks too.
unfoldable mutual
  pub CodeFits : ℕ → IrCode → Type 0
  CodeFits n (code k t v o) = OperandFits n k o

  pub OperandFits : ℕ → IrCodeKind → Operand → Type 0
  OperandFits n k (ir_block b l cs) = CodesFit n cs
  OperandFits n k (number i) = IndexFits n k i
  OperandFits n k no_operand = Unit {0}
  OperandFits n k (minus i) = Unit {0}
  OperandFits n k (literal i) = Unit {0}
  OperandFits n k (target i) = Unit {0}

  pub CodesFit : ℕ → IrCodes → Type 0
  CodesFit n no_codes = Unit {0}
  CodesFit n (codes c cs) = CodeFits n c × CodesFit n cs

CodesFit-append : (n : ℕ) (cs ds : IrCodes) → CodesFit n cs → CodesFit n ds → CodesFit n (cs +++ ds)
unfolding CodesFit ◌+++◌
CodesFit-append n no_codes ds a b = b
CodesFit-append n (codes c cs) ds (a, rest) b = (a, CodesFit-append n cs ds rest b)

pub stack-update_temp : (c : Context) → (update_temp c).local_vars_stack ≡ c.local_vars_stack
unfolding update_temp
stack-update_temp c = elim (Bool-cases (ltb (c.max_temp + c.temp_removed) c.temp_added)) [
  | inl e ↦ rw (update_temp, e) refl
  | inr e ↦ rw (update_temp, e) refl
]

abbrev pub Ends : ℕ → List LocalVars → Option (IrCodes × Context) → Type 0
Ends n st none = Unit {0}
Ends n st (some (cs, c)) = CodesFit n cs × (c.local_vars_stack ≡ st)

-- The step does so from every context with the stack.
pub record Sound (n : ℕ) (st : List LocalVars) (m : Build) : Type 0 where
  pub ends : (c : Context) → c.local_vars_stack ≡ st → Ends n st (m c)

module _ (n : ℕ) (st : List LocalVars) where
  pub Sound-nothing : Sound n st nothing
  unfolding CodesFit
  Sound-nothing = record { ends = λ c e. (tt, e) }

  pub Sound-throw : Sound n st throw
  Sound-throw = record { ends = λ c e. tt }

  pub Sound-emit : (op : IrCode) → CodeFits n op → Sound n st (emit op)
  unfolding CodesFit
  Sound-emit op h = record { ends = λ c e. ((h, tt), e) }

  pub Sound-inc_temp : (k : ℕ) → Sound n st (inc_temp k)
  unfolding CodesFit
  Sound-inc_temp k = record {
    ends = λ c e. (tt, stack-update_temp (record c { temp_added = c.temp_added + k }) ∙ e);
  }

  pub Sound-dec_temp : (k : ℕ) → Sound n st (dec_temp k)
  unfolding CodesFit
  Sound-dec_temp k = record { ends = λ c e. (tt, e) }

  pub Sound-dec_temp_but_one : (k : ℕ) → Sound n st (dec_temp_but_one k)
  unfolding CodesFit
  Sound-dec_temp_but_one zero = record { ends = λ c e. (tt, e) }
  Sound-dec_temp_but_one (suc k) = record { ends = λ c e. (tt, e) }

  Ends-joined :
      (cs : IrCodes) (o : Option (IrCodes × Context))
      → CodesFit n cs
      → Ends n st o
      → Ends n st (joined cs o)
  Ends-joined cs none h g = tt
  Ends-joined cs (some (ds, c)) h (g, e) = (CodesFit-append n cs ds h g, e)

  Ends-continue_with :
      (k : Build) (o : Option (IrCodes × Context))
      → Ends n st o
      → Sound n st k
      → Ends n st (continue_with k o)
  Ends-continue_with k none h s = tt
  Ends-continue_with k (some (cs, c)) (h, e) s = Ends-joined cs (k c) h (s.ends c e)

  pub Sound->> : (m k : Build) → Sound n st m → Sound n st k → Sound n st (m >> k)
  Sound->> m k s t = record { ends = λ c e. Ends-continue_with k (m c) (s.ends c e) t }

  Ends-number_then :
      (k : ℕ → Build) (c : Context) (o : Option (ℕ × GlobalContext))
      → c.local_vars_stack ≡ st
      → ((i : ℕ) → Sound n st (k i))
      → Ends n st (number_then k (put_globals c o))
  Ends-number_then k c none e s = tt
  Ends-number_then k c (some (i, g)) e s = (s i).ends (record c { globals = g }) e

  pub Sound-in_globals :
      (m : GlobalContext → Option (ℕ × GlobalContext)) (k : ℕ → Build)
      → ((i : ℕ) → Sound n st (k i))
      → Sound n st (with_number (in_globals m) k)
  Sound-in_globals m k s = record { ends = λ c e. Ends-number_then k c (m c.globals) e s }

  Ends-number_in_pool :
      (k : ℕ → Build) (c : Context) (o : Option (ℕ × DataPool))
      → c.local_vars_stack ≡ st
      → ((i : ℕ) → Sound n st (k i))
      → Ends n st (number_then k (put_pool c o))
  Ends-number_in_pool k c none e s = tt
  Ends-number_in_pool k c (some (i, p)) e s = (s i).ends (record c { pool = p }) e

  pub Sound-in_pool :
      (x : List ℕ) (k : ℕ → Build)
      → ((i : ℕ) → Sound n st (k i))
      → Sound n st (with_number (in_pool x) k)
  Sound-in_pool x k s = record { ends = λ c e. Ends-number_in_pool k c (add_string x c.pool) e s }

  pub Sound-if :
      (b : Bool) (m k : Build) → Sound n st m → Sound n st k → Sound n st (if b then m else k)
  Sound-if true m k s t = s
  Sound-if false m k s t = t

  Sound-binary_kind :
      (t : Ty) (k : Option IrCodeKind)
      → Sound n st (emit_known (elim k [ none ↦ none | some k ↦ some (binary_code t k) ]))
  unfolding CodesFit
  Sound-binary_kind t none = Sound-throw
  Sound-binary_kind t (some k) = Sound-emit (binary_code t k) tt

  pub Sound-emit_binary : (o : Operator) (t : Ty) → Sound n st (emit_binary o t)
  unfolding new_binary_op
  Sound-emit_binary o t = Sound-binary_kind t (binary_kind o)

  pub Sound-compound :
      (op : Option Operator) (k : Operator → Build) (m : Build)
      → ((o : Operator) → Sound n st (k o))
      → Sound n st m
      → Sound n st (compound op k m)
  Sound-compound op k m s t = go (is_compound op)
    where
      go : (o : Option Operator) → Sound n st (elim o [ none ↦ m | some o ↦ k o ])
      go none = t
      go (some o) = s o
