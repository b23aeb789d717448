-- ===== src/IrFunction/Runs.antt =====
-- About the instructions that a step of src/semantics/ir/function.ts pushes: runs of them on the
-- machine.
use wasmnizer_ts.IrFunction.{
  Build, Context, LocalVars, continue_with, dec_temp, emit, inc_temp, joined, nothing, update_temp,
  ◌>>◌,
}
use wasmnizer_ts.IrFunction.Sound.{stack-update_temp}
use wasmnizer_ts.IrFunction.Machine.{Meaning, run, step}
use wasmnizer_ts.IrCode.{IrCode, IrCodes, codes, no_codes, one, ◌+++◌}
use wasmnizer_ts.Base.{List, Option, ap, refl, some, ℕ, ◌+◌, ◌∙◌, ◌≡◌}

-- What a step ends with: no exception, and the stack of variables as it was; whatever instructions
-- follow those pushed, these take the machine from the first stack and locals to the second.
abbrev pub Ran :
    {D : Type 0}
    → Meaning D
    → List LocalVars
    → Option (IrCodes × Context)
    → (s ls s' ls' : List D) → Type 0
Ran m st o s ls s' ls' =
    (cs : IrCodes) × (c : Context) × (o ≡ some (cs, c))
    × (c.local_vars_stack ≡ st)
    × ((rest : IrCodes) → run m (cs +++ rest) s ls ≡ run m rest s' ls')

-- The step does so from every context with the stack of variables.
pub record Does {D : Type 0} (m : Meaning D) (st : List LocalVars) (b : Build)
    (s ls s' ls' : List D) : Type 0 where
  pub does : (c : Context) → c.local_vars_stack ≡ st → Ran m st (b c) s ls s' ls'

append_assoc : (xs bs cs : IrCodes) → (xs +++ bs) +++ cs ≡ xs +++ (bs +++ cs)
unfolding ◌+++◌
append_assoc no_codes bs cs = refl
append_assoc (codes a xs) bs cs = ap (codes a) (append_assoc xs bs cs)

pub append_none : (xs : IrCodes) → xs +++ no_codes ≡ xs
unfolding ◌+++◌
append_none no_codes = refl
append_none (codes a xs) = ap (codes a) (append_none xs)

module _ {D : Type 0} (m : Meaning D) (st : List LocalVars) where
  pub Does-nothing : (s ls : List D) → Does m st nothing s ls s ls
  unfolding ◌+++◌
  Does-nothing s ls = record { does = λ c e. (no_codes, c, refl, e, λ rest. refl) }

  pub Does-inc_temp : (n : ℕ) (s ls : List D) → Does m st (inc_temp n) s ls s ls
  unfolding ◌+++◌
  Does-inc_temp n s ls = record {
    does = λ c e.
        let after = record c { temp_added = c.temp_added + n } in
        (no_codes, update_temp after, refl, stack-update_temp after ∙ e, λ rest. refl);
  }

  pub Does-dec_temp : (n : ℕ) (s ls : List D) → Does m st (dec_temp n) s ls s ls
  unfolding ◌+++◌
  Does-dec_temp n s ls = record {
    does = λ c e. (no_codes, record c { temp_removed = c.temp_removed + n }, refl, e, λ rest. refl);
  }

  pub Does-emit :
      (op : IrCode) (s ls s' ls' : List D)
      → step m op s ls ≡ some (s', ls')
      → Does m st (emit op) s ls s' ls'
  unfolding ◌+++◌ run
  Does-emit op s ls s' ls' h = record { does = λ c e. (one op, c, refl, e, λ rest. rw h refl) }

  Ran-joined :
      (cs : IrCodes) (o : Option (IrCodes × Context)) (s ls s' ls' s'' ls'' : List D)
      → ((rest : IrCodes) → run m (cs +++ rest) s ls ≡ run m rest s' ls')
      → Ran m st o s' ls' s'' ls''
      → Ran m st (joined cs o) s ls s'' ls''
  Ran-joined cs o s ls s' ls' s'' ls'' r (ds, c, q, e, r') =
      (cs +++ ds, c, rw q refl, e, λ rest. rw (append_assoc cs ds rest) (r (ds +++ rest)) ∙ r' rest)

  Ran-continue_with :
      (b : Build) (o : Option (IrCodes × Context)) (s ls s' ls' s'' ls'' : List D)
      → Ran m st o s ls s' ls'
      → Does m st b s' ls' s'' ls''
      → Ran m st (continue_with b o) s ls s'' ls''
  Ran-continue_with b o s ls s' ls' s'' ls'' (cs, c, p, e, r) y =
      rw p (Ran-joined cs (b c) s ls s' ls' s'' ls'' r (y.does c e))

  pub Does->> :
      (a b : Build) (s ls s' ls' s'' ls'' : List D)
      → Does m st a s ls s' ls'
      → Does m st b s' ls' s'' ls''
      → Does m st (a >> b) s ls s'' ls''
  Does->> a b s ls s' ls' s'' ls'' x y = record {
    does = λ c e. Ran-continue_with b (a c) s ls s' ls' s'' ls'' (x.does c e) y;
  }
