-- ===== src/Flatten/Correct.antt =====
-- Runs of a structured statement, and runs of its translation.
use mathlib.Core.Path.{subst}
use wasmnizer_ts.Base.{List, Option, [], false, none, refl, some, sym, true, ℕ, ◌∷◌, ◌≡◌, ◌≢◌}
use wasmnizer_ts.Flatten.Shape.{flatten_statement-Compiled}
use wasmnizer_ts.Flatten.Blocks.{Block, Code, branch, branch_if, done, ◌++ᶜ◌}
use wasmnizer_ts.Flatten.Structured.{
  Compiled, CompiledAll, CompiledFor, CompiledOpt, IsStructured, body_block, just, more, no_body,
  no_more, nothing,
}
use wasmnizer_ts.Flatten.Statements.{Node, Nodes, OptNode, do_while_node, while_node}
use wasmnizer_ts.Flatten.{
  FlattenState, Stack, branch_unless, flatten_statement, next_value, one_block, values,
}
use wasmnizer_ts.Flatten.Semantics.{
  Completion, Exec, ExecAll, ExecFor, ExecOpt, GoesOn, Leaves, Machine, Outcome, Run, RunBlock,
  again, broken, completed, continued, end, escape, exec_all, exec_opt, falls, first_ends,
  first_then, for_leave, for_next, for_stop, holds, jump, jumped, leaves, next, none_left, normal,
  outwards, passed, returned, returns, step, taken, through, unwind,
}

module _ (m : Machine) where
  open m use {State, exec, test}

  -- The code ends as the statement does. A structured statement ends in no other way.
  abbrev pub Simulates : Code → State → Completion → State → Type 0
  Simulates c s normal t = Run m c s next t
  Simulates c s (completed v) t = Run m c s (returned v) t
  Simulates c s _ t = ⊥

  Run-append :
      {c d : Code} {s t u : State} {o : Outcome}
      → Run m c s next t
      → Run m d t o u
      → Run m (c ++ᶜ d) s o u
  Run-append end k = k
  Run-append (step r) k = step (Run-append r k)
  Run-append (passed e r) k = passed e (Run-append r k)
  Run-append (through b r) k = through b (Run-append r k)

  Run-append_jump :
      {c : Code} (d : Code) {s t : State} {k : ℕ}
      → Run m c s (jump k) t
      → Run m (c ++ᶜ d) s (jump k) t
  Run-append_jump d (step r) = step (Run-append_jump d r)
  Run-append_jump d jumped = jumped
  Run-append_jump d (taken e) = taken e
  Run-append_jump d (passed e r) = passed e (Run-append_jump d r)
  Run-append_jump d (through b r) = through b (Run-append_jump d r)
  Run-append_jump d (escape b) = escape b

  Run-append_return :
      {c : Code} (d : Code) {s t : State} {v : Option ℕ}
      → Run m c s (returned v) t
      → Run m (c ++ᶜ d) s (returned v) t
  Run-append_return d (step r) = step (Run-append_return d r)
  Run-append_return d (passed e r) = passed e (Run-append_return d r)
  Run-append_return d Run.return = Run.return
  Run-append_return d (through b r) = through b (Run-append_return d r)
  Run-append_return d (unwind b) = unwind b

  -- One block round a body that does not branch.
  wrap :
      (b : Block) (c : Code) (o : Completion) (s t : State)
      → Simulates c s o t
      → Simulates (one_block b c) s o t
  wrap b c normal s t r = through (falls r) end
  wrap b c (completed v) s t r = unwind (returns r)
  wrap b c broken s t r = r
  wrap b c continued s t r = r

  Run-values : (vs : List ℕ) (s : State) → Run m (values vs) s next (exec_all m vs s)
  Run-values [] s = end
  Run-values (v ∷ vs) s = step (Run-values vs (exec v s))

  -- A test that holds lets the code behind it run.
  pass :
      (k v : ℕ) (c : Code) (o : Completion) (s t : State)
      → (test v s).0 ≡ true
      → Simulates c (test v s).1 o t
      → Simulates (branch_if k v false c) s o t
  pass k v c normal s t e r = passed e r
  pass k v c (completed w) s t e r = passed e r
  pass k v c broken s t e r = r
  pass k v c continued s t e r = r

  -- How a loop inside its block ends: by a jump to the block of number `k`, or by a return.
  abbrev LoopEnds : ℕ → Block → Code → State → Completion → State → Type 0
  LoopEnds k l body s normal t = RunBlock m l body s (jump k) t
  LoopEnds k l body s (completed v) t = RunBlock m l body s (returned v) t
  LoopEnds k l body s _ t = ⊥

  close_loop :
      (a l : Block) (init body : Code) (o : Completion) (r s t : State) (k : ℕ)
      → k ≡ a.id
      → a.is_loop ≡ false
      → Run m init r next s
      → LoopEnds k l body s o t
      → Simulates (one_block a (init ++ᶜ one_block l body)) r o t
  close_loop a l init body normal r s t k e p i h =
      through (leaves (Run-append i (escape h)) e p) end
  close_loop a l init body (completed v) r s t k e p i h =
      unwind (returns (Run-append i (unwind h)))
  close_loop a l init body broken r s t k e p i h = h
  close_loop a l init body continued r s t k e p i h = h

  -- One more round.
  next_round :
      (k : ℕ) (l : Block) (body : Code) (o : Completion) (r s t : State)
      → l.is_loop ≡ true
      → Run m body r (jump l.id) s
      → LoopEnds k l body s o t
      → LoopEnds k l body r o t
  next_round k l body normal r s t q i h = again i refl q h
  next_round k l body (completed v) r s t q i h = again i refl q h
  next_round k l body broken r s t q i h = h
  next_round k l body continued r s t q i h = h

  -- The part of a round behind its body.
  finish_round :
      (c d : Code) (o : Completion) (s t : State) (u : State) (k : ℕ)
      → GoesOn m o
      → Simulates c s o t
      → Run m d t (jump k) u
      → Run m (c ++ᶜ d) s (jump k) u
  finish_round c d normal s t u k g r h = Run-append r h
  finish_round c d continued s t u k g r h = absurd r
  finish_round c d broken s t u k g r h = absurd g
  finish_round c d (completed v) s t u k g r h = absurd g

  -- A return out of a round is one out of the loop. (A structured body does not break.)
  leave_loop :
      (k : ℕ) (l : Block) (c whole : Code) (o o' : Completion) (r s t : State)
      → Leaves m o o'
      → Simulates c s o t
      → ((v : Option ℕ) → Run m c s (returned v) t → Run m whole r (returned v) t)
      → LoopEnds k l whole r o' t
  leave_loop k l c whole (completed v) o' r s t e h lift =
      subst (λ o. LoopEnds k l whole r o t) (sym e) (returns (lift v h))
  leave_loop k l c whole broken o' r s t e h lift = absurd h
  leave_loop k l c whole normal o' r s t e h lift = absurd e
  leave_loop k l c whole continued o' r s t e h lift = absurd e

  Run-next :
      (v : Option ℕ) (c : Code) (s t : State) {o : Outcome}
      → Run m c (exec_opt m v s) o t
      → Run m (next_value v c) s o t
  Run-next none c s t r = r
  Run-next (some v) c s t r = step r

  pass_unless :
      (v : Option ℕ) (a : Block) (c : Code) (s t : State) {o : Outcome}
      → (holds m v s).0 ≡ true
      → Run m c (holds m v s).1 o t
      → Run m (branch_unless v a c) s o t
  pass_unless none a c s t e r = r
  pass_unless (some v) a c s t e r = passed e r

  stop_unless :
      (v : Option ℕ) (a : Block) (c : Code) (s : State)
      → (holds m v s).0 ≡ false
      → Run m (branch_unless v a c) s (jump a.id) (holds m v s).1
  stop_unless none a c s e = absurd (cc)
  stop_unless (some v) a c s e = taken e

  after_first :
      (c d : Code) (o : Completion) (s t u : State)
      → Run m c s next t
      → Simulates d t o u
      → Simulates (c ++ᶜ d) s o u
  after_first c d normal s t u r h = Run-append r h
  after_first c d (completed v) s t u r h = Run-append r h
  after_first c d broken s t u r h = h
  after_first c d continued s t u r h = h

  early_end :
      (c d : Code) (o : Completion) (s t : State)
      → o ≢ normal
      → Simulates c s o t
      → Simulates (c ++ᶜ d) s o t
  early_end c d normal s t ne r = absurd (ne refl)
  early_end c d (completed v) s t ne r = Run-append_return d r
  early_end c d broken s t ne r = r
  early_end c d continued s t ne r = r

  mutual
    simulates :
        {n : Node} {s t : State} {o : Completion} {c : Code}
        → Exec m n s o t
        → Compiled n c
        → Simulates c s o t
    simulates Exec.basic (Compiled.basic {vs}) = Run-values vs _
    simulates Exec.return Compiled.return = Run.return
    simulates (Exec.sequence r) (Compiled.plain k) = simulates_all r k
    simulates (Exec.sequence {s} {t} {o} r) (Compiled.scoped {c} b k) =
        wrap b c o s t (simulates_all r k)
    simulates (Exec.if_true {c} {s} {t} {o} e r) (Compiled.if_only {t = t'} a b p ne k) =
        wrap a _ o s t (wrap b _ o s t (pass a.id c t' o s t e (simulates r k)))
    simulates (Exec.if_false e ExecOpt.skip) (Compiled.if_only a b p ne k) =
        through (leaves (escape (outwards (taken e) ne)) refl p) end
    simulates (Exec.if_false e (ExecOpt.run r)) k = elim k [ ]
    simulates Exec.break k = elim k [ ]
    simulates Exec.continue k = elim k [ ]
    simulates (Exec.while_stop {c} {s} e) (Compiled.while {body} a l p q ne k) =
        close_loop a l done _ normal s s _ a.id refl p end (outwards (taken e) ne)
    simulates (Exec.while_next {c} {s} {t} {u} {o} {o'} e r g rest)
          (Compiled.while {body} a l p q ne k) =
        close_loop a l done _ o' s s u a.id refl p end (
          next_round a.id l _ o' s t u q
            (passed e (finish_round body _ o _ t t l.id g (simulates_opt r k) jumped))
            (simulates_while rest a l p q ne k))
    simulates (Exec.while_leave {c} {s} {t} {o} {o'} e r g) (Compiled.while {body} a l p q ne k) =
        close_loop a l done _ o' s s t a.id refl p end (
          leave_loop a.id l body _ o o' s _ t g (simulates_opt r k)
            (λ v h. passed e (Run-append_return _ h)))
    simulates (Exec.do_stop {c} {s} {t} {o} r g e) (Compiled.do_while {body} a l p q ne k) =
        close_loop a l done _ normal s s _ a.id refl p end
          (outwards (finish_round body _ o s t _ a.id g (simulates_opt r k) (passed e jumped)) ne)
    simulates (Exec.do_next {c} {s} {t} {u} {o} {o'} r g e rest)
          (Compiled.do_while {body} a l p q ne k) =
        close_loop a l done _ o' s s u a.id refl p end (
          next_round a.id l _ o' s _ u q
            (finish_round body _ o s t _ l.id g (simulates_opt r k) (taken e))
            (simulates_do rest a l p q ne k))
    simulates (Exec.do_leave {c} {s} {t} {o} {o'} r g) (Compiled.do_while {body} a l p q ne k) =
        close_loop a l done _ o' s s t a.id refl p end
          (leave_loop a.id l body _ o o' s s t g (simulates_opt r k) (λ v h. Run-append_return _ h))
    simulates (Exec.for {s} {t} {u} {o} r rs) (Compiled.for {init} a a' l same p q ne i k) =
        close_loop a' l init _ o s t u a.id same p (simulates_opt r i) (simulates_for rs a l q ne k)

    simulates_while :
        {x : ℕ} {n : OptNode} {s t : State} {o : Completion} {body : Code}
        → Exec m (while_node x n) s o t
        → (a l : Block) → a.is_loop ≡ false
        → l.is_loop ≡ true
        → a.id ≢ l.id
        → CompiledOpt n body
        → LoopEnds a.id l (branch_if a.id x false (body ++ᶜ branch l.id done)) s o t
    simulates_while (Exec.while_stop e) a l p q ne k = outwards (taken e) ne
    simulates_while {body} (Exec.while_next {s} {t} {u} {o} {o'} e r g rest) a l p q ne k =
        next_round a.id l _ o' s t u q
          (passed e (finish_round body _ o _ t t l.id g (simulates_opt r k) jumped))
          (simulates_while rest a l p q ne k)
    simulates_while {body} (Exec.while_leave {s} {t} {o} {o'} e r g) a l p q ne k =
        leave_loop a.id l body _ o o' s _ t g (simulates_opt r k)
          (λ v h. passed e (Run-append_return _ h))

    simulates_do :
        {x : ℕ} {n : OptNode} {s t : State} {o : Completion} {body : Code}
        → Exec m (do_while_node x n) s o t
        → (a l : Block) → a.is_loop ≡ false
        → l.is_loop ≡ true
        → a.id ≢ l.id
        → CompiledOpt n body
        → LoopEnds a.id l (body ++ᶜ branch_if l.id x true (branch a.id done)) s o t
    simulates_do {body} (Exec.do_stop {s} {t} {o} r g e) a l p q ne k =
        outwards (finish_round body _ o s t _ a.id g (simulates_opt r k) (passed e jumped)) ne
    simulates_do {body} (Exec.do_next {s} {t} {u} {o} {o'} r g e rest) a l p q ne k =
        next_round a.id l _ o' s _ u q
          (finish_round body _ o s t _ l.id g (simulates_opt r k) (taken e))
          (simulates_do rest a l p q ne k)
    simulates_do {body} (Exec.do_leave {s} {t} {o} {o'} r g) a l p q ne k =
        leave_loop a.id l body _ o o' s s t g (simulates_opt r k) (λ v h. Run-append_return _ h)

    simulates_for :
        {c v : Option ℕ} {n : OptNode} {s t : State} {o : Completion} {body : Code}
        → ExecFor m c n v s o t
        → (a l : Block) → l.is_loop ≡ true
        → a.id ≢ l.id
        → CompiledFor n body
        → LoopEnds a.id l (branch_unless c a (body ++ᶜ next_value v (branch l.id done))) s o t
    simulates_for (for_stop {c} {s} e) a l q ne k = outwards (stop_unless c a _ s e) ne
    simulates_for {body} (for_next {c} {v} {s} {t} {u} {o} {o'} e r g rest) a l q ne k =
        next_round a.id l _ o' s _ u q
          (pass_unless c a _ s _ e
            (finish_round body _ o _ t _ l.id g (simulates_body r k) (Run-next v _ t _ jumped)))
          (simulates_for rest a l q ne k)
    simulates_for {body} (for_leave {c} {v} {s} {t} {o} {o'} e r g) a l q ne k =
        leave_loop a.id l body _ o o' s _ t g (simulates_body r k)
          (λ w h. pass_unless c a _ s t e (Run-append_return _ h))

    simulates_all :
        {ns : Nodes} {s t : State} {o : Completion} {c : Code}
        → ExecAll m ns s o t
        → CompiledAll ns c
        → Simulates c s o t
    simulates_all none_left no_more = end
    simulates_all (first_then {s} {t} {u} {o} r rs) (more {c} {d} k ks) =
        after_first c d o s t u (simulates r k) (simulates_all rs ks)
    simulates_all (first_ends {s} {t} {o} r ne) (more {c} {d} k ks) =
        early_end c d o s t ne (simulates r k)

    simulates_opt :
        {n : OptNode} {s t : State} {o : Completion} {c : Code}
        → ExecOpt m n s o t
        → CompiledOpt n c
        → Simulates c s o t
    simulates_opt ExecOpt.skip nothing = end
    simulates_opt (ExecOpt.run r) (just k) = simulates r k

    simulates_body :
        {n : OptNode} {s t : State} {o : Completion} {c : Code}
        → ExecOpt m n s o t
        → CompiledFor n c
        → Simulates c s o t
    simulates_body ExecOpt.skip no_body = end
    simulates_body (ExecOpt.run {s} {t} {o} r) (body_block {c} b k) = wrap b c o s t (simulates r k)

-- A structured statement that is translated (in any context) is translated faithfully: whatever
-- `exec` and `test` do, each run of the statement is a run of its code, with the same final state
-- and with the same ending, either at the end of the code or by the same return.
pub flatten_statement-Simulates :
    (m : Machine) (n : Node) (st : Stack) (fs : FlattenState) {c : Code} {fs' : FlattenState}
    {s t : m.State} {o : Completion}
    → IsStructured n
    → flatten_statement n st fs ≡ some (c, fs')
    → Exec m n s o t
    → Simulates m c s o t
flatten_statement-Simulates m n st fs h e r = simulates m r (flatten_statement-Compiled n st fs h e)
