-- ===== src/SemanticCheck/Passing.antt =====
-- What the whole check reports, in terms of what each scope's check reports on its own.
use wasmnizer_ts.SemanticCheck.{
  Check, SemanticError, accepted, check_scope, semantic_check, semantic_check_error, traverse_scope,
  traverse_scopes, verdict, ◌>>◌,
}
use wasmnizer_ts.SemanticCheck.Syntax.{Scope, ScopeData, Scopes, no_scopes, scope, scopes}
use wasmnizer_ts.SemanticCheck.Framing.{
  Frames, after, check_scope-Frames, pass-Frames, seq-Frames, seq-after,
}
use mathlib.Core.Path.{subst}
use wasmnizer_ts.Base.{List, Option, [], ap, none, refl, some, sym, ◌++◌, ◌↔◌, ◌∙◌, ◌∷◌, ◌≡◌, ◌≢◌}

mutual
  -- The errors of each scope checked on its own, a scope before its children, one scope after
  -- another.
  pub data Report : Scope → List ScopeData → List SemanticError → Type 0 where
    report :
        {s : ScopeData} {cs : Scopes} {ancestors : List ScopeData} {own below : List SemanticError}
        → check_scope s ancestors [] ≡ some own
        → Reports cs (s ∷ ancestors) below
        → Report (scope s cs) ancestors (own ++ below)

  pub data Reports : Scopes → List ScopeData → List SemanticError → Type 0 where
    no_reports : {ancestors : List ScopeData} → Reports no_scopes ancestors []
    reports :
        {c : Scope} {cs : Scopes} {ancestors : List ScopeData} {first rest : List SemanticError}
        → Report c ancestors first
        → Reports cs ancestors rest
        → Reports (scopes c cs) ancestors (first ++ rest)

mutual
  -- Each scope's check ends without an error.
  pub data IsClean : Scope → List ScopeData → Type 0 where
    clean :
        {s : ScopeData} {cs : Scopes} {ancestors : List ScopeData}
        → check_scope s ancestors [] ≡ some []
        → AreClean cs (s ∷ ancestors)
        → IsClean (scope s cs) ancestors

  pub data AreClean : Scopes → List ScopeData → Type 0 where
    no_unclean : {ancestors : List ScopeData} → AreClean no_scopes ancestors
    all_clean :
        {c : Scope} {cs : Scopes} {ancestors : List ScopeData}
        → IsClean c ancestors
        → AreClean cs ancestors
        → AreClean (scopes c cs) ancestors

mutual
  unfolding traverse_scope traverse_scopes

  traverse_scope-Frames : (c : Scope) (ps : List ScopeData) → Frames (traverse_scope c ps)
  traverse_scope-Frames (scope s cs) ps =
      seq-Frames _ _ (check_scope-Frames s ps) (traverse_scopes-Frames cs (s ∷ ps))

  traverse_scopes-Frames : (cs : Scopes) (ps : List ScopeData) → Frames (traverse_scopes cs ps)
  traverse_scopes-Frames no_scopes ps = pass-Frames
  traverse_scopes-Frames (scopes c cs) ps =
      seq-Frames _ _ (traverse_scope-Frames c ps) (traverse_scopes-Frames cs ps)

after-eq-some :
    (a : List SemanticError) (r : Option (List SemanticError)) {x : List SemanticError}
    → after a r ≡ some x
    → (b : List SemanticError) × (r ≡ some b) × (x ≡ a ++ b)
after-eq-some a none h = cc
after-eq-some a (some b) h = (b, refl, cc)

pub seq-eq-some :
    (m k : Check)
    → Frames k
    → {x : List SemanticError} → (m >> k) [] ≡ some x
    → (a : List SemanticError) × (b : List SemanticError) × (m [] ≡ some a)
      × (k [] ≡ some b)
      × (x ≡ a ++ b)
seq-eq-some m k fk {x} h = go (m []) refl h
  where
    go :
        (r : Option (List SemanticError))
        → m [] ≡ r
        → (elim r as (λ r. Option (List SemanticError)) [ none ↦ none | some e ↦ k e ]) ≡ some x
        → (a : List SemanticError) × (b : List SemanticError) × (m [] ≡ some a)
          × (k [] ≡ some b)
          × (x ≡ a ++ b)
    go none e h = cc
    go (some a) e h =
        let (b, kb, xab) = (after-eq-some a (k []) (sym (fk a) ∙ h)) in (a, b, e, kb, xab)

seq-some :
    (m k : Check)
    → Frames k
    → {a b : List SemanticError} → m [] ≡ some a
    → k [] ≡ some b
    → (m >> k) [] ≡ some (a ++ b)
seq-some m k fk {a} {b} ma kb = seq-after m k [] (some a) ma ∙ fk a ∙ ap (after a) kb

mutual
  unfolding traverse_scope traverse_scopes

  traverse_scope-Report :
      (c : Scope) (ps : List ScopeData) {errs : List SemanticError}
      → traverse_scope c ps [] ≡ some errs
      → Report c ps errs
  traverse_scope-Report (scope s cs) ps h =
      let (a, b, own, below, e) =
        (seq-eq-some (check_scope s ps) _ (traverse_scopes-Frames cs (s ∷ ps)) h) in
      subst (Report (scope s cs) ps) (sym e)
        (report own (traverse_scopes-Reports cs (s ∷ ps) below))

  traverse_scopes-Reports :
      (cs : Scopes) (ps : List ScopeData) {errs : List SemanticError}
      → traverse_scopes cs ps [] ≡ some errs
      → Reports cs ps errs
  traverse_scopes-Reports no_scopes ps {errs = []} h = no_reports
  traverse_scopes-Reports no_scopes ps {errs = e ∷ es} h = cc
  traverse_scopes-Reports (scopes c cs) ps h =
      let (a, b, first, rest, e) =
        (seq-eq-some (traverse_scope c ps) _ (traverse_scopes-Frames cs ps) h) in
      subst (Reports (scopes c cs) ps) (sym e)
        (reports (traverse_scope-Report c ps first) (traverse_scopes-Reports cs ps rest))

mutual
  unfolding traverse_scope traverse_scopes

  Report-traverse_scope :
      {c : Scope} {ps : List ScopeData} {errs : List SemanticError}
      → Report c ps errs
      → traverse_scope c ps [] ≡ some errs
  Report-traverse_scope (report {s = s} {cs = cs} {ancestors = ps} own below) =
      seq-some (check_scope s ps) _ (traverse_scopes-Frames cs (s ∷ ps)) own
        (Reports-traverse_scopes below)

  Reports-traverse_scopes :
      {cs : Scopes} {ps : List ScopeData} {errs : List SemanticError}
      → Reports cs ps errs
      → traverse_scopes cs ps [] ≡ some errs
  Reports-traverse_scopes no_reports = refl
  Reports-traverse_scopes (reports {c = c} {cs = cs} {ancestors = ps} first rest) =
      seq-some (traverse_scope c ps) _ (traverse_scopes-Frames cs ps) (Report-traverse_scope first)
        (Reports-traverse_scopes rest)

pub append-eq-nil : (a b : List SemanticError) → a ++ b ≡ [] → (a ≡ []) × (b ≡ [])
append-eq-nil [] b h = (refl, h)
append-eq-nil (x ∷ a) b h = cc

mutual
  Report-IsClean :
      {c : Scope} {ps : List ScopeData} {errs : List SemanticError}
      → Report c ps errs
      → errs ≡ []
      → IsClean c ps
  Report-IsClean (report {own = own} {below = below} o b) h =
      let (eo, eb) = (append-eq-nil own below h) in clean (o ∙ ap some eo) (Reports-AreClean b eb)

  Reports-AreClean :
      {cs : Scopes} {ps : List ScopeData} {errs : List SemanticError}
      → Reports cs ps errs
      → errs ≡ []
      → AreClean cs ps
  Reports-AreClean no_reports h = no_unclean
  Reports-AreClean (reports {first = first} {rest = rest} f r) h =
      let (ef, er) = (append-eq-nil first rest h) in
      all_clean (Report-IsClean f ef) (Reports-AreClean r er)

mutual
  IsClean-Report : {c : Scope} {ps : List ScopeData} → IsClean c ps → Report c ps []
  IsClean-Report (clean own below) = report own (AreClean-Reports below)

  AreClean-Reports : {cs : Scopes} {ps : List ScopeData} → AreClean cs ps → Reports cs ps []
  AreClean-Reports no_unclean = no_reports
  AreClean-Reports (all_clean c cs) = reports (IsClean-Report c) (AreClean-Reports cs)

verdict-error :
    (r : Option (List SemanticError)) (errs : List SemanticError)
    → verdict r ≡ semantic_check_error errs ↔ (r ≡ some errs) × (errs ≢ [])
verdict-error none errs = ((λ h. cc), λ (h, ne). cc)
verdict-error (some []) errs = ((λ h. cc), λ (h, ne). absurd (ne cc))
verdict-error (some (e ∷ es)) errs = ((λ h. (cc, λ n. cc)), λ (h, ne). cc)

verdict-accepted : (r : Option (List SemanticError)) → verdict r ≡ accepted ↔ r ≡ some []
verdict-accepted none = ((λ h. cc), λ h. cc)
verdict-accepted (some []) = ((λ h. refl), λ h. refl)
verdict-accepted (some (e ∷ es)) = ((λ h. cc), λ h. cc)

-- The program is accepted just when the check of every scope of the tree, each with its ancestors,
-- ends on its own without an error.
pub semantic_check-accepted_iff :
    (globals : Scopes) → semantic_check globals ≡ accepted ↔ AreClean globals []
unfolding semantic_check
semantic_check-accepted_iff globals = (
  (λ h. Reports-AreClean (traverse_scopes-Reports globals [] ((verdict-accepted _).0 h)) refl),
  λ c. (verdict-accepted _).1 (Reports-traverse_scopes (AreClean-Reports c)),
)

-- The `SemanticCheckError` thrown holds exactly the errors that the scopes report when each is
-- checked on its own, a scope before its children, and at least one: no error is lost, repeated or
-- changed by those found before it.
pub semantic_check-error_iff :
    (globals : Scopes) (errs : List SemanticError)
    → semantic_check globals ≡ semantic_check_error errs ↔ Reports globals [] errs × (errs ≢ [])
unfolding semantic_check
semantic_check-error_iff globals errs = (
  (λ h. let (e, ne) = ((verdict-error _ errs).0 h) in (traverse_scopes-Reports globals [] e, ne)),
  λ (r, ne). (verdict-error _ errs).1 (Reports-traverse_scopes r, ne),
)
