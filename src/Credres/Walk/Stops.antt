-- ===== src/Credres/Walk/Stops.antt =====
-- internal/credres/credres.go: where Walk stops, and what it has learned by then.
use omegacatqt.Base.{
  inl, inr, some, none, true, false, [], ◌∷◌, refl, arith, ◌≡◌, Option, ◌≢◌, List, ◌++◌, ◌⊎◌, All,
  Bool-cases, ap,
}
use omegacatqt.Vault.{Credential}
use omegacatqt.Credres.Outcome.{Outcome, success, retryable}
use omegacatqt.Credres.Resolve.{State, Target, Config, Bindings, Candidate}
use omegacatqt.Credres.Report.{report}
use omegacatqt.Credres.Walk.{WalkResult, walk_from, last_error, authenticated, is_success}

is_success-eq : (o : Outcome) → is_success o ≡ true → o ≡ success
is_success-eq o h = ground arith

module _ {B E : Type 0} (store : Bindings B) (cfg : Config) (t : Target)
    (dial : Credential → Option E) (classify : Option E → Outcome) where
  abbrev pub outcome_of : Candidate → Outcome
  outcome_of x = classify (dial x.cred)

  -- An attempt after which the ladder goes on.
  abbrev pub GoesOn : Candidate → Type 0
  GoesOn x = (is_success (outcome_of x) ≡ false) × (retryable (outcome_of x) ≡ true)

  -- What a list of attempts teaches the resolver, one report after the other.
  pub reports : List Candidate → State B → State B
  reports [] st = st
  reports (x ∷ xs) st = reports xs (report store cfg t x.cred.id (outcome_of x) st)

  -- A walk over `xs` that stops at one of them: those before it were dialled and let it go on, it
  -- was dialled, and none behind it was.
  pub record StopsAt (xs : List Candidate) (st : State B) (r : State B × WalkResult E)
      : Type 0 where
    pub before : List Candidate
    pub at : Candidate
    pub behind : List Candidate
    pub split : xs ≡ before ++ at ∷ behind
    pub go_on : All GoesOn before
    pub state : r.0 ≡ reports (before ++ at ∷ []) st
    pub verdict :
        ((outcome_of at ≡ success) × (r.1 ≡ authenticated at.cred))
        ⊎ ((is_success (outcome_of at) ≡ false)
            × (retryable (outcome_of at) ≡ false)
            × (r.1 ≡ last_error (dial at.cred)))

  -- A walk that dials with every candidate and succeeds with none.
  pub record RunsOut (xs : List Candidate) (st : State B) (r : State B × WalkResult E)
      : Type 0 where
    pub go_on : All GoesOn xs
    pub state : r.0 ≡ reports xs st
    pub verdict : (c : Credential) → r.1 ≢ authenticated c

  last_error-not-ok : (o : Option E) (c : Credential) → last_error o ≢ authenticated c
  last_error-not-ok none c e = cc
  last_error-not-ok (some x) c e = cc

  StopsAt-cons :
      (x : Candidate) (xs : List Candidate) (st : State B) (r : State B × WalkResult E)
      → GoesOn x
      → StopsAt xs (report store cfg t x.cred.id (outcome_of x) st) r
      → StopsAt (x ∷ xs) st r
  unfolding reports
  StopsAt-cons x xs st r g s = record {
    before = x ∷ s.before;
    at = s.at;
    behind = s.behind;
    split = ap (◌∷◌ x) s.split;
    go_on = (g, s.go_on);
    state = s.state;
    verdict = s.verdict;
  }

  -- Walk dials with the candidates in their order until an attempt succeeds or fails in a way that
  -- no other credential would mend. It returns that credential or that error, has reported each
  -- attempt that it made and no other, and without such an attempt it has dialled with all of them.
  pub walk_stops :
      (xs : List Candidate) (last : Option E) (st : State B)
      → StopsAt xs st (walk_from store cfg t dial classify xs last st)
        ⊎ RunsOut xs st (walk_from store cfg t dial classify xs last st)
  unfolding walk_from reports
  walk_stops [] last st =
      inr (record { go_on = tt; state = refl; verdict = last_error-not-ok last })
  walk_stops (x ∷ xs) last st = elim (Bool-cases (is_success (outcome_of x))) [
    | inl k ↦ inl (
        rw k (record {
          before = [];
          at = x;
          behind = xs;
          split = refl;
          go_on = tt;
          state = refl;
          verdict = inl (is_success-eq (outcome_of x) k, refl);
        }))
    | inr k ↦ elim (Bool-cases (retryable (outcome_of x))) [
      | inr m ↦ inl (
          rw (k, m)
            (record {
              before = [];
              at = x;
              behind = xs;
              split = refl;
              go_on = tt;
              state = refl;
              verdict = inr (k, m, refl);
            }))
      | inl m ↦
          elim (walk_stops xs (dial x.cred) (report store cfg t x.cred.id (outcome_of x) st)) [
            | inl s ↦ inl (rw (k, m) (StopsAt-cons x xs st _ (k, m) s))
            | inr s ↦ inr (
                rw (k, m)
                  (record { go_on = ((k, m), s.go_on); state = s.state; verdict = s.verdict }))
          ]
    ]
  ]
