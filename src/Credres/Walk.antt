-- ===== src/Credres/Walk.antt =====
-- internal/credres/credres.go: Walk, which dials with each candidate in turn. The dial and the
-- classifier of its errors are arguments.
pub mod Stops
use omegacatqt.Base.{
  inl, inr, some, none, true, false, [], ◌∷◌, zero, suc, refl, arith, ◌≡◌, Option, Bool, List,
  if◌then◌else◌,
}
use omegacatqt.Vault.{Credential}
use omegacatqt.Credres.Outcome.{Outcome, success, retryable}
use omegacatqt.Credres.Resolve.{
  State, Target, Config, Net, Bindings, Candidate, resolve, note_names,
}
use omegacatqt.Credres.Report.{report}

pub data WalkResult {ℓ} (E : Type ℓ) : Type ℓ where
  authenticated : Credential → WalkResult E
  failed : E → WalkResult E
  no_candidates vault_failed : WalkResult E

-- The error that is returned when no credential worked.
abbrev pub last_error {ℓ} : {E : Type ℓ} → Option E → WalkResult E
last_error none = no_candidates
last_error (some e) = failed e

abbrev pub is_success : Outcome → Bool
is_success success = true
is_success _ = false

module _ {B E : Type 0} (store : Bindings B) (cfg : Config) (t : Target)
    (dial : Credential → Option E) (classify : Option E → Outcome) where
  unfoldable pub walk_from : List Candidate → Option E → State B → State B × WalkResult E
  walk_from [] last st = (st, last_error last)
  walk_from (x ∷ xs) last st =
      let derr = dial x.cred in
      let outcome = classify derr in
      let learned = report store cfg t x.cred.id outcome st in
      let next = walk_from xs derr learned in
      if is_success outcome
      then (learned, authenticated x.cred)
      else if retryable outcome
      then next
      else (learned, last_error derr)

  walk_candidates : Option (List Candidate) → State B → State B × WalkResult E
  walk_candidates none st = (st, vault_failed)
  walk_candidates (some l) st = walk_from l none st

  unfoldable pub walk : Net → Option (List Credential) → State B → State B × WalkResult E
  unfolding walk_candidates walk_from
  walk net none st = (st, vault_failed)
  walk net (some creds) st =
      walk_candidates (resolve net store cfg st t (some creds)) (note_names net store cfg creds st)
