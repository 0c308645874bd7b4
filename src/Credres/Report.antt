-- ===== src/Credres/Report.antt =====
-- internal/credres/credres.go: Report, through which the resolver learns, and ResetRun.
pub mod Learns
use omegacatqt.Base.{
  inl, inr, some, none, true, false, [], ◌∷◌, zero, suc, refl, arith, ◌≡◌, if◌then◌else◌, List,
  Option, length, ℕ, Bool, leb,
}
use omegacatqt.Text.{Str, is_empty, has, str_eq}
use omegacatqt.Text.Assoc.{lookup, insert, remove}
use omegacatqt.Credres.Outcome.{Outcome, success, auth_rejected, key_material}
use omegacatqt.Credres.Resolve.{
  State, Target, Config, Bindings, Parked, rejected_by, key_not_loaded, members, binding_ids, limit,
}

-- A set gets one more element.
unfoldable pub add_member : Str → List Str → List Str
add_member x l = if has l x then l else x ∷ l

-- m[k][x] = struct{}{}
unfoldable pub note : Str → Str → List (Str × List Str) → List (Str × List Str)
unfolding add_member members
note k x m = insert k (add_member x (members m k)) m

-- Whether a number reaches a limit that is set.
unfoldable pub reaches : Option ℕ → ℕ → Bool
reaches none n = false
reaches (some threshold) n = leb threshold n

module _ {B : Type 0} (store : Bindings B) (cfg : Config) where
  unfoldable pub report_success : Target → Str → State B → State B
  report_success t id st = record st {
    rejects = remove id st.rejects;
    negative = remove t.identity st.negative;
    promoted_id = if cfg.disable_promotion then st.promoted_id else id;
    bindings = elim st.bindings [
      | none ↦ none
      | some b ↦ some (if is_empty t.identity then b else store.note_success b id (binding_ids t))
    ];
  }

  -- The breaker: the credential is parked when enough devices have rejected it.
  unfoldable pub breaker : Str → State B → State B
  breaker id st =
      let n = length (members st.rejects id) in
      if reaches (limit 3 cfg.breaker_threshold) n
      then record st { parked = insert id (rejected_by n) st.parked }
      else st

  -- A pin that no longer authenticates is dropped.
  unfoldable pub drop_pin : Target → Str → Option B → Option B
  drop_pin t id none = none
  drop_pin t id (some b) = some (
      if is_empty t.identity then b else elim (store.pin_of b (binding_ids t)) [
        | none ↦ b
        | some pin ↦ if str_eq pin id then store.forget b (binding_ids t) else b
      ])

  unfoldable pub report_rejected : Target → Str → State B → State B
  unfolding breaker drop_pin note
  report_rejected t id st =
      let noted : State B = record st {
        negative = note t.identity id st.negative;
        rejects = note id t.identity st.rejects;
      } in
      let counted : State B = if is_empty t.identity then st else breaker id noted in
      record counted { bindings = drop_pin t id st.bindings }

  unfoldable pub report_outcome : Target → Str → Outcome → State B → State B
  unfolding report_success report_rejected
  report_outcome t id success st = report_success t id st
  report_outcome t id auth_rejected st = report_rejected t id st
  report_outcome t id key_material st = record st { parked = insert id key_not_loaded st.parked }
  report_outcome t id _ st = st

  unfoldable pub report : Target → Str → Outcome → State B → State B
  unfolding report_outcome
  report t id outcome st = if is_empty id then st else report_outcome t id outcome st

  -- ResetRun
  unfoldable pub reset_run : State B → State B
  reset_run st = record st { promoted_id = []; negative = []; rejects = []; parked = [] }
