-- ===== src/Credres/Tests.antt =====
-- Runs and instances of the theorems of the resolver, with two credentials and one pin.
use omegacatqt.Credres.Resolve.Order.{by_binding, Wants}
use omegacatqt.Credres.Outcome.{success, Outcome}
use omegacatqt.Credres.Resolve.Candidates.{Distinct}
use omegacatqt.Credres.Rank.{rank, less, less_auth, less_name, is_key_auth}
use omegacatqt.Text.Match.{contains, has_prefix}
use omegacatqt.Text.Trim.{trim_space, trim_left, trim_right, trim}
use omegacatqt.Text.Assoc.{insert, lookup}
use omegacatqt.Credres.Walk.{walk_from, walk, authenticated}
use omegacatqt.Credres.Report.{report, reaches, note, add_member}
use omegacatqt.Base.{
  some, none, true, false, [], ◌∷◌, refl, ◌≡◌, All, List, pos, Option, if◌then◌else◌, ◌⊎◌, ℕ,
  negsuc, length, ◌≤◌, inl, suc, ◌||◌, ◌≢◌, ◌<◌, filter, arith,
}
use omegacatqt.Text.{Str, lit, is_empty, to_lower, str_eq, has, str_eq_iff}
use omegacatqt.Vault.{Credential, Scope, is_snmp, string_to_auth_type, method, specificity, is_zero}
use omegacatqt.Credres.Outcome.{
  auth_rejected, DialError, classify, contains_any, contains_all, retryable,
}
use omegacatqt.Credres.Resolve.{
  State, Target, Config, Net, Bindings, Candidate, resolve, is_eligible, ranked, pinned, limit,
  note_names, contains_candidate, members, has_all_tags, scope_matches, find_id, pinned_id,
  learned_pin,
}
use omegacatqt.Credres.Resolve.Order.{resolve_sound, resolve_complete, resolve_pinned}
use omegacatqt.Credres.Report.Learns.{
  report_rejected_excludes, report_breaker, report_all, threshold,
}
use omegacatqt.Credres.Walk.Stops.{walk_stops, StopsAt, RunsOut}

abbrev no_scope : Scope
no_scope = record { domain_suffix = []; cidrs = []; platforms = [] }

abbrev admin : Credential
admin = record {
  id = lit "1";
  name = lit "admin";
  auth_type = lit "password";
  is_default = false;
  priority = pos 0;
  tags = [];
  scope = no_scope;
  disabled = false;
}

abbrev lab : Credential
lab = record admin { id = lit "2"; name = lit "lab"; auth_type = lit "key" }

abbrev off : Credential
off = record admin { id = lit "3"; name = lit "off"; disabled = true }

abbrev net : Net
net = record { is_addr = λ a. true; prefix_has = λ p a. true }

-- A binding store for one device.
abbrev one_pin : Bindings (Option Str)
one_pin = record { pin_of = λ b ids. b; note_success = λ b id ids. some id; forget = λ b ids. none }

abbrev config : Config
config = record {
  snmp = false;
  breaker_threshold = pos 1;
  max_per_host = negsuc 0;
  disable_promotion = false;
}

abbrev state : State (Option Str)
state = record {
  promoted_id = [];
  negative = [];
  rejects = [];
  parked = [];
  names = [];
  bindings = some (some (lit "1"));
}

abbrev target : Target
target = record {
  identity = lit "sw1";
  addr = [];
  platform = [];
  tags = [];
  aliases = [];
  pin = [];
}

abbrev creds : List Credential
creds = off ∷ lab ∷ admin ∷ []

abbrev offered : List Candidate
offered = record { cred = admin; reason = pinned } ∷ record { cred = lab; reason = ranked } ∷ []

resolve_offers : resolve net one_pin config state target (some creds) ≡ some offered
unfolding resolve is_eligible is_snmp string_to_auth_type has str_eq to_lower trim_space trim_left
    trim_right trim is_empty members lookup has_all_tags scope_matches rank less less_auth less_name
    is_key_auth method specificity limit find_id contains_candidate pinned_id learned_pin is_zero
resolve_offers = refl

resolve_sound_example :
    All
      (λ (x : Candidate). Unit {0} × (is_eligible net one_pin config state target x.cred ≡ true))
      offered
    × Distinct offered
    × ((n : ℕ) → limit 4 config.max_per_host ≡ some n → length offered ≤ n)
resolve_sound_example =
    resolve_sound net one_pin config state target (λ c. Unit {0}) creds offered (tt, (tt, (tt, tt)))
      resolve_offers

resolve_complete_example :
    All
      (λ c.
        is_eligible net one_pin config state target c ≡ true
        → contains_candidate offered c.id ≡ true)
      creds
unfolding limit
resolve_complete_example =
    resolve_complete net one_pin config state target creds offered refl resolve_offers

binding-Wants :
    Wants net one_pin config state target
      (rank (filter (is_eligible net one_pin config state target) creds))
      admin
unfolding is_empty trim_space trim trim_left trim_right learned_pin is_eligible is_snmp to_lower has
    string_to_auth_type members lookup has_all_tags scope_matches is_zero rank less less_auth
    less_name is_key_auth method specificity find_id str_eq
binding-Wants = by_binding (lit "1") (inl refl) refl refl refl

resolve_pinned_example :
    (rest : List Candidate) × (offered ≡ record { cred = admin; reason = pinned } ∷ rest)
resolve_pinned_example =
    resolve_pinned net one_pin config state target creds admin offered binding-Wants resolve_offers

abbrev reports : List (Target × Str × Outcome)
reports = (record target { identity = lit "sw2" }, lit "2", success) ∷ []

reports_elsewhere :
    All (λ (r : Target × Str × Outcome). r.2 ≡ success → r.0.identity ≢ target.identity) reports
unfolding str_eq
reports_elsewhere = (
  λ e f.
      (let b : str_eq (lit "sw2") (lit "sw1") ≡ true = (str_eq_iff (lit "sw2") (lit "sw1")).1 f in
        ground arith),
  tt,
)

report_rejected_excludes_example :
    (is_eligible net one_pin config
        (report_all net one_pin config reports
          (report one_pin config target (lit "1") auth_rejected state))
        target
        admin
      ≡ false)
    × ((id : Str)
        → is_empty id ≡ false
        → members (report one_pin config target id success state).negative target.identity ≡ [])
unfolding is_empty
report_rejected_excludes_example =
    report_rejected_excludes net one_pin config target admin state reports refl refl
      reports_elsewhere

report_breaker_example :
    let after = report one_pin config target (lit "1") auth_rejected state in
    let before = members state.rejects (lit "1") in
    let now = members after.rejects (lit "1") in
    ((x : Str) → has now x ≡ (str_eq (lit "sw1") x || has before x))
    × (length now ≡ (if has before (lit "sw1") then length before else suc (length before)))
    × ((n : ℕ)
        → threshold config.breaker_threshold ≡ some n
        → n ≤ length now
        → (other : Target) → is_eligible net one_pin config after other admin ≡ false)
    × ((n : ℕ)
        → threshold config.breaker_threshold ≡ some n
        → length now < n
        → after.parked ≡ state.parked)
    × (threshold config.breaker_threshold ≡ none → after.parked ≡ state.parked)
unfolding is_empty
report_breaker_example = report_breaker net one_pin config target admin state refl refl

-- A dial that only the second credential passes.
abbrev dial : Credential → Option DialError
dial c =
    if str_eq c.id (lit "2")
    then none
    else some (record {
      is_dns_error = false;
      is_op_error = false;
      is_deadline_exceeded = false;
      is_eof = false;
      is_not_exist = false;
      is_permission = false;
      text = lit "ssh: unable to authenticate";
    })

walk_reaches_lab :
    (walk one_pin config target dial classify net (some creds) state).1 ≡ authenticated lab
unfolding walk note_names insert report note add_member reaches retryable classify contains_any
    contains_all contains has_prefix resolve is_eligible is_snmp string_to_auth_type has str_eq
    to_lower trim_space trim_left trim_right trim is_empty members lookup has_all_tags scope_matches
    rank less less_auth less_name is_key_auth method specificity limit find_id contains_candidate
    pinned_id learned_pin is_zero
walk_reaches_lab = refl

walk_stops_example :
    StopsAt one_pin config target dial classify offered state
      (walk_from one_pin config target dial classify offered none state)
    ⊎ RunsOut one_pin config target dial classify offered state
        (walk_from one_pin config target dial classify offered none state)
walk_stops_example = walk_stops one_pin config target dial classify offered none state
