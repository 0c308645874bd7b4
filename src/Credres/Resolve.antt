-- ===== src/Credres/Resolve.antt =====
-- internal/credres/credres.go: Resolve, the ordered credentials to try for a target. What the
-- package does with addresses (net/netip) and with its binding store are arguments.
pub mod Candidates
pub mod Order
use omegacatqt.Base.{
  inl, inr, some, none, true, false, [], ◌∷◌, zero, suc, refl, arith, ◌≡◌, Option, ℕ, Bool, List,
  if◌then◌else◌, ◌++◌, ◌==◌, ◌||◌, ◌&&◌, any, all, not, take, ℤ, filter, pos, negsuc,
}
use omegacatqt.Text.{Str, lit, is_empty, has, to_lower, equal_fold, str_eq}
use omegacatqt.Text.Trim.{trim, trim_space}
use omegacatqt.Text.Match.{has_suffix}
use omegacatqt.Text.Assoc.{lookup, insert}
use omegacatqt.Vault.{Credential, Scope, is_zero, is_snmp, has_tag}
use omegacatqt.Credres.Rank.{rank}

-- netip.ParseAddr succeeds; a prefix parses and contains an address.
pub record Net : Type 0 where
  pub is_addr : Str → Bool
  pub prefix_has : Str → Str → Bool

-- BindingStore, as the resolver sees it: the pin of a device, and the two writes.
pub record Bindings (B : Type 0) : Type 0 where
  pub pin_of : B → List Str → Option Str
  pub note_success : B → Str → List Str → B
  pub forget : B → List Str → B

pub record Target : Type 0 where
  pub identity : Str
  pub addr : Str
  pub platform : Str
  pub tags : List Str
  pub aliases : List Str
  pub pin : Str

pub data Reason : Type 0 where
  pinned promoted ranked : Reason

pub record Candidate : Type 0 where
  pub cred : Credential
  pub reason : Reason

-- Config. The method is `true` for SNMP; the limits are those of breakerThreshold and maxPerHost
-- before their defaults.
pub record Config : Type 0 where
  pub snmp : Bool
  pub breaker_threshold : ℤ
  pub max_per_host : ℤ
  pub disable_promotion : Bool

-- Why a credential is parked.
pub data Parked : Type 0 where
  rejected_by : ℕ → Parked
  key_not_loaded : Parked

-- Resolver. A set of strings is a list without repetition.
pub record State (B : Type 0) : Type 0 where
  pub promoted_id : Str
  pub negative : List (Str × List Str)
  pub rejects : List (Str × List Str)
  pub parked : List (Str × Parked)
  pub names : List (Str × Str)
  pub bindings : Option B

-- A limit that is not positive is none, and zero stands for the default.
unfoldable pub limit : ℕ → ℤ → Option ℕ
limit default (pos zero) = some default
limit default (pos (suc n)) = some (suc n)
limit default (negsuc n) = none

-- An entry of a map of sets; a missing one is empty.
unfoldable pub members : List (Str × List Str) → Str → List Str
members m k = elim (lookup m k) [ none ↦ [] | some l ↦ l ]

-- Target.bindingIDs
unfoldable pub binding_ids : Target → List Str
binding_ids t =
    (if is_empty t.identity then [] else t.identity ∷ [])
    ++ (if is_empty t.addr then [] else t.addr ∷ [])
    ++ t.aliases

abbrev is_dot : ℕ → Bool
is_dot c = c == b'.'

-- matchesSuffix
unfoldable pub matches_suffix : Str → Str → Bool
matches_suffix name suffix =
    let n = to_lower (trim is_dot (trim_space name)) in
    let s = to_lower (trim is_dot (trim_space suffix)) in
    if is_empty s then true else str_eq n s || has_suffix n (b'.' ∷ s)

-- hasAllTags
unfoldable pub has_all_tags : Credential → List Str → Bool
has_all_tags c = all (λ t. is_empty (trim_space t) || has_tag c t)

platform_fits : List Str → Str → Bool
platform_fits [] platform = true
platform_fits (p ∷ ps) platform =
    not (is_empty platform) && any (λ q. equal_fold (trim_space q) platform) (p ∷ ps)

addr_fits : Net → List Str → Str → Bool
addr_fits net [] addr = true
addr_fits net (c ∷ cs) addr =
    not (is_empty addr)
    && net.is_addr addr
    && any (λ p. net.prefix_has (trim_space p) addr) (c ∷ cs)

-- scopeMatches
unfoldable pub scope_matches : Net → Scope → Target → Bool
unfolding platform_fits addr_fits
scope_matches net s t =
    is_zero s
    || ((is_empty s.domain_suffix || matches_suffix t.identity s.domain_suffix)
        && platform_fits s.platforms t.platform
        && addr_fits net s.cidrs t.addr)

abbrev same : Bool → Bool → Bool
same true b = b
same false b = not b

abbrev pub is_parked : List (Str × Parked) → Str → Bool
is_parked m k = elim (lookup m k) [ none ↦ false | some p ↦ true ]

-- containsCandidate
unfoldable pub contains_candidate : List Candidate → Str → Bool
contains_candidate l id = any (λ x. str_eq x.cred.id id) l

unfoldable pub find_id : Str → List Credential → Option Credential
find_id id [] = none
find_id id (c ∷ cs) = let rest = find_id id cs in if str_eq c.id id then some c else rest

unfoldable pub find_name : Str → List Credential → Option Credential
find_name name [] = none
find_name name (c ∷ cs) =
    let rest = find_name name cs in if equal_fold c.name name then some c else rest

-- matchCredential
unfoldable pub match_credential : List Credential → Str → Option Str
unfolding find_name
match_credential eligible want = elim (find_id want eligible) [
  | some c ↦ some c.id
  | none ↦ elim (find_name want eligible) [ none ↦ none | some c ↦ some c.id ]
]

-- The credential that the caller or, failing that, the binding store wants first.
unfoldable pub pinned_id : Option Str → List Credential → Str → Str
pinned_id learned eligible pin =
    let fallback : Str = elim learned [ none ↦ [] | some id ↦ id ] in
    if is_empty (trim_space pin)
    then fallback
    else elim (match_credential eligible (trim_space pin)) [ some id ↦ id | none ↦ fallback ]

-- One round of the loop over the pin and the promotion.
unfoldable pub prefer : Reason → Str → List Credential → List Candidate → List Candidate
prefer reason id eligible out =
    if is_empty id || contains_candidate out id then out else elim (find_id id eligible) [
      | none ↦ out
      | some c ↦ out ++ record { cred = c; reason = reason } ∷ []
    ]

-- The loop over the rest, in ranked order.
unfoldable pub add_ranked : List Credential → List Candidate → List Candidate
add_ranked [] out = out
add_ranked (c ∷ cs) out =
    add_ranked cs (
      if contains_candidate out c.id then out else out ++ record { cred = c; reason = ranked } ∷ [])

unfoldable pub capped : Option ℕ → List Candidate → List Candidate
capped none out = out
capped (some max) out = take max out

module _ {B : Type 0} (net : Net) (store : Bindings B) (cfg : Config) where
  -- The filters of the loop over the vault.
  unfoldable pub is_eligible : State B → Target → Credential → Bool
  is_eligible st t c =
      not c.disabled
      && same (is_snmp c) cfg.snmp
      && not (is_parked st.parked c.id)
      && not (has (members st.negative t.identity) c.id)
      && has_all_tags c t.tags
      && scope_matches net c.scope t

  unfoldable pub learned_pin : State B → Target → Option Str
  learned_pin st t = elim st.bindings [
    | none ↦ none
    | some b ↦ if is_empty t.identity then none else store.pin_of b (binding_ids t)
  ]

  unfoldable pub ladder : State B → Target → List Credential → List Candidate
  unfolding prefer add_ranked
  ladder st t eligible =
      let first = prefer pinned (pinned_id (learned_pin st t) eligible t.pin) eligible [] in
      let second =
        prefer promoted (if cfg.disable_promotion then [] else st.promoted_id) eligible first in
      add_ranked eligible second

  -- The candidates; an error of the vault is `none`.
  unfoldable pub resolve : State B → Target → Option (List Credential) → Option (List Candidate)
  unfolding capped ladder
  resolve st t none = none
  resolve st t (some creds) =
      some
        (capped (limit 4 cfg.max_per_host) (ladder st t (rank (filter (is_eligible st t) creds))))

  -- What the same loop notes of every credential that it sees.
  unfoldable pub note_names : List Credential → State B → State B
  note_names [] st = st
  note_names (c ∷ cs) st = note_names cs (record st { names = insert c.id c.name st.names })
