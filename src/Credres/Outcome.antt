-- ===== src/Credres/Outcome.antt =====
-- internal/credres/classify.go: the outcome of one dial attempt.
use omegacatqt.Base.{
  some, none, true, false, [], ◌∷◌, if◌then◌else◌, ◌||◌, Bool, List, Option, any, all,
}
use omegacatqt.Text.{Str, lit, to_lower}
use omegacatqt.Text.Match.{contains}

pub data Outcome : Type 0 where
  success auth_rejected algo_mismatch host_key unreachable key_material other no_answer : Outcome

-- Outcome.CountsAgainstCredential
unfoldable pub counts_against_credential : Outcome → Bool
counts_against_credential auth_rejected = true
counts_against_credential _ = false

-- Outcome.Retryable
unfoldable pub retryable : Outcome → Bool
retryable auth_rejected = true
retryable key_material = true
retryable no_answer = true
retryable _ = false

-- What Classify asks of an error: what errors.As and errors.Is answer, and its text.
pub record DialError : Type 0 where
  pub is_dns_error : Bool
  pub is_op_error : Bool
  pub is_deadline_exceeded : Bool
  pub is_eof : Bool
  pub is_not_exist : Bool
  pub is_permission : Bool
  pub text : Str

unfoldable pub contains_any : Str → List Str → Bool
contains_any s = any (λ sub. contains s sub)

unfoldable pub contains_all : Str → List Str → Bool
contains_all s = all (λ sub. contains s sub)

abbrev pub algo_markers : List Str
algo_markers =
    lit "no common algorithm"
    ∷ lit "no common algorithms"
    ∷ lit "unable to negotiate"
    ∷ lit "no mutual signature algorithm"
    ∷ lit "ssh: handshake failed: ssh: no common algorithm"
    ∷ []

abbrev pub host_key_markers : List Str
host_key_markers =
    lit "host key mismatch"
    ∷ lit "knownhosts: key mismatch"
    ∷ lit "knownhosts: key is unknown"
    ∷ lit "host key verification failed"
    ∷ lit "unknown host key"
    ∷ lit "remote host identification has changed"
    ∷ lit "jump host key:"
    ∷ lit "known_hosts"
    ∷ []

abbrev pub declined_markers : List Str
declined_markers = lit "host key for" ∷ lit "rejected" ∷ []

abbrev pub auth_markers : List Str
auth_markers =
    lit "unable to authenticate"
    ∷ lit "permission denied"
    ∷ lit "no supported methods remain"
    ∷ lit "auth failed"
    ∷ lit "authentication failed"
    ∷ lit "no handler for keyboard-interactive"
    ∷ []

abbrev pub key_markers : List Str
key_markers =
    lit "cannot decode encrypted private key"
    ∷ lit "passphrase"
    ∷ lit "failed to parse private key"
    ∷ lit "ssh: no key found"
    ∷ lit "invalid private key"
    ∷ lit "parse private key"
    ∷ lit "read private key"
    ∷ lit "ssh agent:"
    ∷ lit "no authentication methods available"
    ∷ lit "no usable credentials"
    ∷ []

abbrev pub network_markers : List Str
network_markers =
    lit "connection refused"
    ∷ lit "i/o timeout"
    ∷ lit "no route to host"
    ∷ lit "network is unreachable"
    ∷ lit "connection reset"
    ∷ lit "no such host"
    ∷ lit "context deadline exceeded"
    ∷ []

-- The switch on the lowered text.
unfoldable pub classify_text : Str → Outcome
classify_text s =
    if contains_any s algo_markers
    then algo_mismatch
    else if contains_any s host_key_markers || contains_all s declined_markers
    then host_key
    else if contains_any s auth_markers
    then auth_rejected
    else if contains_any s key_markers
    then key_material
    else if contains_any s network_markers
    then unreachable
    else other

-- Classify
unfoldable pub classify : Option DialError → Outcome
unfolding classify_text
classify none = success
classify (some e) =
    if e.is_dns_error
    then unreachable
    else if e.is_op_error
    then unreachable
    else if e.is_deadline_exceeded || e.is_eof
    then unreachable
    else if e.is_not_exist || e.is_permission
    then key_material
    else classify_text (to_lower e.text)
