-- ===== src/Sessions/Validate.antt =====
-- internal/sessions/session.go: ValidateFor, which reports every problem of a node with the field
-- that it is about. A message is known by its kind.
pub mod Deferred
pub mod Dialable
use omegacatqt.Text.Trim.{trim_space}
use omegacatqt.Text.{Str, has, is_empty, lit, str_eq, to_lower}
use omegacatqt.Sessions.Node.{JumpSpec, Node, is_zero_ℤ, normalize, ssh, telnet, is_network, serial}
use omegacatqt.Base.{
  inl, inr, some, none, true, false, [], ◌∷◌, zero, suc, refl, arith, ◌≡◌, Bool, ℤ, if◌then◌else◌,
  List, not, ℕ, ltb_ℤ, any, ◌==◌, ◌&&◌, ◌++◌, ◌||◌, pos,
}

pub data Fault : Type 0 where
  required whitespace out_of_range unknown_value : Fault

-- The names of the fields, as "host" or "jump.port".
pub data Field : Type 0 where
  transport_field host_field port_field auth_type_field key_path_field username_field : Field
  host_key_policy_field connect_timeout_field jump_port_field jump_username_field : Field
  serial_port_field baud_field data_bits_field parity_field stop_bits_field : Field
  font_size_field scrollback_field console_baud_field interval_field : Field

abbrev pub FieldError : Type 0
FieldError = Field × Fault

-- `add`, under a condition
unfoldable pub check : Bool → Field → Fault → List FieldError
check b field fault = if b then (field, fault) ∷ [] else []

abbrev pub is_outside : ℤ → ℕ → ℕ → Bool
is_outside n low high = ltb_ℤ n (pos low) || ltb_ℤ (pos high) n

-- knownTransport
unfoldable pub known_transport : Str → Bool
known_transport = has (ssh ∷ telnet ∷ serial ∷ [])

-- strings.ContainsAny(s, " \t")
unfoldable pub has_blank : Str → Bool
has_blank = any (λ c. c == 32 || c == 9)

unfoldable pub network_errors : Node → List FieldError
network_errors n =
    check (is_empty n.host) host_field required
    ++ check (not (is_empty n.host) && has_blank n.host) host_field whitespace
    ++ check (is_outside n.port 1 65535) port_field out_of_range

unfoldable pub auth_errors : Bool → Node → List FieldError
auth_errors from_store n =
    if has (lit "agent" ∷ lit "password" ∷ []) n.auth_type
    then []
    else if str_eq n.auth_type (lit "publickey")
    then check (is_empty n.key_path && not from_store) key_path_field required
    else (auth_type_field, unknown_value) ∷ []

unfoldable pub in_use : JumpSpec → Bool
in_use j = not (is_empty (trim_space j.host))

unfoldable pub jump_errors : JumpSpec → List FieldError
unfolding in_use
jump_errors j =
    check (in_use j && is_outside j.port 1 65535) jump_port_field out_of_range
    ++ check (in_use j && is_empty j.username && is_empty j.credential) jump_username_field required

unfoldable pub ssh_errors : Bool → Node → List FieldError
unfolding auth_errors jump_errors
ssh_errors from_store n =
    auth_errors from_store n
    ++ check (is_empty n.username && not from_store) username_field required
    ++ check (not (has (lit "strict" ∷ lit "tofu" ∷ lit "insecure" ∷ []) n.host_key_policy))
        host_key_policy_field unknown_value
    ++ check (ltb_ℤ n.connect_timeout_sec (pos 1)) connect_timeout_field out_of_range
    ++ jump_errors n.jump

unfoldable pub serial_errors : Node → List FieldError
serial_errors n =
    check (is_empty n.serial_port) serial_port_field required
    ++ check (ltb_ℤ n.baud (pos 1)) baud_field out_of_range
    ++ check (is_outside n.data_bits 5 8) data_bits_field out_of_range
    ++ check
        (not (
          has (lit "none" ∷ lit "odd" ∷ lit "even" ∷ lit "mark" ∷ lit "space" ∷ [])
            (to_lower n.parity)))
        parity_field unknown_value
    ++ check (not (has (lit "1" ∷ lit "1.5" ∷ lit "2" ∷ []) n.stop_bits)) stop_bits_field
        unknown_value

-- The checks that no transport escapes.
unfoldable pub common_errors : Node → List FieldError
unfolding is_zero_ℤ
common_errors n =
    check (not (is_zero_ℤ n.font_size) && is_outside n.font_size 6 72) font_size_field out_of_range
    ++ check (ltb_ℤ n.scrollback_lines (pos 0)) scrollback_field out_of_range
    ++ check (ltb_ℤ n.console_baud (pos 0)) console_baud_field out_of_range
    ++ check
        (str_eq n.anti_idle.0 (lit "on")
          && not (is_zero_ℤ n.anti_idle.1)
          && ltb_ℤ n.anti_idle.1 (pos 10))
        interval_field out_of_range

unfoldable pub errors_of : Bool → Node → List FieldError
unfolding known_transport network_errors ssh_errors serial_errors common_errors
errors_of from_store n =
    if not (known_transport n.transport)
    then (transport_field, unknown_value) ∷ []
    else (if is_network n.transport then network_errors n else [])
      ++ (if str_eq n.transport ssh then ssh_errors from_store n else [])
      ++ (if str_eq n.transport serial then serial_errors n else [])
      ++ common_errors n

-- ValidateFor
unfoldable pub validate_for : Bool → Node → List FieldError
unfolding errors_of
validate_for credential_default n =
    let m = normalize n in errors_of (not (is_empty m.credential) || credential_default) m

-- PasteBaud
unfoldable pub paste_baud : Node → ℤ
paste_baud n =
    if ltb_ℤ n.console_baud (pos 0)
    then pos 0
    else if ltb_ℤ (pos 0) n.console_baud
    then n.console_baud
    else if str_eq n.transport serial && ltb_ℤ (pos 0) n.baud
    then n.baud
    else pos 0

-- Defaults, of the node that has nothing set
unfoldable pub defaults : Node → Node
defaults zero_node = normalize (record zero_node { auth_type = lit "password" })
