-- ===== src/Sessions/Node.antt =====
-- internal/sessions/session.go: what one saved connection is, with the defaults that Normalize
-- fills in, its label, and the address that internal/sessions/tree.go keys it on.
pub mod Key
use omegacatqt.Text.Decimal.{itoa}
use omegacatqt.Text.Trim.{trim_space}
use omegacatqt.Text.{Str, lit, is_empty, str_eq, to_lower}
use omegacatqt.Base.{
  true, false, [], ◌∷◌, zero, suc, if◌then◌else◌, ℤ, ℕ, ◌||◌, ◌++◌, leb, Bool, pos, ◌==◌, ◌&&◌, ◌-◌,
  Option, negsuc, inl, inr, some, none, refl, arith, ◌≡◌,
}

pub record JumpSpec : Type 0 where
  pub host : Str
  pub port : ℤ
  pub username : Str
  pub credential : Str
  pub key_path : Str
  pub password : Str
  pub key_passphrase : Str

-- The two fields of `anti_idle` are AntiIdleSpec's.
pub record Node : Type 0 where
  pub name : Str
  pub transport : Str
  pub ephemeral : Bool
  pub host : Str
  pub port : ℤ
  pub username : Str
  pub credential : Str
  pub auth_type : Str
  pub key_path : Str
  pub password : Str
  pub key_passphrase : Str
  pub jump : JumpSpec
  pub legacy_algorithms : Bool
  pub platform : Str
  pub host_key_policy : Str
  pub known_hosts_path : Str
  pub connect_timeout_sec : ℤ
  pub telnet_crlf : Option Bool
  pub serial_port : Str
  pub baud : ℤ
  pub data_bits : ℤ
  pub parity : Str
  pub stop_bits : Str
  pub term_type : Str
  pub terminal_theme : Str
  pub font_size : ℤ
  pub scrollback_lines : ℤ
  pub paste_line_delay_ms : ℤ
  pub paste_warn_lines : ℤ
  pub console_baud : ℤ
  pub log_enabled : Bool
  pub anti_idle : Str × ℤ
  pub vendor : Str
  pub model : Str
  pub device_type : Str
  pub notes : Str

abbrev pub ssh : Str
ssh = lit "ssh"

abbrev pub telnet : Str
telnet = lit "telnet"

abbrev pub serial : Str
serial = lit "serial"

-- A value left blank takes the default.
unfoldable pub or_default : Str → Str → Str
or_default s default = if is_empty s then default else s

unfoldable pub or_number : ℤ → ℤ → ℤ
or_number (pos zero) default = default
or_number n default = n

unfoldable pub is_zero_ℤ : ℤ → Bool
is_zero_ℤ (pos zero) = true
is_zero_ℤ n = false

-- IsNetwork
unfoldable pub is_network : Str → Bool
is_network t = str_eq t ssh || str_eq t telnet

-- DefaultPort
unfoldable pub default_port : Str → ℤ
default_port t = if str_eq t ssh then pos 22 else if str_eq t telnet then pos 23 else pos 0

-- strconv.Itoa
unfoldable pub itoa_ℤ : ℤ → Str
itoa_ℤ (pos n) = itoa n
itoa_ℤ (negsuc n) = lit "-" ++ itoa (suc n)

-- strings.ToUpper on one byte
upper_byte : ℕ → ℕ
upper_byte c = if leb b'a' c && leb c b'z' then c - 32 else c

parity_letter : Str → Str
unfolding upper_byte
parity_letter [] = lit "N"
parity_letter (c ∷ s) = upper_byte c ∷ []

eq_ℤ : ℤ → ℤ → Bool
eq_ℤ (pos m) (pos n) = m == n
eq_ℤ (negsuc m) (negsuc n) = m == n
eq_ℤ m n = false

-- joinHostPort
unfoldable pub join_host_port : Str → ℤ → ℤ → Str
unfolding eq_ℤ is_zero_ℤ
join_host_port host port default =
    if is_empty host
    then []
    else if is_zero_ℤ port || eq_ℤ port default
    then host
    else host ++ lit ":" ++ itoa_ℤ port

unfoldable pub serial_target : Node → Str
unfolding parity_letter
serial_target n =
    if is_empty n.serial_port
    then serial
    else n.serial_port
      ++ lit " "
      ++ itoa_ℤ n.baud
      ++ lit " "
      ++ itoa_ℤ n.data_bits
      ++ parity_letter n.parity
      ++ n.stop_bits

unfoldable pub ssh_target : Node → Str
ssh_target n =
    let hp = join_host_port n.host n.port (pos 22) in
    if is_empty n.username then hp else n.username ++ lit "@" ++ hp

unfoldable pub target : Node → Str
unfolding serial_target ssh_target
target n =
    if str_eq n.transport serial
    then serial_target n
    else if str_eq n.transport telnet
    then join_host_port n.host n.port (pos 23)
    else ssh_target n

unfoldable pub label : Node → Str
label n = if is_empty (trim_space n.name) then target n else trim_space n.name

-- The first part of Normalize: white space.
unfoldable pub trimmed : Node → Node
trimmed n = record n {
  name = trim_space n.name;
  host = trim_space n.host;
  username = trim_space n.username;
  credential = trim_space n.credential;
  platform = trim_space n.platform;
  key_path = trim_space n.key_path;
  serial_port = trim_space n.serial_port;
  known_hosts_path = trim_space n.known_hosts_path;
  jump = record n.jump {
    host = trim_space n.jump.host;
    username = trim_space n.jump.username;
    credential = trim_space n.jump.credential;
    key_path = trim_space n.jump.key_path;
  };
}

unfoldable pub port_of : Str → ℤ → ℤ
port_of transport port =
    if is_network transport then or_number port (default_port transport) else port

unfoldable pub jump_port : JumpSpec → ℤ
jump_port j = if is_empty (trim_space j.host) then j.port else or_number j.port (pos 22)

-- The second part: defaults, whatever the transport.
unfoldable pub filled : Node → Node
unfolding port_of jump_port
filled n = record n {
  transport = or_default n.transport ssh;
  port = port_of (or_default n.transport ssh) n.port;
  auth_type = or_default n.auth_type (lit "agent");
  host_key_policy = or_default n.host_key_policy (lit "tofu");
  connect_timeout_sec = or_number n.connect_timeout_sec (pos 20);
  jump = record n.jump { port = jump_port n.jump };
  baud = or_number n.baud (pos 9600);
  data_bits = or_number n.data_bits (pos 8);
  parity = or_default n.parity (lit "none");
  stop_bits = or_default n.stop_bits (lit "1");
  term_type = or_default n.term_type (lit "xterm-256color");
  anti_idle = (or_default n.anti_idle.0 (lit "inherit"), n.anti_idle.1);
}

unfoldable pub normalize : Node → Node
unfolding trimmed filled
normalize n =
    let m = filled (trimmed n) in record m { name = if is_empty m.name then label m else m.name }

-- The address of a node: the port of a serial line, or transport, host and port.
unfoldable pub key : Node → Str
key n =
    let h = to_lower (trim_space n.host) in
    let nn = normalize n in
    let p = trim_space n.serial_port in
    if str_eq n.transport serial
    then if is_empty p then [] else lit "serial:" ++ p
    else if is_empty h
    then []
    else nn.transport ++ lit ":" ++ h ++ lit ":" ++ itoa_ℤ nn.port
