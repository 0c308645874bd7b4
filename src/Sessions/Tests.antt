-- ===== src/Sessions/Tests.antt =====
-- Runs and instances of the theorems of the session tree, on two folders and three sessions.
use omegacatqt.Sessions.Tree.Count.{count, move-count}
use omegacatqt.Sessions.Validate.Dialable.{validate_for-dialable}
use omegacatqt.Sessions.Validate.Deferred.{is_deferred, validate_for-default}
use omegacatqt.Sessions.Validate.{
  paste_baud, validate_for, errors_of, known_transport, network_errors, serial_errors,
  common_errors, check, console_baud_field, out_of_range, ssh_errors, has_blank, auth_errors,
  jump_errors, in_use,
}
use omegacatqt.Sessions.Import.Rerun.{import_into-rerun}
use omegacatqt.Sessions.Import.{
  import_into, import_nodes, import_normal, import_new, import_added, note_rename, renamed_node,
  is_clash, keys, keys_of,
}
use omegacatqt.Text.Decimal.{itoa}
use omegacatqt.Text.Trim.{trim_space, trim_left, trim_right, trim}
use omegacatqt.Sessions.Node.Key.{key-normalize}
use omegacatqt.Sessions.Index.{elsewhere, NoClash, find_index, found, remove_at}
use omegacatqt.Text.{lit, str_eq, is_empty, to_lower, lower_byte, has}
use omegacatqt.Sessions.Tree.{
  Tree, rename_folder, folder_index, folder_exists, fold, nodes, add, add_normal, add_at,
  add_created, add_folder, session_index, sessions_at, set_sessions, move, move_node, then_remove,
  remove_node, locate, node_at, is_same,
}
use omegacatqt.Sessions.Edits.{
  perform, rename_folder_op, perform_all, move_op, perform-refused, add_op,
  perform_all-IsUnambiguous,
}
use omegacatqt.Sessions.Tree.Unique.{IsUnambiguous, IsFolder}
use omegacatqt.Sessions.Node.{
  Node, key, normalize, trimmed, filled, or_default, or_number, port_of, is_network, itoa_ℤ,
  default_port, label, target, serial_target, ssh_target, join_host_port, is_zero_ℤ, jump_port,
}
use omegacatqt.Base.{
  some, none, false, [], ◌∷◌, refl, ◌≡◌, pos, List, true, negsuc, filter, not, ℕ, ◌≤◌,
}

abbrev blank : Node
blank = record {
  name = [];
  transport = [];
  ephemeral = false;
  host = [];
  port = pos 0;
  username = [];
  credential = [];
  auth_type = [];
  key_path = [];
  password = [];
  key_passphrase = [];
  jump = record {
    host = [];
    port = pos 0;
    username = [];
    credential = [];
    key_path = [];
    password = [];
    key_passphrase = [];
  };
  legacy_algorithms = false;
  platform = [];
  host_key_policy = [];
  known_hosts_path = [];
  connect_timeout_sec = pos 0;
  telnet_crlf = none;
  serial_port = [];
  baud = pos 0;
  data_bits = pos 0;
  parity = [];
  stop_bits = [];
  term_type = [];
  terminal_theme = [];
  font_size = pos 0;
  scrollback_lines = pos 0;
  paste_line_delay_ms = pos 0;
  paste_warn_lines = pos 0;
  console_baud = pos 0;
  log_enabled = false;
  anti_idle = ([], pos 0);
  vendor = [];
  model = [];
  device_type = [];
  notes = [];
}

abbrev core : Node
core = record blank { name = lit "core"; host = lit "10.0.0.1" }

abbrev edge : Node
edge = record blank { name = lit " edge"; host = lit "10.0.0.2"; port = pos 2201 }

abbrev console : Node
console = record blank { transport = lit "serial"; serial_port = lit "COM1 " }

abbrev two_folders : Tree
two_folders = record {
  version = 1;
  folders =
      record { name = lit "Lab"; sessions = core ∷ edge ∷ [] }
      ∷ record { name = lit "Site"; sessions = [] }
      ∷ [];
}

two_folders-IsUnambiguous : IsUnambiguous two_folders
unfolding IsUnambiguous IsFolder NoClash find_index str_eq is_empty trim_space trim_left trim_right
    trim fold to_lower lower_byte label target
two_folders-IsUnambiguous = ((refl, (refl, tt)), ((refl, (refl, (refl, tt))), ((refl, tt), tt)))

perform_all-IsUnambiguous_example : IsUnambiguous (
    perform_all
      (move_op (lit "lab") (lit "EDGE") (lit "Site")
        ∷ add_op (lit "lab") console
        ∷ add_op (lit "New") core
        ∷ [])
      two_folders)
perform_all-IsUnambiguous_example =
    perform_all-IsUnambiguous
      (move_op (lit "lab") (lit "EDGE") (lit "Site")
        ∷ add_op (lit "lab") console
        ∷ add_op (lit "New") core
        ∷ [])
      two_folders two_folders-IsUnambiguous

rename_clash :
    (perform (rename_folder_op (lit "Lab") (lit " site ")) two_folders).1 ≡ some folder_exists
unfolding perform rename_folder elsewhere folder_index find_index str_eq is_empty trim_space
    trim_left trim_right trim fold to_lower lower_byte
rename_clash = refl

perform-refused_example :
    (perform (rename_folder_op (lit "Lab") (lit " site ")) two_folders).0 ≡ two_folders
perform-refused_example =
    perform-refused (rename_folder_op (lit "Lab") (lit " site ")) two_folders folder_exists
      rename_clash

key-normalize_example : key (normalize edge) ≡ key edge
key-normalize_example = key-normalize edge

key-edge : key edge ≡ lit "ssh:10.0.0.2:2201"
unfolding key normalize trimmed filled or_default or_number port_of is_network itoa_ℤ itoa
    default_port str_eq is_empty trim_space trim_left trim_right trim to_lower lower_byte
key-edge = refl

-- The second node is known, and the third has a name that collides.
abbrev crawl : List Node
crawl = console ∷ core ∷ record edge { host = lit "10.0.0.9" } ∷ []

crawl_accepted : (import_into (lit "Lab") crawl two_folders).result.rejected ≡ []
unfolding import_into import_nodes import_normal import_new import_added note_rename renamed_node
    is_clash keys keys_of nodes add add_normal add_at add_created add_folder found folder_index
    session_index find_index sessions_at set_sessions fold has key normalize trimmed filled
    or_default or_number port_of is_network default_port itoa_ℤ itoa label target serial_target
    ssh_target join_host_port is_zero_ℤ str_eq is_empty trim_space trim_left trim_right trim
    to_lower lower_byte
crawl_accepted = refl

import_into-rerun_example :
    ((import_into (lit "Lab") crawl (import_into (lit "Lab") crawl two_folders).tree).tree
      ≡ (import_into (lit "Lab") crawl two_folders).tree)
    × ((import_into (lit "Lab") crawl (import_into (lit "Lab") crawl two_folders).tree).result.added
        ≡ 0)
import_into-rerun_example = import_into-rerun (lit "Lab") crawl two_folders crawl_accepted

-- A negative speed is a choice that PasteBaud obeys and that the checks refuse.
abbrev full_speed : Node
full_speed = record console { console_baud = negsuc 0 }

paste_baud-full_speed : paste_baud full_speed ≡ pos 0
unfolding paste_baud
paste_baud-full_speed = refl

console_baud_refused : validate_for false full_speed ≡ (console_baud_field, out_of_range) ∷ []
unfolding validate_for errors_of known_transport network_errors serial_errors common_errors check
    normalize trimmed filled or_default or_number port_of is_network default_port label str_eq has
    is_empty is_zero_ℤ trim_space trim_left trim_right trim to_lower lower_byte
console_baud_refused = refl

validate_for-default_example :
    validate_for true core ≡ filter (λ e. not (is_deferred e)) (validate_for false core)
validate_for-default_example = validate_for-default core

abbrev admin_core : Node
admin_core = record core { username = lit "admin" }

admin_core_valid : validate_for false admin_core ≡ []
unfolding validate_for errors_of known_transport network_errors ssh_errors auth_errors jump_errors
    in_use common_errors has_blank check normalize trimmed filled jump_port or_default or_number
    port_of is_network default_port label str_eq has is_empty is_zero_ℤ trim_space trim_left
    trim_right trim to_lower lower_byte
admin_core_valid = refl

admin_core-is_network : is_network (normalize admin_core).transport ≡ true
unfolding is_network normalize filled trimmed or_default str_eq is_empty
admin_core-is_network = refl

validate_for-dialable_example :
    (is_empty (normalize admin_core).host ≡ false)
    × (has_blank (normalize admin_core).host ≡ false)
    × ((p : ℕ) × ((normalize admin_core).port ≡ pos p) × (1 ≤ p) × (p ≤ 65535))
validate_for-dialable_example =
    validate_for-dialable false admin_core admin_core_valid admin_core-is_network

edge_moves : (move (lit "lab") (lit "EDGE") (lit " site") two_folders).1 ≡ none
unfolding move move_node then_remove remove_node locate node_at is_same remove_at add add_normal
    add_at found folder_index session_index find_index sessions_at set_sessions fold normalize
    trimmed filled or_default or_number port_of jump_port is_network default_port label str_eq
    is_empty trim_space trim_left trim_right trim to_lower lower_byte
edge_moves = refl

move-count_example :
    count (move (lit "lab") (lit "EDGE") (lit " site") two_folders).0 ≡ count two_folders
move-count_example = move-count (lit "lab") (lit "EDGE") (lit " site") two_folders edge_moves
