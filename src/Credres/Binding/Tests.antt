-- ===== src/Credres/Binding/Tests.antt =====
-- Runs and instances of the theorems of the binding store, with addresses that begin with a digit.
use omegacatqt.Credres.Aliases.{
  AliasSet, new_alias_set, record_ok, find_weak, select_weak, create, attach, attach_shape, update,
  write, has_strong, find_shape, binding_of,
}
use mathlib.Core.List.{Permᴰ}
use omegacatqt.Credres.Binding.Kept.{bind-keeps}
use omegacatqt.Credres.Binding.Moves.{is_hit}
use omegacatqt.Credres.Binding.Pins.{
  FileOp, file_record_op, pin_at, record_binding-pins, memory_forget-unpins,
}
use omegacatqt.Credres.Binding.Labels.{best_label_permuted}
use omegacatqt.Text.Trim.{trim, trim_left, trim_right, trim_space}
use omegacatqt.Credres.Shapes.{
  shapes_for_all, gather, shapes_for, add_shapes, add_shape, better_canonical, label_rank, Shape,
}
use omegacatqt.Credres.Binding.Store.{
  memory_record, memory_bind, lookup_binding, FileBindings, memory_forget,
}
use omegacatqt.Text.Match.{has_prefix, index_byte, contains}
use omegacatqt.Text.{Str, lit, str_eq, str_le, to_lower, lower_byte, has, is_empty, sort_strings}
use omegacatqt.Credres.Binding.Indexed.{IsIndexed}
use omegacatqt.Normalize.{
  Ip, identifier, is_artifact_name, addr_of, is_mac_address, is_hex, hex_pairs, hex_quads,
  short_name, first_label,
}
use omegacatqt.Text.Assoc.{lookup, insert}
use omegacatqt.Credres.Binding.{
  record_binding, bind, bind_shapes, merge_strong, choose_record, set_label, best_label,
  find_record,
}
use omegacatqt.Base.{
  some, none, [], ◌∷◌, refl, ◌≡◌, List, if◌then◌else◌, leb, ◌&&◌, Option, true, ◌⊎◌, All,
}
use omegacatqt.Credres.Binding.Runs.{
  bind_op, record_op, perform_all, BindingOp, perform_all-IsIndexed, perform,
}

abbrev parse_digit : Str → Option Str
parse_digit [] = none
parse_digit (c ∷ s) = if leb b'0' c && leb c b'9' then some (c ∷ s) else none

abbrev ip : Ip Str
ip = record {
  parse_addr = parse_digit;
  parse_addr_port = λ s. none;
  in_cgnat = λ s. has_prefix s (lit "100.");
}

-- One switch, known by two names and an address, whose credential is "1".
abbrev ops : List BindingOp
ops = bind_op (lit "SW.a") (lit "10.0.0.1" ∷ []) ∷ record_op 5 (lit "1") (lit "sw.a" ∷ []) ∷ []

abbrev one_switch : AliasSet
one_switch = perform_all ip ops new_alias_set

one_switch-IsIndexed : IsIndexed one_switch
one_switch-IsIndexed = perform_all-IsIndexed ip ops

finds_short : lookup one_switch.index (lit "sw") ≡ some 0
unfolding perform_all perform memory_record memory_bind record_binding record_ok bind bind_shapes
    merge_strong choose_record find_weak select_weak create attach attach_shape update set_label
    best_label shapes_for_all gather shapes_for add_shapes add_shape identifier is_artifact_name
    addr_of is_mac_address is_hex hex_pairs hex_quads short_name first_label better_canonical
    label_rank write lookup insert str_eq str_le trim trim_left trim_right trim_space to_lower
    lower_byte has has_strong is_empty index_byte contains has_prefix
finds_short = refl

-- Another switch with the same short name keeps a record of its own, but a lookup with the same
-- names finds the credential of the first.
wrong_pin :
    elim (lookup_binding ip
      (lit "sw" ∷ lit "10.0.0.2" ∷ [])
      (memory_record ip 6 (lit "2") (lit "sw" ∷ lit "10.0.0.2" ∷ []) one_switch)) [
        | none ↦ []
        | some b ↦ b.cred_id
      ]
    ≡ lit "1"
unfolding perform_all perform memory_record memory_bind record_binding record_ok bind bind_shapes
    merge_strong choose_record find_weak select_weak create attach attach_shape update set_label
    best_label shapes_for_all gather shapes_for add_shapes add_shape identifier is_artifact_name
    addr_of is_mac_address is_hex hex_pairs hex_quads short_name first_label better_canonical
    label_rank write lookup insert str_eq str_le trim trim_left trim_right trim_space to_lower
    lower_byte has has_strong is_empty index_byte contains has_prefix lookup_binding find_record
    find_shape binding_of sort_strings
wrong_pin = refl

perform_all-IsIndexed_example : IsIndexed (perform_all ip ops new_alias_set)
perform_all-IsIndexed_example = perform_all-IsIndexed ip ops

bind-keeps_example :
    (lookup (bind ip (lit "sw") (lit "10.0.0.2" ∷ []) one_switch).1.index (lit "sw") ≡ some 0)
    ⊎ ((lookup (bind ip (lit "sw") (lit "10.0.0.2" ∷ []) one_switch).1.index (lit "sw")
          ≡ (bind ip (lit "sw") (lit "10.0.0.2" ∷ []) one_switch).0)
        × (is_hit one_switch.index (shapes_for_all ip (lit "10.0.0.2" ∷ [])) 0 ≡ true))
bind-keeps_example =
    bind-keeps ip (lit "sw") (lit "10.0.0.2" ∷ []) one_switch (lit "sw") 0 one_switch-IsIndexed
      finds_short

record_binding-pins_example :
    All
      (λ (sh : Shape).
        sh.strong ≡ true
        → pin_at (record_binding ip 6 (lit "2") (lit "10.0.0.1" ∷ []) one_switch) sh.name
          ≡ some (lit "2"))
      (shapes_for_all ip (lit "10.0.0.1" ∷ []))
record_binding-pins_example =
    record_binding-pins ip 6 (lit "2") (lit "10.0.0.1" ∷ []) one_switch one_switch-IsIndexed

best_label_permuted_example :
    best_label ip [] ((lit "10.0.0.1", true) ∷ (lit "sw.a", true) ∷ [])
    ≡ best_label ip [] ((lit "sw.a", true) ∷ (lit "10.0.0.1", true) ∷ [])
best_label_permuted_example = best_label_permuted ip (Permᴰ.swap refl refl) []

abbrev empty_file : FileBindings
empty_file = record { set = new_alias_set; suffixes = []; disk = []; disk_suffixes = [] }

abbrev first_record : FileOp
first_record = file_record_op true 1 (lit "1") (lit "sw.a" ∷ [])

memory_forget-unpins_example :
    (find_record ip (lit "10.0.0.1" ∷ []) (memory_forget ip (lit "10.0.0.1" ∷ []) one_switch)
      ≡ find_record ip (lit "10.0.0.1" ∷ []) one_switch)
    × (lookup_binding ip (lit "10.0.0.1" ∷ []) (memory_forget ip (lit "10.0.0.1" ∷ []) one_switch)
        ≡ none)
memory_forget-unpins_example = memory_forget-unpins ip (lit "10.0.0.1" ∷ []) one_switch
