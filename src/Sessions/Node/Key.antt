-- ===== src/Sessions/Node/Key.antt =====
-- The address of a node: Normalize does not change it, and neither does a new name.
use omegacatqt.Base.{pos, negsuc, ℤ, suc, zero, inl, inr, [], ◌∷◌, refl, ◌≡◌}
use omegacatqt.Text.Trim.Laws.{trim_space-trim_space}
use omegacatqt.Text.{Str, str_eq, is_empty}
use omegacatqt.Sessions.Node.{
  port_of, or_number, key, or_default, normalize, trimmed, filled, Node, ssh, is_network,
  default_port, serial,
}
use omegacatqt.Base.{inl, inr, [], ◌∷◌, zero, suc, refl, ◌≡◌, ℤ, Bool-cases}

or_default_idem : (s d : Str) → or_default (or_default s d) d ≡ or_default s d
unfolding or_default
or_default_idem s d = elim (Bool-cases (is_empty s)) [
  | inl a ↦ elim (Bool-cases (is_empty d)) [ inl b ↦ rw (a, b) refl | inr b ↦ rw (a, b) refl ]
  | inr a ↦ rw (a, a) refl
]

or_number_idem : (n d : ℤ) → or_number (or_number n d) d ≡ or_number n d
unfolding or_number
or_number_idem (pos zero) (pos zero) = refl
or_number_idem (pos zero) (pos (suc d)) = refl
or_number_idem (pos zero) (negsuc d) = refl
or_number_idem (pos (suc n)) d = refl
or_number_idem (negsuc n) d = refl

port_of_idem : (t : Str) (p : ℤ) → port_of t (port_of t p) ≡ port_of t p
unfolding port_of
port_of_idem t p = elim (Bool-cases (is_network t)) [
  | inl a ↦ rw a (or_number_idem p (default_port t))
  | inr a ↦ rw a refl
]

serial-or_default : (t : Str) → str_eq (or_default t ssh) serial ≡ str_eq t serial
unfolding or_default
serial-or_default [] = unfold str_eq in unfold is_empty in refl
serial-or_default (c ∷ s) = unfold is_empty in refl

-- Normalize keeps the address.
pub key-normalize : (n : Node) → key (normalize n) ≡ key n
unfolding key normalize filled trimmed
key-normalize n =
    rw
      (
        serial-or_default n.transport,
        trim_space-trim_space n.serial_port,
        trim_space-trim_space n.host,
        or_default_idem n.transport ssh,
        port_of_idem (or_default n.transport ssh) n.port,
      )
      refl

-- A new name keeps it too.
pub key-renamed : (n : Node) (name : Str) → key (record n { name = name }) ≡ key n
unfolding key normalize filled trimmed
key-renamed n name = refl
