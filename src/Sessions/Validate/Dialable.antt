-- ===== src/Sessions/Validate/Dialable.antt =====
-- What a node that passes the checks may be relied on for.
use omegacatqt.Text.{is_empty, str_eq}
use omegacatqt.Sessions.Node.{Node, is_network, normalize, ssh, serial}
use omegacatqt.Sessions.Validate.{
  validate_for, network_errors, errors_of, check, FieldError, is_outside, Field, has_blank, Fault,
  known_transport, ssh_errors, serial_errors, common_errors,
}
use omegacatqt.Base.{
  inl, inr, true, false, [], ◌∷◌, refl, arith, ◌≡◌, ℤ, List, ℕ, Bool, ◌++◌, pos, Bool-cases, ◌≤◌,
  negsuc, not, ◌&&◌, if◌then◌else◌,
}

empty_parts : (es fs : List FieldError) → es ++ fs ≡ [] → (es ≡ []) × (fs ≡ [])
empty_parts [] fs h = (refl, h)
empty_parts (e ∷ es) fs h = absurd (ground (arith, h))

check-none : (b : Bool) (field : Field) (fault : Fault) → check b field fault ≡ [] → b ≡ false
unfolding check
check-none true field fault h = absurd (ground (arith, h))
check-none false field fault h = refl

inside :
    (p : ℤ) (high : ℕ) → is_outside p 1 high ≡ false → (m : ℕ) × (p ≡ pos m) × (1 ≤ m) × (m ≤ high)
inside (pos m) high h = (m, refl, ground (arith, h), ground (arith, h))
inside (negsuc m) high h = absurd (ground (arith, h))

network_errors-none :
    (n : Node)
    → network_errors n ≡ []
    → ((is_empty n.host ≡ false)
        × (has_blank n.host ≡ false)
        × ((p : ℕ) × (n.port ≡ pos p) × (1 ≤ p) × (p ≤ 65535)))
unfolding network_errors
network_errors-none n h =
    let (front, port) = empty_parts _ _ h in
    let (host, blank) = empty_parts _ _ front in
    let a : is_empty n.host ≡ false = check-none _ _ _ host in
    let b : (not (is_empty n.host) && has_blank n.host) ≡ false = check-none _ _ _ blank in
    (a, ground (arith, a, b), inside n.port 65535 (check-none _ _ _ port))

errors_of-none :
    (c : Bool) (n : Node)
    → errors_of c n ≡ []
    → is_network n.transport ≡ true
    → network_errors n ≡ []
unfolding errors_of
errors_of-none c n h t = elim (Bool-cases (known_transport n.transport)) [
  | inr a ↦ absurd (ground (arith, h, a))
  | inl a ↦
      let whole : (if is_network n.transport then network_errors n else [])
            ++ (if str_eq n.transport ssh then ssh_errors c n else [])
            ++ (if str_eq n.transport serial then serial_errors n else [])
            ++ common_errors n
          ≡ [] =
        rw a at h in
      let first : (if is_network n.transport then network_errors n else []) ≡ [] =
        (empty_parts _ _ (empty_parts _ _ (empty_parts _ _ whole).0).0).0 in
      rw t at first
]

-- A node of a network transport that has no problem, with a default credential or without, can be
-- dialled as it is normalized: it has a host, without blanks, and a port between 1 and 65535.
pub validate_for-dialable :
    (d : Bool) (n : Node)
    → validate_for d n ≡ []
    → is_network (normalize n).transport ≡ true
    → ((is_empty (normalize n).host ≡ false)
        × (has_blank (normalize n).host ≡ false)
        × ((p : ℕ) × ((normalize n).port ≡ pos p) × (1 ≤ p) × (p ≤ 65535)))
unfolding validate_for
validate_for-dialable d n h t =
    network_errors-none (normalize n) (errors_of-none _ (normalize n) h t)
