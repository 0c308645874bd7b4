-- ===== src/Sessions/Validate/Deferred.antt =====
-- What a store that supplies a default credential changes in the checks of a node.
use omegacatqt.Text.{has, is_empty, lit, str_eq, Str}
use omegacatqt.Sessions.Node.{Node, JumpSpec, normalize, is_network, ssh, serial}
use omegacatqt.Sessions.Validate.{
  check, FieldError, Fault, common_errors, network_errors, serial_errors, ssh_errors, auth_errors,
  jump_errors, validate_for, errors_of, required, out_of_range, known_transport, whitespace,
  unknown_value, font_size_field, host_field, jump_port_field, serial_port_field, Field,
  scrollback_field, jump_username_field, port_field, baud_field, username_field, data_bits_field,
  console_baud_field, host_key_policy_field, key_path_field, connect_timeout_field, interval_field,
  parity_field, stop_bits_field,
}
use omegacatqt.Base.{
  inl, inr, true, false, [], ◌∷◌, refl, ◌≡◌, List, Bool, ◌++◌, filter, Bool-cases, not, ◌∙◌,
  if◌then◌else◌, ◌&&◌, ap, ||-true_right, sym, ltb_ℤ, pos,
}

filter-append :
    (p : FieldError → Bool) (es fs : List FieldError)
    → filter p (es ++ fs) ≡ filter p es ++ filter p fs
filter-append p [] fs = refl
filter-append p (e ∷ es) fs = elim (Bool-cases (p e)) [
  | inl a ↦ rw (a, filter-append p es fs) refl
  | inr a ↦ rw (a, filter-append p es fs) refl
]

-- The rules that the store may satisfy.
unfoldable pub is_deferred : FieldError → Bool
is_deferred (key_path_field, fault) = true
is_deferred (username_field, fault) = true
is_deferred (field, fault) = false

kept : List FieldError → List FieldError
unfolding is_deferred
kept = filter (λ e. not (is_deferred e))

kept-append : (es fs : List FieldError) → kept (es ++ fs) ≡ kept es ++ kept fs
unfolding kept
kept-append es fs = filter-append _ es fs

-- A check of a field that is not deferred stays.
kept-check :
    (field : Field) (fault : Fault)
    → is_deferred (field, fault) ≡ false
    → (b : Bool) → (kept (check b field fault) ≡ check b field fault)
unfolding kept check
kept-check field fault h true = rw h refl
kept-check field fault h false = refl

drop-check :
    (b : Bool) (field : Field) (fault : Fault)
    → is_deferred (field, fault) ≡ true
    → (kept (check b field fault) ≡ [])
unfolding kept check
drop-check true field fault h = rw h refl
drop-check false field fault h = refl

check-kept :
    (b c : Bool) (field : Field) (fault : Fault)
    → is_deferred (field, fault) ≡ true
    → (kept (check (b && not c) field fault) ≡ check (b && not true) field fault)
unfolding check
check-kept true c field fault h = drop-check (not c) field fault h
check-kept false c field fault h = unfold kept in refl

both :
    (es fs : List FieldError) {es' fs' : List FieldError}
    → kept es ≡ es'
    → kept fs ≡ fs'
    → (kept (es ++ fs) ≡ es' ++ fs')
both es fs {es'} h k =
    kept-append es fs
    ∙ (ap (λ (x : List FieldError). x ++ kept fs) h ∙ ap (λ (x : List FieldError). es' ++ x) k)

kept-if :
    (b : Bool) (es es' : List FieldError)
    → kept es ≡ es'
    → kept (if b then es else []) ≡ (if b then es' else [])
kept-if true es es' h = h
kept-if false es es' h = unfold kept in refl

network-kept : (n : Node) → kept (network_errors n) ≡ network_errors n
unfolding network_errors is_deferred
network-kept n = simp (
  kept-append,
  kept-check host_field required refl,
  kept-check host_field whitespace refl,
  kept-check port_field out_of_range refl,
)

serial-kept : (n : Node) → kept (serial_errors n) ≡ serial_errors n
unfolding serial_errors is_deferred
serial-kept n = simp (
  kept-append,
  kept-check serial_port_field required refl,
  kept-check baud_field out_of_range refl,
  kept-check data_bits_field out_of_range refl,
  kept-check parity_field unknown_value refl,
  kept-check stop_bits_field unknown_value refl,
)

common-kept : (n : Node) → kept (common_errors n) ≡ common_errors n
unfolding common_errors is_deferred
common-kept n = simp (
  kept-append,
  kept-check font_size_field out_of_range refl,
  kept-check scrollback_field out_of_range refl,
  kept-check console_baud_field out_of_range refl,
  kept-check interval_field out_of_range refl,
)

jump-kept : (j : JumpSpec) → kept (jump_errors j) ≡ jump_errors j
unfolding jump_errors is_deferred
jump-kept j = simp (
  kept-append,
  kept-check jump_port_field out_of_range refl,
  kept-check jump_username_field required refl,
)

auth-kept : (c : Bool) (n : Node) → kept (auth_errors c n) ≡ auth_errors true n
unfolding auth_errors is_deferred
auth-kept c n = elim (Bool-cases (has (lit "agent" ∷ lit "password" ∷ []) n.auth_type)) [
  | inl a ↦ rw a (unfold kept in refl)
  | inr a ↦ elim (Bool-cases (str_eq n.auth_type (lit "publickey"))) [
    | inl b ↦ rw (a, b) (check-kept (is_empty n.key_path) c key_path_field required refl)
    | inr b ↦ rw (a, b) (unfold kept in refl)
  ]
]

ssh-kept : (c : Bool) (n : Node) → kept (ssh_errors c n) ≡ ssh_errors true n
unfolding ssh_errors is_deferred
ssh-kept c n =
    let policies : List Str = lit "strict" ∷ lit "tofu" ∷ lit "insecure" ∷ [] in
    both _ _
      (both _ _
        (both _ _
          (both _ _ (auth-kept c n)
            (check-kept (is_empty n.username) c username_field required refl))
          (kept-check host_key_policy_field unknown_value refl
            (not (has policies n.host_key_policy))))
        (kept-check connect_timeout_field out_of_range refl (ltb_ℤ n.connect_timeout_sec (pos 1))))
      (jump-kept n.jump)

errors_of-kept : (c : Bool) (n : Node) → kept (errors_of c n) ≡ errors_of true n
unfolding errors_of
errors_of-kept c n = elim (Bool-cases (known_transport n.transport)) [
  | inl a ↦ rw a (
      both _ _
        (both _ _
          (both _ _ (kept-if (is_network n.transport) _ _ (network-kept n))
            (kept-if (str_eq n.transport ssh) _ _ (ssh-kept c n)))
          (kept-if (str_eq n.transport serial) _ _ (serial-kept n)))
        (common-kept n))
  | inr a ↦ rw a (unfold kept in unfold is_deferred in refl)
]

-- With a default credential a node has exactly the problems that it has without one, less those
-- that its user name or its key file is missing; they come in the same order.
pub validate_for-default :
    (n : Node) → validate_for true n ≡ filter (λ e. not (is_deferred e)) (validate_for false n)
unfolding validate_for
validate_for-default n =
    rw (||-true_right (not (is_empty (normalize n).credential)))
      (sym (unfold kept in errors_of-kept _ (normalize n)))
