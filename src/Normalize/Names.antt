-- ===== src/Normalize/Names.antt =====
-- What HostnameFromPrompt may return, and that its loop ends.
use omegacatqt.Text.Trim.{trim, trim_space}
use omegacatqt.Text.{Str, to_lower, lower_byte, str_eq, str_eq→eq, str_eq_refl, to_lower_idem}
use omegacatqt.Normalize.{Ip, is_period}
use omegacatqt.Normalize.Prompt.{
  hostname_from_line, hostname_of_line, strip_modes, strip_mode, is_hostname, is_host_start,
  is_host_byte, after_at, hostname_from_prompt, cut_tail, is_loopback, last_non_empty_line, closes,
}
use omegacatqt.Base.{
  inl, inr, some, none, true, false, [], ◌∷◌, zero, suc, refl, arith, ◌≡◌, ◌⊎◌, ℕ, Bool, length,
  all, option_intro, ◌≤◌, ◌<◌, Bool-cases, &&-true, ◌==◌, ◌&&◌, ap,
}

lower_byte-is_host_start : (c : ℕ) → is_host_start c ≡ true → is_host_start (lower_byte c) ≡ true
unfolding lower_byte
lower_byte-is_host_start c h = ground arith

lower_byte-is_host_byte : (c : ℕ) → is_host_byte c ≡ true → is_host_byte (lower_byte c) ≡ true
unfolding lower_byte
lower_byte-is_host_byte c h = ground arith

to_lower-all : (s : Str) → all is_host_byte s ≡ true → all is_host_byte (to_lower s) ≡ true
unfolding to_lower
to_lower-all [] h = refl
to_lower-all (c ∷ s) h =
    let (a, b) = &&-true _ _ h in rw (lower_byte-is_host_byte c a) (to_lower-all s b)

to_lower-is_hostname : (s : Str) → is_hostname s ≡ true → is_hostname (to_lower s) ≡ true
unfolding to_lower is_hostname
to_lower-is_hostname [] h = h
to_lower-is_hostname (c ∷ s) h =
    let (a, b) = &&-true _ _ h in rw (lower_byte-is_host_start c a) (to_lower-all s b)

-- Nothing, or a name of the right shape in lower case.
IsName : Str → Type 0
IsName name = (name ≡ []) ⊎ ((is_hostname name ≡ true) × (to_lower name ≡ name))

hostname_of_line-IsName : (line : Str) → IsName (hostname_of_line line)
unfolding IsName hostname_of_line
hostname_of_line-IsName line =
    let bare = strip_modes (length line) line in
    let host : Str = elim (after_at bare) [ none ↦ bare | some t ↦ t ] in
    let name = trim is_period (trim_space host) in
    elim (Bool-cases (is_hostname name)) [
      | inl h ↦ rw h (inr (to_lower-is_hostname name h, to_lower_idem name))
      | inr h ↦ rw h (inl refl)
    ]

hostname_from_line-IsName : (prompt : Str) → IsName (hostname_from_line prompt)
unfolding hostname_from_line
hostname_from_line-IsName prompt =
    option_intro IsName (cut_tail (last_non_empty_line prompt)) [] hostname_of_line
      (unfold IsName in inl refl) hostname_of_line-IsName

module _ {A : Type 0} (ip : Ip A) (is_local : A → Bool) where
  -- HostnameFromPrompt returns the empty text, or a name in lower case that has the shape of a
  -- host name and is not one of the device itself such as localhost.
  pub hostname_from_prompt_lem :
      (prompt : Str)
      → (hostname_from_prompt ip is_local prompt ≡ [])
        ⊎ ((is_hostname (hostname_from_prompt ip is_local prompt) ≡ true)
            × (to_lower (hostname_from_prompt ip is_local prompt)
                ≡ hostname_from_prompt ip is_local prompt)
            × (is_loopback ip is_local (hostname_from_prompt ip is_local prompt) ≡ false))
  unfolding hostname_from_prompt IsName
  hostname_from_prompt_lem prompt =
      let name = hostname_from_line prompt in
      elim (Bool-cases (is_loopback ip is_local name)) [
        | inl h ↦ rw h (inl refl)
        | inr h ↦
            rw h (elim (hostname_from_line-IsName prompt) [
              | inl e ↦ inl e
              | inr (s, l) ↦ inr (s, l, h)
            ])
      ]

-- A round of the loop shortens the line or leaves it as it is.
strip_mode-shorter : (s : Str) → (strip_mode s ≡ s) ⊎ (length (strip_mode s) < length s)
unfolding strip_mode
strip_mode-shorter [] = inl refl
strip_mode-shorter (c ∷ s) = elim (Bool-cases (c == b'(' && closes s)) [
  | inl h ↦ rw h (inr (omega arith))
  | inr h ↦
      rw h (elim (strip_mode-shorter s) [ inl e ↦ inl (ap (◌∷◌ c) e) | inr l ↦ inr (omega arith) ])
]

-- The loop over modes has rounds enough: with as many as the line has bytes, what is left has no
-- mode at its end.
pub strip_modes-strip_mode :
    (fuel : ℕ) (line : Str)
    → length line ≤ fuel
    → strip_mode (strip_modes fuel line) ≡ strip_modes fuel line
unfolding strip_modes
strip_modes-strip_mode zero [] l = unfold strip_mode in refl
strip_modes-strip_mode zero (c ∷ s) l = ground arith
strip_modes-strip_mode (suc fuel) line l = elim (Bool-cases (str_eq (strip_mode line) line)) [
  | inl h ↦ rw h (str_eq→eq (strip_mode line) line h)
  | inr h ↦ rw h (elim (strip_mode-shorter line) [
    | inl e ↦ let r : str_eq (strip_mode line) line ≡ true = rw e (str_eq_refl line) in ground arith
    | inr k ↦ strip_modes-strip_mode fuel (strip_mode line) (omega arith)
  ])
]
