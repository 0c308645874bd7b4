-- ===== src/Normalize/Tests.antt =====
-- Runs and instances of the theorems on names.
use omegacatqt.Text.Match.{split}
use omegacatqt.Normalize.Names.{strip_modes-strip_mode, hostname_from_prompt_lem}
use omegacatqt.Normalize.Prompt.{
  hostname_from_prompt, strip_mode, strip_modes, is_hostname, hostname_from_line, cut_tail,
  is_loopback, last_non_empty_line, plain_lines, last_non_empty, hostname_of_line, closes, after_at,
}
use omegacatqt.Text.Match.{trim_prefix, has_prefix, trim_suffix, has_suffix}
use omegacatqt.Text.Trim.{trim_right, trim_space, trim, trim_left}
use omegacatqt.Normalize.Laws.{strip_suffixes_lem, Misses}
use omegacatqt.Text.{lit, Str, to_lower, lower_byte, is_empty, str_eq}
use omegacatqt.Normalize.{strip_suffixes, Ip, strip_one, identifier, suffix_of}
use omegacatqt.Base.{
  none, true, false, [], ◌∷◌, refl, ◌≡◌, ℕ, ◌⊎◌, ◌++◌, arith, length, ◌≤◌, All, List,
}

abbrev no_addresses : Ip ℕ
no_addresses = record { parse_addr = λ s. none; parse_addr_port = λ s. none; in_cgnat = λ a. false }

site_kept : strip_suffixes (lit "Spine-1.usa.lab.") (lit ".lab" ∷ []) ≡ lit "spine-1.usa"
unfolding strip_suffixes strip_one suffix_of identifier to_lower lower_byte trim_right trim_prefix
    has_prefix trim_suffix has_suffix trim_space trim trim_left is_empty str_eq
site_kept = refl

strip_suffixes_lem_example :
    (All (Misses (identifier (lit "a.lab"))) (lit "lab" ∷ [])
      × (strip_suffixes (lit "a.lab") (lit "lab" ∷ []) ≡ identifier (lit "a.lab")))
    ⊎ ((earlier : List Str) × (s : Str) × (later : List Str) × (lit "lab" ∷ []
          ≡ earlier ++ s ∷ later)
        × All (Misses (identifier (lit "a.lab"))) earlier
        × (is_empty (suffix_of s) ≡ false)
        × (strip_suffixes (lit "a.lab") (lit "lab" ∷ []) ++ (b'.' ∷ suffix_of s)
            ≡ identifier (lit "a.lab")))
strip_suffixes_lem_example = strip_suffixes_lem (lit "a.lab") (lit "lab" ∷ [])

own_name : hostname_from_prompt no_addresses (λ a. false) (lit "x@LAB-r1(config)# ") ≡ lit "lab-r1"
unfolding hostname_from_prompt hostname_from_line cut_tail last_non_empty_line plain_lines
    last_non_empty split trim_space trim trim_left trim_right is_empty hostname_of_line strip_modes
    strip_mode closes str_eq after_at is_hostname to_lower lower_byte is_loopback trim_suffix
    has_suffix has_prefix
own_name = refl

hostname_from_prompt_lem_example :
    (hostname_from_prompt no_addresses (λ a. false) (lit "lab-r1#") ≡ [])
    ⊎ ((is_hostname (hostname_from_prompt no_addresses (λ a. false) (lit "lab-r1#")) ≡ true)
        × (to_lower (hostname_from_prompt no_addresses (λ a. false) (lit "lab-r1#"))
            ≡ hostname_from_prompt no_addresses (λ a. false) (lit "lab-r1#"))
        × (is_loopback no_addresses
              (λ a. false)
              (hostname_from_prompt no_addresses (λ a. false) (lit "lab-r1#"))
            ≡ false))
hostname_from_prompt_lem_example =
    hostname_from_prompt_lem no_addresses (λ a. false) (lit "lab-r1#")

small_enough : length (lit "a(b)(c)") ≤ 7
small_enough = omega arith

strip_modes-strip_mode_example :
    strip_mode (strip_modes 7 (lit "a(b)(c)")) ≡ strip_modes 7 (lit "a(b)(c)")
strip_modes-strip_mode_example = strip_modes-strip_mode 7 (lit "a(b)(c)") small_enough
