-- ===== src/Normalize/Prompt.antt =====
-- internal/normalize/prompt.go and loopback.go: a device's name from its prompt.
use omegacatqt.Text.Match.{split}
use omegacatqt.Text.Match.{trim_suffix, has_prefix, has_suffix}
use omegacatqt.Text.Trim.{trim, trim_space}
use omegacatqt.Normalize.{Ip, is_period}
use omegacatqt.Text.{Str, is_empty, to_lower, str_eq, lit}
use omegacatqt.Base.{
  some, none, true, false, [], ◌∷◌, zero, suc, ℕ, List, if◌then◌else◌, length, Bool, Option, ◌&&◌,
  leb, ◌||◌, ◌==◌, all,
}

-- \s of package regexp
abbrev pub is_re_space : ℕ → Bool
is_re_space c = c == 9 || c == 10 || c == 12 || c == 13 || c == 32

-- promptTail, and the line before its first match
unfoldable pub cut_tail : Str → Option Str
cut_tail [] = none
cut_tail (c ∷ s) =
    let rest = cut_tail s in
    if (c == b'#' || c == b'>' || c == b'$' || c == b'%') && all is_re_space s
    then some []
    else elim rest [ none ↦ none | some t ↦ some (c ∷ t) ]

-- [^)]*\)\s*$ at the beginning of the text
unfoldable pub closes : Str → Bool
closes [] = false
closes (c ∷ s) = if c == b')' then all is_re_space s else closes s

-- modeSuffix.ReplaceAllString(line, "")
unfoldable pub strip_mode : Str → Str
unfolding closes
strip_mode [] = []
strip_mode (c ∷ s) = let rest = strip_mode s in if c == b'(' && closes s then [] else c ∷ rest

-- The loop over modeSuffix, with at most `fuel` rounds.
unfoldable pub strip_modes : ℕ → Str → Str
unfolding strip_mode
strip_modes zero line = line
strip_modes (suc fuel) line =
    let trimmed = strip_mode line in
    let rest = strip_modes fuel trimmed in if str_eq trimmed line then line else rest

-- The text after the last @.
unfoldable pub after_at : Str → Option Str
after_at [] = none
after_at (c ∷ s) = elim (after_at s) [ some t ↦ some t | none ↦ if c == b'@' then some s else none ]

abbrev pub is_host_start : ℕ → Bool
is_host_start c =
    (leb b'A' c && leb c b'Z') || (leb b'a' c && leb c b'z') || (leb b'0' c && leb c b'9')

abbrev pub is_host_byte : ℕ → Bool
is_host_byte c = is_host_start c || c == b'.' || c == b'_' || c == b'-'

-- hostnameShape
unfoldable pub is_hostname : Str → Bool
is_hostname [] = false
is_hostname (c ∷ s) = is_host_start c && all is_host_byte s

-- strings.ReplaceAll(s, "\r\n", "\n")
unfoldable pub plain_lines : Str → Str
plain_lines [] = []
plain_lines (c ∷ []) = c ∷ []
plain_lines (c ∷ d ∷ s) =
    let rest = plain_lines (d ∷ s) in if c == 13 && d == 10 then rest else c ∷ rest

-- The last of the lines that is not blank, trimmed.
unfoldable pub last_non_empty : List Str → Str
last_non_empty [] = []
last_non_empty (l ∷ ls) =
    let rest = last_non_empty ls in if is_empty rest then trim_space l else rest

-- lastNonEmptyLine
unfoldable pub last_non_empty_line : Str → Str
unfolding plain_lines last_non_empty
last_non_empty_line s = last_non_empty (split 10 (plain_lines s))

-- hostnameFromPrompt, from the line before the prompt character on
unfoldable pub hostname_of_line : Str → Str
unfolding strip_modes after_at is_hostname
hostname_of_line line =
    let bare = strip_modes (length line) line in
    let host : Str = elim (after_at bare) [ none ↦ bare | some t ↦ t ] in
    let name = trim is_period (trim_space host) in if is_hostname name then to_lower name else []

-- hostnameFromPrompt
unfoldable pub hostname_from_line : Str → Str
unfolding cut_tail last_non_empty_line hostname_of_line
hostname_from_line prompt = elim (cut_tail (last_non_empty_line prompt)) [
  | none ↦ []
  | some line ↦ hostname_of_line line
]

abbrev pub is_bracket : ℕ → Bool
is_bracket c = c == b'[' || c == b']'

-- netip: Addr.IsLoopback or Addr.IsUnspecified
module _ {A : Type 0} (ip : Ip A) (is_local : A → Bool) where
  -- IsLoopback
  unfoldable pub is_loopback : Str → Bool
  is_loopback v =
      let s = to_lower (trim_suffix (trim_space v) (b'.' ∷ [])) in
      if is_empty s
      then false
      else if str_eq s (lit "localhost")
          || str_eq s (lit "ip6-localhost")
          || str_eq s (lit "ip6-loopback")
          || has_prefix s (lit "localhost.")
          || has_suffix s (lit ".localhost")
      then true
      else elim (ip.parse_addr (trim is_bracket s)) [ none ↦ false | some a ↦ is_local a ]

  -- HostnameFromPrompt
  unfoldable pub hostname_from_prompt : Str → Str
  unfolding hostname_from_line is_loopback
  hostname_from_prompt prompt =
      let name = hostname_from_line prompt in if is_loopback name then [] else name
