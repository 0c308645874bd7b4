-- ===== src/Normalize.antt =====
-- internal/normalize: names and addresses of devices. Parsing an address is package net/netip's,
-- and a name of an address is looked up by package net: both are arguments.
pub mod Laws
pub mod Prompt
pub mod Names
mod Tests
use omegacatqt.Text.Match.{split}
use omegacatqt.Text.Match.{index_byte, trim_prefix, trim_suffix, has_suffix, contains}
use omegacatqt.Text.Trim.{trim_right, trim_space, trim}
use omegacatqt.Text.{Str, lit, is_empty, to_lower, str_eq, has}
use omegacatqt.Base.{
  inl, inr, some, none, true, false, [], ◌∷◌, zero, suc, refl, arith, ◌≡◌, List, ℕ, Option,
  if◌then◌else◌, ◌==◌, map, any, Bool, ◌||◌, ◌&&◌, leb, not, ltb, take, filter, length, ◌++◌,
}

-- netip.ParseAddr, netip.ParseAddrPort without its port, and Prefix.Contains for 100.64.0.0/10.
pub record Ip (A : Type 0) : Type 0 where
  pub parse_addr : Str → Option A
  pub parse_addr_port : Str → Option A
  pub in_cgnat : A → Bool

abbrev pub is_period : ℕ → Bool
is_period c = c == b'.'

unfoldable pub identifier : Str → Str
identifier id = trim_right is_period (to_lower id)

unfoldable pub is_hex : ℕ → Bool
is_hex c = (leb b'0' c && leb c b'9') || (leb b'A' c && leb c b'F') || (leb b'a' c && leb c b'f')

-- Pairs of hexadecimal digits, n more after the first, with a colon or a hyphen between.
unfoldable pub hex_pairs : ℕ → Str → Bool
hex_pairs zero (c ∷ d ∷ []) = is_hex c && is_hex d
hex_pairs (suc n) (c ∷ d ∷ e ∷ s) =
    is_hex c && is_hex d && (e == b':' || e == b'-') && hex_pairs n s
hex_pairs n s = false

unfoldable pub hex_quads : ℕ → Str → Bool
hex_quads zero (c ∷ d ∷ e ∷ f ∷ []) = is_hex c && is_hex d && is_hex e && is_hex f
hex_quads (suc n) (c ∷ d ∷ e ∷ f ∷ g ∷ s) =
    is_hex c && is_hex d && is_hex e && is_hex f && g == b'.' && hex_quads n s
hex_quads n s = false

-- IsMACAddress
unfoldable pub is_mac_address : Str → Bool
unfolding is_hex hex_pairs hex_quads
is_mac_address v = hex_pairs 5 (trim_space v) || hex_quads 2 (trim_space v)

abbrev pub artifact_names : List Str
artifact_names = lit "detail" ∷ lit "^" ∷ lit "%" ∷ lit "sho" ∷ [] ∷ []

-- IsArtifactName
unfoldable pub is_artifact_name : Str → Bool
is_artifact_name v =
    let w = to_lower (trim (λ c. c == 39 || c == b'"') (trim_space v)) in
    has artifact_names w || ltb (length w) 2

-- The patterns of ShouldExclude, split at commas.
unfoldable pub expand : List Str → List Str
expand [] = []
expand (p ∷ ps) =
    map to_lower (filter (λ s. not (is_empty s)) (map trim_space (split b',' p))) ++ expand ps

unfoldable pub find_match : List Str → List Str → Option Str
find_match fields [] = none
find_match fields (p ∷ ps) =
    let rest = find_match fields ps in
    if any (λ f. not (is_empty f) && contains (to_lower f) p) fields then some p else rest

-- ShouldExclude, with the pattern that matched
unfoldable pub should_exclude : List Str → List Str → Option Str
unfolding expand find_match
should_exclude fields patterns = find_match fields (expand patterns)

unfoldable pub suffix_of : Str → Str
suffix_of s = identifier (trim_prefix (trim_space s) (b'.' ∷ []))

-- StripSuffixes, on the identifier
unfoldable pub strip_one : Str → List Str → Str
unfolding suffix_of
strip_one n [] = n
strip_one n (s ∷ ss) =
    let rest = strip_one n ss in
    if is_empty (suffix_of s)
    then rest
    else if has_suffix n (b'.' ∷ suffix_of s)
    then trim_suffix n (b'.' ∷ suffix_of s)
    else rest

unfoldable pub strip_suffixes : Str → List Str → Str
unfolding strip_one
strip_suffixes name suffixes = strip_one (identifier name) suffixes

abbrev pub is_some {ℓ} : {A : Type ℓ} → Option A → Bool
is_some none = false
is_some (some a) = true

unfoldable pub is_label_prefix : List Str → List Str → Bool
is_label_prefix [] ms = true
is_label_prefix (l ∷ ls) [] = false
is_label_prefix (l ∷ ls) (m ∷ ms) = str_eq l m && is_label_prefix ls ms

module _ {A : Type 0} (ip : Ip A) where
  -- AddrOf
  unfoldable pub addr_of : Str → Option A
  addr_of id = elim (ip.parse_addr id) [ some a ↦ some a | none ↦ ip.parse_addr_port id ]

  unfoldable pub first_label : Str → Str
  first_label id = elim (index_byte id b'.') [
    | none ↦ id
    | some i ↦ if ltb 0 i then take i id else id
  ]

  -- ShortName
  unfoldable pub short_name : Str → Str
  unfolding first_label
  short_name name = let id = identifier name in if is_some (addr_of id) then id else first_label id

  -- SameDevice
  unfoldable pub same_device : Str → Str → Bool
  same_device left right =
      let a = identifier left in
      let b = identifier right in
      let la = split b'.' a in
      let lb = split b'.' b in
      if is_empty a || is_empty b
      then false
      else if str_eq a b
      then true
      else if is_some (ip.parse_addr a) || is_some (ip.parse_addr b)
      then false
      else if ltb (length lb) (length la)
      then is_label_prefix lb la
      else is_label_prefix la lb

pub record NameResult : Type 0 where
  pub name : Str
  pub cgnat : Bool
  pub ptr : Str
  pub confirmed : Bool

-- Resolver, where an error is `none`
pub record Resolver : Type 0 where
  pub lookup_addr : Str → Option (List Str)
  pub lookup_host : Str → Option (List Str)

-- The first answer, or the empty text.
unfoldable pub first_answer : Option (List Str) → Str
first_answer none = []
first_answer (some []) = []
first_answer (some (n ∷ ns)) = trim_suffix (trim_space n) (b'.' ∷ [])

unfoldable pub answers : Option (List Str) → Bool
answers none = false
answers (some []) = false
answers (some (n ∷ ns)) = true

module _ {A : Type 0} (ip : Ip A) (r : Resolver) where
  -- IsCGNAT
  unfoldable pub is_cgnat : Str → Bool
  is_cgnat v = elim (ip.parse_addr (trim_space v)) [ none ↦ false | some a ↦ ip.in_cgnat a ]

  -- ResolveWith
  unfoldable pub resolve_with : Str → NameResult
  unfolding first_answer answers is_cgnat
  resolve_with host =
      let h = trim_space host in
      let plain : NameResult = record { name = h; cgnat = false; ptr = []; confirmed = false } in
      let ptr = first_answer (r.lookup_addr h) in
      if not (is_cgnat host)
      then plain
      else if is_empty ptr
      then record plain { cgnat = true }
      else if not (answers (r.lookup_host ptr))
      then record plain { cgnat = true; ptr = ptr }
      else record { name = ptr; cgnat = true; ptr = ptr; confirmed = true }

  -- CanonicalWith
  unfoldable pub canonical_with : Str → List Str → Str
  unfolding resolve_with
  canonical_with host suffixes =
      if is_empty (trim_space host) then [] else strip_suffixes (resolve_with host).name suffixes
