-- ===== src/Capture/Slug.antt =====
-- internal/capture/store.go: Slug, the directory name of a device.
pub mod Safe
use omegacatqt.Base.{
  inl, inr, some, none, true, false, [], ◌∷◌, zero, suc, refl, arith, ◌≡◌, if◌then◌else◌, ◌++◌,
  Bool, List, ℕ, Option, ltb, ◌==◌, ◌||◌, leb, not, length, ◌&&◌, take,
}
use omegacatqt.Text.{Str, lit, is_empty, to_lower, has, str_eq}
use omegacatqt.Text.Trim.{trim_space, trim, trim_left, trim_right}

-- The class [a-z0-9._-] of unsafeRune.
unfoldable pub is_safe : ℕ → Bool
is_safe c =
    (leb b'a' c && leb c b'z') || (leb b'0' c && leb c b'9') || c == b'.' || c == b'_' || c == b'-'

-- unsafeRune.ReplaceAllString(s, "-"): a run of other bytes becomes one dash. The flag says that
-- the byte before belongs to such a run.
unfoldable pub dash_runs : Bool → Str → Str
dash_runs inside [] = []
dash_runs inside (c ∷ s) =
    let rest = dash_runs (not (is_safe c)) s in
    if is_safe c then c ∷ rest else if inside then rest else b'-' ∷ rest

-- The cutset "-."
abbrev pub is_edge : ℕ → Bool
is_edge c = c == b'-' || c == b'.'

-- The names that Slug changes, if they are the whole slug.
abbrev pub reserved : List Str
reserved =
    lit "con"
    ∷ lit "prn"
    ∷ lit "aux"
    ∷ lit "nul"
    ∷ lit "com1"
    ∷ lit "com2"
    ∷ lit "com3"
    ∷ lit "com4"
    ∷ lit "lpt1"
    ∷ lit "lpt2"
    ∷ lit "lpt3"
    ∷ []

unfoldable pub shorten : Str → Str
shorten s = if ltb 96 (length s) then trim is_edge (take 96 s) else s

unfoldable pub avoid_reserved : Str → Str
avoid_reserved s = if has reserved s then s ++ lit "-dev" else s

-- none: the name has no usable characters
unfoldable pub slug : Str → Option Str
unfolding dash_runs shorten avoid_reserved
slug canonical =
    let s = trim is_edge (dash_runs false (to_lower (trim_space canonical))) in
    if is_empty s then none else some (avoid_reserved (shorten s))

slug_router : slug (lit " Core-RTR_1 (old).") ≡ some (lit "core-rtr_1-old")
unfolding slug is_safe trim_space to_lower trim_left trim_right trim is_empty has str_eq
slug_router = refl
