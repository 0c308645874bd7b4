-- ===== src/Text/Match.antt =====
-- strings.HasPrefix, HasSuffix, TrimPrefix, TrimSuffix, Contains, IndexByte and Split.
use omegacatqt.Base.{
  List, ℕ, suc, ◌-◌, Bool, true, false, ◌&&◌, ◌||◌, [], ◌∷◌, Option, none, some, leb, ◌==◌, length,
  take, drop, if◌then◌else◌, ◌+◌, ◌++◌, &&-true, length-append, drop_append_length,
  take-append-drop, ◌≡◌, arith, ap, sym, ◌∙◌,
}
use omegacatqt.Text.{Str, str_eq, str_eq_refl, str_eq→eq}

unfoldable pub has_prefix : Str → Str → Bool
has_prefix s [] = true
has_prefix [] (d ∷ p) = false
has_prefix (c ∷ s) (d ∷ p) = c == d && has_prefix s p

unfoldable pub has_suffix : Str → Str → Bool
has_suffix s p = leb (length p) (length s) && str_eq (drop (length s - length p) s) p

unfoldable pub trim_prefix : Str → Str → Str
unfolding has_prefix
trim_prefix s p = if has_prefix s p then drop (length p) s else s

unfoldable pub trim_suffix : Str → Str → Str
unfolding has_suffix
trim_suffix s p = if has_suffix s p then take (length s - length p) s else s

unfoldable pub contains : Str → Str → Bool
unfolding has_prefix
contains [] p = has_prefix [] p
contains (c ∷ s) p = has_prefix (c ∷ s) p || contains s p

unfoldable pub index_byte : Str → ℕ → Option ℕ
index_byte [] b = none
index_byte (c ∷ s) b =
    let rest = index_byte s b in
    if c == b then some 0 else elim rest [ none ↦ none | some i ↦ some (suc i) ]

-- strings.Split(s, sep) on one byte
unfoldable pub split : ℕ → Str → List Str
split sep [] = [] ∷ []
split sep (c ∷ s) =
    let parts = split sep s in
    if c == sep
    then [] ∷ parts
    else elim parts [ [] ↦ (c ∷ []) ∷ [] | part ∷ rest ↦ (c ∷ part) ∷ rest ]

pub append-has_suffix : (s p : Str) → has_suffix (s ++ p) p ≡ true
unfolding has_suffix
append-has_suffix s p =
    let n : length (s ++ p) ≡ length s + length p = length-append s p in
    let m : length (s ++ p) - length p ≡ length s = omega arith in
    rw (m, drop_append_length s p, str_eq_refl p) (ground arith)

-- A text with a suffix is the text before it, and the suffix.
pub has_suffix-split : (s p : Str) → has_suffix s p ≡ true → (take (length s - length p) s ++ p ≡ s)
unfolding has_suffix
has_suffix-split s p h =
    let (a, b) = &&-true _ _ h in
    ap (λ (t : Str). take (length s - length p) s ++ t) (sym (str_eq→eq _ _ b))
    ∙ take-append-drop (length s - length p) s
