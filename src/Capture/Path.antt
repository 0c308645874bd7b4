-- ===== src/Capture/Path.antt =====
-- filepath.Join of package path/filepath on Unix, as Put calls it on a capture type, which may hold
-- separators and "..".
use omegacatqt.Text.Match.{split}
use omegacatqt.Text.{Str, str_eq_refl, is_empty, lit, str_eq}
use omegacatqt.Base.{
  some, none, true, false, [], ◌∷◌, suc, refl, arith, ◌≡◌, List, ◌++◌, if◌then◌else◌, Option, Bool,
  ℕ, ◌||◌, length, any, not, ◌-◌, ◌&&◌, ◌==◌, drop, ||-false, reverse, take,
}

-- One element of a path after those of a stack, which has the innermost first.
unfoldable pub step_path : Str → List Str → List Str
step_path e [] = if is_empty e || str_eq e (lit ".") || str_eq e (lit "..") then [] else e ∷ []
step_path e (top ∷ rest) =
    if is_empty e || str_eq e (lit ".")
    then top ∷ rest
    else if str_eq e (lit "..")
    then rest
    else e ∷ top ∷ rest

unfoldable pub clean_path : List Str → List Str → List Str
unfolding step_path
clean_path stack [] = stack
clean_path stack (e ∷ es) = clean_path (step_path e stack) es

unfoldable pub is_same_path : List Str → List Str → Bool
is_same_path [] [] = true
is_same_path [] (f ∷ fs) = false
is_same_path (e ∷ es) [] = false
is_same_path (e ∷ es) (f ∷ fs) = str_eq e f && is_same_path es fs

unfoldable pub join_path : List Str → Str
join_path [] = []
join_path (e ∷ []) = e
join_path (e ∷ f ∷ es) = e ++ b'/' ∷ join_path (f ∷ es)

abbrev split_first : List Str → Option (Str × Str)
split_first [] = none
split_first (k ∷ es) = some (k, join_path es)

-- The device directory that a path lies in, and the path from there.
unfoldable pub locate : List Str → List Str → Option (Str × Str)
unfolding is_same_path join_path
locate devices stack =
    let n = length stack - length devices in
    if is_same_path (drop n stack) devices then split_first (reverse (take n stack)) else none

-- Where filepath.Join(root, "devices", slug, typ) is; none if it is outside root/devices.
unfoldable pub type_path : List Str → Str → Str → Option (Str × Str)
unfolding clean_path locate
type_path root slug typ =
    let devices = lit "devices" ∷ root in
    locate devices (clean_path (slug ∷ devices) (split b'/' typ))

-- A name without separators that is not "." or "..".
unfoldable pub is_plain : Str → Bool
is_plain e =
    not (is_empty e)
    && not (str_eq e (lit "."))
    && not (str_eq e (lit ".."))
    && not (any (λ c. c == b'/') e)

is_same_path_refl : (es : List Str) → is_same_path es es ≡ true
unfolding is_same_path
is_same_path_refl [] = refl
is_same_path_refl (e ∷ es) = ground (arith, str_eq_refl e, is_same_path_refl es)

split-plain : (c : ℕ) (s : Str) → any (λ d. d == c) s ≡ false → split c s ≡ s ∷ []
unfolding split
split-plain c [] h = refl
split-plain c (d ∷ s) h =
    let (a, b) = ||-false (d == c) (any (λ e. e == c) s) h in rw (a, split-plain c s b) refl

-- A plain capture type is a directory of the device.
pub type_path-plain :
    (root : List Str) (slug typ : Str)
    → is_plain typ ≡ true
    → type_path root slug typ ≡ some (slug, typ)
unfolding type_path is_plain clean_path step_path locate join_path
type_path-plain root slug typ h =
    let one : split b'/' typ ≡ typ ∷ [] = split-plain b'/' typ (ground arith) in
    let e : is_empty typ ≡ false = ground arith in
    let d : str_eq typ (lit ".") ≡ false = ground arith in
    let u : str_eq typ (lit "..") ≡ false = ground arith in
    let n : suc (suc (suc (length root))) - suc (length root) ≡ 2 = omega arith in
    let same = is_same_path_refl (lit "devices" ∷ root) in
    rw (one, type_path) (rw (e, d, u) (rw (n) (rw same refl)))
