-- ===== src/Text/Assoc.antt =====
-- A Go map with string keys, as an association list. The program's results do not depend on the
-- order in which it ranges over such a map.
use omegacatqt.Base.{some, none, [], ◌∷◌, refl, arith, ◌≡◌, List, Option, if◌then◌else◌}
use omegacatqt.Text.{Str, str_eq, str_eq_iff}

module _ {ℓ} {V : Type ℓ} where
  unfoldable pub lookup : List (Str × V) → Str → Option V
  lookup [] k = none
  lookup ((j, v) ∷ m) k = let rest = lookup m k in if str_eq j k then some v else rest

  unfoldable pub insert : Str → V → List (Str × V) → List (Str × V)
  insert key v [] = (key, v) ∷ []
  insert key v ((first, w) ∷ table) =
      let later = insert key v table in
      if str_eq first key then (first, v) ∷ table else (first, w) ∷ later

  unfoldable pub remove : Str → List (Str × V) → List (Str × V)
  remove k [] = []
  remove k ((j, w) ∷ m) = let rest = remove k m in if str_eq j k then rest else (j, w) ∷ rest

  pub lookup-insert :
      (key asked : Str) (v : V) (table : List (Str × V))
      → lookup (insert key v table) asked
        ≡ (if str_eq key asked then some v else lookup table asked)
  unfolding lookup insert
  lookup-insert key asked v [] = refl
  lookup-insert key asked v ((first, w) ∷ rest) = ground (
    arith,
    lookup-insert key asked v rest,
    str_eq_iff first asked,
    str_eq_iff first key,
    str_eq_iff key asked,
  )

  pub lookup-remove :
      (k j : Str) (m : List (Str × V))
      → lookup (remove k m) j ≡ (if str_eq k j then none else lookup m j)
  unfolding lookup remove
  lookup-remove k j [] = ground arith
  lookup-remove k j ((i, w) ∷ m) =
      ground (arith, str_eq_iff k j, str_eq_iff i k, str_eq_iff i j, lookup-remove k j m)
