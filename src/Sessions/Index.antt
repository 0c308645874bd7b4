-- ===== src/Sessions/Index.antt =====
-- Positions in a list whose elements are found by a name: the loops of FolderIndex and
-- SessionIndex, and the edits at a position, with what they do to a list of different names.
pub mod Clash
use omegacatqt.Text.{Str, str_eq}
use omegacatqt.Base.{
  some, none, [], ◌∷◌, zero, suc, ◌≡◌, ℕ, List, Option, if◌then◌else◌, inl, inr, true, false, refl,
  arith, Bool, not, ◌==◌,
}

module _ {A : Type 0} (name : A → Str) where
  -- The position of the first element of a name.
  unfoldable pub find_index : Str → List A → Option ℕ
  find_index k [] = none
  find_index k (x ∷ xs) =
      let rest = find_index k xs in
      if str_eq (name x) k then some 0 else elim rest [ none ↦ none | some i ↦ some (suc i) ]

  -- No two elements have the same name.
  unfoldable pub NoClash : List A → Type 0
  NoClash [] = Unit
  NoClash (x ∷ xs) = (find_index (name x) xs ≡ none) × NoClash xs

module _ {A : Type 0} where
  unfoldable pub set_at : ℕ → A → List A → List A
  set_at i y [] = []
  set_at zero y (x ∷ xs) = y ∷ xs
  set_at (suc i) y (x ∷ xs) = x ∷ set_at i y xs

  unfoldable pub remove_at : ℕ → List A → List A
  remove_at i [] = []
  remove_at zero (x ∷ xs) = xs
  remove_at (suc i) (x ∷ xs) = x ∷ remove_at i xs

-- `j >= 0 && j != i`
unfoldable pub elsewhere : Option ℕ → ℕ → Bool
elsewhere none i = false
elsewhere (some j) i = not (j == i)

unfoldable pub found : Option ℕ → Bool
found none = false
found (some i) = true
