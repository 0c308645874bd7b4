-- ===== src/Credres/Shapes.antt =====
-- internal/credres/binding.go: the names that an identity is indexed under, and which of two names
-- is the better label.
-- shape
use omegacatqt.Text.Match.{contains}
use omegacatqt.Text.Trim.{trim_space}
use omegacatqt.Text.{Str, str_eq, is_empty, str_le}
use omegacatqt.Normalize.{
  Ip, identifier, is_some, short_name, addr_of, is_artifact_name, is_mac_address,
}
use omegacatqt.Base.{
  some, none, true, false, [], ◌∷◌, List, if◌then◌else◌, ℕ, Bool, ltb, ◌||◌, not, ◌&&◌,
}

pub record Shape : Type 0 where
  pub name : Str
  pub strong : Bool

-- The rest of a list of shapes after one more: a name seen both strong and weak is strong.
unfoldable pub add_shape : Shape → List Shape → List Shape
add_shape sh [] = sh ∷ []
add_shape sh (t ∷ ts) =
    let rest = add_shape sh ts in
    if str_eq t.name sh.name
    then (if sh.strong then record t { strong = true } else t) ∷ ts
    else t ∷ rest

unfoldable pub add_shapes : List Shape → List Shape → List Shape
unfolding add_shape
add_shapes [] seen = seen
add_shapes (sh ∷ shs) seen = add_shapes shs (add_shape sh seen)

module _ {A : Type 0} (ip : Ip A) where
  -- shapesFor
  unfoldable pub shapes_for : Str → List Shape
  shapes_for id =
      let s = identifier (trim_space id) in
      let short = short_name ip s in
      let derived : Shape = record { name = short; strong = false } in
      let reported : Shape = record { name = s; strong = contains s (b'.' ∷ []) } in
      if is_empty s || is_artifact_name s then [] else elim (addr_of ip s) [
        | some a ↦ if ip.in_cgnat a then [] else (record { name = s; strong = true }) ∷ []
        | none ↦
            if is_mac_address s
            then []
            else if not (is_empty short) && not (str_eq short s)
            then reported ∷ derived ∷ []
            else reported ∷ []
      ]

  -- shapesForAll, after the shapes of earlier identities
  unfoldable pub gather : List Str → List Shape → List Shape
  unfolding shapes_for add_shapes
  gather [] seen = seen
  gather (id ∷ ids) seen = gather ids (add_shapes (shapes_for id) seen)

  unfoldable pub shapes_for_all : List Str → List Shape
  unfolding gather
  shapes_for_all ids = gather ids []

  unfoldable pub label_rank : Str → ℕ
  label_rank s = if is_some (addr_of ip s) then 0 else if contains s (b'.' ∷ []) then 2 else 1

  -- betterCanonical
  unfoldable pub better_canonical : Str → Str → Str
  unfolding label_rank
  better_canonical a b =
      if is_empty a
      then b
      else if is_empty b
      then a
      else if ltb (label_rank a) (label_rank b)
      then b
      else if ltb (label_rank b) (label_rank a)
      then a
      else if str_le a b
      then a
      else b
