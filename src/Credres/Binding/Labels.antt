-- ===== src/Credres/Binding/Labels.antt =====
-- A record's label does not depend on the order in which its names are tried.
use omegacatqt.Credres.Binding.{best_label}
use mathlib.Core.List.{Permᴰ}
use omegacatqt.Text.Order.{str_le_trans, str_le_antisym, str_le_total}
use omegacatqt.Text.{Str, is_empty_iff}
use omegacatqt.Credres.Shapes.{better_canonical}
use omegacatqt.Normalize.{Ip}
use omegacatqt.Base.{arith, ◌≡◌, ◌∷◌, refl, List, Bool, ◌∙◌, ap, sym}

module _ {A : Type 0} (ip : Ip A) where
  pub better_canonical_comm : (a b : Str) → better_canonical ip a b ≡ better_canonical ip b a
  unfolding better_canonical
  better_canonical_comm a b =
      ground (arith, is_empty_iff a, is_empty_iff b, str_le_antisym a b, str_le_total a b)

  pub better_canonical_assoc :
      (a b c : Str)
      → better_canonical ip (better_canonical ip a b) c
        ≡ better_canonical ip a (better_canonical ip b c)
  unfolding better_canonical
  better_canonical_assoc a b c = ground (
    arith,
    str_le_trans a b c,
    str_le_trans c b a,
    str_le_trans a c b,
    str_le_trans b a c,
    str_le_trans b c a,
    str_le_trans c a b,
    str_le_antisym a b,
    str_le_antisym b c,
    str_le_antisym a c,
    str_le_total a b,
    str_le_total b c,
    str_le_total a c,
  )

  best_label-cons :
      (l : Str) (a b : Str × Bool) (xs : List (Str × Bool))
      → best_label ip l (a ∷ b ∷ xs) ≡ best_label ip l (b ∷ a ∷ xs)
  unfolding best_label
  best_label-cons l (a, s) (b, t) xs =
      ap (λ (z : Str). best_label ip z xs)
        (better_canonical_assoc l a b
          ∙ ap (better_canonical ip l) (better_canonical_comm a b)
          ∙ sym (better_canonical_assoc l b a))

  best_label-later :
      (l : Str) (a : Str × Bool) (xs ys : List (Str × Bool))
      → ((m : Str) → best_label ip m xs ≡ best_label ip m ys)
      → best_label ip l (a ∷ xs) ≡ best_label ip l (a ∷ ys)
  unfolding best_label
  best_label-later l (a, s) xs ys h = h (better_canonical ip l a)

  -- In whatever order Go ranges over a record's aliases, bind gives the record the same label.
  pub best_label_permuted :
      {xs ys : List (Str × Bool)}
      → Permᴰ xs ys
      → (l : Str) → best_label ip l xs ≡ best_label ip l ys
  best_label_permuted Permᴰ.nil l = refl
  best_label_permuted (Permᴰ.cons {a} {b} {l₁ = xs} {l₂ = ys} e d) l =
      best_label-later l a xs ys (best_label_permuted d)
      ∙ ap (λ (z : Str × Bool). best_label ip l (z ∷ ys)) e
  best_label_permuted (Permᴰ.swap {a} {b} {a' = c} {b' = d} {l = xs} e f) l =
      best_label-cons l a b xs
      ∙ ap (λ (z : Str × Bool). best_label ip l (z ∷ a ∷ xs)) f
      ∙ ap (λ (z : Str × Bool). best_label ip l (c ∷ z ∷ xs)) e
  best_label_permuted (Permᴰ.trans d e) l = best_label_permuted d l ∙ best_label_permuted e l
