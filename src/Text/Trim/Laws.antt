-- ===== src/Text/Trim/Laws.antt =====
-- strings.Trim: what is left has no byte of the cutset at either end, and nothing else is lost.
use omegacatqt.Base.{
  true, false, [], ◌∷◌, refl, arith, ◌≡◌, ℕ, Bool, length, if◌then◌else◌, all, ◌≤◌,
}
use omegacatqt.Text.{Str, is_empty}
use omegacatqt.Text.Trim.{trim_left, trim_right, trim, trim_space, is_space}

abbrev pub head_is : (ℕ → Bool) → Str → Bool
head_is p [] = false
head_is p (c ∷ s) = p c

abbrev pub last_is : (ℕ → Bool) → Str → Bool
last_is p [] = false
last_is p (c ∷ s) = if is_empty s then p c else last_is p s

module _ (p : ℕ → Bool) where
  head-trim_left : (s : Str) → head_is p (trim_left p s) ≡ false
  unfolding trim_left
  head-trim_left [] = refl
  head-trim_left (c ∷ s) = ground (arith, head-trim_left s)

  last-trim_right : (s : Str) → last_is p (trim_right p s) ≡ false
  unfolding trim_right is_empty
  last-trim_right [] = refl
  last-trim_right (c ∷ s) = ground (arith, last-trim_right s)

  head-trim_right : (s : Str) → head_is p s ≡ false → head_is p (trim_right p s) ≡ false
  unfolding trim_right is_empty
  head-trim_right [] h = refl
  head-trim_right (c ∷ s) h = ground arith

  empty-trim_right : (s : Str) → head_is p s ≡ false → is_empty (trim_right p s) ≡ is_empty s
  unfolding trim_right is_empty
  empty-trim_right [] h = refl
  empty-trim_right (c ∷ s) h = ground arith

  trim_left_id : (s : Str) → head_is p s ≡ false → trim_left p s ≡ s
  unfolding trim_left
  trim_left_id [] h = refl
  trim_left_id (c ∷ s) h = ground arith

  trim_right_id : (s : Str) → last_is p s ≡ false → trim_right p s ≡ s
  unfolding trim_right is_empty
  trim_right_id [] h = refl
  trim_right_id (c ∷ s) h = ground (arith, trim_right_id s)

  length-trim_left : (s : Str) → length (trim_left p s) ≤ length s
  unfolding trim_left
  length-trim_left [] = omega arith
  length-trim_left (c ∷ s) = ground (arith, length-trim_left s)

  length-trim_right : (s : Str) → length (trim_right p s) ≤ length s
  unfolding trim_right
  length-trim_right [] = omega arith
  length-trim_right (c ∷ s) = ground (arith, length-trim_right s)

  all-trim_left : (q : ℕ → Bool) (s : Str) → all q s ≡ true → all q (trim_left p s) ≡ true
  unfolding trim_left
  all-trim_left q [] h = refl
  all-trim_left q (c ∷ s) h = ground (arith, all-trim_left q s)

  all-trim_right : (q : ℕ → Bool) (s : Str) → all q s ≡ true → all q (trim_right p s) ≡ true
  unfolding trim_right
  all-trim_right q [] h = refl
  all-trim_right q (c ∷ s) h = ground (arith, all-trim_right q s)

module _ (p : ℕ → Bool) (s : Str) where
  pub head-trim : head_is p (trim p s) ≡ false
  unfolding trim
  head-trim = head-trim_right p (trim_left p s) (head-trim_left p s)

  pub last-trim : last_is p (trim p s) ≡ false
  unfolding trim
  last-trim = last-trim_right p (trim_left p s)

  pub length-trim : length (trim p s) ≤ length s
  unfolding trim
  length-trim = omega (arith, length-trim_right p (trim_left p s), length-trim_left p s)

  pub all-trim : (q : ℕ → Bool) → all q s ≡ true → all q (trim p s) ≡ true
  unfolding trim
  all-trim q h = all-trim_right p q (trim_left p s) (all-trim_left p q s h)

  pub empty-trim : head_is p s ≡ false → is_empty (trim p s) ≡ is_empty s
  unfolding trim
  empty-trim h = rw (trim_left_id p s h) (empty-trim_right p s h)

  pub trim_id : head_is p s ≡ false → last_is p s ≡ false → trim p s ≡ s
  unfolding trim
  trim_id h k = rw (trim_left_id p s h) (trim_right_id p s k)

pub trim_space-trim_space : (s : Str) → trim_space (trim_space s) ≡ trim_space s
unfolding trim_space
trim_space-trim_space s =
    trim_id is_space (trim is_space s) (head-trim is_space s) (last-trim is_space s)
