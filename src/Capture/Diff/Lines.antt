-- ===== src/Capture/Diff/Lines.antt =====
-- Lines by their number, in parts of a list and in its reverse, and the loops over common lines.
use mathlib.Core.List.{reverse_aux}
use omegacatqt.Capture.Myers.{line_of}
use omegacatqt.Text.{Str, str_eq, str_eq→eq}
use omegacatqt.Capture.Diff.{common_lines}
use omegacatqt.Base.{
  inl, inr, [], ◌∷◌, zero, suc, refl, arith, ◌≡◌, List, ℕ, ◌≤◌, ◌<◌, length, reverse, take, drop,
  Bool-cases, ◌+◌, ◌-◌, ◌==◌,
}

line_of-reverse_aux :
    (xs r : List Str) (k : ℕ) → line_of (reverse_aux xs r) (length xs + k) ≡ line_of r k
line_of-reverse_aux [] r k = let e : 0 + k ≡ k = omega arith in rw e refl
line_of-reverse_aux (x ∷ xs) r k =
    let e : suc (length xs) + k ≡ length xs + suc k = omega arith in
    rw e (line_of-reverse_aux xs (x ∷ r) (suc k))

line_of_back :
    (xs r : List Str) (t : ℕ)
    → t < length xs
    → (line_of (reverse_aux xs r) t ≡ line_of xs (length xs - 1 - t))
line_of_back [] r t h = absurd (omega arith)
line_of_back (x ∷ xs) r t h = elim (Bool-cases (t == length xs)) [
  | inl a ↦
      let e : t ≡ length xs + 0 = ground (arith, a) in
      let f : suc (length xs) - 1 - (length xs + 0) ≡ 0 = omega arith in
      rw (e, f) (line_of-reverse_aux xs (x ∷ r) 0)
  | inr a ↦
      let p : t < length xs = ground (arith, a, h) in
      let f : suc (length xs) - 1 - t ≡ suc (length xs - 1 - t) = omega (arith, p) in
      rw f (line_of_back xs (x ∷ r) t p)
]

pub line_of-reverse :
    (xs : List Str) (t : ℕ)
    → t < length xs
    → line_of (reverse xs) t ≡ line_of xs (length xs - 1 - t)
line_of-reverse xs t h = line_of_back xs [] t h

length-reverse_aux : (xs r : List Str) → length (reverse_aux xs r) ≡ length xs + length r
length-reverse_aux [] r = omega arith
length-reverse_aux (x ∷ xs) r = omega (arith, length-reverse_aux xs (x ∷ r))

pub length-reverse : (xs : List Str) → length (reverse xs) ≡ length xs
length-reverse xs = omega (arith, length-reverse_aux xs [])

pub line_of-drop : (n : ℕ) (xs : List Str) (t : ℕ) → line_of (drop n xs) t ≡ line_of xs (n + t)
line_of-drop zero xs t = let e : 0 + t ≡ t = omega arith in rw e refl
line_of-drop (suc n) [] t = refl
line_of-drop (suc n) (x ∷ xs) t =
    let e : suc n + t ≡ suc (n + t) = omega arith in rw e (line_of-drop n xs t)

pub line_of-take : (n : ℕ) (xs : List Str) (t : ℕ) → t < n → line_of (take n xs) t ≡ line_of xs t
line_of-take zero xs t h = absurd (omega arith)
line_of-take (suc n) [] t h = refl
line_of-take (suc n) (x ∷ xs) zero h = refl
line_of-take (suc n) (x ∷ xs) (suc t) h = line_of-take n xs t (omega arith)

pub common_lines-le :
    (xs ys : List Str) → (common_lines xs ys ≤ length xs) × (common_lines xs ys ≤ length ys)
unfolding common_lines
common_lines-le [] ys = (omega arith, omega arith)
common_lines-le (x ∷ xs) [] = (omega arith, omega arith)
common_lines-le (x ∷ xs) (y ∷ ys) = ground (arith, common_lines-le xs ys)

pub common_lines-matches :
    (xs ys : List Str) (t : ℕ) → t < common_lines xs ys → line_of xs t ≡ line_of ys t
unfolding common_lines
common_lines-matches [] ys t h = absurd (omega arith)
common_lines-matches (x ∷ xs) [] t h = absurd (omega arith)
common_lines-matches (x ∷ xs) (y ∷ ys) zero h = elim (Bool-cases (str_eq x y)) [
  | inl a ↦ str_eq→eq x y a
  | inr a ↦ absurd (ground (arith, h, a))
]
common_lines-matches (x ∷ xs) (y ∷ ys) (suc t) h = elim (Bool-cases (str_eq x y)) [
  | inl a ↦ common_lines-matches xs ys t (ground (arith, h, a))
  | inr a ↦ absurd (ground (arith, h, a))
]
