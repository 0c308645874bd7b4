-- ===== src/Capture/Myers/Ends.antt =====
-- The search stays inside both lists where it counts, and reaches the end of both.
use omegacatqt.Capture.Myers.Frontier.{far, advance}
use omegacatqt.Capture.Myers.{common, snake, depart}
use omegacatqt.Base.{
  inl, inr, true, false, [], ◌∷◌, zero, suc, arith, ◌≡◌, List, ℕ, ◌≤◌, ◌*◌, length, ◌+◌, ◌-◌, ◌==◌,
  Bool-cases, drop, length-drop,
}

common-le : (xs ys : List ℕ) → (common xs ys ≤ length xs) × (common xs ys ≤ length ys)
unfolding common
common-le [] ys = (omega arith, omega arith)
common-le (x ∷ xs) [] = (omega arith, omega arith)
common-le (x ∷ xs) (y ∷ ys) = ground (arith, common-le xs ys)

module _ (ia ib : List ℕ) where
  pub le-snake : (x y : ℕ) → x ≤ snake ia ib x y
  unfolding snake
  le-snake x y = omega arith

  pub snake-le :
      (x y : ℕ) → (snake ia ib x y ≤ x + (length ia - x)) × (snake ia ib x y ≤ x + (length ib - y))
  unfolding snake
  snake-le x y =
      let (p, q) = common-le (drop x ia) (drop y ib) in
      (omega (arith, p, length-drop x ia), omega (arith, q, length-drop y ib))

  -- The moves to the right, of which there are i, are all of x at least.
  pub le-far : (d i : ℕ) → i ≤ d → i ≤ far ia ib d i
  unfolding far advance depart
  le-far zero i h = omega (arith, le-snake 0 0)
  le-far (suc d) zero h = omega arith
  le-far (suc d) (suc i) h =
      let x = advance (suc d) (suc i) (far ia ib d) in
      let s : x ≤ snake ia ib x (x + suc d - 2 * suc i) = le-snake x _ in
      let low : i ≤ far ia ib d i = le-far d i (omega arith) in
      elim (Bool-cases (suc i == suc d)) [
        | inl a ↦ ground (arith, s, low, a)
        | inr a ↦
            let high : suc i ≤ far ia ib d (suc i) = le-far d (suc i) (ground (arith, a)) in
            ground (arith, s, low, high, a)
      ]

  -- The second coordinate is not negative.
  pub far-fits : (d i : ℕ) → i ≤ d → 2 * i ≤ far ia ib d i + d
  far-fits d i h = omega (arith, le-far d i h)

  -- A step down, or to the right, is never better than what the next round has.
  pub far-down : (d i : ℕ) → i ≤ d → far ia ib d i ≤ far ia ib (suc d) i
  far-down d zero h = unfold far in unfold advance in le-snake _ _
  far-down d (suc i) h =
      let x = advance (suc d) (suc i) (far ia ib d) in
      let s : x ≤ far ia ib (suc d) (suc i) = unfold far in le-snake x _ in
      unfold advance in unfold depart in ground (arith, s, h)

  pub far-right : (d i : ℕ) → i ≤ d → suc (far ia ib d i) ≤ far ia ib (suc d) (suc i)
  far-right d i h =
      let x = advance (suc d) (suc i) (far ia ib d) in
      let s : x ≤ far ia ib (suc d) (suc i) = unfold far in le-snake x _ in
      unfold advance in unfold depart in ground (arith, s, h)

  -- The lowest diagonal stays inside the first list, and the highest inside the second.
  pub far-lowest : (d : ℕ) → far ia ib d 0 ≤ length ia
  unfolding far advance
  far-lowest zero = omega (arith, (snake-le 0 0).0)
  far-lowest (suc d) =
      let x = far ia ib d 0 in omega (arith, (snake-le x (x + suc d - 2 * 0)).0, far-lowest d)

  pub far-highest : (d : ℕ) → far ia ib d d ≤ d + length ib
  unfolding far advance depart
  far-highest zero = omega (arith, (snake-le 0 0).1)
  far-highest (suc d) =
      let x = far ia ib d d + 1 in
      let e : (suc d == suc d) ≡ true = ground arith in
      let z : (suc d == 0) ≡ false = ground arith in
      rw (e, z) (omega (arith, (snake-le x (x + suc d - 2 * suc d)).1, far-highest d, le-far d d))
