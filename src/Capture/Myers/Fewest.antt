-- ===== src/Capture/Myers/Fewest.antt =====
-- No script reaches the end of both lists in fewer edits than the search.
use omegacatqt.Capture.Myers.Inside.{IsDone}
use omegacatqt.Capture.Myers.Script.{Edits, done, keep, take_out, put_in}
use omegacatqt.Capture.Myers.Ends.{le-far, far-right, far-down}
use omegacatqt.Capture.Myers.{
  snake, depart, keep_line, remove_line, line_of, add_line, DiffLine, common,
}
use omegacatqt.Capture.Myers.Intern.{StandsFor}
use omegacatqt.Capture.Myers.Frontier.{far, advance}
use omegacatqt.Capture.Myers.Shortest.{edits, snake_stops}
use omegacatqt.Text.{Str}
use omegacatqt.Base.{
  inl, inr, zero, suc, refl, arith, ◌≡◌, List, ℕ, ◌≤◌, ◌+◌, ◌*◌, ◌<◌, length, ◌-◌, Bool-cases, ◌==◌,
  drop, get_elem?,
}

module _ (ia ib : List ℕ) where
  le-advance : (d i : ℕ) → i ≤ suc d → i ≤ advance (suc d) i (far ia ib d)
  unfolding advance depart
  le-advance d zero h = omega arith
  le-advance d (suc i) h =
      let low : i ≤ far ia ib d i = le-far ia ib d i (omega arith) in
      elim (Bool-cases (suc i == suc d)) [
        | inl a ↦ ground (arith, low, a)
        | inr a ↦
            let high : suc i ≤ far ia ib d (suc i) = le-far ia ib d (suc i) (ground (arith, a)) in
            ground (arith, low, high, a)
      ]

  -- Every furthest point ends a run of diagonal moves.
  far-snake :
      (d i : ℕ)
      → i ≤ d
      → ((x : ℕ) × (y : ℕ) × (far ia ib d i ≡ snake ia ib x y) × (y + 2 * i ≡ x + d))
  unfolding far
  far-snake zero i h = (0, 0, refl, omega arith)
  far-snake (suc d) i h =
      let x = advance (suc d) i (far ia ib d) in
      (x, x + suc d - 2 * i, refl, omega (arith, le-advance d i h))

module _ (a b : List Str) (ia ib : List ℕ) where
  -- Where a line could still be kept, the search has gone on.
  far-keeps :
      (d i x y : ℕ)
      → StandsFor a b ia ib
      → i ≤ d
      → x ≤ far ia ib d i
      → y + 2 * i ≡ x + d
      → x < length a
      → y < length b
      → line_of a x ≡ line_of b y
      → suc x ≤ far ia ib d i
  unfolding StandsFor
  far-keeps d i x y l h p e la lb same = elim (Bool-cases (x == far ia ib d i)) [
    | inr k ↦ ground (arith, k, p)
    | inl k ↦
        let (x', y', f, g) = far-snake ia ib d i h in
        let c = common (drop x' ia) (drop y' ib) in
        let at : x' + c ≡ x = unfold snake in ground (arith, k, f) in
        let at' : y' + c ≡ y = omega (arith, at, e, g) in
        let ids : get_elem? ia x ≡ get_elem? ib y = (l.2 x y la lb).1 same in
        absurd (
          snake_stops ia ib x' y' c refl (omega (arith, at, l.0, la)) (omega (arith, at', l.1, lb))
            (rw (at, at') ids))
  ]

  pub far-Edits :
      (d i : ℕ) {x y : ℕ} {out : List DiffLine}
      → StandsFor a b ia ib
      → Edits a b x y out
      → i ≤ d
      → x ≤ far ia ib d i
      → y + 2 * i ≡ x + d
      → ((i' : ℕ) × (i' ≤ d + edits out) × IsDone ia ib (d + edits out) i')
  unfolding edits StandsFor keep_line remove_line add_line
  far-Edits d i l (done e f) h p q =
      let z : d + 0 ≡ d = omega arith in
      rw z (i, h, (omega (arith, e, l.0, p), omega (arith, e, f, l.0, l.1, p, q)))
  far-Edits d i {x} {y} l (keep la lb same s) h p q =
      far-Edits d i l s h (far-keeps d i x y (unfold StandsFor in l) h p q la lb same)
        (omega (arith, q))
  far-Edits d i {x} {y} l (take_out {out} la s) h p q =
      let z : d + suc (edits out) ≡ suc d + edits out = omega arith in
      let t : suc (far ia ib d i) ≤ far ia ib (suc d) (suc i) = far-right ia ib d i h in
      rw z
        (far-Edits (suc d) (suc i) l s (omega (arith, h)) (omega (arith, p, t)) (omega (arith, q)))
  far-Edits d i {x} {y} l (put_in {out} lb s) h p q =
      let z : d + suc (edits out) ≡ suc d + edits out = omega arith in
      let t : far ia ib d i ≤ far ia ib (suc d) i = far-down ia ib d i h in
      rw z (far-Edits (suc d) i l s (omega (arith, h)) (omega (arith, p, t)) (omega (arith, q)))
