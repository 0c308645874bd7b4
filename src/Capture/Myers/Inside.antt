-- ===== src/Capture/Myers/Inside.antt =====
-- The first point of the search that is past the end of both lists is the end of both.
use omegacatqt.Capture.Myers.Ends.{far-lowest, snake-le, far-highest, far-down, le-snake, far-right}
use omegacatqt.Capture.Myers.Frontier.{far, advance}
use omegacatqt.Capture.Myers.{depart, snake}
use omegacatqt.Base.{
  inl, inr, zero, suc, refl, arith, ◌≡◌, List, ℕ, ◌≤◌, length, ◌<◌, ◌+◌, ◌⊎◌, ◌*◌, Bool-cases, ◌-◌,
  ◌==◌, ltb,
}

module _ (ia ib : List ℕ) where
  -- Past the end of a list there are no diagonal moves.
  stays :
      (x y : ℕ)
      → (length ia < snake ia ib x y) ⊎ (length ib + x < snake ia ib x y + y)
      → (snake ia ib x y ≡ x)
  stays x y (inl h) = omega (arith, (snake-le ia ib x y).0, le-snake ia ib x y)
  stays x y (inr h) = omega (arith, (snake-le ia ib x y).1, le-snake ia ib x y)

  -- The last step was to the right, or it was down and not from above the highest diagonal.
  depart-cases :
      (d i below above : ℕ)
      → i ≤ d
      → ((depart (suc d) (suc i) below above ≡ below + 1)
          ⊎ ((depart (suc d) (suc i) below above ≡ above) × (suc i ≤ d)))
  unfolding depart
  depart-cases d i below above h = elim (Bool-cases (suc i == suc d)) [
    | inl a ↦ inl (ground (arith, a))
    | inr a ↦ elim (Bool-cases (ltb below above)) [
      | inl b ↦ inr (ground (arith, a, b), ground (arith, a, h))
      | inr b ↦ inl (ground (arith, a, b))
    ]
  ]

  last_step :
      (d i : ℕ)
      → i ≤ d
      → ((length ia < far ia ib (suc d) (suc i))
          ⊎ (length ib + 2 * suc i < far ia ib (suc d) (suc i) + suc d))
      → ((far ia ib (suc d) (suc i) ≡ far ia ib d i + 1)
          ⊎ ((far ia ib (suc d) (suc i) ≡ far ia ib d (suc i)) × (suc i ≤ d)))
  unfolding far advance
  last_step d i h b =
      let x = depart (suc d) (suc i) (far ia ib d i) (far ia ib d (suc i)) in
      let y = x + suc d - 2 * suc i in
      let out : (length ia < snake ia ib x y) ⊎ (length ib + x < snake ia ib x y + y) = elim b [
        | inl k ↦ inl k
        | inr k ↦ inr (omega (arith, k))
      ] in
      rw (stays x y out) (depart-cases d i (far ia ib d i) (far ia ib d (suc i)) h)

  -- A point right of the first list has one a step to its left, a round before.
  far-beyond :
      (d i : ℕ)
      → i ≤ d
      → length ia < far ia ib (suc d) (suc i)
      → (far ia ib (suc d) (suc i) ≤ far ia ib d i + 1)
  far-beyond zero i h b = elim (last_step zero i h (inl b)) [
    | inl a ↦ omega (arith, a)
    | inr (a, p) ↦ absurd (omega (arith, p))
  ]
  far-beyond (suc d) i h b = elim (last_step (suc d) i h (inl b)) [
    | inl a ↦ omega (arith, a)
    | inr (a, p) ↦
        let ih : far ia ib (suc d) (suc i) ≤ far ia ib d i + 1 =
          far-beyond d i (omega (arith, p)) (omega (arith, a, b)) in
        omega (arith, a, ih, far-down ia ib d i (omega (arith, p)))
  ]

  -- A point below the second list has one a step above it, a round before.
  far-beneath :
      (d i : ℕ)
      → i ≤ d
      → length ib + 2 * i < far ia ib (suc d) i + suc d
      → (far ia ib (suc d) i ≤ far ia ib d i)
  far-beneath d zero h b =
      unfold far in
      unfold advance in
      (let x = far ia ib d 0 in
        let e : snake ia ib x (x + suc d - 2 * 0) ≡ x =
          stays x _ (inr (unfold far in unfold advance in omega (arith, b))) in
        omega (arith, e))
  far-beneath zero (suc i) h b = absurd (omega arith)
  far-beneath (suc d) (suc i) h b = elim (last_step (suc d) i (omega arith) (inr b)) [
    | inr (a, p) ↦ omega (arith, a)
    | inl a ↦
        let ih : far ia ib (suc d) i ≤ far ia ib d i =
          far-beneath d i (omega arith) (omega (arith, a, b)) in
        omega (arith, a, ih, far-right ia ib d i (omega arith))
  ]

  abbrev pub IsDone : ℕ → ℕ → Type 0
  IsDone d i = (length ia ≤ far ia ib d i) × (length ib + 2 * i ≤ far ia ib d i + d)

  inside_at :
      (d i : ℕ)
      → i ≤ suc d
      → IsDone (suc d) i
      → ((i' : ℕ) → i' ≤ d → ¬ IsDone d i')
      → (far ia ib (suc d) i ≤ length ia)
  inside_at d zero h e first = far-lowest ia ib (suc d)
  inside_at d (suc i) h e first = elim (Bool-cases (ltb (length ia) (far ia ib (suc d) (suc i)))) [
    | inr a ↦ ground (arith, a)
    | inl a ↦
        let back : far ia ib (suc d) (suc i) ≤ far ia ib d i + 1 =
          far-beyond d i (omega arith) (ground (arith, a)) in
        let past : length ia < far ia ib (suc d) (suc i) = ground (arith, a) in
        absurd (first i (omega arith) (omega (arith, back, past), omega (arith, back, e.1)))
  ]

  top_at : (d i : ℕ) → i ≡ suc d → far ia ib (suc d) i ≤ suc d + length ib
  top_at d i e = rw e (far-highest ia ib (suc d))

  above_at :
      (d i : ℕ)
      → i ≤ suc d
      → IsDone (suc d) i
      → ((i' : ℕ) → i' ≤ d → ¬ IsDone d i')
      → (far ia ib (suc d) i + suc d ≤ length ib + 2 * i)
  above_at d i h e first =
      elim (Bool-cases (ltb (length ib + 2 * i) (far ia ib (suc d) i + suc d))) [
        | inr a ↦ ground (arith, a)
        | inl a ↦
            let past : length ib + 2 * i < far ia ib (suc d) i + suc d = ground (arith, a) in
            elim (Bool-cases (i == suc d)) [
              | inl t ↦
                  let top : i ≡ suc d = ground (arith, t) in
                  absurd (omega (arith, past, top, top_at d i top))
              | inr t ↦
                  let low : i ≤ d = ground (arith, t, h) in
                  let back : far ia ib (suc d) i ≤ far ia ib d i = far-beneath d i low past in
                  absurd (first i low (omega (arith, back, e.0), omega (arith, back, past)))
            ]
      ]

  -- If no point of the rounds before was past both ends, a point that is has reached them exactly.
  pub far-exact :
      (d i : ℕ)
      → i ≤ d
      → IsDone d i
      → ((d' i' : ℕ) → suc d' ≡ d → i' ≤ d' → ¬ IsDone d' i')
      → ((far ia ib d i ≡ length ia) × (length ib + 2 * i ≡ length ia + d))
  far-exact zero i h e first =
      unfold far in
      (let s = snake-le ia ib 0 0 in
        (omega (arith, (snake-le ia ib 0 0).0, e.0), omega (arith, s.0, s.1, e.0, e.1)))
  far-exact (suc d) i h e first =
      (omega (arith, inside, e.0), omega (arith, inside, above, e.0, e.1))
    where
      inside : far ia ib (suc d) i ≤ length ia
      inside = inside_at d i h e (λ i' p. first d i' refl p)

      above : far ia ib (suc d) i + suc d ≤ length ib + 2 * i
      above = above_at d i h e (λ i' p. first d i' refl p)
