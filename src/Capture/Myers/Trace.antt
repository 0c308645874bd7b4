-- ===== src/Capture/Myers/Trace.antt =====
-- What the search returns: the trace of its rounds up to the first that reaches the end of both
-- lists, unless that round is beyond the bound.
use omegacatqt.Capture.Myers.Ends.{le-far, far-fits}
use omegacatqt.Capture.Myers.Inside.{IsDone, far-exact}
use omegacatqt.Capture.Myers.Frontier.{ends, far, Ready, explore-round, HoldsRound}
use omegacatqt.Capture.Myers.{get_or, find_trace, is_end, snapshot, max_diff_edits, explore}
use omegacatqt.Base.{
  inl, inr, some, none, true, false, [], ◌∷◌, zero, suc, refl, arith, ◌≡◌, List, ℕ, ◌≤◌, ◌<◌,
  Option, ◌*◌, Bool-cases, length, ◌+◌, ◌-◌, ◌==◌, ◌∙◌, subst, sym, ltb,
}

module _ (ia ib : List ℕ) where
  get_or-snapshot :
      (c i d k : ℕ) (v : ℕ → ℕ)
      → k < c
      → (get_or (snapshot ia ib c i d v) k 0 ≡ v (length ia + length ib + (i + k) - d))
  unfolding get_or snapshot
  get_or-snapshot zero i d k v h = absurd (omega arith)
  get_or-snapshot (suc c) i d zero v h = let e : i + 0 ≡ i = omega arith in rw e refl
  get_or-snapshot (suc c) i d (suc k) v h =
      let e : i + suc k ≡ suc i + k = omega arith in
      rw e (get_or-snapshot c (suc i) d k v (omega arith))

  -- The trace before round d, newest snapshot first.
  unfoldable pub Traces : ℕ → List (List ℕ) → Type 0
  Traces zero [] = Unit
  Traces zero (s ∷ t) = ⊥
  Traces (suc d) [] = ⊥
  Traces (suc d) (s ∷ t) = ((i : ℕ) → i ≤ d → get_or s (2 * i) 0 ≡ far ia ib d i) × Traces d t

  Traces-snapshot :
      (d : ℕ) (v : ℕ → ℕ) (trace : List (List ℕ))
      → Traces d trace
      → HoldsRound ia ib d v
      → (Traces (suc d) (snapshot ia ib (2 * d + 1) 0 d v ∷ trace))
  unfolding Traces
  Traces-snapshot d v trace t h = (
    λ i p.
        let e : length ia + length ib + (0 + 2 * i) - d ≡ length ia + length ib + 2 * i - d =
          omega arith in
        get_or-snapshot (2 * d + 1) 0 d (2 * i) v (omega (arith, p)) ∙ (rw e (h i p)),
    t,
  )

  -- No point of the rounds before d is past the end of both lists.
  unfoldable pub Undone : ℕ → Type 0
  Undone d = (d' i' : ℕ) → d' < d → i' ≤ d' → ¬ IsDone ia ib d' i'

  ends-true :
      (c i d : ℕ) → c + i ≡ suc d → ends ia ib c i d ≡ true → (j : ℕ) × (j ≤ d) × IsDone ia ib d j
  unfolding ends is_end
  ends-true zero i d e h = absurd (ground arith)
  ends-true (suc c) i d e h =
      elim (Bool-cases (is_end ia ib (far ia ib d i) (far ia ib d i + d - 2 * i))) [
        | inl a ↦
            let fits : 2 * i ≤ far ia ib d i + d = far-fits ia ib d i (omega arith) in
            (i, omega arith, (ground (arith, a), ground (arith, a, fits)))
        | inr a ↦ ends-true c (suc i) d (omega arith) (ground (arith, h, a))
      ]

  ends-false :
      (c i d : ℕ)
      → c + i ≡ suc d
      → ends ia ib c i d ≡ false
      → (j : ℕ) → i ≤ j
      → j ≤ d
      → ¬ IsDone ia ib d j
  unfolding ends is_end
  ends-false zero i d e h j p q = absurd (omega arith)
  ends-false (suc c) i d e h j p q = elim (Bool-cases (i == j)) [
    | inl a ↦ let same : i ≡ j = ground (arith, a) in λ w. ground (arith, h, same, w)
    | inr a ↦ ends-false c (suc i) d (omega arith) (ground (arith, h)) j (ground (arith, a, p)) q
  ]

  IsDone-last : IsDone ia ib (length ia + length ib) (length ia)
  IsDone-last =
      let f : length ia ≤ far ia ib (length ia + length ib) (length ia) =
        le-far ia ib (length ia + length ib) (length ia) (omega arith) in
      (f, omega (arith, f))

  -- Too many edits, or the round that ends on the last point of its diagonal, and its trace.
  unfoldable pub Traced : Option (ℕ × List (List ℕ)) → Type 0
  Traced none = Undone (suc max_diff_edits)
  Traced (some (d, trace)) =
      Traces d trace
      × (d ≤ max_diff_edits)
      × Undone d
      × ((i : ℕ) × (i ≤ d) × (far ia ib d i ≡ length ia) × (length ib + 2 * i ≡ length ia + d))

  Undone-suc : (d : ℕ) → Undone d → ends ia ib (suc d) 0 d ≡ false → Undone (suc d)
  unfolding Undone
  Undone-suc d u h = λ d' i' p q. elim (Bool-cases (d' == d)) [
    | inl a ↦
        let same : d' ≡ d = ground (arith, a) in
        subst (λ (x : ℕ). i' ≤ x → ¬ IsDone ia ib x i') (sym same)
          (λ w. ends-false (suc d) 0 d (omega arith) h i' (omega arith) w) q
    | inr a ↦ u d' i' (ground (arith, a, p)) q
  ]

  pub find_trace-Traced :
      (f d : ℕ) (v : ℕ → ℕ) (trace : List (List ℕ))
      → f + d ≡ suc (length ia + length ib)
      → Ready ia ib d v
      → Traces d trace
      → Undone d
      → Traced (find_trace ia ib f d v trace)
  unfolding find_trace Traced
  find_trace-Traced zero d v trace e r t u = absurd (
      unfold Undone in
      (u (length ia + length ib) (length ia) (omega arith) (omega arith) IsDone-last))
  find_trace-Traced (suc f) d v trace e r t u =
      let round = explore-round ia ib d v (omega arith) r in
      let v' = (explore ia ib (suc d) 0 d v false).0 in
      elim (Bool-cases (ltb max_diff_edits d)) [
        | inl a ↦ rw a (unfold Undone in (λ d' i' p q. u d' i' (ground (arith, a, p)) q))
        | inr a ↦ elim (Bool-cases (ends ia ib (suc d) 0 d)) [
          | inl b ↦
              let (j, p, w) = ends-true (suc d) 0 d (omega arith) b in
              let exact =
                far-exact ia ib d j p w
                  (λ d' i' x y. unfold Undone in (u d' i' (omega (arith, x)) y)) in
              rw (a, round.1, b) (t, ground (arith, a), u, (j, p, exact.0, exact.1))
          | inr b ↦
              rw (a, round.1, b)
                (unfold Traced in
                  (find_trace-Traced f (suc d) v' _ (omega arith) (unfold Ready in round.0)
                    (Traces-snapshot d v' trace t round.0) (Undone-suc d u b)))
        ]
      ]
