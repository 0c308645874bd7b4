-- ===== src/Capture/Myers/Frontier.antt =====
-- How far the search gets: `far d i` is the first coordinate that round d reaches on its diagonal
-- number i, by recursion on the round.
use omegacatqt.Capture.Myers.{depart, snake, reach, set, explore, is_end}
use omegacatqt.Base.{
  inl, inr, zero, suc, refl, arith, ◌≡◌, List, ℕ, ◌≤◌, length, ◌+◌, ◌-◌, ◌*◌, Bool-cases, ◌==◌,
  true, false, Bool, ◌<◌, ◌||◌, ◌∙◌,
}

unfoldable pub advance : ℕ → ℕ → (ℕ → ℕ) → ℕ
unfolding depart
advance d zero prev = prev 0
advance d (suc i) prev = depart d (suc i) (prev i) (prev (suc i))

module _ (ia ib : List ℕ) where
  unfoldable pub far : ℕ → ℕ → ℕ
  unfolding advance
  far zero i = snake ia ib 0 0
  far (suc d) i = let x = advance (suc d) i (far d) in snake ia ib x (x + suc d - 2 * i)

  -- `v` holds round d.
  abbrev pub HoldsRound : ℕ → (ℕ → ℕ) → Type 0
  HoldsRound d v = (i : ℕ) → i ≤ d → v (length ia + length ib + 2 * i - d) ≡ far d i

  depart-advance :
      (d i : ℕ) (v : ℕ → ℕ)
      → suc d ≤ length ia + length ib
      → i ≤ suc d
      → HoldsRound d v
      → (depart
            (suc d)
            i
            (v (length ia + length ib + 2 * i - suc d - 1))
            (v (length ia + length ib + 2 * i - suc d + 1))
          ≡ advance (suc d) i (far d))
  unfolding advance depart
  depart-advance d zero v l h p =
      let e : length ia + length ib + 2 * 0 - suc d + 1 ≡ length ia + length ib + 2 * 0 - d =
        omega arith in
      rw (e, p 0 (omega arith)) refl
  depart-advance d (suc i) v l h p =
      let e : length ia + length ib + 2 * suc i - suc d - 1 ≡ length ia + length ib + 2 * i - d =
        omega arith in
      let below : v (length ia + length ib + 2 * i - d) ≡ far d i = p i (omega arith) in
      elim (Bool-cases (suc i == suc d)) [
        | inl a ↦ let z : (suc i == 0) ≡ false = ground arith in rw (e, below, z, a) refl
        | inr a ↦
            let f : length ia + length ib + 2 * suc i - suc d + 1
                ≡ length ia + length ib + 2 * suc i - d =
              omega arith in
            let above : v (length ia + length ib + 2 * suc i - d) ≡ far d (suc i) =
              p (suc i) (ground (arith, a)) in
            rw (e, f, below, above) refl
      ]

  -- Whether one of c diagonals, from number i on, is past the end of both lists.
  unfoldable pub ends : ℕ → ℕ → ℕ → Bool
  ends zero i d = false
  ends (suc c) i d = is_end ia ib (far d i) (far d i + d - 2 * i) || ends c (suc i) d

  or_assoc : (a b c : Bool) → ((a || b) || c) ≡ (a || (b || c))
  or_assoc true b c = refl
  or_assoc false b c = refl

  -- One round: what is written, and what the other diagonals keep.
  explore-far :
      (c i d : ℕ) (v : ℕ → ℕ) (found : Bool)
      → suc d ≤ length ia + length ib
      → c + i ≡ suc (suc d)
      → HoldsRound d v
      → ((j : ℕ) → j < i → v (length ia + length ib + 2 * j - suc d) ≡ far (suc d) j)
      → HoldsRound (suc d) (explore ia ib c i (suc d) v found).0
        × ((explore ia ib c i (suc d) v found).1 ≡ (found || ends c i (suc d)))
  unfolding explore ends
  explore-far zero i d v found l e h k = (λ j p. k j (omega arith), ground arith)
  explore-far (suc c) i d v found l e h k =
      let x = reach ia ib (suc d) v i in
      let at = length ia + length ib + 2 * i - suc d in
      let r : x ≡ far (suc d) i =
        unfold reach in unfold far in rw (depart-advance d i v l (omega arith) h) refl in
      let hit = is_end ia ib x (x + suc d - 2 * i) in
      let rest =
        explore-far c (suc i) d (set at x v) (found || hit) l (omega arith)
          (λ j p.
            unfold set in
            (let n : ((length ia + length ib + 2 * j - d) == at) ≡ false = ground arith in
              rw n (h j p)))
          (λ j p.
            unfold set in
            (elim (Bool-cases (j == i)) [
              | inl q ↦
                  let n : ((length ia + length ib + 2 * j - suc d) == at) ≡ true =
                    ground (arith, q) in
                  let same : j ≡ i = ground (arith, q) in rw (n, same) r
              | inr q ↦
                  let n : ((length ia + length ib + 2 * j - suc d) == at) ≡ false =
                    ground (arith, q) in
                  rw n (k j (ground (arith, q, p)))
            ])) in
      (rest.0, rest.1 ∙ (or_assoc found hit _ ∙ rw r refl))

  -- What v holds before round d.
  unfoldable pub Ready : ℕ → (ℕ → ℕ) → Type 0
  Ready zero v = v (length ia + length ib + 1) ≡ 0
  Ready (suc d) v = HoldsRound d v

  pub explore-round :
      (d : ℕ) (v : ℕ → ℕ)
      → d ≤ length ia + length ib
      → Ready d v
      → (HoldsRound d (explore ia ib (suc d) 0 d v false).0
          × ((explore ia ib (suc d) 0 d v false).1 ≡ ends (suc d) 0 d))
  unfolding Ready
  explore-round (suc d) v l h =
      explore-far (suc (suc d)) 0 d v false l (omega arith) h (λ j p. absurd (omega arith))
  explore-round zero v l h =
      let at = length ia + length ib in
      let e : length ia + length ib + 2 * 0 - 0 + 1 ≡ at + 1 = omega arith in
      let r : reach ia ib 0 v 0 ≡ far 0 0 =
        unfold reach in unfold depart in unfold far in rw (e, h) refl in
      unfold explore in
      unfold set in
      unfold ends in
      rw r (
        (λ j p.
            let z : j ≡ 0 = omega (arith, p) in
            let n : ((length ia + length ib + 2 * j - 0) == (length ia + length ib + 2 * 0 - 0))
                ≡ true =
              ground (arith, z) in
            rw (n, z) refl),
        ground arith,
      )
