-- ===== src/Capture/Diff/Hunks.antt =====
-- The hunks of a diff: which lines they take, and which they leave.
pub mod Cover
use omegacatqt.Capture.Diff.{last_change, counts}
use omegacatqt.Capture.Myers.{DiffLine}
use omegacatqt.Base.{
  inl, inr, some, none, true, [], ◌∷◌, zero, suc, refl, arith, ◌≡◌, List, ℕ, ◌≤◌, ◌<◌, drop, Bool,
  length, ◌+◌, get_elem?, not, ◌*◌, Bool-cases, ltb, ◌-◌, ◌==◌, ◌∙◌, ap, all, ◌++◌, false,
}

get_elem?-past : (ops : List DiffLine) (j k : ℕ) → drop j ops ≡ [] → j ≤ k → get_elem? ops k ≡ none
get_elem?-past [] j k e h = refl
get_elem?-past (o ∷ ops) zero k e h = ground (arith, e)
get_elem?-past (o ∷ ops) (suc j) zero e h = absurd (omega arith)
get_elem?-past (o ∷ ops) (suc j) (suc k) e h = get_elem?-past ops j k e (omega arith)

drop-cons :
    (ops : List DiffLine) (j : ℕ) (o : DiffLine) (ls : List DiffLine)
    → drop j ops ≡ o ∷ ls
    → ((get_elem? ops j ≡ some o) × (drop (suc j) ops ≡ ls) × (j < length ops))
drop-cons [] zero o ls e = absurd (ground (arith, e))
drop-cons [] (suc j) o ls e = absurd (ground (arith, e))
drop-cons (p ∷ ops) zero o ls e = (ground (arith, e), ground (arith, e), omega arith)
drop-cons (p ∷ ops) (suc j) o ls e =
    let r = drop-cons ops j o ls e in (r.0, r.1, omega (arith, r.2))

module _ (ops : List DiffLine) where
  -- Whether there is no change that counts at a position.
  unfoldable pub plain_at : ℕ → Bool
  plain_at k = elim (get_elem? ops k) [ none ↦ true | some o ↦ not (counts o) ]

  pub plain_at-none : (k : ℕ) → get_elem? ops k ≡ none → plain_at k ≡ true
  unfolding plain_at
  plain_at-none k e = rw (e, plain_at) refl

  pub plain_at-some :
      (k : ℕ) (o : DiffLine) → get_elem? ops k ≡ some o → plain_at k ≡ not (counts o)
  unfolding plain_at
  plain_at-some k o e = rw (e, plain_at) refl

  -- No change that counts from one position up to another.
  unfoldable pub PlainFrom : ℕ → ℕ → Type 0
  PlainFrom i j = (k : ℕ) → i ≤ k → k < j → plain_at k ≡ true

  -- What the loop over j finds: the last change of the hunk, after which there is none for twice the
  -- context.
  unfoldable pub EndsHunk : ℕ → ℕ → ℕ → Type 0
  unfolding PlainFrom
  EndsHunk context end e = (end ≤ e) × (e < length ops) × PlainFrom (suc e) (e + 2 * context + 2)

  pub last_change-EndsHunk :
      (context j end : ℕ) (ls : List DiffLine)
      → drop j ops ≡ ls
      → end ≤ j
      → end < length ops
      → j ≤ end + 2 * context + 2
      → PlainFrom (suc end) j
      → (EndsHunk context end (last_change context j end ls))
  unfolding last_change PlainFrom EndsHunk
  last_change-EndsHunk context j end [] e h l b p = (
    omega arith,
    l,
    λ k q r. elim (Bool-cases (ltb k j)) [
      | inl a ↦ p k q (ground (arith, a))
      | inr a ↦ plain_at-none k (get_elem?-past ops j k e (ground (arith, a)))
    ],
  )
  last_change-EndsHunk context j end (o ∷ ls) e h l b p =
      let (here, next, bound) = drop-cons ops j o ls e in
      elim (Bool-cases (counts o)) [
        | inl a ↦
            let r =
              last_change-EndsHunk context (suc j) j ls next (omega arith) bound (omega arith)
                (λ k q r. absurd (omega (arith, q, r))) in
            rw a (omega (arith, h, r.0), r.1, r.2)
        | inr a ↦ elim (Bool-cases (ltb (2 * context) (j - end))) [
          | inl c ↦
              rw (a, c)
                (
                  omega arith,
                  l,
                  λ k q r. elim (Bool-cases (k == j)) [
                    | inl u ↦
                        let same : k ≡ j = ground (arith, u) in
                        rw same (plain_at-some j o here ∙ ap not a)
                    | inr u ↦ p k q (ground (arith, u, r, c, b))
                  ],
                )
          | inr c ↦
              let r =
                last_change-EndsHunk context (suc j) end ls next (omega (arith, h)) l
                  (ground (arith, c))
                  (λ k q r. elim (Bool-cases (k == j)) [
                    | inl u ↦
                        let same : k ≡ j = ground (arith, u) in
                        rw same (plain_at-some j o here ∙ ap not a)
                    | inr u ↦ p k q (ground (arith, u, r))
                  ]) in
              rw (a, c) r
        ]
      ]
