-- ===== src/Capture/Myers/Correct.antt =====
-- The whole of myers: a correct script, with the fewest edits.
use omegacatqt.Capture.Myers.Inside.{IsDone}
use omegacatqt.Capture.Myers.Frontier.{Ready}
use omegacatqt.Capture.Myers.Fewest.{far-Edits}
use omegacatqt.Capture.Myers.Back.{At, walk_back-Edits}
use omegacatqt.Capture.Myers.Trace.{Traced, find_trace-Traced, Undone, Traces}
use omegacatqt.Capture.Myers.Intern.{intern-StandsFor, StandsFor}
use omegacatqt.Capture.Myers.Shortest.{edits, edits-walk_back}
use omegacatqt.Capture.Myers.Script.{Edits, done}
use omegacatqt.Text.{Str}
use omegacatqt.Capture.Myers.{DiffLine, walk_back, max_diff_edits, intern, find_trace, myers}
use omegacatqt.Base.{
  inl, inr, some, none, [], suc, refl, arith, ◌≡◌, List, ℕ, Option, ◌<◌, length, ◌≤◌, ◌+◌, subst,
  if◌then◌else◌, ◌==◌, sym, Bool-cases, Option-cases, ltb, ◌∙◌,
}

module _ (a b : List Str) where
  abbrev numbers : List ℕ × List ℕ
  numbers = ((intern a []).0, (intern b (intern a []).1).0)

  found : Option (ℕ × List (List ℕ)) → Option (List DiffLine)
  found none = none
  found (some (d, trace)) = some (walk_back a b d trace (length a, length b, []))

  searched :
      Traced numbers.0 numbers.1
        (find_trace numbers.0 numbers.1 (suc (length a + length b)) 0 (λ j. 0) [])
  searched =
      let l = intern-StandsFor a b in
      find_trace-Traced numbers.0 numbers.1 (suc (length a + length b)) 0 (λ j. 0) []
        (unfold StandsFor in omega (arith, l.0, l.1)) (unfold Ready in refl) (unfold Traces in tt)
        (unfold Undone in λ d' i' p q. absurd (omega (arith, p)))

  -- What a search that has an outcome leads to.
  unfoldable pub Correct : Option (List DiffLine) → Type 0
  Correct none = Unit
  Correct (some out) = Edits a b 0 0 out × (edits out ≤ max_diff_edits)

  found-Correct :
      (r : Option (ℕ × List (List ℕ))) → Traced numbers.0 numbers.1 r → Correct (found r)
  unfolding found Correct Traced
  found-Correct none h = tt
  found-Correct (some (d, trace)) (t, le, u, (i, p, e, f)) =
      let l = intern-StandsFor a b in
      let s : At a b numbers.0 numbers.1 d i (length a, length b, []) =
        unfold At in
        unfold StandsFor in
        (
          p,
          omega (arith, e, l.0),
          omega (arith, f, l.0, l.1),
          omega arith,
          omega arith,
          done refl refl,
        ) in
      let c : edits (walk_back a b d trace (length a, length b, [])) ≡ d =
        edits-walk_back a b numbers.0 numbers.1 d trace (length a, length b, []) t
        ∙ (unfold edits in omega arith) in
      (
        walk_back-Edits a b numbers.0 numbers.1 d i trace (length a, length b, []) l t s,
        omega (arith, c, le),
      )

  -- No script is shorter than the result; where there is none, every script is beyond the bound.
  unfoldable pub AtMost : ℕ → Option (List DiffLine) → Type 0
  AtMost n none = max_diff_edits < n
  AtMost n (some out) = edits out ≤ n

  reached :
      (out : List DiffLine)
      → Edits a b 0 0 out
      → ((i : ℕ) × (i ≤ edits out) × IsDone numbers.0 numbers.1 (edits out) i)
  reached out s =
      subst (λ (z : ℕ). (i : ℕ) × (i ≤ z) × IsDone numbers.0 numbers.1 z i) (omega arith)
        (far-Edits a b numbers.0 numbers.1 0 0 (intern-StandsFor a b) s (omega arith) (omega arith)
          (omega arith))

  found-AtMost :
      (r : Option (ℕ × List (List ℕ)))
      → Traced numbers.0 numbers.1 r
      → (out : List DiffLine) → Edits a b 0 0 out
      → AtMost (edits out) (found r)
  unfolding found AtMost Traced Undone
  found-AtMost none u out s =
      let (i, p, w) = reached out s in
      elim (Bool-cases (ltb max_diff_edits (edits out))) [
        | inl h ↦ ground (arith, h)
        | inr h ↦ absurd (u (edits out) i (ground (arith, h)) p w)
      ]
  found-AtMost (some (d, trace)) (t, le, u, r) out s =
      let (i, p, w) = reached out s in
      let c : edits (walk_back a b d trace (length a, length b, [])) ≡ d =
        edits-walk_back a b numbers.0 numbers.1 d trace (length a, length b, []) t
        ∙ (unfold edits in omega arith) in
      elim (Bool-cases (ltb (edits out) d)) [
        | inl h ↦ absurd (u (edits out) i (ground (arith, h)) p w)
        | inr h ↦ ground (arith, h, c)
      ]

  myers-found : myers a b ≡ (
      if length a + length b == 0
      then some []
      else found (find_trace numbers.0 numbers.1 (suc (length a + length b)) 0 (λ j. 0) []))
  unfolding myers found
  myers-found = elim (Bool-cases (length a + length b == 0)) [
    | inl h ↦ rw (h, myers) refl
    | inr h ↦
        elim (Option-cases
          (find_trace numbers.0 numbers.1 (suc (length a + length b)) 0 (λ j. 0) [])) [
            | inl k ↦ rw (h, myers, k) refl
            | inr ((d, trace), k) ↦ rw (h, myers, k) refl
          ]
  ]

  -- What holds of the search, and of the script without a line, holds of the result.
  myers_either :
      (P : Option (List DiffLine) → Type 0)
      → (length a + length b ≡ 0 → P (some []))
      → P (found (find_trace numbers.0 numbers.1 (suc (length a + length b)) 0 (λ j. 0) []))
      → P (myers a b)
  myers_either P h k = subst P (sym myers-found) (elim (Bool-cases (length a + length b == 0)) [
    | inl z ↦ rw z (h (ground (arith, z)))
    | inr z ↦ rw z k
  ])

  pub myers-Correct : Correct (myers a b)
  myers-Correct =
      myers_either Correct
        (λ z.
          unfold Correct in
          (done {x = 0} {y = 0} (omega (arith, z)) (omega (arith, z)), unfold edits in omega arith))
        (found-Correct _ searched)

-- Whatever edit script leads from one version to the other, the script that myers returns has at
-- most as many edits; and it returns one unless that script has more than 4000.
pub myers_shortest :
    (a b : List Str) (out : List DiffLine) → Edits a b 0 0 out → AtMost a b (edits out) (myers a b)
myers_shortest a b out s =
    myers_either a b (AtMost a b (edits out)) (λ z. unfold AtMost in unfold edits in omega arith)
      (found-AtMost a b _ (searched a b) out s)
