-- ===== src/Capture/Myers/Shortest.antt =====
-- The script has as many edits as the search has rounds, and no script has fewer.
use omegacatqt.Capture.Myers.Walk.{get_elem?-drop}
use omegacatqt.Capture.Myers.Trace.{Traces}
use omegacatqt.Text.{Str}
use omegacatqt.Base.{
  inl, inr, [], ◌∷◌, zero, suc, refl, arith, ◌≡◌, List, ℕ, ◌<◌, drop, length, ◌∙◌, Bool-cases, ap,
  ◌+◌, get_elem?, ◌≢◌, subst, ◌-◌, ◌==◌, ltb, ◌&&◌, sym, length-drop,
}
use omegacatqt.Capture.Myers.{
  same, common, DiffLine, unedit, walk_back, slide, step_back, add_line, remove_line, keep_line,
}

unfoldable pub edits : List DiffLine → ℕ
edits [] = 0
edits (l ∷ ls) = elim l.op [ same ↦ edits ls | other ↦ suc (edits ls) ]

module _ (a b : List Str) where
  edits-slide :
      (px py x y : ℕ) (out : List DiffLine) → edits (slide a b px py x y out).2 ≡ edits out
  unfolding slide
  edits-slide px py zero y out = refl
  edits-slide px py (suc x) zero out = refl
  edits-slide px py (suc x) (suc y) out = elim (Bool-cases (ltb px (suc x) && ltb py (suc y))) [
    | inl h ↦ rw h (
        edits-slide px py x y (keep_line a b x y ∷ out)
        ∙ (unfold edits in unfold keep_line in refl))
    | inr h ↦ rw h refl
  ]

  edits-unedit : (px : ℕ) (s : ℕ × ℕ × List DiffLine) → edits (unedit a b px s).2 ≡ suc (edits s.2)
  unfolding unedit edits add_line remove_line
  edits-unedit px (x, y, out) = elim (Bool-cases (x == px)) [
    | inl h ↦ rw h refl
    | inr h ↦ rw h refl
  ]

  edits-step_back :
      (d : ℕ) (prev : List ℕ) (s : ℕ × ℕ × List DiffLine)
      → (edits (step_back a b d prev s).2 ≡ suc (edits s.2))
  unfolding step_back
  edits-step_back d prev (x, y, out) = edits-unedit _ _ ∙ ap suc (edits-slide _ _ x y out)

  pub edits-walk_back :
      (ia ib : List ℕ) (d : ℕ) (trace : List (List ℕ)) (s : ℕ × ℕ × List DiffLine)
      → Traces ia ib d trace
      → edits (walk_back a b d trace s) ≡ d + edits s.2
  unfolding walk_back Traces
  edits-walk_back ia ib zero [] (x, y, out) t = edits-slide 0 0 x y out ∙ omega arith
  edits-walk_back ia ib zero (prev ∷ older) s t = absurd t
  edits-walk_back ia ib (suc d) [] s t = absurd t
  edits-walk_back ia ib (suc d) (prev ∷ older) s t =
      let e : suc d - 1 ≡ d = omega arith in
      let r : edits (walk_back a b d older (step_back a b (suc d) prev s))
          ≡ d + edits (step_back a b (suc d) prev s).2 =
        edits-walk_back ia ib d older (step_back a b (suc d) prev s) t.1 in
      rw e (omega (arith, r, edits-step_back (suc d) prev s))

-- Where the diagonal moves stop, the lists end or differ.
common_stops :
    (xs ys : List ℕ)
    → common xs ys < length xs
    → common xs ys < length ys
    → (get_elem? xs (common xs ys) ≢ get_elem? ys (common xs ys))
unfolding common
common_stops [] ys h k = absurd (omega arith)
common_stops (x ∷ xs) [] h k = absurd (omega arith)
common_stops (x ∷ xs) (y ∷ ys) h k = elim (Bool-cases (x == y)) [
  | inl a ↦ rw a (common_stops xs ys (ground (arith, h, a)) (ground (arith, k, a)))
  | inr a ↦ rw a (λ e. ground (arith, e, a))
]

pub snake_stops :
    (ia ib : List ℕ) (x y c : ℕ)
    → c ≡ common (drop x ia) (drop y ib)
    → x + c < length ia
    → y + c < length ib
    → get_elem? ia (x + c) ≢ get_elem? ib (y + c)
snake_stops ia ib x y c e h k = λ w.
    let s : get_elem? (drop x ia) (common (drop x ia) (drop y ib))
        ≡ get_elem? (drop y ib) (common (drop x ia) (drop y ib)) =
      subst (λ (z : ℕ). get_elem? (drop x ia) z ≡ get_elem? (drop y ib) z) e
        (get_elem?-drop x ia c ∙ (w ∙ sym (get_elem?-drop y ib c))) in
    common_stops (drop x ia) (drop y ib) (omega (arith, e, h, length-drop x ia))
      (omega (arith, e, k, length-drop y ib)) s
