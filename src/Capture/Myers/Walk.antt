-- ===== src/Capture/Myers/Walk.antt =====
-- The walk back: from the end of both lists, through the trace, it builds a correct script.
use omegacatqt.Capture.Myers.Script.{Edits, keep}
use omegacatqt.Text.{Str}
use omegacatqt.Capture.Myers.{common, slide, DiffLine, keep_line, line_of}
use omegacatqt.Base.{
  true, false, [], ◌∷◌, zero, suc, refl, arith, ◌≡◌, ℕ, List, get_elem?, ◌<◌, drop, ◌≤◌, ltb, ◌+◌,
  sym, ◌&&◌, ◌∙◌, length, subst,
}
use Prim.Native.Nat.add

common-matches : (xs ys : List ℕ) (t : ℕ) → t < common xs ys → get_elem? xs t ≡ get_elem? ys t
unfolding common
common-matches [] ys t h = absurd (omega arith)
common-matches (x ∷ xs) [] t h = absurd (omega arith)
common-matches (x ∷ xs) (y ∷ ys) zero h = ground arith
common-matches (x ∷ xs) (y ∷ ys) (suc t) h = ground (arith, common-matches xs ys t)

pub get_elem?-drop : (n : ℕ) (xs : List ℕ) (t : ℕ) → get_elem? (drop n xs) t ≡ get_elem? xs (n + t)
get_elem?-drop zero xs t = rw (add.zero t) refl
get_elem?-drop (suc n) [] t = refl
get_elem?-drop (suc n) (x ∷ xs) t =
    let e : suc n + t ≡ suc (n + t) = omega arith in rw e (get_elem?-drop n xs t)

-- Along the diagonal moves from (x, y) both lists have the same elements.
pub snake-matches :
    (ia ib : List ℕ) (x y t : ℕ)
    → t < common (drop x ia) (drop y ib)
    → (get_elem? ia (x + t) ≡ get_elem? ib (y + t))
snake-matches ia ib x y t h =
    sym (get_elem?-drop x ia t)
    ∙ (common-matches (drop x ia) (drop y ib) t h ∙ get_elem?-drop y ib t)

module _ (a b : List Str) where
  slide_stop :
      (px py x y : ℕ) (out : List DiffLine)
      → (ltb px x && ltb py y) ≡ false
      → (slide a b px py x y out ≡ (x, y, out))
  unfolding slide
  slide_stop px py zero y out h = refl
  slide_stop px py (suc x) zero out h = refl
  slide_stop px py (suc x) (suc y) out h = rw h refl

  slide_move :
      (px py x y : ℕ) (out : List DiffLine)
      → px < suc x
      → py < suc y
      → (slide a b px py (suc x) (suc y) out ≡ slide a b px py x y (keep_line a b x y ∷ out))
  unfolding slide
  slide_move px py x y out h k =
      let e : ltb px (suc x) ≡ true = ground (arith, h) in
      let f : ltb py (suc y) ≡ true = ground (arith, k) in rw (e, f) refl

  -- The loop goes back c diagonal moves and stops at their start, which is on one of the bounds.
  pub slide-Edits :
      (px py x y c : ℕ) (out : List DiffLine)
      → px ≤ x
      → py ≤ y
      → (ltb px x && ltb py y) ≡ false
      → x + c ≤ length a
      → y + c ≤ length b
      → ((t : ℕ) → t < c → line_of a (x + t) ≡ line_of b (y + t))
      → Edits a b (x + c) (y + c) out
      → ((out' : List DiffLine) × (slide a b px py (x + c) (y + c) out ≡ (x, y, out'))
          × Edits a b x y out')
  slide-Edits px py x y zero out hx hy stop la lb match s =
      let e : x + 0 ≡ x = omega arith in
      let f : y + 0 ≡ y = omega arith in
      (
        out,
        rw (e, f) (slide_stop px py x y out stop),
        subst (λ (z : ℕ). Edits a b z y out) e (subst (λ (z : ℕ). Edits a b (x + 0) z out) f s),
      )
  slide-Edits px py x y (suc c) out hx hy stop la lb match s =
      let e : x + suc c ≡ suc (x + c) = omega arith in
      let f : y + suc c ≡ suc (y + c) = omega arith in
      let s' : Edits a b (suc (x + c)) (suc (y + c)) out =
        subst (λ (z : ℕ). Edits a b z (suc (y + c)) out) e
          (subst (λ (z : ℕ). Edits a b (x + suc c) z out) f s) in
      let r =
        slide-Edits px py x y c (keep_line a b (x + c) (y + c) ∷ out) hx hy stop (omega arith)
          (omega arith) (λ t p. match t (omega arith))
          (keep (omega arith) (omega arith) (match c (omega arith)) s') in
      (r.0, rw (e, f) (slide_move px py (x + c) (y + c) out (omega arith) (omega arith) ∙ r.1), r.2)
