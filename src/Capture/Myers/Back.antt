-- ===== src/Capture/Myers/Back.antt =====
-- Each round of the walk back keeps to the search: from the point that round d reached it goes to
-- the point of round d - 1 that it came from.
use omegacatqt.Capture.Myers.Intern.{StandsFor}
use omegacatqt.Capture.Myers.Trace.{Traces}
use omegacatqt.Capture.Myers.Ends.{far-fits, le-snake}
use omegacatqt.Capture.Myers.Walk.{slide-Edits, snake-matches}
use omegacatqt.Capture.Myers.Frontier.{far, advance}
use omegacatqt.Capture.Myers.Script.{Edits, take_out, put_in}
use omegacatqt.Capture.Myers.{
  snake, DiffLine, slide, common, unedit, step_back, walk_back, get_or, depart,
}
use omegacatqt.Text.{Str}
use omegacatqt.Base.{
  false, arith, ◌≡◌, List, ℕ, length, ◌≤◌, ltb, ◌+◌, ◌&&◌, ◌*◌, subst, drop, true, suc, refl, ◌-◌,
  ◌==◌, sym, inl, inr, [], ◌∷◌, zero, Bool-cases, ◌∙◌, ◌⊎◌, Bool, ◌||◌, not,
}

module _ (a b : List Str) (ia ib : List ℕ) where
  -- The point of round d on diagonal number i, with the script from there to the end.
  unfoldable pub At : ℕ → ℕ → ℕ × ℕ × List DiffLine → Type 0
  At d i (x, y, out) =
      (i ≤ d)
      × (x ≡ far ia ib d i)
      × (y + 2 * i ≡ x + d)
      × (x ≤ length a)
      × (y ≤ length b)
      × Edits a b x y out

  -- The diagonal moves of a round, undone.
  undo-snake :
      (px py sx sy y : ℕ) (out : List DiffLine)
      → StandsFor a b ia ib
      → px ≤ sx
      → py ≤ sy
      → (ltb px sx && ltb py sy) ≡ false
      → y + sx ≡ snake ia ib sx sy + sy
      → snake ia ib sx sy ≤ length a
      → y ≤ length b
      → Edits a b (snake ia ib sx sy) y out
      → ((out' : List DiffLine) × (slide a b px py (snake ia ib sx sy) y out ≡ (sx, sy, out'))
          × Edits a b sx sy out')
  unfolding snake StandsFor
  undo-snake px py sx sy y out l hx hy stop e la lb s =
      let c = common (drop sx ia) (drop sy ib) in
      let at : y ≡ sy + c = omega (arith, e) in
      rw at (
        slide-Edits a b px py sx sy c out hx hy stop la (omega (arith, at, lb))
          (λ t p.
            (l.2 (sx + t) (sy + t) (omega (arith, p, la)) (omega (arith, p, at, lb))).0
              (snake-matches ia ib sx sy t p))
          (subst (λ (z : ℕ). Edits a b (sx + c) z out) at s))

  -- The first round is the diagonal from the beginning.
  walk_back-start :
      (x y : ℕ) (out : List DiffLine)
      → StandsFor a b ia ib
      → At 0 0 (x, y, out)
      → Edits a b 0 0 (slide a b 0 0 x y out).2
  unfolding At
  walk_back-start x y out l h =
      let e : x ≡ snake ia ib 0 0 = unfold far in h.1 in
      let r =
        undo-snake 0 0 0 0 y out l (omega arith) (omega arith) (ground arith)
          (omega (arith, h.2, e)) (omega (arith, e, h.3)) h.4
          (subst (λ (z : ℕ). Edits a b z y out) e h.5) in
      rw (e, r.1) r.2

  back_down :
      (d i x y q : ℕ) (out : List DiffLine)
      → StandsFor a b ia ib
      → i ≤ d
      → q ≡ 2 * i
      → x ≡ snake ia ib (far ia ib d i) (far ia ib d i + suc d - 2 * i)
      → y + 2 * i ≡ x + suc d
      → x ≤ length a
      → y ≤ length b
      → Edits a b x y out
      → (At d i (
          unedit a b
            (far ia ib d i)
            (slide a b (far ia ib d i) (far ia ib d i + suc d - 1 - q) x y out)))
  unfolding unedit At
  back_down d i x y q out l h eq e f la lb s =
      let p = far ia ib d i in
      let sy = p + suc d - 2 * i in
      let fits : 2 * i ≤ p + d = far-fits ia ib d i h in
      let le : p ≤ snake ia ib p sy = le-snake ia ib p sy in
      let r =
        undo-snake p (p + suc d - 1 - q) p sy y out l (omega arith) (omega (arith, eq))
          (ground arith) (omega (arith, e, f, fits)) (omega (arith, e, la)) lb
          (subst (λ (z : ℕ). Edits a b z y out) e s) in
      let same : (p == p) ≡ true = ground arith in
      let last : suc (sy - 1) ≡ sy = omega (arith, fits) in
      let grows : sy ≤ y = omega (arith, e, f, le, fits) in
      rw (e, r.1, same)
        (
          h,
          refl,
          omega (arith, fits),
          omega (arith, e, le, la),
          omega (arith, grows, lb),
          put_in (omega (arith, last, grows, lb))
              (subst (λ (z : ℕ). Edits a b p z r.0) (sym last) r.2),
        )

  back_right :
      (d j x y q : ℕ) (out : List DiffLine)
      → StandsFor a b ia ib
      → j ≤ d
      → q ≡ 2 * suc j
      → x ≡ snake ia ib (far ia ib d j + 1) (far ia ib d j + 1 + suc d - 2 * suc j)
      → y + 2 * suc j ≡ x + suc d
      → x ≤ length a
      → y ≤ length b
      → Edits a b x y out
      → (At d j (
          unedit a b
            (far ia ib d j)
            (slide a b (far ia ib d j) (far ia ib d j + suc d + 1 - q) x y out)))
  unfolding unedit At
  back_right d j x y q out l h eq e f la lb s =
      let p = far ia ib d j in
      let sy = p + 1 + suc d - 2 * suc j in
      let fits : 2 * j ≤ p + d = far-fits ia ib d j h in
      let le : p + 1 ≤ snake ia ib (p + 1) sy = le-snake ia ib (p + 1) sy in
      let bound : p + suc d + 1 - q ≡ sy = omega (arith, eq) in
      let r =
        undo-snake p sy (p + 1) sy y out l (omega arith) (omega arith) (ground arith)
          (omega (arith, e, f, fits)) (omega (arith, e, la)) lb
          (subst (λ (z : ℕ). Edits a b z y out) e s) in
      let other : (p + 1 == p) ≡ false = ground arith in
      let last : suc (p + 1 - 1) ≡ p + 1 = omega arith in
      rw (bound, e, r.1, other)
        (
          h,
          omega arith,
          omega (arith, fits),
          omega (arith, e, le, la),
          omega (arith, e, f, le, fits, lb),
          take_out (omega (arith, e, le, la))
              (subst (λ (z : ℕ). Edits a b z sy r.0) (sym last) r.2),
        )

  abbrev goes_down : ℕ → ℕ → List ℕ → Bool
  goes_down d q prev = q == 0 || (not (q == 2 * d) && ltb (get_or prev (q - 2) 0) (get_or prev q 0))

  step_back-down :
      (d q x y p : ℕ) (prev : List ℕ) (out : List DiffLine)
      → x + suc d - y ≡ q
      → goes_down (suc d) q prev ≡ true
      → get_or prev q 0 ≡ p
      → (step_back a b (suc d) prev (x, y, out)
          ≡ unedit a b p (slide a b p (p + suc d - 1 - q) x y out))
  unfolding step_back
  step_back-down d q x y p prev out e g h = rw (e, g, h) refl

  step_back-right :
      (d q x y p : ℕ) (prev : List ℕ) (out : List DiffLine)
      → x + suc d - y ≡ q
      → goes_down (suc d) q prev ≡ false
      → get_or prev (q - 2) 0 ≡ p
      → (step_back a b (suc d) prev (x, y, out)
          ≡ unedit a b p (slide a b p (p + suc d + 1 - q) x y out))
  unfolding step_back
  step_back-right d q x y p prev out e g h = rw (e, g, h) refl

  -- The trace answers as the search did.
  down-depart :
      (d j : ℕ) (prev : List ℕ)
      → j ≤ d
      → ((k : ℕ) → k ≤ d → get_or prev (2 * k) 0 ≡ far ia ib d k)
      → (((goes_down (suc d) (2 * suc j) prev ≡ true)
            × (suc j ≤ d)
            × (advance (suc d) (suc j) (far ia ib d) ≡ far ia ib d (suc j)))
          ⊎ ((goes_down (suc d) (2 * suc j) prev ≡ false)
              × (advance (suc d) (suc j) (far ia ib d) ≡ far ia ib d j + 1)))
  unfolding advance depart
  down-depart d j prev h t =
      let two : 2 * suc j - 2 ≡ 2 * j = omega arith in
      let below : get_or prev (2 * j) 0 ≡ far ia ib d j = t j h in
      elim (Bool-cases (suc j == suc d)) [
        | inl u ↦ inr (ground (arith, u), ground (arith, u))
        | inr u ↦
            let p : suc j ≤ d = ground (arith, u, h) in
            let above : get_or prev (2 * suc j) 0 ≡ far ia ib d (suc j) = t (suc j) p in
            elim (Bool-cases (ltb (far ia ib d j) (far ia ib d (suc j)))) [
              | inl w ↦ inl (rw (two, below, above, w) (ground (arith, u)), p, ground (arith, u, w))
              | inr w ↦ inr (rw (two, below, above, w) (ground (arith, u)), ground (arith, u, w))
            ]
      ]

  step_back-At :
      (d i x y : ℕ) (prev : List ℕ) (out : List DiffLine)
      → StandsFor a b ia ib
      → ((k : ℕ) → k ≤ d → get_or prev (2 * k) 0 ≡ far ia ib d k)
      → At (suc d) i (x, y, out)
      → (i' : ℕ) × At d i' (step_back a b (suc d) prev (x, y, out))
  unfolding At far
  step_back-At d zero x y prev out l t h =
      let q : x + suc d - y ≡ 0 = omega (arith, h.2) in
      let e =
        step_back-down d 0 x y (far ia ib d 0) prev out q (ground arith) (t 0 (omega arith)) in
      (
        0,
        subst (At d 0) (sym e) (
            back_down d 0 x y 0 out l (omega arith) (omega arith) (unfold advance in h.1) h.2 h.3
              h.4 h.5),
      )
  step_back-At d (suc j) x y prev out l t h =
      let q : x + suc d - y ≡ 2 * suc j = omega (arith, h.2) in
      let two : 2 * suc j - 2 ≡ 2 * j = omega arith in
      elim (down-depart d j prev (omega (arith, h.0)) t) [
        | inl (g, p, w) ↦
            let e =
              step_back-down d (2 * suc j) x y (far ia ib d (suc j)) prev out q g (t (suc j) p) in
            (
              suc j,
              subst (At d (suc j)) (sym e) (
                  back_down d (suc j) x y (2 * suc j) out l p refl (h.1 ∙ rw w refl) h.2 h.3 h.4
                    h.5),
            )
        | inr (g, w) ↦
            let e =
              step_back-right d (2 * suc j) x y (far ia ib d j) prev out q g
                (rw two (t j (omega (arith, h.0)))) in
            (
              j,
              subst (At d j) (sym e) (
                  back_right d j x y (2 * suc j) out l (omega (arith, h.0)) refl (h.1 ∙ rw w refl)
                    h.2 h.3 h.4 h.5),
            )
      ]

  pub walk_back-Edits :
      (d i : ℕ) (trace : List (List ℕ)) (s : ℕ × ℕ × List DiffLine)
      → StandsFor a b ia ib
      → Traces ia ib d trace
      → At d i s
      → Edits a b 0 0 (walk_back a b d trace s)
  unfolding walk_back Traces
  walk_back-Edits zero i [] (x, y, out) l t h =
      let z : i ≡ 0 = unfold At in (omega (arith, h.0)) in
      walk_back-start x y out l (subst (λ (k : ℕ). At 0 k (x, y, out)) z h)
  walk_back-Edits zero i (prev ∷ older) s l t h = absurd t
  walk_back-Edits (suc d) i [] s l t h = absurd t
  walk_back-Edits (suc d) i (prev ∷ older) (x, y, out) l t h =
      let e : suc d - 1 ≡ d = omega arith in
      let r = step_back-At d i x y prev out l t.0 h in
      rw e (walk_back-Edits d r.0 older _ l t.1 r.1)
