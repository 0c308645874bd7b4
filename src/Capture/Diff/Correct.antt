-- ===== src/Capture/Diff/Correct.antt =====
-- editScript as a whole: what it returns, and when.
use omegacatqt.Capture.Diff.Script.{whole-Edits}
use omegacatqt.Capture.Myers.Correct.{Correct, AtMost, myers_shortest, myers-Correct}
use omegacatqt.Capture.Myers.Script.{
  Edits, older_lines, newer_lines, done, put_in, take_out, older_lines-Edits, newer_lines-Edits,
}
use omegacatqt.Capture.Diff.{edit_script, middle, keep_lines, prefix_length, shift, suffix_length}
use omegacatqt.Capture.Myers.{DiffLine, remove_line, add_line, myers, max_diff_edits}
use omegacatqt.Capture.Myers.Shortest.{edits}
use omegacatqt.Text.{Str}
use omegacatqt.Base.{
  inl, inr, some, none, [], ◌∷◌, zero, suc, refl, arith, ◌≡◌, List, length, ◌+◌, ℕ, ◌≤◌, subst,
  ◌++◌, Option-cases, map, ◌<◌, eq_of_some, ◌-◌, sym, ◌∙◌,
}

module _ (a b : List Str) where
  abbrev pub whole : List DiffLine → List DiffLine
  whole mid =
      keep_lines a b (prefix_length a b) 0 0
      ++ (map (shift (prefix_length a b)) mid
          ++ keep_lines a b (suffix_length a b) (length a - suffix_length a b)
              (length b - suffix_length a b))

  pub edit_script-some :
      (mid : List DiffLine)
      → myers (middle a b a) (middle a b b) ≡ some mid
      → (edit_script a b ≡ some (whole mid))
  unfolding edit_script
  edit_script-some mid e = rw (e, edit_script) refl

  edit_script-none : myers (middle a b a) (middle a b b) ≡ none → edit_script a b ≡ none
  unfolding edit_script
  edit_script-none e = rw (e, edit_script) refl

  -- The script that replaces everything.
  replace_newer :
      (c y : ℕ)
      → y + c ≡ length b
      → (out : List DiffLine) × Edits a b (length a) y out × (edits out ≡ c)
  unfolding edits add_line
  replace_newer zero y h = ([], done refl (omega (arith, h)), refl)
  replace_newer (suc c) y h =
      let (out, s, e) = replace_newer c (suc y) (omega (arith, h)) in
      (add_line a b y ∷ out, put_in (omega (arith, h)) s, omega (arith, e))

  replace_older :
      (c x : ℕ)
      → x + c ≡ length a
      → ((out : List DiffLine) × Edits a b x 0 out × (edits out ≡ c + length b))
  unfolding edits remove_line
  replace_older zero x h =
      let (out, s, e) = replace_newer (length b) 0 (omega arith) in
      let z : length a ≡ x = omega (arith, h) in
      (out, subst (λ (k : ℕ). Edits a b k 0 out) z s, omega (arith, e))
  replace_older (suc c) x h =
      let (out, s, e) = replace_older c (suc x) (omega (arith, h)) in
      (remove_line a b x ∷ out, take_out (omega (arith, h)) s, omega (arith, e))

-- A script that editScript returns leads from the older version to the newer one: read without the
-- lines that it adds it is the older version, and without those that it removes the newer one; its
-- unchanged lines are in both versions, and every line carries its numbers in them.
pub edit_script-Edits :
    (a b : List Str) (out : List DiffLine)
    → edit_script a b ≡ some out
    → (Edits a b 0 0 out × (older_lines out ≡ a) × (newer_lines out ≡ b))
edit_script-Edits a b out h = elim (Option-cases (myers (middle a b a) (middle a b b))) [
  | inl e ↦ let n : edit_script a b ≡ none = edit_script-none a b e in absurd (ground (arith, h, n))
  | inr (mid, e) ↦
      let r : Correct (middle a b a) (middle a b b) (some mid) =
        subst (Correct (middle a b a) (middle a b b)) e
          (myers-Correct (middle a b a) (middle a b b)) in
      let same : whole a b mid ≡ out = eq_of_some (sym (edit_script-some a b mid e) ∙ h) in
      let s : Edits a b 0 0 out =
        subst (Edits a b 0 0) same (whole-Edits a b mid (unfold Correct in r.0)) in
      (s, older_lines-Edits a b s, newer_lines-Edits a b s)
]

-- Two versions that have no more than 4000 lines between their common beginning and their common
-- end are never too different: editScript returns a script.
pub edit_script_returns :
    (a b : List Str)
    → length (middle a b a) + length (middle a b b) ≤ max_diff_edits
    → ((out : List DiffLine) × (edit_script a b ≡ some out))
edit_script_returns a b h = elim (Option-cases (myers (middle a b a) (middle a b b))) [
  | inr (mid, e) ↦ (whole a b mid, edit_script-some a b mid e)
  | inl e ↦
      let (out, s, c) =
        replace_older (middle a b a) (middle a b b) (length (middle a b a)) 0 (omega arith) in
      let m : AtMost (middle a b a) (middle a b b) (edits out) none =
        subst (AtMost (middle a b a) (middle a b b) (edits out)) e
          (myers_shortest (middle a b a) (middle a b b) out s) in
      let beyond : max_diff_edits < edits out = unfold AtMost in m in
      absurd (omega (arith, h, c, beyond))
]
