-- ===== src/Capture/Diff/Identical.antt =====
-- When a diff says that two versions are identical.
use omegacatqt.Capture.Diff.Script.{middle-length, suffix-le}
use omegacatqt.Capture.Diff.Correct.{whole, edit_script-some, edit_script-Edits}
use omegacatqt.Capture.Myers.Script.{older_lines, newer_lines, Edits, done, keep, take_out, put_in}
use omegacatqt.Capture.Myers.Shortest.{edits}
use omegacatqt.Capture.Diff.{
  diff_text, common_lines, keep_lines, middle, how_many, edit_script, prefix_length, mark, Diff,
  split_lines, suffix_length, is_added, is_removed, diff_of, context_lines,
}
use omegacatqt.Text.{Str, str_eq_refl}
use omegacatqt.Base.{
  inl, inr, some, none, true, [], ◌∷◌, zero, suc, refl, arith, ◌≡◌, List, Bool, length, ℕ, ℤ, ◌-◌,
  ◌++◌, map, ap, ◌↔◌, eq_of_some, Option-cases, ◌+◌, sym, Bool-cases, ◌∙◌, subst, append-nil,
}
use omegacatqt.Capture.Myers.{keep_line, DiffLine, myers, remove_line, add_line, line_of}

changes : (Str → Bool) → List DiffLine → ℕ
changes ignores script =
    let ops = map (mark ignores) script in
    how_many is_added ops + how_many is_removed ops + how_many (λ l. l.ignored) ops

-- Every edit is counted once: as added, as removed or as ignored.
changes-edits :
    (ignores : Str → Bool) (a b : List Str) {x y : ℕ} {out : List DiffLine}
    → Edits a b x y out
    → (changes ignores out ≡ edits out)
unfolding changes edits how_many mark keep_line remove_line add_line is_added is_removed
changes-edits ignores a b (done e f) = omega arith
changes-edits ignores a b (keep h k e s) = changes-edits ignores a b s
changes-edits ignores a b (take_out {x} h s) = elim (Bool-cases (ignores (line_of a x))) [
  | inl c ↦ rw c (omega (arith, changes-edits ignores a b s))
  | inr c ↦ rw c (omega (arith, changes-edits ignores a b s))
]
changes-edits ignores a b (put_in {y} h s) = elim (Bool-cases (ignores (line_of b y))) [
  | inl c ↦ rw c (omega (arith, changes-edits ignores a b s))
  | inr c ↦ rw c (omega (arith, changes-edits ignores a b s))
]

edits-none :
    {a b : List Str} {x y : ℕ} {out : List DiffLine}
    → Edits a b x y out
    → edits out ≡ 0
    → older_lines out ≡ newer_lines out
unfolding edits older_lines newer_lines keep_line remove_line add_line
edits-none (done e f) z = refl
edits-none {a} (keep {x} h k e s) z = ap (◌∷◌ (line_of a x)) (edits-none s z)
edits-none (take_out h s) z = absurd (omega (arith, z))
edits-none (put_in h s) z = absurd (omega (arith, z))

edits-keep_lines :
    (a b : List Str) (c x y : ℕ) (out : List DiffLine)
    → edits (keep_lines a b c x y ++ out) ≡ edits out
unfolding keep_lines edits keep_line
edits-keep_lines a b zero x y out = refl
edits-keep_lines a b (suc c) x y out = edits-keep_lines a b c (suc x) (suc y) out

common_lines_self : (a : List Str) → common_lines a a ≡ length a
unfolding common_lines
common_lines_self [] = refl
common_lines_self (s ∷ a) = rw (str_eq_refl s) (ap suc (common_lines_self a))

length-none : (ls : List Str) → length ls ≡ 0 → ls ≡ []
length-none [] h = refl
length-none (l ∷ ls) h = absurd (omega arith)

-- Of a version and itself there is no middle.
middle_self : (a : List Str) → middle a a a ≡ []
middle_self a =
    let p : prefix_length a a ≡ length a = unfold prefix_length in common_lines_self a in
    let n : length (middle a a a) ≡ length a - suffix_length a a - prefix_length a a =
      middle-length a a a (suffix-le a a).0 in
    length-none (middle a a a) (omega (arith, n, p))

edit_script_self : (a : List Str) (out : List DiffLine) → edit_script a a ≡ some out → edits out ≡ 0
edit_script_self a out h =
    let e : myers (middle a a a) (middle a a a) ≡ some [] =
      rw (middle_self a) (unfold myers in refl) in
    let same : whole a a [] ≡ out = eq_of_some (sym (edit_script-some a a [] e) ∙ h) in
    let tail : List DiffLine =
      keep_lines a a (suffix_length a a) (length a - suffix_length a a)
        (length a - suffix_length a a) in
    let z : edits tail ≡ 0 =
      subst (λ (ls : List DiffLine). edits ls ≡ 0) (append-nil tail)
        (edits-keep_lines a a (suffix_length a a) _ _ [] ∙ (unfold edits in refl)) in
    subst (λ (ls : List DiffLine). edits ls ≡ 0) same
      (edits-keep_lines a a (prefix_length a a) 0 0 tail ∙ z)

diff_of-identical :
    (ignores : Str → Bool) (context : ℕ) (out : List DiffLine)
    → (((diff_of ignores context out).identical ≡ true) ↔ (changes ignores out ≡ 0))
unfolding diff_of changes
diff_of-identical ignores context out = (λ h. ground (arith, h), λ h. ground (arith, h))

diff_text-some :
    (ignores : Str → Bool) (older newer : Str) (context : ℤ) (out : List DiffLine)
    → edit_script (split_lines older) (split_lines newer) ≡ some out
    → (diff_text ignores older newer context ≡ some (diff_of ignores (context_lines context) out))
unfolding diff_text
diff_text-some ignores older newer context out e = rw (e, diff_text) refl

diff_text-none :
    (ignores : Str → Bool) (older newer : Str) (context : ℤ)
    → edit_script (split_lines older) (split_lines newer) ≡ none
    → (diff_text ignores older newer context ≡ none)
unfolding diff_text
diff_text-none ignores older newer context e = rw (e, diff_text) refl

-- A diff is identical exactly when its script has no edit, and that is when the versions are equal.
script-equal :
    (a b : List Str) (out : List DiffLine)
    → edit_script a b ≡ some out
    → ((edits out ≡ 0) ↔ (a ≡ b))
script-equal a b out h =
    let (s, o, n) = edit_script-Edits a b out h in
    (
      λ z. sym o ∙ (edits-none s z ∙ n),
      λ e.
          edit_script_self a out (subst (λ (ls : List Str). edit_script a ls ≡ some out) (sym e) h),
    )

-- The diff says that two versions are identical exactly when they have the same lines, whatever the
-- rules ignore.
pub diff_text-identical :
    (ignores : Str → Bool) (older newer : Str) (context : ℤ) (d : Diff)
    → diff_text ignores older newer context ≡ some d
    → ((d.identical ≡ true) ↔ (split_lines older ≡ split_lines newer))
diff_text-identical ignores older newer context d h =
    elim (Option-cases (edit_script (split_lines older) (split_lines newer))) [
      | inl e ↦
          let n : diff_text ignores older newer context ≡ none =
            diff_text-none ignores older newer context e in
          absurd (ground (arith, h, n))
      | inr (out, e) ↦
          let same : diff_of ignores (context_lines context) out ≡ d =
            eq_of_some (sym (diff_text-some ignores older newer context out e) ∙ h) in
          let (f, g) = diff_of-identical ignores (context_lines context) out in
          let (p, q) = script-equal (split_lines older) (split_lines newer) out e in
          let (s, _, _) = edit_script-Edits (split_lines older) (split_lines newer) out e in
          let c : changes ignores out ≡ edits out =
            changes-edits ignores (split_lines older) (split_lines newer) s in
          subst (λ (x : Diff). (x.identical ≡ true) ↔ (split_lines older ≡ split_lines newer)) same
            (λ t. p (sym c ∙ f t), λ t. g (c ∙ q t))
    ]
