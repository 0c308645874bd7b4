-- ===== src/Capture/Myers/Script.antt =====
-- Edit scripts: what a list of diff lines has to be, and what can be read off it.
use omegacatqt.Capture.Myers.{added, removed}
use omegacatqt.Capture.Myers.{DiffLine, keep_line, remove_line, add_line, line_of}
use omegacatqt.Text.{Str}
use omegacatqt.Base.{[], ◌∷◌, zero, suc, refl, arith, ◌≡◌, List, drop, ℕ, ◌<◌, length, ap}

module _ (a b : List Str) where
  -- `Edits x y out`: out leads from line x of the older version and line y of the newer one to the
  -- ends of both. Every line carries its text and its numbers, counted from 1.
  pub data Edits : ℕ → ℕ → List DiffLine → Type 0 where
    done : {x y : ℕ} → x ≡ length a → y ≡ length b → Edits x y []
    keep :
        {x y : ℕ} {out : List DiffLine}
        → x < length a
        → y < length b
        → line_of a x ≡ line_of b y
        → Edits (suc x) (suc y) out
        → Edits x y (keep_line a b x y ∷ out)
    take_out :
        {x y : ℕ} {out : List DiffLine}
        → x < length a
        → Edits (suc x) y out
        → Edits x y (remove_line a b x ∷ out)
    put_in :
        {x y : ℕ} {out : List DiffLine}
        → y < length b
        → Edits x (suc y) out
        → Edits x y (add_line a b y ∷ out)

-- The versions that a script joins: the lines that are not added, and those that are not removed.
unfoldable pub older_lines : List DiffLine → List Str
older_lines [] = []
older_lines (l ∷ ls) = elim l.op [ added ↦ older_lines ls | other ↦ l.text ∷ older_lines ls ]

unfoldable pub newer_lines : List DiffLine → List Str
newer_lines [] = []
newer_lines (l ∷ ls) = elim l.op [ removed ↦ newer_lines ls | other ↦ l.text ∷ newer_lines ls ]

drop_line : (ls : List Str) (x : ℕ) → x < length ls → drop x ls ≡ line_of ls x ∷ drop (suc x) ls
drop_line [] x h = absurd (omega arith)
drop_line (l ∷ ls) zero h = refl
drop_line (l ∷ ls) (suc x) h = drop_line ls x (omega arith)

drop_all : (ls : List Str) → drop (length ls) ls ≡ []
drop_all [] = refl
drop_all (l ∷ ls) = drop_all ls

module _ (a b : List Str) where
  pub older_lines-Edits :
      {x y : ℕ} {out : List DiffLine} → Edits a b x y out → older_lines out ≡ drop x a
  unfolding older_lines keep_line remove_line add_line
  older_lines-Edits (done e f) = rw (e, drop_all a) refl
  older_lines-Edits (keep {x} h k e s) =
      rw (drop_line a x h) (ap (◌∷◌ (line_of a x)) (older_lines-Edits s))
  older_lines-Edits (take_out {x} h s) =
      rw (drop_line a x h) (ap (◌∷◌ (line_of a x)) (older_lines-Edits s))
  older_lines-Edits (put_in h s) = older_lines-Edits s

  pub newer_lines-Edits :
      {x y : ℕ} {out : List DiffLine} → Edits a b x y out → newer_lines out ≡ drop y b
  unfolding newer_lines keep_line remove_line add_line
  newer_lines-Edits (done e f) = rw (f, drop_all b) refl
  newer_lines-Edits (keep {x} {y} h k e s) =
      rw (drop_line b y k, e) (ap (◌∷◌ (line_of b y)) (newer_lines-Edits s))
  newer_lines-Edits (take_out h s) = newer_lines-Edits s
  newer_lines-Edits (put_in {y} h s) =
      rw (drop_line b y h) (ap (◌∷◌ (line_of b y)) (newer_lines-Edits s))
