-- ===== src/Capture/Myers.antt =====
-- internal/capture/diff.go: myers, the search for an edit script between two lists of lines.
--
-- Diagonals are counted from below: in round d the code's k is 2 * i - d, for i from 0 to d, and its
-- index offset + k into `v` is offset + 2 * i - d, which does not fall below 0.
use omegacatqt.Text.{Str, str_eq}
use omegacatqt.Base.{
  some, none, false, [], ◌∷◌, zero, suc, ℕ, List, ◌-◌, ◌+◌, if◌then◌else◌, ◌++◌, ◌==◌, ◌*◌, ◌||◌,
  length, not, ltb, Bool, get_elem?, drop, Option, ◌&&◌, leb, inl, inr, true, refl, arith, ◌≡◌,
}
pub mod Intern
pub mod Frontier
pub mod Ends
pub mod Inside
pub mod Trace
pub mod Script
pub mod Walk
pub mod Back
pub mod Shortest
pub mod Fewest
pub mod Correct

pub data Op : Type 0 where
  same removed added : Op

pub record DiffLine : Type 0 where
  pub op : Op
  pub a : ℕ
  pub b : ℕ
  pub text : Str
  pub ignored : Bool

abbrev pub max_diff_edits : ℕ
max_diff_edits = 4000

-- An array that is written at one index.
unfoldable pub set : ℕ → ℕ → (ℕ → ℕ) → ℕ → ℕ
set j x v q = if q == j then x else v q

unfoldable pub get_or : List ℕ → ℕ → ℕ → ℕ
get_or [] i default = default
get_or (x ∷ xs) zero default = x
get_or (x ∷ xs) (suc i) default = get_or xs i default

-- The rounds of `for x < n && y < m && ia[x] == ib[y]`, on what is left of both lists.
unfoldable pub common : List ℕ → List ℕ → ℕ
common [] ys = 0
common (x ∷ xs) [] = 0
common (x ∷ xs) (y ∷ ys) = let rest = common xs ys in if x == y then suc rest else 0

-- `intern`: the table maps a line to its position.
unfoldable pub position : Str → List Str → Option ℕ
position s [] = none
position s (t ∷ ts) =
    let rest = position s ts in
    if str_eq s t then some 0 else elim rest [ none ↦ none | some i ↦ some (suc i) ]

unfoldable pub intern : List Str → List Str → List ℕ × List Str
intern [] ids = ([], ids)
intern (s ∷ ss) ids = elim (position s ids) [
  | some i ↦ let (out, final) = intern ss ids in (i ∷ out, final)
  | none ↦ let (out, final) = intern ss (ids ++ s ∷ []) in (length ids ∷ out, final)
]

-- The first coordinate before the diagonal moves.
unfoldable pub depart : ℕ → ℕ → ℕ → ℕ → ℕ
depart d i below above = if i == 0 || (not (i == d) && ltb below above) then above else below + 1

module _ (ia ib : List ℕ) where
  -- Where diagonal moves lead from a point, as the first coordinate.
  unfoldable pub snake : ℕ → ℕ → ℕ
  snake x y = x + common (drop x ia) (drop y ib)

  abbrev pub offset : ℕ
  offset = length ia + length ib

  unfoldable pub reach : ℕ → (ℕ → ℕ) → ℕ → ℕ
  unfolding depart
  reach d v i =
      let j = offset + 2 * i - d in
      let x = depart d i (v (j - 1)) (v (j + 1)) in snake x (x + d - 2 * i)

  unfoldable pub is_end : ℕ → ℕ → Bool
  is_end x y = leb (length ia) x && leb (length ib) y

  -- The loop over k, with the number of rounds left.
  unfoldable pub explore : ℕ → ℕ → ℕ → (ℕ → ℕ) → Bool → (ℕ → ℕ) × Bool
  unfolding set
  explore zero i d v found = (v, found)
  explore (suc c) i d v found =
      let x = reach d v i in
      explore c (suc i) d (set (offset + 2 * i - d) x v) (found || is_end x (x + d - 2 * i))

  -- The values v[offset + k] from k = i - d on.
  unfoldable pub snapshot : ℕ → ℕ → ℕ → (ℕ → ℕ) → List ℕ
  snapshot zero i d v = []
  snapshot (suc c) i d v = v (offset + i - d) ∷ snapshot c (suc i) d v

  -- The loop over d, on fuel; the trace has its newest snapshot first. The result is `found` and the
  -- trace without the snapshot of that round, and `none` is ErrTooDifferent.
  unfoldable pub find_trace : ℕ → ℕ → (ℕ → ℕ) → List (List ℕ) → Option (ℕ × List (List ℕ))
  find_trace zero d v trace = none
  find_trace (suc f) d v trace =
      let (v', found) = explore (suc d) 0 d v false in
      let rest = find_trace f (suc d) v' (snapshot (2 * d + 1) 0 d v' ∷ trace) in
      if ltb max_diff_edits d then none else if found then some (d, trace) else rest

abbrev pub line_of : List Str → ℕ → Str
line_of ls i = elim (get_elem? ls i) [ none ↦ [] | some s ↦ s ]

-- The walk back through the trace. `out` is `rev` turned round.
module _ (a b : List Str) where
  unfoldable pub keep_line : ℕ → ℕ → DiffLine
  keep_line x y = record { op = same; a = x + 1; b = y + 1; text = line_of a x; ignored = false }

  unfoldable pub remove_line : ℕ → DiffLine
  remove_line x = record { op = removed; a = x + 1; b = 0; text = line_of a x; ignored = false }

  unfoldable pub add_line : ℕ → DiffLine
  add_line y = record { op = added; a = 0; b = y + 1; text = line_of b y; ignored = false }

  -- The loop `for x > px && y > py`
  unfoldable pub slide : ℕ → ℕ → ℕ → ℕ → List DiffLine → ℕ × ℕ × List DiffLine
  slide px py zero y out = (0, y, out)
  slide px py (suc x) zero out = (suc x, 0, out)
  slide px py (suc x) (suc y) out =
      let moved = slide px py x y (keep_line x y ∷ out) in
      if ltb px (suc x) && ltb py (suc y) then moved else (suc x, suc y, out)

  -- One edit, after the diagonal moves.
  unfoldable pub unedit : ℕ → ℕ × ℕ × List DiffLine → ℕ × ℕ × List DiffLine
  unedit px (x, y, out) =
      if x == px then (x, y - 1, add_line (y - 1) ∷ out) else (x - 1, y, remove_line (x - 1) ∷ out)

  -- One round of the walk: `prev` is trace[d-1], and q is k + d.
  unfoldable pub step_back : ℕ → List ℕ → ℕ × ℕ × List DiffLine → ℕ × ℕ × List DiffLine
  unfolding slide unedit
  step_back d prev (x, y, out) =
      let q = x + d - y in
      let down = q == 0 || (not (q == 2 * d) && ltb (get_or prev (q - 2) 0) (get_or prev q 0)) in
      let px = if down then get_or prev q 0 else get_or prev (q - 2) 0 in
      let py = if down then px + d - 1 - q else px + d + 1 - q in unedit px (slide px py x y out)

  unfoldable pub walk_back : ℕ → List (List ℕ) → ℕ × ℕ × List DiffLine → List DiffLine
  unfolding step_back
  walk_back d [] (x, y, out) = (slide 0 0 x y out).2
  walk_back d (prev ∷ older) s = walk_back (d - 1) older (step_back d prev s)

  unfoldable pub myers : Option (List DiffLine)
  unfolding find_trace walk_back intern
  myers =
      let (ia, ids) = intern a [] in
      let (ib, _) = intern b ids in
      if length a + length b == 0
      then some []
      else elim (find_trace ia ib (suc (length a + length b)) 0 (λ j. 0) []) [
        | none ↦ none
        | some (d, trace) ↦ some (walk_back d trace (length a, length b, []))
      ]
