-- ===== src/Capture/Diff.antt =====
-- internal/capture/diff.go: the line diff of two versions of a capture, with its hunks.
pub mod Lines
pub mod Script
pub mod Correct
pub mod Hunks
pub mod Identical
mod Tests
use Prim.Native.Nat.{min}
use omegacatqt.Text.Match.{trim_suffix}
use omegacatqt.Text.{Str, str_eq, is_empty}
use omegacatqt.Base.{
  some, none, false, [], ◌∷◌, zero, suc, ℤ, ℕ, List, Bool, pos, if◌then◌else◌, negsuc, ◌==◌, ◌&&◌,
  Option, ltb, not, reverse, map, drop, ◌+◌, ◌*◌, take, length, ◌-◌, ◌++◌, get_elem?, inl, inr,
  true, refl, arith, ◌≡◌,
}
use omegacatqt.Capture.Myers.{same, added, removed, DiffLine, keep_line, myers}

pub record Hunk : Type 0 where
  pub a_start : ℕ
  pub a_len : ℕ
  pub b_start : ℕ
  pub b_len : ℕ
  pub lines : List DiffLine

pub record Diff : Type 0 where
  pub identical : Bool
  pub added_count : ℕ
  pub removed_count : ℕ
  pub ignored_count : ℕ
  pub hunks : List Hunk

-- bytes.ReplaceAll(b, "\r\n", "\n")
unfoldable pub plain_newlines : Str → Str
plain_newlines [] = []
plain_newlines (c ∷ []) = c ∷ []
plain_newlines (c ∷ d ∷ s) =
    let rest = plain_newlines (d ∷ s) in if c == 13 && d == 10 then rest else c ∷ rest

-- bytes.Split(b, "\n")
unfoldable pub split_at_newlines : Str → List Str
split_at_newlines [] = [] ∷ []
split_at_newlines (c ∷ s) =
    let rest = split_at_newlines s in
    if c == 10
    then [] ∷ rest
    else elim rest [ [] ↦ (c ∷ []) ∷ [] | line ∷ lines ↦ (c ∷ line) ∷ lines ]

-- splitLines
unfoldable pub split_lines : Str → List Str
unfolding plain_newlines split_at_newlines
split_lines b =
    let text = trim_suffix (plain_newlines b) (10 ∷ []) in
    if is_empty text then [] else map (λ p. trim_suffix p (13 ∷ [])) (split_at_newlines text)

-- The rounds of the loops over `pre` and `suf`.
unfoldable pub common_lines : List Str → List Str → ℕ
common_lines [] bs = 0
common_lines (s ∷ ms) [] = 0
common_lines (s ∷ ms) (t ∷ bs) = let rest = common_lines ms bs in if str_eq s t then suc rest else 0

-- `c` lines that are in both versions, from given positions on.
unfoldable pub keep_lines : List Str → List Str → ℕ → ℕ → ℕ → List DiffLine
keep_lines a b zero x y = []
keep_lines a b (suc c) x y = keep_line a b x y ∷ keep_lines a b c (suc x) (suc y)

unfoldable pub shift : ℕ → DiffLine → DiffLine
shift pre l = record l {
  a = if ltb 0 l.a then l.a + pre else l.a;
  b = if ltb 0 l.b then l.b + pre else l.b;
}

module _ (a b : List Str) where
  unfoldable pub prefix_length : ℕ
  unfolding common_lines
  prefix_length = common_lines a b

  -- From the end, over what the prefix leaves.
  unfoldable pub suffix_length : ℕ
  unfolding common_lines
  suffix_length = common_lines (reverse (drop prefix_length a)) (reverse (drop prefix_length b))

  abbrev pub middle : List Str → List Str
  middle ls = drop prefix_length (take (length ls - suffix_length) ls)

  -- editScript
  unfoldable pub edit_script : Option (List DiffLine)
  unfolding keep_lines shift
  edit_script =
      let pre = prefix_length in
      let suf = suffix_length in
      elim (myers (middle a) (middle b)) [
        | none ↦ none
        | some mid ↦ some (
            keep_lines a b pre 0 0
            ++ (map (shift pre) mid ++ keep_lines a b suf (length a - suf) (length b - suf)))
      ]

-- The loop over the rules, which are compiled regular expressions.
unfoldable pub mark : (Str → Bool) → DiffLine → DiffLine
mark ignores l = elim l.op [ same ↦ l | other ↦ record l { ignored = ignores l.text } ]

-- A change that counts.
unfoldable pub counts : DiffLine → Bool
counts l = elim l.op [ same ↦ false | other ↦ not l.ignored ]

unfoldable pub is_added : DiffLine → Bool
is_added l = elim l.op [ added ↦ not l.ignored | other ↦ false ]

unfoldable pub is_removed : DiffLine → Bool
is_removed l = elim l.op [ removed ↦ not l.ignored | other ↦ false ]

unfoldable pub how_many : (DiffLine → Bool) → List DiffLine → ℕ
how_many p [] = 0
how_many p (l ∷ ls) = if p l then suc (how_many p ls) else how_many p ls

-- The first number that is not 0.
unfoldable pub first_number : List ℕ → ℕ
first_number [] = 0
first_number (x ∷ xs) = let rest = first_number xs in if ltb 0 x then x else rest

unfoldable pub hunk_of : List DiffLine → Hunk
unfolding how_many first_number
hunk_of lines = record {
  a_start = first_number (map (λ (l : DiffLine). l.a) lines);
  a_len = how_many (λ l. ltb 0 l.a) lines;
  b_start = first_number (map (λ (l : DiffLine). l.b) lines);
  b_len = how_many (λ l. ltb 0 l.b) lines;
  lines = lines;
}

-- The loop over j: the last change of the hunk, from line j on.
unfoldable pub last_change : ℕ → ℕ → ℕ → List DiffLine → ℕ
last_change context j end [] = end
last_change context j end (l ∷ ls) =
    let rest = last_change context (suc j) (if counts l then j else end) ls in
    if not (counts l) && ltb (2 * context) (j - end) then end else rest

-- The loop over i, on fuel: there is a round for each line at most.
unfoldable pub group : ℕ → ℕ → List DiffLine → ℕ → List (List DiffLine)
unfolding last_change
group context zero ops i = []
group context (suc f) ops i =
    let end = last_change context i i (drop i ops) in
    let stop = min (end + context + 1) (length ops) in
    elim (get_elem? ops i) [
      | none ↦ []
      | some o ↦ elim (counts o) [
        | true ↦ take (stop - (i - context)) (drop (i - context) ops) ∷ group context f ops stop
        | false ↦ group context f ops (suc i)
      ]
    ]

unfoldable pub context_lines : ℤ → ℕ
context_lines (pos c) = c
context_lines (negsuc c) = 3

unfoldable pub diff_of : (Str → Bool) → ℕ → List DiffLine → Diff
unfolding mark group
diff_of ignores context script =
    let ops = map (mark ignores) script in
    let plus = how_many is_added ops in
    let minus = how_many is_removed ops in
    let others = how_many (λ l. l.ignored) ops in
    record {
      identical = plus == 0 && minus == 0 && others == 0;
      added_count = plus;
      removed_count = minus;
      ignored_count = others;
      hunks =
          if plus == 0 && minus == 0 then [] else map hunk_of (group context (length ops) ops 0);
    }

-- DiffTextIgnoring; DiffText is the same with no rule.
unfoldable pub diff_text : (Str → Bool) → Str → Str → ℤ → Option Diff
unfolding edit_script diff_of
diff_text ignores older newer context = elim (edit_script (split_lines older) (split_lines newer)) [
  | none ↦ none
  | some ops ↦ some (diff_of ignores (context_lines context) ops)
]
