-- ===== src/Capture/Diff/Tests.antt =====
-- Runs and instances of the theorems of the line diff.
use omegacatqt.Text.Match.{trim_suffix, has_suffix}
use omegacatqt.Capture.Diff.Correct.{edit_script_returns, edit_script-Edits}
use omegacatqt.Capture.Diff.Identical.{diff_text-identical}
use omegacatqt.Capture.Myers.Shortest.{edits}
use omegacatqt.Text.{Str, lit, str_eq, is_empty}
use omegacatqt.Capture.Myers.Script.{Edits, older_lines, newer_lines, keep, take_out, put_in, done}
use omegacatqt.Capture.Diff.Hunks.Cover.{Covers, diff_of-Covers}
use omegacatqt.Capture.Myers.Correct.{AtMost, myers_shortest}
use omegacatqt.Capture.Diff.{
  Diff, prefix_length, diff_text, split_lines, edit_script, suffix_length, diff_of, context_lines,
  common_lines, mark, keep_lines, how_many, shift, is_added, Hunk, middle, is_removed, group,
  plain_newlines, split_at_newlines,
}
use omegacatqt.Base.{
  negsuc, some, true, false, [], ◌∷◌, refl, arith, ◌≡◌, ◌↔◌, List, ℕ, map, ◌++◌, length, ◌+◌, ◌≤◌,
}
use omegacatqt.Capture.Myers.{
  same, added, removed, keep_line, Op, remove_line, DiffLine, add_line, myers, intern, position,
  max_diff_edits, find_trace, explore, reach, depart, snake, common, set, is_end, snapshot, get_or,
  walk_back, step_back, unedit, slide,
}

abbrev old_lines : List Str
old_lines = lit "a" ∷ lit "b" ∷ lit "c" ∷ []

abbrev new_lines : List Str
new_lines = lit "a" ∷ lit "c" ∷ lit "b" ∷ []

abbrev line : Op → ℕ → ℕ → Str → DiffLine
line op a b text = record { op = op; a = a; b = b; text = text; ignored = false }

abbrev script : List DiffLine
script =
    line same 1 1 (lit "a")
    ∷ line removed 2 0 (lit "b")
    ∷ line same 3 2 (lit "c")
    ∷ line added 0 3 (lit "b")
    ∷ []

edit_script-run : edit_script old_lines new_lines ≡ some script
unfolding edit_script prefix_length suffix_length common_lines keep_lines shift myers intern
    position find_trace explore reach depart snake common set is_end snapshot get_or walk_back
    step_back unedit slide keep_line remove_line add_line str_eq
edit_script-run = refl

edit_script-Edits_example :
    Edits old_lines new_lines 0 0 script
    × (older_lines script ≡ old_lines)
    × (newer_lines script ≡ new_lines)
edit_script-Edits_example = edit_script-Edits old_lines new_lines script edit_script-run

middles_small :
    length (middle old_lines new_lines old_lines) + length (middle old_lines new_lines new_lines)
    ≤ max_diff_edits
unfolding prefix_length suffix_length common_lines str_eq
middles_small = omega arith

edit_script_returns_example : (out : List DiffLine) × (edit_script old_lines new_lines ≡ some out)
edit_script_returns_example = edit_script_returns old_lines new_lines middles_small

-- Another script, with four edits.
abbrev detour : List DiffLine
detour =
    line same 1 1 (lit "a")
    ∷ line removed 2 0 (lit "b")
    ∷ line removed 3 0 (lit "c")
    ∷ line added 0 2 (lit "c")
    ∷ line added 0 3 (lit "b")
    ∷ []

detour-Edits : Edits old_lines new_lines 0 0 detour
unfolding keep_line remove_line add_line
detour-Edits = keep {x = 0} {y = 0} (omega arith) (omega arith) refl (
    take_out {x = 1} {y = 1} (omega arith) (
      take_out {x = 2} {y = 1} (omega arith) (
        put_in {x = 3} {y = 1} (omega arith)
          (put_in {x = 3} {y = 2} (omega arith) (done refl refl)))))

myers_shortest_example : AtMost old_lines new_lines (edits detour) (myers old_lines new_lines)
myers_shortest_example = myers_shortest old_lines new_lines detour detour-Edits

diff_of-Covers_example :
    Covers
      (map (mark (str_eq (lit "b"))) script)
      (map (λ (h : Hunk). h.lines) (diff_of (str_eq (lit "b")) 1 script).hunks)
diff_of-Covers_example = diff_of-Covers (str_eq (lit "b")) 1 script

abbrev old_text : Str
old_text = lit "host a" ++ 13 ∷ 10 ∷ lit "vlan 1" ++ 10 ∷ []

abbrev new_text : Str
new_text = lit "host a" ++ 10 ∷ lit "vlan 1" ++ []

abbrev no_change : Diff
no_change = record {
  identical = true;
  added_count = 0;
  removed_count = 0;
  ignored_count = 0;
  hunks = [];
}

diff_text-run : diff_text (λ t. false) old_text new_text (negsuc 0) ≡ some no_change
unfolding diff_text diff_of context_lines how_many mark is_added is_removed group split_lines
    plain_newlines split_at_newlines trim_suffix has_suffix is_empty edit_script prefix_length
    suffix_length common_lines keep_lines shift myers intern position find_trace explore reach
    depart snake common set is_end snapshot get_or walk_back step_back unedit slide keep_line
    remove_line add_line str_eq
diff_text-run = refl

diff_text-identical_example :
    (no_change.identical ≡ true) ↔ (split_lines old_text ≡ split_lines new_text)
diff_text-identical_example =
    diff_text-identical (λ t. false) old_text new_text (negsuc 0) no_change diff_text-run
