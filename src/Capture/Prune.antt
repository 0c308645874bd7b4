-- ===== src/Capture/Prune.antt =====
-- internal/capture/store.go: pruneType, which reduces a type directory to its newest versions.
pub mod Window
pub mod Sweep
use omegacatqt.Base.{
  ℕ, suc, ◌+◌, ◌++◌, Bool, true, false, not, ◌&&◌, ◌||◌, Option, none, some, List, [], ◌∷◌, length,
  drop, filter, map, ltb, ◌==◌, if◌then◌else◌,
}
use omegacatqt.Text.{Str, is_empty, has, sort_strings}
use omegacatqt.Text.Match.{has_suffix, trim_suffix}
use omegacatqt.Capture.History.{HistoryEntry, TypeDir, txt, parsed_json}

-- The errors of pruneType; the last one names the files that could not be removed.
pub data PruneError : Type 0 where
  history_unreadable history_not_rewritten dir_unreadable : PruneError
  not_removed : List Str → PruneError

-- What the operating system answers while pruning. `removes` says of each name whether os.Remove
-- succeeds on it.
pub record PruneOs : Type 0 where
  pub reads_history : Bool
  pub rewrites_history : Bool
  pub reads_dir : Bool
  pub removes : Str → Bool

-- The loop over the entries, from the newest down: `survive` and `cut`. The scan of the newer
-- entries comes first; a cut there means that the loop has left.
unfoldable pub scan : ℕ → List HistoryEntry → List Str × ℕ
scan keep [] = ([], 0)
scan keep (e ∷ newer) =
    let (survive, cut) = scan keep newer in
    if ltb 0 cut
    then (survive, suc cut)
    else if is_empty e.file || has survive e.file
    then (survive, 0)
    else if length survive == keep
    then (survive, 1)
    else (e.file ∷ survive, 0)

-- Whether the sweep takes a file: a capture, or the parse of one, that does not survive.
unfoldable pub is_swept : List Str → Str → Bool
is_swept survive name =
    if has_suffix name parsed_json
    then not (has survive (trim_suffix name parsed_json ++ txt))
    else if has_suffix name txt
    then not (has survive name)
    else false

unfoldable pub sweep : List Str → (Str → Bool) → List (Str × Str) → List (Str × Str)
sweep survive removes = filter (λ f. not (is_swept survive f.0 && removes f.0))

-- `failed`
unfoldable pub refused : List Str → (Str → Bool) → List (Str × Str) → List Str
refused survive removes files =
    map (λ f. f.0) (filter (λ f. is_swept survive f.0 && not (removes f.0)) files)

unfoldable pub sweep_result : List Str → Option PruneError
sweep_result [] = none
sweep_result (name ∷ names) = some (not_removed (sort_strings (name ∷ names)))

-- From the rewritten history on: the directory is read and swept.
unfoldable pub sweep_dir : PruneOs → List Str → TypeDir → TypeDir × Option PruneError
unfolding sweep refused sweep_result
sweep_dir os survive d =
    if os.reads_dir
    then (
      record d { files = sweep survive os.removes d.files },
      sweep_result (refused survive os.removes d.files),
    )
    else (d, some dir_unreadable)

unfoldable pub prune_entries : PruneOs → ℕ → TypeDir → TypeDir × Option PruneError
unfolding scan sweep_dir
prune_entries os keep d =
    let (survive, cut) = scan keep d.history in
    if ltb 0 cut
    then if os.rewrites_history
      then sweep_dir os survive (record d { history = drop cut d.history })
      else (d, some history_not_rewritten)
    else sweep_dir os survive d

is_nil : List HistoryEntry → Bool
is_nil [] = true
is_nil (e ∷ es) = false

-- A negative `keep` does what 0 does.
unfoldable pub prune_type : PruneOs → ℕ → TypeDir → TypeDir × Option PruneError
unfolding prune_entries is_nil
prune_type os keep d =
    if keep == 0
    then (d, none)
    else if not os.reads_history
    then (d, some history_unreadable)
    else if is_nil d.history
    then (d, none)
    else prune_entries os keep d
