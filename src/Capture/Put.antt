-- ===== src/Capture/Put.antt =====
-- internal/capture/store.go: the part of Put that works in one type directory. The digest and the
-- time stamp are those of crypto/sha256 and of time.Format, which are arguments.
pub mod Name
pub mod Reads
pub mod Stores
use omegacatqt.Text.Decimal.{itoa}
use omegacatqt.Base.{
  inl, inr, some, none, true, false, [], ◌∷◌, zero, suc, refl, arith, ◌≡◌, ℕ, List, Bool, ◌++◌,
  ◌||◌, ◌&&◌, if◌then◌else◌, not, length, Option,
}
use omegacatqt.Text.{Str, lit, str_eq, is_empty}
use omegacatqt.Text.Assoc.{insert}
use omegacatqt.Capture.History.{HistoryEntry, TypeDir, txt}
use omegacatqt.Capture.Prune.{PruneOs, PruneError, prune_type}

pub data PutError : Type 0 where
  empty_type no_usable_name dir_not_made info_unreadable slug_taken info_not_written : PutError
  history_not_read file_not_written history_not_appended : PutError

-- What appendHistory meets: the line is written, it is not, or it is written and the final Sync
-- fails.
pub data AppendOs : Type 0 where
  appends fails_write fails_sync : AppendOs

-- What the operating system answers while storing. `stats` says of each name whether os.Stat
-- answers for it, if it is there.
pub record PutOs : Type 0 where
  pub reads_history : Bool
  pub stats : Str → Bool
  pub writes_file : Bool
  pub append : AppendOs
  pub prune : PruneOs

pub record Artifact : Type 0 where
  pub file : Str
  pub sha256 : Str
  pub bytes : ℕ
  pub at : ℕ
  pub unchanged : Bool
  pub prune_err : Option PruneError

pub data PutResult : Type 0 where
  ok : Artifact → PutResult
  err : PutError → PutResult

-- lastStored
unfoldable pub last_stored : List HistoryEntry → Option HistoryEntry
last_stored [] = none
last_stored (e ∷ newer) = elim (last_stored newer) [
  | some x ↦ some x
  | none ↦ if is_empty e.file then none else some e
]

-- appendHistory, with whether it returns no error
unfoldable pub append_history : AppendOs → HistoryEntry → TypeDir → TypeDir × Bool
append_history appends e d = (record d { history = d.history ++ e ∷ [] }, true)
append_history fails_write e d = (d, false)
append_history fails_sync e d = (record d { history = d.history ++ e ∷ [] }, false)

-- The name of the i-th capture of one second.
unfoldable pub name_at : Str → ℕ → Str
name_at stamp zero = stamp ++ txt
name_at stamp (suc i) = stamp ++ lit "-" ++ itoa (suc i) ++ txt

unfoldable pub is_file : List (Str × Str) → Str → Bool
is_file [] name = false
is_file ((n, c) ∷ fs) name = str_eq n name || is_file fs name

-- fileExists, which takes an error of os.Stat for a file that is not there
unfoldable pub file_exists : (Str → Bool) → List (Str × Str) → Str → Bool
unfolding is_file
file_exists stats files name = stats name && is_file files name

-- The loop over `fileExists(path)`, on fuel: the number of the first free name.
choose : (Str → Bool) → ℕ → Str → ℕ → List (Str × Str) → ℕ
choose stats zero stamp i files = i
choose stats (suc f) stamp i files =
    let next = choose stats f stamp (suc i) files in
    if file_exists stats files (name_at stamp i) then next else i

-- One round more than there are files.
unfoldable pub fresh_name : (Str → Bool) → Str → List (Str × Str) → Str
unfolding choose
fresh_name stats stamp files = name_at stamp (choose stats (suc (length files)) stamp 0 files)

module _ (digest : Str → Str) where
  -- The entry and the artifact of an attempt that stored, or found, `file`.
  unfoldable pub entry_of : Str → ℕ → Str → Str → Bool → HistoryEntry
  entry_of command at content file unchanged = record {
    at = at;
    command = command;
    sha256 = digest content;
    bytes = length content;
    file = file;
    unchanged = unchanged;
  }

  unfoldable pub artifact_of : ℕ → Str → Str → Bool → Option PruneError → Artifact
  artifact_of at content file unchanged prune_err = record {
    file = file;
    sha256 = digest content;
    bytes = length content;
    at = at;
    unchanged = unchanged;
    prune_err = prune_err;
  }

  -- The content is that of the last stored version: only the attempt is recorded.
  unfoldable pub put_unchanged : PutOs → Str → ℕ → Str → Str → TypeDir → TypeDir × PutResult
  unfolding append_history entry_of artifact_of
  put_unchanged os command at content file d =
      let (d', done) = append_history os.append (entry_of command at content file true) d in
      (d', if done then ok (artifact_of at content file true none) else err history_not_appended)

module _ (digest : Str → Str) (format : ℕ → Str) where
  -- The content is new: a file, in place of one that has the name, an entry, and the prune.
  unfoldable pub put_new : PutOs → Str → ℕ → Str → ℕ → TypeDir → TypeDir × PutResult
  unfolding append_history entry_of artifact_of
  put_new os command at content keep d =
      let name = fresh_name os.stats (format at) d.files in
      let stored : TypeDir = record d { files = insert name content d.files } in
      let (d', done) =
        append_history os.append (entry_of digest command at content name false) stored in
      let (pruned, problem) = prune_type os.prune keep d' in
      if not os.writes_file
      then (d, err file_not_written)
      else if not done
      then (d', err history_not_appended)
      else (pruned, ok (artifact_of digest at content name false problem))

  put_after : Option HistoryEntry → PutOs → Str → ℕ → Str → ℕ → TypeDir → TypeDir × PutResult
  put_after none os command at content keep d = put_new os command at content keep d
  put_after (some prev) os command at content keep d =
      if str_eq prev.sha256 (digest content)
      then put_unchanged digest os command at content prev.file d
      else put_new os command at content keep d

  unfoldable pub put_type : PutOs → Str → ℕ → Str → ℕ → TypeDir → TypeDir × PutResult
  unfolding put_after
  put_type os command at content keep d =
      if os.reads_history
      then put_after (last_stored d.history) os command at content keep d
      else (d, err history_not_read)
