-- ===== src/Capture/History.antt =====
-- internal/capture/store.go: what one type directory holds. The history is the decoded
-- history.jsonl, oldest entry first; the files are the other regular files, name and content.
-- What the operating system answers to each call is an argument, so that every error path runs.
use omegacatqt.Text.Assoc.{lookup}
use omegacatqt.Base.{ℕ, Bool, some, List, ◌⊎◌, ◌≡◌, true, All}
use omegacatqt.Text.{Str, lit, is_empty}
use omegacatqt.Text.Match.{has_suffix}

-- HistoryEntry; a time is the number of seconds since the epoch, in UTC
pub record HistoryEntry : Type 0 where
  pub at : ℕ
  pub command : Str
  pub sha256 : Str
  pub bytes : ℕ
  pub file : Str
  pub unchanged : Bool

pub record TypeDir : Type 0 where
  pub history : List HistoryEntry
  pub files : List (Str × Str)

abbrev pub txt : Str
txt = lit ".txt"

abbrev pub parsed_json : Str
parsed_json = lit ".parsed.json"

-- What a reader of the store relies on: each version that the history names is on disk, under a
-- capture's name, and has the recorded digest.
pub record IsStored (digest : Str → Str) (files : List (Str × Str)) (e : HistoryEntry)
    : Type 0 where
  pub content : Str
  pub read : lookup files e.file ≡ some content
  pub sha : digest content ≡ e.sha256
  pub named : has_suffix e.file txt ≡ true

abbrev pub IsReadable : (Str → Str) → TypeDir → Type 0
IsReadable digest d = All (λ e. (is_empty e.file ≡ true) ⊎ IsStored digest d.files e) d.history
