-- ===== src/Capture/Tests.antt =====
-- Runs and instances of the theorems of the capture store, at a directory with two versions.
use omegacatqt.Text.Match.{split}
use omegacatqt.Capture.Path.{
  is_plain, type_path, clean_path, step_path, locate, is_same_path, join_path,
}
use omegacatqt.Capture.Slug.Safe.{IsElement, slug-slug, slug-IsElement}
use omegacatqt.Capture.Put.Reads.{put_type-IsReadable}
use omegacatqt.Text.Trim.{trim_space, trim_left, trim_right, trim}
use omegacatqt.Capture.Put.Name.{fresh_name-free}
use omegacatqt.Capture.Prune.Window.{versions, cut_least}
use omegacatqt.Capture.Store.Frame.{IsReadableStore, put-readable, put_frame}
use omegacatqt.Capture.Put.Stores.{Holds, put_type-Holds}
use omegacatqt.Capture.Slug.{slug, is_safe}
use omegacatqt.Capture.Prune.Sweep.{prune_type-IsReadable, Kept, prune_type-exact}
use omegacatqt.Capture.Store.{StoreOs, DeviceInfo, DeviceDir, Store, put, device_dir, type_dir}
use omegacatqt.Text.Match.{has_suffix, trim_suffix}
use omegacatqt.Text.Decimal.{itoa}
use omegacatqt.Text.Assoc.{lookup, insert}
use omegacatqt.Base.{
  inr, none, true, false, [], ◌∷◌, refl, ◌≡◌, ℕ, ◌++◌, some, arith, length, drop, ◌≤◌, ap, subst,
  inl, sym, List, ◌⊎◌, Bool-cases,
}
use omegacatqt.Text.{Str, lit, has, str_eq, is_empty, to_lower}
use omegacatqt.Capture.History.{HistoryEntry, TypeDir, IsReadable}
use omegacatqt.Capture.Prune.{PruneOs, prune_type, is_swept, scan}
use omegacatqt.Capture.Put.{
  PutOs, appends, put_type, Artifact, file_exists, PutResult, last_stored, fresh_name, fails_sync,
  name_at, ok, put_new,
}

-- A digest for tests: the content itself.
abbrev digest : Str → Str
digest c = c

abbrev format : ℕ → Str
format n = lit "t" ++ itoa n

abbrev entry : Str → Str → HistoryEntry
entry file content = record {
  at = 0;
  command = lit "show arp";
  sha256 = content;
  bytes = 1;
  file = file;
  unchanged = false;
}

abbrev two : TypeDir
two = record {
  history = entry (lit "a.txt") (lit "A") ∷ entry (lit "b.txt") (lit "B") ∷ [];
  files =
      (lit "b.txt", lit "B")
      ∷ (lit "a.txt", lit "A")
      ∷ (lit "a.parsed.json", lit "{}")
      ∷ (lit "old.txt", lit "O")
      ∷ [];
}

abbrev prune_os : PruneOs
prune_os = record {
  reads_history = true;
  rewrites_history = true;
  reads_dir = true;
  removes = λ n. true;
}

abbrev put_os : PutOs
put_os = record {
  reads_history = true;
  stats = λ n. true;
  writes_file = true;
  append = appends;
  prune = prune_os;
}

two-IsReadable : IsReadable digest two
unfolding lookup str_eq has_suffix
two-IsReadable = (
  inr (record { content = lit "A"; read = refl; sha = refl; named = refl }),
  (inr (record { content = lit "B"; read = refl; sha = refl; named = refl }), tt),
)

prune_two : (prune_type prune_os 1 two).0.files ≡ (lit "b.txt", lit "B") ∷ []
unfolding prune_type has str_eq has_suffix trim_suffix is_empty is_swept
prune_two = refl

prune_two_runs : (prune_type prune_os 1 two).1 ≡ none
unfolding prune_type has str_eq has_suffix trim_suffix is_empty is_swept
prune_two_runs = refl

abbrev put_two : TypeDir × PutResult
put_two = put_type digest format put_os (lit "show arp") 7 (lit "C") 1 two

abbrev artifact : Artifact
artifact = record {
  file = lit "t7.txt";
  sha256 = lit "C";
  bytes = 1;
  at = 7;
  unchanged = false;
  prune_err = none;
}

put_two_stores : put_two ≡ (
  record {
    history = record (entry (lit "t7.txt") (lit "C")) { at = 7 } ∷ [];
    files = (lit "t7.txt", lit "C") ∷ [];
  },
  ok artifact,
)
unfolding put_type prune_type has str_eq has_suffix trim_suffix is_empty is_swept last_stored
    fresh_name itoa name_at file_exists put_new insert
put_two_stores = refl

put_type-Holds_example : Holds digest put_os.stats (lit "C") two put_two.0 artifact
put_type-Holds_example =
    put_type-Holds digest format put_os (lit "show arp") 7 (lit "C") 1 two artifact two-IsReadable
      (ap (λ (r : TypeDir × PutResult). r.1) put_two_stores)

put_type-IsReadable_example :
    IsReadable digest
      (put_type digest format
        (record put_os { append = fails_sync })
        (lit "show arp")
        7
        (lit "C")
        1
        two).0
put_type-IsReadable_example =
    put_type-IsReadable digest format (record put_os { append = fails_sync }) (lit "show arp") 7
      (lit "C") 1 two (λ n. refl) two-IsReadable

prune_type-IsReadable_example :
    IsReadable digest (prune_type (record prune_os { removes = λ n. false }) 1 two).0
prune_type-IsReadable_example =
    prune_type-IsReadable digest (record prune_os { removes = λ n. false }) 1 two two-IsReadable

prune_type-exact_example :
    ((prune_type prune_os 1 two).0.history ≡ drop (scan 1 two.history).1 two.history)
    × Kept
        (versions (prune_type prune_os 1 two).0.history)
        two.files
        (prune_type prune_os 1 two).0.files
prune_type-exact_example = prune_type-exact prune_os 1 two (omega arith) (λ e. cc) prune_two_runs

cut_least_example :
    (length (versions (drop (scan 1 two.history).1 two.history)) ≤ 1)
    × ((k : ℕ) → length (versions (drop k two.history)) ≤ 1 → (scan 1 two.history).1 ≤ k)
    × ((scan 1 two.history).0 ≡ versions (drop (scan 1 two.history).1 two.history))
cut_least_example = cut_least 1 two.history

fresh_name-free_example :
    file_exists
      (λ n. true)
      ((lit "t7.txt", []) ∷ (lit "t7-1.txt", []) ∷ [])
      (fresh_name (λ n. true) (lit "t7") ((lit "t7.txt", []) ∷ (lit "t7-1.txt", []) ∷ []))
    ≡ false
fresh_name-free_example =
    fresh_name-free (λ n. true) (lit "t7") ((lit "t7.txt", []) ∷ (lit "t7-1.txt", []) ∷ [])

slug-IsElement_example : IsElement (lit "con-dev")
unfolding slug is_safe trim_space to_lower trim_left trim_right trim is_empty has str_eq
slug-IsElement_example = slug-IsElement (lit " CON ") (lit "con-dev") refl

slug-slug_example : slug (lit "con-dev") ≡ some (lit "con-dev")
unfolding slug is_safe trim_space to_lower trim_left trim_right trim is_empty has str_eq
slug-slug_example = slug-slug (lit " CON ") (lit "con-dev") refl

abbrev device : DeviceInfo
device = record {
  canonical = lit "SW1";
  aliases = [];
  platform = [];
  first_seen = 0;
  last_seen = 0;
}

abbrev other : DeviceInfo
other = record device { canonical = lit "sw-1" }

abbrev device_one : DeviceDir
device_one = record { info = some device; types = (lit "arp-table", two) ∷ [] }

abbrev store_os : StoreOs
store_os = record {
  makes_type_dir = true;
  makes_device_dir = true;
  reads_info = true;
  writes_info = true;
  put = put_os;
}

abbrev store_one : Store
store_one = (lit "sw1", device_one) ∷ []

abbrev root : List Str
root = lit "store" ∷ []

abbrev nothing : TypeDir
nothing = record { history = []; files = [] }

type_dir_one : (typ : Str) → (type_dir device_one typ ≡ two) ⊎ (type_dir device_one typ ≡ nothing)
unfolding type_dir lookup
type_dir_one typ = ground arith

store_one-dirs :
    (k typ : Str)
    → (type_dir (device_dir store_one k) typ ≡ two)
      ⊎ (type_dir (device_dir store_one k) typ ≡ nothing)
unfolding device_dir lookup type_dir str_eq
store_one-dirs k typ = elim (Bool-cases (str_eq (lit "sw1") k)) [
  | inl h ↦ rw h (type_dir_one typ)
  | inr h ↦ rw h (inr refl)
]

store_one-readable : IsReadableStore digest store_one
store_one-readable k typ = elim (store_one-dirs k typ) [
  | inl e ↦ subst (IsReadable digest) (sym e) two-IsReadable
  | inr e ↦ subst (IsReadable digest) (sym e) tt
]

abbrev put_one : Str → Store × PutResult
put_one typ =
    put digest format root nothing store_os device typ (lit "show arp") 7 (lit "C") 1 store_one

put-readable_example : IsReadableStore digest (put_one (lit "arp-table")).0
put-readable_example =
    put-readable digest format root nothing store_os device (lit "arp-table") (lit "show arp") 7
      (lit "C") 1 store_one (λ n. refl) store_one-readable

put_frame_example : lookup (put_one (lit "arp-table")).0 (lit "sw2") ≡ lookup store_one (lit "sw2")
unfolding slug is_safe trim_space to_lower trim_left trim_right trim is_empty has str_eq is_plain
put_frame_example =
    put_frame digest format root nothing store_os device (lit "arp-table") (lit "show arp") 7
      (lit "C") 1 store_one (lit "sw2") refl (λ e. cc)

-- A capture type with separators leads into another device's directory.
other_device : type_path root (lit "sw1") (lit "../sw2/arp") ≡ some (lit "sw2", lit "arp")
unfolding type_path split clean_path step_path locate is_same_path join_path str_eq is_empty
other_device = refl
