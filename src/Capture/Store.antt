-- ===== src/Capture/Store.antt =====
-- internal/capture/store.go: Put over the whole store, with mergeDeviceInfo. A device directory is
-- known by its name, and a type directory by its path in the device directory.
pub mod Frame
use omegacatqt.Capture.Path.{type_path}
use omegacatqt.Text.Trim.{trim_space}
use omegacatqt.Base.{
  inl, inr, some, none, true, false, [], ◌∷◌, zero, suc, refl, arith, ◌≡◌, ℕ, Bool, List, Option,
  ◌++◌, if◌then◌else◌, not, ◌||◌,
}
use omegacatqt.Text.{Str, is_empty, has, to_lower, equal_fold, sort_strings}
use omegacatqt.Text.Assoc.{lookup, insert}
use omegacatqt.Capture.History.{TypeDir}
use omegacatqt.Capture.Slug.{slug}
use omegacatqt.Capture.Put.{
  put_type, PutOs, PutError, PutResult, ok, err, no_usable_name, dir_not_made, empty_type,
  info_unreadable, slug_taken, info_not_written,
}

pub record DeviceInfo : Type 0 where
  pub canonical : Str
  pub aliases : List Str
  pub platform : Str
  pub first_seen : ℕ
  pub last_seen : ℕ

pub record DeviceDir : Type 0 where
  pub info : Option DeviceInfo
  pub types : List (Str × TypeDir)

-- <root>/devices
abbrev pub Store : Type 0
Store = List (Str × DeviceDir)

-- Both MkdirAll calls, the reading and the writing of device.json, and the type directory.
pub record StoreOs : Type 0 where
  pub makes_type_dir : Bool
  pub makes_device_dir : Bool
  pub reads_info : Bool
  pub writes_info : Bool
  pub put : PutOs

merge_from : List Str → List Str → List Str
merge_from seen [] = []
merge_from seen (v ∷ vs) =
    let w = trim_space v in
    let skipped = merge_from seen vs in
    let taken = merge_from (to_lower w ∷ seen) vs in
    if is_empty w || has seen (to_lower w) then skipped else w ∷ taken

-- mergeStrings
unfoldable pub merge_strings : List Str → List Str → List Str
unfolding merge_from
merge_strings a b = sort_strings (merge_from [] (a ++ b))

unfoldable pub merged_info : Option DeviceInfo → DeviceInfo → ℕ → DeviceInfo
unfolding merge_strings
merged_info none dev at = record dev { first_seen = at; last_seen = at }
merged_info (some old) dev at = record {
  canonical = old.canonical;
  aliases = merge_strings old.aliases dev.aliases;
  platform = if is_empty dev.platform then old.platform else dev.platform;
  first_seen = old.first_seen;
  last_seen = at;
}

-- Whether the directory already belongs to a device of another name.
unfoldable pub is_taken : Option DeviceInfo → DeviceInfo → Bool
is_taken none dev = false
is_taken (some old) dev = not (equal_fold old.canonical dev.canonical)

empty_type_dir : TypeDir
empty_type_dir = record { history = []; files = [] }

unfoldable pub type_dir : DeviceDir → Str → TypeDir
unfolding empty_type_dir
type_dir dd typ = elim (lookup dd.types typ) [ some d ↦ d | none ↦ empty_type_dir ]

unfoldable pub device_dir : Store → Str → DeviceDir
device_dir s k = elim (lookup s k) [ some dd ↦ dd | none ↦ record { info = none; types = [] } ]

unfoldable pub set_type : Str → Str → TypeDir → Store → Store
unfolding device_dir
set_type k typ d s =
    let dd = device_dir s k in insert k (record dd { types = insert typ d dd.types }) s

-- MkdirAll of a type directory, if it is one of the store
unfoldable pub make_dir : Option (Str × Str) → Store → Store
unfolding set_type device_dir type_dir
make_dir none s = s
make_dir (some (k, typ)) s = set_type k typ (type_dir (device_dir s k) typ) s

-- mergeDeviceInfo
unfoldable pub merge_device_info : StoreOs → Str → DeviceInfo → ℕ → Store → Store × Option PutError
unfolding merged_info is_taken device_dir
merge_device_info os k dev at s =
    let dd = device_dir s k in
    let made = insert k dd s in
    let written = insert k (record dd { info = some (merged_info dd.info dev at) }) s in
    if not os.makes_device_dir
    then (s, some dir_not_made)
    else if not os.reads_info
    then (made, some info_unreadable)
    else if is_taken dd.info dev
    then (made, some slug_taken)
    else if not os.writes_info
    then (made, some info_not_written)
    else (written, none)

-- `root` is the path of the store, innermost element first, and `outside` what the type directory
-- holds if it lies outside the store.
module _ (digest : Str → Str) (format : ℕ → Str) (root : List Str) (outside : TypeDir) where
  unfoldable pub put_at : Option (Str × Str) → PutOs → Str → ℕ → Str → ℕ → Store → Store × PutResult
  unfolding set_type device_dir type_dir
  put_at none os command at content keep s =
      (s, (put_type digest format os command at content keep outside).1)
  put_at (some (k, typ)) os command at content keep s =
      let put = put_type digest format os command at content keep (type_dir (device_dir s k) typ) in
      (set_type k typ put.0 s, put.1)

  -- The work under the device's lock.
  unfoldable pub put_device :
      Str → StoreOs → DeviceInfo → Str → Str → ℕ → Str → ℕ → Store → Store × PutResult
  unfolding make_dir merge_device_info put_at
  put_device k os dev typ command at content keep s =
      let place = type_path root k typ in
      let merged = merge_device_info os k dev at (make_dir place s) in
      let stored = put_at place os.put command at content keep merged.0 in
      if not os.makes_type_dir
      then (s, err dir_not_made)
      else elim merged.1 [ some e ↦ (merged.0, err e) | none ↦ stored ]

  unfoldable pub put : StoreOs → DeviceInfo → Str → Str → ℕ → Str → ℕ → Store → Store × PutResult
  unfolding put_device
  put os dev typ command at content keep s =
      if is_empty (trim_space typ) then (s, err empty_type) else elim (slug dev.canonical) [
        | none ↦ (s, err no_usable_name)
        | some k ↦ put_device k os dev typ command at content keep s
      ]
