-- ===== src/Credres/Binding/Store.antt =====
-- MemoryBindings and FileBindings of internal/credres/binding.go. What is on disk is the list of
-- bindings that the file holds: JSON and secfile.WriteAtomic, which writes all or nothing, are
-- left out, and whether a write succeeds is an argument.
use omegacatqt.Credres.Aliases.{binding_of, Binding, new_alias_set, AliasSet}
use omegacatqt.Credres.Resolve.{Bindings}
use omegacatqt.Normalize.{Ip, suffix_of, identifier}
use omegacatqt.Text.{Str, str_le, is_empty, sort_strings, has}
use omegacatqt.Credres.Binding.{bind, find_record, forget_pin, load, record_binding}
use omegacatqt.Base.{
  some, none, true, false, [], ◌∷◌, List, Bool, map, ◌++◌, ℕ, if◌then◌else◌, ◌||◌, Option, ◌&&◌,
  not,
}

-- sort.Slice by Canonical
unfoldable pub insert_binding : Binding → List Binding → List Binding
insert_binding b [] = b ∷ []
insert_binding b (c ∷ cs) =
    let rest = insert_binding b cs in
    if str_le b.canonical c.canonical then b ∷ c ∷ cs else c ∷ rest

unfoldable pub sort_bindings : List Binding → List Binding
unfolding insert_binding
sort_bindings [] = []
sort_bindings (b ∷ bs) = insert_binding b (sort_bindings bs)

-- snapshotAll
unfoldable pub snapshot_all : AliasSet → List Binding
unfolding sort_bindings
snapshot_all s = sort_bindings (map (λ i. binding_of (s.heap i)) s.records)

-- storedBinding, which decodes both formats
pub record StoredBinding : Type 0 where
  pub identity : Str
  pub canonical : Str
  pub aliases : List Str
  pub cred_id : Str
  pub last_ok : ℕ
  pub hits : ℕ

abbrev pub no_names : List Str → Bool
no_names [] = true
no_names (x ∷ xs) = false

-- toBinding
unfoldable pub to_binding : StoredBinding → Binding
to_binding sb = record {
  canonical = if is_empty sb.canonical then sb.identity else sb.canonical;
  aliases =
      if no_names sb.aliases && not (is_empty sb.identity) then sb.identity ∷ [] else sb.aliases;
  cred_id = sb.cred_id;
  last_ok = sb.last_ok;
  hits = sb.hits;
}

-- The literal of saveLocked.
unfoldable pub to_stored : Binding → StoredBinding
to_stored b = record {
  identity = [];
  canonical = b.canonical;
  aliases = b.aliases;
  cred_id = b.cred_id;
  last_ok = b.last_ok;
  hits = b.hits;
}

-- FileBindings with the file at its path
pub record FileBindings : Type 0 where
  pub set : AliasSet
  pub suffixes : List Str
  pub disk : List StoredBinding
  pub disk_suffixes : List Str

-- saveLocked, and whether it succeeded
unfoldable pub save_locked : Bool → FileBindings → FileBindings × Bool
unfolding snapshot_all to_stored
save_locked ok s =
    if ok
    then (record s { disk = map to_stored (snapshot_all s.set); disk_suffixes = s.suffixes }, true)
    else (s, false)

-- The loop of NoteContext: the suffixes, those seen, and whether one is new.
unfoldable pub note_suffixes : List Str → List Str → List Str → Bool → List Str × Bool
unfolding suffix_of
note_suffixes [] have suffixes is_new = (suffixes, is_new)
note_suffixes (x ∷ xs) have suffixes is_new =
    let skip = note_suffixes xs have suffixes is_new in
    let add = note_suffixes xs (suffix_of x ∷ have) (suffixes ++ (suffix_of x ∷ [])) true in
    if is_empty (suffix_of x) || has have (suffix_of x) then skip else add

-- NoteContext: what the file had seen before, and whether this run is new to it
unfoldable pub note_context : Bool → List Str → FileBindings → FileBindings × List Str × Bool
unfolding note_suffixes save_locked
note_context ok suffixes s =
    let noted = note_suffixes suffixes (map identifier s.suffixes) s.suffixes false in
    let saved = save_locked ok (record s { suffixes = sort_strings noted.0 }) in
    if noted.1 then (saved.0, s.suffixes, true) else (s, s.suffixes, false)

module _ {A : Type 0} (ip : Ip A) where
  -- Lookup
  unfoldable pub lookup_binding : List Str → AliasSet → Option Binding
  unfolding find_record binding_of
  lookup_binding ids s = elim (find_record ip ids s) [
    | none ↦ none
    | some r ↦ if is_empty (s.heap r).cred_id then none else some (binding_of (s.heap r))
  ]

  -- Resolve
  unfoldable pub resolve_binding : List Str → AliasSet → Option Binding
  unfolding find_record binding_of
  resolve_binding ids s = elim (find_record ip ids s) [
    | none ↦ none
    | some r ↦ some (binding_of (s.heap r))
  ]

  -- MemoryBindings.Record
  unfoldable pub memory_record : ℕ → Str → List Str → AliasSet → AliasSet
  unfolding record_binding
  memory_record now cred_id ids s =
      if is_empty cred_id then s else record_binding ip now cred_id ids s

  -- MemoryBindings.Forget
  unfoldable pub memory_forget : List Str → AliasSet → AliasSet
  unfolding forget_pin
  memory_forget ids s = (forget_pin ip ids s).1

  -- MemoryBindings.Bind
  unfoldable pub memory_bind : Str → List Str → AliasSet → AliasSet
  unfolding bind
  memory_bind canonical aliases s = (bind ip canonical (canonical ∷ aliases) s).1

  -- The binding store of the resolver, at a time.
  abbrev pub memory_bindings : ℕ → Bindings AliasSet
  memory_bindings now = record {
    pin_of = λ s ids. (elim (lookup_binding ids s) [ none ↦ none | some b ↦ some b.cred_id ]);
    note_success = λ s cred_id ids. memory_record now cred_id ids s;
    forget = λ s ids. memory_forget ids s;
  }

  -- FileBindings.Record
  unfoldable pub file_record : Bool → ℕ → Str → List Str → FileBindings → FileBindings × Bool
  unfolding record_binding save_locked
  file_record ok now cred_id ids s =
      let saved = save_locked ok (record s { set = record_binding ip now cred_id ids s.set }) in
      if is_empty cred_id then (s, true) else saved

  -- FileBindings.Forget
  unfoldable pub file_forget : Bool → List Str → FileBindings → FileBindings × Bool
  unfolding forget_pin save_locked
  file_forget ok ids s =
      let forgot = forget_pin ip ids s.set in
      let saved = save_locked ok (record s { set = forgot.1 }) in
      if forgot.0 then saved else (s, true)

  -- FileBindings.Bind
  unfoldable pub file_bind : Bool → Str → List Str → FileBindings → FileBindings × Bool
  unfolding bind save_locked
  file_bind ok canonical aliases s =
      let bound = bind ip canonical (canonical ∷ aliases) s.set in
      let saved = save_locked ok (record s { set = bound.1 }) in
      elim bound.0 [ none ↦ (s, true) | some t ↦ saved ]

  -- OpenFileBindings, on a file that decodes
  unfoldable pub open_file_bindings : List StoredBinding → List Str → FileBindings
  unfolding to_binding load
  open_file_bindings disk suffixes = record {
    set = load ip (map to_binding disk) new_alias_set;
    suffixes = suffixes;
    disk = disk;
    disk_suffixes = suffixes;
  }
