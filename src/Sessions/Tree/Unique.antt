-- ===== src/Sessions/Tree/Unique.antt =====
-- Names in the tree: every folder has one, no two folders have the same, and no two sessions of a
-- folder have the same label, each compared without case and outer white space.
pub mod Edits
use omegacatqt.Sessions.Index.Clash.{NoClash-append, NoClash-remove_at, NoClash-set_at}
use omegacatqt.Text.Trim.Laws.{trim_id, head-trim, last-trim, trim_space-trim_space}
use omegacatqt.Sessions.Node.{Node, label, normalize}
use omegacatqt.Text.{is_empty, Str}
use omegacatqt.Text.Trim.{trim_space, trim, is_space}
use omegacatqt.Sessions.Tree.{
  set_sessions, fold, set_name, Tree, Folder, add_folder, sessions_at, folder_name, session_name,
  folder_index, replace_at, add_created, add, move_node, move, add_at, then_remove, remove_folder,
  rename_folder, replace, locate, Edit, add_normal, session_index, remove_node, is_same,
}
use omegacatqt.Sessions.Index.{found, find_index, remove_at, NoClash, set_at, elsewhere}
use omegacatqt.Base.{
  inl, inr, some, none, false, [], ◌∷◌, zero, suc, refl, arith, ◌≡◌, ℕ, Option, List, All, ap,
  Bool-cases, All-append, Bool, Option-cases, if_intro, Sum-cases, true,
}

unfoldable pub IsFolder : Folder → Type 0
IsFolder f = (is_empty (trim_space f.name) ≡ false) × NoClash session_name f.sessions

unfoldable pub IsUnambiguous : Tree → Type 0
unfolding IsFolder
IsUnambiguous t = NoClash folder_name t.folders × All IsFolder t.folders

pub fold-trim_space : (s : Str) → fold (trim_space s) ≡ fold s
unfolding fold
fold-trim_space s = rw (trim_space-trim_space s) refl

pub find_index-set_sessions :
    (k : Str) (i : ℕ) (ns : List Node) (fs : List Folder)
    → (find_index folder_name k (set_sessions i ns fs) ≡ find_index folder_name k fs)
unfolding find_index set_sessions
find_index-set_sessions k i ns [] = refl
find_index-set_sessions k zero ns (f ∷ fs) = refl
find_index-set_sessions k (suc i) ns (f ∷ fs) = rw (find_index-set_sessions k i ns fs) refl

pub NoClash-set_sessions :
    (i : ℕ) (ns : List Node) (fs : List Folder)
    → NoClash folder_name fs
    → NoClash folder_name (set_sessions i ns fs)
unfolding NoClash set_sessions
NoClash-set_sessions i ns [] h = tt
NoClash-set_sessions zero ns (f ∷ fs) h = h
NoClash-set_sessions (suc i) ns (f ∷ fs) h =
    (rw (find_index-set_sessions (fold f.name) i ns fs) h.0, NoClash-set_sessions i ns fs h.1)

pub All-set_sessions :
    (i : ℕ) (ns : List Node) (fs : List Folder)
    → NoClash session_name ns
    → All IsFolder fs
    → All IsFolder (set_sessions i ns fs)
unfolding IsFolder set_sessions
All-set_sessions i ns [] c h = tt
All-set_sessions zero ns (f ∷ fs) c h = ((h.0.0, c), h.1)
All-set_sessions (suc i) ns (f ∷ fs) c h = (h.0, All-set_sessions i ns fs c h.1)

pub sessions_at-NoClash :
    (i : ℕ) (fs : List Folder) → All IsFolder fs → NoClash session_name (sessions_at i fs)
unfolding IsFolder sessions_at NoClash
sessions_at-NoClash i [] h = tt
sessions_at-NoClash zero (f ∷ fs) h = h.0.1
sessions_at-NoClash (suc i) (f ∷ fs) h = sessions_at-NoClash i fs h.1

-- Sessions of one folder are replaced by others.
pub set_sessions-IsUnambiguous :
    (i : ℕ) (ns : List Node) (t : Tree)
    → IsUnambiguous t
    → NoClash session_name ns
    → IsUnambiguous (record t { folders = set_sessions i ns t.folders })
unfolding IsUnambiguous
set_sessions-IsUnambiguous i ns t h c =
    (NoClash-set_sessions i ns t.folders h.0, All-set_sessions i ns t.folders c h.1)

pub set_name-set_at :
    (i : ℕ) (name : Str) (fs : List Folder)
    → (set_name i name fs ≡ set_at i (record { name = name; sessions = sessions_at i fs }) fs)
unfolding set_name set_at sessions_at
set_name-set_at i name [] = refl
set_name-set_at zero name (f ∷ fs) = refl
set_name-set_at (suc i) name (f ∷ fs) = ap (◌∷◌ f) (set_name-set_at i name fs)

pub All-set_name :
    (i : ℕ) (name : Str) (fs : List Folder)
    → is_empty (trim_space name) ≡ false
    → All IsFolder fs
    → All IsFolder (set_name i name fs)
unfolding IsFolder set_name
All-set_name i name [] e h = tt
All-set_name zero name (f ∷ fs) e h = ((e, h.0.1), h.1)
All-set_name (suc i) name (f ∷ fs) e h = (h.0, All-set_name i name fs e h.1)

pub All-remove_at : (i : ℕ) (fs : List Folder) → All IsFolder fs → All IsFolder (remove_at i fs)
unfolding remove_at
All-remove_at i [] h = tt
All-remove_at zero (f ∷ fs) h = h.1
All-remove_at (suc i) (f ∷ fs) h = (h.0, All-remove_at i fs h.1)
