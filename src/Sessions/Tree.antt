-- ===== src/Sessions/Tree.antt =====
-- internal/sessions/tree.go: the tree of folders and its editing operations.
pub mod Unique
pub mod Count
pub mod Refused
use omegacatqt.Text.Trim.{trim_space}
use omegacatqt.Sessions.Index.{find_index, remove_at, set_at, found, elsewhere}
use omegacatqt.Text.{Str, to_lower, is_empty}
use omegacatqt.Sessions.Node.{Node, label, normalize}
use omegacatqt.Base.{
  inl, inr, some, none, true, false, [], ◌∷◌, zero, suc, ℕ, Option, List, ◌++◌, ◌⊎◌, if◌then◌else◌,
  Bool, ◌==◌, not, ◌&&◌, refl, arith, ◌≡◌,
}

pub record Folder : Type 0 where
  pub name : Str
  pub sessions : List Node

pub record Tree : Type 0 where
  pub version : ℕ
  pub folders : List Folder

pub data TreeError : Type 0 where
  name_required folder_exists no_folder folder_not_empty label_required : TreeError
  session_exists no_session : TreeError

abbrev pub Edit : Type 0
Edit = Tree × Option TreeError

-- What names are compared by.
unfoldable pub fold : Str → Str
fold s = to_lower (trim_space s)

abbrev pub folder_name : Folder → Str
folder_name f = fold f.name

abbrev pub session_name : Node → Str
session_name n = fold (label n)

unfoldable pub folder_index : Tree → Str → Option ℕ
folder_index t name = find_index folder_name (fold name) t.folders

unfoldable pub session_index : List Node → Str → Option ℕ
session_index ns name = find_index session_name (fold name) ns

-- Nodes
unfoldable pub nodes : List Folder → List Node
nodes [] = []
nodes (f ∷ fs) = f.sessions ++ nodes fs

unfoldable pub sessions_at : ℕ → List Folder → List Node
sessions_at i [] = []
sessions_at zero (f ∷ fs) = f.sessions
sessions_at (suc i) (f ∷ fs) = sessions_at i fs

-- t.Folders[i].Sessions = ns
unfoldable pub set_sessions : ℕ → List Node → List Folder → List Folder
set_sessions i ns [] = []
set_sessions zero ns (f ∷ fs) = record f { sessions = ns } ∷ fs
set_sessions (suc i) ns (f ∷ fs) = f ∷ set_sessions i ns fs

-- t.Folders[i].Name = name
unfoldable pub set_name : ℕ → Str → List Folder → List Folder
set_name i name [] = []
set_name zero name (f ∷ fs) = record f { name = name } ∷ fs
set_name (suc i) name (f ∷ fs) = f ∷ set_name i name fs

unfoldable pub is_nil : List Node → Bool
is_nil [] = true
is_nil (n ∷ ns) = false

-- AddFolder
unfoldable pub add_folder : Str → Tree → Edit
unfolding found
add_folder name t =
    if is_empty (trim_space name)
    then (t, some name_required)
    else if found (folder_index t (trim_space name))
    then (t, some folder_exists)
    else (
      record t { folders = t.folders ++ record { name = trim_space name; sessions = [] } ∷ [] },
      none,
    )

-- RenameFolder
unfoldable pub rename_folder : Str → Str → Tree → Edit
unfolding elsewhere
rename_folder old_name new_name t =
    if is_empty (trim_space new_name)
    then (t, some name_required)
    else elim (folder_index t old_name) [
      | none ↦ (t, some no_folder)
      | some i ↦
          if elsewhere (folder_index t (trim_space new_name)) i
          then (t, some folder_exists)
          else (record t { folders = set_name i (trim_space new_name) t.folders }, none)
    ]

-- RemoveFolder
unfoldable pub remove_folder : Str → Bool → Tree → Edit
unfolding is_nil
remove_folder name force t = elim (folder_index t name) [
  | none ↦ (t, some no_folder)
  | some i ↦
      if not (is_nil (sessions_at i t.folders)) && not force
      then (t, some folder_not_empty)
      else (record t { folders = remove_at i t.folders }, none)
]

-- The end of Add, with the folder's position.
unfoldable pub add_at : ℕ → Node → Tree → Edit
add_at i n t =
    if found (session_index (sessions_at i t.folders) (label n))
    then (t, some session_exists)
    else (record t { folders = set_sessions i (sessions_at i t.folders ++ n ∷ []) t.folders }, none)

-- Add after AddFolder: FolderIndex is asked again, and finds the folder that was made; the code
-- would index out of range if it did not.
unfoldable pub add_created : Str → Node → Edit → Edit
add_created folder n (t, some problem) = (t, some problem)
add_created folder n (t, none) = elim (folder_index t folder) [
  | none ↦ (t, some no_folder)
  | some i ↦ add_at i n t
]

unfoldable pub add_normal : Str → Node → Tree → Edit
unfolding add_at add_created
add_normal folder n t =
    if is_empty (label n) then (t, some label_required) else elim (folder_index t folder) [
      | some i ↦ add_at i n t
      | none ↦ add_created folder n (add_folder folder t)
    ]

-- Add
unfoldable pub add : Str → Node → Tree → Edit
unfolding add_normal
add folder n t = add_normal folder (normalize n) t

-- Where a session is.
unfoldable pub locate : Str → Str → Tree → TreeError ⊎ (ℕ × ℕ)
locate folder name t = elim (folder_index t folder) [
  | none ↦ inl no_folder
  | some i ↦ elim (session_index (sessions_at i t.folders) name) [
    | none ↦ inl no_session
    | some j ↦ inr (i, j)
  ]
]

unfoldable pub replace_at : ℕ × ℕ → Node → Tree → Edit
replace_at (i, j) n t =
    let ns = sessions_at i t.folders in
    if is_empty (label n)
    then (t, some label_required)
    else if elsewhere (session_index ns (label n)) j
    then (t, some session_exists)
    else (record t { folders = set_sessions i (set_at j n ns) t.folders }, none)

-- Replace
unfoldable pub replace : Str → Str → Node → Tree → Edit
unfolding locate replace_at
replace folder name n t = elim (locate folder name t) [
  | inl problem ↦ (t, some problem)
  | inr at ↦ replace_at at (normalize n) t
]

-- Remove
unfoldable pub remove_node : Str → Str → Tree → Edit
unfolding locate
remove_node folder name t = elim (locate folder name t) [
  | inl problem ↦ (t, some problem)
  | inr (i, j) ↦ (
    record t { folders = set_sessions i (remove_at j (sessions_at i t.folders)) t.folders },
    none,
  )
]

unfoldable pub is_same : Option ℕ → ℕ → Bool
is_same none i = false
is_same (some j) i = j == i

-- The end of Move: Remove, if Add was accepted.
unfoldable pub then_remove : Str → Str → Edit → Edit
then_remove folder name (t, some problem) = (t, some problem)
then_remove folder name (t, none) = remove_node folder name t

unfoldable pub node_at : ℕ → List Node → Option Node
node_at i [] = none
node_at zero (n ∷ ns) = some n
node_at (suc i) (n ∷ ns) = node_at i ns

-- The session is there, since SessionIndex found it.
unfoldable pub move_node : Str → Str → Str → Option Node → Tree → Edit
move_node from name to none t = (t, some no_session)
move_node from name to (some n) t = then_remove from name (add to n t)

-- Move
unfoldable pub move : Str → Str → Str → Tree → Edit
unfolding is_same then_remove move_node
move from name to t = elim (locate from name t) [
  | inl problem ↦ (t, some problem)
  | inr (i, j) ↦
      if is_same (folder_index t to) i
      then (t, none)
      else move_node from name to (node_at j (sessions_at i t.folders)) t
]
