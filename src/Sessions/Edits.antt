-- ===== src/Sessions/Edits.antt =====
-- internal/sessions/tree.go: the operations as one type, and sequences of them, as the connection
-- manager performs them.
use omegacatqt.Sessions.Tree.Refused.Move.{move-refused}
use omegacatqt.Sessions.Tree.Refused.Others.{
  add_folder-refused, rename_folder-refused, remove_folder-refused, add-refused, replace-refused,
  remove_node-refused,
}
use omegacatqt.Sessions.Tree.Unique.Edits.{
  add_folder-IsUnambiguous, rename_folder-IsUnambiguous, remove_folder-IsUnambiguous,
  add-IsUnambiguous, replace-IsUnambiguous, remove_node-IsUnambiguous, move-IsUnambiguous,
}
use omegacatqt.Sessions.Tree.Unique.{IsUnambiguous}
use omegacatqt.Sessions.Node.{Node, normalize, key}
use omegacatqt.Sessions.Tree.{
  Tree, Edit, add_folder, rename_folder, remove_folder, add, replace, remove_node, move, TreeError,
}
use omegacatqt.Sessions.Import.{
  import_normal, import_added, import_into, import_nodes, import_new, Importing, ImportResult,
}
use omegacatqt.Text.{Str, is_empty, has}
use omegacatqt.Base.{inl, inr, some, none, [], ◌∷◌, List, Bool, Bool-cases, arith, ◌≡◌}

pub data Operation : Type 0 where
  add_folder_op : Str → Operation
  rename_folder_op : Str → Str → Operation
  remove_folder_op : Str → Bool → Operation
  add_op : Str → Node → Operation
  replace_op : Str → Str → Node → Operation
  remove_op : Str → Str → Operation
  move_op : Str → Str → Str → Operation
  import_op : Str → List Node → Operation

unfoldable pub perform : Operation → Tree → Edit
perform (add_folder_op name) t = add_folder name t
perform (rename_folder_op old_name new_name) t = rename_folder old_name new_name t
perform (remove_folder_op name force) t = remove_folder name force t
perform (add_op folder n) t = add folder n t
perform (replace_op folder name n) t = replace folder name n t
perform (remove_op folder name) t = remove_node folder name t
perform (move_op from name to) t = move from name to t
perform (import_op folder ns) t = ((import_into folder ns t).tree, none)

-- A refused operation leaves the caller with the tree as the operation left it.
unfoldable pub perform_all : List Operation → Tree → Tree
unfolding perform
perform_all [] t = t
perform_all (o ∷ os) t = perform_all os (perform o t).0

import_added-IsUnambiguous :
    (n : Node) (r : ImportResult) (existing : List Str) (e : Edit)
    → IsUnambiguous e.0
    → (IsUnambiguous (import_added n r existing e).tree)
unfolding import_added
import_added-IsUnambiguous n r existing (t, some problem) h = h
import_added-IsUnambiguous n r existing (t, none) h = h

import_normal-IsUnambiguous :
    (folder : Str) (n : Node) (s : Importing)
    → IsUnambiguous s.tree
    → IsUnambiguous (import_normal folder n s).tree
unfolding import_normal import_new
import_normal-IsUnambiguous folder n s h = elim (Bool-cases (is_empty (key n))) [
  | inl a ↦ rw a h
  | inr a ↦ elim (Bool-cases (has s.existing (key n))) [
    | inl b ↦ rw (a, b) h
    | inr b ↦ rw (a, b) (import_added-IsUnambiguous _ _ _ _ (add-IsUnambiguous folder _ s.tree h))
  ]
]

import_nodes-IsUnambiguous :
    (folder : Str) (ns : List Node) (s : Importing)
    → IsUnambiguous s.tree
    → IsUnambiguous (import_nodes folder ns s).tree
unfolding import_nodes
import_nodes-IsUnambiguous folder [] s h = h
import_nodes-IsUnambiguous folder (n ∷ ns) s h =
    import_nodes-IsUnambiguous folder ns _ (import_normal-IsUnambiguous folder (normalize n) s h)

perform-IsUnambiguous : (o : Operation) (t : Tree) → IsUnambiguous t → IsUnambiguous (perform o t).0
unfolding perform import_into
perform-IsUnambiguous (add_folder_op name) t h = add_folder-IsUnambiguous name t h
perform-IsUnambiguous (rename_folder_op old_name new_name) t h =
    rename_folder-IsUnambiguous old_name new_name t h
perform-IsUnambiguous (remove_folder_op name force) t h = remove_folder-IsUnambiguous name force t h
perform-IsUnambiguous (add_op folder n) t h = add-IsUnambiguous folder n t h
perform-IsUnambiguous (replace_op folder name n) t h = replace-IsUnambiguous folder name n t h
perform-IsUnambiguous (remove_op folder name) t h = remove_node-IsUnambiguous folder name t h
perform-IsUnambiguous (move_op from name to) t h = move-IsUnambiguous from name to t h
perform-IsUnambiguous (import_op folder ns) t h = import_nodes-IsUnambiguous folder ns _ h

-- Whatever operations are performed on a tree, accepted or refused, if each of its folders had a
-- name, no two folders had the same and no two sessions of a folder had the same label (case and
-- outer white space aside), then so it is afterwards.
pub perform_all-IsUnambiguous :
    (os : List Operation) (t : Tree) → IsUnambiguous t → IsUnambiguous (perform_all os t)
unfolding perform_all
perform_all-IsUnambiguous [] t h = h
perform_all-IsUnambiguous (o ∷ os) t h =
    perform_all-IsUnambiguous os _ (perform-IsUnambiguous o t h)

-- An operation that returns an error has left the tree as it was: Add although it may make the
-- folder before it refuses, and Move although it adds before it removes.
pub perform-refused :
    (o : Operation) (t : Tree) (problem : TreeError)
    → (perform o t).1 ≡ some problem
    → ((perform o t).0 ≡ t)
unfolding perform
perform-refused (add_folder_op name) t problem h = add_folder-refused name t problem h
perform-refused (rename_folder_op old_name new_name) t problem h =
    rename_folder-refused old_name new_name t problem h
perform-refused (remove_folder_op name force) t problem h =
    remove_folder-refused name force t problem h
perform-refused (add_op folder n) t problem h = add-refused folder n t problem h
perform-refused (replace_op folder name n) t problem h = replace-refused folder name n t problem h
perform-refused (remove_op folder name) t problem h = remove_node-refused folder name t problem h
perform-refused (move_op from name to) t problem h = move-refused from name to t problem h
perform-refused (import_op folder ns) t problem h = absurd (ground arith)
