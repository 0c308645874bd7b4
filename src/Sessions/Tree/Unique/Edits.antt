-- ===== src/Sessions/Tree/Unique/Edits.antt =====
-- Every operation on the tree keeps its names unambiguous.
use omegacatqt.Sessions.Index.Clash.{NoClash-append, NoClash-remove_at, NoClash-set_at}
use omegacatqt.Text.Trim.{trim_space}
use omegacatqt.Sessions.Node.{Node, label, normalize}
use omegacatqt.Sessions.Tree.Unique.{
  IsUnambiguous, set_sessions-IsUnambiguous, set_name-set_at, All-remove_at, sessions_at-NoClash,
  IsFolder, All-set_name, trim_space-trim_space,
}
use omegacatqt.Text.{Str, is_empty}
use omegacatqt.Sessions.Index.{found, elsewhere, find_index, NoClash}
use omegacatqt.Sessions.Tree.{
  then_remove, add_created, replace, move_node, remove_folder, add, rename_folder, move,
  remove_node, replace_at, add_at, add_folder, add_normal, session_index, Tree, Edit, sessions_at,
  folder_index, locate, is_same, session_name, folder_name,
}
use omegacatqt.Base.{
  inl, inr, some, none, false, refl, arith, ◌≡◌, ℕ, Option, Bool, Bool-cases, Sum-cases,
  Option-cases, if_intro, All-append,
}

found-none : (o : Option ℕ) → found o ≡ false → o ≡ none
unfolding found
found-none none h = refl
found-none (some i) h = ground arith

pub add_folder-IsUnambiguous :
    (name : Str) (t : Tree) → IsUnambiguous t → IsUnambiguous (add_folder name t).0
unfolding add_folder
add_folder-IsUnambiguous name t h = elim (Bool-cases (is_empty (trim_space name))) [
  | inl a ↦ rw a h
  | inr a ↦ elim (Bool-cases (found (folder_index t (trim_space name)))) [
    | inl b ↦ rw (a, b) h
    | inr b ↦
        rw (a, b)
          (unfold IsUnambiguous in
            unfold folder_index in
            (
              NoClash-append folder_name t.folders _ h.0 (found-none _ b),
              All-append IsFolder t.folders _ h.1 (
                  unfold IsFolder in
                  unfold NoClash in ((rw (trim_space-trim_space name) a, tt), tt)),
            ))
  ]
]

pub rename_folder-IsUnambiguous :
    (old_name new_name : Str) (t : Tree)
    → IsUnambiguous t
    → IsUnambiguous (rename_folder old_name new_name t).0
unfolding rename_folder
rename_folder-IsUnambiguous old_name new_name t h =
    elim (Bool-cases (is_empty (trim_space new_name))) [
      | inl a ↦ rw a h
      | inr a ↦ elim (Option-cases (folder_index t old_name)) [
        | inl b ↦ rw (a, b) h
        | inr (i, b) ↦ elim (Bool-cases (elsewhere (folder_index t (trim_space new_name)) i)) [
          | inl c ↦ rw (a, b, c) h
          | inr c ↦
              rw (a, b, c)
                (unfold IsUnambiguous in
                  unfold folder_index in
                  (
                    rw (set_name-set_at i (trim_space new_name) t.folders)
                        (NoClash-set_at folder_name i _ t.folders h.0 c),
                    All-set_name i (trim_space new_name) t.folders
                        (rw (trim_space-trim_space new_name) a) h.1,
                  ))
        ]
      ]
    ]

pub remove_folder-IsUnambiguous :
    (name : Str) (force : Bool) (t : Tree)
    → IsUnambiguous t
    → IsUnambiguous (remove_folder name force t).0
unfolding remove_folder IsUnambiguous
remove_folder-IsUnambiguous name force t h = elim (Option-cases (folder_index t name)) [
  | inl b ↦ rw (b, remove_folder) h
  | inr (i, b) ↦
      rw (b, remove_folder)
        (if_intro (λ (e : Edit). IsUnambiguous e.0) _ _ _ h
          (NoClash-remove_at folder_name i t.folders h.0, All-remove_at i t.folders h.1))
]

add_at-IsUnambiguous :
    (i : ℕ) (n : Node) (t : Tree) → IsUnambiguous t → IsUnambiguous (add_at i n t).0
unfolding add_at
add_at-IsUnambiguous i n t h =
    elim (Bool-cases (found (session_index (sessions_at i t.folders) (label n)))) [
      | inl a ↦ rw a h
      | inr a ↦ rw a (
          set_sessions-IsUnambiguous i _ t h (
            unfold session_index in
            (NoClash-append session_name (sessions_at i t.folders) n
              (sessions_at-NoClash i t.folders (unfold IsUnambiguous in h.1)) (found-none _ a))))
    ]

add_created-IsUnambiguous :
    (folder : Str) (n : Node) (e : Edit)
    → IsUnambiguous e.0
    → IsUnambiguous (add_created folder n e).0
unfolding add_created
add_created-IsUnambiguous folder n (t, some problem) h = h
add_created-IsUnambiguous folder n (t, none) h = elim (Option-cases (folder_index t folder)) [
  | inl a ↦ rw (a, add_created) h
  | inr (i, a) ↦ rw (a, add_created) (add_at-IsUnambiguous i n t h)
]

pub add-IsUnambiguous :
    (folder : Str) (n : Node) (t : Tree) → IsUnambiguous t → IsUnambiguous (add folder n t).0
unfolding add add_normal
add-IsUnambiguous folder n t h = elim (Option-cases (folder_index t folder)) [
  | inl a ↦ rw a (
      if_intro (λ (e : Edit). IsUnambiguous e.0) _ _ _ h
        (add_created-IsUnambiguous folder (normalize n) _ (add_folder-IsUnambiguous folder t h)))
  | inr (i, a) ↦ rw a (
      if_intro (λ (e : Edit). IsUnambiguous e.0) _ _ _ h (add_at-IsUnambiguous i (normalize n) t h))
]

replace_at-IsUnambiguous :
    (i j : ℕ) (n : Node) (t : Tree) → IsUnambiguous t → IsUnambiguous (replace_at (i, j) n t).0
unfolding replace_at session_index
replace_at-IsUnambiguous i j n t h = elim (Bool-cases (is_empty (label n))) [
  | inl e ↦ rw e h
  | inr e ↦
      elim (Bool-cases
        (elsewhere (find_index session_name (session_name n) (sessions_at i t.folders)) j)) [
          | inl a ↦ rw (e, a) h
          | inr a ↦
              rw (e, a)
                (set_sessions-IsUnambiguous i _ t h (
                  NoClash-set_at session_name j n _
                    (sessions_at-NoClash i t.folders (unfold IsUnambiguous in h.1)) a))
        ]
]

pub replace-IsUnambiguous :
    (folder name : Str) (n : Node) (t : Tree)
    → IsUnambiguous t
    → IsUnambiguous (replace folder name n t).0
unfolding replace
replace-IsUnambiguous folder name n t h = elim (Sum-cases (locate folder name t)) [
  | inl (problem, a) ↦ rw (a, replace) h
  | inr (at, a) ↦ rw (a, replace) (replace_at-IsUnambiguous at.0 at.1 (normalize n) t h)
]

pub remove_node-IsUnambiguous :
    (folder name : Str) (t : Tree) → IsUnambiguous t → IsUnambiguous (remove_node folder name t).0
unfolding remove_node
remove_node-IsUnambiguous folder name t h = elim (Sum-cases (locate folder name t)) [
  | inl (problem, a) ↦ rw (a, remove_node) h
  | inr (at, a) ↦
      rw (a, remove_node)
        (set_sessions-IsUnambiguous at.0 _ t h (
          NoClash-remove_at session_name at.1 _
            (sessions_at-NoClash at.0 t.folders (unfold IsUnambiguous in h.1))))
]

then_remove-IsUnambiguous :
    (folder name : Str) (e : Edit) → IsUnambiguous e.0 → IsUnambiguous (then_remove folder name e).0
unfolding then_remove
then_remove-IsUnambiguous folder name (t, some problem) h = h
then_remove-IsUnambiguous folder name (t, none) h = remove_node-IsUnambiguous folder name t h

move_node-IsUnambiguous :
    (from name to : Str) (o : Option Node) (t : Tree)
    → IsUnambiguous t
    → IsUnambiguous (move_node from name to o t).0
unfolding move_node
move_node-IsUnambiguous from name to none t h = h
move_node-IsUnambiguous from name to (some n) t h =
    then_remove-IsUnambiguous from name _ (add-IsUnambiguous to n t h)

pub move-IsUnambiguous :
    (from name to : Str) (t : Tree) → IsUnambiguous t → IsUnambiguous (move from name to t).0
unfolding move
move-IsUnambiguous from name to t h = elim (Sum-cases (locate from name t)) [
  | inl (problem, a) ↦ rw (a, move) h
  | inr (at, a) ↦ elim (Bool-cases (is_same (folder_index t to) at.0)) [
    | inl b ↦ rw (a, b, move) h
    | inr b ↦ rw (a, b, move) (move_node-IsUnambiguous from name to _ t h)
  ]
]
