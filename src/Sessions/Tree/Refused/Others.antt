-- ===== src/Sessions/Tree/Refused/Others.antt =====
-- The operations other than Move return an error before they change anything.
use omegacatqt.Sessions.Index.{elsewhere, found, remove_at}
use omegacatqt.Text.Trim.{trim_space}
use omegacatqt.Sessions.Node.{Node, label, normalize}
use omegacatqt.Text.{Str, is_empty}
use omegacatqt.Sessions.Tree.{
  add_folder, replace_at, replace, remove_folder, rename_folder, Tree, remove_node, Edit, TreeError,
  no_folder, add, locate, folder_index, folder_exists, name_required, label_required, session_index,
  set_name, is_nil, sessions_at, session_exists, folder_not_empty,
}
use omegacatqt.Sessions.Tree.Refused.{AddDoes, add-does}
use omegacatqt.Base.{
  inl, inr, some, none, true, false, refl, arith, ◌≡◌, Bool, Option, ℕ, if◌then◌else◌, Option-cases,
  Sum-cases, not, sym, ap, ◌&&◌, ◌∙◌,
}

AddDoes-refused :
    (folder : Str) (t : Tree) (e : Edit)
    → AddDoes folder t e
    → (problem : TreeError) → e.1 ≡ some problem
    → e.0 ≡ t
unfolding AddDoes
AddDoes-refused folder t (t', some x) d problem h = d
AddDoes-refused folder t (t', none) d problem h = absurd (ground arith)

pub add-refused :
    (folder : Str) (n : Node) (t : Tree) (problem : TreeError)
    → (add folder n t).1 ≡ some problem
    → (add folder n t).0 ≡ t
add-refused folder n t = AddDoes-refused folder t (add folder n t) (add-does folder n t)

-- A conditional between a refusal and an edit.
if-refused :
    (b : Bool) (t : Tree) (problem x : TreeError) (e : Edit)
    → (e.1 ≡ some problem → e.0 ≡ t)
    → (if b then (t, some x) else e).1 ≡ some problem
    → (if b then (t, some x) else e).0 ≡ t
if-refused true t problem x e k h = refl
if-refused false t problem x e k h = k h

accepted : (t t' : Tree) (problem : TreeError) → none ≡ some problem → t' ≡ t
accepted t t' problem h = absurd (ground (arith, h))

pub add_folder-refused :
    (name : Str) (t : Tree) (problem : TreeError)
    → (add_folder name t).1 ≡ some problem
    → (add_folder name t).0 ≡ t
unfolding add_folder
add_folder-refused name t problem =
    if-refused (is_empty (trim_space name)) t problem name_required _ (
      if-refused (found (folder_index t (trim_space name))) t problem folder_exists _
        (accepted t _ problem))

rename_at-refused :
    (o : Option ℕ) (t : Tree) (problem : TreeError) (new_name : Str) (e : Edit)
    → (e ≡ elim o [
      | none ↦ (t, some no_folder)
      | some i ↦
          if elsewhere (folder_index t new_name) i
          then (t, some folder_exists)
          else (record t { folders = set_name i new_name t.folders }, none)
    ])
    → e.1 ≡ some problem
    → e.0 ≡ t
rename_at-refused none t problem new_name e k = rw k (λ _. refl)
rename_at-refused (some i) t problem new_name e k = rw k (
    if-refused (elsewhere (folder_index t new_name) i) t problem folder_exists _
      (accepted t _ problem))

pub rename_folder-refused :
    (old_name new_name : Str) (t : Tree) (problem : TreeError)
    → (rename_folder old_name new_name t).1 ≡ some problem
    → (rename_folder old_name new_name t).0 ≡ t
unfolding rename_folder
rename_folder-refused old_name new_name t problem =
    if-refused (is_empty (trim_space new_name)) t problem name_required _
      (rename_at-refused (folder_index t old_name) t problem (trim_space new_name) _ refl)

pub remove_folder-refused :
    (name : Str) (force : Bool) (t : Tree) (problem : TreeError)
    → (remove_folder name force t).1 ≡ some problem
    → (remove_folder name force t).0 ≡ t
unfolding remove_folder
remove_folder-refused name force t problem h = elim (Option-cases (folder_index t name)) [
  | inl a ↦ rw (a, remove_folder) refl
  | inr (i, a) ↦
      let b : Bool = not (is_nil (sessions_at i t.folders)) && not force in
      let e : remove_folder name force t ≡ (
          if b
          then (t, some folder_not_empty)
          else (record t { folders = remove_at i t.folders }, none)) =
        rw (a, remove_folder) refl in
      rw e (
        if-refused b t problem folder_not_empty _ (accepted t _ problem)
          (sym (ap (λ (x : Edit). x.1) e) ∙ h))
]

replace_at-refused :
    (at : ℕ × ℕ) (n : Node) (t : Tree) (problem : TreeError)
    → (replace_at at n t).1 ≡ some problem
    → (replace_at at n t).0 ≡ t
unfolding replace_at
replace_at-refused (i, j) n t problem = if-refused (is_empty (label n)) t problem label_required _ (
    if-refused (elsewhere (session_index (sessions_at i t.folders) (label n)) j) t problem
      session_exists _ (accepted t _ problem))

pub replace-refused :
    (folder name : Str) (n : Node) (t : Tree) (problem : TreeError)
    → (replace folder name n t).1 ≡ some problem
    → (replace folder name n t).0 ≡ t
unfolding replace
replace-refused folder name n t problem h = elim (Sum-cases (locate folder name t)) [
  | inl (x, a) ↦ rw (a, replace) refl
  | inr (at, a) ↦
      let e : replace folder name n t ≡ replace_at at (normalize n) t = rw (a, replace) refl in
      rw e (replace_at-refused at (normalize n) t problem (sym (ap (λ (x : Edit). x.1) e) ∙ h))
]

pub remove_node-refused :
    (folder name : Str) (t : Tree) (problem : TreeError)
    → (remove_node folder name t).1 ≡ some problem
    → (remove_node folder name t).0 ≡ t
unfolding remove_node
remove_node-refused folder name t problem h = elim (Sum-cases (locate folder name t)) [
  | inl (x, a) ↦ rw (a, remove_node) refl
  | inr (at, a) ↦
      let e : (remove_node folder name t).1 ≡ none = rw (a, remove_node) refl in
      absurd (ground (arith, h, e))
]
