-- ===== src/Sessions/Tree/Refused.antt =====
-- An operation that returns an error has not changed the tree: Add although it may have made the
-- folder first, and Move although it adds before it removes.
pub mod Move
pub mod Others
use omegacatqt.Sessions.Index.Clash.{find_index-append_some}
use omegacatqt.Sessions.Tree.Unique.{fold-trim_space, find_index-set_sessions}
use omegacatqt.Text.Trim.{trim_space}
use omegacatqt.Sessions.Node.{Node, label, normalize}
use omegacatqt.Sessions.Index.{find_index, found}
use omegacatqt.Text.{Str, str_eq, is_empty, str_eq_refl}
use omegacatqt.Sessions.Tree.{
  add_at, add_folder, sessions_at, set_sessions, Tree, add_created, Folder, Edit, folder_index,
  folder_name, session_index, fold, add, locate, name_required, add_normal, is_same, then_remove,
  move_node, TreeError, remove_node,
}
use omegacatqt.Base.{
  inl, inr, some, none, true, false, [], ◌∷◌, zero, suc, refl, arith, ◌≡◌, List, ℕ, ◌<◌, ◌++◌,
  length, Bool-cases, ◌==◌, ◌⊎◌, Option-cases, append-nil, ◌∙◌, sym, subst, Option,
}

find_index-last :
    (k : Str) (fs : List Folder) (f : Folder)
    → find_index folder_name k fs ≡ none
    → str_eq (folder_name f) k ≡ true
    → find_index folder_name k (fs ++ f ∷ []) ≡ some (length fs)
unfolding find_index
find_index-last k [] f h e = rw e refl
find_index-last k (g ∷ fs) f h e = elim (Bool-cases (str_eq (folder_name g) k)) [
  | inl a ↦ absurd (ground (arith, h, a))
  | inr a ↦ elim (Option-cases (find_index folder_name k fs)) [
    | inl b ↦ rw (a, find_index-last k fs f b e) refl
    | inr (i, b) ↦ absurd (ground (arith, h, a, b))
  ]
]

pub find_index-bound :
    (k : Str) (fs : List Folder) (i : ℕ) → find_index folder_name k fs ≡ some i → i < length fs
unfolding find_index
find_index-bound k [] i h = absurd (ground arith)
find_index-bound k (f ∷ fs) i h = elim (Bool-cases (str_eq (folder_name f) k)) [
  | inl a ↦ ground (arith, h, a)
  | inr a ↦ elim (Option-cases (find_index folder_name k fs)) [
    | inl b ↦ absurd (ground (arith, h, a, b))
    | inr (j, b) ↦ let l : j < length fs = find_index-bound k fs j b in ground (arith, h, a, b)
  ]
]

pub sessions_at-append :
    (i : ℕ) (fs gs : List Folder) → i < length fs → sessions_at i (fs ++ gs) ≡ sessions_at i fs
unfolding sessions_at
sessions_at-append i [] gs h = absurd (omega arith)
sessions_at-append zero (f ∷ fs) gs h = refl
sessions_at-append (suc i) (f ∷ fs) gs h = sessions_at-append i fs gs (omega arith)

sessions_at-last :
    (fs : List Folder) (f : Folder) → sessions_at (length fs) (fs ++ f ∷ []) ≡ f.sessions
unfolding sessions_at
sessions_at-last [] f = refl
sessions_at-last (g ∷ fs) f = sessions_at-last fs f

pub sessions_at-elsewhere :
    (i k : ℕ) (ns : List Node) (fs : List Folder)
    → (k == i) ≡ false
    → (sessions_at i (set_sessions k ns fs) ≡ sessions_at i fs)
unfolding sessions_at set_sessions
sessions_at-elsewhere i k ns [] h = refl
sessions_at-elsewhere zero zero ns (f ∷ fs) h = absurd (ground arith)
sessions_at-elsewhere (suc i) zero ns (f ∷ fs) h = refl
sessions_at-elsewhere zero (suc k) ns (f ∷ fs) h = refl
sessions_at-elsewhere (suc i) (suc k) ns (f ∷ fs) h =
    sessions_at-elsewhere i k ns fs (ground (arith, h))

-- What Add does: nothing, or the sessions of one folder change, an old one or a new last one.
unfoldable pub Changed : Str → Tree → Tree → Type 0
Changed folder t t' =
    (k : ℕ) × (ns : List Node) × (gs : List Folder) × (t'
      ≡ record t { folders = set_sessions k ns (t.folders ++ gs) })
    × ((folder_index t folder ≡ some k) ⊎ (k ≡ length t.folders))

unfoldable pub AddDoes : Str → Tree → Edit → Type 0
unfolding Changed
AddDoes folder t (t', some problem) = t' ≡ t
AddDoes folder t (t', none) = Changed folder t t'

add_at-does :
    (folder : Str) (i : ℕ) (n : Node) (t : Tree)
    → folder_index t folder ≡ some i
    → (AddDoes folder t (add_at i n t))
unfolding add_at AddDoes
add_at-does folder i n t e =
    elim (Bool-cases (found (session_index (sessions_at i t.folders) (label n)))) [
      | inl a ↦ rw a refl
      | inr a ↦
          rw a (i, sessions_at i t.folders ++ n ∷ [], [], rw (append-nil t.folders) refl, inl e)
    ]

abbrev pub new_folder : Str → Folder
new_folder folder = record { name = trim_space folder; sessions = [] }

pub add_folder-blank :
    (folder : Str) (t : Tree)
    → is_empty (trim_space folder) ≡ true
    → (add_folder folder t ≡ (t, some name_required))
unfolding add_folder
add_folder-blank folder t a = rw a refl

pub add_folder-new :
    (folder : Str) (t : Tree)
    → is_empty (trim_space folder) ≡ false
    → folder_index t folder ≡ none
    → (add_folder folder t ≡ (record t { folders = t.folders ++ new_folder folder ∷ [] }, none))
unfolding add_folder folder_index found
add_folder-new folder t a e = rw (a, fold-trim_space folder, e) refl

pub index_of_new :
    (folder : Str) (t : Tree)
    → folder_index t folder ≡ none
    → (folder_index (record t { folders = t.folders ++ new_folder folder ∷ [] }) folder
        ≡ some (length t.folders))
unfolding folder_index
index_of_new folder t e =
    find_index-last (fold folder) t.folders (new_folder folder) e
      (rw (fold-trim_space folder) (str_eq_refl (fold folder)))

add_at-new :
    (folder : Str) (n : Node) (t : Tree)
    → AddDoes folder t
        (add_at (length t.folders) n (record t { folders = t.folders ++ new_folder folder ∷ [] }))
unfolding add_at AddDoes session_index find_index found
add_at-new folder n t =
    rw (sessions_at-last t.folders (new_folder folder))
      (length t.folders, n ∷ [], new_folder folder ∷ [], refl, inr refl)

add_created-does :
    (folder : Str) (n : Node) (t : Tree)
    → folder_index t folder ≡ none
    → (AddDoes folder t (add_created folder n (add_folder folder t)))
unfolding add_created
add_created-does folder n t e = elim (Bool-cases (is_empty (trim_space folder))) [
  | inl a ↦ rw (add_folder-blank folder t a) (unfold AddDoes in refl)
  | inr a ↦
      subst (λ (d : Edit). AddDoes folder t (add_created folder n d))
        (sym (add_folder-new folder t a e))
        (rw (index_of_new folder t e, add_created) (add_at-new folder n t))
]

pub add-does : (folder : Str) (n : Node) (t : Tree) → AddDoes folder t (add folder n t)
unfolding add add_normal AddDoes
add-does folder n t = elim (Bool-cases (is_empty (label (normalize n)))) [
  | inl a ↦ rw a refl
  | inr a ↦ elim (Option-cases (folder_index t folder)) [
    | inl e ↦ rw (a, e) (add_created-does folder (normalize n) t e)
    | inr (i, e) ↦ rw (a, e) (add_at-does folder i (normalize n) t e)
  ]
]
