-- ===== src/Sessions/Tree/Count.antt =====
-- How many sessions the tree has after an operation.
use omegacatqt.Text.Trim.{trim_space}
use omegacatqt.Sessions.Tree.Refused.{
  new_folder, find_index-bound, add_folder-blank, add_folder-new, index_of_new,
}
use omegacatqt.Sessions.Node.{Node, label, normalize}
use omegacatqt.Text.{Str, is_empty, str_eq}
use omegacatqt.Sessions.Tree.{
  add_at, add, nodes, Tree, locate, add_created, remove_node, set_sessions, add_normal, Edit,
  folder_index, sessions_at, session_name, add_folder, Folder, session_index, fold, then_remove,
  no_folder, move_node, move, no_session, is_same, node_at,
}
use omegacatqt.Sessions.Index.{find_index, remove_at, found}
use omegacatqt.Base.{
  inl, inr, some, none, [], ◌∷◌, zero, suc, refl, arith, ◌≡◌, ℕ, ◌<◌, ◌+◌, Option-cases, length,
  Bool-cases, List, ◌++◌, ◌∙◌, length-append, ap, subst, sym, Option, Sum-cases,
}

pub count : Tree → ℕ
count t = length (nodes t.folders)

pub nodes-append_empty :
    (fs : List Folder) (name : Str)
    → nodes (fs ++ record { name = name; sessions = [] } ∷ []) ≡ nodes fs
unfolding nodes
nodes-append_empty [] name = refl
nodes-append_empty (f ∷ fs) name =
    ap (λ (ns : List Node). f.sessions ++ ns) (nodes-append_empty fs name)

count-set_sessions :
    (i : ℕ) (ns : List Node) (fs : List Folder)
    → i < length fs
    → (length (nodes (set_sessions i ns fs)) + length (sessions_at i fs)
        ≡ length (nodes fs) + length ns)
unfolding nodes set_sessions sessions_at
count-set_sessions i ns [] h = absurd (omega arith)
count-set_sessions zero ns (f ∷ fs) h =
    omega (arith, length-append ns (nodes fs), length-append f.sessions (nodes fs))
count-set_sessions (suc i) ns (f ∷ fs) h = omega (
  arith,
  length-append f.sessions (nodes (set_sessions i ns fs)),
  length-append f.sessions (nodes fs),
  count-set_sessions i ns fs (omega arith),
)

count-remove_at :
    (k : Str) (ns : List Node) (j : ℕ)
    → find_index session_name k ns ≡ some j
    → (length (remove_at j ns) + 1 ≡ length ns)
unfolding find_index remove_at
count-remove_at k [] j h = absurd (ground arith)
count-remove_at k (n ∷ ns) j h = elim (Bool-cases (str_eq (session_name n) k)) [
  | inl a ↦ let z : j ≡ 0 = ground (arith, h, a) in rw z (omega arith)
  | inr a ↦ elim (Option-cases (find_index session_name k ns)) [
    | inl b ↦ absurd (ground (arith, h, a, b))
    | inr (i, b) ↦
        let s : j ≡ suc i = ground (arith, h, a, b) in
        rw s (omega (arith, count-remove_at k ns i b))
  ]
]

-- Add, when it accepts, adds one.
AddsOne : Tree → Edit → Type 0
unfolding count
AddsOne t (t', some problem) = Unit
AddsOne t (t', none) = count t' ≡ suc (count t)

add_at-AddsOne : (i : ℕ) (n : Node) (t : Tree) → i < length t.folders → AddsOne t (add_at i n t)
unfolding add_at AddsOne count
add_at-AddsOne i n t h =
    elim (Bool-cases (found (session_index (sessions_at i t.folders) (label n)))) [
      | inl a ↦ rw a tt
      | inr a ↦
          let ns : List Node = sessions_at i t.folders in
          rw a (
            omega
              (arith, count-set_sessions i (ns ++ n ∷ []) t.folders h, length-append ns (n ∷ [])))
    ]

AddsOne-created :
    (folder : Str) (t : Tree) (e : Edit)
    → AddsOne (record t { folders = t.folders ++ new_folder folder ∷ [] }) e
    → AddsOne t e
unfolding AddsOne count
AddsOne-created folder t (t', some problem) h = tt
AddsOne-created folder t (t', none) h =
    h ∙ ap (λ (ns : List Node). suc (length ns)) (nodes-append_empty t.folders (trim_space folder))

add_created-AddsOne :
    (folder : Str) (n : Node) (t : Tree)
    → folder_index t folder ≡ none
    → (AddsOne t (add_created folder n (add_folder folder t)))
unfolding add_created
add_created-AddsOne folder n t e = elim (Bool-cases (is_empty (trim_space folder))) [
  | inl a ↦ rw (add_folder-blank folder t a) (unfold AddsOne in tt)
  | inr a ↦
      subst (λ (d : Edit). AddsOne t (add_created folder n d)) (sym (add_folder-new folder t a e))
        (rw (index_of_new folder t e, add_created)
          (AddsOne-created folder t _ (
            add_at-AddsOne _ n _
              (rw (length-append t.folders (new_folder folder ∷ [])) (omega arith)))))
]

add-AddsOne : (folder : Str) (n : Node) (t : Tree) → AddsOne t (add folder n t)
unfolding add add_normal AddsOne
add-AddsOne folder n t = elim (Bool-cases (is_empty (label (normalize n)))) [
  | inl a ↦ rw a tt
  | inr a ↦ elim (Option-cases (folder_index t folder)) [
    | inl e ↦ rw (a, e) (add_created-AddsOne folder (normalize n) t e)
    | inr (i, e) ↦
        rw (a, e)
          (add_at-AddsOne i (normalize n) t
            (find_index-bound (fold folder) t.folders i (unfold folder_index in e)))
  ]
]

-- Remove, when it accepts, takes one.
remove_node-takes :
    (folder name : Str) (t : Tree)
    → (remove_node folder name t).1 ≡ none
    → (count (remove_node folder name t).0 + 1 ≡ count t)
unfolding locate
remove_node-takes folder name t h = elim (Option-cases (folder_index t folder)) [
  | inl a ↦
      let e : (remove_node folder name t).1 ≡ some no_folder =
        unfold remove_node in rw (a, remove_node) refl in
      absurd (ground (arith, h, e))
  | inr (i, a) ↦ elim (Option-cases (session_index (sessions_at i t.folders) name)) [
    | inl b ↦
        let e : (remove_node folder name t).1 ≡ some no_session =
          unfold remove_node in rw (a, b, remove_node) refl in
        absurd (ground (arith, h, e))
    | inr (j, b) ↦
        let ns : List Node = sessions_at i t.folders in
        let e : remove_node folder name t
            ≡ (record t { folders = set_sessions i (remove_at j ns) t.folders }, none) =
          unfold remove_node in rw (a, b, remove_node) refl in
        rw e (
          unfold count in
          (omega (
            arith,
            count-set_sessions i (remove_at j ns) t.folders
                (find_index-bound (fold folder) t.folders i (unfold folder_index in a)),
            count-remove_at (fold name) ns j (unfold session_index in b),
          )))
  ]
]

then_remove-count :
    (from name : Str) (t : Tree) (e : Edit)
    → AddsOne t e
    → (then_remove from name e).1 ≡ none
    → (count (then_remove from name e).0 ≡ count t)
unfolding then_remove AddsOne
then_remove-count from name t (t', some problem) d h = absurd (ground (arith, h))
then_remove-count from name t (t', none) d h = omega (arith, d, remove_node-takes from name t' h)

move_node-count :
    (from name to : Str) (o : Option Node) (t : Tree)
    → (move_node from name to o t).1 ≡ none
    → (count (move_node from name to o t).0 ≡ count t)
unfolding move_node
move_node-count from name to none t h = absurd (ground (arith, h))
move_node-count from name to (some n) t h = then_remove-count from name t _ (add-AddsOne to n t) h

-- A Move that returns no error neither loses nor doubles a session: the tree has as many as
-- before.
pub move-count :
    (from name to : Str) (t : Tree)
    → (move from name to t).1 ≡ none
    → (count (move from name to t).0 ≡ count t)
unfolding move
move-count from name to t h = elim (Sum-cases (locate from name t)) [
  | inl (x, a) ↦
      let e : (move from name to t).1 ≡ some x = rw (a, move) refl in absurd (ground (arith, h, e))
  | inr (at, a) ↦ elim (Bool-cases (is_same (folder_index t to) at.0)) [
    | inl b ↦ rw (a, b, move) refl
    | inr b ↦
        let o : Option Node = node_at at.1 (sessions_at at.0 t.folders) in
        let e : move from name to t ≡ move_node from name to o t = rw (a, b, move) refl in
        rw e (move_node-count from name to o t (sym (ap (λ (x : Edit). x.1) e) ∙ h))
  ]
]
