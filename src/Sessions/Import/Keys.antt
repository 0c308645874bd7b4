-- ===== src/Sessions/Import/Keys.antt =====
-- The addresses of a tree after a session is added.
use omegacatqt.Sessions.Tree.Count.{nodes-append_empty}
use omegacatqt.Sessions.Node.Key.{key-normalize}
use omegacatqt.Text.Trim.{trim_space}
use omegacatqt.Sessions.Index.{found}
use omegacatqt.Sessions.Tree.Refused.{
  new_folder, add_folder-blank, find_index-bound, add_folder-new, index_of_new,
}
use omegacatqt.Sessions.Node.{Node, normalize, label, key}
use omegacatqt.Text.{has, Str, is_empty, str_eq}
use omegacatqt.Sessions.Import.{keys_of, keys}
use omegacatqt.Sessions.Tree.{
  nodes, add_at, add, Tree, add_created, set_sessions, add_normal, Folder, folder_index,
  sessions_at, Edit, add_folder, session_index, fold,
}
use omegacatqt.Base.{
  inl, inr, some, none, [], ◌∷◌, zero, suc, refl, arith, ◌≡◌, List, ℕ, ◌<◌, Bool, ◌++◌, length,
  ◌||◌, Bool-cases, ap, sym, Option-cases, subst, length-append, false, ◌∙◌,
}

has-append : (ks ls : List Str) (k : Str) → has (ks ++ ls) k ≡ (has ks k || has ls k)
unfolding has
has-append [] ls k = refl
has-append (l ∷ ks) ls k = ground (arith, has-append ks ls k)

keys_of-append : (ms ns : List Node) → keys_of (ms ++ ns) ≡ keys_of ms ++ keys_of ns
unfolding keys_of
keys_of-append [] ns = refl
keys_of-append (m ∷ ms) ns = elim (Bool-cases (is_empty (key m))) [
  | inl a ↦ rw (a, keys_of-append ms ns) refl
  | inr a ↦ rw (a, keys_of-append ms ns) refl
]

abbrev pub has_key : List Node → Str → Bool
has_key ns k = has (keys_of ns) k

has_key-append :
    (ms ns : List Node) (k : Str) → has_key (ms ++ ns) k ≡ (has_key ms k || has_key ns k)
has_key-append ms ns k = rw (keys_of-append ms ns) (has-append (keys_of ms) (keys_of ns) k)

-- A node appended to one folder adds its address, and nothing else.
pub keys-set_sessions :
    (i : ℕ) (n : Node) (k : Str) (fs : List Folder)
    → i < length fs
    → (has_key (nodes (set_sessions i (sessions_at i fs ++ n ∷ []) fs)) k
        ≡ (has_key (nodes fs) k || has_key (n ∷ []) k))
unfolding nodes set_sessions sessions_at
keys-set_sessions i n k [] h = absurd (omega arith)
keys-set_sessions zero n k (f ∷ fs) h =
    let a : has_key ((f.sessions ++ n ∷ []) ++ nodes fs) k
        ≡ (has_key (f.sessions ++ n ∷ []) k || has_key (nodes fs) k) =
      has_key-append (f.sessions ++ n ∷ []) (nodes fs) k in
    let b : has_key (f.sessions ++ n ∷ []) k ≡ (has_key f.sessions k || has_key (n ∷ []) k) =
      has_key-append f.sessions (n ∷ []) k in
    let c : has_key (f.sessions ++ nodes fs) k ≡ (has_key f.sessions k || has_key (nodes fs) k) =
      has_key-append f.sessions (nodes fs) k in
    ground (arith, a, b, c)
keys-set_sessions (suc i) n k (f ∷ fs) h =
    let ms : List Node = nodes (set_sessions i (sessions_at i fs ++ n ∷ []) fs) in
    let a : has_key (f.sessions ++ ms) k ≡ (has_key f.sessions k || has_key ms k) =
      has_key-append f.sessions ms k in
    let b : has_key ms k ≡ (has_key (nodes fs) k || has_key (n ∷ []) k) =
      keys-set_sessions i n k fs (omega arith) in
    let c : has_key (f.sessions ++ nodes fs) k ≡ (has_key f.sessions k || has_key (nodes fs) k) =
      has_key-append f.sessions (nodes fs) k in
    ground (arith, a, b, c)

-- What Add, when it accepts, does to the addresses.
unfoldable pub AddsKey : Tree → Node → Edit → Type 0
AddsKey t n (t', some problem) = Unit
AddsKey t n (t', none) = (k : Str) → has (keys t') k ≡ (has (keys t) k || has_key (n ∷ []) k)

add_at-AddsKey : (i : ℕ) (n : Node) (t : Tree) → i < length t.folders → AddsKey t n (add_at i n t)
unfolding add_at AddsKey keys
add_at-AddsKey i n t h =
    elim (Bool-cases (found (session_index (sessions_at i t.folders) (label n)))) [
      | inl a ↦ rw a tt
      | inr a ↦ rw a (λ k. keys-set_sessions i n k t.folders h)
    ]

AddsKey-created :
    (folder : Str) (n : Node) (t : Tree) (e : Edit)
    → AddsKey (record t { folders = t.folders ++ new_folder folder ∷ [] }) n e
    → AddsKey t n e
unfolding AddsKey keys
AddsKey-created folder n t (t', some problem) h = tt
AddsKey-created folder n t (t', none) h =
    λ k. rw (sym (nodes-append_empty t.folders (trim_space folder))) (h k)

add_created-AddsKey :
    (folder : Str) (n : Node) (t : Tree)
    → folder_index t folder ≡ none
    → (AddsKey t n (add_created folder n (add_folder folder t)))
unfolding add_created
add_created-AddsKey folder n t e = elim (Bool-cases (is_empty (trim_space folder))) [
  | inl a ↦ rw (add_folder-blank folder t a) (unfold AddsKey in tt)
  | inr a ↦
      subst (λ (d : Edit). AddsKey t n (add_created folder n d)) (sym (add_folder-new folder t a e))
        (rw (index_of_new folder t e, add_created)
          (AddsKey-created folder n t _ (
            add_at-AddsKey _ n _
              (rw (length-append t.folders (new_folder folder ∷ [])) (omega arith)))))
]

pub add-AddsKey : (folder : Str) (n : Node) (t : Tree) → AddsKey t (normalize n) (add folder n t)
unfolding add add_normal AddsKey
add-AddsKey folder n t = elim (Bool-cases (is_empty (label (normalize n)))) [
  | inl a ↦ rw a tt
  | inr a ↦ elim (Option-cases (folder_index t folder)) [
    | inl e ↦ rw (a, e) (add_created-AddsKey folder (normalize n) t e)
    | inr (i, e) ↦
        rw (a, e)
          (add_at-AddsKey i (normalize n) t
            (find_index-bound (fold folder) t.folders i (unfold folder_index in e)))
  ]
]

has_key-one :
    (n : Node) (k : Str) → is_empty (key n) ≡ false → has_key (n ∷ []) k ≡ str_eq (key n) k
unfolding keys_of has
has_key-one n k h = rw h (ground arith)

-- The address of a node that Add stored.
pub has_key-stored :
    (n : Node) (k : Str)
    → is_empty (key n) ≡ false
    → has_key (normalize n ∷ []) k ≡ str_eq (key n) k
has_key-stored n k h =
    has_key-one (normalize n) k (rw (key-normalize n) h)
    ∙ ap (λ (s : Str). str_eq s k) (key-normalize n)
