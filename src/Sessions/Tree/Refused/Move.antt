-- ===== src/Sessions/Tree/Refused/Move.antt =====
-- Move adds before it removes, and the removal is never refused.
-- What Add did elsewhere does not move a session.
use omegacatqt.Sessions.Index.Clash.{find_index-append_some}
use omegacatqt.Sessions.Tree.Unique.{find_index-set_sessions}
use omegacatqt.Sessions.Node.{Node}
use omegacatqt.Text.{Str}
use omegacatqt.Sessions.Tree.Refused.{
  AddDoes, Changed, add-does, find_index-bound, sessions_at-elsewhere, sessions_at-append,
}
use omegacatqt.Sessions.Tree.{
  remove_node, move, then_remove, move_node, locate, Tree, TreeError, Edit, is_same, folder_index,
  node_at, sessions_at, add, session_index, fold, folder_name,
}
use omegacatqt.Base.{
  inl, inr, some, none, false, refl, arith, ◌≡◌, ℕ, Option, Sum-cases, Bool-cases, sym,
  Option-cases, ap, ◌<◌, ◌∙◌, length, ◌==◌, ◌++◌,
}

locate-Changed :
    (from name to : Str) (t t' : Tree) (i j : ℕ)
    → locate from name t ≡ inr (i, j)
    → is_same (folder_index t to) i ≡ false
    → Changed to t t'
    → ((locate from name t' ≡ inr (i, j)) × (sessions_at i t'.folders ≡ sessions_at i t.folders))
unfolding locate Changed
locate-Changed from name to t t' i j h s (k, ns, gs, e, at) =
    elim (Option-cases (folder_index t from)) [
      | inl a ↦ absurd (ground (arith, h, a))
      | inr (i', a) ↦ elim (Option-cases (session_index (sessions_at i' t.folders) name)) [
        | inl b ↦ absurd (ground (arith, h, a, b))
        | inr (j', b) ↦
            let p : i' ≡ i = ground (arith, h, a, b) in
            let q : j' ≡ j = ground (arith, h, a, b) in
            let bound : i' < length t.folders =
              find_index-bound (fold from) t.folders i' (unfold folder_index in a) in
            let other : (k == i') ≡ false = elim at [
              | inl c ↦ unfold is_same in (ground (arith, s, c, p))
              | inr c ↦ ground (arith, c, bound)
            ] in
            let there : sessions_at i' t'.folders ≡ sessions_at i' t.folders = rw e (
              sessions_at-elsewhere i' k ns (t.folders ++ gs) other
              ∙ sessions_at-append i' t.folders gs bound) in
            let same : folder_index t' from ≡ some i' = rw e (
              unfold folder_index in
              (find_index-set_sessions (fold from) k ns (t.folders ++ gs)
                ∙ find_index-append_some folder_name (fold from) t.folders gs i'
                    (unfold folder_index in a))) in
            (rw (same, locate, there, b, p, q) refl, rw (sym p) there)
      ]
    ]

remove_node-located :
    (folder name : Str) (t : Tree) (i j : ℕ)
    → locate folder name t ≡ inr (i, j)
    → ((remove_node folder name t).1 ≡ none)
unfolding remove_node
remove_node-located folder name t i j h = rw (h, remove_node) refl

then_remove-refused :
    (from name to : Str) (t : Tree) (i j : ℕ) (e : Edit)
    → locate from name t ≡ inr (i, j)
    → is_same (folder_index t to) i ≡ false
    → AddDoes to t e
    → (problem : TreeError) → (then_remove from name e).1 ≡ some problem
    → (then_remove from name e).0 ≡ t
unfolding then_remove AddDoes
then_remove-refused from name to t i j (t', some x) l s d problem h = d
then_remove-refused from name to t i j (t', none) l s d problem h =
    let done : (remove_node from name t').1 ≡ none =
      remove_node-located from name t' i j (locate-Changed from name to t t' i j l s d).0 in
    absurd (ground (arith, h, done))

move_node-refused :
    (from name to : Str) (t : Tree) (i j : ℕ) (o : Option Node)
    → locate from name t ≡ inr (i, j)
    → is_same (folder_index t to) i ≡ false
    → (problem : TreeError) → (move_node from name to o t).1 ≡ some problem
    → (move_node from name to o t).0 ≡ t
unfolding move_node
move_node-refused from name to t i j none l s problem h = refl
move_node-refused from name to t i j (some n) l s problem h =
    then_remove-refused from name to t i j (add to n t) l s (add-does to n t) problem h

pub move-refused :
    (from name to : Str) (t : Tree) (problem : TreeError)
    → (move from name to t).1 ≡ some problem
    → (move from name to t).0 ≡ t
unfolding move
move-refused from name to t problem h = elim (Sum-cases (locate from name t)) [
  | inl (x, a) ↦ rw (a, move) refl
  | inr ((i, j), a) ↦ elim (Bool-cases (is_same (folder_index t to) i)) [
    | inl b ↦ rw (a, b, move) refl
    | inr b ↦
        let o : Option Node = node_at j (sessions_at i t.folders) in
        let e : move from name to t ≡ move_node from name to o t = rw (a, b, move) refl in
        rw e
          (move_node-refused from name to t i j o a b problem (sym (ap (λ (x : Edit). x.1) e) ∙ h))
  ]
]
