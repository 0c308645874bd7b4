-- ===== src/Sessions/Import/Rerun.antt =====
-- An import may be run again: what it has imported once it skips.
use omegacatqt.Sessions.Tree.Refused.Others.{add-refused}
use omegacatqt.Sessions.Node.Key.{key-renamed}
use omegacatqt.Sessions.Tree.{Edit, TreeError, Tree, add}
use omegacatqt.Sessions.Node.{Node, key, normalize, label}
use omegacatqt.Sessions.Import.Keys.{AddsKey, add-AddsKey, has_key-stored}
use omegacatqt.Text.{Str, is_empty, has, str_eq, str_eq_refl}
use omegacatqt.Sessions.Import.{
  note_rename, Importing, renamed_node, import_added, ImportResult, keys, import_new, import_normal,
  is_clash, import_nodes, import_into, import_start,
}
use omegacatqt.Base.{
  inl, inr, some, none, true, false, [], ◌∷◌, refl, arith, ◌≡◌, List, Bool, ◌≤◌, ℕ, length,
  if◌then◌else◌, ◌<◌, ◌⊎◌, length-append, Bool-cases, subst, sym, ◌++◌, ap, ◌+◌, All, All-map,
}

abbrev rejected_count : Importing → ℕ
rejected_count s = length s.result.rejected

-- An import neither forgets an address nor a rejection.
Grows : Importing → Importing → Type 0
Grows s s' =
    (rejected_count s ≤ rejected_count s')
    × ((k : Str) → has s.existing k ≡ true → has s'.existing k ≡ true)

-- The addresses noted are in the tree.
IsNoted : Importing → Type 0
IsNoted s = (k : Str) → has s.existing k ≡ true → has (keys s.tree) k ≡ true

-- A node with an address that is noted.
IsSeen : List Str → Node → Type 0
IsSeen existing n = (is_empty (key n) ≡ false) × (has existing (key n) ≡ true)

Grows-trans : (a b c : Importing) → Grows a b → Grows b c → Grows a c
unfolding Grows
Grows-trans a b c h k = (omega (arith, h.0, k.0), λ x y. k.1 x (h.1 x y))

renamed_or_not : Bool → Node → Node
renamed_or_not b n = if b then renamed_node n else n

key-renamed_or_not : (b : Bool) (n : Node) → key (renamed_or_not b n) ≡ key n
unfolding renamed_or_not renamed_node
key-renamed_or_not true n = key-renamed n _
key-renamed_or_not false n = refl

rejected-note_rename :
    (b : Bool) (want : Str) (r : ImportResult) → (note_rename b want r).rejected ≡ r.rejected
unfolding note_rename
rejected-note_rename true want r = refl
rejected-note_rename false want r = refl

import_added-IsNoted :
    (n : Node) (r : ImportResult) (s : Importing) (e : Edit)
    → IsNoted s
    → is_empty (key n) ≡ false
    → AddsKey s.tree (normalize n) e
    → ((problem : TreeError) → e.1 ≡ some problem → e.0 ≡ s.tree)
    → IsNoted (import_added n r s.existing e)
unfolding import_added IsNoted AddsKey
import_added-IsNoted n r s (t, some problem) h f d c =
    subst (λ (u : Tree). (k : Str) → has s.existing k ≡ true → has (keys u) k ≡ true)
      (sym (c problem refl)) h
import_added-IsNoted n r s (t, none) h f d c = λ k. λ y.
    rw (d k, has_key-stored n k f)
      (elim (Bool-cases (str_eq (key n) k)) [
        | inl q ↦ ground (arith, q)
        | inr q ↦
            let p : has (keys s.tree) k ≡ true = h k (unfold has in (ground (arith, y, q))) in
            ground (arith, p)
      ])

import_added-grows :
    (n : Node) (r : ImportResult) (existing : List Str) (e : Edit)
    → (((length r.rejected < rejected_count (import_added n r existing e))
          × ((import_added n r existing e).existing ≡ existing))
        ⊎ (((import_added n r existing e).existing ≡ key n ∷ existing)
            × (rejected_count (import_added n r existing e) ≡ length r.rejected)))
unfolding import_added
import_added-grows n r existing (t, some problem) =
    inl (omega (arith, length-append r.rejected (label n ∷ [])), refl)
import_added-grows n r existing (t, none) = inr (refl, refl)

import_new-IsNoted :
    (folder : Str) (n : Node) (s : Importing)
    → IsNoted s
    → is_empty (key n) ≡ false
    → IsNoted (import_new folder n s)
unfolding import_new
import_new-IsNoted folder n s h f =
    let m : Node = renamed_or_not (is_clash folder (label n) s.tree) n in
    unfold renamed_or_not in
    (import_added-IsNoted m _ s (add folder m s.tree) h
      (rw (key-renamed_or_not (is_clash folder (label n) s.tree) n) f) (add-AddsKey folder m s.tree)
      (add-refused folder m s.tree))

import_normal-IsNoted :
    (folder : Str) (n : Node) (s : Importing) → IsNoted s → IsNoted (import_normal folder n s)
unfolding import_normal
import_normal-IsNoted folder n s h = elim (Bool-cases (is_empty (key n))) [
  | inl a ↦ rw a (unfold IsNoted in h)
  | inr a ↦ elim (Bool-cases (has s.existing (key n))) [
    | inl b ↦ rw (a, b) (unfold IsNoted in h)
    | inr b ↦ rw (a, b) (import_new-IsNoted folder n s h a)
  ]
]

-- A round rejects the node, or leaves it seen.
Round : Node → Importing → Importing → Type 0
Round n s s' = Grows s s' × ((rejected_count s < rejected_count s') ⊎ IsSeen s'.existing n)

Round-new :
    (n m : Node) (s s' : Importing) (count : ℕ)
    → is_empty (key n) ≡ false
    → key m ≡ key n
    → count ≡ rejected_count s
    → (((count < rejected_count s') × (s'.existing ≡ s.existing))
        ⊎ ((s'.existing ≡ key m ∷ s.existing) × (rejected_count s' ≡ count)))
    → Round n s s'
unfolding Round Grows IsSeen
Round-new n m s s' count f e c (inl (l, x)) =
    ((omega (arith, l, c), λ k y. rw x y), inl (omega (arith, l, c)))
Round-new n m s s' count f e c (inr (x, l)) = (
  (omega (arith, l, c), λ k y. rw x (unfold has in (ground (arith, y)))),
  inr (f, rw (x, e) (unfold has in (ground (arith, str_eq_refl (key n))))),
)

import_new-Round :
    (folder : Str) (n : Node) (s : Importing)
    → is_empty (key n) ≡ false
    → Round n s (import_new folder n s)
unfolding import_new
import_new-Round folder n s f =
    let clash : Bool = is_clash folder (label n) s.tree in
    let m : Node = renamed_or_not clash n in
    let r : ImportResult = note_rename clash (label n) s.result in
    unfold renamed_or_not in
    (Round-new n m s (import_added m r s.existing (add folder m s.tree)) (length r.rejected) f
      (key-renamed_or_not clash n) (ap length (rejected-note_rename clash (label n) s.result))
      (import_added-grows m r s.existing (add folder m s.tree)))

import_normal-Round :
    (folder : Str) (n : Node) (s : Importing) → Round n s (import_normal folder n s)
unfolding import_normal
import_normal-Round folder n s = elim (Bool-cases (is_empty (key n))) [
  | inl a ↦
      let l : length (s.result.rejected ++ label n ∷ []) ≡ rejected_count s + 1 =
        length-append s.result.rejected (label n ∷ []) in
      rw a (unfold Round in unfold Grows in ((omega (arith, l), λ k y. y), inl (omega (arith, l))))
  | inr a ↦ elim (Bool-cases (has s.existing (key n))) [
    | inl b ↦
        rw (a, b)
          (unfold Round in unfold Grows in unfold IsSeen in ((omega arith, λ k y. y), inr (a, b)))
    | inr b ↦ rw (a, b) (import_new-Round folder n s a)
  ]
]

Sees : List Str → Node → Type 0
unfolding IsSeen
Sees existing n = IsSeen existing (normalize n)

-- The whole loop.
import_nodes-IsNoted :
    (folder : Str) (ns : List Node) (s : Importing) → IsNoted s → IsNoted (import_nodes folder ns s)
unfolding import_nodes
import_nodes-IsNoted folder [] s h = h
import_nodes-IsNoted folder (n ∷ ns) s h =
    import_nodes-IsNoted folder ns _ (import_normal-IsNoted folder (normalize n) s h)

import_nodes-Grows :
    (folder : Str) (ns : List Node) (s : Importing) → Grows s (import_nodes folder ns s)
unfolding import_nodes
import_nodes-Grows folder [] s = unfold Grows in (omega arith, λ k y. y)
import_nodes-Grows folder (n ∷ ns) s =
    let s' : Importing = import_normal folder (normalize n) s in
    Grows-trans s s' _ (unfold Round in (import_normal-Round folder (normalize n) s).0)
      (import_nodes-Grows folder ns s')

-- Without a rejection every node is seen.
import_nodes-Sees :
    (folder : Str) (ns : List Node) (s : Importing)
    → rejected_count (import_nodes folder ns s) ≡ 0
    → All (Sees (import_nodes folder ns s).existing) ns
unfolding import_nodes
import_nodes-Sees folder [] s h = tt
import_nodes-Sees folder (n ∷ ns) s h =
    let s' : Importing = import_normal folder (normalize n) s in
    let later : Grows s' (import_nodes folder ns s') = import_nodes-Grows folder ns s' in
    let round : Round (normalize n) s s' = import_normal-Round folder (normalize n) s in
    let seen : Sees (import_nodes folder ns s').existing n =
      unfold Sees in
      unfold IsSeen in
      unfold Grows in
      unfold Round in
      (elim round.1 [
        | inl l ↦ absurd (omega (arith, h, l, later.0))
        | inr (f, y) ↦ (f, later.1 _ y)
      ]) in
    (seen, import_nodes-Sees folder ns s' h)

-- Nodes that are seen are skipped.
import_nodes-skips :
    (folder : Str) (ns : List Node) (s : Importing)
    → All (Sees s.existing) ns
    → (((import_nodes folder ns s).tree ≡ s.tree)
        × ((import_nodes folder ns s).result.added ≡ s.result.added))
unfolding import_nodes
import_nodes-skips folder [] s h = (refl, refl)
import_nodes-skips folder (n ∷ ns) s h =
    let seen : (is_empty (key (normalize n)) ≡ false)
        × (has s.existing (key (normalize n)) ≡ true) =
      unfold Sees in unfold IsSeen in h.0 in
    let skipped : Importing = record s {
      result = record s.result { skipped = s.result.skipped ++ label (normalize n) ∷ [] };
    } in
    let e : import_normal folder (normalize n) s ≡ skipped =
      unfold import_normal in rw (seen.0, seen.1) refl in
    rw (e, import_nodes) (import_nodes-skips folder ns skipped h.1)

-- An import that rejected nothing may be run again: the second run of the same import changes
-- nothing in the tree and adds nothing.
pub import_into-rerun :
    (folder : Str) (ns : List Node) (t : Tree)
    → (import_into folder ns t).result.rejected ≡ []
    → (((import_into folder ns (import_into folder ns t).tree).tree
          ≡ (import_into folder ns t).tree)
        × ((import_into folder ns (import_into folder ns t).tree).result.added ≡ 0))
unfolding import_into
import_into-rerun folder ns t h =
    let start : Importing = import_start folder t in
    let s : Importing = import_nodes folder ns start in
    let noted : IsNoted s = import_nodes-IsNoted folder ns start (unfold IsNoted in λ k y. y) in
    let seen : All (Sees s.existing) ns = import_nodes-Sees folder ns start (ap length h) in
    import_nodes-skips folder ns (import_start folder s.tree) (
      All-map (Sees s.existing) (Sees (keys s.tree))
        (λ n x. unfold Sees in unfold IsSeen in unfold IsNoted in (x.0, noted _ x.1)) ns seen)
