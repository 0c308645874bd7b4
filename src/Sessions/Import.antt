-- ===== src/Sessions/Import.antt =====
-- internal/sessions/tree.go: Import, which merges nodes into one folder, with the addresses that
-- the tree has already.
pub mod Keys
pub mod Rerun
use omegacatqt.Sessions.Index.{found}
use omegacatqt.Sessions.Node.{Node, label, normalize, key}
use omegacatqt.Sessions.Tree.{Tree, nodes, Edit, folder_index, add, session_index, sessions_at}
use omegacatqt.Text.{Str, is_empty, lit, has}
use omegacatqt.Base.{
  some, none, true, false, [], ◌∷◌, suc, List, Bool, if◌then◌else◌, ◌++◌, ℕ, inl, inr, zero, refl,
  arith, ◌≡◌,
}

unfoldable pub keys_of : List Node → List Str
keys_of [] = []
keys_of (n ∷ ns) = if is_empty (key n) then keys_of ns else key n ∷ keys_of ns

-- Keys
unfoldable pub keys : Tree → List Str
keys t = keys_of (nodes t.folders)

pub record ImportResult : Type 0 where
  pub folder : Str
  pub added : ℕ
  pub skipped : List Str
  pub renamed : List Str
  pub rejected : List Str

-- The variables of the loop.
pub record Importing : Type 0 where
  pub tree : Tree
  pub existing : List Str
  pub result : ImportResult

-- Whether the destination has a session of that label.
unfoldable pub is_clash : Str → Str → Tree → Bool
is_clash folder want t = elim (folder_index t folder) [
  | none ↦ false
  | some i ↦ found (session_index (sessions_at i t.folders) want)
]

-- A name that collides gets the host after it.
unfoldable pub renamed_node : Node → Node
renamed_node n = record n { name = label n ++ lit " (" ++ n.host ++ lit ")" }

unfoldable pub note_rename : Bool → Str → ImportResult → ImportResult
note_rename true want r = record r { renamed = r.renamed ++ want ∷ [] }
note_rename false want r = r

-- What Add answered is noted.
unfoldable pub import_added : Node → ImportResult → List Str → Edit → Importing
import_added n r existing (t, some problem) = record {
  tree = t;
  existing = existing;
  result = record r { rejected = r.rejected ++ label n ∷ [] };
}
import_added n r existing (t, none) = record {
  tree = t;
  existing = key n ∷ existing;
  result = record r { added = suc r.added };
}

unfoldable pub import_new : Str → Node → Importing → Importing
unfolding import_added note_rename
import_new folder n s =
    let clash = is_clash folder (label n) s.tree in
    let m = if clash then renamed_node n else n in
    import_added m (note_rename clash (label n) s.result) s.existing (add folder m s.tree)

-- One round of the loop, with the node normalized.
unfoldable pub import_normal : Str → Node → Importing → Importing
unfolding import_new
import_normal folder n s =
    if is_empty (key n)
    then record s { result = record s.result { rejected = s.result.rejected ++ label n ∷ [] } }
    else if has s.existing (key n)
    then record s { result = record s.result { skipped = s.result.skipped ++ label n ∷ [] } }
    else import_new folder n s

unfoldable pub import_nodes : Str → List Node → Importing → Importing
unfolding import_normal
import_nodes folder [] s = s
import_nodes folder (n ∷ ns) s = import_nodes folder ns (import_normal folder (normalize n) s)

-- The variables before the loop.
abbrev pub import_start : Str → Tree → Importing
import_start folder t = record {
  tree = t;
  existing = keys t;
  result = record { folder = folder; added = 0; skipped = []; renamed = []; rejected = [] };
}

-- Import
unfoldable pub import_into : Str → List Node → Tree → Importing
unfolding import_nodes
import_into folder ns t = import_nodes folder ns (import_start folder t)
