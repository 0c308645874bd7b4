-- ===== src/Credres/Aliases.antt =====
-- internal/credres/binding.go: the records of aliasSet, and the steps of its operations that do not
-- look at addresses. A pointer to a record is a number, `heap` has what it points to, and `records`
-- and `index` hold the pointers. Logging is left out.
-- record
use omegacatqt.Normalize.{is_some}
use omegacatqt.Text.Assoc.{lookup, insert}
use omegacatqt.Credres.Shapes.{Shape}
use omegacatqt.Text.{Str, sort_strings, is_empty}
use omegacatqt.Base.{
  some, none, true, false, [], ◌∷◌, suc, ◌++◌, ltb, Bool, List, ℕ, Option, ◌+◌, if◌then◌else◌, ◌||◌,
  ◌==◌, any, not, map,
}

pub record BindingRecord : Type 0 where
  pub canonical : Str
  pub aliases : List (Str × Bool)
  pub cred_id : Str
  pub last_ok : ℕ
  pub hits : ℕ

-- Binding
pub record Binding : Type 0 where
  pub canonical : Str
  pub aliases : List Str
  pub cred_id : Str
  pub last_ok : ℕ
  pub hits : ℕ

-- aliasSet; `next` is the pointer of the next record to be made.
pub record AliasSet : Type 0 where
  pub records : List ℕ
  pub index : List (Str × ℕ)
  pub heap : ℕ → BindingRecord
  pub next : ℕ

abbrev pub new_record : BindingRecord
new_record = record { canonical = []; aliases = []; cred_id = []; last_ok = 0; hits = 0 }

-- newAliasSet
abbrev pub new_alias_set : AliasSet
new_alias_set = record { records = []; index = []; heap = λ i. new_record; next = 0 }

-- *i = r
unfoldable pub write : ℕ → BindingRecord → (ℕ → BindingRecord) → ℕ → BindingRecord
write i r heap k = if k == i then r else heap k

-- hasStrong
unfoldable pub has_strong : BindingRecord → Bool
has_strong r = any (λ alias. alias.1) r.aliases

unfoldable pub is_strong_alias : List (Str × Bool) → Str → Bool
is_strong_alias table a = elim (lookup table a) [ none ↦ false | some strong ↦ strong ]

unfoldable pub absorb_alias : Str → Bool → List (Str × Bool) → List (Str × Bool)
unfolding is_strong_alias
absorb_alias a strong table =
    if is_strong_alias table a || strong
    then insert a (is_strong_alias table a || strong) table
    else if is_some (lookup table a)
    then table
    else insert a strong table

-- The loop of merge, on the aliases of dst and on the index.
unfoldable pub absorb : List (Str × Bool) → List (Str × Bool) → List (Str × Bool)
unfolding absorb_alias
absorb [] table = table
absorb ((a, strong) ∷ more) table = absorb more (absorb_alias a strong table)

unfoldable pub reindex : List (Str × Bool) → ℕ → List (Str × ℕ) → List (Str × ℕ)
reindex [] dst index = index
reindex ((a, strong) ∷ more) dst index = reindex more dst (insert a dst index)

unfoldable pub remove_record : ℕ → List ℕ → List ℕ
remove_record src [] = []
remove_record src (r ∷ rs) = let rest = remove_record src rs in if r == src then rs else r ∷ rest

-- What the weak shapes find: two records, at most one, or none.
pub data WeakHit : Type 0 where
  ambiguous : WeakHit
  weak_hit : Option ℕ → WeakHit

unfoldable pub find_weak : List (Str × ℕ) → List Shape → Option ℕ → WeakHit
find_weak index [] hit = weak_hit hit
find_weak index (sh ∷ shs) hit =
    let skip = find_weak index shs hit in
    if sh.strong then skip else elim (lookup index sh.name) [
      | none ↦ skip
      | some r ↦
          let found = find_weak index shs (some r) in
          elim hit [ none ↦ found | some h ↦ if h == r then found else ambiguous ]
    ]

-- The switch on the weak hit: the record that it selects.
unfoldable pub select_weak : (ℕ → BindingRecord) → Bool → WeakHit → Option ℕ
unfolding has_strong
select_weak heap have_strong ambiguous = none
select_weak heap have_strong (weak_hit none) = none
select_weak heap have_strong (weak_hit (some w)) =
    if not (has_strong (heap w)) then some w else if not have_strong then some w else none

-- The new record of bind.
unfoldable pub create : AliasSet → AliasSet
unfolding write
create s = record s {
  records = s.records ++ (s.next ∷ []);
  heap = write s.next new_record s.heap;
  next = suc s.next;
}

unfoldable pub attach_shape : ℕ → Shape → AliasSet → AliasSet
unfolding write
attach_shape target sh s =
    let r = s.heap target in
    let strong_aliases = insert sh.name true r.aliases in
    let weak_aliases =
      if is_some (lookup r.aliases sh.name) then r.aliases else insert sh.name false r.aliases in
    let index = insert sh.name target s.index in
    if sh.strong
    then record s {
      heap = write target (record r { aliases = strong_aliases }) s.heap;
      index = index;
    }
    else elim (lookup s.index sh.name) [
      | none ↦ record s {
        heap = write target (record r { aliases = weak_aliases }) s.heap;
        index = index;
      }
      | some owner ↦ s
    ]

unfoldable pub attach : ℕ → List Shape → AliasSet → AliasSet
unfolding attach_shape
attach target [] s = s
attach target (sh ∷ shs) s = attach target shs (attach_shape target sh s)

-- lookup
unfoldable pub find_shape : List (Str × ℕ) → List Shape → Option ℕ
find_shape index [] = none
find_shape index (sh ∷ shs) =
    let rest = find_shape index shs in elim (lookup index sh.name) [ some r ↦ some r | none ↦ rest ]

unfoldable pub update : ℕ → (BindingRecord → BindingRecord) → AliasSet → AliasSet
unfolding write
update i f s = record s { heap = write i (f (s.heap i)) s.heap }

unfoldable pub record_ok : ℕ → Str → BindingRecord → BindingRecord
record_ok now cred_id r = record r { cred_id = cred_id; last_ok = now; hits = suc r.hits }

abbrev pub unpin : BindingRecord → BindingRecord
unpin r = record r { cred_id = [] }

-- What load takes from a binding besides its names.
unfoldable pub restore : Binding → BindingRecord → BindingRecord
restore b r =
    let newer = ltb r.last_ok b.last_ok in
    record r {
      hits = r.hits + b.hits;
      last_ok = if newer then b.last_ok else r.last_ok;
      cred_id = if newer || is_empty r.cred_id then b.cred_id else r.cred_id;
    }

abbrev pub stored_ids : Binding → List Str
stored_ids b = if is_empty b.canonical then b.aliases else b.canonical ∷ b.aliases

-- record.snapshot
unfoldable pub binding_of : BindingRecord → Binding
binding_of r = record {
  canonical = r.canonical;
  aliases = sort_strings (map (λ alias. alias.0) r.aliases);
  cred_id = r.cred_id;
  last_ok = r.last_ok;
  hits = r.hits;
}
