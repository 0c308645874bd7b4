-- ===== src/Credres/Binding/Maps.antt =====
-- What merging two records' aliases does to them, to the index and to the list of records.
use omegacatqt.Credres.Aliases.{reindex, remove_record, absorb_alias, absorb, is_strong_alias}
use omegacatqt.Normalize.{is_some}
use omegacatqt.Text.Assoc.{lookup, insert, lookup-insert}
use omegacatqt.Text.{Str, str_eq, str_eq_iff}
use omegacatqt.Base.{
  some, true, false, [], ◌∷◌, refl, arith, ◌≡◌, List, ℕ, Bool, ◌++◌, ◌&&◌, ◌==◌, if◌then◌else◌,
  ◌||◌, not,
}

unfoldable pub mem : ℕ → List ℕ → Bool
mem i [] = false
mem i (r ∷ rs) = r == i || mem i rs

unfoldable pub is_distinct : List ℕ → Bool
unfolding mem
is_distinct [] = true
is_distinct (r ∷ rs) = not (mem r rs) && is_distinct rs

-- Whether a is an alias of the table.
abbrev pub named : List (Str × Bool) → Str → Bool
named table a = is_some (lookup table a)

pub named-insert :
    (k a : Str) (v : Bool) (table : List (Str × Bool))
    → named (insert k v table) a ≡ (str_eq k a || named table a)
named-insert k a v table = ground (arith, lookup-insert k a v table)

named-absorb_alias :
    (k a : Str) (v : Bool) (table : List (Str × Bool))
    → named (absorb_alias k v table) a ≡ (str_eq k a || named table a)
unfolding absorb_alias
named-absorb_alias k a v table = ground (
  arith,
  named-insert k a v table,
  named-insert k a true table,
  named-insert k a (is_strong_alias table k || v) table,
  str_eq_iff k a,
)

pub named-absorb :
    (src table : List (Str × Bool)) (a : Str)
    → named (absorb src table) a ≡ (named src a || named table a)
unfolding absorb lookup
named-absorb [] table a = refl
named-absorb ((k, v) ∷ src) table a =
    ground (arith, named-absorb src (absorb_alias k v table) a, named-absorb_alias k a v table)

pub lookup-reindex :
    (src : List (Str × Bool)) (dst : ℕ) (index : List (Str × ℕ)) (a : Str)
    → lookup (reindex src dst index) a ≡ (if named src a then some dst else lookup index a)
unfolding reindex lookup
lookup-reindex [] dst index a = refl
lookup-reindex ((k, v) ∷ src) dst index a =
    ground (arith, lookup-reindex src dst (insert k dst index) a, lookup-insert k a dst index)

pub mem-remove_record :
    (k src : ℕ) (rs : List ℕ)
    → is_distinct rs ≡ true
    → mem k (remove_record src rs) ≡ (mem k rs && not (k == src))
unfolding mem is_distinct remove_record
mem-remove_record k src [] h = refl
mem-remove_record k src (r ∷ rs) h = ground (arith, mem-remove_record k src rs)

pub remove_record-distinct :
    (src : ℕ) (rs : List ℕ) → is_distinct rs ≡ true → is_distinct (remove_record src rs) ≡ true
unfolding is_distinct remove_record
remove_record-distinct src [] h = refl
remove_record-distinct src (r ∷ rs) h =
    ground (arith, remove_record-distinct src rs, mem-remove_record r src rs)

pub mem-append : (k : ℕ) (rs more : List ℕ) → mem k (rs ++ more) ≡ (mem k rs || mem k more)
unfolding mem
mem-append k [] more = refl
mem-append k (r ∷ rs) more = ground (arith, mem-append k rs more)

pub append-distinct :
    (n : ℕ) (rs : List ℕ)
    → is_distinct rs ≡ true
    → mem n rs ≡ false
    → is_distinct (rs ++ (n ∷ [])) ≡ true
unfolding is_distinct mem
append-distinct n [] h k = refl
append-distinct n (r ∷ rs) h k = ground (arith, append-distinct n rs, mem-append r rs (n ∷ []))
