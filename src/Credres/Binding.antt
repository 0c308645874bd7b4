-- ===== src/Credres/Binding.antt =====
-- internal/credres/binding.go: what each device is known by, and which credential last worked on
-- it: the operations of aliasSet.
pub mod Maps
pub mod Indexed
pub mod Merge
pub mod Settled
pub mod Bound
pub mod Store
pub mod Labels
pub mod Moves
pub mod Kept
pub mod Runs
pub mod Pins
mod Tests
use omegacatqt.Credres.Aliases.{
  attach, AliasSet, restore, BindingRecord, write, absorb, find_weak, update, find_shape, record_ok,
  select_weak, Binding, unpin, reindex, create, stored_ids, remove_record,
}
use omegacatqt.Credres.Shapes.{better_canonical, shapes_for_all, Shape}
use omegacatqt.Text.Match.{contains}
use omegacatqt.Text.Trim.{trim_space}
use omegacatqt.Text.Assoc.{lookup, insert}
use omegacatqt.Normalize.{
  Ip, identifier, is_some, addr_of, short_name, is_artifact_name, is_mac_address,
}
use omegacatqt.Text.{Str, str_eq, is_empty, str_le, sort_strings}
use omegacatqt.Base.{
  some, none, true, false, [], ◌∷◌, suc, ◌++◌, Option, Bool, ℕ, List, if◌then◌else◌, ◌||◌, ◌==◌,
  any, not, map, ltb, ◌+◌, ◌&&◌, inl, inr, zero, refl, arith, ◌≡◌,
}

module _ {A : Type 0} (ip : Ip A) where
  unfoldable pub best_label : Str → List (Str × Bool) → Str
  best_label label [] = label
  best_label label ((a, strong) ∷ aliases) = best_label (better_canonical ip label a) aliases

  unfoldable pub merged : BindingRecord → BindingRecord → BindingRecord
  unfolding absorb
  merged d s =
      let newer = ltb d.last_ok s.last_ok in
      record {
        canonical = better_canonical ip d.canonical s.canonical;
        aliases = absorb s.aliases d.aliases;
        cred_id = if newer || is_empty d.cred_id then s.cred_id else d.cred_id;
        last_ok = if newer then s.last_ok else d.last_ok;
        hits = d.hits + s.hits;
      }

  unfoldable pub merge : ℕ → ℕ → AliasSet → AliasSet
  unfolding write reindex merged remove_record
  merge dst src s =
      let folded : AliasSet = record s {
        records = remove_record src s.records;
        index = reindex (s.heap src).aliases dst s.index;
        heap = write dst (merged (s.heap dst) (s.heap src)) s.heap;
      } in
      if src == dst then s else folded

  -- The loop over the strong shapes.
  unfoldable pub merge_strong : List Shape → Option ℕ → AliasSet → Option ℕ × AliasSet
  unfolding merge
  merge_strong [] target s = (target, s)
  merge_strong (sh ∷ shs) target s =
      let skip = merge_strong shs target s in
      if not sh.strong then skip else elim (lookup s.index sh.name) [
        | none ↦ skip
        | some r ↦ elim target [
          | none ↦ merge_strong shs (some r) s
          | some t ↦ merge_strong shs (some t) (merge t r s)
        ]
      ]

  -- The record that bind works on, made if there is none.
  unfoldable pub choose_record : List Shape → Option ℕ × AliasSet → ℕ × AliasSet
  unfolding find_weak select_weak create
  choose_record shapes (some t, s) = (t, s)
  choose_record shapes (none, s) =
      let have_strong = any (λ (sh : Shape). sh.strong) shapes in
      elim (select_weak s.heap have_strong (find_weak s.index shapes none)) [
        | some t ↦ (t, s)
        | none ↦ (s.next, create s)
      ]

  unfoldable pub set_label : Str → Str → BindingRecord → BindingRecord
  unfolding best_label
  set_label canonical first r =
      let best = best_label (better_canonical ip r.canonical canonical) r.aliases in
      record r { canonical = if is_empty best then first else best }

  unfoldable pub bind_shapes : Str → Str → List Shape → AliasSet → ℕ × AliasSet
  unfolding merge_strong choose_record attach set_label update
  bind_shapes canonical first shapes s =
      let chosen = choose_record shapes (merge_strong shapes none s) in
      (chosen.0, update chosen.0 (set_label canonical first) (attach chosen.0 shapes chosen.1))

  unfoldable pub bind : Str → List Str → AliasSet → Option ℕ × AliasSet
  unfolding bind_shapes shapes_for_all
  bind canonical ids s = elim (shapes_for_all ip ids) [
    | [] ↦ (none, s)
    | sh ∷ shs ↦ let bound = bind_shapes canonical sh.name (sh ∷ shs) s in (some bound.0, bound.1)
  ]

  -- lookup
  unfoldable pub find_record : List Str → AliasSet → Option ℕ
  unfolding find_shape
  find_record ids s = find_shape s.index (shapes_for_all ip ids)

  -- record
  unfoldable pub record_binding : ℕ → Str → List Str → AliasSet → AliasSet
  unfolding bind record_ok
  record_binding now cred_id ids s =
      let bound = bind [] ids s in
      elim bound.0 [ none ↦ bound.1 | some t ↦ update t (record_ok now cred_id) bound.1 ]

  -- forget, and whether it changed a pin
  unfoldable pub forget_pin : List Str → AliasSet → Bool × AliasSet
  unfolding find_record update
  forget_pin ids s = elim (find_record ids s) [
    | none ↦ (false, s)
    | some r ↦ if is_empty (s.heap r).cred_id then (false, s) else (true, update r unpin s)
  ]

  -- load
  unfoldable pub load : List Binding → AliasSet → AliasSet
  unfolding bind restore
  load [] s = s
  load (b ∷ bs) s =
      let bound = bind b.canonical (stored_ids b) s in
      elim bound.0 [ none ↦ load bs bound.1 | some t ↦ load bs (update t (restore b) bound.1) ]
