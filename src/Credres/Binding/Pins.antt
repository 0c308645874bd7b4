-- ===== src/Credres/Binding/Pins.antt =====
-- What a credential that worked leaves in the store, and that a file store keeps it on disk.
use omegacatqt.Credres.Aliases.{update, AliasSet, record_ok, unpin, BindingRecord}
use omegacatqt.Credres.Binding.Runs.{FindsBound, bind-finds}
use omegacatqt.Credres.Binding.Bound.{bind-cases}
use omegacatqt.Credres.Shapes.{Shape, shapes_for_all}
use omegacatqt.Credres.Binding.Indexed.{IsIndexed, write-at}
use omegacatqt.Text.Assoc.{lookup}
use omegacatqt.Text.{Str, is_empty}
use omegacatqt.Credres.Binding.{record_binding, forget_pin, bind, bind_shapes, find_record}
use omegacatqt.Normalize.{Ip}
use omegacatqt.Credres.Binding.Store.{
  FileBindings, file_record, to_stored, file_forget, snapshot_all, file_bind, lookup_binding,
  memory_forget,
}
use omegacatqt.Base.{
  inl, inr, some, none, true, false, [], ◌∷◌, refl, ◌≡◌, Bool, ℕ, map, List, Option, All, subst,
  sym, ◌∙◌, ap, All-map, Option-cases, Bool-cases, ◌⊎◌,
}

-- The credential of the record that a name finds.
unfoldable pub pin_at : AliasSet → Str → Option Str
pin_at s a = elim (lookup s.index a) [ none ↦ none | some t ↦ some (s.heap t).cred_id ]

pin_at-some :
    (s : AliasSet) (a : Str) (t : ℕ)
    → lookup s.index a ≡ some t
    → pin_at s a ≡ some (s.heap t).cred_id
unfolding pin_at
pin_at-some s a t e = rw (e, pin_at) refl

-- The memory and the file say the same.
abbrev pub InStep : FileBindings → Type 0
InStep s = (s.disk ≡ map to_stored (snapshot_all s.set)) × (s.disk_suffixes ≡ s.suffixes)

-- The calls of FileBindings that write; whether the write succeeds comes first.
pub data FileOp : Type 0 where
  file_record_op : Bool → ℕ → Str → List Str → FileOp
  file_forget_op : Bool → List Str → FileOp
  file_bind_op : Bool → Str → List Str → FileOp

-- A call that returns no error has changed nothing, or has left the file in step; one that returns
-- an error has left the file as it was.
abbrev pub Saves : FileBindings → FileBindings × Bool → Type 0
Saves before r =
    (r.1 ≡ true → (r.0 ≡ before) ⊎ InStep r.0)
    × (r.1 ≡ false → (r.0.disk ≡ before.disk) × (r.0.disk_suffixes ≡ before.disk_suffixes))

module _ {A : Type 0} (ip : Ip A) where
  unfoldable pub file_perform : FileOp → FileBindings → FileBindings × Bool
  unfolding file_record file_forget file_bind
  file_perform (file_record_op ok now cred_id ids) s = file_record ip ok now cred_id ids s
  file_perform (file_forget_op ok ids) s = file_forget ip ok ids s
  file_perform (file_bind_op ok canonical aliases) s = file_bind ip ok canonical aliases s

  record_binding-some :
      (now : ℕ) (cred_id : Str) (ids : List Str) (s : AliasSet) (t : ℕ)
      → (bind ip [] ids s).0 ≡ some t
      → record_binding ip now cred_id ids s ≡ update t (record_ok now cred_id) (bind ip [] ids s).1
  unfolding record_binding
  record_binding-some now cred_id ids s t e = rw (e, record_binding) refl

  update-pins :
      (t now : ℕ) (cred_id a : Str) (s : AliasSet)
      → lookup s.index a ≡ some t
      → pin_at (update t (record_ok now cred_id) s) a ≡ some cred_id
  update-pins t now cred_id a s e =
      let s' = update t (record_ok now cred_id) s in
      let here : lookup s'.index a ≡ some t = unfold update in e in
      let at : s'.heap t ≡ record_ok now cred_id (s.heap t) =
        unfold update in write-at t (record_ok now cred_id (s.heap t)) s.heap in
      let id : (record_ok now cred_id (s.heap t)).cred_id ≡ cred_id = unfold record_ok in refl in
      pin_at-some s' a t here
      ∙ ap (λ (r : BindingRecord). some r.cred_id) at
      ∙ ap (λ (c : Str). some c) id

  -- After Record, every address and every qualified name among the identities finds a record with
  -- the credential that worked, if the index and the records agreed before.
  pub record_binding-pins :
      (now : ℕ) (cred_id : Str) (ids : List Str) (s : AliasSet)
      → IsIndexed s
      → All
          (λ (sh : Shape).
            sh.strong ≡ true → pin_at (record_binding ip now cred_id ids s) sh.name ≡ some cred_id)
          (shapes_for_all ip ids)
  unfolding record_binding
  record_binding-pins now cred_id ids s w =
      let Pinned : Shape → Type 0 = λ sh.
        (sh.strong ≡ true → pin_at (record_binding ip now cred_id ids s) sh.name ≡ some cred_id) in
      elim (bind-cases ip [] ids s) [
        | inl (e, p) ↦ subst (All Pinned) (sym e) tt
        | inr (sh, shs, q, p) ↦
            let bound = bind ip [] ids s in
            let t = (bind_shapes ip [] sh.name (sh ∷ shs) s).0 in
            let e : bound.0 ≡ some t = ap (λ (z : Option ℕ × AliasSet). z.0) p in
            All-map (FindsBound ip bound) Pinned
              (λ other f h.
                subst (λ (z : AliasSet). pin_at z other.name ≡ some cred_id)
                  (sym (record_binding-some now cred_id ids s t e))
                  (update-pins t now cred_id other.name bound.1 (f h ∙ e)))
              (shapes_for_all ip ids) (bind-finds ip [] ids s w)
      ]

  lookup_binding-none :
      (ids : List Str) (s : AliasSet) → find_record ip ids s ≡ none → lookup_binding ip ids s ≡ none
  unfolding lookup_binding
  lookup_binding-none ids s e = rw (e, lookup_binding) refl

  lookup_binding-unpinned :
      (ids : List Str) (s : AliasSet) (r : ℕ)
      → find_record ip ids s ≡ some r
      → is_empty (s.heap r).cred_id ≡ true
      → lookup_binding ip ids s ≡ none
  unfolding lookup_binding
  lookup_binding-unpinned ids s r e h = rw (e, lookup_binding) (rw h refl)

  update-find_record :
      (ids : List Str) (s : AliasSet) (r : ℕ)
      → find_record ip ids (update r unpin s) ≡ find_record ip ids s
  unfolding find_record update
  update-find_record ids s r = refl

  -- What a forgotten device looks like.
  abbrev Forgotten : List Str → AliasSet → AliasSet → Type 0
  Forgotten ids s after =
      (find_record ip ids after ≡ find_record ip ids s) × (lookup_binding ip ids after ≡ none)

  -- After Forget, the identities find the record that they found before, and Lookup with them
  -- finds no credential.
  pub memory_forget-unpins :
      (ids : List Str) (s : AliasSet)
      → (find_record ip ids (memory_forget ip ids s) ≡ find_record ip ids s)
        × (lookup_binding ip ids (memory_forget ip ids s) ≡ none)
  unfolding memory_forget forget_pin
  memory_forget-unpins ids s = elim (Option-cases (find_record ip ids s)) [
    | inl e ↦
        let same : memory_forget ip ids s ≡ s = rw (e, memory_forget, forget_pin) refl in
        subst (Forgotten ids s) (sym same) (refl, lookup_binding-none ids s e)
    | inr (r, e) ↦ elim (Bool-cases (is_empty (s.heap r).cred_id)) [
      | inl h ↦
          let same : memory_forget ip ids s ≡ s = rw (e, memory_forget, forget_pin) (rw h refl) in
          subst (Forgotten ids s) (sym same) (refl, lookup_binding-unpinned ids s r e h)
      | inr h ↦
          let same : memory_forget ip ids s ≡ update r unpin s =
            rw (e, memory_forget, forget_pin) (rw h refl) in
          let here : is_empty ((update r unpin s).heap r).cred_id ≡ true =
            unfold update in unfold is_empty in rw (write-at r (unpin (s.heap r)) s.heap) refl in
          subst (Forgotten ids s) (sym same) (
            update-find_record ids s r,
            lookup_binding-unpinned ids (update r unpin s) r (update-find_record ids s r ∙ e) here,
          )
    ]
  ]
