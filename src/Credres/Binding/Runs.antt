-- ===== src/Credres/Binding/Runs.antt =====
-- What holds after any sequence of operations on the binding store, and what each of them does
-- for the names it is called with.
use omegacatqt.Credres.Aliases.{
  Binding, new_alias_set, AliasSet, unpin, record_ok, stored_ids, update, restore,
}
use omegacatqt.Credres.Binding.Bound.{bind_shapes-IsBound, bind-none, bind-some}
use omegacatqt.Text.Assoc.{lookup}
use omegacatqt.Credres.Binding.Indexed.{IsIndexed, new_alias_set-IsIndexed, update-IsIndexed}
use omegacatqt.Credres.Shapes.{Shape, shapes_for_all}
use omegacatqt.Credres.Binding.Store.{memory_record, memory_forget, memory_bind}
use omegacatqt.Credres.Binding.{load, bind, record_binding, forget_pin, find_record}
use omegacatqt.Text.{Str, is_empty}
use omegacatqt.Normalize.{Ip}
use omegacatqt.Base.{
  inl, inr, true, [], ◌∷◌, refl, ◌≡◌, ℕ, Option, List, All, Option-cases, if_intro, subst,
  Bool-cases, sym,
}

-- The calls of BindingStore that write, and what a start loads.
pub data BindingOp : Type 0 where
  record_op : ℕ → Str → List Str → BindingOp
  forget_op : List Str → BindingOp
  bind_op : Str → List Str → BindingOp
  load_op : List Binding → BindingOp

module _ {A : Type 0} (ip : Ip A) where
  unfoldable pub perform : BindingOp → AliasSet → AliasSet
  perform (record_op now cred_id ids) s = memory_record ip now cred_id ids s
  perform (forget_op ids) s = memory_forget ip ids s
  perform (bind_op canonical aliases) s = memory_bind ip canonical aliases s
  perform (load_op bs) s = load ip bs s

  unfoldable pub perform_all : List BindingOp → AliasSet → AliasSet
  perform_all [] s = s
  perform_all (op ∷ ops) s = perform_all ops (perform op s)

  -- A strong name of ids finds the record that bind returns.
  abbrev pub FindsBound : Option ℕ × AliasSet → Shape → Type 0
  FindsBound bound sh = sh.strong ≡ true → lookup bound.1.index sh.name ≡ bound.0

  bind_lem :
      (canonical : Str) (ids : List Str) (s : AliasSet) (shapes : List Shape)
      → shapes_for_all ip ids ≡ shapes
      → IsIndexed s
      → IsIndexed (bind ip canonical ids s).1 × All (FindsBound (bind ip canonical ids s)) shapes
  bind_lem canonical ids s [] e w =
      subst (λ (z : Option ℕ × AliasSet). IsIndexed z.1 × All (FindsBound z) [])
        (sym (bind-none ip canonical ids s e)) (w, tt)
  bind_lem canonical ids s (sh ∷ shs) e w =
      let b = bind_shapes-IsBound ip canonical sh.name (sh ∷ shs) s w in
      subst (λ (z : Option ℕ × AliasSet). IsIndexed z.1 × All (FindsBound z) (sh ∷ shs))
        (sym (bind-some ip canonical ids s sh shs e)) (b.indexed, b.finds)

  -- After a bind, every address and every qualified name among the identities it was called with
  -- finds the one record that it returns, if the index and the records agreed before.
  pub bind-finds :
      (canonical : Str) (ids : List Str) (s : AliasSet)
      → IsIndexed s
      → All (FindsBound (bind ip canonical ids s)) (shapes_for_all ip ids)
  bind-finds canonical ids s w = (bind_lem canonical ids s (shapes_for_all ip ids) refl w).1

  pub bind-IsIndexed :
      (canonical : Str) (ids : List Str) (s : AliasSet)
      → IsIndexed s
      → IsIndexed (bind ip canonical ids s).1
  bind-IsIndexed canonical ids s w = (bind_lem canonical ids s (shapes_for_all ip ids) refl w).0

  record_binding-IsIndexed :
      (now : ℕ) (cred_id : Str) (ids : List Str) (s : AliasSet)
      → IsIndexed s
      → IsIndexed (record_binding ip now cred_id ids s)
  unfolding record_binding
  record_binding-IsIndexed now cred_id ids s w =
      let bound = bind ip [] ids s in
      let b : IsIndexed bound.1 = bind-IsIndexed [] ids s w in
      elim (Option-cases bound.0) [
        | inl e ↦ rw (e, record_binding) b
        | inr (t, e) ↦
            rw (e, record_binding)
              (update-IsIndexed t (record_ok now cred_id) bound.1 (λ r. unfold record_ok in refl) b)
      ]

  forget_pin-IsIndexed :
      (ids : List Str) (s : AliasSet) → IsIndexed s → IsIndexed (forget_pin ip ids s).1
  unfolding forget_pin
  forget_pin-IsIndexed ids s w = elim (Option-cases (find_record ip ids s)) [
    | inl e ↦ rw (e, forget_pin) w
    | inr (r, e) ↦
        rw (e, forget_pin)
          (elim (Bool-cases (is_empty (s.heap r).cred_id)) [
            | inl h ↦ rw h w
            | inr h ↦ rw h (update-IsIndexed r unpin s (λ x. refl) w)
          ])
  ]

  load-IsIndexed : (bs : List Binding) (s : AliasSet) → IsIndexed s → IsIndexed (load ip bs s)
  unfolding load
  load-IsIndexed [] s w = w
  load-IsIndexed (b ∷ bs) s w =
      let bound = bind ip b.canonical (stored_ids b) s in
      let i : IsIndexed bound.1 = bind-IsIndexed b.canonical (stored_ids b) s w in
      elim (Option-cases bound.0) [
        | inl e ↦ rw (e, load) (load-IsIndexed bs bound.1 i)
        | inr (t, e) ↦
            rw (e, load)
              (load-IsIndexed bs (update t (restore b) bound.1)
                (update-IsIndexed t (restore b) bound.1 (λ r. unfold restore in refl) i))
      ]

  perform-IsIndexed : (op : BindingOp) (s : AliasSet) → IsIndexed s → IsIndexed (perform op s)
  unfolding perform memory_record memory_forget memory_bind
  perform-IsIndexed (record_op now cred_id ids) s w =
      if_intro IsIndexed (is_empty cred_id) s (record_binding ip now cred_id ids s) w
        (record_binding-IsIndexed now cred_id ids s w)
  perform-IsIndexed (forget_op ids) s w = forget_pin-IsIndexed ids s w
  perform-IsIndexed (bind_op canonical aliases) s w =
      bind-IsIndexed canonical (canonical ∷ aliases) s w
  perform-IsIndexed (load_op bs) s w = load-IsIndexed bs s w

  all-IsIndexed :
      (ops : List BindingOp) (s : AliasSet) → IsIndexed s → IsIndexed (perform_all ops s)
  unfolding perform_all
  all-IsIndexed [] s w = w
  all-IsIndexed (op ∷ ops) s w = all-IsIndexed ops (perform op s) (perform-IsIndexed op s w)

  -- Whatever is loaded, recorded, forgotten and bound, in whatever order, the index and the
  -- aliases of the records agree: a name finds a record exactly if the record is one of the store
  -- and has the name among its aliases, so that no two records have a name in common; and no
  -- record stands in the list twice.
  pub perform_all-IsIndexed : (ops : List BindingOp) → IsIndexed (perform_all ops new_alias_set)
  perform_all-IsIndexed ops = all-IsIndexed ops new_alias_set new_alias_set-IsIndexed
