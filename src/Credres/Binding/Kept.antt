-- ===== src/Credres/Binding/Kept.antt =====
-- bind joins two records only if a strong shape finds each of them.
use omegacatqt.Credres.Aliases.{attach, AliasSet, create, update, attach_shape}
use omegacatqt.Credres.Binding.Bound.{
  selected, bind-cases, lookup-attach_shape, choose_record-found, choose_record-new, IsChosen,
  choose_record-IsChosen, attach_shape-IsStrongSettled,
}
use omegacatqt.Credres.Binding.Moves.{KeepsOr, merge_strong-Moved, is_hit}
use omegacatqt.Text.Assoc.{lookup}
use omegacatqt.Credres.Binding.Settled.{IsStrongSettled, merge_strong-Merged}
use omegacatqt.Credres.Binding.Indexed.{IsIndexed}
use omegacatqt.Credres.Shapes.{Shape, shapes_for_all}
use omegacatqt.Text.{Str, str_eq, str_eq_iff}
use omegacatqt.Normalize.{Ip}
use omegacatqt.Credres.Binding.{bind_shapes, choose_record, bind, merge_strong}
use omegacatqt.Base.{
  inl, inr, some, none, true, [], ◌∷◌, refl, arith, ◌≡◌, ℕ, List, All, Option, Option-cases, ◌⊎◌,
  Bool-cases, ap, ◌∙◌, subst, sym, All-map,
}

module _ {A : Type 0} (ip : Ip A) (shapes : List Shape) where
  choose_record-index :
      (found : Option ℕ × AliasSet) → (choose_record ip shapes found).1.index ≡ found.1.index
  choose_record-index (some t, s) = unfold choose_record in refl
  choose_record-index (none, s) = elim (Option-cases (selected ip shapes s)) [
    | inr (t, e) ↦ ap (λ (z : ℕ × AliasSet). z.1.index) (choose_record-found ip shapes s t e)
    | inl e ↦
        ap (λ (z : ℕ × AliasSet). z.1.index) (choose_record-new ip shapes s e)
        ∙ (unfold create in refl)
  ]

  choose_record-target :
      (found : Option ℕ × AliasSet) (t : ℕ)
      → found.0 ≡ some t
      → (choose_record ip shapes found).0 ≡ t
  choose_record-target (some u, s) t e = unfold choose_record in ground arith
  choose_record-target (none, s) t e = ground arith

attach-keeps :
    (t : ℕ) (shs : List Shape) (s : AliasSet) (a : Str) (i : ℕ)
    → All (IsStrongSettled (some t) s) shs
    → lookup s.index a ≡ some i
    → lookup (attach t shs s).index a ≡ some i
unfolding attach
attach-keeps t [] s a i settled e = e
attach-keeps t (sh ∷ shs) s a i settled e =
    let here : lookup (attach_shape t sh s).index a ≡ some i =
      elim (Bool-cases (str_eq sh.name a)) [
        | inr h ↦ ground (arith, lookup-attach_shape t sh s a)
        | inl h ↦
            let n : lookup s.index sh.name ≡ some i =
              subst (λ (z : Str). lookup s.index z ≡ some i) (sym ((str_eq_iff sh.name a).0 h)) e in
            elim (Bool-cases sh.strong) [
              | inl q ↦
                  let f : some t ≡ some i = settled.0 q i n in
                  ground (arith, lookup-attach_shape t sh s a)
              | inr q ↦ ground (arith, lookup-attach_shape t sh s a)
            ]
      ] in
    attach-keeps t shs (attach_shape t sh s) a i
      (All-map (IsStrongSettled (some t) s) (IsStrongSettled (some t) (attach_shape t sh s))
        (λ other h. attach_shape-IsStrongSettled t sh other s h) shs settled.1)
      here

module _ {A : Type 0} (ip : Ip A) where
  bind_shapes-keeps :
      (canonical first : Str) (shapes : List Shape) (s : AliasSet) (a : Str) (i : ℕ)
      → IsIndexed s
      → lookup s.index a ≡ some i
      → KeepsOr
          (some (bind_shapes ip canonical first shapes s).0)
          (bind_shapes ip canonical first shapes s).1.index
          a
          i
          (is_hit s.index shapes i)
  unfolding bind_shapes
  bind_shapes-keeps canonical first shapes s a i w e =
      let found = merge_strong ip shapes none s in
      let (wm, live, keeps, all) = merge_strong-Merged ip shapes none s w (λ j q. ground arith) in
      let chosen = choose_record ip shapes found in
      let c : IsChosen shapes chosen = choose_record-IsChosen ip shapes found wm live all in
      let after : (j : ℕ)
          → lookup found.1.index a ≡ some j
          → lookup (attach chosen.0 shapes chosen.1).index a ≡ some j =
        λ j q.
          attach-keeps chosen.0 shapes chosen.1 a j c.settled
            (rw (choose_record-index ip shapes found) q) in
      unfold update in
      (elim (merge_strong-Moved ip shapes none s a i w (λ j q. ground arith) e) [
        | inl k ↦ inl (after i k)
        | inr (t, p, k, h) ↦
            let same : chosen.0 ≡ t = choose_record-target ip shapes found t p in
            inr (t, ap some same, after t k, h)
      ])

  -- A bind moves a name from one record to another only if the first record is found by an
  -- address or a qualified name among the identities that bind was called with, and then to the
  -- record that it returns; every other name finds the record it found before. So a short name
  -- never joins two records, if the index and the records agreed before.
  pub bind-keeps :
      (canonical : Str) (ids : List Str) (s : AliasSet) (a : Str) (i : ℕ)
      → IsIndexed s
      → lookup s.index a ≡ some i
      → (lookup (bind ip canonical ids s).1.index a ≡ some i)
        ⊎ ((lookup (bind ip canonical ids s).1.index a ≡ (bind ip canonical ids s).0)
            × (is_hit s.index (shapes_for_all ip ids) i ≡ true))
  bind-keeps canonical ids s a i w e = elim (bind-cases ip canonical ids s) [
    | inl (n, p) ↦ inl (rw p e)
    | inr (sh, shs, q, p) ↦ elim (bind_shapes-keeps canonical sh.name (sh ∷ shs) s a i w e) [
      | inl k ↦ inl (rw p k)
      | inr (t, f, k, h) ↦ inr (rw p (k ∙ sym f), rw q h)
    ]
  ]
