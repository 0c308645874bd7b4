-- ===== src/Credres/Binding/Bound.antt =====
-- bind: the record that it chooses, and what it attaches.
use omegacatqt.Credres.Aliases.{ambiguous, weak_hit}
use omegacatqt.Credres.Aliases.{
  AliasSet, attach_shape, attach, find_weak, create, WeakHit, update, select_weak, weak_hit,
  BindingRecord,
}
use omegacatqt.Credres.Shapes.{Shape, shapes_for_all}
use omegacatqt.Credres.Binding.Merge.{attach_shape-IsIndexed}
use omegacatqt.Text.Assoc.{lookup, lookup-insert}
use omegacatqt.Credres.Binding.Settled.{IsLive, IsStrongSettled, merge_strong-Merged}
use omegacatqt.Credres.Binding.Maps.{mem}
use omegacatqt.Text.{Str, str_eq, str_eq_refl}
use omegacatqt.Credres.Binding.Indexed.{
  IsIndexed, create-IsIndexed, mem-create, update-IsIndexed, set_label-aliases,
}
use omegacatqt.Normalize.{Ip, is_some}
use omegacatqt.Base.{
  inl, inr, some, none, true, [], ◌∷◌, refl, arith, ◌≡◌, List, ℕ, Bool, if◌then◌else◌, Option, All,
  if_intro, Option-cases, ◌==◌, ◌&&◌, any, ◌||◌, All-map, not, Bool-cases, subst, sym, ◌⊎◌,
  List-cases,
}
use omegacatqt.Credres.Binding.{choose_record, bind_shapes, merge_strong, set_label, bind}

module _ (s : AliasSet) (w : IsIndexed s) where
  LiveHit : WeakHit → Type 0
  LiveHit ambiguous = Unit
  LiveHit (weak_hit hit) = IsLive hit s

  LiveHit-if : (b : Bool) (x y : WeakHit) → LiveHit x → LiveHit y → LiveHit (if b then x else y)
  LiveHit-if b x y p q = if_intro LiveHit b x y p q

  find_weak-LiveHit :
      (shs : List Shape) (hit : Option ℕ) → IsLive hit s → LiveHit (find_weak s.index shs hit)
  unfolding find_weak LiveHit
  find_weak-LiveHit [] hit live = live
  find_weak-LiveHit (sh ∷ shs) hit live =
      let skip = find_weak-LiveHit shs hit live in
      LiveHit-if sh.strong _ _ skip (elim (Option-cases (lookup s.index sh.name)) [
        | inl e ↦ rw e skip
        | inr (r, e) ↦
            let p = w.sound sh.name r e in
            let found = find_weak-LiveHit shs (some r) (λ i q. ground (arith, p.0)) in
            rw e (elim (Option-cases hit) [
              | inl n ↦ rw n found
              | inr (h, n) ↦ rw n (LiveHit-if (h == r) _ _ found tt)
            ])
      ])

  select_weak-live :
      (heap : ℕ → BindingRecord) (have_strong : Bool) (hit : WeakHit) (t : ℕ)
      → LiveHit hit
      → select_weak heap have_strong hit ≡ some t
      → mem t s.records ≡ true
  unfolding select_weak LiveHit
  select_weak-live heap have_strong ambiguous t live e = ground arith
  select_weak-live heap have_strong (weak_hit none) t live e = ground arith
  select_weak-live heap have_strong (weak_hit (some h)) t live e =
      let m : mem h s.records ≡ true = live h refl in ground (arith, m)

-- bind has a record that is in the list, and no other record has one of the strong shapes.
pub record IsChosen (shapes : List Shape) (chosen : ℕ × AliasSet) : Type 0 where
  pub indexed : IsIndexed chosen.1
  pub live : mem chosen.0 chosen.1.records ≡ true
  pub settled : All (IsStrongSettled (some chosen.0) chosen.1) shapes

module _ {A : Type 0} (ip : Ip A) (shapes : List Shape) where
  abbrev pub selected : AliasSet → Option ℕ
  selected s =
      select_weak s.heap (any (λ (sh : Shape). sh.strong) shapes) (find_weak s.index shapes none)

  pub choose_record-found :
      (s : AliasSet) (t : ℕ) → selected s ≡ some t → choose_record ip shapes (none, s) ≡ (t, s)
  unfolding choose_record
  choose_record-found s t e = rw (e, choose_record) refl

  pub choose_record-new :
      (s : AliasSet) → selected s ≡ none → choose_record ip shapes (none, s) ≡ (s.next, create s)
  unfolding choose_record
  choose_record-new s e = rw (e, choose_record) refl

  pub choose_record-IsChosen :
      (found : Option ℕ × AliasSet)
      → IsIndexed found.1
      → IsLive found.0 found.1
      → All (IsStrongSettled found.0 found.1) shapes
      → IsChosen shapes (choose_record ip shapes found)
  unfolding choose_record
  choose_record-IsChosen (some t, s) w live all = record {
    indexed = w;
    live = live t refl;
    settled = all;
  }
  choose_record-IsChosen (none, s) w live all =
      let have_strong = any (λ (sh : Shape). sh.strong) shapes in
      let free : (t : ℕ) → All (IsStrongSettled (some t) s) shapes = λ t.
        All-map (IsStrongSettled none s) (IsStrongSettled (some t) s)
          (λ sh h q i e. ground (arith, h q i e)) shapes all in
      elim (Option-cases (selected s)) [
        | inr (t, e) ↦ subst (IsChosen shapes) (sym (choose_record-found s t e)) (record {
          indexed = w;
          live =
              select_weak-live s w s.heap have_strong (find_weak s.index shapes none) t
                (find_weak-LiveHit s w shapes none (λ i q. ground arith)) e;
          settled = free t;
        })
        | inl e ↦
            subst (IsChosen shapes) (sym (choose_record-new s e)) (record {
              indexed = create-IsIndexed s w;
              live = mem-create s;
              settled = free s.next;
            })
      ]

pub lookup-attach_shape :
    (t : ℕ) (sh : Shape) (s : AliasSet) (a : Str)
    → lookup (attach_shape t sh s).index a ≡ (
        if str_eq sh.name a && (sh.strong || not (is_some (lookup s.index sh.name)))
        then some t
        else lookup s.index a)
unfolding attach_shape
lookup-attach_shape t sh s a = elim (Bool-cases sh.strong) [
  | inl h ↦ rw h (ground (arith, lookup-insert sh.name a t s.index))
  | inr h ↦ rw h (elim (Option-cases (lookup s.index sh.name)) [
    | inl e ↦ rw e (ground (arith, lookup-insert sh.name a t s.index))
    | inr (owner, e) ↦ rw e (ground arith)
  ])
]

-- No other record than t has a name of a strong shape, after one more shape.
pub attach_shape-IsStrongSettled :
    (t : ℕ) (sh other : Shape) (s : AliasSet)
    → IsStrongSettled (some t) s other
    → IsStrongSettled (some t) (attach_shape t sh s) other
attach_shape-IsStrongSettled t sh other s h q i e =
    ground (arith, lookup-attach_shape t sh s other.name, h q i)

pub mem-attach_shape :
    (t i : ℕ) (sh : Shape) (s : AliasSet)
    → mem i s.records ≡ true
    → mem i (attach_shape t sh s).records ≡ true
unfolding attach_shape
mem-attach_shape t i sh s m = elim (Bool-cases sh.strong) [
  | inl h ↦ rw h m
  | inr h ↦
      rw h
        (elim (Option-cases (lookup s.index sh.name)) [ inl e ↦ rw e m | inr (owner, e) ↦ rw e m ])
]

lookup-attach :
    (t : ℕ) (shs : List Shape) (s : AliasSet) (a : Str)
    → lookup s.index a ≡ some t
    → lookup (attach t shs s).index a ≡ some t
unfolding attach
lookup-attach t [] s a e = e
lookup-attach t (sh ∷ shs) s a e =
    lookup-attach t shs (attach_shape t sh s) a (ground (arith, lookup-attach_shape t sh s a))

-- Every strong shape finds t.
abbrev pub Finds : ℕ → AliasSet → Shape → Type 0
Finds t s sh = sh.strong ≡ true → lookup s.index sh.name ≡ some t

-- What bind ends with.
pub record IsBound (shapes : List Shape) (bound : ℕ × AliasSet) : Type 0 where
  pub indexed : IsIndexed bound.1
  pub finds : All (Finds bound.0 bound.1) shapes

pub attach-IsBound :
    (t : ℕ) (shs : List Shape) (s : AliasSet)
    → IsChosen shs (t, s)
    → IsBound shs (t, attach t shs s)
unfolding attach
attach-IsBound t [] s c = record { indexed = c.indexed; finds = tt }
attach-IsBound t (sh ∷ shs) s c =
    let s' = attach_shape t sh s in
    let free : (sh.strong ≡ true) → (i : ℕ) → lookup s.index sh.name ≡ some i → i ≡ t =
      λ q i e. (let f : some t ≡ some i = c.settled.0 q i e in ground arith) in
    let rest = attach-IsBound t shs s' (record {
      indexed = attach_shape-IsIndexed t sh s c.live free c.indexed;
      live = mem-attach_shape t t sh s c.live;
      settled =
          All-map (IsStrongSettled (some t) s) (IsStrongSettled (some t) s')
            (λ other h. attach_shape-IsStrongSettled t sh other s h) shs c.settled.1;
    }) in
    record {
      indexed = rest.indexed;
      finds = (
        (λ q.
            lookup-attach t shs s' sh.name
              (ground (arith, lookup-attach_shape t sh s sh.name, str_eq_refl sh.name))),
        rest.finds,
      );
    }

module _ {A : Type 0} (ip : Ip A) where
  pub bind_shapes-IsBound :
      (canonical first : Str) (shapes : List Shape) (s : AliasSet)
      → IsIndexed s
      → IsBound shapes (bind_shapes ip canonical first shapes s)
  unfolding bind_shapes
  bind_shapes-IsBound canonical first shapes s w =
      let (wm, live, keeps, all) = merge_strong-Merged ip shapes none s w (λ i q. ground arith) in
      let chosen = choose_record ip shapes (merge_strong ip shapes none s) in
      let c : IsChosen shapes chosen =
        choose_record-IsChosen ip shapes (merge_strong ip shapes none s) wm live all in
      let b = attach-IsBound chosen.0 shapes chosen.1 c in
      record {
        indexed =
            update-IsIndexed chosen.0 (set_label ip canonical first)
              (attach chosen.0 shapes chosen.1) (λ r. set_label-aliases ip canonical first r)
              b.indexed;
        finds = unfold update in b.finds;
      }

  pub bind-none :
      (canonical : Str) (ids : List Str) (s : AliasSet)
      → shapes_for_all ip ids ≡ []
      → bind ip canonical ids s ≡ (none, s)
  unfolding bind
  bind-none canonical ids s e = rw (e, bind) refl

  pub bind-some :
      (canonical : Str) (ids : List Str) (s : AliasSet) (sh : Shape) (shs : List Shape)
      → shapes_for_all ip ids ≡ sh ∷ shs
      → bind ip canonical ids s ≡ (
        some (bind_shapes ip canonical sh.name (sh ∷ shs) s).0,
        (bind_shapes ip canonical sh.name (sh ∷ shs) s).1,
      )
  unfolding bind
  bind-some canonical ids s sh shs e = rw (e, bind) refl

  pub bind-cases :
      (canonical : Str) (ids : List Str) (s : AliasSet)
      → ((shapes_for_all ip ids ≡ []) × (bind ip canonical ids s ≡ (none, s)))
        ⊎ ((sh : Shape) × (shs : List Shape) × (shapes_for_all ip ids ≡ sh ∷ shs)
            × (bind ip canonical ids s ≡ (
              some (bind_shapes ip canonical sh.name (sh ∷ shs) s).0,
              (bind_shapes ip canonical sh.name (sh ∷ shs) s).1,
            )))
  bind-cases canonical ids s = elim (List-cases (shapes_for_all ip ids)) [
    | inl e ↦ inl (e, bind-none canonical ids s e)
    | inr (sh, shs, e) ↦ inr (sh, shs, e, bind-some canonical ids s sh shs e)
  ]
