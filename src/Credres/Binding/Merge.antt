-- ===== src/Credres/Binding/Merge.antt =====
-- The two steps of bind that change the index, a merge of two records and the attaching of a
-- shape.
use omegacatqt.Credres.Aliases.{
  attach_shape, AliasSet, reindex, BindingRecord, write, remove_record,
}
use omegacatqt.Credres.Shapes.{Shape}
use omegacatqt.Text.Assoc.{lookup, insert, lookup-insert}
use omegacatqt.Credres.Binding.Indexed.{IsIndexed, write-at, write-other, named-write_if}
use omegacatqt.Credres.Binding.Maps.{
  mem, named, named-insert, named-absorb, mem-remove_record, remove_record-distinct, lookup-reindex,
}
use omegacatqt.Text.{Str, str_eq, str_eq_iff}
use omegacatqt.Credres.Binding.{merge, merged}
use omegacatqt.Normalize.{Ip}
use omegacatqt.Base.{
  inl, inr, some, true, false, refl, arith, ◌≡◌, ℕ, Bool-cases, ◌==◌, ◌||◌, if◌then◌else◌, subst,
  Option-cases, sym,
}

-- Names that the record `target` gets, all of them of an index in which no other record has them.
pub widen-IsIndexed :
    (s : AliasSet) (target : ℕ) (name : Str) (r : BindingRecord)
    → ((a : Str) → named r.aliases a ≡ (str_eq name a || named (s.heap target).aliases a))
    → mem target s.records ≡ true
    → ((i : ℕ) → lookup s.index name ≡ some i → i ≡ target)
    → IsIndexed s
    → IsIndexed (record s { heap = write target r s.heap; index = insert name target s.index })
widen-IsIndexed s target name r names live free w = record {
  sound = λ a i e. (elim (Bool-cases (str_eq name a)) [
    | inl h ↦
        let q : i ≡ target = ground (arith, lookup-insert name a target s.index) in
        subst
          (λ (z : ℕ). (mem z s.records ≡ true) × (named (write target r s.heap z).aliases a ≡ true))
          (sym q) (live, rw (write-at target r s.heap) (rw (names a, h) refl))
    | inr h ↦
        let old : lookup s.index a ≡ some i = ground (arith, lookup-insert name a target s.index) in
        let p = w.sound a i old in
        (
          p.0,
          elim (Bool-cases (i == target)) [
            | inl k ↦
                let q : i ≡ target = ground arith in
                subst
                  (λ (z : ℕ).
                    named (s.heap z).aliases a ≡ true
                    → named (write target r s.heap z).aliases a ≡ true)
                  (sym q) (λ m. rw (write-at target r s.heap) (rw (names a, h) m)) p.1
            | inr k ↦ rw (write-other target i r s.heap k) p.1
          ],
        )
  ]);
  complete = λ i a m e. (elim (Bool-cases (i == target)) [
    | inl k ↦
        let q : i ≡ target = ground arith in
        let here : named (s.heap target).aliases a ≡ true → lookup s.index a ≡ some target =
          λ n. w.complete target a live n in
        let there : named (write target r s.heap target).aliases a ≡ true =
          subst (λ (z : ℕ). named (write target r s.heap z).aliases a ≡ true) q e in
        let now : named r.aliases a ≡ true =
          subst (λ (x : BindingRecord). named x.aliases a ≡ true) (write-at target r s.heap)
            there in
        ground (arith, lookup-insert name a target s.index, names a, here)
    | inr k ↦
        let old : named (s.heap i).aliases a ≡ true =
          subst (λ (x : BindingRecord). named x.aliases a ≡ true) (write-other target i r s.heap k)
            e in
        let was : lookup s.index a ≡ some i = w.complete i a m old in
        elim (Bool-cases (str_eq name a)) [
          | inl h ↦
              let n : name ≡ a = (str_eq_iff name a).0 h in
              let clash : i ≡ target =
                free i (subst (λ (z : Str). lookup s.index z ≡ some i) (sym n) was) in
              ground arith
          | inr h ↦ ground (arith, lookup-insert name a target s.index)
        ]
  ]);
  bounded = w.bounded;
  distinct = w.distinct;
}

pub attach_shape-IsIndexed :
    (target : ℕ) (sh : Shape) (s : AliasSet)
    → mem target s.records ≡ true
    → (sh.strong ≡ true → (i : ℕ) → lookup s.index sh.name ≡ some i → i ≡ target)
    → IsIndexed s
    → IsIndexed (attach_shape target sh s)
unfolding attach_shape
attach_shape-IsIndexed target sh s live free w =
    let r = s.heap target in
    let strong_aliases = insert sh.name true r.aliases in
    let weak_aliases =
      if named r.aliases sh.name then r.aliases else insert sh.name false r.aliases in
    let names_weak : (a : Str) → named weak_aliases a ≡ (str_eq sh.name a || named r.aliases a) =
      λ a. ground (arith, named-insert sh.name a false r.aliases, str_eq_iff sh.name a) in
    elim (Bool-cases sh.strong) [
      | inl h ↦ rw h (
          widen-IsIndexed s target sh.name (record r { aliases = strong_aliases })
            (λ a. named-insert sh.name a true r.aliases) live (free h) w)
      | inr h ↦ rw h (elim (Option-cases (lookup s.index sh.name)) [
        | inl e ↦ rw e (
            widen-IsIndexed s target sh.name (record r { aliases = weak_aliases }) names_weak live
              (λ i q. ground arith) w)
        | inr (owner, e) ↦ rw e w
      ])
    ]

module _ {A : Type 0} (ip : Ip A) where
  pub merge-IsIndexed :
      (dst src : ℕ) (s : AliasSet)
      → mem dst s.records ≡ true
      → mem src s.records ≡ true
      → IsIndexed s
      → IsIndexed (merge ip dst src s)
  unfolding merge merged
  merge-IsIndexed dst src s live from w = elim (Bool-cases (src == dst)) [
    | inl h ↦ rw h w
    | inr h ↦ rw h (
        let r = merged ip (s.heap dst) (s.heap src) in
        let names : (a : Str)
            → named r.aliases a ≡ (named (s.heap src).aliases a || named (s.heap dst).aliases a) =
          λ a. named-absorb (s.heap src).aliases (s.heap dst).aliases a in
        let index = reindex (s.heap src).aliases dst s.index in
        record {
          sound = λ a i e. (elim (Bool-cases (named (s.heap src).aliases a)) [
            | inl n ↦
                let q : i ≡ dst =
                  ground (arith, lookup-reindex (s.heap src).aliases dst s.index a) in
                subst
                  (λ (z : ℕ).
                    (mem z (remove_record src s.records) ≡ true)
                    × (named (write dst r s.heap z).aliases a ≡ true))
                  (sym q)
                  (
                    ground (arith, mem-remove_record dst src s.records w.distinct),
                    rw (write-at dst r s.heap) (rw (names a, n) refl),
                  )
            | inr n ↦
                let old : lookup s.index a ≡ some i =
                  ground (arith, lookup-reindex (s.heap src).aliases dst s.index a) in
                let p = w.sound a i old in
                let stays : (i == src) ≡ false = elim (Bool-cases (i == src)) [
                  | inl k ↦
                      let q : i ≡ src = ground arith in
                      let m : named (s.heap src).aliases a ≡ true =
                        subst (λ (z : ℕ). named (s.heap z).aliases a ≡ true) q p.1 in
                      ground arith
                  | inr k ↦ k
                ] in
                (
                  ground (arith, p.0, mem-remove_record i src s.records w.distinct),
                  rw (named-write_if dst i r s.heap a) (elim (Bool-cases (i == dst)) [
                    | inl k ↦
                        let q : i ≡ dst = ground arith in
                        let m : named (s.heap dst).aliases a ≡ true =
                          subst (λ (z : ℕ). named (s.heap z).aliases a ≡ true) q p.1 in
                        ground (arith, names a)
                    | inr k ↦ rw k p.1
                  ]),
                )
          ]);
          complete = λ i a m e.
              (let there : mem i s.records ≡ true =
                  ground (arith, mem-remove_record i src s.records w.distinct) in
                let other : (i == src) ≡ false =
                  ground (arith, mem-remove_record i src s.records w.distinct) in
                let at = named-write_if dst i r s.heap a in
                elim (Bool-cases (i == dst)) [
                  | inl k ↦
                      let q : i ≡ dst = ground arith in
                      let here : named (s.heap dst).aliases a ≡ true → lookup s.index a ≡ some dst =
                        λ n. w.complete dst a live n in
                      ground (
                        arith,
                        at,
                        names a,
                        here,
                        lookup-reindex (s.heap src).aliases dst s.index a,
                      )
                  | inr k ↦
                      let was : lookup s.index a ≡ some i =
                        w.complete i a there (ground (arith, at)) in
                      let not_src : named (s.heap src).aliases a ≡ true
                          → lookup s.index a ≡ some src =
                        λ n. w.complete src a from n in
                      ground
                        (arith, was, not_src, lookup-reindex (s.heap src).aliases dst s.index a)
                ]);
          bounded =
              λ i m. w.bounded i (ground (arith, mem-remove_record i src s.records w.distinct));
          distinct = remove_record-distinct src s.records w.distinct;
        })
  ]
