-- ===== src/Credres/Binding/Indexed.antt =====
-- What aliasSet keeps: its index and the aliases of its records say the same.
use omegacatqt.Credres.Aliases.{
  new_alias_set, create, BindingRecord, write, update, AliasSet, new_record,
}
use omegacatqt.Normalize.{Ip}
use omegacatqt.Text.{Str}
use omegacatqt.Credres.Binding.Maps.{mem, named, is_distinct, mem-append, append-distinct}
use omegacatqt.Credres.Binding.{set_label}
use omegacatqt.Text.Assoc.{lookup}
use omegacatqt.Base.{
  inl, inr, some, true, false, [], ◌∷◌, refl, arith, ◌≡◌, ℕ, ◌==◌, ==_refl, Bool-cases, ◌<◌, subst,
  sym, ◌∙◌, ◌++◌, ◌||◌, if◌then◌else◌,
}

pub record IsIndexed (s : AliasSet) : Type 0 where
  pub sound :
      (a : Str) (i : ℕ)
      → lookup s.index a ≡ some i
      → (mem i s.records ≡ true) × (named (s.heap i).aliases a ≡ true)
  pub complete :
      (i : ℕ) (a : Str)
      → mem i s.records ≡ true
      → named (s.heap i).aliases a ≡ true
      → lookup s.index a ≡ some i
  pub bounded : (i : ℕ) → mem i s.records ≡ true → i < s.next
  pub distinct : is_distinct s.records ≡ true

pub new_alias_set-IsIndexed : IsIndexed new_alias_set
unfolding lookup mem is_distinct
new_alias_set-IsIndexed = record {
  sound = λ a i h. ground arith;
  complete = λ i a h k. ground arith;
  bounded = λ i h. ground arith;
  distinct = refl;
}

pub write-at : (i : ℕ) (r : BindingRecord) (heap : ℕ → BindingRecord) → write i r heap i ≡ r
unfolding write
write-at i r heap = rw (==_refl i) refl

pub write-other :
    (i k : ℕ) (r : BindingRecord) (heap : ℕ → BindingRecord)
    → (k == i) ≡ false
    → write i r heap k ≡ heap k
unfolding write
write-other i k r heap e = rw e refl

pub named-write_if :
    (i k : ℕ) (r : BindingRecord) (heap : ℕ → BindingRecord) (a : Str)
    → named (write i r heap k).aliases a
      ≡ (if k == i then named r.aliases a else named (heap k).aliases a)
unfolding write
named-write_if i k r heap a = elim (Bool-cases (k == i)) [ inl h ↦ rw h refl | inr h ↦ rw h refl ]

-- A write that keeps the names of a record keeps those of every record.
named-write :
    (i k : ℕ) (r : BindingRecord) (heap : ℕ → BindingRecord) (a : Str)
    → named r.aliases a ≡ named (heap i).aliases a
    → named (write i r heap k).aliases a ≡ named (heap k).aliases a
named-write i k r heap a e = elim (Bool-cases (k == i)) [
  | inl h ↦
      let q : k ≡ i = ground arith in
      subst (λ (z : ℕ). named (write i r heap z).aliases a ≡ named (heap z).aliases a) (sym q)
        (rw (write-at i r heap) e)
  | inr h ↦ rw (write-other i k r heap h) refl
]

pub mem-create : (s : AliasSet) → mem s.next (create s).records ≡ true
unfolding create mem
mem-create s = rw (mem-append s.next s.records (s.next ∷ [])) (ground arith)

pub update-IsIndexed :
    (i : ℕ) (f : BindingRecord → BindingRecord) (s : AliasSet)
    → ((r : BindingRecord) → (f r).aliases ≡ r.aliases)
    → IsIndexed s
    → IsIndexed (update i f s)
unfolding update
update-IsIndexed i f s h w =
    let same : (k : ℕ) (a : Str)
        → named (write i (f (s.heap i)) s.heap k).aliases a ≡ named (s.heap k).aliases a =
      λ k a. named-write i k (f (s.heap i)) s.heap a (rw (h (s.heap i)) refl) in
    record {
      sound = λ a k e. (let p = w.sound a k e in (p.0, rw (same k a) p.1));
      complete = λ k a m e. w.complete k a m (sym (same k a) ∙ e);
      bounded = w.bounded;
      distinct = w.distinct;
    }

pub create-IsIndexed : (s : AliasSet) → IsIndexed s → IsIndexed (create s)
unfolding create lookup mem
create-IsIndexed s w =
    let fresh : mem s.next s.records ≡ false = elim (Bool-cases (mem s.next s.records)) [
      | inl h ↦ let b : s.next < s.next = w.bounded s.next h in ground arith
      | inr h ↦ h
    ] in
    let old : (k : ℕ) → mem k s.records ≡ true → (k == s.next) ≡ false =
      λ k m. let b : k < s.next = w.bounded k m in ground arith in
    record {
      sound = λ a k e.
          (let p = w.sound a k e in
            (
              rw (mem-append k s.records (s.next ∷ [])) (ground (arith, p.0)),
              rw (write-other s.next k new_record s.heap (old k p.0)) p.1,
            ));
      complete = λ k a m e. (elim (Bool-cases (mem k s.records)) [
        | inl h ↦ w.complete k a h (
            subst (λ (r : BindingRecord). named r.aliases a ≡ true)
              (write-other s.next k new_record s.heap (old k h)) e)
        | inr h ↦
            let q : s.next ≡ k = ground (arith, mem-append k s.records (s.next ∷ [])) in
            let none_named : named (write s.next new_record s.heap k).aliases a ≡ false =
              subst (λ (z : ℕ). named (write s.next new_record s.heap z).aliases a ≡ false) q
                (rw (write-at s.next new_record s.heap) refl) in
            ground arith
      ]);
      bounded = λ k m.
          (let e : mem k (s.records ++ (s.next ∷ [])) ≡ (mem k s.records || mem k (s.next ∷ [])) =
              mem-append k s.records (s.next ∷ []) in
            elim (Bool-cases (mem k s.records)) [
              | inl h ↦ let b : k < s.next = w.bounded k h in omega arith
              | inr h ↦ ground arith
            ]);
      distinct = append-distinct s.next s.records w.distinct fresh;
    }

pub set_label-aliases :
    {A : Type 0} (ip : Ip A) (canonical first : Str) (r : BindingRecord)
    → (set_label ip canonical first r).aliases ≡ r.aliases
unfolding set_label
set_label-aliases ip canonical first r = refl
