-- ===== src/Credres/Binding/Settled.antt =====
-- The loop of bind over the strong shapes: it ends with one record that has all of them.
use omegacatqt.Credres.Aliases.{AliasSet}
use omegacatqt.Credres.Shapes.{Shape}
use omegacatqt.Credres.Binding.Merge.{merge-IsIndexed}
use omegacatqt.Text.Assoc.{lookup}
use omegacatqt.Credres.Binding.Maps.{mem, named, mem-remove_record, lookup-reindex}
use omegacatqt.Text.{Str}
use omegacatqt.Credres.Binding.Indexed.{IsIndexed}
use omegacatqt.Credres.Binding.{merge_strong, merge}
use omegacatqt.Normalize.{Ip}
use omegacatqt.Base.{
  inl, inr, some, none, true, [], ◌∷◌, refl, arith, ◌≡◌, Option, ℕ, List, All, Bool-cases, ◌==◌,
  Option-cases, if◌then◌else◌, not, ◌&&◌, false, subst, sym,
}

-- The target is a record of the list.
abbrev pub IsLive : Option ℕ → AliasSet → Type 0
IsLive target s = (i : ℕ) → target ≡ some i → mem i s.records ≡ true

-- No record but the target has the name.
abbrev pub IsSettled : Option ℕ → AliasSet → Str → Type 0
IsSettled target s a = (i : ℕ) → lookup s.index a ≡ some i → target ≡ some i

abbrev pub IsStrongSettled : Option ℕ → AliasSet → Shape → Type 0
IsStrongSettled target s sh = sh.strong ≡ true → IsSettled target s sh.name

module _ {A : Type 0} (ip : Ip A) where
  pub lookup-merge :
      (dst src : ℕ) (s : AliasSet) (a : Str)
      → lookup (merge ip dst src s).index a
        ≡ (if not (src == dst) && named (s.heap src).aliases a then some dst else lookup s.index a)
  unfolding merge
  lookup-merge dst src s a = elim (Bool-cases (src == dst)) [
    | inl h ↦ rw h refl
    | inr h ↦ rw h (lookup-reindex (s.heap src).aliases dst s.index a)
  ]

  pub mem-merge :
      (dst src : ℕ) (s : AliasSet)
      → IsIndexed s
      → mem dst s.records ≡ true
      → mem dst (merge ip dst src s).records ≡ true
  unfolding merge
  mem-merge dst src s w m = elim (Bool-cases (src == dst)) [
    | inl h ↦ rw h m
    | inr h ↦ rw h (ground (arith, mem-remove_record dst src s.records w.distinct))
  ]

  merge-IsSettled :
      (dst src : ℕ) (s : AliasSet) (a : Str)
      → IsSettled (some dst) s a
      → IsSettled (some dst) (merge ip dst src s) a
  merge-IsSettled dst src s a h i e = ground (arith, lookup-merge dst src s a, h i)

  merge-IsSettled_found :
      (dst src : ℕ) (s : AliasSet) (a : Str)
      → IsIndexed s
      → lookup s.index a ≡ some src
      → IsSettled (some dst) (merge ip dst src s) a
  merge-IsSettled_found dst src s a w e i h =
      let n : named (s.heap src).aliases a ≡ true = (w.sound a src e).1 in
      ground (arith, lookup-merge dst src s a)

  -- What the loop ends with.
  abbrev pub Merged : List Shape → Option ℕ → AliasSet → Option ℕ × AliasSet → Type 0
  Merged shapes target s result =
      IsIndexed result.1
      × IsLive result.0 result.1
      × ((a : Str) → IsSettled target s a → IsSettled result.0 result.1 a)
      × All (IsStrongSettled result.0 result.1) shapes

  merge_strong-step :
      (shapes : List Shape) (target next : Option ℕ) (s s' : AliasSet) (sh : Shape)
      (result : Option ℕ × AliasSet)
      → ((a : Str) → IsSettled target s a → IsSettled next s' a)
      → IsStrongSettled next s' sh
      → Merged shapes next s' result
      → Merged (sh ∷ shapes) target s result
  merge_strong-step shapes target next s s' sh result keeps found (w, live, rest, all) =
      (w, live, (λ a h. rest a (keeps a h)), ((λ q. rest sh.name (found q)), all))

  merge_strong_found :
      (sh : Shape) (shs : List Shape) (target : Option ℕ) (s : AliasSet) (r : ℕ)
      → ((next : Option ℕ) (s' : AliasSet)
          → IsIndexed s'
          → IsLive next s'
          → Merged shs next s' (merge_strong ip shs next s'))
      → IsIndexed s
      → IsLive target s
      → lookup s.index sh.name ≡ some r
      → Merged (sh ∷ shs) target s (elim target [
        | none ↦ merge_strong ip shs (some r) s
        | some t ↦ merge_strong ip shs (some t) (merge ip t r s)
      ])
  merge_strong_found sh shs none s r rest w live e =
      merge_strong-step shs none (some r) s s sh _ (λ a k i f. ground (arith, k i f))
        (λ q i f. ground arith)
        (rest (some r) s w (λ i q. (let p = w.sound sh.name r e in ground (arith, p.0))))
  merge_strong_found sh shs (some t) s r rest w live e =
      merge_strong-step shs (some t) (some t) s (merge ip t r s) sh _
        (λ a k. merge-IsSettled t r s a k) (λ q. merge-IsSettled_found t r s sh.name w e)
        (rest (some t) (merge ip t r s)
          (merge-IsIndexed ip t r s (live t refl) (w.sound sh.name r e).0 w)
          (λ i q.
            (let m : mem t (merge ip t r s).records ≡ true = mem-merge t r s w (live t refl) in
              ground arith)))

  pub merge_strong-weak :
      (sh : Shape) (shs : List Shape) (target : Option ℕ) (s : AliasSet)
      → sh.strong ≡ false
      → merge_strong ip (sh ∷ shs) target s ≡ merge_strong ip shs target s
  unfolding merge_strong
  merge_strong-weak sh shs target s h = rw h refl

  pub merge_strong-none :
      (sh : Shape) (shs : List Shape) (target : Option ℕ) (s : AliasSet)
      → lookup s.index sh.name ≡ none
      → merge_strong ip (sh ∷ shs) target s ≡ merge_strong ip shs target s
  unfolding merge_strong
  merge_strong-none sh shs target s e = elim (Bool-cases sh.strong) [
    | inl h ↦ rw (h, e) refl
    | inr h ↦ rw h refl
  ]

  pub merge_strong-some :
      (sh : Shape) (shs : List Shape) (target : Option ℕ) (s : AliasSet) (r : ℕ)
      → sh.strong ≡ true
      → lookup s.index sh.name ≡ some r
      → merge_strong ip (sh ∷ shs) target s ≡ elim target [
        | none ↦ merge_strong ip shs (some r) s
        | some t ↦ merge_strong ip shs (some t) (merge ip t r s)
      ]
  unfolding merge_strong
  merge_strong-some sh shs target s r h e = rw (h, e) refl

  pub merge_strong-Merged :
      (shapes : List Shape) (target : Option ℕ) (s : AliasSet)
      → IsIndexed s
      → IsLive target s
      → Merged shapes target s (merge_strong ip shapes target s)
  unfolding merge_strong
  merge_strong-Merged [] target s w live = (w, live, (λ a h. h), tt)
  merge_strong-Merged (sh ∷ shs) target s w live =
      let rest = merge_strong-Merged shs target s w live in
      let P : Option ℕ × AliasSet → Type 0 = Merged (sh ∷ shs) target s in
      elim (Bool-cases sh.strong) [
        | inr h ↦
            subst P (sym (merge_strong-weak sh shs target s h))
              (merge_strong-step shs target target s s sh _ (λ a k. k) (λ q. ground arith) rest)
        | inl h ↦ elim (Option-cases (lookup s.index sh.name)) [
          | inl e ↦
              subst P (sym (merge_strong-none sh shs target s e)) (
                merge_strong-step shs target target s s sh _ (λ a k. k) (λ q i f. ground arith)
                  rest)
          | inr (r, e) ↦
              subst P (sym (merge_strong-some sh shs target s r h e))
                (merge_strong_found sh shs target s r (merge_strong-Merged shs) w live e)
        ]
      ]
