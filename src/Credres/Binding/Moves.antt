-- ===== src/Credres/Binding/Moves.antt =====
-- Which names a bind moves from one record to another: those of the records that it merges.
use omegacatqt.Credres.Aliases.{AliasSet}
use omegacatqt.Credres.Binding.Merge.{merge-IsIndexed}
use omegacatqt.Credres.Binding.Settled.{
  lookup-merge, merge_strong-weak, merge_strong-none, merge_strong-some, IsLive, mem-merge,
}
use omegacatqt.Credres.Binding.Maps.{mem, named}
use omegacatqt.Credres.Binding.Indexed.{IsIndexed}
use omegacatqt.Text.Assoc.{lookup}
use omegacatqt.Credres.Shapes.{Shape}
use omegacatqt.Text.{Str}
use omegacatqt.Credres.Binding.{merge_strong, merge}
use omegacatqt.Normalize.{Ip}
use omegacatqt.Base.{
  inl, inr, some, none, true, false, [], ◌∷◌, refl, arith, ◌≡◌, List, Option, ℕ, Bool, ◌==◌,
  Bool-cases, ◌&&◌, ◌⊎◌, ◌||◌, ap, ◌∙◌, Option-cases, if◌then◌else◌, subst, sym, not,
}

abbrev pub finds_record : Option ℕ → ℕ → Bool
finds_record none i = false
finds_record (some r) i = r == i

-- Whether a strong shape finds the record.
unfoldable pub is_hit : List (Str × ℕ) → List Shape → ℕ → Bool
is_hit index [] i = false
is_hit index (sh ∷ shs) i =
    (sh.strong && finds_record (lookup index sh.name) i) || is_hit index shs i

-- The name finds i, or the target, which i was merged into.
abbrev pub KeepsOr : Option ℕ → List (Str × ℕ) → Str → ℕ → Bool → Type 0
KeepsOr target index a i hit =
    (lookup index a ≡ some i)
    ⊎ ((t : ℕ) × (target ≡ some t) × (lookup index a ≡ some t) × (hit ≡ true))

KeepsOr-weaken :
    (target : Option ℕ) (index : List (Str × ℕ)) (a : Str) (i : ℕ) (h k : Bool)
    → (h ≡ true → k ≡ true)
    → KeepsOr target index a i h
    → KeepsOr target index a i k
KeepsOr-weaken target index a i h k f (inl e) = inl e
KeepsOr-weaken target index a i h k f (inr (t, p, q, r)) = inr (t, p, q, f r)

module _ {A : Type 0} (ip : Ip A) where
  merge_strong-target :
      (shs : List Shape) (t : ℕ) (s : AliasSet) → (merge_strong ip shs (some t) s).0 ≡ some t
  unfolding merge_strong
  merge_strong-target [] t s = refl
  merge_strong-target (sh ∷ shs) t s = elim (Bool-cases sh.strong) [
    | inr h ↦
        ap (λ (z : Option ℕ × AliasSet). z.0) (merge_strong-weak ip sh shs (some t) s h)
        ∙ merge_strong-target shs t s
    | inl h ↦ elim (Option-cases (lookup s.index sh.name)) [
      | inl e ↦
          ap (λ (z : Option ℕ × AliasSet). z.0) (merge_strong-none ip sh shs (some t) s e)
          ∙ merge_strong-target shs t s
      | inr (r, e) ↦
          ap (λ (z : Option ℕ × AliasSet). z.0) (merge_strong-some ip sh shs (some t) s r h e)
          ∙ merge_strong-target shs t (merge ip t r s)
    ]
  ]

  finds_record-if :
      (b : Bool) (t i : ℕ) (o : Option ℕ)
      → (i == t) ≡ false
      → finds_record (if b then some t else o) i ≡ true
      → finds_record o i ≡ true
  finds_record-if true t i o n h = ground arith
  finds_record-if false t i o n h = h

  -- A hit after a merge is a hit before it, but of the target.
  is_hit-merge :
      (t r : ℕ) (s : AliasSet) (shs : List Shape) (i : ℕ)
      → (i == t) ≡ false
      → is_hit (merge ip t r s).index shs i ≡ true
      → is_hit s.index shs i ≡ true
  unfolding is_hit
  is_hit-merge t r s [] i n h = h
  is_hit-merge t r s (sh ∷ shs) i n h =
      let part : finds_record (lookup (merge ip t r s).index sh.name) i ≡ true
          → finds_record (lookup s.index sh.name) i ≡ true =
        λ q.
          finds_record-if (not (r == t) && named (s.heap r).aliases sh.name) t i
            (lookup s.index sh.name) n
            (subst (λ (o : Option ℕ). finds_record o i ≡ true) (lookup-merge ip t r s sh.name) q) in
      ground (arith, part, is_hit-merge t r s shs i n)

  merge-keeps :
      (t r : ℕ) (s : AliasSet) (a : Str) (i : ℕ)
      → IsIndexed s
      → mem r s.records ≡ true
      → lookup s.index a ≡ some i
      → (i == r) ≡ false
      → lookup (merge ip t r s).index a ≡ some i
  merge-keeps t r s a i w m e n =
      let c : named (s.heap r).aliases a ≡ true → lookup s.index a ≡ some r = w.complete r a m in
      ground (arith, lookup-merge ip t r s a, c)

  merge-moves :
      (t r : ℕ) (s : AliasSet) (a : Str)
      → IsIndexed s
      → lookup s.index a ≡ some r
      → lookup (merge ip t r s).index a ≡ some t
  merge-moves t r s a w e =
      let n : named (s.heap r).aliases a ≡ true = (w.sound a r e).1 in
      ground (arith, lookup-merge ip t r s a)

  -- What the loop over the strong shapes does to a name that finds i.
  abbrev pub Moved : List Shape → Option ℕ → AliasSet → Option ℕ × AliasSet → Str → ℕ → Type 0
  Moved shapes target s result a i = KeepsOr result.0 result.1.index a i (is_hit s.index shapes i)

  Moved-skip :
      (sh : Shape) (shs : List Shape) (target : Option ℕ) (s : AliasSet)
      (result : Option ℕ × AliasSet) (a : Str) (i : ℕ)
      → Moved shs target s result a i
      → Moved (sh ∷ shs) target s result a i
  unfolding is_hit
  Moved-skip sh shs target s result a i m =
      KeepsOr-weaken result.0 result.1.index a i (is_hit s.index shs i)
        (is_hit s.index (sh ∷ shs) i) (λ q. ground (arith, q)) m

  -- The step at a strong shape that finds r when there is a target already.
  Moved-merge :
      (sh : Shape) (shs : List Shape) (t r : ℕ) (s : AliasSet) (a : Str) (i : ℕ)
      → IsIndexed s
      → sh.strong ≡ true
      → lookup s.index sh.name ≡ some r
      → lookup s.index a ≡ some i
      → ((j : ℕ)
          → lookup (merge ip t r s).index a ≡ some j
          → Moved shs (some t) (merge ip t r s) (merge_strong ip shs (some t) (merge ip t r s)) a j)
      → Moved (sh ∷ shs) (some t) s (merge_strong ip shs (some t) (merge ip t r s)) a i
  unfolding is_hit
  Moved-merge sh shs t r s a i w strong found e rest =
      let s' = merge ip t r s in
      let result = merge_strong ip shs (some t) s' in
      let final : result.0 ≡ some t = merge_strong-target shs t s' in
      elim (Bool-cases (i == r)) [
        | inl q ↦
            let same : i ≡ r = ground arith in
            let at : lookup s.index a ≡ some r =
              subst (λ (z : ℕ). lookup s.index a ≡ some z) same e in
            let hit : is_hit s.index (sh ∷ shs) i ≡ true =
              let f : finds_record (lookup s.index sh.name) i ≡ true = rw found (ground arith) in
              ground arith in
            elim (rest t (merge-moves t r s a w at)) [
              | inl k ↦ inr (t, final, k, hit)
              | inr (u, k, l, h) ↦ inr (u, k, l, hit)
            ]
        | inr q ↦
            let kept = merge-keeps t r s a i w (w.sound sh.name r found).0 e q in
            elim (Bool-cases (i == t)) [
              | inl p ↦ elim (rest i kept) [
                | inl k ↦ inl k
                | inr (u, k, l, h) ↦
                    let v : u ≡ i = ground (arith, final, k) in
                    inl (subst (λ (z : ℕ). lookup result.1.index a ≡ some z) v l)
              ]
              | inr p ↦
                  KeepsOr-weaken result.0 result.1.index a i (is_hit s'.index shs i)
                    (is_hit s.index (sh ∷ shs) i)
                    (λ h. ground (arith, is_hit-merge t r s shs i p h)) (rest i kept)
            ]
      ]

  merge_strong-Moved_found :
      (sh : Shape) (shs : List Shape) (target : Option ℕ) (s : AliasSet) (a : Str) (i r : ℕ)
      → ((next : Option ℕ) (s' : AliasSet) (b : Str) (j : ℕ)
          → IsIndexed s'
          → IsLive next s'
          → lookup s'.index b ≡ some j
          → Moved shs next s' (merge_strong ip shs next s') b j)
      → IsIndexed s
      → IsLive target s
      → sh.strong ≡ true
      → lookup s.index sh.name ≡ some r
      → lookup s.index a ≡ some i
      → Moved
          (sh ∷ shs)
          target
          s
          (elim target [
            | none ↦ merge_strong ip shs (some r) s
            | some t ↦ merge_strong ip shs (some t) (merge ip t r s)
          ])
          a
          i
  merge_strong-Moved_found sh shs none s a i r rest w live h f e =
      Moved-skip sh shs (some r) s (merge_strong ip shs (some r) s) a i (
        rest (some r) s a i w
          (λ j q. (let m : mem r s.records ≡ true = (w.sound sh.name r f).0 in ground (arith, m)))
          e)
  merge_strong-Moved_found sh shs (some t) s a i r rest w live h f e =
      Moved-merge sh shs t r s a i w h f e (λ j q.
        rest (some t) (merge ip t r s) a j
          (merge-IsIndexed ip t r s (live t refl) (w.sound sh.name r f).0 w)
          (λ k p.
            (let m : mem t (merge ip t r s).records ≡ true = mem-merge ip t r s w (live t refl) in
              ground (arith, m)))
          q)

  pub merge_strong-Moved :
      (shs : List Shape) (target : Option ℕ) (s : AliasSet) (a : Str) (i : ℕ)
      → IsIndexed s
      → IsLive target s
      → lookup s.index a ≡ some i
      → Moved shs target s (merge_strong ip shs target s) a i
  merge_strong-Moved [] target s a i w live e = unfold merge_strong in inl e
  merge_strong-Moved (sh ∷ shs) target s a i w live e =
      let P : Option ℕ × AliasSet → Type 0 = λ z. Moved (sh ∷ shs) target s z a i in
      let skip =
        Moved-skip sh shs target s (merge_strong ip shs target s) a i
          (merge_strong-Moved shs target s a i w live e) in
      elim (Bool-cases sh.strong) [
        | inr h ↦ subst P (sym (merge_strong-weak ip sh shs target s h)) skip
        | inl h ↦ elim (Option-cases (lookup s.index sh.name)) [
          | inl n ↦ subst P (sym (merge_strong-none ip sh shs target s n)) skip
          | inr (r, f) ↦
              subst P (sym (merge_strong-some ip sh shs target s r h f)) (
                merge_strong-Moved_found sh shs target s a i r (merge_strong-Moved shs) w live h f
                  e)
        ]
      ]
