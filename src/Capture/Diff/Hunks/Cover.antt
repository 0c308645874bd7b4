-- ===== src/Capture/Diff/Hunks/Cover.antt =====
-- The hunks take every change that counts, each once.
--
-- Lines without a change that counts, then a hunk with one, and so on.
use omegacatqt.Text.{Str}
use omegacatqt.Capture.Myers.{same, removed, added, Op}
use omegacatqt.Capture.Diff.{
  counts, group, min, hunk_of, how_many, diff_of, is_added, is_removed, last_change, mark, Hunk,
}
use omegacatqt.Capture.Diff.Hunks.{
  PlainFrom, plain_at-none, plain_at-some, EndsHunk, last_change-EndsHunk,
}
use omegacatqt.Capture.Myers.{DiffLine}
use omegacatqt.Base.{
  some, none, true, false, [], ◌∷◌, zero, suc, refl, arith, ◌≡◌, List, any, ℕ, take, ◌<◌, get_elem?,
  length, ◌+◌, ◌≤◌, drop, ap, eq_of_some, ◌++◌, sym, length-drop, subst, ◌∙◌, not, inl, inr, ◌≢◌,
  ◌⊎◌, Bool-cases, ◌-◌, drop-drop, ltb, ◌==◌, take-append-drop, Option-cases, Bool, ◌||◌, map, ◌&&◌,
}

pub data Covers : List DiffLine → List (List DiffLine) → Type 0 where
  rest : {ls : List DiffLine} → any counts ls ≡ false → Covers ls []
  next :
      {ls more : List DiffLine} {hs : List (List DiffLine)} (gap h : List DiffLine)
      → any counts gap ≡ false
      → any counts h ≡ true
      → ls ≡ gap ++ (h ++ more)
      → Covers more hs
      → Covers ls (h ∷ hs)

get_elem?-beyond : (ls : List DiffLine) (k : ℕ) → length ls ≤ k → get_elem? ls k ≡ none
get_elem?-beyond [] k h = refl
get_elem?-beyond (l ∷ ls) zero h = absurd (omega arith)
get_elem?-beyond (l ∷ ls) (suc k) h = get_elem?-beyond ls k (omega arith)

get_elem?-inside :
    (ls : List DiffLine) (k : ℕ) (o : DiffLine) → get_elem? ls k ≡ some o → k < length ls
get_elem?-inside [] k o e = absurd (ground (arith, e))
get_elem?-inside (l ∷ ls) zero o e = omega arith
get_elem?-inside (l ∷ ls) (suc k) o e = omega (arith, get_elem?-inside ls k o e)

present : (ls : List DiffLine) (i : ℕ) → i < length ls → get_elem? ls i ≢ none
present [] i h e = omega (arith, h)
present (l ∷ ls) zero h e = ground (arith, e)
present (l ∷ ls) (suc i) h e = present ls i (omega (arith, h)) e

-- A change at a position of a part is a change of the part.
any_in :
    (ls : List DiffLine) (n k : ℕ) (o : DiffLine)
    → get_elem? ls k ≡ some o
    → counts o ≡ true
    → k < n
    → any counts (take n ls) ≡ true
any_in [] n k o e c h = absurd (ground (arith, e))
any_in (l ∷ ls) zero k o e c h = absurd (omega arith)
any_in (l ∷ ls) (suc n) zero o e c h = let same : l ≡ o = eq_of_some e in rw (same, c) refl
any_in (l ∷ ls) (suc n) (suc k) o e c h =
    let ih : any counts (take n ls) ≡ true = any_in ls n k o e c (omega arith) in ground (arith, ih)

get_elem?-drop_line :
    (ls : List DiffLine) (n k : ℕ) → get_elem? (drop n ls) k ≡ get_elem? ls (n + k)
get_elem?-drop_line ls zero k = let e : 0 + k ≡ k = omega arith in rw e refl
get_elem?-drop_line [] (suc n) k = refl
get_elem?-drop_line (l ∷ ls) (suc n) k =
    let e : suc n + k ≡ suc (n + k) = omega arith in rw e (get_elem?-drop_line ls n k)

none_in :
    (ls : List DiffLine) (n : ℕ)
    → ((k : ℕ) (o : DiffLine) → k < n → get_elem? ls k ≡ some o → counts o ≡ false)
    → any counts (take n ls) ≡ false
none_in ls zero h = refl
none_in [] (suc n) h = refl
none_in (l ∷ ls) (suc n) h =
    let first : counts l ≡ false = h 0 l (omega arith) refl in
    rw first (none_in ls n (λ k o p e. h (suc k) o (omega arith) e))

module _ (ops : List DiffLine) where
  -- No change that counts among n lines from a position on.
  none_from : (s n : ℕ) → PlainFrom ops s (s + n) → any counts (take n (drop s ops)) ≡ false
  unfolding PlainFrom
  none_from s n p = none_in (drop s ops) n (λ k o h e.
      let at : get_elem? ops (s + k) ≡ some o = sym (get_elem?-drop_line ops s k) ∙ e in
      let plain : not (counts o) ≡ true =
        sym (plain_at-some ops (s + k) o at) ∙ p (s + k) (omega arith) (omega arith) in
      ground (arith, plain))

  PlainFrom-end : (i : ℕ) → length ops ≤ i → (j : ℕ) → PlainFrom ops i j
  unfolding PlainFrom
  PlainFrom-end i h j = λ k p q. plain_at-none ops k (get_elem?-beyond ops k (omega arith))

  take_all : (ls : List DiffLine) → take (length ls) ls ≡ ls
  take_all [] = refl
  take_all (l ∷ ls) = ap (◌∷◌ l) (take_all ls)

  Covers-rest : (s i : ℕ) → s ≤ i → length ops ≤ i → PlainFrom ops s i → Covers (drop s ops) []
  unfolding PlainFrom
  Covers-rest s i h l p =
      let n = length (drop s ops) in
      let none : any counts (take n (drop s ops)) ≡ false =
        none_from s n
          (unfold PlainFrom in (λ k q r. p k q (omega (arith, r, length-drop s ops, l, h)))) in
      rest (subst (λ (ls : List DiffLine). any counts ls ≡ false) (take_all (drop s ops)) none)

  -- A list cut at two positions.
  cut_twice :
      (s start stop : ℕ)
      → s ≤ start
      → start ≤ stop
      → (drop s ops
          ≡ take (start - s) (drop s ops)
            ++ (take (stop - start) (drop start ops) ++ drop stop ops))
  cut_twice s start stop h k =
      let e : s + (start - s) ≡ start = omega (arith, h) in
      let f : start + (stop - start) ≡ stop = omega (arith, k) in
      let a : drop (start - s) (drop s ops) ≡ drop start ops =
        drop-drop (start - s) s ops ∙ (rw e refl) in
      let b : drop (stop - start) (drop start ops) ≡ drop stop ops =
        drop-drop (stop - start) start ops ∙ (rw f refl) in
      let c : take (stop - start) (drop start ops) ++ drop stop ops ≡ drop start ops =
        subst (λ (ls : List DiffLine). take (stop - start) (drop start ops) ++ ls ≡ drop start ops)
          b (take-append-drop (stop - start) (drop start ops)) in
      let d : take (start - s) (drop s ops) ++ drop start ops ≡ drop s ops =
        subst (λ (ls : List DiffLine). take (start - s) (drop s ops) ++ ls ≡ drop s ops) a
          (take-append-drop (start - s) (drop s ops)) in
      sym (ap (λ (ls : List DiffLine). take (start - s) (drop s ops) ++ ls) c ∙ d)

  -- Where the next hunk may begin: at the beginning, or after as much context as it takes.
  IsFree : ℕ → ℕ → Type 0
  IsFree context s = (s ≡ 0) ⊎ PlainFrom ops s (s + context)

  start_free :
      (context s i : ℕ) (o : DiffLine)
      → s ≤ i
      → IsFree context s
      → get_elem? ops i ≡ some o
      → counts o ≡ true
      → s ≤ i - context
  unfolding IsFree PlainFrom
  start_free context s i o h (inl z) e c = omega (arith, z)
  start_free context s i o h (inr p) e c = elim (Bool-cases (ltb i (s + context))) [
    | inr a ↦ ground (arith, a)
    | inl a ↦
        let plain : not (counts o) ≡ true =
          sym (plain_at-some ops i o e) ∙ p i h (ground (arith, a)) in
        absurd (ground (arith, plain, c))
  ]

  unseen : (i : ℕ) → i < length ops → get_elem? ops i ≢ none
  unseen i h e = present ops i h e

  longer :
      (s i : ℕ) (o : DiffLine)
      → PlainFrom ops s i
      → get_elem? ops i ≡ some o
      → counts o ≡ false
      → PlainFrom ops s (suc i)
  unfolding PlainFrom
  longer s i o p e c = λ k q r. elim (Bool-cases (k == i)) [
    | inl a ↦ let same : k ≡ i = ground (arith, a) in rw same (plain_at-some ops i o e ∙ ap not c)
    | inr a ↦ p k q (ground (arith, a, r))
  ]

  narrower :
      (s start i : ℕ)
      → PlainFrom ops s i
      → start ≤ i
      → s ≤ start
      → PlainFrom ops s (s + (start - s))
  unfolding PlainFrom
  narrower s start i p h b = λ k q r. p k q (omega (arith, r, h, b))

  at_start :
      (start i : ℕ) (o : DiffLine)
      → start ≤ i
      → get_elem? ops i ≡ some o
      → (get_elem? ops (start + (i - start)) ≡ some o)
  at_start start i o h e = let f : start + (i - start) ≡ i = omega (arith, h) in rw f e

  IsFree-after :
      (context end i : ℕ)
      → EndsHunk ops context i end
      → IsFree context (min (end + context + 1) (length ops))
  unfolding IsFree EndsHunk PlainFrom
  IsFree-after context end i r = inr (λ k p q. elim (Bool-cases (ltb k (length ops))) [
    | inl a ↦ r.2 k (ground (arith, a, p)) (ground (arith, a, p, q))
    | inr a ↦ plain_at-none ops k (get_elem?-beyond ops k (ground (arith, a)))
  ])

  group-Covers :
      (context f i s : ℕ)
      → s ≤ i
      → length ops ≤ f + i
      → PlainFrom ops s i
      → IsFree context s
      → Covers (drop s ops) (group context f ops i)
  unfolding group
  group-Covers context zero i s h l p free = Covers-rest s i h (omega (arith, l)) p
  group-Covers context (suc f) i s h l p free = elim (Option-cases (get_elem? ops i)) [
    | inl e ↦
        rw (e, group)
          (Covers-rest s i h
            (elim (Bool-cases (ltb i (length ops))) [
              | inl a ↦ absurd (unseen i (ground (arith, a)) e)
              | inr a ↦ ground (arith, a)
            ])
            p)
    | inr (o, e) ↦ elim (Bool-cases (counts o)) [
      | inr c ↦
          rw (e, group, c)
            (group-Covers context f (suc i) s (omega arith) (omega (arith, l)) (longer s i o p e c)
              free)
      | inl c ↦
          let bound : i < length ops = get_elem?-inside ops i o e in
          let end = last_change context i i (drop i ops) in
          let r : EndsHunk ops context i end =
            last_change-EndsHunk ops context i i (drop i ops) refl (omega arith) bound (omega arith)
              (unfold PlainFrom in (λ k q r. absurd (omega (arith, q, r)))) in
          let stop = min (end + context + 1) (length ops) in
          let start = i - context in
          let begin : s ≤ start = start_free context s i o h free e c in
          let after : i < stop = unfold EndsHunk in (omega (arith, r.0, bound)) in
          rw (e, group, c)
            (next (take (start - s) (drop s ops)) (take (stop - start) (drop start ops))
              (none_from s (start - s) (narrower s start i p (omega arith) begin))
              (any_in (drop start ops) (stop - start) (i - start) o
                (get_elem?-drop_line ops start (i - start) ∙ (at_start start i o (omega arith) e)) c
                (omega (arith, after)))
              (cut_twice s start stop begin (omega (arith, after)))
              (group-Covers context f stop stop (omega arith) (omega (arith, l, after))
                (unfold PlainFrom in (λ k q r. absurd (omega (arith, q, r))))
                (IsFree-after context end i r)))
    ]
  ]

or_false : (b : Bool) → b ≡ (b || false)
or_false true = refl
or_false false = refl

counts_as : (l : DiffLine) → counts l ≡ (is_added l || is_removed l)
unfolding is_added is_removed counts
counts_as l =
    elim (l.op)
      as (λ (o : Op).
        ◌≡◌ {A = Bool} (elim o [ same ↦ false | other ↦ not l.ignored ])
          ((elim o [ added ↦ not l.ignored | other ↦ false ])
            || (elim o [ removed ↦ not l.ignored | other ↦ false ]))) [
              | same ↦ refl
              | removed ↦ refl
              | added ↦ or_false (not l.ignored)
            ]

no_counts :
    (ls : List DiffLine)
    → how_many is_added ls ≡ 0
    → how_many is_removed ls ≡ 0
    → (any counts ls ≡ false)
unfolding how_many
no_counts [] h k = refl
no_counts (l ∷ ls) h k = elim (Bool-cases (is_added l)) [
  | inl a ↦ absurd (ground (arith, h, a))
  | inr a ↦ elim (Bool-cases (is_removed l)) [
    | inl b ↦ absurd (ground (arith, k, b))
    | inr b ↦
        let ih : any counts ls ≡ false =
          no_counts ls (ground (arith, h, a)) (ground (arith, k, b)) in
        let here : counts l ≡ false = counts_as l ∙ (rw (a, b) refl) in rw here ih
  ]
]

lines_of : (hs : List (List DiffLine)) → map (λ (h : Hunk). h.lines) (map hunk_of hs) ≡ hs
unfolding hunk_of
lines_of [] = refl
lines_of (h ∷ hs) = ap (◌∷◌ h) (lines_of hs)

-- The hunks of a diff are parts of the marked script, in their order and without a line in common.
-- Each has a change that counts, and outside the hunks there is none.
pub diff_of-Covers :
    (ignores : Str → Bool) (context : ℕ) (script : List DiffLine)
    → Covers
        (map (mark ignores) script)
        (map (λ (h : Hunk). h.lines) (diff_of ignores context script).hunks)
unfolding diff_of
diff_of-Covers ignores context script =
    let ops = map (mark ignores) script in
    let whole : Covers ops (group context (length ops) ops 0) =
      group-Covers ops context (length ops) 0 0 (omega arith) (omega arith)
        (unfold PlainFrom in (λ k q r. absurd (omega (arith, r)))) (unfold IsFree in inl refl) in
    elim (Bool-cases (how_many is_added ops == 0 && how_many is_removed ops == 0)) [
      | inl a ↦ rw a (rest (no_counts ops (ground (arith, a)) (ground (arith, a))))
      | inr a ↦ rw (a, lines_of (group context (length ops) ops 0)) whole
    ]
