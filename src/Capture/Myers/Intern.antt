-- ===== src/Capture/Myers/Intern.antt =====
-- Interned lines: a number stands for one line, and a line has one number.
use omegacatqt.Text.{Str, str_eq_refl, str_eq, str_eq→eq}
use omegacatqt.Capture.Myers.{intern, position, line_of}
use omegacatqt.Base.{
  inl, inr, some, none, [], ◌∷◌, zero, suc, refl, arith, ◌≡◌, List, ℕ, ◌++◌, ◌<◌, Bool-cases,
  length, sym, ◌∙◌, get_elem?, append-nil, ap, ◌↔◌, Option-cases, append_assoc, subst,
}

position-append :
    (s : Str) (ids ts : List Str) (i : ℕ)
    → position s ids ≡ some i
    → position s (ids ++ ts) ≡ some i
unfolding position
position-append s [] ts i h = ground (arith, h)
position-append s (t ∷ ids) ts i h = elim (Bool-cases (str_eq s t)) [
  | inl a ↦ ground (arith, h, a)
  | inr a ↦ elim (Option-cases (position s ids)) [
    | inl b ↦ ground (arith, h, a, b)
    | inr (j, b) ↦ rw (a, position-append s ids ts j b) (ground (arith, h, a, b))
  ]
]

position-new :
    (s : Str) (ids : List Str)
    → position s ids ≡ none
    → position s (ids ++ s ∷ []) ≡ some (length ids)
unfolding position
position-new s [] h = rw (str_eq_refl s) refl
position-new s (t ∷ ids) h = elim (Bool-cases (str_eq s t)) [
  | inl a ↦ ground (arith, h, a)
  | inr a ↦ elim (Option-cases (position s ids)) [
    | inl b ↦ rw (a, position-new s ids b) refl
    | inr (j, b) ↦ ground (arith, h, a, b)
  ]
]

position_injective :
    (s t : Str) (ids : List Str) (i : ℕ) → position s ids ≡ some i → position t ids ≡ some i → s ≡ t
unfolding position
position_injective s t [] i h k = ground (arith, h)
position_injective s t (u ∷ ids) i h k = elim (Bool-cases (str_eq s u)) [
  | inl a ↦ elim (Bool-cases (str_eq t u)) [
    | inl b ↦ str_eq→eq s u a ∙ sym (str_eq→eq t u b)
    | inr b ↦ elim (Option-cases (position t ids)) [
      | inl c ↦ ground (arith, k, b, c)
      | inr (j, c) ↦ ground (arith, h, k, a, b, c)
    ]
  ]
  | inr a ↦ elim (Option-cases (position s ids)) [
    | inl c ↦ ground (arith, h, a, c)
    | inr (j, c) ↦ elim (Bool-cases (str_eq t u)) [
      | inl b ↦ ground (arith, h, k, a, b, c)
      | inr b ↦ elim (Option-cases (position t ids)) [
        | inl e ↦ ground (arith, k, b, e)
        | inr (j', e) ↦
            let p : j ≡ j' = ground (arith, h, k, a, b, c, e) in
            position_injective s t ids j c (rw p e)
      ]
    ]
  ]
]

-- Each number of the list is the position of its line in the table.
unfoldable pub IsInterned : List Str → List ℕ → List Str → Type 0
IsInterned [] [] ids = Unit
IsInterned [] (i ∷ is) ids = ⊥
IsInterned (s ∷ ss) [] ids = ⊥
IsInterned (s ∷ ss) (i ∷ is) ids = (position s ids ≡ some i) × IsInterned ss is ids

IsInterned-append :
    (ss : List Str) (is : List ℕ) (ids ts : List Str)
    → IsInterned ss is ids
    → IsInterned ss is (ids ++ ts)
unfolding IsInterned
IsInterned-append [] [] ids ts h = h
IsInterned-append [] (i ∷ is) ids ts h = h
IsInterned-append (s ∷ ss) [] ids ts h = h
IsInterned-append (s ∷ ss) (i ∷ is) ids ts h =
    (position-append s ids ts i h.0, IsInterned-append ss is ids ts h.1)

intern_old :
    (s : Str) (ss ids : List Str) (i : ℕ)
    → position s ids ≡ some i
    → (intern (s ∷ ss) ids ≡ (i ∷ (intern ss ids).0, (intern ss ids).1))
unfolding intern
intern_old s ss ids i a = rw (a, intern) refl

intern_new :
    (s : Str) (ss ids : List Str)
    → position s ids ≡ none
    → (intern (s ∷ ss) ids
        ≡ (length ids ∷ (intern ss (ids ++ s ∷ [])).0, (intern ss (ids ++ s ∷ [])).1))
unfolding intern
intern_new s ss ids a = rw (a, intern) refl

-- The numbers are those of the table that is left, which only grows.
unfoldable IsInterning : List Str → List Str → List ℕ × List Str → Type 0
IsInterning ss ids (out, final) = IsInterned ss out final × ((ts : List Str) × (final ≡ ids ++ ts))

intern-IsInterned : (ss ids : List Str) → IsInterning ss ids (intern ss ids)
unfolding IsInterning IsInterned
intern-IsInterned [] ids = unfold intern in (tt, ([], sym (append-nil ids)))
intern-IsInterned (s ∷ ss) ids = elim (Option-cases (position s ids)) [
  | inr (i, a) ↦
      let r = intern-IsInterned ss ids in
      let p : position s (intern ss ids).1 ≡ some i =
        subst (λ (x : List Str). position s x ≡ some i) (sym r.1.1)
          (position-append s ids r.1.0 i a) in
      subst (IsInterning (s ∷ ss) ids) (sym (intern_old s ss ids i a)) ((p, r.0), r.1)
  | inl a ↦
      let more = ids ++ s ∷ [] in
      let r = intern-IsInterned ss more in
      let p : position s (intern ss more).1 ≡ some (length ids) =
        subst (λ (x : List Str). position s x ≡ some (length ids)) (sym r.1.1)
          (position-append s more r.1.0 (length ids) (position-new s ids a)) in
      subst (IsInterning (s ∷ ss) ids) (sym (intern_new s ss ids a))
        ((p, r.0), (s ∷ r.1.0, r.1.1 ∙ append_assoc ids (s ∷ []) r.1.0))
]

length-IsInterned :
    (ss : List Str) (is : List ℕ) (ids : List Str) → IsInterned ss is ids → length is ≡ length ss
unfolding IsInterned
length-IsInterned [] [] ids h = refl
length-IsInterned [] (i ∷ is) ids h = absurd h
length-IsInterned (s ∷ ss) [] ids h = absurd h
length-IsInterned (s ∷ ss) (i ∷ is) ids h = ap suc (length-IsInterned ss is ids h.1)

number_of :
    (ss : List Str) (is : List ℕ) (ids : List Str) (x : ℕ)
    → IsInterned ss is ids
    → x < length ss
    → ((i : ℕ) × (get_elem? is x ≡ some i) × (position (line_of ss x) ids ≡ some i))
unfolding IsInterned
number_of [] is ids x h p = absurd (omega arith)
number_of (s ∷ ss) [] ids x h p = absurd h
number_of (s ∷ ss) (i ∷ is) ids zero h p = (i, refl, h.0)
number_of (s ∷ ss) (i ∷ is) ids (suc x) h p = number_of ss is ids x h.1 (omega arith)

-- The numbers stand for the lines.
unfoldable pub StandsFor : List Str → List Str → List ℕ → List ℕ → Type 0
StandsFor a b ia ib =
    (length ia ≡ length a)
    × (length ib ≡ length b)
    × ((x y : ℕ)
        → x < length a
        → y < length b
        → ((get_elem? ia x ≡ get_elem? ib y) ↔ (line_of a x ≡ line_of b y)))

pub intern-StandsFor : (a b : List Str) → StandsFor a b (intern a []).0 (intern b (intern a []).1).0
unfolding StandsFor IsInterning
intern-StandsFor a b =
    let ia = (intern a []).0 in
    let ib = (intern b (intern a []).1).0 in
    let ids = (intern b (intern a []).1).1 in
    let r = intern-IsInterned a [] in
    let t = intern-IsInterned b (intern a []).1 in
    let ra : IsInterned a ia ids = rw (t.1.1) (IsInterned-append a ia (intern a []).1 t.1.0 r.0) in
    (
      length-IsInterned a ia ids ra,
      length-IsInterned b ib ids t.0,
      λ x y p q.
          let (i, e, f) = number_of a ia ids x ra p in
          let (j, g, h) = number_of b ib ids y t.0 q in
          (
            λ k.
                let same : i ≡ j = ground (arith, e, g, k) in
                position_injective (line_of a x) (line_of b y) ids i f (rw same h),
            λ k.
                let same : some i ≡ some j = sym f ∙ (ap (λ (s : Str). position s ids) k ∙ h) in
                e ∙ (same ∙ sym g),
          ),
    )
