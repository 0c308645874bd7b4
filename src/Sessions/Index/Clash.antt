-- ===== src/Sessions/Index/Clash.antt =====
-- The edits at a position keep the names different, and what find_index answers after them.
use omegacatqt.Sessions.Index.{find_index, remove_at, set_at, elsewhere, NoClash}
use omegacatqt.Text.{str_eq, Str, str_eq→eq}
use omegacatqt.Base.{
  inl, inr, some, none, false, [], ◌∷◌, zero, suc, refl, arith, ◌≡◌, List, ◌++◌, ℕ, Bool-cases,
  subst, Option-cases, sym, ◌∙◌,
}

pub str_eq_sym : (s t : Str) → str_eq s t ≡ str_eq t s
unfolding str_eq
str_eq_sym [] [] = refl
str_eq_sym [] (d ∷ t) = refl
str_eq_sym (c ∷ s) [] = refl
str_eq_sym (c ∷ s) (d ∷ t) = ground (arith, str_eq_sym s t)

module _ {A : Type 0} (name : A → Str) where
  pub find_index-append_none :
      (k : Str) (xs : List A) (y : A)
      → find_index name k xs ≡ none
      → str_eq (name y) k ≡ false
      → (find_index name k (xs ++ y ∷ []) ≡ none)
  unfolding find_index
  find_index-append_none k [] y h e = rw e refl
  find_index-append_none k (x ∷ xs) y h e = elim (Bool-cases (str_eq (name x) k)) [
    | inl a ↦ ground (arith, h, a)
    | inr a ↦ elim (Option-cases (find_index name k xs)) [
      | inl b ↦ rw (a, find_index-append_none k xs y b e) refl
      | inr (i, b) ↦ ground (arith, h, a, b)
    ]
  ]

  pub find_index-append_some :
      (k : Str) (xs ys : List A) (i : ℕ)
      → find_index name k xs ≡ some i
      → (find_index name k (xs ++ ys) ≡ some i)
  unfolding find_index
  find_index-append_some k [] ys i h = ground arith
  find_index-append_some k (x ∷ xs) ys i h = elim (Bool-cases (str_eq (name x) k)) [
    | inl a ↦ ground (arith, h, a)
    | inr a ↦ elim (Option-cases (find_index name k xs)) [
      | inl b ↦ ground (arith, h, a, b)
      | inr (j, b) ↦ rw (a, find_index-append_some k xs ys j b) (ground (arith, h, a, b))
    ]
  ]

  pub NoClash-append :
      (xs : List A) (y : A)
      → NoClash name xs
      → find_index name (name y) xs ≡ none
      → (NoClash name (xs ++ y ∷ []))
  unfolding NoClash find_index
  NoClash-append [] y d h = (refl, tt)
  NoClash-append (x ∷ xs) y d h = elim (Bool-cases (str_eq (name x) (name y))) [
    | inl a ↦ absurd (ground (arith, h, a))
    | inr a ↦ elim (Option-cases (find_index name (name y) xs)) [
      | inl b ↦ (
        find_index-append_none (name x) xs y d.0 (sym (str_eq_sym _ _) ∙ a),
        NoClash-append xs y d.1 b,
      )
      | inr (i, b) ↦ absurd (ground (arith, h, a, b))
    ]
  ]

  find_index-remove_at :
      (k : Str) (i : ℕ) (xs : List A)
      → find_index name k xs ≡ none
      → (find_index name k (remove_at i xs) ≡ none)
  unfolding find_index remove_at
  find_index-remove_at k i [] h = refl
  find_index-remove_at k zero (x ∷ xs) h = ground arith
  find_index-remove_at k (suc i) (x ∷ xs) h = ground (arith, find_index-remove_at k i xs)

  pub NoClash-remove_at : (i : ℕ) (xs : List A) → NoClash name xs → NoClash name (remove_at i xs)
  unfolding NoClash remove_at
  NoClash-remove_at i [] d = tt
  NoClash-remove_at zero (x ∷ xs) d = d.1
  NoClash-remove_at (suc i) (x ∷ xs) d =
      (find_index-remove_at (name x) i xs d.0, NoClash-remove_at i xs d.1)

  find_index-set_at :
      (k : Str) (i : ℕ) (y : A) (xs : List A)
      → find_index name k xs ≡ none
      → str_eq (name y) k ≡ false
      → find_index name k (set_at i y xs) ≡ none
  unfolding find_index set_at
  find_index-set_at k i y [] h e = refl
  find_index-set_at k zero y (x ∷ xs) h e = ground arith
  find_index-set_at k (suc i) y (x ∷ xs) h e = ground (arith, find_index-set_at k i y xs)

  -- A name that an element takes is free, or its own.
  pub NoClash-set_at :
      (i : ℕ) (y : A) (xs : List A)
      → NoClash name xs
      → elsewhere (find_index name (name y) xs) i ≡ false
      → NoClash name (set_at i y xs)
  unfolding NoClash set_at find_index elsewhere
  NoClash-set_at i y [] d h = tt
  NoClash-set_at zero y (x ∷ xs) d h = elim (Bool-cases (str_eq (name x) (name y))) [
    | inl a ↦ (subst (λ (s : Str). find_index name s xs ≡ none) (str_eq→eq _ _ a) d.0, d.1)
    | inr a ↦ elim (Option-cases (find_index name (name y) xs)) [
      | inl b ↦ (b, d.1)
      | inr (i, b) ↦ absurd (ground (arith, h, a, b))
    ]
  ]
  NoClash-set_at (suc i) y (x ∷ xs) d h = elim (Bool-cases (str_eq (name x) (name y))) [
    | inl a ↦ absurd (ground (arith, h, a))
    | inr a ↦ elim (Option-cases (find_index name (name y) xs)) [
      | inl b ↦ (
        find_index-set_at (name x) i y xs d.0 (sym (str_eq_sym _ _) ∙ a),
        NoClash-set_at i y xs d.1 (rw b refl),
      )
      | inr (j, b) ↦ (
        find_index-set_at (name x) i y xs d.0 (sym (str_eq_sym _ _) ∙ a),
        NoClash-set_at i y xs d.1 (ground (arith, h, a, b)),
      )
    ]
  ]
