-- ===== src/Credres/Resolve/Candidates.antt =====
-- Lists of candidates: no candidate twice, and what the steps of the ladder keep of a list.
use omegacatqt.Base.{
  inl, inr, some, none, true, false, [], ◌∷◌, zero, suc, refl, arith, ◌≡◌, List, Bool-cases, ◌++◌,
  ◌||◌, ◌⊎◌, Option, ℕ, All, Bool, filter, Option-cases, All-take, length, All-append, subst, take,
  ◌≤◌, length-take, eq_of_some,
}
use omegacatqt.Text.{Str, str_eq, str_eq_iff, is_empty}
use omegacatqt.Vault.{Credential}
use omegacatqt.Credres.Resolve.{
  Candidate, contains_candidate, find_id, prefer, add_ranked, capped, Reason,
}

-- Ids do not repeat.
abbrev pub Distinct : List Candidate → Type 0
Distinct [] = Unit
Distinct (x ∷ xs) = (contains_candidate xs x.cred.id ≡ false) × Distinct xs

pub contains-append :
    (xs : List Candidate) (y : Candidate) (id : Str)
    → contains_candidate (xs ++ y ∷ []) id ≡ (contains_candidate xs id || str_eq y.cred.id id)
unfolding contains_candidate
contains-append [] y id = ground arith
contains-append (x ∷ xs) y id = ground (arith, contains-append xs y id)

Distinct-append :
    (xs : List Candidate) (y : Candidate)
    → Distinct xs
    → contains_candidate xs y.cred.id ≡ false
    → Distinct (xs ++ y ∷ [])
unfolding contains_candidate
Distinct-append [] y d h = (refl, tt)
Distinct-append (x ∷ xs) y d h = (
  ground (
    arith,
    contains-append xs y x.cred.id,
    str_eq_iff x.cred.id y.cred.id,
    str_eq_iff y.cred.id x.cred.id,
  ),
  Distinct-append xs y d.1 (ground arith),
)

find_id-id : (id : Str) (cs : List Credential) {c : Credential} → find_id id cs ≡ some c → c.id ≡ id
unfolding find_id
find_id-id id [] h = absurd (cc)
find_id-id id (x ∷ cs) {c} h = ground (arith, find_id-id id cs {c = c}, str_eq_iff x.id id)

find_id-All :
    (P : Credential → Type 0) (id : Str) (cs : List Credential) {c : Credential}
    → All P cs
    → find_id id cs ≡ some c
    → P c
unfolding find_id
find_id-All P id [] a h = absurd (cc)
find_id-All P id (x ∷ cs) {c} a h = elim (Bool-cases (str_eq x.id id)) [
  | inl k ↦ let e : x ≡ c = ground arith in subst P e a.0
  | inr k ↦ find_id-All P id cs a.1 (ground arith)
]

-- What one round of the first loop does.
pub prefer_cases :
    (reason : Reason) (id : Str) (cs : List Credential) (out : List Candidate)
    → (prefer reason id cs out ≡ out)
      ⊎ ((c : Credential) × (prefer reason id cs out
            ≡ out ++ record { cred = c; reason = reason } ∷ [])
          × (contains_candidate out id ≡ false)
          × (find_id id cs ≡ some c))
unfolding prefer
prefer_cases reason id cs out = elim (Bool-cases (is_empty id || contains_candidate out id)) [
  | inl k ↦ inl (rw k refl)
  | inr k ↦ elim (Option-cases (find_id id cs)) [
    | inl n ↦ inl (rw (k, n) refl)
    | inr (c, n) ↦ inr (c, rw (k, n) refl, ground arith, n)
  ]
]

pub prefer-Distinct :
    (reason : Reason) (id : Str) (cs : List Credential) (out : List Candidate)
    → Distinct out
    → Distinct (prefer reason id cs out)
prefer-Distinct reason id cs out d = elim (prefer_cases reason id cs out) [
  | inl e ↦ rw e d
  | inr (c, e, f, g) ↦
      rw e
        (Distinct-append out (record { cred = c; reason = reason }) d (rw (find_id-id id cs g) f))
]

pub add_ranked-Distinct :
    (cs : List Credential) (out : List Candidate) → Distinct out → Distinct (add_ranked cs out)
unfolding add_ranked
add_ranked-Distinct [] out d = d
add_ranked-Distinct (c ∷ cs) out d = elim (Bool-cases (contains_candidate out c.id)) [
  | inl k ↦ rw k (add_ranked-Distinct cs out d)
  | inr k ↦ rw k (add_ranked-Distinct cs _ (Distinct-append out _ d k))
]

module _ (P : Credential → Type 0) where
  -- What holds of the credential of each candidate.
  abbrev pub Of : List Candidate → Type 0
  Of = All (λ x. P x.cred)

  pub prefer-All :
      (reason : Reason) (id : Str) (cs : List Credential) (out : List Candidate)
      → All P cs
      → Of out
      → Of (prefer reason id cs out)
  prefer-All reason id cs out a o = elim (prefer_cases reason id cs out) [
    | inl e ↦ rw e o
    | inr (c, e, f, g) ↦ rw e (All-append (λ x. P x.cred) out _ o (find_id-All P id cs a g, tt))
  ]

  pub add_ranked-All :
      (cs : List Credential) (out : List Candidate) → All P cs → Of out → Of (add_ranked cs out)
  unfolding add_ranked
  add_ranked-All [] out a o = o
  add_ranked-All (c ∷ cs) out a o = elim (Bool-cases (contains_candidate out c.id)) [
    | inl k ↦ rw k (add_ranked-All cs out a.1 o)
    | inr k ↦ rw k (add_ranked-All cs _ a.1 (All-append (λ x. P x.cred) out _ o (a.0, tt)))
  ]

  pub capped-All : (max : Option ℕ) (out : List Candidate) → Of out → Of (capped max out)
  unfolding capped
  capped-All none out o = o
  capped-All (some n) out o = All-take (λ x. P x.cred) n out o

contains-take :
    (n : ℕ) (xs : List Candidate) (id : Str)
    → contains_candidate xs id ≡ false
    → contains_candidate (take n xs) id ≡ false
unfolding contains_candidate
contains-take zero xs id h = refl
contains-take (suc n) [] id h = refl
contains-take (suc n) (x ∷ xs) id h = ground (arith, contains-take n xs id)

take-Distinct : (n : ℕ) (xs : List Candidate) → Distinct xs → Distinct (take n xs)
take-Distinct zero xs d = tt
take-Distinct (suc n) [] d = tt
take-Distinct (suc n) (x ∷ xs) d = (contains-take n xs x.cred.id d.0, take-Distinct n xs d.1)

pub capped-Distinct :
    (max : Option ℕ) (out : List Candidate) → Distinct out → Distinct (capped max out)
unfolding capped
capped-Distinct none out d = d
capped-Distinct (some n) out d = take-Distinct n out d

pub filter-All :
    (p : Credential → Bool) (P : Credential → Type 0) (cs : List Credential)
    → All P cs
    → All (λ c. P c × (p c ≡ true)) (filter p cs)
filter-All p P [] a = tt
filter-All p P (c ∷ cs) a = elim (Bool-cases (p c)) [
  | inl k ↦ rw k ((a.0, k), filter-All p P cs a.1)
  | inr k ↦ rw k (filter-All p P cs a.1)
]

pub length-capped :
    (max : Option ℕ) (n : ℕ) (out : List Candidate) → max ≡ some n → length (capped max out) ≤ n
unfolding capped
length-capped none n out h = absurd (cc)
length-capped (some m) n out h = omega (arith, length-take m out, eq_of_some h)
