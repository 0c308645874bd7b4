-- ===== src/Credres/Rank/Sorted.antt =====
-- internal/credres/credres.go: rank reorders the credentials, and sorts them.
use omegacatqt.Base.{
  inl, inr, true, false, [], ◌∷◌, refl, ◌≡◌, List, All, Bool-cases, ◌<◌, ◌⊎◌, ltb_ℤ, Bool,
}
use mathlib.Core.List.{Perm}
use mathlib.Core.List.Perm
use omegacatqt.Text.{str_le, to_lower}
use omegacatqt.Vault.{auth_public_key, auth_agent, Credential, AuthMethod, specificity, method}
use omegacatqt.Credres.Rank.{rank, place, less}

place-perm : (c : Credential) (ds : List Credential) → Perm (place c ds) (c ∷ ds)
unfolding place
place-perm c [] = Perm.refl (c ∷ [])
place-perm c (d ∷ ds) = elim (Bool-cases (less d c)) [
  | inl k ↦ rw k (Perm.trans (Perm.cons d (place-perm c ds)) (Perm.swap c d ds))
  | inr k ↦ rw k (Perm.refl (c ∷ d ∷ ds))
]

-- Ranking loses no credential and adds none.
pub rank-perm : (cs : List Credential) → Perm (rank cs) cs
unfolding rank
rank-perm [] = Perm.refl []
rank-perm (c ∷ cs) = Perm.trans (place-perm c (rank cs)) (Perm.cons c (rank-perm cs))

place-All :
    (P : Credential → Type 0) (c : Credential) (ds : List Credential)
    → P c
    → All P ds
    → All P (place c ds)
unfolding place
place-All P c [] p a = (p, tt)
place-All P c (d ∷ ds) p a = elim (Bool-cases (less d c)) [
  | inl k ↦ rw k (a.0, place-All P c ds p a.1)
  | inr k ↦ rw k (p, a)
]

pub rank-All : (P : Credential → Type 0) (cs : List Credential) → All P cs → All P (rank cs)
unfolding rank
rank-All P [] a = tt
rank-All P (c ∷ cs) a = place-All P c (rank cs) a.0 (rank-All P cs a.1)

-- No credential stands behind one that the comparison puts it before.
abbrev IsLessSorted : List Credential → Type 0
IsLessSorted [] = Unit
IsLessSorted (c ∷ cs) = All (λ d. less d c ≡ false) cs × IsLessSorted cs

abbrev uses_key : AuthMethod → Bool
uses_key auth_public_key = true
uses_key auth_agent = true
uses_key _ = false

-- The documented order: the more specific scope first, then the lower priority, then keys before
-- passwords, then a default credential, then the name without case.
abbrev pub Precedes : Credential → Credential → Type 0
Precedes a b =
    (specificity b.scope < specificity a.scope)
    ⊎ ((specificity a.scope ≡ specificity b.scope)
        × ((ltb_ℤ a.priority b.priority ≡ true)
            ⊎ ((ltb_ℤ b.priority a.priority ≡ false)
                × (((uses_key (method a) ≡ true) × (uses_key (method b) ≡ false))
                    ⊎ ((uses_key (method a) ≡ uses_key (method b))
                        × (((a.is_default ≡ true) × (b.is_default ≡ false))
                            ⊎ ((a.is_default ≡ b.is_default)
                                × (str_le (to_lower b.name) (to_lower a.name) ≡ false))))))))

-- No credential stands behind one that it precedes.
abbrev pub IsRanked : List Credential → Type 0
IsRanked [] = Unit
IsRanked (c ∷ cs) = All (λ d. ¬ Precedes d c) cs × IsRanked cs

All-place :
    (P : Credential → Type 0) (c : Credential) (ds : List Credential)
    → All P (place c ds)
    → P c × All P ds
unfolding place
All-place P c [] a = a
All-place P c (d ∷ ds) a = elim (Bool-cases (less d c)) [
  | inl k ↦
      let b : P d × All P (place c ds) = rw k at a in
      let (p, q) = All-place P c ds b.1 in (p, (b.0, q))
  | inr k ↦ rw k at a
]

-- What holds of all ranked credentials holds of all.
pub All-rank : (P : Credential → Type 0) (cs : List Credential) → All P (rank cs) → All P cs
unfolding rank
All-rank P [] a = tt
All-rank P (c ∷ cs) a = let (p, q) = All-place P c (rank cs) a in (p, All-rank P cs q)
