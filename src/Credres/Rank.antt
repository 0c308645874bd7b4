-- ===== src/Credres/Rank.antt =====
-- internal/credres/credres.go: rank, the static order in which credentials are tried.
pub mod Sorted
use omegacatqt.Base.{
  true, false, [], ◌∷◌, Bool, List, ℤ, if◌then◌else◌, not, ◌==◌, ltb_ℤ, ltb, ◌&&◌, inl, inr, some,
  none, zero, suc, refl, arith, ◌≡◌,
}
use omegacatqt.Text.{to_lower, str_le}
use omegacatqt.Vault.{Credential, AuthMethod, auth_public_key, auth_agent, method, specificity}

abbrev pub is_key_method : AuthMethod → Bool
is_key_method auth_public_key = true
is_key_method auth_agent = true
is_key_method _ = false

-- isKeyAuth
unfoldable pub is_key_auth : Credential → Bool
is_key_auth c = is_key_method (method c)

abbrev bool_eq : Bool → Bool → Bool
bool_eq true b = b
bool_eq false b = not b

abbrev ℤ_eq : ℤ → ℤ → Bool
ℤ_eq a b = not (ltb_ℤ a b) && not (ltb_ℤ b a)

-- The last two keys of the comparison: the default flag and the name.
unfoldable pub less_name : Credential → Credential → Bool
less_name a b =
    if not (bool_eq a.is_default b.is_default)
    then a.is_default
    else not (str_le (to_lower b.name) (to_lower a.name))

-- From the kind of authentication on.
unfoldable pub less_auth : Credential → Credential → Bool
less_auth a b =
    if not (bool_eq (is_key_auth a) (is_key_auth b)) then is_key_auth a else less_name a b

-- The function that rank hands to sort.SliceStable: whether a goes before b.
unfoldable pub less : Credential → Credential → Bool
less a b =
    if not (specificity a.scope == specificity b.scope)
    then ltb (specificity b.scope) (specificity a.scope)
    else if not (ℤ_eq a.priority b.priority)
    then ltb_ℤ a.priority b.priority
    else less_auth a b

-- A stable sort: an element goes behind those that are less than it, and no further.
place : Credential → List Credential → List Credential
place c [] = c ∷ []
place c (d ∷ ds) = let rest = place c ds in if less d c then d ∷ rest else c ∷ d ∷ ds

unfoldable pub rank : List Credential → List Credential
unfolding place
rank [] = []
rank (c ∷ cs) = place c (rank cs)
