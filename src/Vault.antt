-- ===== src/Vault.antt =====
-- Package vault (internal/vault/vault.go): the parts of a stored credential that carry no secret
-- and that a resolver reads. The encrypted file is not modelled.
use omegacatqt.Base.{
  true, false, [], ◌∷◌, suc, if◌then◌else◌, Bool, List, ℕ, ◌&&◌, ◌==◌, ◌+◌, ◌*◌, any, ℤ,
}
use omegacatqt.Text.{Str, lit, is_empty, has, to_lower, equal_fold, str_eq}
use omegacatqt.Text.Trim.{trim, trim_space}

pub data AuthMethod : Type 0 where
  auth_none auth_password auth_public_key auth_keyboard_interactive auth_agent : AuthMethod
  auth_snmpv2c auth_snmpv3 : AuthMethod

-- StringToAuthType
unfoldable pub string_to_auth_type : Str → AuthMethod
string_to_auth_type s =
    let k = to_lower (trim_space s) in
    if has (lit "publickey" ∷ lit "public_key" ∷ lit "key" ∷ []) k
    then auth_public_key
    else if has (lit "keyboard-interactive" ∷ lit "keyboard_interactive" ∷ lit "mfa" ∷ []) k
    then auth_keyboard_interactive
    else if str_eq k (lit "agent")
    then auth_agent
    else if has (lit "snmp-v2c" ∷ lit "snmpv2c" ∷ lit "snmp_v2c" ∷ []) k
    then auth_snmpv2c
    else if has (lit "snmp-v3" ∷ lit "snmpv3" ∷ lit "snmp_v3" ∷ []) k
    then auth_snmpv3
    else auth_password

pub record Scope : Type 0 where
  pub domain_suffix : Str
  pub cidrs : List Str
  pub platforms : List Str

-- The fields that resolution reads; the secrets, the dates and the free text are left out.
pub record Credential : Type 0 where
  pub id : Str
  pub name : Str
  pub auth_type : Str
  pub is_default : Bool
  pub priority : ℤ
  pub tags : List Str
  pub scope : Scope
  pub disabled : Bool

abbrev pub is_none : List Str → Bool
is_none [] = true
is_none (s ∷ ss) = false

-- Scope.IsZero
unfoldable pub is_zero : Scope → Bool
is_zero s = is_empty s.domain_suffix && is_none s.cidrs && is_none s.platforms

-- The number of bytes equal to b.
count_byte : ℕ → Str → ℕ
count_byte b [] = 0
count_byte b (c ∷ s) = let rest = count_byte b s in if c == b then suc rest else rest

-- Scope.Specificity; splitting at dots gives one label more than there are dots.
unfoldable pub specificity : Scope → ℕ
unfolding count_byte
specificity s =
    (if is_none s.cidrs then 0 else 100)
    + (if is_none s.platforms then 0 else 50)
    + (if is_empty s.domain_suffix
        then 0
        else 10 * suc (count_byte b'.' (trim (λ c. c == b'.') s.domain_suffix)))

unfoldable pub method : Credential → AuthMethod
method c = string_to_auth_type c.auth_type

abbrev pub is_snmp_method : AuthMethod → Bool
is_snmp_method auth_snmpv2c = true
is_snmp_method auth_snmpv3 = true
is_snmp_method _ = false

-- Credential.IsSNMP
unfoldable pub is_snmp : Credential → Bool
unfolding method
is_snmp c = is_snmp_method (method c)

-- Credential.HasTag
unfoldable pub has_tag : Credential → Str → Bool
has_tag c tag = any (λ t. equal_fold t tag) c.tags
