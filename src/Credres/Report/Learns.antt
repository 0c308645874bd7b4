-- ===== src/Credres/Report/Learns.antt =====
-- internal/credres/credres.go: what a rejection changes, and for how long.
use omegacatqt.Base.{
  pos, negsuc, true, false, arith, ◌≡◌, ◌≢◌, List, length, if◌then◌else◌, some, none, [], ◌∷◌, zero,
  suc, refl, ◌||◌, ℕ, ℤ, All, ◌≤◌, ◌<◌, Option,
}
use omegacatqt.Text.{Str, str_eq, is_empty, has, str_eq_refl, str_eq_iff}
use omegacatqt.Text.Assoc.{insert, lookup-insert, remove, lookup-remove}
use omegacatqt.Vault.{Credential}
use omegacatqt.Credres.Outcome.{Outcome, success, auth_rejected}
use omegacatqt.Credres.Resolve.{
  State, Target, Config, Net, Bindings, Parked, members, is_parked, is_eligible, limit, rejected_by,
}
use omegacatqt.Credres.Report.{add_member, note, reaches, report, breaker}

has-add_member : (x : Str) (l : List Str) → has (add_member x l) x ≡ true
unfolding add_member has
has-add_member x l = ground (arith, str_eq_refl x)

members-insert :
    (k j : Str) (l : List Str) (m : List (Str × List Str))
    → members (insert k l m) j ≡ (if str_eq k j then l else members m j)
unfolding members
members-insert k j l m = ground (arith, lookup-insert k j l m)

has-note : (k x : Str) (m : List (Str × List Str)) → has (members (note k x m) k) x ≡ true
unfolding note
has-note k x m = ground (
  arith,
  members-insert k k (add_member x (members m k)) m,
  str_eq_refl k,
  has-add_member x (members m k),
)

is_parked-insert :
    (k : Str) (p : Parked) (m : List (Str × Parked)) → is_parked (insert k p m) k ≡ true
is_parked-insert k p m = ground (arith, lookup-insert k k p m, str_eq_refl k)

members-remove :
    (k j : Str) (m : List (Str × List Str))
    → members (remove k m) j ≡ (if str_eq k j then [] else members m j)
unfolding members
members-remove k j m = ground (arith, lookup-remove k j m)

has-add_member_iff : (x y : Str) (l : List Str) → has (add_member x l) y ≡ (str_eq x y || has l y)
unfolding add_member has
has-add_member_iff x y l = ground (arith, str_eq_iff x y)

length-add_member :
    (x : Str) (l : List Str)
    → length (add_member x l) ≡ (if has l x then length l else suc (length l))
unfolding add_member
length-add_member x l = ground arith

-- How many devices may reject a credential: 3 by default, and a negative number means any.
abbrev pub threshold : ℤ → Option ℕ
threshold (pos zero) = some 3
threshold (pos (suc n)) = some (suc n)
threshold (negsuc n) = none

limit-threshold : (x : ℤ) → limit 3 x ≡ threshold x
unfolding limit
limit-threshold (pos zero) = refl
limit-threshold (pos (suc n)) = refl
limit-threshold (negsuc n) = refl

module _ {B : Type 0} (net : Net) (store : Bindings B) (cfg : Config) (t : Target) where
  rejected_negative :
      (id : Str) (st : State B)
      → is_empty id ≡ false
      → is_empty t.identity ≡ false
      → (report store cfg t id auth_rejected st).negative ≡ note t.identity id st.negative
  unfolding report breaker
  rejected_negative id st p q = ground arith

  rejected_parked :
      (id : Str) (st : State B)
      → is_empty id ≡ false
      → is_empty t.identity ≡ false
      → reaches
          (limit 3 cfg.breaker_threshold)
          (length (members (report store cfg t id auth_rejected st).rejects id))
        ≡ true
      → is_parked (report store cfg t id auth_rejected st).parked id ≡ true
  unfolding report breaker
  rejected_parked id st p q r = ground (
    arith,
    is_parked-insert id (rejected_by (length (members (note id t.identity st.rejects) id)))
        st.parked,
  )

  rejected_excludes :
      (c : Credential) (st : State B)
      → has (members st.negative t.identity) c.id ≡ true
      → is_eligible net store cfg st t c ≡ false
  unfolding is_eligible
  rejected_excludes c st h = ground arith

  rejected_rejects :
      (id : Str) (st : State B)
      → is_empty id ≡ false
      → is_empty t.identity ≡ false
      → (report store cfg t id auth_rejected st).rejects ≡ note id t.identity st.rejects
  unfolding report breaker
  rejected_rejects id st p q = ground arith

  not_parked :
      (id : Str) (st : State B)
      → is_empty id ≡ false
      → is_empty t.identity ≡ false
      → reaches
          (limit 3 cfg.breaker_threshold)
          (length (members (report store cfg t id auth_rejected st).rejects id))
        ≡ false
      → (report store cfg t id auth_rejected st).parked ≡ st.parked
  unfolding report breaker
  not_parked id st p q r = ground arith

  rejected_members :
      (c : Credential) (st : State B)
      → is_empty c.id ≡ false
      → is_empty t.identity ≡ false
      → members (report store cfg t c.id auth_rejected st).rejects c.id
        ≡ add_member t.identity (members st.rejects c.id)
  unfolding note
  rejected_members c st p q = ground (
    arith,
    rejected_rejects c.id st p q,
    members-insert c.id c.id (add_member t.identity (members st.rejects c.id)) st.rejects,
    str_eq_refl c.id,
  )

  -- The breaker. A rejection adds the device to the devices that have rejected the credential, of
  -- which each is counted once. When their number reaches the threshold (3 unless another one is
  -- configured) the credential is offered to no device; below the threshold, or without one,
  -- nothing is parked.
  pub report_breaker :
      (c : Credential) (st : State B)
      → is_empty c.id ≡ false
      → is_empty t.identity ≡ false
      → let after = report store cfg t c.id auth_rejected st in
        let before = members st.rejects c.id in
        let now = members after.rejects c.id in
        ((x : Str) → has now x ≡ (str_eq t.identity x || has before x))
        × (length now ≡ (if has before t.identity then length before else suc (length before)))
        × ((n : ℕ)
            → threshold cfg.breaker_threshold ≡ some n
            → n ≤ length now
            → (other : Target) → is_eligible net store cfg after other c ≡ false)
        × ((n : ℕ)
            → threshold cfg.breaker_threshold ≡ some n
            → length now < n
            → after.parked ≡ st.parked)
        × (threshold cfg.breaker_threshold ≡ none → after.parked ≡ st.parked)
  unfolding is_eligible reaches
  report_breaker c st p q =
      let now = members (report store cfg t c.id auth_rejected st).rejects c.id in
      let e = rejected_members c st p q in
      let same = limit-threshold cfg.breaker_threshold in
      (
        λ x. rw e (has-add_member_iff t.identity x (members st.rejects c.id)),
        rw e (length-add_member t.identity (members st.rejects c.id)),
        λ n m l other.
            (let r : reaches (limit 3 cfg.breaker_threshold) (length now) ≡ true =
                rw (same, m) (ground arith) in
              ground (arith, rejected_parked c.id st p q r)),
        λ n m l. not_parked c.id st p q (rw (same, m) (ground arith)),
        λ m. not_parked c.id st p q (rw (same, m) refl),
      )

module _ {B : Type 0} (net : Net) (store : Bindings B) (cfg : Config) where
  -- Reports, the first one first.
  unfoldable pub report_all : List (Target × Str × Outcome) → State B → State B
  report_all [] st = st
  report_all ((t, id, o) ∷ rs) st = report_all rs (report store cfg t id o st)

  -- A credential that a device has rejected stays so under a report that is no success of that
  -- device.
  report-keeps :
      (t : Target) (id : Str) (o : Outcome) (st : State B) (device x : Str)
      → (o ≡ success → t.identity ≢ device)
      → has (members st.negative device) x ≡ true
      → has (members (report store cfg t id o st).negative device) x ≡ true
  unfolding report breaker note
  report-keeps t id success st device x n h =
      let k = n refl in
      ground (arith, members-remove t.identity device st.negative, str_eq_iff t.identity device)
  report-keeps t id auth_rejected st device x n h = ground (
    arith,
    members-insert t.identity device (add_member id (members st.negative t.identity)) st.negative,
    str_eq_iff t.identity device,
    has-add_member_iff id x (members st.negative t.identity),
  )
  report-keeps t id o st device x n h = ground arith

  report_all-keeps :
      (rs : List (Target × Str × Outcome)) (st : State B) (device x : Str)
      → All (λ (r : Target × Str × Outcome). r.2 ≡ success → r.0.identity ≢ device) rs
      → has (members st.negative device) x ≡ true
      → has (members (report_all rs st).negative device) x ≡ true
  unfolding report_all
  report_all-keeps [] st device x n h = h
  report_all-keeps ((t, id, o) ∷ rs) st device x n h =
      report_all-keeps rs (report store cfg t id o st) device x n.1
        (report-keeps t id o st device x n.0 h)

  -- A credential that a device has rejected is not offered to that device, whatever else is
  -- reported, until a success of the same device is; a success with any credential clears all
  -- that is held against that device.
  pub report_rejected_excludes :
      (t : Target) (c : Credential) (st : State B) (rs : List (Target × Str × Outcome))
      → is_empty c.id ≡ false
      → is_empty t.identity ≡ false
      → All (λ (r : Target × Str × Outcome). r.2 ≡ success → r.0.identity ≢ t.identity) rs
      → (is_eligible net store cfg (report_all rs (report store cfg t c.id auth_rejected st)) t c
          ≡ false)
        × ((id : Str)
            → is_empty id ≡ false
            → members (report store cfg t id success st).negative t.identity ≡ [])
  unfolding report
  report_rejected_excludes t c st rs p q n =
      let first : has (members (report store cfg t c.id auth_rejected st).negative t.identity) c.id
          ≡ true =
        rw (rejected_negative net store cfg t c.id st p q) (has-note t.identity c.id st.negative) in
      (
        rejected_excludes net store cfg t c
            (report_all rs (report store cfg t c.id auth_rejected st))
            (report_all-keeps rs (report store cfg t c.id auth_rejected st) t.identity c.id n
              first),
        λ id e.
            ground
              (arith, members-remove t.identity t.identity st.negative, str_eq_refl t.identity),
      )
