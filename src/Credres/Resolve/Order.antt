-- ===== src/Credres/Resolve/Order.antt =====
-- internal/credres/credres.go: what Resolve offers, and in which order.
use omegacatqt.Text.Trim.{trim_space}
use omegacatqt.Credres.Resolve.Candidates.{
  contains-append, Distinct, prefer_cases, filter-All, capped-All, add_ranked-All, prefer-All,
  capped-Distinct, add_ranked-Distinct, prefer-Distinct, length-capped,
}
use omegacatqt.Credres.Rank.Sorted.{rank-All, All-rank}
use omegacatqt.Base.{
  inl, inr, some, none, true, false, [], ◌∷◌, zero, suc, refl, arith, ◌≡◌, List, Bool-cases, ◌++◌,
  Option, ℕ, All, Bool, filter, length, subst, take, ◌≤◌, ◌≢◌, ◌∙◌, ℤ, sym, if◌then◌else◌,
  eq_of_some, pos, negsuc, append-nil, append_assoc, ap, ◌⊎◌,
}
use omegacatqt.Text.{Str, is_empty, str_eq_refl, str_eq, str_eq→eq}
use omegacatqt.Vault.{Credential}
use omegacatqt.Credres.Rank.{rank}
use omegacatqt.Credres.Resolve.{
  Candidate, contains_candidate, find_id, prefer, add_ranked, capped, ladder, resolve, is_eligible,
  limit, State, Target, Config, Net, Bindings, Reason, learned_pin, pinned_id, pinned, ranked,
  promoted, match_credential, find_name,
}

-- A credential keeps its place among the candidates, once it has one.
contains-prefer :
    (reason : Reason) (id : Str) (cs : List Credential) (out : List Candidate) (k : Str)
    → contains_candidate out k ≡ true
    → contains_candidate (prefer reason id cs out) k ≡ true
contains-prefer reason id cs out k h = elim (prefer_cases reason id cs out) [
  | inl e ↦ rw e h
  | inr (c, e, f, g) ↦
      rw e (ground (arith, contains-append out (record { cred = c; reason = reason }) k))
]

contains-add_ranked :
    (cs : List Credential) (out : List Candidate) (k : Str)
    → contains_candidate out k ≡ true
    → contains_candidate (add_ranked cs out) k ≡ true
unfolding add_ranked
contains-add_ranked [] out k h = h
contains-add_ranked (c ∷ cs) out k h = elim (Bool-cases (contains_candidate out c.id)) [
  | inl m ↦ rw m (contains-add_ranked cs out k h)
  | inr m ↦ rw m (
      contains-add_ranked cs _ k
        (ground (arith, contains-append out (record { cred = c; reason = ranked }) k)))
]

All-add_ranked :
    (cs : List Credential) (out : List Candidate)
    → All (λ c. contains_candidate (add_ranked cs out) c.id ≡ true) cs
unfolding add_ranked
All-add_ranked [] out = tt
All-add_ranked (c ∷ cs) out =
    let Offered : List Candidate → Type 0 =
      λ l. All (λ x. contains_candidate l x.id ≡ true) (c ∷ cs) in
    elim (Bool-cases (contains_candidate out c.id)) [
      | inl m ↦
          let e : add_ranked (c ∷ cs) out ≡ add_ranked cs out = rw m refl in
          subst Offered (sym e) (contains-add_ranked cs out c.id m, All-add_ranked cs out)
      | inr m ↦
          let next : List Candidate = out ++ record { cred = c; reason = ranked } ∷ [] in
          let e : add_ranked (c ∷ cs) out ≡ add_ranked cs next = rw m refl in
          let here : contains_candidate next c.id ≡ true = ground (
            arith,
            contains-append out (record { cred = c; reason = ranked }) c.id,
            str_eq_refl c.id,
          ) in
          subst Offered (sym e) (contains-add_ranked cs next c.id here, All-add_ranked cs next)
    ]

-- The later rounds only add candidates behind those that are there.
add_ranked_extends :
    (cs : List Credential) (out : List Candidate)
    → (more : List Candidate) × (add_ranked cs out ≡ out ++ more)
unfolding add_ranked
add_ranked_extends [] out = ([], sym (append-nil out))
add_ranked_extends (c ∷ cs) out = elim (Bool-cases (contains_candidate out c.id)) [
  | inl m ↦ rw m (add_ranked_extends cs out)
  | inr m ↦
      let x : Candidate = record { cred = c; reason = ranked } in
      let (more, e) = add_ranked_extends cs (out ++ x ∷ []) in
      (x ∷ more, rw m (e ∙ append_assoc out (x ∷ []) more))
]

prefer_extends :
    (reason : Reason) (id : Str) (cs : List Credential) (out : List Candidate)
    → (more : List Candidate) × (prefer reason id cs out ≡ out ++ more)
prefer_extends reason id cs out = elim (prefer_cases reason id cs out) [
  | inl e ↦ ([], e ∙ sym (append-nil out))
  | inr (c, e, f, g) ↦ (record { cred = c; reason = reason } ∷ [], e)
]

limit_positive : (d : ℕ) (x : ℤ) → limit (suc d) x ≢ some 0
unfolding limit
limit_positive d (pos zero) h = absurd (omega (arith, eq_of_some h))
limit_positive d (pos (suc n)) h = absurd (omega (arith, eq_of_some h))
limit_positive d (negsuc n) h = absurd (cc)

head-capped :
    (max : Option ℕ) (x : Candidate) (xs : List Candidate)
    → max ≢ some 0
    → (rest : List Candidate) × (capped max (x ∷ xs) ≡ x ∷ rest)
unfolding capped
head-capped none x xs h = (xs, refl)
head-capped (some zero) x xs h = absurd (h refl)
head-capped (some (suc n)) x xs h = (take n xs, refl)

All-filter :
    (p : Credential → Bool) (P : Credential → Type 0) (cs : List Credential)
    → All P (filter p cs)
    → All (λ c. p c ≡ true → P c) cs
All-filter p P [] a = tt
All-filter p P (c ∷ cs) a = elim (Bool-cases (p c)) [
  | inl k ↦ let b : P c × All P (filter p cs) = rw k at a in (λ _. b.0, All-filter p P cs b.1)
  | inr k ↦ (λ m. absurd (ground arith), All-filter p P cs (rw k at a))
]

find_id-id : (id : Str) (cs : List Credential) (c : Credential) → find_id id cs ≡ some c → c.id ≡ id
unfolding find_id
find_id-id id [] c h = ground arith
find_id-id id (d ∷ cs) c h = elim (Bool-cases (str_eq d.id id)) [
  | inl k ↦
      let e : d ≡ c = ground arith in subst (λ (x : Credential). x.id ≡ id) e (str_eq→eq d.id id k)
  | inr k ↦ find_id-id id cs c (ground arith)
]

module _ {B : Type 0} (net : Net) (store : Bindings B) (cfg : Config) (st : State B)
    (t : Target) where
  -- Whatever pins and promotions say, Resolve offers only credentials of the vault (those with any
  -- property P that all credentials of the vault have) that pass every filter, none twice, and no
  -- more than the limit for one host.
  pub resolve_sound :
      (P : Credential → Type 0) (creds : List Credential) (out : List Candidate)
      → All P creds
      → resolve net store cfg st t (some creds) ≡ some out
      → All (λ x. P x.cred × (is_eligible net store cfg st t x.cred ≡ true)) out
        × Distinct out
        × ((n : ℕ) → limit 4 cfg.max_per_host ≡ some n → length out ≤ n)
  unfolding resolve
  resolve_sound P creds out a h =
      let Q : Credential → Type 0 = λ c. P c × (is_eligible net store cfg st t c ≡ true) in
      let eligible = rank (filter (is_eligible net store cfg st t) creds) in
      let fits : All Q eligible =
        rank-All Q _ (filter-All (is_eligible net store cfg st t) P creds a) in
      let l = ladder net store cfg st t eligible in
      let e : capped (limit 4 cfg.max_per_host) l ≡ out = eq_of_some h in
      subst
        (λ (o : List Candidate).
          All (λ x. Q x.cred) o
          × Distinct o
          × ((n : ℕ) → limit 4 cfg.max_per_host ≡ some n → length o ≤ n))
        e
        (
          capped-All Q (limit 4 cfg.max_per_host) l (
              add_ranked-All Q eligible _ fits (
                prefer-All Q promoted _ eligible _ fits
                  (prefer-All Q pinned _ eligible [] fits tt))),
          capped-Distinct (limit 4 cfg.max_per_host) l (
              add_ranked-Distinct eligible _
                (prefer-Distinct promoted _ eligible _ (prefer-Distinct pinned _ eligible [] tt))),
          λ n m. length-capped (limit 4 cfg.max_per_host) n l m,
        )

  -- With no limit, every credential of the vault that passes the filters is offered.
  pub resolve_complete :
      (creds : List Credential) (out : List Candidate)
      → limit 4 cfg.max_per_host ≡ none
      → resolve net store cfg st t (some creds) ≡ some out
      → All
          (λ c. is_eligible net store cfg st t c ≡ true → contains_candidate out c.id ≡ true)
          creds
  unfolding resolve capped
  resolve_complete creds out n h =
      let eligible = rank (filter (is_eligible net store cfg st t) creds) in
      let e : ladder net store cfg st t eligible ≡ out = ground arith in
      let Offered : Credential → Type 0 = λ c. contains_candidate out c.id ≡ true in
      All-filter (is_eligible net store cfg st t) Offered creds (
        All-rank Offered _ (
          subst (λ (o : List Candidate). All (λ c. contains_candidate o c.id ≡ true) eligible) e
            (All-add_ranked eligible _)))

  -- What pinned_id answers comes first.
  first_pinned :
      (creds : List Credential) (c : Credential) (out : List Candidate)
      → let eligible = rank (filter (is_eligible net store cfg st t) creds) in
        let id = pinned_id (learned_pin net store cfg st t) eligible t.pin in
        is_empty id ≡ false
        → find_id id eligible ≡ some c
        → resolve net store cfg st t (some creds) ≡ some out
        → (rest : List Candidate) × (out ≡ record { cred = c; reason = pinned } ∷ rest)
  unfolding resolve ladder
  first_pinned creds c out n f h =
      let eligible = rank (filter (is_eligible net store cfg st t) creds) in
      let id = pinned_id (learned_pin net store cfg st t) eligible t.pin in
      let x : Candidate = record { cred = c; reason = pinned } in
      let first : prefer pinned id eligible [] ≡ x ∷ [] =
        unfold prefer contains_candidate in rw (n, f) refl in
      let promoted_id = if cfg.disable_promotion then [] else st.promoted_id in
      let (more, second) =
        prefer_extends promoted promoted_id eligible (prefer pinned id eligible []) in
      let (others, third) =
        add_ranked_extends eligible
          (prefer promoted promoted_id eligible (prefer pinned id eligible [])) in
      let whole : ladder net store cfg st t eligible ≡ x ∷ more ++ others =
        third
        ∙ ap (λ (l : List Candidate). l ++ others)
            (second ∙ ap (λ (l : List Candidate). l ++ more) first) in
      let (rest, cut) =
        head-capped (limit 4 cfg.max_per_host) x (more ++ others)
          (limit_positive 3 cfg.max_per_host) in
      (rest, sym (eq_of_some h) ∙ ap (capped (limit 4 cfg.max_per_host)) whole ∙ cut)

  -- The credential that is wanted first: the caller's pin is its identifier, or its name if no
  -- eligible credential has that identifier; or the caller has no pin, or one that no eligible
  -- credential answers to, and the binding store has the identifier.
  pub data Wants (eligible : List Credential) (c : Credential) : Type 0 where
    by_id :
        is_empty (trim_space t.pin) ≡ false
        → find_id (trim_space t.pin) eligible ≡ some c
        → Wants eligible c
    by_name :
        is_empty (trim_space t.pin) ≡ false
        → find_id (trim_space t.pin) eligible ≡ none
        → find_name (trim_space t.pin) eligible ≡ some c
        → is_empty c.id ≡ false
        → find_id c.id eligible ≡ some c
        → Wants eligible c
    by_binding :
        (id : Str)
        → (is_empty (trim_space t.pin) ≡ true)
          ⊎ ((find_id (trim_space t.pin) eligible ≡ none)
              × (find_name (trim_space t.pin) eligible ≡ none))
        → learned_pin net store cfg st t ≡ some id
        → is_empty id ≡ false
        → find_id id eligible ≡ some c
        → Wants eligible c

  Wants-pinned :
      (eligible : List Credential) (c : Credential)
      → Wants eligible c
      → let id = pinned_id (learned_pin net store cfg st t) eligible t.pin in
        (is_empty id ≡ false) × (find_id id eligible ≡ some c)
  unfolding pinned_id match_credential
  Wants-pinned eligible c (by_id n f) =
      let e : c.id ≡ trim_space t.pin = find_id-id (trim_space t.pin) eligible c f in
      rw (n, f)
        ((
          subst (λ (z : Str). is_empty z ≡ false) (sym e) n,
          subst (λ (z : Str). find_id z eligible ≡ some c) (sym e) f,
        ))
  Wants-pinned eligible c (by_name n f g m h) = rw (n, f) (rw g (m, h))
  Wants-pinned eligible c (by_binding id (inl n) l m h) = rw (n, l) (m, h)
  Wants-pinned eligible c (by_binding id (inr (f, g)) l m h) =
      elim (Bool-cases (is_empty (trim_space t.pin))) [
        | inl n ↦ rw (n, l) (m, h)
        | inr n ↦ rw (n, f) (rw (g, l) (m, h))
      ]

  -- The caller's pin comes first among the candidates, if an eligible credential has it as its
  -- identifier or, failing that, as its name; otherwise the credential that the binding store
  -- names does, if it is eligible.
  pub resolve_pinned :
      (creds : List Credential) (c : Credential) (out : List Candidate)
      → Wants (rank (filter (is_eligible net store cfg st t) creds)) c
      → resolve net store cfg st t (some creds) ≡ some out
      → (rest : List Candidate) × (out ≡ record { cred = c; reason = pinned } ∷ rest)
  resolve_pinned creds c out w h =
      let (n, f) = Wants-pinned (rank (filter (is_eligible net store cfg st t) creds)) c w in
      first_pinned creds c out n f h
