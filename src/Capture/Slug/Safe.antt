-- ===== src/Capture/Slug/Safe.antt =====
-- internal/capture/store.go: a slug is a safe path element.
use omegacatqt.Text.Trim.{trim_space, trim, is_space}
use omegacatqt.Text.Trim.Laws.{
  head_is, last_is, empty-trim, all-trim, head-trim, last-trim, length-trim, trim_id,
}
use omegacatqt.Base.{
  true, [], ◌∷◌, refl, arith, ◌≡◌, Bool, all, not, inl, inr, some, false, zero, suc, ℕ, length,
  take, ◌≤◌, Bool-cases, ltb, ◌∙◌, length-take, List, ◌&&◌, ◌++◌, leb, subst,
}
use omegacatqt.Text.{Str, is_empty, has, str_eq, str_eq_iff, to_lower, lit, lower_byte}
use omegacatqt.Capture.Slug.{is_safe, dash_runs, shorten, is_edge, reserved, slug, avoid_reserved}

dash-safe : is_safe b'-' ≡ true
unfolding is_safe
dash-safe = refl

dash_runs-safe : (b : Bool) (s : Str) → all is_safe (dash_runs b s) ≡ true
unfolding dash_runs
dash_runs-safe b [] = refl
dash_runs-safe b (c ∷ s) = ground (arith, dash-safe, dash_runs-safe (not (is_safe c)) s)

all-take : (p : ℕ → Bool) (n : ℕ) (s : Str) → all p s ≡ true → all p (take n s) ≡ true
all-take p zero s h = refl
all-take p (suc n) [] h = refl
all-take p (suc n) (c ∷ s) h = ground (arith, all-take p n s)

head-take : (p : ℕ → Bool) (n : ℕ) (s : Str) → head_is p (take (suc n) s) ≡ head_is p s
head-take p n [] = refl
head-take p n (c ∷ s) = refl

empty-take : (n : ℕ) (s : Str) → is_empty (take (suc n) s) ≡ is_empty s
unfolding is_empty
empty-take n [] = refl
empty-take n (c ∷ s) = refl

-- The names that a directory must not have, spelled out once more.
abbrev device_names : List Str
device_names =
    lit "con"
    ∷ lit "prn"
    ∷ lit "aux"
    ∷ lit "nul"
    ∷ lit "com1"
    ∷ lit "com2"
    ∷ lit "com3"
    ∷ lit "com4"
    ∷ lit "lpt1"
    ∷ lit "lpt2"
    ∷ lit "lpt3"
    ∷ []

-- Not empty, of safe bytes only, no dot or dash at either end, at most 96 bytes long, and none of
-- the device names as a whole. Windows reserves a name with an extension too, such as con.lab, and
-- more names; those are let through.
pub record IsElement (s : Str) : Type 0 where
  pub nonempty : is_empty s ≡ false
  pub safe : all is_safe s ≡ true
  pub head : head_is is_edge s ≡ false
  pub last : last_is is_edge s ≡ false
  pub short : length s ≤ 96
  pub free : has device_names s ≡ false

record IsTrimmed (s : Str) : Type 0 where
  nonempty : is_empty s ≡ false
  safe : all is_safe s ≡ true
  head : head_is is_edge s ≡ false
  last : last_is is_edge s ≡ false

shorten-IsTrimmed : (s : Str) → IsTrimmed s → IsTrimmed (shorten s) × (length (shorten s) ≤ 96)
unfolding shorten
shorten-IsTrimmed s t = elim (Bool-cases (ltb 96 (length s))) [
  | inr k ↦ rw k (t, ground arith)
  | inl k ↦ rw k (
    record {
      nonempty =
          empty-trim is_edge (take 96 s) (head-take is_edge 95 s ∙ t.head)
          ∙ empty-take 95 s
          ∙ t.nonempty;
      safe = all-trim is_edge (take 96 s) is_safe (all-take is_safe 96 s t.safe);
      head = head-trim is_edge (take 96 s);
      last = last-trim is_edge (take 96 s);
    },
    omega (arith, length-trim is_edge (take 96 s), length-take 96 s),
  )
]

has-all : (p : Str → Bool) (l : List Str) (s : Str) → all p l ≡ true → has l s ≡ true → p s ≡ true
unfolding has
has-all p [] s h k = absurd (cc)
has-all p (t ∷ l) s h k = ground (arith, str_eq_iff t s, has-all p l s)

is_element : Str → Bool
is_element s =
    not (is_empty s)
    && all is_safe s
    && not (head_is is_edge s)
    && not (last_is is_edge s)
    && leb (length s) 96
    && not (has reserved s)

is_element-IsElement : (s : Str) → is_element s ≡ true → IsElement s
unfolding is_element
is_element-IsElement s h = ground arith

reserved_dev : all (λ s. is_element (s ++ lit "-dev")) reserved ≡ true
unfolding is_element is_empty is_safe has str_eq
reserved_dev = refl

avoid_reserved-IsElement : (s : Str) → IsTrimmed s → length s ≤ 96 → IsElement (avoid_reserved s)
unfolding avoid_reserved
avoid_reserved-IsElement s t n = elim (Bool-cases (has reserved s)) [
  | inl k ↦ rw k (
      is_element-IsElement (s ++ lit "-dev")
        (has-all (λ s. is_element (s ++ lit "-dev")) reserved s reserved_dev k))
  | inr k ↦ rw k (record {
    nonempty = t.nonempty;
    safe = t.safe;
    head = t.head;
    last = t.last;
    short = n;
    free = k;
  })
]

-- The directory name of a device is not empty, has at most 96 bytes, all of them safe, has no dot or
-- dash at either end, and is none of con, prn, aux, nul, com1 to com4 and lpt1 to lpt3.
pub slug-IsElement : (canonical s : Str) → slug canonical ≡ some s → IsElement s
unfolding slug
slug-IsElement canonical s h =
    let raw : Str = dash_runs false (to_lower (trim_space canonical)) in
    let t : Str = trim is_edge raw in
    elim (Bool-cases (is_empty t)) [
      | inl k ↦ absurd (ground arith)
      | inr k ↦
          let (a, b) = shorten-IsTrimmed t (record {
            nonempty = k;
            safe =
                all-trim is_edge raw is_safe
                  (dash_runs-safe false (to_lower (trim_space canonical)));
            head = head-trim is_edge raw;
            last = last-trim is_edge raw;
          }) in
          let e : avoid_reserved (shorten t) ≡ s = ground arith in
          subst IsElement e (avoid_reserved-IsElement (shorten t) a b)
    ]

safe_byte_space : (c : ℕ) → is_safe c ≡ true → is_space c ≡ false
unfolding is_safe
safe_byte_space c h = ground arith

safe_byte_lower : (c : ℕ) → is_safe c ≡ true → lower_byte c ≡ c
unfolding is_safe lower_byte
safe_byte_lower c h = ground arith

head-safe : (s : Str) → all is_safe s ≡ true → head_is is_space s ≡ false
head-safe [] h = refl
head-safe (c ∷ s) h = ground (arith, safe_byte_space c)

last-safe : (s : Str) → all is_safe s ≡ true → last_is is_space s ≡ false
last-safe [] h = refl
last-safe (c ∷ s) h = ground (arith, safe_byte_space c, last-safe s)

to_lower-safe : (s : Str) → all is_safe s ≡ true → to_lower s ≡ s
unfolding to_lower
to_lower-safe [] h = refl
to_lower-safe (c ∷ s) h = ground (arith, safe_byte_lower c, to_lower-safe s)

dash_runs_id : (b : Bool) (s : Str) → all is_safe s ≡ true → dash_runs b s ≡ s
unfolding dash_runs
dash_runs_id b [] h = refl
dash_runs_id b (c ∷ s) h = ground (arith, dash_runs_id (not (is_safe c)) s)

element-slug : (s : Str) → IsElement s → slug s ≡ some s
unfolding slug
element-slug s e =
    let trimmed : trim_space s ≡ s =
      unfold trim_space in trim_id is_space s (head-safe s e.safe) (last-safe s e.safe) in
    let short : shorten s ≡ s =
      unfold shorten in
      rw (let k : ltb 96 (length s) ≡ false = ground (arith, e.short) in k) refl in
    let free : avoid_reserved s ≡ s = unfold avoid_reserved in rw e.free refl in
    rw
      (
        trimmed,
        to_lower-safe s e.safe,
        dash_runs_id false s e.safe,
        trim_id is_edge s e.head e.last,
        e.nonempty,
        short,
        free,
      )
      refl

-- A slug is its own slug, so a device directory's name leads back to the directory.
pub slug-slug : (canonical s : Str) → slug canonical ≡ some s → slug s ≡ some s
slug-slug canonical s h = element-slug s (slug-IsElement canonical s h)
