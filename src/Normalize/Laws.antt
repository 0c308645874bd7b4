-- ===== src/Normalize/Laws.antt =====
-- The functions on names: what their results look like, and the symmetry of SameDevice.
use omegacatqt.Text.Match.{split, append-has_suffix}
use omegacatqt.Text.Match.{trim_suffix, has_suffix, has_suffix-split}
use omegacatqt.Text.{str_eq, is_empty, Str}
use omegacatqt.Normalize.{
  is_label_prefix, Ip, same_device, identifier, strip_one, strip_suffixes, suffix_of,
}
use omegacatqt.Base.{
  inl, inr, true, false, [], ◌∷◌, refl, arith, ◌≡◌, List, length, ◌⊎◌, Bool-cases, ◌++◌, ◌≢◌, All,
  ap, subst, sym,
}

str_eq_comm : (s t : Str) → str_eq s t ≡ str_eq t s
unfolding str_eq
str_eq_comm [] [] = refl
str_eq_comm [] (d ∷ t) = refl
str_eq_comm (c ∷ s) [] = refl
str_eq_comm (c ∷ s) (d ∷ t) = ground (arith, str_eq_comm s t)

-- The suffix is empty, or the name does not end in a dot and the suffix.
abbrev pub Misses : Str → Str → Type 0
Misses n s = (is_empty (suffix_of s) ≡ true) ⊎ ((rest : Str) → rest ++ (b'.' ∷ suffix_of s) ≢ n)

-- The first suffix that the name ends in is gone, with its dot, or there is none.
abbrev pub Stripped : Str → List Str → Str → Type 0
Stripped n ss result =
    (All (Misses n) ss × (result ≡ n))
    ⊎ ((earlier : List Str) × (s : Str) × (later : List Str) × (ss ≡ earlier ++ s ∷ later)
        × All (Misses n) earlier
        × (is_empty (suffix_of s) ≡ false)
        × (result ++ (b'.' ∷ suffix_of s) ≡ n))

Stripped-later :
    (n s : Str) (ss : List Str) (result : Str)
    → Misses n s
    → Stripped n ss result
    → Stripped n (s ∷ ss) result
Stripped-later n s ss result m (inl (a, e)) = inl ((m, a), e)
Stripped-later n s ss result m (inr (earlier, t, later, e, a, f, r)) =
    inr (s ∷ earlier, t, later, ap (◌∷◌ s) e, (m, a), f, r)

no_suffix-Misses : (n s : Str) → has_suffix n (b'.' ∷ suffix_of s) ≡ false → Misses n s
no_suffix-Misses n s h = inr (λ rest e.
    let there : has_suffix (rest ++ (b'.' ∷ suffix_of s)) (b'.' ∷ suffix_of s) ≡ true =
      append-has_suffix rest (b'.' ∷ suffix_of s) in
    let here : has_suffix n (b'.' ∷ suffix_of s) ≡ true =
      subst (λ (z : Str). has_suffix z (b'.' ∷ suffix_of s) ≡ true) e there in
    ground arith)

trim_suffix-append : (n p : Str) → has_suffix n p ≡ true → trim_suffix n p ++ p ≡ n
unfolding trim_suffix
trim_suffix-append n p h = rw h (has_suffix-split n p h)

strip_one-Stripped : (n : Str) (ss : List Str) → Stripped n ss (strip_one n ss)
unfolding strip_one
strip_one-Stripped n [] = inl (tt, refl)
strip_one-Stripped n (s ∷ ss) =
    let P : Str → Type 0 = Stripped n (s ∷ ss) in
    let later : Misses n s → P (strip_one n ss) =
      λ m. Stripped-later n s ss (strip_one n ss) m (strip_one-Stripped n ss) in
    let suffix = b'.' ∷ suffix_of s in
    elim (Bool-cases (is_empty (suffix_of s))) [
      | inl e ↦
          let skip : strip_one n (s ∷ ss) ≡ strip_one n ss = rw e refl in
          subst P (sym skip) (later (inl e))
      | inr e ↦ elim (Bool-cases (has_suffix n suffix)) [
        | inl h ↦
            let cut : strip_one n (s ∷ ss) ≡ trim_suffix n suffix = rw (e, h) refl in
            subst P (sym cut) (inr ([], s, ss, refl, tt, e, trim_suffix-append n suffix h))
        | inr h ↦
            let skip : strip_one n (s ∷ ss) ≡ strip_one n ss = rw (e, h) refl in
            subst P (sym skip) (later (no_suffix-Misses n s h))
      ]
    ]

-- StripSuffixes takes off the first of the suffixes that the identifier ends in after a dot, with
-- the dot, and returns what stands before; if the identifier ends in none, it returns it whole.
-- An empty suffix counts as none.
pub strip_suffixes_lem :
    (name : Str) (suffixes : List Str)
    → (All (Misses (identifier name)) suffixes × (strip_suffixes name suffixes ≡ identifier name))
      ⊎ ((earlier : List Str) × (s : Str) × (later : List Str) × (suffixes ≡ earlier ++ s ∷ later)
          × All (Misses (identifier name)) earlier
          × (is_empty (suffix_of s) ≡ false)
          × (strip_suffixes name suffixes ++ (b'.' ∷ suffix_of s) ≡ identifier name))
unfolding strip_suffixes
strip_suffixes_lem name suffixes = strip_one-Stripped (identifier name) suffixes

is_label_prefix_comm :
    (l m : List Str) → length l ≡ length m → is_label_prefix l m ≡ is_label_prefix m l
unfolding is_label_prefix
is_label_prefix_comm [] [] e = refl
is_label_prefix_comm [] (x ∷ m) e = ground arith
is_label_prefix_comm (x ∷ l) [] e = ground arith
is_label_prefix_comm (x ∷ l) (y ∷ m) e =
    ground (arith, str_eq_comm x y, is_label_prefix_comm l m (omega arith))

module _ {A : Type 0} (ip : Ip A) where
  -- SameDevice does not depend on the order of the two names.
  pub same_device_comm : (a b : Str) → same_device ip a b ≡ same_device ip b a
  unfolding same_device
  same_device_comm a b =
      let n : str_eq (identifier a) (identifier b) ≡ str_eq (identifier b) (identifier a) =
        str_eq_comm (identifier a) (identifier b) in
      let la = split b'.' (identifier a) in
      let lb = split b'.' (identifier b) in
      let m : length la ≡ length lb → is_label_prefix la lb ≡ is_label_prefix lb la =
        is_label_prefix_comm la lb in
      ground (arith, n, m)
