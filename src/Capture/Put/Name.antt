-- ===== src/Capture/Put/Name.antt =====
-- internal/capture/store.go: the loop that looks for a free file name ends at a free one.
use omegacatqt.Capture.History.{txt}
use omegacatqt.Text.Decimal.{itoa, itoa_injective}
use omegacatqt.Text.Match.{has_suffix, append-has_suffix}
use mathlib.Core.List.{append_cancel_left, append_cancel_right}
use omegacatqt.Base.{
  ◌<◌, ◌≤◌, inl, inr, true, false, [], ◌∷◌, zero, suc, refl, arith, ◌≡◌, ◌≢◌, List, ℕ, ◌++◌, length,
  if◌then◌else◌, ap, Bool-cases, length-append, sym, ◌∙◌, Bool, ◌&&◌, &&-true,
}
use omegacatqt.Text.{Str, str_eq, lit, str_eq_iff}
use omegacatqt.Capture.Put.{name_at, file_exists, choose, fresh_name, is_file}

name_at-txt : (stamp : Str) (i : ℕ) → has_suffix (name_at stamp i) txt ≡ true
unfolding name_at
name_at-txt stamp zero = append-has_suffix stamp txt
name_at-txt stamp (suc i) = append-has_suffix (stamp ++ lit "-" ++ itoa (suc i)) txt

pub fresh_name-txt :
    (stats : Str → Bool) (stamp : Str) (files : List (Str × Str))
    → has_suffix (fresh_name stats stamp files) txt ≡ true
unfolding fresh_name
fresh_name-txt stats stamp files =
    name_at-txt stamp (choose stats (suc (length files)) stamp 0 files)

stamp-ne : (stamp s : Str) → stamp ≢ stamp ++ lit "-" ++ s
stamp-ne stamp s e =
    omega (arith, ap length e, length-append (stamp ++ lit "-") s, length-append stamp (lit "-"))

-- The names of one second are distinct.
name_at_injective : (stamp : Str) (i j : ℕ) → name_at stamp i ≡ name_at stamp j → i ≡ j
unfolding name_at
name_at_injective stamp zero zero e = refl
name_at_injective stamp zero (suc j) e = absurd (
    stamp-ne stamp (itoa (suc j))
      (append_cancel_right stamp (stamp ++ lit "-" ++ itoa (suc j)) txt e))
name_at_injective stamp (suc i) zero e = absurd (
    stamp-ne stamp (itoa (suc i))
      (sym (append_cancel_right (stamp ++ lit "-" ++ itoa (suc i)) stamp txt e)))
name_at_injective stamp (suc i) (suc j) e = itoa_injective (suc i) (suc j) (
    append_cancel_left (stamp ++ lit "-") _ _ (
      append_cancel_right (stamp ++ lit "-" ++ itoa (suc i)) (stamp ++ lit "-" ++ itoa (suc j)) txt
        e))

-- The files without those of one name.
without : Str → List (Str × Str) → List (Str × Str)
without n [] = []
without n ((m, c) ∷ fs) = let rest = without n fs in if str_eq m n then rest else (m, c) ∷ rest

length-without :
    (n : Str) (fs : List (Str × Str))
    → (length (without n fs) ≤ length fs)
      × (is_file fs n ≡ true → length (without n fs) < length fs)
unfolding without is_file
length-without n [] = ground arith
length-without n ((m, c) ∷ fs) = ground (arith, length-without n fs)

is_file-without :
    (n k : Str) (fs : List (Str × Str)) → n ≢ k → is_file (without n fs) k ≡ is_file fs k
unfolding without is_file
is_file-without n k [] h = refl
is_file-without n k ((m, c) ∷ fs) h =
    ground (arith, is_file-without n k fs h, str_eq_iff m n, str_eq_iff m k)

module _ (stats : Str → Bool) where
  exists-without :
      (n k : Str) (fs : List (Str × Str))
      → n ≢ k
      → file_exists stats (without n fs) k ≡ file_exists stats fs k
  unfolding file_exists
  exists-without n k fs h = ground (arith, is_file-without n k fs h)

  -- The loop asks only for names from its counter on.
  choose-agrees :
      (f : ℕ) (stamp : Str) (i : ℕ) (fs gs : List (Str × Str))
      → ((j : ℕ)
          → i ≤ j
          → file_exists stats fs (name_at stamp j) ≡ file_exists stats gs (name_at stamp j))
      → choose stats f stamp i fs ≡ choose stats f stamp i gs
  unfolding choose
  choose-agrees zero stamp i fs gs h = refl
  choose-agrees (suc f) stamp i fs gs h =
      rw (h i (omega arith), choose-agrees f stamp (suc i) fs gs (λ j k. h j (omega arith)))

  choose-ge : (f : ℕ) (stamp : Str) (i : ℕ) (fs : List (Str × Str)) → i ≤ choose stats f stamp i fs
  unfolding choose
  choose-ge zero stamp i fs = omega arith
  choose-ge (suc f) stamp i fs = ground (arith, choose-ge f stamp (suc i) fs)

  choose-free :
      (f : ℕ) (stamp : Str) (i : ℕ) (fs : List (Str × Str))
      → length fs < f
      → file_exists stats fs (name_at stamp (choose stats f stamp i fs)) ≡ false
  unfolding choose
  choose-free zero stamp i fs h = elim h [ ]
  choose-free (suc f) stamp i fs h = elim (Bool-cases (file_exists stats fs (name_at stamp i))) [
    | inr k ↦ rw k k
    | inl k ↦
        let n : Str = name_at stamp i in
        let apart : (j : ℕ) → suc i ≤ j → n ≢ name_at stamp j =
          λ j le e. absurd (omega (arith, name_at_injective stamp i j e)) in
        let same =
          choose-agrees f stamp (suc i) fs (without n fs)
            (λ j le. sym (exists-without n (name_at stamp j) fs (apart j le))) in
        let there : is_file fs n ≡ true =
          unfold file_exists in (&&-true (stats n) (is_file fs n) k).1 in
        let free =
          choose-free f stamp (suc i) (without n fs)
            (omega (arith, (length-without n fs).1 there)) in
        let late = choose-ge f stamp (suc i) (without n fs) in
        rw (k, same) (sym (exists-without n _ fs (apart _ late)) ∙ free)
  ]

  -- The loop over names ends, at a name that fileExists does not find.
  pub fresh_name-free :
      (stamp : Str) (files : List (Str × Str))
      → file_exists stats files (fresh_name stats stamp files) ≡ false
  unfolding fresh_name
  fresh_name-free stamp files = choose-free (suc (length files)) stamp 0 files (omega arith)

  -- If os.Stat answers for the name, no file has it.
  pub fresh_name_new :
      (stamp : Str) (files : List (Str × Str))
      → stats (fresh_name stats stamp files) ≡ true
      → is_file files (fresh_name stats stamp files) ≡ false
  fresh_name_new stamp files h =
      let free : (stats (fresh_name stats stamp files)
            && is_file files (fresh_name stats stamp files))
          ≡ false =
        unfold file_exists in fresh_name-free stamp files in
      ground (arith, free)
