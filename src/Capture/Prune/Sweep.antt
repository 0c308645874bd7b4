-- ===== src/Capture/Prune/Sweep.antt =====
-- internal/capture/store.go: what pruneType leaves on disk, whatever the operating system refuses.
use omegacatqt.Text.Assoc.{lookup}
use omegacatqt.Base.{
  ◌≡◌, ℕ, true, List, Bool-cases, All, false, Bool, ltb, ◌⊎◌, inl, inr, none, [], ◌∷◌, refl, arith,
  ◌∙◌, All-map₂, &&-true, drop, length, ◌-◌, ap, ◌+◌, sym, drop-drop, subst, All-drop, ◌<◌, ◌≢◌,
  ◌++◌, ◌==◌, leb, if◌then◌else◌, length-append, take_append_length,
}
use omegacatqt.Text.{Str, has, is_empty, str_eq→eq, lit, str_eq}
use omegacatqt.Text.Match.{has_suffix, trim_suffix, append-has_suffix}
use omegacatqt.Capture.History.{TypeDir, txt, parsed_json, IsStored, IsReadable, HistoryEntry}
use omegacatqt.Capture.Prune.{
  PruneOs, scan, is_swept, sweep, refused, sweep_result, sweep_dir, prune_entries, prune_type,
  is_nil,
}
use omegacatqt.Capture.Prune.Window.{IsNamed, scan-IsNamed, versions, scan-versions, scan-has-last}

-- No name is both a capture's and a parse's: they end in different bytes.
pub txt-not-parsed : (s : Str) → has_suffix s txt ≡ true → has_suffix s parsed_json ≡ false
unfolding has_suffix
txt-not-parsed s h = elim (Bool-cases (has_suffix s parsed_json)) [
  | inr k ↦ k
  | inl k ↦
      let txt_end : str_eq (drop (length s - 4) s) txt ≡ true =
        (&&-true (leb 4 (length s)) _ h).1 in
      let long : leb 12 (length s) ≡ true =
        (&&-true (leb 12 (length s)) (str_eq (drop (length s - 12) s) parsed_json) k).0 in
      let json_end : str_eq (drop (length s - 12) s) parsed_json ≡ true =
        (&&-true (leb 12 (length s)) _ k).1 in
      let end : drop 8 (drop (length s - 12) s) ≡ lit "json" =
        ap (drop 8) (str_eq→eq (drop (length s - 12) s) parsed_json json_end) in
      let n : length s - 12 + 8 ≡ length s - 4 = ground arith in
      let four : drop (length s - 4) s ≡ lit "json" =
        ap (λ (n : ℕ). drop n s) (sym n) ∙ sym (drop-drop 8 (length s - 12) s) ∙ end in
      let clash : lit ".txt" ≡ lit "json" =
        sym (str_eq→eq (drop (length s - 4) s) txt txt_end) ∙ four in
      absurd (cc)
]

survivor-stays :
    (v : List Str) (s : Str) → has_suffix s txt ≡ true → has v s ≡ true → is_swept v s ≡ false
unfolding is_swept
survivor-stays v s h k = rw (txt-not-parsed s h, h, k)

lookup-sweep :
    (v : List Str) (removes : Str → Bool) (files : List (Str × Str)) (s : Str)
    → is_swept v s ≡ false
    → lookup (sweep v removes files) s ≡ lookup files s
unfolding sweep lookup
lookup-sweep v removes [] s h = refl
lookup-sweep v removes ((n, c) ∷ fs) s h =
    ground (arith, lookup-sweep v removes fs s, str_eq→eq n s)

IsStored-sweep :
    (digest : Str → Str) (v : List Str) (removes : Str → Bool) (files : List (Str × Str))
    (e : HistoryEntry)
    → IsNamed v e
    → (is_empty e.file ≡ true) ⊎ IsStored digest files e
    → (is_empty e.file ≡ true) ⊎ IsStored digest (sweep v removes files) e
IsStored-sweep digest v removes files e n (inl h) = inl h
IsStored-sweep digest v removes files e (inl n) (inr h) = inl n
IsStored-sweep digest v removes files e (inr n) (inr h) = inr (record {
  content = h.content;
  read = lookup-sweep v removes files e.file (survivor-stays v e.file h.named n) ∙ h.read;
  sha = h.sha;
  named = h.named;
})

sweep_dir-IsReadable :
    (digest : Str → Str) (os : PruneOs) (v : List Str) (d : TypeDir)
    → All (IsNamed v) d.history
    → IsReadable digest d
    → IsReadable digest (sweep_dir os v d).0
unfolding sweep_dir
sweep_dir-IsReadable digest os v d n r = elim (Bool-cases os.reads_dir) [
  | inr h ↦ rw h r
  | inl h ↦ rw h (
      All-map₂ (IsNamed v) (λ e. (is_empty e.file ≡ true) ⊎ IsStored digest d.files e)
        (λ e. (is_empty e.file ≡ true) ⊎ IsStored digest (sweep v os.removes d.files) e)
        (λ e. IsStored-sweep digest v os.removes d.files e) d.history n r)
]

prune_entries-IsReadable :
    (digest : Str → Str) (os : PruneOs) (keep : ℕ) (d : TypeDir)
    → IsReadable digest d
    → IsReadable digest (prune_entries os keep d).0
unfolding prune_entries
prune_entries-IsReadable digest os keep d r =
    let (survive, cut) = scan keep d.history in
    let n = scan-IsNamed keep d.history in
    elim (Bool-cases (ltb 0 cut)) [
      | inr h ↦
          let z : cut ≡ 0 = ground arith in
          rw h (
            sweep_dir-IsReadable digest os survive d
              (subst (λ k. All (IsNamed survive) (drop k d.history)) z n) r)
      | inl h ↦
          let t : TypeDir = record d { history = drop cut d.history } in
          rw h (elim (Bool-cases os.rewrites_history) [
            | inr k ↦ rw k r
            | inl k ↦ rw k (
                sweep_dir-IsReadable digest os survive t n (
                  All-drop (λ e. (is_empty e.file ≡ true) ⊎ IsStored digest d.files e) cut d.history
                    r))
          ])
    ]

-- Whatever a call of the operating system answers, a pruned directory still has, on disk and
-- intact, every version that its history names.
pub prune_type-IsReadable :
    (digest : Str → Str) (os : PruneOs) (keep : ℕ) (d : TypeDir)
    → IsReadable digest d
    → IsReadable digest (prune_type os keep d).0
unfolding prune_type
prune_type-IsReadable digest os keep d r =
    ground (arith, prune_entries-IsReadable digest os keep d r)

sweep_result-nil : (names : List Str) → sweep_result names ≡ none → names ≡ []
unfolding sweep_result
sweep_result-nil [] h = refl
sweep_result-nil (n ∷ ns) h = ground arith

-- A sweep that removed all it wanted to has left none of it.
sweep-gone :
    (v : List Str) (removes : Str → Bool) (files : List (Str × Str)) (s : Str)
    → refused v removes files ≡ []
    → is_swept v s ≡ true
    → lookup (sweep v removes files) s ≡ none
unfolding sweep refused lookup
sweep-gone v removes [] s h k = refl
sweep-gone v removes ((n, c) ∷ fs) s h k = elim (Bool-cases (is_swept v n)) [
  | inr m ↦
      let e : str_eq n s ≡ false = elim (Bool-cases (str_eq n s)) [
        | inr q ↦ q
        | inl q ↦
            let w : is_swept v s ≡ false =
              subst (λ (z : Str). is_swept v z ≡ false) (str_eq→eq n s q) m in
            ground arith
      ] in
      rw m (rw e (sweep-gone v removes fs s (rw m at h) k))
  | inl m ↦ elim (Bool-cases (removes n)) [
    | inl q ↦ rw (m, q) (sweep-gone v removes fs s (rw (m, q) at h) k)
    | inr q ↦ absurd (ground arith)
  ]
]

-- What is on disk after a prune, against the versions that the history names: a capture is kept
-- with its content exactly if it is one of them, a parse exactly if its capture is, and every
-- other file is kept.
pub record Kept (v : List Str) (before after : List (Str × Str)) : Type 0 where
  pub captures :
      (n : Str)
      → has_suffix n txt ≡ true
      → lookup after n ≡ (if has v n then lookup before n else none)
  pub parses :
      (n : Str)
      → lookup after (n ++ parsed_json)
        ≡ (if has v (n ++ txt) then lookup before (n ++ parsed_json) else none)
  pub others :
      (n : Str)
      → has_suffix n txt ≡ false
      → has_suffix n parsed_json ≡ false
      → lookup after n ≡ lookup before n

sweep-exact :
    (v : List Str) (removes : Str → Bool) (files : List (Str × Str)) (s : Str)
    → refused v removes files ≡ []
    → lookup (sweep v removes files) s ≡ (if is_swept v s then none else lookup files s)
sweep-exact v removes files s h = elim (Bool-cases (is_swept v s)) [
  | inl k ↦ rw k (sweep-gone v removes files s h k)
  | inr k ↦ rw k (lookup-sweep v removes files s k)
]

trim_suffix-append : (n : Str) → trim_suffix (n ++ parsed_json) parsed_json ≡ n
unfolding trim_suffix
trim_suffix-append n =
    let l : length (n ++ parsed_json) - 12 ≡ length n =
      omega (arith, length-append n parsed_json) in
    rw (append-has_suffix n parsed_json) (rw l (take_append_length n parsed_json))

sweep-Kept :
    (v : List Str) (removes : Str → Bool) (files : List (Str × Str))
    → refused v removes files ≡ []
    → Kept v files (sweep v removes files)
unfolding is_swept
sweep-Kept v removes files h = record {
  captures =
      λ n t. (let e = sweep-exact v removes files n h in ground (arith, e, txt-not-parsed n t));
  parses = λ n.
      (let e = sweep-exact v removes files (n ++ parsed_json) h in
        let p : has_suffix (n ++ parsed_json) parsed_json ≡ true =
          append-has_suffix n parsed_json in
        let q : trim_suffix (n ++ parsed_json) parsed_json ≡ n = trim_suffix-append n in
        let w : has v (trim_suffix (n ++ parsed_json) parsed_json ++ txt) ≡ has v (n ++ txt) =
          ap (λ (z : Str). has v (z ++ txt)) q in
        ground (arith, e, p, w));
  others = λ n t p. (let e = sweep-exact v removes files n h in ground (arith, e));
}

prune_entries_sweeps :
    (os : PruneOs) (keep : ℕ) (d : TypeDir)
    → (prune_entries os keep d).1 ≡ none
    → ((prune_entries os keep d).0.history ≡ drop (scan keep d.history).1 d.history)
      × ((prune_entries os keep d).0.files ≡ sweep (scan keep d.history).0 os.removes d.files)
      × (refused (scan keep d.history).0 os.removes d.files ≡ [])
unfolding prune_entries sweep_dir
prune_entries_sweeps os keep d h =
    ground (arith, sweep_result-nil (refused (scan keep d.history).0 os.removes d.files))

prune_type-runs :
    (os : PruneOs) (keep : ℕ) (d : TypeDir)
    → 0 < keep
    → d.history ≢ []
    → (prune_type os keep d).1 ≡ none
    → prune_type os keep d ≡ prune_entries os keep d
unfolding prune_type is_nil
prune_type-runs os keep d p q h = ground arith

-- A prune to at least one version, of a history that is not empty, that reports no error has kept
-- exactly the window: the history is what the cut leaves, a capture is on disk, with its content,
-- exactly if it was there and this history names it, its parse exactly if it was there and the
-- history names the capture, and every other file is as it was.
pub prune_type-exact :
    (os : PruneOs) (keep : ℕ) (d : TypeDir)
    → 0 < keep
    → d.history ≢ []
    → (prune_type os keep d).1 ≡ none
    → ((prune_type os keep d).0.history ≡ drop (scan keep d.history).1 d.history)
      × Kept (versions (prune_type os keep d).0.history) d.files (prune_type os keep d).0.files
prune_type-exact os keep d p q h =
    let run = prune_type-runs os keep d p q h in
    let (a, f, r) = prune_entries_sweeps os keep d (rw run at h) in
    let k = sweep-Kept (scan keep d.history).0 os.removes d.files r in
    rw run (
      a,
      subst (λ v. Kept v d.files (prune_entries os keep d).0.files)
          (scan-versions keep d.history ∙ ap versions (sym a))
          (subst (Kept (scan keep d.history).0 d.files) (sym f) k),
    )

-- A prune keeps, with its content, the newest capture.
pub lookup-prune_type-last :
    (os : PruneOs) (keep : ℕ) (es : List HistoryEntry) (e : HistoryEntry) (d : TypeDir)
    → d.history ≡ es ++ e ∷ []
    → is_empty e.file ≡ false
    → has_suffix e.file txt ≡ true
    → lookup (prune_type os keep d).0.files e.file ≡ lookup d.files e.file
unfolding prune_type prune_entries sweep_dir
lookup-prune_type-last os keep es e d h k t = elim (Bool-cases (keep == 0)) [
  | inl z ↦ rw z refl
  | inr z ↦
      let v : has (scan keep d.history).0 e.file ≡ true =
        rw h (scan-has-last keep es e (ground arith) k) in
      ground (
        arith,
        lookup-sweep (scan keep d.history).0 os.removes d.files e.file
            (survivor-stays (scan keep d.history).0 e.file t v),
      )
]
