-- ===== src/Capture/Put/Reads.antt =====
-- internal/capture/store.go: what Put leaves on disk: every version that the history names, and
-- the content that was stored.
use omegacatqt.Capture.Prune.Sweep.{prune_type-IsReadable}
use omegacatqt.Text.Assoc.{lookup, insert, lookup-insert}
use omegacatqt.Base.{
  inl, inr, some, none, true, false, [], ◌∷◌, refl, arith, ◌≡◌, List, ℕ, ◌⊎◌, All-append, All,
  All-map, Option-cases, Bool-cases, subst, ◌∙◌, Option,
}
use omegacatqt.Text.{Str, str_eq, str_eq_iff, is_empty, str_eq_refl, str_eq→eq}
use omegacatqt.Capture.History.{HistoryEntry, TypeDir, IsStored, IsReadable}
use omegacatqt.Capture.Put.Name.{fresh_name_new, fresh_name-txt}
use omegacatqt.Capture.Put.{
  appends, fails_write, fails_sync, is_file, fresh_name, put_type, put_new, put_unchanged,
  put_after, append_history, entry_of, AppendOs, last_stored, PutOs,
}

pub lookup-free : (fs : List (Str × Str)) (n : Str) → is_file fs n ≡ false → lookup fs n ≡ none
unfolding lookup is_file
lookup-free [] n h = refl
lookup-free ((i, b) ∷ fs) n h = ground (arith, lookup-free fs n)

lookup-insert_free :
    (fs : List (Str × Str)) (n c m : Str) {a : Str}
    → is_file fs n ≡ false
    → lookup fs m ≡ some a
    → lookup (insert n c fs) m ≡ some a
lookup-insert_free fs n c m h k =
    ground (arith, str_eq_iff n m, lookup-free fs n h, lookup-insert n m c fs)

-- An entry that a reader can use.
abbrev pub Usable : (Str → Str) → List (Str × Str) → HistoryEntry → Type 0
Usable digest files e = (is_empty e.file ≡ true) ⊎ IsStored digest files e

Usable-insert :
    (digest : Str → Str) (fs : List (Str × Str)) (n c : Str) (e : HistoryEntry)
    → is_file fs n ≡ false
    → Usable digest fs e
    → Usable digest (insert n c fs) e
Usable-insert digest fs n c e h (inl u) = inl u
Usable-insert digest fs n c e h (inr u) = inr (record {
  content = u.content;
  read = lookup-insert_free fs n c e.file h u.read;
  sha = u.sha;
  named = u.named;
})

append_history-IsReadable :
    (digest : Str → Str) (a : AppendOs) (e : HistoryEntry) (d : TypeDir)
    → IsReadable digest d
    → Usable digest d.files e
    → IsReadable digest (append_history a e d).0
unfolding append_history
append_history-IsReadable digest appends e d r u =
    All-append (Usable digest d.files) d.history (e ∷ []) r (u, tt)
append_history-IsReadable digest fails_write e d r u = r
append_history-IsReadable digest fails_sync e d r u =
    All-append (Usable digest d.files) d.history (e ∷ []) r (u, tt)

-- lastStored answers an entry of the history that names a file.
pub last_stored-All :
    (P : HistoryEntry → Type 0) (es : List HistoryEntry) (x : HistoryEntry)
    → last_stored es ≡ some x
    → All P es
    → P x × (is_empty x.file ≡ false)
unfolding last_stored
last_stored-All P [] x h a = absurd (cc)
last_stored-All P (e ∷ newer) x h a = elim (Option-cases (last_stored newer)) [
  | inr (y, k) ↦ last_stored-All P newer x (ground arith) a.1
  | inl k ↦ elim (Bool-cases (is_empty e.file)) [
    | inl z ↦ absurd (ground arith)
    | inr z ↦
        let q : e ≡ x = ground arith in subst (λ y. P y × (is_empty y.file ≡ false)) q (a.0, z)
  ]
]

module _ (digest : Str → Str) (format : ℕ → Str) where
  put_new-IsReadable :
      (os : PutOs) (command : Str) (at : ℕ) (content : Str) (keep : ℕ) (d : TypeDir)
      → ((n : Str) → os.stats n ≡ true)
      → IsReadable digest d
      → IsReadable digest (put_new digest format os command at content keep d).0
  unfolding put_new
  put_new-IsReadable os command at content keep d q r =
      let name = fresh_name os.stats (format at) d.files in
      let e = entry_of digest command at content name false in
      let stored : TypeDir = record d { files = insert name content d.files } in
      let free = fresh_name_new os.stats (format at) d.files (q name) in
      let r₁ : IsReadable digest stored =
        All-map (Usable digest d.files) (Usable digest stored.files)
          (λ x. Usable-insert digest d.files name content x free) d.history r in
      let u : Usable digest stored.files e =
        unfold entry_of in
        inr (record {
          content = content;
          read = rw (lookup-insert name name content d.files, str_eq_refl name) refl;
          sha = refl;
          named = fresh_name-txt os.stats (format at) d.files;
        }) in
      let r₂ = append_history-IsReadable digest os.append e stored r₁ u in
      let r₃ =
        prune_type-IsReadable digest os.prune keep (append_history os.append e stored).0 r₂ in
      elim (Bool-cases os.writes_file) [
        | inr k ↦ rw k r
        | inl k ↦ elim (Bool-cases (append_history os.append e stored).1) [
          | inr m ↦ rw (k, m) r₂
          | inl m ↦ rw (k, m) r₃
        ]
      ]

  put_unchanged-IsReadable :
      (os : PutOs) (command : Str) (at : ℕ) (content : Str) (x : HistoryEntry) (d : TypeDir)
      → IsReadable digest d
      → Usable digest d.files x
      → x.sha256 ≡ digest content
      → IsReadable digest (put_unchanged digest os command at content x.file d).0
  unfolding put_unchanged entry_of
  put_unchanged-IsReadable os command at content x d r (inl u) s =
      append_history-IsReadable digest os.append _ d r (inl u)
  put_unchanged-IsReadable os command at content x d r (inr u) s =
      append_history-IsReadable digest os.append _ d r
        (inr (record { content = u.content; read = u.read; sha = u.sha ∙ s; named = u.named }))

  put_after-IsReadable :
      (last : Option HistoryEntry) (os : PutOs) (command : Str) (at : ℕ) (content : Str) (keep : ℕ)
      (d : TypeDir)
      → last_stored d.history ≡ last
      → ((n : Str) → os.stats n ≡ true)
      → IsReadable digest d
      → IsReadable digest (put_after digest format last os command at content keep d).0
  unfolding put_after
  put_after-IsReadable none os command at content keep d n q r =
      put_new-IsReadable os command at content keep d q r
  put_after-IsReadable (some x) os command at content keep d n q r =
      elim (Bool-cases (str_eq x.sha256 (digest content))) [
        | inr m ↦ rw m (put_new-IsReadable os command at content keep d q r)
        | inl m ↦ rw m (
            put_unchanged-IsReadable os command at content x d r
              (last_stored-All (Usable digest d.files) d.history x n r).0 (str_eq→eq _ _ m))
      ]

  -- If os.Stat answers for the files that are there, and whatever the operating system answers to
  -- the other calls, every version that the history names is on disk afterwards, under its recorded
  -- digest, if it was before, whether Put fails or not.
  pub put_type-IsReadable :
      (os : PutOs) (command : Str) (at : ℕ) (content : Str) (keep : ℕ) (d : TypeDir)
      → ((n : Str) → os.stats n ≡ true)
      → IsReadable digest d
      → IsReadable digest (put_type digest format os command at content keep d).0
  unfolding put_type
  put_type-IsReadable os command at content keep d q r = elim (Bool-cases os.reads_history) [
    | inr k ↦ simp k r
    | inl k ↦
        simp k (put_after-IsReadable (last_stored d.history) os command at content keep d refl q r)
  ]
