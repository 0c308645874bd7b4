-- ===== src/Capture/Put/Stores.antt =====
-- internal/capture/store.go: a Put that reports success has the content on disk under the name
-- that it returns, and an unchanged capture writes no file.
use omegacatqt.Capture.Prune.Sweep.{lookup-prune_type-last}
use omegacatqt.Capture.Put.Reads.{lookup-free, Usable, last_stored-All}
use omegacatqt.Capture.Prune.{PruneOs, prune_type}
use omegacatqt.Text.Assoc.{lookup, insert, lookup-insert}
use omegacatqt.Text.Match.{has_suffix}
use omegacatqt.Base.{
  inl, inr, some, none, true, false, [], ◌∷◌, refl, arith, ◌≡◌, ℕ, ◌++◌, ◌∙◌, Bool-cases, ap, sym,
  subst, Option, List, Bool,
}
use omegacatqt.Text.{Str, str_eq, is_empty, str_eq_refl, str_eq→eq}
use omegacatqt.Capture.History.{HistoryEntry, TypeDir, txt, IsStored, IsReadable}
use omegacatqt.Capture.Put.Name.{fresh_name_new, fresh_name-txt}
use omegacatqt.Capture.Put.{
  appends, PutOs, put_type, put_new, put_unchanged, put_after, entry_of, artifact_of, fresh_name,
  ok, PutResult, Artifact, last_stored,
}

txt-not-empty : (s : Str) → has_suffix s txt ≡ true → is_empty s ≡ false
unfolding has_suffix is_empty
txt-not-empty [] h = absurd (cc)
txt-not-empty (c ∷ s) h = refl

-- What a successful Put says of the directory it leaves.
pub record Holds (digest : Str → Str) (stats : Str → Bool) (content : Str) (before after : TypeDir)
    (a : Artifact) : Type 0 where
  pub stored : Str
  pub read : lookup after.files a.file ≡ some stored
  pub sha : digest stored ≡ digest content
  pub fresh :
      a.unchanged ≡ false
      → (stored ≡ content) × (stats a.file ≡ true → lookup before.files a.file ≡ none)
  pub saved : a.unchanged ≡ true → after.files ≡ before.files

ok-injective : (a b : Artifact) → ok a ≡ ok b → a ≡ b
ok-injective a b h = cc

module _ (digest : Str → Str) (format : ℕ → Str) where
  pruned-Holds :
      (stats : Str → Bool) (os : PruneOs) (command : Str) (at : ℕ) (content : Str) (keep : ℕ)
      (d : TypeDir)
      → let name = fresh_name stats (format at) d.files in
        let e = entry_of digest command at content name false in
        let t : TypeDir = record {
          history = d.history ++ e ∷ [];
          files = insert name content d.files;
        } in
        Holds digest stats content d
          (prune_type os keep t).0
          (artifact_of digest at content name false (prune_type os keep t).1)
  unfolding artifact_of lookup entry_of
  pruned-Holds stats os command at content keep d =
      let name = fresh_name stats (format at) d.files in
      let e = entry_of digest command at content name false in
      let t : TypeDir = record {
        history = d.history ++ e ∷ [];
        files = insert name content d.files;
      } in
      let named = fresh_name-txt stats (format at) d.files in
      record {
        stored = content;
        read =
            lookup-prune_type-last os keep d.history e t refl (txt-not-empty name named) named
            ∙ rw (lookup-insert name name content d.files, str_eq_refl name) refl;
        sha = refl;
        fresh =
            λ _. (refl, λ q. lookup-free d.files name (fresh_name_new stats (format at) d.files q));
        saved = λ u. absurd (cc);
      }

  -- With no fault up to the prune, the state and the result of a new capture.
  put_new-run :
      (os : PutOs) (command : Str) (at : ℕ) (content : Str) (keep : ℕ) (d : TypeDir)
      → os.writes_file ≡ true
      → os.append ≡ appends
      → let name = fresh_name os.stats (format at) d.files in
        let e = entry_of digest command at content name false in
        let t : TypeDir = record {
          history = d.history ++ e ∷ [];
          files = insert name content d.files;
        } in
        put_new digest format os command at content keep d ≡ (
          (prune_type os.prune keep t).0,
          ok (artifact_of digest at content name false (prune_type os.prune keep t).1),
        )
  unfolding put_new
  put_new-run os command at content keep d w p = simp (w, p)

  put_new-faults :
      (os : PutOs) (command : Str) (at : ℕ) (content : Str) (keep : ℕ) (d : TypeDir) (a : Artifact)
      → (put_new digest format os command at content keep d).1 ≡ ok a
      → (os.writes_file ≡ true) × (os.append ≡ appends)
  unfolding put_new
  put_new-faults os command at content keep d a h = ground arith

  put_new-Holds :
      (os : PutOs) (command : Str) (at : ℕ) (content : Str) (keep : ℕ) (d : TypeDir) (a : Artifact)
      → (put_new digest format os command at content keep d).1 ≡ ok a
      → Holds digest os.stats content d (put_new digest format os command at content keep d).0 a
  put_new-Holds os command at content keep d a h =
      let (w, p) = put_new-faults os command at content keep d a h in
      let run = put_new-run os command at content keep d w p in
      let same = ok-injective _ a (ap (λ (r : TypeDir × PutResult). r.1) (sym run) ∙ h) in
      rw run (
        subst (Holds digest os.stats content d _) same
          (pruned-Holds os.stats os.prune command at content keep d))

  put_unchanged_facts :
      (os : PutOs) (command : Str) (at : ℕ) (content file : Str) (d : TypeDir) (a : Artifact)
      → (put_unchanged digest os command at content file d).1 ≡ ok a
      → ((put_unchanged digest os command at content file d).0.files ≡ d.files)
        × (a.file ≡ file)
        × (a.unchanged ≡ true)
  unfolding put_unchanged
  put_unchanged_facts os command at content file d a h = ground arith

  put_unchanged-Holds :
      (os : PutOs) (command : Str) (at : ℕ) (content : Str) (x : HistoryEntry) (d : TypeDir)
      (a : Artifact)
      → IsStored digest d.files x
      → x.sha256 ≡ digest content
      → (put_unchanged digest os command at content x.file d).1 ≡ ok a
      → Holds digest os.stats content d (put_unchanged digest os command at content x.file d).0 a
  put_unchanged-Holds os command at content x d a u s h =
      let (same, file, unchanged) = put_unchanged_facts os command at content x.file d a h in
      record {
        stored = u.content;
        read = rw (same, file) u.read;
        sha = u.sha ∙ s;
        fresh = λ f. absurd (ground arith);
        saved = λ _. same;
      }

  IsStored-of-Usable :
      (files : List (Str × Str)) (x : HistoryEntry)
      → Usable digest files x
      → is_empty x.file ≡ false
      → IsStored digest files x
  IsStored-of-Usable files x (inl u) z = absurd (ground arith)
  IsStored-of-Usable files x (inr u) z = u

  put_after-Holds :
      (last : Option HistoryEntry) (os : PutOs) (command : Str) (at : ℕ) (content : Str) (keep : ℕ)
      (d : TypeDir) (a : Artifact)
      → last_stored d.history ≡ last
      → IsReadable digest d
      → (put_after digest format last os command at content keep d).1 ≡ ok a
      → Holds digest os.stats content d
          (put_after digest format last os command at content keep d).0
          a
  unfolding put_after
  put_after-Holds none os command at content keep d a n r h =
      put_new-Holds os command at content keep d a h
  put_after-Holds (some x) os command at content keep d a n r h =
      elim (Bool-cases (str_eq x.sha256 (digest content))) [
        | inr m ↦ rw m (put_new-Holds os command at content keep d a (rw m at h))
        | inl m ↦
            let (u, z) = last_stored-All (Usable digest d.files) d.history x n r in
            rw m (
              put_unchanged-Holds os command at content x d a (IsStored-of-Usable d.files x u z)
                (str_eq→eq _ _ m) (rw m at h))
      ]

  -- A Put that returns an artifact, on a readable directory, leaves under the artifact's name a
  -- file whose digest is the content's. If the artifact is not marked unchanged that file is the
  -- content itself, and it is new if os.Stat answers for its name; if it is marked unchanged no
  -- file was written or removed.
  pub put_type-Holds :
      (os : PutOs) (command : Str) (at : ℕ) (content : Str) (keep : ℕ) (d : TypeDir) (a : Artifact)
      → IsReadable digest d
      → (put_type digest format os command at content keep d).1 ≡ ok a
      → Holds digest os.stats content d (put_type digest format os command at content keep d).0 a
  unfolding put_type
  put_type-Holds os command at content keep d a r h = elim (Bool-cases os.reads_history) [
    | inr k ↦ absurd (ground arith)
    | inl k ↦ simp k (
        put_after-Holds (last_stored d.history) os command at content keep d a refl r (simp k at h))
  ]
