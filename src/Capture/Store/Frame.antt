-- ===== src/Capture/Store/Frame.antt =====
-- internal/capture/store.go: what a Put leaves alone, and what it keeps of the whole store.
use omegacatqt.Text.Trim.{trim_space}
use omegacatqt.Capture.Put.Reads.{put_type-IsReadable}
use omegacatqt.Capture.Slug.{slug}
use omegacatqt.Capture.Path.{type_path, is_plain, type_path-plain}
use omegacatqt.Capture.Put.{PutError, PutOs, PutResult, put_type, err, no_usable_name}
use omegacatqt.Capture.History.{TypeDir, IsReadable}
use omegacatqt.Capture.Store.{
  set_type, type_dir, device_dir, merge_device_info, StoreOs, make_dir, DeviceDir, Store,
  DeviceInfo, put_at, put, put_device, merged_info, is_taken,
}
use omegacatqt.Text.{Str, str_eq, is_empty, str_eq_iff}
use omegacatqt.Base.{
  inl, inr, some, none, true, false, refl, ◌≡◌, ℕ, Option, List, if◌then◌else◌, Bool-cases,
  if_intro, ◌∙◌, not, ◌≢◌, option_intro, Option-cases, ap, arith, subst, sym,
}
use omegacatqt.Text.Assoc.{lookup-insert, lookup, insert}

-- Every type directory of the store is readable.
abbrev pub IsReadableStore : (Str → Str) → Store → Type 0
IsReadableStore digest s = (k typ : Str) → IsReadable digest (type_dir (device_dir s k) typ)

pub device_dir-insert :
    (k j : Str) (dd : DeviceDir) (s : Store)
    → device_dir (insert k dd s) j ≡ (if str_eq k j then dd else device_dir s j)
unfolding device_dir
device_dir-insert k j dd s = ground (arith, lookup-insert k j dd s)

type_dir-insert :
    (typ asked : Str) (d : TypeDir) (info : Option DeviceInfo) (types : List (Str × TypeDir))
    → type_dir (record { info = info; types = insert typ d types }) asked
      ≡ (if str_eq typ asked then d else type_dir (record { info = info; types = types }) asked)
unfolding type_dir
type_dir-insert typ asked d info types = ground (arith, lookup-insert typ asked d types)

-- The type directories depend on the device's list of them alone.
type_dir-info :
    (dd : DeviceDir) (info : Option DeviceInfo) (typ : Str)
    → type_dir (record dd { info = info }) typ ≡ type_dir dd typ
unfolding type_dir
type_dir-info dd info typ = refl

module _ (digest : Str → Str) where
  set_type-readable :
      (k typ : Str) (d : TypeDir) (s : Store)
      → IsReadable digest d
      → IsReadableStore digest s
      → IsReadableStore digest (set_type k typ d s)
  unfolding set_type
  set_type-readable k typ d s h r j asked =
      let dd = device_dir s k in
      let x : DeviceDir = record dd { types = insert typ d dd.types } in
      elim (Bool-cases (str_eq k j)) [
        | inr m ↦ rw (device_dir-insert k j x s, m) (r j asked)
        | inl m ↦
            rw (device_dir-insert k j x s, m)
              (rw (type_dir-insert typ asked d dd.info dd.types) (
                if_intro (IsReadable digest) (str_eq typ asked) d (type_dir dd asked) h
                  (r k asked)))
      ]

  set_info-readable :
      (k : Str) (info : Option DeviceInfo) (s : Store)
      → IsReadableStore digest s
      → IsReadableStore digest (insert k (record (device_dir s k) { info = info }) s)
  set_info-readable k info s r j asked =
      let x : DeviceDir = record (device_dir s k) { info = info } in
      elim (Bool-cases (str_eq k j)) [
        | inr m ↦ rw (device_dir-insert k j x s, m) (r j asked)
        | inl m ↦
            rw (device_dir-insert k j x s, m)
              (rw (type_dir-info (device_dir s k) info asked) (r k asked))
      ]

  make_dir-readable :
      (place : Option (Str × Str)) (s : Store)
      → IsReadableStore digest s
      → IsReadableStore digest (make_dir place s)
  unfolding make_dir
  make_dir-readable none s r = r
  make_dir-readable (some (k, typ)) s r =
      set_type-readable k typ (type_dir (device_dir s k) typ) s (r k typ) r

  merge_device_info-readable :
      (os : StoreOs) (k : Str) (dev : DeviceInfo) (at : ℕ) (s : Store)
      → IsReadableStore digest s
      → IsReadableStore digest (merge_device_info os k dev at s).0
  unfolding merge_device_info
  merge_device_info-readable os k dev at s r =
      let P : Store × Option PutError → Type 0 = λ x. IsReadableStore digest x.0 in
      let made = set_info-readable k (device_dir s k).info s r in
      let written = set_info-readable k (some (merged_info (device_dir s k).info dev at)) s r in
      if_intro P (not os.makes_device_dir) _ _ r (
        if_intro P (not os.reads_info) _ _ made (
          if_intro P (is_taken (device_dir s k).info dev) _ _ made
            (if_intro P (not os.writes_info) _ _ made written)))

module _ (digest : Str → Str) (format : ℕ → Str) (root : List Str) (outside : TypeDir) where
  put_at-readable :
      (place : Option (Str × Str)) (os : PutOs) (command : Str) (at : ℕ) (content : Str) (keep : ℕ)
      (s : Store)
      → ((n : Str) → os.stats n ≡ true)
      → IsReadableStore digest s
      → IsReadableStore digest
          (put_at digest format root outside place os command at content keep s).0
  unfolding put_at
  put_at-readable none os command at content keep s q r = r
  put_at-readable (some (k, typ)) os command at content keep s q r =
      let d = type_dir (device_dir s k) typ in
      set_type-readable digest k typ (put_type digest format os command at content keep d).0 s
        (put_type-IsReadable digest format os command at content keep d q (r k typ)) r

  put_device-readable :
      (k : Str) (os : StoreOs) (dev : DeviceInfo) (typ command : Str) (at : ℕ) (content : Str)
      (keep : ℕ) (s : Store)
      → ((n : Str) → os.put.stats n ≡ true)
      → IsReadableStore digest s
      → IsReadableStore digest
          (put_device digest format root outside k os dev typ command at content keep s).0
  unfolding put_device
  put_device-readable k os dev typ command at content keep s q r =
      let P : Store × PutResult → Type 0 = λ x. IsReadableStore digest x.0 in
      let place = type_path root k typ in
      let merged = merge_device_info os k dev at (make_dir place s) in
      let m =
        merge_device_info-readable digest os k dev at (make_dir place s)
          (make_dir-readable digest place s r) in
      if_intro P (not os.makes_type_dir) _ _ r (
        option_intro P merged.1
          (put_at digest format root outside place os.put command at content keep merged.0)
          (λ e. (merged.0, err e))
          (put_at-readable place os.put command at content keep merged.0 q m) (λ e. m))

  -- If os.Stat answers for the files that are there, and whatever the operating system answers to
  -- the other calls of Put, and whether Put fails or not, in every directory of the store every
  -- version that a history names is on disk under its digest, if it was before.
  pub put-readable :
      (os : StoreOs) (dev : DeviceInfo) (typ command : Str) (at : ℕ) (content : Str) (keep : ℕ)
      (s : Store)
      → ((n : Str) → os.put.stats n ≡ true)
      → IsReadableStore digest s
      → IsReadableStore digest
          (put digest format root outside os dev typ command at content keep s).0
  unfolding put
  put-readable os dev typ command at content keep s q r =
      let P : Store × PutResult → Type 0 = λ x. IsReadableStore digest x.0 in
      if_intro P (is_empty (trim_space typ)) _ _ r (
        option_intro P (slug dev.canonical) (s, err no_usable_name)
          (λ k. put_device digest format root outside k os dev typ command at content keep s) r
          (λ k. put_device-readable k os dev typ command at content keep s q r))

-- What a device directory holds after the steps of a Put for another one.
abbrev SameAt : Str → Store → Store → Type 0
SameAt k before after = lookup after k ≡ lookup before k

lookup-other :
    (j k : Str) (dd : DeviceDir) (s : Store) → str_eq j k ≡ false → SameAt k s (insert j dd s)
lookup-other j k dd s h = rw (lookup-insert j k dd s, h) refl

merge_device_info-frame :
    (os : StoreOs) (j : Str) (dev : DeviceInfo) (at : ℕ) (s : Store) (k : Str)
    → str_eq j k ≡ false
    → SameAt k s (merge_device_info os j dev at s).0
unfolding merge_device_info
merge_device_info-frame os j dev at s k h =
    let P : Store × Option PutError → Type 0 = λ x. SameAt k s x.0 in
    let dd = device_dir s j in
    let made = lookup-other j k dd s h in
    let written = lookup-other j k (record dd { info = some (merged_info dd.info dev at) }) s h in
    if_intro P (not os.makes_device_dir) _ _ refl (
      if_intro P (not os.reads_info) _ _ made (
        if_intro P (is_taken dd.info dev) _ _ made
          (if_intro P (not os.writes_info) _ _ made written)))

set_type-frame :
    (j typ : Str) (d : TypeDir) (s : Store) (k : Str)
    → str_eq j k ≡ false
    → SameAt k s (set_type j typ d s)
unfolding set_type
set_type-frame j typ d s k h =
    lookup-other j k (record (device_dir s j) { types = insert typ d (device_dir s j).types }) s h

make_dir-frame :
    (j typ : Str) (s : Store) (k : Str)
    → str_eq j k ≡ false
    → SameAt k s (make_dir (some (j, typ)) s)
unfolding make_dir
make_dir-frame j typ s k h = set_type-frame j typ (type_dir (device_dir s j) typ) s k h

module _ (digest : Str → Str) (format : ℕ → Str) (root : List Str) (outside : TypeDir) where
  put_at-frame :
      (j typ : Str) (os : PutOs) (command : Str) (at : ℕ) (content : Str) (keep : ℕ) (s : Store)
      (k : Str)
      → str_eq j k ≡ false
      → SameAt k s
          (put_at digest format root outside (some (j, typ)) os command at content keep s).0
  unfolding put_at
  put_at-frame j typ os command at content keep s k h =
      set_type-frame j typ
        (put_type digest format os command at content keep (type_dir (device_dir s j) typ)).0 s k h

  put_device-frame :
      (j : Str) (os : StoreOs) (dev : DeviceInfo) (typ command : Str) (at : ℕ) (content : Str)
      (keep : ℕ) (s : Store) (k : Str)
      → type_path root j typ ≡ some (j, typ)
      → str_eq j k ≡ false
      → SameAt k s (put_device digest format root outside j os dev typ command at content keep s).0
  unfolding put_device
  put_device-frame j os dev typ command at content keep s k p h =
      let P : Store × PutResult → Type 0 = λ x. SameAt k s x.0 in
      let place = type_path root j typ in
      let m : SameAt k s (make_dir place s) =
        subst (λ (o : Option (Str × Str)). SameAt k s (make_dir o s)) (sym p)
          (make_dir-frame j typ s k h) in
      let merged = merge_device_info os j dev at (make_dir place s) in
      let n : SameAt k s merged.0 =
        merge_device_info-frame os j dev at (make_dir place s) k h ∙ m in
      let stored : SameAt k s
          (put_at digest format root outside place os.put command at content keep merged.0).0 =
        subst
          (λ (o : Option (Str × Str)).
            SameAt k s
              (put_at digest format root outside o os.put command at content keep merged.0).0)
          (sym p) (put_at-frame j typ os.put command at content keep merged.0 k h ∙ n) in
      if_intro P (not os.makes_type_dir) _ _ refl (
        option_intro P merged.1
          (put_at digest format root outside place os.put command at content keep merged.0)
          (λ e. (merged.0, err e)) stored (λ e. n))

  -- Under a capture type that is a plain name, a Put touches only the directory that the device's
  -- slug names.
  pub put_frame :
      (os : StoreOs) (dev : DeviceInfo) (typ command : Str) (at : ℕ) (content : Str) (keep : ℕ)
      (s : Store) (k : Str)
      → is_plain typ ≡ true
      → slug dev.canonical ≢ some k
      → lookup (put digest format root outside os dev typ command at content keep s).0 k
        ≡ lookup s k
  unfolding put
  put_frame os dev typ command at content keep s k p h =
      let P : Store × PutResult → Type 0 = λ x. SameAt k s x.0 in
      if_intro P (is_empty (trim_space typ)) _ _ refl (elim (Option-cases (slug dev.canonical)) [
        | inl n ↦ rw n refl
        | inr (j, n) ↦ rw n (
            put_device-frame j os dev typ command at content keep s k (type_path-plain root j typ p)
              (elim (Bool-cases (str_eq j k)) [
                | inl e ↦ absurd (h (n ∙ ap some ((str_eq_iff j k).0 e)))
                | inr e ↦ e
              ]))
      ])
