-- ===== src/Capture/Prune/Window.antt =====
-- internal/capture/store.go: the window of entries that pruneType keeps, against an independent
-- description: the distinct versions that a history names.
use omegacatqt.Base.{
  ℕ, zero, suc, ◌≤◌, ◌<◌, ◌≡◌, refl, true, false, ◌||◌, ◌⊎◌, List, [], ◌∷◌, length, drop,
  if◌then◌else◌, arith, All, All-map, ◌++◌,
}
use omegacatqt.Text.{Str, is_empty, has, str_eq_refl}
use omegacatqt.Capture.History.{HistoryEntry}
use omegacatqt.Capture.Prune.{scan}

-- The distinct files that entries name, the newest last to be counted.
unfoldable pub versions : List HistoryEntry → List Str
versions [] = []
versions (e ∷ newer) =
    let v = versions newer in if is_empty e.file || has v e.file then v else e.file ∷ v

pub scan-versions :
    (keep : ℕ) (es : List HistoryEntry) → (scan keep es).0 ≡ versions (drop (scan keep es).1 es)
unfolding scan versions
scan-versions keep [] = refl
scan-versions keep (e ∷ newer) = ground (arith, scan-versions keep newer)

pub scan-cut-le : (keep : ℕ) (es : List HistoryEntry) → (scan keep es).1 ≤ length es
unfolding scan
scan-cut-le keep [] = omega arith
scan-cut-le keep (e ∷ newer) = ground (arith, scan-cut-le keep newer)

pub length-scan-le : (keep : ℕ) (es : List HistoryEntry) → length (scan keep es).0 ≤ keep
unfolding scan
length-scan-le keep [] = omega arith
length-scan-le keep (e ∷ newer) = ground (arith, length-scan-le keep newer)

scan-full :
    (keep : ℕ) (es : List HistoryEntry) → 0 < (scan keep es).1 → length (scan keep es).0 ≡ keep
unfolding scan
scan-full keep [] h = absurd (omega arith)
scan-full keep (e ∷ newer) h = ground (arith, scan-full keep newer)

versions-drop-le :
    (k : ℕ) (es : List HistoryEntry) → length (versions (drop k es)) ≤ length (versions es)
unfolding versions
versions-drop-le zero es = omega arith
versions-drop-le (suc k) [] = omega arith
versions-drop-le (suc k) (e ∷ newer) = ground (arith, versions-drop-le k newer)

-- No shorter cut leaves at most `keep` versions.
scan-least :
    (keep : ℕ) (es : List HistoryEntry) (k : ℕ)
    → length (versions (drop k es)) ≤ keep
    → (scan keep es).1 ≤ k
unfolding scan versions
scan-least keep [] k h = omega arith
scan-least keep (e ∷ newer) zero h = ground (
  arith,
  scan-versions keep newer,
  scan-full keep newer,
  scan-least keep newer zero (ground (arith)),
)
scan-least keep (e ∷ newer) (suc k) h = ground (arith, scan-least keep newer k)

-- An entry names no file, or one of the given versions.
abbrev pub IsNamed : List Str → HistoryEntry → Type 0
IsNamed v e = (is_empty e.file ≡ true) ⊎ (has v e.file ≡ true)

IsNamed-versions-cons :
    (e x : HistoryEntry) (newer : List HistoryEntry)
    → IsNamed (versions newer) x
    → IsNamed (versions (e ∷ newer)) x
unfolding versions has
IsNamed-versions-cons e x newer h = ground arith

head-IsNamed : (e : HistoryEntry) (newer : List HistoryEntry) → IsNamed (versions (e ∷ newer)) e
unfolding versions has
head-IsNamed e newer = ground (arith, str_eq_refl e.file)

pub versions-IsNamed : (es : List HistoryEntry) → All (IsNamed (versions es)) es
versions-IsNamed [] = tt
versions-IsNamed (e ∷ newer) = (
  head-IsNamed e newer,
  All-map (IsNamed (versions newer)) (IsNamed (versions (e ∷ newer)))
      (λ x. IsNamed-versions-cons e x newer) newer (versions-IsNamed newer),
)

-- Each entry after the cut names no file or a survivor.
pub scan-IsNamed :
    (keep : ℕ) (es : List HistoryEntry) → All (IsNamed (scan keep es).0) (drop (scan keep es).1 es)
scan-IsNamed keep es = rw (scan-versions keep es) (versions-IsNamed (drop (scan keep es).1 es))

-- With room for one version the newest entry is kept.
pub scan-keeps-last :
    (keep : ℕ) (es : List HistoryEntry) (e : HistoryEntry)
    → 0 < keep
    → (scan keep (es ++ e ∷ [])).1 ≤ length es
unfolding scan
scan-keeps-last keep [] e h = ground arith
scan-keeps-last keep (x ∷ es) e h = ground (arith, scan-keeps-last keep es e h)

-- The cut of the retention loop is the least number of oldest entries whose removal leaves at most
-- `keep` distinct versions, and the survivors are the versions that are left.
pub cut_least :
    (keep : ℕ) (es : List HistoryEntry)
    → (length (versions (drop (scan keep es).1 es)) ≤ keep)
      × ((k : ℕ) → length (versions (drop k es)) ≤ keep → (scan keep es).1 ≤ k)
      × ((scan keep es).0 ≡ versions (drop (scan keep es).1 es))
cut_least keep es = (
  rw (← scan-versions keep es) (length-scan-le keep es),
  scan-least keep es,
  scan-versions keep es,
)

-- With room for one version the newest file survives.
pub scan-has-last :
    (keep : ℕ) (es : List HistoryEntry) (e : HistoryEntry)
    → 0 < keep
    → is_empty e.file ≡ false
    → has (scan keep (es ++ e ∷ [])).0 e.file ≡ true
unfolding scan has
scan-has-last keep [] e h k = ground (arith, str_eq_refl e.file)
scan-has-last keep (x ∷ es) e h k = ground (arith, scan-has-last keep es e h k)
