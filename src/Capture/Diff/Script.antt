-- ===== src/Capture/Diff/Script.antt =====
-- The script of editScript is a correct edit script of the whole versions.
use omegacatqt.Capture.Diff.Lines.{
  common_lines-le, line_of-drop, common_lines-matches, line_of-take, length-reverse,
  line_of-reverse,
}
use omegacatqt.Capture.Myers.Script.{Edits, keep, done, take_out, put_in}
use omegacatqt.Capture.Myers.{DiffLine, line_of, keep_line, remove_line, add_line}
use omegacatqt.Capture.Diff.{keep_lines, shift, prefix_length, suffix_length, middle}
use omegacatqt.Text.{Str}
use omegacatqt.Base.{
  true, false, zero, suc, arith, ◌≡◌, List, ℕ, ◌+◌, ◌≤◌, length, ◌<◌, ◌++◌, subst, map, ltb, sym,
  ◌∙◌, [], refl, ◌-◌, append-nil, reverse, length-drop, drop, take, length-take,
}

module _ (a b : List Str) where
  keep_lines-Edits :
      (c x y : ℕ) (out : List DiffLine)
      → x + c ≤ length a
      → y + c ≤ length b
      → ((t : ℕ) → t < c → line_of a (x + t) ≡ line_of b (y + t))
      → Edits a b (x + c) (y + c) out
      → Edits a b x y (keep_lines a b c x y ++ out)
  unfolding keep_lines
  keep_lines-Edits zero x y out la lb match s =
      let e : x + 0 ≡ x = omega arith in
      let f : y + 0 ≡ y = omega arith in
      subst (λ (z : ℕ). Edits a b z y out) e (subst (λ (z : ℕ). Edits a b (x + 0) z out) f s)
  keep_lines-Edits (suc c) x y out la lb match s =
      let e : x + suc c ≡ suc x + c = omega arith in
      let f : y + suc c ≡ suc y + c = omega arith in
      let z : x + 0 ≡ x = omega arith in
      let w : y + 0 ≡ y = omega arith in
      let here : line_of a x ≡ line_of b y = (rw (z, w) at (match 0 (omega arith))) in
      keep (omega arith) (omega arith) here (
        keep_lines-Edits c (suc x) (suc y) out (omega arith) (omega arith)
          (λ t p.
            let u : suc x + t ≡ x + suc t = omega arith in
            let v : suc y + t ≡ y + suc t = omega arith in rw (u, v) (match (suc t) (omega arith)))
          (subst (λ (z : ℕ). Edits a b z (suc y + c) out) e
            (subst (λ (z : ℕ). Edits a b (x + suc c) z out) f s)))

  module _ (ma mb : List Str) (pre : ℕ) (rest : List DiffLine) (la : pre + length ma ≤ length a)
      (lb : pre + length mb ≤ length b)
      (ta : (x : ℕ) → x < length ma → line_of ma x ≡ line_of a (pre + x))
      (tb : (y : ℕ) → y < length mb → line_of mb y ≡ line_of b (pre + y))
      (s : Edits a b (pre + length ma) (pre + length mb) rest) where
    -- The script of a part, moved to its place.
    shift-Edits :
        {x y : ℕ} {out : List DiffLine}
        → Edits ma mb x y out
        → Edits a b (pre + x) (pre + y) (map (shift pre) out ++ rest)
    unfolding shift keep_line remove_line add_line
    shift-Edits (done e f) = rw (e, f) s
    shift-Edits (keep {x} {y} {out} h k same r) =
        let p : ltb 0 (x + 1) ≡ true = ground arith in
        let q : ltb 0 (y + 1) ≡ true = ground arith in
        let u : (x + 1) + pre ≡ (pre + x) + 1 = omega arith in
        let v : (y + 1) + pre ≡ (pre + y) + 1 = omega arith in
        let n : pre + suc x ≡ suc (pre + x) = omega arith in
        let m : pre + suc y ≡ suc (pre + y) = omega arith in
        rw (p, q, u, v, ta x h)
          (keep (omega (arith, h, la)) (omega (arith, k, lb)) (sym (ta x h) ∙ (same ∙ tb y k)) (
            subst (λ (z : ℕ). Edits a b z (suc (pre + y)) (map (shift pre) out ++ rest)) n
              (subst (λ (z : ℕ). Edits a b (pre + suc x) z (map (shift pre) out ++ rest)) m
                (shift-Edits r))))
    shift-Edits (take_out {x} {y} {out} h r) =
        let p : ltb 0 (x + 1) ≡ true = ground arith in
        let q : ltb 0 0 ≡ false = ground arith in
        let u : (x + 1) + pre ≡ (pre + x) + 1 = omega arith in
        let n : pre + suc x ≡ suc (pre + x) = omega arith in
        rw (p, q, u, ta x h)
          (take_out (omega (arith, h, la)) (
            subst (λ (z : ℕ). Edits a b z (pre + y) (map (shift pre) out ++ rest)) n
              (shift-Edits r)))
    shift-Edits (put_in {x} {y} {out} k r) =
        let p : ltb 0 0 ≡ false = ground arith in
        let q : ltb 0 (y + 1) ≡ true = ground arith in
        let v : (y + 1) + pre ≡ (pre + y) + 1 = omega arith in
        let m : pre + suc y ≡ suc (pre + y) = omega arith in
        rw (p, q, v, tb y k)
          (put_in (omega (arith, k, lb)) (
            subst (λ (z : ℕ). Edits a b (pre + x) z (map (shift pre) out ++ rest)) m
              (shift-Edits r)))

-- The middle of a version: what the common prefix and the common suffix leave.
module _ (a b : List Str) where
  prefix-le : (prefix_length a b ≤ length a) × (prefix_length a b ≤ length b)
  unfolding prefix_length
  prefix-le = common_lines-le a b

  pub suffix-le :
      (suffix_length a b ≤ length a - prefix_length a b)
      × (suffix_length a b ≤ length b - prefix_length a b)
  unfolding suffix_length
  suffix-le =
      let pre = prefix_length a b in
      let (p, q) = common_lines-le (reverse (drop pre a)) (reverse (drop pre b)) in
      (
        omega (arith, p, length-reverse (drop pre a), length-drop pre a),
        omega (arith, q, length-reverse (drop pre b), length-drop pre b),
      )

  -- Counted from the end of what the prefix leaves, or from the beginning of the suffix.
  suffix_line :
      (ls : List Str) (pre suf t : ℕ)
      → suf ≤ length ls - pre
      → t < suf
      → (line_of (reverse (drop pre ls)) (suf - 1 - t) ≡ line_of ls (length ls - suf + t))
  suffix_line ls pre suf t h p =
      let n : length (drop pre ls) ≡ length ls - pre = length-drop pre ls in
      let e : pre + (length (drop pre ls) - 1 - (suf - 1 - t)) ≡ length ls - suf + t =
        omega (arith, n, h, p) in
      line_of-reverse (drop pre ls) (suf - 1 - t) (omega (arith, n, h, p))
      ∙ (line_of-drop pre ls (length (drop pre ls) - 1 - (suf - 1 - t)) ∙ (rw e refl))

  suffix-matches :
      (t : ℕ)
      → t < suffix_length a b
      → (line_of a (length a - suffix_length a b + t)
          ≡ line_of b (length b - suffix_length a b + t))
  suffix-matches t h =
      let pre = prefix_length a b in
      let suf = suffix_length a b in
      let same : line_of (reverse (drop pre a)) (suf - 1 - t)
          ≡ line_of (reverse (drop pre b)) (suf - 1 - t) =
        unfold suffix_length in
        (common_lines-matches (reverse (drop pre a)) (reverse (drop pre b)) _
          (unfold suffix_length in omega (arith, h))) in
      sym (suffix_line a pre suf t suffix-le.0 h) ∙ (same ∙ suffix_line b pre suf t suffix-le.1 h)

  pub middle-length :
      (ls : List Str)
      → suffix_length a b ≤ length ls - prefix_length a b
      → (length (middle a b ls) ≡ length ls - suffix_length a b - prefix_length a b)
  middle-length ls h =
      let pre = prefix_length a b in
      let suf = suffix_length a b in
      omega (arith, length-drop pre (take (length ls - suf) ls), length-take (length ls - suf) ls)

  middle-line :
      (ls : List Str) (x : ℕ)
      → suffix_length a b ≤ length ls - prefix_length a b
      → x < length (middle a b ls)
      → line_of (middle a b ls) x ≡ line_of ls (prefix_length a b + x)
  middle-line ls x h p =
      let pre = prefix_length a b in
      let suf = suffix_length a b in
      line_of-drop pre (take (length ls - suf) ls) x
      ∙ line_of-take (length ls - suf) ls (pre + x) (omega (arith, p, middle-length ls h))

  prefix-matches : (t : ℕ) → t < prefix_length a b → line_of a (0 + t) ≡ line_of b (0 + t)
  unfolding prefix_length
  prefix-matches t h = let e : 0 + t ≡ t = omega arith in rw e (common_lines-matches a b t h)

  -- The prefix, a script of the middles, and the suffix.
  pub whole-Edits :
      (mid : List DiffLine)
      → Edits (middle a b a) (middle a b b) 0 0 mid
      → (Edits a b 0 0 (
          keep_lines a b (prefix_length a b) 0 0
          ++ (map (shift (prefix_length a b)) mid
              ++ keep_lines a b
                  (suffix_length a b)
                  (length a - suffix_length a b)
                  (length b - suffix_length a b))))
  whole-Edits mid s =
      let pre = prefix_length a b in
      let suf = suffix_length a b in
      let p = prefix-le in
      let q = suffix-le in
      let na = middle-length a q.0 in
      let nb = middle-length b q.1 in
      let tail : List DiffLine = keep_lines a b suf (length a - suf) (length b - suf) in
      let end : Edits a b (length a - suf + suf) (length b - suf + suf) [] =
        done (omega (arith, q.0)) (omega (arith, q.1)) in
      let last : Edits a b (length a - suf) (length b - suf) tail =
        subst (Edits a b (length a - suf) (length b - suf)) (append-nil tail) (
          keep_lines-Edits a b suf (length a - suf) (length b - suf) [] (omega (arith, q.0))
            (omega (arith, q.1)) suffix-matches end) in
      let ea : length a - suf ≡ pre + length (middle a b a) = omega (arith, na, q.0, p.0) in
      let eb : length b - suf ≡ pre + length (middle a b b) = omega (arith, nb, q.1, p.1) in
      let placed : Edits a b (pre + length (middle a b a)) (pre + length (middle a b b)) tail =
        subst (λ (z : ℕ). Edits a b z (pre + length (middle a b b)) tail) ea
          (subst (λ (z : ℕ). Edits a b (length a - suf) z tail) eb last) in
      let inner : Edits a b (pre + 0) (pre + 0) (map (shift pre) mid ++ tail) =
        shift-Edits a b (middle a b a) (middle a b b) pre tail (omega (arith, ea))
          (omega (arith, eb)) (λ x h. middle-line a x q.0 h) (λ y h. middle-line b y q.1 h) placed
          s in
      let first : Edits a b (0 + pre) (0 + pre) (map (shift pre) mid ++ tail) =
        subst (λ (z : ℕ). Edits a b z z (map (shift pre) mid ++ tail)) (omega arith) inner in
      keep_lines-Edits a b pre 0 0 (map (shift pre) mid ++ tail) (omega (arith, p.0))
        (omega (arith, p.1)) prefix-matches first
