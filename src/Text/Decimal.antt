-- ===== src/Text/Decimal.antt =====
-- The verb %d of package fmt on a natural number.
use omegacatqt.Base.{
  inl, inr, [], ◌∷◌, zero, suc, refl, arith, ◌≡◌, ℕ, ◌/◌, ◌*◌, ◌++◌, ◌<◌, ◌+◌, Bool-cases, sym, ◌-◌,
  ◌∙◌, ltb, ap, ◌%◌, if◌then◌else◌,
}
use omegacatqt.Text.{Str, lit}

itoa_fuel : ℕ → ℕ → Str
itoa_fuel zero n = []
itoa_fuel (suc f) n =
    let front = itoa_fuel f (n / 10) in
    if ltb n 10 then (n + b'0') ∷ [] else front ++ (n % 10 + b'0') ∷ []

-- One digit for each division by ten; a number has no more digits than its value and one.
unfoldable pub itoa : ℕ → Str
unfolding itoa_fuel
itoa n = itoa_fuel (suc n) n

value : ℕ → Str → ℕ
value acc [] = acc
value acc (c ∷ s) = value (acc * 10 + (c - b'0')) s

value-append : (acc c : ℕ) (s : Str) → value acc (s ++ c ∷ []) ≡ value acc s * 10 + (c - b'0')
unfolding value
value-append acc c [] = refl
value-append acc c (d ∷ s) = value-append (acc * 10 + (d - b'0')) c s

value-itoa_fuel : (f n : ℕ) → n < f → value 0 (itoa_fuel f n) ≡ n
unfolding itoa_fuel
value-itoa_fuel zero n h = absurd (omega arith)
value-itoa_fuel (suc f) n h = elim (Bool-cases (ltb n 10)) [
  | inl k ↦ rw k (unfold value in (omega arith))
  | inr k ↦
      rw (k, value-append 0 (n % 10 + b'0') (itoa_fuel f (n / 10)))
        (ground (arith, value-itoa_fuel f (n / 10)))
]

-- Different numbers are written differently.
pub itoa_injective : (m n : ℕ) → itoa m ≡ itoa n → m ≡ n
unfolding itoa
itoa_injective m n e =
    sym (value-itoa_fuel (suc m) m (omega arith))
    ∙ ap (value 0) e
    ∙ value-itoa_fuel (suc n) n (omega arith)

itoa_120 : itoa 120 ≡ lit "120"
unfolding itoa
itoa_120 = refl
