-- ===== src/Text/Order.antt =====
-- The order on texts is a linear order.
use omegacatqt.Base.{true, false, [], ◌∷◌, refl, arith, ◌≡◌}
use omegacatqt.Text.{str_le, Str}

pub str_le_total : (s t : Str) → str_le s t ≡ false → str_le t s ≡ true
unfolding str_le
str_le_total [] t h = ground arith
str_le_total (c ∷ s) [] h = refl
str_le_total (c ∷ s) (d ∷ t) h = ground (arith, str_le_total s t)

pub str_le_antisym : (s t : Str) → str_le s t ≡ true → str_le t s ≡ true → s ≡ t
unfolding str_le
str_le_antisym [] [] h k = refl
str_le_antisym [] (d ∷ t) h k = ground arith
str_le_antisym (c ∷ s) [] h k = ground arith
str_le_antisym (c ∷ s) (d ∷ t) h k = ground (arith, str_le_antisym s t)

pub str_le_trans : (s t u : Str) → str_le s t ≡ true → str_le t u ≡ true → str_le s u ≡ true
unfolding str_le
str_le_trans [] t u h k = refl
str_le_trans (c ∷ s) [] u h k = ground arith
str_le_trans (c ∷ s) (d ∷ t) [] h k = ground arith
str_le_trans (c ∷ s) (d ∷ t) (e ∷ u) h k = ground (arith, str_le_trans s t u)
