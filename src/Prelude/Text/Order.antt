-- ===== src/Prelude/Text/Order.antt =====
-- The order of texts.
use mathlib.Core.Path.{◌≡◌, refl}
use mathlib.Core.Bool.{true, false}
use mathlib.Core.List.{[], ◌∷◌}
use native.Mathlib.Omega.{arith}
use myr.Prelude.Sort.{IsOrder}
use myr.Prelude.Text.{Text, text_lt}

pub text_lt_irrefl : (a : Text) → text_lt a a ≡ false
unfolding text_lt
text_lt_irrefl [] = refl
text_lt_irrefl (c ∷ a) = ground (arith, text_lt_irrefl a)

pub text_lt_asym : (a b : Text) → text_lt a b ≡ true → text_lt b a ≡ false
unfolding text_lt
text_lt_asym [] [] h = refl
text_lt_asym [] (d ∷ b) h = refl
text_lt_asym (c ∷ a) [] h = ground arith
text_lt_asym (c ∷ a) (d ∷ b) h = ground (arith, text_lt_asym a b)

pub text_lt_trans : (a b c : Text) → text_lt b a ≡ false → text_lt c b ≡ false → text_lt c a ≡ false
unfolding text_lt
text_lt_trans [] b [] h k = refl
text_lt_trans [] [] (e ∷ c) h k = refl
text_lt_trans [] (d ∷ b) (e ∷ c) h k = refl
text_lt_trans (x ∷ a) [] c h k = ground arith
text_lt_trans (x ∷ a) (d ∷ b) [] h k = ground arith
text_lt_trans (x ∷ a) (d ∷ b) (e ∷ c) h k = ground (arith, text_lt_trans a b c)

-- Two texts of which neither is less are the same.
pub text_lt_total : (a b : Text) → text_lt a b ≡ false → text_lt b a ≡ false → a ≡ b
unfolding text_lt
text_lt_total [] [] h k = refl
text_lt_total [] (d ∷ b) h k = ground arith
text_lt_total (c ∷ a) [] h k = ground arith
text_lt_total (c ∷ a) (d ∷ b) h k = ground (arith, text_lt_total a b)

pub text-IsOrder : IsOrder text_lt
text-IsOrder = record { asym = text_lt_asym; trans = text_lt_trans }
