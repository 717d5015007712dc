-- ===== src/SqlGenerator/Numeric.antt =====
-- The texts that `str::parse` accepts as `i128`, `u128` and `f64`, by the documented grammars.
use myr.Prelude.{
  ℕ, ◌+◌, ◌-◌, ◌^◌, ◌≡◌, refl, Bool, true, false, not, ◌&&◌, ◌||◌, [], ◌∷◌, leb, ltb, ◌==◌,
  if◌then◌else◌, is_empty, all,
}
use myr.Prelude.Text.{Text, codes, is_ascii_digit, one_of, to_ascii_lowercase, text_eq}
use myr.Prelude.Text.Decimal.{read}

unfoldable pub is_digits : Text → Bool
unfolding is_ascii_digit
is_digits s = not (is_empty s) && all is_ascii_digit s

-- The text behind one sign, and whether the sign is a minus.
abbrev pub split_sign : Text → Bool × Text
split_sign [] = (false, [])
split_sign (c ∷ s) =
    if c == b'-' then (true, s) else if c == b'+' then (false, s) else (false, c ∷ s)

-- Decimal digits behind an optional sign, with a value in range.
unfoldable pub parses_i128 : Text → Bool
unfolding is_digits
parses_i128 s =
    let (minus, digits) = split_sign s in
    is_digits digits && leb (read 0 digits) (if minus then 2 ^ 127 else 2 ^ 127 - 1)

abbrev pub without_plus : Text → Text
without_plus [] = []
without_plus (c ∷ s) = if c == b'+' then s else c ∷ s

unfoldable pub parses_u128 : Text → Bool
unfolding is_digits
parses_u128 s = let digits = without_plus s in is_digits digits && leb (read 0 digits) (2 ^ 128 - 1)

-- The digits at the start of a text, counted, and what is behind them.
unfoldable pub skip_digits : Text → ℕ × Text
unfolding is_ascii_digit
skip_digits [] = (0, [])
skip_digits (c ∷ s) =
    if is_ascii_digit c then ((skip_digits s).0 + 1, (skip_digits s).1) else (0, c ∷ s)

-- Behind the mantissa: nothing, or `e` and digits with an optional sign.
unfoldable pub is_exponent : Text → Bool
unfolding is_digits
is_exponent [] = true
is_exponent (c ∷ s) = (c == b'e' || c == b'E') && is_digits (split_sign s).1

-- Behind the digits of the whole part, of which there are `n`: a fraction and an exponent. There
-- must be a digit before or behind the point.
unfoldable pub is_fraction : ℕ → Text → Bool
unfolding skip_digits is_exponent
is_fraction n [] = ltb 0 n
is_fraction n (c ∷ s) =
    if c == b'.'
    then ltb 0 (n + (skip_digits s).0) && is_exponent (skip_digits s).1
    else ltb 0 n && is_exponent (c ∷ s)

unfoldable pub parses_f64 : Text → Bool
unfolding skip_digits is_fraction to_ascii_lowercase text_eq
parses_f64 s =
    let number = (split_sign s).1 in
    one_of (codes "inf" ∷ codes "infinity" ∷ codes "nan" ∷ []) (to_ascii_lowercase number)
    || is_fraction (skip_digits number).0 (skip_digits number).1

accepted :
    parses_f64 (codes "-1.5e+3")
      && parses_f64 (codes ".5")
      && parses_f64 (codes "5.")
      && parses_f64 (codes "NaN")
    ≡ true
unfolding parses_f64
accepted = refl

refused :
    parses_f64 (codes ".")
      || parses_f64 (codes "1e")
      || parses_f64 (codes "")
      || parses_f64 (codes "1 2")
      || parses_i128 (codes "--1")
    ≡ false
unfolding parses_f64 parses_i128
refused = refl
