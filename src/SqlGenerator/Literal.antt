-- ===== src/SqlGenerator/Literal.antt =====
-- `quote_sql_literal`: what goes out without quotes.
use mathlib.Core.List.{cons-ne-nil}
use myr.Prelude.{
  ℕ, ◌≡◌, ◌≢◌, refl, Bool, true, false, ◌&&◌, ◌||◌, List, [], ◌∷◌, arith, all, ◌==◌, Bool-cases,
  inl, inr,
}
use myr.Prelude.Text.{
  Text, codes, trim, is_ascii_digit, to_lower, to_ascii_lowercase, one_of, text_eq, one_of_elim,
}
use myr.SafeMode.Scan.Inert.{Inert, is_bland, dash_safe, Inert-dash_safe, Inert-replace}
use myr.SqlGenerator.{quote_sql_literal, quote_sql_string}
use myr.SqlGenerator.Numeric.{
  is_digits, split_sign, parses_i128, parses_u128, skip_digits, is_exponent, is_fraction,
  parses_f64,
}

dash_safe-cons :
    (c : ℕ) (s : Text) → is_bland c ≡ true → dash_safe s ≡ true → dash_safe (c ∷ s) ≡ true
unfolding dash_safe
dash_safe-cons c [] h hs = h
dash_safe-cons c (d ∷ s) h hs = rw h hs

bland_safe : (s : Text) → all is_bland s ≡ true → dash_safe s ≡ true
bland_safe [] h = unfold dash_safe in refl
bland_safe (c ∷ s) h = dash_safe-cons c s (ground arith) (bland_safe s (ground arith))

digit_bland : (c : ℕ) → is_ascii_digit c ≡ true → is_bland c ≡ true
unfolding is_ascii_digit is_bland
digit_bland c h = ground arith

digits_bland : (s : Text) → all is_ascii_digit s ≡ true → all is_bland s ≡ true
digits_bland [] h = refl
digits_bland (c ∷ s) h = rw (digit_bland c (ground arith)) (digits_bland s (ground arith))

-- A text that a sign may stand before.
abbrev signable : Text → Bool
signable [] = false
signable (c ∷ s) = is_bland c && dash_safe (c ∷ s)

minus_safe : (s : Text) → signable s ≡ true → dash_safe (b'-' ∷ s) ≡ true
unfolding dash_safe
minus_safe [] h = ground arith
minus_safe (d ∷ s) h = ground arith

plus_safe : (s : Text) → signable s ≡ true → dash_safe (b'+' ∷ s) ≡ true
plus_safe [] h = ground arith
plus_safe (d ∷ s) h = dash_safe-cons b'+' (d ∷ s) (unfold is_bland in refl) (ground arith)

sign_safe : (s : Text) → signable (split_sign s).1 ≡ true → dash_safe s ≡ true
sign_safe [] h = unfold dash_safe in refl
sign_safe (c ∷ s) h = elim (Bool-cases (c == b'-')) [
  | inl minus ↦ let e : c ≡ b'-' = ground arith in rw e (minus_safe s (ground arith))
  | inr not_minus ↦ elim (Bool-cases (c == b'+')) [
    | inl plus ↦ let e : c ≡ b'+' = ground arith in rw e (plus_safe s (ground arith))
    | inr neither ↦ ground arith
  ]
]

digits_signable : (s : Text) → is_digits s ≡ true → signable s ≡ true
unfolding is_digits
digits_signable [] h = ground arith
digits_signable (c ∷ s) h =
    rw (bland_safe (c ∷ s) (digits_bland (c ∷ s) (ground arith))) (ground (arith, digit_bland c))

i128_safe : (s : Text) → parses_i128 s ≡ true → dash_safe s ≡ true
unfolding parses_i128
i128_safe s h = sign_safe s (digits_signable (split_sign s).1 (ground arith))

u128_safe : (s : Text) → parses_u128 s ≡ true → dash_safe s ≡ true
unfolding parses_u128 is_digits
u128_safe [] h = unfold dash_safe in refl
u128_safe (c ∷ s) h = elim (Bool-cases (c == b'+')) [
  | inl plus ↦
      let e : c ≡ b'+' = ground arith in
      rw e (plus_safe s (digits_signable s (unfold is_digits in ground arith)))
  | inr other ↦ bland_safe (c ∷ s) (digits_bland (c ∷ s) (ground arith))
]

exponent_safe : (s : Text) → is_exponent s ≡ true → dash_safe s ≡ true
unfolding is_exponent
exponent_safe [] h = unfold dash_safe in refl
exponent_safe (c ∷ s) h =
    dash_safe-cons c s (unfold is_bland in ground arith)
      (sign_safe s (digits_signable (split_sign s).1 (ground arith)))

-- Digits in front of a safe text.
skip_safe : (s : Text) → dash_safe (skip_digits s).1 ≡ true → dash_safe s ≡ true
unfolding skip_digits
skip_safe [] h = h
skip_safe (c ∷ s) h = elim (Bool-cases (is_ascii_digit c)) [
  | inl digit ↦ dash_safe-cons c s (digit_bland c digit) (skip_safe s (ground arith))
  | inr other ↦ ground arith
]

fraction_safe : (n : ℕ) (s : Text) → is_fraction n s ≡ true → dash_safe s ≡ true
unfolding is_fraction
fraction_safe n [] h = unfold dash_safe in refl
fraction_safe n (c ∷ s) h = elim (Bool-cases (c == b'.')) [
  | inl point ↦
      dash_safe-cons c s (unfold is_bland in ground arith)
        (skip_safe s (exponent_safe (skip_digits s).1 (ground arith)))
  | inr other ↦ exponent_safe (c ∷ s) (ground arith)
]

lower_bland : (c : ℕ) → is_bland (to_lower c) ≡ true → is_bland c ≡ true
unfolding to_lower is_bland
lower_bland c h = ground arith

lowercase_bland : (s : Text) → all is_bland (to_ascii_lowercase s) ≡ true → all is_bland s ≡ true
unfolding to_ascii_lowercase
lowercase_bland [] h = refl
lowercase_bland (c ∷ s) h = rw (lower_bland c (ground arith)) (lowercase_bland s (ground arith))

bland_signable : (s : Text) → to_ascii_lowercase s ≢ [] → all is_bland s ≡ true → signable s ≡ true
bland_signable [] ne h = absurd (ne (unfold to_ascii_lowercase in refl))
bland_signable (c ∷ s) ne h = rw (bland_safe (c ∷ s) h) (ground arith)

abbrev words : List Text
words = codes "inf" ∷ codes "infinity" ∷ codes "nan" ∷ []

word_signable : (s : Text) → one_of words (to_ascii_lowercase s) ≡ true → signable s ≡ true
unfolding text_eq is_bland
word_signable s h =
    let (ne, bland) =
      one_of_elim (λ k. (k ≢ []) × (all is_bland k ≡ true)) words (to_ascii_lowercase s) h
        ((cons-ne-nil _ _, refl), ((cons-ne-nil _ _, refl), ((cons-ne-nil _ _, refl), tt))) in
    bland_signable s ne (lowercase_bland s bland)

fraction_signable :
    (s : Text) → is_fraction (skip_digits s).0 (skip_digits s).1 ≡ true → signable s ≡ true
fraction_signable [] h = unfold skip_digits is_fraction in ground arith
fraction_signable (c ∷ s) h =
    rw (skip_safe (c ∷ s) (fraction_safe (skip_digits (c ∷ s)).0 (skip_digits (c ∷ s)).1 h))
      (elim (Bool-cases (is_ascii_digit c)) [
        | inl digit ↦ rw (digit_bland c digit) refl
        | inr other ↦ unfold skip_digits is_fraction is_bland in ground arith
      ])

f64_safe : (s : Text) → parses_f64 s ≡ true → dash_safe s ≡ true
unfolding parses_f64
f64_safe s h =
    let number = (split_sign s).1 in
    elim (Bool-cases (one_of words (to_ascii_lowercase number))) [
      | inl word ↦ sign_safe s (word_signable number word)
      | inr other ↦ sign_safe s (fraction_signable number (ground arith))
    ]

-- Whatever the value is, its literal begins and ends nothing that the scanner knows.
pub quote_sql_literal-Inert : (value : Text) → Inert (quote_sql_literal value)
unfolding quote_sql_literal
quote_sql_literal-Inert value =
    let t = trim value in
    elim (Bool-cases (parses_i128 t || parses_u128 t || parses_f64 t)) [
      | inl number ↦
          rw number (Inert-dash_safe t (ground (arith, i128_safe t, u128_safe t, f64_safe t)))
      | inr text ↦ rw text (unfold quote_sql_string in Inert-replace b'\'' t (inl refl))
    ]

-- A value that spells infinity or not-a-number, in any case and with a sign or without, goes out as
-- a bare word, not as a quoted string.
pub quote_sql_literal_word :
    (value : Text)
    → one_of
        (codes "inf" ∷ codes "infinity" ∷ codes "nan" ∷ [])
        (to_ascii_lowercase (split_sign (trim value)).1)
      ≡ true
    → quote_sql_literal value ≡ trim value
unfolding quote_sql_literal parses_f64
quote_sql_literal_word value h = ground arith
