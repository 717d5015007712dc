-- ===== src/Prelude/Text/Decimal.antt =====
-- The decimal and hexadecimal prints of `format!`, and the reader that shows them injective.
use Prim.Native.Nat.{ℕ, zero, suc, ◌+◌, ◌-◌, ◌*◌, ◌/◌, ◌%◌, ◌≤◌, ◌<◌}
use mathlib.Core.Path.{◌≡◌, refl, sym, ap, ◌∙◌}
use mathlib.Core.Logic.{inl, inr}
use mathlib.Core.Bool.{false}
use mathlib.Core.List.{[], ◌∷◌, ◌++◌}
use native.Mathlib.Omega.{arith}
use myr.Prelude.Tests.{ltb, if◌then◌else◌, Bool-cases}
use myr.Prelude.Lists.{All, All-append, is_empty}
use myr.Prelude.Text.{Text, codes}

digits : ℕ → ℕ → Text
digits zero n = []
digits (suc fuel) n =
    let rest = digits fuel (n / 10) ++ (b'0' + n % 10) ∷ [] in
    if ltb n 10 then (b'0' + n) ∷ [] else rest

-- `{}` of an unsigned integer. A number has at most as many digits as it has units, and one.
unfoldable pub decimal : ℕ → Text
unfolding digits
decimal n = digits (suc n) n

decimal_runs : decimal 1203 ≡ codes "1203"
unfolding decimal
decimal_runs = refl

-- The number that digits spell behind `acc`.
abbrev pub read : ℕ → Text → ℕ
read acc [] = acc
read acc (c ∷ s) = read (acc * 10 + (c - b'0')) s

read_snoc : (acc d : ℕ) (s : Text) → read acc (s ++ d ∷ []) ≡ read acc s * 10 + (d - b'0')
read_snoc acc d [] = refl
read_snoc acc d (c ∷ s) = read_snoc (acc * 10 + (c - b'0')) d s

read-digits : (fuel n : ℕ) → n < fuel → read 0 (digits fuel n) ≡ n
unfolding digits
read-digits zero n h = absurd (omega arith)
read-digits (suc fuel) n h =
    ground (arith, read-digits fuel (n / 10), read_snoc 0 (b'0' + n % 10) (digits fuel (n / 10)))

pub read-decimal : (n : ℕ) → read 0 (decimal n) ≡ n
unfolding decimal
read-decimal n = read-digits (suc n) n (omega arith)

pub decimal_injective : (m n : ℕ) → decimal m ≡ decimal n → m ≡ n
decimal_injective m n h = sym (read-decimal m) ∙ ap (read 0) h ∙ read-decimal n

abbrev pub IsDigit : ℕ → Type 0
IsDigit c = (b'0' ≤ c) × (c ≤ b'9')

digits-IsDigit : (fuel n : ℕ) → All IsDigit (digits fuel n)
unfolding digits
digits-IsDigit zero n = tt
digits-IsDigit (suc fuel) n = elim (Bool-cases (ltb n 10)) [
  | inl small ↦ rw small (ground arith)
  | inr large ↦
      rw large
        (All-append IsDigit (digits fuel (n / 10)) _ (digits-IsDigit fuel (n / 10)) (omega arith))
]

pub decimal-IsDigit : (n : ℕ) → All IsDigit (decimal n)
unfolding decimal
decimal-IsDigit n = digits-IsDigit (suc n) n

digits_nonempty : (fuel n : ℕ) → is_empty (digits (suc fuel) n) ≡ false
unfolding digits
digits_nonempty fuel n = elim (Bool-cases (ltb n 10)) [
  | inl small ↦ rw small refl
  | inr large ↦ rw large (snoc (digits fuel (n / 10)) _)
]
  where
    snoc : (s : Text) (c : ℕ) → is_empty (s ++ c ∷ []) ≡ false
    snoc [] c = refl
    snoc (d ∷ s) c = refl

pub decimal_nonempty : (n : ℕ) → is_empty (decimal n) ≡ false
unfolding decimal
decimal_nonempty n = digits_nonempty n n

-- `{:016x}`: sixteen digits are enough for a `u64`.
hex_digits : ℕ → ℕ → Text
hex_digits zero n = []
hex_digits (suc k) n =
    let d = n % 16 in hex_digits k (n / 16) ++ (if ltb d 10 then b'0' + d else b'a' + (d - 10)) ∷ []

unfoldable pub hex16 : ℕ → Text
unfolding hex_digits
hex16 n = hex_digits 16 n

hex16_runs : hex16 48879 ≡ codes "000000000000beef"
unfolding hex16
hex16_runs = refl
