-- ===== src/Prelude/Words.antt =====
-- Machine words: the largest values and the saturating operations of `u64`, `usize` and `u8`.
use Prim.Native.Nat.{ℕ, ◌+◌, ◌-◌, ◌*◌, ◌^◌, min}

-- `usize` has 64 bits, as on every platform that the program is released for.
abbrev pub max_u64 : ℕ
max_u64 = 2 ^ 64 - 1

abbrev pub saturating_add : ℕ → ℕ → ℕ
saturating_add a b = min max_u64 (a + b)

abbrev pub saturating_mul : ℕ → ℕ → ℕ
saturating_mul a b = min max_u64 (a * b)

abbrev pub saturating_sub : ℕ → ℕ → ℕ
saturating_sub a b = a - b
