-- ===== src/Prelude/Text.antt =====
-- Text as a list of Unicode scalar values, with the methods of `str` and `char` that the program
-- calls, each by its documented behaviour.
pub mod Decimal
pub mod Trim
pub mod Order
use Prim.Native.Char.{code}
use Prim.Native.String.{String}
use mathlib.Core.List.{reverse}
use myr.Prelude.Tests.{Bool-cases, ltb, leb, ◌==◌, if◌then◌else◌, Eq}
use myr.Prelude.Lists.{any, All}
use Prim.Native.Nat.{ℕ, ◌+◌, ◌-◌}
use mathlib.Core.Path.{◌≡◌, refl}
use mathlib.Core.Logic.{◌↔◌, inl, inr}
use mathlib.Core.Bool.{Bool, true, false, false≢true, ◌&&◌, ◌||◌}
use mathlib.Core.List.{List, [], ◌∷◌, ◌++◌, map}
use native.Mathlib.Omega.{arith}

abbrev pub Text : Type 0
Text = List ℕ

-- A literal of the source.
abbrev pub codes : String → Text
codes String.[] = []
codes (String.◌∷◌ c s) = code c ∷ codes s

-- `==` on `str`
unfoldable pub text_eq : Text → Text → Bool
text_eq [] [] = true
text_eq [] (d ∷ t) = false
text_eq (c ∷ s) [] = false
text_eq (c ∷ s) (d ∷ t) = c == d && text_eq s t

pub text_eq_iff : (s t : Text) → (text_eq s t ≡ true) ↔ (s ≡ t)
unfolding text_eq
text_eq_iff [] [] = ground arith
text_eq_iff [] (d ∷ t) = ground arith
text_eq_iff (c ∷ s) [] = ground arith
text_eq_iff (c ∷ s) (d ∷ t) = ground (arith, text_eq_iff s t)

instance abbrev pub text_eq_instance : Eq Text
text_eq_instance = record { beq = text_eq; beq_iff = text_eq_iff }

-- A `match` of a text against literals.
abbrev pub one_of : List Text → Text → Bool
one_of ts s = any (text_eq s) ts

-- What holds for each literal holds for a text that matches one of them.
pub one_of_elim :
    (P : Text → Type 0) (ts : List Text) (k : Text) → one_of ts k ≡ true → All P ts → P k
one_of_elim P [] k h ps = absurd (false≢true h)
one_of_elim P (t ∷ ts) k h (p, ps) = elim (Bool-cases (text_eq k t)) [
  | inl same ↦ rw ((text_eq_iff k t).0 same) p
  | inr other ↦ one_of_elim P ts k (rw other at h) ps
]

-- `cmp` on `str`: by scalar values, which is also the order of the UTF-8 bytes.
unfoldable pub text_lt : Text → Text → Bool
text_lt [] [] = false
text_lt [] (d ∷ t) = true
text_lt (c ∷ s) [] = false
text_lt (c ∷ s) (d ∷ t) = ltb c d || (c == d && text_lt s t)

-- `char::is_whitespace`: the Unicode property White_Space.
unfoldable pub is_whitespace : ℕ → Bool
is_whitespace c =
    (leb 0x9 c && leb c 0xd)
    || c == 0x20
    || c == 0x85
    || c == 0xa0
    || c == 0x1680
    || (leb 0x2000 c && leb c 0x200a)
    || c == 0x2028
    || c == 0x2029
    || c == 0x202f
    || c == 0x205f
    || c == 0x3000

unfoldable pub is_ascii_digit : ℕ → Bool
is_ascii_digit c = leb b'0' c && leb c b'9'

unfoldable pub is_ascii_alphanumeric : ℕ → Bool
unfolding is_ascii_digit
is_ascii_alphanumeric c =
    is_ascii_digit c || (leb b'a' c && leb c b'z') || (leb b'A' c && leb c b'Z')

unfoldable pub to_upper : ℕ → ℕ
to_upper c = if leb b'a' c && leb c b'z' then c - 32 else c

unfoldable pub to_lower : ℕ → ℕ
to_lower c = if leb b'A' c && leb c b'Z' then c + 32 else c

unfoldable pub to_ascii_uppercase : Text → Text
unfolding to_upper
to_ascii_uppercase s = map to_upper s

unfoldable pub to_ascii_lowercase : Text → Text
unfolding to_lower
to_ascii_lowercase s = map to_lower s

unfoldable pub eq_ignore_ascii_case : Text → Text → Bool
unfolding to_ascii_lowercase text_eq
eq_ignore_ascii_case s t = text_eq (to_ascii_lowercase s) (to_ascii_lowercase t)

-- `trim_start_matches` with a test on characters; `trim_start` tests for white space.
unfoldable pub trim_start_by : (ℕ → Bool) → Text → Text
trim_start_by p [] = []
trim_start_by p (c ∷ s) = if p c then trim_start_by p s else c ∷ s

-- A character goes with the end of the text if nothing is left behind it.
unfoldable pub end_cons : (ℕ → Bool) → ℕ → Text → Text
end_cons p c [] = if p c then [] else c ∷ []
end_cons p c (d ∷ s) = c ∷ d ∷ s

unfoldable pub trim_end_by : (ℕ → Bool) → Text → Text
unfolding end_cons
trim_end_by p [] = []
trim_end_by p (c ∷ s) = end_cons p c (trim_end_by p s)

unfoldable pub trim_by : (ℕ → Bool) → Text → Text
unfolding trim_start_by trim_end_by
trim_by p s = trim_end_by p (trim_start_by p s)

unfoldable pub trim : Text → Text
unfolding trim_by is_whitespace
trim s = trim_by is_whitespace s

-- `split` at the characters that pass a test: there is always one piece, and pieces may be empty.
unfoldable pub split_at : (ℕ → Bool) → Text → Text → List Text
split_at p [] cur = cur ∷ []
split_at p (c ∷ s) cur = elim (p c) [
  | true ↦ cur ∷ split_at p s []
  | false ↦ split_at p s (cur ++ c ∷ [])
]

unfoldable pub split_by : (ℕ → Bool) → Text → List Text
unfolding split_at
split_by p s = split_at p s []

abbrev pub drop_empty : List Text → List Text
drop_empty [] = []
drop_empty ([] ∷ ws) = drop_empty ws
drop_empty ((c ∷ w) ∷ ws) = (c ∷ w) ∷ drop_empty ws

-- `split_whitespace` leaves the empty pieces out.
unfoldable pub split_whitespace : Text → List Text
unfolding split_by is_whitespace
split_whitespace s = drop_empty (split_by is_whitespace s)

unfoldable pub join : Text → List Text → Text
join sep [] = []
join sep (p ∷ []) = p
join sep (p ∷ q ∷ ps) = p ++ sep ++ join sep (q ∷ ps)

-- `replace` of one character by a text.
unfoldable pub replace : ℕ → Text → Text → Text
replace c by [] = []
replace c by (d ∷ s) = if d == c then by ++ replace c by s else d ∷ replace c by s

unfoldable pub starts_with : Text → Text → Bool
starts_with s [] = true
starts_with [] (d ∷ t) = false
starts_with (c ∷ s) (d ∷ t) = c == d && starts_with s t

unfoldable pub contains : Text → Text → Bool
unfolding starts_with
contains [] t = starts_with [] t
contains (c ∷ s) t = starts_with (c ∷ s) t || contains s t

unfoldable pub ends_with : Text → Text → Bool
unfolding starts_with
ends_with s t = starts_with (reverse s) (reverse t)

trim_runs : trim (codes " \tab c\n ") ≡ codes "ab c"
unfolding trim
trim_runs = refl

split_whitespace_runs : split_whitespace (codes "  ab \n c") ≡ codes "ab" ∷ codes "c" ∷ []
unfolding split_whitespace
split_whitespace_runs = refl
