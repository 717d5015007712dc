-- ===== src/Tui/Editor/Utf8.antt =====
-- Byte offsets at the seam of two texts.
use myr.Prelude.{
  ℕ, zero, suc, ◌+◌, ◌-◌, ◌<◌, ◌≡◌, refl, ap, ◌∙◌, true, false, some, [], ◌∷◌, ◌++◌, append_assoc,
  ltb, leb, ◌==◌, and_then, Bool-cases, inl, inr, arith,
}
use Prim.Native.Nat.{min}
use myr.Prelude.Text.{Text}
use myr.Tui.Editor.{
  len_utf8, byte_len, split_at_byte, is_char_boundary, boundary_below, without_last,
  previous_char_boundary, second_offset, next_char_boundary, remove_range,
}

pub len_utf8-suc : (c : ℕ) → (k : ℕ) × (len_utf8 c ≡ suc k)
unfolding len_utf8
len_utf8-suc c = elim (Bool-cases (ltb c 0x80)) [
  | inl small ↦ (0, rw small refl)
  | inr h ↦ elim (Bool-cases (ltb c 0x800)) [
    | inl two ↦ (1, rw (h, two) refl)
    | inr k ↦ elim (Bool-cases (ltb c 0x10000)) [
      | inl three ↦ (2, rw (h, k, three) refl)
      | inr four ↦ (3, rw (h, k, four) refl)
    ]
  ]
]

pub byte_len-append : (s t : Text) → byte_len (s ++ t) ≡ byte_len s + byte_len t
unfolding byte_len
byte_len-append [] t = omega arith
byte_len-append (c ∷ s) t = omega (arith, byte_len-append s t)

split-nil : (s : Text) → split_at_byte s 0 ≡ some ([], s)
unfolding split_at_byte
split-nil [] = refl
split-nil (c ∷ s) = refl

split-cons :
    (c : ℕ) (s : Text) (n : ℕ)
    → split_at_byte (c ∷ s) (len_utf8 c + n)
      ≡ and_then (split_at_byte s n) (λ parts. some (c ∷ parts.0, parts.1))
unfolding split_at_byte
split-cons c s n =
    let (k, e) = len_utf8-suc c in
    let whole : len_utf8 c + n ≡ suc (k + n) = omega arith in
    let fits : leb (len_utf8 c) (suc (k + n)) ≡ true = ground arith in
    let left : suc (k + n) - len_utf8 c ≡ n = omega arith in
    ap (split_at_byte (c ∷ s)) whole ∙ simp (fits, left) refl

pub split-append : (s t : Text) → split_at_byte (s ++ t) (byte_len s) ≡ some (s, t)
unfolding byte_len
split-append [] t = split-nil t
split-append (c ∷ s) t = split-cons c (s ++ t) (byte_len s) ∙ rw (split-append s t) refl

is_char_boundary_at :
    (s : Text) (n : ℕ) (parts : Text × Text)
    → split_at_byte s n ≡ some parts
    → is_char_boundary s n ≡ true
unfolding is_char_boundary
is_char_boundary_at s n parts h = rw h refl

boundary_below_at :
    (s : Text) (n : ℕ) (parts : Text × Text)
    → split_at_byte s n ≡ some parts
    → boundary_below s n ≡ n
unfolding boundary_below
boundary_below_at s zero parts h = refl
boundary_below_at s (suc n) parts h = rw (is_char_boundary_at s (suc n) parts h) refl

pub boundary_below-append : (s t : Text) → boundary_below (s ++ t) (byte_len s) ≡ byte_len s
boundary_below-append s t = boundary_below_at (s ++ t) (byte_len s) (s, t) (split-append s t)

pub without_last-snoc : (s : Text) (c : ℕ) → without_last (s ++ c ∷ []) ≡ s
unfolding without_last
without_last-snoc [] c = refl
without_last-snoc (d ∷ []) c = refl
without_last-snoc (d ∷ e ∷ s) c = ap (◌∷◌ d) (without_last-snoc (e ∷ s) c)

pub min-append : (s t : Text) → min (byte_len s) (byte_len (s ++ t)) ≡ byte_len s
min-append s t = omega (arith, byte_len-append s t)

pub byte_len-snoc : (s : Text) (c : ℕ) → (byte_len (s ++ c ∷ []) == 0) ≡ false
unfolding byte_len
byte_len-snoc s c =
    let (k, e) = len_utf8-suc c in
    let whole : byte_len (s ++ c ∷ []) ≡ byte_len s + (len_utf8 c + 0) =
      byte_len-append s (c ∷ []) in
    ground arith

pub previous-snoc :
    (s : Text) (c : ℕ) (t : Text)
    → previous_char_boundary ((s ++ c ∷ []) ++ t) (byte_len (s ++ c ∷ [])) ≡ some (byte_len s)
unfolding previous_char_boundary
previous-snoc s c t =
    rw
      (
        min-append (s ++ c ∷ []) t,
        byte_len-snoc s c,
        split-append (s ++ c ∷ []) t,
        without_last-snoc s c,
      )
      refl

-- At a boundary before the end, and at the end.
next-inside :
    (s t : Text)
    → byte_len s < byte_len (s ++ t)
    → next_char_boundary (s ++ t) (byte_len s)
      ≡ some (second_offset t (byte_len s) (byte_len (s ++ t)))
unfolding next_char_boundary
next-inside s t h =
    let inside : leb (byte_len (s ++ t)) (byte_len s) ≡ false = ground arith in
    rw (min-append s t, inside, split-append s t) refl

pub next-cons :
    (s : Text) (c : ℕ) (t : Text)
    → next_char_boundary (s ++ c ∷ t) (byte_len s) ≡ some (byte_len (s ++ c ∷ []))
unfolding byte_len second_offset
next-cons s c [] =
    let (k, e) = len_utf8-suc c in
    next-inside s (c ∷ []) (omega (arith, byte_len-append s (c ∷ [])))
next-cons s c (d ∷ t) =
    let (k, e) = len_utf8-suc c in
    next-inside s (c ∷ d ∷ t) (omega (arith, byte_len-append s (c ∷ d ∷ t)))
    ∙ ap some (omega (arith, byte_len-append s (c ∷ [])))

pub next-nil : (s : Text) → next_char_boundary (s ++ []) (byte_len s) ≡ some (byte_len s)
unfolding next_char_boundary byte_len
next-nil s =
    let end : byte_len (s ++ []) ≡ byte_len s = omega (arith, byte_len-append s []) in
    let stop : leb (byte_len s) (byte_len s) ≡ true = ground arith in
    rw (min-append s [], end, stop) refl

pub remove-range :
    (s : Text) (c : ℕ) (t : Text)
    → remove_range ((s ++ c ∷ []) ++ t) (byte_len s) (byte_len (s ++ c ∷ [])) ≡ some (s ++ t)
unfolding remove_range
remove-range s c t =
    let front : split_at_byte ((s ++ c ∷ []) ++ t) (byte_len s) ≡ some (s, (c ∷ []) ++ t) =
      ap (λ text. split_at_byte text (byte_len s)) (append_assoc s (c ∷ []) t)
      ∙ split-append s ((c ∷ []) ++ t) in
    rw (front, split-append (s ++ c ∷ []) t) refl
