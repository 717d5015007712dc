-- ===== src/Prelude/Text/Trim.antt =====
-- What a trimmed text looks like.
use mathlib.Core.Path.{◌≡◌, refl}
use Prim.Native.Nat.{ℕ}
use mathlib.Core.Bool.{Bool, false}
use mathlib.Core.List.{[], ◌∷◌}
use native.Mathlib.Omega.{arith}
use myr.Prelude.Text.{Text, trim_start_by, end_cons, trim_end_by, trim_by, trim, is_whitespace}

-- The first character, if there is one, fails the test.
abbrev Starts : (ℕ → Bool) → Text → Type 0
Starts p [] = Unit
Starts p (c ∷ s) = p c ≡ false

-- The last character, if there is one, fails the test.
abbrev Ends : (ℕ → Bool) → Text → Type 0
Ends p [] = Unit
Ends p (c ∷ []) = p c ≡ false
Ends p (c ∷ d ∷ s) = Ends p (d ∷ s)

-- No character that passes the test stands at either end.
abbrev pub IsTrimmedBy : (ℕ → Bool) → Text → Type 0
IsTrimmedBy p s = Starts p s × Ends p s

abbrev pub IsTrimmed : Text → Type 0
IsTrimmed s = IsTrimmedBy is_whitespace s

module _ (p : ℕ → Bool) where
  trim_start-Starts : (s : Text) → Starts p (trim_start_by p s)
  unfolding trim_start_by
  trim_start-Starts [] = tt
  trim_start-Starts (c ∷ s) = ground (arith, trim_start-Starts s)

  end_cons-Ends : (c : ℕ) (s : Text) → Ends p s → Ends p (end_cons p c s)
  unfolding end_cons
  end_cons-Ends c [] h = ground arith
  end_cons-Ends c (d ∷ s) h = h

  trim_end-Ends : (s : Text) → Ends p (trim_end_by p s)
  unfolding trim_end_by
  trim_end-Ends [] = tt
  trim_end-Ends (c ∷ s) = end_cons-Ends c (trim_end_by p s) (trim_end-Ends s)

  end_cons-Starts : (c : ℕ) (s : Text) → p c ≡ false → Starts p (end_cons p c s)
  unfolding end_cons
  end_cons-Starts c [] h = rw h h
  end_cons-Starts c (d ∷ s) h = h

  trim_end-Starts : (s : Text) → Starts p s → Starts p (trim_end_by p s)
  unfolding trim_end_by
  trim_end-Starts [] h = tt
  trim_end-Starts (c ∷ s) h = end_cons-Starts c (trim_end_by p s) h

  pub trim_by-IsTrimmedBy : (s : Text) → IsTrimmedBy p (trim_by p s)
  unfolding trim_by
  trim_by-IsTrimmedBy s =
      (trim_end-Starts (trim_start_by p s) (trim_start-Starts s), trim_end-Ends (trim_start_by p s))

  trim_start_id : (s : Text) → Starts p s → trim_start_by p s ≡ s
  unfolding trim_start_by
  trim_start_id [] h = refl
  trim_start_id (c ∷ s) h = rw h

  trim_end_id : (s : Text) → Ends p s → trim_end_by p s ≡ s
  unfolding trim_end_by
  trim_end_id [] h = refl
  trim_end_id (c ∷ []) h = rw h
  trim_end_id (c ∷ d ∷ s) h = rw (trim_end_id (d ∷ s) h) refl

  pub trim_by_id : (s : Text) → IsTrimmedBy p s → trim_by p s ≡ s
  unfolding trim_by
  trim_by_id s (a, b) = rw (trim_start_id s a) (trim_end_id s b)

pub trim-IsTrimmed : (s : Text) → IsTrimmed (trim s)
unfolding trim
trim-IsTrimmed s = trim_by-IsTrimmedBy is_whitespace s

pub trim_idem : (s : Text) → trim (trim s) ≡ trim s
unfolding trim
trim_idem s = trim_by_id is_whitespace _ (trim_by-IsTrimmedBy is_whitespace s)
