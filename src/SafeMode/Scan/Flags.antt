-- ===== src/SafeMode/Scan/Flags.antt =====
-- The five flags of the scanner exclude one another.
use myr.Prelude.{
  ℕ, ◌+◌, ◌≤◌, Bool, true, false, Option, none, some, [], ◌∷◌, arith, Bool-cases, inl, inr,
}
use myr.Prelude.Text.{Text}
use myr.SafeMode.Scan.{Scanner, step, scan}

abbrev flag : Bool → ℕ
flag true = 1
flag false = 0

-- How many of the flags are set.
abbrev pub flags_set : Scanner → ℕ
flags_set s =
    flag s.in_single_quote
    + flag s.in_double_quote
    + flag s.in_backtick
    + flag s.in_line_comment
    + flag s.in_block_comment

step_flags :
    (s : Scanner) (ch : ℕ) (peek : Option ℕ) → flags_set s ≤ 1 → flags_set (step s ch peek).0 ≤ 1
unfolding step
step_flags s ch peek h = ground arith

-- Wherever the scan stands, at most one flag is set, if that was so at the start.
pub scan_flags : (sql : Text) (s : Scanner) → flags_set s ≤ 1 → flags_set (scan sql s) ≤ 1
unfolding scan
scan_flags [] s h = h
scan_flags (ch ∷ []) s h = step_flags s ch none h
scan_flags (ch ∷ next ∷ rest) s h = elim (Bool-cases (step s ch (some next)).1) [
  | inl taken ↦ rw (taken, scan) (scan_flags rest _ (step_flags s ch (some next) h))
  | inr kept ↦ rw (kept, scan) (scan_flags (next ∷ rest) _ (step_flags s ch (some next) h))
]
