-- ===== src/SafeMode/Examples.antt =====
-- The theorems on the safe mode at concrete texts.
use myr.Prelude.{◌≡◌, ◌↔◌, ◌⊎◌, refl, inl, true, some, List, [], ◌∷◌, arith}
use myr.Prelude.Text.{Text, codes}
use myr.SafeMode.Scan.{split_statements}
use myr.SafeMode.Scan.Lexemes.{
  Lexeme, Ending, plain, quoted, semicolon, open_dash, spell, statements_of, WellSpelled,
  split_statements-spell, LacksClose,
}
use myr.SafeMode.Scan.Coverage.{split_statements_complete}
use myr.SafeMode.Assess.{is_safe_read_only, first_keyword, is_safe_read_keyword, assess_sql_safety}
use myr.SafeMode.Assess.Verdict.{safe_iff, block_comment_safe}

-- `a;'x;y'-- c`
abbrev lexemes : List Lexeme
lexemes = plain b'a' ∷ semicolon ∷ quoted b'\'' (codes "x;y") ∷ []

abbrev ending : Ending
ending = open_dash (codes " c")

lexemes-WellSpelled : WellSpelled lexemes ending
lexemes-WellSpelled = (
  (
    omega arith,
    omega arith,
    omega arith,
    omega arith,
    omega arith,
    λ e. absurd (omega arith),
    λ e. absurd (omega arith),
  ),
  (inl refl, (omega arith, (omega arith, (omega arith, tt))), (omega arith, (omega arith, tt))),
)

split_statements-spell_example :
    split_statements (codes "a;'x;y'-- c") ≡ statements_of lexemes ending
split_statements-spell_example = split_statements-spell lexemes ending lexemes-WellSpelled

split_statements_complete_example :
    (ls : List Lexeme) × (e : Ending) × WellSpelled ls e
    × (spell ls e ≡ codes "a ' b")
    × (split_statements (codes "a ' b") ≡ statements_of ls e)
split_statements_complete_example = split_statements_complete (codes "a ' b")

abbrev word : Text
word = codes "DELETE"

abbrev select : Text
select = codes "select 1; drop table t"

safe_iff_example : (is_safe_read_only (assess_sql_safety select) ≡ true) ↔ (
    (split_statements select ≡ [])
    ⊎ ((s : Text) × (k : Text) × (split_statements select ≡ s ∷ [])
        × (first_keyword s ≡ some k)
        × (is_safe_read_keyword k ≡ true)))
safe_iff_example = safe_iff select

abbrev comment : Text
comment = codes "!drop"

comment-LacksClose : LacksClose comment
comment-LacksClose = (
  λ e. absurd (omega arith),
  (
    λ e. absurd (omega arith),
    (λ e. absurd (omega arith), (λ e. absurd (omega arith), (λ e. absurd (omega arith), tt))),
  ),
)

block_comment_safe_example : is_safe_read_only (assess_sql_safety (codes "/*!drop*/")) ≡ true
block_comment_safe_example = block_comment_safe comment comment-LacksClose
