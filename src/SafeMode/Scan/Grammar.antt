-- ===== src/SafeMode/Scan/Grammar.antt =====
-- What SQL text looks like: lexemes, how they are spelled, and which statements they make. Nothing
-- here refers to the scanner.
use myr.Prelude.{ℕ, ◌≡◌, ◌≢◌, ◌⊎◌, Option, some, List, [], ◌∷◌, ◌++◌, map, All, first}
use myr.Prelude.Text.{Text, trim, drop_empty}

pub data Lexeme : Type 0 where
  plain : ℕ → Lexeme
  quoted : ℕ → Text → Lexeme
  dash_comment hash_comment block_comment : Text → Lexeme
  semicolon : Lexeme

-- What may stand behind the last lexeme: nothing, or a quote or a comment that is never closed.
pub data Ending : Type 0 where
  closed : Ending
  open_quote : ℕ → Text → Ending
  open_dash open_hash open_block : Text → Ending

abbrev pub spell_ending : Ending → Text
spell_ending closed = []
spell_ending (open_quote q body) = q ∷ body
spell_ending (open_dash body) = b'-' ∷ b'-' ∷ body
spell_ending (open_hash body) = b'#' ∷ body
spell_ending (open_block body) = b'/' ∷ b'*' ∷ body

abbrev pub spell : List Lexeme → Ending → Text
spell [] e = spell_ending e
spell (plain c ∷ ls) e = c ∷ spell ls e
spell (quoted q body ∷ ls) e = q ∷ (body ++ q ∷ spell ls e)
spell (dash_comment body ∷ ls) e = b'-' ∷ b'-' ∷ (body ++ b'\n' ∷ spell ls e)
spell (hash_comment body ∷ ls) e = b'#' ∷ (body ++ b'\n' ∷ spell ls e)
spell (block_comment body ∷ ls) e = b'/' ∷ b'*' ∷ (body ++ b'*' ∷ b'/' ∷ spell ls e)
spell (semicolon ∷ ls) e = b';' ∷ spell ls e

abbrev pub Lacks : ℕ → Text → Type 0
Lacks c = All (λ d. d ≢ c)

abbrev pub IsQuote : ℕ → Type 0
IsQuote q = (q ≡ b'\'') ⊎ (q ≡ b'"') ⊎ (q ≡ b'`')

-- No `*/` ends inside the text, also not with the `*/` that follows it.
abbrev pub LacksClose : Text → Type 0
LacksClose [] = Unit
LacksClose (c ∷ s) = (c ≡ b'*' → first s ≢ some b'/') × LacksClose s

-- A character that opens no quote and no comment before `next`, and is no semicolon.
abbrev pub IsPlain : ℕ → Option ℕ → Type 0
IsPlain c next =
    (c ≢ b'\'')
    × (c ≢ b'"')
    × (c ≢ b'`')
    × (c ≢ b';')
    × (c ≢ b'#')
    × (c ≡ b'-' → next ≢ some b'-')
    × (c ≡ b'/' → next ≢ some b'*')

abbrev pub IsEnding : Ending → Type 0
IsEnding closed = Unit
IsEnding (open_quote q body) = IsQuote q × Lacks q body
IsEnding (open_dash body) = Lacks b'\n' body
IsEnding (open_hash body) = Lacks b'\n' body
IsEnding (open_block body) = LacksClose body

abbrev pub WellSpelled : List Lexeme → Ending → Type 0
WellSpelled [] e = IsEnding e
WellSpelled (plain c ∷ ls) e = IsPlain c (first (spell ls e)) × WellSpelled ls e
WellSpelled (quoted q body ∷ ls) e = IsQuote q × Lacks q body × WellSpelled ls e
WellSpelled (dash_comment body ∷ ls) e = Lacks b'\n' body × WellSpelled ls e
WellSpelled (hash_comment body ∷ ls) e = Lacks b'\n' body × WellSpelled ls e
WellSpelled (block_comment body ∷ ls) e = LacksClose body × WellSpelled ls e
WellSpelled (semicolon ∷ ls) e = WellSpelled ls e

-- The texts between the semicolons, comments left out; the first one goes on from `cur`.
abbrev pub segments : List Lexeme → Ending → Text → List Text
segments [] (open_quote q body) cur = (cur ++ q ∷ body) ∷ []
segments [] e cur = cur ∷ []
segments (plain c ∷ ls) e cur = segments ls e (cur ++ c ∷ [])
segments (quoted q body ∷ ls) e cur = segments ls e (cur ++ q ∷ (body ++ q ∷ []))
segments (dash_comment body ∷ ls) e cur = segments ls e cur
segments (hash_comment body ∷ ls) e cur = segments ls e cur
segments (block_comment body ∷ ls) e cur = segments ls e cur
segments (semicolon ∷ ls) e cur = cur ∷ segments ls e []

abbrev pub statements_of : List Lexeme → Ending → List Text
statements_of ls e = drop_empty (map trim (segments ls e []))
