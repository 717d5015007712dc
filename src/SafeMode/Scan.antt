-- ===== src/SafeMode/Scan.antt =====
-- crates/core/src/safe_mode.rs, `split_statements`: the loop over the characters with its five
-- flags. `chars.peek()` is the head of what is left; a step says whether it took that one too.
pub mod Grammar
pub mod Lexemes
pub mod Flags
pub mod Coverage
pub mod Inert
use myr.Prelude.{
  ℕ, ◌≡◌, refl, Bool, true, false, not, ◌&&◌, Option, none, some, List, [], ◌∷◌, ◌++◌, ◌==◌,
  if◌then◌else◌, is_empty,
}
use myr.Prelude.Text.{Text, codes, trim}

pub record Scanner : Type 0 where
  pub in_single_quote : Bool
  pub in_double_quote : Bool
  pub in_backtick : Bool
  pub in_line_comment : Bool
  pub in_block_comment : Bool
  pub current : Text
  pub statements : List Text

-- Between lexemes: no flag is set.
abbrev pub outside : Text → List Text → Scanner
outside current statements = record {
  in_single_quote = false;
  in_double_quote = false;
  in_backtick = false;
  in_line_comment = false;
  in_block_comment = false;
  current = current;
  statements = statements;
}

abbrev pub peeks : Option ℕ → ℕ → Bool
peeks none c = false
peeks (some d) c = d == c

abbrev push : Scanner → ℕ → Scanner
push s ch = record s { current = s.current ++ ch ∷ [] }

-- The trimmed text ends a statement, unless nothing is left of it.
abbrev pub add_statement : List Text → Text → List Text
add_statement statements statement =
    if is_empty statement then statements else statements ++ statement ∷ []

-- `match ch`
read_char : Scanner → ℕ → Scanner
read_char s ch =
    if ch == b'\'' && not s.in_double_quote && not s.in_backtick
    then push (record s { in_single_quote = not s.in_single_quote }) ch
    else if ch == b'"' && not s.in_single_quote && not s.in_backtick
    then push (record s { in_double_quote = not s.in_double_quote }) ch
    else if ch == b'`' && not s.in_single_quote && not s.in_double_quote
    then push (record s { in_backtick = not s.in_backtick }) ch
    else if ch == b';' && not s.in_single_quote && not s.in_double_quote && not s.in_backtick
    then record s { statements = add_statement s.statements (trim s.current); current = [] }
    else push s ch

-- One round of the loop. The second part tells that the peeked character was taken too.
pub step : Scanner → ℕ → Option ℕ → Scanner × Bool
unfolding read_char
step s ch peek =
    let unquoted = not s.in_single_quote && not s.in_double_quote && not s.in_backtick in
    if s.in_line_comment
    then (if ch == b'\n' then (record s { in_line_comment = false }, false) else (s, false))
    else if s.in_block_comment
    then (if ch == b'*' && peeks peek b'/'
        then (record s { in_block_comment = false }, true)
        else (s, false))
    else if unquoted && ch == b'-' && peeks peek b'-'
    then (record s { in_line_comment = true }, true)
    else if unquoted && ch == b'#'
    then (record s { in_line_comment = true }, false)
    else if unquoted && ch == b'/' && peeks peek b'*'
    then (record s { in_block_comment = true }, true)
    else (read_char s ch, false)

pub scan : Text → Scanner → Scanner
unfolding step
scan [] s = s
scan (ch ∷ []) s = (step s ch none).0
scan (ch ∷ next ∷ rest) s =
    let (s', taken) = step s ch (some next) in
    elim taken [ true ↦ scan rest s' | false ↦ scan (next ∷ rest) s' ]

-- The text behind the last semicolon.
pub finish : Scanner → List Text
finish s = add_statement s.statements (trim s.current)

unfoldable pub split_statements : Text → List Text
unfolding scan finish trim
split_statements sql = finish (scan sql (outside [] []))

split_runs :
    split_statements (codes "SELECT ';' -- a;b\n; /* x;y */ DROP `a;b` ;;")
    ≡ codes "SELECT ';'" ∷ codes "DROP `a;b`" ∷ []
unfolding split_statements
split_runs = refl
