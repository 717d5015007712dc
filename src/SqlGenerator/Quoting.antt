-- ===== src/SqlGenerator/Quoting.antt =====
-- What a server reads back from the quoted names and strings.
use myr.Prelude.{
  ℕ, ◌≡◌, ◌≢◌, refl, ap, ◌∙◌, Option, none, some, [], ◌∷◌, ◌++◌, append_assoc, arith, first, ◌==◌,
  if◌then◌else◌, Bool-cases, inl, inr,
}
use myr.Prelude.Text.{Text, codes, replace}
use myr.SqlGenerator.{quote_identifier, quote_sql_string}

abbrev cons_read : ℕ → Option (Text × Text) → Option (Text × Text)
cons_read c none = none
cons_read c (some (s, rest)) = some (c ∷ s, rest)

-- Reading behind an opening quote: two quotes stand for one, and a single one ends the text. The
-- result is the content and what is left; `none` means that the text is never closed.
pub read_quoted : ℕ → Text → Option (Text × Text)
read_quoted q [] = none
read_quoted q (c ∷ []) = if c == q then some ([], []) else none
read_quoted q (c ∷ d ∷ s) =
    let doubled = cons_read q (read_quoted q s) in
    let plain = cons_read c (read_quoted q (d ∷ s)) in
    if c == q then (if d == q then doubled else some ([], d ∷ s)) else plain

-- The same where a backslash takes the next character as it is, as a server reads strings unless
-- its mode is NO_BACKSLASH_ESCAPES.
pub read_escaped : ℕ → Text → Option (Text × Text)
read_escaped q [] = none
read_escaped q (c ∷ []) = if c == q then some ([], []) else none
read_escaped q (c ∷ d ∷ s) =
    let taken = cons_read d (read_escaped q s) in
    let doubled = cons_read q (read_escaped q s) in
    let plain = cons_read c (read_escaped q (d ∷ s)) in
    if c == b'\\'
    then taken
    else if c == q
    then (if d == q then doubled else some ([], d ∷ s))
    else plain

read_end : (q : ℕ) (rest : Text) → first rest ≢ some q → read_quoted q (q ∷ rest) ≡ some ([], rest)
unfolding read_quoted
read_end q [] h = ground arith
read_end q (d ∷ rest) h = ground arith

read_plain :
    (q c d : ℕ) (s : Text) → c ≢ q → read_quoted q (c ∷ d ∷ s) ≡ cons_read c (read_quoted q (d ∷ s))
unfolding read_quoted
read_plain q c d s h = elim (Bool-cases (c == q)) [
  | inl same ↦ absurd (h (ground arith))
  | inr other ↦ rw (other, read_quoted) refl
]

read_plain_before :
    (q c : ℕ) (x rest : Text)
    → c ≢ q
    → read_quoted q (c ∷ (x ++ q ∷ rest)) ≡ cons_read c (read_quoted q (x ++ q ∷ rest))
read_plain_before q c [] rest h = read_plain q c q rest h
read_plain_before q c (d ∷ x) rest h = read_plain q c d (x ++ q ∷ rest) h

read_doubled : (q : ℕ) (s : Text) → read_quoted q (q ∷ q ∷ s) ≡ cons_read q (read_quoted q s)
unfolding read_quoted
read_doubled q s = ground arith

-- Behind a text with its quotes doubled stands the closing quote.
read-replace :
    (q : ℕ) (s rest : Text)
    → first rest ≢ some q
    → read_quoted q (replace q (q ∷ q ∷ []) s ++ q ∷ rest) ≡ some (s, rest)
unfolding replace
read-replace q [] rest h = read_end q rest h
read-replace q (c ∷ s) rest h = elim (Bool-cases (c == q)) [
  | inl same ↦
      let e : c ≡ q = ground arith in
      rw (same, replace) (read_doubled q _ ∙ rw (read-replace q s rest h, e) refl)
  | inr other ↦
      rw (other, replace)
        (read_plain_before q c (replace q (q ∷ q ∷ []) s) rest (λ e. ground arith)
          ∙ rw (read-replace q s rest h) refl)
]

-- A server reads a quoted name back as it was, whatever characters it has, and goes on behind it,
-- unless what follows begins with a backtick.
pub read-quote_identifier :
    (name rest : Text)
    → first rest ≢ some b'`'
    → (body : Text) × (quote_identifier name ++ rest ≡ b'`' ∷ body)
      × (read_quoted b'`' body ≡ some (name, rest))
unfolding quote_identifier
read-quote_identifier name rest h = (
  replace b'`' (codes "``") name ++ b'`' ∷ rest,
  ap (◌∷◌ b'`') (append_assoc (replace b'`' (codes "``") name) (b'`' ∷ []) rest),
  read-replace b'`' name rest h,
)

-- A server in the mode NO_BACKSLASH_ESCAPES reads a quoted string back as it was and goes on behind
-- it, unless what follows begins with a quote.
pub read-quote_sql_string :
    (value rest : Text)
    → first rest ≢ some b'\''
    → (body : Text) × (quote_sql_string value ++ rest ≡ b'\'' ∷ body)
      × (read_quoted b'\'' body ≡ some (value, rest))
unfolding quote_sql_string
read-quote_sql_string value rest h = (
  replace b'\'' (codes "''") value ++ b'\'' ∷ rest,
  ap (◌∷◌ b'\'') (append_assoc (replace b'\'' (codes "''") value) (b'\'' ∷ []) rest),
  read-replace b'\'' value rest h,
)

-- Where a backslash escapes, a value that begins with a backslash, a quote and a character other
-- than a quote is read as one quote character: all that the value has from that character on
-- stands outside the string.
pub quote_sql_string_escapes :
    (c : ℕ) (tail : Text)
    → c ≢ b'\''
    → (body : Text) × (quote_sql_string (b'\\' ∷ b'\'' ∷ c ∷ tail) ≡ b'\'' ∷ body)
      × (read_escaped b'\'' body
          ≡ some (b'\'' ∷ [], c ∷ (replace b'\'' (codes "''") tail ++ b'\'' ∷ [])))
unfolding quote_sql_string read_escaped
quote_sql_string_escapes c tail h = (_, refl, ground arith)
