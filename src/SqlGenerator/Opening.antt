-- ===== src/SqlGenerator/Opening.antt =====
-- How the generated statements begin, and that their parts neither end nor split a statement.
use myr.Prelude.{ℕ, ◌≡◌, refl, ◌∙◌, true, false, Option, none, some, [], ◌∷◌, ◌++◌, inl, inr, all}
use myr.Prelude.Text.{Text, codes, trim, is_whitespace, trim_end_by, trim_start_by, end_cons}
use myr.SafeMode.Scan.{add_statement, split_statements}
use myr.SafeMode.Scan.Inert.{
  split_statements-Inert, Inert, Inert-append, Inert-bland, Inert-replace, is_bland,
}
use myr.SafeMode.Assess.{first_keyword, is_safe_read_keyword}
use myr.SqlGenerator.{SqlTarget, qualified, quote_identifier, quote_sql_string, qualified_table_sql}

-- The text has exactly one statement, and its first word is one of the reading keywords.
abbrev pub IsReadSql : Text → Type 0
IsReadSql sql =
    (s : Text) × (k : Text) × (split_statements sql ≡ s ∷ [])
    × (first_keyword s ≡ some k)
    × (is_safe_read_keyword k ≡ true)

-- Characters that are not white space keep what stands before them from being trimmed.
trim_end_kept :
    (c : ℕ) (s : Text)
    → is_whitespace c ≡ false
    → (r : Text) × (trim_end_by is_whitespace (c ∷ s) ≡ c ∷ r)
unfolding trim_end_by
trim_end_kept c s h = keep (trim_end_by is_whitespace s)
  where
    keep : (r : Text) → (r' : Text) × (end_cons is_whitespace c r ≡ c ∷ r')
    keep [] = ([], unfold end_cons in rw h refl)
    keep (d ∷ r) = (d ∷ r, unfold end_cons in refl)

trim_end_before :
    (b : ℕ) (s r : Text) (c : ℕ)
    → trim_end_by is_whitespace s ≡ c ∷ r
    → trim_end_by is_whitespace (b ∷ s) ≡ b ∷ c ∷ r
unfolding trim_end_by end_cons
trim_end_before b s r c e = rw (e, end_cons) refl

-- A text up to a character that is not white space is kept.
trim_end-append :
    (a : Text) (c : ℕ) (s : Text)
    → is_whitespace c ≡ false
    → (r : Text) × (trim_end_by is_whitespace (a ++ c ∷ s) ≡ a ++ c ∷ r)
trim_end-append [] c s h = trim_end_kept c s h
trim_end-append (b ∷ []) c s h =
    let (r, e) = trim_end_kept c s h in (r, trim_end_before b (c ∷ s) r c e)
trim_end-append (b ∷ d ∷ a) c s h =
    let (r, e) = trim_end-append (d ∷ a) c s h in
    (r, trim_end_before b (d ∷ (a ++ c ∷ s)) (a ++ c ∷ r) d e)

add_nonempty :
    (word : Text) (c : ℕ) (r : Text) → add_statement [] (word ++ c ∷ r) ≡ (word ++ c ∷ r) ∷ []
add_nonempty [] c r = refl
add_nonempty (b ∷ word) c r = refl

-- A text that begins with a word of letters, a space and something behind it.
pub Inert-safe :
    (word : Text) (c : ℕ) (rest k : Text)
    → Inert (word ++ c ∷ rest)
    → ((r : Text) → trim_start_by is_whitespace (word ++ c ∷ r) ≡ word ++ c ∷ r)
    → ((r : Text) → first_keyword (word ++ c ∷ r) ≡ some k)
    → is_whitespace c ≡ false
    → is_safe_read_keyword k ≡ true
    → IsReadSql (word ++ c ∷ rest)
unfolding trim
Inert-safe word c rest k inert starts keyword visible safe =
    let sql = word ++ c ∷ rest in
    let (r, e) = trim_end-append word c rest visible in
    let trimmed : trim sql ≡ word ++ c ∷ r = rw (starts rest) e in
    (
      word ++ c ∷ r,
      k,
      split_statements-Inert sql inert ∙ rw trimmed (add_nonempty word c r),
      keyword r,
      safe,
    )

-- The opening words of the generated statements.
module _ (c : ℕ) (visible : is_whitespace c ≡ false) where
  pub select_safe :
      (rest : Text) → Inert (codes "SELECT " ++ c ∷ rest) → IsReadSql (codes "SELECT " ++ c ∷ rest)
  unfolding trim_start_by is_whitespace first_keyword is_safe_read_keyword
  select_safe rest inert =
      Inert-safe (codes "SELECT ") c rest (codes "SELECT") inert (λ r. refl) (λ r. refl) visible
        refl

  pub show_safe :
      (rest : Text) → Inert (codes "SHOW " ++ c ∷ rest) → IsReadSql (codes "SHOW " ++ c ∷ rest)
  unfolding trim_start_by is_whitespace first_keyword is_safe_read_keyword
  show_safe rest inert =
      Inert-safe (codes "SHOW ") c rest (codes "SHOW") inert (λ r. refl) (λ r. refl) visible refl

  pub describe_safe :
      (rest : Text)
      → Inert (codes "DESCRIBE " ++ c ∷ rest)
      → IsReadSql (codes "DESCRIBE " ++ c ∷ rest)
  unfolding trim_start_by is_whitespace first_keyword is_safe_read_keyword
  describe_safe rest inert =
      Inert-safe (codes "DESCRIBE ") c rest (codes "DESCRIBE") inert (λ r. refl) (λ r. refl) visible
        refl

pub quote_identifier-Inert : (name : Text) → Inert (quote_identifier name)
unfolding quote_identifier
quote_identifier-Inert name = Inert-replace b'`' name (inr (inr refl))

pub quote_sql_string-Inert : (value : Text) → Inert (quote_sql_string value)
unfolding quote_sql_string
quote_sql_string-Inert value = Inert-replace b'\'' value (inl refl)

infixl 65 ◌⊕◌
pub ◌⊕◌ : {f g : Text} → Inert f → Inert g → Inert (f ++ g)
a ⊕ b = Inert-append _ _ a b

qualified-Inert : (database : Option Text) (table : Text) → Inert (qualified database table)
unfolding is_bland
qualified-Inert none table = quote_identifier-Inert table
qualified-Inert (some database) table =
    quote_identifier-Inert database ⊕ (Inert-bland (b'.' ∷ []) refl ⊕ quote_identifier-Inert table)

pub qualified_table-Inert : (target : SqlTarget) → Inert (qualified_table_sql target)
unfolding qualified_table_sql
qualified_table-Inert target = qualified-Inert target.database target.table

pub lit : (s : Text) → all is_bland s ≡ true → Inert s
lit s h = Inert-bland s h

-- A qualified name begins with a backtick.
pub qualified_first :
    (database : Option Text) (table : Text) → (r : Text) × (qualified database table ≡ b'`' ∷ r)
unfolding quote_identifier
qualified_first none table = (_, refl)
qualified_first (some database) table = (_, refl)
