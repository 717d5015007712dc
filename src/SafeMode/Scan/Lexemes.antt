-- ===== src/SafeMode/Scan/Lexemes.antt =====
-- A description of SQL text that does not scan: a sequence of lexemes and an ending. What
-- `split_statements` returns is read off the lexemes.
use myr.Prelude.{
  ℕ, ◌≡◌, ◌⊎◌, inl, inr, refl, sym, Bool, true, false, some, List, [], ◌∷◌, ◌++◌, map, ap, ◌∙◌,
  append_assoc, append-nil, arith, first, ◌==◌,
}
use myr.Prelude.Text.{Text, trim, drop_empty}
use myr.SafeMode.Scan.{Scanner, outside, step, scan, finish, split_statements, add_statement}
pub use myr.SafeMode.Scan.Grammar.{
  Lexeme, Ending, plain, quoted, dash_comment, hash_comment, block_comment, semicolon, closed,
  open_quote, open_dash, open_hash, open_block, spell_ending, spell, Lacks, IsQuote, LacksClose,
  IsPlain, IsEnding, WellSpelled, segments, statements_of,
}

-- One step of the scan, by what the step says of the peeked character.
pub scan_kept :
    (ch : ℕ) (rest : Text) (s s' : Scanner)
    → step s ch (first rest) ≡ (s', false)
    → scan (ch ∷ rest) s ≡ scan rest s'
unfolding scan
scan_kept ch [] s s' h = ap (λ (p : Scanner × Bool). p.0) h
scan_kept ch (next ∷ rest) s s' h =
    rw (ap (λ (p : Scanner × Bool). p.1) h, scan)
      (ap (λ (p : Scanner × Bool). scan (next ∷ rest) p.0) h)

scan_taken :
    (ch next : ℕ) (rest : Text) (s s' : Scanner)
    → step s ch (some next) ≡ (s', true)
    → scan (ch ∷ next ∷ rest) s ≡ scan rest s'
unfolding scan
scan_taken ch next rest s s' h =
    rw (ap (λ (p : Scanner × Bool). p.1) h, scan) (ap (λ (p : Scanner × Bool). scan rest p.0) h)

-- Inside a quote, a line comment or a block comment.
abbrev quoting : ℕ → Text → List Text → Scanner
quoting q cur sts = record (outside cur sts) {
  in_single_quote = q == b'\'';
  in_double_quote = q == b'"';
  in_backtick = q == b'`';
}

abbrev in_line : Text → List Text → Scanner
in_line cur sts = record (outside cur sts) { in_line_comment = true }

abbrev in_block : Text → List Text → Scanner
in_block cur sts = record (outside cur sts) { in_block_comment = true }

scan_body :
    (q : ℕ) (body rest cur : Text) (sts : List Text)
    → IsQuote q
    → Lacks q body
    → scan (body ++ rest) (quoting q cur sts) ≡ scan rest (quoting q (cur ++ body) sts)
scan_body q [] rest cur sts isq h = rw append-nil
scan_body q (c ∷ body) rest cur sts isq h =
    scan_kept c (body ++ rest) (quoting q cur sts) (quoting q (cur ++ c ∷ []) sts)
      (unfold step in ground arith)
    ∙ rw (scan_body q body rest (cur ++ c ∷ []) sts isq h.1, append_assoc) refl

scan_line :
    (body rest cur : Text) (sts : List Text)
    → Lacks b'\n' body
    → scan (body ++ rest) (in_line cur sts) ≡ scan rest (in_line cur sts)
scan_line [] rest cur sts h = refl
scan_line (c ∷ body) rest cur sts h =
    scan_kept c (body ++ rest) (in_line cur sts) (in_line cur sts) (unfold step in ground arith)
    ∙ scan_line body rest cur sts h.1

-- Up to the close of a block comment, or the end of the text.
scan_block :
    (body rest cur : Text) (sts : List Text)
    → LacksClose body
    → (rest ≡ []) ⊎ (first rest ≡ some b'*')
    → scan (body ++ rest) (in_block cur sts) ≡ scan rest (in_block cur sts)
scan_block [] rest cur sts h r = refl
scan_block (c ∷ []) rest cur sts h r =
    scan_kept c rest (in_block cur sts) (in_block cur sts) (unfold step in ground arith)
scan_block (c ∷ d ∷ body) rest cur sts h r =
    scan_kept c (d ∷ (body ++ rest)) (in_block cur sts) (in_block cur sts)
      (unfold step in ground arith)
    ∙ scan_block (d ∷ body) rest cur sts h.1 r

scan_open :
    (q : ℕ) (rest cur : Text) (sts : List Text)
    → IsQuote q
    → scan (q ∷ rest) (outside cur sts) ≡ scan rest (quoting q (cur ++ q ∷ []) sts)
scan_open q rest cur sts isq =
    scan_kept q rest (outside cur sts) (quoting q (cur ++ q ∷ []) sts) (unfold step in ground arith)

scan_line_closed :
    (body rest cur : Text) (sts : List Text)
    → Lacks b'\n' body
    → scan (body ++ b'\n' ∷ rest) (in_line cur sts) ≡ scan rest (outside cur sts)
scan_line_closed body rest cur sts h =
    scan_line body (b'\n' ∷ rest) cur sts h
    ∙ scan_kept b'\n' rest (in_line cur sts) (outside cur sts) (unfold step in refl)

-- A statement added in front of others that follow.
add_statement_drop :
    (sts rest : List Text) (t : Text)
    → add_statement sts t ++ drop_empty rest ≡ sts ++ drop_empty (t ∷ rest)
add_statement_drop sts rest [] = refl
add_statement_drop sts rest (c ∷ t) = append_assoc sts ((c ∷ t) ∷ []) (drop_empty rest)

-- The flag that a quote sets is cleared by the same quote.
pub scan-quoted :
    (q : ℕ) (body rest cur : Text) (sts : List Text)
    → IsQuote q
    → Lacks q body
    → scan (q ∷ (body ++ q ∷ rest)) (outside cur sts)
      ≡ scan rest (outside (cur ++ q ∷ (body ++ q ∷ [])) sts)
scan-quoted q body rest cur sts isq h =
    scan_open q (body ++ q ∷ rest) cur sts isq
    ∙ scan_body q body (q ∷ rest) (cur ++ q ∷ []) sts isq h
    ∙ scan_kept q rest (quoting q ((cur ++ q ∷ []) ++ body) sts)
        (outside (((cur ++ q ∷ []) ++ body) ++ q ∷ []) sts) (unfold step in ground arith)
    ∙ simp append_assoc

-- What `finish` makes of a state depends on two of its fields.
finish_drop :
    (sts : List Text) (cur : Text) (s s' : Scanner)
    → s ≡ s'
    → s'.current ≡ cur
    → s'.statements ≡ sts
    → finish s ≡ sts ++ drop_empty (trim cur ∷ [])
unfolding finish
finish_drop sts cur s s' e ec es =
    rw (e, ec, es) (sym (append-nil _) ∙ add_statement_drop sts [] (trim cur))

ending_segments :
    (e : Ending) (cur : Text) (sts : List Text)
    → IsEnding e
    → finish (scan (spell_ending e) (outside cur sts))
      ≡ sts ++ drop_empty (map trim (segments [] e cur))
ending_segments closed cur sts h =
    unfold scan in finish_drop sts cur (scan [] (outside cur sts)) (outside cur sts) refl refl refl
ending_segments (open_quote q body) cur sts h =
    finish_drop sts (cur ++ q ∷ body) _ (quoting q (cur ++ q ∷ body) sts)
      (scan_open q body cur sts h.0
        ∙ ap (λ b. scan b (quoting q (cur ++ q ∷ []) sts)) (sym (append-nil body))
        ∙ scan_body q body [] (cur ++ q ∷ []) sts h.0 h.1
        ∙ unfold scan in simp append_assoc)
      refl refl
ending_segments (open_dash body) cur sts h =
    finish_drop sts cur _ (in_line cur sts)
      (scan_taken b'-' b'-' body (outside cur sts) (in_line cur sts) (unfold step in refl)
        ∙ ap (λ b. scan b (in_line cur sts)) (sym (append-nil body))
        ∙ scan_line body [] cur sts h
        ∙ unfold scan in refl)
      refl refl
ending_segments (open_hash body) cur sts h =
    finish_drop sts cur _ (in_line cur sts)
      (scan_kept b'#' body (outside cur sts) (in_line cur sts) (unfold step in refl)
        ∙ ap (λ b. scan b (in_line cur sts)) (sym (append-nil body))
        ∙ scan_line body [] cur sts h
        ∙ unfold scan in refl)
      refl refl
ending_segments (open_block body) cur sts h =
    finish_drop sts cur _ (in_block cur sts)
      (scan_taken b'/' b'*' body (outside cur sts) (in_block cur sts) (unfold step in refl)
        ∙ ap (λ b. scan b (in_block cur sts)) (sym (append-nil body))
        ∙ scan_block body [] cur sts h (inl refl)
        ∙ unfold scan in refl)
      refl refl

scan-segments :
    (ls : List Lexeme) (e : Ending) (cur : Text) (sts : List Text)
    → WellSpelled ls e
    → finish (scan (spell ls e) (outside cur sts))
      ≡ sts ++ drop_empty (map trim (segments ls e cur))
scan-segments [] e cur sts h = ending_segments e cur sts h
scan-segments (plain c ∷ ls) e cur sts h =
    ap finish (
      scan_kept c (spell ls e) (outside cur sts) (outside (cur ++ c ∷ []) sts)
        (unfold step in ground arith))
    ∙ scan-segments ls e (cur ++ c ∷ []) sts h.1
scan-segments (quoted q body ∷ ls) e cur sts h =
    ap finish (scan-quoted q body (spell ls e) cur sts h.0 h.1)
    ∙ scan-segments ls e (cur ++ q ∷ (body ++ q ∷ [])) sts h.2
scan-segments (dash_comment body ∷ ls) e cur sts h =
    ap finish (
      scan_taken b'-' b'-' (body ++ b'\n' ∷ spell ls e) (outside cur sts) (in_line cur sts)
        (unfold step in ground arith)
      ∙ scan_line_closed body (spell ls e) cur sts h.0)
    ∙ scan-segments ls e cur sts h.1
scan-segments (hash_comment body ∷ ls) e cur sts h =
    ap finish (
      scan_kept b'#' (body ++ b'\n' ∷ spell ls e) (outside cur sts) (in_line cur sts)
        (unfold step in ground arith)
      ∙ scan_line_closed body (spell ls e) cur sts h.0)
    ∙ scan-segments ls e cur sts h.1
scan-segments (block_comment body ∷ ls) e cur sts h =
    ap finish (
      scan_taken b'/' b'*' (body ++ b'*' ∷ b'/' ∷ spell ls e) (outside cur sts) (in_block cur sts)
        (unfold step in ground arith)
      ∙ scan_block body (b'*' ∷ b'/' ∷ spell ls e) cur sts h.0 (inr refl)
      ∙ scan_taken b'*' b'/' (spell ls e) (in_block cur sts) (outside cur sts)
          (unfold step in ground arith))
    ∙ scan-segments ls e cur sts h.1
scan-segments (semicolon ∷ ls) e cur sts h =
    ap finish (
      scan_kept b';' (spell ls e) (outside cur sts) (outside [] (add_statement sts (trim cur)))
        (unfold step in ground arith))
    ∙ scan-segments ls e [] (add_statement sts (trim cur)) h
    ∙ add_statement_drop sts (map trim (segments ls e [])) (trim cur)

-- However SQL text is put together from plain characters, quoted texts, comments and semicolons,
-- its statements are the texts between the semicolons with the comments left out, trimmed, without
-- those that are empty. A semicolon or a comment mark inside a quote splits nothing, a quote mark
-- inside a comment opens nothing, and a quote or comment that is never closed runs to the end.
pub split_statements-spell :
    (ls : List Lexeme) (e : Ending)
    → WellSpelled ls e
    → split_statements (spell ls e) ≡ statements_of ls e
unfolding split_statements
split_statements-spell ls e h = scan-segments ls e [] [] h
