-- ===== src/SafeMode/Scan/Inert.antt =====
-- Texts that the scanner copies: between statements they change no flag and end no statement.
use myr.Prelude.{
  ℕ, ◌≡◌, ◌≢◌, refl, sym, ap, ◌∙◌, Bool, true, not, ◌&&◌, List, [], ◌∷◌, ◌++◌, append_assoc,
  append-nil, ◌||◌, All-append, arith, all, All, ◌==◌, Bool-cases, inl, inr,
}
use myr.Prelude.Text.{Text, trim, replace}
use myr.Prelude.Text.Decimal.{decimal, decimal-IsDigit, IsDigit}
use myr.SafeMode.Scan.{outside, step, scan, finish, split_statements, add_statement}
use myr.SafeMode.Scan.Lexemes.{scan_kept, scan-quoted, IsQuote, Lacks}

-- However the text goes on, a scan that comes between lexemes to `f` leaves it between lexemes.
pub record Inert (f : Text) : Type 0 where
  pub copies :
      (rest cur : Text) (sts : List Text)
      → scan (f ++ rest) (outside cur sts) ≡ scan rest (outside (cur ++ f) sts)

pub Inert-nil : Inert []
Inert-nil = record { copies = λ rest cur sts. rw append-nil }

pub Inert-append : (f g : Text) → Inert f → Inert g → Inert (f ++ g)
Inert-append f g hf hg = record {
  copies = λ rest cur sts. rw (append_assoc f g rest) (
      hf.copies (g ++ rest) cur sts
      ∙ hg.copies rest (cur ++ f) sts
      ∙ rw (append_assoc cur f g) refl);
}

-- A character that begins nothing, whatever stands behind it.
unfoldable pub is_bland : ℕ → Bool
is_bland c =
    not (c == b'\'')
    && not (c == b'"')
    && not (c == b'`')
    && not (c == b';')
    && not (c == b'#')
    && not (c == b'-')
    && not (c == b'/')

scan_bland :
    (c : ℕ) (rest cur : Text) (sts : List Text)
    → is_bland c ≡ true
    → scan (c ∷ rest) (outside cur sts) ≡ scan rest (outside (cur ++ c ∷ []) sts)
scan_bland c rest cur sts h =
    scan_kept c rest (outside cur sts) (outside (cur ++ c ∷ []) sts)
      (unfold step is_bland in ground arith)

Inert-one : (c : ℕ) → is_bland c ≡ true → Inert (c ∷ [])
Inert-one c h = record { copies = λ rest cur sts. scan_bland c rest cur sts h }

pub Inert-bland : (f : Text) → all is_bland f ≡ true → Inert f
Inert-bland [] h = Inert-nil
Inert-bland (c ∷ f) h =
    Inert-append (c ∷ []) f (Inert-one c (ground arith)) (Inert-bland f (ground arith))

-- A quoted text without its own quote inside.
pub Inert-quoted : (q : ℕ) (body : Text) → IsQuote q → Lacks q body → Inert (q ∷ (body ++ q ∷ []))
Inert-quoted q body isq h = record {
  copies =
      λ rest cur sts. rw (append_assoc body (q ∷ []) rest) (scan-quoted q body rest cur sts isq h);
}

-- A text with its quotes doubled, between quotes: to the scanner it is several quoted texts.
replaced_behind :
    (q : ℕ) (pre s : Text)
    → IsQuote q
    → Lacks q pre
    → Inert (q ∷ (pre ++ (replace q (q ∷ q ∷ []) s ++ q ∷ [])))
unfolding replace
replaced_behind q pre [] isq h = Inert-quoted q pre isq h
replaced_behind q pre (c ∷ s) isq h = elim (Bool-cases (c == q)) [
  | inl same ↦
      rw (same, replace)
        (rw (← append_assoc pre (q ∷ []) (q ∷ (replace q (q ∷ q ∷ []) s ++ q ∷ []))) (
          Inert-append (q ∷ (pre ++ q ∷ [])) (q ∷ (replace q (q ∷ q ∷ []) s ++ q ∷ []))
            (Inert-quoted q pre isq h) (replaced_behind q [] s isq tt)))
  | inr other ↦
      rw (other, replace)
        (rw (← append_assoc pre (c ∷ []) (replace q (q ∷ q ∷ []) s ++ q ∷ [])) (
          replaced_behind q (pre ++ c ∷ []) s isq
            (All-append (λ d. d ≢ q) pre (c ∷ []) h (ground arith, tt))))
]

pub Inert-replace :
    (q : ℕ) (s : Text) → IsQuote q → Inert (q ∷ (replace q (q ∷ q ∷ []) s ++ q ∷ []))
Inert-replace q s isq = replaced_behind q [] s isq tt

digits_bland : (s : Text) → All IsDigit s → all is_bland s ≡ true
unfolding is_bland
digits_bland [] h = refl
digits_bland (c ∷ s) (h, hs) = rw (digits_bland s hs) (ground arith)

pub Inert-decimal : (n : ℕ) → Inert (decimal n)
Inert-decimal n = Inert-bland (decimal n) (digits_bland (decimal n) (decimal-IsDigit n))

-- A text whose dashes each stand before a bland character.
unfoldable pub dash_safe : Text → Bool
dash_safe [] = true
dash_safe (c ∷ []) = is_bland c
dash_safe (c ∷ d ∷ s) = (is_bland c || (c == b'-' && is_bland d)) && dash_safe (d ∷ s)

scan_dash :
    (d : ℕ) (rest cur : Text) (sts : List Text)
    → is_bland d ≡ true
    → scan (b'-' ∷ d ∷ rest) (outside cur sts) ≡ scan (d ∷ rest) (outside (cur ++ b'-' ∷ []) sts)
scan_dash d rest cur sts h =
    scan_kept b'-' (d ∷ rest) (outside cur sts) (outside (cur ++ b'-' ∷ []) sts)
      (unfold step is_bland in ground arith)

scan_first :
    (c d : ℕ) (rest cur : Text) (sts : List Text)
    → (is_bland c || (c == b'-' && is_bland d)) ≡ true
    → scan (c ∷ d ∷ rest) (outside cur sts) ≡ scan (d ∷ rest) (outside (cur ++ c ∷ []) sts)
scan_first c d rest cur sts h = elim (Bool-cases (is_bland c)) [
  | inl bland ↦ scan_bland c (d ∷ rest) cur sts bland
  | inr other ↦ let e : c ≡ b'-' = ground arith in rw e (scan_dash d rest cur sts (ground arith))
]

scan_safe :
    (f rest cur : Text) (sts : List Text)
    → dash_safe f ≡ true
    → scan (f ++ rest) (outside cur sts) ≡ scan rest (outside (cur ++ f) sts)
unfolding dash_safe
scan_safe [] rest cur sts h = rw append-nil
scan_safe (c ∷ []) rest cur sts h = scan_bland c rest cur sts h
scan_safe (c ∷ d ∷ f) rest cur sts h =
    scan_first c d (f ++ rest) cur sts (ground arith)
    ∙ scan_safe (d ∷ f) rest (cur ++ c ∷ []) sts (ground arith)
    ∙ rw append_assoc refl

pub Inert-dash_safe : (f : Text) → dash_safe f ≡ true → Inert f
Inert-dash_safe f h = record { copies = λ rest cur sts. scan_safe f rest cur sts h }

-- A text that the scanner copies is one statement, trimmed.
pub split_statements-Inert :
    (sql : Text) → Inert sql → split_statements sql ≡ add_statement [] (trim sql)
unfolding split_statements
split_statements-Inert sql h =
    ap finish (ap (λ t. scan t (outside [] [])) (sym (append-nil sql)) ∙ h.copies [] [] [])
    ∙ unfold scan finish in refl
