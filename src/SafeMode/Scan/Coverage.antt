-- ===== src/SafeMode/Scan/Coverage.antt =====
-- Every text is spelled by some lexemes and an ending, so the description leaves no input out.
use myr.Prelude.{
  ℕ, zero, suc, ◌<◌, ◌≡◌, ◌≢◌, ◌⊎◌, inl, inr, refl, sym, ap, ◌∙◌, ◌≤◌, ◌&&◌, ◌||◌, some, List, [],
  ◌∷◌, ◌++◌, arith, length, length-append, first, ◌==◌, Bool-cases,
}
use myr.Prelude.Text.{Text}
use myr.SafeMode.Scan.{split_statements}
use myr.SafeMode.Scan.Lexemes.{
  Lexeme, plain, quoted, dash_comment, hash_comment, block_comment, semicolon, Ending, closed,
  open_quote, open_dash, open_hash, open_block, spell, Lacks, LacksClose, IsQuote, IsPlain,
  WellSpelled, statements_of, split_statements-spell,
}

-- A text up to the first `c`, or the whole of a text that lacks it.
abbrev Cut : ℕ → Text → Type 0
Cut c t = ((body : Text) × (rest : Text) × Lacks c body × (t ≡ body ++ c ∷ rest)) ⊎ Lacks c t

cut : (c : ℕ) (t : Text) → Cut c t
cut c [] = inr tt
cut c (d ∷ t) = elim (Bool-cases (d == c)) [
  | inl same ↦ inl ([], t, tt, ground arith)
  | inr other ↦ extend (cut c t) (ground arith)
]
  where
    extend : Cut c t → d ≢ c → Cut c (d ∷ t)
    extend (inl (body, rest, h, e)) ne = inl (d ∷ body, rest, (ne, h), ap (◌∷◌ d) e)
    extend (inr h) ne = inr (ne, h)

abbrev CutClose : Text → Type 0
CutClose t =
    ((body : Text) × (rest : Text) × LacksClose body × (t ≡ body ++ 42 ∷ 47 ∷ rest)) ⊎ LacksClose t

-- The first character of what stands before a close.
first_body : (body rest : Text) → first (body ++ 42 ∷ 47 ∷ rest) ≢ some 47 → first body ≢ some 47
first_body [] rest h = ground arith
first_body (c ∷ body) rest h = h

cut_close : (t : Text) → CutClose t
cut_close [] = inr tt
cut_close (c ∷ []) = inr (λ _. ground arith, tt)
cut_close (c ∷ d ∷ t) = elim (Bool-cases (c == 42)) [
  | inl star ↦ elim (Bool-cases (d == 47)) [
    | inl slash ↦ inl ([], t, tt, ground arith)
    | inr other ↦ extend (cut_close (d ∷ t)) (λ _. ground arith)
  ]
  | inr other ↦ extend (cut_close (d ∷ t)) (λ e. absurd (ground arith))
]
  where
    extend : CutClose (d ∷ t) → (c ≡ 42 → first (d ∷ t) ≢ some 47) → CutClose (c ∷ d ∷ t)
    extend (inl (body, rest, h, e)) ne =
        inl (c ∷ body, rest, (λ s. first_body body rest (rw (← e) (ne s)), h), ap (◌∷◌ c) e)
    extend (inr h) ne = inr (ne, h)

-- What is behind a cut is shorter.
shorter : (body rest : Text) (c : ℕ) (t : Text) → t ≡ body ++ c ∷ rest → length rest ≤ length t
shorter body rest c t e = omega (arith, ap length e, length-append body (c ∷ rest))

abbrev Spelling : Text → Type 0
Spelling t = (ls : List Lexeme) × (e : Ending) × WellSpelled ls e × (spell ls e ≡ t)

-- What the first character of a text begins.
data Start (c : ℕ) (t : Text) : Type 0 where
  quote : IsQuote c → Start c t
  hash : c ≡ 35 → Start c t
  semi : c ≡ 59 → Start c t
  dashes : (u : Text) → c ≡ 45 → t ≡ 45 ∷ u → Start c t
  block : (u : Text) → c ≡ 47 → t ≡ 42 ∷ u → Start c t
  other : IsPlain c (first t) → Start c t

abbrev Unpaired : ℕ → Text → Type 0
Unpaired c t = (c ≡ 45 → first t ≢ some 45) × (c ≡ 47 → first t ≢ some 42)

-- A character that opens no comment together with the next one.
start_one : (c : ℕ) (t : Text) → Unpaired c t → Start c t
start_one c t u = elim (Bool-cases (c == 39 || c == 34 || c == 96)) [
  | inl q ↦ quote (ground arith)
  | inr nq ↦ elim (Bool-cases (c == 35)) [
    | inl h ↦ hash (ground arith)
    | inr nh ↦ elim (Bool-cases (c == 59)) [
      | inl h ↦ semi (ground arith)
      | inr ns ↦
          other (ground arith, ground arith, ground arith, ground arith, ground arith, u.0, u.1)
    ]
  ]
]

start_pair : (c d : ℕ) (t : Text) → Start c (d ∷ t)
start_pair c d t = elim (Bool-cases (c == 45 && d == 45)) [
  | inl yes_dash ↦ dashes t (ground arith) (ground arith)
  | inr no_dash ↦ elim (Bool-cases (c == 47 && d == 42)) [
    | inl yes_block ↦ block t (ground arith) (ground arith)
    | inr no_block ↦ start_one c (d ∷ t) (λ e. ground arith, λ e. ground arith)
  ]
]

start : (c : ℕ) (t : Text) → Start c t
start c [] = start_one c [] (λ _. ground arith, λ _. ground arith)
start c (d ∷ t) = start_pair c d t

-- The lexeme that begins a text, and the spelling of what is behind it.
extend-Spelling :
    (c : ℕ) (t : Text)
    → Start c t
    → ((u : Text) → length u ≤ length t → Spelling u)
    → Spelling (c ∷ t)
extend-Spelling c t (quote isq) more = elim (cut c t) [
  | inl (body, rest, h, e) ↦
      let (ls, en, w, eq) = more rest (shorter body rest c t e) in
      (quoted c body ∷ ls, en, (isq, h, w), cc)
  | inr h ↦ ([], open_quote c t, (isq, h), refl)
]
extend-Spelling c t (hash ec) more = elim (cut 10 t) [
  | inl (body, rest, h, e) ↦
      let (ls, en, w, eq) = more rest (shorter body rest 10 t e) in
      (hash_comment body ∷ ls, en, (h, w), cc)
  | inr h ↦ ([], open_hash t, h, cc)
]
extend-Spelling c t (semi ec) more =
    let (ls, en, w, eq) = more t (omega arith) in (semicolon ∷ ls, en, w, cc)
extend-Spelling c t (dashes u ec et) more = elim (cut 10 u) [
  | inl (body, rest, h, e) ↦
      let (ls, en, w, eq) = more rest (omega (arith, ap length et, shorter body rest 10 u e)) in
      (dash_comment body ∷ ls, en, (h, w), cc)
  | inr h ↦ ([], open_dash u, h, cc)
]
extend-Spelling c t (block u ec et) more = elim (cut_close u) [
  | inl (body, rest, h, e) ↦
      let (ls, en, w, eq) =
        more rest (omega (arith, ap length et, shorter body (47 ∷ rest) 42 u e)) in
      (block_comment body ∷ ls, en, (h, w), cc)
  | inr h ↦ ([], open_block u, h, cc)
]
extend-Spelling c t (other p) more =
    let (ls, en, w, eq) = more t (omega arith) in (plain c ∷ ls, en, (rw eq p, w), ap (◌∷◌ c) eq)

Spelling-within : (fuel : ℕ) (t : Text) → length t < fuel → Spelling t
Spelling-within zero t h = absurd (omega arith)
Spelling-within (suc fuel) [] h = ([], closed, tt, refl)
Spelling-within (suc fuel) (c ∷ t) h =
    extend-Spelling c t (start c t) (λ u le. Spelling-within fuel u (omega arith))

-- Every text, well-formed SQL or not, is spelled by lexemes and an ending, and the statements that
-- `split_statements` returns for it are those that are read off that spelling.
pub split_statements_complete :
    (sql : Text)
    → (ls : List Lexeme) × (e : Ending) × WellSpelled ls e
      × (spell ls e ≡ sql)
      × (split_statements sql ≡ statements_of ls e)
split_statements_complete sql =
    let (ls, e, w, eq) = Spelling-within (suc (length sql)) sql (omega arith) in
    (ls, e, w, eq, ap split_statements (sym eq) ∙ split_statements-spell ls e w)
