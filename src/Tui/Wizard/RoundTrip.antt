-- ===== src/Tui/Wizard/RoundTrip.antt =====
-- A profile through the form.
use myr.Prelude.{
  ℕ, ◌<◌, ◌^◌, ◌≡◌, refl, sym, ap, ◌∙◌, ltb, ◌==◌, Bool, true, false, some, List, [], ◌∷◌, All, all,
  arith, is_empty, if◌then◌else◌,
}
use mathlib.Core.Bool.{true≢false}
use mathlib.Core.Path.{subst}
use myr.Prelude.Text.{Text, codes, trim, text_eq, text_eq_iff, to_ascii_lowercase, is_ascii_digit}
use myr.Prelude.Text.Decimal.{
  decimal, read, read-decimal, IsDigit, decimal-IsDigit, decimal_nonempty,
}
use myr.NamedStore.Lookup.{find-upsert}
use myr.NamedStore.Normalize.{IsAscending, IsAscending-IsDistinct}
use myr.Profiles.{
  ConnectionProfile, new, name_of, profile, upsert_profile, PasswordSource, TlsMode, env_var,
  keyring, disabled, prefer, require, verify_identity,
}
use myr.Tui.Wizard.{
  parse_password_source, parse_tls_mode, parse_read_only_flag, parse_u16, ok, ok_or_else,
  form_database, wizard_profile, source_label, profile_to_save, save_connected, mode_label,
  or_default, wizard_form_from_profile,
}

parse-source_label : (s : PasswordSource) → parse_password_source (source_label s) ≡ some s
unfolding parse_password_source trim to_ascii_lowercase text_eq
parse-source_label env_var = refl
parse-source_label keyring = refl

parse-mode_label : (m : TlsMode) → parse_tls_mode (mode_label m) ≡ some m
unfolding parse_tls_mode trim to_ascii_lowercase text_eq
parse-mode_label disabled = refl
parse-mode_label prefer = refl
parse-mode_label require = refl
parse-mode_label verify_identity = refl

parse-flag_label :
    (b : Bool) → parse_read_only_flag (if b then codes "yes" else codes "no") ≡ some b
unfolding parse_read_only_flag trim to_ascii_lowercase text_eq
parse-flag_label true = refl
parse-flag_label false = refl

all-IsDigit : (s : Text) → All IsDigit s → all is_ascii_digit s ≡ true
unfolding is_ascii_digit
all-IsDigit [] h = refl
all-IsDigit (c ∷ s) (hc, h) = ground (arith, all-IsDigit s h)

parse_u16-read :
    (s : Text)
    → All IsDigit s
    → is_empty s ≡ false
    → read 0 s < 2 ^ 16
    → parse_u16 s ≡ some (read 0 s)
unfolding parse_u16
parse_u16-read [] h k small = absurd (true≢false k)
parse_u16-read (c ∷ s) (hc, h) k small =
    let digit : (c == b'+') ≡ false = ground arith in
    let digits : all is_ascii_digit (c ∷ s) ≡ true = all-IsDigit (c ∷ s) (hc, h) in
    let fits : ltb (read 0 (c ∷ s)) (2 ^ 16) ≡ true = ground arith in rw (digit, digits, fits) refl

parse_u16-decimal : (n : ℕ) → n < 2 ^ 16 → parse_u16 (decimal n) ≡ some n
parse_u16-decimal n h =
    let small : read 0 (decimal n) < 2 ^ 16 = rw (read-decimal n) h in
    parse_u16-read (decimal n) (decimal-IsDigit n) (decimal_nonempty n) small
    ∙ ap some (read-decimal n)

-- What the form keeps of a profile: the options that it does not show are those of a new one.
abbrev pub kept : ConnectionProfile → ConnectionProfile
kept p = record (new p.name p.host p.user) {
  port = p.port;
  database = form_database (or_default p.database);
  password_source = p.password_source;
  tls_mode = p.tls_mode;
  read_only = p.read_only;
}

-- A profile with a 16-bit port goes through the form, except that a blank database becomes none
-- and the options without a field are lost.
pub wizard_profile-wizard_form_from_profile :
    (p : ConnectionProfile)
    → p.port < 2 ^ 16
    → wizard_profile (wizard_form_from_profile p) ≡ ok (kept p)
unfolding wizard_profile wizard_form_from_profile ok_or_else
wizard_profile-wizard_form_from_profile p h =
    rw
      (
        parse_u16-decimal p.port h,
        parse-source_label p.password_source,
        parse-mode_label p.tls_mode,
        parse-flag_label p.read_only,
      )
      refl

-- If the names ascend and a profile is saved under its name, a connection from a form that was
-- filled from it saves it without its keyring entry and its TLS options; the two marks stay.
pub save_connected-wizard_profile :
    (store : List ConnectionProfile) (p connected : ConnectionProfile)
    → IsAscending name_of store
    → profile store p.name ≡ some p
    → p.port < 2 ^ 16
    → wizard_profile (wizard_form_from_profile p) ≡ ok connected
    → profile (save_connected store connected) p.name
      ≡ some (record (kept p) { is_default = p.is_default; quick_reconnect = p.quick_reconnect })
unfolding save_connected profile_to_save profile upsert_profile
save_connected-wizard_profile store p connected ascending saved h made =
    let e : kept p ≡ connected =
      ok_injective (sym (wizard_profile-wizard_form_from_profile p h) ∙ made) in
    subst (λ q. profile (save_connected store q) p.name ≡ some last) e
      (ap (λ old. profile (upsert_profile store (profile_to_save old (kept p))) p.name) saved
        ∙ find-upsert name_of store last p.name (IsAscending-IsDistinct name_of store ascending)
        ∙ rw ((text_eq_iff p.name p.name).1 refl) refl)
  where
    last : ConnectionProfile
    last = record (kept p) { is_default = p.is_default; quick_reconnect = p.quick_reconnect }

    ok_injective : {a b : ConnectionProfile} → ok a ≡ ok b → a ≡ b
    ok_injective h = cc
