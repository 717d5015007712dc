-- ===== src/Tui/Wizard.antt =====
-- crates/tui/src/state/wizard.rs, app_logic/input.rs (`*_wizard_edit`), app_logic/default.rs
-- (`wizard_form_from_profile`), app_logic/runtime/connect.rs (`wizard_profile`) and lib_helpers.rs
-- (the three `parse_*`): the form in which a connection profile is edited.
pub mod RoundTrip
mod Examples
use myr.Prelude.{
  ℕ, ◌≡◌, refl, Bool, true, false, Option, none, some, List, [], ◌∷◌, ◌^◌, all, is_empty, ltb, ◌==◌,
  if◌then◌else◌,
}
use myr.Prelude.Text.{Text, codes, trim, to_ascii_lowercase, one_of, is_ascii_digit}
use myr.Prelude.Text.Decimal.{decimal, read}
use myr.Profiles.{
  ConnectionProfile, new, profile, upsert_profile, TlsMode, disabled, prefer, require,
  verify_identity, PasswordSource, env_var, keyring,
}

pub data WizardField : Type 0 where
  profile_name host port user password_source database tls_mode read_only : WizardField

unfoldable pub next : WizardField → WizardField
next profile_name = host
next host = port
next port = user
next user = password_source
next password_source = database
next database = tls_mode
next tls_mode = read_only
next read_only = profile_name

pub record ConnectionWizardForm : Type 0 where
  pub profile_name : Text
  pub host : Text
  pub port : Text
  pub user : Text
  pub password_source : Text
  pub database : Text
  pub tls_mode : Text
  pub read_only : Text
  pub active_field : WizardField
  pub editing : Bool
  pub edit_buffer : Text

-- `ConnectionWizardForm::default`
abbrev pub default_form : ConnectionWizardForm
default_form = record {
  profile_name = codes "local-dev";
  host = codes "127.0.0.1";
  port = codes "3306";
  user = codes "root";
  password_source = codes "env";
  database = codes "app";
  tls_mode = codes "prefer";
  read_only = codes "no";
  active_field = WizardField.profile_name;
  editing = false;
  edit_buffer = [];
}

abbrev pub normalized : Text → Text
normalized value = to_ascii_lowercase (trim value)

unfoldable pub parse_password_source : Text → Option PasswordSource
parse_password_source value =
    if one_of (codes "env" ∷ codes "env_var" ∷ codes "envvar" ∷ codes "environment" ∷ [] ∷ [])
      (normalized value)
    then some env_var
    else if one_of (codes "keyring" ∷ codes "secure_store" ∷ codes "secure-store" ∷ [])
        (normalized value)
    then some keyring
    else none

unfoldable pub parse_tls_mode : Text → Option TlsMode
parse_tls_mode value =
    if one_of (codes "disabled" ∷ codes "off" ∷ codes "none" ∷ []) (normalized value)
    then some disabled
    else if one_of (codes "prefer" ∷ [] ∷ []) (normalized value)
    then some prefer
    else if one_of (codes "require" ∷ codes "required" ∷ []) (normalized value)
    then some require
    else if one_of
        (codes "verify_identity"
          ∷ codes "verify-identity"
          ∷ codes "verifyidentity"
          ∷ codes "verify"
          ∷ [])
        (normalized value)
    then some verify_identity
    else none

unfoldable pub parse_read_only_flag : Text → Option Bool
parse_read_only_flag value =
    if one_of
      (codes "1"
        ∷ codes "true"
        ∷ codes "yes"
        ∷ codes "y"
        ∷ codes "on"
        ∷ codes "ro"
        ∷ codes "read-only"
        ∷ [])
      (normalized value)
    then some true
    else if one_of
        (codes "0"
          ∷ codes "false"
          ∷ codes "no"
          ∷ codes "n"
          ∷ codes "off"
          ∷ codes "rw"
          ∷ codes "read-write"
          ∷ []
          ∷ [])
        (normalized value)
    then some false
    else none

-- `parse::<u16>`: at least one digit, maybe behind a plus sign, and no overflow.
abbrev pub parse_digits : Text → Option ℕ
parse_digits s =
    if is_empty s
    then none
    else if all is_ascii_digit s
    then (if ltb (read 0 s) (2 ^ 16) then some (read 0 s) else none)
    else none

unfoldable pub parse_u16 : Text → Option ℕ
parse_u16 [] = none
parse_u16 (c ∷ s) = if c == b'+' then parse_digits s else parse_digits (c ∷ s)

pub data WizardError : Type 0 where
  invalid_port invalid_password_source invalid_tls_mode invalid_read_only : WizardError

pub data WizardResult : Type 0 where
  ok : ConnectionProfile → WizardResult
  err : WizardError → WizardResult

unfoldable pub ok_or_else {ℓ} :
    {A : Type ℓ} → Option A → WizardError → (A → WizardResult) → WizardResult
ok_or_else none e f = err e
ok_or_else (some a) e f = f a

unfoldable pub form_database : Text → Option Text
form_database value = if is_empty (trim value) then none else some value

unfoldable pub wizard_profile : ConnectionWizardForm → WizardResult
unfolding ok_or_else
wizard_profile f = ok_or_else (parse_u16 f.port) invalid_port (λ port.
    ok_or_else (parse_password_source f.password_source) invalid_password_source (λ source.
      ok_or_else (parse_tls_mode f.tls_mode) invalid_tls_mode (λ mode.
        ok_or_else (parse_read_only_flag f.read_only) invalid_read_only (λ flag.
          ok (record (new f.profile_name f.host f.user) {
            port = port;
            database = form_database f.database;
            password_source = source;
            tls_mode = mode;
            read_only = flag;
          })))))

abbrev pub source_label : PasswordSource → Text
source_label env_var = codes "env"
source_label keyring = codes "keyring"

abbrev pub mode_label : TlsMode → Text
mode_label disabled = codes "disabled"
mode_label prefer = codes "prefer"
mode_label require = codes "require"
mode_label verify_identity = codes "verify_identity"

abbrev pub or_default : Option Text → Text
or_default none = []
or_default (some t) = t

unfoldable pub wizard_form_from_profile : ConnectionProfile → ConnectionWizardForm
wizard_form_from_profile p = record {
  profile_name = p.name;
  host = p.host;
  port = decimal p.port;
  user = p.user;
  password_source = source_label p.password_source;
  database = or_default p.database;
  tls_mode = mode_label p.tls_mode;
  read_only = if p.read_only then codes "yes" else codes "no";
  active_field = WizardField.profile_name;
  editing = false;
  edit_buffer = [];
}

unfoldable pub active_wizard_value : ConnectionWizardForm → Text
active_wizard_value f = elim f.active_field [
  | WizardField.profile_name ↦ f.profile_name
  | WizardField.host ↦ f.host
  | WizardField.port ↦ f.port
  | WizardField.user ↦ f.user
  | WizardField.password_source ↦ f.password_source
  | WizardField.database ↦ f.database
  | WizardField.tls_mode ↦ f.tls_mode
  | WizardField.read_only ↦ f.read_only
]

-- A write through `active_wizard_value_mut`.
unfoldable pub set_active_wizard_value : ConnectionWizardForm → Text → ConnectionWizardForm
set_active_wizard_value f value = elim f.active_field [
  | WizardField.profile_name ↦ record f { profile_name = value }
  | WizardField.host ↦ record f { host = value }
  | WizardField.port ↦ record f { port = value }
  | WizardField.user ↦ record f { user = value }
  | WizardField.password_source ↦ record f { password_source = value }
  | WizardField.database ↦ record f { database = value }
  | WizardField.tls_mode ↦ record f { tls_mode = value }
  | WizardField.read_only ↦ record f { read_only = value }
]

-- `apply_connected_profile`, where it saves the profile: the two marks stay as they were saved.
unfoldable pub profile_to_save : Option ConnectionProfile → ConnectionProfile → ConnectionProfile
profile_to_save none p = p
profile_to_save (some existing) p = record p {
  is_default = existing.is_default;
  quick_reconnect = existing.quick_reconnect;
}

unfoldable pub save_connected : List ConnectionProfile → ConnectionProfile → List ConnectionProfile
save_connected store p = upsert_profile store (profile_to_save (profile store p.name) p)

-- The three below are reached in the pane of the wizard only.
unfoldable pub start_wizard_edit : ConnectionWizardForm → ConnectionWizardForm
start_wizard_edit f =
    if f.editing then f else record f { editing = true; edit_buffer = active_wizard_value f }

unfoldable pub commit_wizard_edit : ConnectionWizardForm → ConnectionWizardForm
commit_wizard_edit f =
    if f.editing
    then record (set_active_wizard_value f f.edit_buffer) { editing = false; edit_buffer = [] }
    else f

unfoldable pub cancel_wizard_edit : ConnectionWizardForm → ConnectionWizardForm
cancel_wizard_edit f = if f.editing then record f { editing = false; edit_buffer = [] } else f
