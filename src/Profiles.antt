-- ===== src/Profiles.antt =====
-- crates/core/src/profiles.rs: the profile of a connection, and the saved profiles without their
-- file.
pub mod Refinement
pub mod Marks
mod Examples
use myr.Prelude.{ℕ, Bool, true, false, Option, none, List, map, any, find, if◌then◌else◌}
use myr.Prelude.Text.{Text, text_eq}
use myr.NamedStore.{named, upsert, delete, normalize}

pub data TlsMode : Type 0 where
  disabled prefer require verify_identity : TlsMode

pub data PasswordSource : Type 0 where
  env_var keyring : PasswordSource

pub record ConnectionProfile : Type 0 where
  pub name : Text
  pub host : Text
  pub port : ℕ
  pub user : Text
  pub database : Option Text
  pub tls_mode : TlsMode
  pub password_source : PasswordSource
  pub keyring_service : Option Text
  pub keyring_account : Option Text
  pub tls_ca_cert_path : Option Text
  pub tls_client_cert_path : Option Text
  pub tls_client_key_path : Option Text
  pub tls_disable_built_in_roots : Bool
  pub tls_skip_domain_validation : Bool
  pub tls_accept_invalid_certs : Bool
  pub tls_hostname_override : Option Text
  pub read_only : Bool
  pub is_default : Bool
  pub quick_reconnect : Bool

-- `ConnectionProfile::new`
abbrev pub new : Text → Text → Text → ConnectionProfile
new name host user = record {
  name = name;
  host = host;
  port = 3306;
  user = user;
  database = none;
  tls_mode = prefer;
  password_source = env_var;
  keyring_service = none;
  keyring_account = none;
  tls_ca_cert_path = none;
  tls_client_cert_path = none;
  tls_client_key_path = none;
  tls_disable_built_in_roots = false;
  tls_skip_domain_validation = false;
  tls_accept_invalid_certs = false;
  tls_hostname_override = none;
  read_only = false;
  is_default = false;
  quick_reconnect = false;
}

abbrev pub name_of : ConnectionProfile → Text
name_of p = p.name

unfoldable pub profile : List ConnectionProfile → Text → Option ConnectionProfile
profile profiles name = find (named name_of name) profiles

unfoldable pub default_profile : List ConnectionProfile → Option ConnectionProfile
default_profile profiles = find (λ p. p.is_default) profiles

unfoldable pub quick_reconnect_profile : List ConnectionProfile → Option ConnectionProfile
quick_reconnect_profile profiles = find (λ p. p.quick_reconnect) profiles

unfoldable pub upsert_profile : List ConnectionProfile → ConnectionProfile → List ConnectionProfile
unfolding upsert
upsert_profile profiles p = upsert name_of profiles p

abbrev pub mark_default : Text → ConnectionProfile → ConnectionProfile
mark_default name p = record p { is_default = text_eq p.name name }

unfoldable pub set_default_profile : List ConnectionProfile → Text → List ConnectionProfile × Bool
set_default_profile profiles name =
    if any (named name_of name) profiles
    then (map (mark_default name) profiles, true)
    else (profiles, false)

abbrev pub mark_quick_reconnect : Text → ConnectionProfile → ConnectionProfile
mark_quick_reconnect name p = record p { quick_reconnect = text_eq p.name name }

unfoldable pub set_quick_reconnect_profile :
    List ConnectionProfile → Text → List ConnectionProfile × Bool
set_quick_reconnect_profile profiles name =
    if any (named name_of name) profiles
    then (map (mark_quick_reconnect name) profiles, true)
    else (profiles, false)

unfoldable pub delete_profile : List ConnectionProfile → Text → List ConnectionProfile × Bool
unfolding delete
delete_profile profiles name = delete name_of profiles name

-- `ProfilesDocument::normalize`, with which a loaded list begins
unfoldable pub normalize_profiles : List ConnectionProfile → List ConnectionProfile
normalize_profiles profiles = normalize name_of profiles
