-- ===== src/Tui/Wizard/Examples.antt =====
-- The theorems on the form with a saved profile.
use myr.Prelude.{◌≡◌, refl, true, false, some, [], ◌∷◌, arith}
use myr.Prelude.Text.{codes, text_eq}
use myr.Profiles.{ConnectionProfile, new, profile, keyring}
use myr.Tui.Wizard.{ok, wizard_profile, wizard_form_from_profile, save_connected}
use myr.Tui.Wizard.RoundTrip.{
  kept, wizard_profile-wizard_form_from_profile, save_connected-wizard_profile,
}

abbrev prod : ConnectionProfile
prod = record (new (codes "prod") (codes "db.example") (codes "app")) {
  password_source = keyring;
  keyring_service = some (codes "myr");
  tls_ca_cert_path = some (codes "/etc/ca.pem");
  is_default = true;
}

wizard_profile-wizard_form_from_profile_example :
    wizard_profile (wizard_form_from_profile prod) ≡ ok (kept prod)
wizard_profile-wizard_form_from_profile_example =
    wizard_profile-wizard_form_from_profile prod (omega arith)

prod_saved : profile (prod ∷ []) prod.name ≡ some prod
unfolding profile text_eq
prod_saved = refl

save_connected-wizard_profile_example :
    profile (save_connected (prod ∷ []) (kept prod)) prod.name
    ≡ some (record (kept prod) { is_default = true; quick_reconnect = false })
save_connected-wizard_profile_example =
    save_connected-wizard_profile (prod ∷ []) prod (kept prod) (tt, tt) prod_saved (omega arith)
      (wizard_profile-wizard_form_from_profile prod (omega arith))
