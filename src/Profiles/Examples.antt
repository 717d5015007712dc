-- ===== src/Profiles/Examples.antt =====
-- The theorems on the profiles with some of them.
use myr.Prelude.{◌≡◌, refl, true, some, List, [], ◌∷◌, filter}
use myr.Prelude.Text.{Text, codes, text_lt, text_eq}
use myr.NamedStore.Normalize.{IsAscending, last_named}
use myr.NamedStore.Refinement.{run}
use myr.Profiles.{
  ConnectionProfile, new, name_of, profile, default_profile, quick_reconnect_profile,
  set_default_profile, set_quick_reconnect_profile, normalize_profiles,
}
use myr.Profiles.Refinement.{
  Change, saved, deleted, made_default, made_quick, change, change_map, profiles_refine_map,
}
use myr.Profiles.Marks.{marked_only}

abbrev local : ConnectionProfile
local = record (new (codes "local") (codes "127.0.0.1") (codes "root")) { is_default = true }

abbrev prod : ConnectionProfile
prod = record (new (codes "prod") (codes "db.example") (codes "app")) { read_only = true }

abbrev both : List ConnectionProfile
both = local ∷ prod ∷ []

abbrev changes : List Change
changes =
    made_default (codes "prod")
    ∷ deleted (codes "local")
    ∷ saved local
    ∷ made_quick (codes "local")
    ∷ []

profiles_refine_map_example :
    IsAscending name_of (run change (normalize_profiles (prod ∷ local ∷ [])) changes)
    × ((name : Text)
        → profile (run change (normalize_profiles (prod ∷ local ∷ [])) changes) name
          ≡ run change_map (λ n. last_named name_of n (prod ∷ local ∷ [])) changes name)
profiles_refine_map_example = profiles_refine_map (prod ∷ local ∷ []) changes

both-IsAscending : IsAscending name_of both
unfolding text_lt
both-IsAscending = ((refl, tt), (tt, tt))

prod_found : profile both (codes "prod") ≡ some prod
unfolding profile text_eq
prod_found = refl

marked_only_example :
    (filter (λ q. q.is_default) (set_default_profile both (codes "prod")).0
      ≡ record prod { is_default = true } ∷ [])
    × (default_profile (set_default_profile both (codes "prod")).0
        ≡ some (record prod { is_default = true }))
    × (filter (λ q. q.quick_reconnect) (set_quick_reconnect_profile both (codes "prod")).0
        ≡ record prod { quick_reconnect = true } ∷ [])
    × (quick_reconnect_profile (set_quick_reconnect_profile both (codes "prod")).0
        ≡ some (record prod { quick_reconnect = true }))
marked_only_example = marked_only both (codes "prod") prod both-IsAscending prod_found
