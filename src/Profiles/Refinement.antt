-- ===== src/Profiles/Refinement.antt =====
-- The profiles as a map from names.
use myr.Prelude.{
  ◌≡◌, ◌⊎◌, refl, sym, ap, ◌∙◌, true, false, Option, none, some, List, [], ◌∷◌, map, any, find,
  is_some, All, Bool-cases, inl, inr, if◌then◌else◌,
}
use mathlib.Core.Path.{subst}
use myr.Prelude.Text.{Text, text_eq, text_lt}
use myr.NamedStore.{named}
use myr.NamedStore.Lookup.{find-upsert, find-delete}
use myr.NamedStore.Normalize.{
  IsAscending, IsAscending-IsDistinct, last_named, normalize_lem, upsert-IsAscending,
  delete-IsAscending,
}
use myr.NamedStore.Refinement.{Refines, run, run_refines}
use myr.Profiles.{
  ConnectionProfile, name_of, profile, upsert_profile, mark_default, set_default_profile,
  mark_quick_reconnect, set_quick_reconnect_profile, delete_profile, normalize_profiles,
}

pub data Change : Type 0 where
  saved : ConnectionProfile → Change
  deleted made_default made_quick : Text → Change

unfoldable pub change : List ConnectionProfile → Change → List ConnectionProfile
change store (saved p) = upsert_profile store p
change store (deleted name) = (delete_profile store name).0
change store (made_default name) = (set_default_profile store name).0
change store (made_quick name) = (set_quick_reconnect_profile store name).0

abbrev pub map_some :
    (ConnectionProfile → ConnectionProfile) → Option ConnectionProfile → Option ConnectionProfile
map_some f none = none
map_some f (some p) = some (f p)

-- The specification: a map, changed at one name, or marked everywhere if the name is there.
unfoldable pub change_map :
    (Text → Option ConnectionProfile) → Change → Text → Option ConnectionProfile
change_map m (saved p) name = if text_eq p.name name then some p else m name
change_map m (deleted gone) name = if text_eq gone name then none else m name
change_map m (made_default chosen) name =
    if is_some (m chosen) then map_some (mark_default chosen) (m name) else m name
change_map m (made_quick chosen) name =
    if is_some (m chosen) then map_some (mark_quick_reconnect chosen) (m name) else m name

-- A change of the profiles that keeps their names.
module _ (f : ConnectionProfile → ConnectionProfile)
    (keeps : (p : ConnectionProfile) → (f p).name ≡ p.name) where
  map-All :
      (a : Text) (ps : List ConnectionProfile)
      → All (λ p. text_lt a p.name ≡ true) ps
      → All (λ p. text_lt a p.name ≡ true) (map f ps)
  map-All a [] h = tt
  map-All a (p ∷ ps) (hp, h) = (rw (keeps p) hp, map-All a ps h)

  map-IsAscending :
      (ps : List ConnectionProfile) → IsAscending name_of ps → IsAscending name_of (map f ps)
  map-IsAscending [] h = tt
  map-IsAscending (p ∷ ps) (hp, h) = (rw (keeps p) (map-All p.name ps hp), map-IsAscending ps h)

  find-map :
      (name : Text) (ps : List ConnectionProfile)
      → find (named name_of name) (map f ps) ≡ map_some f (find (named name_of name) ps)
  find-map name [] = refl
  find-map name (p ∷ ps) = elim (Bool-cases (named name_of name p)) [
    | inl is ↦ simp (keeps p, is) refl
    | inr other ↦ simp (keeps p, other) (find-map name ps)
  ]

any-find :
    (name : Text) (ps : List ConnectionProfile)
    → any (named name_of name) ps ≡ is_some (find (named name_of name) ps)
any-find name [] = refl
any-find name (p ∷ ps) = elim (Bool-cases (named name_of name p)) [
  | inl is ↦ rw is refl
  | inr other ↦ rw other (any-find name ps)
]

-- What the two markings give.
pub set_default_profile_cases :
    (store : List ConnectionProfile) (chosen : Text)
    → ((is_some (profile store chosen) ≡ true)
        × (set_default_profile store chosen ≡ (map (mark_default chosen) store, true)))
      ⊎ ((is_some (profile store chosen) ≡ false)
          × (set_default_profile store chosen ≡ (store, false)))
unfolding profile set_default_profile
set_default_profile_cases store chosen = elim (Bool-cases (any (named name_of chosen) store)) [
  | inl there ↦ inl (sym (any-find chosen store) ∙ there, rw there refl)
  | inr gone ↦ inr (sym (any-find chosen store) ∙ gone, rw gone refl)
]

pub set_quick_reconnect_profile_cases :
    (store : List ConnectionProfile) (chosen : Text)
    → ((is_some (profile store chosen) ≡ true)
        × (set_quick_reconnect_profile store chosen
            ≡ (map (mark_quick_reconnect chosen) store, true)))
      ⊎ ((is_some (profile store chosen) ≡ false)
          × (set_quick_reconnect_profile store chosen ≡ (store, false)))
unfolding profile set_quick_reconnect_profile
set_quick_reconnect_profile_cases store chosen =
    elim (Bool-cases (any (named name_of chosen) store)) [
      | inl there ↦ inl (sym (any-find chosen store) ∙ there, rw there refl)
      | inr gone ↦ inr (sym (any-find chosen store) ∙ gone, rw gone refl)
    ]

change-IsAscending :
    (store : List ConnectionProfile) (c : Change)
    → IsAscending name_of store
    → IsAscending name_of (change store c)
unfolding change upsert_profile delete_profile
change-IsAscending store (saved p) h = upsert-IsAscending name_of store p h
change-IsAscending store (deleted gone) h = delete-IsAscending name_of store gone h
change-IsAscending store (made_default chosen) h = elim (set_default_profile_cases store chosen) [
  | inl (there, e) ↦
      subst (λ r. IsAscending name_of r.0) (sym e)
        (map-IsAscending (mark_default chosen) (λ p. refl) store h)
  | inr (gone, e) ↦ subst (λ r. IsAscending name_of r.0) (sym e) h
]
change-IsAscending store (made_quick chosen) h =
    elim (set_quick_reconnect_profile_cases store chosen) [
      | inl (there, e) ↦
          subst (λ r. IsAscending name_of r.0) (sym e)
            (map-IsAscending (mark_quick_reconnect chosen) (λ p. refl) store h)
      | inr (gone, e) ↦ subst (λ r. IsAscending name_of r.0) (sym e) h
    ]

profile-change :
    (store : List ConnectionProfile) (c : Change) (name : Text)
    → IsAscending name_of store
    → profile (change store c) name ≡ change_map (profile store) c name
unfolding change change_map profile upsert_profile delete_profile
profile-change store (saved p) name h =
    find-upsert name_of store p name (IsAscending-IsDistinct name_of store h)
profile-change store (deleted gone) name h = find-delete name_of store gone name
profile-change store (made_default chosen) name h = elim (set_default_profile_cases store chosen) [
  | inl (there, e) ↦
      ap (λ r. profile r.0 name) e
      ∙ rw there (find-map (mark_default chosen) (λ p. refl) name store)
  | inr (gone, e) ↦ ap (λ r. profile r.0 name) e ∙ rw gone refl
]
profile-change store (made_quick chosen) name h =
    elim (set_quick_reconnect_profile_cases store chosen) [
      | inl (there, e) ↦
          ap (λ r. profile r.0 name) e
          ∙ rw there (find-map (mark_quick_reconnect chosen) (λ p. refl) name store)
      | inr (gone, e) ↦ ap (λ r. profile r.0 name) e ∙ rw gone refl
    ]

change_map_ext :
    (m k : Text → Option ConnectionProfile) (c : Change)
    → ((n : Text) → m n ≡ k n)
    → (n : Text) → change_map m c n ≡ change_map k c n
unfolding change_map
change_map_ext m k (saved p) h n = rw (h n) refl
change_map_ext m k (deleted gone) h n = rw (h n) refl
change_map_ext m k (made_default chosen) h n = rw (h n, h chosen) refl
change_map_ext m k (made_quick chosen) h n = rw (h n, h chosen) refl

abbrev profiles-Refines : Refines (List ConnectionProfile) Change ConnectionProfile
profiles-Refines = record {
  change = change;
  change_map = change_map;
  lookup = profile;
  IsGood = IsAscending name_of;
  change-IsGood = change-IsAscending;
  lookup-change = profile-change;
  change_map_ext = change_map_ext;
}

-- After a list is loaded and any profiles are saved, deleted or made the default or the quick
-- one, the names ascend, and a name finds what the same changes make of the map from each name
-- to the last loaded profile of it.
pub profiles_refine_map :
    (loaded : List ConnectionProfile) (cs : List Change)
    → IsAscending name_of (run change (normalize_profiles loaded) cs)
      × ((name : Text)
          → profile (run change (normalize_profiles loaded) cs) name
            ≡ run change_map (λ n. last_named name_of n loaded) cs name)
unfolding normalize_profiles profile
profiles_refine_map loaded cs =
    run_refines profiles-Refines (normalize_profiles loaded) (λ n. last_named name_of n loaded) cs
      (normalize_lem name_of loaded)
