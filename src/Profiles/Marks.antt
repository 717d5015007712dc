-- ===== src/Profiles/Marks.antt =====
-- The default profile and the one to reconnect to.
use myr.Prelude.{
  ◌≡◌, refl, sym, ap, ◌∙◌, Bool, true, false, some, List, [], ◌∷◌, map, find, filter, All, is_some,
  Bool-cases, inl, inr,
}
use mathlib.Core.Path.{subst}
use mathlib.Core.Bool.{true≢false}
use myr.Prelude.Text.{Text}
use myr.NamedStore.{named}
use myr.NamedStore.Lookup.{IsDistinct, All-named}
use myr.NamedStore.Normalize.{IsAscending, IsAscending-IsDistinct}
use myr.Profiles.{
  ConnectionProfile, name_of, profile, default_profile, quick_reconnect_profile, mark_default,
  set_default_profile, mark_quick_reconnect, set_quick_reconnect_profile,
}
use myr.Profiles.Refinement.{map_some, set_default_profile_cases, set_quick_reconnect_profile_cases}

-- A test that says, after the marking, which profile has the name.
module _ (f : ConnectionProfile → ConnectionProfile) (marked : ConnectionProfile → Bool)
    (name : Text) (says : (p : ConnectionProfile) → marked (f p) ≡ named name_of name p) where
  find-marked :
      (ps : List ConnectionProfile)
      → find marked (map f ps) ≡ map_some f (find (named name_of name) ps)
  find-marked [] = refl
  find-marked (p ∷ ps) = elim (Bool-cases (named name_of name p)) [
    | inl is ↦ rw (says p, is) refl
    | inr other ↦ rw (says p, other) (find-marked ps)
  ]

  filter-none :
      (ps : List ConnectionProfile)
      → All (λ p. named name_of name p ≡ false) ps
      → filter marked (map f ps) ≡ []
  filter-none [] h = refl
  filter-none (p ∷ ps) (hp, h) = rw (says p, hp) (filter-none ps h)

  -- With distinct names it is the only one that is marked.
  filter-marked :
      (ps : List ConnectionProfile) (p : ConnectionProfile)
      → IsDistinct name_of ps
      → find (named name_of name) ps ≡ some p
      → filter marked (map f ps) ≡ f p ∷ []
  filter-marked [] p d h = cc
  filter-marked (q ∷ ps) p (dq, d) h = elim (Bool-cases (named name_of name q)) [
    | inl is ↦
        let e : q ≡ p = some-injective (rw is at h) in
        rw (says q, is)
          (let apart = All-named name_of name q ps is dq in rw (filter-none ps apart, e) refl)
    | inr other ↦ rw (says q, other) (filter-marked ps p d (rw other at h))
  ]
    where
      some-injective : {x y : ConnectionProfile} → some x ≡ some y → x ≡ y
      some-injective e = cc

named_found :
    (name : Text) (ps : List ConnectionProfile) (p : ConnectionProfile)
    → find (named name_of name) ps ≡ some p
    → named name_of name p ≡ true
named_found name [] p h = cc
named_found name (q ∷ ps) p h = elim (Bool-cases (named name_of name q)) [
  | inl is ↦
      let e : q ≡ p = some-injective (rw is at h) in subst (λ r. named name_of name r ≡ true) e is
  | inr other ↦ named_found name ps p (rw other at h)
]
  where
    some-injective : {x y : ConnectionProfile} → some x ≡ some y → x ≡ y
    some-injective e = cc

set_default_profile_there :
    (ps : List ConnectionProfile) (name : Text)
    → is_some (profile ps name) ≡ true
    → set_default_profile ps name ≡ (map (mark_default name) ps, true)
set_default_profile_there ps name there = elim (set_default_profile_cases ps name) [
  | inl (is, e) ↦ e
  | inr (gone, e) ↦ absurd (true≢false (sym there ∙ gone))
]

set_quick_reconnect_profile_there :
    (ps : List ConnectionProfile) (name : Text)
    → is_some (profile ps name) ≡ true
    → set_quick_reconnect_profile ps name ≡ (map (mark_quick_reconnect name) ps, true)
set_quick_reconnect_profile_there ps name there = elim (set_quick_reconnect_profile_cases ps name) [
  | inl (is, e) ↦ e
  | inr (gone, e) ↦ absurd (true≢false (sym there ∙ gone))
]

-- If the names ascend and a name is there, making its profile the default leaves exactly that
-- profile marked as the default, and the lookup of the default profile finds it; making it the
-- quick one does the same with the other mark.
pub marked_only :
    (ps : List ConnectionProfile) (name : Text) (p : ConnectionProfile)
    → IsAscending name_of ps
    → profile ps name ≡ some p
    → (filter (λ q. q.is_default) (set_default_profile ps name).0
        ≡ record p { is_default = true } ∷ [])
      × (default_profile (set_default_profile ps name).0 ≡ some (record p { is_default = true }))
      × (filter (λ q. q.quick_reconnect) (set_quick_reconnect_profile ps name).0
          ≡ record p { quick_reconnect = true } ∷ [])
      × (quick_reconnect_profile (set_quick_reconnect_profile ps name).0
          ≡ some (record p { quick_reconnect = true }))
unfolding profile default_profile quick_reconnect_profile
marked_only ps name p h found =
    let there : is_some (profile ps name) ≡ true = rw found refl in
    let d = IsAscending-IsDistinct name_of ps h in
    let named_p = named_found name ps p found in
    let is_def : mark_default name p ≡ record p { is_default = true } =
      ap (λ b. record p { is_default = b }) named_p in
    let is_quick : mark_quick_reconnect name p ≡ record p { quick_reconnect = true } =
      ap (λ b. record p { quick_reconnect = b }) named_p in
    rw (set_default_profile_there ps name there, set_quick_reconnect_profile_there ps name there)
      (
        filter-marked (mark_default name) (λ q. q.is_default) name (λ q. refl) ps p d found
            ∙ ap (λ q. q ∷ []) is_def,
        find-marked (mark_default name) (λ q. q.is_default) name (λ q. refl) ps
            ∙ ap (map_some (mark_default name)) found
            ∙ ap some is_def,
        filter-marked (mark_quick_reconnect name) (λ q. q.quick_reconnect) name (λ q. refl) ps p d
              found
            ∙ ap (λ q. q ∷ []) is_quick,
        find-marked (mark_quick_reconnect name) (λ q. q.quick_reconnect) name (λ q. refl) ps
            ∙ ap (map_some (mark_quick_reconnect name)) found
            ∙ ap some is_quick,
      )
