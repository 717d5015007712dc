-- ===== src/NamedStore.antt =====
-- crates/core/src/bookmarks.rs and crates/core/src/profiles.rs: what the two stores do alike with
-- a list of records that each have a name. Each store writes it out for its own records.
pub mod Lookup
pub mod Distinct
pub mod Normalize
pub mod Refinement
use myr.Prelude.{
  Bool, true, false, not, Option, none, some, List, [], ◌∷◌, ◌++◌, any, filter, find, length, ◌==◌,
  if◌then◌else◌,
}
use myr.Prelude.Sort.{sort_by}
use myr.Prelude.Text.{Text, text_eq, text_lt}

module _ {A : Type 0} (name_of : A → Text) where
  abbrev pub named : Text → A → Bool
  named name a = text_eq (name_of a) name

  abbrev pub name_lt : A → A → Bool
  name_lt a b = text_lt (name_of a) (name_of b)

  -- `*existing = a`, for the first one of the name.
  unfoldable pub replace_first : A → List A → List A
  replace_first a [] = []
  replace_first a (x ∷ xs) = if named (name_of a) x then a ∷ xs else x ∷ replace_first a xs

  unfoldable pub upsert : List A → A → List A
  upsert store a =
      if any (named (name_of a)) store
      then replace_first a store
      else sort_by name_lt (store ++ a ∷ [])

  unfoldable pub delete : List A → Text → List A × Bool
  delete store name =
      let kept = filter (λ a. not (named name a)) store in (kept, not (length kept == length store))

  -- `BTreeMap::insert`, in the ascending order of the names: an equal one is replaced.
  unfoldable pub insert_by_name : A → List A → List A
  insert_by_name a [] = a ∷ []
  insert_by_name a (x ∷ xs) =
      if text_lt (name_of x) (name_of a)
      then x ∷ insert_by_name a xs
      else if named (name_of a) x
      then a ∷ xs
      else a ∷ x ∷ xs

  unfoldable pub insert_all : List A → List A → List A
  insert_all [] by_name = by_name
  insert_all (a ∷ store) by_name = insert_all store (insert_by_name a by_name)

  unfoldable pub normalize : List A → List A
  normalize store = insert_all store []
