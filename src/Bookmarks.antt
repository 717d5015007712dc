-- ===== src/Bookmarks.antt =====
-- crates/core/src/bookmarks.rs: the saved bookmarks, without their file.
pub mod Refinement
mod Examples
use myr.Prelude.{Bool, Option, none, List, find}
use myr.Prelude.Text.{Text}
use myr.NamedStore.{named, upsert, delete, normalize}

pub record SavedBookmark : Type 0 where
  pub name : Text
  pub profile_name : Option Text
  pub database : Option Text
  pub table : Option Text
  pub column : Option Text
  pub query : Option Text

-- `SavedBookmark::new`
abbrev pub new : Text → SavedBookmark
new name = record {
  name = name;
  profile_name = none;
  database = none;
  table = none;
  column = none;
  query = none;
}

abbrev pub name_of : SavedBookmark → Text
name_of b = b.name

unfoldable pub bookmark : List SavedBookmark → Text → Option SavedBookmark
bookmark bookmarks name = find (named name_of name) bookmarks

unfoldable pub upsert_bookmark : List SavedBookmark → SavedBookmark → List SavedBookmark
unfolding upsert
upsert_bookmark bookmarks b = upsert name_of bookmarks b

unfoldable pub delete_bookmark : List SavedBookmark → Text → List SavedBookmark × Bool
unfolding delete
delete_bookmark bookmarks name = delete name_of bookmarks name

-- `BookmarksDocument::normalize`, with which a loaded list begins
unfoldable pub normalize_bookmarks : List SavedBookmark → List SavedBookmark
normalize_bookmarks bookmarks = normalize name_of bookmarks
