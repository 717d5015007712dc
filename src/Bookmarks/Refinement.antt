-- ===== src/Bookmarks/Refinement.antt =====
-- The bookmarks as a map from names.
use myr.Prelude.{◌≡◌, refl, Option, none, some, List, if◌then◌else◌}
use myr.Prelude.Text.{Text, text_eq}
use myr.NamedStore.Lookup.{find-upsert, find-delete}
use myr.NamedStore.Normalize.{
  IsAscending, IsAscending-IsDistinct, last_named, normalize_lem, upsert-IsAscending,
  delete-IsAscending,
}
use myr.NamedStore.Refinement.{Refines, run, run_refines}
use myr.Bookmarks.{
  SavedBookmark, name_of, bookmark, upsert_bookmark, delete_bookmark, normalize_bookmarks,
}

pub data Change : Type 0 where
  saved : SavedBookmark → Change
  deleted : Text → Change

unfoldable pub change : List SavedBookmark → Change → List SavedBookmark
change store (saved b) = upsert_bookmark store b
change store (deleted name) = (delete_bookmark store name).0

-- The specification: a map, changed at one name.
unfoldable pub change_map : (Text → Option SavedBookmark) → Change → Text → Option SavedBookmark
change_map m (saved b) name = if text_eq b.name name then some b else m name
change_map m (deleted gone) name = if text_eq gone name then none else m name

change-IsAscending :
    (store : List SavedBookmark) (c : Change)
    → IsAscending name_of store
    → IsAscending name_of (change store c)
unfolding change upsert_bookmark delete_bookmark
change-IsAscending store (saved b) h = upsert-IsAscending name_of store b h
change-IsAscending store (deleted gone) h = delete-IsAscending name_of store gone h

bookmark-change :
    (store : List SavedBookmark) (c : Change) (name : Text)
    → IsAscending name_of store
    → bookmark (change store c) name ≡ change_map (bookmark store) c name
unfolding change change_map bookmark upsert_bookmark delete_bookmark
bookmark-change store (saved b) name h =
    find-upsert name_of store b name (IsAscending-IsDistinct name_of store h)
bookmark-change store (deleted gone) name h = find-delete name_of store gone name

change_map_ext :
    (m k : Text → Option SavedBookmark) (c : Change)
    → ((n : Text) → m n ≡ k n)
    → (n : Text) → change_map m c n ≡ change_map k c n
unfolding change_map
change_map_ext m k (saved b) h n = rw (h n) refl
change_map_ext m k (deleted gone) h n = rw (h n) refl

abbrev bookmarks-Refines : Refines (List SavedBookmark) Change SavedBookmark
bookmarks-Refines = record {
  change = change;
  change_map = change_map;
  lookup = bookmark;
  IsGood = IsAscending name_of;
  change-IsGood = change-IsAscending;
  lookup-change = bookmark-change;
  change_map_ext = change_map_ext;
}

-- After a list is loaded and any bookmarks are saved and deleted, the names ascend, and a name
-- finds what the same changes make of the map from each name to the last loaded bookmark of it.
pub bookmarks_refine_map :
    (loaded : List SavedBookmark) (cs : List Change)
    → IsAscending name_of (run change (normalize_bookmarks loaded) cs)
      × ((name : Text)
          → bookmark (run change (normalize_bookmarks loaded) cs) name
            ≡ run change_map (λ n. last_named name_of n loaded) cs name)
unfolding normalize_bookmarks bookmark
bookmarks_refine_map loaded cs =
    run_refines bookmarks-Refines (normalize_bookmarks loaded) (λ n. last_named name_of n loaded) cs
      (normalize_lem name_of loaded)
