-- ===== src/Bookmarks/Examples.antt =====
-- The theorem on the bookmarks with some of them.
use myr.Prelude.{◌≡◌, some, List, [], ◌∷◌}
use myr.Prelude.Text.{Text, codes}
use myr.NamedStore.Normalize.{IsAscending, last_named}
use myr.NamedStore.Refinement.{run}
use myr.Bookmarks.{SavedBookmark, new, name_of, bookmark, normalize_bookmarks}
use myr.Bookmarks.Refinement.{Change, saved, deleted, change, change_map, bookmarks_refine_map}

abbrev loaded : List SavedBookmark
loaded = new (codes "users") ∷ new (codes "orders") ∷ new (codes "users") ∷ []

abbrev changes : List Change
changes =
    saved (record (new (codes "items")) { table = some (codes "items") })
    ∷ deleted (codes "users")
    ∷ []

bookmarks_refine_map_example :
    IsAscending name_of (run change (normalize_bookmarks loaded) changes)
    × ((name : Text)
        → bookmark (run change (normalize_bookmarks loaded) changes) name
          ≡ run change_map (λ n. last_named name_of n loaded) changes name)
bookmarks_refine_map_example = bookmarks_refine_map loaded changes
