-- ===== src/Tui/Editor/Examples.antt =====
-- The theorem on the editor with a word of three bytes for each character.
use myr.Prelude.{◌≡◌, none, some, List, [], ◌∷◌, arith}
use myr.Prelude.Text.{codes}
use myr.Tui.Editor.Zipper.{
  Zipper, Edit, typed, backspace, left, right, previous, next, ran, opened, run, IsGood,
}
use myr.Tui.Editor.Refinement.{perform_all, perform_all-opened}

abbrev empty : Zipper
empty = record { behind = []; after = []; history = []; browsing = none; draft = none }

abbrev edits : List Edit
edits =
    typed (codes "SELECT '東京'")
    ∷ left
    ∷ backspace
    ∷ typed (codes "é")
    ∷ ran (codes "SELECT 1")
    ∷ typed (codes ";")
    ∷ previous
    ∷ next
    ∷ right
    ∷ []

perform_all-opened_example :
    (perform_all (opened empty) edits ≡ some (opened (run empty edits))) × IsGood (run empty edits)
perform_all-opened_example = perform_all-opened empty edits (tt, omega arith)
