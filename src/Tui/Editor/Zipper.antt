-- ===== src/Tui/Editor/Zipper.antt =====
-- What the editor is meant to be: the characters behind the cursor, the nearest first, those after
-- it, and the history.
use myr.Prelude.{
  ℕ, ◌+◌, ◌-◌, ◌<◌, ◌≤◌, Option, none, some, List, [], ◌∷◌, ◌++◌, length, is_empty, get_elem?, ltb,
  if◌then◌else◌,
}
use myr.Prelude.Text.{Text}
use myr.Tui.Editor.{Editor, byte_len, draft_or, record_query_history}

pub record Zipper : Type 0 where
  pub behind : Text
  pub after : Text
  pub history : List Text
  pub browsing : Option ℕ
  pub draft : Option Text

-- `s` read backwards in front of `t`.
unfoldable pub reverse_onto : Text → Text → Text
reverse_onto [] t = t
reverse_onto (c ∷ s) t = reverse_onto s (c ∷ t)

unfoldable pub forwards : Text → Text
forwards [] = []
forwards (c ∷ s) = forwards s ++ c ∷ []

unfoldable pub text_of : Zipper → Text
text_of z = forwards z.behind ++ z.after

-- The editor that stands for it.
unfoldable pub opened : Zipper → Editor
unfolding text_of
opened z = record {
  query_editor_text = text_of z;
  query_cursor = byte_len (forwards z.behind);
  query_history = z.history;
  query_history_index = z.browsing;
  query_history_draft = z.draft;
}

-- A text with the cursor at its end.
unfoldable pub show : Zipper → Text → Zipper
show z text = record z { behind = reverse_onto text []; after = [] }

abbrev pub or_empty : Option Text → Text
or_empty none = []
or_empty (some t) = t

-- The entry at an index; the empty text behind the last one.
unfoldable pub get_entry : List Text → ℕ → Text
get_entry ts index = or_empty (get_elem? ts index)

unfoldable pub browse : Zipper → ℕ → Zipper
browse z index = record (show z (get_entry z.history index)) { browsing = some index }

pub data Edit : Type 0 where
  typed : Text → Edit
  backspace left right clear previous next : Edit
  ran replaced : Text → Edit

unfoldable pub edit : Zipper → Edit → Zipper
edit z (typed text) = record z { behind = reverse_onto text z.behind; browsing = none }
edit z backspace = elim z.behind [ [] ↦ z | c ∷ s ↦ record z { behind = s; browsing = none } ]
edit z left = elim z.behind [ [] ↦ z | c ∷ s ↦ record z { behind = s; after = c ∷ z.after } ]
edit z right = elim z.after [ [] ↦ z | c ∷ s ↦ record z { behind = c ∷ z.behind; after = s } ]
edit z clear = record z { behind = []; after = []; browsing = none; draft = none }
edit z previous = if is_empty z.history then z else elim z.browsing [
  | some index ↦ browse z (index - 1)
  | none ↦ browse (record z { draft = some (text_of z) }) (length z.history - 1)
]
edit z next = elim z.browsing [
  | none ↦ z
  | some index ↦
      if ltb (index + 1) (length z.history)
      then browse z (index + 1)
      else record (show z (draft_or z.draft (text_of z))) { browsing = none; draft = none }
]
edit z (ran text) = record (show z text) {
  history = record_query_history z.history text;
  browsing = none;
  draft = none;
}
edit z (replaced text) = record (show z text) { browsing = none; draft = none }

-- What is browsed is in the history, which has at most a hundred entries.
abbrev pub IsBrowsing : Option ℕ → List Text → Type 0
IsBrowsing none history = Unit
IsBrowsing (some index) history = index < length history

abbrev pub IsGood : Zipper → Type 0
IsGood z = IsBrowsing z.browsing z.history × (length z.history ≤ 100)

unfoldable pub run : Zipper → List Edit → Zipper
run z [] = z
run z (e ∷ es) = run (edit z e) es
