-- ===== src/Tui/Editor.antt =====
-- crates/tui/src/app_logic/input.rs and lib_helpers.rs (`previous_char_boundary`,
-- `next_char_boundary`): the query editor, with its cursor as a byte offset into UTF-8, and the
-- history of the queries. A slice or an insertion away from a character boundary, or an index out
-- of range, is a panic: `none`. No length or index comes near 2^64, as every text is in memory, so
-- a sum of them is written without wrap-around.
pub mod Utf8
pub mod Zipper
pub mod Refinement
mod Examples
use myr.Prelude.{
  ℕ, zero, suc, ◌+◌, ◌-◌, Bool, true, false, ◌||◌, Option, none, some, List, [], ◌∷◌, ◌++◌, length,
  is_empty, get_elem?, drop, ltb, leb, ◌==◌, if◌then◌else◌, and_then, is_some,
}
use Prim.Native.Nat.{min}
use myr.Prelude.Text.{Text, text_eq, trim}

-- `char::len_utf8`
unfoldable pub len_utf8 : ℕ → ℕ
len_utf8 c = if ltb c 0x80 then 1 else if ltb c 0x800 then 2 else if ltb c 0x10000 then 3 else 4

-- `str::len`
unfoldable pub byte_len : Text → ℕ
byte_len [] = 0
byte_len (c ∷ s) = len_utf8 c + byte_len s

-- The two parts of a text around a byte offset, if that is a character boundary.
unfoldable pub split_at_byte : Text → ℕ → Option (Text × Text)
split_at_byte s zero = some ([], s)
split_at_byte [] (suc i) = none
split_at_byte (c ∷ s) (suc i) =
    let rest = split_at_byte s (suc i - len_utf8 c) in
    if leb (len_utf8 c) (suc i) then and_then rest (λ parts. some (c ∷ parts.0, parts.1)) else none

-- `str::is_char_boundary`
unfoldable pub is_char_boundary : Text → ℕ → Bool
is_char_boundary s i = is_some (split_at_byte s i)

-- The text without its last character; `None` of `char_indices().last()` is the empty text.
unfoldable pub without_last : Text → Text
without_last [] = []
without_last (c ∷ []) = []
without_last (c ∷ d ∷ s) = c ∷ without_last (d ∷ s)

unfoldable pub previous_char_boundary : Text → ℕ → Option ℕ
previous_char_boundary text index =
    let clamped = min index (byte_len text) in
    if clamped == 0
    then some 0
    else and_then (split_at_byte text clamped) (λ parts. some (byte_len (without_last parts.0)))

-- The offset of the second character, `nth(1)`, or the end.
unfoldable pub second_offset : Text → ℕ → ℕ → ℕ
second_offset (c ∷ d ∷ s) clamped end = clamped + len_utf8 c
second_offset (c ∷ []) clamped end = end
second_offset [] clamped end = end

unfoldable pub next_char_boundary : Text → ℕ → Option ℕ
next_char_boundary text index =
    let clamped = min index (byte_len text) in
    if leb (byte_len text) clamped
    then some (byte_len text)
    else and_then (split_at_byte text clamped)
        (λ parts. some (second_offset parts.1 clamped (byte_len text)))

pub record Editor : Type 0 where
  pub query_editor_text : Text
  pub query_cursor : ℕ
  pub query_history : List Text
  pub query_history_index : Option ℕ
  pub query_history_draft : Option Text

-- The `while` loop: down to a boundary, or to 0.
unfoldable pub boundary_below : Text → ℕ → ℕ
boundary_below text zero = zero
boundary_below text (suc i) =
    let below = boundary_below text i in if is_char_boundary text (suc i) then suc i else below

unfoldable pub clamp_query_cursor : Editor → Editor
clamp_query_cursor e = record e {
  query_cursor =
      boundary_below e.query_editor_text (min e.query_cursor (byte_len e.query_editor_text));
}

unfoldable pub insert_text_at_query_cursor : Editor → Text → Option Editor
insert_text_at_query_cursor e text =
    let clamped = clamp_query_cursor e in
    and_then (split_at_byte clamped.query_editor_text clamped.query_cursor) (λ parts.
      let inserted = parts.0 ++ text ++ parts.1 in
      some (record clamped {
        query_editor_text = inserted;
        query_cursor = min (clamped.query_cursor + byte_len text) (byte_len inserted);
        query_history_index = none;
      }))

-- `replace_range(previous..cursor, "")`
unfoldable pub remove_range : Text → ℕ → ℕ → Option Text
remove_range text start end =
    and_then (split_at_byte text start)
      (λ front. and_then (split_at_byte text end) (λ back. some (front.0 ++ back.1)))

unfoldable pub backspace_query_editor_char : Editor → Option Editor
backspace_query_editor_char e =
    let clamped = clamp_query_cursor e in
    if clamped.query_cursor == 0
    then some clamped
    else and_then (previous_char_boundary clamped.query_editor_text clamped.query_cursor)
        (λ previous.
          and_then (remove_range clamped.query_editor_text previous clamped.query_cursor) (λ text.
            some (record clamped {
              query_editor_text = text;
              query_cursor = previous;
              query_history_index = none;
            })))

unfoldable pub move_query_cursor_left : Editor → Option Editor
move_query_cursor_left e =
    let clamped = clamp_query_cursor e in
    and_then (previous_char_boundary clamped.query_editor_text clamped.query_cursor)
      (λ cursor. some (record clamped { query_cursor = cursor }))

unfoldable pub move_query_cursor_right : Editor → Option Editor
move_query_cursor_right e =
    let clamped = clamp_query_cursor e in
    and_then (next_char_boundary clamped.query_editor_text clamped.query_cursor)
      (λ cursor. some (record clamped { query_cursor = cursor }))

-- `handle_clear_input` in the pane of the editor
unfoldable pub clear_query : Editor → Editor
clear_query e = record e {
  query_editor_text = [];
  query_cursor = 0;
  query_history_index = none;
  query_history_draft = none;
}

-- The text of an entry of the history, with the cursor behind it.
unfoldable pub show_entry : Editor → ℕ → Option Editor
show_entry e index = and_then (get_elem? e.query_history index) (λ text. some (record e {
  query_history_index = some index;
  query_editor_text = text;
  query_cursor = byte_len text;
}))

unfoldable pub use_previous_query_from_history : Editor → Option Editor
use_previous_query_from_history e =
    if is_empty e.query_history then some e else elim e.query_history_index [
      | some index ↦ show_entry e (index - 1)
      | none ↦
          show_entry (record e { query_history_draft = some e.query_editor_text })
            (length e.query_history - 1)
    ]

unfoldable pub draft_or : Option Text → Text → Text
draft_or (some draft) text = draft
draft_or none text = text

-- Behind the newest entry: back to the draft.
unfoldable pub return_to_draft : Editor → Editor
return_to_draft e =
    let text = draft_or e.query_history_draft e.query_editor_text in
    record e {
      query_history_index = none;
      query_history_draft = none;
      query_editor_text = text;
      query_cursor = byte_len text;
    }

unfoldable pub use_next_query_from_history : Editor → Option Editor
use_next_query_from_history e = elim e.query_history_index [
  | none ↦ some e
  | some index ↦
      if ltb (index + 1) (length e.query_history)
      then show_entry e (index + 1)
      else some (return_to_draft e)
]

unfoldable pub last : List Text → Option Text
last [] = none
last (t ∷ []) = some t
last (t ∷ u ∷ ts) = last (u ∷ ts)

unfoldable pub last_is : List Text → Text → Bool
last_is history text = elim (last history) [ some t ↦ text_eq t text | none ↦ false ]

unfoldable pub record_query_history : List Text → Text → List Text
record_query_history history sql =
    let trimmed = trim sql in
    if is_empty trimmed || last_is history trimmed
    then history
    else let pushed = history ++ trimmed ∷ [] in
      if ltb 100 (length pushed) then drop (length pushed - 100) pushed else pushed

-- `start_query_internal`, what it does to the editor where it is not a retry
unfoldable pub run_query_text : Editor → Text → Editor
run_query_text e sql = record e {
  query_history = record_query_history e.query_history sql;
  query_history_index = none;
  query_history_draft = none;
  query_editor_text = sql;
  query_cursor = byte_len sql;
}

-- `apply_invocation` of `ReplaceQueryEditorText`
unfoldable pub replace_query_text : Editor → Text → Editor
replace_query_text e query = record e {
  query_editor_text = query;
  query_cursor = byte_len query;
  query_history_index = none;
  query_history_draft = none;
}
