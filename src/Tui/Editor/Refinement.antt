-- ===== src/Tui/Editor/Refinement.antt =====
-- The editor refines the zipper, and so never panics.
use myr.Prelude.{
  ℕ, zero, suc, ◌+◌, ◌-◌, ◌<◌, ◌≤◌, ◌≡◌, refl, sym, ap, ◌∙◌, ◌||◌, Option, none, some, List, [],
  ◌∷◌, ◌++◌, append_assoc, append-nil, length, length-append, length-drop, is_empty, get_elem?,
  drop, ltb, if◌then◌else◌, and_then, Bool-cases, inl, inr, arith,
}
use Prim.Native.Nat.{min}
use myr.Prelude.Text.{Text, trim}
use myr.Tui.Editor.{
  Editor, byte_len, previous_char_boundary, clamp_query_cursor, insert_text_at_query_cursor,
  backspace_query_editor_char, move_query_cursor_left, move_query_cursor_right, clear_query,
  show_entry, use_previous_query_from_history, use_next_query_from_history, return_to_draft,
  run_query_text, replace_query_text, record_query_history, last_is, draft_or,
}
use myr.Tui.Editor.Utf8.{
  byte_len-append, split-append, boundary_below-append, min-append, previous-snoc, next-cons,
  next-nil, remove-range, byte_len-snoc,
}
use myr.Tui.Editor.Zipper.{
  Zipper, reverse_onto, forwards, text_of, opened, show, get_entry, browse, Edit, typed, backspace,
  left, right, clear, previous, next, ran, replaced, edit, IsBrowsing, IsGood, run,
}

-- One call of the program for each edit.
unfoldable pub perform : Editor → Edit → Option Editor
perform e (typed text) = insert_text_at_query_cursor e text
perform e backspace = backspace_query_editor_char e
perform e left = move_query_cursor_left e
perform e right = move_query_cursor_right e
perform e clear = some (clear_query e)
perform e previous = use_previous_query_from_history e
perform e next = use_next_query_from_history e
perform e (ran sql) = some (run_query_text e sql)
perform e (replaced query) = some (replace_query_text e query)

unfoldable pub perform_all : Editor → List Edit → Option Editor
perform_all e [] = some e
perform_all e (x ∷ xs) = and_then (perform e x) (λ next. perform_all next xs)

forwards-reverse_onto : (s t : Text) → forwards (reverse_onto s t) ≡ forwards t ++ s
unfolding forwards reverse_onto
forwards-reverse_onto [] t = sym (append-nil (forwards t))
forwards-reverse_onto (c ∷ s) t =
    forwards-reverse_onto s (c ∷ t) ∙ append_assoc (forwards t) (c ∷ []) s

clamp-opened : (z : Zipper) → clamp_query_cursor (opened z) ≡ opened z
unfolding clamp_query_cursor opened text_of
clamp-opened z =
    rw (min-append (forwards z.behind) z.after, boundary_below-append (forwards z.behind) z.after)
      refl

previous-zero : (text : Text) → previous_char_boundary text 0 ≡ some 0
unfolding previous_char_boundary
previous-zero text = let least : min 0 (byte_len text) ≡ 0 = omega arith in rw least refl

insert-opened :
    (z : Zipper) (text : Text)
    → insert_text_at_query_cursor (opened z) text ≡ some (opened (edit z (typed text)))
unfolding insert_text_at_query_cursor edit opened text_of
insert-opened z text =
    let front = forwards z.behind in
    let cursor : min (byte_len front + byte_len text) (byte_len (front ++ text ++ z.after))
        ≡ byte_len (front ++ text) =
      ap (λ n. min n (byte_len (front ++ text ++ z.after))) (sym (byte_len-append front text))
      ∙ min-append (front ++ text) z.after in
    rw (clamp-opened z, split-append front z.after, cursor, forwards-reverse_onto text z.behind)
      refl

abbrev zip : Text → Text → Zipper → Zipper
zip behind after z = record z { behind = behind; after = after }

backspace-opened :
    (behind : Text) (z : Zipper)
    → backspace_query_editor_char (opened (zip behind z.after z))
      ≡ some (opened (edit (zip behind z.after z) backspace))
unfolding backspace_query_editor_char edit opened text_of forwards byte_len
backspace-opened [] z = rw (clamp-opened (zip [] z.after z)) refl
backspace-opened (c ∷ s) z =
    rw
      (
        clamp-opened (zip (c ∷ s) z.after z),
        byte_len-snoc (forwards s) c,
        previous-snoc (forwards s) c z.after,
        remove-range (forwards s) c z.after,
      )
      refl

left-opened :
    (behind : Text) (z : Zipper)
    → move_query_cursor_left (opened (zip behind z.after z))
      ≡ some (opened (edit (zip behind z.after z) left))
unfolding move_query_cursor_left edit opened text_of forwards byte_len
left-opened [] z = rw (clamp-opened (zip [] z.after z), previous-zero z.after) refl
left-opened (c ∷ s) z =
    rw (clamp-opened (zip (c ∷ s) z.after z), previous-snoc (forwards s) c z.after)
      (ap (λ text. some (record (opened (zip s (c ∷ z.after) z)) { query_editor_text = text }))
        (append_assoc (forwards s) (c ∷ []) z.after))

right-opened :
    (after : Text) (z : Zipper)
    → move_query_cursor_right (opened (zip z.behind after z))
      ≡ some (opened (edit (zip z.behind after z) right))
unfolding move_query_cursor_right edit opened text_of forwards byte_len
right-opened [] z = rw (clamp-opened (zip z.behind [] z), next-nil (forwards z.behind)) refl
right-opened (c ∷ s) z =
    rw (clamp-opened (zip z.behind (c ∷ s) z), next-cons (forwards z.behind) c s)
      (ap (λ text. some (record (opened (zip (c ∷ z.behind) s z)) { query_editor_text = text }))
        (sym (append_assoc (forwards z.behind) (c ∷ []) s)))

forwards_all : (text : Text) → forwards (reverse_onto text []) ≡ text
unfolding forwards
forwards_all text = forwards-reverse_onto text []

-- The editor with the cursor at the end of its text.
show-opened :
    (z : Zipper) (text : Text)
    → opened (show z text)
      ≡ record (opened z) { query_editor_text = text; query_cursor = byte_len text }
unfolding opened show text_of
show-opened z text = rw (append-nil (forwards (reverse_onto text [])), forwards_all text) refl

get_entry-some : (ts : List Text) (i : ℕ) → i < length ts → get_elem? ts i ≡ some (get_entry ts i)
unfolding get_entry
get_entry-some [] i h = absurd (omega arith)
get_entry-some (t ∷ ts) zero h = refl
get_entry-some (t ∷ ts) (suc i) h = get_entry-some ts i (omega arith)

show_entry-opened :
    (z : Zipper) (index : ℕ)
    → index < length z.history
    → show_entry (opened z) index ≡ some (opened (browse z index))
unfolding show_entry opened browse show text_of
show_entry-opened z index h =
    let entry = get_entry z.history index in
    let browsed : Editor → Option Editor =
      λ e. some (record e { query_history_index = some index }) in
    rw (get_entry-some z.history index h) (ap browsed (sym (show-opened z entry)))

-- A zipper with another history or another place in it.
abbrev with_history : List Text → Option ℕ → Zipper → Zipper
with_history history browsing z = record z { history = history; browsing = browsing }

previous-opened :
    (history : List Text) (browsing : Option ℕ) (z : Zipper)
    → IsBrowsing browsing history
    → use_previous_query_from_history (opened (with_history history browsing z))
      ≡ some (opened (edit (with_history history browsing z) previous))
unfolding use_previous_query_from_history edit opened
previous-opened [] browsing z h = refl
previous-opened (t ∷ ts) none z h =
    show_entry-opened (record (with_history (t ∷ ts) none z) { draft = some (text_of z) })
      (suc (length ts) - 1) (omega arith)
previous-opened (t ∷ ts) (some index) z h =
    show_entry-opened (with_history (t ∷ ts) (some index) z) (index - 1) (omega arith)

draft-opened :
    (z : Zipper)
    → return_to_draft (opened z)
      ≡ opened (record (show z (draft_or z.draft (text_of z))) { browsing = none; draft = none })
unfolding return_to_draft opened
draft-opened z =
    let latest : Editor → Editor =
      λ e. record e { query_history_index = none; query_history_draft = none } in
    ap latest (sym (show-opened z (draft_or z.draft (text_of z))))

next-opened :
    (browsing : Option ℕ) (z : Zipper)
    → IsBrowsing browsing z.history
    → use_next_query_from_history (opened (with_history z.history browsing z))
      ≡ some (opened (edit (with_history z.history browsing z) next))
unfolding use_next_query_from_history edit opened
next-opened none z h = refl
next-opened (some index) z h = elim (Bool-cases (ltb (index + 1) (length z.history))) [
  | inl inside ↦
      rw inside
        (show_entry-opened (with_history z.history (some index) z) (index + 1) (ground arith))
  | inr end ↦ rw end (ap some (draft-opened (with_history z.history (some index) z)))
]

length_latest :
    (pushed : List Text)
    → length pushed ≤ 101
    → length (if ltb 100 (length pushed) then drop (length pushed - 100) pushed else pushed) ≤ 100
length_latest pushed h = elim (Bool-cases (ltb 100 (length pushed))) [
  | inl long ↦ rw long (ground (arith, length-drop (length pushed - 100) pushed))
  | inr short ↦ rw short (ground arith)
]

length-record_query_history :
    (history : List Text) (sql : Text)
    → length history ≤ 100
    → length (record_query_history history sql) ≤ 100
unfolding record_query_history
length-record_query_history history sql h =
    elim (Bool-cases (is_empty (trim sql) || last_is history (trim sql))) [
      | inl same ↦ rw same h
      | inr new ↦ rw new (
          length_latest (history ++ trim sql ∷ [])
            (omega (arith, length-append history (trim sql ∷ []))))
    ]

replaced-opened :
    (z : Zipper) (sql : Text) → replace_query_text (opened z) sql ≡ opened (edit z (replaced sql))
unfolding replace_query_text opened edit
replaced-opened z sql =
    let latest : Editor → Editor =
      λ e. record e { query_history_index = none; query_history_draft = none } in
    ap latest (sym (show-opened z sql))

ran-opened : (z : Zipper) (sql : Text) → run_query_text (opened z) sql ≡ opened (edit z (ran sql))
unfolding run_query_text opened edit show
ran-opened z sql =
    let recorded : Editor → Editor = λ e. record e {
      query_history = record_query_history z.history sql;
      query_history_index = none;
      query_history_draft = none;
    } in
    ap recorded (sym (show-opened z sql))

clear-opened : (z : Zipper) → clear_query (opened z) ≡ opened (edit z clear)
unfolding clear_query opened edit text_of forwards byte_len
clear-opened z = refl

perform-opened :
    (z : Zipper) (x : Edit) → IsGood z → perform (opened z) x ≡ some (opened (edit z x))
unfolding perform
perform-opened z (typed text) h = insert-opened z text
perform-opened z backspace h = backspace-opened z.behind z
perform-opened z left h = left-opened z.behind z
perform-opened z right h = right-opened z.after z
perform-opened z clear h = ap some (clear-opened z)
perform-opened z previous (h, _) = previous-opened z.history z.browsing z h
perform-opened z next (h, _) = next-opened z.browsing z h
perform-opened z (ran sql) h = ap some (ran-opened z sql)
perform-opened z (replaced sql) h = ap some (replaced-opened z sql)

-- The edits keep the history within its bounds and the place within the history.
browse-IsGood :
    (z : Zipper) (index : ℕ)
    → index < length z.history
    → length z.history ≤ 100
    → IsGood (browse z index)
unfolding browse show
browse-IsGood z index h k = (h, k)

previous-IsGood :
    (history : List Text) (browsing : Option ℕ) (z : Zipper)
    → IsGood (with_history history browsing z)
    → IsGood (edit (with_history history browsing z) previous)
unfolding edit browse show
previous-IsGood [] browsing z h = h
previous-IsGood (t ∷ ts) none z (h, k) = (omega arith, k)
previous-IsGood (t ∷ ts) (some index) z (h, k) = (omega arith, k)

next-IsGood :
    (browsing : Option ℕ) (z : Zipper)
    → IsGood (with_history z.history browsing z)
    → IsGood (edit (with_history z.history browsing z) next)
unfolding edit browse show
next-IsGood none z h = h
next-IsGood (some index) z (h, k) = elim (Bool-cases (ltb (index + 1) (length z.history))) [
  | inl inside ↦ rw (edit, inside) (ground arith, k)
  | inr end ↦ rw (edit, end) (tt, k)
]

edit-IsGood : (z : Zipper) (x : Edit) → IsGood z → IsGood (edit z x)
unfolding edit show
edit-IsGood z (typed text) (h, k) = (tt, k)
edit-IsGood z backspace h = backspace_good z.behind
  where
    backspace_good : (behind : Text) → IsGood (edit (zip behind z.after z) backspace)
    backspace_good [] = h
    backspace_good (c ∷ s) = (tt, h.1)
edit-IsGood z left h = left_good z.behind
  where
    left_good : (behind : Text) → IsGood (edit (zip behind z.after z) left)
    left_good [] = h
    left_good (c ∷ s) = h
edit-IsGood z right h = right_good z.after
  where
    right_good : (after : Text) → IsGood (edit (zip z.behind after z) right)
    right_good [] = h
    right_good (c ∷ s) = h
edit-IsGood z clear (h, k) = (tt, k)
edit-IsGood z previous h = previous-IsGood z.history z.browsing z h
edit-IsGood z next h = next-IsGood z.browsing z h
edit-IsGood z (ran sql) (h, k) = (tt, length-record_query_history z.history sql k)
edit-IsGood z (replaced sql) (h, k) = (tt, k)

-- From an editor that stands for a zipper whose place is in its history of at most a hundred
-- queries, any edits succeed, and lead to the editor that stands for the zipper edited alike, with
-- a history of at most a hundred queries again.
pub perform_all-opened :
    (z : Zipper) (xs : List Edit)
    → IsGood z
    → (perform_all (opened z) xs ≡ some (opened (run z xs))) × IsGood (run z xs)
unfolding perform_all run
perform_all-opened z [] h = (refl, h)
perform_all-opened z (x ∷ xs) h =
    let rest = perform_all-opened (edit z x) xs (edit-IsGood z x h) in
    (rw (perform-opened z x h) rest.0, rest.1)
