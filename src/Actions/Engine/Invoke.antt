-- ===== src/Actions/Engine/Invoke.antt =====
-- What an invocation may answer.
use myr.Prelude.{
  ◌≡◌, ◌≢◌, ◌↔◌, refl, sym, ap, ◌∙◌, true, false, not, ◌&&◌, Option, none, some, arith, Bool-cases,
  inl, inr, is_empty, is_some, is_some_and,
}
use myr.Prelude.Text.{Text, trim}
use myr.SqlGenerator.{
  SqlTarget, new_target, filtered_sorted_preview_sql, count_estimate_sql, with_column, estimate,
}
use myr.Actions.Catalog.{
  ActionId, ActionContext, SchemaSelection, preview_table, jump_to_related_table,
  run_health_diagnostics, previous_page, next_page, describe_table, show_indexes, show_create_table,
  count_estimate, run_current_query, apply_limit200, explain_query, build_filter_sort_query,
  insert_select_snippet, insert_join_snippet, cancel_running_query, export_csv, export_json,
  export_csv_gzip, export_json_gzip, export_json_lines, export_json_lines_gzip, save_bookmark,
  open_bookmark, copy_cell, copy_row, search_results, focus_query_editor,
}
use myr.Actions.Invocation.{
  ActionInvocation, run_sql, replace_query_editor_text, ActionEngineError, missing_query_text,
  action_disabled, Outcome, ok, err, ok_or, ◌>>=◌,
}
use myr.Actions.Snippets.{
  preview_limit, context_selected_target, context_selected_column, from_generated,
}
use myr.Actions.Enablement.{action_enabled, has_target, table_enabled}
use myr.Actions.Engine.{
  ActionsEngine, invocation, invoke, record_use, recorded, selected_target, non_blank,
}

-- The names of a selection, where there are names, are not blank.
abbrev IsNamed : Option Text → Type 0
IsNamed none = Unit
IsNamed (some name) = is_empty (trim name) ≡ false

abbrev pub HasNames : SchemaSelection → Type 0
HasNames s = IsNamed s.database × IsNamed s.table × IsNamed s.column

-- Whether there is an answer.
abbrev Succeeds : Outcome ActionInvocation → Type 0
Succeeds r = (i : ActionInvocation) × (r ≡ ok i)

target_some :
    (database table : Option Text)
    → IsNamed database
    → IsNamed table
    → (is_some table && is_some database) ≡ true
    → (t : SqlTarget) × (context_selected_target database table ≡ ok t) × (t.database ≡ database)
unfolding context_selected_target new_target
target_some (some d) (some t) hd ht e =
    (record { database = some d; table = t }, rw (ht, hd) refl, refl)
target_some (some d) none hd ht e = absurd (ground arith)
target_some none table hd ht e = absurd (ground arith)

estimate_some :
    (database : Option Text) (table : Text)
    → is_some database ≡ true
    → Succeeds (from_generated (estimate database table) >>= (λ sql. ok (run_sql sql)))
estimate_some none table h = absurd (ground arith)
estimate_some (some database) table h = (_, refl)

named_column :
    (column sql : Text)
    → is_empty (trim column) ≡ false
    → Succeeds
        (from_generated (with_column column sql) >>= (λ sql. ok (replace_query_editor_text sql)))
named_column column sql n = (replace_query_editor_text sql, rw n refl)

filter_some :
    (target : SqlTarget) (column : Option Text)
    → IsNamed column
    → is_some column ≡ true
    → Succeeds (
        context_selected_column column >>= (λ name.
          from_generated (filtered_sorted_preview_sql target name preview_limit)
          >>= (λ sql. ok (replace_query_editor_text sql))))
unfolding filtered_sorted_preview_sql context_selected_column
filter_some target none n h = absurd (ground arith)
filter_some target (some column) n h = named_column column _ n

database_some : (c : ActionContext) → has_target c ≡ true → is_some c.selection.database ≡ true
database_some c h = ground arith

module _ (c : ActionContext) (n : HasNames c.selection) (h : has_target c ≡ true) where
  the_target : (t : SqlTarget) × (selected_target c ≡ ok t) × (t.database ≡ c.selection.database)
  the_target = target_some c.selection.database c.selection.table n.0 n.1 h

  with_target :
      (f : SqlTarget → ActionInvocation) → Succeeds (selected_target c >>= (λ t. ok (f t)))
  with_target f = let (t, e, ed) = the_target in (f t, rw e refl)

  with_estimate : Succeeds (
      selected_target c
      >>= (λ t. from_generated (count_estimate_sql t) >>= (λ sql. ok (run_sql sql))))
  unfolding count_estimate_sql
  with_estimate =
      let (t, e, ed) = the_target in
      let (i, k) = estimate_some t.database t.table (rw ed (database_some c h)) in (i, rw e k)

  with_filter :
      is_some c.selection.column ≡ true
      → Succeeds (
          selected_target c >>= (λ t. context_selected_column c.selection.column >>= (λ column.
            from_generated (filtered_sorted_preview_sql t column preview_limit)
            >>= (λ sql. ok (replace_query_editor_text sql)))))
  with_filter hc =
      let (t, e, ed) = the_target in
      let (i, k) = filter_some t c.selection.column n.2 hc in (i, rw e k)

with_query :
    (q : Option Text)
    → is_some_and q (λ query. not (is_empty (trim query))) ≡ true
    → Succeeds (ok_or (non_blank q) missing_query_text >>= (λ query. ok (run_sql query)))
with_query none h = absurd (ground arith)
with_query (some q) h = (run_sql (trim q), rw h refl)

with_suggestion :
    (q : Option Text) (f : Text → Option Text) (g : Text → ActionInvocation) (e : ActionEngineError)
    → is_some_and q (λ query. is_some (f query)) ≡ true
    → Succeeds (ok_or q missing_query_text >>= (λ query. ok_or (f query) e >>= (λ s. ok (g s))))
with_suggestion none f g e h = absurd (ground arith)
with_suggestion (some q) f g e h = from (f q) h
  where
    from : (o : Option Text) → is_some o ≡ true → Succeeds (ok_or o e >>= (λ s. ok (g s)))
    from none k = absurd (ground arith)
    from (some s) k = (g s, refl)

table_enabled_lem : (c : ActionContext) → table_enabled c ≡ true → has_target c ≡ true
table_enabled_lem c h = ground arith

enabled-Succeeds :
    (a : ActionId) (c : ActionContext)
    → HasNames c.selection
    → action_enabled a c ≡ true
    → Succeeds (invocation a c)
unfolding action_enabled invocation
enabled-Succeeds preview_table c n h = with_target c n (table_enabled_lem c h) _
enabled-Succeeds jump_to_related_table c n h = (_, refl)
enabled-Succeeds run_health_diagnostics c n h = (_, refl)
enabled-Succeeds previous_page c n h = (_, refl)
enabled-Succeeds next_page c n h = (_, refl)
enabled-Succeeds describe_table c n h = with_target c n (table_enabled_lem c h) _
enabled-Succeeds show_indexes c n h = with_target c n (table_enabled_lem c h) _
enabled-Succeeds show_create_table c n h = with_target c n (table_enabled_lem c h) _
enabled-Succeeds count_estimate c n h = with_estimate c n (ground arith)
enabled-Succeeds run_current_query c n h = with_query c.query_text (ground arith)
enabled-Succeeds apply_limit200 c n h = with_suggestion c.query_text _ _ _ (ground arith)
enabled-Succeeds explain_query c n h = with_suggestion c.query_text _ _ _ (ground arith)
enabled-Succeeds build_filter_sort_query c n h = with_filter c n (ground arith) (ground arith)
enabled-Succeeds insert_select_snippet c n h = (_, refl)
enabled-Succeeds insert_join_snippet c n h = (_, refl)
enabled-Succeeds cancel_running_query c n h = (_, refl)
enabled-Succeeds export_csv c n h = (_, refl)
enabled-Succeeds export_json c n h = (_, refl)
enabled-Succeeds export_csv_gzip c n h = (_, refl)
enabled-Succeeds export_json_gzip c n h = (_, refl)
enabled-Succeeds export_json_lines c n h = (_, refl)
enabled-Succeeds export_json_lines_gzip c n h = (_, refl)
enabled-Succeeds save_bookmark c n h = (_, refl)
enabled-Succeeds open_bookmark c n h = (_, refl)
enabled-Succeeds copy_cell c n h = (_, refl)
enabled-Succeeds copy_row c n h = (_, refl)
enabled-Succeeds search_results c n h = (_, refl)
enabled-Succeeds focus_query_editor c n h = (_, refl)

invoke_of :
    (e : ActionsEngine) (a : ActionId) (c : ActionContext)
    → action_enabled a c ≡ true
    → invoke e a c ≡ recorded e a (invocation a c)
unfolding invoke
invoke_of e a c h = rw h refl

err≢ok : (error : ActionEngineError) (i : ActionInvocation) → err error ≢ ok i
err≢ok error i h = cc

refused :
    (e : ActionsEngine) (a : ActionId) (c : ActionContext)
    → action_enabled a c ≡ false
    → invoke e a c ≡ (e, err (action_disabled a))
unfolding invoke
refused e a c h = rw h refl

-- An action is enabled exactly when its invocation succeeds and is recorded as a use, if the
-- selected names are not blank: what enables an action is enough for it.
pub invoke_enabled :
    (e : ActionsEngine) (a : ActionId) (c : ActionContext)
    → HasNames c.selection
    → (action_enabled a c ≡ true)
      ↔ ((i : ActionInvocation) × (invoke e a c ≡ (record_use e a, ok i)))
invoke_enabled e a c names = (
  (λ h. let (i, k) = enabled-Succeeds a c names h in (i, invoke_of e a c h ∙ rw k refl)),
  (λ (i, k). elim (Bool-cases (action_enabled a c)) [
    | inl t ↦ t
    | inr f ↦ absurd (err≢ok (action_disabled a) i (ap (λ p. p.1) (sym (refused e a c f) ∙ k)))
  ]),
)

recorded_err :
    (e : ActionsEngine) (a : ActionId) (r : Outcome ActionInvocation) (error : ActionEngineError)
    → (recorded e a r).1 ≡ err error
    → (recorded e a r).0 ≡ e
recorded_err e a (ok i) error h = cc
recorded_err e a (err _) error h = refl

-- Whatever the error of an invocation, the engine is as it was before.
pub invoke_err :
    (e : ActionsEngine) (a : ActionId) (c : ActionContext) (error : ActionEngineError)
    → (invoke e a c).1 ≡ err error
    → (invoke e a c).0 ≡ e
invoke_err e a c error h = elim (Bool-cases (action_enabled a c)) [
  | inl t ↦
      rw (invoke_of e a c t) (recorded_err e a (invocation a c) error (rw (invoke_of e a c t) at h))
  | inr f ↦ unfold invoke in rw f refl
]
