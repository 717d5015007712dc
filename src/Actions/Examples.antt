-- ===== src/Actions/Examples.antt =====
-- The theorems on the actions at a concrete context.
use myr.Prelude.{
  ◌≡◌, ◌≤◌, ◌↔◌, refl, true, none, some, List, take, length, All, [], ◌∷◌, map, filter, arith,
}
use mathlib.Core.List.{Perm}
use myr.Prelude.Text.{codes, trim, is_whitespace, trim_start_by, trim_end_by, end_cons}
use myr.Actions.Catalog.{
  ActionId, actions, ActionContext, schema_explorer, default_context, with_view, preview_table,
  describe_table, export_csv,
}
use myr.Actions.Invocation.{ActionInvocation, RankedAction, ok, err, action_disabled}
use myr.Actions.Enablement.{action_enabled}
use myr.Actions.Engine.{new, rank_top_n, record_use, invoke}
use myr.Actions.Engine.Rank.{IsEnabled, IsBestFirst, scored, used, rank_top_n_lem}
use myr.Actions.Engine.Invoke.{HasNames, invoke_enabled}
use myr.Actions.Engine.Generated.{invoke_running}

-- A table is selected in the schema explorer.
abbrev context : ActionContext
context = record (with_view default_context schema_explorer) {
  selection = record { database = some (codes "app"); table = some (codes "users"); column = none };
}

-- The tables were described, then previewed.
abbrev history : List ActionId
history = preview_table ∷ describe_table ∷ []

rank_top_n_lem_example :
    (full : List RankedAction) × (rank_top_n (used history) context 5 ≡ take 5 full)
    × Perm full (map (scored history context) (filter (λ a. action_enabled a.id context) actions))
    × IsBestFirst full
    × All (IsEnabled context) (rank_top_n (used history) context 5)
    × (length (rank_top_n (used history) context 5) ≤ 5)
rank_top_n_lem_example = rank_top_n_lem history context 5 (omega arith)

context-HasNames : HasNames context.selection
unfolding trim trim_start_by trim_end_by end_cons is_whitespace
context-HasNames = (refl, refl, tt)

invoke_enabled_example : (action_enabled preview_table context ≡ true) ↔ (
    (i : ActionInvocation) × (invoke new preview_table context
      ≡ (record_use new preview_table, ok i)))
invoke_enabled_example = invoke_enabled new preview_table context context-HasNames

export_refused : (invoke new export_csv context).1 ≡ err (action_disabled export_csv)
unfolding invoke action_enabled
export_refused = refl

abbrev busy : ActionContext
busy = record context { query_running = true }

invoke_running_example : invoke new preview_table busy ≡ (new, err (action_disabled preview_table))
invoke_running_example = invoke_running new preview_table busy refl refl
