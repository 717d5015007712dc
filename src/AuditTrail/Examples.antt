-- ===== src/AuditTrail/Examples.antt =====
-- The audit trail at concrete files.
use myr.Prelude.{zero, suc, ◌≡◌, refl, Bool, true, false, none, some, [], ◌∷◌, arith}
use myr.AuditTrail.{
  Files, FileCall, rename, rotate_error, AuditRetentionPolicy, Outcome, whole, append, and_also,
  append_rendered, rotate_if_needed, rotate, delete_oldest, archive_from, archive_one,
  open_and_write, write_line,
}
use myr.AuditTrail.Append.{IsKept, IsAppended, append-IsKept, append-IsAppended}

abbrev policy : AuditRetentionPolicy
policy = record { max_bytes = 3; max_archives = 2 }

abbrev trail_files : Files
trail_files zero = some (65 ∷ 10 ∷ [])
trail_files (suc zero) = some (66 ∷ 10 ∷ [])
trail_files (suc (suc zero)) = some (67 ∷ 10 ∷ [])
trail_files (suc (suc (suc i))) = none

abbrev nothing_fails : FileCall → Bool
nothing_fails call = false

-- The trail itself cannot be renamed.
abbrev trail_stuck : FileCall → Bool
trail_stuck (rename zero to) = true
trail_stuck call = false

abbrev appended : Outcome
appended = append nothing_fails policy true whole (some (68 ∷ [])) trail_files

abbrev stopped : Outcome
stopped = append trail_stuck policy true whole (some (68 ∷ [])) trail_files

appended_files :
    (appended.1 ≡ none)
    × (appended.0 0 ≡ some (68 ∷ 10 ∷ []))
    × (appended.0 1 ≡ some (65 ∷ 10 ∷ []))
    × (appended.0 2 ≡ some (66 ∷ 10 ∷ []))
    × (appended.0 3 ≡ none)
unfolding append append_rendered and_also rotate_if_needed rotate delete_oldest archive_from
    archive_one open_and_write write_line
appended_files = (refl, refl, refl, refl, refl)

stopped_files :
    (stopped.1 ≡ some (rotate_error 0 1))
    × (stopped.0 0 ≡ some (65 ∷ 10 ∷ []))
    × (stopped.0 1 ≡ none)
    × (stopped.0 2 ≡ some (66 ∷ 10 ∷ []))
unfolding append append_rendered and_also rotate_if_needed rotate delete_oldest archive_from
    archive_one open_and_write write_line
stopped_files = (refl, refl, refl, refl)

append-IsKept_example : IsKept trail_files stopped.0 1
append-IsKept_example =
    append-IsKept trail_stuck policy true whole (some (68 ∷ [])) trail_files 1 (omega arith)

append-IsAppended_example : IsAppended policy (68 ∷ []) trail_files appended.0
append-IsAppended_example =
    append-IsAppended nothing_fails policy true whole (68 ∷ []) trail_files appended_files.0
