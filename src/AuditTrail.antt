-- ===== src/AuditTrail.antt =====
-- crates/core/src/audit_trail.rs: appending to the audit trail, and its rotation. The files are
-- those at `rotated_audit_path`: number 0 is the trail itself and number i its archive `.i`. What
-- the file system refuses is a parameter, also how much of a line is written before an error; that
-- a file exists can always be found out, and a renamed file replaces the one of its new name, as
-- documented. A record comes as the bytes that it is rendered to.
pub mod Rotation
pub mod Append
mod Examples
use myr.Prelude.{
  ℕ, zero, suc, ◌+◌, ◌-◌, ◌*◌, Bool, true, false, not, Option, none, some, List, [], ◌∷◌, ◌++◌,
  length, leb, ◌==◌, is_some, saturating_add, if◌then◌else◌,
}
use Prim.Native.Nat.{max}

abbrev pub Files : Type 0
Files = ℕ → Option (List ℕ)

-- The calls that may fail, but for the last write.
pub data FileCall : Type 0 where
  create_dir_all metadata open_append : FileCall
  remove_file : ℕ → FileCall
  rename : ℕ → ℕ → FileCall

pub data AuditTrailError : Type 0 where
  invalid_path create_dir_error serialize_error write_error metadata_error : AuditTrailError
  delete_error : ℕ → AuditTrailError
  rotate_error : ℕ → ℕ → AuditTrailError

pub record AuditRetentionPolicy : Type 0 where
  pub max_bytes : ℕ
  pub max_archives : ℕ

-- `AuditRetentionPolicy::default`
abbrev pub default_policy : AuditRetentionPolicy
default_policy = record { max_bytes = 5 * 1024 * 1024; max_archives = 3 }

-- The files afterwards, and the error if there is one.
abbrev pub Outcome : Type 0
Outcome = Files × Option AuditTrailError

-- `?`
unfoldable pub and_also : Outcome → (Files → Outcome) → Outcome
and_also (files, none) next = next files
and_also (files, some error) next = (files, some error)

abbrev pub removed : Files → ℕ → Files
removed files index = λ i. if i == index then none else files i

abbrev pub renamed : Files → ℕ → ℕ → Files
renamed files from to = λ i. if i == from then none else if i == to then files from else files i

abbrev pub written : Files → ℕ → List ℕ → Files
written files index bytes = λ i. if i == index then some bytes else files i

abbrev pub contents : Option (List ℕ) → List ℕ
contents none = []
contents (some bytes) = bytes

-- How the last write goes: wholly, or only a part of the line.
pub data Written : Type 0 where
  whole : Written
  part : List ℕ → Written

module _ (fails : FileCall → Bool) where
  unfoldable pub delete_oldest : ℕ → Files → Outcome
  delete_oldest index files =
      if is_some (files index)
      then (if fails (remove_file index)
          then (files, some (delete_error index))
          else (removed files index, none))
      else (files, none)

  -- One round of the loop; it is also what happens to the trail itself after the loop.
  unfoldable pub archive_one : ℕ → Files → Outcome
  archive_one index files =
      if is_some (files index)
      then (if fails (rename index (suc index))
          then (files, some (rotate_error index (suc index)))
          else (renamed files index (suc index), none))
      else (files, none)

  -- The loop from an index downwards, and the trail itself at last.
  unfoldable pub archive_from : ℕ → Files → Outcome
  archive_from zero files = archive_one zero files
  archive_from (suc index) files = and_also (archive_one (suc index) files) (archive_from index)

  unfoldable pub rotate : ℕ → Files → Outcome
  rotate max_archives files =
      and_also (delete_oldest max_archives files) (archive_from (max_archives - 1))

  unfoldable pub rotate_if_needed : AuditRetentionPolicy → ℕ → Files → Outcome
  rotate_if_needed retention incoming_bytes files =
      if fails metadata
      then (files, some metadata_error)
      else if leb (saturating_add (length (contents (files 0))) incoming_bytes) retention.max_bytes
      then (files, none)
      else rotate (max retention.max_archives 1) files

  -- `writeln!`, to the end of the trail.
  unfoldable pub write_line : Written → List ℕ → Files → Outcome
  write_line whole rendered files =
      (written files 0 (contents (files 0) ++ (rendered ++ 10 ∷ [])), none)
  write_line (part bytes) rendered files =
      (written files 0 (contents (files 0) ++ bytes), some write_error)

  unfoldable pub open_and_write : Written → List ℕ → Files → Outcome
  open_and_write result rendered files =
      if fails open_append then (files, some write_error) else write_line result rendered files

  unfoldable pub append_rendered :
      AuditRetentionPolicy → Written → Option (List ℕ) → Files → Outcome
  append_rendered retention result none files = (files, some serialize_error)
  append_rendered retention result (some rendered) files =
      and_also (rotate_if_needed retention (saturating_add (length rendered) 1) files)
        (open_and_write result rendered)

  -- `append`: whether the path has a parent, and what the record is rendered to.
  unfoldable pub append : AuditRetentionPolicy → Bool → Written → Option (List ℕ) → Files → Outcome
  append retention has_parent result rendered files =
      if not has_parent
      then (files, some invalid_path)
      else if fails create_dir_all
      then (files, some create_dir_error)
      else append_rendered retention result rendered files
