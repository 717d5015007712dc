-- ===== src/AuditTrail/Append.antt =====
-- What appending a record leaves in the files of the audit trail.
use myr.Prelude.{
  ℕ, zero, suc, ◌-◌, ◌≤◌, ◌<◌, ◌≡◌, refl, ◌∙◌, ap, ◌⊎◌, inl, inr, Bool, true, false, Option, none,
  some, List, [], ◌∷◌, ◌++◌, length, leb, Bool-cases, if_either, arith, saturating_add,
}
use Prim.Native.Nat.{max}
use mathlib.Core.Path.{subst}
use myr.AuditTrail.{
  Files, FileCall, metadata, open_append, create_dir_all, AuditRetentionPolicy, Outcome, Written,
  whole, part, and_also, contents, rotate, rotate_if_needed, write_line, open_and_write,
  append_rendered, append,
}
use myr.AuditTrail.Rotation.{IsRotated, rotate-IsRotated}

-- The file is at its place or one further, or it is the trail itself with something added.
abbrev pub IsKept : Files → Files → ℕ → Type 0
IsKept files after i =
    (after (suc i) ≡ files i)
    ⊎ ((after i ≡ files i)
        ⊎ ((i ≡ 0) × (more : List ℕ) × (after 0 ≡ some (contents (files 0) ++ more))))

-- The bytes that the trail would have.
abbrev pub needed : Files → List ℕ → ℕ
needed files rendered =
    saturating_add (length (contents (files 0))) (saturating_add (length rendered) 1)

-- The record's line is at the end of the trail, after a rotation if it did not fit.
abbrev pub IsAppended : AuditRetentionPolicy → List ℕ → Files → Files → Type 0
IsAppended retention rendered files after =
    ((needed files rendered ≤ retention.max_bytes)
      × (after 0 ≡ some (contents (files 0) ++ (rendered ++ 10 ∷ [])))
      × ((i : ℕ) → after (suc i) ≡ files (suc i)))
    ⊎ ((retention.max_bytes < needed files rendered)
        × (after 0 ≡ some (rendered ++ 10 ∷ []))
        × ((i : ℕ) → i < max retention.max_archives 1 → after (suc i) ≡ files i)
        × ((i : ℕ) → max retention.max_archives 1 < i → after i ≡ files i))

write_above :
    (fails : FileCall → Bool) (result : Written) (rendered : List ℕ) (files : Files) (i : ℕ)
    → (open_and_write fails result rendered files).0 (suc i) ≡ files (suc i)
unfolding open_and_write write_line
write_above fails result rendered files i = elim (Bool-cases (fails open_append)) [
  | inl refused ↦ rw refused refl
  | inr allowed ↦ rw allowed (written_above result)
]
  where
    written_above :
        (result : Written) → (write_line fails result rendered files).0 (suc i) ≡ files (suc i)
    written_above whole = ground arith
    written_above (part bytes) = ground arith

write-IsKept :
    (fails : FileCall → Bool) (result : Written) (rendered : List ℕ) (files : Files) (i : ℕ)
    → IsKept files (open_and_write fails result rendered files).0 i
unfolding open_and_write write_line
write-IsKept fails result rendered files (suc i) =
    inr (inl (write_above fails result rendered files i))
write-IsKept fails result rendered files zero = elim (Bool-cases (fails open_append)) [
  | inl refused ↦ rw refused (inr (inl refl))
  | inr allowed ↦ rw allowed (written_kept result)
]
  where
    written_kept : (result : Written) → IsKept files (write_line fails result rendered files).0 0
    written_kept whole = inr (inr (refl, rendered ++ 10 ∷ [], refl))
    written_kept (part bytes) = inr (inr (refl, bytes, refl))

write_done :
    (fails : FileCall → Bool) (result : Written) (rendered : List ℕ) (files : Files)
    → (open_and_write fails result rendered files).1 ≡ none
    → (open_and_write fails result rendered files).0 0
      ≡ some (contents (files 0) ++ (rendered ++ 10 ∷ []))
unfolding open_and_write write_line
write_done fails result rendered files =
    if_either {A = Outcome}
      (λ o. o.1 ≡ none → o.0 0 ≡ some (contents (files 0) ++ (rendered ++ 10 ∷ [])))
      (fails open_append) (λ h. cc) (written_done result)
  where
    written_done :
        (result : Written)
        → (write_line fails result rendered files).1 ≡ none
        → (write_line fails result rendered files).0 0
          ≡ some (contents (files 0) ++ (rendered ++ 10 ∷ []))
    written_done whole h = refl
    written_done (part bytes) h = cc

-- What is written after the files were looked after.
after_rotation :
    (fails : FileCall → Bool) (result : Written) (rendered : List ℕ) (index : ℕ) (files : Files)
    (outcome : Outcome)
    → IsRotated index files outcome
    → (i : ℕ) → i ≤ index
    → IsKept files (and_also outcome (open_and_write fails result rendered)).0 i
unfolding and_also
after_rotation fails result rendered index files (after, none) (kept, places, done) i h =
    inl (write_above fails result rendered after i ∙ (done refl).1 i h)
after_rotation fails result rendered index files (after, some error) (kept, places, done) i h =
    elim (places i h) [ inl gone_up ↦ inl gone_up | inr stayed ↦ inr (inl stayed) ]

after_rotation_done :
    (fails : FileCall → Bool) (result : Written) (rendered : List ℕ) (index : ℕ) (files : Files)
    (outcome : Outcome)
    → IsRotated index files outcome
    → (and_also outcome (open_and_write fails result rendered)).1 ≡ none
    → ((and_also outcome (open_and_write fails result rendered)).0 0 ≡ some (rendered ++ 10 ∷ []))
      × ((i : ℕ)
          → i ≤ index
          → (and_also outcome (open_and_write fails result rendered)).0 (suc i) ≡ files i)
      × ((i : ℕ)
          → suc index < i
          → (and_also outcome (open_and_write fails result rendered)).0 i ≡ files i)
unfolding and_also
after_rotation_done fails result rendered index files (after, some error) turned over = cc
after_rotation_done fails result rendered index files (after, none) (kept, places, done) over = (
  write_done fails result rendered after over
      ∙ ap (λ f. some (contents f ++ (rendered ++ 10 ∷ []))) (done refl).0,
  (λ i h. write_above fails result rendered after i ∙ (done refl).1 i h),
  above,
)
  where
    above : (i : ℕ) → suc index < i → (open_and_write fails result rendered after).0 i ≡ files i
    above zero h = absurd (omega arith)
    above (suc i) h = write_above fails result rendered after i ∙ kept (suc i) h

archives : (n : ℕ) → suc (max n 1 - 1) ≡ max n 1
archives n = omega arith

rotate-max :
    (fails : FileCall → Bool) (n : ℕ) (files : Files)
    → IsRotated (max n 1 - 1) files (rotate fails (max n 1) files)
rotate-max fails n files =
    subst (λ m. IsRotated (max n 1 - 1) files (rotate fails m files)) (archives n)
      (rotate-IsRotated fails (max n 1 - 1) files)

rendered-IsKept :
    (fails : FileCall → Bool) (retention : AuditRetentionPolicy) (result : Written)
    (rendered : Option (List ℕ)) (files : Files) (i : ℕ)
    → i < max retention.max_archives 1
    → IsKept files (append_rendered fails retention result rendered files).0 i
unfolding append_rendered rotate_if_needed and_also
rendered-IsKept fails retention result none files i h = inr (inl refl)
rendered-IsKept fails retention result (some rendered) files i h =
    elim (Bool-cases (fails metadata)) [
      | inl refused ↦ rw refused (inr (inl refl))
      | inr known ↦ elim (Bool-cases (leb (needed files rendered) retention.max_bytes)) [
        | inl fits ↦ rw (known, fits) (write-IsKept fails result rendered files i)
        | inr full ↦
            rw (known, full)
              (after_rotation fails result rendered (max retention.max_archives 1 - 1) files
                (rotate fails (max retention.max_archives 1) files)
                (rotate-max fails retention.max_archives files) i (omega arith))
      ]
    ]

-- Whatever the file system refuses and whether a record is rendered or not, an append loses nothing
-- but the oldest archive: each other file, the trail itself and every archive of a number less than
-- the most that are kept, is afterwards at its place, or one place further, or is the trail with
-- something added at its end.
pub append-IsKept :
    (fails : FileCall → Bool) (retention : AuditRetentionPolicy) (has_parent : Bool)
    (result : Written) (rendered : Option (List ℕ)) (files : Files) (i : ℕ)
    → i < max retention.max_archives 1
    → IsKept files (append fails retention has_parent result rendered files).0 i
unfolding append
append-IsKept fails retention false result rendered files i h = inr (inl refl)
append-IsKept fails retention true result rendered files i h =
    if_either {A = Outcome} (λ o. IsKept files o.0 i) (fails create_dir_all) (inr (inl refl))
      (rendered-IsKept fails retention result rendered files i h)

rendered_done :
    (fails : FileCall → Bool) (retention : AuditRetentionPolicy) (result : Written)
    (rendered : List ℕ) (files : Files)
    → (append_rendered fails retention result (some rendered) files).1 ≡ none
    → IsAppended retention rendered files
        (append_rendered fails retention result (some rendered) files).0
unfolding append_rendered rotate_if_needed and_also
rendered_done fails retention result rendered files = elim (Bool-cases (fails metadata)) [
  | inl refused ↦ rw refused (λ over. cc)
  | inr known ↦ elim (Bool-cases (leb (needed files rendered) retention.max_bytes)) [
    | inl fits ↦
        rw (known, fits)
          (λ over. inl (
            ground arith,
            write_done fails result rendered files over,
            write_above fails result rendered files,
          ))
    | inr full ↦
        rw (known, full)
          (λ over.
            let (line, up, above) =
              after_rotation_done fails result rendered (max retention.max_archives 1 - 1) files
                (rotate fails (max retention.max_archives 1) files)
                (rotate-max fails retention.max_archives files) over in
            inr (ground arith, line, (λ i h. up i (omega arith)), λ i h. above i (omega arith)))
  ]
]

-- If an append answers without an error, then the record's line is at the end of the trail: where
-- it fits into the bytes allowed, behind what was there, with the archives as they were, and else
-- alone in a new trail, with the old trail and each archive but the oldest one place further and
-- the files beyond as they were.
pub append-IsAppended :
    (fails : FileCall → Bool) (retention : AuditRetentionPolicy) (has_parent : Bool)
    (result : Written) (rendered : List ℕ) (files : Files)
    → (append fails retention has_parent result (some rendered) files).1 ≡ none
    → IsAppended retention rendered files
        (append fails retention has_parent result (some rendered) files).0
unfolding append
append-IsAppended fails retention false result rendered files over = cc
append-IsAppended fails retention true result rendered files over =
    if_either {A = Outcome} (λ o. o.1 ≡ none → IsAppended retention rendered files o.0)
      (fails create_dir_all) (λ over. cc) (rendered_done fails retention result rendered files) over
