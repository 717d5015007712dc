-- ===== src/AuditTrail/Rotation.antt =====
-- What a rotation of the audit trail leaves, also where the file system refuses a call.
use myr.Prelude.{
  ℕ, zero, suc, ◌-◌, ◌≤◌, ◌<◌, ◌≡◌, refl, sym, ◌∙◌, ◌⊎◌, inl, inr, Bool, none, some, Bool-cases,
  Option-cases, arith,
}
use myr.AuditTrail.{
  Files, FileCall, rename, remove_file, AuditTrailError, rotate_error, delete_error, Outcome,
  and_also, removed, renamed, delete_oldest, archive_one, archive_from, rotate,
}

-- One file has gone up, or nothing has.
abbrev IsMoved : ℕ → Files → Files → Type 0
IsMoved index files after =
    (after index ≡ none)
    × (after (suc index) ≡ files index)
    × ((i : ℕ) → i < index → after i ≡ files i)
    × ((i : ℕ) → suc index < i → after i ≡ files i)

-- What comes of files: every archive that was not the oldest is at its place or one further, and
-- where there is no error each is one further.
abbrev pub IsRotated : ℕ → Files → Outcome → Type 0
IsRotated index files (after, error) =
    ((i : ℕ) → suc index < i → after i ≡ files i)
    × ((i : ℕ) → i ≤ index → (after (suc i) ≡ files i) ⊎ (after i ≡ files i))
    × (error ≡ none → (after 0 ≡ none) × ((i : ℕ) → i ≤ index → after (suc i) ≡ files i))

renamed_up : (index : ℕ) (files : Files) → IsMoved index files (renamed files index (suc index))
renamed_up index files = (ground arith, ground arith, λ i h. ground arith, λ i h. ground arith)

-- A round with the next place free: it stops with an error and all as it was, or the file goes up.
archive_one_lem :
    (fails : FileCall → Bool) (index : ℕ) (files : Files)
    → files (suc index) ≡ none
    → (archive_one fails index files ≡ (files, some (rotate_error index (suc index))))
      ⊎ ((after : Files) × (archive_one fails index files ≡ (after, none))
          × IsMoved index files after)
unfolding archive_one
archive_one_lem fails index files free = elim (Option-cases (files index)) [
  | inl missing ↦
      inr (files, rw missing refl, (missing, free ∙ sym missing, (λ i h. refl), (λ i h. refl)))
  | inr (bytes, there) ↦ elim (Bool-cases (fails (rename index (suc index)))) [
    | inl refused ↦ inl (rw (there, refused) refl)
    | inr allowed ↦
        inr (renamed files index (suc index), rw (there, allowed) refl, renamed_up index files)
  ]
]

-- A refused round leaves all as it was.
refused_lem :
    (index : ℕ) (files : Files) (error : AuditTrailError)
    → IsRotated index files (files, some error)
refused_lem index files error = ((λ i h. refl), (λ i h. inr refl), λ over. cc)

first_moved : (files after : Files) → IsMoved 0 files after → IsRotated 0 files (after, none)
first_moved files after (free, up, below, above) =
    (above, (λ i h. inl (only i h)), λ over. (free, only))
  where
    only : (i : ℕ) → i ≤ 0 → after (suc i) ≡ files i
    only i h = let first : i ≡ 0 = omega arith in rw first up

-- The rounds below go on where the file above has gone up.
next_moved :
    (index : ℕ) (files between : Files) (outcome : Outcome)
    → IsMoved (suc index) files between
    → IsRotated index between outcome
    → IsRotated (suc index) files outcome
next_moved index files between (after, error) (free, up, below, above) (kept, places, done) = (
  (λ i h. kept i (omega arith) ∙ above i h),
  (λ i h. elim (le_cases i index h) [
    | inl top ↦ inl (rw top (kept (suc (suc index)) (omega arith) ∙ up))
    | inr lower ↦ elim (places i lower) [
      | inl gone_up ↦ inl (gone_up ∙ below i (omega arith))
      | inr stayed ↦ inr (stayed ∙ below i (omega arith))
    ]
  ]),
  λ over. (
    (done over).0,
    λ i h. elim (le_cases i index h) [
      | inl top ↦ rw top (kept (suc (suc index)) (omega arith) ∙ up)
      | inr lower ↦ (done over).1 i lower ∙ below i (omega arith)
    ],
  ),
)
  where
    le_cases : (i n : ℕ) → i ≤ suc n → (i ≡ suc n) ⊎ (i ≤ n)
    le_cases i n h = omega arith

archive_from_lem :
    (fails : FileCall → Bool) (index : ℕ) (files : Files)
    → files (suc index) ≡ none
    → IsRotated index files (archive_from fails index files)
unfolding archive_from and_also
archive_from_lem fails zero files free = elim (archive_one_lem fails 0 files free) [
  | inl refused ↦ rw refused (refused_lem 0 files (rotate_error 0 1))
  | inr (after, moved, ups) ↦ rw moved (first_moved files after ups)
]
archive_from_lem fails (suc index) files free =
    elim (archive_one_lem fails (suc index) files free) [
      | inl refused ↦
          rw refused (refused_lem (suc index) files (rotate_error (suc index) (suc (suc index))))
      | inr (after, moved, ups) ↦ rw moved (
          next_moved index files after (archive_from fails index after) ups
            (archive_from_lem fails index after ups.0))
    ]

-- The oldest archive is gone, or nothing has changed.
delete_oldest_lem :
    (fails : FileCall → Bool) (index : ℕ) (files : Files)
    → (delete_oldest fails index files ≡ (files, some (delete_error index)))
      ⊎ ((after : Files) × (delete_oldest fails index files ≡ (after, none))
          × (after index ≡ none)
          × ((i : ℕ) → i < index → after i ≡ files i)
          × ((i : ℕ) → index < i → after i ≡ files i))
unfolding delete_oldest
delete_oldest_lem fails index files = elim (Option-cases (files index)) [
  | inl missing ↦ inr (files, rw missing refl, missing, (λ i h. refl), (λ i h. refl))
  | inr (bytes, there) ↦ elim (Bool-cases (fails (remove_file index))) [
    | inl refused ↦ inl (rw (there, refused) refl)
    | inr allowed ↦ inr (
      removed files index,
      rw (there, allowed) refl,
      ground arith,
      (λ i h. ground arith),
      (λ i h. ground arith),
    )
  ]
]

same_before :
    (index : ℕ) (files between : Files) (outcome : Outcome)
    → ((i : ℕ) → i < suc index → between i ≡ files i)
    → ((i : ℕ) → suc index < i → between i ≡ files i)
    → IsRotated index between outcome
    → IsRotated index files outcome
same_before index files between (after, error) below above (kept, places, done) = (
  (λ i h. kept i h ∙ above i h),
  (λ i h. elim (places i h) [
    | inl gone_up ↦ inl (gone_up ∙ below i (omega arith))
    | inr stayed ↦ inr (stayed ∙ below i (omega arith))
  ]),
  λ over. ((done over).0, λ i h. (done over).1 i h ∙ below i (omega arith)),
)

pub rotate-IsRotated :
    (fails : FileCall → Bool) (index : ℕ) (files : Files)
    → IsRotated index files (rotate fails (suc index) files)
unfolding rotate and_also
rotate-IsRotated fails index files = elim (delete_oldest_lem fails (suc index) files) [
  | inl refused ↦ rw refused (refused_lem index files (delete_error (suc index)))
  | inr (after, deleted, gone, below, above) ↦
      let before : suc index - 1 ≡ index = omega arith in
      rw (deleted, before)
        (same_before index files after (archive_from fails index after) below above
          (archive_from_lem fails index after gone))
]
