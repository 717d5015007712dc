-- ===== src/NamedStore/Distinct.antt =====
-- The names of the records stay distinct.
use myr.Prelude.{◌≡◌, Bool, false, not, List, [], ◌∷◌, ◌++◌, any, filter, All, Bool-cases, inl, inr}
use mathlib.Core.Path.{subst}
use myr.Prelude.Sort.{sort_by, insert_sorted, All-insert_sorted, All-sort_by}
use myr.Prelude.Text.{Text, text_eq, text_eq_iff}
use myr.NamedStore.{named, name_lt, replace_first, upsert, delete}
use myr.NamedStore.Lookup.{IsDistinct, IsDistinct-append, named_sym}

module _ {A : Type 0} (name_of : A → Text) where
  pub replace_first-All :
      (P : Text → Type 0) (b : A) (bs : List A)
      → All (λ other. P (name_of other)) bs
      → All (λ other. P (name_of other)) ((replace_first name_of) b bs)
  unfolding replace_first
  replace_first-All P b [] h = tt
  replace_first-All P b (x ∷ xs) (hx, h) = elim (Bool-cases ((named name_of) (name_of b) x)) [
    | inl same ↦
        let e = (text_eq_iff (name_of x) (name_of b)).0 same in
        rw (same, replace_first) (subst P e hx, h)
    | inr other ↦ rw (other, replace_first) (hx, replace_first-All P b xs h)
  ]

  replace_first-IsDistinct :
      (b : A) (bs : List A)
      → (IsDistinct name_of) bs
      → (IsDistinct name_of) ((replace_first name_of) b bs)
  unfolding replace_first
  replace_first-IsDistinct b [] h = tt
  replace_first-IsDistinct b (x ∷ xs) (hx, h) = elim (Bool-cases ((named name_of) (name_of b) x)) [
    | inl same ↦
        rw (same, replace_first)
          (
            subst (λ name. All (λ other. (named name_of) name other ≡ false) xs)
                ((text_eq_iff (name_of x) (name_of b)).0 same) hx,
            h,
          )
    | inr other ↦
        rw (other, replace_first)
          (
            replace_first-All (λ name. text_eq name (name_of x) ≡ false) b xs hx,
            replace_first-IsDistinct b xs h,
          )
  ]

  insert-IsDistinct :
      (x : A) (ys : List A)
      → All (λ other. (named name_of) (name_of x) other ≡ false) ys
      → (IsDistinct name_of) ys
      → (IsDistinct name_of) (insert_sorted (name_lt name_of) x ys)
  unfolding insert_sorted
  insert-IsDistinct x [] hx h = (tt, tt)
  insert-IsDistinct x (y ∷ ys) (hxy, hx) (hy, h) = elim (Bool-cases ((name_lt name_of) y x)) [
    | inl less ↦
        rw (less, insert_sorted)
          (
            All-insert_sorted (name_lt name_of) (λ other. (named name_of) (name_of y) other ≡ false)
                x ys ((named_sym name_of) x y hxy) hy,
            insert-IsDistinct x ys hx h,
          )
    | inr other ↦ rw (other, insert_sorted) ((hxy, hx), (hy, h))
  ]

  pub sort_by-IsDistinct :
      (xs : List A) → (IsDistinct name_of) xs → (IsDistinct name_of) (sort_by (name_lt name_of) xs)
  unfolding sort_by
  sort_by-IsDistinct [] h = tt
  sort_by-IsDistinct (x ∷ xs) (hx, h) =
      insert-IsDistinct x (sort_by (name_lt name_of) xs)
        (All-sort_by (name_lt name_of) (λ other. (named name_of) (name_of x) other ≡ false) xs hx)
        (sort_by-IsDistinct xs h)

  pub filter-All : (P : A → Type 0) (p : A → Bool) (xs : List A) → All P xs → All P (filter p xs)
  filter-All P p [] h = tt
  filter-All P p (x ∷ xs) (hx, h) = elim (Bool-cases (p x)) [
    | inl is ↦ rw (is, filter) (hx, filter-All P p xs h)
    | inr other ↦ rw (other, filter) (filter-All P p xs h)
  ]

  filter-IsDistinct :
      (p : A → Bool) (xs : List A) → (IsDistinct name_of) xs → (IsDistinct name_of) (filter p xs)
  filter-IsDistinct p [] h = tt
  filter-IsDistinct p (x ∷ xs) (hx, h) = elim (Bool-cases (p x)) [
    | inl is ↦
        rw (is, filter)
          (
            filter-All (λ other. (named name_of) (name_of x) other ≡ false) p xs hx,
            filter-IsDistinct p xs h,
          )
    | inr other ↦ rw (other, filter) (filter-IsDistinct p xs h)
  ]

  -- If the names are distinct, they stay so, whichever record is saved or
  -- deleted.
  pub changed-IsDistinct :
      (bs : List A) (b : A) (gone : Text)
      → (IsDistinct name_of) bs
      → (IsDistinct name_of) ((upsert name_of) bs b)
        × (IsDistinct name_of) ((delete name_of) bs gone).0
  unfolding upsert delete
  changed-IsDistinct bs b gone d = (
    elim (Bool-cases (any ((named name_of) (name_of b)) bs)) [
      | inl there ↦ rw there (replace_first-IsDistinct b bs d)
      | inr fresh ↦
          rw fresh (sort_by-IsDistinct (bs ++ b ∷ []) ((IsDistinct-append name_of) b bs fresh d))
    ],
    filter-IsDistinct (λ c. not ((named name_of) gone c)) bs d,
  )
