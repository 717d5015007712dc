-- ===== src/NamedStore/Lookup.antt =====
-- What a lookup finds after the records were changed.
use myr.Prelude.{
  ◌⊎◌, ◌≡◌, refl, sym, ap, ◌∙◌, Bool, true, false, not, none, some, List, [], ◌∷◌, ◌++◌, any,
  filter, find, arith, All, All-append, Bool-cases, inl, inr, if◌then◌else◌,
}
use myr.Prelude.Sort.{sort_by, insert_sorted, All-sort_by}
use myr.Prelude.Text.{Text, text_eq, text_eq_iff}
use myr.NamedStore.{named, name_lt, replace_first, upsert, delete}

module _ {A : Type 0} (name_of : A → Text) where
  -- No two records have one name.
  abbrev pub IsDistinct : List A → Type 0
  IsDistinct [] = Unit
  IsDistinct (b ∷ bs) = All (λ other. (named name_of) (name_of b) other ≡ false) bs × IsDistinct bs

  -- Where only one element can be found, sorting does not change what is found.
  module _ (p : A → Bool) where
    abbrev Finds : List A → Type 0
    Finds [] = Unit
    Finds (x ∷ xs) = (p x ≡ true → All (λ y. p y ≡ false) xs) × Finds xs

    find-none : (xs : List A) → All (λ y. p y ≡ false) xs → find p xs ≡ none
    find-none [] h = refl
    find-none (x ∷ xs) (hx, h) = rw hx (find-none xs h)

    find-insert_same :
        (x : A) (ys : List A)
        → p x ≡ true
        → All (λ y. p y ≡ false) ys
        → find p (insert_sorted (name_lt name_of) x ys) ≡ some x
    unfolding insert_sorted
    find-insert_same x [] hx h = rw hx refl
    find-insert_same x (y ∷ ys) hx (hy, h) = elim (Bool-cases ((name_lt name_of) y x)) [
      | inl less ↦ rw (less, insert_sorted, hy) (find-insert_same x ys hx h)
      | inr other ↦ rw (other, insert_sorted, hx) refl
    ]

    find-insert_other :
        (x : A) (ys : List A)
        → p x ≡ false
        → find p (insert_sorted (name_lt name_of) x ys) ≡ find p ys
    unfolding insert_sorted
    find-insert_other x [] hx = rw hx refl
    find-insert_other x (y ∷ ys) hx = elim (Bool-cases ((name_lt name_of) y x)) [
      | inl less ↦
          rw (less, insert_sorted) (ap (λ r. if p y then some y else r) (find-insert_other x ys hx))
      | inr other ↦ rw (other, insert_sorted, hx) refl
    ]

    find-sort_by : (xs : List A) → Finds xs → find p (sort_by (name_lt name_of) xs) ≡ find p xs
    unfolding sort_by
    find-sort_by [] h = refl
    find-sort_by (x ∷ xs) (only, h) = elim (Bool-cases (p x)) [
      | inl is ↦ rw is (
          find-insert_same x (sort_by (name_lt name_of) xs) is
            (All-sort_by (name_lt name_of) (λ y. p y ≡ false) xs (only is)))
      | inr other ↦
          rw other (find-insert_other x (sort_by (name_lt name_of) xs) other ∙ find-sort_by xs h)
    ]

  named_other :
      (n : Text) (b other : A)
      → (named name_of) n b ≡ true
      → (named name_of) (name_of b) other ≡ false
      → (named name_of) n other ≡ false
  named_other n b other h k = rw (← (text_eq_iff (name_of b) n).0 h) k

  pub All-named :
      (n : Text) (b : A) (bs : List A)
      → (named name_of) n b ≡ true
      → All (λ other. (named name_of) (name_of b) other ≡ false) bs
      → All (λ other. (named name_of) n other ≡ false) bs
  All-named n b [] h k = tt
  All-named n b (x ∷ xs) h (kx, k) = (named_other n b x h kx, All-named n b xs h k)

  IsDistinct-Finds : (n : Text) (bs : List A) → IsDistinct bs → Finds ((named name_of) n) bs
  IsDistinct-Finds n [] h = tt
  IsDistinct-Finds n (b ∷ bs) (hb, h) = (λ is. All-named n b bs is hb, IsDistinct-Finds n bs h)

  pub named_sym :
      (a b : A) → (named name_of) (name_of a) b ≡ false → (named name_of) (name_of b) a ≡ false
  named_sym a b h = elim (Bool-cases ((named name_of) (name_of b) a)) [
    | inl same ↦ absurd (
        true≢false'
          ((text_eq_iff (name_of b) (name_of a)).1
            (sym ((text_eq_iff (name_of a) (name_of b)).0 same)))
          h)
    | inr other ↦ other
  ]
    where
      true≢false' : {r : Bool} → r ≡ true → r ≡ false → ⊥
      true≢false' u v = cc

  -- Two records of one name are found by the same names.
  named_same :
      (n : Text) (a b : A)
      → (named name_of) (name_of a) b ≡ true
      → (named name_of) n b ≡ (named name_of) n a
  named_same n a b h = ap (λ name. text_eq name n) ((text_eq_iff (name_of b) (name_of a)).0 h)

  find-replace_first :
      (n : Text) (b : A) (bs : List A)
      → any ((named name_of) (name_of b)) bs ≡ true
      → find ((named name_of) n) ((replace_first name_of) b bs)
        ≡ (if (named name_of) n b then some b else find ((named name_of) n) bs)
  unfolding replace_first
  find-replace_first n b [] h = absurd (ground arith)
  find-replace_first n b (x ∷ xs) h = elim (Bool-cases ((named name_of) (name_of b) x)) [
    | inl same ↦ rw (same, replace_first, named_same n b x same) (twice ((named name_of) n b))
    | inr other ↦
        let below : any ((named name_of) (name_of b)) xs ≡ true = rw other at h in
        rw (other, replace_first, find-replace_first n b xs below)
          (swap (Bool-cases ((named name_of) n b)) other)
  ]
    where
      twice :
          (r : Bool)
          → (if r then some b else find ((named name_of) n) xs)
            ≡ (if r then some b else if r then some x else find ((named name_of) n) xs)
      twice true = refl
      twice false = refl

      swap :
          ((named name_of) n b ≡ true) ⊎ ((named name_of) n b ≡ false)
          → (named name_of) (name_of b) x ≡ false
          → (if (named name_of) n x
              then some x
              else if (named name_of) n b
              then some b
              else find ((named name_of) n) xs)
            ≡ (if (named name_of) n b
                then some b
                else if (named name_of) n x
                then some x
                else find ((named name_of) n) xs)
      swap (inl is) other = rw (is, named_other n b x is other) refl
      swap (inr not_is) other = rw not_is refl

  -- A new name at the end.
  find-append :
      (n : Text) (b : A) (bs : List A)
      → any ((named name_of) (name_of b)) bs ≡ false
      → find ((named name_of) n) (bs ++ b ∷ [])
        ≡ (if (named name_of) n b then some b else find ((named name_of) n) bs)
  find-append n b [] h = refl
  find-append n b (x ∷ xs) h = elim (Bool-cases ((named name_of) n b)) [
    | inl is ↦
        let other : (named name_of) (name_of b) x ≡ false = ground arith in
        rw (is, named_other n b x is other) (find-append n b xs (ground arith) ∙ rw is refl)
    | inr not_is ↦ rw not_is (
        ap (λ r. if (named name_of) n x then some x else r)
          (find-append n b xs (ground arith) ∙ rw not_is refl))
  ]

  pub IsDistinct-append :
      (b : A) (bs : List A)
      → any ((named name_of) (name_of b)) bs ≡ false
      → IsDistinct bs
      → IsDistinct (bs ++ b ∷ [])
  IsDistinct-append b [] h d = (tt, tt)
  IsDistinct-append b (x ∷ xs) h (dx, d) = (
    All-append (λ other. (named name_of) (name_of x) other ≡ false) xs (b ∷ []) dx
        (named_sym b x (ground arith), tt),
    IsDistinct-append b xs (ground arith) d,
  )

  -- After `upsert` the new record is found by its name, and every other name finds what
  -- it found before, if the names were distinct.
  pub find-upsert :
      (bs : List A) (b : A) (name : Text)
      → IsDistinct bs
      → find ((named name_of) name) ((upsert name_of) bs b)
        ≡ (if (named name_of) name b then some b else find ((named name_of) name) bs)
  unfolding upsert
  find-upsert bs b name d = elim (Bool-cases (any ((named name_of) (name_of b)) bs)) [
    | inl there ↦ rw there (find-replace_first name b bs there)
    | inr fresh ↦ rw fresh (
        find-sort_by ((named name_of) name) (bs ++ b ∷ [])
          (IsDistinct-Finds name (bs ++ b ∷ []) (IsDistinct-append b bs fresh d))
        ∙ find-append name b bs fresh)
  ]

  -- The name itself is gone, and the others are still there.
  find-filter_gone :
      (gone : Text) (bs : List A)
      → find ((named name_of) gone) (filter (λ b. not ((named name_of) gone b)) bs) ≡ none
  find-filter_gone gone [] = refl
  find-filter_gone gone (x ∷ xs) = elim (Bool-cases ((named name_of) gone x)) [
    | inl is ↦ rw is (find-filter_gone gone xs)
    | inr other ↦ rw (other, other) (find-filter_gone gone xs)
  ]

  find-filter_other :
      (name gone : Text) (bs : List A)
      → text_eq gone name ≡ false
      → find ((named name_of) name) (filter (λ b. not ((named name_of) gone b)) bs)
        ≡ find ((named name_of) name) bs
  find-filter_other name gone [] h = refl
  find-filter_other name gone (x ∷ xs) h = elim (Bool-cases ((named name_of) gone x)) [
    | inl is ↦
        let skipped : (named name_of) name x ≡ false =
          ap (λ t. text_eq t name) ((text_eq_iff (name_of x) gone).0 is) ∙ h in
        rw (is, skipped) (find-filter_other name gone xs h)
    | inr other ↦
        rw other (
          ap (λ r. if (named name_of) name x then some x else r) (find-filter_other name gone xs h))
  ]

  -- After `delete` the name finds nothing, and every other name finds what it found before.
  pub find-delete :
      (bs : List A) (gone name : Text)
      → find ((named name_of) name) ((delete name_of) bs gone).0
        ≡ (if text_eq gone name then none else find ((named name_of) name) bs)
  unfolding delete
  find-delete bs gone name = elim (Bool-cases (text_eq gone name)) [
    | inl is ↦ rw (is, ← (text_eq_iff gone name).0 is) (find-filter_gone gone bs)
    | inr other ↦ rw other (find-filter_other name gone bs other)
  ]
