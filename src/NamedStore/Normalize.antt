-- ===== src/NamedStore/Normalize.antt =====
-- The ascending order of the names, and what normalization does to a loaded list.
use myr.Prelude.{
  ◌≡◌, refl, sym, ◌∙◌, Bool, true, false, not, Option, none, some, Option-cases, List, [], ◌∷◌,
  ◌++◌, any, filter, find, All, or_else, Bool-cases, inl, inr, if◌then◌else◌,
}
use mathlib.Core.Path.{subst}
use mathlib.Core.Bool.{true≢false}
use myr.Prelude.Sort.{sort_by, IsSorted, IsOrder, sort_by-IsSorted}
use myr.Prelude.Text.{Text, text_eq, text_eq_iff, text_lt}
use myr.Prelude.Text.Order.{text_lt_irrefl, text_lt_asym, text_lt_trans, text_lt_total}
use myr.NamedStore.{
  named, name_lt, replace_first, upsert, delete, insert_by_name, insert_all, normalize,
}
use myr.NamedStore.Lookup.{IsDistinct, IsDistinct-append}
use myr.NamedStore.Distinct.{sort_by-IsDistinct, replace_first-All, filter-All}

text_lt_trans' : (a b c : Text) → text_lt a b ≡ true → text_lt b c ≡ true → text_lt a c ≡ true
text_lt_trans' a b c h k = elim (Bool-cases (text_lt a c)) [
  | inl less ↦ less
  | inr other ↦
      let back : text_lt b c ≡ false = text_lt_trans c a b other (text_lt_asym a b h) in
      absurd (true≢false (sym k ∙ back))
]

text_lt_cases : (a b : Text) → text_lt a b ≡ false → text_eq a b ≡ false → text_lt b a ≡ true
text_lt_cases a b h k = elim (Bool-cases (text_lt b a)) [
  | inl less ↦ less
  | inr other ↦ absurd (true≢false (sym ((text_eq_iff a b).1 (text_lt_total a b h other)) ∙ k))
]

module _ {A : Type 0} (name_of : A → Text) where
  -- Each name is less than those behind it.
  abbrev pub IsAscending : List A → Type 0
  IsAscending [] = Unit
  IsAscending (x ∷ xs) = All (λ y. text_lt (name_of x) (name_of y) ≡ true) xs × IsAscending xs

  not_equal : (a b : Text) → text_lt a b ≡ true → text_eq b a ≡ false
  not_equal a b h = elim (Bool-cases (text_eq b a)) [
    | inl same ↦
        let e : b ≡ a = (text_eq_iff b a).0 same in
        absurd (true≢false (sym h ∙ rw e (text_lt_irrefl a)))
    | inr other ↦ other
  ]

  not_equal' : (a b : Text) → text_lt a b ≡ true → text_eq a b ≡ false
  not_equal' a b h = elim (Bool-cases (text_eq a b)) [
    | inl same ↦
        let e : a ≡ b = (text_eq_iff a b).0 same in
        absurd (true≢false (sym h ∙ rw e (text_lt_irrefl b)))
    | inr other ↦ other
  ]

  All-not_equal :
      (a : Text) (xs : List A)
      → All (λ y. text_lt a (name_of y) ≡ true) xs
      → All (λ y. named name_of a y ≡ false) xs
  All-not_equal a [] h = tt
  All-not_equal a (x ∷ xs) (hx, h) = (not_equal a (name_of x) hx, All-not_equal a xs h)

  pub IsAscending-IsDistinct : (xs : List A) → IsAscending xs → IsDistinct name_of xs
  IsAscending-IsDistinct [] h = tt
  IsAscending-IsDistinct (x ∷ xs) (hx, h) =
      (All-not_equal (name_of x) xs hx, IsAscending-IsDistinct xs h)

  All-less :
      (a b : Text) (xs : List A)
      → text_lt a b ≡ true
      → All (λ y. text_lt b (name_of y) ≡ true) xs
      → All (λ y. text_lt a (name_of y) ≡ true) xs
  All-less a b [] h k = tt
  All-less a b (x ∷ xs) h (kx, k) = (text_lt_trans' a b (name_of x) h kx, All-less a b xs h k)

  insert_by_name-All :
      (P : A → Type 0) (a : A) (xs : List A) → P a → All P xs → All P (insert_by_name name_of a xs)
  unfolding insert_by_name
  insert_by_name-All P a [] pa h = (pa, tt)
  insert_by_name-All P a (x ∷ xs) pa (px, h) = elim (Bool-cases (text_lt (name_of x) (name_of a))) [
    | inl less ↦ rw (less, insert_by_name) (px, insert_by_name-All P a xs pa h)
    | inr other ↦ elim (Bool-cases (named name_of (name_of a) x)) [
      | inl same ↦ rw (other, same, insert_by_name) (pa, h)
      | inr new ↦ rw (other, new, insert_by_name) (pa, (px, h))
    ]
  ]

  insert_by_name-IsAscending :
      (a : A) (xs : List A) → IsAscending xs → IsAscending (insert_by_name name_of a xs)
  unfolding insert_by_name
  insert_by_name-IsAscending a [] h = (tt, tt)
  insert_by_name-IsAscending a (x ∷ xs) (hx, h) =
      elim (Bool-cases (text_lt (name_of x) (name_of a))) [
        | inl less ↦
            rw (less, insert_by_name)
              (
                insert_by_name-All (λ y. text_lt (name_of x) (name_of y) ≡ true) a xs less hx,
                insert_by_name-IsAscending a xs h,
              )
        | inr other ↦ elim (Bool-cases (named name_of (name_of a) x)) [
          | inl same ↦
              let e : name_of x ≡ name_of a = (text_eq_iff (name_of x) (name_of a)).0 same in
              rw (other, same, insert_by_name)
                (subst (λ name. All (λ y. text_lt name (name_of y) ≡ true) xs) e hx, h)
          | inr new ↦
              let less = text_lt_cases (name_of x) (name_of a) other new in
              rw (other, new, insert_by_name)
                ((less, All-less (name_of a) (name_of x) xs less hx), (hx, h))
        ]
      ]

  insert_all-IsAscending :
      (store by_name : List A)
      → IsAscending by_name
      → IsAscending (insert_all name_of store by_name)
  unfolding insert_all
  insert_all-IsAscending [] by_name h = h
  insert_all-IsAscending (a ∷ store) by_name h =
      insert_all-IsAscending store (insert_by_name name_of a by_name)
        (insert_by_name-IsAscending a by_name h)

  find-insert_by_name :
      (n : Text) (a : A) (xs : List A)
      → find (named name_of n) (insert_by_name name_of a xs)
        ≡ (if named name_of n a then some a else find (named name_of n) xs)
  unfolding insert_by_name
  find-insert_by_name n a [] = refl
  find-insert_by_name n a (x ∷ xs) = elim (Bool-cases (text_lt (name_of x) (name_of a))) [
    | inl less ↦
        rw (less, insert_by_name, find-insert_by_name n a xs)
          (elim (Bool-cases (named name_of n a)) [
            | inl is ↦
                let e : name_of a ≡ n = (text_eq_iff (name_of a) n).0 is in
                let apart : named name_of n x ≡ false =
                  subst (λ m. text_eq (name_of x) m ≡ false) e
                    (not_equal' (name_of x) (name_of a) less) in
                rw (is, apart) refl
            | inr is_not ↦ rw is_not refl
          ])
    | inr other ↦ elim (Bool-cases (named name_of (name_of a) x)) [
      | inl same ↦
          let e : name_of x ≡ name_of a = (text_eq_iff (name_of x) (name_of a)).0 same in
          rw (other, same, insert_by_name)
            (elim (Bool-cases (named name_of n a)) [
              | inl is ↦ rw is refl
              | inr is_not ↦
                  let apart : named name_of n x ≡ false = rw e is_not in rw (is_not, apart) refl
            ])
      | inr new ↦ rw (other, new, insert_by_name) refl
    ]
  ]

  -- The last record of the name.
  unfoldable pub last_named : Text → List A → Option A
  last_named n [] = none
  last_named n (a ∷ store) =
      or_else (last_named n store) (if named name_of n a then some a else none)

  find-insert_all :
      (n : Text) (store by_name : List A)
      → find (named name_of n) (insert_all name_of store by_name)
        ≡ or_else (last_named n store) (find (named name_of n) by_name)
  unfolding insert_all last_named
  find-insert_all n [] by_name = refl
  find-insert_all n (a ∷ store) by_name =
      find-insert_all n store (insert_by_name name_of a by_name)
      ∙ rw (find-insert_by_name n a by_name) (elim (Option-cases (last_named n store)) [
        | inl gone ↦ rw gone (elim (Bool-cases (named name_of n a)) [
          | inl is ↦ rw is refl
          | inr is_not ↦ rw is_not refl
        ])
        | inr (b, there) ↦ rw there refl
      ])

  -- After normalization the names ascend, and each name finds the last record that bears it.
  pub normalize_lem :
      (store : List A)
      → IsAscending (normalize name_of store)
        × ((n : Text) → find (named name_of n) (normalize name_of store) ≡ last_named n store)
  unfolding normalize
  normalize_lem store = (
    insert_all-IsAscending store [] tt,
    λ n. find-insert_all n store [] ∙ (elim (Option-cases (last_named n store)) [
      | inl gone ↦ rw gone refl
      | inr (b, there) ↦ rw there refl
    ]),
  )

  IsSorted-IsAscending :
      (xs : List A) → IsSorted (name_lt name_of) xs → IsDistinct name_of xs → IsAscending xs
  IsSorted-IsAscending [] s d = tt
  IsSorted-IsAscending (x ∷ xs) (sx, s) (dx, d) = (below xs sx dx, IsSorted-IsAscending xs s d)
    where
      below :
          (ys : List A)
          → All (λ y. text_lt (name_of y) (name_of x) ≡ false) ys
          → All (λ y. named name_of (name_of x) y ≡ false) ys
          → All (λ y. text_lt (name_of x) (name_of y) ≡ true) ys
      below [] h k = tt
      below (y ∷ ys) (hy, h) (ky, k) = (text_lt_cases (name_of y) (name_of x) hy ky, below ys h k)

  by_name-IsOrder : IsOrder (name_lt name_of)
  by_name-IsOrder = record {
    asym = λ a b. text_lt_asym (name_of a) (name_of b);
    trans = λ a b c. text_lt_trans (name_of a) (name_of b) (name_of c);
  }

  replace_first-IsAscending :
      (a : A) (xs : List A) → IsAscending xs → IsAscending (replace_first name_of a xs)
  unfolding replace_first
  replace_first-IsAscending a [] h = tt
  replace_first-IsAscending a (x ∷ xs) (hx, h) = elim (Bool-cases (named name_of (name_of a) x)) [
    | inl same ↦
        let e : name_of x ≡ name_of a = (text_eq_iff (name_of x) (name_of a)).0 same in
        rw (same, replace_first)
          (subst (λ name. All (λ y. text_lt name (name_of y) ≡ true) xs) e hx, h)
    | inr other ↦
        rw (other, replace_first)
          (
            replace_first-All name_of (λ name. text_lt (name_of x) name ≡ true) a xs hx,
            replace_first-IsAscending a xs h,
          )
  ]

  filter-IsAscending : (p : A → Bool) (xs : List A) → IsAscending xs → IsAscending (filter p xs)
  filter-IsAscending p [] h = tt
  filter-IsAscending p (x ∷ xs) (hx, h) = elim (Bool-cases (p x)) [
    | inl is ↦
        rw (is, filter)
          (
            filter-All name_of (λ y. text_lt (name_of x) (name_of y) ≡ true) p xs hx,
            filter-IsAscending p xs h,
          )
    | inr other ↦ rw (other, filter) (filter-IsAscending p xs h)
  ]

  pub upsert-IsAscending :
      (store : List A) (a : A) → IsAscending store → IsAscending (upsert name_of store a)
  unfolding upsert
  upsert-IsAscending store a h = elim (Bool-cases (any (named name_of (name_of a)) store)) [
    | inl there ↦ rw there (replace_first-IsAscending a store h)
    | inr fresh ↦
        let end = store ++ a ∷ [] in
        let d = IsDistinct-append name_of a store fresh (IsAscending-IsDistinct store h) in
        rw fresh (
          IsSorted-IsAscending (sort_by (name_lt name_of) end)
            (sort_by-IsSorted by_name-IsOrder end) (sort_by-IsDistinct name_of end d))
  ]

  pub delete-IsAscending :
      (store : List A) (gone : Text) → IsAscending store → IsAscending (delete name_of store gone).0
  unfolding delete
  delete-IsAscending store gone h = filter-IsAscending (λ b. not (named name_of gone b)) store h
