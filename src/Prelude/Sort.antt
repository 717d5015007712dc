-- ===== src/Prelude/Sort.antt =====
-- `sort_by`: a stable sort, by insertion. What is proved does not depend on the way of sorting.
use mathlib.Core.Path.{◌≡◌}
use mathlib.Core.Bool.{Bool, true, false}
use mathlib.Core.List.{List, [], ◌∷◌, Perm}
use mathlib.Core.List.Perm
use mathlib.Core.Logic.{inl, inr}
use myr.Prelude.Tests.{if◌then◌else◌, Bool-cases}
use myr.Prelude.Lists.{All}

module _ {ℓ} {A : Type ℓ} (lt : A → A → Bool) where
  -- Behind the elements that are less, and before those that are equal and came later.
  unfoldable pub insert_sorted : A → List A → List A
  insert_sorted x [] = x ∷ []
  insert_sorted x (y ∷ ys) = if lt y x then y ∷ insert_sorted x ys else x ∷ y ∷ ys

  unfoldable pub sort_by : List A → List A
  unfolding insert_sorted
  sort_by [] = []
  sort_by (x ∷ xs) = insert_sorted x (sort_by xs)

  insert-perm : (x : A) (ys : List A) → Perm (insert_sorted x ys) (x ∷ ys)
  unfolding insert_sorted
  insert-perm x [] = Perm.refl (x ∷ [])
  insert-perm x (y ∷ ys) = elim (Bool-cases (lt y x)) [
    | inl less ↦
        rw (less, insert_sorted) (Perm.trans (Perm.cons y (insert-perm x ys)) (Perm.swap x y ys))
    | inr other ↦ rw (other, insert_sorted) (Perm.refl (x ∷ y ∷ ys))
  ]

  -- Nothing is lost, added or repeated.
  pub sort_by-perm : (xs : List A) → Perm (sort_by xs) xs
  unfolding sort_by
  sort_by-perm [] = Perm.refl []
  sort_by-perm (x ∷ xs) = Perm.trans (insert-perm x (sort_by xs)) (Perm.cons x (sort_by-perm xs))

  -- No element is less than one that stands before it.
  abbrev pub IsSorted : List A → Type ℓ
  IsSorted [] = Unit
  IsSorted (x ∷ xs) = All (λ y. lt y x ≡ false) xs × IsSorted xs

-- What a comparison must satisfy for the sort to be one.
pub record IsOrder {ℓ} {A : Type ℓ} (lt : A → A → Bool) : Type ℓ where
  pub asym : (a b : A) → lt a b ≡ true → lt b a ≡ false
  pub trans : (a b c : A) → lt b a ≡ false → lt c b ≡ false → lt c a ≡ false

module _ {ℓ} {A : Type ℓ} {lt : A → A → Bool} (o : IsOrder lt) where
  All-insert :
      (z x : A) (ys : List A)
      → lt x z ≡ false
      → All (λ y. lt y z ≡ false) ys
      → All (λ y. lt y z ≡ false) (insert_sorted lt x ys)
  unfolding insert_sorted
  All-insert z x [] hx h = (hx, tt)
  All-insert z x (y ∷ ys) hx (hy, h) = elim (Bool-cases (lt y x)) [
    | inl less ↦ rw (less, insert_sorted) (hy, All-insert z x ys hx h)
    | inr other ↦ rw (other, insert_sorted) (hx, (hy, h))
  ]

  All-trans :
      (x y : A) (zs : List A)
      → lt y x ≡ false
      → All (λ z. lt z y ≡ false) zs
      → All (λ z. lt z x ≡ false) zs
  All-trans x y [] h hs = tt
  All-trans x y (z ∷ zs) h (hz, hs) = (o.trans x y z h hz, All-trans x y zs h hs)

  pub insert-IsSorted : (x : A) (ys : List A) → IsSorted lt ys → IsSorted lt (insert_sorted lt x ys)
  unfolding insert_sorted
  insert-IsSorted x [] s = (tt, tt)
  insert-IsSorted x (y ∷ ys) (hy, s) = elim (Bool-cases (lt y x)) [
    | inl less ↦
        rw (less, insert_sorted) (All-insert y x ys (o.asym y x less) hy, insert-IsSorted x ys s)
    | inr other ↦ rw (other, insert_sorted) ((other, All-trans x y ys other hy), (hy, s))
  ]

  pub sort_by-IsSorted : (xs : List A) → IsSorted lt (sort_by lt xs)
  unfolding sort_by
  sort_by-IsSorted [] = tt
  sort_by-IsSorted (x ∷ xs) = insert-IsSorted x (sort_by lt xs) (sort_by-IsSorted xs)

module _ {ℓ κ} {A : Type ℓ} (lt : A → A → Bool) (P : A → Type κ) where
  pub All-insert_sorted : (x : A) (ys : List A) → P x → All P ys → All P (insert_sorted lt x ys)
  unfolding insert_sorted
  All-insert_sorted x [] px h = (px, tt)
  All-insert_sorted x (y ∷ ys) px (py, h) = elim (Bool-cases (lt y x)) [
    | inl less ↦ rw (less, insert_sorted) (py, All-insert_sorted x ys px h)
    | inr other ↦ rw (other, insert_sorted) (px, (py, h))
  ]

  pub All-sort_by : (xs : List A) → All P xs → All P (sort_by lt xs)
  unfolding sort_by
  All-sort_by [] h = tt
  All-sort_by (x ∷ xs) (px, h) = All-insert_sorted x (sort_by lt xs) px (All-sort_by xs h)
