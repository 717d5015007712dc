-- ===== src/Prelude/Assoc.antt =====
-- `HashMap` as an association list: the program never iterates over one. A key stands once.
use mathlib.Core.Path.{◌≡◌, refl}
use mathlib.Core.Option.{Option, none, some}
use mathlib.Core.List.{List, [], ◌∷◌}
use native.Mathlib.Omega.{arith}
use myr.Prelude.Tests.{Eq, beq_refl, if◌then◌else◌}

abbrev pub Assoc {ℓ κ} : Type ℓ → Type κ → Type (ℓ ⊔ κ)
Assoc K V = List (K × V)

module _ {ℓ κ} {K : Type ℓ} {V : Type κ} ⦃e : Eq K⦄ where
  unfoldable pub get : Assoc K V → K → Option V
  get [] k = none
  get ((j, v) ∷ m) k = if e.beq j k then some v else get m k

  unfoldable pub remove : Assoc K V → K → Assoc K V
  remove [] k = []
  remove ((j, v) ∷ m) k = if e.beq j k then remove m k else (j, v) ∷ remove m k

  unfoldable pub insert : Assoc K V → K → V → Assoc K V
  unfolding remove
  insert m k v = (k, v) ∷ remove m k

  pub get-remove :
      (m : Assoc K V) (k j : K) → get (remove m k) j ≡ (if e.beq k j then none else get m j)
  unfolding get remove
  get-remove [] k j = ground arith
  get-remove ((i, v) ∷ m) k j =
      ground (arith, get-remove m k j, e.beq_iff i k, e.beq_iff i j, e.beq_iff k j)

  pub get-insert :
      (m : Assoc K V) (k j : K) (v : V)
      → get (insert m k v) j ≡ (if e.beq k j then some v else get m j)
  unfolding get insert
  get-insert m k j v = ground (arith, get-remove m k j)

  pub get-insert_self : (m : Assoc K V) (k : K) (v : V) → get (insert m k v) k ≡ some v
  get-insert_self m k v = rw (get-insert m k k v) (rw (beq_refl k) refl)

  pub get-remove_self : (m : Assoc K V) (k : K) → get (remove m k) k ≡ none
  get-remove_self m k = rw (get-remove m k k) (rw (beq_refl k) refl)
