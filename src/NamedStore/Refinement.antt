-- ===== src/NamedStore/Refinement.antt =====
-- How a store that is changed refines a map from names that is changed alike.
use myr.Prelude.{◌≡◌, refl, ◌∙◌, Option, List, [], ◌∷◌}
use myr.Prelude.Text.{Text}

module _ {S C : Type 0} (change : S → C → S) where
  unfoldable pub run : S → List C → S
  run store [] = store
  run store (c ∷ cs) = run (change store c) cs

-- One change of the store is one change of the map, where the store is as it ought to be.
pub record Refines (S C V : Type 0) : Type 1 where
  pub change : S → C → S
  pub change_map : (Text → Option V) → C → Text → Option V
  pub lookup : S → Text → Option V
  pub IsGood : S → Type 0
  pub change-IsGood : (s : S) (c : C) → IsGood s → IsGood (change s c)
  pub lookup-change :
      (s : S) (c : C) (name : Text)
      → IsGood s
      → lookup (change s c) name ≡ change_map (lookup s) c name
  pub change_map_ext :
      (m k : Text → Option V) (c : C)
      → ((n : Text) → m n ≡ k n)
      → (n : Text) → change_map m c n ≡ change_map k c n

module _ {S C V : Type 0} (r : Refines S C V) where
  run_map_ext :
      (m k : Text → Option V) (cs : List C)
      → ((n : Text) → m n ≡ k n)
      → (name : Text) → run r.change_map m cs name ≡ run r.change_map k cs name
  unfolding run
  run_map_ext m k [] h name = h name
  run_map_ext m k (c ∷ cs) h name =
      run_map_ext (r.change_map m c) (r.change_map k c) cs (r.change_map_ext m k c h) name

  run_lem :
      (store : S) (cs : List C)
      → r.IsGood store
      → r.IsGood (run r.change store cs)
        × ((name : Text)
            → r.lookup (run r.change store cs) name ≡ run r.change_map (r.lookup store) cs name)
  unfolding run
  run_lem store [] h = (h, λ name. refl)
  run_lem store (c ∷ cs) h =
      let (good, finds) = run_lem (r.change store c) cs (r.change-IsGood store c h) in
      (
        good,
        λ name.
            finds name
            ∙ run_map_ext (r.lookup (r.change store c)) (r.change_map (r.lookup store) c) cs
                (λ n. r.lookup-change store c n h) name,
      )

  -- From a store that is as it ought to be and stands for a map.
  pub run_refines :
      (store : S) (m : Text → Option V) (cs : List C)
      → r.IsGood store × ((n : Text) → r.lookup store n ≡ m n)
      → r.IsGood (run r.change store cs)
        × ((name : Text) → r.lookup (run r.change store cs) name ≡ run r.change_map m cs name)
  run_refines store m cs (h, e) =
      let (good, finds) = run_lem store cs h in
      (good, λ name. finds name ∙ run_map_ext (r.lookup store) m cs e name)
