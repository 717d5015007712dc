-- ===== src/Actions/Engine/Rank.antt =====
-- The list of the best actions, and what a use does to the scores.
use mathlib.Core.List.{Perm}
use mathlib.Core.Option
use mathlib.Core.Path.{subst}
use myr.Prelude.{
  ℕ, ◌+◌, ◌≤◌, ◌<◌, ◌≡◌, ◌≢◌, refl, Bool, true, false, Option, none, some, List, arith, All,
  All-take, All-filter, All-map, length, length-take, take, filter, max_u64, saturating_add,
  Bool-cases, inl, inr, ◌==◌, ◌⊎◌, [], ◌∷◌, suc, ◌-◌, map, if◌then◌else◌,
}
use myr.Prelude.Assoc.{get, get-insert, get-insert_self}
use myr.Prelude.Sort.{sort_by, sort_by-perm, sort_by-IsSorted, All-sort_by, IsSorted}
use myr.Prelude.Text.{text_lt}
use myr.Actions.Ranking.{action_base_score}
use myr.Actions.Catalog.{
  ActionDefinition, ActionId, ActionContext, actions, action_index, action_eq, action_eq_iff,
}
use myr.Actions.Invocation.{RankedAction}
use myr.Actions.Enablement.{action_enabled}
use myr.Actions.Engine.{
  ActionsEngine, new, recency_boost, record_use, ranked, ranks_before, rank_all, rank_top_n, boost,
}
use myr.Actions.Engine.Order.{ranks-IsOrder}

abbrev pub IsEnabled : ActionContext → RankedAction → Type 0
IsEnabled c r = action_enabled r.id c ≡ true

rank_all-IsEnabled : (e : ActionsEngine) (c : ActionContext) → All (IsEnabled c) (rank_all e c)
unfolding rank_all ranked
rank_all-IsEnabled e c =
    All-map (IsEnabled c) (ranked e c) (filter (λ a. action_enabled a.id c) actions) (
      All-filter (λ a. action_enabled a.id c ≡ true) (λ a. action_enabled a.id c) actions
        (λ a h. h))

-- How many uses there were since the last one of an action, in a history with the latest first.
abbrev pub uses_since : List ActionId → ActionId → Option ℕ
uses_since [] a = none
uses_since (b ∷ history) a =
    if action_eq.beq b a then some 0 else Option.map suc (uses_since history a)

abbrev pub bonus : Option ℕ → ℕ
bonus none = 0
bonus (some k) = 25 - k

-- A new engine after the uses of a history.
abbrev pub used : List ActionId → ActionsEngine
used [] = new
used (a ∷ history) = record_use (used history) a

-- What the list shows of an action: its base score, and 25 less one for each use since its last.
abbrev pub scored : List ActionId → ActionContext → ActionDefinition → RankedAction
scored history c action = record {
  id = action.id;
  title = action.title;
  score = action_base_score action.id c + bonus (uses_since history action.id);
}

-- A higher score, or the same one and a title that is not greater.
abbrev pub IsNotBehind : RankedAction → RankedAction → Type 0
IsNotBehind x y = (y.score < x.score) ⊎ ((y.score ≡ x.score) × (text_lt y.title x.title ≡ false))

abbrev pub IsBestFirst : List RankedAction → Type 0
IsBestFirst [] = Unit
IsBestFirst (x ∷ xs) = All (IsNotBehind x) xs × IsBestFirst xs

-- The tick of the last use, and the uses since then.
abbrev IsLast : ℕ → Option ℕ → Option ℕ → Type 0
IsLast n none none = Unit
IsLast n none (some k) = ⊥
IsLast n (some t) none = ⊥
IsLast n (some t) (some k) = t + k ≡ n

later-IsLast : (n : ℕ) (t k : Option ℕ) → IsLast n t k → IsLast (suc n) t (Option.map suc k)
later-IsLast n none none h = tt
later-IsLast n none (some k) h = absurd h
later-IsLast n (some t) none h = absurd h
later-IsLast n (some t) (some k) h = omega arith

step-IsLast :
    (same : Bool) (n : ℕ) (t k : Option ℕ)
    → IsLast n t k
    → IsLast (suc n) (if same then some (suc n) else t) (if same then some 0 else Option.map suc k)
step-IsLast true n t k h = omega arith
step-IsLast false n t k h = later-IsLast n t k h

boost-IsLast : (n : ℕ) (t k : Option ℕ) → IsLast n t k → boost n t ≡ bonus k
boost-IsLast n none none h = refl
boost-IsLast n none (some k) h = absurd h
boost-IsLast n (some t) none h = absurd h
boost-IsLast n (some t) (some k) h = omega arith

recency_tick-used :
    (history : List ActionId)
    → length history < max_u64
    → (used history).recency_tick ≡ length history
unfolding record_use
recency_tick-used [] h = refl
recency_tick-used (a ∷ history) h =
    let before : (used history).recency_tick ≡ length history =
      recency_tick-used history (omega arith) in
    rw before (omega arith)

recency-IsLast :
    (history : List ActionId) (a : ActionId)
    → length history < max_u64
    → IsLast (length history) (get (used history).recency a) (uses_since history a)
unfolding record_use get
recency-IsLast [] a h = tt
recency-IsLast (b ∷ history) a h =
    let tick : saturating_add (used history).recency_tick 1 ≡ suc (length history) =
      rw (recency_tick-used history (omega arith)) (omega arith) in
    rw (get-insert (used history).recency b a (saturating_add (used history).recency_tick 1)) (
      rw tick (
        step-IsLast (action_eq.beq b a) (length history) (get (used history).recency a)
          (uses_since history a) (recency-IsLast history a (omega arith))))

ranked-used :
    (history : List ActionId) (c : ActionContext) (action : ActionDefinition)
    → length history < max_u64
    → ranked (used history) c action ≡ scored history c action
unfolding ranked recency_boost
ranked-used history c action h =
    let bonus_of : boost (used history).recency_tick (get (used history).recency action.id)
        ≡ bonus (uses_since history action.id) =
      rw (recency_tick-used history h)
        (boost-IsLast (length history) _ _ (recency-IsLast history action.id h)) in
    simp bonus_of refl

all_ranked :
    (history : List ActionId) (c : ActionContext) (xs : List ActionDefinition)
    → length history < max_u64
    → map (ranked (used history) c) xs ≡ map (scored history c) xs
all_ranked history c [] h = refl
all_ranked history c (x ∷ xs) h =
    let first = ranked-used history c x h in let rest = all_ranked history c xs h in cc

ranks-IsNotBehind : (x y : RankedAction) → ranks_before y x ≡ false → IsNotBehind x y
unfolding ranks_before
ranks-IsNotBehind x y h = elim (Bool-cases (x.score == y.score)) [
  | inl same ↦ inr (ground arith, ground arith)
  | inr other ↦ inl (ground arith)
]

All-IsNotBehind :
    (x : RankedAction) (ys : List RankedAction)
    → All (λ y. ranks_before y x ≡ false) ys
    → All (IsNotBehind x) ys
All-IsNotBehind x [] h = tt
All-IsNotBehind x (y ∷ ys) (hy, h) = (ranks-IsNotBehind x y hy, All-IsNotBehind x ys h)

best_first : (xs : List RankedAction) → IsSorted ranks_before xs → IsBestFirst xs
best_first [] h = tt
best_first (x ∷ xs) (hx, h) = (All-IsNotBehind x xs hx, best_first xs h)

-- After fewer uses than the largest `u64`, the best `limit` actions are the beginning of a list
-- that has every enabled action of the registry once and nothing else, each with its base score and
-- a bonus of 25 less one for each use since its own last one. An action in it has a higher score
-- than each later one, or the same score and a title that is not greater. No more than `limit` are
-- returned, and each of them is enabled.
pub rank_top_n_lem :
    (history : List ActionId) (c : ActionContext) (limit : ℕ)
    → length history < max_u64
    → (full : List RankedAction) × (rank_top_n (used history) c limit ≡ take limit full)
      × Perm full (map (scored history c) (filter (λ a. action_enabled a.id c) actions))
      × IsBestFirst full
      × All (IsEnabled c) (rank_top_n (used history) c limit)
      × (length (rank_top_n (used history) c limit) ≤ limit)
unfolding rank_top_n rank_all
rank_top_n_lem history c limit h =
    let e = used history in
    let full = sort_by ranks_before (rank_all e c) in
    let same = all_ranked history c (filter (λ a. action_enabled a.id c) actions) h in
    (
      full,
      refl,
      subst (Perm full) same (sort_by-perm ranks_before (rank_all e c)),
      best_first full (sort_by-IsSorted ranks-IsOrder (rank_all e c)),
      All-take (IsEnabled c) limit full
          (All-sort_by ranks_before (IsEnabled c) (rank_all e c) (rank_all-IsEnabled e c)),
      omega (arith, length-take limit full),
    )

boost_step :
    (tick tick' : ℕ) (o : Option ℕ)
    → tick' ≡ tick + 1
    → (boost tick' o ≤ boost tick o) × (boost tick o ≤ boost tick' o + 1)
boost_step tick tick' none e = omega arith
boost_step tick tick' (some t) e = omega arith

other_index : (a b : ActionId) → a ≢ b → (action_index a == action_index b) ≡ false
other_index a b ne = elim (Bool-cases (action_index a == action_index b)) [
  | inl same ↦ absurd (ne ((action_eq_iff a b).0 same))
  | inr other ↦ other
]

other_boost :
    (e : ActionsEngine) (a b : ActionId)
    → e.recency_tick < max_u64
    → a ≢ b
    → (recency_boost (record_use e a) b ≤ recency_boost e b)
      × (recency_boost e b ≤ recency_boost (record_use e a) b + 1)
unfolding recency_boost record_use
other_boost e a b h ne = rw (get-insert e.recency a b (saturating_add e.recency_tick 1)) (
    rw (other_index a b ne)
      (boost_step e.recency_tick (saturating_add e.recency_tick 1) (get e.recency b) (omega arith)))

-- The action that was just used has the full boost of 25. The boost of the others does not grow
-- and falls by one at most, while the counter is below the largest `u64`.
pub recency_boost-record_use :
    (e : ActionsEngine) (a b : ActionId)
    → e.recency_tick < max_u64
    → a ≢ b
    → (recency_boost (record_use e a) a ≡ 25)
      × (recency_boost (record_use e a) b ≤ recency_boost e b)
      × (recency_boost e b ≤ recency_boost (record_use e a) b + 1)
unfolding recency_boost record_use
recency_boost-record_use e a b h ne =
    let (falls, near) = other_boost e a b h ne in
    (rw (get-insert_self e.recency a (saturating_add e.recency_tick 1)) (omega arith), falls, near)
