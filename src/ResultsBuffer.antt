-- ===== src/ResultsBuffer.antt =====
-- crates/core/src/results_buffer.rs: the ring of the last rows of a result stream. The arithmetic
-- of `u64` and `usize` wraps around, as in a release build.
pub mod Window
mod Examples
use myr.Prelude.{
  ℕ, zero, suc, ◌+◌, ◌-◌, ◌%◌, ◌^◌, ◌≤◌, ◌<◌, ◌≡◌, refl, Bool, true, false, ◌||◌, Option, none,
  some, List, [], ◌∷◌, ◌++◌, leb, ◌==◌, if◌then◌else◌, length, get_elem?, take, drop, is_empty,
  saturating_sub,
}
use Prim.Native.Nat.{min}

pub record ResultsRingBuffer {ℓ} (T : Type ℓ) : Type ℓ where
  pub capacity : ℕ
  pub rows : List T
  pub total_rows_seen : ℕ

module _ {ℓ} {T : Type ℓ} where
  -- `assert!(capacity > 0)`: a panic is `none`.
  unfoldable pub new : ℕ → Option (ResultsRingBuffer T)
  new zero = none
  new (suc k) = some (record { capacity = suc k; rows = []; total_rows_seen = 0 })

  unfoldable pub len : ResultsRingBuffer T → ℕ
  len b = length b.rows

  unfoldable pub earliest_buffered_index : ResultsRingBuffer T → ℕ
  earliest_buffered_index b = saturating_sub b.total_rows_seen (length b.rows)

  unfoldable pub latest_buffered_index : ResultsRingBuffer T → Option ℕ
  latest_buffered_index b =
      if is_empty b.rows then none else some ((b.total_rows_seen + (2 ^ 64 - 1)) % 2 ^ 64)

  -- `pop_front` at the capacity, then `push_back`.
  unfoldable pub push : ResultsRingBuffer T → T → ResultsRingBuffer T
  push b row =
      let rows = if length b.rows == b.capacity then drop 1 b.rows else b.rows in
      record b { rows = rows ++ row ∷ []; total_rows_seen = (b.total_rows_seen + 1) % 2 ^ 64 }

  unfoldable pub get : ResultsRingBuffer T → ℕ → Option T
  get b index = get_elem? b.rows index

  unfoldable pub visible_rows : ResultsRingBuffer T → ℕ → ℕ → List T
  visible_rows b start limit =
      if limit == 0 || leb (length b.rows) start
      then []
      else let end = min ((start + limit) % 2 ^ 64) (length b.rows) in
        take ((end + (2 ^ 64 - start)) % 2 ^ 64) (drop start b.rows)

  unfoldable pub push_all : ResultsRingBuffer T → List T → ResultsRingBuffer T
  push_all b [] = b
  push_all b (row ∷ rows) = push_all (push b row) rows
