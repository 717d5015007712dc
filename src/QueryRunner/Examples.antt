-- ===== src/QueryRunner/Examples.antt =====
-- The theorems on the query runner with a stream of two rows.
use myr.Prelude.{
  ℕ, ◌+◌, ◌<◌, ◌≡◌, refl, Bool, true, false, none, some, List, [], ◌∷◌, arith, length, leb,
}
use myr.Prelude.Text.{Text, codes}
use myr.ResultsBuffer.{ResultsRingBuffer, push_all}
use myr.QueryRunner.{
  QueryRow, QueryRowStream, NextRow, row, ended, failed, QueryBackendError, ok, Started, started,
  stop, execute_streaming,
}
use myr.QueryRunner.Streams.{Yields, done, more, execute_streaming_all, execute_streaming_cancelled}

abbrev first_row : QueryRow
first_row = record { values = codes "1" ∷ [] }

abbrev second_row : QueryRow
second_row = record { values = codes "2" ∷ [] }

abbrev rows : List QueryRow
rows = first_row ∷ second_row ∷ []

abbrev lost : QueryBackendError
lost = record { message = codes "connection lost" }

-- The state of the stream is what is left of it, and whether it fails then.
abbrev next_of : List QueryRow × Bool → NextRow × (List QueryRow × Bool)
next_of ([], false) = (ended, ([], false))
next_of ([], true) = (failed lost, ([], true))
next_of (r ∷ rs, fails) = (row r, (rs, fails))

abbrev stream : QueryRowStream (List QueryRow × Bool)
stream = record { next_row = next_of; cancel = λ s. none }

abbrev never : ℕ → Bool
never i = false

-- The flag is set while the second row is on its way.
abbrev soon : ℕ → Bool
soon i = leb 2 i

abbrev ticks : ℕ → ℕ
ticks i = i

abbrev buffer : ResultsRingBuffer QueryRow
buffer = record { capacity = 1; rows = []; total_rows_seen = 0 }

abbrev starts : Bool → Text → Started (List QueryRow × Bool)
starts fails sql = started (rows, fails)

yields : (fails : Bool) → Yields stream (rows, fails) rows ([], fails)
yields fails = more refl (more refl (done ([], fails)))

soon_unset : (i : ℕ) → i < length rows → soon i ≡ false
soon_unset i h = ground arith

execute_streaming_all_example :
    execute_streaming stream never ticks (length rows + 1) (starts false) (codes "select 1") buffer
    ≡ some (
      ok (record { rows_streamed = 2; was_cancelled = false; elapsed = 2 }),
      push_all buffer rows,
    )
execute_streaming_all_example =
    execute_streaming_all stream never ticks (starts false) (codes "select 1") (rows, false)
      ([], false) rows buffer 0 refl (yields false) (λ i below. refl) refl ([], false) refl

execute_streaming_cancelled_example :
    execute_streaming stream soon ticks (length rows + 1) (starts false) (codes "select 1") buffer
    ≡ some (stop stream soon ticks none 2 2, push_all buffer rows)
execute_streaming_cancelled_example =
    execute_streaming_cancelled stream soon ticks (starts false) (codes "select 1") (rows, false)
      ([], false) rows buffer 0 refl (yields false) soon_unset refl
