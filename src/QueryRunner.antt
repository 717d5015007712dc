-- ===== src/QueryRunner.antt =====
-- crates/core/src/query_runner.rs: a query's rows are streamed into the ring buffer until the
-- stream ends, fails or the query is cancelled.
pub mod Streams
mod Examples
use myr.Prelude.{
  ℕ, zero, suc, ◌+◌, ◌%◌, ◌^◌, Bool, true, false, Option, none, some, List, if◌then◌else◌,
}
use myr.Prelude.Text.{Text}
use myr.ResultsBuffer.{ResultsRingBuffer, push}

pub record QueryRow : Type 0 where
  pub values : List Text

pub record QueryBackendError : Type 0 where
  pub message : Text

pub data QueryRunnerError : Type 0 where
  backend : QueryBackendError → QueryRunnerError

pub record QueryExecutionSummary : Type 0 where
  pub rows_streamed : ℕ
  pub was_cancelled : Bool
  pub elapsed : ℕ

pub data Outcome : Type 0 where
  ok : QueryExecutionSummary → Outcome
  err : QueryRunnerError → Outcome

-- What `next_row` answers.
pub data NextRow : Type 0 where
  row : QueryRow → NextRow
  ended : NextRow
  failed : QueryBackendError → NextRow

-- The stream of the backend: its state after a row was asked for, and what `cancel` answers.
pub record QueryRowStream (S : Type 0) : Type 0 where
  pub next_row : S → NextRow × S
  pub cancel : S → Option QueryBackendError

-- What `start_query` answers.
pub data Started (S : Type 0) : Type 0 where
  started : S → Started S
  refused : QueryBackendError → Started S

-- The backend, the flag of the cancellation token as it is found the n-th time that it is read, and
-- the time elapsed by then. Another task may set the flag at any time.
module _ {S : Type 0} (stream : QueryRowStream S) (is_cancelled : ℕ → Bool) (elapsed : ℕ → ℕ) where
  abbrev pub summary : ℕ → Bool → ℕ → QueryExecutionSummary
  summary rows_streamed was_cancelled reads = record {
    rows_streamed = rows_streamed;
    was_cancelled = was_cancelled;
    elapsed = elapsed reads;
  }

  -- Behind the loop.
  abbrev pub stop : Option QueryBackendError → ℕ → ℕ → Outcome
  stop none rows_streamed reads = ok (summary rows_streamed true reads)
  stop (some e) rows_streamed reads = err (backend e)

  -- The loop, on fuel: the flag was read so many times, so many rows came. `none` if the fuel runs
  -- out.
  unfoldable pub stream_rows :
      ℕ → ℕ → S → ResultsRingBuffer QueryRow → ℕ → Option (Outcome × ResultsRingBuffer QueryRow)
  stream_rows zero reads s buffer rows_streamed = none
  stream_rows (suc fuel) reads s buffer rows_streamed = elim (is_cancelled reads) [
    | true ↦ some (stop (stream.cancel s) rows_streamed reads, buffer)
    | false ↦
        let (answer, next) = stream.next_row s in
        elim answer [
          | row r ↦ stream_rows fuel (suc reads) next (push buffer r) ((rows_streamed + 1) % 2 ^ 64)
          | ended ↦ some (ok (summary rows_streamed false reads), buffer)
          | failed e ↦ some (err (backend e), buffer)
        ]
  ]

  unfoldable pub execute_streaming :
      ℕ
      → (Text → Started S)
      → Text
      → ResultsRingBuffer QueryRow
      → Option (Outcome × ResultsRingBuffer QueryRow)
  execute_streaming fuel start_query sql buffer = elim (start_query sql) [
    | started s ↦ stream_rows fuel 0 s buffer 0
    | refused e ↦ some (err (backend e), buffer)
  ]
