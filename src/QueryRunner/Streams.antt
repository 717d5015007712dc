-- ===== src/QueryRunner/Streams.antt =====
-- What a query leaves in the buffer, and when it returns.
use myr.Prelude.{
  ℕ, suc, ◌+◌, ◌<◌, ◌%◌, ◌^◌, ◌≡◌, refl, ◌∙◌, Bool, true, false, Option, some, List, [], ◌∷◌, arith,
  length,
}
use myr.Prelude.Text.{Text}
use myr.ResultsBuffer.{ResultsRingBuffer, push, push_all}
use myr.QueryRunner.{
  QueryRow, QueryRowStream, row, ended, failed, QueryBackendError, Outcome, ok, err, backend,
  Started, started, summary, stop, stream_rows, execute_streaming,
}

module _ {S : Type 0} (stream : QueryRowStream S) where
  -- The stream gives these rows, one after the other, and is then in that state.
  pub data Yields : S → List QueryRow → S → Type 0 where
    done : (s : S) → Yields s [] s
    more :
        {s next last : S} {r : QueryRow} {rows : List QueryRow}
        → stream.next_row s ≡ (row r, next)
        → Yields next rows last
        → Yields s (r ∷ rows) last

module _ {S : Type 0} (stream : QueryRowStream S) (is_cancelled : ℕ → Bool) (elapsed : ℕ → ℕ) where
  abbrev run :
      ℕ → ℕ → S → ResultsRingBuffer QueryRow → ℕ → Option (Outcome × ResultsRingBuffer QueryRow)
  run = stream_rows stream is_cancelled elapsed

  -- One more row.
  stream_rows-row :
      (fuel reads n : ℕ) (s next : S) (r : QueryRow) (buffer : ResultsRingBuffer QueryRow)
      → is_cancelled reads ≡ false
      → stream.next_row s ≡ (row r, next)
      → run (suc fuel) reads s buffer n
        ≡ run fuel (suc reads) next (push buffer r) ((n + 1) % 2 ^ 64)
  unfolding stream_rows
  stream_rows-row fuel reads n s next r buffer now e = rw (stream_rows, now, e, e) refl

  stream_rows-set :
      (fuel reads n : ℕ) (s : S) (buffer : ResultsRingBuffer QueryRow)
      → is_cancelled reads ≡ true
      → run (suc fuel) reads s buffer n
        ≡ some (stop stream is_cancelled elapsed (stream.cancel s) n reads, buffer)
  unfolding stream_rows
  stream_rows-set fuel reads n s buffer h = rw (stream_rows, h) refl

  unset_at : (i j : ℕ) → i ≡ j → is_cancelled i ≡ false → is_cancelled j ≡ false
  unset_at i j e h = cc

  -- While the flag is not set, the rows go into the buffer in their order.
  stream_rows-Yields :
      {s last : S} {rows : List QueryRow}
      → Yields stream s rows last
      → (fuel reads n : ℕ) (buffer : ResultsRingBuffer QueryRow)
      → ((i : ℕ) → i < length rows → is_cancelled (reads + i) ≡ false)
      → n < 2 ^ 64
      → run (length rows + fuel) reads s buffer n
        ≡ run fuel (reads + length rows) last (push_all buffer rows) ((n + length rows) % 2 ^ 64)
  unfolding push_all
  stream_rows-Yields (done s) fuel reads n buffer flags h =
      let a : 0 + fuel ≡ fuel = omega arith in
      let b : reads + 0 ≡ reads = omega arith in
      let c : (n + 0) % 2 ^ 64 ≡ n = omega arith in rw (a, b, c) refl
  stream_rows-Yields {s = s} {rows = r ∷ rows} (more e y) fuel reads n buffer flags h =
      let now : is_cancelled reads ≡ false =
        unset_at (reads + 0) reads (omega arith) (flags 0 (omega arith)) in
      let a : suc (length rows) + fuel ≡ suc (length rows + fuel) = omega arith in
      let b : reads + suc (length rows) ≡ suc reads + length rows = omega arith in
      let c : (n + suc (length rows)) % 2 ^ 64 ≡ ((n + 1) % 2 ^ 64 + length rows) % 2 ^ 64 =
        omega arith in
      rw (a, b, c, stream_rows-row (length rows + fuel) reads n s _ r buffer now e)
        (stream_rows-Yields y fuel (suc reads) ((n + 1) % 2 ^ 64) (push buffer r)
          (λ i below.
            unset_at (reads + suc i) (suc reads + i) (omega arith) (flags (suc i) (omega arith)))
          (omega arith))

  stream_rows-ended :
      (fuel reads n : ℕ) (s next : S) (buffer : ResultsRingBuffer QueryRow)
      → is_cancelled reads ≡ false
      → stream.next_row s ≡ (ended, next)
      → run (suc fuel) reads s buffer n
        ≡ some (ok (summary stream is_cancelled elapsed n false reads), buffer)
  unfolding stream_rows
  stream_rows-ended fuel reads n s next buffer now e = rw (stream_rows, now, e) refl

  stream_rows-failed :
      (fuel reads n : ℕ) (s next : S) (buffer : ResultsRingBuffer QueryRow)
      (error : QueryBackendError)
      → is_cancelled reads ≡ false
      → stream.next_row s ≡ (failed error, next)
      → run (suc fuel) reads s buffer n ≡ some (err (backend error), buffer)
  unfolding stream_rows
  stream_rows-failed fuel reads n s next buffer error now e = rw (stream_rows, now, e) refl

  module _ (start_query : Text → Started S) (sql : Text) (s last : S) (rows : List QueryRow)
      (buffer : ResultsRingBuffer QueryRow) (fuel : ℕ) (starts : start_query sql ≡ started s)
      (yields : Yields stream s rows last)
      (unset : (i : ℕ) → i < length rows → is_cancelled i ≡ false) where
    -- Up to the last row.
    up_to :
        execute_streaming stream is_cancelled elapsed
          (length rows + suc fuel)
          start_query
          sql
          buffer
        ≡ run (suc fuel) (length rows) last (push_all buffer rows) (length rows % 2 ^ 64)
    unfolding execute_streaming
    up_to =
        let a : 0 + length rows ≡ length rows = omega arith in
        rw (execute_streaming, starts)
          (stream_rows-Yields yields (suc fuel) 0 0 buffer
              (λ i below. unset_at i (0 + i) (omega arith) (unset i below)) (omega arith)
            ∙ rw a refl)

    -- If a stream gives some rows and ends, and the query is not cancelled, then on fuel for the
    -- rows and one more turn the query returns: it counts the rows modulo 2^64, and all of them
    -- were pushed into the buffer in order.
    pub execute_streaming_all :
        is_cancelled (length rows) ≡ false
        → (next : S) → stream.next_row last ≡ (ended, next)
        → execute_streaming stream is_cancelled elapsed
            (length rows + suc fuel)
            start_query
            sql
            buffer
          ≡ some (
            ok (record {
              rows_streamed = length rows % 2 ^ 64;
              was_cancelled = false;
              elapsed = elapsed (length rows);
            }),
            push_all buffer rows,
          )
    execute_streaming_all now next e =
        up_to
        ∙ stream_rows-ended fuel (length rows) (length rows % 2 ^ 64) last next
            (push_all buffer rows) now e

    -- If the flag is found set after some rows, no other row is asked for: the buffer has the rows
    -- that came before, the stream is told, and the summary says that the query was cancelled unless
    -- the stream refuses.
    pub execute_streaming_cancelled :
        is_cancelled (length rows) ≡ true
        → execute_streaming stream is_cancelled elapsed
            (length rows + suc fuel)
            start_query
            sql
            buffer
          ≡ some (
            stop stream is_cancelled elapsed
                (stream.cancel last)
                (length rows % 2 ^ 64)
                (length rows),
            push_all buffer rows,
          )
    execute_streaming_cancelled now =
        up_to
        ∙ stream_rows-set fuel (length rows) (length rows % 2 ^ 64) last (push_all buffer rows) now

    -- If the stream fails after some rows, its error is the answer, and the buffer keeps the rows.
    pub execute_streaming_failed :
        is_cancelled (length rows) ≡ false
        → (next : S) (error : QueryBackendError) → stream.next_row last ≡ (failed error, next)
        → execute_streaming stream is_cancelled elapsed
            (length rows + suc fuel)
            start_query
            sql
            buffer
          ≡ some (err (backend error), push_all buffer rows)
    execute_streaming_failed now next error e =
        up_to
        ∙ stream_rows-failed fuel (length rows) (length rows % 2 ^ 64) last next
            (push_all buffer rows) error now e
