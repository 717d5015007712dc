-- ===== src/ResultsBuffer/Window.antt =====
-- The buffer is a window on the stream of all rows that were pushed.
use myr.Prelude.{
  ℕ, zero, suc, ◌+◌, ◌-◌, ◌%◌, ◌^◌, ◌≤◌, ◌<◌, ◌≡◌, ◌≢◌, refl, sym, ap, ◌∙◌, false, none, some, List,
  [], ◌∷◌, ◌++◌, append_assoc, append-nil, arith, ◌==◌, length, length-append, length-drop,
  get_elem?, take, drop, drop-append, drop-suc, get_elem?-drop, if◌then◌else◌, Bool-cases, inl, inr,
  is_empty, ◌⊎◌, leb, take_all, drop_all, take-nil,
}
use myr.ResultsBuffer.{
  ResultsRingBuffer, new, len, earliest_buffered_index, latest_buffered_index, push, get,
  visible_rows, push_all,
}

none_ne {ℓ} : {A : Type ℓ} {a : A} → none ≡ some a → ⊥
none_ne h = cc

some_eq {ℓ} : {A : Type ℓ} {a b : A} → some a ≡ some b → a ≡ b
some_eq h = cc

leb-false : (a b : ℕ) → leb a b ≡ false → b < a
leb-false a b h = ground arith

module _ {ℓ} {T : Type ℓ} where
  -- The buffer holds the last `capacity` rows of `stream`, and counts them all.
  pub record IsWindow (stream : List T) (b : ResultsRingBuffer T) : Type ℓ where
    pub has_room : 0 < b.capacity
    pub counted : b.total_rows_seen ≡ length stream % 2 ^ 64
    pub last_rows : b.rows ≡ drop (length stream - b.capacity) stream

  -- A buffer that is full when a row comes drops one row more of the stream.
  window_push :
      (stream : List T) (capacity : ℕ) (row : T) (rows : List T)
      → 0 < capacity
      → rows ≡ drop (length stream - capacity) stream
      → (if length rows == capacity then drop 1 rows else rows) ++ row ∷ []
        ≡ drop (length (stream ++ row ∷ []) - capacity) (stream ++ row ∷ [])
  window_push stream capacity row rows pos e = elim (Bool-cases (length rows == capacity)) [
    | inl full ↦
        let size : length rows ≡ length stream - (length stream - capacity) =
          ap length e ∙ length-drop (length stream - capacity) stream in
        let at_cap : length rows ≡ capacity = ground arith in
        let next : length (stream ++ row ∷ []) - capacity ≡ suc (length stream - capacity) =
          omega (arith, length-append stream (row ∷ [])) in
        rw full (
          rw next (
            rw (drop-append (suc (length stream - capacity)) stream (row ∷ []) (omega arith)) (
              ap (λ (l : List T). l ++ row ∷ [])
                (ap (drop 1) e ∙ drop-suc (length stream - capacity) stream))))
    | inr room ↦
        let size : length rows ≡ length stream - (length stream - capacity) =
          ap length e ∙ length-drop (length stream - capacity) stream in
        let below : length rows ≢ capacity = ground arith in
        let before : length stream - capacity ≡ 0 = omega arith in
        let after : length (stream ++ row ∷ []) - capacity ≡ 0 =
          omega (arith, length-append stream (row ∷ [])) in
        rw room (rw after (ap (λ (l : List T). l ++ row ∷ []) (rw before at e)))
  ]

  push-IsWindow :
      (stream : List T) (b : ResultsRingBuffer T) (row : T)
      → IsWindow stream b
      → IsWindow (stream ++ row ∷ []) (push b row)
  unfolding push
  push-IsWindow stream b row w = record {
    has_room = w.has_room;
    counted = omega (arith, w.counted, length-append stream (row ∷ []));
    last_rows = window_push stream b.capacity row b.rows w.has_room w.last_rows;
  }

  push_all-IsWindow :
      (stream : List T) (b : ResultsRingBuffer T) (rows : List T)
      → IsWindow stream b
      → IsWindow (stream ++ rows) (push_all b rows)
  unfolding push_all
  push_all-IsWindow stream b [] w = rw (append-nil stream) w
  push_all-IsWindow stream b (row ∷ rows) w =
      rw (← append_assoc stream (row ∷ []) rows)
        (push_all-IsWindow (stream ++ row ∷ []) (push b row) rows (push-IsWindow stream b row w))

  capacity-push_all :
      (b : ResultsRingBuffer T) (rows : List T) → (push_all b rows).capacity ≡ b.capacity
  unfolding push_all
  capacity-push_all b [] = refl
  capacity-push_all b (row ∷ rows) = capacity-push_all (push b row) rows ∙ unfold push in refl

  new-IsWindow :
      (capacity : ℕ) (b : ResultsRingBuffer T)
      → new capacity ≡ some b
      → IsWindow [] b × (b.capacity ≡ capacity)
  unfolding new
  new-IsWindow zero b h = absurd (none_ne h)
  new-IsWindow (suc k) b h = rw (← some_eq h) (
    record {
      has_room = omega arith;
      counted = refl;
      last_rows = sym (drop_all (0 - suc k) [] (omega arith));
    },
    refl,
  )

  -- Of the rows that are pushed into a new buffer it keeps the last ones, as many as its capacity,
  -- in their order, and it counts all of them.
  pub push_all-new :
      (capacity : ℕ) (b : ResultsRingBuffer T) (stream : List T)
      → new capacity ≡ some b
      → ((push_all b stream).rows ≡ drop (length stream - capacity) stream)
        × (len (push_all b stream) ≤ capacity)
        × ((push_all b stream).total_rows_seen ≡ length stream % 2 ^ 64)
  unfolding len
  push_all-new capacity b stream h =
      let (w, size) = new-IsWindow capacity b h in
      let w' = push_all-IsWindow [] b stream w in
      let rows : (push_all b stream).rows ≡ drop (length stream - capacity) stream =
        w'.last_rows
        ∙ ap (λ (k : ℕ). drop (length stream - k) stream) (capacity-push_all b stream ∙ size) in
      (
        rows,
        omega (arith, ap length rows, length-drop (length stream - capacity) stream),
        w'.counted,
      )

  latest_at :
      (c : ResultsRingBuffer T) (capacity : ℕ) (stream : List T)
      → c.total_rows_seen ≡ length stream % 2 ^ 64
      → length c.rows ≡ length stream - (length stream - capacity)
      → length stream < 2 ^ 64
      → 0 < capacity
      → latest_buffered_index c ≡ (if is_empty stream then none else some (length stream - 1))
  unfolding latest_buffered_index
  latest_at c capacity [] total size small pos = ground arith
  latest_at c capacity (row ∷ stream) total size small pos = ground arith

  new_pos : (capacity : ℕ) (b : ResultsRingBuffer T) → new capacity ≡ some b → 0 < capacity
  unfolding new
  new_pos zero b h = absurd (none_ne h)
  new_pos (suc k) b h = omega arith

  -- While fewer than 2^64 rows were pushed, the row at an index of the buffer is the row of the
  -- stream at that index behind the earliest one, and the latest index is that of the last row.
  pub get-stream :
      (capacity : ℕ) (b : ResultsRingBuffer T) (stream : List T) (i : ℕ)
      → new capacity ≡ some b
      → length stream < 2 ^ 64
      → (get (push_all b stream) i
          ≡ get_elem? stream (earliest_buffered_index (push_all b stream) + i))
        × (latest_buffered_index (push_all b stream)
            ≡ (if is_empty stream then none else some (length stream - 1)))
  unfolding get earliest_buffered_index latest_buffered_index
  get-stream capacity b stream i h small =
      let (rows, _, total) = push_all-new capacity b stream h in
      let size = ap length rows ∙ length-drop (length stream - capacity) stream in
      let at : (push_all b stream).total_rows_seen - length (push_all b stream).rows
          ≡ length stream - capacity =
        omega (arith, total, size) in
      (
        ap (λ (l : List T). get_elem? l i) rows
            ∙ get_elem?-drop (length stream - capacity) i stream
            ∙ ap (λ (k : ℕ). get_elem? stream (k + i)) (sym at),
        latest_at (push_all b stream) capacity stream total size small (new_pos capacity b h),
      )

  -- Two counts that agree, or that both reach the end.
  take_rest :
      (xs : List T) (m n : ℕ)
      → (m ≡ n) ⊎ ((length xs ≤ m) × (length xs ≤ n))
      → take m xs ≡ take n xs
  take_rest xs m n (inl e) = rw e refl
  take_rest xs m n (inr (a, b)) = take_all m xs a ∙ sym (take_all n xs b)

  -- A window of rows begins at `start` and has `limit` rows, or as many as there are, if `start`
  -- plus `limit` and the number of rows are below 2^64.
  pub visible_rows-take :
      (b : ResultsRingBuffer T) (start limit : ℕ)
      → start + limit < 2 ^ 64
      → length b.rows < 2 ^ 64
      → visible_rows b start limit ≡ take limit (drop start b.rows)
  unfolding visible_rows
  visible_rows-take b start limit small fits = elim (Bool-cases (limit == 0)) [
    | inl none_asked ↦ let e : limit ≡ 0 = ground arith in rw none_asked (rw e refl)
    | inr some_asked ↦ elim (Bool-cases (leb (length b.rows) start)) [
      | inl beyond ↦
          rw (some_asked, beyond) (rw (drop_all start b.rows (ground arith)) (sym (take-nil limit)))
      | inr inside ↦
          rw (some_asked, inside)
            (take_rest (drop start b.rows) _ limit
              (omega (arith, length-drop start b.rows, leb-false (length b.rows) start inside)))
    ]
  ]
