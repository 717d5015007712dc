-- ===== src/ResultsBuffer/Examples.antt =====
-- The theorems on the ring at a concrete stream.
use myr.Prelude.{ℕ, ◌≡◌, ◌≤◌, ◌-◌, ◌%◌, ◌^◌, refl, some, List, [], ◌∷◌, length, drop}
use myr.ResultsBuffer.{ResultsRingBuffer, new, len, push_all}
use myr.ResultsBuffer.Window.{push_all-new}

abbrev ring : ResultsRingBuffer ℕ
ring = record { capacity = 2; rows = []; total_rows_seen = 0 }

abbrev stream : List ℕ
stream = 7 ∷ 8 ∷ 9 ∷ []

ring-new : new 2 ≡ some ring
unfolding new
ring-new = refl

push_all-new_example :
    ((push_all ring stream).rows ≡ drop (length stream - 2) stream)
    × (len (push_all ring stream) ≤ 2)
    × ((push_all ring stream).total_rows_seen ≡ length stream % 2 ^ 64)
push_all-new_example = push_all-new 2 ring stream ring-new

abbrev full : ResultsRingBuffer ℕ
full = record { capacity = 3; rows = stream; total_rows_seen = 3 }
