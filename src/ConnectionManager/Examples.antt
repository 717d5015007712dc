-- ===== src/ConnectionManager/Examples.antt =====
-- The theorems on the connection manager with a server that refuses the second ping.
use myr.Prelude.{ℕ, none, some, List, [], ◌∷◌, ◌+◌, if◌then◌else◌, ◌==◌}
use myr.Prelude.Text.{codes}
use myr.Profiles.{ConnectionProfile}
use myr.Profiles
use myr.ConnectionManager.{opened, ConnectionBackend, new}
use myr.ConnectionManager.Status.{IsTimed, Op, connects, checks, disconnects, run, run-IsTimed}

-- The state of the server is the number of pings; a handle is a number.
abbrev server : ConnectionBackend ℕ ℕ
server = record {
  connect = λ w profile. (opened 1, w);
  ping = λ w handle.
      (if w == 1 then some (record { message = codes "gone" }) else none, handle, w + 1);
  disconnect = λ w handle. (none, w);
}

abbrev profile : ConnectionProfile
profile = Profiles.new (codes "local") (codes "127.0.0.1") (codes "root")

abbrev requests : List (Op server)
requests = connects profile 7 100 ∷ checks 8 200 ∷ disconnects ∷ []

run-IsTimed_example : IsTimed (run server (new, 0) requests).0
run-IsTimed_example = run-IsTimed server 0 requests
