-- ===== src/Monitor/Tests.antt =====
-- A monitor at a concrete history.
use jump.Base.{ℕ, ◌≡◌, ◌≢◌, refl, List, [], none, some, arith}
use jump.Monitor.{Monitor, new, trigger, check}
use jump.Monitor.Endless.{triggers, check_lem}

-- A worker is in a message to 7.
abbrev busy : Monitor
busy = record { version = 1; check_version = 0; source = 3; destination = 7 }

starts : trigger new 3 7 ≡ busy
unfolding trigger
starts = refl

-- No call between the checks
abbrev no_calls : List (ℕ × ℕ)
no_calls = []

check_lem_example :
    (no_calls ≢ [] → (check (triggers (check busy).1 no_calls)).0 ≡ none)
    × (no_calls ≡ [] → (check (triggers (check busy).1 no_calls)).0 ≡ some 7)
check_lem_example = check_lem busy no_calls (omega arith) (omega arith)
