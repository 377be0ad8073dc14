-- ===== src/Monitor.antt =====
-- skynet-src/skynet_monitor.c: a thread looks whether a worker is stuck in one message.
pub mod Endless
mod Tests
use jump.Base.{ℕ, ◌+◌, ◌%◌, ◌^◌, List, [], ◌∷◌, Option, none, some, ◌==◌, if◌then◌else◌}

-- `struct skynet_monitor`; the versions are `int`s as 32-bit patterns.
pub record Monitor : Type 0 where
  pub version : ℕ
  pub check_version : ℕ
  pub source : ℕ
  pub destination : ℕ

-- `skynet_monitor_new`
abbrev pub new : Monitor
new = record { version = 0; check_version = 0; source = 0; destination = 0 }

-- `skynet_monitor_trigger`
pub trigger : Monitor → ℕ → ℕ → Monitor
trigger sm source destination = record sm {
  source = source;
  destination = destination;
  version = (sm.version + 1) % 2 ^ 32;
}

-- `skynet_monitor_check`: the service that `skynet_context_endless` is called with, if it is called.
pub check : Monitor → Option ℕ × Monitor
check sm =
    if sm.version == sm.check_version
    then (if sm.destination == 0 then none else some sm.destination, sm)
    else (none, record sm { check_version = sm.version })
