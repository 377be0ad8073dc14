-- ===== src/Harbor.antt =====
-- skynet-src/skynet_harbor.c: which handles belong to another node. What it does with the harbor
-- service is not here.
pub mod Local
mod Tests
use jump.Base.{ℕ, ◌-◌, ◌*◌, ◌%◌, ◌^◌, Bool, not, ◌&&◌, ◌==◌}

-- `skynet_harbor_init`: the variable `HARBOR`
unfoldable pub harbor_init : ℕ → ℕ
harbor_init harbor = harbor * 2 ^ 24 % 2 ^ 32

-- `skynet_harbor_message_isremote`, after its assertion; `handle & ~HANDLE_MASK` leaves the high byte.
unfoldable pub message_isremote : ℕ → ℕ → Bool
message_isremote harbor handle =
    let h = handle - handle % 2 ^ 24 in not (h == harbor) && not (h == 0)
