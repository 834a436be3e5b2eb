-- ===== src/Handlers/Flags.antt =====
-- `SubscriptionFlags` of src/handlers.rs.
use linux_bt_proxy.Prelude.{ℕ, ◌%◌, ◌≡◌, ◌==◌, arith}
use linux_bt_proxy.Prelude.Bits.{bit_and-one}
use linux_bt_proxy.Handlers.{from_flags}

-- A client is sent raw advertisements exactly when the request's flags are odd, and parsed ones
-- exactly when they are even: one of the two, never both.
pub from_flags_lem :
    (flags : ℕ)
    → ((from_flags flags).raw ≡ (flags % 2 == 1)) × ((from_flags flags).regular ≡ (flags % 2 == 0))
unfolding from_flags
from_flags_lem flags = rw (bit_and-one flags) (ground arith, ground arith)
