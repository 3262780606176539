-- ===== src/Frame/Addresses.antt =====
-- The tests on MAC addresses against each other.
use wificx_skeleton.Prelude.{◌≡◌, true, arith}
use wificx_skeleton.Prelude.Bits.{bit_and-one}
use wificx_skeleton.Frame.{Mac, mac_is_multicast, mac_is_broadcast, mac_equal}

-- The broadcast address is a multicast address, and only one address is the broadcast address: two
-- that pass the test are equal by `WdiMacEqual`.
pub broadcast_multicast :
    (m n : Mac)
    → mac_is_broadcast m ≡ true
    → (mac_is_multicast m ≡ true) × (mac_is_broadcast n ≡ mac_equal n m)
unfolding mac_is_broadcast mac_is_multicast mac_equal
broadcast_multicast m n h = (ground (arith, bit_and-one m.b0), ground arith)
