-- ===== src/FakeAssoc.antt =====
-- The association request and response bodies of chip_fake.cpp.
pub mod Bodies
use wificx_skeleton.Prelude.{
  ℕ, ◌+◌, ◌-◌, ◌/◌, ◌%◌, ◌^◌, Bool, true, false, List, [], ◌∷◌, ◌++◌, Option, none, some, ltb,
  if◌then◌else◌, length, replicate, drop, bit_and, bit_or, get_or,
}
use wificx_skeleton.Frame.{Mac, mac_equal, ie_append, freq_to_channel}
use wificx_skeleton.FakeBss.{FakeBss, rates, write_at, append_at}

-- WDI_CAPAB_ESS, with WDI_CAPAB_PRIVACY for a protected network.
capability : Bool → ℕ
capability use_rsn = bit_or 0x0001 (if use_rsn then 0x0010 else 0)

-- The buffer and the length that the source returns; 0 where the buffer has no room for the fixed
-- fields.
pub build_req_body : List ℕ → ℕ → FakeBss → List ℕ × ℕ
unfolding capability
build_req_body buf buf_len bss =
    let cap = capability bss.use_rsn in
    let fixed : List ℕ = bit_and cap 0xff ∷ cap / 2 ^ 8 % 256 ∷ 0x0a ∷ 0x00 ∷ [] in
    let s1 = append_at buf_len (write_at buf 0 fixed, 4) 0 bss.ssid bss.ssid_length in
    let s2 = append_at buf_len s1 1 rates (length rates) in
    let s3 = append_at buf_len s2 3 (freq_to_channel bss.frequency_mhz ∷ []) 1 in
    if ltb buf_len 4 then (buf, 0) else s3

pub build_resp_body : List ℕ → ℕ → FakeBss → ℕ → List ℕ × ℕ
unfolding capability
build_resp_body buf buf_len bss aid =
    let cap = capability bss.use_rsn in
    let fixed : List ℕ =
      bit_and cap 0xff
      ∷ cap / 2 ^ 8 % 256
      ∷ 0x00
      ∷ 0x00
      ∷ bit_and aid 0xff
      ∷ bit_or (aid / 2 ^ 8) 0xc0 % 256
      ∷ [] in
    let s1 = append_at buf_len (write_at buf 0 fixed, 6) 1 rates (length rates) in
    let s2 = append_at buf_len s1 3 (freq_to_channel bss.frequency_mhz ∷ []) 1 in
    if ltb buf_len 6 then (buf, 0) else s2

-- The loop of FindFakeBssByBssid over the table.
unfoldable pub find_bss : List FakeBss → Mac → Option FakeBss
find_bss [] bssid = none
find_bss (e ∷ es) bssid = if mac_equal e.bssid bssid then some e else find_bss es bssid
