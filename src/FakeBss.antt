-- ===== src/FakeBss.antt =====
-- chip_fake_bss.cpp: the four synthetic networks, and the beacons that are built for them on first use.
pub mod Beacons
pub mod Buffers
pub mod Table
use wificx_skeleton.Prelude.{
  ℕ, ◌+◌, ◌-◌, ◌*◌, ◌/◌, ◌%◌, ◌^◌, Bool, true, false, List, [], ◌∷◌, ◌++◌, Option, none, some, map,
  if◌then◌else◌, length, drop, take, replicate, copy_memory, bit_and,
}
use wificx_skeleton.Frame.{Mac, ie_append, freq_to_channel}

abbrev pub max_ie_size : ℕ
max_ie_size = 128

-- `FAKE_BSS_ENTRY`.
pub record FakeBss : Type 0 where
  pub bssid : Mac
  pub ssid_length : ℕ
  pub ssid : List ℕ
  pub frequency_mhz : ℕ
  pub rssi : ℕ
  pub beacon_interval_tu : ℕ
  pub capability_info : ℕ
  pub use_rsn : Bool
  pub ie_buffer : List ℕ
  pub ie_length : ℕ
  pub beacon_buffer : List ℕ
  pub beacon_length : ℕ

abbrev pub rates : List ℕ
rates = 0x82 ∷ 0x84 ∷ 0x8b ∷ 0x96 ∷ 0x0c ∷ 0x12 ∷ 0x18 ∷ 0x24 ∷ []

abbrev pub rsn : List ℕ
rsn =
    0x01 ∷ 0x00 ∷ 0x00 ∷ 0x0f ∷ 0xac ∷ 0x04 ∷ 0x01 ∷ 0x00 ∷ 0x00 ∷ 0x0f ∷ 0xac ∷ 0x04 ∷ 0x01 ∷ 0x00
    ∷ 0x00 ∷ 0x0f ∷ 0xac ∷ 0x02 ∷ 0x00 ∷ 0x00 ∷ []

-- A write of bytes at an offset of a buffer.
abbrev pub write_at : List ℕ → ℕ → List ℕ → List ℕ
write_at buf off bytes = take off buf ++ copy_memory (drop off buf) bytes (length bytes)

-- One `off += WdiIeAppend(buf + off, SIZE - off, id, data, len)`: the buffer and the new offset.
pub append_at : ℕ → List ℕ × ℕ → ℕ → List ℕ → ℕ → List ℕ × ℕ
append_at size (buf, off) id payload len =
    let bytes = ie_append (drop off buf) (size - off) id (some payload) len in
    (write_at buf off bytes, off + length bytes)

unfoldable pub build_ies : FakeBss → FakeBss
unfolding append_at
build_ies e =
    let s1 = append_at max_ie_size (e.ie_buffer, 0) 0 e.ssid e.ssid_length in
    let s2 = append_at max_ie_size s1 1 rates (length rates) in
    let s3 = append_at max_ie_size s2 3 (freq_to_channel e.frequency_mhz ∷ []) 1 in
    let s4 : List ℕ × ℕ = if e.use_rsn then append_at max_ie_size s3 48 rsn (length rsn) else s3 in
    record e { ie_buffer = s4.0; ie_length = s4.1 }

-- The fixed fields: timestamp, beacon interval and capability, low byte first.
abbrev pub fixed_fields : ℕ → ℕ → List ℕ
fixed_fields interval capability =
    0
    ∷ 0
    ∷ 0
    ∷ 0
    ∷ 0
    ∷ 0
    ∷ 0
    ∷ 0
    ∷ bit_and interval 0xff
    ∷ bit_and (interval / 2 ^ 8) 0xff
    ∷ bit_and capability 0xff
    ∷ bit_and (capability / 2 ^ 8) 0xff
    ∷ []

unfoldable pub build_beacon_body : FakeBss → FakeBss
build_beacon_body e =
    let fixed = write_at e.beacon_buffer 0 (fixed_fields e.beacon_interval_tu e.capability_info) in
    record e {
      beacon_buffer = write_at fixed 12 (take e.ie_length e.ie_buffer);
      beacon_length = 12 + e.ie_length;
    }

-- The globals `g_FakeBss` and `g_IesBuilt`.
pub record BssTable : Type 0 where
  pub entries : List FakeBss
  pub ies_built : Bool

abbrev fake_bss : ℕ → List ℕ → ℕ → ℕ → ℕ → Bool → FakeBss
fake_bss last ssid frequency rssi capability use_rsn = record {
  bssid = record { b0 = 0x02; b1 = 0xaa; b2 = 0xbb; b3 = 0; b4 = 0; b5 = last };
  ssid_length = length ssid;
  ssid = ssid ++ replicate (32 - length ssid) 0;
  frequency_mhz = frequency;
  rssi = 2 ^ 32 - rssi;
  beacon_interval_tu = 100;
  capability_info = capability;
  use_rsn = use_rsn;
  ie_buffer = replicate 128 0;
  ie_length = 0;
  beacon_buffer = replicate 140 0;
  beacon_length = 0;
}

-- The initial table: FakeOpen, FakeWPA2, FakeGuest and FakeHome.
unfoldable pub initial_table : BssTable
initial_table = record {
  entries =
      fake_bss 1 (b'F' ∷ b'a' ∷ b'k' ∷ b'e' ∷ b'O' ∷ b'p' ∷ b'e' ∷ b'n' ∷ []) 2437 45 0x0001 false
      ∷ fake_bss 2 (b'F' ∷ b'a' ∷ b'k' ∷ b'e' ∷ b'W' ∷ b'P' ∷ b'A' ∷ b'2' ∷ []) 2462 60 0x0011 true
      ∷ fake_bss 3 (b'F' ∷ b'a' ∷ b'k' ∷ b'e' ∷ b'G' ∷ b'u' ∷ b'e' ∷ b's' ∷ b't' ∷ []) 5180 55
          0x0001 false
      ∷ fake_bss 4 (b'F' ∷ b'a' ∷ b'k' ∷ b'e' ∷ b'H' ∷ b'o' ∷ b'm' ∷ b'e' ∷ []) 5220 70 0x0011 true
      ∷ [];
  ies_built = false;
}

unfoldable pub get_table : BssTable → BssTable
get_table t =
    if t.ies_built
    then t
    else record { entries = map (λ e. build_beacon_body (build_ies e)) t.entries; ies_built = true }
