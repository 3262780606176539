-- ===== src/FakeChip.antt =====
-- chip_fake.cpp: the operations of the fake chip backend, as a `ChipOps`.
pub mod Contract
pub mod Cache
pub mod Scan
pub mod Heard
pub mod Association
use wificx_skeleton.Prelude.{
  ℕ, ◌+◌, ◌%◌, ◌^◌, Bool, true, false, ◌||◌, List, [], ◌∷◌, Option, none, some, ◌==◌, if◌then◌else◌,
  replicate,
}
use wificx_skeleton.Platform.{Status, success, device_not_ready, not_found, insufficient_resources}
use wificx_skeleton.Platform.System.{System}
use wificx_skeleton.Keys.{KeyDescriptor}
use wificx_skeleton.ScanCache
use wificx_skeleton.ScanCache.{ScanCache, Result}
use wificx_skeleton.FakeBss.{FakeBss, BssTable, get_table}
use wificx_skeleton.FakeKeys.{FakeKey, zero_keys}
use wificx_skeleton.FakeKeys
use wificx_skeleton.FakeAssoc.{build_req_body, build_resp_body, find_bss}
use wificx_skeleton.Device.{Driver, FakeChip, ChipOps, ConnectTarget}
use wificx_skeleton.Connect.{emit_association_result}

abbrev pub set_fake : FakeChip → Driver → Driver
set_fake f d = record d { fake = f }

-- The table with its beacons built, and the driver that remembers it (FakeBssGetTable).
abbrev pub load_table : Driver → Driver
load_table d = record d { fake = record (d.fake) { bss = get_table d.fake.bss } }

unfoldable pub fake_init : Driver → Status × Driver
fake_init d = (success, d)

pub fake_deinit : Driver → Driver
fake_deinit d = d

pub fake_set_radio : Bool → Driver → Status × Driver
fake_set_radio soft_on d = (success, d)

pub fake_abort_scan : Driver → Status × Driver
fake_abort_scan d = (success, d)

pub fake_disconnect : Driver → Status × Driver
fake_disconnect d = (success, d)

pub fake_program_key : KeyDescriptor → Driver → Status × Driver
fake_program_key k d =
    let (status, keys) = FakeKeys.program_key d.fake.keys k in
    (status, record d { fake = record (d.fake) { keys = keys } })

pub fake_remove_all_keys : Driver → Status × Driver
fake_remove_all_keys d = (success, record d { fake = record (d.fake) { keys = zero_keys } })

pub fake_set_default_key_id : ℕ → Driver → Status × Driver
fake_set_default_key_id id d =
    (success, record d { fake = record (d.fake) { default_key_id = id } })

pub fake_reset : Driver → Status × Driver
fake_reset d = (
  success,
  record d {
    fake = record (d.fake) {
      reset_count = (d.fake.reset_count + 1) % 2 ^ 32;
      keys = zero_keys;
      default_key_id = 0;
    };
  },
)

module _ (sys : System) where
  -- One WdiScanCacheInsert of the loop, with the tick of its moment.
  abbrev pub scan_result : FakeBss → ℕ → Result
  scan_result e tick = record {
    bssid = e.bssid;
    frequency_mhz = e.frequency_mhz;
    rssi = e.rssi;
    beacon = e.beacon_buffer;
    beacon_len = e.beacon_length;
    tick = tick;
  }

  -- KeQueryTickCount runs only where an entry is written.
  pub insert_all : List FakeBss → ScanCache → ℕ → ScanCache × ℕ
  insert_all [] c ticks = (c, ticks)
  insert_all (e ∷ es) c ticks =
      let (status, c') = ScanCache.insert c (scan_result e (sys.tick_count ticks)) in
      insert_all es c' (elim status [ success ↦ ticks + 1 | _ ↦ ticks ])

  -- FakeStartScan from its test of the cache on.
  pub scan_into : Option ScanCache → Driver → Status × Driver
  unfolding insert_all
  scan_into none d = (device_not_ready, d)
  scan_into (some cache) d =
      let d' = load_table d in
      let (c, ticks) = insert_all d'.fake.bss.entries (ScanCache.clear cache) d.tick_calls in
      (success, record d' { scan_cache = some c; tick_calls = ticks })

  unfoldable pub fake_start_scan : Driver → Status × Driver
  fake_start_scan d = scan_into d.scan_cache d

  -- FakeConnect from its test of the table entry on. It reports the association as failed (status
  -- code 1). `req` and `resp` are what its two stack buffers hold on entry.
  pub associate : List ℕ → List ℕ → Option FakeBss → Driver → Status × Driver
  associate req resp none d = (not_found, d)
  associate req resp (some bss) d =
      let (req', req_len) = build_req_body req 128 bss in
      let (resp', resp_len) = build_resp_body resp 128 bss 1 in
      if req_len == 0 || resp_len == 0
      then (insufficient_resources, d)
      else (success, emit_association_result sys bss.bssid req' req_len resp' resp_len 1 d)

  unfoldable pub fake_connect : List ℕ → List ℕ → ConnectTarget → Driver → Status × Driver
  fake_connect req resp target d =
      let d' = load_table d in associate req resp (find_bss d'.fake.bss.entries target.bssid) d'

  -- `g_FakeOps`.
  unfoldable pub fake_ops : List ℕ → List ℕ → ChipOps
  fake_ops req resp = record {
    init = fake_init;
    deinit = some fake_deinit;
    set_radio = some fake_set_radio;
    start_scan = some fake_start_scan;
    abort_scan = some fake_abort_scan;
    connect = some (fake_connect req resp);
    disconnect = some fake_disconnect;
    program_key = some fake_program_key;
    remove_all_keys = some fake_remove_all_keys;
    set_default_key_id = some fake_set_default_key_id;
    reset = some fake_reset;
  }
