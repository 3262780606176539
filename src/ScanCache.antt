-- ===== src/ScanCache.antt =====
-- wdi_scan_cache.cpp and wdi_scan_cache.h: the table of scan results, keyed by BSSID. Each operation
-- runs under the cache's spin lock, so it is one step. An RSSI is the 32-bit pattern of an `INT32`.
pub mod Growth
pub mod Invariant
pub mod Lookup
pub mod Search
use wificx_skeleton.Prelude.{
  ℕ, zero, suc, ◌+◌, ◌*◌, Bool, true, false, List, [], ◌∷◌, Option, none, some, ltb, leb, ◌==◌,
  ◌||◌, if◌then◌else◌, get_or, set, take, replicate, copy_memory,
}
use wificx_skeleton.Platform.{Status, success, invalid_parameter, insufficient_resources}
use wificx_skeleton.Frame.{Mac, mac_equal}
use wificx_skeleton.Keys.{zero_mac}

abbrev pub beacon_max : ℕ
beacon_max = 256

-- `WDI_SCAN_CACHE_ENTRY`.
pub record Entry : Type 0 where
  pub bssid : Mac
  pub frequency_mhz : ℕ
  pub rssi : ℕ
  pub last_seen_tick : ℕ
  pub beacon_length : ℕ
  pub beacon : List ℕ

-- `_WDI_SCAN_CACHE`; the entries from `count` on are unused.
pub record ScanCache : Type 0 where
  pub max_entries : ℕ
  pub count : ℕ
  pub entries : List Entry

-- Memory as ExAllocatePool2 hands it over, zeroed.
unfoldable pub zero_entry : Entry
zero_entry = record {
  bssid = zero_mac;
  frequency_mhz = 0;
  rssi = 0;
  last_seen_tick = 0;
  beacon_length = 0;
  beacon = replicate 256 0;
}

abbrev pub empty_cache : ℕ → ScanCache
empty_cache max = record { max_entries = max; count = 0; entries = replicate max zero_entry }

-- `allocated` says whether ExAllocatePool2 had the memory.
unfoldable pub create : ℕ → Bool → Status × Option ScanCache
create max allocated =
    if max == 0 || ltb 4096 max
    then (invalid_parameter, none)
    else if allocated
    then (success, some (empty_cache max))
    else (insufficient_resources, none)

pub clear : ScanCache → ScanCache
clear c = record c { count = 0 }

-- The loop of FindByBssidLocked at index `i`, over the entries from `i` on, with the rounds left;
-- `none` is `(SIZE_T)-1`.
pub find_from : List Entry → ℕ → ℕ → Mac → Option ℕ
find_from es zero i bssid = none
find_from [] (suc n) i bssid = none
find_from (e ∷ es) (suc n) i bssid =
    if mac_equal e.bssid bssid then some i else find_from es n (i + 1) bssid

pub find_by_bssid : ScanCache → Mac → Option ℕ
find_by_bssid c bssid = find_from c.entries c.count 0 bssid

-- What a caller hands to WdiScanCacheInsert, with the tick at which it does.
pub record Result : Type 0 where
  pub bssid : Mac
  pub frequency_mhz : ℕ
  pub rssi : ℕ
  pub beacon : List ℕ
  pub beacon_len : ℕ
  pub tick : ℕ

pub copy_len : ℕ → ℕ
copy_len len = if ltb beacon_max len then beacon_max else len

-- The writes through `e` at the end of WdiScanCacheInsert. Of the beacon buffer only the first
-- `copyLen` bytes change.
pub fill : Entry → Result → Entry
fill e r = record e {
  frequency_mhz = r.frequency_mhz;
  rssi = r.rssi;
  last_seen_tick = r.tick;
  beacon_length = copy_len r.beacon_len;
  beacon =
      if copy_len r.beacon_len == 0
      then e.beacon
      else copy_memory e.beacon r.beacon (copy_len r.beacon_len);
}

-- A new entry has the BSSID copied in first.
pub fill_at : ScanCache → ℕ → Result → ScanCache
fill_at c idx r = record c {
  entries = set c.entries idx (fill (get_or c.entries idx zero_entry) r);
}

pub take_slot : ScanCache → Mac → ScanCache
take_slot c bssid = record c {
  count = c.count + 1;
  entries = set c.entries c.count (record (get_or c.entries c.count zero_entry) { bssid = bssid });
}

pub insert : ScanCache → Result → Status × ScanCache
unfolding find_by_bssid fill fill_at take_slot copy_len
insert c r = elim (find_by_bssid c r.bssid) [
  | some idx ↦ (success, fill_at c idx r)
  | none ↦
      if leb c.max_entries c.count
      then (insufficient_resources, c)
      else (success, fill_at (take_slot c r.bssid) c.count r)
]

-- The number of entries copied out, and those entries.
pub snapshot : ScanCache → ℕ → ℕ × List Entry
snapshot c max_count =
    let n = if ltb c.count max_count then c.count else max_count in (n, take n c.entries)
