-- ===== src/ScanCache/Search.antt =====
-- What the scan cache's search finds, and what the table is as a map.
use wificx_skeleton.Prelude.{
  ℕ, zero, suc, ◌+◌, ◌≤◌, ◌<◌, min, ◌≡◌, ◌≢◌, true, List, [], ◌∷◌, ◌++◌, Option, none, some, arith,
  if◌then◌else◌, length, get_or, set, take,
}
use wificx_skeleton.Frame.{Mac, mac_equal, mac_equal_iff}
use wificx_skeleton.ScanCache.{Entry, ScanCache, Result, zero_entry, find_from}

-- What a reader may know of an entry: the bytes of the beacon buffer behind its length are not part.
pub record Seen : Type 0 where
  pub frequency_mhz : ℕ
  pub rssi : ℕ
  pub tick : ℕ
  pub beacon : List ℕ

abbrev pub view : Entry → Seen
view e = record {
  frequency_mhz = e.frequency_mhz;
  rssi = e.rssi;
  tick = e.last_seen_tick;
  beacon = take e.beacon_length e.beacon;
}

-- What an insertion reports, its beacon cut at 256 bytes.
abbrev pub reported : Result → Seen
reported r = record {
  frequency_mhz = r.frequency_mhz;
  rssi = r.rssi;
  tick = r.tick;
  beacon = take (min r.beacon_len 256) r.beacon;
}

abbrev pub lookup : List Entry → Mac → Option Seen
lookup [] b = none
lookup (e ∷ es) b = if mac_equal e.bssid b then some (view e) else lookup es b

-- The entries in use.
abbrev pub contents : ScanCache → List Entry
contents c = take c.count c.entries

-- The caller's contract (`_In_reads_bytes_(BeaconLen)`).
abbrev pub IsResult : Result → Type 0
IsResult r = r.beacon_len ≤ length r.beacon

find_from_le : (es : List Entry) (n i k : ℕ) (b : Mac) → find_from es n i b ≡ some k → i ≤ k
unfolding find_from
find_from_le es zero i k b e = cc
find_from_le [] (suc n) i k b e = cc
find_from_le (x ∷ es) (suc n) i k b e = ground (arith, find_from_le es n (i + 1) k b)

-- The slot that the search finds: overwriting it changes the map at that BSSID alone.
pub find_from-some :
    (es : List Entry) (n i j : ℕ) (b key : Mac) (new : Entry)
    → find_from es n i b ≡ some (i + j)
    → new.bssid ≡ b
    → (j < n)
      × (mac_equal (get_or es j zero_entry).bssid b ≡ true)
      × (lookup (take n (set es j new)) key
          ≡ (if mac_equal b key then some (view new) else lookup (take n es) key))
unfolding find_from
find_from-some es zero i j b key new e h = cc
find_from-some [] (suc n) i j b key new e h = cc
find_from-some (x ∷ es) (suc n) i zero b key new e h =
    ground (arith, find_from_le es n (i + 1) (i + 0) b, mac_equal_iff x.bssid b)
find_from-some (x ∷ es) (suc n) i (suc j) b key new e h = ground (
  arith,
  find_from-some es n (i + 1) j b key new,
  mac_equal_iff x.bssid b,
  mac_equal_iff x.bssid key,
  mac_equal_iff b key,
)

pub find_from_known :
    (es : List Entry) (n i k : ℕ) (b : Mac)
    → find_from es n i b ≡ some k
    → lookup (take n es) b ≢ none
unfolding find_from
find_from_known es zero i k b e = cc
find_from_known [] (suc n) i k b e = cc
find_from_known (x ∷ es) (suc n) i k b e = ground (arith, find_from_known es n (i + 1) k b)

-- Where the search finds nothing, the BSSID has no entry, and a new one at the end adds it to the map.
pub find_from-none :
    (es : List Entry) (n i : ℕ) (b key : Mac) (new : Entry)
    → find_from es n i b ≡ none
    → n ≤ length es
    → new.bssid ≡ b
    → (lookup (take n es) b ≡ none)
      × (lookup (take n es ++ new ∷ []) key
          ≡ (if mac_equal b key then some (view new) else lookup (take n es) key))
unfolding find_from
find_from-none es zero i b key new e l h = ground arith
find_from-none [] (suc n) i b key new e l h = absurd (omega arith)
find_from-none (x ∷ es) (suc n) i b key new e l h = ground (
  arith,
  find_from-none es n (i + 1) b key new,
  mac_equal_iff x.bssid b,
  mac_equal_iff x.bssid key,
  mac_equal_iff b key,
)
