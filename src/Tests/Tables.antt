-- ===== src/Tests/Tables.antt =====
-- The scan cache, the key table and the key container.
use wificx_skeleton.Prelude.{◌≡◌, refl, inr, true, false, [], ◌∷◌, some, replicate, arith}
use wificx_skeleton.Platform.{success}
use wificx_skeleton.Frame.{Mac, mac_equal}
use wificx_skeleton.Keys.{KeyContainer, KeyDescriptor, key_from_container}
use wificx_skeleton.Keys.Extract.{ccmp, one_key, array_of, Extracts, key_from_container_one}
use wificx_skeleton.ScanCache
use wificx_skeleton.ScanCache.{ScanCache, Entry, Result, zero_entry, create}
use wificx_skeleton.ScanCache.Lookup.{reported, contents, lookup-insert}
use wificx_skeleton.ScanCache.Lookup
use wificx_skeleton.ScanCache.Invariant.{IsValid, create-IsValid}
use wificx_skeleton.FakeKeys
use wificx_skeleton.FakeKeys.{FakeKey, zero_keys, same_slot, program_key, zero_key_entry}
use wificx_skeleton.FakeKeys.Lookup.{same_name, lookup-program_key}

abbrev peer : Mac
peer = record { b0 = 2; b1 = 0; b2 = 0; b3 = 0; b4 = 0; b5 = 1 }

-- An empty cache of two entries, and one of a single entry that is in use.
abbrev cache : ScanCache
cache = record { max_entries = 2; count = 0; entries = zero_entry ∷ zero_entry ∷ [] }

abbrev full_cache : ScanCache
full_cache = record { max_entries = 1; count = 1; entries = zero_entry ∷ [] }

abbrev seen : Result
seen = record {
  bssid = peer;
  frequency_mhz = 5180;
  rssi = 0;
  beacon = 1 ∷ 2 ∷ [];
  beacon_len = 2;
  tick = 7;
}

lookup-insert_example :
    let (status, c) = ScanCache.insert cache seen in
    (status ≡ success) × (Lookup.lookup (contents c) peer ≡ some (reported seen))
unfolding mac_equal
lookup-insert_example =
    lookup-insert cache seen peer (omega arith) (omega arith) (omega arith) (inr (omega arith))

cache-IsValid : IsValid cache
unfolding create
cache-IsValid = (create-IsValid 2 true refl).0

abbrev key : KeyDescriptor
key = record {
  peer_address = peer;
  key_index = 1;
  has_peer = true;
  key_type = 0;
  cipher = 4;
  rsc = replicate 6 0;
  has_rsc = false;
  key_length = 2;
  key = 9 ∷ 8 ∷ replicate 30 0;
}

lookup-program_key_example :
    FakeKeys.Lookup.lookup (FakeKeys.program_key zero_keys key).1 key ≡ some (4, 9 ∷ 8 ∷ [])
unfolding program_key zero_keys same_name mac_equal
lookup-program_key_example = lookup-program_key zero_keys key key (omega arith) refl

abbrev used_entry : FakeKey
used_entry = record zero_key_entry { in_use = true }

abbrev container : KeyContainer
container = record {
  key_type = 0;
  cipher = 4;
  cipher_key_id = some 1;
  peer_mac = some peer;
  receive_sequence_count = some (1 ∷ 2 ∷ 3 ∷ 4 ∷ 5 ∷ 6 ∷ 0 ∷ 0 ∷ []);
  keys = one_key ccmp (array_of (9 ∷ 8 ∷ []));
}

key_from_container_one_example :
    ((key_from_container container).0 ≡ true)
    × Extracts container (9 ∷ 8 ∷ []) (key_from_container container).1
key_from_container_one_example =
    key_from_container_one container ccmp (9 ∷ 8 ∷ []) refl (omega arith)
