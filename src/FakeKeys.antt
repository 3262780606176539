-- ===== src/FakeKeys.antt =====
-- The key table of chip_fake.cpp: what a real chip would hold in its security CAM.
pub mod Lookup
use wificx_skeleton.Prelude.{
  ℕ, ◌+◌, Bool, true, false, ◌&&◌, List, [], ◌∷◌, Option, none, some, ◌==◌, if◌then◌else◌, get_or,
  set, replicate, copy_memory,
}
use wificx_skeleton.Platform.{Status, success, insufficient_resources}
use wificx_skeleton.Frame.{Mac, mac_equal}
use wificx_skeleton.Keys.{KeyDescriptor, zero_mac}

abbrev pub key_table_size : ℕ
key_table_size = 16

-- `FakeKeyEntry`.
pub record FakeKey : Type 0 where
  pub in_use : Bool
  pub peer_address : Mac
  pub key_index : ℕ
  pub key_type : ℕ
  pub cipher : ℕ
  pub key_length : ℕ
  pub key : List ℕ

abbrev pub zero_key_entry : FakeKey
zero_key_entry = record {
  in_use = false;
  peer_address = zero_mac;
  key_index = 0;
  key_type = 0;
  cipher = 0;
  key_length = 0;
  key = replicate 32 0;
}

-- `RtlZeroMemory(g_FakeKeys, sizeof(g_FakeKeys))`.
unfoldable pub zero_keys : List FakeKey
zero_keys = replicate key_table_size zero_key_entry

-- The test of an entry in use against the key that is programmed.
unfoldable pub same_slot : FakeKey → KeyDescriptor → Bool
same_slot e k =
    e.key_index == k.key_index
    && e.key_type == k.key_type
    && mac_equal e.peer_address k.peer_address

-- `if (firstFree < 0) firstFree = i`; `none` is -1.
abbrev pub note_free : Option ℕ → ℕ → Option ℕ
note_free (some j) i = some j
note_free none i = some i

-- The loop of FakeProgramKey from index `i` on: `targetIdx` and `firstFree`.
unfoldable pub search_slot : List FakeKey → ℕ → Option ℕ → KeyDescriptor → Option ℕ × Option ℕ
search_slot [] i free k = (none, free)
search_slot (e ∷ es) i free k =
    let rest = search_slot es (i + 1) (if e.in_use then free else note_free free i) k in
    if e.in_use && same_slot e k then (some i, free) else rest

unfoldable pub write_key : FakeKey → KeyDescriptor → FakeKey
write_key slot k = record slot {
  in_use = true;
  key_index = k.key_index;
  key_type = k.key_type;
  cipher = k.cipher;
  key_length = k.key_length;
  peer_address = k.peer_address;
  key = copy_memory slot.key k.key k.key_length;
}

abbrev pub write_at_index : List FakeKey → ℕ → KeyDescriptor → List FakeKey
write_at_index es i k = set es i (write_key (get_or es i zero_key_entry) k)

-- `targetIdx`, or else `firstFree`.
unfoldable pub choose_slot : Option ℕ × Option ℕ → Option ℕ
choose_slot (some target, free) = some target
choose_slot (none, free) = free

unfoldable pub program_key : List FakeKey → KeyDescriptor → Status × List FakeKey
unfolding search_slot choose_slot
program_key es k = elim (choose_slot (search_slot es 0 none k)) [
  | none ↦ (insufficient_resources, es)
  | some i ↦ (success, write_at_index es i k)
]
