-- ===== src/Keys/Extract.antt =====
-- What WdiKeyFromContainer extracts from a container with one key, and when it refuses one.
use wificx_skeleton.Prelude.{
  ℕ, ◌%◌, ◌≤◌, ◌<◌, ◌≡◌, refl, ap, ◌∙◌, ◌⊎◌, true, false, List, none, some, arith, length, take,
  take-copy_memory, take_all, length-copy_memory, replicate, copy_memory,
}
use wificx_skeleton.Platform.{Array}
use wificx_skeleton.Keys.{
  KeyDescriptor, KeyFields, KeyContainer, zero_mac, key_from_container, select_key, key_header,
  store_key,
}

-- The ciphers whose keys the driver surfaces.
pub data KeyKind : Type 0 where
  ccmp gcmp gcmp_256 bip bip_gmac_256 wep tkip : KeyKind

abbrev pub no_keys : KeyFields
no_keys = record {
  ccmp_key = none;
  gcmp_key = none;
  gcmp_256_key = none;
  bip_key = none;
  bip_gmac_256_key = none;
  wep_key = none;
  tkip_key = none;
}

-- The key fields of a container that carries one key.
abbrev pub one_key : KeyKind → Array ℕ → KeyFields
one_key ccmp a = record no_keys { ccmp_key = some a }
one_key gcmp a = record no_keys { gcmp_key = some a }
one_key gcmp_256 a = record no_keys { gcmp_256_key = some a }
one_key bip a = record no_keys { bip_key = some a }
one_key bip_gmac_256 a = record no_keys { bip_gmac_256_key = some a }
one_key wep a = record no_keys { wep_key = some a }
one_key tkip a = record no_keys { tkip_key = some a }

-- An array as the TLV parser hands it over.
abbrev pub array_of : List ℕ → Array ℕ
array_of bytes = record { element_count = length bytes; elements = some bytes }

-- The descriptor holds the key, the identity and the receive sequence counter of the container.
pub record Extracts (c : KeyContainer) (bytes : List ℕ) (k : KeyDescriptor) : Type 0 where
  pub key_length : k.key_length ≡ length bytes
  pub key_bytes : take k.key_length k.key ≡ bytes
  pub key_buffer : length k.key ≡ 32
  pub key_type : k.key_type ≡ c.key_type
  pub cipher : k.cipher ≡ c.cipher
  pub peer :
      ((k.has_peer ≡ true) × (c.peer_mac ≡ some k.peer_address))
      ⊎ ((k.has_peer ≡ false) × (c.peer_mac ≡ none) × (k.peer_address ≡ zero_mac))
  pub key_index :
      ((id : ℕ) × (c.cipher_key_id ≡ some id) × (k.key_index ≡ id % 256))
      ⊎ ((c.cipher_key_id ≡ none) × (k.key_index ≡ 0))
  pub rsc :
      ((pn : List ℕ) × (k.has_rsc ≡ true)
        × (c.receive_sequence_count ≡ some pn)
        × (k.rsc ≡ take 8 pn))
      ⊎ ((k.has_rsc ≡ false) × (c.receive_sequence_count ≡ none) × (k.rsc ≡ replicate 8 0))

select_key-one_key : (kind : KeyKind) (a : Array ℕ) → select_key (one_key kind a) ≡ some a
unfolding select_key
select_key-one_key ccmp a = refl
select_key-one_key gcmp a = refl
select_key-one_key gcmp_256 a = refl
select_key-one_key bip a = refl
select_key-one_key bip_gmac_256 a = refl
select_key-one_key wep a = refl
select_key-one_key tkip a = refl

abbrev zeros : List ℕ
zeros = replicate 32 0

-- The key buffer after the copy: it starts with the key, and keeps its 32 bytes.
copied_key :
    (bytes : List ℕ)
    → length bytes ≤ 32
    → (take (length bytes) (copy_memory zeros bytes (length bytes)) ≡ bytes)
      × (length (copy_memory zeros bytes (length bytes)) ≡ 32)
copied_key bytes h = (
  take-copy_memory (length bytes) zeros bytes (omega arith) ∙ take_all bytes,
  length-copy_memory (length bytes) zeros bytes (omega arith) h,
)

stored_key :
    (c : KeyContainer) (bytes : List ℕ)
    → length bytes ≤ 32
    → let r = store_key (key_header c) (array_of bytes) in (r.0 ≡ true) × Extracts c bytes r.1
unfolding store_key key_header
stored_key c bytes h = ground (arith, copied_key bytes h)

key_from_container-some :
    (c : KeyContainer) {a : Array ℕ}
    → select_key c.keys ≡ some a
    → key_from_container c ≡ store_key (key_header c) a
unfolding key_from_container
key_from_container-some c q = rw (q, key_from_container)

-- From a container that carries one key of any surfaced cipher, of at most 32 bytes, the whole key
-- is extracted, with the key's type and cipher, the low byte of its id (0 without one), its peer
-- (zeros without one) and the first 8 bytes of its receive sequence counter (zeros without one); the
-- peer and the counter are marked as present or not.
pub key_from_container_one :
    (c : KeyContainer) (kind : KeyKind) (bytes : List ℕ)
    → c.keys ≡ one_key kind (array_of bytes)
    → length bytes ≤ 32
    → ((key_from_container c).0 ≡ true) × Extracts c bytes (key_from_container c).1
key_from_container_one c kind bytes e h =
    rw (key_from_container-some c (ap select_key e ∙ select_key-one_key kind (array_of bytes)))
      (stored_key c bytes h)

-- A container with a longer key, or with none of the surfaced keys, is refused.
pub key_from_container_refuses :
    (c : KeyContainer) (kind : KeyKind) (bytes : List ℕ)
    → (c.keys ≡ no_keys) ⊎ ((c.keys ≡ one_key kind (array_of bytes)) × (32 < length bytes))
    → (key_from_container c).0 ≡ false
unfolding key_from_container
key_from_container_refuses c kind bytes h = ground arith
