-- ===== src/Keys.antt =====
-- wdi_keys.cpp and wdi_keys.h: the key of a WDI cipher key container as one flat descriptor.
pub mod Extract
use wificx_skeleton.Prelude.{
  ℕ, ◌%◌, Bool, true, false, List, [], Option, none, some, ltb, ◌==◌, if◌then◌else◌, replicate,
  copy_memory,
}
use wificx_skeleton.Platform.{Array}
use wificx_skeleton.Frame.{Mac}

-- `WDI_CIPHER_KEY_TYPE` and `WDI_CIPHER_ALGORITHM` are only moved and compared: any numbers.
-- `WDI_KEY_DESCRIPTOR`.
pub record KeyDescriptor : Type 0 where
  pub peer_address : Mac
  pub key_index : ℕ
  pub has_peer : Bool
  pub key_type : ℕ
  pub cipher : ℕ
  pub rsc : List ℕ
  pub has_rsc : Bool
  pub key_length : ℕ
  pub key : List ℕ

-- The optional key fields of a container, in the order in which the source looks at them.
pub record KeyFields : Type 0 where
  pub ccmp_key : Option (Array ℕ)
  pub gcmp_key : Option (Array ℕ)
  pub gcmp_256_key : Option (Array ℕ)
  pub bip_key : Option (Array ℕ)
  pub bip_gmac_256_key : Option (Array ℕ)
  pub wep_key : Option (Array ℕ)
  pub tkip_key : Option (Array ℕ)

-- What the source reads of a `WDI_SET_ADD_CIPHER_KEYS_CONTAINER`; an optional field is `none` where
-- its `_IsPresent` flag is clear.
pub record KeyContainer : Type 0 where
  pub key_type : ℕ
  pub cipher : ℕ
  pub cipher_key_id : Option ℕ
  pub peer_mac : Option Mac
  pub receive_sequence_count : Option (List ℕ)
  pub keys : KeyFields

abbrev pub zero_mac : Mac
zero_mac = record { b0 = 0; b1 = 0; b2 = 0; b3 = 0; b4 = 0; b5 = 0 }

-- `RtlZeroMemory(K, sizeof(*K))`.
abbrev pub zero_key : KeyDescriptor
zero_key = record {
  peer_address = zero_mac;
  key_index = 0;
  has_peer = false;
  key_type = 0;
  cipher = 0;
  rsc = replicate 8 0;
  has_rsc = false;
  key_length = 0;
  key = replicate 32 0;
}

-- Everything but the key bytes.
key_header : KeyContainer → KeyDescriptor
key_header c = record zero_key {
  key_type = c.key_type;
  cipher = c.cipher;
  key_index = elim c.cipher_key_id [ some id ↦ id % 256 | none ↦ 0 ];
  has_peer = elim c.peer_mac [ some mac ↦ true | none ↦ false ];
  peer_address = elim c.peer_mac [ some mac ↦ mac | none ↦ zero_mac ];
  has_rsc = elim c.receive_sequence_count [ some pn ↦ true | none ↦ false ];
  rsc = elim c.receive_sequence_count [
    | some pn ↦ copy_memory (replicate 8 0) pn 8
    | none ↦ replicate 8 0
  ];
}

abbrev or_else : Option (Array ℕ) → Option (Array ℕ) → Option (Array ℕ)
or_else (some a) other = some a
or_else none other = other

-- The first of the seven key fields that is present.
select_key : KeyFields → Option (Array ℕ)
select_key k = or_else k.ccmp_key (
    or_else k.gcmp_key (
      or_else k.gcmp_256_key
        (or_else k.bip_key (or_else k.bip_gmac_256_key (or_else k.wep_key k.tkip_key)))))

abbrev bytes_at : Option (List ℕ) → List ℕ
bytes_at none = []
bytes_at (some bytes) = bytes

-- The copy of the key bytes, with its guard.
store_key : KeyDescriptor → Array ℕ → Bool × KeyDescriptor
store_key k a = if ltb 32 a.element_count then (false, k) else (
  true,
  record k {
    key_length = a.element_count % 256;
    key =
        if a.element_count == 0
        then k.key
        else copy_memory k.key (bytes_at a.elements) a.element_count;
  },
)

-- The result and `*K`.
pub key_from_container : KeyContainer → Bool × KeyDescriptor
unfolding key_header select_key store_key
key_from_container c = elim (select_key c.keys) [
  | none ↦ (false, key_header c)
  | some a ↦ store_key (key_header c) a
]
