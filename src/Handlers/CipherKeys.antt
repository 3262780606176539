-- ===== src/Handlers/CipherKeys.antt =====
-- wdihandlers.cpp: the handlers that pass cipher keys on to the chip backend.
use wificx_skeleton.Prelude.{ℕ, ◌%◌, List, [], ◌∷◌, Option, none, some, if◌then◌else◌, take}
use wificx_skeleton.Platform.{Status, Array}
use wificx_skeleton.Platform.System.{System}
use wificx_skeleton.Keys.{KeyContainer, KeyDescriptor, key_from_container}
use wificx_skeleton.Device.{Driver, ChipOps, call_op, with_arg}
use wificx_skeleton.Tlv.{tlv_context, tlv_body}
use wificx_skeleton.Handlers.Session.{Request, Reply, ack}

-- The loop over the containers: a container that is refused is skipped, and the status of the op is
-- ignored.
unfoldable pub program_keys :
    (KeyDescriptor → Driver → Status × Driver) → List KeyContainer → Driver → Driver
program_keys op [] d = d
program_keys op (c ∷ cs) d =
    let (taken, key) = key_from_container c in
    program_keys op cs (if taken then (op key d).1 else d)

abbrev pub items {ℓ} : {A : Type ℓ} → Array A → List A
items a = elim a.elements [ none ↦ [] | some xs ↦ take a.element_count xs ]

module _ (sys : System) (ops : ChipOps) where
  -- HandleSetAddCipherKeys with a TLV body, from its test of the chip on.
  unfoldable pub with_op :
      Option (KeyDescriptor → Driver → Status × Driver) → List ℕ → Driver → Driver
  unfolding program_keys
  with_op none body d = d
  with_op (some op) body d =
      if d.chip_installed
      then elim (sys.parse_add_cipher_keys (tlv_context sys d.os_wdi_version) body) [
        | none ↦ d
        | some containers ↦ program_keys op (items containers) d
      ]
      else d

  unfoldable pub with_body : Option (List ℕ) → Driver → Driver
  unfolding with_op
  with_body none d = d
  with_body (some body) d = with_op ops.program_key body d

  unfoldable pub add_keys : Request → Driver → Driver
  unfolding with_body
  add_keys r d = with_body (tlv_body sys (some d.io) r.in_len).0 d

  unfoldable pub handle_set_add_cipher_keys : Request → Driver → Reply
  unfolding add_keys ack
  handle_set_add_cipher_keys r d = ack sys r (add_keys r d)

  unfoldable pub handle_set_delete_cipher_keys : Request → Driver → Reply
  unfolding ack
  handle_set_delete_cipher_keys r d = ack sys r (call_op ops.remove_all_keys d)

  -- Key id 0 unless the TLV parses and names another.
  unfoldable pub default_key_id : Request → Driver → ℕ
  default_key_id r d = elim (tlv_body sys (some d.io) r.in_len).0 [
    | none ↦ 0
    | some body ↦ elim (sys.parse_default_key_id (tlv_context sys d.os_wdi_version) body) [
      | none ↦ 0
      | some id ↦ id % 256
    ]
  ]

  unfoldable pub handle_set_default_key_id : Request → Driver → Reply
  unfolding default_key_id ack
  handle_set_default_key_id r d =
      ack sys r (call_op (with_arg ops.set_default_key_id (default_key_id r d)) d)
