-- ===== src/Platform.antt =====
-- What the driver takes from the system around it: status codes, message headers, and the calls of
-- WDF, WiFiCx and the generated TLV library, which are parameters of the model.
pub mod System
use wificx_skeleton.Prelude.{ℕ, ◌^◌, Bool, true, false, List, Option, ltb}
use wificx_skeleton.Frame.{Mac, Band}

-- `NTSTATUS`: the codes that the source names, and any other code as a 32-bit pattern.
pub data Status : Type 0 where
  success pending not_implemented invalid_parameter buffer_too_small : Status
  insufficient_resources unsuccessful device_not_ready not_found not_supported : Status
  other : ℕ → Status

-- `NT_SUCCESS`: the sign bit is clear.
abbrev pub nt_success : Status → Bool
nt_success success = true
nt_success pending = true
nt_success (other code) = ltb code (2 ^ 31)
nt_success _ = false

-- `WDI_MESSAGE_HEADER`.
pub record Header : Type 0 where
  pub port_id : ℕ
  pub reserved : ℕ
  pub status : Status
  pub transaction_id : ℕ
  pub ihv_specific_id : ℕ

-- A message buffer: its header and the TLV bytes behind it.
pub record Message : Type 0 where
  pub header : Header
  pub tlv : List ℕ

-- An `ArrayOfElements` of the TLV library: `ElementCount` and `pElements` (`none` if null).
pub record Array {ℓ} (A : Type ℓ) : Type ℓ where
  pub element_count : ℕ
  pub elements : Option (List A)

-- The message ids that the dispatcher knows (WDI_*), and any other.
pub data MessageId : Type 0 where
  get_adapter_capabilities task_open task_close set_adapter_configuration : MessageId
  task_set_radio_state task_create_port task_delete_port task_scan : MessageId
  task_dot11_reset get_statistics set_location_privacy task_connect : MessageId
  task_disconnect set_add_cipher_keys set_delete_cipher_keys set_default_key_id : MessageId
  set_privacy_exemption_list set_multicast_list set_operation_mode abort_task : MessageId
  unhandled : ℕ → MessageId

-- The indications that the driver sends (WDI_INDICATION_*).
pub data IndicationId : Type 0 where
  scan_complete dot11_reset_complete set_radio_state_complete : IndicationId
  connect_complete disconnect_complete : IndicationId
  bss_entry_list radio_status association_result disassociation open_complete : IndicationId

-- The algorithms that the source compares with, and any other.
pub data AuthAlgorithm : Type 0 where
  auth_open auth_rsna auth_rsna_psk : AuthAlgorithm
  auth_other : ℕ → AuthAlgorithm

-- What the source reads of the parsed parameters of WDI_TASK_CONNECT.
pub record ConnectBssEntry : Type 0 where
  pub bssid : Mac
  pub channel_number : ℕ

pub record ConnectParameters : Type 0 where
  pub preferred_bss_entries : Array ConnectBssEntry
  pub ssids : Array (Array ℕ)
  pub auth_algorithms : Array AuthAlgorithm

-- What the source fills in of the parameters that it hands to the TLV generators.
pub record BssEntry : Type 0 where
  pub bssid : Mac
  pub rssi : ℕ
  pub link_quality : ℕ
  pub channel_number : ℕ
  pub band : Band
  pub beacon_frame : List ℕ
  pub host_time_stamp : ℕ

pub record AssociationResult : Type 0 where
  pub bssid : Mac
  pub succeeded : Bool
  pub status_code : ℕ
  pub port_authorized : Bool
  pub request_frame : List ℕ
  pub response_frame : List ℕ

pub record Disassociation : Type 0 where
  pub mac_address : Mac
  pub peer_disassociated : Bool
  pub disassociation_frame : Option (List ℕ)
  pub deauth_frame : Option (List ℕ)

-- What a generator returns: whether its status is NDIS_STATUS_SUCCESS, the length and the buffer.
pub record Generated : Type 0 where
  pub ok : Bool
  pub buf_len : ℕ
  pub gen_buf : Option Message
