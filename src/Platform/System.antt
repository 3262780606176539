-- ===== src/Platform/System.antt =====
-- The calls of the system that the driver makes, as one record of functions. A call whose outcome may
-- differ from one time to the next takes the number of earlier calls of its kind.
use wificx_skeleton.Prelude.{ℕ, Bool, List, Option}
use wificx_skeleton.Frame.{Mac}
use wificx_skeleton.Keys.{KeyContainer}
use wificx_skeleton.Platform.{
  Status, Array, ConnectParameters, BssEntry, AssociationResult, Disassociation, Generated,
}

pub record System : Type 0 where
  -- sizeof(WDI_MESSAGE_HEADER) and WDI_VERSION_LATEST
  pub header_size : ℕ
  pub version_latest : ℕ
  -- WdfMemoryCreate of a size; ExAllocatePool2; KeQueryTickCount; WifiDeviceGetOsWdiVersion
  pub memory_create : ℕ → ℕ → Status
  pub allocates : ℕ → Bool
  pub tick_count : ℕ → ℕ
  pub os_wdi_version : ℕ
  -- the TLV parsers, of a context's version and a body; `none` is any failure
  pub parse_set_radio_state : ℕ → List ℕ → Option ℕ
  pub parse_connect : ℕ → List ℕ → Option ConnectParameters
  pub parse_add_cipher_keys : ℕ → List ℕ → Option (Array KeyContainer)
  pub parse_default_key_id : ℕ → List ℕ → Option ℕ
  -- the TLV generators, of a context's version and the parameters
  pub generate_statistics : ℕ → Mac → Generated
  pub generate_bss_entry_list : ℕ → List BssEntry → Generated
  pub generate_radio_status : ℕ → Bool → Bool → Generated
  pub generate_association_result : ℕ → AssociationResult → Generated
  pub generate_disassociation : ℕ → Disassociation → Generated
