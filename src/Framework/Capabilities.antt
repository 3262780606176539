-- ===== src/Framework/Capabilities.antt =====
-- The capability structures of WiFiCx and NetAdapterCx, with the fields that the driver fills in. The
-- sizes of the structures are left out, and the numbers of entries are the lengths of the lists.
use wificx_skeleton.Prelude.{ℕ, Bool, List}
use wificx_skeleton.Frame.{Mac, Band}

pub record DeviceCapabilities : Type 0 where
  pub hardware_radio_state : ℕ
  pub software_radio_state : ℕ
  pub action_frames_supported : ℕ
  pub num_rx_streams : ℕ
  pub num_tx_streams : ℕ
  pub support_ecsa : ℕ
  pub mac_address_randomization : ℕ
  pub bluetooth_performance_maintained : Bool
  pub supports_non_wdi_oid_requests : ℕ
  pub fast_transition_supported : ℕ
  pub mu_mimo_supported : ℕ
  pub bss_transition_supported : ℕ
  pub sae_authentication_supported : ℕ
  pub mbo_supported : ℕ
  pub beacon_reports_implemented : ℕ
  pub num_radios : ℕ

-- `DOT11_AUTH_CIPHER_PAIR`, of the algorithms that the source names.
pub data Auth : Type 0 where
  dot11_open dot11_rsna_psk : Auth

pub data Cipher : Type 0 where
  cipher_none cipher_ccmp : Cipher

pub record StationCapabilities : Type 0 where
  pub scan_ssid_list_size : ℕ
  pub desired_ssid_list_size : ℕ
  pub privacy_exemption_list_size : ℕ
  pub key_mapping_table_size : ℕ
  pub default_key_table_size : ℕ
  pub wep_key_value_max_length : ℕ
  pub max_num_per_sta : ℕ
  pub unicast_algorithms : List (Auth × Cipher)
  pub multicast_data_algorithms : List (Auth × Cipher)
  pub multicast_mgmt_algorithms : List (Auth × Cipher)

-- `WDI_CHANNEL_MAPPING_ENTRY`.
pub record ChannelEntry : Type 0 where
  pub channel_number : ℕ
  pub frequency_mhz : ℕ

pub data PhyType : Type 0 where
  phy_ht : PhyType

pub record BandInfo : Type 0 where
  pub band_id : Band
  pub band_state : Bool
  pub phy_types : List PhyType
  pub channels : List ChannelEntry
  pub channel_widths : List ℕ

-- `WIFI_PHY_INFO`: the announced number of rates, and the rates in units of 500 kbit/s.
pub record PhyInfo : Type 0 where
  pub phy_type : PhyType
  pub number_data_rate_entries : ℕ
  pub data_rates : List ℕ

pub record WifiDirectCapabilities : Type 0 where
  pub wfd_role_count : ℕ
  pub concurrent_go_count : ℕ
  pub concurrent_client_count : ℕ
  pub scan_ssid_list_size : ℕ
  pub desired_ssid_list_size : ℕ
  pub privacy_exemption_list_size : ℕ
  pub association_table_size : ℕ
  pub default_key_table_size : ℕ
  pub wep_key_value_max_length : ℕ
  pub unicast_algorithms : List (Auth × Cipher)
  pub multicast_data_algorithms : List (Auth × Cipher)
  pub go_client_table_size : ℕ
  pub max_vendor_specific_extension_ie_size : ℕ
  pub interface_addresses : List Mac

-- `NET_ADAPTER_LINK_STATE`.
pub data Connection : Type 0 where
  connection_unknown disconnected : Connection

pub data Duplex : Type 0 where
  duplex_unknown full : Duplex

pub data Pause : Type 0 where
  pause_unknown unsupported : Pause

pub record LinkState : Type 0 where
  pub link_speed : ℕ
  pub connection : Connection
  pub duplex : Duplex
  pub pause : Pause

-- The arguments of NET_ADAPTER_TX_CAPABILITIES_INIT and of its system-managed receive counterpart,
-- with the fields that are set afterwards.
pub record TxCapabilities : Type 0 where
  pub maximum_number_of_queues : ℕ
  pub fragment_ring_hint : ℕ
  pub maximum_number_of_fragments : ℕ

pub record RxCapabilities : Type 0 where
  pub maximum_frame_size : ℕ
  pub maximum_number_of_queues : ℕ
  pub fragment_ring_hint : ℕ
