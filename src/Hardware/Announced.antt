-- ===== src/Hardware/Announced.antt =====
-- device.cpp: the capabilities that MtkInitializeHardware announces.
use wificx_skeleton.Prelude.{ℕ, true, List, [], ◌∷◌}
use wificx_skeleton.Frame.{Mac, band_2400, band_5000}
use wificx_skeleton.Framework.Capabilities.{
  DeviceCapabilities, Auth, dot11_open, dot11_rsna_psk, Cipher, cipher_none, cipher_ccmp,
  StationCapabilities, ChannelEntry, phy_ht, BandInfo, PhyInfo, WifiDirectCapabilities,
}

abbrev pub device_capabilities : DeviceCapabilities
device_capabilities = record {
  hardware_radio_state = 1;
  software_radio_state = 1;
  action_frames_supported = 0;
  num_rx_streams = 1;
  num_tx_streams = 1;
  support_ecsa = 0;
  mac_address_randomization = 0;
  bluetooth_performance_maintained = true;
  supports_non_wdi_oid_requests = 0;
  fast_transition_supported = 0;
  mu_mimo_supported = 0;
  bss_transition_supported = 0;
  sae_authentication_supported = 0;
  mbo_supported = 0;
  beacon_reports_implemented = 0;
  num_radios = 1;
}

abbrev pub unicast_pairs : List (Auth × Cipher)
unicast_pairs = (dot11_open, cipher_none) ∷ (dot11_rsna_psk, cipher_ccmp) ∷ []

abbrev pub mcast_data_pairs : List (Auth × Cipher)
mcast_data_pairs = (dot11_open, cipher_none) ∷ (dot11_rsna_psk, cipher_ccmp) ∷ []

abbrev pub mcast_mgmt_pairs : List (Auth × Cipher)
mcast_mgmt_pairs = (dot11_open, cipher_none) ∷ []

abbrev pub cipher_pairs : Auth × Cipher
cipher_pairs = (dot11_open, cipher_none)

abbrev pub station_capabilities : StationCapabilities
station_capabilities = record {
  scan_ssid_list_size = 32;
  desired_ssid_list_size = 32;
  privacy_exemption_list_size = 16;
  key_mapping_table_size = 16;
  default_key_table_size = 16;
  wep_key_value_max_length = 16;
  max_num_per_sta = 16;
  unicast_algorithms = unicast_pairs;
  multicast_data_algorithms = mcast_data_pairs;
  multicast_mgmt_algorithms = mcast_mgmt_pairs;
}

abbrev channel : ℕ → ℕ → ChannelEntry
channel number mhz = record { channel_number = number; frequency_mhz = mhz }

abbrev pub ch2g : List ChannelEntry
ch2g =
    channel 1 2412
    ∷ channel 2 2417
    ∷ channel 3 2422
    ∷ channel 4 2427
    ∷ channel 5 2432
    ∷ channel 6 2437
    ∷ channel 7 2442
    ∷ channel 8 2447
    ∷ channel 9 2452
    ∷ channel 10 2457
    ∷ channel 11 2462
    ∷ []

abbrev pub ch5g : List ChannelEntry
ch5g = channel 36 5180 ∷ channel 40 5200 ∷ channel 44 5220 ∷ channel 48 5240 ∷ []

-- `bandInfo`: 2.4 GHz and 5 GHz, both switched on.
abbrev pub band_info : List BandInfo
band_info =
    record {
      band_id = band_2400;
      band_state = true;
      phy_types = phy_ht ∷ [];
      channels = ch2g;
      channel_widths = 20 ∷ [];
    }
    ∷ record {
      band_id = band_5000;
      band_state = true;
      phy_types = phy_ht ∷ [];
      channels = ch5g;
      channel_widths = 20 ∷ [];
    }
    ∷ []

abbrev pub rate_values : List ℕ
rate_values = 2 ∷ 4 ∷ 11 ∷ 22 ∷ 12 ∷ 18 ∷ 24 ∷ 36 ∷ 48 ∷ 72 ∷ 96 ∷ 108 ∷ []

abbrev pub phy_info : List PhyInfo
phy_info =
    record { phy_type = phy_ht; number_data_rate_entries = 12; data_rates = rate_values } ∷ []

abbrev pub wfd_address : Mac
wfd_address = record { b0 = 0x02; b1 = 0x57; b2 = 0x49; b3 = 0x46; b4 = 0x44; b5 = 0x01 }

abbrev pub wifi_direct_capabilities : WifiDirectCapabilities
wifi_direct_capabilities = record {
  wfd_role_count = 1;
  concurrent_go_count = 1;
  concurrent_client_count = 1;
  scan_ssid_list_size = 32;
  desired_ssid_list_size = 32;
  privacy_exemption_list_size = 16;
  association_table_size = 16;
  default_key_table_size = 16;
  wep_key_value_max_length = 16;
  unicast_algorithms = cipher_pairs ∷ [];
  multicast_data_algorithms = cipher_pairs ∷ [];
  go_client_table_size = 8;
  max_vendor_specific_extension_ie_size = 256;
  interface_addresses = wfd_address ∷ [];
}
