-- ===== src/Framework.antt =====
-- The calls that the driver makes of WDF, NetAdapterCx and WiFiCx while a device comes up and goes
-- down, and the chains of them that GOTO_IF_NOT_NT_SUCCESS (trace.h) makes.
pub mod Capabilities
pub mod Chains
use wificx_skeleton.Prelude.{
  ℕ, ◌+◌, Bool, true, false, List, [], ◌∷◌, Option, none, some, if◌then◌else◌,
}
use wificx_skeleton.Platform.{Status, success, nt_success}
use wificx_skeleton.Frame.{Mac}
use wificx_skeleton.Device.{Driver, WorkItem}
use Capabilities.{
  DeviceCapabilities, StationCapabilities, BandInfo, PhyInfo, WifiDirectCapabilities, LinkState,
  TxCapabilities, RxCapabilities,
}

-- The calls, in the order in which the source makes them.
pub data Call : Type 0 where
  -- DriverEntry and EvtDriverUnload
  trace_register driver_create trace_unregister : Call
  -- EvtDriverDeviceAdd
  net_device_init_config wifi_device_init_config set_pnp_power_callbacks : Call
  device_create set_alignment_requirement assign_idle_settings wifi_device_initialize : Call
  -- MtkInitializeHardware
  set_device_capabilities : DeviceCapabilities → Call
  set_station_capabilities : StationCapabilities → Call
  set_band_capabilities : List BandInfo → Call
  set_phy_capabilities : List PhyInfo → Call
  set_wifi_direct_capabilities : WifiDirectCapabilities → Call
  work_item_create : WorkItem → Call
  -- WdiScanCacheDestroy
  pool_free : Call
  -- the chip backend
  chip_init chip_deinit : Call
  -- EvtWiFiDeviceCreateAdapter and what it calls
  set_datapath_callbacks : Call
  add_tx_peer_demux : ℕ → Call
  adapter_create adapter_initialize spin_lock_create : Call
  set_link_state : LinkState → Call
  set_link_layer_capabilities : ℕ → ℕ → Call
  set_link_layer_mtu : ℕ → Call
  set_permanent_address set_current_address : Mac → Call
  set_datapath_capabilities : TxCapabilities → RxCapabilities → Call
  set_wake_capabilities adapter_start : Call

-- `MTK_ADAPTER`: whether its spin lock was made, and its addresses.
pub record Adapter : Type 0 where
  pub lock : Bool
  pub permanent_address : Mac
  pub current_address : Mac

-- The device context with the handles that `Driver` leaves out, and the calls made, newest first.
pub record Machine : Type 0 where
  pub driver : Driver
  pub fx_device : Bool
  pub adapter : Option Adapter
  pub work_items : List WorkItem
  pub calls : List Call

-- The framework: what a call returns after the calls before it.
pub record Framework : Type 0 where
  pub answer : List Call → Call → Status

-- A part of a function that may leave for the label Exit. It takes the value of `status` before it,
-- and returns whether the function goes on, and `status` after it.
abbrev pub Action : Type 0
Action = Status → Machine → Bool × Status × Machine

-- The parts of a function, one after the other.
unfoldable pub chain : List Action → Action
chain [] s c = (true, s, c)
chain (m ∷ ms) s c =
    let (goes_on, s', c') = m s c in if goes_on then chain ms s' c' else (false, s', c')

-- GOTO_IF_NOT_NT_SUCCESS on a function of the driver.
abbrev pub check : (Machine → Status × Machine) → Action
check f s c = let (s', c') = f c in (nt_success s', s', c')

-- What changes only the device.
abbrev pub act : (Machine → Machine) → Action
act f s c = (true, s, f c)

-- A function: `status` starts as STATUS_SUCCESS, and Exit returns it.
abbrev pub function : List Action → Machine → Status × Machine
function ms c = let (goes_on, s, c') = chain ms success c in (s, c')

-- A call without a status.
abbrev pub note : Call → Action
note call = act (λ c. record c { calls = call ∷ c.calls })

module _ (fw : Framework) where
  abbrev pub perform : Call → Machine → Status × Machine
  perform call c = (fw.answer c.calls call, record c { calls = call ∷ c.calls })

  abbrev pub require : Call → Action
  require call = check (perform call)
