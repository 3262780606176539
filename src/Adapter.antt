-- ===== src/Adapter.antt =====
-- wifidevice.cpp, adapter.cpp and power.cpp: the creation of the adapter, the other callbacks of the
-- Wi-Fi device, and the power callbacks.
pub mod Creation
pub mod Power
use wificx_skeleton.Prelude.{
  ℕ, ◌+◌, ◌-◌, ◌*◌, ◌^◌, Bool, true, false, List, [], ◌∷◌, Option, none, some, if◌then◌else◌,
}
use wificx_skeleton.Platform.{
  Status, success, insufficient_resources, not_supported, nt_success, Header, open_complete,
}
use wificx_skeleton.Platform.System.{System}
use wificx_skeleton.Frame.{Mac}
use wificx_skeleton.Keys.{zero_mac}
use wificx_skeleton.Device.{Driver, ChipOps, indicated, emit}
use wificx_skeleton.Handlers.{dispatch}
use wificx_skeleton.Handlers.Session.{Request}
use wificx_skeleton.Framework.{
  Adapter, Machine, Framework, Action, check, act, function, note, perform, require,
  set_datapath_callbacks, add_tx_peer_demux, adapter_create, adapter_initialize, spin_lock_create,
  set_link_state, set_link_layer_capabilities, set_link_layer_mtu, set_permanent_address,
  set_current_address, set_datapath_capabilities, set_wake_capabilities, adapter_start,
}
use wificx_skeleton.Framework.Capabilities.{
  LinkState, connection_unknown, disconnected, duplex_unknown, full, pause_unknown, unsupported,
  TxCapabilities, RxCapabilities,
}

-- precomp.h: MTK_MEDIA_MAX_SPEED, MTK_MIN_TCB, MTK_MAX_PHYS_BUF_COUNT, and the size of a receive buffer.
abbrev pub media_max_speed : ℕ
media_max_speed = 150000000

abbrev pub min_tcb : ℕ
min_tcb = 32

abbrev pub max_phys_buf_count : ℕ
max_phys_buf_count = 16

abbrev pub rx_buffer_size : ℕ
rx_buffer_size = 1514 + 4 + 8

abbrev pub fake_mac : Mac
fake_mac = record { b0 = 0x02; b1 = 0x57; b2 = 0x49; b3 = 0x46; b4 = 0x49; b5 = 0x01 }

-- The zeroed context that comes with NetAdapterCreate.
abbrev pub zero_adapter : Adapter
zero_adapter = record { lock = false; permanent_address = zero_mac; current_address = zero_mac }

-- A step that works through the pointer to the adapter context.
abbrev pub through : (Adapter → Adapter) → Option Adapter → Option Adapter
through f none = none
through f (some a) = some (f a)

-- MtkInitializeAdapterContext, whose assignment of `Adapter` repeats that of its caller.
unfoldable pub create_lock : Framework → Machine → Status × Machine
create_lock fw c =
    let (status, c') = perform fw spin_lock_create c in
    (
      status,
      if nt_success status
          then record c' { adapter = through (λ a. record a { lock = true }) c.adapter }
          else c',
    )

abbrev pub initialize_adapter_context : Framework → Machine → Status × Machine
initialize_adapter_context fw = function (check (create_lock fw) ∷ [])

abbrev pub write_addresses : Adapter → Adapter
write_addresses a =
    let a' : Adapter = record a { permanent_address = fake_mac } in
    record a' { current_address = a'.permanent_address }

-- The two calls that announce the addresses of the adapter.
unfoldable pub announce_addresses : Option Adapter → Machine → Machine
announce_addresses none c = c
announce_addresses (some a) c = record c {
  calls =
      set_current_address a.current_address ∷ set_permanent_address a.permanent_address ∷ c.calls;
}

-- MtkAdapterSetDatapathCapabilities.
abbrev pub tx_capabilities : TxCapabilities
tx_capabilities = record {
  maximum_number_of_queues = 1;
  fragment_ring_hint = min_tcb * max_phys_buf_count;
  maximum_number_of_fragments = max_phys_buf_count;
}

abbrev pub rx_capabilities : RxCapabilities
rx_capabilities = record {
  maximum_frame_size = rx_buffer_size;
  maximum_number_of_queues = 1;
  fragment_ring_hint = 32;
}

-- MtkAdapterStart.
abbrev pub start_adapter : Framework → Machine → Status × Machine
start_adapter fw = function (
    note (set_link_layer_capabilities media_max_speed media_max_speed)
    ∷ note (set_link_layer_mtu 2304)
    ∷ act (λ c. record c { adapter = through write_addresses c.adapter })
    ∷ act (λ c. announce_addresses c.adapter c)
    ∷ note (set_datapath_capabilities tx_capabilities rx_capabilities)
    ∷ note set_wake_capabilities
    ∷ require fw adapter_start
    ∷ [])

-- The link state at the start, and that of EvtDeviceD0Exit: NDIS_LINK_SPEED_UNKNOWN is -1 as a ULONG64.
abbrev pub first_link_state : LinkState
first_link_state = record {
  link_speed = 54000000;
  connection = disconnected;
  duplex = full;
  pause = unsupported;
}

abbrev pub unknown_link_state : LinkState
unknown_link_state = record {
  link_speed = 2 ^ 64 - 1;
  connection = connection_unknown;
  duplex = duplex_unknown;
  pause = pause_unknown;
}

-- WDI_INDICATION_OPEN_COMPLETE, sent if its memory is there. `port` is WDI_PORT_ID_ADAPTER.
unfoldable pub fire_open_complete : System → ℕ → Driver → Driver
fire_open_complete sys port d =
    let status = sys.memory_create d.memory_calls sys.header_size in
    let d' : Driver = record d { memory_calls = d.memory_calls + 1 } in
    let header : Header = record {
      port_id = port;
      reserved = 0;
      status = success;
      transaction_id = 0;
      ihv_specific_id = 0;
    } in
    if nt_success status
    then emit (indicated open_complete (record { header = header; tlv = [] })) d'
    else d'

-- GOTO_WITH_INSUFFICIENT_RESOURCES_IF_NULL on `AdapterInit`.
abbrev pub check_not_null : Bool → Action
check_not_null present = check (λ c. (if present then success else insufficient_resources, c))

abbrev pub creation : Framework → System → ℕ → Bool → List Action
creation fw sys port adapter_init =
    check_not_null adapter_init
    ∷ note set_datapath_callbacks
    ∷ note (add_tx_peer_demux 1)
    ∷ require fw adapter_create
    ∷ require fw adapter_initialize
    ∷ act (λ c. record c { adapter = some zero_adapter })
    ∷ check (initialize_adapter_context fw)
    ∷ note (set_link_state first_link_state)
    ∷ check (start_adapter fw)
    ∷ act (λ c. record c { driver = fire_open_complete sys port c.driver })
    ∷ []

-- EvtWiFiDeviceCreateAdapter.
unfoldable pub create_adapter : Framework → System → ℕ → Bool → Machine → Status × Machine
create_adapter fw sys port adapter_init = function (creation fw sys port adapter_init)

-- EvtWiFiDeviceSendCommand, whose other calls only feed its trace.
unfoldable pub send_command : System → ChipOps → Request → Machine → Machine
send_command sys ops r c = record c { driver = dispatch sys ops r c.driver }

-- EvtWifiDeviceCreateWiFiDirectDevice.
unfoldable pub create_wifi_direct_device : Machine → Status × Machine
create_wifi_direct_device c = (not_supported, c)

-- WDF_POWER_DEVICE_STATE, as far as the source tells its values apart.
pub data PowerState : Type 0 where
  d3_final other_state : PowerState

-- EvtDeviceD0Entry.
unfoldable pub d0_entry : PowerState → Machine → Status × Machine
d0_entry previous c = (success, c)

-- The change of the link state in EvtDeviceD0Exit; `none` is the access through a null `Adapter`.
unfoldable pub leave_d0 : Option Adapter → Machine → Option (Status × Machine)
leave_d0 none c = none
leave_d0 (some a) c =
    some (success, record c { calls = set_link_state unknown_link_state ∷ c.calls })

-- EvtDeviceD0Exit.
unfoldable pub d0_exit : PowerState → Machine → Option (Status × Machine)
unfolding leave_d0
d0_exit d3_final c = some (success, c)
d0_exit other_state c = leave_d0 c.adapter c
