-- ===== src/DriverEntry.antt =====
-- driver.cpp: DriverEntry, EvtDriverUnload and EvtDriverDeviceAdd.
pub mod Traces
pub mod Boot
pub mod Start
use wificx_skeleton.Prelude.{ℕ, Bool, true, false, not, ◌&&◌, List, [], ◌∷◌, none, if◌then◌else◌}
use wificx_skeleton.Platform.{Status, success, nt_success}
use wificx_skeleton.TaskQueue.{new_queue}
use wificx_skeleton.Device.{Driver}
use wificx_skeleton.WorkItems.{zero_task, zero_scan_task, zero_radio_task, zero_connect_task}
use wificx_skeleton.Framework.{
  Machine, Framework, Action, check, function, note, perform, require, trace_register,
  driver_create, trace_unregister, net_device_init_config, wifi_device_init_config,
  set_pnp_power_callbacks, device_create, set_alignment_requirement, assign_idle_settings,
  wifi_device_initialize,
}

-- The code behind the label Exit of DriverEntry.
unfoldable pub exit_entry : Bool → Status × Machine → Status × Machine
exit_entry trace_logging_registered (status, c) = (
  status,
  if trace_logging_registered && not (nt_success status)
      then record c { calls = trace_unregister ∷ c.calls }
      else c,
)

unfoldable pub driver_entry : Framework → Machine → Status × Machine
unfolding exit_entry
driver_entry fw c =
    let (status, c') = perform fw trace_register c in
    if nt_success status
    then exit_entry true (perform fw driver_create c')
    else exit_entry false (status, c')

unfoldable pub evt_driver_unload : Machine → Machine
evt_driver_unload c = record c { calls = trace_unregister ∷ c.calls }

-- The zeroed context of a new device; the globals and the surroundings stay.
unfoldable pub new_context : Driver → Driver
new_context d = record d {
  chip_installed = false;
  scan_cache = none;
  adapter_opened = false;
  radio_on = false;
  os_wdi_version = 0;
  active_scan_transaction_id = 0;
  active_scan_port_id = 0;
  scan_queue = new_queue 16 zero_scan_task;
  reset_queue = new_queue 16 zero_task;
  radio_queue = new_queue 16 zero_radio_task;
  connect_port_id = 0;
  connect_txn_id = 0;
  connect_queue = new_queue 8 zero_connect_task;
  disconnect_queue = new_queue 8 zero_task;
}

abbrev pub new_machine : Machine → Machine
new_machine c = record c {
  driver = new_context c.driver;
  fx_device = true;
  adapter = none;
  work_items = [];
}

module _ (fw : Framework) where
  -- WdfDeviceCreate, and the assignment of `FxDevice` after it.
  abbrev pub create_device : Machine → Status × Machine
  create_device c =
      let (status, c') = perform fw device_create c in
      (status, if nt_success status then new_machine c' else c')

  abbrev pub addition : List Action
  addition =
      require fw net_device_init_config
      ∷ require fw wifi_device_init_config
      ∷ note set_pnp_power_callbacks
      ∷ check create_device
      ∷ note set_alignment_requirement
      ∷ require fw assign_idle_settings
      ∷ require fw wifi_device_initialize
      ∷ []

  unfoldable pub evt_driver_device_add : Machine → Status × Machine
  evt_driver_device_add = function addition
