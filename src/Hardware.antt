-- ===== src/Hardware.antt =====
-- device.cpp: MtkInitializeHardware, EvtDevicePrepareHardware and EvtDeviceReleaseHardware, with
-- WdiScanCacheDestroy (wdi_scan_cache.cpp). The registry values that MtkInitializeHardware reads are
-- traced only.
pub mod Announced
pub mod Bringup
pub mod Channels
pub mod Chip
pub mod Memory
pub mod Work
pub mod Life
use wificx_skeleton.Prelude.{
  ℕ, ◌+◌, ◌-◌, Bool, true, false, List, [], ◌∷◌, ◌++◌, Option, none, some, if◌then◌else◌,
}
use wificx_skeleton.Platform.{Status, success, nt_success}
use wificx_skeleton.Platform.System.{System}
use wificx_skeleton.ScanCache.{ScanCache, create}
use wificx_skeleton.Device.{
  free_block, Driver, WorkItem, scan_work, reset_work, radio_work, connect_work, disconnect_work,
  ChipOps,
}
use wificx_skeleton.Framework.{
  Machine, Framework, Action, check, act, function, perform, require, set_device_capabilities,
  set_station_capabilities, set_band_capabilities, set_phy_capabilities,
  set_wifi_direct_capabilities, work_item_create, pool_free, chip_init, chip_deinit,
}
use Announced.{
  device_capabilities, station_capabilities, band_info, phy_info, wifi_direct_capabilities,
}

-- `RadioOn` and `OsWdiVersion`.
abbrev pub switch_on : System → Machine → Machine
switch_on sys c = record c {
  driver = record (c.driver) { radio_on = true; os_wdi_version = sys.os_wdi_version };
}

-- WdiScanCacheCreate of 32 entries into `ScanCache`, which a failure sets to NULL.
unfoldable pub create_cache : System → Machine → Status × Machine
create_cache sys c =
    let allocated = sys.allocates c.driver.pool_calls in
    let (status, cache) = create 32 allocated in
    (
      status,
      record c {
        driver = record (c.driver) {
          scan_cache = cache;
          pool_calls = c.driver.pool_calls + 1;
          pool_blocks =
              if nt_success status then c.driver.pool_blocks + 1 else c.driver.pool_blocks;
        };
      },
    )

abbrev pub install_ops : Machine → Machine
install_ops c = record c { driver = record (c.driver) { chip_installed = true } }

-- `ChipOps->Init`.
abbrev pub call_init : ChipOps → Machine → Status × Machine
call_init ops c =
    let (status, d) = ops.init c.driver in
    (status, record c { driver = d; calls = chip_init ∷ c.calls })

module _ (fw : Framework) where
  -- WdfWorkItemCreate, which sets the handle when it succeeds.
  abbrev pub create_work_item : WorkItem → Machine → Status × Machine
  create_work_item w c =
      let (status, c') = perform fw (work_item_create w) c in
      (
        status,
        record c' { work_items = if nt_success status then w ∷ c.work_items else c.work_items },
      )

  abbrev pub announcements : List Action
  announcements =
      require fw (set_device_capabilities device_capabilities)
      ∷ require fw (set_station_capabilities station_capabilities)
      ∷ require fw (set_band_capabilities band_info)
      ∷ require fw (set_phy_capabilities phy_info)
      ∷ require fw (set_wifi_direct_capabilities wifi_direct_capabilities)
      ∷ []

  abbrev pub work_item_creations : List Action
  work_item_creations =
      check (create_work_item scan_work)
      ∷ check (create_work_item reset_work)
      ∷ check (create_work_item radio_work)
      ∷ check (create_work_item connect_work)
      ∷ check (create_work_item disconnect_work)
      ∷ []

  -- Its parts, in the order of the source.
  abbrev pub initialization : System → ChipOps → List Action
  initialization sys ops =
      announcements
      ++ work_item_creations
      ++ act (switch_on sys)
        ∷ check (create_cache sys)
        ∷ act install_ops
        ∷ check (call_init ops)
        ∷ []

  unfoldable pub initialize_hardware : System → ChipOps → Machine → Status × Machine
  initialize_hardware sys ops = function (initialization sys ops)

  unfoldable pub prepare_hardware : System → ChipOps → Machine → Status × Machine
  prepare_hardware sys ops = function (check (initialize_hardware sys ops) ∷ [])

-- `ChipOps->Deinit`, where it is not NULL.
abbrev pub call_deinit_op : Option (Driver → Driver) → Machine → Machine
call_deinit_op none c = c
call_deinit_op (some deinit) c = record c {
  driver = deinit c.driver;
  calls = chip_deinit ∷ c.calls;
}

unfoldable pub call_deinit : ChipOps → Machine → Machine
call_deinit ops c = if c.driver.chip_installed then call_deinit_op ops.deinit c else c

-- WdiScanCacheDestroy.
unfoldable pub destroy : Option ScanCache → Machine → Machine
destroy none c = c
destroy (some cache) c = record c { driver = free_block c.driver; calls = pool_free ∷ c.calls }

-- The release of the scan cache, from the test of the pointer on.
unfoldable pub release_cache : Option ScanCache → Machine → Machine
unfolding destroy
release_cache none c = c
release_cache (some cache) c =
    let c' = destroy (some cache) c in
    record c' { driver = record (c'.driver) { scan_cache = none } }

unfoldable pub release_hardware : ChipOps → Machine → Status × Machine
unfolding call_deinit release_cache
release_hardware ops c =
    let c' = call_deinit ops c in (success, release_cache c'.driver.scan_cache c')
