-- ===== src/Hardware/Bringup.antt =====
-- MtkInitializeHardware and EvtDevicePrepareHardware: when they succeed, and what they leave.
use mathlib.Core.Bool.{and_assoc, and-true}
use wificx_skeleton.Prelude.{
  ◌+◌, ◌≡◌, refl, ap, ◌∙◌, Bool, true, ◌&&◌, Bool-cases, inl, inr, if◌then◌else◌, List, [], ◌∷◌,
  ◌++◌, none, some, Option, arith,
}
use wificx_skeleton.Platform.{nt_success}
use wificx_skeleton.Platform.System.{System}
use wificx_skeleton.ScanCache.{create, empty_cache}
use wificx_skeleton.Device.{
  WorkItem, scan_work, reset_work, radio_work, connect_work, disconnect_work, ChipOps,
}
use wificx_skeleton.Framework.{
  Call, Machine, Framework, Action, check, act, perform, set_device_capabilities,
  set_station_capabilities, set_band_capabilities, set_phy_capabilities,
  set_wifi_direct_capabilities, work_item_create,
}
use wificx_skeleton.Framework.Chains.{
  Step, require_step, Matches, Follows, Follows-append, passes, after, ◌before◌, ends, function_lem,
  function-check, succeeded, check-Matches, act-Matches,
}
use wificx_skeleton.Hardware.{
  switch_on, create_cache, install_ops, call_init, create_work_item, announcements,
  work_item_creations, initialization, initialize_hardware, prepare_hardware,
}
use wificx_skeleton.Hardware.Announced.{
  device_capabilities, station_capabilities, band_info, phy_info, wifi_direct_capabilities,
}

-- The calls of the framework that a bring-up makes, the last one first.
abbrev pub work_item_calls : List Call
work_item_calls =
    work_item_create disconnect_work
    ∷ work_item_create connect_work
    ∷ work_item_create radio_work
    ∷ work_item_create reset_work
    ∷ work_item_create scan_work
    ∷ []

abbrev pub capability_calls : List Call
capability_calls =
    set_wifi_direct_capabilities wifi_direct_capabilities
    ∷ set_phy_capabilities phy_info
    ∷ set_band_capabilities band_info
    ∷ set_station_capabilities station_capabilities
    ∷ set_device_capabilities device_capabilities
    ∷ []

abbrev pub bring_up_calls : List Call
bring_up_calls = work_item_calls ++ capability_calls

-- Whether the framework answers each call with a status of success, the calls listed last first.
unfoldable pub answers_all : Framework → List Call → List Call → Bool
answers_all fw [] calls = true
answers_all fw (call ∷ earlier) calls =
    answers_all fw earlier calls && nt_success (fw.answer (earlier ++ calls) call)

-- The device as the chip's `Init` finds it.
abbrev pub before_init : System → Machine → Machine
before_init sys c = record c {
  driver = record (c.driver) {
    chip_installed = true;
    scan_cache = some (empty_cache 32);
    radio_on = true;
    os_wdi_version = sys.os_wdi_version;
    pool_calls = c.driver.pool_calls + 1;
    pool_blocks = c.driver.pool_blocks + 1;
  };
  work_items = disconnect_work ∷ connect_work ∷ radio_work ∷ reset_work ∷ scan_work ∷ c.work_items;
  calls = bring_up_calls ++ c.calls;
}

module _ (fw : Framework) where
  abbrev work_item_step : WorkItem → Step
  work_item_step w = (
    (λ c. nt_success (fw.answer c.calls (work_item_create w))),
    (λ c. record c { work_items = w ∷ c.work_items; calls = work_item_create w ∷ c.calls }),
  )

  abbrev cache_step : System → Step
  cache_step sys = (
    (λ c. sys.allocates c.driver.pool_calls),
    (λ c. record c {
      driver = record (c.driver) {
        scan_cache = some (empty_cache 32);
        pool_calls = c.driver.pool_calls + 1;
        pool_blocks = c.driver.pool_blocks + 1;
      };
    }),
  )

  abbrev init_step : ChipOps → Step
  init_step ops = ((λ c. nt_success (call_init ops c).0), (λ c. (call_init ops c).1))

  -- Everything before the call of `Init`.
  abbrev pub setup_plan : System → List Step
  setup_plan sys =
      require_step fw (set_device_capabilities device_capabilities)
      ∷ require_step fw (set_station_capabilities station_capabilities)
      ∷ require_step fw (set_band_capabilities band_info)
      ∷ require_step fw (set_phy_capabilities phy_info)
      ∷ require_step fw (set_wifi_direct_capabilities wifi_direct_capabilities)
      ∷ work_item_step scan_work
      ∷ work_item_step reset_work
      ∷ work_item_step radio_work
      ∷ work_item_step connect_work
      ∷ work_item_step disconnect_work
      ∷ ((λ c. true), switch_on sys)
      ∷ cache_step sys
      ∷ ((λ c. true), install_ops)
      ∷ []

  abbrev pub setup : System → List Action
  setup sys =
      announcements fw
      ++ work_item_creations fw
      ++ act (switch_on sys) ∷ check (create_cache sys) ∷ act install_ops ∷ []

  abbrev plan : System → ChipOps → List Step
  plan sys ops = setup_plan sys ++ init_step ops ∷ []

  work_item-Matches : (w : WorkItem) → Matches (check (create_work_item fw w)) (work_item_step w)
  work_item-Matches w s c = (refl, (λ _. refl), (λ ok. rw ok refl))

  cache-Matches : (sys : System) → Matches (check (create_cache sys)) (cache_step sys)
  unfolding create_cache create
  cache-Matches sys s c = elim (Bool-cases (sys.allocates c.driver.pool_calls)) [
    | inl ok ↦ rw ok (refl, (λ _. refl), (λ _. refl))
    | inr fails ↦ rw fails (refl, (λ _. refl), (λ e. ground arith))
  ]

  pub setup-Follows : (sys : System) → Follows (setup sys) (setup_plan sys)
  setup-Follows sys =
      check-Matches (perform fw (set_device_capabilities device_capabilities))
      before check-Matches (perform fw (set_station_capabilities station_capabilities))
      before check-Matches (perform fw (set_band_capabilities band_info))
      before check-Matches (perform fw (set_phy_capabilities phy_info))
      before check-Matches (perform fw (set_wifi_direct_capabilities wifi_direct_capabilities))
      before work_item-Matches scan_work
      before work_item-Matches reset_work
      before work_item-Matches radio_work
      before work_item-Matches connect_work
      before work_item-Matches disconnect_work
      before act-Matches (switch_on sys)
      before cache-Matches sys
      before act-Matches install_ops
      before ends

  initialization-Follows :
      (sys : System) (ops : ChipOps) → Follows (initialization fw sys ops) (plan sys ops)
  initialization-Follows sys ops =
      Follows-append (setup sys) (setup_plan sys) (setup-Follows sys)
        (check-Matches (call_init ops) before ends)

  -- The framework and the memory suffice for everything before `Init`.
  pub setup-passes :
      (sys : System) (c : Machine)
      → passes (setup_plan sys) c
        ≡ (answers_all fw bring_up_calls c.calls && sys.allocates c.driver.pool_calls)
  unfolding passes answers_all
  setup-passes sys c = simp (and_assoc, and-true)

  plan-passes :
      (sys : System) (ops : ChipOps) (c : Machine)
      → passes (plan sys ops) c ≡ (
          answers_all fw bring_up_calls c.calls
          && sys.allocates c.driver.pool_calls
          && nt_success (ops.init (before_init sys c).driver).0)
  unfolding passes answers_all
  plan-passes sys ops c = simp (and_assoc, and-true)

-- What a bring-up should do: it succeeds where the framework answers each of the ten calls with success,
-- the memory of the scan cache is there, and `Init` succeeds on the device brought up so far.
unfoldable pub bring_up : Framework → System → ChipOps → Machine → Option Machine
bring_up fw sys ops c =
    let ready = before_init sys c in
    if answers_all fw bring_up_calls c.calls
      && sys.allocates c.driver.pool_calls
      && nt_success (ops.init ready.driver).0
    then some (call_init ops ready).1
    else none

initialize_hardware_lem :
    (fw : Framework) (sys : System) (ops : ChipOps) (c : Machine)
    → succeeded (initialize_hardware fw sys ops c)
      ≡ (if passes (plan fw sys ops) c then some (call_init ops (before_init sys c)).1 else none)
unfolding initialize_hardware after
initialize_hardware_lem fw sys ops c =
    function_lem (initialization fw sys ops) (plan fw sys ops) (initialization-Follows fw sys ops) c

-- EvtDevicePrepareHardware returns a status of success exactly where the framework answers its ten calls
-- with success, the memory of the scan cache is there, and the chip's Init succeeds on the device brought
-- up so far. It then leaves the device that `bring_up` gives: the capabilities announced and the five
-- workitems made in this order, the radio on, an empty cache of 32 entries, the ops installed, and what
-- Init did to it.
pub prepare_hardware-bring_up :
    (fw : Framework) (sys : System) (ops : ChipOps) (c : Machine)
    → succeeded (prepare_hardware fw sys ops c) ≡ bring_up fw sys ops c
unfolding prepare_hardware bring_up
prepare_hardware-bring_up fw sys ops c =
    ap succeeded (function-check (initialize_hardware fw sys ops) c)
    ∙ initialize_hardware_lem fw sys ops c
    ∙ rw (plan-passes fw sys ops c) refl
