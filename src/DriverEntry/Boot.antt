-- ===== src/DriverEntry/Boot.antt =====
-- A new device that starts: EvtDriverDeviceAdd, then EvtDevicePrepareHardware.
use mathlib.Core.Option.{none-ne-some}
use wificx_skeleton.Prelude.{◌≡◌, refl, sym, ap, ◌∙◌, List, [], ◌∷◌, Option, none, some}
use wificx_skeleton.Platform.{nt_success}
use wificx_skeleton.Platform.System.{System}
use wificx_skeleton.Device.{ChipOps}
use wificx_skeleton.Framework.{
  Machine, Framework, check, perform, net_device_init_config, wifi_device_init_config,
  set_pnp_power_callbacks, device_create, set_alignment_requirement, assign_idle_settings,
  wifi_device_initialize,
}
use wificx_skeleton.Framework.Chains.{
  Step, require_step, note_step, Matches, Follows, ◌before◌, ends, check-Matches, act-Matches,
  passes, after, function_lem, if-some, succeeded,
}
use wificx_skeleton.Hardware.{call_init, prepare_hardware}
use wificx_skeleton.Hardware.Bringup.{before_init, bring_up, prepare_hardware-bring_up}
use wificx_skeleton.DriverEntry.{new_machine, create_device, addition, evt_driver_device_add}

-- The device after a successful addition.
abbrev pub added : Machine → Machine
added c = record (new_machine c) {
  calls =
      wifi_device_initialize ∷ assign_idle_settings ∷ set_alignment_requirement ∷ device_create
      ∷ set_pnp_power_callbacks ∷ wifi_device_init_config ∷ net_device_init_config ∷ c.calls;
}

module _ (fw : Framework) where
  abbrev create_step : Step
  create_step = (
    (λ c. nt_success (fw.answer c.calls device_create)),
    (λ c. new_machine (record c { calls = device_create ∷ c.calls })),
  )

  abbrev plan : List Step
  plan =
      require_step fw net_device_init_config
      ∷ require_step fw wifi_device_init_config
      ∷ note_step set_pnp_power_callbacks
      ∷ create_step
      ∷ note_step set_alignment_requirement
      ∷ require_step fw assign_idle_settings
      ∷ require_step fw wifi_device_initialize
      ∷ []

  create-Matches : Matches (check (create_device fw)) create_step
  create-Matches s c = (refl, (λ _. refl), (λ ok. rw ok refl))

  addition-Follows : Follows (addition fw) plan
  addition-Follows =
      check-Matches (perform fw net_device_init_config)
      before check-Matches (perform fw wifi_device_init_config)
      before act-Matches (λ c. record c { calls = set_pnp_power_callbacks ∷ c.calls })
      before create-Matches
      before act-Matches (λ c. record c { calls = set_alignment_requirement ∷ c.calls })
      before check-Matches (perform fw assign_idle_settings)
      before check-Matches (perform fw wifi_device_initialize)
      before ends

  -- Where EvtDriverDeviceAdd succeeds it leaves the new device with its seven calls made.
  evt_driver_device_add_lem :
      (c m : Machine) → succeeded (evt_driver_device_add fw c) ≡ some m → m ≡ added c
  unfolding evt_driver_device_add after
  evt_driver_device_add_lem c m e =
      (if-some (passes plan c) (added c) m
        (sym (function_lem (addition fw) plan addition-Follows c) ∙ e)).1

-- EvtDevicePrepareHardware of a device that was added.
abbrev prepared : Framework → System → ChipOps → Option Machine → Option Machine
prepared fw sys ops none = none
prepared fw sys ops (some m) = succeeded (prepare_hardware fw sys ops m)

-- EvtDriverDeviceAdd and, where it succeeds, EvtDevicePrepareHardware: the device if both succeed.
unfoldable pub boot : Framework → System → ChipOps → Machine → Option Machine
boot fw sys ops c = prepared fw sys ops (succeeded (evt_driver_device_add fw c))

prepared_lem :
    (fw : Framework) (sys : System) (ops : ChipOps) (o : Option Machine) (a m : Machine)
    → ((x : Machine) → o ≡ some x → x ≡ a)
    → prepared fw sys ops o ≡ some m
    → m ≡ (call_init ops (before_init sys a)).1
unfolding bring_up
prepared_lem fw sys ops none a m only e = absurd (none-ne-some m e)
prepared_lem fw sys ops (some x) a m only e =
    (if-some _ _ m (sym (prepare_hardware-bring_up fw sys ops x) ∙ e)).1
    ∙ ap (λ y. (call_init ops (before_init sys y)).1) (only x refl)

-- A successful boot leaves what the chip's `Init` makes of the zeroed context, with the radio on and an
-- empty scan cache.
pub boot_lem :
    (fw : Framework) (sys : System) (ops : ChipOps) (c m : Machine)
    → boot fw sys ops c ≡ some m
    → m ≡ (call_init ops (before_init sys (added c))).1
unfolding boot
boot_lem fw sys ops c m e =
    prepared_lem fw sys ops (succeeded (evt_driver_device_add fw c)) (added c) m
      (evt_driver_device_add_lem fw c) e
