-- ===== src/Tests/BringUp.antt =====
-- A device that comes up, works and goes down.
use wificx_skeleton.Prelude.{
  ◌+◌, ◌≡◌, inl, arith, refl, sym, ap, subst, true, List, [], ◌∷◌, none, some, if◌then◌else◌,
}
use mathlib.Core.List.Memᴰ.{head}
use wificx_skeleton.Platform.{success, unsuccessful, nt_success, task_scan, task_disconnect}
use wificx_skeleton.TaskQueue.{new_queue}
use wificx_skeleton.ScanCache.{zero_entry, create}
use wificx_skeleton.Device.Effects.{Keeps, Keeps-refl}
use wificx_skeleton.FakeChip.{fake_ops, fake_init, fake_deinit}
use wificx_skeleton.Frame.{band_2400}
use wificx_skeleton.FakeChip.Contract.{
  fake_ops-IsBackend, fake_ops-IsLocal, fake_ops-init, fake_ops-deinit,
}
use wificx_skeleton.WorkItems.Completing.{completion}
use wificx_skeleton.WorkItems.{bss_entry}
use wificx_skeleton.Framework.{Machine, Framework, chain}
use wificx_skeleton.Framework.Chains.{succeeded}
use wificx_skeleton.Hardware.{
  call_init, create_cache, initialize_hardware, prepare_hardware, release_hardware,
}
use wificx_skeleton.Hardware.Bringup.{answers_all, before_init, bring_up, prepare_hardware-bring_up}
use wificx_skeleton.Hardware.Life.{Stretch}
use wificx_skeleton.Hardware.Chip.{
  inits, deinits, release_hardware-prepare_hardware, deinit_without_init,
}
use wificx_skeleton.Hardware.Channels.{bss_entry-band_info}
use wificx_skeleton.DriverEntry.{
  driver_entry, evt_driver_unload, new_context, evt_driver_device_add,
}
use wificx_skeleton.DriverEntry.Traces.{open_registrations, open_registrations-driver_entry}
use wificx_skeleton.DriverEntry.Boot.{added, boot}
use wificx_skeleton.DriverEntry.Start.{start, accounted-session-start, settled-session-start}
use wificx_skeleton.Adapter.{create_adapter, create_lock, fire_open_complete, announce_addresses}
use wificx_skeleton.Device.{scan_work, reset_work, disconnect_work}
use wificx_skeleton.WorkItems.Kinds.{waiting, due_of, completed_of, work_item}
use wificx_skeleton.Sessions.{issue, run, session}
use wificx_skeleton.Tests.{system, ops, stack_buffer, driver, command}

-- A framework that answers every call with success, and one that refuses every call.
abbrev pub granting : Framework
granting = record { answer = λ calls call. success }

abbrev pub refusing : Framework
refusing = record { answer = λ calls call. unsuccessful }

abbrev pub machine : Machine
machine = record { driver = driver; fx_device = true; adapter = none; work_items = []; calls = [] }

prepare_hardware-bring_up_example :
    succeeded (prepare_hardware granting system ops machine) ≡ bring_up granting system ops machine
prepare_hardware-bring_up_example = prepare_hardware-bring_up granting system ops machine

-- A bring-up that succeeds, with a scan, and one that is refused at once.
abbrev stretches : List Stretch
stretches =
    record {
      framework = granting;
      system = system;
      turns = issue (command task_scan) ∷ run scan_work 4 ∷ [];
    }
    ∷ record { framework = refusing; system = system; turns = [] }
    ∷ []

release_hardware-prepare_hardware_example :
    (inits (release_hardware ops (prepare_hardware granting system ops machine).1).1.calls ≡ 1)
    × (deinits (release_hardware ops (prepare_hardware granting system ops machine).1).1.calls ≡ 1)
unfolding answers_all
release_hardware-prepare_hardware_example =
    release_hardware-prepare_hardware granting system ops fake_deinit machine
      (fake_ops-deinit system stack_buffer stack_buffer)
      (ap (λ x. x.1.chip_installed) (fake_ops-init system stack_buffer stack_buffer _)) refl refl

deinit_without_init_example :
    (inits (release_hardware ops (prepare_hardware refusing system ops machine).1).1.calls ≡ 0)
    × (deinits (release_hardware ops (prepare_hardware refusing system ops machine).1).1.calls ≡ 1)
deinit_without_init_example =
    deinit_without_init refusing system ops fake_deinit machine
      (fake_ops-deinit system stack_buffer stack_buffer) refl refl

-- A network on channel 1 of the 2.4 GHz band.
bss_entry-band_info_example :
    let e = record (zero_entry) { frequency_mhz = 2412 } in
    ((bss_entry e).channel_number ≡ 1) × ((bss_entry e).band ≡ band_2400)
bss_entry-band_info_example =
    bss_entry-band_info _ (record { channel_number = 1; frequency_mhz = 2412 })
      (record (zero_entry) { frequency_mhz = 2412 }) (head refl) (head refl) refl

open_registrations-driver_entry_example :
    let (status, c') = driver_entry granting machine in
    (open_registrations granting c'.calls ≡ (
      if nt_success status
      then open_registrations granting [] + 1
      else open_registrations granting []))
    × (open_registrations granting (if nt_success status then evt_driver_unload c' else c').calls
        ≡ open_registrations granting [])
open_registrations-driver_entry_example = open_registrations-driver_entry granting machine

-- The device that has started, with its adapter.
abbrev up : Machine
up =
    (create_adapter granting system 0xffff true
      (call_init ops (before_init system (added machine))).1).1

started : start granting system ops 0xffff machine ≡ some up
unfolding start boot evt_driver_device_add prepare_hardware initialize_hardware chain create_cache
    create create_adapter create_lock fake_ops fake_init
started = refl

accounted-session-start_example :
    let ts = issue (command task_scan) ∷ run reset_work 4 ∷ run scan_work 4 ∷ [] in
    due_of scan_work (session system ops ts up.driver) ≡ completion 2 8 ∷ []
unfolding fake_ops fake_init new_context new_queue create_adapter create_lock chain
    fire_open_complete announce_addresses
accounted-session-start_example =
    accounted-session-start granting system ops 0xffff scan_work
      (issue (command task_scan) ∷ run reset_work 4 ∷ run scan_work 4 ∷ []) machine up (inl refl)
      (fake_ops-IsBackend system stack_buffer stack_buffer)
      (fake_ops-IsLocal system stack_buffer stack_buffer)
      (λ d.
        subst (λ x. Keeps d x.1) (sym (fake_ops-init system stack_buffer stack_buffer d))
          (Keeps-refl d))
      refl started

settled-session-start_example :
    let ts = issue (command task_disconnect) ∷ run reset_work 4 ∷ run scan_work 4 ∷ [] in
    let d' = work_item system ops disconnect_work 16 (session system ops ts up.driver) in
    (waiting disconnect_work d' ≡ []) × (completed_of disconnect_work d' ≡ completion 2 8 ∷ [])
unfolding fake_ops fake_init new_context new_queue create_adapter create_lock chain
    fire_open_complete announce_addresses
settled-session-start_example =
    settled-session-start granting system ops 0xffff disconnect_work
      (issue (command task_disconnect) ∷ run reset_work 4 ∷ run scan_work 4 ∷ []) 16 machine up
      (λ call size. refl) (fake_ops-IsBackend system stack_buffer stack_buffer)
      (fake_ops-IsLocal system stack_buffer stack_buffer)
      (λ d.
        subst (λ x. Keeps d x.1) (sym (fake_ops-init system stack_buffer stack_buffer d))
          (Keeps-refl d))
      refl started (omega arith)
