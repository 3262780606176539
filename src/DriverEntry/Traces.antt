-- ===== src/DriverEntry/Traces.antt =====
-- DriverEntry and EvtDriverUnload: the registration of the trace provider.
use wificx_skeleton.Prelude.{
  ℕ, ◌+◌, ◌-◌, ◌≡◌, refl, inl, inr, Bool-cases, if◌then◌else◌, List, [], ◌∷◌, arith,
}
use wificx_skeleton.Platform.{nt_success}
use wificx_skeleton.Framework.{
  Call, Machine, Framework, trace_register, driver_create, trace_unregister,
}
use wificx_skeleton.DriverEntry.{exit_entry, driver_entry, evt_driver_unload}

-- The registrations of the trace provider that are not undone yet: the successful ones less the
-- TraceLoggingUnregisters.
pub open_registrations : Framework → List Call → ℕ
open_registrations fw [] = 0
open_registrations fw (trace_register ∷ calls) =
    if nt_success (fw.answer calls trace_register)
    then open_registrations fw calls + 1
    else open_registrations fw calls
open_registrations fw (trace_unregister ∷ calls) = open_registrations fw calls - 1
open_registrations fw (_ ∷ calls) = open_registrations fw calls

-- DriverEntry leaves the trace provider registered exactly if it succeeds: once more than before, and
-- EvtDriverUnload undoes it. Where it fails the number of open registrations is that of before, whichever
-- of its two calls failed.
pub open_registrations-driver_entry :
    (fw : Framework) (c : Machine)
    → let (status, c') = driver_entry fw c in
      (open_registrations fw c'.calls ≡ (
        if nt_success status
        then open_registrations fw c.calls + 1
        else open_registrations fw c.calls))
      × (open_registrations fw (if nt_success status then evt_driver_unload c' else c').calls
          ≡ open_registrations fw c.calls)
unfolding driver_entry exit_entry evt_driver_unload open_registrations
open_registrations-driver_entry fw c =
    elim (Bool-cases (nt_success (fw.answer c.calls trace_register))) [
      | inl ok ↦
          elim (Bool-cases (nt_success (fw.answer (trace_register ∷ c.calls) driver_create))) [
            | inl created ↦ rw (ok, created) (rw ok (refl, omega arith))
            | inr refused ↦ rw (ok, refused) (ground arith)
          ]
      | inr fails ↦ rw fails (ground arith)
    ]
