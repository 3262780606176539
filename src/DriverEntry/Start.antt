-- ===== src/DriverEntry/Start.antt =====
-- From a new device with its adapter to its sessions: the driver starts, then come commands and workitems.
use mathlib.Core.Option.{none-ne-some}
use wificx_skeleton.Prelude.{
  ℕ, ◌≤◌, ◌==◌, false, length-replicate, map, ◌≡◌, refl, sym, ap, subst, ◌∙◌, true, List, [], ◌++◌,
  Option, none, some, arith,
}
use wificx_skeleton.Platform.{nt_success, open_complete}
use wificx_skeleton.Platform.System.{System}
use wificx_skeleton.TaskQueue.{new_queue}
use wificx_skeleton.TaskQueue.Counters.{IsValid}
use wificx_skeleton.Device.{
  Driver, ChipOps, WorkItem, scan_work, reset_work, radio_work, connect_work, disconnect_work,
}
use wificx_skeleton.TaskQueue.Fifo.{contents}
use wificx_skeleton.Device.Effects.{code, Keeps, IsBackend, IsLocal}
use wificx_skeleton.WorkItems.Kinds.{
  size_of, zero_of, reply_of, completion_of, queue_of, waiting, due_of, completed_of, work_item,
}
use wificx_skeleton.WorkItems.Conservation.{IsLossless}
use wificx_skeleton.Sessions.{Turn, session}
use wificx_skeleton.Sessions.Runs.{ledger, Keeps-ledger, indicate-ledger}
use wificx_skeleton.Sessions.Accounts.{all_admitted, accounted-session}
use wificx_skeleton.Sessions.Completion.{settled-session}
use wificx_skeleton.Framework.{Machine, Framework}
use wificx_skeleton.Framework.Chains.{succeeded, if-some}
use wificx_skeleton.Hardware.Bringup.{before_init}
use wificx_skeleton.Adapter.{create_adapter}
use wificx_skeleton.Adapter.Creation.{created, create_adapter-created}
use wificx_skeleton.DriverEntry.{new_context}
use wificx_skeleton.DriverEntry.Boot.{added, boot, boot_lem}

-- The queues of a zeroed context.
new_queue-IsValid : (k : WorkItem) → IsValid (size_of k) (new_queue (size_of k) (zero_of k))
unfolding new_queue
new_queue-IsValid k = record {
  head_long = omega arith;
  tail_long = omega arith;
  bounded = omega arith;
  memory = length-replicate (size_of k) (zero_of k);
}

new_queue-contents :
    (k : WorkItem) → contents (size_of k) (zero_of k) (new_queue (size_of k) (zero_of k)) ≡ []
unfolding new_queue
new_queue-contents k = refl

-- EvtWiFiDeviceCreateAdapter of a device that came up.
abbrev adapted : Framework → System → ℕ → Option Machine → Option Machine
adapted fw sys port none = none
adapted fw sys port (some m) = succeeded (create_adapter fw sys port true m)

-- EvtDriverDeviceAdd, EvtDevicePrepareHardware and EvtWiFiDeviceCreateAdapter, each where the one before
-- succeeded: the device if all three succeed.
unfoldable pub start : Framework → System → ChipOps → ℕ → Machine → Option Machine
start fw sys ops port c = adapted fw sys port (boot fw sys ops c)

open_complete-other : (k : WorkItem) → (code (completion_of k) == code open_complete) ≡ false
open_complete-other k = ground arith

adapted_lem :
    (fw : Framework) (sys : System) (port : ℕ) (o : Option Machine) (a m : Machine) (k : WorkItem)
    → ((x : Machine) → o ≡ some x → x ≡ a)
    → adapted fw sys port o ≡ some m
    → ledger k m.driver ≡ ledger k a.driver
unfolding created
adapted_lem fw sys port none a m k only e = absurd (none-ne-some m e)
adapted_lem fw sys port (some x) a m k only e =
    ap (λ y. ledger k y.driver)
      (if-some _ _ m (sym (create_adapter-created fw sys port true x) ∙ e)).1
    ∙ indicate-ledger sys k open_complete port 0 x.driver (open_complete-other k)
    ∙ ap (λ y. ledger k y.driver) (only x refl)

-- The queues of a zeroed context are new.
before_init-ledger :
    (sys : System) (c : Machine) (k : WorkItem)
    → ledger k (before_init sys (added c)).driver
      ≡ (new_queue (size_of k) (zero_of k), completed_of k c.driver)
unfolding new_context
before_init-ledger sys c scan_work = refl
before_init-ledger sys c reset_work = refl
before_init-ledger sys c radio_work = refl
before_init-ledger sys c connect_work = refl
before_init-ledger sys c disconnect_work = refl

-- A device that started has an empty queue of the kind, and has completed no task of the kind that was not
-- completed before.
start-ledger :
    (fw : Framework) (sys : System) (ops : ChipOps) (port : ℕ) (c m : Machine) (k : WorkItem)
    → ((d : Driver) → Keeps d (ops.init d).1)
    → start fw sys ops port c ≡ some m
    → ledger k m.driver ≡ (new_queue (size_of k) (zero_of k), completed_of k c.driver)
unfolding start
start-ledger fw sys ops port c m k quiet e =
    let d0 : Driver = (before_init sys (added c)).driver in
    adapted_lem fw sys port (boot fw sys ops c) _ m k (λ x. boot_lem fw sys ops c x) e
    ∙ Keeps-ledger k d0 (ops.init d0).1 (quiet d0)
    ∙ before_init-ledger sys c k

module _ (fw : Framework) (sys : System) (ops : ChipOps) (port : ℕ) (k : WorkItem) (c m : Machine)
    (quiet : (d : Driver) → Keeps d (ops.init d).1) (fresh : completed_of k c.driver ≡ [])
    (started : start fw sys ops port c ≡ some m) where
  started-IsValid : IsValid (size_of k) (queue_of k m.driver)
  started-IsValid =
      subst (IsValid (size_of k))
        (sym (ap (λ x. x.0) (start-ledger fw sys ops port c m k quiet started)))
        (new_queue-IsValid k)

  started-due : due_of k m.driver ≡ []
  started-due =
      ap (λ x. x.1 ++ map (reply_of k) (contents (size_of k) (zero_of k) x.0))
        (start-ledger fw sys ops port c m k quiet started)
      ∙ ap
          (λ xs.
            xs
            ++ map (reply_of k)
                (contents (size_of k) (zero_of k) (new_queue (size_of k) (zero_of k))))
          fresh
      ∙ ap (map (reply_of k)) (new_queue-contents k)

-- In every session of commands and of runs of the five workitems on a device that was added, brought up
-- and given its adapter, from a driver that has completed no task of the kind before: the tasks completed
-- at the end followed by those that then wait are exactly the tasks admitted in the session, in their
-- order. For scans and resets it holds whatever WdfMemoryCreate does, for the three other kinds where
-- it always succeeds. The backend keeps its contracts, and its Init leaves the queues alone and completes
-- no task.
pub accounted-session-start :
    (fw : Framework) (sys : System) (ops : ChipOps) (port : ℕ) (k : WorkItem) (ts : List Turn)
    (c m : Machine)
    → IsLossless sys k
    → IsBackend ops
    → IsLocal ops
    → ((d : Driver) → Keeps d (ops.init d).1)
    → completed_of k c.driver ≡ []
    → start fw sys ops port c ≡ some m
    → due_of k (session sys ops ts m.driver) ≡ all_admitted sys ops k ts m.driver
accounted-session-start fw sys ops port k ts c m l b local quiet fresh e =
    (accounted-session sys ops k ts m.driver l b local
      (started-IsValid fw sys ops port k c m quiet fresh e)).0
    ∙ ap (λ xs. xs ++ all_admitted sys ops k ts m.driver)
        (started-due fw sys ops port k c m quiet fresh e)

-- On a device that was added, brought up and given its adapter, from a driver that has completed no task of
-- the kind before, with WdfMemoryCreate always succeeding: after any session of commands and of runs of the
-- five workitems, one run of the kind's workitem with fuel for 16 rounds leaves its queue empty and has
-- then completed exactly the tasks that the session admitted, each once and in their order. The backend
-- keeps its contracts, and its Init leaves the queues alone and completes no task.
pub settled-session-start :
    (fw : Framework) (sys : System) (ops : ChipOps) (port : ℕ) (k : WorkItem) (ts : List Turn)
    (fuel : ℕ) (c m : Machine)
    → ((call size : ℕ) → nt_success (sys.memory_create call size) ≡ true)
    → IsBackend ops
    → IsLocal ops
    → ((d : Driver) → Keeps d (ops.init d).1)
    → completed_of k c.driver ≡ []
    → start fw sys ops port c ≡ some m
    → 16 ≤ fuel
    → let d' = work_item sys ops k fuel (session sys ops ts m.driver) in
      (waiting k d' ≡ []) × (completed_of k d' ≡ all_admitted sys ops k ts m.driver)
settled-session-start fw sys ops port k ts fuel c m memory b local quiet fresh e f =
    let (none_left, done) =
      settled-session sys ops k ts fuel m.driver memory b local
        (started-IsValid fw sys ops port k c m quiet fresh e) f in
    (
      none_left,
      done
          ∙ ap (λ xs. xs ++ all_admitted sys ops k ts m.driver)
              (started-due fw sys ops port k c m quiet fresh e),
    )
