-- ===== src/WorkItems/Completion.antt =====
-- The workitems of device.cpp from an admitted task to its completion.
use wificx_skeleton.Prelude.{
  ℕ, ◌≤◌, ◌≡◌, refl, subst, Bool, true, false, [], ◌++◌, map, if◌then◌else◌,
}
use wificx_skeleton.Platform.{nt_success}
use wificx_skeleton.Platform.System.{System}
use wificx_skeleton.TaskQueue.Counters.{used, IsValid}
use wificx_skeleton.Device.{Driver, ChipOps, WorkItem}
use wificx_skeleton.Device.Effects.{IsBackend}
use wificx_skeleton.WorkItems.Loops.{Serves, loop_completes}
use wificx_skeleton.WorkItems.Kinds.{
  size_of, size_of-IsSize, zero_of, reply_of, completion_of, queue_of, waiting, completed_of,
  retries, work_item, work_item_lem, round_of, round-Serves, sends_lem,
}

module _ (sys : System) (ops : ChipOps) where
  -- With memory a round completes its task and takes it out.
  round_completes :
      (k : WorkItem) (d : Driver)
      → ((call size : ℕ) → nt_success (sys.memory_create call size) ≡ true)
      → IsBackend ops
      → Serves
          (size_of k)
          (zero_of k)
          (queue_of k)
          (completion_of k)
          (reply_of k)
          true
          true
          d
          (round_of sys ops k d)
  round_completes k d m b =
      subst
        (λ x.
          Serves (size_of k) (zero_of k) (queue_of k) (completion_of k) (reply_of k) x true d
            (round_of sys ops k d))
        (if_same (retries k))
        (subst
          (λ x.
            Serves (size_of k) (zero_of k) (queue_of k) (completion_of k) (reply_of k)
              (if retries k then x else true) x d (round_of sys ops k d))
          (sends_lem sys ops k d true m) (round-Serves sys ops k d b).0)
    where
      if_same : (b : Bool) → (if b then true else true) ≡ true
      if_same true = refl
      if_same false = refl

  -- On a valid queue, with fuel for the tasks that wait and WdfMemoryCreate always succeeding, each of the five
  -- workitems leaves its queue empty and sends one completion of its kind per task, in the order of the
  -- queue: the port and the transaction of the task, status success, and no TLV. The backend keeps its
  -- contract. What its ops return makes no difference: the completion of a failed Connect or Reset
  -- says success too.
  pub work_item-completes :
      (k : WorkItem) (fuel : ℕ) (d : Driver)
      → ((call size : ℕ) → nt_success (sys.memory_create call size) ≡ true)
      → IsBackend ops
      → IsValid (size_of k) (queue_of k d)
      → used (queue_of k d) ≤ fuel
      → let d' = work_item sys ops k fuel d in
        (waiting k d' ≡ [])
        × (completed_of k d' ≡ completed_of k d ++ map (reply_of k) (waiting k d))
  work_item-completes k fuel d m b v f = rw (work_item_lem sys ops k fuel d) (
      loop_completes (size_of k) (zero_of k) (queue_of k) (completion_of k) (reply_of k)
        (round_of sys ops k) fuel d (size_of-IsSize k) (λ e. round_completes k e m b) v f)
