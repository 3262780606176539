-- ===== src/Sessions/Completion.antt =====
-- After any session: a run of a workitem completes what is due.
use wificx_skeleton.Prelude.{ℕ, ◌≤◌, ◌≡◌, ◌∙◌, inr, [], ◌++◌, List, true, arith}
use wificx_skeleton.Platform.{nt_success}
use wificx_skeleton.Platform.System.{System}
use wificx_skeleton.TaskQueue.Counters.{used, IsValid}
use wificx_skeleton.Device.{Driver, ChipOps, WorkItem}
use wificx_skeleton.Device.Effects.{IsBackend, IsLocal}
use wificx_skeleton.WorkItems.Completion.{work_item-completes}
use wificx_skeleton.WorkItems.Kinds.{size_of, queue_of, waiting, due_of, completed_of, work_item}
use wificx_skeleton.Sessions.{Turn, session}
use wificx_skeleton.Sessions.Accounts.{all_admitted, accounted-session}

size_of-le : (k : WorkItem) → size_of k ≤ 16
size_of-le k = ground arith

module _ (sys : System) (ops : ChipOps) (k : WorkItem) where
  -- With WdfMemoryCreate always succeeding, from a valid queue on and with a backend that keeps its
  -- contracts: after any session of commands and of runs of the five workitems, one run of the kind's
  -- workitem with fuel for 16 rounds leaves its queue empty and has then completed the tasks due at the
  -- start and exactly those admitted in the session, each once and in their order, under the port and the
  -- transaction of its request.
  pub settled-session :
      (ts : List Turn) (fuel : ℕ) (d : Driver)
      → ((call size : ℕ) → nt_success (sys.memory_create call size) ≡ true)
      → IsBackend ops
      → IsLocal ops
      → IsValid (size_of k) (queue_of k d)
      → 16 ≤ fuel
      → let d' = work_item sys ops k fuel (session sys ops ts d) in
        (waiting k d' ≡ []) × (completed_of k d' ≡ due_of k d ++ all_admitted sys ops k ts d)
  settled-session ts fuel d m b l v f =
      let d1 = session sys ops ts d in
      let (same, valid) = accounted-session sys ops k ts d (inr m) b l v in
      let enough : used (queue_of k d1) ≤ fuel = omega (arith, size_of-le k, valid.bounded) in
      let (none_left, done) = work_item-completes sys ops k fuel d1 m b valid enough in
      (none_left, done ∙ same)
