-- ===== src/WorkItems/Kinds.antt =====
-- device.h: the five kinds of task, each with its queue in MTK_DEVICE, its workitem and the indication
-- that completes it.
use wificx_skeleton.Prelude.{
  ℕ, ◌+◌, ◌≡◌, refl, inl, inr, Bool, true, false, List, [], ◌∷◌, ◌++◌, map, ◌==◌, if◌then◌else◌,
}
use wificx_skeleton.Platform.{
  Message, IndicationId, scan_complete, dot11_reset_complete, set_radio_state_complete,
  connect_complete, disconnect_complete, nt_success,
}
use wificx_skeleton.Platform.System.{System}
use wificx_skeleton.TaskQueue.{TaskQueue, pending}
use wificx_skeleton.TaskQueue.Counters.{IsSize}
use wificx_skeleton.TaskQueue.Fifo.{contents}
use wificx_skeleton.Device.{
  Driver, ScanTask, Task, RadioTask, ConnectTask, WorkItem, scan_work, reset_work, radio_work,
  connect_work, disconnect_work, Event, work_enqueued, ChipOps, call_op,
}
use wificx_skeleton.Device.Effects.{completions, IsDisciplined, IsBackend}
use wificx_skeleton.WorkItems.{
  zero_task, zero_scan_task, zero_radio_task, zero_connect_task, work_loop, scan_round, reset_round,
  radio_round, connect_round, disconnect_round, scan_work_item, reset_work_item, radio_work_item,
  connect_work_item, disconnect_work_item,
}
use wificx_skeleton.Tlv.Indications.{has_memory}
use wificx_skeleton.WorkItems.Loops.{Serves}
use wificx_skeleton.WorkItems.Drops.{
  scan_reply, task_reply, radio_reply, connect_reply, scanned, connecting, radio_round-Serves,
  connect_round-Serves, disconnect_round-Serves,
}
use wificx_skeleton.WorkItems.Rounds.{scan_round-Serves, reset_round-Serves}

-- The slots of the queue that the workitem drains.
abbrev pub TaskOf : WorkItem → Type 0
TaskOf scan_work = ScanTask
TaskOf reset_work = Task
TaskOf radio_work = RadioTask
TaskOf connect_work = ConnectTask
TaskOf disconnect_work = Task

abbrev pub size_of : WorkItem → ℕ
size_of scan_work = 16
size_of reset_work = 16
size_of radio_work = 16
size_of connect_work = 8
size_of disconnect_work = 8

abbrev pub zero_of : (k : WorkItem) → TaskOf k
zero_of scan_work = zero_scan_task
zero_of reset_work = zero_task
zero_of radio_work = zero_radio_task
zero_of connect_work = zero_connect_task
zero_of disconnect_work = zero_task

-- The port and the transaction of a task.
abbrev pub reply_of : (k : WorkItem) → TaskOf k → Message
reply_of scan_work = scan_reply
reply_of reset_work = task_reply
reply_of radio_work = radio_reply
reply_of connect_work = connect_reply
reply_of disconnect_work = task_reply

abbrev pub completion_of : WorkItem → IndicationId
completion_of scan_work = scan_complete
completion_of reset_work = dot11_reset_complete
completion_of radio_work = set_radio_state_complete
completion_of connect_work = connect_complete
completion_of disconnect_work = disconnect_complete

abbrev pub work_code : WorkItem → ℕ
work_code scan_work = 0
work_code reset_work = 1
work_code radio_work = 2
work_code connect_work = 3
work_code disconnect_work = 4

abbrev pub Queues : Type 0
Queues =
    TaskQueue ScanTask
    × TaskQueue Task
    × TaskQueue RadioTask
    × TaskQueue ConnectTask
    × TaskQueue Task

abbrev pub queues : Driver → Queues
queues d = (d.scan_queue, d.reset_queue, d.radio_queue, d.connect_queue, d.disconnect_queue)

abbrev pub pick : (k : WorkItem) → Queues → TaskQueue (TaskOf k)
pick scan_work x = x.0
pick reset_work x = x.1
pick radio_work x = x.2
pick connect_work x = x.3
pick disconnect_work x = x.4

abbrev pub put : (k : WorkItem) → TaskQueue (TaskOf k) → Queues → Queues
put scan_work q x = (q, x.1, x.2, x.3, x.4)
put reset_work q x = (x.0, q, x.2, x.3, x.4)
put radio_work q x = (x.0, x.1, q, x.3, x.4)
put connect_work q x = (x.0, x.1, x.2, q, x.4)
put disconnect_work q x = (x.0, x.1, x.2, x.3, q)

abbrev pub queue_of : (k : WorkItem) → Driver → TaskQueue (TaskOf k)
queue_of k d = pick k (queues d)

-- The tasks that wait for a workitem, oldest first.
abbrev pub waiting : (k : WorkItem) → Driver → List (TaskOf k)
waiting k d = contents (size_of k) (zero_of k) (queue_of k d)

-- The completions of a kind that have been sent, oldest first.
abbrev pub completed_of : WorkItem → Driver → List Message
completed_of k d = completions (completion_of k) d.log

-- The tasks completed so far, then those that wait.
abbrev pub due_of : WorkItem → Driver → List Message
due_of k d = completed_of k d ++ map (reply_of k) (waiting k d)

-- How often a workitem has been enqueued.
abbrev pub runs : WorkItem → List Event → ℕ
runs k [] = 0
runs k (work_enqueued w ∷ log) = (if work_code w == work_code k then 1 else 0) + runs k log
runs k (_ ∷ log) = runs k log

pub size_of-IsSize : (k : WorkItem) → IsSize (size_of k)
size_of-IsSize scan_work = inl refl
size_of-IsSize reset_work = inl refl
size_of-IsSize radio_work = inl refl
size_of-IsSize connect_work = inr refl
size_of-IsSize disconnect_work = inr refl

-- The scan's and the reset's workitem leave a task in its slot where its completion fails; the others
-- give it up.
abbrev pub retries : WorkItem → Bool
retries scan_work = true
retries reset_work = true
retries _ = false

module _ (sys : System) (ops : ChipOps) where
  -- The callback of a workitem, and one round of it.
  unfoldable pub work_item : WorkItem → ℕ → Driver → Driver
  unfolding scan_work_item reset_work_item radio_work_item connect_work_item disconnect_work_item
  work_item scan_work = scan_work_item sys ops
  work_item reset_work = reset_work_item sys ops
  work_item radio_work = radio_work_item sys ops
  work_item connect_work = connect_work_item sys ops
  work_item disconnect_work = disconnect_work_item sys ops

  abbrev pub round_of : WorkItem → Driver → Bool × Driver
  round_of scan_work = scan_round sys ops
  round_of reset_work = reset_round sys ops
  round_of radio_work = radio_round sys ops
  round_of connect_work = connect_round sys ops
  round_of disconnect_work = disconnect_round sys ops

  pub work_item_lem :
      (k : WorkItem) (fuel : ℕ) (d : Driver)
      → work_item k fuel d ≡ work_loop (λ e. pending (queue_of k e)) (round_of k) fuel d
  unfolding work_item
  work_item_lem scan_work fuel d = refl
  work_item_lem reset_work fuel d = refl
  work_item_lem radio_work fuel d = refl
  work_item_lem connect_work fuel d = refl
  work_item_lem disconnect_work fuel d = refl

  -- Whether a round completes its task.
  abbrev pub sends : WorkItem → Driver → Bool
  sends scan_work d = has_memory sys sys.header_size (scanned sys ops d)
  sends reset_work d = has_memory sys sys.header_size (call_op ops.reset d)
  sends radio_work d = has_memory sys sys.header_size d
  sends connect_work d = has_memory sys sys.header_size (connecting sys ops d)
  sends disconnect_work d = has_memory sys sys.header_size (call_op ops.disconnect d)

  abbrev takes : WorkItem → Driver → Bool
  takes k d = if retries k then sends k d else true

  pub round-Serves :
      (k : WorkItem) (d : Driver)
      → IsBackend ops
      → Serves
          (size_of k)
          (zero_of k)
          (queue_of k)
          (completion_of k)
          (reply_of k)
          (takes k d)
          (sends k d)
          d
          (round_of k d)
        × (IsDisciplined d.log → IsDisciplined (round_of k d).1.log)
  round-Serves scan_work d b = scan_round-Serves sys ops d b
  round-Serves reset_work d b = reset_round-Serves sys ops d b
  round-Serves radio_work d b = radio_round-Serves sys ops d
  round-Serves connect_work d b = connect_round-Serves sys ops d b
  round-Serves disconnect_work d b = disconnect_round-Serves sys ops d b

  -- With memory every round completes its task, and without it none does.
  pub sends_lem :
      (k : WorkItem) (d : Driver) (answer : Bool)
      → ((call size : ℕ) → nt_success (sys.memory_create call size) ≡ answer)
      → sends k d ≡ answer
  sends_lem scan_work d answer m = m _ _
  sends_lem reset_work d answer m = m _ _
  sends_lem radio_work d answer m = m _ _
  sends_lem connect_work d answer m = m _ _
  sends_lem disconnect_work d answer m = m _ _
