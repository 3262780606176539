-- ===== src/Sessions/Views.antt =====
-- What a command offers to the queues and how it leaves the radio, told from the state it finds.
use wificx_skeleton.Prelude.{
  ℕ, ◌||◌, Bool, List, [], ◌∷◌, Option, none, some, ltb, ◌==◌, if◌then◌else◌,
}
use wificx_skeleton.Platform.{
  MessageId, task_set_radio_state, task_scan, task_dot11_reset, task_connect, task_disconnect,
}
use wificx_skeleton.Platform.System.{System}
use wificx_skeleton.ScanCache.{ScanCache}
use wificx_skeleton.TaskQueue.{enqueue}
use wificx_skeleton.Device.{
  memory_of, Driver, WorkItem, scan_work, reset_work, radio_work, connect_work, disconnect_work,
  Event, completed, generated_freed, work_enqueued,
}
use wificx_skeleton.Handlers.Session.{Request, soft_on}
use wificx_skeleton.Handlers.Tasks.{connect_target}
use wificx_skeleton.Handlers.Offers.{scan_task, plain_task, radio_task, connect_task}
use wificx_skeleton.WorkItems.Kinds.{TaskOf, size_of, Queues, queues, pick, put}

-- The log without the answers and the buffers freed.
abbrev pub noted : List Event → List Event
noted [] = []
noted (completed s n m ∷ log) = noted log
noted (generated_freed ∷ log) = noted log
noted (e ∷ log) = e ∷ noted log

abbrev pub View : Type 0
View = Queues × List Event × (Option ScanCache × ℕ) × Bool

abbrev pub view : Driver → View
view d = (queues d, noted d.log, memory_of d, d.radio_on)

-- A task that is put to the queue of its kind; the workitem is enqueued where it is accepted.
abbrev pub offer_to : (k : WorkItem) → TaskOf k → View → View
offer_to k task v =
    let (accepted, q) = enqueue (size_of k) (pick k v.0) task in
    (put k q v.0, if accepted then work_enqueued k ∷ v.1 else v.1, v.2, v.3)

abbrev pub Offer : Type 0
Offer = Option ((k : WorkItem) × TaskOf k)

abbrev pub effect : Offer → View → View
effect none v = v
effect (some (k, task)) v = offer_to k task v

-- The driver with the buffer of the request at hand.
abbrev pub at_hand : Request → Driver → Driver
at_hand r d = record d { io = r.buffer }

module _ (sys : System) where
  -- The answer has no byte: it does not fit the output, or there is no header at all.
  abbrev pub is_unanswered : Request → Bool
  is_unanswered r = ltb r.out_len sys.header_size || sys.header_size == 0

  -- The task that a command offers, and to which queue: scans and connects only with the radio on,
  -- resets and radio states only if they are answered.
  abbrev pub offered : MessageId → Request → Driver → Offer
  offered task_scan r d = if d.radio_on then some (scan_work, scan_task r) else none
  offered task_connect r d =
      if d.radio_on
      then some (connect_work, connect_task r (connect_target sys r (at_hand r d)))
      else none
  offered task_disconnect r d = some (disconnect_work, plain_task r)
  offered task_dot11_reset r d = if is_unanswered r then none else some (reset_work, plain_task r)
  offered task_set_radio_state r d =
      if is_unanswered r
      then none
      else some (radio_work, radio_task r (soft_on sys r (at_hand r d)))
  offered _ r d = none

  -- The radio state that a command leaves.
  abbrev pub radio_after : MessageId → Request → Driver → Bool
  radio_after task_set_radio_state r d = soft_on sys r (at_hand r d)
  radio_after _ r d = d.radio_on

  -- What a command finds, with the radio state that it sets.
  abbrev pub switched : MessageId → Request → Driver → View
  switched id r d = (queues d, noted d.log, memory_of d, radio_after id r d)
