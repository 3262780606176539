-- ===== src/Sessions/Admission.antt =====
-- wdihandlers.cpp: which tasks a command adds to which queue.
use wificx_skeleton.Prelude.{◌+◌, ◌≡◌, sym, ap, subst, ◌∙◌, List, ◌++◌, length}
use wificx_skeleton.Platform.System.{System}
use wificx_skeleton.TaskQueue.Counters.{IsValid}
use wificx_skeleton.Device.{Driver, WorkItem, ChipOps}
use wificx_skeleton.Device.Effects.{IsLocal}
use wificx_skeleton.Handlers.{dispatch}
use wificx_skeleton.Handlers.Session.{Request}
use wificx_skeleton.WorkItems.Kinds.{
  TaskOf, size_of, completion_of, queues, queue_of, waiting, runs, completed_of,
}
use wificx_skeleton.Sessions.Views.{offered, radio_after, switched}
use wificx_skeleton.Sessions.Commands.{dispatch-view}
use wificx_skeleton.Sessions.Noted.{runs-noted, completions-noted}
use wificx_skeleton.Sessions.Offers.{taken_in, Takes, effect-Takes, effect-radio}

module _ (sys : System) where
  -- The tasks of a kind that a command adds to the queue: the one it offers, if there is room.
  abbrev pub admitted : (k : WorkItem) → Request → Driver → List (TaskOf k)
  admitted k r d = taken_in k (offered sys r.message_id r d) (queues d)

  -- Every command adds to each of the five queues exactly the task that it offers to it, at the end and if
  -- there is room, and enqueues the workitem of that queue exactly as often. It completes no task, and
  -- a valid queue stays valid. A TASK_SCAN and a TASK_CONNECT offer their task with the radio on, a
  -- TASK_DISCONNECT in any case, a TASK_DOT11_RESET and a SET_RADIO_STATE if a header is written as their
  -- answer; no other command offers one. Only a SET_RADIO_STATE changes the radio state, to the one
  -- that its TLV asks for, also where it is not answered. The chip's key and radio ops change the chip only.
  pub dispatch-admitted :
      (ops : ChipOps) (k : WorkItem) (r : Request) (d : Driver)
      → IsLocal ops
      → IsValid (size_of k) (queue_of k d)
      → let d' = dispatch sys ops r d in
        (waiting k d' ≡ waiting k d ++ admitted k r d)
        × (runs k d'.log ≡ length (admitted k r d) + runs k d.log)
        × (completed_of k d' ≡ completed_of k d)
        × IsValid (size_of k) (queue_of k d')
        × (d'.radio_on ≡ radio_after sys r.message_id r d)
  dispatch-admitted ops k r d l valid =
      let d' = dispatch sys ops r d in
      let v = switched sys r.message_id r d in
      let same = dispatch-view sys ops r d l in
      let (added, works, done, valid') =
        subst (Takes k (offered sys r.message_id r d) v) (sym same)
          (effect-Takes k (offered sys r.message_id r d) v valid) in
      (
        added,
        sym (runs-noted k d'.log)
            ∙ works
            ∙ ap (λ n. length (admitted k r d) + n) (runs-noted k d.log),
        sym (completions-noted (completion_of k) d'.log)
            ∙ done
            ∙ completions-noted (completion_of k) d.log,
        valid',
        ap (λ x. x.3) same ∙ effect-radio (offered sys r.message_id r d) v,
      )
