-- ===== src/WorkItems/Rounds.antt =====
-- device.cpp: the rounds of the reset and scan workitems, which take their task out exactly if it is
-- completed.
use wificx_skeleton.Prelude.{refl, ap, ◌∙◌, inl, inr, Bool-cases}
use wificx_skeleton.Platform.{scan_complete, dot11_reset_complete}
use wificx_skeleton.Platform.System.{System}
use wificx_skeleton.TaskQueue.{front, advance}
use wificx_skeleton.Device.{Driver, ChipOps, call_op}
use wificx_skeleton.Device.Effects.{IsDisciplined, Keeps-trans, quiet-Keeps, IsBackend}
use wificx_skeleton.Tlv.{indicate_task_complete}
use wificx_skeleton.Tlv.Indications.{indicate_task_complete_lem}
use wificx_skeleton.WorkItems.{zero_task, zero_scan_task, scan_round, reset_round}
use wificx_skeleton.WorkItems.Effects.{emit_bss_entry_list-Keeps}
use wificx_skeleton.WorkItems.Loops.{Serves}
use wificx_skeleton.WorkItems.Completing.{
  Keeps-Completes, Completes-Keeps, request-Keeps, complete_task,
}
use wificx_skeleton.WorkItems.Drops.{scan_reply, task_reply, scanned, memory_left}

module _ (sys : System) (ops : ChipOps) where
  -- completed it.
  pub reset_round-Serves :
      (d : Driver)
      → IsBackend ops
      → let sent = memory_left sys ops (call_op ops.reset d) in
        Serves 16 zero_task
          (λ e. e.reset_queue)
          dot11_reset_complete
          task_reply
          sent
          sent
          d
          (reset_round sys ops d)
        × (IsDisciplined d.log → IsDisciplined (reset_round sys ops d).1.log)
  unfolding reset_round
  reset_round-Serves d b =
      let task = front 16 zero_task d.reset_queue in
      let d1 = call_op ops.reset d in
      let c =
        Keeps-Completes refl (b.reset_keeps d)
          (complete_task sys dot11_reset_complete task.port_id task.txn_id d1 refl) in
      let status =
        (indicate_task_complete_lem sys dot11_reset_complete task.port_id task.txn_id d1).0 in
      elim (Bool-cases (memory_left sys ops d1)) [
        | inl m ↦
            rw (status, m)
              (
                record {
                  goes_on = refl;
                  taken = ap advance c.reset_queue;
                  completed = c.completed ∙ rw m refl;
                },
                c.disciplined,
              )
        | inr m ↦
            rw (status, m)
              (
                record {
                  goes_on = refl;
                  taken = c.reset_queue;
                  completed = c.completed ∙ rw m refl;
                },
                c.disciplined,
              )
      ]

  pub scan_round-Serves :
      (d : Driver)
      → IsBackend ops
      → let sent = memory_left sys ops (scanned sys ops d) in
        Serves 16 zero_scan_task
          (λ e. e.scan_queue)
          scan_complete
          scan_reply
          sent
          sent
          d
          (scan_round sys ops d)
        × (IsDisciplined d.log → IsDisciplined (scan_round sys ops d).1.log)
  unfolding scan_round
  scan_round-Serves d b =
      let task = front 16 zero_scan_task d.scan_queue in
      let d1 : Driver = record d {
        active_scan_port_id = task.port_id;
        active_scan_transaction_id = task.txn_id;
      } in
      let d2 = scanned sys ops d in
      let (status, d3) = indicate_task_complete sys scan_complete task.port_id task.txn_id d2 in
      let c =
        Keeps-Completes refl
          (Keeps-trans (quiet-Keeps d d1 refl refl refl refl refl refl) (
            Keeps-trans (b.start_scan_keeps d1)
              (emit_bss_entry_list-Keeps sys (call_op ops.start_scan d1))))
          (complete_task sys scan_complete task.port_id task.txn_id d2 refl) in
      let e = Completes-Keeps refl c (request-Keeps sys task.request d3) in
      let same = (indicate_task_complete_lem sys scan_complete task.port_id task.txn_id d2).0 in
      elim (Bool-cases (memory_left sys ops d2)) [
        | inl m ↦
            rw (same, m)
              (
                record {
                  goes_on = refl;
                  taken = ap advance e.scan_queue;
                  completed = e.completed ∙ rw m refl;
                },
                e.disciplined,
              )
        | inr m ↦
            rw (same, m)
              (
                record {
                  goes_on = refl;
                  taken = c.scan_queue;
                  completed = c.completed ∙ rw m refl;
                },
                c.disciplined,
              )
      ]
