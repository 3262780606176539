-- ===== src/WorkItems/Drops.antt =====
-- device.cpp: the rounds of the radio, connect and disconnect workitems, which take their task out in
-- any case.
use wificx_skeleton.Prelude.{refl, ap, Bool, true}
use wificx_skeleton.Platform.{
  Message, set_radio_state_complete, connect_complete, disconnect_complete, radio_status,
}
use wificx_skeleton.Platform.System.{System}
use wificx_skeleton.TaskQueue.{front, advance}
use wificx_skeleton.Device.{
  Driver, ScanTask, Task, RadioTask, ConnectTask, ChipOps, call_op, with_arg,
}
use wificx_skeleton.Device.Effects.{IsDisciplined, Keeps-trans, quiet-Keeps, IsBackend}
use wificx_skeleton.Tlv.{tlv_context}
use wificx_skeleton.Tlv.Indications.{has_memory, send_generated-Keeps}
use wificx_skeleton.WorkItems.{
  zero_task, zero_scan_task, zero_radio_task, zero_connect_task, emit_bss_entry_list, radio_round,
  connect_round, disconnect_round,
}
use wificx_skeleton.WorkItems.Loops.{Serves}
use wificx_skeleton.WorkItems.Completing.{
  completion, Keeps-Completes, Completes-Keeps, complete_task,
}

-- The completion that a task calls for.
abbrev pub scan_reply : ScanTask → Message
scan_reply t = completion t.port_id t.txn_id

abbrev pub task_reply : Task → Message
task_reply t = completion t.port_id t.txn_id

abbrev pub radio_reply : RadioTask → Message
radio_reply t = completion t.port_id t.txn_id

abbrev pub connect_reply : ConnectTask → Message
connect_reply t = completion t.port_id t.txn_id

module _ (sys : System) (ops : ChipOps) where
  -- The driver as a round finds it when it is about to complete the task.
  abbrev pub scanned : Driver → Driver
  scanned d =
      let task = front 16 zero_scan_task d.scan_queue in
      emit_bss_entry_list sys (
        call_op ops.start_scan (record d {
          active_scan_port_id = task.port_id;
          active_scan_transaction_id = task.txn_id;
        }))

  abbrev pub connecting : Driver → Driver
  connecting d =
      let task = front 8 zero_connect_task d.connect_queue in
      call_op (with_arg ops.connect task.target)
        (record d { connect_port_id = task.port_id; connect_txn_id = task.txn_id })

  abbrev pub memory_left : Driver → Bool
  memory_left = has_memory sys sys.header_size

  -- EvtRadioStatusWorkItem takes its task out in any case, and completes it if the memory is there.
  pub radio_round-Serves :
      (d : Driver)
      → Serves 16 zero_radio_task
          (λ e. e.radio_queue)
          set_radio_state_complete
          radio_reply
          true
          (memory_left d)
          d
          (radio_round sys ops d)
        × (IsDisciplined d.log → IsDisciplined (radio_round sys ops d).1.log)
  unfolding radio_round
  radio_round-Serves d =
      let task = front 16 zero_radio_task d.radio_queue in
      let g = sys.generate_radio_status (tlv_context sys d.os_wdi_version) true task.soft_on in
      let c =
        Completes-Keeps refl
          (complete_task sys set_radio_state_complete task.port_id task.txn_id d refl)
          (send_generated-Keeps sys radio_status 0xffff g _ refl) in
      (
        record { goes_on = refl; taken = ap advance c.radio_queue; completed = c.completed },
        c.disciplined,
      )

  -- So do EvtConnectCompleteWorkItem and EvtDisconnectCompleteWorkItem, after the call of the chip.
  pub connect_round-Serves :
      (d : Driver)
      → IsBackend ops
      → Serves 8 zero_connect_task
          (λ e. e.connect_queue)
          connect_complete
          connect_reply
          true
          (memory_left (connecting d))
          d
          (connect_round sys ops d)
        × (IsDisciplined d.log → IsDisciplined (connect_round sys ops d).1.log)
  unfolding connect_round
  connect_round-Serves d b =
      let task = front 8 zero_connect_task d.connect_queue in
      let d1 : Driver = record d { connect_port_id = task.port_id; connect_txn_id = task.txn_id } in
      let c =
        Keeps-Completes refl
          (Keeps-trans (quiet-Keeps d d1 refl refl refl refl refl refl)
            (b.connect_keeps task.target d1))
          (complete_task sys connect_complete task.port_id task.txn_id _ refl) in
      (
        record { goes_on = refl; taken = ap advance c.connect_queue; completed = c.completed },
        c.disciplined,
      )

  pub disconnect_round-Serves :
      (d : Driver)
      → IsBackend ops
      → Serves 8 zero_task
          (λ e. e.disconnect_queue)
          disconnect_complete
          task_reply
          true
          (memory_left (call_op ops.disconnect d))
          d
          (disconnect_round sys ops d)
        × (IsDisciplined d.log → IsDisciplined (disconnect_round sys ops d).1.log)
  unfolding disconnect_round
  disconnect_round-Serves d b =
      let task = front 8 zero_task d.disconnect_queue in
      let c =
        Keeps-Completes refl (b.disconnect_keeps d)
          (complete_task sys disconnect_complete task.port_id task.txn_id _ refl) in
      (
        record { goes_on = refl; taken = ap advance c.disconnect_queue; completed = c.completed },
        c.disciplined,
      )
  -- EvtResetCompleteWorkItem and EvtScanCompleteWorkItem go on, and take the task out, exactly if they have
