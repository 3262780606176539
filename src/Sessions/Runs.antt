-- ===== src/Sessions/Runs.antt =====
-- device.cpp: a run of one workitem, as the other kinds of task see it: it leaves their queues and their
-- completions as they are.
use mathlib.Core.List.{append-nil}
use wificx_skeleton.Prelude.{
  ℕ, ◌≡◌, refl, ap, ap₂, ◌∙◌, inl, inr, true, false, List, Bool-cases, ◌==◌, arith,
}
use wificx_skeleton.Platform.{
  Message, IndicationId, dot11_reset_complete, set_radio_state_complete, connect_complete,
  scan_complete, disconnect_complete, radio_status, nt_success,
}
use wificx_skeleton.Platform.System.{System}
use wificx_skeleton.TaskQueue.{TaskQueue, front, advance}
use wificx_skeleton.Device.{
  Driver, ChipOps, WorkItem, scan_work, reset_work, radio_work, connect_work, disconnect_work,
  call_op, with_arg,
}
use wificx_skeleton.Device.Effects.{code, Keeps, Keeps-trans, IsBackend}
use wificx_skeleton.Tlv.{tlv_context, indicate_task_complete, send_generated}
use wificx_skeleton.Tlv.Indications.{has_memory, indicate_task_complete_lem, send_generated-Keeps}
use wificx_skeleton.WorkItems.{
  zero_task, zero_scan_task, zero_radio_task, zero_connect_task, emit_bss_entry_list,
  complete_request, scan_round, reset_round, radio_round, connect_round, disconnect_round,
  scan_work_item, reset_work_item, radio_work_item, connect_work_item, disconnect_work_item,
}
use wificx_skeleton.WorkItems.Effects.{emit_bss_entry_list-Keeps}
use wificx_skeleton.WorkItems.Completing.{request-Keeps}
use wificx_skeleton.WorkItems.Loops.{loop_invariant}
use wificx_skeleton.Sessions.Noted.{pick-put_other}
use wificx_skeleton.WorkItems.Kinds.{
  TaskOf, queues, pick, put, queue_of, completion_of, work_code, completed_of, work_item,
}

-- What matters to a kind of task in a driver.
abbrev pub ledger : (k : WorkItem) → Driver → TaskQueue (TaskOf k) × List Message
ledger k d = (queue_of k d, completed_of k d)

pub Keeps-ledger : (k : WorkItem) (d e : Driver) → Keeps d e → ledger k e ≡ ledger k d
Keeps-ledger scan_work d e s =
    ap₂ (λ q xs. (q, xs)) s.scan_queue (s.no_completions scan_complete refl)
Keeps-ledger reset_work d e s =
    ap₂ (λ q xs. (q, xs)) s.reset_queue (s.no_completions dot11_reset_complete refl)
Keeps-ledger radio_work d e s =
    ap₂ (λ q xs. (q, xs)) s.radio_queue (s.no_completions set_radio_state_complete refl)
Keeps-ledger connect_work d e s =
    ap₂ (λ q xs. (q, xs)) s.connect_queue (s.no_completions connect_complete refl)
Keeps-ledger disconnect_work d e s =
    ap₂ (λ q xs. (q, xs)) s.disconnect_queue (s.no_completions disconnect_complete refl)

module _ (sys : System) where
  -- A completion of another kind.
  pub indicate-ledger :
      (k : WorkItem) (id : IndicationId) (port txn : ℕ) (d : Driver)
      → (code (completion_of k) == code id) ≡ false
      → ledger k (indicate_task_complete sys id port txn d).1 ≡ ledger k d
  indicate-ledger k id port txn d other =
      ap (ledger k) (indicate_task_complete_lem sys id port txn d).1
      ∙ elim (Bool-cases (has_memory sys sys.header_size d)) [
        | inl m ↦ rw (m, other) (ap (λ xs. (queue_of k d, xs)) (append-nil (completed_of k d)))
        | inr m ↦ rw m refl
      ]

code-completion_of : (k : WorkItem) → code (completion_of k) ≡ work_code k
code-completion_of k = ground arith

-- Two kinds have two indications.
completion_of-ne :
    (j k : WorkItem)
    → (work_code j == work_code k) ≡ false
    → (code (completion_of k) == code (completion_of j)) ≡ false
completion_of-ne j k n = ground (arith, code-completion_of j, code-completion_of k)

-- A queue of another kind.
module _ (j k : WorkItem) (n : (work_code j == work_code k) ≡ false) where
  other_queue : (q : TaskQueue (TaskOf j)) (d : Driver) → pick k (put j q (queues d)) ≡ queue_of k d
  other_queue q d = pick-put_other j k q (queues d) n

module _ (sys : System) (ops : ChipOps) (k : WorkItem) where
  radio_round-ledger :
      (d : Driver)
      → (work_code radio_work == work_code k) ≡ false
      → ledger k (radio_round sys ops d).1 ≡ ledger k d
  unfolding radio_round
  radio_round-ledger d n =
      let task = front 16 zero_radio_task d.radio_queue in
      let d1 = (indicate_task_complete sys set_radio_state_complete task.port_id task.txn_id d).1 in
      let g = sys.generate_radio_status (tlv_context sys d.os_wdi_version) true task.soft_on in
      let d2 = send_generated sys radio_status 0xffff g d1 in
      ap (λ q. (q, completed_of k d2)) (other_queue radio_work k n (advance d2.radio_queue) d2)
      ∙ Keeps-ledger k d1 d2 (send_generated-Keeps sys radio_status 0xffff g d1 refl)
      ∙ indicate-ledger sys k set_radio_state_complete task.port_id task.txn_id d
          (completion_of-ne radio_work k n)

  connect_round-ledger :
      (d : Driver)
      → (work_code connect_work == work_code k) ≡ false
      → IsBackend ops
      → ledger k (connect_round sys ops d).1 ≡ ledger k d
  unfolding connect_round
  connect_round-ledger d n b =
      let task = front 8 zero_connect_task d.connect_queue in
      let d1 : Driver = record d { connect_port_id = task.port_id; connect_txn_id = task.txn_id } in
      let d2 = call_op (with_arg ops.connect task.target) d1 in
      let d3 = (indicate_task_complete sys connect_complete task.port_id task.txn_id d2).1 in
      ap (λ q. (q, completed_of k d3)) (other_queue connect_work k n (advance d3.connect_queue) d3)
      ∙ indicate-ledger sys k connect_complete task.port_id task.txn_id d2
          (completion_of-ne connect_work k n)
      ∙ Keeps-ledger k d1 d2 (b.connect_keeps task.target d1)

  disconnect_round-ledger :
      (d : Driver)
      → (work_code disconnect_work == work_code k) ≡ false
      → IsBackend ops
      → ledger k (disconnect_round sys ops d).1 ≡ ledger k d
  unfolding disconnect_round
  disconnect_round-ledger d n b =
      let task = front 8 zero_task d.disconnect_queue in
      let d1 = call_op ops.disconnect d in
      let d2 = (indicate_task_complete sys disconnect_complete task.port_id task.txn_id d1).1 in
      ap (λ q. (q, completed_of k d2))
        (other_queue disconnect_work k n (advance d2.disconnect_queue) d2)
      ∙ indicate-ledger sys k disconnect_complete task.port_id task.txn_id d1
          (completion_of-ne disconnect_work k n)
      ∙ Keeps-ledger k d d1 (b.disconnect_keeps d)

  reset_round-ledger :
      (d : Driver)
      → (work_code reset_work == work_code k) ≡ false
      → IsBackend ops
      → ledger k (reset_round sys ops d).1 ≡ ledger k d
  unfolding reset_round
  reset_round-ledger d n b =
      let task = front 16 zero_task d.reset_queue in
      let d1 = call_op ops.reset d in
      let (status, d2) =
        indicate_task_complete sys dot11_reset_complete task.port_id task.txn_id d1 in
      let done =
        indicate-ledger sys k dot11_reset_complete task.port_id task.txn_id d1
          (completion_of-ne reset_work k n)
        ∙ Keeps-ledger k d d1 (b.reset_keeps d) in
      elim (Bool-cases (nt_success status)) [
        | inl ok ↦ rw ok (
            ap (λ q. (q, completed_of k d2))
              (other_queue reset_work k n (advance d2.reset_queue) d2)
            ∙ done)
        | inr failed ↦ rw failed done
      ]

  scan_round-ledger :
      (d : Driver)
      → (work_code scan_work == work_code k) ≡ false
      → IsBackend ops
      → ledger k (scan_round sys ops d).1 ≡ ledger k d
  unfolding scan_round
  scan_round-ledger d n b =
      let task = front 16 zero_scan_task d.scan_queue in
      let d1 : Driver = record d {
        active_scan_port_id = task.port_id;
        active_scan_transaction_id = task.txn_id;
      } in
      let d2 = call_op ops.start_scan d1 in
      let d3 = emit_bss_entry_list sys d2 in
      let (status, d4) = indicate_task_complete sys scan_complete task.port_id task.txn_id d3 in
      let d5 = complete_request sys task.request d4 in
      let done =
        indicate-ledger sys k scan_complete task.port_id task.txn_id d3
          (completion_of-ne scan_work k n)
        ∙ Keeps-ledger k d1 d3
            (Keeps-trans (b.start_scan_keeps d1) (emit_bss_entry_list-Keeps sys d2)) in
      elim (Bool-cases (nt_success status)) [
        | inl ok ↦ rw ok (
            ap (λ q. (q, completed_of k d5)) (other_queue scan_work k n (advance d5.scan_queue) d5)
            ∙ Keeps-ledger k d4 d5 (request-Keeps sys task.request d4)
            ∙ done)
        | inr failed ↦ rw failed done
      ]

  -- A run of a workitem leaves the other kinds of task alone.
  pub work_item-ledger :
      (j : WorkItem) (fuel : ℕ) (d : Driver)
      → (work_code j == work_code k) ≡ false
      → IsBackend ops
      → ledger k (work_item sys ops j fuel d) ≡ ledger k d
  unfolding work_item scan_work_item reset_work_item radio_work_item connect_work_item
      disconnect_work_item
  work_item-ledger scan_work fuel d n b =
      loop_invariant (ledger k) _ (scan_round sys ops) fuel d (λ e. scan_round-ledger e n b)
  work_item-ledger reset_work fuel d n b =
      loop_invariant (ledger k) _ (reset_round sys ops) fuel d (λ e. reset_round-ledger e n b)
  work_item-ledger radio_work fuel d n b =
      loop_invariant (ledger k) _ (radio_round sys ops) fuel d (λ e. radio_round-ledger e n)
  work_item-ledger connect_work fuel d n b =
      loop_invariant (ledger k) _ (connect_round sys ops) fuel d (λ e. connect_round-ledger e n b)
  work_item-ledger disconnect_work fuel d n b =
      loop_invariant (ledger k) _ (disconnect_round sys ops) fuel d
        (λ e. disconnect_round-ledger e n b)
