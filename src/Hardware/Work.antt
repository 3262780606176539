-- ===== src/Hardware/Work.antt =====
-- The memory while the driver is at work: no command and no workitem makes or drops a scan cache, and
-- each gives back what it takes of the pool.
use wificx_skeleton.Prelude.{
  ℕ, ◌+◌, ◌-◌, arith, ◌≡◌, refl, ap, ◌∙◌, inl, inr, true, List, [], ◌∷◌, Option, none, some, map,
  Bool-cases, ◌==◌,
}
use wificx_skeleton.Platform.{
  IndicationId, scan_complete, dot11_reset_complete, set_radio_state_complete, connect_complete,
  disconnect_complete, bss_entry_list, radio_status,
}
use wificx_skeleton.Platform.System.{System}
use wificx_skeleton.ScanCache.{ScanCache, snapshot}
use wificx_skeleton.TaskQueue.{front}
use wificx_skeleton.Device.{
  memory_of, Driver, scan_work, reset_work, radio_work, connect_work, disconnect_work,
  ConnectTarget, ChipOps, call_op, with_arg,
}
use wificx_skeleton.Device.Effects.{IsLocal}
use wificx_skeleton.Tlv.{tlv_context, indicate_task_complete}
use wificx_skeleton.Tlv.Indications.{has_memory, indicate_task_complete_lem, send_generated-memory}
use wificx_skeleton.Handlers.{dispatch}
use wificx_skeleton.Handlers.Session.{Request}
use wificx_skeleton.Sessions.Views.{View, Offer, effect, offered, switched}
use wificx_skeleton.Sessions.Commands.{dispatch-view}
use wificx_skeleton.WorkItems.Kinds.{work_item}
use wificx_skeleton.Sessions.{Turn, issue, run, turn, session}
use wificx_skeleton.WorkItems.{
  zero_task, zero_scan_task, zero_radio_task, zero_connect_task, emit_entries, emit_bss_entry_list,
  bss_entry, complete_request, scan_round, reset_round, radio_round, connect_round,
  disconnect_round, scan_work_item, reset_work_item, radio_work_item, connect_work_item,
  disconnect_work_item,
}
use wificx_skeleton.WorkItems.Loops.{loop_invariant}
use wificx_skeleton.Hardware.Memory.{held, KeepsCache}

-- The ops that the workitems call make and drop no cache either, they may fill it, and give back what
-- they take of the pool.
pub record IsThrifty (ops : ChipOps) : Type 0 where
  pub start_scan_keeps : KeepsCache (call_op ops.start_scan)
  pub connect_keeps : (t : ConnectTarget) → KeepsCache (call_op (with_arg ops.connect t))
  pub disconnect_keeps : KeepsCache (call_op ops.disconnect)
  pub reset_keeps : KeepsCache (call_op ops.reset)

effect-memory : (o : Offer) (v : View) → (effect o v).2 ≡ v.2
effect-memory none v = refl
effect-memory (some (k, task)) v = refl

abbrev holds : Driver → ℕ × ℕ
holds d = held (memory_of d)

module _ (sys : System) where
  indicate-memory :
      (id : IndicationId) (port txn : ℕ) (d : Driver)
      → memory_of (indicate_task_complete sys id port txn d).1 ≡ memory_of d
  indicate-memory id port txn d =
      ap memory_of (indicate_task_complete_lem sys id port txn d).1
      ∙ elim (Bool-cases (has_memory sys sys.header_size d)) [
        | inl m ↦ rw m refl
        | inr m ↦ rw m refl
      ]

  module _ (ops : ChipOps) where
    dispatch-memory :
        (r : Request) (d : Driver) → IsLocal ops → memory_of (dispatch sys ops r d) ≡ memory_of d
    dispatch-memory r d l =
        ap (λ v. v.2) (dispatch-view sys ops r d l)
        ∙ effect-memory (offered sys r.message_id r d) (switched sys r.message_id r d)

    emit_entries-memory :
        (cache : Option ScanCache) (d : Driver) → memory_of (emit_entries sys cache d) ≡ memory_of d
    unfolding emit_entries
    emit_entries-memory none d = refl
    emit_entries-memory (some cache) d =
        let d2 : Driver = record d {
          pool_calls = d.pool_calls + 2;
          pool_blocks = d.pool_blocks + 2;
        } in
        let g =
          sys.generate_bss_entry_list (tlv_context sys d.os_wdi_version)
            (map bss_entry (snapshot cache 32).1) in
        let sent = send_generated-memory sys bss_entry_list d.active_scan_port_id g d2 in
        elim (Bool-cases (sys.allocates d.pool_calls)) [
          | inr p ↦ rw p refl
          | inl p ↦ rw p (elim (Bool-cases ((snapshot cache 32).0 == 0)) [
            | inl z ↦ rw z (ap (λ n. (d.scan_cache, n)) (omega arith))
            | inr z ↦ rw z (elim (Bool-cases (sys.allocates (d.pool_calls + 1))) [
              | inl q ↦
                  rw q
                    (ap (λ m. (m.0, m.1 - 1 - 1)) sent ∙ ap (λ n. (d.scan_cache, n)) (omega arith))
              | inr q ↦ rw q (ap (λ n. (d.scan_cache, n)) (omega arith))
            ])
          ])
        ]

    complete_request-memory :
        (req : Option ℕ) (d : Driver) → memory_of (complete_request sys req d) ≡ memory_of d
    unfolding complete_request
    complete_request-memory none d = refl
    complete_request-memory (some req) d = refl

    radio_round-holds : (d : Driver) → holds (radio_round sys ops d).1 ≡ holds d
    unfolding radio_round
    radio_round-holds d =
        let task = front 16 zero_radio_task d.radio_queue in
        let d1 =
          (indicate_task_complete sys set_radio_state_complete task.port_id task.txn_id d).1 in
        let g = sys.generate_radio_status (tlv_context sys d.os_wdi_version) true task.soft_on in
        ap held (
          send_generated-memory sys radio_status 0xffff g d1
          ∙ indicate-memory set_radio_state_complete task.port_id task.txn_id d)

    connect_round-holds : (d : Driver) → IsThrifty ops → holds (connect_round sys ops d).1 ≡ holds d
    unfolding connect_round
    connect_round-holds d t =
        let task = front 8 zero_connect_task d.connect_queue in
        let d1 : Driver = record d {
          connect_port_id = task.port_id;
          connect_txn_id = task.txn_id;
        } in
        ap held (indicate-memory connect_complete task.port_id task.txn_id _)
        ∙ t.connect_keeps task.target d1

    disconnect_round-holds :
        (d : Driver) → IsThrifty ops → holds (disconnect_round sys ops d).1 ≡ holds d
    unfolding disconnect_round
    disconnect_round-holds d t =
        let task = front 8 zero_task d.disconnect_queue in
        ap held
          (indicate-memory disconnect_complete task.port_id task.txn_id (call_op ops.disconnect d))
        ∙ t.disconnect_keeps d

    reset_round-holds : (d : Driver) → IsThrifty ops → holds (reset_round sys ops d).1 ≡ holds d
    unfolding reset_round
    reset_round-holds d t =
        let task = front 16 zero_task d.reset_queue in
        let d1 = call_op ops.reset d in
        let done =
          ap held (indicate-memory dot11_reset_complete task.port_id task.txn_id d1)
          ∙ t.reset_keeps d in
        let status =
          (indicate_task_complete_lem sys dot11_reset_complete task.port_id task.txn_id d1).0 in
        elim (Bool-cases (has_memory sys sys.header_size d1)) [
          | inl m ↦ rw (status, m) done
          | inr m ↦ rw (status, m) done
        ]

    scan_round-holds : (d : Driver) → IsThrifty ops → holds (scan_round sys ops d).1 ≡ holds d
    unfolding scan_round emit_bss_entry_list
    scan_round-holds d t =
        let task = front 16 zero_scan_task d.scan_queue in
        let d1 : Driver = record d {
          active_scan_port_id = task.port_id;
          active_scan_transaction_id = task.txn_id;
        } in
        let d2 = call_op ops.start_scan d1 in
        let d3 = emit_bss_entry_list sys d2 in
        let done =
          ap held (
            indicate-memory scan_complete task.port_id task.txn_id d3
            ∙ emit_entries-memory d2.scan_cache d2)
          ∙ t.start_scan_keeps d1 in
        let status = (indicate_task_complete_lem sys scan_complete task.port_id task.txn_id d3).0 in
        elim (Bool-cases (has_memory sys sys.header_size d3)) [
          | inl m ↦ rw (status, m) (ap held (complete_request-memory task.request _) ∙ done)
          | inr m ↦ rw (status, m) done
        ]

    turn-holds :
        (t : Turn) (d : Driver) → IsLocal ops → IsThrifty ops → holds (turn sys ops t d) ≡ holds d
    unfolding turn work_item scan_work_item reset_work_item radio_work_item connect_work_item
        disconnect_work_item
    turn-holds (issue r) d l k = ap held (dispatch-memory r d l)
    turn-holds (run scan_work fuel) d l k =
        loop_invariant holds _ (scan_round sys ops) fuel d (λ e. scan_round-holds e k)
    turn-holds (run reset_work fuel) d l k =
        loop_invariant holds _ (reset_round sys ops) fuel d (λ e. reset_round-holds e k)
    turn-holds (run radio_work fuel) d l k =
        loop_invariant holds _ (radio_round sys ops) fuel d radio_round-holds
    turn-holds (run connect_work fuel) d l k =
        loop_invariant holds _ (connect_round sys ops) fuel d (λ e. connect_round-holds e k)
    turn-holds (run disconnect_work fuel) d l k =
        loop_invariant holds _ (disconnect_round sys ops) fuel d (λ e. disconnect_round-holds e k)

    -- A session leaves a cache where one was, and none where there was none, and as many blocks in use.
    pub session-KeepsCache :
        (ts : List Turn) → IsLocal ops → IsThrifty ops → KeepsCache (session sys ops ts)
    unfolding session
    session-KeepsCache [] l k d = refl
    session-KeepsCache (t ∷ ts) l k d =
        session-KeepsCache ts l k (turn sys ops t d) ∙ turn-holds t d l k
