-- ===== src/WorkItems.antt =====
-- The five workitem callbacks of device.cpp, and the BSS list that the scan workitem sends
-- (WdiEmitBssEntryList of wdihandlers.cpp).
pub mod Loops
pub mod Effects
pub mod Completing
pub mod Rounds
pub mod Drops
pub mod Kinds
pub mod Completion
pub mod Conservation
pub mod Shortage
pub mod Ordering
pub mod Reports
use wificx_skeleton.Prelude.{
  ℕ, zero, suc, ◌+◌, ◌*◌, ◌%◌, ◌^◌, min, Bool, true, false, not, ◌||◌, List, [], ◌∷◌, Option, none,
  some, map, leb, ltb, ◌==◌, if◌then◌else◌, take,
}
use wificx_skeleton.Platform.{
  Status, success, device_not_ready, nt_success, BssEntry, scan_complete, dot11_reset_complete,
  set_radio_state_complete, connect_complete, disconnect_complete, bss_entry_list, radio_status,
}
use wificx_skeleton.Platform.System.{System}
use wificx_skeleton.Frame.{freq_to_channel, freq_to_band}
use wificx_skeleton.ScanCache.{Entry, ScanCache, snapshot}
use wificx_skeleton.TaskQueue.{pending, front, advance}
use wificx_skeleton.Device.{
  Driver, ScanTask, Task, RadioTask, ConnectTask, request_completed, emit, free_block, ChipOps,
  call_op, with_arg,
}
use wificx_skeleton.Handlers.Tasks.{zero_target}
use wificx_skeleton.Tlv.{tlv_context, indicate_task_complete, send_generated}

-- `max(0, min(100, (INT32)(2 * (rssi + 100))))` on 32-bit patterns.
pub link_quality : ℕ → ℕ
link_quality rssi =
    let q = 2 * ((rssi + 100) % 2 ^ 32) % 2 ^ 32 in if leb (2 ^ 31) q then 0 else min 100 q

-- One entry of the list.
unfoldable pub bss_entry : Entry → BssEntry
unfolding link_quality
bss_entry e = record {
  bssid = e.bssid;
  rssi = e.rssi;
  link_quality = link_quality e.rssi;
  channel_number = freq_to_channel e.frequency_mhz;
  band = freq_to_band e.frequency_mhz;
  beacon_frame = take e.beacon_length e.beacon;
  host_time_stamp = e.last_seen_tick;
}

abbrev pub zero_task : Task
zero_task = record { txn_id = 0; port_id = 0 }

abbrev pub zero_scan_task : ScanTask
zero_scan_task = record { txn_id = 0; port_id = 0; request = none }

abbrev pub zero_radio_task : RadioTask
zero_radio_task = record { txn_id = 0; port_id = 0; soft_on = false }

abbrev pub zero_connect_task : ConnectTask
zero_connect_task = record { txn_id = 0; port_id = 0; target = zero_target }

-- `while (test) { if (!round) break; }` with fuel for the rounds.
pub work_loop : (Driver → Bool) → (Driver → Bool × Driver) → ℕ → Driver → Driver
work_loop test round zero d = d
work_loop test round (suc fuel) d = elim (test d) [
  | false ↦ d
  | true ↦
      let (again, d') = round d in elim again [ false ↦ d' | true ↦ work_loop test round fuel d' ]
]

module _ (sys : System) where
  -- WdiEmitBssEntryList from its test of the cache on: both allocations may fail, and an empty cache
  -- sends nothing.
  unfoldable pub emit_entries : Option ScanCache → Driver → Driver
  unfolding bss_entry
  emit_entries none d = d
  emit_entries (some cache) d =
      let d1 : Driver = record d {
        pool_calls = d.pool_calls + 1;
        pool_blocks = d.pool_blocks + 1;
      } in
      let d2 : Driver = record d {
        pool_calls = d.pool_calls + 2;
        pool_blocks = d.pool_blocks + 2;
      } in
      let (raw_count, snap) = snapshot cache 32 in
      if sys.allocates d.pool_calls
      then if raw_count == 0
        then free_block d1
        else if sys.allocates (d.pool_calls + 1)
        then free_block (
            free_block (
              send_generated sys bss_entry_list d.active_scan_port_id
                (sys.generate_bss_entry_list (tlv_context sys d.os_wdi_version)
                  (map bss_entry snap))
                d2))
        else free_block (record d1 { pool_calls = d.pool_calls + 2 })
      else record d { pool_calls = d.pool_calls + 1 }

  unfoldable pub emit_bss_entry_list : Driver → Driver
  emit_bss_entry_list d = emit_entries d.scan_cache d

  -- WdfRequestCompleteWithInformation on the request that the slot holds, if any.
  unfoldable pub complete_request : Option ℕ → Driver → Driver
  complete_request none d = d
  complete_request (some req) d = emit (request_completed req success sys.header_size) d

module _ (sys : System) (ops : ChipOps) where
  -- One round of EvtScanCompleteWorkItem; it breaks where the indication fails, with the task left in
  -- its slot.
  unfoldable pub scan_round : Driver → Bool × Driver
  scan_round d =
      let task = front 16 zero_scan_task d.scan_queue in
      let d1 : Driver = record d {
        active_scan_port_id = task.port_id;
        active_scan_transaction_id = task.txn_id;
      } in
      let d2 = emit_bss_entry_list sys (call_op ops.start_scan d1) in
      let (status, d3) = indicate_task_complete sys scan_complete task.port_id task.txn_id d2 in
      if nt_success status
      then (
        true,
        let d4 = complete_request sys task.request d3 in
            record d4 { scan_queue = advance d4.scan_queue },
      )
      else (false, d3)

  unfoldable pub reset_round : Driver → Bool × Driver
  reset_round d =
      let task = front 16 zero_task d.reset_queue in
      let d1 = call_op ops.reset d in
      let (status, d2) =
        indicate_task_complete sys dot11_reset_complete task.port_id task.txn_id d1 in
      if nt_success status
      then (true, record d2 { reset_queue = advance d2.reset_queue })
      else (false, d2)

  -- EvtRadioStatusWorkItem ignores both outcomes.
  unfoldable pub radio_round : Driver → Bool × Driver
  radio_round d =
      let task = front 16 zero_radio_task d.radio_queue in
      let d1 = (indicate_task_complete sys set_radio_state_complete task.port_id task.txn_id d).1 in
      let d2 =
        send_generated sys radio_status 0xffff
          (sys.generate_radio_status (tlv_context sys d.os_wdi_version) true task.soft_on) d1 in
      (true, record d2 { radio_queue = advance d2.radio_queue })

  unfoldable pub connect_round : Driver → Bool × Driver
  connect_round d =
      let task = front 8 zero_connect_task d.connect_queue in
      let d1 : Driver = record d { connect_port_id = task.port_id; connect_txn_id = task.txn_id } in
      let d2 = call_op (with_arg ops.connect task.target) d1 in
      let d3 = (indicate_task_complete sys connect_complete task.port_id task.txn_id d2).1 in
      (true, record d3 { connect_queue = advance d3.connect_queue })

  unfoldable pub disconnect_round : Driver → Bool × Driver
  disconnect_round d =
      let task = front 8 zero_task d.disconnect_queue in
      let d1 = call_op ops.disconnect d in
      let d2 = (indicate_task_complete sys disconnect_complete task.port_id task.txn_id d1).1 in
      (
        true,
        record d2 {
          connect_port_id = 0;
          connect_txn_id = 0;
          disconnect_queue = advance d2.disconnect_queue;
        },
      )

  unfoldable pub scan_work_item : ℕ → Driver → Driver
  unfolding work_loop
  scan_work_item = work_loop (λ d. pending d.scan_queue) scan_round

  unfoldable pub reset_work_item : ℕ → Driver → Driver
  unfolding work_loop
  reset_work_item = work_loop (λ d. pending d.reset_queue) reset_round

  unfoldable pub radio_work_item : ℕ → Driver → Driver
  unfolding work_loop
  radio_work_item = work_loop (λ d. pending d.radio_queue) radio_round

  unfoldable pub connect_work_item : ℕ → Driver → Driver
  unfolding work_loop
  connect_work_item = work_loop (λ d. pending d.connect_queue) connect_round

  unfoldable pub disconnect_work_item : ℕ → Driver → Driver
  unfolding work_loop
  disconnect_work_item = work_loop (λ d. pending d.disconnect_queue) disconnect_round
