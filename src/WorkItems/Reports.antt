-- ===== src/WorkItems/Reports.antt =====
-- What a round of EvtScanCompleteWorkItem tells the OS: the list of networks, then the completion.
use wificx_skeleton.Prelude.{
  ℕ, ◌+◌, ◌<◌, ◌≤◌, ◌≡◌, refl, ap, ◌∙◌, true, false, [], ◌∷◌, Option, none, some, map, ◌==◌, arith,
}
use wificx_skeleton.Platform.{nt_success, Message, Generated, scan_complete, bss_entry_list}
use wificx_skeleton.Platform.System.{System}
use wificx_skeleton.ScanCache.{ScanCache}
use wificx_skeleton.ScanCache.Lookup.{contents}
use wificx_skeleton.ScanCache.Invariant.{snapshot_lem}
use wificx_skeleton.TaskQueue.{front}
use wificx_skeleton.Device.{Driver, ChipOps, call_op}
use wificx_skeleton.Tlv.{fresh_header, tlv_context, indicate_task_complete}
use wificx_skeleton.Tlv.Indications.{
  sent, indicate_task_complete_lem, send_generated-sent, generated_message,
}
use wificx_skeleton.WorkItems.{
  zero_scan_task, bss_entry, emit_entries, emit_bss_entry_list, complete_request, scan_round,
}

module _ (sys : System) where
  -- The request for a list of the cache's entries.
  abbrev pub listing : ScanCache → Driver → Generated
  listing c d =
      sys.generate_bss_entry_list (tlv_context sys d.os_wdi_version) (map bss_entry (contents c))

  emit_entries-sent :
      (c : ScanCache) (buf : Message) (d : Driver)
      → ((call : ℕ) → sys.allocates call ≡ true)
      → ((call size : ℕ) → nt_success (sys.memory_create call size) ≡ true)
      → 0 < c.count
      → c.count ≤ 32
      → (listing c d).gen_buf ≡ some buf
      → (listing c d).ok ≡ true
      → sys.header_size ≤ (listing c d).buf_len
      → sent (emit_entries sys (some c) d).log
        ≡ (bss_entry_list, generated_message sys d.active_scan_port_id (listing c d) buf)
          ∷ sent d.log
  unfolding emit_entries
  emit_entries-sent c buf d a m lo hi made ok fits =
      let d2 : Driver = record d {
        pool_calls = d.pool_calls + 2;
        pool_blocks = d.pool_blocks + 2;
      } in
      let g = listing c d in
      let some_entries : (c.count == 0) ≡ false = ground arith in
      rw (a d.pool_calls, a (d.pool_calls + 1), snapshot_lem c 32 hi, some_entries)
        (send_generated-sent sys bss_entry_list d.active_scan_port_id g buf d2
          (m d2.memory_calls g.buf_len) made ok fits)

  complete_request-sent :
      (req : Option ℕ) (d : Driver) → sent (complete_request sys req d).log ≡ sent d.log
  unfolding complete_request
  complete_request-sent none d = refl
  complete_request-sent (some req) d = refl

  module _ (ops : ChipOps) where
    -- The driver after the chip's scan for the oldest task.
    abbrev pub chip_scanned : Driver → Driver
    chip_scanned d =
        let task = front 16 zero_scan_task d.scan_queue in
        call_op ops.start_scan (record d {
          active_scan_port_id = task.port_id;
          active_scan_transaction_id = task.txn_id;
        })

    -- With the memory and the pool always granting, a round of EvtScanCompleteWorkItem sends, after what the
    -- chip's scan sent, exactly two indications: first the BSS_ENTRY_LIST, under transaction id 0, that
    -- the generator makes of all entries that the cache holds after the scan, none cut off; then the
    -- SCAN_COMPLETE of the oldest task. It holds where the chip leaves 1 to 32 entries, the generator
    -- succeeds and its buffer has room for a header.
    pub scan_round-sent :
        (d : Driver) (c : ScanCache) (buf : Message)
        → ((call : ℕ) → sys.allocates call ≡ true)
        → ((call size : ℕ) → nt_success (sys.memory_create call size) ≡ true)
        → (chip_scanned d).scan_cache ≡ some c
        → 0 < c.count
        → c.count ≤ 32
        → (listing c (chip_scanned d)).gen_buf ≡ some buf
        → (listing c (chip_scanned d)).ok ≡ true
        → sys.header_size ≤ (listing c (chip_scanned d)).buf_len
        → let d2 = chip_scanned d in
          let task = front 16 zero_scan_task d.scan_queue in
          sent (scan_round sys ops d).1.log
          ≡ (scan_complete, record { header = fresh_header task.port_id task.txn_id; tlv = [] })
            ∷ (bss_entry_list, generated_message sys d2.active_scan_port_id (listing c d2) buf)
            ∷ sent d2.log
    unfolding scan_round emit_bss_entry_list
    scan_round-sent d c buf a m there lo hi made ok fits =
        let d2 = chip_scanned d in
        let task = front 16 zero_scan_task d.scan_queue in
        let d3 = emit_bss_entry_list sys d2 in
        let d4 = (indicate_task_complete sys scan_complete task.port_id task.txn_id d3).1 in
        let (status, same) =
          indicate_task_complete_lem sys scan_complete task.port_id task.txn_id d3 in
        let listed =
          ap (λ o. sent (emit_entries sys o d2).log) there
          ∙ emit_entries-sent c buf d2 a m lo hi made ok fits in
        rw (status, m d3.memory_calls sys.header_size)
          (complete_request-sent task.request d4
            ∙ ap (λ x. sent x.log) same
            ∙ rw (m d3.memory_calls sys.header_size) (
                ap
                  (λ xs.
                    (
                      scan_complete,
                      record { header = fresh_header task.port_id task.txn_id; tlv = [] },
                    )
                    ∷ xs)
                  listed))
