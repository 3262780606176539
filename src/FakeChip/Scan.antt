-- ===== src/FakeChip/Scan.antt =====
-- chip_fake.cpp with the scan workitem: what a scan of the fake chip makes the driver tell the OS.
use wificx_skeleton.Prelude.{
  sym, ℕ, ◌<◌, ◌≤◌, ◌≡◌, refl, subst, ap, ◌∙◌, true, List, [], ◌∷◌, some, length, map, All, arith,
}
use wificx_skeleton.Platform.{
  nt_success, Message, Generated, scan_complete, bss_entry_list, IndicationId,
}
use wificx_skeleton.Platform.System.{System}
use wificx_skeleton.ScanCache.{ScanCache}
use wificx_skeleton.ScanCache.Lookup.{contents}
use wificx_skeleton.ScanCache.Invariant.{IsValid}
use wificx_skeleton.FakeBss.Buffers.{IsSized}
use wificx_skeleton.FakeBss.Table.{Distinct}
use wificx_skeleton.Device.{Driver}
use wificx_skeleton.Tlv.{fresh_header, tlv_context}
use wificx_skeleton.Tlv.Indications.{sent, generated_message}
use wificx_skeleton.TaskQueue.{front}
use wificx_skeleton.WorkItems.{bss_entry, zero_scan_task, scan_round}
use wificx_skeleton.WorkItems.Reports.{listing, chip_scanned, scan_round-sent}
use wificx_skeleton.FakeChip.{fake_start_scan, fake_ops}
use wificx_skeleton.FakeChip.Heard.{
  networks, all_announced, heard, heard-contents, fake_start_scan-heard,
}

module _ (sys : System) (req resp : List ℕ) where
  -- With the memory and the pool always granting, a round of EvtScanCompleteWorkItem over the fake chip
  -- sends exactly two indications: first, under transaction id 0, the BSS_ENTRY_LIST that the
  -- generator makes of exactly the networks of the chip's table, in its order, each with its
  -- signal strength, the channel and band of its frequency, its beacon cut at 256 bytes and the
  -- tick of its turn; then the SCAN_COMPLETE of the oldest task. What the cache held before makes
  -- no difference. It holds with a valid cache with a slot for every network, at least one and at
  -- most 32 networks with different BSSIDs and beacons with all their bytes, and a generator that
  -- succeeds with a buffer that has room for a header.
  pub fake_scan-reported :
      (d : Driver) (c : ScanCache) (buf : Message) (g : Generated)
      → ((call : ℕ) → sys.allocates call ≡ true)
      → ((call size : ℕ) → nt_success (sys.memory_create call size) ≡ true)
      → d.chip_installed ≡ true
      → d.scan_cache ≡ some c
      → IsValid c
      → 0 < length (networks d)
      → length (networks d) ≤ c.max_entries
      → length (networks d) ≤ 32
      → All IsSized (networks d)
      → Distinct (networks d)
      → sys.generate_bss_entry_list
          (tlv_context sys d.os_wdi_version)
          (all_announced sys (networks d) d.tick_calls)
        ≡ g
      → g.gen_buf ≡ some buf
      → g.ok ≡ true
      → sys.header_size ≤ g.buf_len
      → let task = front 16 zero_scan_task d.scan_queue in
        sent (scan_round sys (fake_ops sys req resp) d).1.log
        ≡ (scan_complete, record { header = fresh_header task.port_id task.txn_id; tlv = [] })
          ∷ (bss_entry_list, generated_message sys task.port_id g buf)
          ∷ sent d.log
  unfolding fake_ops
  fake_scan-reported d c buf g a m on there v lo room hi sized distinct gen made ok fits =
      let ops = fake_ops sys req resp in
      let task = front 16 zero_scan_task d.scan_queue in
      let d1 : Driver = record d {
        active_scan_port_id = task.port_id;
        active_scan_transaction_id = task.txn_id;
      } in
      let d2 = chip_scanned sys ops d in
      let c2 = heard sys c d in
      let scanned : d2 ≡ (fake_start_scan sys d1).1 = rw on refl in
      let (cache, log, port, version) = fake_start_scan-heard sys d1 c there in
      let (counted, listed) = heard-contents sys c d v room sized distinct in
      let same : listing sys c2 d2 ≡ g =
        ap (λ w. sys.generate_bss_entry_list (tlv_context sys w) (map bss_entry (contents c2)))
          (ap (λ x. x.os_wdi_version) scanned ∙ version)
        ∙ ap (sys.generate_bss_entry_list (tlv_context sys d.os_wdi_version)) listed
        ∙ gen in
      let done : IndicationId × Message =
        (scan_complete, record { header = fresh_header task.port_id task.txn_id; tlv = [] }) in
      scan_round-sent sys ops d c2 buf a m (ap (λ x. x.scan_cache) scanned ∙ cache)
        (omega (arith, counted, lo)) (omega (arith, counted, hi)) (ap (λ x. x.gen_buf) same ∙ made)
        (ap (λ x. x.ok) same ∙ ok) (subst (λ x. sys.header_size ≤ x.buf_len) (sym same) fits)
      ∙ ap
          (λ l.
            done
            ∷ (bss_entry_list, generated_message sys d2.active_scan_port_id (listing sys c2 d2) buf)
            ∷ sent l)
          (ap (λ x. x.log) scanned ∙ log)
      ∙ ap
          (λ n.
            done ∷ (bss_entry_list, generated_message sys n (listing sys c2 d2) buf) ∷ sent d.log)
          (ap (λ x. x.active_scan_port_id) scanned ∙ port)
      ∙ ap (λ x. done ∷ (bss_entry_list, generated_message sys task.port_id x buf) ∷ sent d.log)
          same
