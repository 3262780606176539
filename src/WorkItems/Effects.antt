-- ===== src/WorkItems/Effects.antt =====
-- WdiEmitBssEntryList, and link_quality: what the scan workitem tells the OS.
use wificx_skeleton.Prelude.{
  ℕ, ◌+◌, ◌*◌, ◌-◌, ◌%◌, ◌^◌, ◌≤◌, ◌≡◌, refl, inl, inr, Option, none, some, map, Bool-cases, ◌==◌,
  if◌then◌else◌, arith, ltb,
}
use wificx_skeleton.Platform.{bss_entry_list}
use wificx_skeleton.Platform.System.{System}
use wificx_skeleton.ScanCache.{ScanCache, snapshot}
use wificx_skeleton.Device.{free_block, Driver}
use wificx_skeleton.Device.Effects.{Keeps, Keeps-refl, Keeps-trans, quiet-Keeps, free_block-Keeps}
use wificx_skeleton.Tlv.{tlv_context}
use wificx_skeleton.Tlv.Indications.{send_generated-Keeps}
use wificx_skeleton.WorkItems.{link_quality, bss_entry, emit_entries, emit_bss_entry_list}

-- The quality is a percentage for every 32-bit pattern of the signal strength.
pub link_quality_bounded : (rssi : ℕ) → link_quality rssi ≤ 100
unfolding link_quality
link_quality_bounded rssi = ground arith

-- Over the dBm of a signed byte the link quality is 0 below -100 dBm, twice the distance to -100
-- from there to -50 dBm, and 100 above.
link_quality_lem :
    (dbm : ℕ)
    → dbm ≤ 255
    → link_quality ((2 ^ 32 - 128 + dbm) % 2 ^ 32)
      ≡ (if ltb dbm 28 then 0 else if ltb dbm 78 then 2 * (dbm - 28) else 100)
unfolding link_quality
link_quality_lem dbm h = ground arith

module _ (sys : System) where
  emit_entries-Keeps : (cache : Option ScanCache) (d : Driver) → Keeps d (emit_entries sys cache d)
  unfolding emit_entries
  emit_entries-Keeps none d = Keeps-refl d
  emit_entries-Keeps (some cache) d =
      let d0 : Driver = record d { pool_calls = d.pool_calls + 1 } in
      let d1 : Driver = record d {
        pool_calls = d.pool_calls + 1;
        pool_blocks = d.pool_blocks + 1;
      } in
      let d2 : Driver = record d {
        pool_calls = d.pool_calls + 2;
        pool_blocks = d.pool_blocks + 2;
      } in
      let e2 : Driver = free_block (record d1 { pool_calls = d.pool_calls + 2 }) in
      let one : Keeps d d1 = quiet-Keeps d d1 refl refl refl refl refl refl in
      let two : Keeps d d2 = quiet-Keeps d d2 refl refl refl refl refl refl in
      let g =
        sys.generate_bss_entry_list (tlv_context sys d.os_wdi_version)
          (map bss_entry (snapshot cache 32).1) in
      elim (Bool-cases (sys.allocates d.pool_calls)) [
        | inr p ↦ rw p (quiet-Keeps d d0 refl refl refl refl refl refl)
        | inl p ↦ rw p (elim (Bool-cases ((snapshot cache 32).0 == 0)) [
          | inl z ↦ rw z (free_block-Keeps one)
          | inr z ↦ rw z (elim (Bool-cases (sys.allocates (d.pool_calls + 1))) [
            | inl q ↦ rw q (
                free_block-Keeps (
                  free_block-Keeps (
                    Keeps-trans two
                      (send_generated-Keeps sys bss_entry_list d.active_scan_port_id g d2 refl))))
            | inr q ↦ rw q (quiet-Keeps d e2 refl refl refl refl refl refl)
          ])
        ])
      ]

  -- The list of networks completes no task, keeps the queues and has transaction id 0, whatever the
  -- pool, the memory and the generator do.
  pub emit_bss_entry_list-Keeps : (d : Driver) → Keeps d (emit_bss_entry_list sys d)
  unfolding emit_bss_entry_list
  emit_bss_entry_list-Keeps d = emit_entries-Keeps d.scan_cache d
