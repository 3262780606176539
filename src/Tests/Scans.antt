-- ===== src/Tests/Scans.antt =====
-- Scans and connects on small instances.
use wificx_skeleton.Prelude.{◌≡◌, refl, [], ◌∷◌, some, arith, true}
use wificx_skeleton.Platform.{
  success, scan_complete, connect_complete, association_result, bss_entry_list,
}
use wificx_skeleton.Frame.{Mac, mac_equal}
use wificx_skeleton.ScanCache.{ScanCache, zero_entry, empty_cache, create}
use wificx_skeleton.ScanCache.Invariant.{IsValid, create-IsValid}
use wificx_skeleton.FakeBss.{initial_table, get_table, build_ies, build_beacon_body}
use wificx_skeleton.FakeAssoc.{find_bss}
use wificx_skeleton.FakeBss.Table.{
  initial_table-IsSized, initial_table-HasSsid, initial_table-Distinct, length-initial_table,
}
use wificx_skeleton.FakeChip.Scan.{fake_scan-reported}
use wificx_skeleton.Device.{Driver, ChipOps}
use wificx_skeleton.Tlv.{fresh_header}
use wificx_skeleton.Tlv.Indications.{sent}
use wificx_skeleton.TaskQueue.{front}
use wificx_skeleton.WorkItems.{scan_round, connect_round}
use wificx_skeleton.FakeChip.Association.{fake_connect-reported}
use wificx_skeleton.Handlers.Tasks.{zero_target}
use wificx_skeleton.WorkItems.Reports.{scan_round-sent}
use wificx_skeleton.Tests.{system, ops, driver, message_of, stack_buffer, generated}

-- The test driver with the scan cache of a device that came up.
abbrev with_cache : Driver
with_cache = record (driver) { scan_cache = some (empty_cache 32) }

empty_cache-IsValid : IsValid (empty_cache 32)
unfolding create
empty_cache-IsValid = (create-IsValid 32 true refl).0

fake_scan-reported_example :
    sent (scan_round system ops with_cache).1.log
    ≡ (scan_complete, record { header = fresh_header 1 7; tlv = [] })
      ∷ (bss_entry_list, record { header = fresh_header 1 0; tlv = [] })
      ∷ []
unfolding front initial_table
fake_scan-reported_example =
    fake_scan-reported system stack_buffer stack_buffer with_cache (empty_cache 32)
      (message_of 9 99) generated (λ call. refl) (λ call size. refl) refl refl empty_cache-IsValid
      (omega (arith, length-initial_table)) (omega (arith, length-initial_table))
      (omega (arith, length-initial_table)) initial_table-IsSized initial_table-Distinct refl refl
      refl (omega arith)

-- A backend that finds one network at every scan.
abbrev found_one : ScanCache
found_one = record { max_entries = 2; count = 1; entries = zero_entry ∷ zero_entry ∷ [] }

abbrev finding : ChipOps
finding = record (ops) {
  start_scan = some (λ d. (success, record d { scan_cache = some found_one }));
}

scan_round-sent_example :
    sent (scan_round system finding driver).1.log
    ≡ (scan_complete, record { header = fresh_header 1 7; tlv = [] })
      ∷ (bss_entry_list, record { header = fresh_header 1 0; tlv = [] })
      ∷ []
unfolding front
scan_round-sent_example =
    scan_round-sent system finding driver found_one (message_of 9 99) (λ call. refl)
      (λ call size. refl) refl (omega arith) (omega arith) refl refl (omega arith)

-- The second network of the fake chip.
abbrev fake_home : Mac
fake_home = record { b0 = 0x02; b1 = 0xaa; b2 = 0xbb; b3 = 0; b4 = 0; b5 = 2 }

-- The test driver with a task to connect to the second network.
abbrev connecting : Driver
connecting = record (driver) {
  connect_queue = record {
    slots =
        record { txn_id = 7; port_id = 1; target = record (zero_target) { bssid = fake_home } }
        ∷ [];
    head = 0;
    tail = 1;
  };
}

fake_connect-reported_example :
    sent (connect_round system ops connecting).1.log
    ≡ (connect_complete, record { header = fresh_header 1 7; tlv = [] })
      ∷ (association_result, record { header = fresh_header 1 0; tlv = [] })
      ∷ []
unfolding front initial_table get_table build_ies build_beacon_body find_bss mac_equal
fake_connect-reported_example =
    fake_connect-reported system stack_buffer stack_buffer connecting (λ x. message_of 9 99)
      (λ call. refl) (λ call size. refl) refl refl refl initial_table-HasSsid
      (λ x. (refl, refl, omega arith))
