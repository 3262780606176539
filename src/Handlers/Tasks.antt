-- ===== src/Handlers/Tasks.antt =====
-- wdihandlers.cpp: the handlers that queue a task for a workitem and answer at once.
use wificx_skeleton.Prelude.{
  ◌%◌, Bool, true, false, ◌&&◌, List, [], ◌∷◌, Option, none, some, ltb, leb, ◌==◌, if◌then◌else◌,
  take, replicate, copy_memory, get_elem?,
}
use wificx_skeleton.Platform.{
  success, buffer_too_small, Array, ConnectParameters, AuthAlgorithm, auth_rsna, auth_rsna_psk,
}
use wificx_skeleton.Platform.System.{System}
use wificx_skeleton.Keys.{zero_mac}
use wificx_skeleton.Device.{
  Driver, Task, ScanTask, ConnectTask, ConnectTarget, scan_work, reset_work, connect_work,
  disconnect_work, work_enqueued, emit,
}
use wificx_skeleton.TaskQueue.{enqueue}
use wificx_skeleton.Tlv.{tlv_context, tlv_body}
use wificx_skeleton.Handlers.Session.{Request, Reply, ack, write_response_header}

-- `RtlZeroMemory(&target, sizeof(target))`.
abbrev pub zero_target : ConnectTarget
zero_target = record {
  bssid = zero_mac;
  channel = 0;
  ssid_len = 0;
  ssid = replicate 32 0;
  use_rsn = false;
}

-- The first element, where the count is positive and the pointer is not null.
abbrev first_of_array {ℓ} : {A : Type ℓ} → Array A → Option A
first_of_array a = elim a.elements [
  | none ↦ none
  | some xs ↦ if ltb 0 a.element_count then get_elem? xs 0 else none
]

take_bss : ConnectParameters → ConnectTarget → ConnectTarget
take_bss cp t = elim (first_of_array cp.preferred_bss_entries) [
  | none ↦ t
  | some be ↦ record t { bssid = be.bssid; channel = be.channel_number % 256 }
]

-- An SSID of 1 to 32 bytes is taken over, any other is passed over.
take_ssid : ConnectParameters → ConnectTarget → ConnectTarget
take_ssid cp t = elim (first_of_array cp.ssids) [
  | none ↦ t
  | some s ↦ elim s.elements [
    | none ↦ t
    | some bytes ↦
        if leb 1 s.element_count && leb s.element_count 32
        then record t {
          ssid_len = s.element_count % 256;
          ssid = copy_memory t.ssid bytes s.element_count;
        }
        else t
  ]
]

abbrev is_rsn : AuthAlgorithm → Bool
is_rsn auth_rsna = true
is_rsn auth_rsna_psk = true
is_rsn _ = false

-- The loop over the authentication algorithms, which stops at the first RSN one.
has_rsn : List AuthAlgorithm → Bool
has_rsn [] = false
has_rsn (a ∷ as') = if is_rsn a then true else has_rsn as'

abbrev items {ℓ} : {A : Type ℓ} → Array A → List A
items a = elim a.elements [ none ↦ [] | some xs ↦ take a.element_count xs ]

take_auth : ConnectParameters → ConnectTarget → ConnectTarget
unfolding has_rsn
take_auth cp t = if has_rsn (items cp.auth_algorithms) then record t { use_rsn = true } else t

module _ (sys : System) where
  -- The target that HandleTaskConnect reads from the TLV body, if there is one and it parses.
  unfoldable pub connect_target : Request → Driver → ConnectTarget
  unfolding take_bss take_ssid take_auth
  connect_target r d = elim (tlv_body sys (some d.io) r.in_len).0 [
    | none ↦ zero_target
    | some body ↦ elim (sys.parse_connect (tlv_context sys d.os_wdi_version) body) [
      | none ↦ zero_target
      | some cp ↦ take_auth cp (take_ssid cp (take_bss cp zero_target))
    ]
  ]

  unfoldable pub queue_connect : ConnectTarget → Driver → Driver
  queue_connect target d =
      let task : ConnectTask = record {
        txn_id = d.io.header.transaction_id;
        port_id = d.io.header.port_id;
        target = target;
      } in
      let (accepted, q) = enqueue 8 d.connect_queue task in
      let d' : Driver = record d { connect_queue = q } in
      if accepted then emit (work_enqueued connect_work) d' else d'

  unfoldable pub handle_task_connect : Request → Driver → Reply
  unfolding queue_connect ack
  handle_task_connect r d =
      ack sys r (if d.radio_on then queue_connect (connect_target r d) d else d)

  unfoldable pub handle_task_disconnect : Request → Driver → Reply
  unfolding ack
  handle_task_disconnect r d =
      let task : Task = record {
        txn_id = d.io.header.transaction_id;
        port_id = d.io.header.port_id;
      } in
      let (accepted, q) = enqueue 8 d.disconnect_queue task in
      let d' : Driver = record d { disconnect_queue = q } in
      ack sys r (if accepted then emit (work_enqueued disconnect_work) d' else d')

  unfoldable pub queue_scan : Driver → Driver
  queue_scan d =
      let task : ScanTask = record {
        txn_id = d.io.header.transaction_id;
        port_id = d.io.header.port_id;
        request = none;
      } in
      let (accepted, q) = enqueue 16 d.scan_queue task in
      let d' : Driver = record d { scan_queue = q } in
      if accepted
      then emit (work_enqueued scan_work) (record d' {
        active_scan_port_id = task.port_id;
        active_scan_transaction_id = task.txn_id;
      })
      else d'

  unfoldable pub handle_start_scan : Request → Driver → Reply
  unfolding queue_scan ack
  handle_start_scan r d = ack sys r (if d.radio_on then queue_scan d else d)

  unfoldable pub queue_reset : Driver → Driver
  queue_reset d =
      let task : Task = record {
        txn_id = d.io.header.transaction_id;
        port_id = d.io.header.port_id;
      } in
      let (accepted, q) = enqueue 16 d.reset_queue task in
      let d' : Driver = record d { reset_queue = q } in
      if accepted then emit (work_enqueued reset_work) d' else d'

  -- The header is written first here, and nothing is queued where it does not fit.
  unfoldable pub handle_dot11_reset : Request → Driver → Reply
  unfolding queue_reset write_response_header
  handle_dot11_reset r d =
      let (bw, d') = write_response_header sys r.out_len d in
      if bw == 0
      then record { status = buffer_too_small; bytes_written = bw; driver = d' }
      else record { status = success; bytes_written = bw; driver = queue_reset d' }
