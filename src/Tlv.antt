-- ===== src/Tlv.antt =====
-- wdi_tlv.cpp: TLV contexts and bodies, and the two ways in which the driver sends an indication.
pub mod Indications
use wificx_skeleton.Prelude.{
  ℕ, ◌+◌, ◌-◌, Bool, true, false, List, [], ◌∷◌, Option, none, some, ltb, leb, ◌==◌, ◌||◌, ◌&&◌,
  if◌then◌else◌, take,
}
use wificx_skeleton.Platform.{
  Status, success, invalid_parameter, buffer_too_small, nt_success, Header, Message, IndicationId,
  Generated,
}
use wificx_skeleton.Platform.System.{System}
use wificx_skeleton.Device.{Driver, Event, indicated, generated_freed, emit}

-- A zeroed header with the three fields that the source sets.
abbrev pub fresh_header : ℕ → ℕ → Header
fresh_header port txn = record {
  port_id = port;
  reserved = 0;
  status = success;
  transaction_id = txn;
  ihv_specific_id = 0;
}

module _ (sys : System) where
  open sys use {header_size, version_latest, memory_create}

  -- WdiTlvContext: the version in the context.
  pub tlv_context : ℕ → ℕ
  tlv_context os_wdi_version = if os_wdi_version == 0 then version_latest else os_wdi_version

  -- WdiTlvBody: the bytes past the header, and their number.
  pub tlv_body : Option Message → ℕ → Option (List ℕ) × ℕ
  tlv_body none in_len = (none, 0)
  tlv_body (some m) in_len =
      if leb in_len header_size
      then (none, 0)
      else (some (take (in_len - header_size) m.tlv), in_len - header_size)

  -- WdfMemoryCreate.
  unfoldable pub create_memory : ℕ → Driver → Status × Driver
  create_memory size d =
      (memory_create d.memory_calls size, record d { memory_calls = d.memory_calls + 1 })

  -- WdiIndicateTaskComplete.
  unfoldable pub indicate_task_complete : IndicationId → ℕ → ℕ → Driver → Status × Driver
  unfolding create_memory
  indicate_task_complete id port txn d =
      let (status, d') = create_memory header_size d in
      if nt_success status
      then (success, emit (indicated id (record { header = fresh_header port txn; tlv = [] })) d')
      else (status, d')

  -- WdiIndicateTlv on a generated buffer (`none` is NULL). On every way out but the first the buffer is
  -- freed, and `*GenBuf` is NULL after the call.
  pub indicate_tlv : IndicationId → ℕ → ℕ → Option Message → ℕ → Driver → Status × Driver
  unfolding create_memory
  indicate_tlv id port txn none buf_len d = (invalid_parameter, d)
  indicate_tlv id port txn (some buf) buf_len d =
      let (status, d') = create_memory buf_len d in
      let message : Message = record {
        header = fresh_header port txn;
        tlv = take (buf_len - header_size) buf.tlv;
      } in
      if ltb buf_len header_size
      then (buffer_too_small, emit generated_freed d)
      else if nt_success status
      then (status, emit generated_freed (emit (indicated id message) d'))
      else (status, emit generated_freed d')

  -- What each caller of a generator does with its result: an unsolicited indication if there is a
  -- buffer and the status is success, or else a buffer is freed.
  pub send_generated : IndicationId → ℕ → Generated → Driver → Driver
  unfolding indicate_tlv
  send_generated id port g d = elim g.gen_buf [
    | none ↦ d
    | some buf ↦
        if g.ok then (indicate_tlv id port 0 (some buf) g.buf_len d).1 else emit generated_freed d
  ]
