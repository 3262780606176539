-- ===== src/Handlers/Session.antt =====
-- wdihandlers.cpp: the response header, the handlers that change the session state at once, and the
-- statistics.
use wificx_skeleton.Prelude.{
  ℕ, ◌-◌, Bool, true, false, not, Option, none, some, ltb, ◌==◌, if◌then◌else◌, take,
}
use wificx_skeleton.Platform.{
  Status, success, buffer_too_small, unsuccessful, Header, Message, MessageId, Generated,
}
use wificx_skeleton.Platform.System.{System}
use wificx_skeleton.Frame.{Mac}
use wificx_skeleton.Device.{
  Driver, RadioTask, radio_work, work_enqueued, generated_freed, emit, ChipOps, call_op, with_arg,
}
use wificx_skeleton.TaskQueue.{enqueue}
use wificx_skeleton.Tlv.{tlv_context}

-- A command: its id, the in-out buffer and the two lengths.
pub record Request : Type 0 where
  pub message_id : MessageId
  pub buffer : Message
  pub in_len : ℕ
  pub out_len : ℕ

-- The status and `bytesWritten` of a handler, with the driver after it.
pub record Reply : Type 0 where
  pub status : Status
  pub bytes_written : ℕ
  pub driver : Driver

-- The answer's header echoes the port and the transaction of the header `h`.
abbrev pub echo : Header → Header
echo h = record {
  port_id = h.port_id;
  reserved = 0;
  status = success;
  transaction_id = h.transaction_id;
  ihv_specific_id = 0;
}

abbrev pub broadcast : Mac
broadcast = record { b0 = 0xff; b1 = 0xff; b2 = 0xff; b3 = 0xff; b4 = 0xff; b5 = 0xff }

module _ (sys : System) where
  -- WriteWdiResponseHeader: the bytes written, and the driver with its in-out buffer.
  unfoldable pub write_response_header : ℕ → Driver → ℕ × Driver
  write_response_header out_len d =
      if ltb out_len sys.header_size
      then (0, d)
      else (sys.header_size, record d { io = record (d.io) { header = echo d.io.header } })

  -- `*bw = WriteWdiResponseHeader(...); return *bw ? STATUS_SUCCESS : STATUS_BUFFER_TOO_SMALL;`
  unfoldable pub ack : Request → Driver → Reply
  unfolding write_response_header
  ack r d =
      let (bw, d') = write_response_header r.out_len d in
      record {
        status = if bw == 0 then buffer_too_small else success;
        bytes_written = bw;
        driver = d';
      }

  -- The handlers that only echo the header.
  abbrev pub handle_get_adapter_caps : Request → Driver → Reply
  handle_get_adapter_caps r d = ack r d

  abbrev pub handle_set_adapter_config : Request → Driver → Reply
  handle_set_adapter_config r d = ack r d

  abbrev pub handle_create_port : Request → Driver → Reply
  handle_create_port r d = ack r d

  abbrev pub handle_delete_port : Request → Driver → Reply
  handle_delete_port r d = ack r d

  abbrev pub handle_set_location_privacy : Request → Driver → Reply
  handle_set_location_privacy r d = ack r d

  unfoldable pub handle_task_open : Request → Driver → Reply
  unfolding ack
  handle_task_open r d = ack r (record d { adapter_opened = true })

  unfoldable pub handle_task_close : Request → Driver → Reply
  unfolding ack
  handle_task_close r d = ack r (record d { adapter_opened = false })

  -- The radio state that the TLV asks for: on unless it parses and says off.
  unfoldable pub soft_on : Request → Driver → Bool
  soft_on r d =
      if ltb sys.header_size r.in_len
      then elim (sys.parse_set_radio_state (tlv_context sys d.os_wdi_version)
          (take (r.in_len - sys.header_size) d.io.tlv)) [
            | some state ↦ not (state == 0)
            | none ↦ true
          ]
      else true

  -- The tail of HandleSetRadioState: the task for the radio workitem.
  unfoldable pub queue_radio : Bool → Driver → Driver
  queue_radio on d =
      let task : RadioTask = record {
        txn_id = d.io.header.transaction_id;
        port_id = d.io.header.port_id;
        soft_on = on;
      } in
      let (accepted, q) = enqueue 16 d.radio_queue task in
      let d' : Driver = record d { radio_queue = q } in
      if accepted then emit (work_enqueued radio_work) d' else d'

  -- HandleSetRadioState after the call of the chip.
  unfoldable pub answer_radio : Request → Bool → Driver → Reply
  unfolding queue_radio write_response_header
  answer_radio r on d =
      let (bw, d') = write_response_header r.out_len d in
      if bw == 0
      then record { status = buffer_too_small; bytes_written = bw; driver = d' }
      else record { status = success; bytes_written = bw; driver = queue_radio on d' }

  unfoldable pub handle_set_radio_state : ChipOps → Request → Driver → Reply
  unfolding soft_on answer_radio
  handle_set_radio_state ops r d =
      let on = soft_on r d in
      answer_radio r on (call_op (with_arg ops.set_radio on) (record d { radio_on = on }))

  -- HandleGetStatistics after the call of the generator. The copy of the generated buffer overwrites the
  -- in-out buffer, which `hdr` points to as well: what is then read through `hdr` is the generated
  -- header.
  unfoldable pub answer_statistics : Option Message → Generated → Request → Driver → Reply
  answer_statistics none g r d = record { status = unsuccessful; bytes_written = 0; driver = d }
  answer_statistics (some buf) g r d =
      let freed = emit generated_freed d in
      if g.ok
      then if ltb r.out_len g.buf_len
        then record { status = buffer_too_small; bytes_written = 0; driver = freed }
        else record {
          status = success;
          bytes_written = g.buf_len;
          driver = record (freed) {
            io = record {
              header = echo buf.header;
              tlv = take (g.buf_len - sys.header_size) buf.tlv;
            };
          };
        }
      else record { status = unsuccessful; bytes_written = 0; driver = freed }

  unfoldable pub handle_get_statistics : Request → Driver → Reply
  unfolding answer_statistics
  handle_get_statistics r d =
      let g = sys.generate_statistics (tlv_context sys d.os_wdi_version) broadcast in
      answer_statistics g.gen_buf g r d
