-- ===== src/Sessions/Commands.antt =====
-- wdihandlers.cpp: what a command does to the five queues and to the event log, in one equation.
use wificx_skeleton.Prelude.{
  ◌≡◌, refl, ap, ◌∙◌, inl, inr, Bool, true, false, Option, none, some, ltb, ◌==◌, Bool-cases,
  if◌then◌else◌, arith,
}
use wificx_skeleton.Platform.{
  Message, MessageId, get_adapter_capabilities, task_open, task_close, set_adapter_configuration,
  task_set_radio_state, task_create_port, task_delete_port, task_scan, task_dot11_reset,
  get_statistics, set_location_privacy, task_connect, task_disconnect, set_add_cipher_keys,
  set_delete_cipher_keys, set_default_key_id, set_privacy_exemption_list, set_multicast_list,
  set_operation_mode, abort_task, unhandled, Generated,
}
use wificx_skeleton.Platform.System.{System}
use wificx_skeleton.Device.{
  Driver, ConnectTarget, scan_work, reset_work, radio_work, connect_work, ChipOps,
}
use wificx_skeleton.Device.Effects.{IsLocal}
use wificx_skeleton.Tlv.{tlv_body, tlv_context}
use wificx_skeleton.Handlers.{dispatch, route}
use wificx_skeleton.Handlers.Session.{
  Request, echo, ack, soft_on, queue_radio, write_response_header, answer_radio, handle_task_open,
  handle_task_close, handle_set_radio_state, answer_statistics, broadcast, handle_get_statistics,
}
use wificx_skeleton.Handlers.Tasks.{
  connect_target, queue_connect, queue_scan, queue_reset, handle_task_connect,
  handle_task_disconnect, handle_start_scan, handle_dot11_reset,
}
use wificx_skeleton.Handlers.CipherKeys.{
  add_keys, default_key_id, handle_set_add_cipher_keys, handle_set_delete_cipher_keys,
  handle_set_default_key_id,
}
use wificx_skeleton.Handlers.Acknowledged.{IsChipStep}
use wificx_skeleton.Handlers.Answers.{with_body-IsChipStep}
use wificx_skeleton.Handlers.Offers.{scan_task, connect_task, dispatch_view, ack_view}
use wificx_skeleton.Sessions.Views.{
  view, offer_to, Offer, effect, at_hand, is_unanswered, offered, switched,
}

module _ (sys : System) where
  queue_scan-view :
      (d : Driver)
      → view (queue_scan sys d)
        ≡ offer_to scan_work
            (record {
              txn_id = d.io.header.transaction_id;
              port_id = d.io.header.port_id;
              request = none;
            })
            (view d)
  unfolding queue_scan
  queue_scan-view d = ground arith

  queue_connect-view :
      (t : ConnectTarget) (d : Driver)
      → view (queue_connect sys t d)
        ≡ offer_to connect_work
            (record {
              txn_id = d.io.header.transaction_id;
              port_id = d.io.header.port_id;
              target = t;
            })
            (view d)
  unfolding queue_connect
  queue_connect-view t d = ground arith

  queue_reset-view :
      (d : Driver)
      → view (queue_reset sys d)
        ≡ offer_to reset_work
            (record { txn_id = d.io.header.transaction_id; port_id = d.io.header.port_id })
            (view d)
  unfolding queue_reset
  queue_reset-view d = ground arith

  queue_radio-view :
      (on : Bool) (d : Driver)
      → view (queue_radio sys on d)
        ≡ offer_to radio_work
            (record {
              txn_id = d.io.header.transaction_id;
              port_id = d.io.header.port_id;
              soft_on = on;
            })
            (view d)
  unfolding queue_radio
  queue_radio-view on d = ground arith

  ack-view : (r : Request) (d : Driver) → view (ack sys r d).driver ≡ view d
  ack-view r d = ack_view sys view r d (λ m x. refl)

  chip_step-view :
      (r : Request) (d e : Driver) → IsChipStep d e → view (ack sys r e).driver ≡ view d
  chip_step-view r d e (f, same) = ack-view r e ∙ ap view same

  -- An offer under a test.
  if_offer :
      (b : Bool) (e d : Driver) (o : Offer)
      → view e ≡ effect o (view d)
      → view (if b then e else d) ≡ effect (if b then o else none) (view d)
  if_offer true e d o h = h
  if_offer false e d o h = refl

  task_scan-view :
      (r : Request) (d : Driver)
      → view (handle_start_scan sys r (at_hand r d)).driver
        ≡ effect (offered sys task_scan r d) (view d)
  unfolding handle_start_scan
  task_scan-view r d =
      ack-view r _
      ∙ if_offer d.radio_on (queue_scan sys (at_hand r d)) (at_hand r d)
          (some (scan_work, scan_task r)) (queue_scan-view (at_hand r d))

  task_connect-view :
      (r : Request) (d : Driver)
      → view (handle_task_connect sys r (at_hand r d)).driver
        ≡ effect (offered sys task_connect r d) (view d)
  unfolding handle_task_connect
  task_connect-view r d =
      let t = connect_target sys r (at_hand r d) in
      ack-view r _
      ∙ if_offer d.radio_on (queue_connect sys t (at_hand r d)) (at_hand r d)
          (some (connect_work, connect_task r t)) (queue_connect-view t (at_hand r d))

  task_disconnect-view :
      (r : Request) (d : Driver)
      → view (handle_task_disconnect sys r (at_hand r d)).driver
        ≡ effect (offered sys task_disconnect r d) (view d)
  unfolding handle_task_disconnect
  task_disconnect-view r d = ack-view r _ ∙ ground arith

  -- The answers whose header is written first.
  dot11_reset-view :
      (r : Request) (d : Driver)
      → view (handle_dot11_reset sys r (at_hand r d)).driver
        ≡ effect (offered sys task_dot11_reset r d) (view d)
  unfolding handle_dot11_reset write_response_header
  dot11_reset-view r d = elim (Bool-cases (ltb r.out_len sys.header_size)) [
    | inl p ↦ rw p refl
    | inr p ↦ rw p (elim (Bool-cases (sys.header_size == 0)) [
      | inl z ↦ rw z refl
      | inr z ↦
          rw z (
            queue_reset-view
              (record d { io = record (r.buffer) { header = echo r.buffer.header } }))
    ])
  ]

  answer_radio-view :
      (r : Request) (on : Bool) (d : Driver)
      → view (answer_radio sys r on d).driver
        ≡ effect
            (if is_unanswered sys r
              then none
              else some (
                radio_work,
                record {
                  txn_id = d.io.header.transaction_id;
                  port_id = d.io.header.port_id;
                  soft_on = on;
                },
              ))
            (view d)
  unfolding answer_radio write_response_header
  answer_radio-view r on d = elim (Bool-cases (ltb r.out_len sys.header_size)) [
    | inl p ↦ rw p refl
    | inr p ↦ rw p (elim (Bool-cases (sys.header_size == 0)) [
      | inl z ↦ rw z refl
      | inr z ↦
          rw z (queue_radio-view on (record d { io = record (d.io) { header = echo d.io.header } }))
    ])
  ]

  answer_statistics-view :
      (buf : Option Message) (g : Generated) (r : Request) (d : Driver)
      → view (answer_statistics sys buf g r d).driver ≡ view d
  unfolding answer_statistics
  answer_statistics-view none g r d = refl
  answer_statistics-view (some buf) g r d = ground arith

  module _ (ops : ChipOps) where
    route-view :
        (id : MessageId) (r : Request) (d : Driver)
        → IsLocal ops
        → view (route sys ops id r (at_hand r d)).driver
          ≡ effect (offered sys id r d) (switched sys id r d)
    unfolding route handle_task_open handle_task_close handle_set_radio_state handle_get_statistics
        handle_set_add_cipher_keys handle_set_delete_cipher_keys handle_set_default_key_id add_keys
    route-view get_adapter_capabilities r d l = ack-view r _
    route-view task_open r d l = ack-view r _
    route-view task_close r d l = ack-view r _
    route-view set_adapter_configuration r d l = ack-view r _
    route-view task_set_radio_state r d l =
        let on = soft_on sys r (at_hand r d) in
        let called = l.set_radio on (record (at_hand r d) { radio_on = on }) in
        ap (λ x. view (answer_radio sys r on x).driver) called ∙ answer_radio-view r on _
    route-view task_create_port r d l = ack-view r _
    route-view task_delete_port r d l = ack-view r _
    route-view task_scan r d l = task_scan-view r d
    route-view task_dot11_reset r d l = dot11_reset-view r d
    route-view get_statistics r d l =
        let g = sys.generate_statistics (tlv_context sys d.os_wdi_version) broadcast in
        answer_statistics-view g.gen_buf g r (at_hand r d)
    route-view set_location_privacy r d l = ack-view r _
    route-view task_connect r d l = task_connect-view r d
    route-view task_disconnect r d l = task_disconnect-view r d
    route-view set_add_cipher_keys r d l =
        chip_step-view r (at_hand r d) _
          (with_body-IsChipStep sys ops (tlv_body sys (some r.buffer) r.in_len).0 (at_hand r d) l)
    route-view set_delete_cipher_keys r d l =
        chip_step-view r (at_hand r d) _ (_, l.remove_all_keys (at_hand r d))
    route-view set_default_key_id r d l =
        chip_step-view r (at_hand r d) _
          (_, l.set_default_key_id (default_key_id sys ops r (at_hand r d)) (at_hand r d))
    route-view set_privacy_exemption_list r d l = ack-view r _
    route-view set_multicast_list r d l = ack-view r _
    route-view set_operation_mode r d l = ack-view r _
    route-view abort_task r d l = ack-view r _
    route-view (unhandled id) r d l = refl

    -- A command puts the task that it offers to the queue of its kind, enqueues the workitem exactly if
    -- that queue accepts it, and leaves the other queues, the indications and the scan cache alone. Only
    -- SET_RADIO_STATE sets the radio state.
    pub dispatch-view :
        (r : Request) (d : Driver)
        → IsLocal ops
        → view (dispatch sys ops r d)
          ≡ effect (offered sys r.message_id r d) (switched sys r.message_id r d)
    dispatch-view r d l =
        dispatch_view sys view ops r.message_id r d (λ s n m x. refl) refl
        ∙ route-view r.message_id r d l
