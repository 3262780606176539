-- ===== src/Handlers/Answers.antt =====
-- wdihandlers.cpp: how the dispatcher answers a command, for every command.
use wificx_skeleton.Prelude.{
  ℕ, ◌<◌, ◌≡◌, refl, ap, ap₂, ◌∙◌, inl, inr, Bool, true, false, List, ◌∷◌, Option, none, some, ltb,
  Bool-cases, Option-cases,
}
use wificx_skeleton.Platform.{
  Status, MessageId, get_adapter_capabilities, task_open, task_close, set_adapter_configuration,
  task_set_radio_state, task_create_port, task_delete_port, task_scan, task_dot11_reset,
  get_statistics, set_location_privacy, task_connect, task_disconnect, set_add_cipher_keys,
  set_delete_cipher_keys, set_default_key_id, set_privacy_exemption_list, set_multicast_list,
  set_operation_mode, abort_task, unhandled,
}
use wificx_skeleton.Platform.System.{System}
use wificx_skeleton.Keys.{KeyDescriptor}
use wificx_skeleton.Device.{Driver, ChipOps, call_op, with_arg}
use wificx_skeleton.Device.Effects.{IsLocal}
use wificx_skeleton.Tlv.{tlv_context, tlv_body}
use wificx_skeleton.Handlers.{is_pending, route, handle, dispatch}
use wificx_skeleton.Handlers.Session.{
  Request, soft_on, queue_radio, answer_radio, handle_task_open, handle_task_close,
  handle_set_radio_state,
}
use wificx_skeleton.Handlers.Tasks.{queue_reset, handle_dot11_reset}
use wificx_skeleton.Handlers.CipherKeys.{
  items, with_op, with_body, add_keys, default_key_id, handle_set_add_cipher_keys,
  handle_set_delete_cipher_keys, handle_set_default_key_id,
}
use wificx_skeleton.Handlers.Acknowledged.{
  answers, IsChipStep, program_keys-IsChipStep, if-IsChipStep, acknowledgement, Acknowledges,
  ack-Acknowledges, queue_reset-IsSilent, queue_radio-IsSilent, task_disconnect-Acknowledges,
  start_scan-Acknowledges, task_connect-Acknowledges, header_first, chip_step-Acknowledges,
}

module _ (sys : System) (ops : ChipOps) where
  with_op-IsChipStep :
      (op : Option (KeyDescriptor → Driver → Status × Driver)) (body : List ℕ) (d : Driver)
      → ops.program_key ≡ op
      → IsLocal ops
      → IsChipStep d (with_op sys ops op body d)
  unfolding with_op
  with_op-IsChipStep none body d e l = (d.fake, refl)
  with_op-IsChipStep (some op) body d e l =
      if-IsChipStep d.chip_installed d _
        (elim (Option-cases (sys.parse_add_cipher_keys (tlv_context sys d.os_wdi_version) body)) [
          | inl p ↦ rw p (d.fake, refl)
          | inr (cs, p) ↦
              rw p (program_keys-IsChipStep op (items cs) d (λ k x. l.program_key op k x e))
        ])

  pub with_body-IsChipStep :
      (body : Option (List ℕ)) (d : Driver) → IsLocal ops → IsChipStep d (with_body sys ops body d)
  unfolding with_body
  with_body-IsChipStep none d l = (d.fake, refl)
  with_body-IsChipStep (some body) d l = with_op-IsChipStep ops.program_key body d refl l

  -- The commands with an acknowledgement for an answer.
  abbrev pub is_acknowledged : MessageId → Bool
  is_acknowledged get_statistics = false
  is_acknowledged (unhandled id) = false
  is_acknowledged _ = true

  set_radio_state-Acknowledges :
      (r : Request) (d : Driver)
      → 0 < sys.header_size
      → IsLocal ops
      → d.io ≡ r.buffer
      → Acknowledges sys r d (handle_set_radio_state sys ops r d)
  unfolding handle_set_radio_state answer_radio
  set_radio_state-Acknowledges r d h l io =
      let on = soft_on sys r d in
      let d1 : Driver = record d { radio_on = on } in
      let same = l.set_radio on d1 in
      let a =
        header_first sys r (call_op (with_arg ops.set_radio on) d1) (queue_radio sys on) h
          (ap (λ x. x.io) same ∙ io) (queue_radio-IsSilent sys on) in
      record { answer = a.answer; quiet = a.quiet ∙ ap (λ x. answers x.log) same }

  route-Acknowledges :
      (id : MessageId) (r : Request) (d : Driver)
      → is_acknowledged id ≡ true
      → 0 < sys.header_size
      → IsLocal ops
      → d.io ≡ r.buffer
      → Acknowledges sys r d (route sys ops id r d)
  unfolding route handle_task_open handle_task_close handle_set_add_cipher_keys
      handle_set_delete_cipher_keys handle_set_default_key_id add_keys handle_dot11_reset
  route-Acknowledges get_adapter_capabilities r d a h l io = ack-Acknowledges sys r d d h io refl
  route-Acknowledges task_open r d a h l io = ack-Acknowledges sys r d _ h io refl
  route-Acknowledges task_close r d a h l io = ack-Acknowledges sys r d _ h io refl
  route-Acknowledges set_adapter_configuration r d a h l io = ack-Acknowledges sys r d d h io refl
  route-Acknowledges task_set_radio_state r d a h l io = set_radio_state-Acknowledges r d h l io
  route-Acknowledges task_create_port r d a h l io = ack-Acknowledges sys r d d h io refl
  route-Acknowledges task_delete_port r d a h l io = ack-Acknowledges sys r d d h io refl
  route-Acknowledges task_scan r d a h l io = start_scan-Acknowledges sys r d h io
  route-Acknowledges task_dot11_reset r d a h l io =
      header_first sys r d (queue_reset sys) h io (queue_reset-IsSilent sys)
  route-Acknowledges get_statistics r d a h l io = cc
  route-Acknowledges set_location_privacy r d a h l io = ack-Acknowledges sys r d d h io refl
  route-Acknowledges task_connect r d a h l io = task_connect-Acknowledges sys r d h io
  route-Acknowledges task_disconnect r d a h l io = task_disconnect-Acknowledges sys r d h io
  route-Acknowledges set_add_cipher_keys r d a h l io =
      chip_step-Acknowledges sys r d _ h io
        (with_body-IsChipStep (tlv_body sys (some d.io) r.in_len).0 d l)
  route-Acknowledges set_delete_cipher_keys r d a h l io =
      chip_step-Acknowledges sys r d _ h io (_, l.remove_all_keys d)
  route-Acknowledges set_default_key_id r d a h l io =
      chip_step-Acknowledges sys r d _ h io (_, l.set_default_key_id (default_key_id sys ops r d) d)
  route-Acknowledges set_privacy_exemption_list r d a h l io = ack-Acknowledges sys r d d h io refl
  route-Acknowledges set_multicast_list r d a h l io = ack-Acknowledges sys r d d h io refl
  route-Acknowledges set_operation_mode r d a h l io = ack-Acknowledges sys r d d h io refl
  route-Acknowledges abort_task r d a h l io = ack-Acknowledges sys r d d h io refl
  route-Acknowledges (unhandled id) r d a h l io = cc

  -- With a header of at least one byte, and a chip whose key and radio ops change the chip only,
  -- WdiDispatchCommand answers each command that it knows, but GET_STATISTICS, exactly once and
  -- at once. The answer is a success with a header of `header_size` bytes that echoes the port
  -- and the transaction of the request; or BUFFER_TOO_SMALL with no byte written and the buffer
  -- as it came, exactly if the output has no room for a header.
  pub dispatch_acknowledges :
      (r : Request) (d : Driver)
      → is_acknowledged r.message_id ≡ true
      → 0 < sys.header_size
      → IsLocal ops
      → answers (dispatch sys ops r d).log ≡ acknowledgement sys r ∷ answers d.log
  unfolding dispatch handle
  dispatch_acknowledges r d a h l =
      let d0 : Driver = record d { io = r.buffer } in
      let done = route-Acknowledges r.message_id r d0 a h l refl in
      let open_no_more : is_pending (route sys ops r.message_id r d0).status ≡ false =
        ap (λ x. is_pending x.0) done.answer ∙ elim (Bool-cases (ltb r.out_len sys.header_size)) [
          | inl e ↦ rw e refl
          | inr e ↦ rw e refl
        ] in
      rw open_no_more (ap₂ ◌∷◌ done.answer done.quiet)
