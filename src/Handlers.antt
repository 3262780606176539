-- ===== src/Handlers.antt =====
-- wdihandlers.cpp: the dispatcher of WDI commands.
pub mod Session
pub mod Tasks
pub mod CipherKeys
pub mod Answers
pub mod Acknowledged
pub mod Statistics
pub mod Offers
use wificx_skeleton.Prelude.{ℕ, Bool, true, false, Option, none, some, ltb, ◌==◌, if◌then◌else◌}
use wificx_skeleton.Platform.{
  Status, not_implemented, pending, MessageId, get_adapter_capabilities, task_open, task_close,
  set_adapter_configuration, task_set_radio_state, task_create_port, task_delete_port, task_scan,
  task_dot11_reset, get_statistics, set_location_privacy, task_connect, task_disconnect,
  set_add_cipher_keys, set_delete_cipher_keys, set_default_key_id, set_privacy_exemption_list,
  set_multicast_list, set_operation_mode, abort_task, unhandled,
}
use wificx_skeleton.Platform.System.{System}
use wificx_skeleton.Device.{Driver, completed, emit, ChipOps}
use Session.{
  Request, Reply, ack, handle_get_adapter_caps, handle_set_adapter_config, handle_create_port,
  handle_delete_port, handle_set_location_privacy, handle_task_open, handle_task_close,
  handle_set_radio_state, handle_get_statistics,
}
use Tasks.{handle_task_connect, handle_task_disconnect, handle_start_scan, handle_dot11_reset}
use CipherKeys.{
  handle_set_add_cipher_keys, handle_set_delete_cipher_keys, handle_set_default_key_id,
}

-- A handler that returns STATUS_PENDING leaves the request open.
abbrev pub is_pending : Status → Bool
is_pending pending = true
is_pending _ = false

module _ (sys : System) (ops : ChipOps) where
  -- The `switch` of WdiDispatchCommand. The four commands that it acknowledges itself, by an inline echo,
  -- are the plain `ack`.
  unfoldable pub route : MessageId → Request → Driver → Reply
  route get_adapter_capabilities r d = handle_get_adapter_caps sys r d
  route task_open r d = handle_task_open sys r d
  route task_close r d = handle_task_close sys r d
  route set_adapter_configuration r d = handle_set_adapter_config sys r d
  route task_set_radio_state r d = handle_set_radio_state sys ops r d
  route task_create_port r d = handle_create_port sys r d
  route task_delete_port r d = handle_delete_port sys r d
  route task_scan r d = handle_start_scan sys r d
  route task_dot11_reset r d = handle_dot11_reset sys r d
  route get_statistics r d = handle_get_statistics sys r d
  route set_location_privacy r d = handle_set_location_privacy sys r d
  route task_connect r d = handle_task_connect sys r d
  route task_disconnect r d = handle_task_disconnect sys r d
  route set_add_cipher_keys r d = handle_set_add_cipher_keys sys ops r d
  route set_delete_cipher_keys r d = handle_set_delete_cipher_keys sys ops r d
  route set_default_key_id r d = handle_set_default_key_id sys ops r d
  route set_privacy_exemption_list r d = ack sys r d
  route set_multicast_list r d = ack sys r d
  route set_operation_mode r d = ack sys r d
  route abort_task r d = ack sys r d
  route (unhandled id) r d = record { status = not_implemented; bytes_written = 0; driver = d }

  unfoldable pub handle : Request → Driver → Reply
  handle r d = route r.message_id r d

  -- The request's buffer is at hand while its handler runs; WifiRequestComplete hands it back.
  unfoldable pub dispatch : Request → Driver → Driver
  unfolding handle
  dispatch r d =
      let reply = handle r (record d { io = r.buffer }) in
      if is_pending reply.status
      then reply.driver
      else emit (completed reply.status reply.bytes_written reply.driver.io) reply.driver
