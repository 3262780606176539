-- ===== src/Connect.antt =====
-- wdi_connect.cpp: the indications about an association that a chip backend sends.
pub mod Effects
use wificx_skeleton.Prelude.{
  ℕ, ◌+◌, ◌<◌, Bool, true, false, ◌&&◌, List, Option, none, some, leb, ltb, ◌==◌, if◌then◌else◌,
  take,
}
use wificx_skeleton.Platform.{
  IndicationId, association_result, disassociation, AssociationResult, Disassociation,
}
use wificx_skeleton.Platform.System.{System}
use wificx_skeleton.Frame.{Mac}
use wificx_skeleton.Device.{Driver, free_block}
use wificx_skeleton.Tlv.{tlv_context, send_generated}

module _ (sys : System) where
  -- The fields of the container that depend on the arguments; the others are constants.
  unfoldable pub association_entry : Mac → List ℕ → ℕ → List ℕ → ℕ → ℕ → AssociationResult
  association_entry peer req req_len resp resp_len status_code = record {
    bssid = peer;
    succeeded = status_code == 0;
    status_code = status_code;
    port_authorized = if status_code == 0 then true else false;
    request_frame = take req_len req;
    response_frame = take resp_len resp;
  }

  -- WdiEmitAssociationResult. Its assertions on the bodies are `FakeAssoc.Bodies.build_body_lem`'s.
  pub emit_association_result : Mac → List ℕ → ℕ → List ℕ → ℕ → ℕ → Driver → Driver
  unfolding association_entry
  emit_association_result peer req req_len resp resp_len status_code d =
      let d' : Driver = record d {
        pool_calls = d.pool_calls + 1;
        pool_blocks = d.pool_blocks + 1;
      } in
      let g =
        sys.generate_association_result (tlv_context sys d.os_wdi_version)
          (association_entry peer req req_len resp resp_len status_code) in
      if sys.allocates d.pool_calls
      then free_block (send_generated sys association_result d.connect_port_id g d')
      else record d { pool_calls = d.pool_calls + 1 }

  -- WdiEmitDisassociation; `none` is a null body.
  disassociation_parameters : Mac → Bool → Option (List ℕ) → ℕ → Disassociation
  disassociation_parameters peer is_disassoc none body_len = record {
    mac_address = peer;
    peer_disassociated = is_disassoc;
    disassociation_frame = none;
    deauth_frame = none;
  }
  disassociation_parameters peer is_disassoc (some body) body_len = record {
    mac_address = peer;
    peer_disassociated = is_disassoc;
    disassociation_frame =
        if ltb 0 body_len && is_disassoc then some (take body_len body) else none;
    deauth_frame =
        if ltb 0 body_len && (if is_disassoc then false else true)
        then some (take body_len body)
        else none;
  }

  pub emit_disassociation : Mac → Bool → ℕ → Option (List ℕ) → ℕ → Driver → Driver
  unfolding disassociation_parameters
  emit_disassociation peer is_disassoc reason_code body body_len d =
      send_generated sys disassociation d.connect_port_id
        (sys.generate_disassociation (tlv_context sys d.os_wdi_version)
          (disassociation_parameters peer is_disassoc body body_len))
        d
