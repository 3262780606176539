-- ===== src/FakeChip/Association.antt =====
-- chip_fake.cpp with the connect workitem: what a connect to the fake chip makes the driver tell the OS.
use wificx_skeleton.Prelude.{
  ap₂, ℕ, ◌≤◌, ◌≡◌, refl, ap, ◌∙◌, true, false, List, [], ◌∷◌, ◌++◌, Option, none, some, length,
  All, ◌||◌, ◌==◌, arith,
}
use wificx_skeleton.Platform.{
  nt_success, Message, Generated, IndicationId, AssociationResult, connect_complete,
  association_result,
}
use wificx_skeleton.Platform.System.{System}
use wificx_skeleton.Frame.Elements.{encode}
use wificx_skeleton.FakeBss.{FakeBss}
use wificx_skeleton.FakeBss.Buffers.{HasSsid}
use wificx_skeleton.FakeAssoc.{find_bss, build_req_body, build_resp_body}
use wificx_skeleton.FakeAssoc.Bodies.{
  req_fixed, req_elements, resp_fixed, resp_elements, build_body_lem, IsFound, find_bss-IsFound,
}
use wificx_skeleton.Device.{Driver, call_op, with_arg}
use wificx_skeleton.Connect.{association_entry}
use wificx_skeleton.Connect.Effects.{emit_association_result-sent}
use wificx_skeleton.Tlv.{fresh_header, tlv_context, indicate_task_complete}
use wificx_skeleton.Tlv.Indications.{sent, generated_message, indicate_task_complete_lem}
use wificx_skeleton.TaskQueue.{front}
use wificx_skeleton.WorkItems.{zero_connect_task, connect_round}
use wificx_skeleton.FakeChip.{load_table, associate, fake_connect, fake_ops}
use wificx_skeleton.FakeChip.Heard.{networks}

-- The association result of a network: refused with status code 1, with the bodies of a request and of a
-- response as their fixed fields and elements.
abbrev pub refusal : FakeBss → AssociationResult
refusal e = record {
  bssid = e.bssid;
  succeeded = false;
  status_code = 1;
  port_authorized = false;
  request_frame = req_fixed e ++ encode (req_elements e);
  response_frame = resp_fixed e ++ encode (resp_elements e);
}

module _ (sys : System) where
  -- What the OS is told of an association with a network, or with none.
  abbrev pub told :
      (AssociationResult → Generated)
      → (AssociationResult → Message)
      → ℕ
      → Option FakeBss
      → List (IndicationId × Message)
      → List (IndicationId × Message)
  told gen buf port none before = before
  told gen buf port (some e) before =
      (association_result, generated_message sys port (gen (refusal e)) (buf (refusal e))) ∷ before

  associate-sent :
      (req resp : List ℕ) (found : Option FakeBss) (d : Driver) (buf : AssociationResult → Message)
      → ((call : ℕ) → sys.allocates call ≡ true)
      → ((call size : ℕ) → nt_success (sys.memory_create call size) ≡ true)
      → length req ≡ 128
      → length resp ≡ 128
      → IsFound found
      → let gen = sys.generate_association_result (tlv_context sys d.os_wdi_version) in
        ((x : AssociationResult)
          → ((gen x).gen_buf ≡ some (buf x))
            × ((gen x).ok ≡ true)
            × (sys.header_size ≤ (gen x).buf_len))
        → sent (associate sys req resp found d).1.log
          ≡ told gen buf d.connect_port_id found (sent d.log)
  unfolding associate association_entry
  associate-sent req resp none d buf a m n1 n2 sound gen = refl
  associate-sent req resp (some e) d buf a m n1 n2 sound gen =
      let (req', req_len) = build_req_body req 128 e in
      let (resp', resp_len) = build_resp_body resp 128 e 1 in
      let (asked, answered, some_req, some_resp, _, _) = build_body_lem req resp e sound n1 n2 in
      let whole : (req_len == 0 || resp_len == 0) ≡ false = ground arith in
      let entry : association_entry sys e.bssid req' req_len resp' resp_len 1 ≡ refusal e =
        ap₂ (λ q r. record (refusal e) { request_frame = q; response_frame = r }) asked answered in
      let g = sys.generate_association_result (tlv_context sys d.os_wdi_version) (refusal e) in
      let (made, ok, fits) = gen (refusal e) in
      rw whole (
        emit_association_result-sent sys e.bssid req' req_len resp' resp_len 1 d g (buf (refusal e))
          (a d.pool_calls) (m (d.memory_calls) g.buf_len)
          (ap (sys.generate_association_result (tlv_context sys d.os_wdi_version)) entry) made ok
          fits)

  module _ (req resp : List ℕ) where
    -- With the memory and the pool always granting, a round of EvtConnectCompleteWorkItem over the fake
    -- chip sends, for a BSSID of the chip's table, the ASSOCIATION_RESULT that the generator makes
    -- of a refusal with status code 1 and with whole bodies of a request and a response, under
    -- transaction id 0, and then the CONNECT_COMPLETE of the oldest task; for another BSSID, where
    -- FakeConnect fails, it sends only the completion. The completion has status success in both
    -- cases, which is not what wdi_chip_ops.h says of a failed Connect. It holds with stack buffers of 128 bytes, networks with SSIDs of
    -- at most 32 bytes in buffers of 32, and a generator that always succeeds with a
    -- buffer that has room for a header.
    pub fake_connect-reported :
        (d : Driver) (buf : AssociationResult → Message)
        → ((call : ℕ) → sys.allocates call ≡ true)
        → ((call size : ℕ) → nt_success (sys.memory_create call size) ≡ true)
        → d.chip_installed ≡ true
        → length req ≡ 128
        → length resp ≡ 128
        → All HasSsid (networks d)
        → let gen = sys.generate_association_result (tlv_context sys d.os_wdi_version) in
          ((x : AssociationResult)
            → ((gen x).gen_buf ≡ some (buf x))
              × ((gen x).ok ≡ true)
              × (sys.header_size ≤ (gen x).buf_len))
          → let task = front 8 zero_connect_task d.connect_queue in
            sent (connect_round sys (fake_ops sys req resp) d).1.log
            ≡ (
              connect_complete,
              record { header = fresh_header task.port_id task.txn_id; tlv = [] },
            )
              ∷ told gen buf task.port_id (find_bss (networks d) task.target.bssid) (sent d.log)
    unfolding fake_ops connect_round fake_connect
    fake_connect-reported d buf a m on n1 n2 sound gen =
        let ops = fake_ops sys req resp in
        let task = front 8 zero_connect_task d.connect_queue in
        let d1 : Driver = record d {
          connect_port_id = task.port_id;
          connect_txn_id = task.txn_id;
        } in
        let d2 = call_op (with_arg ops.connect task.target) d1 in
        let d3 = (indicate_task_complete sys connect_complete task.port_id task.txn_id d2).1 in
        let found = find_bss (networks d) task.target.bssid in
        let done : IndicationId × Message =
          (connect_complete, record { header = fresh_header task.port_id task.txn_id; tlv = [] }) in
        let connected : d2 ≡ (associate sys req resp found (load_table d1)).1 = rw on refl in
        let (status, same) =
          indicate_task_complete_lem sys connect_complete task.port_id task.txn_id d2 in
        ap (λ x. sent x.log) same
        ∙ rw (m d2.memory_calls sys.header_size) (
            ap (λ x. done ∷ sent x.log) connected
            ∙ ap (λ l. done ∷ l)
                (associate-sent req resp found (load_table d1) buf a m n1 n2
                  (find_bss-IsFound (networks d) task.target.bssid sound) gen))
