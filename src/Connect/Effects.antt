-- ===== src/Connect/Effects.antt =====
-- wdi_connect.cpp: the indications about an association are unsolicited.
use wificx_skeleton.Prelude.{
  arith, ℕ, ◌+◌, ◌-◌, ap, ◌∙◌, ◌≤◌, ◌∷◌, some, true, ◌≡◌, refl, inl, inr, Bool, List, Option,
  Bool-cases,
}
use wificx_skeleton.Platform.{association_result, disassociation, Generated, Message}
use wificx_skeleton.Platform.System.{System}
use wificx_skeleton.Frame.{Mac}
use wificx_skeleton.Device.{Driver, memory_of}
use wificx_skeleton.Device.Effects.{Keeps, Keeps-trans, quiet-Keeps, free_block-Keeps}
use wificx_skeleton.Tlv.{tlv_context}
use wificx_skeleton.Tlv.Indications.{
  send_generated-Keeps, send_generated-memory, send_generated-sent, generated_message, sent,
  has_memory,
}
use wificx_skeleton.Connect.{
  association_entry, disassociation_parameters, emit_association_result, emit_disassociation,
}

module _ (sys : System) where
  -- An association result completes no task, keeps the queues and has transaction id 0, whatever the
  -- memory, the pool and the generator do.
  pub emit_association_result-Keeps :
      (peer : Mac) (req : List ℕ) (req_len : ℕ) (resp : List ℕ) (resp_len status_code : ℕ)
      (d : Driver)
      → Keeps d (emit_association_result sys peer req req_len resp resp_len status_code d)
  unfolding emit_association_result
  emit_association_result-Keeps peer req req_len resp resp_len status_code d =
      let d' : Driver = record d {
        pool_calls = d.pool_calls + 1;
        pool_blocks = d.pool_blocks + 1;
      } in
      let counted : Keeps d d' = quiet-Keeps d d' refl refl refl refl refl refl in
      let refused : Driver = record d { pool_calls = d.pool_calls + 1 } in
      elim (Bool-cases (sys.allocates d.pool_calls)) [
        | inl e ↦ rw e (
            free_block-Keeps (
              Keeps-trans counted (
                send_generated-Keeps sys association_result d.connect_port_id
                  (sys.generate_association_result (tlv_context sys d.os_wdi_version)
                    (association_entry sys peer req req_len resp resp_len status_code))
                  d' refl)))
        | inr e ↦ rw e (quiet-Keeps d refused refl refl refl refl refl refl)
      ]

  -- So is a disassociation.
  pub emit_disassociation-Keeps :
      (peer : Mac) (is_disassoc : Bool) (reason_code : ℕ) (body : Option (List ℕ)) (body_len : ℕ)
      (d : Driver)
      → Keeps d (emit_disassociation sys peer is_disassoc reason_code body body_len d)
  unfolding emit_disassociation
  emit_disassociation-Keeps peer is_disassoc reason_code body body_len d =
      send_generated-Keeps sys disassociation d.connect_port_id
        (sys.generate_disassociation (tlv_context sys d.os_wdi_version)
          (disassociation_parameters sys peer is_disassoc body body_len))
        d refl

  -- An association result leaves the scan cache alone and gives back the pool memory that it takes.
  pub emit_association_result-memory :
      (peer : Mac) (req : List ℕ) (req_len : ℕ) (resp : List ℕ) (resp_len status_code : ℕ)
      (d : Driver)
      → memory_of (emit_association_result sys peer req req_len resp resp_len status_code d)
        ≡ memory_of d
  unfolding emit_association_result
  emit_association_result-memory peer req req_len resp resp_len status_code d =
      let d' : Driver = record d {
        pool_calls = d.pool_calls + 1;
        pool_blocks = d.pool_blocks + 1;
      } in
      let sent =
        send_generated-memory sys association_result d.connect_port_id
          (sys.generate_association_result (tlv_context sys d.os_wdi_version)
            (association_entry sys peer req req_len resp resp_len status_code))
          d' in
      elim (Bool-cases (sys.allocates d.pool_calls)) [
        | inl e ↦ rw e (ap (λ m. (m.0, m.1 - 1)) sent ∙ ap (λ n. (d.scan_cache, n)) (omega arith))
        | inr e ↦ rw e refl
      ]

  -- With the pool and the memory granting, and a generator that succeeds, it is sent.
  pub emit_association_result-sent :
      (peer : Mac) (req : List ℕ) (req_len : ℕ) (resp : List ℕ) (resp_len status_code : ℕ)
      (d : Driver) (g : Generated) (buf : Message)
      → sys.allocates d.pool_calls ≡ true
      → has_memory sys g.buf_len d ≡ true
      → sys.generate_association_result
          (tlv_context sys d.os_wdi_version)
          (association_entry sys peer req req_len resp resp_len status_code)
        ≡ g
      → g.gen_buf ≡ some buf
      → g.ok ≡ true
      → sys.header_size ≤ g.buf_len
      → sent (emit_association_result sys peer req req_len resp resp_len status_code d).log
        ≡ (association_result, generated_message sys d.connect_port_id g buf) ∷ sent d.log
  unfolding emit_association_result
  emit_association_result-sent peer req req_len resp resp_len status_code d g buf a m same made ok
        fits =
      rw (a, same)
        (send_generated-sent sys association_result d.connect_port_id g buf
          (record d { pool_calls = d.pool_calls + 1; pool_blocks = d.pool_blocks + 1 }) m made ok
          fits)
