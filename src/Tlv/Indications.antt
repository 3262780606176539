-- ===== src/Tlv/Indications.antt =====
-- What the indication helpers of wdi_tlv.cpp send and free, on every way out.
use wificx_skeleton.Prelude.{
  ℕ, suc, ◌+◌, ◌-◌, ◌≤◌, ◌≡◌, refl, ap, ◌∙◌, inl, inr, Bool, true, false, List, [], ◌∷◌, none, some,
  ltb, leb, ◌&&◌, Bool-cases, Option-cases, take_all, if◌then◌else◌, take, length, arith,
}
use wificx_skeleton.Platform.{nt_success, Message, IndicationId, Generated}
use wificx_skeleton.Platform.System.{System}
use wificx_skeleton.Device.{memory_of, Driver, Event, indicated, generated_freed, emit}
use wificx_skeleton.Device.Effects.{
  is_completion, Keeps, Keeps-refl, Keeps-trans, quiet-Keeps, freed-Keeps, unsolicited-Keeps,
}
use wificx_skeleton.Tlv.{
  fresh_header, tlv_body, indicate_task_complete, indicate_tlv, send_generated,
}

-- The number of generated buffers freed, and the messages sent under an id, newest first.
abbrev pub frees : List Event → ℕ
frees [] = 0
frees (generated_freed ∷ log) = suc (frees log)
frees (_ ∷ log) = frees log

abbrev pub sent : List Event → List (IndicationId × Message)
sent [] = []
sent (indicated id m ∷ log) = (id, m) ∷ sent log
sent (_ ∷ log) = sent log

module _ (sys : System) where
  open sys use {header_size, memory_create}

  -- The next call of WdfMemoryCreate succeeds at this size.
  abbrev pub has_memory : ℕ → Driver → Bool
  has_memory size d = nt_success (memory_create d.memory_calls size)

  -- WdiIndicateTaskComplete succeeds exactly if the memory is there. It then sends one indication, a
  -- bare header with the port and the transaction that it was given; else it sends nothing. Nothing
  -- else of the driver changes.
  pub indicate_task_complete_lem :
      (id : IndicationId) (port txn : ℕ) (d : Driver)
      → let (status, d') = indicate_task_complete sys id port txn d in
        let counted : Driver = record d { memory_calls = d.memory_calls + 1 } in
        (nt_success status ≡ has_memory header_size d)
        × (d' ≡ (
            if has_memory header_size d
            then emit (indicated id (record { header = fresh_header port txn; tlv = [] })) counted
            else counted))
  unfolding indicate_task_complete
  indicate_task_complete_lem id port txn d = elim (Bool-cases (has_memory header_size d)) [
    | inl e ↦ rw e (refl, refl)
    | inr e ↦ rw e (e, refl)
  ]

  -- WdiIndicateTlv frees a generated buffer exactly once, whatever fails. It sends exactly if the
  -- buffer has room for a header and the memory is there: one indication with the port and the
  -- transaction that it was given, and the TLV bytes of the buffer behind the header.
  pub indicate_tlv_lem :
      (id : IndicationId) (port txn : ℕ) (buf : Message) (buf_len : ℕ) (d : Driver)
      → let (status, d') = indicate_tlv sys id port txn (some buf) buf_len d in
        let message : Message = record {
          header = fresh_header port txn;
          tlv = take (buf_len - header_size) buf.tlv;
        } in
        (frees d'.log ≡ suc (frees d.log))
        × (nt_success status ≡ leb header_size buf_len && has_memory buf_len d)
        × (sent d'.log ≡ (
            if leb header_size buf_len && has_memory buf_len d
            then (id, message) ∷ sent d.log
            else sent d.log))
  unfolding indicate_tlv
  indicate_tlv_lem id port txn buf buf_len d = ground arith

  -- Of a TLV body the parsers see the bytes behind the header, as many as the input has; there is none
  -- where the input ends with its header.
  pub tlv_body_lem :
      (m : Message) (in_len : ℕ)
      → length m.tlv + header_size ≡ in_len
      → tlv_body sys (some m) in_len
        ≡ (if ltb 0 (length m.tlv) then (some m.tlv, length m.tlv) else (none, 0))
  unfolding tlv_body
  tlv_body_lem m in_len h =
      let n : in_len - header_size ≡ length m.tlv = omega arith in
      rw (n, take_all m.tlv) (ground arith)

  indicate_tlv-Keeps :
      (id : IndicationId) (port : ℕ) (buf : Message) (buf_len : ℕ) (d : Driver)
      → is_completion id ≡ false
      → Keeps d (indicate_tlv sys id port 0 (some buf) buf_len d).1
  unfolding indicate_tlv
  indicate_tlv-Keeps id port buf buf_len d h =
      let d' : Driver = record d { memory_calls = d.memory_calls + 1 } in
      let message : Message = record {
        header = fresh_header port 0;
        tlv = take (buf_len - header_size) buf.tlv;
      } in
      let counted : Keeps d d' = quiet-Keeps d d' refl refl refl refl refl refl in
      elim (Bool-cases (ltb buf_len header_size)) [
        | inl e ↦ rw e (freed-Keeps d)
        | inr e ↦ rw e (elim (Bool-cases (has_memory buf_len d)) [
          | inl m ↦ rw m (
              Keeps-trans counted (
                Keeps-trans (unsolicited-Keeps d' id message h refl)
                  (freed-Keeps (emit (indicated id message) d'))))
          | inr m ↦ rw m (Keeps-trans counted (freed-Keeps d'))
        ])
      ]

  -- Sending what a generator made, under an id that completes no task, is a step of that kind.
  pub send_generated-Keeps :
      (id : IndicationId) (port : ℕ) (g : Generated) (d : Driver)
      → is_completion id ≡ false
      → Keeps d (send_generated sys id port g d)
  unfolding send_generated
  send_generated-Keeps id port g d h = elim (Option-cases g.gen_buf) [
    | inl e ↦ rw e (Keeps-refl d)
    | inr (buf, e) ↦ rw e (elim (Bool-cases g.ok) [
      | inl o ↦ rw o (indicate_tlv-Keeps id port buf g.buf_len d h)
      | inr o ↦ rw o (freed-Keeps d)
    ])
  ]

  -- What a generator made leaves the scan cache and the pool memory alone, whatever becomes of it.
  pub send_generated-memory :
      (id : IndicationId) (port : ℕ) (g : Generated) (d : Driver)
      → memory_of (send_generated sys id port g d) ≡ memory_of d
  unfolding send_generated indicate_tlv
  send_generated-memory id port g d = elim (Option-cases g.gen_buf) [
    | inl e ↦ rw e refl
    | inr (buf, e) ↦ rw e (ground arith)
  ]

  -- A generated buffer that is sound goes to WdiIndicateTlv under transaction id 0.
  send_generated_lem :
      (id : IndicationId) (port : ℕ) (g : Generated) (buf : Message) (d : Driver)
      → g.gen_buf ≡ some buf
      → g.ok ≡ true
      → send_generated sys id port g d ≡ (indicate_tlv sys id port 0 (some buf) g.buf_len d).1
  unfolding send_generated
  send_generated_lem id port g buf d made ok = rw (made, ok) refl

  -- The message that a generated buffer becomes.
  abbrev pub generated_message : ℕ → Generated → Message → Message
  generated_message port g buf = record {
    header = fresh_header port 0;
    tlv = take (g.buf_len - header_size) buf.tlv;
  }

  -- What a generator made is sent, where it succeeded with room for a header and the memory is there.
  pub send_generated-sent :
      (id : IndicationId) (port : ℕ) (g : Generated) (buf : Message) (d : Driver)
      → has_memory g.buf_len d ≡ true
      → g.gen_buf ≡ some buf
      → g.ok ≡ true
      → header_size ≤ g.buf_len
      → sent (send_generated sys id port g d).log ≡ (id, generated_message port g buf) ∷ sent d.log
  send_generated-sent id port g buf d memory made ok fits =
      let room : (leb header_size g.buf_len && has_memory g.buf_len d) ≡ true =
        ground (arith, memory) in
      ap (λ x. sent x.log) (send_generated_lem id port g buf d made ok)
      ∙ (indicate_tlv_lem id port 0 buf g.buf_len d).2
      ∙ ap (λ b. if b then (id, generated_message port g buf) ∷ sent d.log else sent d.log) room
