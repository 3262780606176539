-- ===== src/Handlers/Statistics.antt =====
-- wdihandlers.cpp: the answer to GET_STATISTICS, and to a command that the driver does not know.
use wificx_skeleton.Prelude.{
  ℕ, suc, ◌-◌, ◌≡◌, refl, inl, inr, ◌∷◌, some, ltb, Bool-cases, if◌then◌else◌, take,
}
use wificx_skeleton.Platform.{
  success, buffer_too_small, unsuccessful, not_implemented, Message, Generated, get_statistics,
  unhandled,
}
use wificx_skeleton.Platform.System.{System}
use wificx_skeleton.Device.{Driver, ChipOps, completed, emit}
use wificx_skeleton.Tlv.{tlv_context}
use wificx_skeleton.Tlv.Indications.{frees}
use wificx_skeleton.Handlers.{dispatch, handle, route}
use wificx_skeleton.Handlers.Session.{
  Request, echo, broadcast, answer_statistics, handle_get_statistics,
}
use wificx_skeleton.Handlers.Acknowledged.{answers}

module _ (sys : System) (ops : ChipOps) where
  -- What the generator makes for GET_STATISTICS.
  abbrev pub statistics : Driver → Generated
  statistics d = sys.generate_statistics (tlv_context sys d.os_wdi_version) broadcast

  -- A GET_STATISTICS for which the generator makes a buffer is answered exactly once, on every
  -- branch, and that buffer is freed exactly once. Where the answer is a success, its header
  -- carries the port and the transaction of the header that the generator made, whatever the header
  -- of the request says.
  pub dispatch-statistics :
      (r : Request) (d : Driver) (buf : Message)
      → r.message_id ≡ get_statistics
      → (statistics d).gen_buf ≡ some buf
      → let g = statistics d in
        let d' = dispatch sys ops r d in
        let copied : Message = record {
          header = echo buf.header;
          tlv = take (g.buf_len - sys.header_size) buf.tlv;
        } in
        (answers d'.log
          ≡ (if g.ok
              then (if ltb r.out_len g.buf_len
                  then (buffer_too_small, 0, r.buffer)
                  else (success, g.buf_len, copied))
              else (unsuccessful, 0, r.buffer))
            ∷ answers d.log)
        × (frees d'.log ≡ suc (frees d.log))
  unfolding dispatch handle route handle_get_statistics answer_statistics
  dispatch-statistics r d buf e made =
      rw (e, made)
        (elim (Bool-cases (statistics d).ok) [
          | inr o ↦ rw o (refl, refl)
          | inl o ↦ rw o (elim (Bool-cases (ltb r.out_len (statistics d).buf_len)) [
            | inl p ↦ rw p (refl, refl)
            | inr p ↦ rw p (refl, refl)
          ])
        ])

  -- A command that the driver does not know is answered with NOT_IMPLEMENTED and no byte written, and
  -- the driver stays as it was.
  pub dispatch_unhandled :
      (r : Request) (d : Driver) (id : ℕ)
      → r.message_id ≡ unhandled id
      → dispatch sys ops r d
        ≡ emit (completed not_implemented 0 r.buffer) (record d { io = r.buffer })
  unfolding dispatch handle route
  dispatch_unhandled r d id e = rw e refl
