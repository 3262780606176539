-- ===== src/Handlers/Acknowledged.antt =====
-- wdihandlers.cpp: the handlers that answer at once with an acknowledgement.
use wificx_skeleton.Prelude.{
  ℕ, ◌<◌, ◌≡◌, refl, ap, ◌∙◌, inl, inr, Bool, true, false, List, [], ◌∷◌, ltb, ◌==◌, Bool-cases,
  if◌then◌else◌, arith,
}
use wificx_skeleton.Platform.{Status, success, buffer_too_small, Message}
use wificx_skeleton.Platform.System.{System}
use wificx_skeleton.Keys.{KeyContainer, KeyDescriptor, key_from_container}
use wificx_skeleton.Device.{Driver, Event, completed, FakeChip, ConnectTarget}
use wificx_skeleton.Handlers.Session.{Request, Reply, echo, ack, queue_radio, write_response_header}
use wificx_skeleton.Handlers.Tasks.{
  connect_target, queue_connect, queue_scan, queue_reset, handle_task_connect,
  handle_task_disconnect, handle_start_scan,
}
use wificx_skeleton.Handlers.CipherKeys.{program_keys}

-- The requests completed so far, newest first: status, bytes written and the in-out buffer.
abbrev pub answers : List Event → List (Status × ℕ × Message)
answers [] = []
answers (completed s n m ∷ log) = (s, n, m) ∷ answers log
answers (_ ∷ log) = answers log

-- A step that changes the chip only.
abbrev pub IsChipStep : Driver → Driver → Type 0
IsChipStep d e = (f : FakeChip) × (e ≡ record d { fake = f })

pub program_keys-IsChipStep :
    (op : KeyDescriptor → Driver → Status × Driver) (cs : List KeyContainer) (d : Driver)
    → ((k : KeyDescriptor) (e : Driver) → (op k e).1 ≡ record e { fake = (op k e).1.fake })
    → IsChipStep d (program_keys op cs d)
unfolding program_keys
program_keys-IsChipStep op [] d h = (d.fake, refl)
program_keys-IsChipStep op (c ∷ cs) d h = elim (Bool-cases (key_from_container c).0) [
  | inr e ↦ rw e (program_keys-IsChipStep op cs d h)
  | inl e ↦
      let d' = (op (key_from_container c).1 d).1 in
      let (f, rest) = program_keys-IsChipStep op cs d' h in
      rw e (f, rest ∙ ap (λ (x : Driver). record x { fake = f }) (h (key_from_container c).1 d))
]

pub if-IsChipStep : (b : Bool) (d e : Driver) → IsChipStep d e → IsChipStep d (if b then e else d)
if-IsChipStep true d e s = s
if-IsChipStep false d e s = (d.fake, refl)

module _ (sys : System) where
  -- The answer of a command that the driver only acknowledges.
  abbrev pub acknowledgement : Request → Status × ℕ × Message
  acknowledgement r =
      if ltb r.out_len sys.header_size
      then (buffer_too_small, 0, r.buffer)
      else (success, sys.header_size, record (r.buffer) { header = echo r.buffer.header })

  -- A reply that is the acknowledgement, from a handler that has answered nothing by itself.
  pub record Acknowledges (r : Request) (d : Driver) (reply : Reply) : Type 0 where
    pub answer : (reply.status, reply.bytes_written, reply.driver.io) ≡ acknowledgement r
    pub quiet : answers reply.driver.log ≡ answers d.log

  pub ack-Acknowledges :
      (r : Request) (d d' : Driver)
      → 0 < sys.header_size
      → d'.io ≡ r.buffer
      → answers d'.log ≡ answers d.log
      → Acknowledges r d (ack sys r d')
  unfolding ack write_response_header
  ack-Acknowledges r d d' h io log = elim (Bool-cases (ltb r.out_len sys.header_size)) [
    | inl e ↦ rw e record { answer = rw (e, io) refl; quiet = log }
    | inr e ↦
        let some_bytes : (sys.header_size == 0) ≡ false = ground arith in
        rw (e, some_bytes) record { answer = rw (e, io) refl; quiet = log }
  ]

  abbrev IsSilent : Driver → Driver → Type 0
  IsSilent d e = (e.io ≡ d.io) × (answers e.log ≡ answers d.log)

  queue_scan-IsSilent : (d : Driver) → IsSilent d (queue_scan sys d)
  unfolding queue_scan
  queue_scan-IsSilent d = ground arith

  queue_connect-IsSilent : (t : ConnectTarget) (d : Driver) → IsSilent d (queue_connect sys t d)
  unfolding queue_connect
  queue_connect-IsSilent t d = ground arith

  pub queue_reset-IsSilent : (d : Driver) → IsSilent d (queue_reset sys d)
  unfolding queue_reset
  queue_reset-IsSilent d = ground arith

  pub queue_radio-IsSilent : (on : Bool) (d : Driver) → IsSilent d (queue_radio sys on d)
  unfolding queue_radio
  queue_radio-IsSilent on d = ground arith

  pub task_disconnect-Acknowledges :
      (r : Request) (d : Driver)
      → 0 < sys.header_size
      → d.io ≡ r.buffer
      → Acknowledges r d (handle_task_disconnect sys r d)
  unfolding handle_task_disconnect
  task_disconnect-Acknowledges r d h io = ack-Acknowledges r d _ h (ground arith) (ground arith)

  if-IsSilent : (b : Bool) (d e : Driver) → IsSilent d e → IsSilent d (if b then e else d)
  if-IsSilent true d e s = s
  if-IsSilent false d e s = (refl, refl)

  pub start_scan-Acknowledges :
      (r : Request) (d : Driver)
      → 0 < sys.header_size
      → d.io ≡ r.buffer
      → Acknowledges r d (handle_start_scan sys r d)
  unfolding handle_start_scan
  start_scan-Acknowledges r d h io =
      let (kept, quiet) = if-IsSilent d.radio_on d _ (queue_scan-IsSilent d) in
      ack-Acknowledges r d _ h (kept ∙ io) quiet

  pub task_connect-Acknowledges :
      (r : Request) (d : Driver)
      → 0 < sys.header_size
      → d.io ≡ r.buffer
      → Acknowledges r d (handle_task_connect sys r d)
  unfolding handle_task_connect
  task_connect-Acknowledges r d h io =
      let (kept, quiet) =
        if-IsSilent d.radio_on d _ (queue_connect-IsSilent (connect_target sys r d) d) in
      ack-Acknowledges r d _ h (kept ∙ io) quiet

  -- A handler that writes the header first, and then goes on from `next`.
  pub header_first :
      (r : Request) (d : Driver) (next : Driver → Driver)
      → 0 < sys.header_size
      → d.io ≡ r.buffer
      → ((e : Driver) → IsSilent e (next e))
      → let (bw, d') = write_response_header sys r.out_len d in
        Acknowledges r d (
          if bw == 0
          then record { status = buffer_too_small; bytes_written = bw; driver = d' }
          else record { status = success; bytes_written = bw; driver = next d' })
  unfolding write_response_header
  header_first r d next h io n = elim (Bool-cases (ltb r.out_len sys.header_size)) [
    | inl e ↦ rw e record { answer = rw (e, io) refl; quiet = refl }
    | inr e ↦
        let some_bytes : (sys.header_size == 0) ≡ false = ground arith in
        let d' : Driver = record d { io = record (d.io) { header = echo d.io.header } } in
        let (kept, quiet) = n d' in
        rw (e, some_bytes) record { answer = rw (e, kept, io) refl; quiet = quiet }
  ]

  pub chip_step-Acknowledges :
      (r : Request) (d e : Driver)
      → 0 < sys.header_size
      → d.io ≡ r.buffer
      → IsChipStep d e
      → Acknowledges r d (ack sys r e)
  chip_step-Acknowledges r d e h io (f, same) =
      ack-Acknowledges r d e h (ap (λ x. x.io) same ∙ io) (ap (λ x. answers x.log) same)
