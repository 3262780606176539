-- ===== src/Handlers/Offers.antt =====
-- wdihandlers.cpp: the tasks that commands carry, and what the dispatcher leaves as its handler left it.
use wificx_skeleton.Prelude.{
  ℕ, ◌≡◌, refl, ap, ◌∙◌, inl, inr, Bool, true, false, none, ltb, Bool-cases, if◌then◌else◌,
}
use wificx_skeleton.Platform.{Status, Message, MessageId}
use wificx_skeleton.Platform.System.{System}
use wificx_skeleton.Device.{
  Driver, ScanTask, Task, RadioTask, ConnectTask, ConnectTarget, completed, emit, ChipOps,
}
use wificx_skeleton.Handlers.{is_pending, route, handle, dispatch}
use wificx_skeleton.Handlers.Session.{Request, ack, write_response_header}

-- The tasks that carry the port and the transaction of a request.
abbrev pub scan_task : Request → ScanTask
scan_task r = record {
  txn_id = r.buffer.header.transaction_id;
  port_id = r.buffer.header.port_id;
  request = none;
}

abbrev pub plain_task : Request → Task
plain_task r = record { txn_id = r.buffer.header.transaction_id; port_id = r.buffer.header.port_id }

abbrev pub radio_task : Request → Bool → RadioTask
radio_task r on = record {
  txn_id = r.buffer.header.transaction_id;
  port_id = r.buffer.header.port_id;
  soft_on = on;
}

abbrev pub connect_task : Request → ConnectTarget → ConnectTask
connect_task r target = record {
  txn_id = r.buffer.header.transaction_id;
  port_id = r.buffer.header.port_id;
  target = target;
}

module _ (sys : System) where
  -- What the answer does not touch, the dispatcher leaves as the handler left it.
  pub dispatch_view :
      {B : Type 0} (f : Driver → B) (ops : ChipOps) (id : MessageId) (r : Request) (d : Driver)
      → ((s : Status) (n : ℕ) (m : Message) (e : Driver) → f (emit (completed s n m) e) ≡ f e)
      → r.message_id ≡ id
      → f (dispatch sys ops r d) ≡ f (route sys ops id r (record d { io = r.buffer })).driver
  unfolding dispatch handle
  dispatch_view f ops id r d h e =
      let reply = route sys ops r.message_id r (record d { io = r.buffer }) in
      drop (is_pending reply.status)
        (h reply.status reply.bytes_written reply.driver.io reply.driver)
      ∙ ap (λ x. f (route sys ops x r (record d { io = r.buffer })).driver) e
    where
      drop : {x y : Driver} (b : Bool) → f y ≡ f x → f (if b then x else y) ≡ f x
      drop true same = refl
      drop false same = same

  pub ack_view :
      {B : Type 0} (f : Driver → B) (r : Request) (d : Driver)
      → ((m : Message) (e : Driver) → f (record e { io = m }) ≡ f e)
      → f (ack sys r d).driver ≡ f d
  unfolding ack write_response_header
  ack_view f r d h = elim (Bool-cases (ltb r.out_len sys.header_size)) [
    | inl e ↦ rw e refl
    | inr e ↦ rw e (h _ d)
  ]
