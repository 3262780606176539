-- ===== src/Datapath/Cancel.antt =====
-- The loop of EvtTxQueueCancel and EvtRxQueueCancel: it ends, and marks the driver's packets.
use wificx_skeleton.Prelude.{
  ℕ, zero, suc, ◌≤◌, ◌<◌, ◌≡◌, ◌≢◌, refl, sym, ap, ◌∙◌, inl, inr, Bool, false, Bool-cases, List, [],
  ◌∷◌, ltb, ◌==◌, arith,
}
use wificx_skeleton.Datapath.{
  PacketRing, Rings, cancel_round, cancel_loop, cancel_rings, evt_tx_queue_cancel,
  evt_rx_queue_cancel, evt_tx_queue_advance, evt_rx_queue_advance,
  evt_tx_queue_set_notification_enabled, evt_rx_queue_set_notification_enabled,
}
use wificx_skeleton.Datapath.Rounds.{
  ahead, IsIncrement, IsRing, IsReturned, ahead-lt, ahead_self, ahead_ne, round-IsRing, ahead_round,
  returned_round,
}

module _ (increment : ℕ → ℕ) (size : ℕ) where
  finished :
      (pr : PacketRing) (i : ℕ)
      → IsRing size pr
      → pr.begin_index ≡ pr.end_index
      → IsReturned size pr i pr
  finished pr i v e =
      let none_left : ahead size pr.begin_index pr.end_index ≡ 0 =
        ap (ahead size pr.begin_index) (sym e) ∙ ahead_self size pr.begin_index in
      let outside : ltb (ahead size pr.begin_index i) (ahead size pr.begin_index pr.end_index)
          ≡ false =
        ground (arith, none_left) in
      (e, refl, v.memory, rw outside refl)

  cancel_loop_lem :
      (fuel : ℕ) (pr : PacketRing) (i : ℕ)
      → IsIncrement increment size
      → IsRing size pr
      → i < size
      → ahead size pr.begin_index pr.end_index ≤ fuel
      → IsReturned size pr i (cancel_loop increment fuel pr)
  unfolding cancel_loop
  cancel_loop_lem zero pr i inc v h f = elim (Bool-cases (pr.begin_index == pr.end_index)) [
    | inl done ↦ finished pr i v (ground arith)
    | inr more ↦
        let n : pr.end_index ≢ pr.begin_index = ground arith in
        absurd (omega (arith, f, ahead_ne size pr.begin_index pr.end_index v.begin_on n))
  ]
  cancel_loop_lem (suc fuel) pr i inc v h f = elim (Bool-cases (pr.begin_index == pr.end_index)) [
    | inl done ↦ rw done (finished pr i v (ground arith))
    | inr more ↦
        let n : pr.begin_index ≢ pr.end_index = ground arith in
        let (b, e, m, p) =
          cancel_loop_lem fuel (cancel_round increment pr) i inc
            (round-IsRing increment size pr inc v) h
            (omega (arith, f, ahead_round increment size pr inc v n)) in
        rw more (b, e, m, p ∙ returned_round increment size pr i inc v h n)
  ]

-- The callbacks before a cancellation.
pub data Callback : Type 0 where
  advance : Callback
  set_notification_enabled : Bool → Callback

pub tx_callbacks : List Callback → Rings → Rings
tx_callbacks [] r = r
tx_callbacks (advance ∷ cs) r = tx_callbacks cs (evt_tx_queue_advance r)
tx_callbacks (set_notification_enabled on ∷ cs) r =
    tx_callbacks cs (evt_tx_queue_set_notification_enabled on r)

pub rx_callbacks : List Callback → Rings → Rings
rx_callbacks [] r = r
rx_callbacks (advance ∷ cs) r = rx_callbacks cs (evt_rx_queue_advance r)
rx_callbacks (set_notification_enabled on ∷ cs) r =
    rx_callbacks cs (evt_rx_queue_set_notification_enabled on r)

-- What a cancellation should leave: seen at the packet `i`, the packets of the driver come back marked and
-- the others as they were, nothing of the ring is the driver's any more, and no fragment either.
abbrev pub IsCancelled : ℕ → Rings → ℕ → Rings → Type 0
IsCancelled size r i r' =
    IsReturned size r.packet_ring i r'.packet_ring
    × (r'.fragment_ring.begin_index ≡ r.fragment_ring.end_index)
    × (r'.fragment_ring.end_index ≡ r.fragment_ring.end_index)

cancel_rings_lem :
    (increment : ℕ → ℕ) (size fuel : ℕ) (r : Rings) (i : ℕ)
    → IsIncrement increment size
    → IsRing size r.packet_ring
    → i < size
    → size ≤ fuel
    → IsCancelled size r i (cancel_rings increment fuel r)
unfolding cancel_rings
cancel_rings_lem increment size fuel r i inc v h f = (
  cancel_loop_lem increment size fuel r.packet_ring i inc v h (
      omega (
        arith,
        f,
        ahead-lt size r.packet_ring.begin_index r.packet_ring.end_index v.begin_on v.end_on,
      )),
  refl,
  refl,
)

tx_callbacks_lem : (cs : List Callback) (r : Rings) → tx_callbacks cs r ≡ r
unfolding tx_callbacks evt_tx_queue_advance evt_tx_queue_set_notification_enabled
tx_callbacks_lem [] r = refl
tx_callbacks_lem (advance ∷ cs) r = tx_callbacks_lem cs r
tx_callbacks_lem (set_notification_enabled on ∷ cs) r = tx_callbacks_lem cs r

rx_callbacks_lem : (cs : List Callback) (r : Rings) → rx_callbacks cs r ≡ r
unfolding rx_callbacks evt_rx_queue_advance evt_rx_queue_set_notification_enabled
rx_callbacks_lem [] r = refl
rx_callbacks_lem (advance ∷ cs) r = rx_callbacks_lem cs r
rx_callbacks_lem (set_notification_enabled on ∷ cs) r = rx_callbacks_lem cs r

-- The loops of both cancellations end within one round for each packet of the ring, after any advances and
-- notifications: exactly the packets that were the driver's before them come back with the flag Ignore,
-- the others unchanged, and the driver holds no packet and no fragment any more. So no packet is ever
-- moved. It holds where both indices lie on the ring and NetRingIncrementIndex wraps at its size.
pub cancel-callbacks :
    (increment : ℕ → ℕ) (size fuel : ℕ) (cs : List Callback) (r : Rings) (i : ℕ)
    → IsIncrement increment size
    → IsRing size r.packet_ring
    → i < size
    → size ≤ fuel
    → IsCancelled size r i (evt_tx_queue_cancel increment fuel (tx_callbacks cs r))
      × IsCancelled size r i (evt_rx_queue_cancel increment fuel (rx_callbacks cs r))
unfolding evt_tx_queue_cancel evt_rx_queue_cancel
cancel-callbacks increment size fuel cs r i inc v h f =
    let done = cancel_rings_lem increment size fuel r i inc v h f in
    (rw (tx_callbacks_lem cs r) done, rw (rx_callbacks_lem cs r) done)
