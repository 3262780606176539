-- ===== src/Datapath.antt =====
-- txqueue.cpp and rxqueue.cpp: the packet queues, which move no packet, and the rings of the framework
-- that they return at a cancellation.
pub mod Rounds
pub mod Cancel
pub mod Queues
use wificx_skeleton.Prelude.{
  ℕ, zero, suc, ◌+◌, ◌-◌, ◌*◌, Bool, true, false, List, [], ◌∷◌, ◌==◌, if◌then◌else◌, get_or, set,
}

-- `NET_PACKET`: its flag `Ignore`, and all else.
pub record Packet : Type 0 where
  pub ignore : Bool
  pub content : ℕ

-- `NET_RING`: the packets from `begin_index` up to `end_index` belong to the driver. The indices of a
-- fragment ring only.
pub record PacketRing : Type 0 where
  pub begin_index : ℕ
  pub end_index : ℕ
  pub packets : List Packet

pub record FragmentRing : Type 0 where
  pub begin_index : ℕ
  pub end_index : ℕ

-- `NET_RING_COLLECTION`.
pub record Rings : Type 0 where
  pub packet_ring : PacketRing
  pub fragment_ring : FragmentRing

abbrev pub zero_packet : Packet
zero_packet = record { ignore = false; content = 0 }

abbrev pub ignored : Packet → Packet
ignored p = record p { ignore = true }

-- One round of the loop. `increment` is NetRingIncrementIndex on the ring's size and an index.
abbrev pub cancel_round : (ℕ → ℕ) → PacketRing → PacketRing
cancel_round increment pr = record pr {
  packets = set pr.packets pr.begin_index (ignored (get_or pr.packets pr.begin_index zero_packet));
  begin_index = increment pr.begin_index;
}

-- `while (pr->BeginIndex != pr->EndIndex)` with fuel for the rounds.
pub cancel_loop : (ℕ → ℕ) → ℕ → PacketRing → PacketRing
cancel_loop increment zero pr = pr
cancel_loop increment (suc fuel) pr =
    let rest = cancel_loop increment fuel (cancel_round increment pr) in
    if pr.begin_index == pr.end_index then pr else rest

-- The part that the two cancellations share: the packets are marked, the fragments dropped.
pub cancel_rings : (ℕ → ℕ) → ℕ → Rings → Rings
unfolding cancel_loop
cancel_rings increment fuel r = record {
  packet_ring = cancel_loop increment fuel r.packet_ring;
  fragment_ring = record (r.fragment_ring) { begin_index = r.fragment_ring.end_index };
}

-- The callbacks of a queue on its rings: EvtTxQueueAdvance and EvtRxQueueAdvance, the two
-- SetNotificationEnabled, EvtTxQueueCancel and EvtRxQueueCancel.
pub evt_tx_queue_advance : Rings → Rings
evt_tx_queue_advance r = r

pub evt_rx_queue_advance : Rings → Rings
evt_rx_queue_advance r = r

pub evt_tx_queue_set_notification_enabled : Bool → Rings → Rings
evt_tx_queue_set_notification_enabled notification_enabled r = r

pub evt_rx_queue_set_notification_enabled : Bool → Rings → Rings
evt_rx_queue_set_notification_enabled notification_enabled r = r

pub evt_tx_queue_cancel : (ℕ → ℕ) → ℕ → Rings → Rings
evt_tx_queue_cancel increment fuel r = cancel_rings increment fuel r

pub evt_rx_queue_cancel : (ℕ → ℕ) → ℕ → Rings → Rings
evt_rx_queue_cancel increment fuel r = cancel_rings increment fuel r
