-- ===== src/Tests/Devices.antt =====
-- The adapter and the packet queues on small instances.
use wificx_skeleton.Prelude.{ℕ, ◌+◌, ◌%◌, ◌≡◌, refl, true, false, [], ◌∷◌, none, some, arith}
use wificx_skeleton.Platform.{nt_success, success}
use wificx_skeleton.Framework.Chains.{succeeded}
use wificx_skeleton.Adapter.{media_max_speed, create_adapter, other_state, d0_exit}
use wificx_skeleton.Adapter.Creation.{created, create_adapter-created}
use wificx_skeleton.Adapter.Power.{
  Outcome, fault, above, classify, speeds_within, d0_exit-create_adapter,
}
use wificx_skeleton.Datapath.{Packet, Rings, evt_tx_queue_cancel, evt_rx_queue_cancel}
use wificx_skeleton.Datapath.Rounds.{IsRing}
use wificx_skeleton.Datapath.Cancel.{
  IsCancelled, advance, set_notification_enabled, tx_callbacks, rx_callbacks, cancel-callbacks,
}
use wificx_skeleton.Datapath.Queues.{
  create_tx_queue, create_rx_queue, destroy_tx_queue, destroy_rx_queue, tx_ready, rx_ready,
  destroy-create,
}
use wificx_skeleton.Tests.{system}
use wificx_skeleton.Tests.BringUp.{granting, machine}

create_adapter-created_example :
    succeeded (create_adapter granting system 0xffff true machine)
    ≡ created granting system 0xffff true machine
create_adapter-created_example = create_adapter-created granting system 0xffff true machine

d0_exit-create_adapter_example :
    let c' = (create_adapter granting system 0xffff true machine).1 in
    (speeds_within media_max_speed c'.calls ≡ true)
    × (classify (d0_exit other_state c')
        ≡ elim c'.adapter as (λ x. Outcome) [ none ↦ fault | some a ↦ above ])
unfolding speeds_within
d0_exit-create_adapter_example = d0_exit-create_adapter granting system 0xffff true machine refl

-- A ring of four packets, of which the driver holds the last and the first.
abbrev packet : ℕ → Packet
packet n = record { ignore = false; content = n }

abbrev rings : Rings
rings = record {
  packet_ring = record {
    begin_index = 3;
    end_index = 1;
    packets = packet 10 ∷ packet 11 ∷ packet 12 ∷ packet 13 ∷ [];
  };
  fragment_ring = record { begin_index = 0; end_index = 2 };
}

rings-IsRing : IsRing 4 rings.packet_ring
rings-IsRing = record { begin_on = omega arith; end_on = omega arith; memory = refl }

abbrev increment : ℕ → ℕ
increment i = (i + 1) % 4

cancel-callbacks_example :
    let cs = advance ∷ set_notification_enabled true ∷ advance ∷ [] in
    IsCancelled 4 rings 0 (evt_tx_queue_cancel increment 4 (tx_callbacks cs rings))
    × IsCancelled 4 rings 0 (evt_rx_queue_cancel increment 4 (rx_callbacks cs rings))
cancel-callbacks_example =
    cancel-callbacks increment 4 4 (advance ∷ set_notification_enabled true ∷ advance ∷ []) rings 0
      (λ i h. refl) rings-IsRing (omega arith) (omega arith)

destroy-create_example :
    let (status, s) = create_tx_queue success true 8 5 3 in
    let (status', s') = create_rx_queue success true 5 3 in
    ((nt_success status ≡ true)
      × (tx_ready s.queue ≡ nt_success status)
      × ((destroy_tx_queue s).pool_blocks ≡ 3)
      × (destroy_tx_queue (destroy_tx_queue s) ≡ destroy_tx_queue s))
    × ((nt_success status' ≡ true)
        × (rx_ready s'.queue ≡ nt_success status')
        × ((destroy_rx_queue s').pool_blocks ≡ 3)
        × (destroy_rx_queue (destroy_rx_queue s') ≡ destroy_rx_queue s'))
destroy-create_example = destroy-create success true 8 5 3
