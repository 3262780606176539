-- ===== src/Datapath/Queues.antt =====
-- txqueue.cpp and rxqueue.cpp: the creation and the destruction of the packet queues.
use wificx_skeleton.Prelude.{
  ℕ, ◌+◌, ◌-◌, ◌*◌, ◌≡◌, refl, sym, Bool, true, false, ◌&&◌, Bool-cases, inl, inr, List, [], ◌∷◌,
  Option, none, some, if◌then◌else◌, arith,
}
use wificx_skeleton.Platform.{Status, success, insufficient_resources, nt_success}
use wificx_skeleton.Adapter.{min_tcb, max_phys_buf_count, rx_buffer_size}

-- The extensions that the queues ask for.
pub data Extension : Type 0 where
  checksum gso ieee8021q virtual_address hash : Extension

-- `MTK_TXQUEUE` and `MTK_RXQUEUE`: whether `Adapter` and `Rings` are set, whether there is a fake ring,
-- its size, the extensions asked for, and the id.
pub record TxQueue : Type 0 where
  pub adapter_set : Bool
  pub rings_set : Bool
  pub fake_tx_ring : Bool
  pub fake_tx_ring_size : ℕ
  pub extensions : List Extension
  pub queue_id : ℕ

pub record RxQueue : Type 0 where
  pub adapter_set : Bool
  pub rings_set : Bool
  pub fake_rx_ring : Bool
  pub fake_rx_ring_size : ℕ
  pub extensions : List Extension
  pub queue_id : ℕ

-- The context of a queue, if the framework made one, and the blocks of pool memory in use.
pub record Store {ℓ} (Q : Type ℓ) : Type ℓ where
  pub queue : Option Q
  pub pool_blocks : ℕ

-- MtkTxQueueInitialize and MtkRxQueueInitialize.
pub initialize_tx_queue : TxQueue → Status × TxQueue
initialize_tx_queue tx = (success, record tx { adapter_set = true; rings_set = true })

pub initialize_rx_queue : RxQueue → Status × RxQueue
initialize_rx_queue rx = (success, record rx { adapter_set = true; rings_set = true })

abbrev pub zero_tx_queue : TxQueue
zero_tx_queue = record {
  adapter_set = false;
  rings_set = false;
  fake_tx_ring = false;
  fake_tx_ring_size = 0;
  extensions = [];
  queue_id = 0;
}

abbrev pub zero_rx_queue : RxQueue
zero_rx_queue = record {
  adapter_set = false;
  rings_set = false;
  fake_rx_ring = false;
  fake_rx_ring_size = 0;
  extensions = [];
  queue_id = 0;
}

-- EvtAdapterCreateTxQueue, after NetTxQueueCreate answered and with what ExAllocatePool2 does.
pub create_tx_queue : Status → Bool → ℕ → ℕ → ℕ → Status × Store TxQueue
unfolding initialize_tx_queue
create_tx_queue answer allocated pointer_size queue_id blocks =
    let sized : TxQueue = record (zero_tx_queue) {
      queue_id = queue_id;
      fake_tx_ring_size = min_tcb * max_phys_buf_count * pointer_size;
    } in
    let extended : TxQueue = record sized {
      fake_tx_ring = true;
      extensions = checksum ∷ gso ∷ ieee8021q ∷ virtual_address ∷ [];
    } in
    let (status, tx) = initialize_tx_queue extended in
    if nt_success answer
    then if allocated
      then (status, record { queue = some tx; pool_blocks = blocks + 1 })
      else (insufficient_resources, record { queue = some sized; pool_blocks = blocks })
    else (answer, record { queue = none; pool_blocks = blocks })

-- EvtAdapterCreateRxQueue, which sets the id only after the allocation.
pub create_rx_queue : Status → Bool → ℕ → ℕ → Status × Store RxQueue
unfolding initialize_rx_queue
create_rx_queue answer allocated queue_id blocks =
    let sized : RxQueue = record (zero_rx_queue) { fake_rx_ring_size = rx_buffer_size * 32 } in
    let extended : RxQueue = record sized {
      fake_rx_ring = true;
      queue_id = queue_id;
      extensions = checksum ∷ virtual_address ∷ hash ∷ [];
    } in
    let (status, rx) = initialize_rx_queue extended in
    if nt_success answer
    then if allocated
      then (status, record { queue = some rx; pool_blocks = blocks + 1 })
      else (insufficient_resources, record { queue = some sized; pool_blocks = blocks })
    else (answer, record { queue = none; pool_blocks = blocks })

-- EvtTxQueueDestroy and EvtRxQueueDestroy, of a queue that exists.
pub destroy_tx_queue : Store TxQueue → Store TxQueue
destroy_tx_queue s = elim s.queue [
  | none ↦ s
  | some tx ↦
      if tx.fake_tx_ring
      then record {
        queue = some (record tx { fake_tx_ring = false; fake_tx_ring_size = 0 });
        pool_blocks = s.pool_blocks - 1;
      }
      else s
]

pub destroy_rx_queue : Store RxQueue → Store RxQueue
destroy_rx_queue s = elim s.queue [
  | none ↦ s
  | some rx ↦
      if rx.fake_rx_ring
      then record {
        queue = some (record rx { fake_rx_ring = false; fake_rx_ring_size = 0 });
        pool_blocks = s.pool_blocks - 1;
      }
      else s
]

-- A queue with all that its callbacks use.
pub tx_ready : Option TxQueue → Bool
tx_ready none = false
tx_ready (some tx) = tx.adapter_set && tx.rings_set && tx.fake_tx_ring

pub rx_ready : Option RxQueue → Bool
rx_ready none = false
rx_ready (some rx) = rx.adapter_set && rx.rings_set && rx.fake_rx_ring

-- A creation returns a status of success exactly if the framework made the queue and the pool the memory,
-- and exactly then the queue is ready for its callbacks. On every way out the destruction of what was made
-- gives the memory back, and a second one changes nothing.
pub destroy-create :
    (answer : Status) (allocated : Bool) (pointer_size queue_id blocks : ℕ)
    → let (status, s) = create_tx_queue answer allocated pointer_size queue_id blocks in
      let (status', s') = create_rx_queue answer allocated queue_id blocks in
      ((nt_success status ≡ (nt_success answer && allocated))
        × (tx_ready s.queue ≡ nt_success status)
        × ((destroy_tx_queue s).pool_blocks ≡ blocks)
        × (destroy_tx_queue (destroy_tx_queue s) ≡ destroy_tx_queue s))
      × ((nt_success status' ≡ (nt_success answer && allocated))
          × (rx_ready s'.queue ≡ nt_success status')
          × ((destroy_rx_queue s').pool_blocks ≡ blocks)
          × (destroy_rx_queue (destroy_rx_queue s') ≡ destroy_rx_queue s'))
unfolding create_tx_queue create_rx_queue tx_ready rx_ready destroy_tx_queue destroy_rx_queue
destroy-create answer true pointer_size queue_id blocks = elim (Bool-cases (nt_success answer)) [
  | inl ok ↦ rw ok ((refl, refl, omega arith, refl), (refl, refl, omega arith, refl))
  | inr refused ↦
      rw refused ((refused, sym refused, refl, refl), (refused, sym refused, refl, refl))
]
destroy-create answer false pointer_size queue_id blocks = elim (Bool-cases (nt_success answer)) [
  | inl ok ↦ rw ok ((refl, refl, refl, refl), (refl, refl, refl, refl))
  | inr refused ↦
      rw refused ((refused, sym refused, refl, refl), (refused, sym refused, refl, refl))
]
