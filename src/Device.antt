-- ===== src/Device.antt =====
-- device.h and wdi_chip_ops.h: the state that the driver keeps, and the contract with a chip backend.
pub mod Effects
use wificx_skeleton.Prelude.{◌-◌, ℕ, ◌+◌, Bool, List, ◌∷◌, Option, none, some, if◌then◌else◌}
use wificx_skeleton.Platform.{Status, Message, IndicationId}
use wificx_skeleton.Frame.{Mac}
use wificx_skeleton.Keys.{KeyDescriptor}
use wificx_skeleton.ScanCache.{ScanCache}
use wificx_skeleton.TaskQueue.{TaskQueue}
use wificx_skeleton.FakeBss.{BssTable}
use wificx_skeleton.FakeKeys.{FakeKey}

-- `WDI_CONNECT_TARGET`.
pub record ConnectTarget : Type 0 where
  pub bssid : Mac
  pub channel : ℕ
  pub ssid_len : ℕ
  pub ssid : List ℕ
  pub use_rsn : Bool

-- The slots of the queues. `request` is a WIFIREQUEST handle, `none` for NULL.
pub record ScanTask : Type 0 where
  pub txn_id : ℕ
  pub port_id : ℕ
  pub request : Option ℕ

pub record Task : Type 0 where
  pub txn_id : ℕ
  pub port_id : ℕ

pub record RadioTask : Type 0 where
  pub txn_id : ℕ
  pub port_id : ℕ
  pub soft_on : Bool

pub record ConnectTask : Type 0 where
  pub txn_id : ℕ
  pub port_id : ℕ
  pub target : ConnectTarget

-- The workitems of MTK_DEVICE.
pub data WorkItem : Type 0 where
  scan_work reset_work radio_work connect_work disconnect_work : WorkItem

-- What the driver does to its surroundings: an indication to the OS, the completion of the request at
-- hand (status, bytes written, the buffer) or of one that a queue kept, a workitem put into the
-- system's queue, a generated buffer freed.
pub data Event : Type 0 where
  indicated : IndicationId → Message → Event
  completed : Status → ℕ → Message → Event
  request_completed : ℕ → Status → ℕ → Event
  work_enqueued : WorkItem → Event
  generated_freed : Event

-- The globals of the fake chip (chip_fake.cpp, chip_fake_bss.cpp).
pub record FakeChip : Type 0 where
  pub bss : BssTable
  pub keys : List FakeKey
  pub default_key_id : ℕ
  pub reset_count : ℕ

-- `MTK_DEVICE`; then the fake chip's globals, the in-out buffer of the request at hand, and what has
-- happened around the driver: its events, newest first, the calls so far whose outcome may vary, and
-- the blocks of pool memory that are allocated and not freed.
pub record Driver : Type 0 where
  pub chip_installed : Bool
  pub scan_cache : Option ScanCache
  pub adapter_opened : Bool
  pub radio_on : Bool
  pub os_wdi_version : ℕ
  pub active_scan_transaction_id : ℕ
  pub active_scan_port_id : ℕ
  pub scan_queue : TaskQueue ScanTask
  pub reset_queue : TaskQueue Task
  pub radio_queue : TaskQueue RadioTask
  pub connect_port_id : ℕ
  pub connect_txn_id : ℕ
  pub connect_queue : TaskQueue ConnectTask
  pub disconnect_queue : TaskQueue Task
  pub fake : FakeChip
  pub io : Message
  pub log : List Event
  pub memory_calls : ℕ
  pub pool_calls : ℕ
  pub pool_blocks : ℕ
  pub tick_calls : ℕ

abbrev pub emit : Event → Driver → Driver
emit e d = record d { log = e ∷ d.log }

-- ExFreePool.
abbrev pub free_block : Driver → Driver
free_block d = record d { pool_blocks = d.pool_blocks - 1 }

-- What a driver holds of pool memory: the scan cache, and the number of blocks.
abbrev pub memory_of : Driver → Option ScanCache × ℕ
memory_of d = (d.scan_cache, d.pool_blocks)

-- `WDI_CHIP_OPS`; an op that may be a null pointer is an option. The chip's context is part of the
-- driver's state.
pub record ChipOps : Type 0 where
  pub init : Driver → Status × Driver
  pub deinit : Option (Driver → Driver)
  pub set_radio : Option (Bool → Driver → Status × Driver)
  pub start_scan : Option (Driver → Status × Driver)
  pub abort_scan : Option (Driver → Status × Driver)
  pub connect : Option (ConnectTarget → Driver → Status × Driver)
  pub disconnect : Option (Driver → Status × Driver)
  pub program_key : Option (KeyDescriptor → Driver → Status × Driver)
  pub remove_all_keys : Option (Driver → Status × Driver)
  pub set_default_key_id : Option (ℕ → Driver → Status × Driver)
  pub reset : Option (Driver → Status × Driver)

-- `if (dev->ChipOps && dev->ChipOps->Op) (void)dev->ChipOps->Op(...)`.
abbrev pub call_op : Option (Driver → Status × Driver) → Driver → Driver
call_op op d = if d.chip_installed then elim op [ some f ↦ (f d).1 | none ↦ d ] else d

-- An op applied to its argument, if there is one.
abbrev pub with_arg :
    {A : Type 0} → Option (A → Driver → Status × Driver) → A → Option (Driver → Status × Driver)
with_arg none a = none
with_arg (some f) a = some (f a)
