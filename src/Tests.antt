-- ===== src/Tests.antt =====
-- A small driver and its surroundings, on which the other test modules run the theorems.
pub mod Driving
pub mod Answering
pub mod Queues
pub mod Scans
pub mod Tables
pub mod Frames
pub mod BringUp
pub mod Devices
use wificx_skeleton.Prelude.{
  ℕ, ◌^◌, ◌≤◌, ◌<◌, Bool, true, false, List, [], ◌∷◌, Option, none, some, replicate, arith, ◌≡◌,
  refl,
}
use wificx_skeleton.Platform.{
  Status, success, insufficient_resources, Header, Message, MessageId, Generated,
}
use wificx_skeleton.Platform.System.{System}
use wificx_skeleton.TaskQueue.{TaskQueue}
use wificx_skeleton.TaskQueue.Counters.{IsValid}
use wificx_skeleton.FakeBss.{initial_table}
use wificx_skeleton.FakeKeys.{zero_keys}
use wificx_skeleton.Device.{Driver, ScanTask, Task, RadioTask, ConnectTask, ConnectTarget, ChipOps}
use wificx_skeleton.FakeChip.{fake_ops}
use wificx_skeleton.Handlers.Session.{Request}
use wificx_skeleton.Handlers.Tasks.{zero_target}
use wificx_skeleton.WorkItems.{zero_task, zero_scan_task, zero_radio_task, zero_connect_task}

abbrev pub header_of : ℕ → ℕ → Header
header_of port txn = record {
  port_id = port;
  reserved = 0;
  status = success;
  transaction_id = txn;
  ihv_specific_id = 0;
}

abbrev pub message_of : ℕ → ℕ → Message
message_of port txn = record { header = header_of port txn; tlv = [] }

-- What the generators make here: a buffer with a header of its own.
abbrev pub generated : Generated
generated = record { ok = true; buf_len = 16; gen_buf = some (message_of 9 99) }

-- A system whose WdfMemoryCreate always returns the given status.
abbrev pub system_with : Status → System
system_with s = record {
  header_size = 16;
  version_latest = 1;
  memory_create = λ call size. s;
  allocates = λ call. true;
  tick_count = λ call. call;
  os_wdi_version = 0;
  parse_set_radio_state = λ version body. none;
  parse_connect = λ version body. none;
  parse_add_cipher_keys = λ version body. none;
  parse_default_key_id = λ version body. none;
  generate_statistics = λ version peer. generated;
  generate_bss_entry_list = λ version entries. generated;
  generate_radio_status = λ version hw sw. generated;
  generate_association_result = λ version result. generated;
  generate_disassociation = λ version parameters. generated;
}

abbrev pub system : System
system = system_with success

abbrev pub starved : System
starved = system_with insufficient_resources

abbrev pub stack_buffer : List ℕ
stack_buffer = replicate 128 0

abbrev pub ops : ChipOps
ops = fake_ops system stack_buffer stack_buffer

abbrev pub starved_ops : ChipOps
starved_ops = fake_ops starved stack_buffer stack_buffer

abbrev pub task_7 : Task
task_7 = record { txn_id = 7; port_id = 1 }

abbrev pub scan_task_7 : ScanTask
scan_task_7 = record { txn_id = 7; port_id = 1; request = none }

abbrev pub radio_task_7 : RadioTask
radio_task_7 = record { txn_id = 7; port_id = 1; soft_on = true }

abbrev pub connect_task_7 : ConnectTask
connect_task_7 = record { txn_id = 7; port_id = 1; target = zero_target }

-- A queue of 16 or of 8 slots with one task.
abbrev pub one_of_16 : {A : Type 0} → A → A → TaskQueue A
one_of_16 zero_slot task = record { slots = task ∷ replicate 15 zero_slot; head = 0; tail = 1 }

abbrev pub one_of_8 : {A : Type 0} → A → A → TaskQueue A
one_of_8 zero_slot task = record { slots = task ∷ replicate 7 zero_slot; head = 0; tail = 1 }

pub one_of_16-IsValid : {A : Type 0} (zero_slot task : A) → IsValid 16 (one_of_16 zero_slot task)
one_of_16-IsValid zero_slot task = record {
  head_long = omega arith;
  tail_long = omega arith;
  bounded = omega arith;
  memory = refl;
}

pub one_of_8-IsValid : {A : Type 0} (zero_slot task : A) → IsValid 8 (one_of_8 zero_slot task)
one_of_8-IsValid zero_slot task = record {
  head_long = omega arith;
  tail_long = omega arith;
  bounded = omega arith;
  memory = refl;
}

-- A driver with the radio on and one task in each queue.
abbrev pub driver : Driver
driver = record {
  chip_installed = true;
  scan_cache = none;
  adapter_opened = true;
  radio_on = true;
  os_wdi_version = 0;
  active_scan_transaction_id = 0;
  active_scan_port_id = 0;
  scan_queue = one_of_16 zero_scan_task scan_task_7;
  reset_queue = one_of_16 zero_task task_7;
  radio_queue = one_of_16 zero_radio_task radio_task_7;
  connect_port_id = 0;
  connect_txn_id = 0;
  connect_queue = one_of_8 zero_connect_task connect_task_7;
  disconnect_queue = one_of_8 zero_task task_7;
  fake = record { bss = initial_table; keys = zero_keys; default_key_id = 0; reset_count = 0 };
  io = message_of 0 0;
  log = [];
  memory_calls = 0;
  pool_calls = 0;
  tick_calls = 0;
  pool_blocks = 3;
}

-- A command of 16 bytes with room for as many, on port 2 under transaction 8.
abbrev pub command : MessageId → Request
command id = record { message_id = id; buffer = message_of 2 8; in_len = 16; out_len = 16 }
