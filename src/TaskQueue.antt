-- ===== src/TaskQueue.antt =====
-- The circular task queues of MTK_DEVICE (device.h): an array of slots with a head that the workitem
-- moves and a tail that the dispatcher moves. All five are used by the same code, so they are one type
-- over the contents of a slot. Head and tail are `LONG`s: 32-bit patterns that wrap.
pub mod Counters
pub mod Fifo
pub mod Race
pub mod Structure
pub mod States
pub mod Bounded
use wificx_skeleton.Prelude.{
  ℕ, ◌+◌, ◌-◌, ◌%◌, ◌^◌, ◌||◌, Bool, true, false, List, ltb, leb, ◌==◌, not, if◌then◌else◌, bit_and,
  get_or, set, replicate,
}

pub record TaskQueue {ℓ} (A : Type ℓ) : Type ℓ where
  pub slots : List A
  pub head : ℕ
  pub tail : ℕ

-- InterlockedIncrement, InterlockedDecrement and the subtraction of two `LONG`s, as bit patterns.
abbrev pub long_inc : ℕ → ℕ
long_inc a = (a + 1) % 2 ^ 32

abbrev pub long_dec : ℕ → ℕ
long_dec a = (a + (2 ^ 32 - 1)) % 2 ^ 32

abbrev pub long_sub : ℕ → ℕ → ℕ
long_sub a b = (a + 2 ^ 32 - b) % 2 ^ 32

-- `a < n` for a `LONG` `a` and a small positive `n`: `a` is negative or below `n`.
abbrev pub long_lt : ℕ → ℕ → Bool
long_lt a n = leb (2 ^ 31) a || ltb a n

module _ {ℓ} {A : Type ℓ} where
  -- The zeroed context of a new device.
  unfoldable pub new_queue : ℕ → A → TaskQueue A
  new_queue size zero_slot = record { slots = replicate size zero_slot; head = 0; tail = 0 }

  -- The three steps that a dispatcher makes on a queue of `size` slots. The first is the atomic
  -- increment that returns the slot, ...
  pub reserve : TaskQueue A → ℕ × TaskQueue A
  reserve q = (long_dec (long_inc q.tail), record q { tail = long_inc q.tail })

  -- ... the second the test against the head, with the write of the slot or ...
  pub has_room : ℕ → TaskQueue A → ℕ → Bool
  has_room size q slot = long_lt (long_sub slot q.head) size

  pub write_slot : ℕ → TaskQueue A → ℕ → A → TaskQueue A
  write_slot size q slot task = record q { slots = set q.slots (bit_and slot (size - 1)) task }

  -- ... the atomic decrement that gives the slot back.
  pub give_up : TaskQueue A → TaskQueue A
  give_up q = record q { tail = long_dec q.tail }

  -- The three steps with nothing in between. The flag says whether the workitem is to be enqueued.
  pub enqueue : ℕ → TaskQueue A → A → Bool × TaskQueue A
  unfolding reserve has_room write_slot give_up
  enqueue size q task =
      let (slot, q') = reserve q in
      if has_room size q' slot then (true, write_slot size q' slot task) else (false, give_up q')

  -- What a workitem does with a queue: the loop test, the read of the slot at the head, the increment.
  unfoldable pub pending : TaskQueue A → Bool
  pending q = not (q.head == q.tail)

  unfoldable pub front : ℕ → A → TaskQueue A → A
  front size zero_slot q = get_or q.slots (bit_and q.head (size - 1)) zero_slot

  pub advance : TaskQueue A → TaskQueue A
  advance q = record q { head = long_inc q.head }
