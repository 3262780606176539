-- ===== src/TaskQueue/Counters.antt =====
-- Head, tail and mask of a task queue: the counters wrap at 2^32, the mask picks the slot.
use wificx_skeleton.Prelude.{
  ℕ, ◌+◌, ◌-◌, ◌%◌, ◌^◌, ◌≤◌, ◌<◌, ◌≡◌, ◌≢◌, ◌⊎◌, inl, inr, bit_and, arith, length,
}
use wificx_skeleton.Prelude.Bits.{bit_and_seven, bit_and_fifteen}
use wificx_skeleton.TaskQueue.{TaskQueue, long_sub}

-- The sizes in use: 16 (scan, reset, radio) and 8 (connect, disconnect).
abbrev pub IsSize : ℕ → Type 0
IsSize size = (size ≡ 16) ⊎ (size ≡ 8)

-- `slot & 0xF` and `slot & 0x7`.
abbrev pub index : ℕ → ℕ → ℕ
index size slot = bit_and slot (size - 1)

pub index-lt : (size slot : ℕ) → IsSize size → index size slot < size
index-lt size slot (inl e) = rw e (omega (arith, bit_and_fifteen slot))
index-lt size slot (inr e) = rw e (omega (arith, bit_and_seven slot))

-- Counters less than a round apart name different slots, also where they wrap.
pub index-ne :
    (size a k : ℕ) → IsSize size → 0 < k → k < size → index size ((a + k) % 2 ^ 32) ≢ index size a
index-ne size a k (inl e) p q =
    rw e (omega (arith, e, bit_and_fifteen a, bit_and_fifteen ((a + k) % 2 ^ 32)))
index-ne size a k (inr e) p q =
    rw e (omega (arith, e, bit_and_seven a, bit_and_seven ((a + k) % 2 ^ 32)))

-- The number of tasks in the queue.
abbrev pub used {ℓ} : {A : Type ℓ} → TaskQueue A → ℕ
used q = long_sub q.tail q.head

pub record IsValid {ℓ} {A : Type ℓ} (size : ℕ) (q : TaskQueue A) : Type ℓ where
  pub head_long : q.head < 2 ^ 32
  pub tail_long : q.tail < 2 ^ 32
  pub bounded : used q ≤ size
  pub memory : length q.slots ≡ size
