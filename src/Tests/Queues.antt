-- ===== src/Tests/Queues.antt =====
-- The task queue on small instances.
use wificx_skeleton.Prelude.{
  ℕ, ◌-◌, ◌^◌, ◌≡◌, refl, inl, inr, true, false, [], ◌∷◌, ◌++◌, replicate, arith,
}
use wificx_skeleton.TaskQueue.{TaskQueue, pending, front}
use wificx_skeleton.TaskQueue.Counters.{IsValid, used}
use wificx_skeleton.TaskQueue.Fifo.{contents, offer, round, History, history, history-IsConserving}
use native.Mathlib.Nat.{ℕ_set}
use wificx_skeleton.Device.{Task}
use wificx_skeleton.WorkItems.{zero_task}
use wificx_skeleton.TaskQueue.States
use wificx_skeleton.TaskQueue.Structure.{Queue}
use wificx_skeleton.TaskQueue.Bounded.{BoundedList, offer_list, take_list, queue-BoundedList}
use wificx_skeleton.TaskQueue.Race
use wificx_skeleton.TaskQueue.Race.{idle, Reach, task_lost, refusal_runs_away}

-- A queue of 8 slots whose tail is about to wrap; it holds the tasks 1 and 2.
abbrev wrapping : TaskQueue ℕ
wrapping = record { slots = 0 ∷ 0 ∷ 0 ∷ 0 ∷ 0 ∷ 0 ∷ 1 ∷ 2 ∷ []; head = 2 ^ 32 - 2; tail = 0 }

wrapping-IsValid : IsValid 8 wrapping
wrapping-IsValid = record {
  head_long = omega arith;
  tail_long = omega arith;
  bounded = omega arith;
  memory = refl;
}

abbrev full_queue : TaskQueue ℕ
full_queue = record { slots = replicate 8 5; head = 0; tail = 8 }

full_queue-IsValid : IsValid 8 full_queue
full_queue-IsValid = record {
  head_long = omega arith;
  tail_long = omega arith;
  bounded = omega arith;
  memory = refl;
}

abbrev empty_queue : TaskQueue ℕ
empty_queue = record { slots = replicate 8 5; head = 3; tail = 3 }

empty_queue-IsValid : IsValid 8 empty_queue
empty_queue-IsValid = record {
  head_long = omega arith;
  tail_long = omega arith;
  bounded = omega arith;
  memory = refl;
}

abbrev start : History {A = ℕ} 8 0
start = record { queue = wrapping; accepted = 1 ∷ 2 ∷ []; taken = [] }

history-IsConserving_example :
    let s = history 8 0 start (round ∷ offer 3 ∷ round ∷ []) in
    (s.accepted ≡ s.taken ++ contents 8 0 s.queue) × IsValid 8 s.queue
history-IsConserving_example =
    history-IsConserving 8 0 start (round ∷ offer 3 ∷ round ∷ []) (inr refl)
      (refl, wrapping-IsValid)

abbrev working : Race.System ℕ
working = record {
  queue = empty_queue;
  dispatcher = idle;
  running = true;
  accepted = [];
  fired = [];
}

abbrev overfull : Race.System ℕ
overfull = record {
  queue = full_queue;
  dispatcher = idle;
  running = true;
  accepted = [];
  fired = [];
}

-- The slot still holds an old 5; the task is 6.
task_lost_example :
    (t : Race.System ℕ) × Reach 8 0 working t
    × (t.dispatcher ≡ idle)
    × (pending t.queue ≡ false)
    × (t.accepted ≡ 6 ∷ [])
    × (t.fired ≡ 5 ∷ [])
unfolding pending front
task_lost_example = task_lost 8 0 working 6 (inr refl) empty_queue-IsValid refl refl refl

refusal_runs_away_example :
    (t : Race.System ℕ) × Reach 8 0 overfull t
    × (t.dispatcher ≡ idle)
    × (t.running ≡ true)
    × (used t.queue ≡ 2 ^ 32 - 1)
refusal_runs_away_example =
    refusal_runs_away 8 0 overfull 6 (inr refl) full_queue-IsValid refl refl refl

Task-set : IsSet Task
Task-set = hlevel ℕ_set

-- The queue of resets.
queue-BoundedList_example :
    ◌≡◌ {A = Queue Task}
      (
        States.Abstract 16 (inl refl) zero_task,
        (
          States.offer_abstract 16 (inl refl) zero_task Task-set,
          States.take_abstract 16 (inl refl) zero_task Task-set,
        ),
      )
      (BoundedList Task 16, (offer_list 16, take_list 16))
queue-BoundedList_example = queue-BoundedList 16 (inl refl) zero_task Task-set
