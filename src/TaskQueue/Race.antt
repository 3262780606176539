-- ===== src/TaskQueue/Race.antt =====
-- A dispatcher and a workitem on one task queue, interleaved between the steps that the source makes:
-- the dispatcher increments the tail, tests for room, then writes the slot (and enqueues the workitem)
-- or decrements the tail. A task that the workitem fires is read and taken out in one step here; the
-- source makes two of it, so every run below is a run of the source.
use wificx_skeleton.Prelude.{
  ℕ, zero, suc, ◌-◌, ◌^◌, ◌<◌, ◌≡◌, refl, Bool, true, false, List, ◌∷◌, arith,
}
use wificx_skeleton.TaskQueue.{
  TaskQueue, reserve, has_room, write_slot, give_up, pending, front, advance,
}
use wificx_skeleton.TaskQueue.Counters.{IsSize, used, IsValid}

-- Where the dispatcher stands between two steps.
pub data Dispatcher {ℓ} (A : Type ℓ) : Type ℓ where
  idle : Dispatcher A
  holding : ℕ → A → Dispatcher A
  refusing : Dispatcher A

-- `accepted` are the tasks whose slot was written, `fired` what the workitem has completed, both newest
-- first.
pub record System {ℓ} (A : Type ℓ) : Type ℓ where
  pub queue : TaskQueue A
  pub dispatcher : Dispatcher A
  pub running : Bool
  pub accepted : List A
  pub fired : List A

module _ {ℓ} {A : Type ℓ} (size : ℕ) (zero_slot : A) where
  pub data Step : System A → System A → Type ℓ where
    reserves :
        (s : System A) (task : A)
        → s.dispatcher ≡ idle
        → Step s (record s {
          queue = (reserve s.queue).1;
          dispatcher = holding (reserve s.queue).0 task;
        })
    writes :
        (s : System A) (slot : ℕ) (task : A)
        → s.dispatcher ≡ holding slot task
        → has_room size s.queue slot ≡ true
        → Step s (record s {
          queue = write_slot size s.queue slot task;
          dispatcher = idle;
          running = true;
          accepted = task ∷ s.accepted;
        })
    refuses :
        (s : System A) (slot : ℕ) (task : A)
        → s.dispatcher ≡ holding slot task
        → has_room size s.queue slot ≡ false
        → Step s (record s { dispatcher = refusing })
    gives_up :
        (s : System A)
        → s.dispatcher ≡ refusing
        → Step s (record s { queue = give_up s.queue; dispatcher = idle })
    fires :
        (s : System A)
        → s.running ≡ true
        → pending s.queue ≡ true
        → Step s
            (record s { queue = advance s.queue; fired = front size zero_slot s.queue ∷ s.fired })
    parks :
        (s : System A)
        → s.running ≡ true
        → pending s.queue ≡ false
        → Step s (record s { running = false })

  pub data Reach (s : System A) : System A → Type ℓ where
    here : Reach s s
    next : {t u : System A} → Reach s t → Step t u → Reach s u

  pub Reach-trans : {s t u : System A} → Reach s t → Reach t u → Reach s u
  Reach-trans r here = r
  Reach-trans r (next q st) = next (Reach-trans r q) st

  -- Any task that arrives while the workitem runs on an empty valid queue of 16 or 8 slots can be lost,
  -- if the workitem looks at the queue between the increment of the tail and the write of the slot: the
  -- dispatcher has then accepted this one task, the workitem has fired in its place whatever the
  -- slot held before, and the queue is empty again.
  pub task_lost :
      (s : System A) (task : A)
      → IsSize size
      → IsValid size s.queue
      → s.dispatcher ≡ idle
      → s.running ≡ true
      → pending s.queue ≡ false
      → (t : System A) × Reach s t
        × (t.dispatcher ≡ idle)
        × (pending t.queue ≡ false)
        × (t.accepted ≡ task ∷ s.accepted)
        × (t.fired ≡ front size zero_slot s.queue ∷ s.fired)
  unfolding reserve has_room write_slot pending front advance
  task_lost s task size_ok v d r p =
      let s1 : System A = record s {
        queue = (reserve s.queue).1;
        dispatcher = holding (reserve s.queue).0 task;
      } in
      let s2 : System A = record s1 {
        queue = advance s1.queue;
        fired = front size zero_slot s1.queue ∷ s1.fired;
      } in
      let s3 : System A = record s2 {
        queue = write_slot size s2.queue (reserve s.queue).0 task;
        dispatcher = idle;
        running = true;
        accepted = task ∷ s2.accepted;
      } in
      (
        s3,
        next (next (next here (reserves s task d)) (fires s1 r (ground arith)))
            (writes s2 (reserve s.queue).0 task refl (ground arith)),
        refl,
        ground arith,
        refl,
        refl,
      )

  -- The workitem empties the queue as it finds it.
  drains :
      (n : ℕ) (s : System A)
      → s.running ≡ true
      → s.queue.head < 2 ^ 32
      → s.queue.tail < 2 ^ 32
      → used s.queue ≡ n
      → (t : System A) × Reach s t
        × (t.queue.head ≡ s.queue.tail)
        × (t.queue.tail ≡ s.queue.tail)
        × (t.dispatcher ≡ s.dispatcher)
        × (t.running ≡ true)
  unfolding pending advance
  drains zero s r h k e = (s, here, omega arith, refl, refl, r)
  drains (suc n) s r h k e =
      let s1 : System A = record s {
        queue = advance s.queue;
        fired = front size zero_slot s.queue ∷ s.fired;
      } in
      let (t, path, hd, tl, d, run) = drains n s1 r (omega arith) k (omega arith) in
      (t, Reach-trans (next here (fires s r (ground arith))) path, hd, tl, d, run)

  -- A task that arrives at a full valid queue of 16 or 8 slots while the workitem runs can set the
  -- workitem off: if the workitem empties the queue between the failed test and the decrement of
  -- the tail, the head is then one ahead of the tail, and the workitem takes the queue to hold 2^32
  -- - 1 tasks.
  pub refusal_runs_away :
      (s : System A) (task : A)
      → IsSize size
      → IsValid size s.queue
      → s.dispatcher ≡ idle
      → s.running ≡ true
      → used s.queue ≡ size
      → (t : System A) × Reach s t
        × (t.dispatcher ≡ idle)
        × (t.running ≡ true)
        × (used t.queue ≡ 2 ^ 32 - 1)
  unfolding reserve has_room give_up
  refusal_runs_away s task size_ok v d r u =
      let s1 : System A = record s {
        queue = (reserve s.queue).1;
        dispatcher = holding (reserve s.queue).0 task;
      } in
      let s2 : System A = record s1 { dispatcher = refusing } in
      let (t, path, hd, tl, dt, run) =
        drains (suc size) s2 r v.head_long (omega arith) (omega arith) in
      (
        record t { queue = give_up t.queue; dispatcher = idle },
        next
            (Reach-trans
              (next (next here (reserves s task d))
                (refuses s1 (reserve s.queue).0 task refl (ground arith)))
              path)
            (gives_up t dt),
        refl,
        run,
        omega arith,
      )
