-- ===== src/TaskQueue/Fifo.antt =====
-- With nothing in between its steps, a task queue is a bounded FIFO of tasks.
use native.Mathlib.Decide.{dec_lt}
use mathlib.Core.List.{append_assoc}
use wificx_skeleton.Prelude.{
  ℕ, zero, suc, ◌+◌, ◌-◌, ◌%◌, ◌^◌, ◌<◌, ◌≡◌, ◌≢◌, ◌↔◌, refl, sym, ap, ap₂, ◌∙◌, true, false, List,
  [], ◌∷◌, ◌++◌, arith, length, ltb, lt→ltb, if◌then◌else◌, get_or, set, length-set,
  get_or-set_self, get_or-set_ne,
}
use wificx_skeleton.TaskQueue.{TaskQueue, long_inc, long_dec, enqueue, pending, front, advance}
use wificx_skeleton.TaskQueue.Counters.{IsSize, index, index-lt, index-ne, used, IsValid}

module _ {ℓ} {A : Type ℓ} (size : ℕ) (zero_slot : A) where
  -- The `n` tasks from counter `h` on.
  abbrev pub window : List A → ℕ → ℕ → List A
  window slots h zero = []
  window slots h (suc n) = get_or slots (index size h) zero_slot ∷ window slots (long_inc h) n

  -- The tasks of a queue, oldest first.
  abbrev pub contents : TaskQueue A → List A
  contents q = window q.slots q.head (used q)

  window_of_ne_zero :
      (slots : List A) (h n : ℕ)
      → n ≢ 0
      → window slots h n ≡ get_or slots (index size h) zero_slot ∷ window slots (long_inc h) (n - 1)
  window_of_ne_zero slots h zero p = absurd (p refl)
  window_of_ne_zero slots h (suc n) p = ap (λ k. window slots h (suc k)) (omega arith)

  pub length-window : (slots : List A) (h n : ℕ) → length (window slots h n) ≡ n
  length-window slots h zero = refl
  length-window slots h (suc n) = ap suc (length-window slots (long_inc h) n)

  window-set :
      (slots : List A) (task : A) (n h slot : ℕ)
      → IsSize size
      → length slots ≡ size
      → h < 2 ^ 32
      → n < size
      → slot ≡ (h + n) % 2 ^ 32
      → window (set slots (index size slot) task) h (suc n) ≡ window slots h n ++ task ∷ []
  window-set slots task zero h slot s m hh hn e =
      let same : slot ≡ h = omega arith in
      rw (
        same,
        get_or-set_self slots (index size h) task zero_slot (omega (arith, index-lt size h s)),
      )
  window-set slots task (suc n) h slot s m hh hn e =
      ap₂ ◌∷◌
        (get_or-set_ne slots task zero_slot (rw e (index-ne size h (suc n) s (omega arith) hn)))
        (window-set slots task n (long_inc h) slot s m (omega arith) (omega arith) (omega arith))

  -- The queue after an accepted task.
  abbrev added : TaskQueue A → A → TaskQueue A
  added q task = record q { slots = set q.slots (index size q.tail) task; tail = long_inc q.tail }

  enqueue_room :
      (q : TaskQueue A) (task : A)
      → IsSize size
      → IsValid size q
      → used q < size
      → enqueue size q task ≡ (true, added q task)
  unfolding enqueue
  enqueue_room q task s v h =
      let back : long_dec (long_inc q.tail) ≡ q.tail = omega arith in rw back (ground arith)

  enqueue_full :
      (q : TaskQueue A) (task : A)
      → IsSize size
      → IsValid size q
      → used q ≡ size
      → enqueue size q task ≡ (false, q)
  unfolding enqueue
  enqueue_full q task s v h =
      let back : long_dec (long_inc q.tail) ≡ q.tail = omega arith in rw back (ground arith)

  added-contents :
      (q : TaskQueue A) (task : A)
      → IsSize size
      → IsValid size q
      → used q < size
      → (contents (added q task) ≡ contents q ++ task ∷ []) × IsValid size (added q task)
  added-contents q task s v h =
      let more : used (added q task) ≡ suc (used q) = omega arith in
      (
        rw more
            (window-set q.slots task (used q) q.head q.tail s v.memory v.head_long h (omega arith)),
        record {
          head_long = v.head_long;
          tail_long = omega arith;
          bounded = omega arith;
          memory = length-set q.slots (index size q.tail) task ∙ v.memory;
        },
      )

  -- In a valid queue of 16 or 8 slots a task is accepted exactly while fewer than `size` are
  -- waiting, also across a wrap of the counters. It goes to the end; where it is refused the queue
  -- stays as it was. The queue stays valid.
  pub contents-enqueue :
      (q : TaskQueue A) (task : A)
      → IsSize size
      → IsValid size q
      → let (accepted, q') = enqueue size q task in
        (accepted ≡ ltb (length (contents q)) size)
        × (contents q' ≡ (if accepted then contents q ++ task ∷ [] else contents q))
        × IsValid size q'
  contents-enqueue q task s v = elim (dec_lt (used q) size) [
    | yes h ↦
        let (same, valid) = added-contents q task s v h in
        rw (enqueue_room q task s v h, length-window q.slots q.head (used q))
          (sym (lt→ltb (used q) size h), same, valid)
    | no h ↦
        rw (enqueue_full q task s v (omega arith), length-window q.slots q.head (used q))
          (ground arith, refl, v)
  ]

  -- The workitem sees a task exactly if one is waiting; it reads the oldest, and its increment of the
  -- head takes that task out.
  pub contents-advance :
      (q : TaskQueue A)
      → IsSize size
      → IsValid size q
      → pending q ≡ true
      → (contents q ≡ front size zero_slot q ∷ contents (advance q)) × IsValid size (advance q)
  unfolding pending front advance
  contents-advance q s v p =
      let less : used (advance q) ≡ used q - 1 = ground arith in
      (
        window_of_ne_zero q.slots q.head (used q) (ground arith)
            ∙ ap
                (λ n.
                  get_or q.slots (index size q.head) zero_slot ∷ window q.slots (long_inc q.head) n)
                (sym less),
        ground arith,
      )

  pub pending-contents :
      (q : TaskQueue A) → IsValid size q → (pending q ≡ false) ↔ (contents q ≡ [])
  unfolding pending
  pending-contents q v = (
    (λ p. let none_left : used q ≡ 0 = ground arith in rw none_left),
    (λ e. ground (arith, length-window q.slots q.head (used q), ap length e)),
  )

  -- A client of the queue: tasks that are offered, and rounds of the workitem.
  pub data Op : Type ℓ where
    offer : A → Op
    round : Op

  -- The queue, the tasks accepted so far and those taken out, both oldest first.
  pub record History : Type ℓ where
    pub queue : TaskQueue A
    pub accepted : List A
    pub taken : List A

  pub history_step : History → Op → History
  history_step s (offer task) =
      let (accepted, q') = enqueue size s.queue task in
      record s { queue = q'; accepted = if accepted then s.accepted ++ task ∷ [] else s.accepted }
  history_step s round =
      if pending s.queue
      then record s {
        queue = advance s.queue;
        taken = s.taken ++ front size zero_slot s.queue ∷ [];
      }
      else s

  pub history : History → List Op → History
  history s [] = s
  history s (op ∷ ops) = history (history_step s op) ops

  abbrev pub IsConserving : History → Type ℓ
  IsConserving s = (s.accepted ≡ s.taken ++ contents s.queue) × IsValid size s.queue

  step-IsConserving :
      (s : History) (op : Op) → IsSize size → IsConserving s → IsConserving (history_step s op)
  unfolding history_step
  step-IsConserving s (offer task) size_ok (same, valid) = ground (
    arith,
    contents-enqueue s.queue task size_ok valid,
    append_assoc s.taken (contents s.queue) (task ∷ []),
  )
  step-IsConserving s round size_ok (same, valid) = ground (
    arith,
    contents-advance s.queue size_ok valid,
    append_assoc s.taken (front size zero_slot s.queue ∷ []) (contents (advance s.queue)),
  )

  -- From a valid queue of 16 or 8 slots on, whatever tasks are offered and whenever the workitem
  -- runs, each accepted task is taken out once, in the order of acceptance, or is still waiting:
  -- nothing is lost, doubled or reordered, provided that no round of the workitem falls between the
  -- steps of an offer.
  pub history-IsConserving :
      (s : History) (ops : List Op) → IsSize size → IsConserving s → IsConserving (history s ops)
  unfolding history
  history-IsConserving s [] size_ok c = c
  history-IsConserving s (op ∷ ops) size_ok c =
      history-IsConserving (history_step s op) ops size_ok (step-IsConserving s op size_ok c)
