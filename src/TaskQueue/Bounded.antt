-- ===== src/TaskQueue/Bounded.antt =====
-- The task queues as lists of bounded length.
use std.Equiv.{◌≃◌, iso_to_equiv}
use native.Mathlib.Bridge.{le_prop}
use native.Mathlib.Decide.{dec_lt}
use mathlib.Core.HLevel.{Σ_prop_path}
use mathlib.Core.List.{append_assoc, append-nil}
use mathlib.Core.Quot
use mathlib.Core.Quot.{Quot, Quot-set}
use wificx_skeleton.Prelude.{
  ℕ, ◌+◌, ◌<◌, ◌≤◌, ◌≡◌, refl, sym, ap, ap₂, ◌∙◌, Bool, true, false, List, [], ◌∷◌, ◌++◌, Option,
  none, some, length, length-append, ltb, if◌then◌else◌, arith,
}
use wificx_skeleton.TaskQueue.{new_queue, pending}
use wificx_skeleton.TaskQueue.Counters.{IsSize}
use wificx_skeleton.TaskQueue.Structure.{Queue, Queue_path, map_taken}
use wificx_skeleton.TaskQueue.States
use wificx_skeleton.TaskQueue.States.{ValidQueue, uncons}

-- Lists of at most `size` items, with a FIFO's operations.
abbrev pub BoundedList : Type 0 → ℕ → Type 0
BoundedList A size = (xs : List A) × (length xs ≤ size)

module _ {A : Type 0} (size : ℕ) where
  pub longer : (xs : List A) (x : A) → length xs < size → length (xs ++ x ∷ []) ≤ size
  longer xs x h = omega (arith, length-append xs (x ∷ []))

  pub shorter : (x : A) (xs : List A) → length (x ∷ xs) ≤ size → length xs ≤ size
  shorter x xs h = omega arith

  abbrev pub offer_by :
      (x : A) (b : BoundedList A size) → Dec (length b.0 < size) → Bool × BoundedList A size
  offer_by x b (yes h) = (true, (b.0 ++ x ∷ [], longer b.0 x h))
  offer_by x b (no h) = (false, b)

  abbrev pub offer_list : A → BoundedList A size → Bool × BoundedList A size
  offer_list x b = offer_by x b (dec_lt (length b.0) size)

  abbrev pub take_list : BoundedList A size → Option (A × BoundedList A size)
  take_list ([], p) = none
  take_list (x ∷ xs, p) = some (x, (xs, shorter x xs p))

module _ {A : Type 0} (size : ℕ) (size_ok : IsSize size) (zero_slot : A) (A_set : IsSet A) where
  -- The states of this queue.
  abbrev Abstract : Type 0
  Abstract = States.Abstract size size_ok zero_slot

  abbrev tasks : ValidQueue A size → List A
  tasks = States.tasks size size_ok zero_slot

  abbrev class : ValidQueue A size → Abstract
  class = States.class size size_ok zero_slot

  abbrev length-tasks : (r : ValidQueue A size) → length (tasks r) ≤ size
  length-tasks = States.length-tasks size size_ok zero_slot

  abbrev offer_state : A → ValidQueue A size → Bool × ValidQueue A size
  offer_state = States.offer_state size size_ok zero_slot

  abbrev take_state : ValidQueue A size → Option (A × ValidQueue A size)
  take_state = States.take_state size size_ok zero_slot

  abbrev offer_abstract : A → Abstract → Bool × Abstract
  offer_abstract = States.offer_abstract size size_ok zero_slot A_set

  abbrev take_abstract : Abstract → Option (A × Abstract)
  take_abstract = States.take_abstract size size_ok zero_slot A_set

  BoundedList-set : IsSet (BoundedList A size)
  BoundedList-set = hlevel (A_set, le_prop)

  abbrev list_answer_set : IsSet (Bool × BoundedList A size)
  list_answer_set = hlevel BoundedList-set

  abbrev list_taken_set : IsSet (Option (A × BoundedList A size))
  list_taken_set = hlevel (A_set, BoundedList-set)

  abbrev bounded : ValidQueue A size → BoundedList A size
  bounded r = (tasks r, length-tasks r)

  to_list : Abstract → BoundedList A size
  to_list = Quot.lift BoundedList-set bounded (λ r s h. Σ_prop_path (λ xs. le_prop) h)

  -- The tasks put to a queue one after the other, as the dispatcher does.
  fill : List A → ValidQueue A size → ValidQueue A size
  fill [] r = r
  fill (x ∷ xs) r = fill xs (offer_state x r).1

  tasks-fill :
      (xs : List A) (r : ValidQueue A size)
      → length (tasks r) + length xs ≤ size
      → tasks (fill xs r) ≡ tasks r ++ xs
  unfolding fill
  tasks-fill [] r h = sym (append-nil (tasks r))
  tasks-fill (x ∷ xs) r h =
      let room : ltb (length (tasks r)) size ≡ true = ground arith in
      let same : tasks (offer_state x r).1 ≡ tasks r ++ x ∷ [] =
        (States.offer_state-tasks size size_ok zero_slot x r).1
        ∙ ap (λ b. if b then tasks r ++ x ∷ [] else tasks r) room in
      tasks-fill xs (offer_state x r).1
        (omega (arith, ap length same, length-append (tasks r) (x ∷ []), h))
      ∙ ap (λ ys. ys ++ xs) same
      ∙ append_assoc (tasks r) (x ∷ []) xs

  new : ValidQueue A size
  new = (new_queue size zero_slot, States.new_queue-IsValid size size_ok zero_slot)

  from_list : BoundedList A size → Abstract
  from_list b = class (fill b.0 new)

  in_new : (n : ℕ) → n ≤ size → 0 + n ≤ size
  in_new n h = omega arith

  to_list-from_list : (b : BoundedList A size) → to_list (from_list b) ≡ b
  unfolding to_list from_list new new_queue
  to_list-from_list b = Σ_prop_path (λ xs. le_prop) (tasks-fill b.0 new (in_new (length b.0) b.1))

  from_list-to_list : (q : Abstract) → from_list (to_list q) ≡ q
  unfolding to_list from_list new new_queue
  from_list-to_list =
      Quot.ind (λ q. Quot-set (from_list (to_list q)) q)
        (λ r. Quot.sound (tasks-fill (tasks r) new (in_new (length (tasks r)) (length-tasks r))))

  correspondence : Abstract ≃ BoundedList A size
  correspondence = iso_to_equiv (record {
    fun = to_list;
    inv = from_list;
    rinv = to_list-from_list;
    linv = from_list-to_list;
  })

  offer_by-tasks :
      (x : A) (r : ValidQueue A size) (decision : Dec (length (tasks r) < size))
      → offer_by size x (bounded r) decision ≡ ((offer_state x r).0, bounded (offer_state x r).1)
  offer_by-tasks x r (yes h) =
      let (fits, same) = States.offer_state-tasks size size_ok zero_slot x r in
      let room : ltb (length (tasks r)) size ≡ true = ground arith in
      ap₂ (λ b ys. (b, ys)) (sym (fits ∙ room))
        (Σ_prop_path (λ xs. le_prop)
          (sym (same ∙ ap (λ b. if b then tasks r ++ x ∷ [] else tasks r) room)))
  offer_by-tasks x r (no h) =
      let (fits, same) = States.offer_state-tasks size size_ok zero_slot x r in
      let full : ltb (length (tasks r)) size ≡ false = ground arith in
      ap₂ (λ b ys. (b, ys)) (sym (fits ∙ full))
        (Σ_prop_path (λ xs. le_prop)
          (sym (same ∙ ap (λ b. if b then tasks r ++ x ∷ [] else tasks r) full)))

  offer-to_list :
      (x : A) (q : Abstract)
      → offer_list size x (to_list q) ≡ ((offer_abstract x q).0, to_list (offer_abstract x q).1)
  unfolding to_list
  offer-to_list x =
      Quot.ind
        (λ q.
          list_answer_set (offer_list size x (to_list q))
            ((offer_abstract x q).0, to_list (offer_abstract x q).1))
        (λ r. offer_by-tasks x r (dec_lt (length (tasks r)) size))

  take_list-tasks :
      (b : BoundedList A size) (o : Option (A × ValidQueue A size))
      → map_taken tasks o ≡ uncons b.0
      → take_list size b ≡ map_taken bounded o
  take_list-tasks ([], p) none e = refl
  take_list-tasks ([], p) (some (a, r)) e = cc
  take_list-tasks (x ∷ xs, p) none e = cc
  take_list-tasks (x ∷ xs, p) (some (a, r)) e =
      let both : ◌≡◌ {A = A × List A} (a, tasks r) (x, xs) =
        ap {B = A × List A} (λ o. elim o [ none ↦ (a, tasks r) | some y ↦ y ]) e in
      ap₂ (λ y ys. some (y, ys)) (sym (ap (λ y. y.0) both))
        (Σ_prop_path (λ ys. le_prop) (sym (ap (λ y. y.1) both)))

  map_taken-class :
      (o : Option (A × ValidQueue A size))
      → map_taken bounded o ≡ map_taken to_list (map_taken class o)
  unfolding to_list
  map_taken-class none = refl
  map_taken-class (some (a, r)) = refl

  take-to_list : (q : Abstract) → take_list size (to_list q) ≡ map_taken to_list (take_abstract q)
  unfolding to_list
  take-to_list =
      Quot.ind
        (λ q. list_taken_set (take_list size (to_list q)) (map_taken to_list (take_abstract q)))
        (λ r.
          take_list-tasks (bounded r) (take_state r)
            (States.take_by-tasks size size_ok zero_slot r (pending r.0) refl)
          ∙ map_taken-class (take_state r))

  -- The valid states of a queue of 16 or 8 slots, up to the positions of head and tail and what the free slots
  -- hold, with an offer of a task and the step of a workitem, are the lists of at most that many tasks
  -- with the operations of a bounded FIFO: one and the same type of queues, by univalence. An
  -- offer is accepted exactly if there is room, and goes to the end; a workitem takes the first
  -- task, exactly if there is one. The tasks form a set.
  pub queue-BoundedList :
      ◌≡◌ {A = Queue A}
        (Abstract, (offer_abstract, take_abstract))
        (BoundedList A size, (offer_list size, take_list size))
  unfolding to_list correspondence
  queue-BoundedList =
      Queue_path correspondence (offer_abstract, take_abstract) (offer_list size, take_list size)
        (offer-to_list, take-to_list)
