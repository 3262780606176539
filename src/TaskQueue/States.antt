-- ===== src/TaskQueue/States.antt =====
-- The states of a task queue up to the positions of head and tail and the contents of the free slots, with the
-- offer of a task and the step of a workitem.
use mathlib.Core.Quot
use mathlib.Core.Quot.{Quot, Quot-set}
use wificx_skeleton.Prelude.{
  ℕ, ◌≤◌, ◌≡◌, refl, sym, ap, ap₂, ◌∙◌, Bool, true, false, List, [], ◌∷◌, ◌++◌, Option, none, some,
  length, length-replicate, ltb, if◌then◌else◌, arith,
}
use wificx_skeleton.TaskQueue.{TaskQueue, new_queue, enqueue, pending, front, advance}
use wificx_skeleton.TaskQueue.Counters.{IsSize, used, IsValid}
use wificx_skeleton.TaskQueue.Fifo.{
  contents, length-window, contents-enqueue, contents-advance, pending-contents,
}
use wificx_skeleton.TaskQueue.Structure.{map_taken}

-- The first item and the others.
abbrev pub uncons : {A : Type 0} → List A → Option (A × List A)
uncons [] = none
uncons (x ∷ xs) = some (x, xs)

-- The valid states of a task queue.
abbrev pub ValidQueue : Type 0 → ℕ → Type 0
ValidQueue A size = (q : TaskQueue A) × IsValid size q

module _ {A : Type 0} (size : ℕ) (size_ok : IsSize size) (zero_slot : A) where
  abbrev pub tasks : ValidQueue A size → List A
  tasks r = contents size zero_slot r.0

  -- Two states hold the same tasks.
  abbrev pub SameTasks : ValidQueue A size → ValidQueue A size → Type 0
  SameTasks r s = tasks r ≡ tasks s

  abbrev pub Abstract : Type 0
  Abstract = Quot SameTasks

  pub length-tasks : (r : ValidQueue A size) → length (tasks r) ≤ size
  length-tasks r =
      omega (arith, r.1.bounded, length-window size zero_slot r.0.slots r.0.head (used r.0))

  abbrev pub offer_state : A → ValidQueue A size → Bool × ValidQueue A size
  offer_state x r =
      let (accepted, q) = enqueue size r.0 x in
      (accepted, (q, (contents-enqueue size zero_slot r.0 x size_ok r.1).2))

  -- A step at the head, if a task waits.
  abbrev pub take_by :
      (r : ValidQueue A size) (b : Bool) → pending r.0 ≡ b → Option (A × ValidQueue A size)
  take_by r true p = some (
    front size zero_slot r.0,
    (advance r.0, (contents-advance size zero_slot r.0 size_ok r.1 p).1),
  )
  take_by r false p = none

  abbrev pub take_state : ValidQueue A size → Option (A × ValidQueue A size)
  take_state r = take_by r (pending r.0) refl

  pub take_by-tasks :
      (r : ValidQueue A size) (b : Bool) (p : pending r.0 ≡ b)
      → map_taken tasks (take_by r b p) ≡ uncons (tasks r)
  take_by-tasks r true p = ap uncons (sym (contents-advance size zero_slot r.0 size_ok r.1 p).0)
  take_by-tasks r false p = ap uncons (sym ((pending-contents size zero_slot r.0 r.1).0 p))

  pub offer_state-tasks :
      (x : A) (r : ValidQueue A size)
      → let room = ltb (length (tasks r)) size in
        ((offer_state x r).0 ≡ room)
        × (tasks (offer_state x r).1 ≡ (if room then tasks r ++ x ∷ [] else tasks r))
  offer_state-tasks x r =
      let (fits, same, valid) = contents-enqueue size zero_slot r.0 x size_ok r.1 in
      (fits, same ∙ ap (λ b. if b then tasks r ++ x ∷ [] else tasks r) fits)

  pub new_queue-IsValid : IsValid size (new_queue size zero_slot)
  unfolding new_queue
  new_queue-IsValid = record {
    head_long = omega arith;
    tail_long = omega arith;
    bounded = omega arith;
    memory = length-replicate size zero_slot;
  }

  abbrev pub class : ValidQueue A size → Abstract
  class r = Quot.mk r

  module _ (A_set : IsSet A) where
    abbrev pub answer_set : IsSet (Bool × Abstract)
    answer_set = hlevel Quot-set

    abbrev pub taken_set : IsSet (Option (A × Abstract))
    taken_set = hlevel (A_set, Quot-set)

    pub offer_sound :
        (x : A) (r s : ValidQueue A size)
        → SameTasks r s
        → ◌≡◌ {A = Bool × Abstract}
            ((offer_state x r).0, class (offer_state x r).1)
            ((offer_state x s).0, class (offer_state x s).1)
    offer_sound x r s h =
        let (fits, same) = offer_state-tasks x r in
        let (fits', same') = offer_state-tasks x s in
        ap₂ (λ b q. (b, q)) (fits ∙ ap (λ xs. ltb (length xs) size) h ∙ sym fits')
          (Quot.sound
            (same ∙ ap (λ xs. if ltb (length xs) size then xs ++ x ∷ [] else xs) h ∙ sym same'))

    pub taken_sound :
        (o o' : Option (A × ValidQueue A size))
        → map_taken tasks o ≡ map_taken tasks o'
        → map_taken class o ≡ map_taken class o'
    taken_sound none none e = refl
    taken_sound none (some (a, r)) e = cc
    taken_sound (some (a, r)) none e = cc
    taken_sound (some (a, r)) (some (b, s)) e =
        let both : ◌≡◌ {A = A × List A} (a, tasks r) (b, tasks s) =
          ap {B = A × List A} (λ o. elim o [ none ↦ (a, tasks r) | some x ↦ x ]) e in
        ap₂ (λ x q. some (x, q)) (ap (λ x. x.0) both) (Quot.sound (ap (λ x. x.1) both))

    -- EnqueueTask and the workitem's step, on states up to representation.
    abbrev pub offer_abstract : A → Abstract → Bool × Abstract
    offer_abstract x =
        Quot.lift answer_set (λ r. ((offer_state x r).0, class (offer_state x r).1)) (offer_sound x)

    abbrev pub take_abstract : Abstract → Option (A × Abstract)
    take_abstract =
        Quot.lift taken_set (λ r. map_taken class (take_state r))
          (λ r s h. taken_sound (take_state r) (take_state s) (
            take_by-tasks r (pending r.0) refl
            ∙ ap uncons h
            ∙ sym (take_by-tasks s (pending s.0) refl)))
