-- ===== src/Sessions/Noted.antt =====
-- The five kinds of task apart: their queues, their workitems in the event log, and their completions.
use mathlib.Core.List.{append-nil}
use wificx_skeleton.Prelude.{
  ◌+◌, ◌≡◌, refl, sym, ap, ◌∙◌, ◌⊎◌, Bool, true, false, List, [], ◌∷◌, some, ◌==◌, if◌then◌else◌,
  arith,
}
use wificx_skeleton.Platform.{IndicationId}
use wificx_skeleton.TaskQueue.{TaskQueue}
use wificx_skeleton.Device.{
  WorkItem, scan_work, reset_work, radio_work, connect_work, disconnect_work, Event, indicated,
  completed, request_completed, work_enqueued, generated_freed,
}
use wificx_skeleton.Device.Effects.{completions}
use wificx_skeleton.WorkItems.Kinds.{TaskOf, work_code, Queues, pick, put, runs}
use wificx_skeleton.Sessions.Views.{noted, Offer}

-- The offered task, if it is one of the kind.
abbrev pub task_for : (k : WorkItem) → Offer → List (TaskOf k)
task_for scan_work (some (scan_work, task)) = task ∷ []
task_for reset_work (some (reset_work, task)) = task ∷ []
task_for radio_work (some (radio_work, task)) = task ∷ []
task_for connect_work (some (connect_work, task)) = task ∷ []
task_for disconnect_work (some (disconnect_work, task)) = task ∷ []
task_for _ _ = []

-- The same or another kind.
pub kind_cases : (j k : WorkItem) → (j ≡ k) ⊎ ((work_code j == work_code k) ≡ false)
kind_cases j k = ground arith

work_code_refl : (k : WorkItem) → (work_code k == work_code k) ≡ true
work_code_refl k = ground arith

pub pick-put_self : (k : WorkItem) (q : TaskQueue (TaskOf k)) (x : Queues) → pick k (put k q x) ≡ q
pick-put_self scan_work q x = refl
pick-put_self reset_work q x = refl
pick-put_self radio_work q x = refl
pick-put_self connect_work q x = refl
pick-put_self disconnect_work q x = refl

pub pick-put_other :
    (j k : WorkItem) (q : TaskQueue (TaskOf j)) (x : Queues)
    → (work_code j == work_code k) ≡ false
    → pick k (put j q x) ≡ pick k x
pick-put_other scan_work scan_work q x h = cc
pick-put_other reset_work reset_work q x h = cc
pick-put_other radio_work radio_work q x h = cc
pick-put_other connect_work connect_work q x h = cc
pick-put_other disconnect_work disconnect_work q x h = cc
pick-put_other j k q x h = refl

pub task_for_self : (k : WorkItem) (t : TaskOf k) → task_for k (some (k, t)) ≡ t ∷ []
task_for_self scan_work t = refl
task_for_self reset_work t = refl
task_for_self radio_work t = refl
task_for_self connect_work t = refl
task_for_self disconnect_work t = refl

pub task_for_other :
    (j k : WorkItem) (t : TaskOf j)
    → (work_code j == work_code k) ≡ false
    → task_for k (some (j, t)) ≡ []
task_for_other scan_work scan_work t h = cc
task_for_other reset_work reset_work t h = cc
task_for_other radio_work radio_work t h = cc
task_for_other connect_work connect_work t h = cc
task_for_other disconnect_work disconnect_work t h = cc
task_for_other j k t h = refl

pub runs_other :
    (j k : WorkItem) (b : Bool) (log : List Event)
    → (work_code j == work_code k) ≡ false
    → runs k (if b then work_enqueued j ∷ log else log) ≡ runs k log
runs_other j k true log h = rw h (omega arith)
runs_other j k false log h = refl

pub runs_self :
    (k : WorkItem) (b : Bool) (log : List Event)
    → runs k (if b then work_enqueued k ∷ log else log) ≡ (if b then 1 else 0) + runs k log
runs_self k true log = rw (work_code_refl k) refl
runs_self k false log = omega arith

pub runs-noted : (k : WorkItem) (log : List Event) → runs k (noted log) ≡ runs k log
runs-noted k [] = refl
runs-noted k (indicated id m ∷ log) = runs-noted k log
runs-noted k (completed s n m ∷ log) = runs-noted k log
runs-noted k (request_completed r s n ∷ log) = runs-noted k log
runs-noted k (work_enqueued w ∷ log) =
    ap (λ n. (if work_code w == work_code k then 1 else 0) + n) (runs-noted k log)
runs-noted k (generated_freed ∷ log) = runs-noted k log

pub completions-noted :
    (id : IndicationId) (log : List Event) → completions id (noted log) ≡ completions id log
completions-noted id [] = refl
completions-noted id (indicated other m ∷ log) = rw (completions-noted id log) refl
completions-noted id (completed s n m ∷ log) =
    completions-noted id log ∙ sym (append-nil (completions id log))
completions-noted id (request_completed r s n ∷ log) = rw (completions-noted id log) refl
completions-noted id (work_enqueued w ∷ log) = rw (completions-noted id log) refl
completions-noted id (generated_freed ∷ log) =
    completions-noted id log ∙ sym (append-nil (completions id log))

pub completions_offer :
    (id : IndicationId) (w : WorkItem) (b : Bool) (log : List Event)
    → completions id (if b then work_enqueued w ∷ log else log) ≡ completions id log
completions_offer id w true log = append-nil (completions id log)
completions_offer id w false log = refl
