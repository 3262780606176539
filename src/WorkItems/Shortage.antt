-- ===== src/WorkItems/Shortage.antt =====
-- The loops of the workitems where WdfMemoryCreate fails.
use wificx_skeleton.Prelude.{
  ℕ, zero, suc, ◌≤◌, ◌≡◌, refl, inl, inr, ap, ◌∙◌, subst, Bool, true, false, Bool-cases, [],
  if◌then◌else◌,
}
use mathlib.Core.List.{append-nil}
use wificx_skeleton.Platform.{nt_success}
use wificx_skeleton.Platform.System.{System}
use wificx_skeleton.TaskQueue.{pending}
use wificx_skeleton.TaskQueue.Counters.{used, IsValid}
use wificx_skeleton.TaskQueue.Fifo.{contents}
use wificx_skeleton.Device.{Driver, ChipOps, WorkItem}
use wificx_skeleton.Device.Effects.{IsBackend}
use wificx_skeleton.WorkItems.{work_loop}
use wificx_skeleton.WorkItems.Loops.{
  Serves, loop_drains, loop_silent, work_loop-done, work_loop-stop,
}
use wificx_skeleton.WorkItems.Kinds.{
  size_of, size_of-IsSize, zero_of, reply_of, completion_of, queue_of, waiting, completed_of,
  retries, work_item, work_item_lem, round_of, round-Serves, sends, sends_lem,
}

module _ (sys : System) (ops : ChipOps) (k : WorkItem) where
  -- A round of a workitem that gives its task up in any case.
  round_drains :
      (d : Driver)
      → retries k ≡ false
      → IsBackend ops
      → Serves
          (size_of k)
          (zero_of k)
          (queue_of k)
          (completion_of k)
          (reply_of k)
          true
          (sends sys ops k d)
          d
          (round_of sys ops k d)
  round_drains d e b =
      subst
        (λ c.
          Serves (size_of k) (zero_of k) (queue_of k) (completion_of k) (reply_of k)
            (if c then sends sys ops k d else true) (sends sys ops k d) d (round_of sys ops k d))
        e (round-Serves sys ops k d b).0

  -- With fuel for the tasks that wait, on a valid queue and with a backend that keeps its contract, the
  -- loops of EvtConnectCompleteWorkItem, EvtDisconnectCompleteWorkItem and EvtRadioStatusWorkItem end
  -- with an empty queue, whatever WdfMemoryCreate does.
  pub work_item-drains :
      (fuel : ℕ) (d : Driver)
      → retries k ≡ false
      → IsBackend ops
      → IsValid (size_of k) (queue_of k d)
      → used (queue_of k d) ≤ fuel
      → waiting k (work_item sys ops k fuel d) ≡ []
  work_item-drains fuel d e b v f =
      rw (work_item_lem sys ops k fuel d)
        (loop_drains (size_of k) (zero_of k) (queue_of k) (completion_of k) (reply_of k)
          (round_of sys ops k) fuel d (size_of-IsSize k) (λ x. (_, round_drains x e b)) v f).0

  -- A loop whose first round stops and changes nothing of the queue and of the completions.
  loop_stuck :
      (fuel : ℕ) (d : Driver)
      → Serves
          (size_of k)
          (zero_of k)
          (queue_of k)
          (completion_of k)
          (reply_of k)
          false
          false
          d
          (round_of sys ops k d)
      → let d' = work_loop (λ e. pending (queue_of k e)) (round_of sys ops k) fuel d in
        (waiting k d' ≡ waiting k d) × (completed_of k d' ≡ completed_of k d)
  unfolding work_loop
  loop_stuck zero d s = (refl, refl)
  loop_stuck (suc fuel) d s = elim (Bool-cases (pending (queue_of k d))) [
    | inr p ↦
        rw (work_loop-done (λ e. pending (queue_of k e)) (round_of sys ops k) fuel d p) (refl, refl)
    | inl p ↦
        rw (work_loop-stop (λ e. pending (queue_of k e)) (round_of sys ops k) fuel d p s.goes_on) (
          ap (contents (size_of k) (zero_of k)) s.taken,
          s.completed ∙ append-nil (completed_of k d),
        )
  ]

  -- Where WdfMemoryCreate always fails a workitem completes nothing, on a valid queue, with fuel for the
  -- tasks that wait and with a backend that keeps its contract. EvtScanCompleteWorkItem and
  -- EvtResetCompleteWorkItem leave the tasks in the queue; the three others empty it, so that
  -- the tasks that were waiting are never completed.
  pub work_item-forgets :
      (fuel : ℕ) (d : Driver)
      → ((call size : ℕ) → nt_success (sys.memory_create call size) ≡ false)
      → IsBackend ops
      → IsValid (size_of k) (queue_of k d)
      → used (queue_of k d) ≤ fuel
      → let d' = work_item sys ops k fuel d in
        (waiting k d' ≡ (if retries k then waiting k d else []))
        × (completed_of k d' ≡ completed_of k d)
  work_item-forgets fuel d m b v f =
      rw (work_item_lem sys ops k fuel d) (elim (Bool-cases (retries k)) [
        | inl e ↦ rw e (loop_stuck fuel d (fails d true e))
        | inr e ↦ rw e (
          (loop_drains (size_of k) (zero_of k) (queue_of k) (completion_of k) (reply_of k)
              (round_of sys ops k) fuel d (size_of-IsSize k) (λ x. (_, fails x false e)) v f).0,
          loop_silent (size_of k) (zero_of k) (queue_of k) (completion_of k) (reply_of k)
              (round_of sys ops k) fuel d (λ x. fails x false e),
        )
      ])
    where
      fails :
          (x : Driver) (c : Bool)
          → retries k ≡ c
          → Serves
              (size_of k)
              (zero_of k)
              (queue_of k)
              (completion_of k)
              (reply_of k)
              (if c then false else true)
              false
              x
              (round_of sys ops k x)
      fails x c e =
          subst
            (λ y.
              Serves (size_of k) (zero_of k) (queue_of k) (completion_of k) (reply_of k)
                (if y then false else true) false x (round_of sys ops k x))
            e
            (subst
              (λ s.
                Serves (size_of k) (zero_of k) (queue_of k) (completion_of k) (reply_of k)
                  (if retries k then s else true) s x (round_of sys ops k x))
              (sends_lem sys ops k x false m) (round-Serves sys ops k x b).0)
