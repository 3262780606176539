-- ===== src/WorkItems/Conservation.antt =====
-- What the workitems keep whatever WdfMemoryCreate does: their tasks, and the rule for unsolicited
-- indications.
use wificx_skeleton.Prelude.{
  ℕ, ◌≡◌, refl, ◌⊎◌, inl, inr, subst, sym, Bool, true, false, if◌then◌else◌,
}
use wificx_skeleton.Platform.{nt_success}
use wificx_skeleton.Platform.System.{System}
use wificx_skeleton.TaskQueue.Counters.{IsValid}
use wificx_skeleton.Device.{Driver, ChipOps, WorkItem}
use wificx_skeleton.Device.Effects.{IsDisciplined, IsBackend}
use wificx_skeleton.WorkItems.Loops.{Serves, loop_conserves, loop-IsDisciplined}
use wificx_skeleton.WorkItems.Kinds.{
  size_of, size_of-IsSize, zero_of, reply_of, completion_of, queue_of, due_of, retries, work_item,
  work_item_lem, round_of, round-Serves, sends, sends_lem,
}

-- The kind loses no task: its workitem leaves a task in its slot where the completion fails, or the memory
-- for completions is always there.
abbrev pub IsLossless : System → WorkItem → Type 0
IsLossless sys k =
    (retries k ≡ true) ⊎ ((call size : ℕ) → nt_success (sys.memory_create call size) ≡ true)

module _ (sys : System) (ops : ChipOps) where
  -- A round takes its task out exactly if it completes it.
  round_conserves :
      (k : WorkItem) (d : Driver)
      → IsLossless sys k
      → IsBackend ops
      → Serves
          (size_of k)
          (zero_of k)
          (queue_of k)
          (completion_of k)
          (reply_of k)
          (sends sys ops k d)
          (sends sys ops k d)
          d
          (round_of sys ops k d)
  round_conserves k d l b =
      subst
        (λ x.
          Serves (size_of k) (zero_of k) (queue_of k) (completion_of k) (reply_of k) x
            (sends sys ops k d) d (round_of sys ops k d))
        (same l) (round-Serves sys ops k d b).0
    where
      if_sent : (c s : Bool) → s ≡ true → (if c then s else true) ≡ s
      if_sent true s e = refl
      if_sent false s e = sym e

      same : IsLossless sys k → (if retries k then sends sys ops k d else true) ≡ sends sys ops k d
      same (inl e) = rw e refl
      same (inr m) = if_sent (retries k) (sends sys ops k d) (sends_lem sys ops k d true m)

  -- On a valid queue and with a backend that keeps its contract a workitem loses and doubles no task: the
  -- completions so far, followed by the tasks that wait, stay the same, however many rounds run. For
  -- EvtScanCompleteWorkItem and EvtResetCompleteWorkItem it holds whatever WdfMemoryCreate does, for
  -- the three others where it always succeeds. The queue stays valid.
  pub work_item-conserves :
      (k : WorkItem) (fuel : ℕ) (d : Driver)
      → IsLossless sys k
      → IsBackend ops
      → IsValid (size_of k) (queue_of k d)
      → let d' = work_item sys ops k fuel d in
        (due_of k d' ≡ due_of k d) × IsValid (size_of k) (queue_of k d')
  work_item-conserves k fuel d l b v = rw (work_item_lem sys ops k fuel d) (
      loop_conserves (size_of k) (zero_of k) (queue_of k) (completion_of k) (reply_of k)
        (round_of sys ops k) fuel d (size_of-IsSize k) (λ e. (_, round_conserves k e l b)) v)

  -- With a backend that keeps its contract no workitem breaks the rule of docs/wdi_contract.md that
  -- an unsolicited indication has transaction id 0, however many rounds it makes: a log under the
  -- rule stays so.
  pub work_item-IsDisciplined :
      (k : WorkItem) (fuel : ℕ) (d : Driver)
      → IsBackend ops
      → IsDisciplined d.log
      → IsDisciplined (work_item sys ops k fuel d).log
  work_item-IsDisciplined k fuel d b h =
      rw (work_item_lem sys ops k fuel d)
        (loop-IsDisciplined _ (round_of sys ops k) fuel d (λ e. (round-Serves sys ops k e b).1) h)
