-- ===== src/Sessions/Losses.antt =====
-- Any session, where WdfMemoryCreate may fail at any call.
use mathlib.Core.List.{Sublist, append-nil, append_assoc}
use mathlib.Core.List.Sublist
use wificx_skeleton.Prelude.{ℕ, sym, subst, inl, inr, List, [], ◌∷◌, ◌++◌}
use wificx_skeleton.Platform.System.{System}
use wificx_skeleton.TaskQueue.Counters.{IsValid}
use wificx_skeleton.Device.{Driver, ChipOps, WorkItem}
use wificx_skeleton.Device.Effects.{IsBackend, IsLocal}
use wificx_skeleton.WorkItems.Ordering.{work_item-sublist}
use wificx_skeleton.WorkItems.Kinds.{size_of, queue_of, due_of}
use wificx_skeleton.Sessions.{Turn, issue, run, turn, session}
use wificx_skeleton.Sessions.Noted.{kind_cases}
use wificx_skeleton.Sessions.Runs.{work_item-ledger}
use wificx_skeleton.Sessions.Accounts.{
  admits, all_admitted, Accounts, command-Accounts, bystander-Accounts,
}

module _ (sys : System) (ops : ChipOps) (k : WorkItem) where
  Loses : Turn → Driver → Type 0
  Loses t d =
      Sublist (due_of k (turn sys ops t d)) (due_of k d ++ admits sys ops k t d)
      × IsValid (size_of k) (queue_of k (turn sys ops t d))

  Accounts-Loses : (t : Turn) (d : Driver) → Accounts sys ops k t d → Loses t d
  unfolding Accounts Loses
  Accounts-Loses t d (same, valid) = (
    subst (λ xs. Sublist xs (due_of k d ++ admits sys ops k t d)) (sym same)
        (Sublist.refl (due_of k d ++ admits sys ops k t d)),
    valid,
  )

  own-Loses :
      (fuel : ℕ) (d : Driver)
      → IsBackend ops
      → IsValid (size_of k) (queue_of k d)
      → Loses (run k fuel) d
  unfolding turn Loses
  own-Loses fuel d b v =
      let (less, valid) = work_item-sublist sys ops k fuel d b v in
      (
        subst (Sublist (due_of k (turn sys ops (run k fuel) d))) (sym (append-nil (due_of k d)))
            less,
        valid,
      )

  turn-Loses :
      (t : Turn) (d : Driver)
      → IsBackend ops
      → IsLocal ops
      → IsValid (size_of k) (queue_of k d)
      → Loses t d
  turn-Loses (issue r) d b l v = Accounts-Loses (issue r) d (command-Accounts sys ops k r d l v)
  turn-Loses (run j fuel) d b l v = elim (kind_cases j k) [
    | inr n ↦
        Accounts-Loses (run j fuel) d
          (bystander-Accounts sys ops k j fuel d (work_item-ledger sys ops k j fuel d n b) v)
    | inl e ↦ subst (λ i. Loses (run i fuel) d) (sym e) (own-Loses fuel d b v)
  ]

  -- In every session of commands and of runs of the five workitems, whatever WdfMemoryCreate does: the
  -- tasks of a kind completed at the end followed by those that then wait are a part, in the same
  -- order, of those of the start followed by the admitted ones. So no completion is sent that was not
  -- asked for, none is sent twice, and none overtakes another; tasks can only get lost. The queue stays
  -- valid. It holds from a valid queue on, with a backend that keeps its contracts.
  pub session-sublist :
      (ts : List Turn) (d : Driver)
      → IsBackend ops
      → IsLocal ops
      → IsValid (size_of k) (queue_of k d)
      → Sublist (due_of k (session sys ops ts d)) (due_of k d ++ all_admitted sys ops k ts d)
        × IsValid (size_of k) (queue_of k (session sys ops ts d))
  unfolding session Loses
  session-sublist [] d b l v =
      (subst (Sublist (due_of k d)) (sym (append-nil (due_of k d))) (Sublist.refl (due_of k d)), v)
  session-sublist (t ∷ ts) d b l v =
      let (first, valid) = turn-Loses t d b l v in
      let (rest, valid') = session-sublist ts (turn sys ops t d) b l valid in
      let later = all_admitted sys ops k ts (turn sys ops t d) in
      (
        subst (Sublist (due_of k (session sys ops ts (turn sys ops t d))))
            (append_assoc (due_of k d) (admits sys ops k t d) later)
            (Sublist.trans rest (Sublist.append first (Sublist.refl later))),
        valid',
      )
