-- ===== src/Sessions/Accounts.antt =====
-- Any session of commands and runs of the workitems: which tasks of each kind are completed.
use mathlib.Core.List.{append-nil, append_assoc, map-append}
use wificx_skeleton.Prelude.{ℕ, ◌≡◌, sym, ap, ap₂, subst, ◌∙◌, inl, inr, List, [], ◌∷◌, ◌++◌, map}
use wificx_skeleton.Platform.{Message}
use wificx_skeleton.Platform.System.{System}
use wificx_skeleton.TaskQueue.Counters.{IsValid}
use wificx_skeleton.TaskQueue.Fifo.{contents}
use wificx_skeleton.Device.{Driver, ChipOps, WorkItem}
use wificx_skeleton.Device.Effects.{IsBackend, IsLocal}
use wificx_skeleton.Handlers.Session.{Request}
use wificx_skeleton.WorkItems.Conservation.{IsLossless, work_item-conserves}
use wificx_skeleton.WorkItems.Kinds.{
  size_of, zero_of, reply_of, queue_of, waiting, due_of, completed_of, work_item,
}
use wificx_skeleton.Sessions.{Turn, issue, run, turn, session}
use wificx_skeleton.Sessions.Noted.{kind_cases}
use wificx_skeleton.Sessions.Admission.{admitted, dispatch-admitted}
use wificx_skeleton.Sessions.Runs.{ledger, work_item-ledger}

module _ (sys : System) (ops : ChipOps) (k : WorkItem) where
  -- The completions that the tasks call for which a turn admits.
  abbrev pub admits : Turn → Driver → List Message
  admits (issue r) d = map (reply_of k) (admitted sys k r d)
  admits (run work fuel) d = []

  -- Those that a session admits.
  abbrev pub all_admitted : List Turn → Driver → List Message
  all_admitted [] d = []
  all_admitted (t ∷ ts) d = admits t d ++ all_admitted ts (turn sys ops t d)

  unfoldable pub Accounts : Turn → Driver → Type 0
  Accounts t d =
      (due_of k (turn sys ops t d) ≡ due_of k d ++ admits t d)
      × IsValid (size_of k) (queue_of k (turn sys ops t d))

  pub command-Accounts :
      (r : Request) (d : Driver)
      → IsLocal ops
      → IsValid (size_of k) (queue_of k d)
      → Accounts (issue r) d
  unfolding turn Accounts
  command-Accounts r d l v =
      let (added, works, done, valid, radio) = dispatch-admitted sys ops k r d l v in
      (
        ap₂ (λ xs ys. xs ++ map (reply_of k) ys) done added
            ∙ ap (λ ys. completed_of k d ++ ys)
                (map-append (reply_of k) (waiting k d) (admitted sys k r d))
            ∙ sym (
                append_assoc (completed_of k d) (map (reply_of k) (waiting k d))
                  (map (reply_of k) (admitted sys k r d))),
        valid,
      )

  -- A run of another workitem.
  pub bystander-Accounts :
      (j : WorkItem) (fuel : ℕ) (d : Driver)
      → ledger k (work_item sys ops j fuel d) ≡ ledger k d
      → IsValid (size_of k) (queue_of k d)
      → Accounts (run j fuel) d
  unfolding turn Accounts
  bystander-Accounts j fuel d kept v = (
    ap (λ x. x.1 ++ map (reply_of k) (contents (size_of k) (zero_of k) x.0)) kept
        ∙ sym (append-nil (due_of k d)),
    subst (IsValid (size_of k)) (sym (ap (λ x. x.0) kept)) v,
  )

  -- A run of the kind's own workitem.
  own-Accounts :
      (fuel : ℕ) (d : Driver)
      → IsLossless sys k
      → IsBackend ops
      → IsValid (size_of k) (queue_of k d)
      → Accounts (run k fuel) d
  unfolding turn Accounts
  own-Accounts fuel d m b v =
      let (same, valid) = work_item-conserves sys ops k fuel d m b v in
      (same ∙ sym (append-nil (due_of k d)), valid)

  turn-Accounts :
      (t : Turn) (d : Driver)
      → IsLossless sys k
      → IsBackend ops
      → IsLocal ops
      → IsValid (size_of k) (queue_of k d)
      → Accounts t d
  turn-Accounts (issue r) d m b l v = command-Accounts r d l v
  turn-Accounts (run j fuel) d m b l v = elim (kind_cases j k) [
    | inr n ↦ bystander-Accounts j fuel d (work_item-ledger sys ops k j fuel d n b) v
    | inl e ↦ subst (λ i. Accounts (run i fuel) d) (sym e) (own-Accounts fuel d m b v)
  ]

  -- In every session of commands and of runs of the five workitems, from a valid queue on and with a
  -- backend that keeps its contracts, the tasks of a kind completed at the end followed by those that
  -- then wait are those of the start followed by exactly the admitted ones, in their order: no
  -- admitted task is lost, doubled or overtaken, and the queue stays valid. For scans and resets
  -- it holds whatever WdfMemoryCreate does, for the three other kinds where it always succeeds.
  pub accounted-session :
      (ts : List Turn) (d : Driver)
      → IsLossless sys k
      → IsBackend ops
      → IsLocal ops
      → IsValid (size_of k) (queue_of k d)
      → (due_of k (session sys ops ts d) ≡ due_of k d ++ all_admitted ts d)
        × IsValid (size_of k) (queue_of k (session sys ops ts d))
  unfolding session Accounts
  accounted-session [] d m b l v = (sym (append-nil (due_of k d)), v)
  accounted-session (t ∷ ts) d m b l v =
      let (first, valid) = turn-Accounts t d m b l v in
      let (rest, valid') = accounted-session ts (turn sys ops t d) m b l valid in
      (
        rest
            ∙ ap (λ xs. xs ++ all_admitted ts (turn sys ops t d)) first
            ∙ append_assoc (due_of k d) (admits t d) (all_admitted ts (turn sys ops t d)),
        valid',
      )
