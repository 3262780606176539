-- ===== src/WorkItems/Ordering.antt =====
-- What a workitem of device.cpp completes where some completions fail: tasks are lost at most, never
-- doubled and never reordered.
use mathlib.Core.List.{Sublist, append_assoc, append-nil, sublist-cons_self}
use mathlib.Core.List.Sublist
use wificx_skeleton.Prelude.{
  ℕ, zero, suc, ◌≡◌, refl, sym, ap, ap₂, subst, ◌∙◌, inl, inr, Bool, true, false, List, [], ◌∷◌,
  ◌++◌, map, Bool-cases, if◌then◌else◌,
}
use wificx_skeleton.Platform.{Message}
use wificx_skeleton.Platform.System.{System}
use wificx_skeleton.TaskQueue.{pending, front, advance}
use wificx_skeleton.TaskQueue.Counters.{IsValid}
use wificx_skeleton.TaskQueue.Fifo.{contents, contents-advance}
use wificx_skeleton.Device.{Driver, ChipOps, WorkItem}
use wificx_skeleton.Device.Effects.{IsBackend}
use wificx_skeleton.WorkItems.{work_loop}
use wificx_skeleton.WorkItems.Loops.{Serves, work_loop-done, work_loop-stop, work_loop-again}
use wificx_skeleton.WorkItems.Kinds.{
  size_of, size_of-IsSize, zero_of, reply_of, completion_of, queue_of, completed_of, due_of,
  retries, work_item, work_item_lem, round_of, round-Serves, sends,
}

module _ (sys : System) (ops : ChipOps) (k : WorkItem) where
  abbrev Result : Bool → Bool → Driver → Type 0
  Result again sent d =
      Serves (size_of k) (zero_of k) (queue_of k) (completion_of k) (reply_of k) again sent d
        (round_of sys ops k d)

  -- A round leaves of what was due a sublist.
  abbrev Shortens : Driver → Type 0
  Shortens d =
      Sublist (due_of k (round_of sys ops k d).1) (due_of k d)
      × IsValid (size_of k) (queue_of k (round_of sys ops k d).1)

  kept_or_lost :
      (sent : Bool) (x : Message) (xs : List Message)
      → Sublist ((if sent then x ∷ [] else []) ++ xs) (x ∷ xs)
  kept_or_lost true x xs = Sublist.refl (x ∷ xs)
  kept_or_lost false x xs = sublist-cons_self x xs

  serve-Shortens :
      (again sent : Bool) (d : Driver)
      → (sent ≡ true → again ≡ true)
      → IsValid (size_of k) (queue_of k d)
      → pending (queue_of k d) ≡ true
      → Result again sent d
      → Shortens d
  serve-Shortens false true d h v p s = cc (h refl)
  serve-Shortens false false d h v p s =
      let same : due_of k (round_of sys ops k d).1 ≡ due_of k d =
        ap₂ (λ xs q. xs ++ map (reply_of k) (contents (size_of k) (zero_of k) q))
          (s.completed ∙ append-nil (completed_of k d)) s.taken in
      (
        subst (λ xs. Sublist xs (due_of k d)) (sym same) (Sublist.refl (due_of k d)),
        subst (IsValid (size_of k)) (sym s.taken) v,
      )
  serve-Shortens true sent d h v p s =
      let (same, valid) =
        contents-advance (size_of k) (zero_of k) (queue_of k d) (size_of-IsSize k) v p in
      let x = reply_of k (front (size_of k) (zero_of k) (queue_of k d)) in
      let rest = map (reply_of k) (contents (size_of k) (zero_of k) (advance (queue_of k d))) in
      let after : due_of k (round_of sys ops k d).1
          ≡ completed_of k d ++ ((if sent then x ∷ [] else []) ++ rest) =
        ap₂ (λ xs q. xs ++ map (reply_of k) (contents (size_of k) (zero_of k) q)) s.completed
          s.taken
        ∙ append_assoc (completed_of k d) (if sent then x ∷ [] else []) rest in
      let before : due_of k d ≡ completed_of k d ++ (x ∷ rest) =
        ap (λ ts. completed_of k d ++ map (reply_of k) ts) same in
      (
        subst (λ xs. Sublist xs (due_of k d)) (sym after)
            (subst (λ xs. Sublist (completed_of k d ++ ((if sent then x ∷ [] else []) ++ rest)) xs)
              (sym before)
              (Sublist.append (Sublist.refl (completed_of k d)) (kept_or_lost sent x rest))),
        subst (IsValid (size_of k)) (sym s.taken) valid,
      )

  round-Shortens :
      (d : Driver)
      → IsBackend ops
      → IsValid (size_of k) (queue_of k d)
      → pending (queue_of k d) ≡ true
      → Shortens d
  round-Shortens d b v p =
      serve-Shortens (if retries k then sends sys ops k d else true) (sends sys ops k d) d
        (goes_on (retries k) (sends sys ops k d)) v p (round-Serves sys ops k d b).0
    where
      goes_on : (c s : Bool) → s ≡ true → (if c then s else true) ≡ true
      goes_on true s e = e
      goes_on false s e = refl

  loop-Shortens :
      (fuel : ℕ) (d : Driver)
      → IsBackend ops
      → IsValid (size_of k) (queue_of k d)
      → let d' = work_loop (λ e. pending (queue_of k e)) (round_of sys ops k) fuel d in
        Sublist (due_of k d') (due_of k d) × IsValid (size_of k) (queue_of k d')
  unfolding work_loop
  loop-Shortens zero d b v = (Sublist.refl (due_of k d), v)
  loop-Shortens (suc fuel) d b v = elim (Bool-cases (pending (queue_of k d))) [
    | inr p ↦
        rw (work_loop-done (λ e. pending (queue_of k e)) (round_of sys ops k) fuel d p)
          (Sublist.refl (due_of k d), v)
    | inl p ↦
        let (less, valid) = round-Shortens d b v p in
        elim (Bool-cases (round_of sys ops k d).0) [
          | inr n ↦
              rw (work_loop-stop (λ e. pending (queue_of k e)) (round_of sys ops k) fuel d p n)
                (less, valid)
          | inl n ↦
              let (rest, valid') = loop-Shortens fuel (round_of sys ops k d).1 b valid in
              rw (work_loop-again (λ e. pending (queue_of k e)) (round_of sys ops k) fuel d p n)
                (Sublist.trans rest less, valid')
        ]
  ]

  -- Whatever WdfMemoryCreate does and however many rounds run, a workitem on a valid queue leaves, of the
  -- completions so far followed by the tasks that wait, a part in the same order, and a valid queue.
  pub work_item-sublist :
      (fuel : ℕ) (d : Driver)
      → IsBackend ops
      → IsValid (size_of k) (queue_of k d)
      → let d' = work_item sys ops k fuel d in
        Sublist (due_of k d') (due_of k d) × IsValid (size_of k) (queue_of k d')
  work_item-sublist fuel d b v = rw (work_item_lem sys ops k fuel d) (loop-Shortens fuel d b v)
