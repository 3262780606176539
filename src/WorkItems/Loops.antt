-- ===== src/WorkItems/Loops.antt =====
-- The loop that the five workitems of device.cpp share, over any of the queues.
use mathlib.Core.List.{append-nil, append_assoc}
use wificx_skeleton.Prelude.{
  ℕ, zero, suc, ◌≤◌, ◌≡◌, refl, sym, ap, ◌∙◌, subst, inl, inr, Bool, true, false, List, [], ◌∷◌,
  ◌++◌, map, length, Bool-cases, if◌then◌else◌, arith,
}
use wificx_skeleton.Platform.{Message, IndicationId}
use wificx_skeleton.TaskQueue.{TaskQueue, pending, front, advance}
use wificx_skeleton.TaskQueue.Counters.{IsSize, used, IsValid}
use wificx_skeleton.TaskQueue.Fifo.{contents, contents-advance, pending-contents, length-window}
use wificx_skeleton.Device.{Driver}
use wificx_skeleton.Device.Effects.{completions, IsDisciplined}
use wificx_skeleton.WorkItems.{work_loop}

module _ (test : Driver → Bool) (round : Driver → Bool × Driver) (fuel : ℕ) (d : Driver) where
  pub work_loop-done : test d ≡ false → work_loop test round (suc fuel) d ≡ d
  unfolding work_loop
  work_loop-done p = ground arith

  pub work_loop-stop :
      test d ≡ true → (round d).0 ≡ false → work_loop test round (suc fuel) d ≡ (round d).1
  unfolding work_loop
  work_loop-stop p b = ground arith

  pub work_loop-again :
      test d ≡ true
      → (round d).0 ≡ true
      → work_loop test round (suc fuel) d ≡ work_loop test round fuel (round d).1
  unfolding work_loop
  work_loop-again p b = ground arith

-- What every round leaves as it is, the loop leaves as it is.
pub loop_invariant :
    {A : Type 0} (f : Driver → A) (test : Driver → Bool) (round : Driver → Bool × Driver) (fuel : ℕ)
    (d : Driver)
    → ((e : Driver) → f (round e).1 ≡ f e)
    → f (work_loop test round fuel d) ≡ f d
unfolding work_loop
loop_invariant f test round zero d r = refl
loop_invariant f test round (suc fuel) d r = elim (Bool-cases (test d)) [
  | inr p ↦ ap f (work_loop-done test round fuel d p)
  | inl p ↦ elim (Bool-cases (round d).0) [
    | inr b ↦ ap f (work_loop-stop test round fuel d p b) ∙ r d
    | inl b ↦
        ap f (work_loop-again test round fuel d p b)
        ∙ loop_invariant f test round fuel (round d).1 r
        ∙ r d
  ]
]

-- What every round keeps of the event log, the loop keeps.
pub loop-IsDisciplined :
    (test : Driver → Bool) (round : Driver → Bool × Driver) (fuel : ℕ) (d : Driver)
    → ((e : Driver) → IsDisciplined e.log → IsDisciplined (round e).1.log)
    → IsDisciplined d.log
    → IsDisciplined (work_loop test round fuel d).log
unfolding work_loop
loop-IsDisciplined test round zero d r h = h
loop-IsDisciplined test round (suc fuel) d r h = elim (Bool-cases (test d)) [
  | inr p ↦ rw (work_loop-done test round fuel d p) h
  | inl p ↦ elim (Bool-cases (round d).0) [
    | inr b ↦ rw (work_loop-stop test round fuel d p b) (r d h)
    | inl b ↦
        rw (work_loop-again test round fuel d p b)
          (loop-IsDisciplined test round fuel (round d).1 r (r d h))
  ]
]

module _ {A : Type 0} (size : ℕ) (zero_slot : A) (queue : Driver → TaskQueue A) (id : IndicationId)
    (reply : A → Message) where
  -- A round that goes on if `again`, and then has taken the oldest task out; and that has completed
  -- the oldest task if `sent`.
  pub record Serves (again sent : Bool) (d : Driver) (result : Bool × Driver) : Type 0 where
    pub goes_on : result.0 ≡ again
    pub taken : queue result.1 ≡ (if again then advance (queue d) else queue d)
    pub completed :
        completions id result.1.log
        ≡ completions id d.log ++ (if sent then reply (front size zero_slot (queue d)) ∷ [] else [])

  -- The completions so far, then those that the tasks that wait call for.
  abbrev pub due : Driver → List Message
  due d = completions id d.log ++ map reply (contents size zero_slot (queue d))

  module _ (round : Driver → Bool × Driver) where
    abbrev waits : Driver → Bool
    waits d = pending (queue d)

    abbrev loop : ℕ → Driver → Driver
    loop = work_loop waits round

    serve-due :
        (b : Bool) (d : Driver)
        → IsSize size
        → IsValid size (queue d)
        → pending (queue d) ≡ true
        → Serves b b d (round d)
        → (due (round d).1 ≡ due d) × IsValid size (queue (round d).1)
    serve-due true d s v p r =
        let (same, valid) = contents-advance size zero_slot (queue d) s v p in
        (
          rw (r.taken, r.completed, same)
              (append_assoc (completions id d.log) (reply (front size zero_slot (queue d)) ∷ [])
                (map reply (contents size zero_slot (advance (queue d))))),
          subst (IsValid size) (sym r.taken) valid,
        )
    serve-due false d s v p r = (
      rw (r.taken, r.completed, append-nil (completions id d.log)) refl,
      subst (IsValid size) (sym r.taken) v,
    )

    pub loop_conserves :
        (fuel : ℕ) (d : Driver)
        → IsSize size
        → ((e : Driver) → (b : Bool) × Serves b b e (round e))
        → IsValid size (queue d)
        → (due (loop fuel d) ≡ due d) × IsValid size (queue (loop fuel d))
    unfolding work_loop
    loop_conserves zero d s r v = (refl, v)
    loop_conserves (suc fuel) d s r v = elim (Bool-cases (pending (queue d))) [
      | inr p ↦ rw (work_loop-done waits round fuel d p) (refl, v)
      | inl p ↦
          let (same, valid) = serve-due (r d).0 d s v p (r d).1 in
          elim (Bool-cases (round d).0) [
            | inr b ↦ rw (work_loop-stop waits round fuel d p b) (same, valid)
            | inl b ↦
                let (rest, valid') = loop_conserves fuel (round d).1 s r valid in
                rw (work_loop-again waits round fuel d p b) (rest ∙ same, valid')
          ]
    ]

    pub loop_drains :
        (fuel : ℕ) (d : Driver)
        → IsSize size
        → ((e : Driver) → (b : Bool) × Serves true b e (round e))
        → IsValid size (queue d)
        → used (queue d) ≤ fuel
        → (contents size zero_slot (queue (loop fuel d)) ≡ []) × IsValid size (queue (loop fuel d))
    unfolding work_loop
    loop_drains zero d s r v f =
        let none_left : used (queue d) ≡ 0 = omega arith in (rw none_left refl, v)
    loop_drains (suc fuel) d s r v f = elim (Bool-cases (pending (queue d))) [
      | inr p ↦
          rw (work_loop-done waits round fuel d p)
            ((pending-contents size zero_slot (queue d) v).0 p, v)
      | inl p ↦
          let (same, valid) = contents-advance size zero_slot (queue d) s v p in
          let taken = (r d).1.taken in
          let less : used (queue (round d).1) ≤ fuel = rw taken (
            omega (
              arith,
              ap length same,
              length-window size zero_slot (queue d).slots (queue d).head (used (queue d)),
              length-window size zero_slot (advance (queue d)).slots (advance (queue d)).head
                  (used (advance (queue d))),
            )) in
          rw (work_loop-again waits round fuel d p (r d).1.goes_on)
            (loop_drains fuel (round d).1 s r (subst (IsValid size) (sym taken) valid) less)
    ]

    -- With both, the queue ends empty and its tasks are completed in order.
    pub loop_completes :
        (fuel : ℕ) (d : Driver)
        → IsSize size
        → ((e : Driver) → Serves true true e (round e))
        → IsValid size (queue d)
        → used (queue d) ≤ fuel
        → (contents size zero_slot (queue (loop fuel d)) ≡ [])
          × (completions id (loop fuel d).log
              ≡ completions id d.log ++ map reply (contents size zero_slot (queue d)))
    loop_completes fuel d s r v f =
        let (left, valid) = loop_drains fuel d s (λ e. (true, r e)) v f in
        let (same, valid') = loop_conserves fuel d s (λ e. (true, r e)) v in
        (
          left,
          sym (append-nil (completions id (loop fuel d).log))
              ∙ ap (λ l. completions id (loop fuel d).log ++ map reply l) (sym left)
              ∙ same,
        )

    -- Rounds that complete nothing leave the completions as they are.
    pub loop_silent :
        (fuel : ℕ) (d : Driver)
        → ((e : Driver) → Serves true false e (round e))
        → completions id (loop fuel d).log ≡ completions id d.log
    unfolding work_loop
    loop_silent zero d r = refl
    loop_silent (suc fuel) d r = elim (Bool-cases (waits d)) [
      | inr p ↦ rw (work_loop-done waits round fuel d p) refl
      | inl p ↦
          rw (work_loop-again waits round fuel d p (r d).goes_on)
            (loop_silent fuel (round d).1 r ∙ (r d).completed ∙ append-nil (completions id d.log))
    ]
