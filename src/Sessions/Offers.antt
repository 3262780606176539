-- ===== src/Sessions/Offers.antt =====
-- wdihandlers.cpp: what an offered task does to the queues of all kinds.
use mathlib.Core.List.{append-nil}
use wificx_skeleton.Prelude.{
  ℕ, ◌+◌, ◌≡◌, refl, sym, ap, subst, ◌∙◌, inl, inr, Bool, true, false, List, [], ◌∷◌, ◌++◌, length,
  none, some, ltb, if◌then◌else◌, arith,
}
use wificx_skeleton.TaskQueue.{enqueue}
use wificx_skeleton.TaskQueue.Counters.{IsValid}
use wificx_skeleton.TaskQueue.Fifo.{contents, contents-enqueue}
use wificx_skeleton.Device.{
  WorkItem, scan_work, reset_work, radio_work, connect_work, disconnect_work,
}
use wificx_skeleton.Device.Effects.{completions}
use wificx_skeleton.WorkItems.Kinds.{
  TaskOf, size_of, size_of-IsSize, zero_of, completion_of, Queues, pick, runs,
}
use wificx_skeleton.Sessions.Views.{View, Offer, effect}
use wificx_skeleton.Sessions.Noted.{
  task_for, kind_cases, pick-put_self, pick-put_other, task_for_self, task_for_other, runs_other,
  runs_self, completions_offer,
}

-- The tasks of an offer that the queue of the kind takes in: it has room for one.
abbrev pub taken_in : (k : WorkItem) → Offer → Queues → List (TaskOf k)
taken_in k o x =
    if ltb (length (contents (size_of k) (zero_of k) (pick k x))) (size_of k)
    then task_for k o
    else []

-- What an offer does to the queue of a kind, to its workitem and to its completions.
abbrev pub Takes : WorkItem → Offer → View → View → Type 0
Takes k o v v' =
    (contents (size_of k) (zero_of k) (pick k v'.0)
      ≡ contents (size_of k) (zero_of k) (pick k v.0) ++ taken_in k o v.0)
    × (runs k v'.1 ≡ length (taken_in k o v.0) + runs k v.1)
    × (completions (completion_of k) v'.1 ≡ completions (completion_of k) v.1)
    × IsValid (size_of k) (pick k v'.0)

if_same : {A : Type 0} (b : Bool) (x : A) → (if b then x else x) ≡ x
if_same true x = refl
if_same false x = refl

no_offer-Takes :
    (k : WorkItem) (o : Offer) (v v' : View)
    → task_for k o ≡ []
    → pick k v'.0 ≡ pick k v.0
    → runs k v'.1 ≡ runs k v.1
    → completions (completion_of k) v'.1 ≡ completions (completion_of k) v.1
    → IsValid (size_of k) (pick k v.0)
    → Takes k o v v'
no_offer-Takes k o v v' none_for same works done valid =
    let here = contents (size_of k) (zero_of k) (pick k v.0) in
    let b : Bool = ltb (length here) (size_of k) in
    let nothing : taken_in k o v.0 ≡ [] = ap (λ xs. if b then xs else []) none_for ∙ if_same b [] in
    (
      ap (contents (size_of k) (zero_of k)) same
          ∙ sym (append-nil here)
          ∙ ap (λ xs. here ++ xs) (sym nothing),
      works ∙ rw nothing (omega arith),
      done,
      subst (IsValid (size_of k)) (sym same) valid,
    )

nothing_for : (k : WorkItem) → task_for k none ≡ []
nothing_for scan_work = refl
nothing_for reset_work = refl
nothing_for radio_work = refl
nothing_for connect_work = refl
nothing_for disconnect_work = refl

if_added :
    {A : Type 0} (b : Bool) (xs : List A) (t : A)
    → (if b then xs ++ t ∷ [] else xs) ≡ xs ++ (if b then t ∷ [] else [])
if_added true xs t = refl
if_added false xs t = sym (append-nil xs)

if_counted :
    {A : Type 0} (b : Bool) (t : A)
    → ◌≡◌ {A = ℕ} (if b then 1 else 0) (length (if b then t ∷ [] else []))
if_counted true t = refl
if_counted false t = refl

own_offer-Takes :
    (k : WorkItem) (t : TaskOf k) (v : View)
    → IsValid (size_of k) (pick k v.0)
    → Takes k (some (k, t)) v (effect (some (k, t)) v)
own_offer-Takes k t v valid =
    let (fits, same, valid') =
      contents-enqueue (size_of k) (zero_of k) (pick k v.0) t (size_of-IsSize k) valid in
    let here = contents (size_of k) (zero_of k) (pick k v.0) in
    let (accepted, q) = enqueue (size_of k) (pick k v.0) t in
    let b : Bool = ltb (length here) (size_of k) in
    let kept = pick-put_self k q v.0 in
    let here_taken : (if b then t ∷ [] else []) ≡ taken_in k (some (k, t)) v.0 =
      ap (λ xs. if b then xs else []) (sym (task_for_self k t)) in
    (
      ap (contents (size_of k) (zero_of k)) kept
          ∙ same
          ∙ ap (λ c. if c then here ++ t ∷ [] else here) fits
          ∙ if_added b here t
          ∙ ap (λ xs. here ++ xs) here_taken,
      runs_self k accepted v.1
          ∙ ap (λ c. (if c then 1 else 0) + runs k v.1) fits
          ∙ ap (λ n. n + runs k v.1) (if_counted b t ∙ ap length here_taken),
      completions_offer (completion_of k) k accepted v.1,
      subst (IsValid (size_of k)) (sym kept) valid',
    )

pub effect-Takes :
    (k : WorkItem) (o : Offer) (v : View)
    → IsValid (size_of k) (pick k v.0)
    → Takes k o v (effect o v)
effect-Takes k none v valid = no_offer-Takes k none v v (nothing_for k) refl refl refl valid
effect-Takes k (some (j, t)) v valid = elim (kind_cases j k) [
  | inl e ↦
      subst (λ i. (task : TaskOf i) → Takes k (some (i, task)) v (effect (some (i, task)) v))
        (sym e) (λ task. own_offer-Takes k task v valid) t
  | inr n ↦
      let (accepted, q) = enqueue (size_of j) (pick j v.0) t in
      no_offer-Takes k (some (j, t)) v (effect (some (j, t)) v) (task_for_other j k t n)
        (pick-put_other j k q v.0 n) (runs_other j k accepted v.1 n)
        (completions_offer (completion_of k) j accepted v.1) valid
]

pub effect-radio : (o : Offer) (v : View) → (effect o v).3 ≡ v.3
effect-radio none v = refl
effect-radio (some (k, task)) v = refl
