-- ===== src/TaskQueue/Structure.antt =====
-- A type of queues with its two operations, and when two such types are equal.
use std.Equiv.{◌≃◌, id_equiv}
use std.Univalence.{equiv_j}
use wificx_skeleton.Prelude.{◌≡◌, refl, sym, ap, ap₂, ◌∙◌, Bool, Option, none, some}

-- Offering an item says whether it is accepted; taking one is possible unless the queue is empty.
abbrev pub QueueStr : Type 0 → Type 0 → Type 0
QueueStr A X = (A → X → Bool × X) × (X → Option (A × X))

-- A type of queues over `A`.
abbrev pub Queue : Type 0 → Type 1
Queue A = (X : Type 0) × QueueStr A X

abbrev pub map_taken : {A X Y : Type 0} → (X → Y) → Option (A × X) → Option (A × Y)
map_taken f none = none
map_taken f (some (a, x)) = some (a, f x)

map_taken_id : {A X : Type 0} (o : Option (A × X)) → map_taken (λ x. x) o ≡ o
map_taken_id none = refl
map_taken_id (some (a, x)) = refl

-- Queues that correspond one to one, with the same answers, are the same queues.
abbrev pub Homomorphic : {A X Y : Type 0} → (X → Y) → QueueStr A X → QueueStr A Y → Type 0
Homomorphic {A = A} {X = X} f s t =
    ((a : A) (x : X) → t.0 a (f x) ≡ ((s.0 a x).0, f (s.0 a x).1))
    × ((x : X) → t.1 (f x) ≡ map_taken f (s.1 x))

pub Queue_path :
    {A X Y : Type 0} (e : X ≃ Y) (s : QueueStr A X) (t : QueueStr A Y)
    → Homomorphic e.0 s t
    → ◌≡◌ {A = Queue A} (X, s) (Y, t)
unfolding id_equiv
Queue_path {A = A} {Y = Y} e s t =
    equiv_j (λ Z g. (u : QueueStr A Z) → Homomorphic g.0 u t → ◌≡◌ {A = Queue A} (Z, u) (Y, t))
      (λ u h. ap (λ v. (Y, v)) (same u h)) e s
  where
    same : (u : QueueStr A Y) → Homomorphic (λ y. y) u t → u ≡ t
    same u h =
        ap₂ (λ p q. (p, q)) (λ i a y. sym (h.0 a y) i)
          (λ i y. (sym (map_taken_id (u.1 y)) ∙ sym (h.1 y)) i)
