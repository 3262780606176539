-- ===== src/Framework/Chains.antt =====
-- Chains of GOTO_IF_NOT_NT_SUCCESS against a plan: the test that each part makes and its effect. What
-- holds of each part holds of the chain.
use mathlib.Core.Option.{some-injective, none-ne-some}
use wificx_skeleton.Prelude.{
  ◌≡◌, refl, sym, ◌∙◌, ◌⊎◌, inl, inr, Bool, true, false, ◌&&◌, Bool-cases, if◌then◌else◌, List, [],
  ◌∷◌, ◌++◌, Option, none, some, ap, arith,
}
use wificx_skeleton.Platform.{Status, success, nt_success}
use wificx_skeleton.Framework.{Call, Framework, Machine, Action, chain, check, act, function}

-- Of each part of a list.
infixr 10 ◌and◌
pub data Each (P : Action → Type 0) : List Action → Type 0 where
  none_left : Each P []
  ◌and◌ : {m : Action} {ms : List Action} → P m → Each P ms → Each P (m ∷ ms)

-- A part that keeps a property of the device, however it ends.
abbrev pub Preserves : (Machine → Type 0) → Action → Type 0
Preserves P m = (s : Status) (c : Machine) → P c → P (m s c).2

pub chain-Preserves :
    (P : Machine → Type 0) (ms : List Action) → Each (Preserves P) ms → Preserves P (chain ms)
unfolding chain
chain-Preserves P [] none_left s c h = h
chain-Preserves P (m ∷ ms) (e and es) s c h = elim (Bool-cases (m s c).0) [
  | inl goes ↦ rw goes (chain-Preserves P ms es (m s c).1 (m s c).2 (e s c h))
  | inr left ↦ rw left (e s c h)
]

pub either :
    (P : Machine → Type 0) (test : Bool) (c d : Machine) → P c → P d → P (if test then c else d)
either P true c d p q = p
either P false c d p q = q

-- A step of a plan: the test whether to go on, and what the device is if so.
abbrev pub Step : Type 0
Step = (Machine → Bool) × (Machine → Machine)

-- A call that must succeed, and one without a status.
abbrev pub require_step : Framework → Call → Step
require_step fw call =
    ((λ c. nt_success (fw.answer c.calls call)), (λ c. record c { calls = call ∷ c.calls }))

abbrev pub note_step : Call → Step
note_step call = ((λ c. true), (λ c. record c { calls = call ∷ c.calls }))

-- Whether all tests of a plan pass, each on the device that the steps before it leave.
unfoldable pub passes : List Step → Machine → Bool
passes [] c = true
passes ((test, effect) ∷ plan) c = test c && passes plan (effect c)

-- The device after all steps of a plan.
unfoldable pub after : List Step → Machine → Machine
after [] c = c
after ((test, effect) ∷ plan) c = after plan (effect c)

-- A part goes on exactly where the test passes, and then has the effect. It leaves with a status of
-- failure only, and goes on with a status of success.
abbrev pub Matches : Action → Step → Type 0
Matches m (test, effect) =
    (s : Status) (c : Machine)
    → ((m s c).0 ≡ test c)
      × (nt_success s ≡ true → nt_success (m s c).1 ≡ test c)
      × (test c ≡ true → (m s c).2 ≡ effect c)

infixr 10 ◌before◌
pub data Follows : List Action → List Step → Type 0 where
  ends : Follows [] []
  ◌before◌ :
      {m : Action} {p : Step} {ms : List Action} {plan : List Step}
      → Matches m p
      → Follows ms plan
      → Follows (m ∷ ms) (p ∷ plan)

pub check-Matches :
    (f : Machine → Status × Machine) → Matches (check f) ((λ c. nt_success (f c).0), (λ c. (f c).1))
check-Matches f s c = (refl, (λ _. refl), (λ _. refl))

pub act-Matches : (f : Machine → Machine) → Matches (act f) ((λ c. true), f)
act-Matches f s c = (refl, (λ h. h), (λ _. refl))

-- A chain that follows a plan goes on exactly where all tests pass, and then leaves what they leave.
pub chain-Matches :
    (ms : List Action) (plan : List Step)
    → Follows ms plan
    → Matches (chain ms) (passes plan, after plan)
unfolding chain passes after
chain-Matches [] [] ends s c = (refl, (λ h. h), (λ _. refl))
chain-Matches [] (p ∷ plan) fs s c = elim fs [ ]
chain-Matches (m ∷ ms) [] fs s c = elim fs [ ]
chain-Matches (m ∷ ms) ((test, effect) ∷ plan) (f before fs) s c = elim (Bool-cases (test c)) [
  | inl ok ↦
      let (goes, truthful, same) = f s c in
      let later = chain-Matches ms plan fs (m s c).1 (m s c).2 in
      rw (goes ∙ ok) (rw ok (rw⁻¹ (same ok) (later.0, (λ h. later.1 (truthful h ∙ ok)), later.2)))
  | inr fails ↦
      let (goes, truthful, same) = f s c in
      rw (goes ∙ fails) (rw fails (refl, (λ h. truthful h ∙ fails), (λ e. ground arith)))
]

pub Follows-append :
    {ns : List Action} {q : List Step} (ms : List Action) (p : List Step)
    → Follows ms p
    → Follows ns q
    → Follows (ms ++ ns) (p ++ q)
Follows-append [] [] ends f = f
Follows-append [] (p ∷ ps) fs f = elim fs [ ]
Follows-append (m ∷ ms) [] fs f = elim fs [ ]
Follows-append (m ∷ ms) (p ∷ ps) (f before fs) g = f before Follows-append ms ps fs g

-- A function of such a chain as a part of another one.
pub function-Matches :
    (ms : List Action) (plan : List Step)
    → Follows ms plan
    → Matches (check (function ms)) (passes plan, after plan)
function-Matches ms plan fs s c =
    let (_, truthful, same) = chain-Matches ms plan fs success c in
    (truthful refl, (λ _. truthful refl), same)

-- The device that a function leaves, if it succeeded.
abbrev pub succeeded : Status × Machine → Option Machine
succeeded (s, c) = if nt_success s then some c else none

pub if-some :
    (b : Bool) (x m : Machine) → (if b then some x else none) ≡ some m → (b ≡ true) × (m ≡ x)
if-some true x m e = (refl, sym (some-injective x m e))
if-some false x m e = absurd (none-ne-some m e)

-- A function of such a chain succeeds exactly where all tests pass.
pub function_lem :
    (ms : List Action) (plan : List Step)
    → Follows ms plan
    → (c : Machine)
    → succeeded (function ms c) ≡ (if passes plan c then some (after plan c) else none)
function_lem ms plan fs c =
    let (_, truthful, same) = chain-Matches ms plan fs success c in
    elim (Bool-cases (passes plan c)) [
      | inl ok ↦ rw (truthful refl ∙ ok) (rw ok (ap some (same ok)))
      | inr fails ↦ rw (truthful refl ∙ fails) (rw fails refl)
    ]

-- A function that only passes on what another one returns.
pub function-check :
    (f : Machine → Status × Machine) (c : Machine) → function (check f ∷ []) c ≡ f c
unfolding chain
function-check f c = elim (Bool-cases (nt_success (f c).0)) [
  | inl ok ↦ rw ok refl
  | inr fails ↦ rw fails refl
]

-- A chain in two halves.
pub chain-append :
    (ms ns : List Action) (s : Status) (c : Machine)
    → chain (ms ++ ns) s c
      ≡ (let (goes, s', c') = chain ms s c in if goes then chain ns s' c' else (false, s', c'))
unfolding chain
chain-append [] ns s c = refl
chain-append (m ∷ ms) ns s c = elim (Bool-cases (m s c).0) [
  | inl goes ↦ rw goes (chain-append ms ns (m s c).1 (m s c).2)
  | inr left ↦ rw left refl
]

-- A part that makes `Q` of `P`, and parts that keep `Q`.
chain_turn :
    (P Q : Machine → Type 0) (m : Action) (ns : List Action)
    → ((s : Status) (c : Machine) → P c → Q (m s c).2)
    → Each (Preserves Q) ns
    → (s : Status) (c : Machine) → P c
    → Q (chain (m ∷ ns) s c).2
unfolding chain
chain_turn P Q m ns at_m after_m s c p = elim (Bool-cases (m s c).0) [
  | inl goes ↦ rw goes (chain-Preserves Q ns after_m (m s c).1 (m s c).2 (at_m s c p))
  | inr left ↦ rw left (at_m s c p)
]

-- A chain that keeps `P` up to a part that makes `Q` of it, and `Q` from there, ends with `P` or `Q`.
pub chain_passage :
    (P Q : Machine → Type 0) (ms : List Action) (m : Action) (ns : List Action)
    → Each (Preserves P) ms
    → ((s : Status) (c : Machine) → P c → Q (m s c).2)
    → Each (Preserves Q) ns
    → (s : Status) (c : Machine) → P c
    → P (chain (ms ++ m ∷ ns) s c).2 ⊎ Q (chain (ms ++ m ∷ ns) s c).2
chain_passage P Q ms m ns before_m at_m after_m s c h =
    let c' = chain ms s c in
    let p : P c'.2 = chain-Preserves P ms before_m s c h in
    rw (chain-append ms (m ∷ ns) s c) (elim (Bool-cases c'.0) [
      | inl goes ↦ rw goes (inr (chain_turn P Q m ns at_m after_m c'.1 c'.2 p))
      | inr left ↦ rw left (inl p)
    ])

-- A chain whose first part leaves.
pub chain_refused :
    (m : Action) (ms : List Action) (s : Status) (c : Machine)
    → (m s c).0 ≡ false
    → (chain (m ∷ ms) s c).2 ≡ (m s c).2
unfolding chain
chain_refused m ms s c refused = rw refused refl
