-- ===== src/Hardware/Chip.antt =====
-- EvtDeviceReleaseHardware and the chip backend: which bring-ups a `Deinit` follows.
use mathlib.Core.Option.{none-ne-some}
use wificx_skeleton.Prelude.{
  ℕ, ◌+◌, ◌≡◌, refl, ap, ◌∙◌, inl, inr, Bool, true, false, Bool-cases, if◌then◌else◌, List, [], ◌∷◌,
  Option, none, some,
}
use wificx_skeleton.Platform.{Status, success, nt_success}
use wificx_skeleton.Platform.System.{System}
use wificx_skeleton.ScanCache.{ScanCache}
use wificx_skeleton.Device.{Driver, ChipOps}
use wificx_skeleton.Framework.{
  Call, Machine, Framework, chain, check, require, set_device_capabilities, chip_init, chip_deinit,
}
use wificx_skeleton.Framework.Chains.{
  chain-Matches, chain-append, chain_refused, function-check, passes, after,
}
use wificx_skeleton.Hardware.{
  call_init, initialize_hardware, prepare_hardware, call_deinit_op, call_deinit, release_cache,
  release_hardware,
}
use wificx_skeleton.Hardware.Announced.{device_capabilities}
use wificx_skeleton.Hardware.Bringup.{
  bring_up_calls, before_init, answers_all, setup, setup_plan, setup-Follows, setup-passes,
}

-- How often the chip's `Init` and `Deinit` were called.
abbrev pub inits : List Call → ℕ
inits [] = 0
inits (chip_init ∷ calls) = inits calls + 1
inits (_ ∷ calls) = inits calls

abbrev pub deinits : List Call → ℕ
deinits [] = 0
deinits (chip_deinit ∷ calls) = deinits calls + 1
deinits (_ ∷ calls) = deinits calls

release_cache-inits :
    (cache : Option ScanCache) (c : Machine)
    → (inits (release_cache cache c).calls ≡ inits c.calls)
      × (deinits (release_cache cache c).calls ≡ deinits c.calls)
unfolding release_cache
release_cache-inits none c = (refl, refl)
release_cache-inits (some cache) c = (refl, refl)

call_deinit-inits :
    (op : Option (Driver → Driver)) (deinit : Driver → Driver) (c : Machine)
    → op ≡ some deinit
    → (inits (call_deinit_op op c).calls ≡ inits c.calls)
      × (deinits (call_deinit_op op c).calls ≡ deinits c.calls + 1)
call_deinit-inits none deinit c e = absurd (none-ne-some deinit e)
call_deinit-inits (some f) deinit c e = (refl, refl)

-- A release calls `Deinit` once if the ops are installed.
release_hardware-inits :
    (ops : ChipOps) (deinit : Driver → Driver) (c : Machine)
    → ops.deinit ≡ some deinit
    → c.driver.chip_installed ≡ true
    → (inits (release_hardware ops c).1.calls ≡ inits c.calls)
      × (deinits (release_hardware ops c).1.calls ≡ deinits c.calls + 1)
unfolding release_hardware call_deinit
release_hardware-inits ops deinit c e installed =
    let down = call_deinit ops c in
    let same : down ≡ call_deinit_op ops.deinit c =
      ap (λ b. if b then call_deinit_op ops.deinit c else c) installed in
    let (i, j) = release_cache-inits down.driver.scan_cache down in
    let (k, l) = call_deinit-inits ops.deinit deinit c e in
    (i ∙ ap (λ m. inits m.calls) same ∙ k, j ∙ ap (λ m. deinits m.calls) same ∙ l)

one_part :
    (f : Machine → Status × Machine) (s : Status) (c : Machine)
    → (chain (check f ∷ []) s c).2 ≡ (f c).1
unfolding chain
one_part f s c = elim (Bool-cases (nt_success (f c).0)) [
  | inl ok ↦ rw ok refl
  | inr fails ↦ rw fails refl
]

-- A bring-up that gets as far as `Init` leaves what `Init` leaves, whether it succeeds or fails.
prepare_hardware-reaches_init :
    (fw : Framework) (sys : System) (ops : ChipOps) (c : Machine)
    → answers_all fw bring_up_calls c.calls ≡ true
    → sys.allocates c.driver.pool_calls ≡ true
    → (prepare_hardware fw sys ops c).1 ≡ (call_init ops (before_init sys c)).1
unfolding prepare_hardware initialize_hardware after
prepare_hardware-reaches_init fw sys ops c answered allocated =
    let (goes, _, same) =
      chain-Matches (setup fw sys) (setup_plan fw sys) (setup-Follows fw sys) success c in
    let ok : passes (setup_plan fw sys) c ≡ true = setup-passes fw sys c ∙ rw answered allocated in
    let reached = chain (setup fw sys) success c in
    let on : reached.0 ≡ true = goes ∙ ok in
    ap (λ r. r.1) (function-check (initialize_hardware fw sys ops) c)
    ∙ ap (λ r. r.2) (chain-append (setup fw sys) (check (call_init ops) ∷ []) success c)
    ∙ ap
        (λ (b : Bool).
          (if b
            then chain (check (call_init ops) ∷ []) reached.1 reached.2
            else (false, reached.1, reached.2)).2)
        on
    ∙ one_part (call_init ops) reached.1 reached.2
    ∙ ap (λ m. (call_init ops m).1) (same ok)

-- A bring-up of a device that gets as far as the chip's Init, and the release after it, call Init once and
-- Deinit once, also where Init fails. It holds where the framework answers the calls before with success,
-- the memory of the scan cache is there, and Init leaves the ops installed.
pub release_hardware-prepare_hardware :
    (fw : Framework) (sys : System) (ops : ChipOps) (deinit : Driver → Driver) (c : Machine)
    → ops.deinit ≡ some deinit
    → (ops.init (before_init sys c).driver).1.chip_installed ≡ true
    → answers_all fw bring_up_calls c.calls ≡ true
    → sys.allocates c.driver.pool_calls ≡ true
    → (inits (release_hardware ops (prepare_hardware fw sys ops c).1).1.calls ≡ inits c.calls + 1)
      × (deinits (release_hardware ops (prepare_hardware fw sys ops c).1).1.calls
          ≡ deinits c.calls + 1)
release_hardware-prepare_hardware fw sys ops deinit c e installed answered allocated =
    rw (prepare_hardware-reaches_init fw sys ops c answered allocated)
      (release_hardware-inits ops deinit (call_init ops (before_init sys c)).1 e installed)

-- On a device whose ops are installed from an earlier bring-up: where the framework refuses the first call
-- of the next bring-up, that bring-up and its release call Deinit once and Init not at all.
pub deinit_without_init :
    (fw : Framework) (sys : System) (ops : ChipOps) (deinit : Driver → Driver) (c : Machine)
    → ops.deinit ≡ some deinit
    → c.driver.chip_installed ≡ true
    → nt_success (fw.answer c.calls (set_device_capabilities device_capabilities)) ≡ false
    → (inits (release_hardware ops (prepare_hardware fw sys ops c).1).1.calls ≡ inits c.calls)
      × (deinits (release_hardware ops (prepare_hardware fw sys ops c).1).1.calls
          ≡ deinits c.calls + 1)
unfolding prepare_hardware initialize_hardware
deinit_without_init fw sys ops deinit c e installed refused =
    let c' = record c { calls = set_device_capabilities device_capabilities ∷ c.calls } in
    let left : (prepare_hardware fw sys ops c).1 ≡ c' =
      ap (λ r. r.1) (function-check (initialize_hardware fw sys ops) c)
      ∙ chain_refused (require fw (set_device_capabilities device_capabilities)) _ success c
          refused in
    rw left (release_hardware-inits ops deinit c' e installed)
