-- ===== src/Hardware/Memory.antt =====
-- EvtDevicePrepareHardware and EvtDeviceReleaseHardware over the life of a device: the pool memory, of
-- the scan cache and of what else is taken in between.
use wificx_skeleton.Prelude.{
  ℕ, ◌+◌, ◌≡◌, refl, sym, ap, subst, ◌∙◌, inl, inr, Bool-cases, List, [], ◌∷◌, ◌++◌, Option, none,
  some, arith,
}
use wificx_skeleton.Platform.{success}
use wificx_skeleton.Platform.System.{System}
use wificx_skeleton.ScanCache.{ScanCache, create}
use wificx_skeleton.Device.{Driver, ChipOps, memory_of}
use wificx_skeleton.Framework.{Machine, Framework, Action, check, chain, act}
use wificx_skeleton.Framework.Chains.{
  Preserves, Each, none_left, ◌and◌, chain_passage, either, function-check,
}
use wificx_skeleton.Hardware.{
  switch_on, create_cache, install_ops, call_init, announcements, work_item_creations,
  initialization, initialize_hardware, prepare_hardware, call_deinit_op, call_deinit, release_cache,
  release_hardware,
}

-- The blocks that a device holds for its scan cache.
abbrev pub cache_blocks : Option ScanCache → ℕ
cache_blocks none = 0
cache_blocks (some cache) = 1

-- The same with all blocks in use.
abbrev pub held : Option ScanCache × ℕ → ℕ × ℕ
held (cache, blocks) = (cache_blocks cache, blocks)

-- What holds between a bring-up and its release, and after one: of `base` blocks in use elsewhere.
abbrev pub IsBalanced : ℕ → Machine → Type 0
IsBalanced base c = c.driver.pool_blocks ≡ base + cache_blocks c.driver.scan_cache

abbrev pub IsReleased : ℕ → Machine → Type 0
IsReleased base c = (c.driver.scan_cache ≡ none) × (c.driver.pool_blocks ≡ base)

-- A part of the driver that neither makes nor drops the scan cache, whatever it does to its entries, and
-- leaves as many blocks in use as it finds.
abbrev pub KeepsCache : (Driver → Driver) → Type 0
KeepsCache f = (d : Driver) → held (memory_of (f d)) ≡ held (memory_of d)

create-IsBalanced :
    (sys : System) (base : ℕ) (c : Machine)
    → IsReleased base c
    → IsBalanced base (create_cache sys c).1
unfolding create_cache create
create-IsBalanced sys base c h = elim (Bool-cases (sys.allocates c.driver.pool_calls)) [
  | inl ok ↦ rw ok (rw h.1 refl)
  | inr fails ↦ rw fails (rw h.1 (ground arith))
]

released-IsBalanced : (base : ℕ) (c : Machine) → IsReleased base c → IsBalanced base c
released-IsBalanced base c h = rw h.0 (rw h.1 (ground arith))

release_cache-IsReleased :
    (base : ℕ) (cache : Option ScanCache) (c : Machine)
    → c.driver.scan_cache ≡ cache
    → IsBalanced base c
    → IsReleased base (release_cache cache c)
unfolding release_cache
release_cache-IsReleased base none c e h = (
  e,
  (let h' : c.driver.pool_blocks ≡ base + 0 = h ∙ ap (λ o. base + cache_blocks o) e in omega arith),
)
release_cache-IsReleased base (some cache) c e h = (
  refl,
  (let h' : c.driver.pool_blocks ≡ base + 1 = h ∙ ap (λ o. base + cache_blocks o) e in omega arith),
)

kept-IsBalanced :
    (f : Driver → Driver) (base : ℕ) (c : Machine)
    → KeepsCache f
    → IsBalanced base c
    → (f c.driver).pool_blocks ≡ base + cache_blocks (f c.driver).scan_cache
kept-IsBalanced f base c keeps h =
    ap (λ o. o.1) (keeps c.driver) ∙ h ∙ ap (λ o. base + o.0) (sym (keeps c.driver))

-- A chip backend whose `Init` and `Deinit` leave the pointer to the cache alone.
abbrev pub IsTidyDeinit : Option (Driver → Driver) → Type 0
IsTidyDeinit none = Unit {0}
IsTidyDeinit (some deinit) = KeepsCache deinit

pub record IsTidy (ops : ChipOps) : Type 0 where
  pub init_tidy : KeepsCache (λ d. (ops.init d).1)
  pub deinit_tidy : IsTidyDeinit ops.deinit

call_init-IsBalanced :
    (ops : ChipOps) (base : ℕ) → IsTidy ops → Preserves (IsBalanced base) (check (call_init ops))
call_init-IsBalanced ops base tidy s c h =
    kept-IsBalanced (λ d. (ops.init d).1) base c tidy.init_tidy h

deinit_op-IsBalanced :
    (op : Option (Driver → Driver)) (base : ℕ) (c : Machine)
    → IsTidyDeinit op
    → IsBalanced base c
    → IsBalanced base (call_deinit_op op c)
deinit_op-IsBalanced none base c tidy h = h
deinit_op-IsBalanced (some deinit) base c tidy h = kept-IsBalanced deinit base c tidy h

call_deinit-IsBalanced :
    (ops : ChipOps) (base : ℕ) (c : Machine)
    → IsTidy ops
    → IsBalanced base c
    → IsBalanced base (call_deinit ops c)
unfolding call_deinit
call_deinit-IsBalanced ops base c tidy h =
    either (IsBalanced base) c.driver.chip_installed (call_deinit_op ops.deinit c) c
      (deinit_op-IsBalanced ops.deinit base c tidy.deinit_tidy h) h

-- MtkInitializeHardware before and after WdiScanCacheCreate.
abbrev firsts : Framework → System → List Action
firsts fw sys = announcements fw ++ work_item_creations fw ++ act (switch_on sys) ∷ []

abbrev lasts : ChipOps → List Action
lasts ops = act install_ops ∷ check (call_init ops) ∷ []

firsts-IsReleased :
    (fw : Framework) (sys : System) (base : ℕ) → Each (Preserves (IsReleased base)) (firsts fw sys)
firsts-IsReleased fw sys base =
    (λ s c h. h)
    and (λ s c h. h)
    and (λ s c h. h)
    and (λ s c h. h)
    and (λ s c h. h)
    and (λ s c h. h)
    and (λ s c h. h)
    and (λ s c h. h)
    and (λ s c h. h)
    and (λ s c h. h)
    and (λ s c h. h)
    and none_left

-- Whichever part of a bring-up fails, the device holds the cache or no memory.
prepare_hardware-IsBalanced :
    (fw : Framework) (sys : System) (ops : ChipOps) (base : ℕ) (c : Machine)
    → IsTidy ops
    → IsReleased base c
    → IsBalanced base (prepare_hardware fw sys ops c).1
unfolding prepare_hardware initialize_hardware
prepare_hardware-IsBalanced fw sys ops base c tidy h =
    let end = (chain (initialization fw sys ops) success c).2 in
    subst (λ r. IsBalanced base r.1) (sym (function-check (initialize_hardware fw sys ops) c))
      (elim (chain_passage (IsReleased base) (IsBalanced base) (firsts fw sys)
        (check (create_cache sys)) (lasts ops) (firsts-IsReleased fw sys base)
        (λ s c'. create-IsBalanced sys base c')
        ((λ s c' h'. h') and call_init-IsBalanced ops base tidy and none_left) success c h) [
          | inl released ↦ released-IsBalanced base end released
          | inr balanced ↦ balanced
        ])

-- One bring-up, the driver at work in between, and the release, which WDF also calls where the bring-up
-- failed.
pub cycle : Framework → System → ChipOps → (Driver → Driver) → Machine → Machine
cycle fw sys ops run c =
    let c' = (prepare_hardware fw sys ops c).1 in
    (release_hardware ops (record c' { driver = run c'.driver })).1

-- Whatever fails in it, a cycle gives its memory back.
pub cycle-IsReleased :
    (fw : Framework) (sys : System) (ops : ChipOps) (run : Driver → Driver) (base : ℕ) (c : Machine)
    → IsTidy ops
    → KeepsCache run
    → IsReleased base c
    → IsReleased base (cycle fw sys ops run c)
unfolding cycle release_hardware
cycle-IsReleased fw sys ops run base c tidy keeps h =
    let c' = (prepare_hardware fw sys ops c).1 in
    let b : IsBalanced base c' = prepare_hardware-IsBalanced fw sys ops base c tidy h in
    let ran : IsBalanced base (record c' { driver = run c'.driver }) =
      kept-IsBalanced run base c' keeps b in
    let down = call_deinit ops (record c' { driver = run c'.driver }) in
    release_cache-IsReleased base down.driver.scan_cache down refl
      (call_deinit-IsBalanced ops base (record c' { driver = run c'.driver }) tidy ran)
