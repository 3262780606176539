-- ===== src/Adapter/Power.antt =====
-- EvtDeviceD0Exit (power.cpp) after EvtWiFiDeviceCreateAdapter: the null adapter and the link speed.
use wificx_skeleton.Prelude.{
  if◌then◌else◌, ℕ, ◌≡◌, refl, ap, ◌∙◌, Bool, true, false, ◌&&◌, leb, List, [], ◌∷◌, Option, none,
  some, drop,
}
use wificx_skeleton.Platform.{Status, success, nt_success}
use wificx_skeleton.Platform.System.{System}
use wificx_skeleton.Framework.{
  Adapter, Call, Machine, Framework, chain, note, require, check, set_link_state, spin_lock_create,
  set_datapath_callbacks, add_tx_peer_demux, adapter_create,
}
use wificx_skeleton.Framework.Chains.{
  Each, none_left, ◌and◌, Preserves, chain-Preserves, chain-append, chain_refused, either,
}
use wificx_skeleton.Adapter.{
  media_max_speed, through, announce_addresses, create_lock, start_adapter, check_not_null,
  creation, create_adapter, other_state, d0_exit, leave_d0,
}

-- Whether every link state that was set has a speed within the maximum.
unfoldable pub speeds_within : ℕ → List Call → Bool
speeds_within max [] = true
speeds_within max (set_link_state state ∷ calls) =
    leb state.link_speed max && speeds_within max calls
speeds_within max (_ ∷ calls) = speeds_within max calls

abbrev IsWithin : Machine → Type 0
IsWithin c = speeds_within media_max_speed c.calls ≡ true

announce-IsWithin :
    (adapter : Option Adapter) (c : Machine) → IsWithin c → IsWithin (announce_addresses adapter c)
unfolding announce_addresses speeds_within
announce-IsWithin none c h = h
announce-IsWithin (some a) c h = h

lock-IsWithin :
    (fw : Framework) (s : Status) (c : Machine) → IsWithin c → IsWithin (create_lock fw c).1
unfolding create_lock speeds_within
lock-IsWithin fw s c h =
    let c' : Machine = record c { calls = spin_lock_create ∷ c.calls } in
    either IsWithin (nt_success (fw.answer c.calls spin_lock_create))
      (record c' { adapter = through (λ a. record a { lock = true }) c.adapter }) c' h h

start-IsWithin : (fw : Framework) → Preserves IsWithin (check (start_adapter fw))
unfolding speeds_within
start-IsWithin fw s c h =
    chain-Preserves IsWithin _
      ((λ s c h. h)
        and (λ s c h. h)
        and (λ s c h. h)
        and (λ s c. announce-IsWithin c.adapter c)
        and (λ s c h. h)
        and (λ s c h. h)
        and (λ s c h. h)
        and none_left)
      success c h

creation-IsWithin :
    (fw : Framework) (sys : System) (port : ℕ) (adapter_init : Bool)
    → Each (Preserves IsWithin) (creation fw sys port adapter_init)
unfolding speeds_within
creation-IsWithin fw sys port adapter_init =
    (λ s c h. h)
    and (λ s c h. h)
    and (λ s c h. h)
    and (λ s c h. h)
    and (λ s c h. h)
    and (λ s c h. h)
    and (λ s c. chain-Preserves IsWithin _ (lock-IsWithin fw and none_left) success c)
    and (λ s c h. h)
    and start-IsWithin fw
    and (λ s c h. h)
    and none_left

-- How a power callback ends: with an access through a null pointer, or with all link speeds within the
-- announced maximum or not.
pub data Outcome : Type 0 where
  fault within above : Outcome

pub classify : Option (Status × Machine) → Outcome
classify none = fault
classify (some (s, c)) = if speeds_within media_max_speed c.calls then within else above

leave_d0-classify :
    (o : Option Adapter) (c : Machine)
    → classify (leave_d0 o c) ≡ elim o as (λ x. Outcome) [ none ↦ fault | some a ↦ above ]
unfolding leave_d0 speeds_within classify
leave_d0-classify none c = refl
leave_d0-classify (some a) c = refl

-- However EvtWiFiDeviceCreateAdapter ends, it sets no link speed above the maximum of 150 Mbit/s that
-- MtkAdapterStart announces, from a device where none was set. EvtDeviceD0Exit to another state than
-- D3Final after it sets one above that maximum if the device has an adapter, and reads through the null
-- pointer if it has none.
pub d0_exit-create_adapter :
    (fw : Framework) (sys : System) (port : ℕ) (adapter_init : Bool) (c : Machine)
    → speeds_within media_max_speed c.calls ≡ true
    → let c' = (create_adapter fw sys port adapter_init c).1 in
      (speeds_within media_max_speed c'.calls ≡ true)
      × (classify (d0_exit other_state c')
          ≡ elim c'.adapter as (λ x. Outcome) [ none ↦ fault | some a ↦ above ])
unfolding create_adapter d0_exit
d0_exit-create_adapter fw sys port adapter_init c h =
    let c' = (create_adapter fw sys port adapter_init c).1 in
    (
      chain-Preserves IsWithin (creation fw sys port adapter_init)
          (creation-IsWithin fw sys port adapter_init) success c h,
      leave_d0-classify c'.adapter c',
    )

refused_creation :
    (fw : Framework) (sys : System) (port : ℕ) (c : Machine)
    → nt_success (fw.answer (add_tx_peer_demux 1 ∷ set_datapath_callbacks ∷ c.calls) adapter_create)
      ≡ false
    → (create_adapter fw sys port true c).1
      ≡ record c { calls = adapter_create ∷ add_tx_peer_demux 1 ∷ set_datapath_callbacks ∷ c.calls }
unfolding create_adapter chain
refused_creation fw sys port c refused =
    let first =
      check_not_null true ∷ note set_datapath_callbacks ∷ note (add_tx_peer_demux 1) ∷ [] in
    let c' = record c { calls = add_tx_peer_demux 1 ∷ set_datapath_callbacks ∷ c.calls } in
    let rest = drop 4 (creation fw sys port true) in
    ap (λ r. r.2) (chain-append first (require fw adapter_create ∷ rest) success c)
    ∙ chain_refused (require fw adapter_create) rest success c' refused

-- Where NetAdapterCreate is refused on a device without an adapter, a later EvtDeviceD0Exit to another
-- state than D3Final reads through the null pointer.
d0_exit_faults :
    (fw : Framework) (sys : System) (port : ℕ) (c : Machine)
    → c.adapter ≡ none
    → nt_success (fw.answer (add_tx_peer_demux 1 ∷ set_datapath_callbacks ∷ c.calls) adapter_create)
      ≡ false
    → d0_exit other_state (create_adapter fw sys port true c).1 ≡ none
unfolding d0_exit leave_d0
d0_exit_faults fw sys port c missing refused =
    ap (λ o. leave_d0 o (create_adapter fw sys port true c).1)
      (ap (λ m. m.adapter) (refused_creation fw sys port c refused) ∙ missing)
