-- ===== src/Adapter/Creation.antt =====
-- EvtWiFiDeviceCreateAdapter: when it succeeds, and what it leaves.
use mathlib.Core.Bool.{and_assoc, and-true}
use wificx_skeleton.Prelude.{
  ℕ, ◌≡◌, refl, ◌∙◌, Bool, true, false, ◌&&◌, Bool-cases, inl, inr, if◌then◌else◌, List, [], ◌∷◌,
  ◌++◌, Option, none, some,
}
use wificx_skeleton.Platform.{nt_success, open_complete}
use wificx_skeleton.Platform.System.{System}
use wificx_skeleton.Device.{Driver}
use wificx_skeleton.Tlv.{create_memory, indicate_task_complete}
use wificx_skeleton.Framework.{
  Call, Machine, Framework, check, perform, set_datapath_callbacks, add_tx_peer_demux,
  adapter_create, adapter_initialize, spin_lock_create, set_link_state, set_link_layer_capabilities,
  set_link_layer_mtu, set_permanent_address, set_current_address, set_datapath_capabilities,
  set_wake_capabilities, adapter_start,
}
use wificx_skeleton.Framework.Chains.{
  Step, require_step, note_step, Matches, Follows, ◌before◌, ends, check-Matches, act-Matches,
  function-Matches, passes, after, function_lem, succeeded,
}
use wificx_skeleton.Adapter.{
  media_max_speed, fake_mac, zero_adapter, through, write_addresses, announce_addresses,
  create_lock, tx_capabilities, rx_capabilities, start_adapter, first_link_state,
  fire_open_complete, check_not_null, creation, create_adapter,
}

-- The indication of wifidevice.cpp is the one that WdiIndicateTaskComplete sends, under transaction 0.
pub fire_open_complete_lem :
    (sys : System) (port : ℕ) (d : Driver)
    → fire_open_complete sys port d ≡ (indicate_task_complete sys open_complete port 0 d).1
unfolding fire_open_complete indicate_task_complete create_memory
fire_open_complete_lem sys port d =
    elim (Bool-cases (nt_success (sys.memory_create d.memory_calls sys.header_size))) [
      | inl ok ↦ rw ok refl
      | inr fails ↦ rw fails refl
    ]

-- The calls of a successful creation, the last one first.
abbrev pub creation_calls : List Call
creation_calls =
    adapter_start
    ∷ set_wake_capabilities
    ∷ set_datapath_capabilities tx_capabilities rx_capabilities
    ∷ set_current_address fake_mac
    ∷ set_permanent_address fake_mac
    ∷ set_link_layer_mtu 2304
    ∷ set_link_layer_capabilities media_max_speed media_max_speed
    ∷ set_link_state first_link_state
    ∷ spin_lock_create
    ∷ adapter_initialize
    ∷ adapter_create
    ∷ add_tx_peer_demux 1
    ∷ set_datapath_callbacks
    ∷ []

-- The calls among them that return a status.
abbrev pub has_status : Call → Bool
has_status adapter_start = true
has_status spin_lock_create = true
has_status adapter_initialize = true
has_status adapter_create = true
has_status _ = false

-- Whether each call with a status is answered with success, the calls listed last first.
pub grants_all : Framework → List Call → List Call → Bool
grants_all fw [] calls = true
grants_all fw (call ∷ earlier) calls =
    grants_all fw earlier calls
    && (if has_status call then nt_success (fw.answer (earlier ++ calls) call) else true)

-- What a creation should do: with an AdapterInit, and each of the four calls answered with success, the
-- adapter is there with its lock and its addresses, the demux is declared before NetAdapterCreate and all
-- else before NetAdapterStart, and OPEN_COMPLETE goes out on the adapter's port as any completion does.
unfoldable pub created : Framework → System → ℕ → Bool → Machine → Option Machine
created fw sys port adapter_init c =
    if adapter_init && grants_all fw creation_calls c.calls
    then some (record c {
      driver = (indicate_task_complete sys open_complete port 0 c.driver).1;
      adapter =
          some (record { lock = true; permanent_address = fake_mac; current_address = fake_mac });
      calls = creation_calls ++ c.calls;
    })
    else none

module _ (fw : Framework) where
  abbrev lock_step : Step
  lock_step = (
    (λ c. nt_success (fw.answer c.calls spin_lock_create)),
    (λ c. record c {
      adapter = through (λ a. record a { lock = true }) c.adapter;
      calls = spin_lock_create ∷ c.calls;
    }),
  )

  lock-Matches : Matches (check (create_lock fw)) lock_step
  unfolding create_lock
  lock-Matches s c = (refl, (λ _. refl), (λ ok. rw ok refl))

  abbrev start_plan : List Step
  start_plan =
      note_step (set_link_layer_capabilities media_max_speed media_max_speed)
      ∷ note_step (set_link_layer_mtu 2304)
      ∷ ((λ c. true), (λ c. record c { adapter = through write_addresses c.adapter }))
      ∷ ((λ c. true), (λ c. announce_addresses c.adapter c))
      ∷ note_step (set_datapath_capabilities tx_capabilities rx_capabilities)
      ∷ note_step set_wake_capabilities
      ∷ require_step fw adapter_start
      ∷ []

  start-Matches : Matches (check (start_adapter fw)) (passes start_plan, after start_plan)
  start-Matches = function-Matches _ start_plan (
      act-Matches (note_step (set_link_layer_capabilities media_max_speed media_max_speed)).1
      before act-Matches (note_step (set_link_layer_mtu 2304)).1
      before act-Matches (λ c. record c { adapter = through write_addresses c.adapter })
      before act-Matches (λ c. announce_addresses c.adapter c)
      before act-Matches (note_step (set_datapath_capabilities tx_capabilities rx_capabilities)).1
      before act-Matches (note_step set_wake_capabilities).1
      before check-Matches (perform fw adapter_start)
      before ends)

  abbrev creation_plan : System → ℕ → Bool → List Step
  creation_plan sys port adapter_init =
      ((λ c. adapter_init), (λ c. c))
      ∷ note_step set_datapath_callbacks
      ∷ note_step (add_tx_peer_demux 1)
      ∷ require_step fw adapter_create
      ∷ require_step fw adapter_initialize
      ∷ ((λ c. true), (λ c. record c { adapter = some zero_adapter }))
      ∷ (passes (lock_step ∷ []), after (lock_step ∷ []))
      ∷ note_step (set_link_state first_link_state)
      ∷ (passes start_plan, after start_plan)
      ∷ ((λ c. true), (λ c. record c { driver = fire_open_complete sys port c.driver }))
      ∷ []

  not_null-Matches : (present : Bool) → Matches (check_not_null present) ((λ c. present), (λ c. c))
  not_null-Matches true s c = (refl, (λ _. refl), (λ _. refl))
  not_null-Matches false s c = (refl, (λ _. refl), (λ _. refl))

  creation-Follows :
      (sys : System) (port : ℕ) (adapter_init : Bool)
      → Follows (creation fw sys port adapter_init) (creation_plan sys port adapter_init)
  creation-Follows sys port adapter_init =
      not_null-Matches adapter_init
      before act-Matches (note_step set_datapath_callbacks).1
      before act-Matches (note_step (add_tx_peer_demux 1)).1
      before check-Matches (perform fw adapter_create)
      before check-Matches (perform fw adapter_initialize)
      before act-Matches (λ c. record c { adapter = some zero_adapter })
      before function-Matches _ (lock_step ∷ []) (lock-Matches before ends)
      before act-Matches (note_step (set_link_state first_link_state)).1
      before start-Matches
      before act-Matches (λ c. record c { driver = fire_open_complete sys port c.driver })
      before ends

  creation-passes :
      (sys : System) (port : ℕ) (adapter_init : Bool) (c : Machine)
      → passes (creation_plan sys port adapter_init) c
        ≡ (adapter_init && grants_all fw creation_calls c.calls)
  unfolding passes after grants_all announce_addresses
  creation-passes sys port adapter_init c = simp (and_assoc, and-true)

-- EvtWiFiDeviceCreateAdapter returns a status of success exactly where there is an AdapterInit and the
-- framework grants NetAdapterCreate, WifiAdapterInitialize, WdfSpinLockCreate and NetAdapterStart. It then
-- leaves the device that `created` gives: the adapter with its lock and its addresses, the demux declared
-- before NetAdapterCreate and all else before NetAdapterStart, and OPEN_COMPLETE sent just as
-- WdiIndicateTaskComplete sends a completion, under transaction id 0.
pub create_adapter-created :
    (fw : Framework) (sys : System) (port : ℕ) (adapter_init : Bool) (c : Machine)
    → succeeded (create_adapter fw sys port adapter_init c) ≡ created fw sys port adapter_init c
unfolding create_adapter created after announce_addresses
create_adapter-created fw sys port adapter_init c =
    function_lem (creation fw sys port adapter_init) (creation_plan fw sys port adapter_init)
      (creation-Follows fw sys port adapter_init) c
    ∙ rw (creation-passes fw sys port adapter_init c, fire_open_complete_lem sys port c.driver) refl
