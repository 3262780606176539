-- ===== src/FakeChip/Contract.antt =====
-- chip_fake.cpp: the fake chip keeps both contracts of a backend.
use mathlib.Core.Option.{some-injective}
use wificx_skeleton.Prelude.{
  if◌then◌else◌, subst, ℕ, ◌≡◌, refl, inl, inr, Bool, true, false, List, Option, none, some,
  Bool-cases, ◌||◌, ◌==◌,
}
use wificx_skeleton.Platform.System.{System}
use wificx_skeleton.Platform.{Status, success}
use wificx_skeleton.ScanCache.{ScanCache}
use wificx_skeleton.FakeBss.{FakeBss}
use wificx_skeleton.FakeAssoc.{build_req_body, build_resp_body, find_bss}
use wificx_skeleton.Device.{Driver, ConnectTarget, call_op}
use wificx_skeleton.Device.Effects.{Keeps, Keeps-refl, Keeps-trans, quiet-Keeps, IsBackend, IsLocal}
use wificx_skeleton.Connect.Effects.{emit_association_result-Keeps}
use wificx_skeleton.Hardware.Memory.{IsTidy}
use wificx_skeleton.FakeChip.{
  fake_init, fake_deinit, load_table, scan_into, associate, fake_start_scan, fake_connect,
  fake_disconnect, fake_reset, fake_ops, fake_set_radio, fake_program_key, fake_remove_all_keys,
  fake_set_default_key_id,
}

module _ (sys : System) (req resp : List ℕ) where
  scan_into-Keeps : (cache : Option ScanCache) (d : Driver) → Keeps d (scan_into sys cache d).1
  unfolding scan_into
  scan_into-Keeps none d = Keeps-refl d
  scan_into-Keeps (some cache) d = quiet-Keeps d _ refl refl refl refl refl refl

  associate-Keeps : (bss : Option FakeBss) (d : Driver) → Keeps d (associate sys req resp bss d).1
  unfolding associate
  associate-Keeps none d = Keeps-refl d
  associate-Keeps (some bss) d =
      let (req', req_len) = build_req_body req 128 bss in
      let (resp', resp_len) = build_resp_body resp 128 bss 1 in
      elim (Bool-cases (req_len == 0 || resp_len == 0)) [
        | inl z ↦ rw z (Keeps-refl d)
        | inr z ↦ rw z (emit_association_result-Keeps sys bss.bssid req' req_len resp' resp_len 1 d)
      ]

  connect-Keeps : (t : ConnectTarget) (d : Driver) → Keeps d (fake_connect sys req resp t d).1
  unfolding fake_connect
  connect-Keeps t d =
      let d' = load_table d in
      Keeps-trans (quiet-Keeps d d' refl refl refl refl refl refl)
        (associate-Keeps (find_bss d'.fake.bss.entries t.bssid) d')

  reset-Keeps : (d : Driver) → Keeps d (fake_reset d).1
  unfolding fake_reset
  reset-Keeps d = quiet-Keeps d _ refl refl refl refl refl refl

  disconnect-Keeps : (d : Driver) → Keeps d (fake_disconnect d).1
  unfolding fake_disconnect
  disconnect-Keeps d = Keeps-refl d

  called :
      (f : Driver → Status × Driver) (d : Driver) → Keeps d (f d).1 → Keeps d (call_op (some f) d)
  called f d k = elim (Bool-cases d.chip_installed) [
    | inl e ↦ simp e k
    | inr e ↦ simp e (Keeps-refl d)
  ]

  -- Installed or not, the fake chip leaves the task queues alone, completes no task itself and sends
  -- its association results under transaction id 0, whatever memory, pool and generators do.
  pub fake_ops-IsBackend : IsBackend (fake_ops sys req resp)
  unfolding fake_ops fake_start_scan
  fake_ops-IsBackend = record {
    start_scan_keeps = λ d. called (fake_start_scan sys) d (scan_into-Keeps d.scan_cache d);
    connect_keeps = λ t d. called (fake_connect sys req resp t) d (connect-Keeps t d);
    disconnect_keeps = λ d. called fake_disconnect d (disconnect-Keeps d);
    reset_keeps = λ d. called fake_reset d (reset-Keeps d);
  }

  called_if :
      (b : Bool) (e d : Driver)
      → e ≡ record d { fake = e.fake }
      → (if b then e else d) ≡ record d { fake = (if b then e else d).fake }
  called_if true e d same = same
  called_if false e d same = refl

  called_local :
      (f : Driver → Status × Driver) (d : Driver)
      → (f d).1 ≡ record d { fake = (f d).1.fake }
      → call_op (some f) d ≡ record d { fake = (call_op (some f) d).fake }
  called_local f d same = called_if d.chip_installed (f d).1 d same

  -- In the ops that the handlers call, the fake chip changes nothing but its own globals.
  pub fake_ops-IsLocal : IsLocal (fake_ops sys req resp)
  unfolding fake_ops fake_set_radio fake_program_key fake_remove_all_keys fake_set_default_key_id
  fake_ops-IsLocal = record {
    set_radio = λ on d. called_local (fake_set_radio on) d refl;
    program_key = λ op k d e.
        subst (λ f. (f k d).1 ≡ record d { fake = (f k d).1.fake })
          (some-injective fake_program_key op e) refl;
    remove_all_keys = λ d. called_local fake_remove_all_keys d refl;
    set_default_key_id = λ id d. called_local (fake_set_default_key_id id) d refl;
  }

-- Its Init and Deinit do nothing.
pub fake_ops-init :
    (sys : System) (req resp : List ℕ) (d : Driver) → (fake_ops sys req resp).init d ≡ (success, d)
unfolding fake_ops fake_init
fake_ops-init sys req resp d = refl

pub fake_ops-deinit :
    (sys : System) (req resp : List ℕ) → (fake_ops sys req resp).deinit ≡ some fake_deinit
unfolding fake_ops
fake_ops-deinit sys req resp = refl

pub fake_ops-IsTidy : (sys : System) (req resp : List ℕ) → IsTidy (fake_ops sys req resp)
unfolding fake_ops fake_init fake_deinit
fake_ops-IsTidy sys req resp = record { init_tidy = λ d. refl; deinit_tidy = λ d. refl }
