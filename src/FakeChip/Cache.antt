-- ===== src/FakeChip/Cache.antt =====
-- chip_fake.cpp: the fake chip fills the scan cache, neither makes nor drops it, and gives back what it takes of
-- the pool.
use wificx_skeleton.Prelude.{
  ℕ, ◌≡◌, refl, ap, inl, inr, Bool, true, false, List, Option, none, some, Bool-cases, ◌||◌, ◌==◌,
  if◌then◌else◌,
}
use wificx_skeleton.Platform.System.{System}
use wificx_skeleton.Platform.{Status}
use wificx_skeleton.ScanCache.{ScanCache}
use wificx_skeleton.FakeBss.{FakeBss}
use wificx_skeleton.FakeAssoc.{build_req_body, build_resp_body, find_bss}
use wificx_skeleton.Device.{memory_of, Driver, ConnectTarget, call_op}
use wificx_skeleton.Connect.Effects.{emit_association_result-memory}
use wificx_skeleton.Hardware.Memory.{held}
use wificx_skeleton.Hardware.Work.{IsThrifty}
use wificx_skeleton.FakeChip.{
  load_table, scan_into, associate, fake_start_scan, fake_connect, fake_disconnect, fake_reset,
  fake_ops,
}

module _ (sys : System) (req resp : List ℕ) where
  scan_into-held :
      (cache : Option ScanCache) (d : Driver)
      → d.scan_cache ≡ cache
      → held (memory_of (scan_into sys cache d).1) ≡ held (cache, d.pool_blocks)
  unfolding scan_into
  scan_into-held none d e = ap (λ c. held (c, d.pool_blocks)) e
  scan_into-held (some cache) d e = refl

  associate-memory :
      (bss : Option FakeBss) (d : Driver) → memory_of (associate sys req resp bss d).1 ≡ memory_of d
  unfolding associate
  associate-memory none d = refl
  associate-memory (some bss) d =
      let (req', req_len) = build_req_body req 128 bss in
      let (resp', resp_len) = build_resp_body resp 128 bss 1 in
      elim (Bool-cases (req_len == 0 || resp_len == 0)) [
        | inl z ↦ rw z refl
        | inr z ↦
            rw z (emit_association_result-memory sys bss.bssid req' req_len resp' resp_len 1 d)
      ]

  connect-memory :
      (t : ConnectTarget) (d : Driver) → memory_of (fake_connect sys req resp t d).1 ≡ memory_of d
  unfolding fake_connect
  connect-memory t d =
      let d' = load_table d in associate-memory (find_bss d'.fake.bss.entries t.bssid) d'

  called :
      (f : Driver → Status × Driver) (d : Driver)
      → held (memory_of (f d).1) ≡ held (memory_of d)
      → held (memory_of (call_op (some f) d)) ≡ held (memory_of d)
  called f d k = go d.chip_installed (f d).1 k
    where
      go :
          (b : Bool) (e : Driver)
          → held (memory_of e) ≡ held (memory_of d)
          → held (memory_of (if b then e else d)) ≡ held (memory_of d)
      go true e k = k
      go false e k = refl

  -- The fake chip is such a backend, installed or not.
  pub fake_ops-IsThrifty : IsThrifty (fake_ops sys req resp)
  unfolding fake_ops fake_start_scan fake_disconnect fake_reset
  fake_ops-IsThrifty = record {
    start_scan_keeps = λ d. called (fake_start_scan sys) d (scan_into-held d.scan_cache d refl);
    connect_keeps = λ t d. called (fake_connect sys req resp t) d (ap held (connect-memory t d));
    disconnect_keeps = λ d. called fake_disconnect d refl;
    reset_keeps = λ d. called fake_reset d refl;
  }
