-- ===== src/FakeChip/Heard.antt =====
-- chip_fake.cpp: what a scan of the fake chip leaves in the scan cache.
use mathlib.Core.List.{append-nil, append_assoc}
use wificx_skeleton.Prelude.{
  sym, ℕ, ◌+◌, ◌<◌, ◌≤◌, ◌≡◌, refl, ap, ◌∙◌, inr, false, List, [], ◌∷◌, ◌++◌, none, some, length,
  map, min, take, All, arith,
}
use wificx_skeleton.Platform.{success, BssEntry}
use wificx_skeleton.Platform.System.{System}
use wificx_skeleton.Frame.{Mac, mac_equal, mac_equal_iff, freq_to_channel, freq_to_band}
use wificx_skeleton.ScanCache.{ScanCache, Entry, Result, clear, insert, fill}
use wificx_skeleton.ScanCache.Lookup.{
  lookup, contents, lookup-insert, view-fill, bssid-fill, fresh_entry, IsResult,
}
use wificx_skeleton.ScanCache.Growth.{insert_grows}
use wificx_skeleton.ScanCache.Invariant.{
  IsValid, insert-IsValid, clear-IsValid, max-insert, clear_lem,
}
use wificx_skeleton.FakeBss.{FakeBss, get_table}
use wificx_skeleton.FakeBss.Buffers.{IsSized}
use wificx_skeleton.FakeBss.Table.{Distinct}
use wificx_skeleton.Device.{Driver}
use wificx_skeleton.WorkItems.{bss_entry, link_quality}
use wificx_skeleton.FakeChip.{scan_result, insert_all, scan_into, fake_start_scan}

-- The networks that the fake chip hears.
abbrev pub networks : Driver → List FakeBss
networks d = (get_table d.fake.bss).entries

-- A network as the list of networks tells the OS of it, if its beacon was heard at a tick.
abbrev announced : FakeBss → ℕ → BssEntry
announced e tick = record {
  bssid = e.bssid;
  rssi = e.rssi;
  link_quality = link_quality e.rssi;
  channel_number = freq_to_channel e.frequency_mhz;
  band = freq_to_band e.frequency_mhz;
  beacon_frame = take (min e.beacon_length 256) e.beacon_buffer;
  host_time_stamp = tick;
}

-- The cache knows none of the networks.
abbrev Unknown : ScanCache → List FakeBss → Type 0
Unknown c es = All (λ e. lookup (contents c) e.bssid ≡ none) es

map-snoc :
    {A B : Type 0} (f : A → B) (xs : List A) (x : A) → map f (xs ++ x ∷ []) ≡ map f xs ++ f x ∷ []
map-snoc f [] x = refl
map-snoc f (y ∷ xs) x = ap (λ l. f y ∷ l) (map-snoc f xs x)

mac_equal_flip : (a b : Mac) → mac_equal a b ≡ false → mac_equal b a ≡ false
mac_equal_flip a b h = ground (arith, mac_equal_iff a b, mac_equal_iff b a)

module _ (sys : System) where
  -- The networks of a list, heard one after the other from a tick on.
  abbrev pub all_announced : List FakeBss → ℕ → List BssEntry
  all_announced [] ticks = []
  all_announced (e ∷ es) ticks = announced e (sys.tick_count ticks) ∷ all_announced es (ticks + 1)

  bss_entry-fill :
      (old : Entry) (e : FakeBss) (tick : ℕ)
      → IsSized e
      → old.bssid ≡ e.bssid
      → bss_entry (fill old (scan_result sys e tick)) ≡ announced e tick
  unfolding bss_entry
  bss_entry-fill old e tick h same =
      let r = scan_result sys e tick in
      ap
        (λ v. record {
          bssid = (fill old r).bssid;
          rssi = v.rssi;
          link_quality = link_quality v.rssi;
          channel_number = freq_to_channel v.frequency_mhz;
          band = freq_to_band v.frequency_mhz;
          beacon_frame = v.beacon;
          host_time_stamp = v.tick;
        })
        (view-fill old r h)
      ∙ ap (λ b. record (announced e tick) { bssid = b }) (bssid-fill old r ∙ same)

  insert-Unknown :
      (c : ScanCache) (r : Result) (es : List FakeBss)
      → IsValid c
      → c.count < c.max_entries
      → IsResult r
      → All (λ x. mac_equal x.bssid r.bssid ≡ false) es
      → Unknown c es
      → Unknown (insert c r).1 es
  insert-Unknown c r [] v free h others none_known = tt
  insert-Unknown c r (x ∷ es) v free h others none_known = (
    (lookup-insert c r x.bssid (omega (arith, v.memory)) v.in_use h (inr free)).1
        ∙ rw (mac_equal_flip x.bssid r.bssid others.0) none_known.0,
    insert-Unknown c r es v free h others.1 none_known.1,
  )

  insert_all-insert :
      (e : FakeBss) (es : List FakeBss) (c : ScanCache) (ticks : ℕ)
      → (insert c (scan_result sys e (sys.tick_count ticks))).0 ≡ success
      → insert_all sys (e ∷ es) c ticks
        ≡ insert_all sys es (insert c (scan_result sys e (sys.tick_count ticks))).1 (ticks + 1)
  unfolding insert_all
  insert_all-insert e es c ticks done =
      ap
        (λ s.
          insert_all sys es (insert c (scan_result sys e (sys.tick_count ticks))).1
            (elim s [ success ↦ ticks + 1 | _ ↦ ticks ]))
        done

  insert_all-contents :
      (es : List FakeBss) (c : ScanCache) (ticks : ℕ)
      → IsValid c
      → c.count + length es ≤ c.max_entries
      → All IsSized es
      → Distinct es
      → Unknown c es
      → ((insert_all sys es c ticks).0.count ≡ c.count + length es)
        × (map bss_entry (contents (insert_all sys es c ticks).0)
            ≡ map bss_entry (contents c) ++ all_announced es ticks)
  unfolding insert_all
  insert_all-contents [] c ticks v room sized distinct fresh =
      (omega arith, sym (append-nil (map bss_entry (contents c))))
  insert_all-contents (e ∷ es) c ticks v room sized distinct fresh =
      let r = scan_result sys e (sys.tick_count ticks) in
      let free : c.count < c.max_entries = omega (arith, room) in
      let (done, more, grown) = insert_grows c r (omega (arith, v.memory)) free fresh.0 in
      let (counted, listed) =
        insert_all-contents es (insert c r).1 (ticks + 1) (insert-IsValid c r v sized.0)
          (omega (arith, more, max-insert c r, room)) sized.1 distinct.1
          (insert-Unknown c r es v free sized.0 distinct.0 fresh.1) in
      let appended : map bss_entry (contents (insert c r).1)
          ≡ map bss_entry (contents c) ++ announced e (sys.tick_count ticks) ∷ [] =
        ap (map bss_entry) grown
        ∙ map-snoc bss_entry (contents c) (fill (fresh_entry c e.bssid) r)
        ∙ ap (λ b. map bss_entry (contents c) ++ b ∷ [])
            (bss_entry-fill (fresh_entry c e.bssid) e (sys.tick_count ticks) sized.0 refl) in
      let step = insert_all-insert e es c ticks done in
      (
        ap (λ p. p.0.count) step ∙ omega (arith, counted, more),
        ap (λ p. map bss_entry (contents p.0)) step
            ∙ listed
            ∙ ap (λ l. l ++ all_announced es (ticks + 1)) appended
            ∙ append_assoc (map bss_entry (contents c)) (announced e (sys.tick_count ticks) ∷ [])
                (all_announced es (ticks + 1)),
      )

  clear_counters : (c : ScanCache) → ((clear c).count ≡ 0) × ((clear c).max_entries ≡ c.max_entries)
  clear_counters c =
      let key : Mac = record { b0 = 0; b1 = 0; b2 = 0; b3 = 0; b4 = 0; b5 = 0 } in
      ((clear_lem c key).0, (clear_lem c key).1)

  clear-Unknown : (c : ScanCache) (es : List FakeBss) → Unknown (clear c) es
  clear-Unknown c [] = tt
  clear-Unknown c (e ∷ es) = ((clear_lem c e.bssid).2, clear-Unknown c es)

  -- The cache that a scan leaves.
  abbrev pub heard : ScanCache → Driver → ScanCache
  heard c d = (insert_all sys (networks d) (clear c) d.tick_calls).0

  -- After a scan of the fake chip on a valid cache with a slot for every network of its table, which have
  -- different BSSIDs and beacons with all their bytes, the entries in use are those of the table,
  -- in its order.
  pub heard-contents :
      (c : ScanCache) (d : Driver)
      → IsValid c
      → length (networks d) ≤ c.max_entries
      → All IsSized (networks d)
      → Distinct (networks d)
      → ((heard c d).count ≡ length (networks d))
        × (map bss_entry (contents (heard c d)) ≡ all_announced (networks d) d.tick_calls)
  heard-contents c d v room sized distinct =
      let (zeroed, same_max) = clear_counters c in
      let (counted, listed) =
        insert_all-contents (networks d) (clear c) d.tick_calls (clear-IsValid c v)
          (omega (arith, zeroed, same_max, room)) sized distinct (clear-Unknown c (networks d)) in
      (
        omega (arith, counted, zeroed),
        listed
            ∙ ap
                (λ n.
                  map bss_entry (take n (clear c).entries)
                  ++ all_announced (networks d) d.tick_calls)
                zeroed,
      )

  pub fake_start_scan-heard :
      (d : Driver) (c : ScanCache)
      → d.scan_cache ≡ some c
      → let d2 = (fake_start_scan sys d).1 in
        (d2.scan_cache ≡ some (heard c d))
        × (d2.log ≡ d.log)
        × (d2.active_scan_port_id ≡ d.active_scan_port_id)
        × (d2.os_wdi_version ≡ d.os_wdi_version)
  unfolding fake_start_scan scan_into
  fake_start_scan-heard d c there = rw there (refl, refl, refl, refl)
