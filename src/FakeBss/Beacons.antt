-- ===== src/FakeBss/Beacons.antt =====
-- The beacons of chip_fake_bss.cpp, read back: for a network of any SSID the buffer holds the fixed
-- fields and the information elements that the source lists, and nothing is cut off.
use mathlib.Core.Option
use mathlib.Core.List.{append_assoc, append-nil}
use wificx_skeleton.Prelude.{
  ℕ, ◌+◌, ◌-◌, ◌≤◌, ◌≡◌, refl, sym, ap, ap₂, ◌∙◌, Bool, true, false, List, [], ◌∷◌, ◌++◌,
  if◌then◌else◌, length, drop, take, length-append, length-take, arith,
}
use wificx_skeleton.Frame.{ie_find, freq_to_channel}
use wificx_skeleton.Frame.Elements.{encode, find_element, payload_at, ie_find-encode}
use wificx_skeleton.FakeBss.{
  FakeBss, rates, rsn, write_at, append_at, build_ies, build_beacon_body, fixed_fields,
}
use wificx_skeleton.FakeBss.Buffers.{
  elements_with, elements, IsBss, IsSized, Holds, length-write_at, take-write_at, append_at-Holds,
  cut, after_ds, common, length-cut,
}

length-common : (e : FakeBss) → IsBss e → length (common e) ≡ e.ssid_length + 15
length-common e v = omega (
  arith,
  length-append (cut 0 e.ssid e.ssid_length ++ cut 1 rates 8)
      (cut 3 (freq_to_channel e.frequency_mhz ∷ []) 1),
  length-append (cut 0 e.ssid e.ssid_length) (cut 1 rates 8),
  length-cut 0 e.ssid e.ssid_length (omega (arith, v.ssid_bound, v.ssid_memory)),
)

after_ds-Holds : (e : FakeBss) → IsBss e → Holds 128 (after_ds e) (common e)
after_ds-Holds e v =
    append_at-Holds 128 _ _ 3 (freq_to_channel e.frequency_mhz ∷ []) 1
      (append_at-Holds 128 _ _ 1 rates 8
        (append_at-Holds 128 (e.ie_buffer, 0) [] 0 e.ssid e.ssid_length
          (record { filled = refl; offset = refl; memory = v.ie_memory })
          (omega (arith, v.ssid_bound)) fits)
        (omega (arith, v.ssid_bound, length-cut 0 e.ssid e.ssid_length fits)) (omega arith))
      (omega (
        arith,
        v.ssid_bound,
        length-cut 0 e.ssid e.ssid_length fits,
        length-append (cut 0 e.ssid e.ssid_length) (cut 1 rates 8),
      ))
      (omega arith)
  where
    fits : e.ssid_length ≤ length e.ssid
    fits = omega (arith, v.ssid_bound, v.ssid_memory)

abbrev rsn_part : Bool → List ℕ
rsn_part protected = if protected then cut 48 rsn 20 else []

finished-Holds :
    (e : FakeBss) (protected : Bool)
    → IsBss e
    → Holds 128
        (if protected then append_at 128 (after_ds e) 48 rsn 20 else after_ds e)
        (common e ++ rsn_part protected)
finished-Holds e true v =
    append_at-Holds 128 (after_ds e) (common e) 48 rsn 20 (after_ds-Holds e v)
      (omega (arith, length-common e v, v.ssid_bound)) (omega arith)
finished-Holds e false v = rw (append-nil (common e)) (after_ds-Holds e v)

encode-elements :
    (e : FakeBss) (protected : Bool)
    → length (take e.ssid_length e.ssid) ≡ e.ssid_length
    → encode (elements_with e protected) ≡ common e ++ rsn_part protected
encode-elements e true h = rw h (simp (append_assoc, append-nil))
encode-elements e false h = rw h (simp (append_assoc, append-nil))

length-rsn_part : (protected : Bool) → length (rsn_part protected) ≤ 22
length-rsn_part true = omega arith
length-rsn_part false = omega arith

-- The elements as the source appends them.
build_ies_lem :
    (e : FakeBss)
    → IsBss e
    → (take (build_ies e).ie_length (build_ies e).ie_buffer ≡ encode (elements e))
      × ((build_ies e).ie_length ≡ length (encode (elements e)))
      × (length (encode (elements e)) ≤ 69)
unfolding build_ies
build_ies_lem e v =
    let whole : length (take e.ssid_length e.ssid) ≡ e.ssid_length =
      omega (arith, length-take e.ssid_length e.ssid, v.ssid_bound, v.ssid_memory) in
    let done = finished-Holds e e.use_rsn v in
    let same = encode-elements e e.use_rsn whole in
    (
      done.filled ∙ sym same,
      done.offset ∙ ap length (sym same),
      omega (
        arith,
        ap length same,
        length-append (common e) (rsn_part e.use_rsn),
        length-common e v,
        v.ssid_bound,
        length-rsn_part e.use_rsn,
      ),
    )

build_ies_fields :
    (e : FakeBss)
    → ((build_ies e).beacon_interval_tu ≡ e.beacon_interval_tu)
      × ((build_ies e).capability_info ≡ e.capability_info)
      × (length (build_ies e).beacon_buffer ≡ length e.beacon_buffer)
unfolding build_ies
build_ies_fields e = (refl, refl, refl)

beacon_body_lem :
    (e : FakeBss) (bytes : List ℕ)
    → length e.beacon_buffer ≡ 140
    → take e.ie_length e.ie_buffer ≡ bytes
    → e.ie_length ≡ length bytes
    → length bytes ≤ 69
    → let b = build_beacon_body e in
      (take b.beacon_length b.beacon_buffer
        ≡ fixed_fields e.beacon_interval_tu e.capability_info ++ bytes)
      × (b.beacon_length ≡ 12 + length bytes)
unfolding build_beacon_body
beacon_body_lem e bytes memory same len small =
    let fixed : List ℕ = fixed_fields e.beacon_interval_tu e.capability_info in
    let room : 12 ≤ length (write_at e.beacon_buffer 0 fixed) =
      omega (arith, memory, length-write_at e.beacon_buffer 0 fixed (omega arith)) in
    let first : take 12 (write_at e.beacon_buffer 0 fixed) ≡ fixed =
      take-write_at e.beacon_buffer 0 fixed (omega arith) in
    (
      rw (same, len)
          (take-write_at (write_at e.beacon_buffer 0 fixed) 12 bytes room
            ∙ ap (λ f. f ++ bytes) first),
      omega (arith, len),
    )

-- The beacon of a built network, of any SSID of at most 32 bytes and with the buffers of the table,
-- is its fixed fields (timestamp 0, interval and capability, low byte first) and its elements: the
-- SSID, the rates, the channel of its frequency and, if it is protected, the RSN element. It fits
-- the network's buffer and the scan cache's, and `WdiIeFind` finds in it the payload of each
-- element.
pub beacon_lem :
    (e : FakeBss) (id : ℕ)
    → IsBss e
    → let b = build_beacon_body (build_ies e) in
      (take b.beacon_length b.beacon_buffer
        ≡ fixed_fields e.beacon_interval_tu e.capability_info ++ encode (elements e))
      × (b.beacon_length ≤ 81)
      × (Option.map
            (payload_at (drop 12 (take b.beacon_length b.beacon_buffer)))
            (ie_find (drop 12 (take b.beacon_length b.beacon_buffer)) (b.beacon_length - 12) id)
          ≡ find_element (elements e) id)
beacon_lem e id v =
    let (bytes, offset, small) = build_ies_lem e v in
    let (interval, capability, memory) = build_ies_fields e in
    let (whole, total) =
      beacon_body_lem (build_ies e) (encode (elements e)) (memory ∙ v.beacon_memory) bytes offset
        small in
    let fields = ap₂ fixed_fields interval capability in
    let back : (build_beacon_body (build_ies e)).beacon_length - 12 ≡ length (encode (elements e)) =
      omega (arith, total) in
    (
      whole ∙ ap (λ f. f ++ encode (elements e)) fields,
      omega (arith, total, small),
      rw (whole, back) (ie_find-encode (elements e) id),
    )

-- The buffer holds all of the beacon.
pub beacon-IsSized : (e : FakeBss) → IsBss e → IsSized (build_beacon_body (build_ies e))
beacon-IsSized e v =
    let b = build_beacon_body (build_ies e) in
    let (bytes, offset, small) = build_ies_lem e v in
    let (interval, capability, memory) = build_ies_fields e in
    let fixed : List ℕ =
      fixed_fields (build_ies e).beacon_interval_tu (build_ies e).capability_info in
    let (whole, total) =
      beacon_body_lem (build_ies e) (encode (elements e)) (memory ∙ v.beacon_memory) bytes offset
        small in
    omega (
      arith,
      total,
      ap length whole,
      length-append fixed (encode (elements e)),
      length-take b.beacon_length b.beacon_buffer,
    )
