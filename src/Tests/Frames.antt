-- ===== src/Tests/Frames.antt =====
-- Frames, elements and channels.
use mathlib.Core.Option
use wificx_skeleton.Prelude.{
  ◌+◌, ◌-◌, ◌≤◌, ◌<◌, ◌≡◌, refl, true, List, [], ◌∷◌, ◌++◌, some, replicate, length, take, drop,
  get_or, arith,
}
use wificx_skeleton.Frame.{freq_to_channel, ie_find}
use wificx_skeleton.Frame.Channels.{ch_6g, freq_to_channel-centre}
use wificx_skeleton.Frame.Elements.{Element, encode, payload_at, ie_find-encode, ie_find_sound}
use wificx_skeleton.Mmpdu.{assert_is_body}
use wificx_skeleton.FakeBss.{FakeBss, build_ies, build_beacon_body, fixed_fields}
use wificx_skeleton.FakeBss.Buffers.{elements, IsBss}
use wificx_skeleton.FakeBss.Beacons.{beacon_lem}
use wificx_skeleton.FakeAssoc.{build_req_body, build_resp_body}
use wificx_skeleton.FakeAssoc.Bodies.{
  req_fixed, resp_fixed, req_elements, resp_elements, build_body_lem,
}
use wificx_skeleton.Tests.{stack_buffer}

-- A protected network with the SSID "Hi" on channel 36.
abbrev network : FakeBss
network = record {
  bssid = record { b0 = 2; b1 = 0; b2 = 0; b3 = 0; b4 = 0; b5 = 1 };
  ssid_length = 2;
  ssid = 72 ∷ 105 ∷ replicate 30 0;
  frequency_mhz = 5180;
  rssi = 0;
  beacon_interval_tu = 100;
  capability_info = 17;
  use_rsn = true;
  ie_buffer = replicate 128 0;
  ie_length = 0;
  beacon_buffer = replicate 140 0;
  beacon_length = 0;
}

network-IsBss : IsBss network
network-IsBss = record {
  ssid_bound = omega arith;
  ssid_memory = refl;
  ie_memory = refl;
  beacon_memory = refl;
}

beacon_lem_example :
    let b = build_beacon_body (build_ies network) in
    (take b.beacon_length b.beacon_buffer ≡ fixed_fields 100 17 ++ encode (elements network))
    × (b.beacon_length ≤ 81)
    × (Option.map
          (payload_at (drop 12 (take b.beacon_length b.beacon_buffer)))
          (ie_find (drop 12 (take b.beacon_length b.beacon_buffer)) (b.beacon_length - 12) 0)
        ≡ some (72 ∷ 105 ∷ []))
beacon_lem_example = beacon_lem network 0 network-IsBss

build_body_lem_example :
    let (req, req_len) = build_req_body stack_buffer 128 network in
    let (resp, resp_len) = build_resp_body stack_buffer 128 network 1 in
    (take req_len req ≡ req_fixed network ++ encode (req_elements network))
    × (take resp_len resp ≡ resp_fixed network ++ encode (resp_elements network))
    × (0 < req_len)
    × (0 < resp_len)
    × (assert_is_body (some req) req_len ≡ true)
    × (assert_is_body (some resp) resp_len ≡ true)
build_body_lem_example =
    build_body_lem stack_buffer stack_buffer network (record { bound = omega arith; buffer = refl })
      refl refl

abbrev two_elements : List Element
two_elements =
    record { id = 0; payload = 72 ∷ 105 ∷ [] } ∷ record { id = 3; payload = 36 ∷ [] } ∷ []

ie_find-encode_example :
    Option.map
      (payload_at (encode two_elements))
      (ie_find (encode two_elements) (length (encode two_elements)) 3)
    ≡ some (36 ∷ [])
ie_find-encode_example = ie_find-encode two_elements 3

ie_find_sound_example :
    (2 ≤ 6)
    × (6 + 1 ≤ 7)
    × (get_or (encode two_elements) 4 0 ≡ 3)
    × (get_or (encode two_elements) 5 0 ≡ 1)
unfolding ie_find
ie_find_sound_example = ie_find_sound (encode two_elements) 7 3 6 1 refl

freq_to_channel-centre_example : freq_to_channel 6135 ≡ 37
freq_to_channel-centre_example = freq_to_channel-centre (ch_6g 37) (omega arith, omega arith)
