-- ===== src/FakeAssoc/Bodies.antt =====
-- The bodies that the fake chip hands to WdiEmitAssociationResult keep the contract of wdi_mmpdu.h.
use Prim.Native.Nat.add
use mathlib.Core.List.{append_assoc, append-nil}
use wificx_skeleton.Prelude.{
  Option, none, All, Bool-cases, inl, inr, get_or, get_or-take, bit_and, subst, length-take, ◌/◌,
  ◌^◌, ℕ, ◌%◌, ◌≤◌, ◌<◌, ◌≡◌, refl, sym, ap, ◌∙◌, Bool, true, false, List, [], ◌∷◌, ◌++◌, some,
  if◌then◌else◌, length, take, arith, length-append,
}
use wificx_skeleton.Frame.{Mac, mac_equal, freq_to_channel}
use wificx_skeleton.Frame.Elements.{Element, encode}
use wificx_skeleton.Mmpdu.{assert_is_body}
use wificx_skeleton.Mmpdu.Shape.{assert_is_body_of_odd}
use wificx_skeleton.FakeBss.{FakeBss, rates, write_at, append_at}
use wificx_skeleton.FakeBss.Buffers.{
  HasSsid, Holds, length-write_at, take-write_at, append_at-Holds, cut, length-cut, elements_with,
}
use wificx_skeleton.FakeAssoc.{capability, build_req_body, build_resp_body, find_bss}

-- A buffer that starts with the fixed fields.
fixed-Holds :
    (buf fixed : List ℕ) (off : ℕ)
    → off ≡ length fixed
    → length buf ≡ 128
    → off ≤ 128
    → Holds 128 (write_at buf 0 fixed, off) fixed
fixed-Holds buf fixed off e m h = record {
  filled = rw e (
      ap (λ n. take n (write_at buf 0 fixed)) (sym (add.zero (length fixed)))
      ∙ take-write_at buf 0 fixed (omega arith));
  offset = e;
  memory = length-write_at buf 0 fixed (omega (arith, e)) ∙ m;
}

-- The elements of a request: SSID, rates and channel.
abbrev pub req_elements : FakeBss → List Element
req_elements e = elements_with e false

-- The elements of a response: rates and channel.
abbrev pub resp_elements : FakeBss → List Element
resp_elements e =
    record { id = 1; payload = rates }
    ∷ record { id = 3; payload = freq_to_channel e.frequency_mhz ∷ [] }
    ∷ []

abbrev cap_low : Bool → ℕ
cap_low protected = if protected then 0x11 else 0x01

-- The fixed fields of the two bodies: the capability (ESS, and privacy for a protected network), the
-- listen interval 10, or the status 0 and the association id with its two top bits set.
abbrev pub req_fixed : FakeBss → List ℕ
req_fixed e = cap_low e.use_rsn ∷ 0 ∷ 10 ∷ 0 ∷ []

abbrev pub resp_fixed : FakeBss → List ℕ
resp_fixed e = cap_low e.use_rsn ∷ 0 ∷ 0 ∷ 0 ∷ 1 ∷ 0xc0 ∷ []

capability_bytes :
    (protected : Bool)
    → (bit_and (capability protected) 0xff ≡ cap_low protected)
      × (capability protected / 2 ^ 8 % 256 ≡ 0)
unfolding capability
capability_bytes true = (refl, refl)
capability_bytes false = (refl, refl)

resp_body-Holds :
    (buf : List ℕ) (e : FakeBss)
    → length buf ≡ 128
    → Holds 128 (build_resp_body buf 128 e 1) (resp_fixed e ++ encode (resp_elements e))
unfolding build_resp_body
resp_body-Holds buf e m =
    let (low, high) = capability_bytes e.use_rsn in
    rw (low, high)
      (append_at-Holds 128 (append_at 128 (write_at buf 0 (resp_fixed e), 6) 1 rates 8)
        (resp_fixed e ++ cut 1 rates 8) 3 (freq_to_channel e.frequency_mhz ∷ []) 1
        (append_at-Holds 128 (write_at buf 0 (resp_fixed e), 6) (resp_fixed e) 1 rates 8
          (fixed-Holds buf (resp_fixed e) 6 refl m (omega arith)) (omega arith) (omega arith))
        (omega arith) (omega arith))

req_bytes :
    (e : FakeBss)
    → length (take e.ssid_length e.ssid) ≡ e.ssid_length
    → ((req_fixed e ++ cut 0 e.ssid e.ssid_length) ++ cut 1 rates 8)
        ++ cut 3 (freq_to_channel e.frequency_mhz ∷ []) 1
      ≡ req_fixed e ++ encode (req_elements e)
req_bytes e h = rw h (simp (append_assoc, append-nil))

cap_low-odd : (protected : Bool) → cap_low protected % 2 ≡ 1
cap_low-odd true = refl
cap_low-odd false = refl

req_body-Holds :
    (buf : List ℕ) (e : FakeBss)
    → HasSsid e
    → length buf ≡ 128
    → Holds 128 (build_req_body buf 128 e) (req_fixed e ++ encode (req_elements e))
unfolding build_req_body
req_body-Holds buf e v m =
    let (low, high) = capability_bytes e.use_rsn in
    let fits : e.ssid_length ≤ length e.ssid = omega (arith, v.bound, v.buffer) in
    let start : List ℕ × ℕ = (write_at buf 0 (req_fixed e), 4) in
    let s1 : List ℕ × ℕ = append_at 128 start 0 e.ssid e.ssid_length in
    let s2 : List ℕ × ℕ = append_at 128 s1 1 rates 8 in
    let ssid : List ℕ = cut 0 e.ssid e.ssid_length in
    rw (low, high)
      (subst (Holds 128 (append_at 128 s2 3 (freq_to_channel e.frequency_mhz ∷ []) 1))
        (req_bytes e (omega (arith, length-take e.ssid_length e.ssid)))
        (append_at-Holds 128 s2 ((req_fixed e ++ ssid) ++ cut 1 rates 8) 3
          (freq_to_channel e.frequency_mhz ∷ []) 1
          (append_at-Holds 128 s1 (req_fixed e ++ ssid) 1 rates 8
            (append_at-Holds 128 start (req_fixed e) 0 e.ssid e.ssid_length
              (fixed-Holds buf (req_fixed e) 4 refl m (omega arith)) (omega (arith, v.bound)) fits)
            (omega (arith, v.bound, length-cut 0 e.ssid e.ssid_length fits)) (omega arith))
          (omega (
            arith,
            v.bound,
            length-cut 0 e.ssid e.ssid_length fits,
            length-append (req_fixed e ++ ssid) (cut 1 rates 8),
          ))
          (omega arith)))

assert_is_body-Holds :
    (s : List ℕ × ℕ) (low : ℕ) (rest : List ℕ)
    → Holds 128 s (low ∷ rest)
    → low % 2 ≡ 1
    → assert_is_body (some s.0) s.1 ≡ true
assert_is_body-Holds (buf, off) low rest v h =
    let first : get_or buf 0 0 ≡ low =
      sym (get_or-take buf off 0 0 (omega (arith, v.offset))) ∙ ap (λ l. get_or l 0 0) v.filled in
    assert_is_body_of_odd buf off (omega (arith, first))

-- In buffers of 128 bytes, and of any network with an SSID of at most 32 bytes in a buffer of 32, the
-- two bodies start with the fixed fields and carry the elements of a request (SSID,
-- rates, channel) and of a response (rates and channel; no SSID, although the comment over the
-- builders names it for both), whole; both are longer than 0, and both pass
-- the check that they are no unstripped frames.
pub build_body_lem :
    (req resp : List ℕ) (e : FakeBss)
    → HasSsid e
    → length req ≡ 128
    → length resp ≡ 128
    → let (req', req_len) = build_req_body req 128 e in
      let (resp', resp_len) = build_resp_body resp 128 e 1 in
      (take req_len req' ≡ req_fixed e ++ encode (req_elements e))
      × (take resp_len resp' ≡ resp_fixed e ++ encode (resp_elements e))
      × (0 < req_len)
      × (0 < resp_len)
      × (assert_is_body (some req') req_len ≡ true)
      × (assert_is_body (some resp') resp_len ≡ true)
build_body_lem req resp e v m n =
    let a = req_body-Holds req e v m in
    let b = resp_body-Holds resp e n in
    (
      a.filled,
      b.filled,
      omega (arith, a.offset),
      omega (arith, b.offset),
      assert_is_body-Holds (build_req_body req 128 e) (cap_low e.use_rsn) _ a
          (cap_low-odd e.use_rsn),
      assert_is_body-Holds (build_resp_body resp 128 e 1) (cap_low e.use_rsn) _ b
          (cap_low-odd e.use_rsn),
    )

-- What the search in a table finds has its SSID in its buffer.
abbrev pub IsFound : Option FakeBss → Type 0
IsFound none = Unit {0}
IsFound (some e) = HasSsid e

pub find_bss-IsFound : (es : List FakeBss) (key : Mac) → All HasSsid es → IsFound (find_bss es key)
unfolding find_bss
find_bss-IsFound [] key h = tt
find_bss-IsFound (e ∷ es) key h = elim (Bool-cases (mac_equal e.bssid key)) [
  | inl p ↦ rw p h.0
  | inr p ↦ rw p (find_bss-IsFound es key h.1)
]
