-- ===== src/Frame.antt =====
-- wdi_frame.cpp and wdi_frame.h: channels and bands, the information elements (IEs) of a frame, and
-- the tests on MAC addresses. A byte is a number; `UCHAR` casts are written out as `% 256`.
pub mod Channels
pub mod Elements
pub mod Addresses
use wificx_skeleton.Prelude.{
  ℕ, zero, suc, ◌+◌, ◌-◌, ◌/◌, ◌%◌, ◌≡◌, ◌↔◌, Bool, true, not, ◌&&◌, List, [], ◌∷◌, Option, none,
  some, arith, ltb, leb, ◌==◌, if◌then◌else◌, get_or, take, drop, bit_and, bit_or,
}

pub data Band : Type 0 where
  band_2400 band_5000 : Band

unfoldable pub freq_to_channel : ℕ → ℕ
freq_to_channel freq =
    if freq == 2484
    then 14
    else if leb 2412 freq && leb freq 2472
    then (freq - 2407) / 5 % 256
    else if leb 5955 freq && leb freq 7115
    then (freq - 5950) / 5 % 256
    else if leb 5000 freq && leb freq 5895
    then (freq - 5000) / 5 % 256
    else 0

unfoldable pub freq_to_band : ℕ → Band
freq_to_band freq = if ltb freq 4000 then band_2400 else band_5000

-- What `WdiIeAppend` writes at `Dst` (its length is the count that the source returns): the two
-- header bytes and the first `len` bytes of the data, or nothing where they do not fit. With no data
-- pointer (`none`) the source leaves the payload bytes of `Dst` as they are; `dst` is what stands
-- there.
pub ie_append : List ℕ → ℕ → ℕ → Option (List ℕ) → ℕ → List ℕ
ie_append dst remaining id payload len =
    if ltb remaining (2 + len)
    then []
    else (id ∷ len ∷ elim payload [ none ↦ take len (drop 2 dst) | some bytes ↦ take len bytes ])

-- The walk of `WdiIeFind` from the offset `off`. The result is the offset and the length of the
-- payload; `none` is the null pointer. The fuel bounds the rounds.
unfoldable pub ie_find_from : ℕ → List ℕ → ℕ → ℕ → ℕ → Option (ℕ × ℕ)
ie_find_from zero buf buf_len id off = none
ie_find_from (suc fuel) buf buf_len id off =
    let ie_id = get_or buf off 0 in
    let ie_len = get_or buf (off + 1) 0 in
    let rest = ie_find_from fuel buf buf_len id (off + (2 + ie_len)) in
    if leb (off + 2) buf_len
    then if ltb buf_len (off + 2 + ie_len)
      then none
      else if ie_id == id
      then some (off + 2, ie_len)
      else rest
    else none

-- Every round moves on by two bytes at least, so `buf_len` rounds are enough.
unfoldable pub ie_find : List ℕ → ℕ → ℕ → Option (ℕ × ℕ)
unfolding ie_find_from
ie_find buf buf_len id = ie_find_from (suc buf_len) buf buf_len id 0

-- A MAC address (`UCHAR[6]`).
pub record Mac : Type 0 where
  pub b0 : ℕ
  pub b1 : ℕ
  pub b2 : ℕ
  pub b3 : ℕ
  pub b4 : ℕ
  pub b5 : ℕ

pub mac_is_zero : Mac → Bool
mac_is_zero m = bit_or (bit_or (bit_or (bit_or (bit_or m.b0 m.b1) m.b2) m.b3) m.b4) m.b5 == 0

pub mac_is_multicast : Mac → Bool
mac_is_multicast m = not (bit_and m.b0 0x01 == 0)

pub mac_is_broadcast : Mac → Bool
mac_is_broadcast m =
    m.b0 == 0xff && m.b1 == 0xff && m.b2 == 0xff && m.b3 == 0xff && m.b4 == 0xff && m.b5 == 0xff

unfoldable pub mac_equal : Mac → Mac → Bool
mac_equal a b =
    a.b0 == b.b0 && a.b1 == b.b1 && a.b2 == b.b2 && a.b3 == b.b3 && a.b4 == b.b4 && a.b5 == b.b5

pub mac_equal_iff : (a b : Mac) → (mac_equal a b ≡ true) ↔ (a ≡ b)
unfolding mac_equal
mac_equal_iff a b = ground arith
