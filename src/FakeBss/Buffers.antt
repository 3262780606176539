-- ===== src/FakeBss/Buffers.antt =====
-- chip_fake_bss.cpp: the buffers of the fake networks, and what a buffer holds after appending elements.
use Prim.Native.Nat.add
use wificx_skeleton.Prelude.{
  ℕ, zero, suc, ◌+◌, ◌-◌, ◌≤◌, ◌≡◌, ap, ◌∙◌, Bool, List, [], ◌∷◌, ◌++◌, if◌then◌else◌, length, drop,
  take, take_all, length-append, length-take, length-drop, copy_memory, length-copy_memory, arith,
}
use wificx_skeleton.Frame.{freq_to_channel}
use wificx_skeleton.Frame.Elements.{ie_append_fits, Element, take-append}
use wificx_skeleton.FakeBss.{FakeBss, rates, rsn, write_at, append_at}

-- The elements of a network, in the order of the source, without or with the RSN element.
abbrev pub elements_with : FakeBss → Bool → List Element
elements_with e protected =
    record { id = 0; payload = take e.ssid_length e.ssid }
    ∷ record { id = 1; payload = rates }
    ∷ record { id = 3; payload = freq_to_channel e.frequency_mhz ∷ [] }
    ∷ (if protected then record { id = 48; payload = rsn } ∷ [] else [])

abbrev pub elements : FakeBss → List Element
elements e = elements_with e e.use_rsn

-- The table's buffers and the 802.11 bound on an SSID.
pub record IsBss (e : FakeBss) : Type 0 where
  pub ssid_bound : e.ssid_length ≤ 32
  pub ssid_memory : length e.ssid ≡ 32
  pub ie_memory : length e.ie_buffer ≡ 128
  pub beacon_memory : length e.beacon_buffer ≡ 140

-- An SSID of at most 32 bytes in a buffer of 32.
pub record HasSsid (e : FakeBss) : Type 0 where
  pub bound : e.ssid_length ≤ 32
  pub buffer : length e.ssid ≡ 32

-- The table's promise on the buffer of a network's beacon.
abbrev pub IsSized : FakeBss → Type 0
IsSized e = e.beacon_length ≤ length e.beacon_buffer

-- A buffer of `size` bytes, filled with `bytes` up to the offset.
pub record Holds (size : ℕ) (s : List ℕ × ℕ) (bytes : List ℕ) : Type 0 where
  pub filled : take s.1 s.0 ≡ bytes
  pub offset : s.1 ≡ length bytes
  pub memory : length s.0 ≡ size

pub length-write_at :
    (buf : List ℕ) (off : ℕ) (bytes : List ℕ)
    → off + length bytes ≤ length buf
    → length (write_at buf off bytes) ≡ length buf
length-write_at buf off bytes h = omega (
  arith,
  length-append (take off buf) (copy_memory (drop off buf) bytes (length bytes)),
  length-copy_memory (length bytes) (drop off buf) bytes,
  length-take off buf,
  length-drop off buf,
)

pub take-write_at :
    (buf : List ℕ) (off : ℕ) (bytes : List ℕ)
    → off ≤ length buf
    → take (off + length bytes) (write_at buf off bytes) ≡ take off buf ++ bytes
take-write_at buf zero bytes h =
    rw (add.zero (length bytes), take_all bytes) (take-append bytes (drop (length bytes) buf))
take-write_at [] (suc off) bytes h = absurd (omega arith)
take-write_at (b ∷ buf) (suc off) bytes h =
    rw (add.suc off (length bytes)) (ap (λ l. b ∷ l) (take-write_at buf off bytes (omega arith)))

pub append_at-Holds :
    (size : ℕ) (s : List ℕ × ℕ) (bytes : List ℕ) (id : ℕ) (payload : List ℕ) (len : ℕ)
    → Holds size s bytes
    → length bytes + 2 + len ≤ size
    → len ≤ length payload
    → Holds size (append_at size s id payload len) (bytes ++ (id ∷ len ∷ take len payload))
unfolding append_at
append_at-Holds size (buf, off) bytes id payload len v h k =
    let new : List ℕ = id ∷ len ∷ take len payload in
    let size_new : length new ≡ 2 + len = omega (arith, length-take len payload) in
    rw (ie_append_fits (drop off buf) (size - off) id payload len (omega (arith, v.offset)))
      (record {
        filled =
            take-write_at buf off new (omega (arith, v.offset, v.memory))
            ∙ ap (λ l. l ++ new) v.filled;
        offset = omega (arith, v.offset, length-append bytes new);
        memory = length-write_at buf off new (omega (arith, v.offset, v.memory)) ∙ v.memory;
      })

-- The bytes of an element whose payload is cut at a length.
abbrev pub cut : ℕ → List ℕ → ℕ → List ℕ
cut id payload len = id ∷ len ∷ take len payload

abbrev pub after_ds : FakeBss → List ℕ × ℕ
after_ds e =
    append_at 128 (append_at 128 (append_at 128 (e.ie_buffer, 0) 0 e.ssid e.ssid_length) 1 rates 8)
      3 (freq_to_channel e.frequency_mhz ∷ []) 1

abbrev pub common : FakeBss → List ℕ
common e =
    (cut 0 e.ssid e.ssid_length ++ cut 1 rates 8) ++ cut 3 (freq_to_channel e.frequency_mhz ∷ []) 1

pub length-cut :
    (id : ℕ) (payload : List ℕ) (len : ℕ)
    → len ≤ length payload
    → length (cut id payload len) ≡ 2 + len
length-cut id payload len h = omega (arith, length-take len payload)
