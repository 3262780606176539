-- ===== src/Mmpdu/Shape.antt =====
-- The strip and the check of wdi_mmpdu.cpp against the shape of management frames.
use wificx_skeleton.Prelude.{
  ℕ, ◌*◌, ◌/◌, ◌%◌, ◌≤◌, ◌<◌, ◌≡◌, ◌⊎◌, ◌↔◌, refl, true, false, List, [], ◌∷◌, ◌++◌, some, none,
  arith, length, length-append, get_or, drop,
}
use wificx_skeleton.Platform.{success, buffer_too_small}
use wificx_skeleton.Mmpdu.{strip_header, is_mgmt_fc0, assert_is_body}

drop-append_self {ℓ} : {A : Type ℓ} (xs ys : List A) → drop (length xs) (xs ++ ys) ≡ ys
drop-append_self [] ys = refl
drop-append_self (x ∷ xs) ys = drop-append_self xs ys

-- A frame is a header of 24 bytes and a body: the strip succeeds, and what it returns is the body and
-- its length. A frame shorter than 24 bytes is refused, with no body.
pub strip_header_lem :
    (header body short : List ℕ)
    → length header ≡ 24
    → length short < 24
    → (strip_header (some (header ++ body)) (length (header ++ body))
        ≡ (success, some body, length body))
      × (strip_header (some short) (length short) ≡ (buffer_too_small, none, 0))
unfolding strip_header
strip_header_lem header body short h k =
    let e : drop 24 (header ++ body) ≡ body = rw h at (drop-append_self header body) in
    (ground (arith, length-append header body, e), ground arith)

-- The types of management frame that the check knows, by their number in the frame control field:
-- association and reassociation request and response (0 to 3), probe request and response (4, 5),
-- beacon (8), disassociation (10), authentication (11), deauthentication (12).
abbrev pub IsKnownSubtype : ℕ → Type 0
IsKnownSubtype t = (t ≤ 5) ⊎ (t ≡ 8) ⊎ ((10 ≤ t) × (t ≤ 12))

mgmt_subtype : (b : ℕ) → is_mgmt_fc0 b ≡ true → (b % 16 ≡ 0) × IsKnownSubtype (b / 16)
mgmt_subtype b h = ground arith

mgmt_fc0 : (t : ℕ) → IsKnownSubtype t → is_mgmt_fc0 (16 * t) ≡ true
mgmt_fc0 t k = ground arith

-- A buffer is refused exactly if it has 24 bytes or more and its first byte is the frame control byte
-- (subtype times 16) of a management frame of a known subtype.
assert_is_body_lem :
    (buf : List ℕ) (len : ℕ)
    → (assert_is_body (some buf) len ≡ false)
      ↔ ((t : ℕ) × (24 ≤ len) × IsKnownSubtype t × (get_or buf 0 0 ≡ 16 * t))
unfolding assert_is_body
assert_is_body_lem buf len = (
  (λ h.
      let m = mgmt_subtype (get_or buf 0 0) (ground arith) in
      (get_or buf 0 0 / 16, ground arith, m.1, omega arith)),
  (λ h. let m = mgmt_fc0 h.0 h.2 in ground arith),
)

pub assert_is_body_of_odd :
    (buf : List ℕ) (len : ℕ) → get_or buf 0 0 % 2 ≡ 1 → assert_is_body (some buf) len ≡ true
unfolding assert_is_body
assert_is_body_of_odd buf len h = ground arith

-- A body that starts with a capability field whose ESS bit is set (an association request or response
-- of a network with an access point) passes the check, whatever its length.
pub assert_is_body_of_ess :
    (capability : ℕ) (rest : List ℕ) (len : ℕ)
    → capability % 2 ≡ 1
    → assert_is_body (some (capability % 256 ∷ rest)) len ≡ true
unfolding assert_is_body
assert_is_body_of_ess capability rest len h = ground arith
