-- ===== src/Mmpdu.antt =====
-- wdi_mmpdu.cpp: from an on-air management frame to its body, and the debug check of a body.
-- A buffer is its bytes, `none` for the null pointer; its length is passed beside it, as in the source.
pub mod Shape
use wificx_skeleton.Prelude.{
  ℕ, ◌-◌, Bool, true, false, ◌||◌, List, Option, none, some, ltb, ◌==◌, if◌then◌else◌, get_or, take,
  drop,
}
use wificx_skeleton.Platform.{Status, success, buffer_too_small}

-- The status, with the body (`*OutBody`) and its length.
pub strip_header : Option (List ℕ) → ℕ → Status × Option (List ℕ) × ℕ
strip_header none len = (buffer_too_small, none, 0)
strip_header (some frame) len =
    if ltb len 24 then (buffer_too_small, none, 0) else (success, some (drop 24 frame), len - 24)

-- The first bytes that the `switch` takes for the frame control of an unstripped frame.
abbrev pub is_mgmt_fc0 : ℕ → Bool
is_mgmt_fc0 fc0 =
    fc0 == 0x00
    || fc0 == 0x10
    || fc0 == 0x20
    || fc0 == 0x30
    || fc0 == 0x40
    || fc0 == 0x50
    || fc0 == 0x80
    || fc0 == 0xa0
    || fc0 == 0xb0
    || fc0 == 0xc0

pub assert_is_body : Option (List ℕ) → ℕ → Bool
assert_is_body none len = true
assert_is_body (some buf) len =
    if len == 0
    then true
    else if ltb len 24
    then true
    else if is_mgmt_fc0 (get_or buf 0 0)
    then false
    else true
