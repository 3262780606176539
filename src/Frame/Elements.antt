-- ===== src/Frame/Elements.antt =====
-- WdiIeFind over what WdiIeAppend writes, and over any buffer.
use Prim.Native.Nat.add
use mathlib.Core.Option
use mathlib.Core.List.{append_assoc, append-nil}
use native.Mathlib.Nat.{add-zero}
use wificx_skeleton.Prelude.{
  ℕ, zero, suc, ◌+◌, ◌-◌, ◌≤◌, ◌<◌, ◌≡◌, ◌≢◌, refl, sym, ◌∙◌, ap, List, [], ◌∷◌, ◌++◌, Option, none,
  some, arith, leb, ◌==◌, if◌then◌else◌, length, length-append, get_or, take, drop,
}
use wificx_skeleton.Frame.{ie_append, ie_find, ie_find_from}

-- An element: its id and its payload.
pub record Element : Type 0 where
  pub id : ℕ
  pub payload : List ℕ

-- The elements of a frame as bytes, one after the other.
abbrev pub encode : List Element → List ℕ
encode [] = []
encode (e ∷ es) = e.id ∷ length e.payload ∷ (e.payload ++ encode es)

-- The payload of the first element with the id.
abbrev pub find_element : List Element → ℕ → Option (List ℕ)
find_element [] id = none
find_element (e ∷ es) id = if e.id == id then some e.payload else find_element es id

-- The payload bytes that an offset and a length name.
abbrev pub payload_at : List ℕ → ℕ × ℕ → List ℕ
payload_at buf (off, len) = take len (drop off buf)

get_or-append : (xs ys : List ℕ) (i d : ℕ) → get_or (xs ++ ys) (length xs + i) d ≡ get_or ys i d
get_or-append [] ys i d = rw (add.zero i)
get_or-append (x ∷ xs) ys i d = rw (add.suc (length xs) i) (get_or-append xs ys i d)

pub drop-append : (xs ys : List ℕ) (n : ℕ) → drop (length xs + n) (xs ++ ys) ≡ drop n ys
drop-append [] ys n = rw (add.zero n)
drop-append (x ∷ xs) ys n = rw (add.suc (length xs) n) (drop-append xs ys n)

pub take-append : (xs ys : List ℕ) → take (length xs) (xs ++ ys) ≡ xs
take-append [] ys = refl
take-append (x ∷ xs) ys = ap (λ l. x ∷ l) (take-append xs ys)

-- What stands at the start of an element's bytes, in a buffer that has them behind `pre`.
record Starts (buf pre : List ℕ) (x : Element) (rest : List ℕ) : Type 0 where
  at_id : get_or buf (length pre) 0 ≡ x.id
  at_len : get_or buf (length pre + 1) 0 ≡ length x.payload
  payload_lem : payload_at buf (length pre + 2, length x.payload) ≡ x.payload
  size : length buf ≡ length pre + 2 + length x.payload + length rest

-- The bytes of an element.
abbrev pub bytes_of : Element → List ℕ
bytes_of x = x.id ∷ length x.payload ∷ x.payload

starts :
    (pre : List ℕ) (x : Element) (rest : List ℕ) → Starts (pre ++ (bytes_of x ++ rest)) pre x rest
starts pre x rest = record {
  at_id = rw (← add-zero (length pre)) (get_or-append pre (bytes_of x ++ rest) 0 0);
  at_len = get_or-append pre (bytes_of x ++ rest) 1 0;
  payload_lem = rw (drop-append pre (bytes_of x ++ rest) 2) (take-append x.payload rest);
  size = omega (arith, length-append pre (bytes_of x ++ rest), length-append x.payload rest);
}

-- The walk from the start of an element list finds what `find_element` finds.
ie_find_from-encode :
    (els : List Element) (fuel : ℕ) (buf pre : List ℕ) (id off : ℕ)
    → length (encode els) < fuel
    → buf ≡ pre ++ encode els
    → off ≡ length pre
    → Option.map (payload_at buf) (ie_find_from fuel buf (length buf) id off) ≡ find_element els id
unfolding ie_find_from
ie_find_from-encode els zero buf pre id off h e o = absurd (omega arith)
ie_find_from-encode [] (suc fuel) buf pre id off h e o =
    ground (arith, ap length e, length-append pre [])
ie_find_from-encode (x ∷ els) (suc fuel) buf pre id off h e o =
    let first : Starts buf pre x (encode els) = rw e (starts pre x (encode els)) in
    ground (
      arith,
      ie_find_from-encode els fuel buf (pre ++ bytes_of x) id (off + (2 + length x.payload))
          (omega (arith, length-append x.payload (encode els)))
          (e ∙ sym (append_assoc pre (bytes_of x) (encode els)))
          (omega (arith, o, length-append pre (bytes_of x))),
      first.at_id,
      first.at_len,
      first.payload_lem,
      first.size,
    )

-- Of a buffer that holds the bytes of any elements, `WdiIeFind` returns where the payload of the
-- first one with the id stands, and the null pointer where no element has the id.
pub ie_find-encode :
    (els : List Element) (id : ℕ)
    → Option.map (payload_at (encode els)) (ie_find (encode els) (length (encode els)) id)
      ≡ find_element els id
unfolding ie_find
ie_find-encode els id =
    ie_find_from-encode els (suc (length (encode els))) (encode els) [] id 0 (omega arith) refl refl

-- `WdiIeAppend` writes the bytes of the element where they fit, and nothing where they do not.
pub ie_append-encode :
    (dst : List ℕ) (remaining : ℕ) (e : Element)
    → ie_append dst remaining e.id (some e.payload) (length e.payload)
      ≡ (if leb (length (encode (e ∷ []))) remaining then encode (e ∷ []) else [])
unfolding ie_append
ie_append-encode dst remaining e =
    ground (arith, length-append e.payload [], append-nil e.payload, take-append e.payload [])

-- Whatever the buffer holds, an element that `WdiIeFind` returns has the id, its length byte stands
-- before its payload, and the payload ends within the buffer.
ie_find_from_sound :
    (fuel : ℕ) (buf : List ℕ) (n id off at len : ℕ)
    → ie_find_from fuel buf n id off ≡ some (at, len)
    → (off + 2 ≤ at) × (at + len ≤ n) × (get_or buf (at - 2) 0 ≡ id) × (get_or buf (at - 1) 0 ≡ len)
unfolding ie_find_from
ie_find_from_sound zero buf n id off at len e = cc
ie_find_from_sound (suc fuel) buf n id off at len e =
    ground (arith, ie_find_from_sound fuel buf n id (off + (2 + get_or buf (off + 1) 0)) at len)

-- Whatever bytes the buffer holds, an element that `WdiIeFind` returns has the id and lies within
-- the buffer: its id byte and its length byte stand right before the payload.
pub ie_find_sound :
    (buf : List ℕ) (n id at len : ℕ)
    → ie_find buf n id ≡ some (at, len)
    → (2 ≤ at) × (at + len ≤ n) × (get_or buf (at - 2) 0 ≡ id) × (get_or buf (at - 1) 0 ≡ len)
unfolding ie_find
ie_find_sound buf n id at len e = ie_find_from_sound (suc n) buf n id 0 at len e

ie_find_from_stable :
    (f g : ℕ) (buf : List ℕ) (n id off : ℕ)
    → n < f + off
    → n < g + off
    → ie_find_from f buf n id off ≡ ie_find_from g buf n id off
unfolding ie_find_from
ie_find_from_stable zero zero buf n id off h k = refl
ie_find_from_stable zero (suc g) buf n id off h k = ground arith
ie_find_from_stable (suc f) zero buf n id off h k = ground arith
ie_find_from_stable (suc f) (suc g) buf n id off h k =
    ground (arith, ie_find_from_stable f g buf n id (off + (2 + get_or buf (off + 1) 0)))

-- The fuel of `ie_find` is enough: with any more the walk gives the same result.
pub ie_find_fuel :
    (fuel : ℕ) (buf : List ℕ) (n id : ℕ)
    → n < fuel
    → ie_find_from fuel buf n id 0 ≡ ie_find buf n id
unfolding ie_find
ie_find_fuel fuel buf n id h =
    ie_find_from_stable fuel (suc n) buf n id 0 (omega arith) (omega arith)

-- The offsets of the elements that follow one another from an offset on, each within the buffer.
pub data Walk (buf : List ℕ) (n : ℕ) : ℕ → ℕ → Type 0 where
  here : (off : ℕ) → Walk buf n off off
  next :
      (off : ℕ) {last : ℕ}
      → off + 2 + get_or buf (off + 1) 0 ≤ n
      → Walk buf n (off + (2 + get_or buf (off + 1) 0)) last
      → Walk buf n off last

ie_find_from_complete :
    (fuel : ℕ) {buf : List ℕ} {n : ℕ} (id : ℕ) {off last : ℕ}
    → n < fuel + off
    → ie_find_from fuel buf n id off ≡ none
    → Walk buf n off last
    → last + 2 + get_or buf (last + 1) 0 ≤ n
    → get_or buf last 0 ≢ id
unfolding ie_find_from
ie_find_from_complete zero id h e (here off) fit = absurd (omega arith)
ie_find_from_complete zero id h e (next off p w) fit = absurd (omega arith)
ie_find_from_complete (suc fuel) id h e (here off) fit = ground arith
ie_find_from_complete (suc fuel) id h e (next off p w) fit =
    ie_find_from_complete fuel id (omega arith) (ground arith) w fit

-- Where `WdiIeFind` returns the null pointer, no element that the walk of the buffer meets and that
-- lies within the buffer has the id.
pub ie_find_complete :
    (buf : List ℕ) (n id : ℕ) {last : ℕ}
    → ie_find buf n id ≡ none
    → Walk buf n 0 last
    → last + 2 + get_or buf (last + 1) 0 ≤ n
    → get_or buf last 0 ≢ id
unfolding ie_find
ie_find_complete buf n id e w fit = ie_find_from_complete (suc n) id (omega arith) e w fit

-- An element that fits is written whole.
pub ie_append_fits :
    (dst : List ℕ) (remaining id : ℕ) (payload : List ℕ) (len : ℕ)
    → 2 + len ≤ remaining
    → ie_append dst remaining id (some payload) len ≡ id ∷ len ∷ take len payload
unfolding ie_append
ie_append_fits dst remaining id payload len h = ground arith
