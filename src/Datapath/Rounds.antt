-- ===== src/Datapath/Rounds.antt =====
-- One round of the loop of EvtTxQueueCancel and EvtRxQueueCancel, and how far it still has to go.
use native.Mathlib.Nat.{mod-eq_of_lt, mod_self}
use wificx_skeleton.Prelude.{
  ℕ, ◌+◌, ◌-◌, ◌%◌, ◌<◌, ◌≡◌, ◌≢◌, refl, sym, ap, ◌∙◌, ◌⊎◌, inl, inr, true, false, Bool-cases,
  length, ltb, leb, ◌==◌, if◌then◌else◌, get_or, length-set, get_or-set_self, get_or-set_ne, arith,
  tests,
}
use wificx_skeleton.Datapath.{Packet, PacketRing, zero_packet, ignored, cancel_round}

-- How far `i` lies ahead of `b` on a ring.
pub ahead : ℕ → ℕ → ℕ → ℕ
ahead size b i = if leb b i then i - b else i + size - b

-- NetRingIncrementIndex: the next index, which wraps at the end of the ring.
abbrev pub IsIncrement : (ℕ → ℕ) → ℕ → Type 0
IsIncrement increment size = (i : ℕ) → i < size → increment i ≡ (i + 1) % size

next_cases :
    (size i : ℕ)
    → i < size
    → ((i + 1 < size) × ((i + 1) % size ≡ i + 1)) ⊎ ((i + 1 ≡ size) × ((i + 1) % size ≡ 0))
next_cases size i h = elim (Bool-cases (ltb (i + 1) size)) [
  | inl below ↦ inl (omega tests, mod-eq_of_lt (omega tests))
  | inr last ↦ let e : i + 1 ≡ size = ground arith in inr (e, ap (λ n. n % size) e ∙ mod_self size)
]

next-lt : (size i : ℕ) → i < size → (i + 1) % size < size
next-lt size i h = elim (next_cases size i h) [
  | inl a ↦ omega (arith, a.0, a.1)
  | inr a ↦ omega (arith, a.1)
]

-- One step on is one step less ahead, for every index but the start, which comes last.
ahead-next :
    (size b i : ℕ)
    → b < size
    → i < size
    → i ≢ b
    → ahead size b i ≡ ahead size ((b + 1) % size) i + 1
unfolding ahead
ahead-next size b i h k n = elim (next_cases size b h) [
  | inl a ↦ rw a.1 (let p = a.0 in ground arith)
  | inr a ↦ rw a.1 (let p = a.0 in ground arith)
]

ahead-next_self : (size b : ℕ) → b < size → ahead size ((b + 1) % size) b + 1 ≡ size
unfolding ahead
ahead-next_self size b h = elim (next_cases size b h) [
  | inl a ↦ rw a.1 (let p = a.0 in ground arith)
  | inr a ↦ rw a.1 (let p = a.0 in ground arith)
]

pub ahead-lt : (size b i : ℕ) → b < size → i < size → ahead size b i < size
unfolding ahead
ahead-lt size b i h k = ground arith

pub ahead_self : (size b : ℕ) → ahead size b b ≡ 0
unfolding ahead
ahead_self size b = ground arith

pub ahead_ne : (size b i : ℕ) → b < size → i ≢ b → 0 < ahead size b i
unfolding ahead
ahead_ne size b i h n = ground arith

-- Both indices lie on the ring of `size` packets.
pub record IsRing (size : ℕ) (pr : PacketRing) : Type 0 where
  pub begin_on : pr.begin_index < size
  pub end_on : pr.end_index < size
  pub memory : length pr.packets ≡ size

-- The packet `i` of the ring, marked if it belongs to the driver.
abbrev pub returned : ℕ → PacketRing → ℕ → Packet
returned size pr i =
    if ltb (ahead size pr.begin_index i) (ahead size pr.begin_index pr.end_index)
    then ignored (get_or pr.packets i zero_packet)
    else get_or pr.packets i zero_packet

-- What the loop should leave of the ring, seen at the index `i`.
abbrev pub IsReturned : ℕ → PacketRing → ℕ → PacketRing → Type 0
IsReturned size pr i r =
    (r.begin_index ≡ pr.end_index)
    × (r.end_index ≡ pr.end_index)
    × (length r.packets ≡ size)
    × (get_or r.packets i zero_packet ≡ returned size pr i)

module _ (increment : ℕ → ℕ) (size : ℕ) where
  pub round-IsRing :
      (pr : PacketRing)
      → IsIncrement increment size
      → IsRing size pr
      → IsRing size (cancel_round increment pr)
  round-IsRing pr inc v = record {
    begin_on = rw (inc pr.begin_index v.begin_on) (next-lt size pr.begin_index v.begin_on);
    end_on = v.end_on;
    memory = length-set pr.packets pr.begin_index _ ∙ v.memory;
  }

  pub ahead_round :
      (pr : PacketRing)
      → IsIncrement increment size
      → IsRing size pr
      → pr.begin_index ≢ pr.end_index
      → ahead size pr.begin_index pr.end_index
        ≡ ahead size (increment pr.begin_index) pr.end_index + 1
  ahead_round pr inc v n =
      rw (inc pr.begin_index v.begin_on)
        (ahead-next size pr.begin_index pr.end_index v.begin_on v.end_on (λ e. n (sym e)))

  pub returned_round :
      (pr : PacketRing) (i : ℕ)
      → IsIncrement increment size
      → IsRing size pr
      → i < size
      → pr.begin_index ≢ pr.end_index
      → returned size (cancel_round increment pr) i ≡ returned size pr i
  returned_round pr i inc v h n =
      let b = pr.begin_index in
      let b' = increment b in
      let step = ahead_round pr inc v n in
      let less = ahead-lt size b' pr.end_index (round-IsRing pr inc v).begin_on v.end_on in
      elim (Bool-cases (i == b)) [
        | inl same ↦
            let e : i ≡ b = ground arith in
            let last : ahead size b' b + 1 ≡ size =
              rw (inc b v.begin_on) (ahead-next_self size b v.begin_on) in
            let outside : ltb (ahead size b' b) (ahead size b' pr.end_index) ≡ false =
              ground (arith, last, less) in
            let inside : ltb (ahead size b b) (ahead size b pr.end_index) ≡ true =
              ground (arith, step, ahead_self size b) in
            rw (e, outside, inside)
              (get_or-set_self pr.packets b (ignored (get_or pr.packets b zero_packet)) zero_packet
                (omega (arith, v.memory, v.begin_on)))
        | inr other ↦
            let ne : i ≢ b = ground arith in
            let step' : ahead size b i ≡ ahead size b' i + 1 =
              rw (inc b v.begin_on) (ahead-next size b i v.begin_on h ne) in
            let tested : ltb (ahead size b' i) (ahead size b' pr.end_index)
                ≡ ltb (ahead size b i) (ahead size b pr.end_index) =
              ground (arith, step, step') in
            rw
              (
                tested,
                get_or-set_ne pr.packets (ignored (get_or pr.packets b zero_packet)) zero_packet
                    (λ x. ne (sym x)),
              )
              refl
      ]
