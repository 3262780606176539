-- ===== src/FakeKeys/Lookup.antt =====
-- The fake chip's key table as a map from (peer, key index, key type) to keys.
use Prim.Native.Nat.add
use wificx_skeleton.Prelude.{
  ℕ, zero, suc, ◌+◌, ◌≤◌, ◌≡◌, ◌≢◌, ◌⊎◌, refl, ap, inl, inr, Bool, true, ◌&&◌, List, [], ◌∷◌,
  Option, none, some, ◌==◌, if◌then◌else◌, Option-cases, get_or, set, length, take,
  take-copy_memory, arith,
}
use wificx_skeleton.Platform.{success, insufficient_resources}
use wificx_skeleton.Frame.{mac_equal, mac_equal_iff}
use wificx_skeleton.Keys.{KeyDescriptor}
use wificx_skeleton.FakeKeys.{
  FakeKey, zero_key_entry, same_slot, note_free, search_slot, write_key, write_at_index,
  choose_slot, program_key,
}

-- What is programmed under a name: the cipher and the key bytes.
abbrev pub Programmed : Type 0
Programmed = ℕ × List ℕ

abbrev pub view : FakeKey → Programmed
view e = (e.cipher, take e.key_length e.key)

-- The first entry in use with the name of the key `k`.
abbrev pub lookup : List FakeKey → KeyDescriptor → Option Programmed
lookup [] k = none
lookup (e ∷ es) k = if e.in_use && same_slot e k then some (view e) else lookup es k

-- Two descriptors name the same slot.
unfoldable pub same_name : KeyDescriptor → KeyDescriptor → Bool
same_name j k =
    j.key_index == k.key_index
    && j.key_type == k.key_type
    && mac_equal j.peer_address k.peer_address

-- The bytes of a descriptor as WdiKeyFromContainer leaves them.
abbrev pub IsKey : KeyDescriptor → Type 0
IsKey k = k.key_length ≤ length k.key

view-write_key :
    (e : FakeKey) (k : KeyDescriptor)
    → IsKey k
    → view (write_key e k) ≡ (k.cipher, take k.key_length k.key)
unfolding write_key
view-write_key e k h =
    ap (λ (l : List ℕ). (k.cipher, l)) (take-copy_memory k.key_length e.key k.key h)

-- The entry that is written is in use, under the name of the key.
write_key-same :
    (e : FakeKey) (k q : KeyDescriptor)
    → ((write_key e k).in_use ≡ true) × (same_slot (write_key e k) q ≡ same_name k q)
unfolding write_key same_slot same_name
write_key-same e k q = (refl, refl)

-- A slot that has the name of `k` answers to the same names as `k`.
same_slot_trans :
    (e : FakeKey) (k q : KeyDescriptor) → same_slot e k ≡ true → same_slot e q ≡ same_name k q
unfolding same_slot same_name
same_slot_trans e k q h = ground (arith, mac_equal_iff e.peer_address k.peer_address)

same_slot-back :
    (e : FakeKey) (k q : KeyDescriptor)
    → same_slot e q ≡ true
    → same_name k q ≡ true
    → same_slot e k ≡ true
unfolding same_slot same_name
same_slot-back e k q h n = ground (
  arith,
  mac_equal_iff e.peer_address q.peer_address,
  mac_equal_iff k.peer_address q.peer_address,
  mac_equal_iff e.peer_address k.peer_address,
)

target-le :
    (es : List FakeKey) (i m : ℕ) (free : Option ℕ) (k : KeyDescriptor)
    → (search_slot es i free k).0 ≡ some m
    → i ≤ m
unfolding search_slot
target-le [] i m free k e = cc
target-le (x ∷ es) i m free k e =
    ground (arith, target-le es (i + 1) m (if x.in_use then free else note_free free i) k)

-- Where the search finds the name, a write to that slot changes the map there alone.
search_target :
    (es : List FakeKey) (i j : ℕ) (free : Option ℕ) (k q : KeyDescriptor) (new : FakeKey)
    → (search_slot es i free k).0 ≡ some (i + j)
    → new.in_use ≡ true
    → same_slot new q ≡ same_name k q
    → lookup (set es j new) q ≡ (if same_name k q then some (view new) else lookup es q)
unfolding search_slot
search_target [] i j free k q new e u n = cc
search_target (x ∷ es) i zero free k q new e u n = ground (
  arith,
  target-le es (i + 1) (i + 0) (if x.in_use then free else note_free free i) k,
  same_slot_trans x k q,
)
search_target (x ∷ es) i (suc j) free k q new e u n = ground (
  arith,
  search_target es (i + 1) j (if x.in_use then free else note_free free i) k q new,
  same_slot-back x k q,
)

-- The first free slot that was noted is kept.
free_kept :
    (es : List FakeKey) (i f : ℕ) (k : KeyDescriptor) → (search_slot es i (some f) k).1 ≡ some f
unfolding search_slot
free_kept [] i f k = refl
free_kept (x ∷ es) i f k = ground (arith, free_kept es (i + 1) f k)

free-le :
    (es : List FakeKey) (i m : ℕ) (k : KeyDescriptor) → (search_slot es i none k).1 ≡ some m → i ≤ m
unfolding search_slot
free-le [] i m k e = cc
free-le (x ∷ es) i m k e = ground (arith, free-le es (i + 1) m k, free_kept es (i + 1) i k)

-- Where the name is new, a write to the first free slot adds it to the map.
search_free :
    (es : List FakeKey) (i j : ℕ) (k q : KeyDescriptor) (new : FakeKey)
    → (search_slot es i none k).0 ≡ none
    → (search_slot es i none k).1 ≡ some (i + j)
    → new.in_use ≡ true
    → same_slot new q ≡ same_name k q
    → lookup (set es j new) q ≡ (if same_name k q then some (view new) else lookup es q)
unfolding search_slot
search_free [] i j k q new e f u n = cc
search_free (x ∷ es) i zero k q new e f u n = ground (arith, free-le es (i + 1) (i + 0) k)
search_free (x ∷ es) i (suc j) k q new e f u n =
    ground (arith, search_free es (i + 1) j k q new, free_kept es (i + 1) i k, same_slot-back x k q)

abbrev pub IsFull : List FakeKey → Type 0
IsFull [] = Unit {0}
IsFull (e ∷ es) = (e.in_use ≡ true) × IsFull es

same_name_refl : (k : KeyDescriptor) → same_name k k ≡ true
unfolding same_name
same_name_refl k = ground (arith, mac_equal_iff k.peer_address k.peer_address)

full_search :
    (es : List FakeKey) (i : ℕ) (k : KeyDescriptor)
    → IsFull es
    → lookup es k ≡ none
    → search_slot es i none k ≡ (none, none)
unfolding search_slot
full_search [] i k full e = refl
full_search (x ∷ es) i k full e = ground (arith, full_search es (i + 1) k)

choose_slot-cases :
    (p : Option ℕ × Option ℕ) {i : ℕ}
    → choose_slot p ≡ some i
    → (p.0 ≡ some i) ⊎ ((p.0 ≡ none) × (p.1 ≡ some i))
unfolding choose_slot
choose_slot-cases (some t, free) e = inl e
choose_slot-cases (none, free) e = inr (refl, e)

written :
    (es : List FakeKey) (k q : KeyDescriptor) (i : ℕ)
    → IsKey k
    → choose_slot (search_slot es 0 none k) ≡ some i
    → lookup (write_at_index es i k) q
      ≡ (if same_name k q then some (k.cipher, take k.key_length k.key) else lookup es q)
written es k q i h e =
    let (used, name) = write_key-same (get_or es i zero_key_entry) k q in
    let new : FakeKey = write_key (get_or es i zero_key_entry) k in
    rw (← view-write_key (get_or es i zero_key_entry) k h)
      (elim (choose_slot-cases (search_slot es 0 none k) e) [
        | inl t ↦ search_target es 0 i none k q new (rw (add.zero i) t) used name
        | inr (t, f) ↦ search_free es 0 i k q new t (rw (add.zero i) f) used name
      ])

program_key_some :
    (es : List FakeKey) (k : KeyDescriptor) (i : ℕ)
    → choose_slot (search_slot es 0 none k) ≡ some i
    → program_key es k ≡ (success, write_at_index es i k)
unfolding program_key
program_key_some es k i e = rw (e, program_key)

program_key_none :
    (es : List FakeKey) (k : KeyDescriptor)
    → choose_slot (search_slot es 0 none k) ≡ none
    → (program_key es k).0 ≢ success
unfolding program_key
program_key_none es k e ok = ground (arith, e)

-- A key with all its bytes in its buffer that is programmed with success is then found under its
-- name, with its cipher and all its bytes, and every other name finds what it found before.
pub lookup-program_key :
    (es : List FakeKey) (k q : KeyDescriptor)
    → IsKey k
    → (program_key es k).0 ≡ success
    → lookup (program_key es k).1 q
      ≡ (if same_name k q then some (k.cipher, take k.key_length k.key) else lookup es q)
lookup-program_key es k q h ok = elim (Option-cases (choose_slot (search_slot es 0 none k))) [
  | inl e ↦ absurd (program_key_none es k e ok)
  | inr (i, e) ↦ rw (program_key_some es k i e) (written es k q i h e)
]

-- With every slot in use a key of a new name is refused, and the table stays as it was: no key in use
-- is overwritten.
program_key_full :
    (es : List FakeKey) (k : KeyDescriptor)
    → IsFull es
    → lookup es k ≡ none
    → program_key es k ≡ (insufficient_resources, es)
unfolding program_key
program_key_full es k full e = rw (full_search es 0 k full e, program_key)
