-- ===== src/ScanCache/Invariant.antt =====
-- The invariant of the scan cache, and that every operation keeps it.
use wificx_skeleton.Prelude.{
  ℕ, ◌≤◌, ◌<◌, ◌≡◌, refl, ◌∙◌, inl, inr, Bool, none, some, ltb, Bool-cases, arith, Option-cases,
  length, get_or, length-set, length-copy_memory, All, All-set, All-get_or, All-replicate,
  length-replicate,
}
use native.Mathlib.Decide.{dec_lt}
use wificx_skeleton.Platform.{success}
use wificx_skeleton.Frame.{Mac}
use wificx_skeleton.ScanCache.{
  Entry, ScanCache, Result, zero_entry, create, empty_cache, clear, find_by_bssid, copy_len, fill,
  fill_at, take_slot, insert, snapshot,
}
use wificx_skeleton.ScanCache.Lookup.{
  lookup, contents, IsResult, insert_known, insert_full, insert_new, fresh_entry,
}

-- The buffer of an entry holds 256 bytes, and no more of them count.
pub record IsEntry (e : Entry) : Type 0 where
  pub buffer : length e.beacon ≡ 256
  pub bounded : e.beacon_length ≤ 256

-- The counters fit the memory, and every entry in it, used or not, is sound.
pub record IsValid (c : ScanCache) : Type 0 where
  pub in_use : c.count ≤ c.max_entries
  pub memory : length c.entries ≡ c.max_entries
  pub limit : (1 ≤ c.max_entries) × (c.max_entries ≤ 4096)
  pub sound : All IsEntry c.entries

zero_entry-IsEntry : IsEntry zero_entry
unfolding zero_entry
zero_entry-IsEntry = omega arith

empty_cache-IsValid : (max : ℕ) → 1 ≤ max → max ≤ 4096 → IsValid (empty_cache max)
empty_cache-IsValid max lo hi = record {
  in_use = omega arith;
  memory = length-replicate max zero_entry;
  limit = (lo, hi);
  sound = All-replicate IsEntry max zero_entry zero_entry-IsEntry;
}

create-some :
    (max : ℕ) (allocated : Bool) {c : ScanCache}
    → create max allocated ≡ (success, some c)
    → (1 ≤ max) × (max ≤ 4096) × (c ≡ empty_cache max)
unfolding create
create-some max allocated e = ground arith

-- A cache that WdiScanCacheCreate hands out is sound, empty and of the size that was asked for.
pub create-IsValid :
    (max : ℕ) (allocated : Bool) {c : ScanCache}
    → create max allocated ≡ (success, some c)
    → IsValid c × (c.count ≡ 0) × (c.max_entries ≡ max)
create-IsValid max allocated e =
    let (lo, hi, same) = create-some max allocated e in
    rw same (empty_cache-IsValid max lo hi, refl, refl)

pub clear-IsValid : (c : ScanCache) → IsValid c → IsValid (clear c)
unfolding clear
clear-IsValid c v = record {
  in_use = omega arith;
  memory = v.memory;
  limit = v.limit;
  sound = v.sound;
}

fill-IsEntry : (e : Entry) (r : Result) → IsEntry e → IsResult r → IsEntry (fill e r)
unfolding fill copy_len
fill-IsEntry e r v h = record {
  buffer = ground (arith, length-copy_memory (copy_len r.beacon_len) e.beacon r.beacon);
  bounded = ground arith;
}

fill_at-IsValid :
    (c : ScanCache) (idx : ℕ) (r : Result) → IsValid c → IsResult r → IsValid (fill_at c idx r)
unfolding fill_at
fill_at-IsValid c idx r v h = record {
  in_use = v.in_use;
  memory = length-set c.entries idx (fill (get_or c.entries idx zero_entry) r) ∙ v.memory;
  limit = v.limit;
  sound =
      All-set IsEntry c.entries idx (fill (get_or c.entries idx zero_entry) r)
        (fill-IsEntry (get_or c.entries idx zero_entry) r
          (All-get_or IsEntry c.entries idx zero_entry zero_entry-IsEntry v.sound) h)
        v.sound;
}

take_slot-IsValid :
    (c : ScanCache) (b : Mac) → c.count < c.max_entries → IsValid c → IsValid (take_slot c b)
unfolding take_slot
take_slot-IsValid c b h v = record {
  in_use = omega arith;
  memory = length-set c.entries c.count (fresh_entry c b) ∙ v.memory;
  limit = v.limit;
  sound = All-set IsEntry c.entries c.count (fresh_entry c b) slot v.sound;
}
  where
    old : IsEntry (get_or c.entries c.count zero_entry)
    old = All-get_or IsEntry c.entries c.count zero_entry zero_entry-IsEntry v.sound

    slot : IsEntry (fresh_entry c b)
    slot = record { buffer = old.buffer; bounded = old.bounded }

-- Every insertion of a beacon with all its bytes keeps the invariant: the count within the table,
-- and of each beacon at most the 256 bytes of its buffer.
pub insert-IsValid : (c : ScanCache) (r : Result) → IsValid c → IsResult r → IsValid (insert c r).1
insert-IsValid c r v h = elim (Option-cases (find_by_bssid c r.bssid)) [
  | inl e ↦ elim (dec_lt c.count c.max_entries) [
    | yes free ↦
        rw (insert_new c r e free)
          (fill_at-IsValid (take_slot c r.bssid) c.count r (take_slot-IsValid c r.bssid free v) h)
    | no full ↦ rw (insert_full c r e (omega arith)) v
  ]
  | inr (idx, e) ↦ rw (insert_known c r idx e) (fill_at-IsValid c idx r v h)
]

pub max-insert : (c : ScanCache) (r : Result) → (insert c r).1.max_entries ≡ c.max_entries
unfolding insert find_by_bssid fill_at take_slot
max-insert c r = ground arith

-- A cleared cache knows no BSSID.
pub clear_lem :
    (c : ScanCache) (key : Mac)
    → ((clear c).count ≡ 0)
      × ((clear c).max_entries ≡ c.max_entries)
      × (lookup (contents (clear c)) key ≡ none)
unfolding clear
clear_lem c key = (refl, refl, refl)

-- A snapshot of a cache with no more entries than asked for is all of its contents.
pub snapshot_lem :
    (c : ScanCache) (max : ℕ) → c.count ≤ max → snapshot c max ≡ (c.count, contents c)
unfolding snapshot
snapshot_lem c max h = elim (Bool-cases (ltb c.count max)) [
  | inl p ↦ rw p refl
  | inr p ↦ let same : c.count ≡ max = ground arith in rw (p, ← same) refl
]
