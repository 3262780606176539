-- ===== src/ScanCache/Lookup.antt =====
-- The scan cache as a map from BSSIDs to what was last seen of them.
pub use wificx_skeleton.ScanCache.Search.{Seen, view, reported, lookup, contents, IsResult}
use wificx_skeleton.ScanCache.Search.{find_from-some, find_from_known, find_from-none}
use Prim.Native.Nat.add
use native.Mathlib.Numerals.{add-one}
use wificx_skeleton.Prelude.{
  ℕ, zero, suc, ◌+◌, ◌≤◌, ◌<◌, min, ◌≡◌, ◌⊎◌, ◌≢◌, refl, ◌∙◌, ap, inl, inr, true, List, [], ◌∷◌,
  ◌++◌, none, some, arith, ◌==◌, if◌then◌else◌, Option-cases, length, get_or, set, take,
  get_or-set_self, set-set, take-set, take-set_end, take-copy_memory, copy_memory,
}
use wificx_skeleton.Platform.{success, insufficient_resources}
use wificx_skeleton.Frame.{Mac, mac_equal, mac_equal_iff}
use wificx_skeleton.ScanCache.{
  Entry, ScanCache, Result, zero_entry, find_from, find_by_bssid, copy_len, fill, fill_at,
  take_slot, insert,
}

copy_len-min : (len : ℕ) → copy_len len ≡ min len 256
unfolding copy_len
copy_len-min len = ground arith

-- The copy of the beacon with its guard: what counts of the buffer is what was copied.
take-copied :
    (n : ℕ) (old new : List ℕ)
    → n ≤ length new
    → take n (if n == 0 then old else copy_memory old new n) ≡ take n new
take-copied zero old new h = refl
take-copied (suc n) old new h = ground (arith, take-copy_memory (suc n) old new h)

pub view-fill : (e : Entry) (r : Result) → IsResult r → view (fill e r) ≡ reported r
unfolding fill
view-fill e r h =
    rw (copy_len-min r.beacon_len)
      (rw (take-copied (min r.beacon_len 256) e.beacon r.beacon (omega arith)))

pub insert_known :
    (c : ScanCache) (r : Result) (idx : ℕ)
    → find_by_bssid c r.bssid ≡ some idx
    → insert c r ≡ (success, fill_at c idx r)
unfolding insert
insert_known c r idx e = rw (e, insert)

pub insert_full :
    (c : ScanCache) (r : Result)
    → find_by_bssid c r.bssid ≡ none
    → c.max_entries ≤ c.count
    → insert c r ≡ (insufficient_resources, c)
unfolding insert
insert_full c r e h = ground arith

pub insert_new :
    (c : ScanCache) (r : Result)
    → find_by_bssid c r.bssid ≡ none
    → c.count < c.max_entries
    → insert c r ≡ (success, fill_at (take_slot c r.bssid) c.count r)
unfolding insert
insert_new c r e h = ground arith

-- The slot that a new BSSID takes.
abbrev pub fresh_entry : ScanCache → Mac → Entry
fresh_entry c b = record (get_or c.entries c.count zero_entry) { bssid = b }

entries_new :
    (c : ScanCache) (r : Result)
    → c.count < length c.entries
    → (fill_at (take_slot c r.bssid) c.count r).entries
      ≡ set c.entries c.count (fill (fresh_entry c r.bssid) r)
unfolding fill_at take_slot
entries_new c r h =
    rw (get_or-set_self c.entries c.count (fresh_entry c r.bssid) zero_entry h)
      (set-set c.entries c.count (fresh_entry c r.bssid) (fill (fresh_entry c r.bssid) r))

pub contents_new :
    (c : ScanCache) (r : Result)
    → c.count < length c.entries
    → contents (fill_at (take_slot c r.bssid) c.count r)
      ≡ contents c ++ fill (fresh_entry c r.bssid) r ∷ []
unfolding fill_at take_slot
contents_new c r h =
    ap (take (c.count + 1)) (entries_new c r h)
    ∙ rw (add-one c.count) (take-set_end c.entries c.count (fill (fresh_entry c r.bssid) r) h)

pub bssid-fill : (e : Entry) (r : Result) → (fill e r).bssid ≡ e.bssid
unfolding fill
bssid-fill e r = refl

lookup_known :
    (c : ScanCache) (r : Result) (key : Mac) (idx : ℕ)
    → IsResult r
    → find_by_bssid c r.bssid ≡ some idx
    → lookup (contents (fill_at c idx r)) key
      ≡ (if mac_equal r.bssid key then some (reported r) else lookup (contents c) key)
unfolding fill_at find_by_bssid fill
lookup_known c r key idx h e =
    rw (take-set c.entries c.count idx (fill old r), ← view-fill old r h)
      (rw (take-set c.entries c.count idx (fill old r)) at found.2)
  where
    slot : Entry
    slot = record zero_entry { bssid = r.bssid }

    old : Entry
    old = get_or c.entries idx zero_entry

    at_idx : find_from c.entries c.count 0 r.bssid ≡ some (0 + idx)
    at_idx = rw (add.zero idx) e

    found :
        (idx < c.count)
        × (mac_equal old.bssid r.bssid ≡ true)
        × (lookup (take c.count (set c.entries idx (fill old r))) key ≡ (
            if mac_equal r.bssid key
            then some (view (fill old r))
            else lookup (take c.count c.entries) key))
    found = find_from-some c.entries c.count 0 idx r.bssid key (fill old r) at_idx (
        (mac_equal_iff old.bssid r.bssid).0
          (find_from-some c.entries c.count 0 idx r.bssid key slot at_idx refl).1)

lookup_new :
    (c : ScanCache) (r : Result) (key : Mac)
    → IsResult r
    → c.count < length c.entries
    → find_by_bssid c r.bssid ≡ none
    → lookup (contents (fill_at (take_slot c r.bssid) c.count r)) key
      ≡ (if mac_equal r.bssid key then some (reported r) else lookup (contents c) key)
unfolding find_by_bssid
lookup_new c r key h l e =
    rw (contents_new c r l, ← view-fill (fresh_entry c r.bssid) r h)
      (find_from-none c.entries c.count 0 r.bssid key (fill (fresh_entry c r.bssid) r) e
        (omega arith) (bssid-fill (fresh_entry c r.bssid) r)).1

not_found :
    (c : ScanCache) (r : Result)
    → c.count ≤ length c.entries
    → find_by_bssid c r.bssid ≡ none
    → lookup (contents c) r.bssid ≡ none
unfolding find_by_bssid
not_found c r h e =
    (find_from-none c.entries c.count 0 r.bssid r.bssid (fresh_entry c r.bssid) e h refl).0

-- In a cache whose counters fit its memory, an insertion of a beacon with all its bytes succeeds if
-- the BSSID is known or a slot is free. It then maps the BSSID to what was reported (the newest
-- report wins, the beacon cut at 256 bytes) and changes no other BSSID.
pub lookup-insert :
    (c : ScanCache) (r : Result) (key : Mac)
    → c.max_entries ≤ length c.entries
    → c.count ≤ c.max_entries
    → IsResult r
    → (lookup (contents c) r.bssid ≢ none) ⊎ (c.count < c.max_entries)
    → let (status, c') = insert c r in
      (status ≡ success)
      × (lookup (contents c') key
          ≡ (if mac_equal r.bssid key then some (reported r) else lookup (contents c) key))
lookup-insert c r key hm hc hr room = elim (Option-cases (find_by_bssid c r.bssid)) [
  | inl e ↦
      let free : c.count < c.max_entries = ground (arith, not_found c r (omega arith) e) in
      rw (insert_new c r e free) (refl, lookup_new c r key hr (omega arith) e)
  | inr (idx, e) ↦ rw (insert_known c r idx e) (refl, lookup_known c r key idx hr e)
]

-- Where the table is full, its count within its memory, and the BSSID is new, the insertion fails
-- and the cache stays as it was.
insert_drops :
    (c : ScanCache) (r : Result)
    → c.count ≤ length c.entries
    → c.max_entries ≤ c.count
    → lookup (contents c) r.bssid ≡ none
    → insert c r ≡ (insufficient_resources, c)
unfolding find_by_bssid
insert_drops c r hl hm e = elim (Option-cases (find_by_bssid c r.bssid)) [
  | inl f ↦ insert_full c r f hm
  | inr (idx, f) ↦ absurd (find_from_known c.entries c.count 0 idx r.bssid f e)
]
