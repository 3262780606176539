-- ===== src/ScanCache/Growth.antt =====
-- How the contents of the scan cache grow by insertions of BSSIDs that it does not know.
use wificx_skeleton.Prelude.{
  ◌+◌, ◌<◌, ◌≤◌, ◌≡◌, refl, inl, inr, [], ◌∷◌, ◌++◌, none, length, arith, Option-cases,
}
use wificx_skeleton.Platform.{success}
use wificx_skeleton.ScanCache.{ScanCache, Result, insert, fill, fill_at, take_slot, find_by_bssid}
use wificx_skeleton.ScanCache.Search.{find_from_known}
use wificx_skeleton.ScanCache.Lookup.{lookup, contents, insert_new, fresh_entry, contents_new}

unknown_not_found :
    (c : ScanCache) (r : Result)
    → lookup (contents c) r.bssid ≡ none
    → find_by_bssid c r.bssid ≡ none
unfolding find_by_bssid
unknown_not_found c r e = elim (Option-cases (find_by_bssid c r.bssid)) [
  | inl f ↦ f
  | inr (idx, f) ↦ absurd (find_from_known c.entries c.count 0 idx r.bssid f e)
]

-- With a free slot, the insertion of an unknown BSSID succeeds and appends one entry.
pub insert_grows :
    (c : ScanCache) (r : Result)
    → c.max_entries ≤ length c.entries
    → c.count < c.max_entries
    → lookup (contents c) r.bssid ≡ none
    → ((insert c r).0 ≡ success)
      × ((insert c r).1.count ≡ c.count + 1)
      × (contents (insert c r).1 ≡ contents c ++ fill (fresh_entry c r.bssid) r ∷ [])
unfolding fill_at take_slot
insert_grows c r hm free e =
    rw (insert_new c r (unknown_not_found c r e) free) (refl, refl, contents_new c r (omega arith))
