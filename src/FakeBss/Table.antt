-- ===== src/FakeBss/Table.antt =====
-- chip_fake_bss.cpp: the table of networks as a whole.
use wificx_skeleton.Prelude.{◌≡◌, refl, false, List, [], ◌∷◌, length, map, All, arith}
use wificx_skeleton.Frame.{mac_equal}
use wificx_skeleton.FakeBss.{FakeBss, initial_table, get_table, build_ies, build_beacon_body}
use wificx_skeleton.FakeBss.Buffers.{IsBss, HasSsid, IsSized}
use wificx_skeleton.FakeBss.Beacons.{beacon-IsSized}

-- No two networks have the same BSSID.
abbrev pub Distinct : List FakeBss → Type 0
Distinct [] = Unit {0}
Distinct (e ∷ es) = All (λ x. mac_equal x.bssid e.bssid ≡ false) es × Distinct es

built-IsSized :
    (es : List FakeBss) → All IsBss es → All IsSized (map (λ e. build_beacon_body (build_ies e)) es)
built-IsSized [] h = tt
built-IsSized (e ∷ es) h = (beacon-IsSized e h.0, built-IsSized es h.1)

-- The networks of the initial table are so, with their beacons built.
pub initial_table-IsSized : All IsSized (get_table initial_table).entries
unfolding initial_table get_table
initial_table-IsSized = built-IsSized initial_table.entries (omega arith)

pub initial_table-Distinct : Distinct (get_table initial_table).entries
unfolding initial_table get_table build_ies build_beacon_body mac_equal
initial_table-Distinct = ((refl, (refl, (refl, tt))), ((refl, (refl, tt)), ((refl, tt), (tt, tt))))

pub length-initial_table : length (get_table initial_table).entries ≡ 4
unfolding initial_table get_table
length-initial_table = refl

built-HasSsid :
    (es : List FakeBss)
    → All HasSsid es
    → All HasSsid (map (λ e. build_beacon_body (build_ies e)) es)
unfolding build_ies build_beacon_body
built-HasSsid [] h = tt
built-HasSsid (e ∷ es) h = (record { bound = h.0.bound; buffer = h.0.buffer }, built-HasSsid es h.1)

pub initial_table-HasSsid : All HasSsid (get_table initial_table).entries
unfolding initial_table get_table
initial_table-HasSsid = built-HasSsid initial_table.entries (omega arith)
