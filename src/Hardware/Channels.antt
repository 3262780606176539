-- ===== src/Hardware/Channels.antt =====
-- The channels that the driver announces (device.cpp), against the channel and the band that it reports
-- for a network found on one of them (wdihandlers.cpp, wdi_frame.cpp).
use mathlib.Core.List.{Memᴰ}
use mathlib.Core.List.Memᴰ.{head, tail}
use wificx_skeleton.Prelude.{◌≡◌, ap, ◌∙◌, List, [], ◌∷◌, arith}
use wificx_skeleton.Frame.{Band, freq_to_channel, freq_to_band}
use wificx_skeleton.ScanCache.{Entry}
use wificx_skeleton.WorkItems.{bss_entry}
use wificx_skeleton.Framework.Capabilities.{ChannelEntry, BandInfo}
use wificx_skeleton.Hardware.Announced.{band_info}

-- Every channel of a band is read back from its frequency.
abbrev ReadsBack : Band → List ChannelEntry → Type 0
ReadsBack band [] = Unit {0}
ReadsBack band (ch ∷ chs) =
    ((freq_to_channel ch.frequency_mhz ≡ ch.channel_number)
      × (freq_to_band ch.frequency_mhz ≡ band))
    × ReadsBack band chs

abbrev BandsReadBack : List BandInfo → Type 0
BandsReadBack [] = Unit {0}
BandsReadBack (b ∷ bs) = ReadsBack b.band_id b.channels × BandsReadBack bs

band_info-BandsReadBack : BandsReadBack band_info
unfolding freq_to_channel freq_to_band
band_info-BandsReadBack = ground arith

in_band :
    (band : Band) (chs : List ChannelEntry) (ch : ChannelEntry)
    → ReadsBack band chs
    → Memᴰ ch chs
    → (freq_to_channel ch.frequency_mhz ≡ ch.channel_number)
      × (freq_to_band ch.frequency_mhz ≡ band)
in_band band [] ch rs m = elim m [ ]
in_band band (x ∷ chs) ch (r, rs) (head e) = rw e r
in_band band (x ∷ chs) ch (r, rs) (tail m) = in_band band chs ch rs m

in_bands :
    (bs : List BandInfo) (b : BandInfo)
    → BandsReadBack bs
    → Memᴰ b bs
    → ReadsBack b.band_id b.channels
in_bands [] b rs m = elim m [ ]
in_bands (x ∷ bs) b (r, rs) (head e) = rw e r
in_bands (x ∷ bs) b (r, rs) (tail m) = in_bands bs b rs m

-- A network found on the frequency of a channel that the driver announced to the OS is reported to the OS
-- under the channel number and in the band that were announced for it.
pub bss_entry-band_info :
    (b : BandInfo) (ch : ChannelEntry) (e : Entry)
    → Memᴰ b band_info
    → Memᴰ ch b.channels
    → e.frequency_mhz ≡ ch.frequency_mhz
    → ((bss_entry e).channel_number ≡ ch.channel_number) × ((bss_entry e).band ≡ b.band_id)
unfolding bss_entry
bss_entry-band_info b ch e in_info in_channels same =
    let (number, band) =
      in_band b.band_id b.channels ch (in_bands band_info b band_info-BandsReadBack in_info)
        in_channels in
    (ap freq_to_channel same ∙ number, ap freq_to_band same ∙ band)
