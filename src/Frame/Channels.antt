-- ===== src/Frame/Channels.antt =====
-- WdiFreqToChannel and WdiFreqToBand against the channel tables of 802.11.
use wificx_skeleton.Prelude.{ℕ, ◌+◌, ◌*◌, ◌≤◌, ◌≡◌, refl, ◌≢◌, ◌⊎◌, ◌↔◌, arith}
use wificx_skeleton.Frame.{band_5000, freq_to_channel, freq_to_band}

-- The channels of 802.11: 1 to 13 and 14 of the 2.4 GHz band, those of the 5 and the 6 GHz band.
pub data Channel : Type 0 where
  ch_2g ch_5g ch_6g : ℕ → Channel
  ch_14 : Channel

abbrev pub number : Channel → ℕ
number (ch_2g c) = c
number (ch_5g c) = c
number (ch_6g c) = c
number ch_14 = 14

abbrev pub IsChannel : Channel → Type 0
IsChannel (ch_2g c) = (1 ≤ c) × (c ≤ 13)
IsChannel (ch_5g c) = (1 ≤ c) × (c ≤ 179)
IsChannel (ch_6g c) = (1 ≤ c) × (c ≤ 233)
IsChannel ch_14 = Unit {0}

-- The centre frequency in MHz.
abbrev pub centre : Channel → ℕ
centre (ch_2g c) = 2407 + 5 * c
centre (ch_5g c) = 5000 + 5 * c
centre (ch_6g c) = 5950 + 5 * c
centre ch_14 = 2484

-- Every channel of the three bands is found from its centre frequency.
pub freq_to_channel-centre : (ch : Channel) → IsChannel ch → freq_to_channel (centre ch) ≡ number ch
unfolding freq_to_channel
freq_to_channel-centre (ch_2g c) h = ground arith
freq_to_channel-centre (ch_5g c) h = ground arith
freq_to_channel-centre (ch_6g c) h = ground arith
freq_to_channel-centre ch_14 h = refl

-- Exactly the frequencies of the four ranges have a channel other than 0, and a channel is at most
-- 233, so that the cast to `UCHAR` loses nothing.
pub freq_to_channel_range :
    (f : ℕ)
    → (freq_to_channel f ≤ 233)
      × ((freq_to_channel f ≢ 0) ↔ (
          (f ≡ 2484)
          ⊎ ((2412 ≤ f) × (f ≤ 2472))
          ⊎ ((5955 ≤ f) × (f ≤ 7115))
          ⊎ ((5005 ≤ f) × (f ≤ 5895))))
unfolding freq_to_channel
freq_to_channel_range f = (ground arith, ((λ h. ground arith), (λ h. ground arith)))

-- A 5 GHz channel and the 6 GHz channel of the same number (1 to 179) are reported to the OS alike:
-- the same channel number and the same band.
channel_ambiguous :
    (c : ℕ)
    → 1 ≤ c
    → c ≤ 179
    → (freq_to_channel (5000 + 5 * c) ≡ freq_to_channel (5950 + 5 * c))
      × (freq_to_band (5000 + 5 * c) ≡ band_5000)
      × (freq_to_band (5950 + 5 * c) ≡ band_5000)
unfolding freq_to_channel freq_to_band
channel_ambiguous c p q = (ground arith, ground arith, ground arith)
