-- ===== src/Frames/Rates.antt =====
-- What a list of rates says of the sender (Module/sanity.c, NetworkTypeInUseSanity and
-- PeerTxTypeInUseSanity). A rate has its basic-rate flag in bit 7.
pub mod Extended
use rt.Prelude.{ℕ, zero, suc, ◌+◌, ◌%◌, Bool, true, false, ◌||◌, List, leb, ◌==◌, if◌then◌else◌}
use rt.Prelude.Lists.{get_or}
use rt.Prelude.{bit_or}

-- NDIS_802_11_NETWORK_TYPE, the three values used.
pub data NetworkType : Type 0 where
  ds ofdm5 ofdm24 : NetworkType

-- One of the four rates of 802.11b.
abbrev pub is_cck : ℕ → Bool
is_cck rate = rate == 2 || rate == 4 || rate == 11 || rate == 22

-- The loop over rates: whether one that is not of 802.11b ends it, with the rounds left.
unfoldable pub some_ofdm : ℕ → ℕ → List ℕ → Bool
some_ofdm zero i rates = false
some_ofdm (suc left) i rates =
    let rest = some_ofdm left (i + 1) rates in
    if is_cck (get_or rates i 0 % 128) then rest else true

-- NetworkTypeInUseSanity on the entry's channel and rates. The second loop, over the length of the
-- extended rates, reads `SupRate` again, as the code does.
unfoldable pub network_type_in_use_sanity : ℕ → List ℕ → ℕ → List ℕ → ℕ → NetworkType
unfolding some_ofdm
network_type_in_use_sanity channel sup_rate sup_rate_len ext_rate ext_rate_len =
    if leb channel 14
    then (if some_ofdm sup_rate_len 0 sup_rate
        then ofdm24
        else if some_ofdm ext_rate_len 0 sup_rate
        then ofdm24
        else ds)
    else ofdm5

-- PeerTxTypeInUseSanity: bit 0 for CCK, bit 1 for OFDM.
unfoldable pub some_cck_first : ℕ → List ℕ → Bool
some_cck_first sup_rate_len sup_rate =
    if sup_rate_len == 0 then false else is_cck (get_or sup_rate 0 0 % 128)

unfoldable pub peer_tx_type_in_use_sanity : ℕ → List ℕ → ℕ → List ℕ → ℕ → ℕ
unfolding some_ofdm some_cck_first
peer_tx_type_in_use_sanity channel sup_rate sup_rate_len ext_rate ext_rate_len =
    if leb channel 14
    then (let cck = if some_cck_first sup_rate_len sup_rate then 1 else 0 in
        if some_ofdm sup_rate_len 0 sup_rate
        then bit_or cck 2
        else if some_ofdm ext_rate_len 0 ext_rate
        then bit_or cck 2
        else cck)
    else 2
