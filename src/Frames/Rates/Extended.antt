-- ===== src/Frames/Rates/Extended.antt =====
-- Where the two looks at a peer's rates (Module/sanity.c) differ.
use rt.Prelude.{
  ℕ, zero, suc, ◌+◌, ◌%◌, ◌≤◌, ◌<◌, ◌≡◌, refl, true, false, List, leb, arith, Bool-cases, inl, inr,
}
use rt.Prelude.Lists.{get_or}
use rt.Frames.Rates.{
  ds, is_cck, some_ofdm, network_type_in_use_sanity, peer_tx_type_in_use_sanity, some_cck_first,
}

-- A shorter look finds no more.
some_ofdm_shorter :
    (m n i : ℕ) (rates : List ℕ) → m ≤ n → some_ofdm n i rates ≡ false → some_ofdm m i rates ≡ false
unfolding some_ofdm
some_ofdm_shorter zero n i rates h e = refl
some_ofdm_shorter (suc m) zero i rates h e = absurd (omega arith)
some_ofdm_shorter (suc m) (suc n) i rates h e =
    elim (Bool-cases (is_cck (get_or rates i 0 % 128))) [
      | inl cck ↦ rw cck (some_ofdm_shorter m n (i + 1) rates (omega arith) (ground arith))
      | inr other ↦ absurd (ground arith)
    ]

first_cck :
    (n : ℕ) (sup : List ℕ) → some_ofdm (suc n) 0 sup ≡ false → some_cck_first (suc n) sup ≡ true
unfolding some_ofdm some_cck_first
first_cck n sup h = ground arith

-- A network of the 2.4 GHz band (a channel up to 14) that has at least one supported rate, those of
-- 802.11b only, and an OFDM rate among its extended rates, which are not more than the supported ones,
-- is taken for 802.11b by NetworkTypeInUseSanity, while PeerTxTypeInUseSanity finds both kinds.
pub extended_rates_missed :
    (channel : ℕ) (sup : List ℕ) (sup_len : ℕ) (ext : List ℕ) (ext_len : ℕ)
    → channel ≤ 14
    → 0 < sup_len
    → ext_len ≤ sup_len
    → some_ofdm sup_len 0 sup ≡ false
    → some_ofdm ext_len 0 ext ≡ true
    → (network_type_in_use_sanity channel sup sup_len ext ext_len ≡ ds)
      × (peer_tx_type_in_use_sanity channel sup sup_len ext ext_len ≡ 3)
unfolding network_type_in_use_sanity peer_tx_type_in_use_sanity
extended_rates_missed channel sup zero ext ext_len band some_rates shorter cck ofdm =
    absurd (omega arith)
extended_rates_missed channel sup (suc n) ext ext_len band some_rates shorter cck ofdm =
    let low : leb channel 14 ≡ true = ground arith in
    let first = first_cck n sup cck in
    (
      rw low (rw cck (rw (some_ofdm_shorter ext_len (suc n) 0 sup shorter cck) refl)),
      rw low (rw cck (rw ofdm (rw first refl))),
    )
