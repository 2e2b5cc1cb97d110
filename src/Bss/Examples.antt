-- ===== src/Bss/Examples.antt =====
-- The table of Module/mlme.c at concrete entries.
use rt.Prelude.{
  ℕ, zero, suc, ◌+◌, ◌%◌, none, ◌<◌, ◌≡◌, refl, false, ◌&&◌, List, [], ◌∷◌, leb, ltb, if◌then◌else◌,
  arith,
}
use rt.Prelude.Lists.{mem_eq, replicate}
use rt.Bss.{BssEntry, BssTable, bss_at, is_entry, no_entry, bss_table_delete_entry}
use rt.Bss.Fields.{zero_detail}
use rt.Bss.Sort.Exchange.{count}
use rt.Bss.Candidates.{PortCfg, is_candidate, bss_table_ssid_sort}
use rt.Bss.Candidates.Chosen.{tally, stronger_behind, bss_table_ssid_sort_lem}
use rt.Bss.Insert.{Sighting, Wanted, bss_table_set_entry}
use rt.Bss.Insert.Found.{IsTable, IsSetResult, bss_table_set_entry_found}
use rt.Bss.Delete.{bss_table_delete_entry_lem}

abbrev station : ℕ → ℕ → BssEntry
station n channel = record {
  bssid = (n ∷ n ∷ n ∷ n ∷ n ∷ n ∷ []);
  channel = channel;
  ssid = [];
  ssid_len = 0;
  rssi = n;
  detail = zero_detail;
}

abbrev two_bands : BssTable
two_bands = record {
  bss_nr = 3;
  bss_overlap_nr = 0;
  bss_entry = (station 1 6 ∷ station 2 36 ∷ station 2 11 ∷ []);
}

abbrev address : ℕ → List ℕ
address n = (n ∷ n ∷ n ∷ n ∷ n ∷ n ∷ [])

-- Station 2 heard again on channel 40, with another strength and no name.
abbrev sighting : Sighting
sighting = record {
  jiffies = 7;
  sta_bssid = address 2;
  sta_ssid = [];
  sta_ssid_len = 0;
  sta_bss_type = 1;
  sta_beacon_period = 100;
  cf_parm = record {
    cf_valid = false;
    cfp_count = 0;
    cfp_period = 0;
    cfp_max_duration = 0;
    cfp_dur_remaining = 0;
  };
  sta_atim_win = 0;
  sta_capability_info = 1;
  sta_sup_rate = (130 ∷ []);
  sta_sup_rate_len = 1;
  sta_ext_rate = [];
  sta_ext_rate_len = 0;
  sta_channel = 40;
  sta_rssi = 50;
  time_stamp = replicate 8 0;
  sta_ckip_flag = 0;
  edca = none;
  qos = none;
  qbss = none;
  length_vie = 0;
  vie = [];
}

abbrev nothing_wanted : Wanted
nothing_wanted = record {
  connected = false;
  wanted_bssid = replicate 6 0;
  wanted_ssid = [];
  wanted_ssid_len = 0;
}

abbrev overlap_after : ℕ → ℕ
overlap_after k = k % 64

overlap_in_table : (k : ℕ) → k < 64 → overlap_after k < 64
overlap_in_table k h = omega arith

abbrev two_of_64 : BssTable
two_of_64 = record {
  bss_nr = 2;
  bss_overlap_nr = 0;
  bss_entry = station 1 6 ∷ station 2 36 ∷ replicate 62 no_entry;
}

two_of_64-IsTable : IsTable two_of_64
unfolding IsTable
two_of_64-IsTable = (refl, omega arith, omega arith)

bss_table_set_entry_found_example :
    IsSetResult nothing_wanted sighting 0 two_of_64
      (bss_table_set_entry overlap_after nothing_wanted sighting two_of_64)
bss_table_set_entry_found_example =
    bss_table_set_entry_found overlap_after nothing_wanted sighting two_of_64 0 overlap_in_table
      two_of_64-IsTable (omega arith)

none_before : (j : ℕ) → j < 1 → is_entry (address 2) 36 (bss_at two_bands j) ≡ false
none_before zero h = unfold mem_eq in refl
none_before (suc j) h = absurd (omega arith)

bss_table_delete_entry_lem_example :
    let tab' = bss_table_delete_entry (address 2) 36 two_bands in
    (tab'.bss_nr + 1 ≡ 3)
    × (bss_at tab' 1 ≡ (if leb 1 1 && ltb 2 3 then bss_at two_bands 2 else bss_at two_bands 1))
bss_table_delete_entry_lem_example =
    bss_table_delete_entry_lem two_bands (address 2) 36 1 1 (omega arith) (omega arith)
      (unfold mem_eq in refl) none_before

none_at_all : (j : ℕ) → j < 3 → is_entry (address 2) 1 (bss_at two_bands j) ≡ false
none_at_all zero h = unfold mem_eq in refl
none_at_all (suc zero) h = unfold mem_eq in refl
none_at_all (suc (suc zero)) h = unfold mem_eq in refl
none_at_all (suc (suc (suc j))) h = absurd (omega arith)

abbrev infra_open : PortCfg
infra_open = record { port_bss_type = 0; port_auth_mode = 0; port_wep_status = 0 }

abbrev named : ℕ → BssEntry
named n = record (station n 6) { ssid = 7 ∷ []; ssid_len = 1 }

-- The first and the third have the name asked for.
abbrev two_named : BssTable
two_named = record {
  bss_nr = 3;
  bss_overlap_nr = 0;
  bss_entry = named 1 ∷ station 2 36 ∷ named 3 ∷ [];
}

bss_table_ssid_sort_lem_example :
    let t = (bss_table_ssid_sort infra_open (7 ∷ []) 1 two_named).0 in
    let cond = is_candidate infra_open (7 ∷ []) 1 in
    (t.bss_nr ≡ tally cond 3 0 two_named)
    × (count (λ e. leb 2 e.rssi) t.bss_entry ≡ tally (λ e. cond e && leb 2 e.rssi) 3 0 two_named)
    × (stronger_behind t 0 1 ≡ false)
bss_table_ssid_sort_lem_example =
    bss_table_ssid_sort_lem infra_open (7 ∷ []) 1 two_named (λ e. leb 2 e.rssi) 0 1 (omega arith)
      refl
