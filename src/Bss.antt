-- ===== src/Bss.antt =====
-- The table of stations found (Module/mlme.c, BssTableInit to BssTableDeleteEntry; the structures
-- are in Module/mlme.h). The fields of an entry that the searches do not read are its `detail`.
pub mod Search
pub mod Delete
pub mod Sort
pub mod Cipher
pub mod Fields
pub mod Insert
pub mod Candidates
mod Examples
use rt.Prelude.{
  ℕ, zero, suc, ◌+◌, ◌-◌, Bool, false, ◌&&◌, ◌||◌, List, [], leb, ltb, ◌==◌, if◌then◌else◌,
}
use rt.Bss.Fields.{Detail, zero_detail}
use rt.Prelude.Lists.{get_or, set, replicate, mem_eq}

abbrev pub max_len_of_bss_table : ℕ
max_len_of_bss_table = 64

abbrev pub bss_not_found : ℕ
bss_not_found = 4294967295

abbrev pub zero_ssid : List ℕ
zero_ssid = replicate 32 0

pub record BssEntry : Type 0 where
  pub bssid : List ℕ
  pub channel : ℕ
  pub ssid : List ℕ
  pub ssid_len : ℕ
  pub rssi : ℕ
  pub detail : Detail

pub record BssTable : Type 0 where
  pub bss_nr : ℕ
  pub bss_overlap_nr : ℕ
  pub bss_entry : List BssEntry

abbrev pub no_entry : BssEntry
no_entry = record {
  bssid = replicate 6 0;
  channel = 0;
  ssid = replicate 32 0;
  ssid_len = 0;
  rssi = 0;
  detail = zero_detail;
}

abbrev pub bss_at : BssTable → ℕ → BssEntry
bss_at tab i = get_or tab.bss_entry i no_entry

-- BssTableInit.
unfoldable pub bss_table_init : BssTable
bss_table_init = record {
  bss_nr = 0;
  bss_overlap_nr = 0;
  bss_entry = replicate max_len_of_bss_table no_entry;
}

-- Both channels in the 2.4 GHz band, or both above it.
abbrev pub same_band : ℕ → ℕ → Bool
same_band a b = (leb a 14 && leb b 14) || (ltb 14 a && ltb 14 b)

-- SSID_EQUAL.
abbrev pub ssid_equal : List ℕ → ℕ → List ℕ → ℕ → Bool
ssid_equal a a_len b b_len = a_len == b_len && mem_eq a b a_len

-- The loop of the three searches, over the condition of each.
unfoldable pub search_where : (BssEntry → Bool) → ℕ → ℕ → BssTable → ℕ
search_where cond zero i tab = bss_not_found
search_where cond (suc left) i tab =
    let rest = search_where cond left (i + 1) tab in if cond (bss_at tab i) then i else rest

-- BssTableSearch.
abbrev pub is_bss : List ℕ → ℕ → BssEntry → Bool
is_bss bssid channel e = same_band e.channel channel && mem_eq e.bssid bssid 6

unfoldable pub bss_table_search : BssTable → List ℕ → ℕ → ℕ
unfolding search_where
bss_table_search tab bssid channel = search_where (is_bss bssid channel) tab.bss_nr 0 tab

-- BssSsidTableSearch.
unfoldable pub bss_ssid_table_search : BssTable → List ℕ → List ℕ → ℕ → ℕ → ℕ
unfolding search_where
bss_ssid_table_search tab bssid ssid ssid_len channel =
    search_where (λ e. is_bss bssid channel e && ssid_equal ssid ssid_len e.ssid e.ssid_len)
      tab.bss_nr 0 tab

-- BssTableSearchWithSSID: an empty or zero name, on either side, matches every name.
abbrev pub is_bss_with_ssid : List ℕ → List ℕ → ℕ → ℕ → BssEntry → Bool
is_bss_with_ssid bssid ssid ssid_len channel e =
    is_bss bssid channel e
    && (ssid_equal ssid ssid_len e.ssid e.ssid_len
        || mem_eq ssid zero_ssid ssid_len
        || mem_eq e.ssid zero_ssid e.ssid_len)

unfoldable pub bss_table_search_with_ssid : BssTable → List ℕ → List ℕ → ℕ → ℕ → ℕ
unfolding search_where
bss_table_search_with_ssid tab bssid ssid ssid_len channel =
    search_where (is_bss_with_ssid bssid ssid ssid_len channel) tab.bss_nr 0 tab

-- The inner loop of BssTableDeleteEntry: entries from `j + 1` on move down by one.
unfoldable pub move_down : ℕ → ℕ → List BssEntry → List BssEntry
move_down zero j es = es
move_down (suc left) j es = move_down left (j + 1) (set es j (get_or es (j + 1) no_entry))

-- Its condition asks for the very channel.
abbrev pub is_entry : List ℕ → ℕ → BssEntry → Bool
is_entry bssid channel e = e.channel == channel && mem_eq e.bssid bssid 6

-- The outer loop, with the rounds left.
unfoldable pub delete_from : List ℕ → ℕ → ℕ → ℕ → BssTable → BssTable
unfolding move_down
delete_from bssid channel zero i tab = tab
delete_from bssid channel (suc left) i tab =
    let rest = delete_from bssid channel left (i + 1) tab in
    if is_entry bssid channel (bss_at tab i)
    then record tab {
      bss_nr = tab.bss_nr - 1;
      bss_entry = move_down (tab.bss_nr - 1 - i) i tab.bss_entry;
    }
    else rest

-- BssTableDeleteEntry.
unfoldable pub bss_table_delete_entry : List ℕ → ℕ → BssTable → BssTable
unfolding delete_from
bss_table_delete_entry bssid channel tab = delete_from bssid channel tab.bss_nr 0 tab

-- The three copies of BssTableSortByRssi that exchange two entries.
abbrev pub exchange_entries : ℕ → ℕ → List BssEntry → List BssEntry
exchange_entries i j es =
    let tmp = get_or es j no_entry in set (set es j (get_or es i no_entry)) i tmp

-- BssTableSortByRssi: the loop over `j`, the loop over `i`, each with the rounds left.
unfoldable pub sort_inner : ℕ → ℕ → ℕ → List BssEntry → List BssEntry
sort_inner zero i j es = es
sort_inner (suc left) i j es = sort_inner left i (j + 1) (
    if ltb (get_or es i no_entry).rssi (get_or es j no_entry).rssi
    then exchange_entries i j es
    else es)

unfoldable pub sort_outer : ℕ → ℕ → ℕ → List BssEntry → List BssEntry
unfolding sort_inner
sort_outer zero i nr es = es
sort_outer (suc left) i nr es = sort_outer left (i + 1) nr (sort_inner (nr - (i + 1)) i (i + 1) es)

unfoldable pub bss_table_sort_by_rssi : BssTable → BssTable
unfolding sort_outer
bss_table_sort_by_rssi tab = record tab {
  bss_entry = sort_outer (tab.bss_nr - 1) 0 tab.bss_nr tab.bss_entry;
}
