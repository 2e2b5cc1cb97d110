-- ===== src/Bss/Insert.antt =====
-- An entry put into the table (Module/mlme.c, BssEntrySet and BssTableSetEntry).
pub mod Found
use rt.Prelude.{
  ℕ, ◌+◌, ◌/◌, ◌%◌, Bool, true, false, not, ◌&&◌, ◌||◌, Option, none, some, List, leb, ltb, ◌==◌,
  if◌then◌else◌,
}
use rt.Prelude.Lists.{set, memcpy, mem_eq}
use rt.Frames.Edca.{EdcaParm}
use rt.Frames.Beacon.Fields.{CfParm}
use rt.Bss.Cipher.{bss_cipher_parse}
use rt.Bss.Fields.{Detail, QosCapability, QbssLoad}
use rt.Bss.{
  BssEntry, BssTable, bss_at, bss_not_found, zero_ssid, ssid_equal, max_len_of_bss_table,
  bss_table_search_with_ssid,
}

-- The arguments, and the time. A NULL pointer is none.
pub record Sighting : Type 0 where
  pub jiffies : ℕ
  pub sta_bssid : List ℕ
  pub sta_ssid : List ℕ
  pub sta_ssid_len : ℕ
  pub sta_bss_type : ℕ
  pub sta_beacon_period : ℕ
  pub cf_parm : CfParm
  pub sta_atim_win : ℕ
  pub sta_capability_info : ℕ
  pub sta_sup_rate : List ℕ
  pub sta_sup_rate_len : ℕ
  pub sta_ext_rate : List ℕ
  pub sta_ext_rate_len : ℕ
  pub sta_channel : ℕ
  pub sta_rssi : ℕ
  pub time_stamp : List ℕ
  pub sta_ckip_flag : ℕ
  pub edca : Option EdcaParm
  pub qos : Option QosCapability
  pub qbss : Option QbssLoad
  pub length_vie : ℕ
  pub vie : List ℕ

-- The contention-free fields, of an infrastructure network that gives them, or the ATIM window.
unfoldable pub set_period : Sighting → Detail → Detail
set_period s d =
    if s.sta_bss_type == 1
    then (if s.cf_parm.cf_valid
        then record d {
          cfp_count = s.cf_parm.cfp_count;
          cfp_period = s.cf_parm.cfp_period;
          cfp_max_duration = s.cf_parm.cfp_max_duration;
          cfp_dur_remaining = s.cf_parm.cfp_dur_remaining;
        }
        else d)
    else record d { atim_win = s.sta_atim_win }

-- `if (p) memcpy(&field, p, ...); else field.bValid = FALSE;`, for the three of them.
abbrev pub edca_or : Option EdcaParm → EdcaParm → EdcaParm
edca_or none e = record e { valid = false }
edca_or (some p) e = p

abbrev pub qos_or : Option QosCapability → QosCapability → QosCapability
qos_or none q = record q { qos_valid = false }
qos_or (some p) q = p

abbrev pub qbss_or : Option QbssLoad → QbssLoad → QbssLoad
qbss_or none q = record q { load_valid = false }
qbss_or (some p) q = p

-- The rest of the fields; `shown` is whether the name is not hidden.
unfoldable pub set_detail : Bool → Sighting → Detail → Detail
unfolding set_period bss_cipher_parse
set_detail shown s d =
    let privacy = s.sta_capability_info / 16 % 2 == 1 in
    let ies = if s.length_vie == 0 then d.var_ies else memcpy d.var_ies s.vie s.length_vie in
    record (set_period s d) {
      last_beacon_rx_time = s.jiffies;
      hidden = not shown;
      bss_type = s.sta_bss_type;
      beacon_period = s.sta_beacon_period;
      capability_info = s.sta_capability_info;
      privacy = privacy;
      sup_rate = memcpy d.sup_rate s.sta_sup_rate s.sta_sup_rate_len;
      sup_rate_len = s.sta_sup_rate_len;
      ext_rate = memcpy d.ext_rate s.sta_ext_rate s.sta_ext_rate_len;
      ext_rate_len = s.sta_ext_rate_len;
      ckip_flag = s.sta_ckip_flag;
      fix_timestamp = memcpy d.fix_timestamp s.time_stamp 8;
      fix_beacon_interval = s.sta_beacon_period;
      fix_capabilities = s.sta_capability_info;
      var_ie_len = s.length_vie;
      var_ies = ies;
      security = bss_cipher_parse privacy (s.sta_bss_type == 0) ies s.length_vie;
      edca_parm = edca_or s.edca d.edca_parm;
      qos_capability = qos_or s.qos d.qos_capability;
      qbss_load = qbss_or s.qbss d.qbss_load;
    }

-- BssEntrySet. An empty name, or one of zero bytes, leaves the name that is there.
unfoldable pub bss_entry_set : Sighting → BssEntry → BssEntry
unfolding set_detail
bss_entry_set s e =
    let shown = ltb 0 s.sta_ssid_len && not (mem_eq s.sta_ssid zero_ssid s.sta_ssid_len) in
    record e {
      bssid = memcpy e.bssid s.sta_bssid 6;
      channel = s.sta_channel;
      ssid = if shown then memcpy e.ssid s.sta_ssid s.sta_ssid_len else e.ssid;
      ssid_len = if shown then s.sta_ssid_len else e.ssid_len;
      rssi = s.sta_rssi;
      detail = set_detail shown s e.detail;
    }

-- The network that is wanted, `MlmeAux`, and whether the adapter is connected.
pub record Wanted : Type 0 where
  pub connected : Bool
  pub wanted_bssid : List ℕ
  pub wanted_ssid : List ℕ
  pub wanted_ssid_len : ℕ

abbrev pub is_wanted : Wanted → Sighting → Bool
is_wanted w s =
    mem_eq w.wanted_bssid s.sta_bssid 6
    || ssid_equal w.wanted_ssid w.wanted_ssid_len s.sta_ssid s.sta_ssid_len

abbrev pub put_entry : Sighting → ℕ → BssTable → BssTable
put_entry s i tab = record tab { bss_entry = set tab.bss_entry i (bss_entry_set s (bss_at tab i)) }

-- BssTableSetEntry: the table and the index. `next_overlap` is what the compiler makes of the
-- assignment of `(BssOverlapNr++) % MAX_LEN_OF_BSS_TABLE` to `BssOverlapNr`, which C leaves open.
unfoldable pub put_at_overlap : (ℕ → ℕ) → Wanted → Sighting → BssTable → BssTable × ℕ
unfolding bss_entry_set
put_at_overlap next_overlap w s tab =
    if not w.connected && is_wanted w s
    then (
      record (put_entry s tab.bss_overlap_nr tab) {
        bss_overlap_nr = next_overlap tab.bss_overlap_nr;
      },
      tab.bss_overlap_nr,
    )
    else (tab, bss_not_found)

-- The rest of it, once the search has its answer.
unfoldable pub put_found : (ℕ → ℕ) → Wanted → Sighting → ℕ → BssTable → BssTable × ℕ
unfolding put_at_overlap bss_entry_set
put_found next_overlap w s idx tab =
    if idx == bss_not_found
    then (if leb max_len_of_bss_table tab.bss_nr
        then put_at_overlap next_overlap w s tab
        else (record (put_entry s tab.bss_nr tab) { bss_nr = tab.bss_nr + 1 }, tab.bss_nr))
    else (put_entry s idx tab, idx)

unfoldable pub bss_table_set_entry : (ℕ → ℕ) → Wanted → Sighting → BssTable → BssTable × ℕ
unfolding put_found bss_table_search_with_ssid
bss_table_set_entry next_overlap w s tab =
    let idx = bss_table_search_with_ssid tab s.sta_bssid s.sta_ssid s.sta_ssid_len s.sta_channel in
    put_found next_overlap w s idx tab
