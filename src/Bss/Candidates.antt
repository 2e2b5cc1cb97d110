-- ===== src/Bss/Candidates.antt =====
-- The candidates to join (Module/mlme.c, RTMPCheckAKM and BssTableSsidSort).
pub mod Chosen
use rt.Prelude.{
  ℕ, zero, suc, ◌+◌, ◌/◌, ◌%◌, Bool, true, false, not, ◌&&◌, ◌||◌, Option, none, some, List, ltb,
  leb, ◌==◌, if◌then◌else◌,
}
use rt.Prelude.Lists.{set}
use rt.Bss.Cipher.{CipherSuite, Security, encryption2_enabled, auth_mode_wpa_none}
use rt.Bss.{
  BssEntry, BssTable, bss_at, bss_table_init, bss_table_sort_by_rssi, ssid_equal,
  max_len_of_bss_table,
}

abbrev pub auth_mode_wpa : ℕ
auth_mode_wpa = 3

abbrev pub auth_mode_wpa_psk : ℕ
auth_mode_wpa_psk = 4

abbrev pub auth_mode_wpa2 : ℕ
auth_mode_wpa2 = 6

abbrev pub auth_mode_wpa2_psk : ℕ
auth_mode_wpa2_psk = 7

-- The fields of `PortCfg` that are read.
pub record PortCfg : Type 0 where
  pub port_bss_type : ℕ
  pub port_auth_mode : ℕ
  pub port_wep_status : ℕ

-- RTMPCheckAKM, on `AuthBitMode`.
unfoldable pub rtmp_check_akm : ℕ → ℕ → Bool
rtmp_check_akm auth bits =
    if auth == auth_mode_wpa
    then bits % 2 == 1
    else if auth == auth_mode_wpa_psk
    then bits / 4 % 2 == 1
    else if auth == auth_mode_wpa2
    then bits / 2 % 2 == 1
    else if auth == auth_mode_wpa2_psk
    then bits / 8 % 2 == 1
    else false

-- The three tests of one suite.
unfoldable pub suite_fits : ℕ → CipherSuite → Bool
suite_fits wep_status c =
    (c.mix_mode || wep_status == c.group_cipher)
    && not (ltb wep_status c.group_cipher)
    && not (
        wep_status == encryption2_enabled
        && not (wep_status == c.pair_cipher)
        && not (wep_status == c.pair_cipher_aux))

unfoldable pub ciphers_fit : PortCfg → Security → Bool
unfolding suite_fits
ciphers_fit p s =
    if p.port_auth_mode == auth_mode_wpa || p.port_auth_mode == auth_mode_wpa_psk
    then suite_fits p.port_wep_status s.wpa
    else if p.port_auth_mode == auth_mode_wpa2 || p.port_auth_mode == auth_mode_wpa2_psk
    then suite_fits p.port_wep_status s.wpa2
    else true

-- The tests of security, for an entry with the name asked for and for one of any name.
unfoldable pub named_fits : PortCfg → Security → Bool
unfolding rtmp_check_akm ciphers_fit
named_fits p s =
    if leb auth_mode_wpa p.port_auth_mode
    then (if p.port_auth_mode == auth_mode_wpa_none
        then p.port_auth_mode == s.auth_mode
        else rtmp_check_akm p.port_auth_mode s.auth_bit_mode)
      && ciphers_fit p s
    else p.port_wep_status == s.wep_status

unfoldable pub any_fits : PortCfg → Security → Bool
unfolding rtmp_check_akm ciphers_fit
any_fits p s =
    if leb auth_mode_wpa p.port_auth_mode
    then rtmp_check_akm p.port_auth_mode s.auth_bit_mode && ciphers_fit p s
    else p.port_wep_status == s.wep_status

-- Whether a round of the loop copies the entry.
unfoldable pub is_candidate : PortCfg → List ℕ → ℕ → BssEntry → Bool
unfolding named_fits any_fits
is_candidate p ssid ssid_len e =
    if e.detail.bss_type == p.port_bss_type && ssid_equal ssid ssid_len e.ssid e.ssid_len
    then named_fits p e.detail.security && not (ssid_len == 0)
    else if e.detail.bss_type == p.port_bss_type && ssid_len == 0
    then any_fits p e.detail.security
    else false

abbrev pub copy_out : BssEntry → BssTable → BssTable
copy_out e out = record out { bss_nr = out.bss_nr + 1; bss_entry = set out.bss_entry out.bss_nr e }

-- The loop, with the rounds left. A `continue` goes past the test of the count, which the round
-- that set the count has made.
unfoldable pub candidates_from : (BssEntry → Bool) → ℕ → ℕ → BssTable → BssTable → BssTable
candidates_from cond zero i tab out = out
candidates_from cond (suc left) i tab out =
    let e = bss_at tab i in
    let out' = if cond e then copy_out e out else out in
    let rest = candidates_from cond left (i + 1) tab out' in
    if leb max_len_of_bss_table out'.bss_nr then out' else rest

-- BssTableSsidSort, on the table of the scan: the table of candidates, and the group cipher for
-- which RTMPMakeRSNIE is called behind it.
unfoldable pub bss_table_ssid_sort : PortCfg → List ℕ → ℕ → BssTable → BssTable × Option ℕ
unfolding is_candidate candidates_from bss_table_init bss_table_sort_by_rssi
bss_table_ssid_sort p ssid ssid_len tab =
    let out =
      bss_table_sort_by_rssi
        (candidates_from (is_candidate p ssid ssid_len) tab.bss_nr 0 tab bss_table_init) in
    (
      out,
      if ltb 0 out.bss_nr
          then (if p.port_auth_mode == auth_mode_wpa2_psk
              then some (bss_at out 0).detail.security.wpa2.group_cipher
              else if p.port_auth_mode == auth_mode_wpa_psk
              then some (bss_at out 0).detail.security.wpa.group_cipher
              else none)
          else none,
    )
