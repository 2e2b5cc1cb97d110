-- ===== src/Assoc/Request.antt =====
-- The frames of the association requests (Module/assoc.c, MlmeAssocReqAction, MlmeReassocReqAction
-- and their templates; Module/rtmp_def.h). AGGREGATION_SUPPORT is on, as in Module/Makefile.
pub mod Announced
use rt.Prelude.{
  ℕ, ◌+◌, ◌*◌, ◌%◌, Bool, ◌&&◌, ◌||◌, Option, none, some, List, [], ◌∷◌, ◌++◌, ◌==◌, if◌then◌else◌,
}
use rt.Prelude.Lists.{set, take, mem_eq}
use rt.Bss.{BssTable}
use rt.Frames.Edca.{EdcaParm}
use rt.Auth.Frame.{mgt_mac_header_init, make_outgoing_frame, le16}

-- What the actions read of the adapter and its configuration.
pub record AssocConfig : Type 0 where
  pub station_address : List ℕ
  pub joined_bssid : List ℕ
  pub blocked : Bool
  pub infra_on : Bool
  pub auth_mode : ℕ
  pub group_cipher : ℕ
  pub pair_cipher : ℕ
  pub phy_mode : ℕ
  pub apsd_capable : Bool
  pub apsd_ac_vo : ℕ
  pub apsd_ac_vi : ℕ
  pub apsd_ac_bk : ℕ
  pub apsd_ac_be : ℕ
  pub max_sp_length : ℕ
  pub aggregation_capable : Bool
  pub piggy_back_capable : Bool
  pub saved_pmk : List (List ℕ × List ℕ)
  pub known_bss : BssTable

-- `MlmeAux`.
pub record Aux : Type 0 where
  pub aux_bss_type : ℕ
  pub aux_bssid : List ℕ
  pub aux_channel : ℕ
  pub aux_ssid : List ℕ
  pub aux_ssid_len : ℕ
  pub aux_aid : ℕ
  pub aux_capability_info : ℕ
  pub aux_sup_rate : List ℕ
  pub aux_sup_rate_len : ℕ
  pub aux_ext_rate : List ℕ
  pub aux_ext_rate_len : ℕ
  pub ap_edca_parm : EdcaParm
  pub ap_ralink_ie : ℕ

-- MLME_ASSOC_REQ_STRUCT, which MlmeAssocReqSanity takes apart and never refuses.
pub record AssocReq : Type 0 where
  pub ap_addr : List ℕ
  pub requested_capability : ℕ
  pub listen_intv : ℕ

abbrev pub element : ℕ → ℕ → List ℕ → List ℕ
element eid len octet = eid ∷ len ∷ take len octet

-- The name and the supported rates, and the extended rates where there are any.
unfoldable pub request_elements : Aux → List ℕ
request_elements x =
    element 0 x.aux_ssid_len x.aux_ssid ++ element 1 x.aux_sup_rate_len x.aux_sup_rate

unfoldable pub ext_rate_element : Aux → List ℕ
ext_rate_element x =
    if x.aux_ext_rate_len == 0 then [] else element 50 x.aux_ext_rate_len x.aux_ext_rate

-- `WmeIe`, with QBSS_STA_INFO_PARM in its last byte.
abbrev pub qos_info : AssocConfig → ℕ
qos_info cfg =
    cfg.apsd_ac_vo % 2
    + 2 * (cfg.apsd_ac_vi % 2)
    + 4 * (cfg.apsd_ac_bk % 2)
    + 8 * (cfg.apsd_ac_be % 2)
    + 32 * (cfg.max_sp_length % 4)

unfoldable pub wme_element : AssocConfig → Aux → List ℕ
wme_element cfg x =
    if x.ap_edca_parm.valid
    then 221
      ∷ 7
      ∷ 0
      ∷ 80
      ∷ 242
      ∷ 2
      ∷ 0
      ∷ 1
      ∷ (if cfg.apsd_capable && x.ap_edca_parm.apsd_capable then qos_info cfg else 0)
      ∷ []
    else []

-- CipherWpaTemplate and CipherWpa2Template.
abbrev pub cipher_wpa_template : List ℕ
cipher_wpa_template =
    221 ∷ 22 ∷ 0 ∷ 80 ∷ 242 ∷ 1 ∷ 1 ∷ 0 ∷ 0 ∷ 80 ∷ 242 ∷ 2 ∷ 1 ∷ 0 ∷ 0 ∷ 80 ∷ 242 ∷ 2 ∷ 1 ∷ 0 ∷ 0
    ∷ 80 ∷ 242 ∷ 1 ∷ []

abbrev pub cipher_wpa2_template : List ℕ
cipher_wpa2_template =
    48 ∷ 20 ∷ 1 ∷ 0 ∷ 0 ∷ 15 ∷ 172 ∷ 2 ∷ 1 ∷ 0 ∷ 0 ∷ 15 ∷ 172 ∷ 2 ∷ 1 ∷ 0 ∷ 0 ∷ 15 ∷ 172 ∷ 2 ∷ 0 ∷ 0
    ∷ []

-- TKIP is 2, and all else is taken for AES.
abbrev pub suite_type : ℕ → ℕ
suite_type cipher = if cipher == 4 then 2 else 4

unfoldable pub wpa_element : AssocConfig → List ℕ
wpa_element cfg =
    set
      (set (set cipher_wpa_template 11 (suite_type cfg.group_cipher)) 17
        (suite_type cfg.pair_cipher))
      23 (if cfg.auth_mode == 3 then 1 else 2)

unfoldable pub wpa2_element : AssocConfig → List ℕ
wpa2_element cfg =
    set
      (set (set cipher_wpa2_template 7 (suite_type cfg.group_cipher)) 13
        (suite_type cfg.pair_cipher))
      19 (if cfg.auth_mode == 6 then 1 else 2)

-- The search for a saved PMKID of the access point, and the element with it.
unfoldable pub find_pmk : List ℕ → List (List ℕ × List ℕ) → Option (List ℕ)
find_pmk addr [] = none
find_pmk addr ((bssid, pmkid) ∷ saved) =
    let rest = find_pmk addr saved in if mem_eq addr bssid 6 then some pmkid else rest

abbrev pub with_pmk : Option (List ℕ) → List ℕ → List ℕ
with_pmk none ie = ie
with_pmk (some pmkid) ie = set ie 1 38 ++ (1 ∷ 0 ∷ take 16 pmkid)

-- The element of the security mode: WPA and WPAPSK are 3 and 4, WPA2 and WPA2PSK 6 and 7.
unfoldable pub security_element : AssocConfig → List ℕ → List ℕ
unfolding wpa_element wpa2_element find_pmk
security_element cfg addr =
    if cfg.auth_mode == 3 || cfg.auth_mode == 4
    then wpa_element cfg
    else if cfg.auth_mode == 6
    then with_pmk (find_pmk addr cfg.saved_pmk) (wpa2_element cfg)
    else if cfg.auth_mode == 7
    then wpa2_element cfg
    else []

-- `RalinkIe`.
unfoldable pub ralink_element : AssocConfig → Aux → List ℕ
ralink_element cfg x =
    if cfg.aggregation_capable
    then (if cfg.piggy_back_capable && x.ap_ralink_ie % 4 == 3
        then 221 ∷ 7 ∷ 0 ∷ 12 ∷ 67 ∷ 3 ∷ 0 ∷ 0 ∷ 0 ∷ []
        else if x.ap_ralink_ie % 2 == 1
        then 221 ∷ 7 ∷ 0 ∷ 12 ∷ 67 ∷ 1 ∷ 0 ∷ 0 ∷ 0 ∷ []
        else [])
    else []

-- The two frames. That of a reassociation has no security element.
unfoldable pub assoc_request_frame : AssocConfig → Aux → AssocReq → List ℕ
unfolding mgt_mac_header_init make_outgoing_frame request_elements ext_rate_element wme_element
    security_element ralink_element
assoc_request_frame cfg x r = make_outgoing_frame (
    mgt_mac_header_init 0 0 r.ap_addr cfg.station_address r.ap_addr
    ∷ le16 r.requested_capability
    ∷ le16 r.listen_intv
    ∷ request_elements x
    ∷ ext_rate_element x
    ∷ wme_element cfg x
    ∷ security_element cfg r.ap_addr
    ∷ ralink_element cfg x
    ∷ [])

unfoldable pub reassoc_request_frame : AssocConfig → Aux → AssocReq → List ℕ
unfolding mgt_mac_header_init make_outgoing_frame request_elements ext_rate_element wme_element
    ralink_element
reassoc_request_frame cfg x r = make_outgoing_frame (
    mgt_mac_header_init 2 0 r.ap_addr cfg.station_address r.ap_addr
    ∷ le16 r.requested_capability
    ∷ le16 r.listen_intv
    ∷ take 6 r.ap_addr
    ∷ request_elements x
    ∷ ext_rate_element x
    ∷ wme_element cfg x
    ∷ ralink_element cfg x
    ∷ [])
