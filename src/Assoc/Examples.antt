-- ===== src/Assoc/Examples.antt =====
-- The association machine of Module/assoc.c at concrete messages.
use rt.Prelude.{ℕ, refl, true, false, List, [], ◌∷◌, arith, inr}
use rt.Prelude.Lists.{replicate}
use rt.Frames.Edca.{EdcaParm}
use rt.Assoc.Request.{AssocConfig, AssocReq, security_element}
use rt.Assoc.Request.Announced.{Says, suites_of, security_element_parsed}
use rt.Assoc.State.{AssocState}
use rt.Assoc.Run.{assoc_req, Meets, assoc_perform, AssocWorld, performed, assoc_start}
use rt.Assoc.Run.Settled.{Settles, assoc_perform-Settles}

abbrev access_point : List ℕ
access_point = 0 ∷ 12 ∷ 67 ∷ 1 ∷ 2 ∷ 3 ∷ []

-- A station in the mode WPA2PSK that asks for AES in both ciphers.
abbrev station : AssocConfig
station = record {
  station_address = 0 ∷ 12 ∷ 67 ∷ 9 ∷ 9 ∷ 9 ∷ [];
  joined_bssid = access_point;
  blocked = false;
  infra_on = false;
  auth_mode = 7;
  group_cipher = 4;
  pair_cipher = 6;
  phy_mode = 0;
  apsd_capable = false;
  apsd_ac_vo = 0;
  apsd_ac_vi = 0;
  apsd_ac_bk = 0;
  apsd_ac_be = 0;
  max_sp_length = 0;
  aggregation_capable = false;
  piggy_back_capable = false;
  saved_pmk = [];
  known_bss = record { bss_nr = 0; bss_overlap_nr = 0; bss_entry = [] };
}

abbrev no_edca : EdcaParm
no_edca = record {
  valid = false;
  q_ack = false;
  queue_request = false;
  txop_request = false;
  apsd_capable = false;
  edca_update_count = 0;
  aifsn = replicate 4 0;
  cwmin = replicate 4 0;
  cwmax = replicate 4 0;
  txop = replicate 4 0;
  acm = replicate 4 false;
}

abbrev machine : AssocState
machine = record {
  machine_state = 0;
  aux = record {
    aux_bss_type = 1;
    aux_bssid = access_point;
    aux_channel = 1;
    aux_ssid = 104 ∷ 105 ∷ replicate 30 0;
    aux_ssid_len = 2;
    aux_aid = 0;
    aux_capability_info = 0;
    aux_sup_rate = 130 ∷ 132 ∷ replicate 10 0;
    aux_sup_rate_len = 2;
    aux_ext_rate = replicate 12 0;
    aux_ext_rate_len = 0;
    ap_edca_parm = no_edca;
    ap_ralink_ie = 0;
  };
  assoc_timer = false;
  reassoc_timer = false;
  disassoc_timer = false;
  r17_upper = false;
  disassoc_reason = 0;
  disassoc_sta = replicate 6 0;
  info = record {
    info_length = 40;
    available_request = 0;
    request_capabilities = 0;
    request_listen_interval = 0;
    request_ie_length = 0;
    offset_request_ies = 40;
    available_response = 0;
    response_capabilities = 0;
    response_status = 0;
    association_id = 0;
    response_ie_length = 0;
    offset_response_ies = 40;
  };
  req_var_ies = replicate 128 0;
  req_var_ie_len = 0;
  res_var_ies = replicate 128 0;
  res_var_ie_len = 0;
}

abbrev to_associate : AssocReq
to_associate = record { ap_addr = access_point; requested_capability = 1; listen_intv = 5 }

abbrev meets : Meets
meets = record {
  has_memory = true;
  variables = record {
    addr2 = replicate 6 0;
    capability_info = 0;
    status = 0;
    aid = 0;
    sup_rate = replicate 12 0;
    sup_rate_len = 0;
    ext_rate = replicate 12 0;
    ext_rate_len = 0;
    edca_parm = no_edca;
  };
}

security_element_parsed_example : Says 4 6 7 (suites_of 7) (security_element station access_point)
security_element_parsed_example = security_element_parsed station access_point (inr (inr refl))

assoc_perform-Settles_example :
    Settles station meets
      (assoc_req to_associate)
      machine
      (assoc_perform station meets (assoc_req to_associate) machine)
assoc_perform-Settles_example =
    assoc_perform-Settles station meets machine (assoc_req to_associate) (omega arith)

-- The world after a request has come and was handled.
abbrev requested : AssocWorld
requested =
    performed station meets (assoc_req to_associate) []
      (record (assoc_start machine) { waiting = assoc_req to_associate ∷ [] })
