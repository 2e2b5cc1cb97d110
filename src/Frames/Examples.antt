-- ===== src/Frames/Examples.antt =====
-- The checks of Module/sanity.c at concrete frames and requests.
use rt.Prelude.{
  ℕ, ◌+◌, ◌^◌, ◌≤◌, ◌<◌, ◌≡◌, refl, ◌⊎◌, inr, true, false, some, List, [], ◌∷◌, ◌++◌, arith,
}
use rt.Prelude.Lists.{length, get_or, take, mem_eq, replicate}
use rt.Frames.Element.{walk}
use rt.Frames.Element.Walk.{encode}
use rt.Frames.Edca.{EdcaParm}
use rt.Frames.Tim.{get_tim_bit}
use rt.Frames.Tim.Bitmap.{announced, get_tim_bit_lem}
use rt.Frames.Beacon.{fixed_fields, peer_beacon_and_probe_rsp_sanity}
use rt.Frames.Beacon.Fields.{Report, Station}
use rt.Frames.Beacon.Elements.{channel_sanity}
use rt.Frames.Beacon.Accept.{required, read, written_beacon_report, written_beacon_read}
use rt.Frames.Beacon.Bounds.{accepted_beacon_bounds}
use rt.Frames.Requests.{ProbeReq, peer_probe_req_sanity}
use rt.Frames.Requests.Probe.{probe_req_read}
use rt.Frames.AssocRsp.{AssocRsp, assoc_accepted, peer_assoc_rsp_sanity, accepted_assoc_rsp_bounds}
use rt.Frames.Rates.{some_ofdm, network_type_in_use_sanity, peer_tx_type_in_use_sanity, ds}
use rt.Frames.Rates.Extended.{extended_rates_missed}
use rt.Frames.WepKey.{NdisKey, Keys, no_key, wep_key_ok, rtmp_wpa_wep_key_sanity, success}
use rt.Frames.WepKey.Install.{wep_key_installed}

abbrev station : Station
station = record { channel_list = 1 ∷ 6 ∷ 11 ∷ []; latch_channel = 6; infra_on = false; aid = 0 }

abbrev no_edca : EdcaParm
no_edca = record {
  valid = false;
  q_ack = false;
  queue_request = false;
  txop_request = false;
  apsd_capable = false;
  edca_update_count = 0;
  aifsn = replicate 4 0;
  cwmin = replicate 4 0;
  cwmax = replicate 4 0;
  txop = replicate 4 0;
  acm = replicate 4 false;
}

-- The caller's variables, as they may be.
abbrev out : Report
out = record {
  addr2 = replicate 6 0;
  bssid = replicate 6 0;
  ssid = replicate 32 7;
  ssid_len = 99;
  bss_type = 0;
  beacon_period = 0;
  channel = 0;
  new_channel = 0;
  timestamp = replicate 8 0;
  cf_parm = record {
    cf_valid = true;
    cfp_count = 0;
    cfp_period = 0;
    cfp_max_duration = 0;
    cfp_dur_remaining = 0;
  };
  atim_win = 0;
  capability_info = 0;
  erp = 0;
  dtim_count = 0;
  dtim_period = 0;
  bcast_flag = true;
  message_to_me = true;
  sup_rate = replicate 12 0;
  sup_rate_len = 0;
  ext_rate = replicate 12 0;
  ext_rate_len = 0;
  ckip_flag = 0;
  aironet_cell_power_limit = 0;
  edca_parm = no_edca;
  qbss_load_valid = false;
  qos_capability_valid = false;
  ralink_ie = 0;
  length_vie = 0;
  vie = replicate 128 0;
}

abbrev lab : List ℕ
lab = 108 ∷ 97 ∷ 98 ∷ []

abbrev rates : List ℕ
rates = 130 ∷ 132 ∷ 139 ∷ 150 ∷ []

abbrev header : List ℕ
header = 128 ∷ replicate 35 1

abbrev beacon : List ℕ
beacon = header ++ encode (required lab rates 6)

abbrev report : Report
report = read lab rates 6 (fixed_fields beacon out)

written_beacon_read_example :
    (r : Report) × (peer_beacon_and_probe_rsp_sanity station beacon
        (36 + length (encode (required lab rates 6)))
        out
      ≡ some r)
    × (r.ssid_len ≡ 3)
    × (take 3 r.ssid ≡ lab)
    × (r.sup_rate_len ≡ 4)
    × (take 4 r.sup_rate ≡ rates)
    × (r.channel ≡ 6)
unfolding channel_sanity
written_beacon_read_example =
    written_beacon_read station lab rates 6 (omega arith) (omega arith) refl beacon out refl

accepted_beacon_bounds_example :
    (report.ssid_len ≤ 32)
    × (report.sup_rate_len ≤ 12)
    × (report.ext_rate_len ≤ 12)
    × (report.length_vie < 128)
    × ((channel_sanity station.channel_list report.channel ≡ true)
        ⊎ ((14 < station.latch_channel) × (report.channel ≡ station.latch_channel)))
unfolding channel_sanity
accepted_beacon_bounds_example =
    accepted_beacon_bounds station beacon (36 + length (encode (required lab rates 6))) out report
      (written_beacon_report station lab rates 6 (omega arith) (omega arith) refl beacon out refl)

-- A map with the bytes 2 and 3, in which station 17 has traffic.
abbrev map : List ℕ
map = 5 ∷ 5 ∷ 0 ∷ 3 ∷ 3 ∷ 2 ∷ 0 ∷ []

get_tim_bit_lem_example : (get_tim_bit map 17).message_to_me ≡ announced map 17
get_tim_bit_lem_example =
    get_tim_bit_lem map 17 (record { bytes = omega arith; last = omega arith })

traffic_for_17 : (get_tim_bit map 17).message_to_me ≡ true
unfolding get_tim_bit
traffic_for_17 = refl

-- An SSID of 200 bytes.
abbrev long_ssid : List ℕ
long_ssid = replicate 200 65

abbrev eight_rates : List ℕ
eight_rates = rates ++ rates

abbrev probe : List ℕ
probe = replicate 24 0 ++ encode ((0, long_ssid) ∷ (1, eight_rates) ∷ [])

probe_req_read_example :
    (r : ProbeReq) × (peer_probe_req_sanity 2 probe (replicate 32 0) ≡ some r)
    × (r.probe_ssid_len ≡ 200)
    × (take 200 r.probe_ssid ≡ long_ssid)
probe_req_read_example =
    probe_req_read 2 probe (replicate 32 0) long_ssid eight_rates refl (inr (omega arith))
      (omega arith) refl

-- A positive response, with two rates and no further element.
abbrev response : List ℕ
response = replicate 28 0 ++ (5 ∷ 192 ∷ 1 ∷ 2 ∷ 130 ∷ 132 ∷ [])

abbrev assoc_out : AssocRsp
assoc_out = record {
  addr2 = replicate 6 0;
  capability_info = 0;
  status = 9;
  aid = 0;
  sup_rate = replicate 12 0;
  sup_rate_len = 0;
  ext_rate = replicate 12 0;
  ext_rate_len = 0;
  edca_parm = no_edca;
}

accepted_assoc_rsp_bounds_example :
    let r = assoc_accepted response assoc_out in
    (r.aid < 2 ^ 14) × (r.sup_rate_len ≤ 12) × (r.ext_rate_len ≤ 12)
accepted_assoc_rsp_bounds_example =
    accepted_assoc_rsp_bounds response 34 assoc_out (assoc_accepted response assoc_out)
      (unfold peer_assoc_rsp_sanity walk in refl) refl

extended_rates_missed_example :
    (network_type_in_use_sanity 6 rates 4 (12 ∷ []) 1 ≡ ds)
    × (peer_tx_type_in_use_sanity 6 rates 4 (12 ∷ []) 1 ≡ 3)
unfolding some_ofdm
extended_rates_missed_example =
    extended_rates_missed 6 rates 4 (12 ∷ []) 1 (omega arith) (omega arith) (omega arith) refl refl

-- A group key of five bytes for the place 2, which is used for sending.
abbrev group_key : NdisKey
group_key = record {
  key_index = 2 ^ 31 + 2;
  key_length = 5;
  key_bssid = replicate 6 255;
  key_material = 1 ∷ 2 ∷ 3 ∷ 4 ∷ 5 ∷ [];
}

abbrev no_keys : Keys
no_keys = record { shared_key = replicate 4 no_key; default_key_id = 0; port_secured = 2 }

wep_key_installed_example :
    (keys' : Keys) × (rtmp_wpa_wep_key_sanity (replicate 6 1) group_key no_keys ≡ success keys')
    × (get_or (get_or keys'.shared_key 2 no_key).key 13 0 ≡ 4)
    × (get_or keys'.shared_key 1 no_key ≡ no_key)
wep_key_installed_example =
    wep_key_installed (replicate 6 1) group_key no_keys 13 1 (unfold wep_key_ok mem_eq in refl)
      (omega arith) (omega arith) (omega arith) (omega arith) refl refl (omega arith)
      (λ e. absurd (omega arith))
