-- ===== src/Bss/Fields.antt =====
-- The fields of an entry of the table (BSS_ENTRY of Module/mlme.h) that its searches do not read.
use rt.Prelude.{ℕ, Bool, false, List}
use rt.Prelude.Lists.{replicate}
use rt.Frames.Edca.{EdcaParm}
use rt.Bss.Cipher.{Security, CipherSuite}

-- QOS_CAPABILITY_PARM and QBSS_LOAD_PARM.
pub record QosCapability : Type 0 where
  pub qos_valid : Bool
  pub qos_q_ack : Bool
  pub qos_queue_request : Bool
  pub qos_txop_request : Bool
  pub qos_update_count : ℕ

pub record QbssLoad : Type 0 where
  pub load_valid : Bool
  pub sta_num : ℕ
  pub channel_utilization : ℕ
  pub remaining_admission_control : ℕ

pub record Detail : Type 0 where
  pub last_beacon_rx_time : ℕ
  pub hidden : Bool
  pub bss_type : ℕ
  pub beacon_period : ℕ
  pub atim_win : ℕ
  pub cfp_count : ℕ
  pub cfp_period : ℕ
  pub cfp_max_duration : ℕ
  pub cfp_dur_remaining : ℕ
  pub dtim_period : ℕ
  pub capability_info : ℕ
  pub privacy : Bool
  pub sup_rate : List ℕ
  pub sup_rate_len : ℕ
  pub ext_rate : List ℕ
  pub ext_rate_len : ℕ
  pub ckip_flag : ℕ
  pub fix_timestamp : List ℕ
  pub fix_beacon_interval : ℕ
  pub fix_capabilities : ℕ
  pub var_ie_len : ℕ
  pub var_ies : List ℕ
  pub security : Security
  pub edca_parm : EdcaParm
  pub qos_capability : QosCapability
  pub qbss_load : QbssLoad

-- All of it zero, as BssTableInit leaves it.
abbrev pub zero_suite : CipherSuite
zero_suite = record {
  pair_cipher = 0;
  pair_cipher_aux = 0;
  group_cipher = 0;
  rsn_capability = 0;
  mix_mode = false;
}

abbrev pub zero_edca : EdcaParm
zero_edca = record {
  valid = false;
  q_ack = false;
  queue_request = false;
  txop_request = false;
  apsd_capable = false;
  edca_update_count = 0;
  aifsn = replicate 4 0;
  cwmin = replicate 4 0;
  cwmax = replicate 4 0;
  txop = replicate 4 0;
  acm = replicate 4 false;
}

abbrev pub zero_detail : Detail
zero_detail = record {
  last_beacon_rx_time = 0;
  hidden = false;
  bss_type = 0;
  beacon_period = 0;
  atim_win = 0;
  cfp_count = 0;
  cfp_period = 0;
  cfp_max_duration = 0;
  cfp_dur_remaining = 0;
  dtim_period = 0;
  capability_info = 0;
  privacy = false;
  sup_rate = replicate 12 0;
  sup_rate_len = 0;
  ext_rate = replicate 12 0;
  ext_rate_len = 0;
  ckip_flag = 0;
  fix_timestamp = replicate 8 0;
  fix_beacon_interval = 0;
  fix_capabilities = 0;
  var_ie_len = 0;
  var_ies = replicate 128 0;
  security = record {
    wep_status = 0;
    auth_mode = 0;
    auth_mode_aux = 0;
    auth_bit_mode = 0;
    pair_cipher_bit_mode = 0;
    wpa = zero_suite;
    wpa2 = zero_suite;
  };
  edca_parm = zero_edca;
  qos_capability = record {
    qos_valid = false;
    qos_q_ack = false;
    qos_queue_request = false;
    qos_txop_request = false;
    qos_update_count = 0;
  };
  qbss_load = record {
    load_valid = false;
    sta_num = 0;
    channel_utilization = 0;
    remaining_admission_control = 0;
  };
}
