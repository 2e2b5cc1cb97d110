-- ===== src/Frames/Beacon/Fields.antt =====
-- What the check of a beacon reads and writes (Module/sanity.c, PeerBeaconAndProbeRspSanity): the
-- caller's variables behind its pointers are a `Report`, the structures are in Module/mlme.h.
use rt.Prelude.{ℕ, Bool, List}
use rt.Frames.Edca.{EdcaParm}

pub record CfParm : Type 0 where
  pub cf_valid : Bool
  pub cfp_count : ℕ
  pub cfp_period : ℕ
  pub cfp_max_duration : ℕ
  pub cfp_dur_remaining : ℕ

pub record Report : Type 0 where
  pub addr2 : List ℕ
  pub bssid : List ℕ
  pub ssid : List ℕ
  pub ssid_len : ℕ
  pub bss_type : ℕ
  pub beacon_period : ℕ
  pub channel : ℕ
  pub new_channel : ℕ
  pub timestamp : List ℕ
  pub cf_parm : CfParm
  pub atim_win : ℕ
  pub capability_info : ℕ
  pub erp : ℕ
  pub dtim_count : ℕ
  pub dtim_period : ℕ
  pub bcast_flag : Bool
  pub message_to_me : Bool
  pub sup_rate : List ℕ
  pub sup_rate_len : ℕ
  pub ext_rate : List ℕ
  pub ext_rate_len : ℕ
  pub ckip_flag : ℕ
  pub aironet_cell_power_limit : ℕ
  pub edca_parm : EdcaParm
  pub qbss_load_valid : Bool
  pub qos_capability_valid : Bool
  pub ralink_ie : ℕ
  pub length_vie : ℕ
  pub vie : List ℕ

-- What the check reads of the adapter.
pub record Station : Type 0 where
  pub channel_list : List ℕ
  pub latch_channel : ℕ
  pub infra_on : Bool
  pub aid : ℕ

-- The report so far, with the three bits of `Sanity`.
pub record Progress : Type 0 where
  pub report : Report
  pub seen_ssid : Bool
  pub seen_rates : Bool
  pub seen_channel : Bool
