-- ===== src/Frames/Beacon.antt =====
-- The check of beacons and probe responses (Module/sanity.c, PeerBeaconAndProbeRspSanity). A call that
-- returns FALSE gives none: no caller reads its variables then.
pub mod Fields
pub mod Elements
mod Cases
pub mod Bounds
pub mod Room
pub mod Accept
use rt.Prelude.{
  ℕ, ◌+◌, ◌%◌, Bool, true, false, not, ◌&&◌, Option, none, some, List, ltb, ◌==◌, if◌then◌else◌,
}
use rt.Prelude.Lists.{take, drop}
use rt.Mlme.Recv.{fc_sub_type}
use rt.Frames.Element.{octet_at, u16_at, Element, walk, and_then}
use rt.Frames.Beacon.Fields.{CfParm, Report, Station, Progress}
use rt.Frames.Beacon.Elements.{
  on_ssid, on_supp_rates, on_ds_parm, on_cf_parm, on_ibss_parm, on_tim, on_vendor,
  on_ext_supp_rates, on_rsn, on_new_channel, on_erp,
}

-- A case that changes the report alone.
abbrev pub noted : Progress → Report → Option Progress
noted p r = some (record p { report = r })

-- `switch (pEid->Eid)`.
unfoldable pub on_element : Station → ℕ → Element → Progress → Option Progress
on_element st sub_type e p =
    let r = p.report in
    if e.eid == 0
    then on_ssid e p
    else if e.eid == 1
    then on_supp_rates e p
    else if e.eid == 3
    then on_ds_parm st e p
    else if e.eid == 4
    then on_cf_parm e p
    else if e.eid == 6
    then on_ibss_parm e p
    else if e.eid == 5
    then noted p (on_tim st sub_type e r)
    else if e.eid == 37
    then noted p (on_new_channel e r)
    else if e.eid == 221
    then noted p (on_vendor e r)
    else if e.eid == 50
    then noted p (on_ext_supp_rates e r)
    else if e.eid == 42
    then noted p (on_erp e r)
    else if e.eid == 48
    then noted p (on_rsn e r)
    else some p

-- The fixed part: the caller's variables are reset, and the fields in front of the elements read.
unfoldable pub fixed_fields : List ℕ → Report → Report
fixed_fields frame out = record out {
  atim_win = 0;
  erp = 0;
  dtim_count = 0;
  dtim_period = 0;
  bcast_flag = false;
  message_to_me = false;
  ext_rate_len = 0;
  ckip_flag = 0;
  aironet_cell_power_limit = 255;
  length_vie = 0;
  ralink_ie = 0;
  new_channel = 0;
  cf_parm = record out.cf_parm { cf_valid = false };
  qbss_load_valid = false;
  edca_parm = record out.edca_parm { valid = false };
  qos_capability_valid = false;
  addr2 = take 6 (drop 10 frame);
  bssid = take 6 (drop 16 frame);
  timestamp = take 8 (drop 24 frame);
  beacon_period = u16_at frame 32;
  capability_info = u16_at frame 34;
  bss_type = if u16_at frame 34 % 2 == 1 then 1 else 0;
}

-- Behind the loop: the 11a networks without a channel, and the three elements that must be there.
unfoldable pub latch_channel_when_missing : Station → Progress → Progress
latch_channel_when_missing st p =
    let r = p.report in
    if ltb 14 st.latch_channel && not p.seen_channel
    then record p { report = record r { channel = st.latch_channel }; seen_channel = true }
    else p

unfoldable pub all_seen : Progress → Option Report
all_seen p = if p.seen_ssid && (p.seen_rates && p.seen_channel) then some p.report else none

abbrev pub beacon_start : List ℕ → Report → Progress
beacon_start frame out = record {
  report = fixed_fields frame out;
  seen_ssid = false;
  seen_rates = false;
  seen_channel = false;
}

-- PeerBeaconAndProbeRspSanity on a message of `msg_len` bytes at the start of `frame`; as many
-- rounds as the message has bytes are enough.
unfoldable pub peer_beacon_and_probe_rsp_sanity : Station → List ℕ → ℕ → Report → Option Report
unfolding walk on_element latch_channel_when_missing all_seen fixed_fields
peer_beacon_and_probe_rsp_sanity st frame msg_len out =
    and_then
      (walk (on_element st (fc_sub_type frame)) msg_len frame msg_len 36 (beacon_start frame out))
      (λ p. all_seen (latch_channel_when_missing st p))
