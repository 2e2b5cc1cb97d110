-- ===== src/Frames/Beacon/Elements.antt =====
-- The cases of the switch over the elements of a beacon (Module/sanity.c,
-- PeerBeaconAndProbeRspSanity). A case that returns FALSE gives none.
use rt.Prelude.{
  ℕ, ◌+◌, ◌*◌, ◌%◌, ◌^◌, Bool, true, false, ◌&&◌, ◌||◌, Option, none, some, List, [], ◌∷◌, leb,
  ◌==◌, if◌then◌else◌,
}
use rt.Prelude.Lists.{drop, memcpy, memcpy_at, mem_eq}
use rt.Frames.Element.{octet_at, sign_extend, u16_at, Element}
use rt.Frames.Tim.{get_tim_bit}
use rt.Frames.Edca.{edca_of_parm, edca_of_info}
use rt.Frames.Beacon.Fields.{Report, Station, Progress}

abbrev pub max_len_of_ssid : ℕ
max_len_of_ssid = 32

abbrev pub max_len_of_supported_rates : ℕ
max_len_of_supported_rates = 12

abbrev pub max_vie_len : ℕ
max_vie_len = 128

abbrev pub wpa_oui : List ℕ
wpa_oui = 0 ∷ 80 ∷ 242 ∷ 1 ∷ []

abbrev pub rsn_oui : List ℕ
rsn_oui = 0 ∷ 15 ∷ 172 ∷ []

abbrev pub wme_info_elem : List ℕ
wme_info_elem = 0 ∷ 80 ∷ 242 ∷ 2 ∷ 0 ∷ 1 ∷ []

abbrev pub wme_parm_elem : List ℕ
wme_parm_elem = 0 ∷ 80 ∷ 242 ∷ 2 ∷ 1 ∷ 1 ∷ []

abbrev pub ralink_oui : List ℕ
ralink_oui = 0 ∷ 12 ∷ 67 ∷ []

-- ChannelSanity.
unfoldable pub channel_sanity : List ℕ → ℕ → Bool
channel_sanity [] channel = false
channel_sanity (c ∷ cs) channel = channel == c || channel_sanity cs channel

-- `case IE_SSID`: the first one counts, and a zero byte is written behind it.
unfoldable pub on_ssid : Element → Progress → Option Progress
on_ssid e p =
    let r = p.report in
    if p.seen_ssid
    then some p
    else if leb e.len max_len_of_ssid
    then some (record p {
      report = record r {
        ssid = memcpy_at (memcpy r.ssid e.octet e.len) e.len (0 ∷ []) 1;
        ssid_len = e.len;
      };
      seen_ssid = true;
    })
    else none

-- `case IE_SUPP_RATES`.
unfoldable pub on_supp_rates : Element → Progress → Option Progress
on_supp_rates e p =
    let r = p.report in
    if leb e.len max_len_of_supported_rates
    then some (record p {
      report = record r { sup_rate = memcpy r.sup_rate e.octet e.len; sup_rate_len = e.len };
      seen_rates = true;
    })
    else none

-- `case IE_DS_PARM`.
unfoldable pub on_ds_parm : Station → Element → Progress → Option Progress
unfolding channel_sanity
on_ds_parm st e p =
    let r = p.report in
    if e.len == 1 && channel_sanity st.channel_list (octet_at e.octet 0)
    then some (record p { report = record r { channel = octet_at e.octet 0 }; seen_channel = true })
    else none

-- A `USHORT` from two bytes of type `CHAR`.
abbrev pub char_pair : ℕ → ℕ → ℕ
char_pair low high = (sign_extend 16 low + 256 * sign_extend 16 high) % 2 ^ 16

-- `case IE_CF_PARM`.
unfoldable pub on_cf_parm : Element → Progress → Option Progress
on_cf_parm e p =
    let r = p.report in
    if e.len == 6
    then some (record p {
      report = record r {
        cf_parm = record {
          cf_valid = true;
          cfp_count = octet_at e.octet 0;
          cfp_period = octet_at e.octet 1;
          cfp_max_duration = char_pair (octet_at e.octet 2) (octet_at e.octet 3);
          cfp_dur_remaining = char_pair (octet_at e.octet 4) (octet_at e.octet 5);
        };
      };
    })
    else none

-- `case IE_IBSS_PARM`.
unfoldable pub on_ibss_parm : Element → Progress → Option Progress
on_ibss_parm e p =
    let r = p.report in
    if e.len == 2
    then some (record p { report = record r { atim_win = u16_at e.octet 0 } })
    else none

-- `case IE_TIM`, which counts in the beacons of an access point.
unfoldable pub on_tim : Station → ℕ → Element → Report → Report
unfolding get_tim_bit
on_tim st sub_type e r =
    let t = get_tim_bit (e.eid ∷ e.len ∷ e.octet) st.aid in
    if st.infra_on && sub_type == 8
    then record r {
      bcast_flag = t.bcast_flag;
      dtim_count = t.dtim_count;
      dtim_period = t.dtim_period;
      message_to_me = t.message_to_me;
    }
    else r

-- The element is put behind the others for the list of networks, when there is room.
unfoldable pub append_vie : Element → Report → Report
append_vie e r = if leb max_vie_len (r.length_vie + e.len + 2) then r else record r {
  vie = memcpy_at r.vie r.length_vie (e.eid ∷ e.len ∷ e.octet) (e.len + 2);
  length_vie = r.length_vie + (e.len + 2);
}

-- `case IE_VENDOR_SPECIFIC`.
unfoldable pub on_vendor : Element → Report → Report
unfolding append_vie
on_vendor e r =
    if mem_eq e.octet ralink_oui 3 && e.len == 7
    then record r { ralink_ie = sign_extend 32 (octet_at e.octet 3) }
    else if mem_eq e.octet wpa_oui 4
    then append_vie e r
    else if mem_eq e.octet wme_parm_elem 6 && e.len == 24
    then record r { edca_parm = edca_of_parm e.octet r.edca_parm }
    else if mem_eq e.octet wme_info_elem 6 && e.len == 7
    then record r { edca_parm = edca_of_info e.octet r.edca_parm }
    else r

-- `case IE_EXT_SUPP_RATES`.
unfoldable pub on_ext_supp_rates : Element → Report → Report
on_ext_supp_rates e r =
    if leb e.len max_len_of_supported_rates
    then record r { ext_rate = memcpy r.ext_rate e.octet e.len; ext_rate_len = e.len }
    else r

-- `case IE_RSN`.
unfoldable pub on_rsn : Element → Report → Report
unfolding append_vie
on_rsn e r = if mem_eq (drop 2 e.octet) rsn_oui 3 then append_vie e r else r

-- `case IE_CHANNEL_SWITCH_ANNOUNCEMENT`.
unfoldable pub on_new_channel : Element → Report → Report
on_new_channel e r = if e.len == 3 then record r { new_channel = octet_at e.octet 1 } else r

-- `case IE_ERP`.
unfoldable pub on_erp : Element → Report → Report
on_erp e r = if e.len == 1 then record r { erp = octet_at e.octet 0 } else r
