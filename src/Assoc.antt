-- ===== src/Assoc.antt =====
-- The actions of the association machine (Module/assoc.c). An action gives the state it leaves and
-- what it does: frames by MiniportMMRequest, the status in its confirmations to the control machine,
-- and LinkDown. Whether kmalloc succeeds is an argument, and so is what the variables for a response
-- hold before they are filled. The events for the user's WPA supplicant are left out.
pub mod Request
pub mod State
pub mod Joined
pub mod Run
mod Examples
use rt.Prelude.{
  ℕ, zero, suc, ◌+◌, ◌*◌, ◌%◌, Bool, true, false, not, ◌&&◌, ◌||◌, Option, none, some, List, [],
  ◌∷◌, ◌++◌, bit_and, ◌==◌, if◌then◌else◌,
}
use rt.Prelude.Lists.{length, get_or, take, memcpy, mem_eq}
use rt.Auth.Frame.{mgt_mac_header_init, make_outgoing_frame, le16}
use rt.Bss.{bss_not_found, bss_table_search, bss_at}
use rt.Frames.AssocRsp.{AssocRsp, peer_assoc_rsp_sanity}
use rt.Frames.Requests.{peer_disassoc_sanity}
use rt.Wpa.Packet.{rate_id_to_500kbps}
use rt.Assoc.State.{
  AssocState, assoc_conf, reassoc_conf, disassoc_conf, transmit, link_down, AssocResult, finish,
}
use rt.Assoc.Joined.{assoc_post_proc}
use rt.Assoc.Request.{
  AssocConfig, Aux, AssocReq, element, request_elements, security_element, assoc_request_frame,
  reassoc_request_frame,
}

-- What a request leaves in `AssocInfo` and `ReqVarIEs`. The lengths are written with a security
-- element only.
unfoldable pub with_request_info : AssocConfig → AssocReq → AssocState → AssocState
unfolding request_elements security_element
with_request_info cfg r a =
    let security = security_element cfg r.ap_addr in
    let ies = request_elements a.aux ++ security in
    let b = record a {
      info = record a.info {
        info_length = 40;
        available_request = 3;
        request_capabilities = r.requested_capability;
        request_listen_interval = r.listen_intv;
        offset_request_ies = 40;
      };
      req_var_ies = memcpy a.req_var_ies ies (length ies);
    } in
    if length security == 0 then b else record b {
      req_var_ie_len = length ies % 256;
      info = record b.info {
        request_ie_length = length ies % 256;
        offset_response_ies = 40 + length ies % 256;
      };
    }

-- MlmeAssocReqAction.
unfoldable pub run_mlme_assoc_req_action : AssocConfig → Bool → AssocReq → AssocState → AssocResult
unfolding with_request_info assoc_request_frame
run_mlme_assoc_req_action cfg alloc r a =
    let b = record a { assoc_timer = false; aux = record a.aux { aux_bssid = take 6 r.ap_addr } } in
    if cfg.blocked
    then finish (assoc_conf 83) a
    else if not alloc
    then finish (assoc_conf 82) b
    else (
      record (with_request_info cfg r b) { assoc_timer = true; machine_state = 1 },
      transmit (assoc_request_frame cfg b.aux r) ∷ [],
    )

-- MlmeReassocReqAction.
unfoldable pub run_mlme_reassoc_req_action :
    AssocConfig → Bool → AssocReq → AssocState → AssocResult
unfolding reassoc_request_frame
run_mlme_reassoc_req_action cfg alloc r a =
    if cfg.blocked
    then finish (reassoc_conf 83) a
    else if not alloc
    then finish (reassoc_conf 82) (record a { reassoc_timer = false })
    else (
      record a {
        reassoc_timer = true;
        aux = record a.aux { aux_bssid = take 6 r.ap_addr };
        machine_state = 2;
      },
      transmit (reassoc_request_frame cfg a.aux r) ∷ [],
    )

-- A disassociation frame (MlmeDisassocReqAction and Cls3errAction).
unfoldable pub disassoc_frame : AssocConfig → List ℕ → List ℕ → ℕ → List ℕ
unfolding mgt_mac_header_init make_outgoing_frame
disassoc_frame cfg da bssid reason =
    make_outgoing_frame (mgt_mac_header_init 10 0 da cfg.station_address bssid ∷ le16 reason ∷ [])

unfoldable pub run_mlme_disassoc_req_action :
    AssocConfig → Bool → List ℕ → ℕ → AssocState → AssocResult
unfolding disassoc_frame
run_mlme_disassoc_req_action cfg alloc addr reason a =
    if not alloc then finish (disassoc_conf 82) a else (
      record a {
        disassoc_timer = true;
        disassoc_reason = 8;
        disassoc_sta = memcpy a.disassoc_sta addr 6;
        machine_state = 3;
      },
      transmit (disassoc_frame cfg addr addr reason) ∷ [],
    )

unfoldable pub cls3err_action : AssocConfig → Bool → List ℕ → AssocState → AssocResult
unfolding disassoc_frame
cls3err_action cfg alloc addr a =
    if alloc
    then (
      record a { disassoc_reason = 7; disassoc_sta = memcpy a.disassoc_sta addr 6 },
      transmit (disassoc_frame cfg addr cfg.joined_bssid 7) ∷ [],
    )
    else (a, [])

-- PeerAssocRspAction and PeerReassocRspAction, on what PeerAssocRspSanity made of the frame.
abbrev pub accept : AssocConfig → AssocRsp → AssocState → AssocState
accept cfg r a = if r.status == 0 then assoc_post_proc cfg r a else a

unfoldable pub checked_assoc_rsp : AssocConfig → Option AssocRsp → AssocState → AssocResult
unfolding assoc_post_proc
checked_assoc_rsp cfg none a = (a, [])
checked_assoc_rsp cfg (some r) a =
    if mem_eq r.addr2 a.aux.aux_bssid 6
    then finish (assoc_conf r.status) (accept cfg r (record a { assoc_timer = false }))
    else (a, [])

unfoldable pub checked_reassoc_rsp : AssocConfig → Option AssocRsp → AssocState → AssocResult
unfolding assoc_post_proc
checked_reassoc_rsp cfg none a = (a, [])
checked_reassoc_rsp cfg (some r) a =
    if mem_eq r.addr2 a.aux.aux_bssid 6
    then finish (reassoc_conf r.status) (accept cfg r (record a { reassoc_timer = false }))
    else (a, [])

unfoldable pub run_peer_assoc_rsp_action :
    AssocConfig → AssocRsp → List ℕ → ℕ → AssocState → AssocResult
unfolding checked_assoc_rsp peer_assoc_rsp_sanity
run_peer_assoc_rsp_action cfg out frame msg_len a =
    checked_assoc_rsp cfg (peer_assoc_rsp_sanity frame msg_len out) a

unfoldable pub run_peer_reassoc_rsp_action :
    AssocConfig → AssocRsp → List ℕ → ℕ → AssocState → AssocResult
unfolding checked_reassoc_rsp peer_assoc_rsp_sanity
run_peer_reassoc_rsp_action cfg out frame msg_len a =
    checked_reassoc_rsp cfg (peer_assoc_rsp_sanity frame msg_len out) a

-- PeerDisassocAction.
unfoldable pub checked_disassoc : AssocConfig → Option (List ℕ × ℕ) → AssocState → AssocResult
checked_disassoc cfg none a = (a, [])
checked_disassoc cfg (some (addr2, reason)) a =
    if cfg.infra_on && mem_eq cfg.joined_bssid addr2 6 then finish link_down a else (a, [])

unfoldable pub run_peer_disassoc_action : AssocConfig → List ℕ → AssocState → AssocResult
unfolding checked_disassoc peer_disassoc_sanity
run_peer_disassoc_action cfg frame a = checked_disassoc cfg (peer_disassoc_sanity frame) a
