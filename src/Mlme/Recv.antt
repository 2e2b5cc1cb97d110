-- ===== src/Mlme/Recv.antt =====
-- The messages that received frames become (MsgTypeSubst and MlmeEnqueueForRecv in Module/mlme.c,
-- WpaMsgTypeSubst in Module/wpa.c). A frame is the list of its bytes; the frame control word is the
-- little-endian bit field of Module/rtmp.h: two bits of version, two of type, four of subtype.
use rt.Prelude.{
  ℕ, ◌+◌, ◌*◌, ◌/◌, ◌%◌, Bool, true, false, ◌&&◌, ◌||◌, Option, none, some, List, ltb, ◌==◌,
  if◌then◌else◌,
}
use rt.Prelude.Lists.{get_or}
use rt.Mlme.Queue.{Queue, Reception, enqueue_message, max_len_of_mlme_buffer}
use rt.Mlme.Machine.Names.{
  assoc_state_machine, auth_rsp_state_machine, auth_state_machine, mt2_eap_packet,
  mt2_eapol_asf_alert, mt2_eapol_key, mt2_eapol_logoff, mt2_eapol_start, mt2_peer_assoc_req,
  mt2_peer_assoc_rsp, mt2_peer_atim, mt2_peer_auth_even, mt2_peer_auth_odd, mt2_peer_beacon,
  mt2_peer_deauth, mt2_peer_disassoc_req, mt2_peer_probe_req, mt2_peer_probe_rsp,
  mt2_peer_reassoc_req, mt2_peer_reassoc_rsp, sync_state_machine, wpa_psk_state_machine,
}

abbrev pub frame_byte : List ℕ → ℕ → ℕ
frame_byte frame i = get_or frame i 0

-- `Hdr.FC.Type` and `Hdr.FC.SubType`.
abbrev pub fc_type : List ℕ → ℕ
fc_type frame = frame_byte frame 0 / 4 % 4

abbrev pub fc_sub_type : List ℕ → ℕ
fc_sub_type frame = frame_byte frame 0 / 16 % 16

-- The sequence number of an authentication frame, read by `memcpy` on a little-endian machine.
abbrev pub auth_seq : List ℕ → ℕ
auth_seq frame = frame_byte frame 26 + 256 * frame_byte frame 27

-- `WpaMsgTypeSubst`.
unfoldable pub wpa_msg_type_subst : ℕ → Option ℕ
wpa_msg_type_subst eap_type =
    if eap_type == 0
    then some mt2_eap_packet
    else if eap_type == 1
    then some mt2_eapol_start
    else if eap_type == 2
    then some mt2_eapol_logoff
    else if eap_type == 3
    then some mt2_eapol_key
    else if eap_type == 4
    then some mt2_eapol_asf_alert
    else none

-- The authentication case of the switch.
unfoldable pub auth_subst : ℕ → Option (ℕ × ℕ)
auth_subst seq =
    if seq == 1 || seq == 3
    then some (auth_rsp_state_machine, mt2_peer_auth_odd)
    else if seq == 2 || seq == 4
    then some (auth_state_machine, mt2_peer_auth_even)
    else none

-- The switch on the subtype of a management frame.
unfoldable pub mgmt_subst : List ℕ → ℕ → Option (ℕ × ℕ)
mgmt_subst frame sub_type =
    if sub_type == 0
    then some (assoc_state_machine, mt2_peer_assoc_req)
    else if sub_type == 1
    then some (assoc_state_machine, mt2_peer_assoc_rsp)
    else if sub_type == 2
    then some (assoc_state_machine, mt2_peer_reassoc_req)
    else if sub_type == 3
    then some (assoc_state_machine, mt2_peer_reassoc_rsp)
    else if sub_type == 4
    then some (sync_state_machine, mt2_peer_probe_req)
    else if sub_type == 5
    then some (sync_state_machine, mt2_peer_probe_rsp)
    else if sub_type == 8
    then some (sync_state_machine, mt2_peer_beacon)
    else if sub_type == 9
    then some (sync_state_machine, mt2_peer_atim)
    else if sub_type == 10
    then some (assoc_state_machine, mt2_peer_disassoc_req)
    else if sub_type == 11
    then auth_subst (auth_seq frame)
    else if sub_type == 12
    then some (auth_rsp_state_machine, mt2_peer_deauth)
    else none

-- The EAPOL packet type, behind the LLC header and, in a QoS frame, the QoS field.
abbrev pub eap_type : Bool → List ℕ → ℕ
eap_type wmm frame =
    if wmm && fc_sub_type frame == 8 then frame_byte frame 35 else frame_byte frame 33

-- `MsgTypeSubst`: the machine and the message, when it returns TRUE; `wmm` is `bWmmCapable`.
unfoldable pub msg_type_subst : Bool → List ℕ → Option (ℕ × ℕ)
msg_type_subst wmm frame =
    if fc_type frame == 2
    then elim (wpa_msg_type_subst (eap_type wmm frame)) [
      | none ↦ none
      | some msg_type ↦ some (wpa_psk_state_machine, msg_type)
    ]
    else if fc_type frame == 0
    then mgmt_subst frame (fc_sub_type frame)
    else none

-- `MlmeEnqueueForRecv` up to its call of `MlmeHandler`, as an enqueue that nothing interrupts. The
-- look for a vendor's configuration in a probe response, which does not touch the queue, is left
-- out.
unfoldable pub mlme_enqueue_for_recv : Bool → Reception → ℕ → List ℕ → Queue → Queue × Bool
mlme_enqueue_for_recv wmm r msg_len msg q =
    if ltb max_len_of_mlme_buffer msg_len then (q, false) else elim (msg_type_subst wmm msg) [
      | none ↦ (q, false)
      | some (machine, msg_type) ↦
          elim (enqueue_message
            (record {
              machine = machine;
              msg_type = msg_type;
              msg_len = msg_len;
              msg = msg;
              recv = some r;
            })
            q) [ none ↦ (q, false) | some q' ↦ (q', true) ]
    ]
