-- ===== src/Wpa/Group.antt =====
-- The group handshake and the dispatch of key messages (Module/wpa.c, WpaGroupMsg1Action and
-- WpaEAPOLKeyAction). RTMPToWirelessSta hands the frame to RTMPSendPacket.
pub mod Replay
pub mod Run
mod Examples
use rt.Prelude.{
  ℕ, ◌+◌, ◌*◌, ◌%◌, Bool, true, false, not, ◌&&◌, ◌||◌, List, [], ◌∷◌, ◌++◌, ◌==◌, if◌then◌else◌,
}
use rt.Prelude.Lists.{get_or, take, drop, replicate, memcpy, mem_eq}
use rt.Wep.Arcfour.{arcfour_decrypt}
use rt.Auth.Frame.{make_outgoing_frame}
use rt.Wpa.Digest.{Crypto, mem_gt}
use rt.Wpa.Unwrap.{aes_gtk_key_unwrap}
use rt.Wpa.Keys.{Port, WpaKey, KeyTable}
use rt.Wpa.Packet.{
  read, is_qos, packet_of, version, desc_type, key_mic_present, secure, error, request, ekd_dl,
  key_desc_ver, key_type, key_index_of, key_ack, key_length_of, key_length_value, replay_of,
  key_data, key_data_len, version_matches, mic_matches, is_newer, wpa_make_8023_hdr, eap_head,
  EapolPacket, signed_packet,
}
use rt.Wpa.State.{Supplicant, Moment, WpaEffect, send, to_station, add_key, WpaResult, install}
use rt.Wpa.Gtk.{arcfour_key_data}
use rt.Wpa.Pair.{counted, msg1_action, msg3_action}

-- The copy in MSG. The packet's own bytes are compared with EAPHEAD; where they agree, the 8 bytes
-- in front of them go.
unfoldable pub group_copy : Port → List ℕ → List ℕ
group_copy p msg = if mem_eq (packet_of p msg) eap_head 8 then take 24 msg ++ drop 32 msg else msg

-- The packet in the copy: the place is by the message's header.
abbrev pub group_packet : Port → List ℕ → List ℕ
group_packet p msg = drop (if p.wmm_capable && is_qos msg then 34 else 32) (group_copy p msg)

-- The checks in front of the MIC. An old counter counts only on a QoS frame without WMM.
unfoldable pub group_passes : Port → List ℕ → List ℕ → List ℕ → Bool
unfolding version_matches is_newer
group_passes p msg packet counter =
    version_matches p packet
    && not (not (is_newer packet counter) && not p.wmm_capable && is_qos msg)

-- The key that is added, with the material decrypted.
unfoldable pub group_key : Port → List ℕ → List ℕ → WpaKey
group_key p packet gtk = record {
  index = 536870912 + key_index_of packet;
  material_len = key_length_value packet;
  for_bssid = p.port_bssid;
  rsc = replicate 8 0;
  material = gtk;
}

-- GTK: by AES from KEYDATA, or by TKIP, with the context and the key added at once.
unfoldable pub group_gtk : Crypto → Port → Moment → List ℕ → Supplicant → List ℕ
unfolding aes_gtk_key_unwrap arcfour_key_data read
group_gtk c p e packet s =
    if p.port_status == 6
    then take 32 (
        aes_gtk_key_unwrap c e.unwrap_pool e.behind (take 16 (drop 16 s.ptk))
          (memcpy e.fresh (read 32 99 packet) 32) (key_data_len packet) (key_data packet))
    else (arcfour_key_data s.ptk packet 32).1

unfoldable pub after_gtk : Port → List ℕ → List ℕ → Supplicant → WpaResult
unfolding install group_key arcfour_key_data
after_gtk p packet gtk s =
    if p.port_status == 6
    then (install p (group_key p packet gtk) s, add_key (group_key p packet gtk) ∷ [])
    else (record s { wep_context = (arcfour_key_data s.ptk packet 32).0 }, [])

unfoldable pub group_message_2 : Port → List ℕ → EapolPacket
unfolding read
group_message_2 p packet = record {
  out_type = 254;
  out_info =
      (if p.port_mode == 4 then 3 else 1) ∷ (key_desc_ver packet + 16 * key_index_of packet) ∷ [];
  out_key_length = key_length_of packet;
  out_replay = replay_of packet;
  out_nonce = replicate 32 0;
  out_data_len = 0;
  out_data = replicate 80 0;
}

-- What follows a valid MIC.
unfoldable pub answer_group : Crypto → Port → Moment → List ℕ → Supplicant → WpaResult
unfolding group_gtk after_gtk install group_key group_message_2 signed_packet wpa_make_8023_hdr
    make_outgoing_frame
answer_group c p e packet s =
    let gtk = group_gtk c p e packet s in
    let (s1, first) = after_gtk p packet gtk s in
    let s2 = record s1 { sequence = (s1.sequence + 1) % 4096 } in
    if not e.key_pool then (s, []) else if not e.out_buffer then (s2, first) else (
      install p (group_key p packet gtk) s2,
      first
          ++ (to_station (
                make_outgoing_frame
                  (wpa_make_8023_hdr p ∷ signed_packet c p s.ptk (group_message_2 p packet) ∷ []))
              ∷ add_key (group_key p packet gtk)
              ∷ []),
    )

-- WpaGroupMsg1Action: the counter is renewed in front of the check of the MIC.
unfoldable pub wpa_group_msg1_action : Crypto → Port → Moment → List ℕ → Supplicant → WpaResult
unfolding group_copy group_passes mic_matches answer_group read
wpa_group_msg1_action c p e msg s =
    let packet = group_packet p msg in
    if e.pool && group_passes p msg packet s.replay_counter
    then (if mic_matches c p s.ptk packet
        then answer_group c p e packet (counted packet s)
        else (counted packet s, []))
    else (s, [])

-- EAPOL_MSG_INVALID to EAPOL_GROUP_MSG_1.
pub data KeyMessage : Type 0 where
  invalid pair_msg_1 pair_msg_3 group_msg_1 : KeyMessage

-- The classification, for WPA2 and for WPA.
abbrev pub no_fault : List ℕ → Bool
no_fault k = error k == 0 && request k == 0

unfoldable pub classify_wpa2 : List ℕ → KeyMessage
classify_wpa2 k =
    if key_type k == 1
      && ekd_dl k == 0
      && key_ack k == 1
      && key_mic_present k == 0
      && secure k == 0
      && no_fault k
    then pair_msg_1
    else if key_type k == 1
        && ekd_dl k == 1
        && key_ack k == 1
        && key_mic_present k == 1
        && secure k == 1
        && no_fault k
    then pair_msg_3
    else if key_type k == 0
        && ekd_dl k == 1
        && key_ack k == 1
        && key_mic_present k == 1
        && secure k == 1
        && no_fault k
    then group_msg_1
    else invalid

unfoldable pub classify_wpa : List ℕ → KeyMessage
classify_wpa k =
    if key_type k == 1
      && key_index_of k == 0
      && key_ack k == 1
      && key_mic_present k == 0
      && secure k == 0
      && no_fault k
    then pair_msg_1
    else if key_type k == 1
        && key_index_of k == 0
        && key_ack k == 1
        && key_mic_present k == 1
        && secure k == 0
        && no_fault k
    then pair_msg_3
    else if key_type k == 0
        && not (key_index_of k == 0)
        && key_ack k == 1
        && key_mic_present k == 1
        && secure k == 1
        && no_fault k
    then group_msg_1
    else invalid

-- The two checks of WpaEAPOLKeyAction: the descriptor, and the counter of a QoS frame without WMM.
unfoldable pub descriptor_matches : Port → List ℕ → Bool
descriptor_matches p k =
    if p.port_mode == 4
    then version k == 1 && desc_type k == 254
    else if p.port_mode == 7
    then desc_type k == 2
    else true

unfoldable pub replay_refused : Port → List ℕ → List ℕ → List ℕ → Bool
unfolding is_newer read
replay_refused p msg k counter =
    not p.wmm_capable
    && is_qos msg
    && not (is_newer k counter)
    && not (mem_eq (replay_of k) (replicate 8 0) 8)

-- `WpaState = ...` and `PortSecured = WPA_802_1X_PORT_NOT_SECURED` behind an action.
abbrev pub to_state : ℕ → WpaResult → WpaResult
to_state n (s, effects) = (record s { wpa_state = n }, effects)

abbrev pub unsecured : WpaResult → WpaResult
unsecured (s, effects) = (record s { keys = record s.keys { port_secured = 2 } }, effects)

-- The switch over WpaState: SS_START, SS_WAIT_MSG_3, SS_WAIT_GROUP and SS_FINISH are 1 to 4.
unfoldable pub on_message :
    Bool → Crypto → Port → Moment → List ℕ → KeyMessage → Supplicant → WpaResult
unfolding wpa_group_msg1_action msg1_action msg3_action
on_message wpa2 c p e msg invalid s = (s, [])
on_message wpa2 c p e msg pair_msg_1 s =
    if s.wpa_state == 1 || s.wpa_state == 2
    then to_state 2 (msg1_action wpa2 c p e msg s)
    else if s.wpa_state == 3 || s.wpa_state == 4
    then unsecured (to_state 2 (msg1_action wpa2 c p e msg s))
    else (s, [])
on_message wpa2 c p e msg pair_msg_3 s =
    if s.wpa_state == 2
    then to_state 3 (msg3_action wpa2 c p e msg s)
    else if s.wpa_state == 3 || s.wpa_state == 4
    then unsecured (to_state 3 (msg3_action wpa2 c p e msg s))
    else (s, [])
on_message wpa2 c p e msg group_msg_1 s =
    if s.wpa_state == 3 || s.wpa_state == 4
    then to_state 4 (wpa_group_msg1_action c p e msg s)
    else (s, [])

-- WpaEAPOLKeyAction.
unfoldable pub wpa_eapol_key_action : Crypto → Port → Moment → List ℕ → Supplicant → WpaResult
unfolding descriptor_matches replay_refused classify_wpa2 classify_wpa on_message
wpa_eapol_key_action c p e msg s =
    let k = packet_of p msg in
    if not (descriptor_matches p k) || replay_refused p msg k s.replay_counter
    then (s, [])
    else if p.port_mode == 7
    then on_message true c p e msg (classify_wpa2 k) s
    else if p.port_mode == 4
    then on_message false c p e msg (classify_wpa k) s
    else (s, [])
