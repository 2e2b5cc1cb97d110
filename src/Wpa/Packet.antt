-- ===== src/Wpa/Packet.antt =====
-- The EAPOL packets of the key handshake (Module/wpa.h; Module/wpa.c, WpaMacHeaderInit,
-- WPAMake8023Hdr and the parts that its actions share; Module/rtmp_data.c, RTMPCalcDuration). A
-- received packet is the bytes from its place in the message on.
pub mod Signed
use rt.Prelude.{
  ℕ, zero, suc, ◌+◌, ◌*◌, ◌/◌, ◌%◌, Bool, not, ◌&&◌, List, [], ◌∷◌, ◌++◌, ltb, ◌==◌, if◌then◌else◌,
}
use rt.Prelude.Lists.{get_or, take, drop, replicate, mem_eq}
use rt.Auth.Frame.{make_outgoing_frame, le16}
use rt.Wpa.Digest.{Crypto, hmac_sha1, mem_gt}
use rt.Wpa.Keys.{Port}

-- `n` bytes from `i` on; behind the end there are zeros.
unfoldable pub read : ℕ → ℕ → List ℕ → List ℕ
read zero i bytes = []
read (suc n) i bytes = get_or bytes i 0 ∷ read n (i + 1) bytes

-- `bWmmCapable && SubType == SUBTYPE_QDATA`, and where the packet is.
abbrev pub is_qos : List ℕ → Bool
is_qos msg = get_or msg 0 0 / 16 == 8

abbrev pub packet_of : Port → List ℕ → List ℕ
packet_of p msg = drop (if p.wmm_capable && is_qos msg then 34 else 32) msg

-- The fields of EAPOL_PACKET.
abbrev pub version : List ℕ → ℕ
version packet = get_or packet 0 0

abbrev pub packet_len : List ℕ → ℕ
packet_len packet = get_or packet 3 0 + 4

abbrev pub desc_type : List ℕ → ℕ
desc_type packet = get_or packet 4 0

abbrev pub key_mic_present : List ℕ → ℕ
key_mic_present packet = get_or packet 5 0 % 2

abbrev pub secure : List ℕ → ℕ
secure packet = get_or packet 5 0 / 2 % 2

abbrev pub error : List ℕ → ℕ
error packet = get_or packet 5 0 / 4 % 2

abbrev pub request : List ℕ → ℕ
request packet = get_or packet 5 0 / 8 % 2

abbrev pub ekd_dl : List ℕ → ℕ
ekd_dl packet = get_or packet 5 0 / 16 % 2

abbrev pub key_desc_ver : List ℕ → ℕ
key_desc_ver packet = get_or packet 6 0 % 8

abbrev pub key_type : List ℕ → ℕ
key_type packet = get_or packet 6 0 / 8 % 2

abbrev pub key_index_of : List ℕ → ℕ
key_index_of packet = get_or packet 6 0 / 16 % 4

abbrev pub key_ack : List ℕ → ℕ
key_ack packet = get_or packet 6 0 / 128 % 2

abbrev pub key_length_of : List ℕ → List ℕ
key_length_of packet = read 2 7 packet

abbrev pub key_length_value : List ℕ → ℕ
key_length_value packet = get_or packet 7 0 * 256 + get_or packet 8 0

abbrev pub replay_of : List ℕ → List ℕ
replay_of packet = read 8 9 packet

abbrev pub nonce_of : List ℕ → List ℕ
nonce_of packet = read 32 17 packet

abbrev pub iv_of : List ℕ → List ℕ
iv_of packet = read 16 49 packet

abbrev pub rsc_of : List ℕ → List ℕ
rsc_of packet = read 8 65 packet

abbrev pub mic_of : List ℕ → List ℕ
mic_of packet = read 16 81 packet

abbrev pub key_data_len : List ℕ → ℕ
key_data_len packet = get_or packet 98 0

abbrev pub key_data : List ℕ → List ℕ
key_data packet = drop 99 packet

-- The bytes that the MIC is over, with the field of the MIC zero.
unfoldable pub authenticated : List ℕ → List ℕ
unfolding read
authenticated packet =
    take (packet_len packet) (read 81 0 packet ++ (replicate 16 0 ++ read 162 97 packet))

-- The MIC under the first 16 bytes of the temporal key, by the cipher in use.
unfoldable pub mic_value : Crypto → ℕ → List ℕ → List ℕ → List ℕ
unfolding hmac_sha1
mic_value c status ptk text =
    if status == 6 then take 16 (hmac_sha1 c text ptk 16) else c.hmac_md5 (take 16 ptk) text

-- "Verify RSN IE & cipher type match", the MIC, the replay counter and the nonce.
unfoldable pub version_matches : Port → List ℕ → Bool
version_matches p packet =
    not (p.port_status == 6 && not (key_desc_ver packet == 2))
    && not (p.port_status == 4 && not (key_desc_ver packet == 1))

unfoldable pub mic_matches : Crypto → Port → List ℕ → List ℕ → Bool
unfolding authenticated mic_value
mic_matches c p ptk packet =
    mem_eq (mic_of packet) (mic_value c p.port_status ptk (authenticated packet)) 16

unfoldable pub is_newer : List ℕ → List ℕ → Bool
is_newer packet counter = mem_gt (replay_of packet) counter 8

-- RTMPCalcDuration with RateIdTo500Kbps, for the 14 rates of the table.
abbrev pub rate_id_to_500kbps : List ℕ
rate_id_to_500kbps = 2 ∷ 4 ∷ 11 ∷ 22 ∷ 12 ∷ 18 ∷ 24 ∷ 36 ∷ 48 ∷ 72 ∷ 96 ∷ 108 ∷ 144 ∷ 200 ∷ []

unfoldable pub rtmp_calc_duration : Bool → ℕ → ℕ → ℕ
rtmp_calc_duration short_preamble rate size =
    let speed = get_or rate_id_to_500kbps rate 2 in
    if ltb rate 4
    then ((if ltb 0 rate && short_preamble then 96 else 192)
        + size * 16 / speed % 65536
        + (if size * 16 % speed == 0 then 0 else 1))
      % 65536
    else (26
        + 4 * ((11 + size * 4) / speed % 65536)
        + (if (11 + size * 4) % speed == 0 then 0 else 4))
      % 65536

-- WpaMacHeaderInit without WEP, with the subtype and the duration that the actions set.
unfoldable pub wpa_mac_header : Port → List ℕ → ℕ → List ℕ
unfolding rtmp_calc_duration
wpa_mac_header p msg sequence =
    (if p.wmm_inused && is_qos msg then 136 else 8)
    ∷ 1
    ∷ (le16 (p.dsifs + rtmp_calc_duration p.short_preamble p.ack_rate 14)
        ++ (take 6 p.port_bssid
            ++ (take 6 p.own_address ++ (take 6 p.port_bssid ++ le16 (sequence * 16)))))

-- WPAMake8023Hdr.
unfoldable pub wpa_make_8023_hdr : Port → List ℕ
wpa_make_8023_hdr p = take 6 p.port_bssid ++ (take 6 p.own_address ++ (136 ∷ 142 ∷ []))

abbrev pub eap_head : List ℕ
eap_head = 170 ∷ 170 ∷ 3 ∷ 0 ∷ 0 ∷ 0 ∷ 136 ∷ 142 ∷ []

-- `Packet`, with the fields that the actions fill; the others are zero.
pub record EapolPacket : Type 0 where
  pub out_type : ℕ
  pub out_info : List ℕ
  pub out_key_length : List ℕ
  pub out_replay : List ℕ
  pub out_nonce : List ℕ
  pub out_data_len : ℕ
  pub out_data : List ℕ

-- The `Len[1] + 4` bytes that are sent of it, with the MIC given.
unfoldable pub packet_bytes : EapolPacket → List ℕ → List ℕ
packet_bytes k mic = take ((95 + k.out_data_len) % 256 + 4) (
    1
    ∷ 3
    ∷ 0
    ∷ (95 + k.out_data_len) % 256
    ∷ k.out_type
    ∷ (k.out_info
        ++ (k.out_key_length
            ++ (k.out_replay
                ++ (k.out_nonce
                    ++ (replicate 32 0 ++ (mic ++ (0 ∷ k.out_data_len ∷ k.out_data))))))))

-- The packet with its MIC: that of the packet whose MIC is zero.
unfoldable pub signed_packet : Crypto → Port → List ℕ → EapolPacket → List ℕ
unfolding packet_bytes mic_value
signed_packet c p ptk k =
    packet_bytes k (mic_value c p.port_status ptk (packet_bytes k (replicate 16 0)))

-- The frame around it, with a QoS field as WMM needs it.
unfoldable pub data_frame : Crypto → Port → List ℕ → ℕ → List ℕ → EapolPacket → List ℕ
unfolding wpa_mac_header signed_packet make_outgoing_frame
data_frame c p msg sequence ptk k = make_outgoing_frame (
    wpa_mac_header p msg sequence
    ∷ (if p.wmm_inused && is_qos msg then 0 ∷ 0 ∷ [] else [])
    ∷ eap_head
    ∷ signed_packet c p ptk k
    ∷ [])
