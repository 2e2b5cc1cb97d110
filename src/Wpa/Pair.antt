-- ===== src/Wpa/Pair.antt =====
-- The pairwise handshake (Module/wpa.c, WpaPairMsg1Action to WpaPairMsg3Action and
-- Wpa2PairMsg3Action). An action gives the state it leaves and what it does: frames by
-- MiniportMMRequest, and keys given to RTMPWPAAddKeyProc.
pub mod Session
pub mod Message3
pub mod Stored
use rt.Prelude.{
  ℕ, zero, suc, ◌+◌, ◌-◌, ◌*◌, ◌/◌, ◌%◌, Bool, true, false, not, ◌&&◌, ◌||◌, List, [], ◌∷◌, ◌++◌,
  leb, ◌==◌, if◌then◌else◌,
}
use rt.Prelude.Lists.{get_or, take, drop, replicate, memcpy, mem_eq}
use rt.Wep.Arcfour.{Arcfour, arcfour_init, arcfour_byte, arcfour_decrypt}
use rt.Bss.{bss_not_found, bss_table_search}
use rt.Wpa.Digest.{Crypto, gen_random, wpa_count_ptk}
use rt.Wpa.Unwrap.{aes_gtk_key_unwrap}
use rt.Wpa.Keys.{Port, WpaKey, KeyTable, rtmp_wpa_add_key_proc}
use rt.Wpa.State.{Supplicant, Moment, send, add_key, WpaResult, install}
use rt.Wpa.Gtk.{obtain_gtk}
use rt.Wpa.Packet.{
  read, packet_of, key_length_of, key_length_value, replay_of, nonce_of, iv_of, rsc_of, key_data,
  key_data_len, key_desc_ver, secure, version_matches, mic_matches, is_newer, EapolPacket,
  data_frame,
}

-- Message 2.
unfoldable pub message_2 : Bool → Port → List ℕ → List ℕ → List ℕ → EapolPacket
unfolding read
message_2 wpa2 p packet replay nonce = record {
  out_type = if wpa2 then 2 else 254;
  out_info = 1 ∷ ((if p.port_status == 6 then 2 else 1) + 8) ∷ [];
  out_key_length = (if wpa2 then 0 else get_or packet 7 0) ∷ get_or packet 8 0 ∷ [];
  out_replay = replay;
  out_nonce = nonce;
  out_data_len = p.rsn_ie_len;
  out_data = memcpy (replicate 80 0) p.rsn_ie p.rsn_ie_len;
}

-- The state that message 1 leaves. All 80 bytes of the memory of PTK are written.
unfoldable pub after_msg1 : Crypto → Port → Moment → List ℕ → Supplicant → Supplicant
unfolding gen_random wpa_count_ptk read
after_msg1 c p e packet s =
    let s_nonce = gen_random c e.nonce_pool p.own_address e.clock s.s_nonce in
    record s {
      replay_counter = replay_of packet;
      a_nonce = nonce_of packet;
      s_nonce = s_nonce;
      ptk = take 64 (
          wpa_count_ptk c p.master_key (nonce_of packet) p.port_bssid s_nonce p.own_address
            (replicate 80 0) 64);
      sequence = (s.sequence + 1) % 4096;
    }

unfoldable pub pair_msg1 : Bool → Crypto → Port → Moment → List ℕ → Supplicant → WpaResult
unfolding after_msg1 data_frame message_2
pair_msg1 wpa2 c p e msg s =
    let packet = packet_of p msg in
    let s1 = after_msg1 c p e packet s in
    if e.out_buffer
    then (
      s1,
      send (
            data_frame c p msg s1.sequence s1.ptk
              (message_2 wpa2 p packet s1.replay_counter s1.s_nonce))
          ∷ [],
    )
    else (s1, [])

-- WpaPairMsg1Action and Wpa2PairMsg1Action.
unfoldable pub wpa_pair_msg1_action : Crypto → Port → Moment → List ℕ → Supplicant → WpaResult
unfolding pair_msg1
wpa_pair_msg1_action c p e msg s = if e.pool then pair_msg1 false c p e msg s else (s, [])

unfoldable pub wpa2_pair_msg1_action : Crypto → Port → Moment → List ℕ → Supplicant → WpaResult
unfolding pair_msg1
wpa2_pair_msg1_action c p e msg s = pair_msg1 true c p e msg s

-- Message 4, with its `Secure` bit.
unfoldable pub message_4 : ℕ → List ℕ → EapolPacket
unfolding read
message_4 secure_bit packet = record {
  out_type = 254;
  out_info = (1 + 2 * secure_bit) ∷ (key_desc_ver packet + 8) ∷ [];
  out_key_length = key_length_of packet;
  out_replay = replay_of packet;
  out_nonce = replicate 32 0;
  out_data_len = 0;
  out_data = replicate 80 0;
}

-- The temporal key of message 3: `KeyIndex` is 0xe0000000.
unfoldable pub peer_key : Port → List ℕ → List ℕ → WpaKey
unfolding read
peer_key p ptk packet = record {
  index = 3758096384;
  material_len = key_length_value packet;
  for_bssid = p.port_bssid;
  rsc = rsc_of packet;
  material = take 32 (drop 32 ptk);
}

-- The end of message 3: the key and message 4.
unfoldable pub answer_msg3 : ℕ → Crypto → Port → Moment → List ℕ → Supplicant → WpaResult
unfolding data_frame message_4 peer_key install
answer_msg3 secure_bit c p e msg s =
    let packet = packet_of p msg in
    let s1 = record s { sequence = (s.sequence + 1) % 4096 } in
    if e.out_buffer && e.key_pool
    then (
      install p (peer_key p s.ptk packet) s1,
      add_key (peer_key p s.ptk packet)
          ∷ send (data_frame c p msg s1.sequence s.ptk (message_4 secure_bit packet))
          ∷ [],
    )
    else (s1, [])

-- What the checks of message 3 let pass, and the state with the new counter.
unfoldable pub is_genuine : Crypto → Port → List ℕ → Supplicant → Bool
unfolding version_matches mic_matches is_newer
is_genuine c p packet s =
    version_matches p packet && mic_matches c p s.ptk packet && is_newer packet s.replay_counter

abbrev pub counted : List ℕ → Supplicant → Supplicant
counted packet s = record s { replay_counter = replay_of packet }

-- The returns behind the checks and behind the comparison of the nonces.
abbrev pub checked : Bool → Bool → Supplicant → Supplicant → WpaResult → WpaResult
checked genuine same s s1 answer = if genuine then (if same then answer else (s1, [])) else (s, [])

-- WpaPairMsg3Action.
unfoldable pub wpa_pair_msg3_action : Crypto → Port → Moment → List ℕ → Supplicant → WpaResult
unfolding is_genuine answer_msg3 read
wpa_pair_msg3_action c p e msg s =
    let packet = packet_of p msg in
    checked (is_genuine c p packet s) (mem_eq s.a_nonce (nonce_of packet) 32) s (counted packet s)
      (answer_msg3 (secure packet) c p e msg (counted packet s))

-- The end of message 3 of WPA2.
unfoldable pub answer_wpa2 : Crypto → Port → Moment → List ℕ → Supplicant → WpaResult
unfolding obtain_gtk answer_msg3
answer_wpa2 c p e msg s =
    let r1 = obtain_gtk c p e (packet_of p msg) s in
    let r2 = answer_msg3 1 c p e msg r1.0 in (r2.0, r1.1 ++ r2.1)

-- Wpa2PairMsg3Action.
unfoldable pub wpa2_pair_msg3_action : Crypto → Port → Moment → List ℕ → Supplicant → WpaResult
unfolding is_genuine answer_wpa2 read
wpa2_pair_msg3_action c p e msg s =
    let packet = packet_of p msg in
    checked (e.pool && is_genuine c p packet s) (mem_eq s.a_nonce (nonce_of packet) 32) s
      (counted packet s) (answer_wpa2 c p e msg (counted packet s))

-- The actions of the two modes.
unfoldable pub msg1_action : Bool → Crypto → Port → Moment → List ℕ → Supplicant → WpaResult
unfolding wpa_pair_msg1_action wpa2_pair_msg1_action
msg1_action true c p e msg s = wpa2_pair_msg1_action c p e msg s
msg1_action false c p e msg s = wpa_pair_msg1_action c p e msg s

unfoldable pub msg3_action : Bool → Crypto → Port → Moment → List ℕ → Supplicant → WpaResult
unfolding wpa_pair_msg3_action wpa2_pair_msg3_action
msg3_action true c p e msg s = wpa2_pair_msg3_action c p e msg s
msg3_action false c p e msg s = wpa_pair_msg3_action c p e msg s
