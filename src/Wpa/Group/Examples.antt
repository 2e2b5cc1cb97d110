-- ===== src/Wpa/Group/Examples.antt =====
-- The key handshake of Module/wpa.c with digests and a cipher made up for the purpose.
use rt.Prelude.{
  ℕ, ◌≡◌, ◌+◌, ◌*◌, ◌∙◌, refl, Bool, true, false, ◌||◌, List, [], ◌∷◌, ◌++◌, arith, if◌then◌else◌,
  ◌==◌,
}
use rt.Prelude.Lists.{length, take, drop, replicate, mem_eq, length-take, length-append}
use rt.Prelude.Lists.Pieces.{take-pieces, append-nil}
use rt.Bss.{bss_table_init}
use rt.Wpa.Digest.{Crypto, hmac_sha1, mem_gt, pairwise_prefix, wpa_count_ptk}
use rt.Wpa.Digest.Hmac.{keyed_hash, hmac_sha1-keyed_hash}
use rt.Wpa.Digest.Expansion.{expansion, labelled, compared_bytes, wpa_count_ptk-expansion}
use rt.Wpa.Unwrap.{aes_gtk_key_unwrap}
use rt.Wpa.Unwrap.Wrap.{Cipher, key_wrap, aes_gtk_key_unwrap-key_wrap}
use rt.Wpa.Keys.{Port, no_shared_key, is_pairwise}
use rt.Wpa.Packet.{read, mic_matches, signed_packet}
use rt.Wpa.Packet.Signed.{IsFormed, signed_packet-mic_matches}
use rt.Wpa.State.{Supplicant, Moment, WpaEffect, send, to_station, add_key, install}
use rt.Wpa.Pair.Session.{AreFrom}
use rt.Wpa.Pair.{counted, peer_key, message_4, msg3_action}
use rt.Wpa.Pair.Message3.{message_3_once}
use rt.Wpa.Pair.Stored.{HasArrays, entry, peer_key_stored}
use rt.Wpa.Group.{group_packet, wpa_group_msg1_action, wpa_eapol_key_action}
use rt.Wpa.Group.Replay.{group_message_again}
use rt.Wpa.Group.Run.{start, message, session_ptk, IsKeyed}
use rt.Wpa.Group.Run.Keyed.{pairwise_keys_derived}

-- The length of the text, twenty or sixteen times.
abbrev toy : Crypto
toy = record {
  sha1 = λ bytes. replicate 20 (length bytes);
  hmac_md5 = λ key bytes. replicate 16 (length bytes);
  aes_decrypt = λ key block. block;
  memcmp_exceeds_one = λ a b. mem_gt a b 32;
}

toy_sha1 : (bytes : List ℕ) → length (toy.sha1 bytes) ≡ 20
toy_sha1 bytes = refl

toy_md5 : (key bytes : List ℕ) → length (toy.hmac_md5 key bytes) ≡ 16
toy_md5 key bytes = refl

toy_cipher : Cipher toy.aes_decrypt
toy_cipher = record {
  encrypt = λ key block. take 16 (block ++ replicate 16 0);
  size = λ key block.
      length-take 16 (block ++ replicate 16 0)
        (omega (arith, length-append block (replicate 16 0)));
  undone =
      λ key block h. take-pieces 16 0 block (replicate 16 0) (omega (arith, h)) ∙ append-nil block;
}

abbrev port : Port
port = record {
  wmm_capable = false;
  wmm_inused = false;
  port_status = 4;
  port_mode = 4;
  pair_cipher_in_use = 4;
  group_cipher_in_use = 4;
  master_key = replicate 32 7;
  port_bssid = replicate 6 2;
  own_address = replicate 6 1;
  port_channel = 6;
  rsn_ie = replicate 24 221;
  rsn_ie_len = 24;
  ack_rate = 1;
  dsifs = 10;
  short_preamble = false;
  scan_tab = bss_table_init;
}

abbrev moment : Moment
moment = record {
  pool = true;
  nonce_pool = true;
  out_buffer = true;
  key_pool = true;
  unwrap_pool = true;
  clock = λ i. i;
  fresh = replicate 512 0;
  behind = replicate 512 0;
}

abbrev linked : Supplicant
linked = record {
  wpa_state = 1;
  replay_counter = replicate 8 0;
  a_nonce = replicate 32 0;
  s_nonce = replicate 32 0;
  ptk = replicate 64 3;
  sequence = 0;
  wep_context = record { x = 0; y = 0; state = replicate 256 0 };
  keys = record { shared_key = replicate 4 no_shared_key; default_key = 0; port_secured = 2 };
}

-- A key packet behind the headers: version 1, a key length of 32, the given bytes of KeyInfo and
-- the given counter, and the MIC that `toy` makes of its 99 bytes.
abbrev key_packet : ℕ → ℕ → ℕ → List ℕ
key_packet info0 info1 counter =
    1
    ∷ 3
    ∷ 0
    ∷ 95
    ∷ 254
    ∷ info0
    ∷ info1
    ∷ 0
    ∷ 32
    ∷ (replicate 7 0 ++ (counter ∷ (replicate 64 4 ++ (replicate 16 99 ++ (0 ∷ 0 ∷ [])))))

abbrev key_frame : ℕ → ℕ → ℕ → List ℕ
key_frame info0 info1 counter = 8 ∷ (replicate 31 0 ++ key_packet info0 info1 counter)

-- The state that message 1 leaves.
abbrev challenged : Supplicant
challenged = (wpa_eapol_key_action toy port moment (key_frame 0 137 5) linked).0

hmac_sha1-keyed_hash_example :
    hmac_sha1 toy (1 ∷ 2 ∷ []) (replicate 32 7) 16
    ≡ keyed_hash toy.sha1 (take 16 (replicate 32 7)) (1 ∷ 2 ∷ [])
hmac_sha1-keyed_hash_example =
    hmac_sha1-keyed_hash toy (1 ∷ 2 ∷ []) (replicate 32 7) 16 toy_sha1 (omega arith) (omega arith)

wpa_count_ptk-expansion_example :
    wpa_count_ptk toy
      (replicate 32 7)
      (replicate 32 4)
      (replicate 6 2)
      (replicate 32 5)
      (replicate 6 1)
      (replicate 81 0)
      64
    ≡ expansion toy
        (replicate 32 7)
        32
        (labelled pairwise_prefix
          (compared_bytes toy (replicate 32 4) (replicate 6 2) (replicate 32 5) (replicate 6 1)))
        4
        0
      ++ drop 80 (replicate 81 0)
wpa_count_ptk-expansion_example =
    wpa_count_ptk-expansion toy (replicate 32 7) (replicate 32 4) (replicate 6 2) (replicate 32 5)
      (replicate 6 1) (replicate 81 0) toy_sha1 (λ h. h) (omega arith)

aes_gtk_key_unwrap-key_wrap_example :
    aes_gtk_key_unwrap toy true
      (replicate 8 0)
      (replicate 16 9)
      (replicate 512 0)
      (2 * 8 + 8)
      (key_wrap toy toy_cipher (replicate 16 9) (replicate 8 166) 2 (replicate 16 5))
    ≡ replicate 16 5 ++ (take 8 (replicate 8 0) ++ drop (2 * 8 + 8) (replicate 512 0))
aes_gtk_key_unwrap-key_wrap_example =
    aes_gtk_key_unwrap-key_wrap toy toy_cipher (replicate 16 9) (replicate 8 166) (replicate 16 5)
      (replicate 8 0) (replicate 512 0) 2 refl refl (omega arith)

message_4-IsFormed : IsFormed (message_4 1 (key_packet 1 137 6))
unfolding message_4 read
message_4-IsFormed = record {
  info = refl;
  key_length = refl;
  replay = refl;
  nonce = refl;
  room = omega arith;
  small = omega arith;
}

signed_packet-mic_matches_example :
    mic_matches toy port
      (replicate 64 3)
      (signed_packet toy port (replicate 64 3) (message_4 1 (key_packet 1 137 6)))
    ≡ true
signed_packet-mic_matches_example =
    signed_packet-mic_matches toy port (replicate 64 3) (message_4 1 (key_packet 1 137 6)) toy_sha1
      toy_md5 message_4-IsFormed

-- The first call adds the temporal key and sends message 4.
message_3_once_example :
    let r = msg3_action false toy port moment (key_frame 1 137 6) challenged in
    msg3_action false toy port moment (key_frame 1 137 6) r.0 ≡ (r.0, [])
message_3_once_example =
    message_3_once toy port (key_frame 1 137 6) false moment moment challenged refl

-- How many effects there are.
abbrev count : List WpaEffect → ℕ
count [] = 0
count (x ∷ es) = 1 + count es

abbrev has_pairwise : List WpaEffect → Bool
has_pairwise [] = false
has_pairwise (send f ∷ es) = has_pairwise es
has_pairwise (to_station f ∷ es) = has_pairwise es
has_pairwise (add_key k ∷ es) = is_pairwise k || has_pairwise es

arrays : HasArrays (entry linked 0)
arrays = record { for_key = refl; for_rx_mic = refl; for_tx_mic = refl }

not_broadcast : mem_eq (replicate 6 2) (replicate 6 255) 6 ≡ false
unfolding mem_eq
not_broadcast = refl

peer_key_stored_example :
    let t = install port (peer_key port linked.ptk (key_packet 1 137 6)) linked in
    ((entry t 0).stored_key ≡ take 16 (drop 32 linked.ptk))
    × ((entry t 0).rx_mic ≡ take 8 (drop 48 linked.ptk))
    × ((entry t 0).tx_mic ≡ take 8 (drop 56 linked.ptk))
    × (entry t 2 ≡ (if 0 == 2 then entry t 0 else entry linked 2))
    × (t.keys.default_key ≡ linked.keys.default_key)
    × (t.keys.port_secured ≡ linked.keys.port_secured)
peer_key_stored_example =
    peer_key_stored port (key_packet 1 137 6) linked 2 refl not_broadcast refl refl (omega arith)
      arrays

group_message_again_example :
    let msg = key_frame 3 145 5 in
    (wpa_group_msg1_action toy port moment msg
      (wpa_group_msg1_action toy port moment msg challenged).0).1
    ≡ (wpa_group_msg1_action toy port moment msg challenged).1
group_message_again_example =
    group_message_again toy port moment (key_frame 3 145 5) challenged refl

-- Message 1, and behind it message 3.
pairwise_keys_derived_example :
    IsKeyed toy port challenged
    × AreFrom
        (session_ptk toy port challenged.a_nonce challenged.s_nonce)
        (wpa_eapol_key_action toy port moment (key_frame 1 137 6) challenged).1
pairwise_keys_derived_example =
    pairwise_keys_derived toy port linked challenged moment (key_frame 1 137 6) (omega arith)
      (message moment (key_frame 0 137 5) start refl) refl

-- The group message is answered and its key added; message 3 adds the temporal key and is answered.
group_message_does :
    count (wpa_group_msg1_action toy port moment (key_frame 3 145 5) challenged).1 ≡ 2
unfolding wpa_eapol_key_action wpa_group_msg1_action rt.Wpa.Pair.is_genuine
    rt.Wpa.Packet.version_matches mic_matches rt.Wpa.Packet.is_newer rt.Wpa.Group.group_passes
    rt.Wpa.Group.group_copy rt.Wpa.Group.answer_group rt.Wpa.Group.after_gtk
    rt.Wpa.Packet.authenticated rt.Wpa.Packet.mic_value read mem_eq rt.Wpa.Digest.mem_gt_from
group_message_does = refl

message_3_does : count (msg3_action false toy port moment (key_frame 1 137 6) challenged).1 ≡ 2
unfolding wpa_eapol_key_action msg3_action rt.Wpa.Pair.wpa_pair_msg3_action rt.Wpa.Pair.is_genuine
    rt.Wpa.Packet.version_matches mic_matches rt.Wpa.Packet.is_newer rt.Wpa.Pair.answer_msg3
    rt.Wpa.Pair.msg1_action rt.Wpa.Pair.wpa_pair_msg1_action rt.Wpa.Pair.pair_msg1
    rt.Wpa.Pair.after_msg1 rt.Wpa.Group.on_message rt.Wpa.Group.classify_wpa
    rt.Wpa.Group.descriptor_matches rt.Wpa.Group.replay_refused rt.Wpa.Packet.authenticated
    rt.Wpa.Packet.mic_value read mem_eq rt.Wpa.Digest.mem_gt_from
message_3_does = refl

message_3_adds :
    has_pairwise (wpa_eapol_key_action toy port moment (key_frame 1 137 6) challenged).1 ≡ true
unfolding wpa_eapol_key_action msg3_action rt.Wpa.Pair.wpa_pair_msg3_action rt.Wpa.Pair.is_genuine
    rt.Wpa.Packet.version_matches mic_matches rt.Wpa.Packet.is_newer rt.Wpa.Pair.answer_msg3
    rt.Wpa.Pair.msg1_action rt.Wpa.Pair.wpa_pair_msg1_action rt.Wpa.Pair.pair_msg1
    rt.Wpa.Pair.after_msg1 rt.Wpa.Group.on_message rt.Wpa.Group.classify_wpa
    rt.Wpa.Group.descriptor_matches rt.Wpa.Group.replay_refused rt.Wpa.Packet.authenticated
    rt.Wpa.Packet.mic_value read mem_eq rt.Wpa.Digest.mem_gt_from peer_key
message_3_adds = refl
