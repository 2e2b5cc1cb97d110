-- ===== src/Mlme/Machine/Names.antt =====
-- The numbers of the machines, their states and their messages (Module/rtmp_def.h).
use rt.Prelude.{ℕ}

abbrev pub assoc_idle : ℕ
assoc_idle = 0

abbrev pub assoc_wait_rsp : ℕ
assoc_wait_rsp = 1

abbrev pub reassoc_wait_rsp : ℕ
reassoc_wait_rsp = 2

abbrev pub disassoc_wait_rsp : ℕ
disassoc_wait_rsp = 3

abbrev pub max_assoc_state : ℕ
max_assoc_state = 4

abbrev pub assoc_machine_base : ℕ
assoc_machine_base = 0

abbrev pub mt2_mlme_assoc_req : ℕ
mt2_mlme_assoc_req = 0

abbrev pub mt2_mlme_reassoc_req : ℕ
mt2_mlme_reassoc_req = 1

abbrev pub mt2_mlme_disassoc_req : ℕ
mt2_mlme_disassoc_req = 2

abbrev pub mt2_peer_disassoc_req : ℕ
mt2_peer_disassoc_req = 3

abbrev pub mt2_peer_assoc_req : ℕ
mt2_peer_assoc_req = 4

abbrev pub mt2_peer_assoc_rsp : ℕ
mt2_peer_assoc_rsp = 5

abbrev pub mt2_peer_reassoc_req : ℕ
mt2_peer_reassoc_req = 6

abbrev pub mt2_peer_reassoc_rsp : ℕ
mt2_peer_reassoc_rsp = 7

abbrev pub mt2_disassoc_timeout : ℕ
mt2_disassoc_timeout = 8

abbrev pub mt2_assoc_timeout : ℕ
mt2_assoc_timeout = 9

abbrev pub mt2_reassoc_timeout : ℕ
mt2_reassoc_timeout = 10

abbrev pub max_assoc_msg : ℕ
max_assoc_msg = 11

abbrev pub auth_req_idle : ℕ
auth_req_idle = 0

abbrev pub auth_wait_seq2 : ℕ
auth_wait_seq2 = 1

abbrev pub auth_wait_seq4 : ℕ
auth_wait_seq4 = 2

abbrev pub max_auth_state : ℕ
max_auth_state = 3

abbrev pub auth_machine_base : ℕ
auth_machine_base = 0

abbrev pub mt2_mlme_auth_req : ℕ
mt2_mlme_auth_req = 0

abbrev pub mt2_peer_auth_even : ℕ
mt2_peer_auth_even = 1

abbrev pub mt2_auth_timeout : ℕ
mt2_auth_timeout = 2

abbrev pub max_auth_msg : ℕ
max_auth_msg = 3

abbrev pub auth_rsp_idle : ℕ
auth_rsp_idle = 0

abbrev pub auth_rsp_wait_chal : ℕ
auth_rsp_wait_chal = 1

abbrev pub max_auth_rsp_state : ℕ
max_auth_rsp_state = 2

abbrev pub auth_rsp_machine_base : ℕ
auth_rsp_machine_base = 0

abbrev pub mt2_auth_challenge_timeout : ℕ
mt2_auth_challenge_timeout = 0

abbrev pub mt2_peer_auth_odd : ℕ
mt2_peer_auth_odd = 1

abbrev pub mt2_peer_deauth : ℕ
mt2_peer_deauth = 2

abbrev pub max_auth_rsp_msg : ℕ
max_auth_rsp_msg = 3

abbrev pub sync_idle : ℕ
sync_idle = 0

abbrev pub join_wait_beacon : ℕ
join_wait_beacon = 1

abbrev pub scan_listen : ℕ
scan_listen = 2

abbrev pub max_sync_state : ℕ
max_sync_state = 3

abbrev pub sync_machine_base : ℕ
sync_machine_base = 0

abbrev pub mt2_mlme_scan_req : ℕ
mt2_mlme_scan_req = 0

abbrev pub mt2_mlme_join_req : ℕ
mt2_mlme_join_req = 1

abbrev pub mt2_mlme_start_req : ℕ
mt2_mlme_start_req = 2

abbrev pub mt2_peer_beacon : ℕ
mt2_peer_beacon = 3

abbrev pub mt2_peer_probe_rsp : ℕ
mt2_peer_probe_rsp = 4

abbrev pub mt2_peer_atim : ℕ
mt2_peer_atim = 5

abbrev pub mt2_scan_timeout : ℕ
mt2_scan_timeout = 6

abbrev pub mt2_beacon_timeout : ℕ
mt2_beacon_timeout = 7

abbrev pub mt2_atim_timeout : ℕ
mt2_atim_timeout = 8

abbrev pub mt2_peer_probe_req : ℕ
mt2_peer_probe_req = 9

abbrev pub max_sync_msg : ℕ
max_sync_msg = 10

abbrev pub wpa_psk_idle : ℕ
wpa_psk_idle = 0

abbrev pub max_wpa_psk_state : ℕ
max_wpa_psk_state = 1

abbrev pub wpa_machine_base : ℕ
wpa_machine_base = 0

abbrev pub mt2_eap_packet : ℕ
mt2_eap_packet = 0

abbrev pub mt2_eapol_start : ℕ
mt2_eapol_start = 1

abbrev pub mt2_eapol_logoff : ℕ
mt2_eapol_logoff = 2

abbrev pub mt2_eapol_key : ℕ
mt2_eapol_key = 3

abbrev pub mt2_eapol_asf_alert : ℕ
mt2_eapol_asf_alert = 4

abbrev pub max_wpa_psk_msg : ℕ
max_wpa_psk_msg = 5

abbrev pub assoc_state_machine : ℕ
assoc_state_machine = 1

abbrev pub auth_state_machine : ℕ
auth_state_machine = 2

abbrev pub auth_rsp_state_machine : ℕ
auth_rsp_state_machine = 3

abbrev pub sync_state_machine : ℕ
sync_state_machine = 4

abbrev pub mlme_cntl_state_machine : ℕ
mlme_cntl_state_machine = 5

abbrev pub wpa_psk_state_machine : ℕ
wpa_psk_state_machine = 6
