-- ===== src/Mlme/Machine/Tables.antt =====
-- The five tables: AuthStateMachineInit (Module/auth.c), AuthRspStateMachineInit
-- (Module/auth_rsp.c), SyncStateMachineInit (Module/sync.c), AssocStateMachineInit (Module/assoc.c)
-- and WpaPskStateMachineInit (Module/wpa.c), without the timers; the numbers are those of
-- Module/rtmp_def.h.
pub mod Memory
pub mod Auth
pub mod Assoc
pub mod Sync
use rt.Prelude.{ℕ, List, [], ◌∷◌}
use rt.Prelude.Lists.{replicate}
use rt.Mlme.Machine.{
  Action, drop, mlme_assoc_req_action, mlme_reassoc_req_action, mlme_disassoc_req_action,
  peer_disassoc_action, peer_assoc_rsp_action, peer_reassoc_rsp_action, assoc_timeout_action,
  reassoc_timeout_action, disassoc_timeout_action, invalid_state_when_assoc,
  invalid_state_when_reassoc, invalid_state_when_disassociate, mlme_auth_req_action,
  invalid_state_when_auth, auth_timeout_action, peer_auth_rsp_at_seq2_action,
  peer_auth_rsp_at_seq4_action, peer_deauth_action, mlme_scan_req_action, mlme_join_req_action,
  mlme_start_req_action, peer_beacon, peer_probe_req_action, invalid_state_when_scan,
  invalid_state_when_join, invalid_state_when_start, peer_beacon_at_join_action,
  beacon_timeout_at_join_action, peer_beacon_at_scan_action, scan_timeout_action,
  wpa_eapol_key_action, StateMachine, state_machine_init, state_machine_set_action,
}
use rt.Mlme.Machine.Names.{
  assoc_idle, assoc_machine_base, assoc_wait_rsp, auth_machine_base, auth_req_idle, auth_rsp_idle,
  auth_rsp_machine_base, auth_rsp_wait_chal, auth_wait_seq2, auth_wait_seq4, disassoc_wait_rsp,
  join_wait_beacon, max_assoc_msg, max_assoc_state, max_auth_msg, max_auth_rsp_msg,
  max_auth_rsp_state, max_auth_state, max_sync_msg, max_sync_state, max_wpa_psk_msg,
  max_wpa_psk_state, mt2_assoc_timeout, mt2_atim_timeout, mt2_auth_challenge_timeout,
  mt2_auth_timeout, mt2_beacon_timeout, mt2_disassoc_timeout, mt2_eap_packet, mt2_eapol_asf_alert,
  mt2_eapol_key, mt2_eapol_logoff, mt2_eapol_start, mt2_mlme_assoc_req, mt2_mlme_auth_req,
  mt2_mlme_disassoc_req, mt2_mlme_join_req, mt2_mlme_reassoc_req, mt2_mlme_scan_req,
  mt2_mlme_start_req, mt2_peer_assoc_req, mt2_peer_assoc_rsp, mt2_peer_atim, mt2_peer_auth_even,
  mt2_peer_auth_odd, mt2_peer_beacon, mt2_peer_deauth, mt2_peer_disassoc_req, mt2_peer_probe_req,
  mt2_peer_probe_rsp, mt2_peer_reassoc_req, mt2_peer_reassoc_rsp, mt2_reassoc_timeout,
  mt2_scan_timeout, reassoc_wait_rsp, scan_listen, sync_idle, sync_machine_base, wpa_machine_base,
  wpa_psk_idle,
}

-- `StateMachineSetAction` for each entry of a list, in its order.
unfoldable pub set_actions : List (ℕ × ℕ × Action) → StateMachine → StateMachine
unfolding state_machine_set_action
set_actions [] s = s
set_actions ((st, msg, func) ∷ rest) s = set_actions rest (state_machine_set_action st msg func s)

abbrev pub auth_actions : List (ℕ × ℕ × Action)
auth_actions =
    ((auth_req_idle, mt2_mlme_auth_req, mlme_auth_req_action)
      ∷ (auth_wait_seq2, mt2_mlme_auth_req, invalid_state_when_auth)
      ∷ (auth_wait_seq2, mt2_peer_auth_even, peer_auth_rsp_at_seq2_action)
      ∷ (auth_wait_seq2, mt2_auth_timeout, auth_timeout_action)
      ∷ (auth_wait_seq4, mt2_mlme_auth_req, invalid_state_when_auth)
      ∷ (auth_wait_seq4, mt2_peer_auth_even, peer_auth_rsp_at_seq4_action)
      ∷ (auth_wait_seq4, mt2_auth_timeout, auth_timeout_action)
      ∷ [])

unfoldable pub auth_state_machine_init : List Action → StateMachine
unfolding state_machine_init set_actions
auth_state_machine_init trans =
    set_actions auth_actions
      (state_machine_init trans max_auth_state max_auth_msg drop auth_req_idle auth_machine_base)

abbrev pub auth_rsp_actions : List (ℕ × ℕ × Action)
auth_rsp_actions =
    ((auth_rsp_idle, mt2_peer_deauth, peer_deauth_action)
      ∷ (auth_rsp_wait_chal, mt2_peer_deauth, peer_deauth_action)
      ∷ [])

unfoldable pub auth_rsp_state_machine_init : List Action → StateMachine
unfolding state_machine_init set_actions
auth_rsp_state_machine_init trans = set_actions auth_rsp_actions (
    state_machine_init trans max_auth_rsp_state max_auth_rsp_msg drop auth_rsp_idle
      auth_rsp_machine_base)

abbrev pub sync_actions : List (ℕ × ℕ × Action)
sync_actions =
    ((sync_idle, mt2_mlme_scan_req, mlme_scan_req_action)
      ∷ (sync_idle, mt2_mlme_join_req, mlme_join_req_action)
      ∷ (sync_idle, mt2_mlme_start_req, mlme_start_req_action)
      ∷ (sync_idle, mt2_peer_beacon, peer_beacon)
      ∷ (sync_idle, mt2_peer_probe_req, peer_probe_req_action)
      ∷ (join_wait_beacon, mt2_mlme_scan_req, invalid_state_when_scan)
      ∷ (join_wait_beacon, mt2_mlme_join_req, invalid_state_when_join)
      ∷ (join_wait_beacon, mt2_mlme_start_req, invalid_state_when_start)
      ∷ (join_wait_beacon, mt2_peer_beacon, peer_beacon_at_join_action)
      ∷ (join_wait_beacon, mt2_beacon_timeout, beacon_timeout_at_join_action)
      ∷ (scan_listen, mt2_mlme_scan_req, invalid_state_when_scan)
      ∷ (scan_listen, mt2_mlme_join_req, invalid_state_when_join)
      ∷ (scan_listen, mt2_mlme_start_req, invalid_state_when_start)
      ∷ (scan_listen, mt2_peer_beacon, peer_beacon_at_scan_action)
      ∷ (scan_listen, mt2_peer_probe_rsp, peer_beacon_at_scan_action)
      ∷ (scan_listen, mt2_scan_timeout, scan_timeout_action)
      ∷ [])

unfoldable pub sync_state_machine_init : List Action → StateMachine
unfolding state_machine_init set_actions
sync_state_machine_init trans =
    set_actions sync_actions
      (state_machine_init trans max_sync_state max_sync_msg drop sync_idle sync_machine_base)

abbrev pub assoc_actions : List (ℕ × ℕ × Action)
assoc_actions =
    ((assoc_idle, mt2_mlme_assoc_req, mlme_assoc_req_action)
      ∷ (assoc_idle, mt2_mlme_reassoc_req, mlme_reassoc_req_action)
      ∷ (assoc_idle, mt2_mlme_disassoc_req, mlme_disassoc_req_action)
      ∷ (assoc_idle, mt2_peer_disassoc_req, peer_disassoc_action)
      ∷ (assoc_wait_rsp, mt2_mlme_assoc_req, invalid_state_when_assoc)
      ∷ (assoc_wait_rsp, mt2_mlme_reassoc_req, invalid_state_when_reassoc)
      ∷ (assoc_wait_rsp, mt2_mlme_disassoc_req, invalid_state_when_disassociate)
      ∷ (assoc_wait_rsp, mt2_peer_disassoc_req, peer_disassoc_action)
      ∷ (assoc_wait_rsp, mt2_peer_assoc_rsp, peer_assoc_rsp_action)
      ∷ (assoc_wait_rsp, mt2_assoc_timeout, assoc_timeout_action)
      ∷ (reassoc_wait_rsp, mt2_mlme_assoc_req, invalid_state_when_assoc)
      ∷ (reassoc_wait_rsp, mt2_mlme_reassoc_req, invalid_state_when_reassoc)
      ∷ (reassoc_wait_rsp, mt2_mlme_disassoc_req, invalid_state_when_disassociate)
      ∷ (reassoc_wait_rsp, mt2_peer_disassoc_req, peer_disassoc_action)
      ∷ (reassoc_wait_rsp, mt2_peer_reassoc_rsp, peer_reassoc_rsp_action)
      ∷ (reassoc_wait_rsp, mt2_reassoc_timeout, reassoc_timeout_action)
      ∷ (disassoc_wait_rsp, mt2_mlme_assoc_req, invalid_state_when_assoc)
      ∷ (disassoc_wait_rsp, mt2_mlme_reassoc_req, invalid_state_when_reassoc)
      ∷ (disassoc_wait_rsp, mt2_mlme_disassoc_req, invalid_state_when_disassociate)
      ∷ (disassoc_wait_rsp, mt2_peer_disassoc_req, peer_disassoc_action)
      ∷ (disassoc_wait_rsp, mt2_disassoc_timeout, disassoc_timeout_action)
      ∷ [])

unfoldable pub assoc_state_machine_init : List Action → StateMachine
unfolding state_machine_init set_actions
assoc_state_machine_init trans =
    set_actions assoc_actions
      (state_machine_init trans max_assoc_state max_assoc_msg drop assoc_idle assoc_machine_base)

abbrev pub wpa_psk_actions : List (ℕ × ℕ × Action)
wpa_psk_actions = ((wpa_psk_idle, mt2_eapol_key, wpa_eapol_key_action) ∷ [])

unfoldable pub wpa_psk_state_machine_init : List Action → StateMachine
unfolding state_machine_init set_actions
wpa_psk_state_machine_init trans =
    set_actions wpa_psk_actions (
      state_machine_init trans max_wpa_psk_state max_wpa_psk_msg drop wpa_psk_idle wpa_machine_base)
