-- ===== src/Mlme/Machine/Tables/Auth.antt =====
-- The tables of Module/auth.c, Module/auth_rsp.c and Module/wpa.c, read back by state and message.
use rt.Prelude.{some, ℕ, ◌<◌, ◌≡◌, refl, List, arith, ◌==◌, if◌then◌else◌}
use rt.Prelude.Lists.{length, replicate}
use rt.Mlme.Machine.{
  state_machine_action, Action, drop, mlme_auth_req_action, invalid_state_when_auth,
  auth_timeout_action, peer_auth_rsp_at_seq2_action, peer_auth_rsp_at_seq4_action,
  peer_deauth_action, wpa_eapol_key_action,
}
use rt.Mlme.Machine.Names.{
  max_auth_state, max_auth_msg, max_auth_rsp_state, max_auth_rsp_msg, max_wpa_psk_state,
  max_wpa_psk_msg, auth_req_idle, auth_wait_seq2, mt2_mlme_auth_req, mt2_peer_auth_even,
  mt2_peer_deauth, mt2_eapol_key,
}
use rt.Mlme.Machine.Tables.Memory.{Answers-memory}
use rt.Mlme.Machine.Tabulate.{in_state, Answers, tabulated-Answers}
use rt.Mlme.Machine.Tables.{
  auth_actions, auth_rsp_actions, wpa_psk_actions, auth_state_machine_init,
  auth_rsp_state_machine_init, wpa_psk_state_machine_init,
}

-- What the authentication machine answers, message by message.
unfoldable pub auth_answer : ℕ → ℕ → Action
auth_answer st msg =
    if msg == mt2_mlme_auth_req
    then (if st == auth_req_idle then mlme_auth_req_action else invalid_state_when_auth)
    else if st == auth_req_idle
    then drop
    else if msg == mt2_peer_auth_even
    then (if st == auth_wait_seq2
        then peer_auth_rsp_at_seq2_action
        else peer_auth_rsp_at_seq4_action)
    else auth_timeout_action

auth_blank : Answers (auth_state_machine_init (replicate 9 drop)) auth_answer
unfolding auth_state_machine_init auth_answer
auth_blank =
    tabulated-Answers (auth_state_machine_init (replicate 9 drop)) auth_answer refl (omega arith)
      refl

-- What the responder's machine and the WPA-PSK machine answer.
pub auth_rsp_answer : ℕ → ℕ → Action
auth_rsp_answer st msg = if msg == mt2_peer_deauth then peer_deauth_action else drop

pub wpa_psk_answer : ℕ → ℕ → Action
wpa_psk_answer st msg = if msg == mt2_eapol_key then wpa_eapol_key_action else drop

auth_rsp_blank : Answers (auth_rsp_state_machine_init (replicate 6 drop)) auth_rsp_answer
unfolding auth_rsp_state_machine_init auth_rsp_answer
auth_rsp_blank =
    tabulated-Answers (auth_rsp_state_machine_init (replicate 6 drop)) auth_rsp_answer refl
      (omega arith) refl

wpa_psk_blank : Answers (wpa_psk_state_machine_init (replicate 5 drop)) wpa_psk_answer
unfolding wpa_psk_state_machine_init wpa_psk_answer
wpa_psk_blank =
    tabulated-Answers (wpa_psk_state_machine_init (replicate 5 drop)) wpa_psk_answer refl
      (omega arith) refl

-- On memory of the right size the machine of AuthStateMachineInit, in any of its states,
-- dispatches a new request to MlmeAuthReqAction when idle and to InvalidStateWhenAuth otherwise,
-- drops responses and timeouts when idle, and hands a response to the action of the awaited
-- sequence number and a timeout to AuthTimeoutAction while it waits.
pub auth_dispatch :
    (trans : List Action) (st msg : ℕ)
    → length trans ≡ 9
    → st < max_auth_state
    → msg < max_auth_msg
    → state_machine_action (in_state st (auth_state_machine_init trans)) msg
      ≡ some (auth_answer st msg)
auth_dispatch trans st msg e p q =
    unfold auth_state_machine_init in
    Answers-memory auth_actions 3 3 0 0 auth_answer trans e auth_blank st msg p q

-- On memory of the right size the machine of AuthRspStateMachineInit hands a deauthentication to
-- PeerDeauthAction and drops its other messages, in both its states.
pub auth_rsp_dispatch :
    (trans : List Action) (st msg : ℕ)
    → length trans ≡ 6
    → st < max_auth_rsp_state
    → msg < max_auth_rsp_msg
    → state_machine_action (in_state st (auth_rsp_state_machine_init trans)) msg
      ≡ some (auth_rsp_answer st msg)
auth_rsp_dispatch trans st msg e p q =
    unfold auth_rsp_state_machine_init in
    Answers-memory auth_rsp_actions 2 3 0 0 auth_rsp_answer trans e auth_rsp_blank st msg p q

-- On memory of the right size the machine of WpaPskStateMachineInit hands an EAPOL key message to
-- WpaEAPOLKeyAction and drops its other messages.
pub wpa_psk_dispatch :
    (trans : List Action) (st msg : ℕ)
    → length trans ≡ 5
    → st < max_wpa_psk_state
    → msg < max_wpa_psk_msg
    → state_machine_action (in_state st (wpa_psk_state_machine_init trans)) msg
      ≡ some (wpa_psk_answer st msg)
wpa_psk_dispatch trans st msg e p q =
    unfold wpa_psk_state_machine_init in
    Answers-memory wpa_psk_actions 1 5 0 0 wpa_psk_answer trans e wpa_psk_blank st msg p q
