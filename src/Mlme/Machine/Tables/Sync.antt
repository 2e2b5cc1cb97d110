-- ===== src/Mlme/Machine/Tables/Sync.antt =====
-- The table of Module/sync.c, read back by state and message.
use rt.Prelude.{some, ℕ, ◌<◌, ◌≡◌, refl, List, arith, ◌==◌, if◌then◌else◌}
use rt.Prelude.Lists.{length, replicate}
use rt.Mlme.Machine.{
  state_machine_action, Action, drop, mlme_scan_req_action, mlme_join_req_action,
  mlme_start_req_action, peer_beacon, peer_probe_req_action, invalid_state_when_scan,
  invalid_state_when_join, invalid_state_when_start, peer_beacon_at_join_action,
  beacon_timeout_at_join_action, peer_beacon_at_scan_action, scan_timeout_action,
}
use rt.Mlme.Machine.Names.{
  max_sync_state, max_sync_msg, sync_idle, join_wait_beacon, scan_listen, mt2_mlme_scan_req,
  mt2_mlme_join_req, mt2_mlme_start_req, mt2_peer_beacon, mt2_peer_probe_rsp, mt2_scan_timeout,
  mt2_beacon_timeout, mt2_peer_probe_req,
}
use rt.Mlme.Machine.Tables.Memory.{Answers-memory}
use rt.Mlme.Machine.Tabulate.{in_state, Answers, tabulated-Answers}
use rt.Mlme.Machine.Tables.{sync_actions, sync_state_machine_init}

abbrev only : ℕ → Action → ℕ → Action
only wanted f st = if st == wanted then f else drop

abbrev when_idle : Action → Action → ℕ → Action
when_idle f g st = if st == sync_idle then f else g

-- What the synchronisation machine answers, message by message.
pub sync_answer : ℕ → ℕ → Action
sync_answer st msg =
    if msg == mt2_mlme_scan_req
    then when_idle mlme_scan_req_action invalid_state_when_scan st
    else if msg == mt2_mlme_join_req
    then when_idle mlme_join_req_action invalid_state_when_join st
    else if msg == mt2_mlme_start_req
    then when_idle mlme_start_req_action invalid_state_when_start st
    else if msg == mt2_peer_beacon
    then (if st == sync_idle
        then peer_beacon
        else if st == join_wait_beacon
        then peer_beacon_at_join_action
        else peer_beacon_at_scan_action)
    else if msg == mt2_peer_probe_rsp
    then only scan_listen peer_beacon_at_scan_action st
    else if msg == mt2_scan_timeout
    then only scan_listen scan_timeout_action st
    else if msg == mt2_beacon_timeout
    then only join_wait_beacon beacon_timeout_at_join_action st
    else if msg == mt2_peer_probe_req
    then only sync_idle peer_probe_req_action st
    else drop

sync_blank : Answers (sync_state_machine_init (replicate 30 drop)) sync_answer
unfolding sync_state_machine_init sync_answer
sync_blank =
    tabulated-Answers (sync_state_machine_init (replicate 30 drop)) sync_answer refl (omega arith)
      refl

-- On memory of the right size the machine of SyncStateMachineInit serves scan, join and start
-- requests when idle and hands them to the InvalidStateWhen actions otherwise, hands a beacon to
-- the action of the current state, a probe response to the scan action while scanning only, the
-- scan timeout while scanning, the beacon timeout while joining and a probe request when idle to
-- their actions, and drops everything else, a probe response when idle included; the state and
-- the message are any two of the table's.
pub sync_dispatch :
    (trans : List Action) (st msg : ℕ)
    → length trans ≡ 30
    → st < max_sync_state
    → msg < max_sync_msg
    → state_machine_action (in_state st (sync_state_machine_init trans)) msg
      ≡ some (sync_answer st msg)
sync_dispatch trans st msg e p q =
    unfold sync_state_machine_init in
    Answers-memory sync_actions 3 10 0 0 sync_answer trans e sync_blank st msg p q
