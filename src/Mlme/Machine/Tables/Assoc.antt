-- ===== src/Mlme/Machine/Tables/Assoc.antt =====
-- The table of Module/assoc.c, read back by state and message.
use rt.Prelude.{some, ℕ, ◌<◌, ◌≡◌, refl, List, arith, ◌==◌, if◌then◌else◌}
use rt.Prelude.Lists.{length, replicate}
use rt.Mlme.Machine.{
  state_machine_action, Action, drop, mlme_assoc_req_action, mlme_reassoc_req_action,
  mlme_disassoc_req_action, peer_disassoc_action, peer_assoc_rsp_action, peer_reassoc_rsp_action,
  assoc_timeout_action, reassoc_timeout_action, disassoc_timeout_action, invalid_state_when_assoc,
  invalid_state_when_reassoc, invalid_state_when_disassociate,
}
use rt.Mlme.Machine.Names.{
  max_assoc_state, max_assoc_msg, assoc_idle, assoc_wait_rsp, reassoc_wait_rsp, disassoc_wait_rsp,
  mt2_mlme_assoc_req, mt2_mlme_reassoc_req, mt2_mlme_disassoc_req, mt2_peer_disassoc_req,
  mt2_peer_assoc_rsp, mt2_peer_reassoc_rsp, mt2_disassoc_timeout, mt2_assoc_timeout,
  mt2_reassoc_timeout,
}
use rt.Mlme.Machine.Tables.Memory.{Answers-memory}
use rt.Mlme.Machine.Tabulate.{in_state, Answers, tabulated-Answers}
use rt.Mlme.Machine.Tables.{assoc_actions, assoc_state_machine_init}

-- An action for one state alone.
abbrev only : ℕ → Action → ℕ → Action
only wanted f st = if st == wanted then f else drop

-- A request that is served when the machine is idle and refused otherwise.
abbrev when_idle : Action → Action → ℕ → Action
when_idle f g st = if st == assoc_idle then f else g

-- What the association machine answers, message by message.
unfoldable pub assoc_answer : ℕ → ℕ → Action
assoc_answer st msg =
    if msg == mt2_mlme_assoc_req
    then when_idle mlme_assoc_req_action invalid_state_when_assoc st
    else if msg == mt2_mlme_reassoc_req
    then when_idle mlme_reassoc_req_action invalid_state_when_reassoc st
    else if msg == mt2_mlme_disassoc_req
    then when_idle mlme_disassoc_req_action invalid_state_when_disassociate st
    else if msg == mt2_peer_disassoc_req
    then peer_disassoc_action
    else if msg == mt2_peer_assoc_rsp
    then only assoc_wait_rsp peer_assoc_rsp_action st
    else if msg == mt2_peer_reassoc_rsp
    then only reassoc_wait_rsp peer_reassoc_rsp_action st
    else if msg == mt2_disassoc_timeout
    then only disassoc_wait_rsp disassoc_timeout_action st
    else if msg == mt2_assoc_timeout
    then only assoc_wait_rsp assoc_timeout_action st
    else if msg == mt2_reassoc_timeout
    then only reassoc_wait_rsp reassoc_timeout_action st
    else drop

assoc_blank : Answers (assoc_state_machine_init (replicate 44 drop)) assoc_answer
unfolding assoc_state_machine_init assoc_answer
assoc_blank =
    tabulated-Answers (assoc_state_machine_init (replicate 44 drop)) assoc_answer refl (omega arith)
      refl

-- On memory of the right size the machine of AssocStateMachineInit serves the three requests when
-- idle and hands them to the InvalidStateWhen actions otherwise, hands a peer's disassociation to
-- PeerDisassocAction in every state, hands each response and each timeout to its action in the
-- one state that waits for it, and drops everything else; the state and the message are any two
-- of the table's.
pub assoc_dispatch :
    (trans : List Action) (st msg : ℕ)
    → length trans ≡ 44
    → st < max_assoc_state
    → msg < max_assoc_msg
    → state_machine_action (in_state st (assoc_state_machine_init trans)) msg
      ≡ some (assoc_answer st msg)
assoc_dispatch trans st msg e p q =
    unfold assoc_state_machine_init in
    Answers-memory assoc_actions 4 11 0 0 assoc_answer trans e assoc_blank st msg p q
