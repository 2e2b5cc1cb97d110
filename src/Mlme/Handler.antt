-- ===== src/Mlme/Handler.antt =====
-- The switch of MlmeHandler (Module/mlme.c): which state machine a message drives. The loop around
-- it is in the steps of the queue.
pub mod Tables
use rt.Prelude.{ℕ, Bool, Option, ◌==◌, if◌then◌else◌}
use rt.Mlme.Machine.{Action, StateMachine, state_machine_action}
use rt.Mlme.Machine.Names.{
  assoc_state_machine, auth_rsp_state_machine, auth_state_machine, mlme_cntl_state_machine,
  sync_state_machine, wpa_psk_state_machine,
}

-- The machines with a table, in `pAd->Mlme`.
pub record Machines : Type 0 where
  pub assoc : StateMachine
  pub auth : StateMachine
  pub auth_rsp : StateMachine
  pub sync : StateMachine
  pub wpa_psk : StateMachine

-- What becomes of a message: passed over in monitor mode, handed to the function a table holds
-- (`none` is an index past the table), handed to MlmeCntlMachinePerformAction, or reported.
pub data Dispatch : Type 0 where
  passed_over : Dispatch
  performed : Option Action → Dispatch
  control : Dispatch
  illegal_machine : Dispatch

-- `monitor` is `BssType == BSS_MONITOR`.
unfoldable pub dispatch : Bool → Machines → ℕ → ℕ → Dispatch
dispatch monitor ms machine msg_type =
    if monitor
    then passed_over
    else if machine == assoc_state_machine
    then performed (state_machine_action ms.assoc msg_type)
    else if machine == auth_state_machine
    then performed (state_machine_action ms.auth msg_type)
    else if machine == auth_rsp_state_machine
    then performed (state_machine_action ms.auth_rsp msg_type)
    else if machine == sync_state_machine
    then performed (state_machine_action ms.sync msg_type)
    else if machine == mlme_cntl_state_machine
    then control
    else if machine == wpa_psk_state_machine
    then performed (state_machine_action ms.wpa_psk msg_type)
    else illegal_machine
