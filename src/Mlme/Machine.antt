-- ===== src/Mlme/Machine.antt =====
-- The state machine of Module/mlme.c (StateMachineInit, StateMachineSetAction and
-- StateMachinePerformAction; the structure is in Module/mlme.h): a table of functions with a row
-- for each state and a column for each message. A function pointer is the name of the function.
pub mod Laws
pub mod Names
pub mod Tabulate
pub mod Tables
use rt.Prelude.{ℕ, zero, suc, ◌+◌, ◌-◌, ◌*◌, ◌%◌, ◌^◌, ◌&&◌, Option, List, ltb, if◌then◌else◌}
use rt.Prelude.Lists.{get_elem?, set}

-- The functions that the tables hold.
pub data Action : Type 0 where
  drop : Action
  mlme_assoc_req_action mlme_reassoc_req_action mlme_disassoc_req_action : Action
  peer_disassoc_action peer_assoc_rsp_action peer_reassoc_rsp_action : Action
  assoc_timeout_action reassoc_timeout_action disassoc_timeout_action : Action
  invalid_state_when_assoc invalid_state_when_reassoc invalid_state_when_disassociate : Action
  mlme_auth_req_action invalid_state_when_auth auth_timeout_action : Action
  peer_auth_rsp_at_seq2_action peer_auth_rsp_at_seq4_action : Action
  peer_deauth_action : Action
  mlme_scan_req_action mlme_join_req_action mlme_start_req_action : Action
  peer_beacon peer_probe_req_action : Action
  invalid_state_when_scan invalid_state_when_join invalid_state_when_start : Action
  peer_beacon_at_join_action beacon_timeout_at_join_action : Action
  peer_beacon_at_scan_action scan_timeout_action : Action
  wpa_eapol_key_action : Action

pub record StateMachine : Type 0 where
  pub base : ℕ
  pub nr_state : ℕ
  pub nr_msg : ℕ
  pub curr_state : ℕ
  pub trans_func : List Action

-- `ULONG` is a 32-bit word.
abbrev pub u32 : ℕ → ℕ
u32 n = n % 2 ^ 32

-- `for (j = ...; j < MsgNr; j++) TransFunc[i * MsgNr + j] = DefFunc`, with the rounds left.
unfoldable pub fill_row : ℕ → ℕ → Action → List Action → List Action
fill_row zero at f trans = trans
fill_row (suc left) at f trans = fill_row left (at + 1) f (set trans at f)

-- The outer loop, at state `i`.
unfoldable pub fill_rows : ℕ → ℕ → ℕ → Action → List Action → List Action
unfolding fill_row
fill_rows zero i nr_msg f trans = trans
fill_rows (suc left) i nr_msg f trans =
    fill_rows left (i + 1) nr_msg f (fill_row nr_msg (i * nr_msg) f trans)

-- `StateMachineInit`; the memory of the table is an argument, as in the source.
unfoldable pub state_machine_init : List Action → ℕ → ℕ → Action → ℕ → ℕ → StateMachine
unfolding fill_rows
state_machine_init trans st_nr msg_nr def_func init_state base = record {
  base = base;
  nr_state = st_nr;
  nr_msg = msg_nr;
  curr_state = init_state;
  trans_func = fill_rows st_nr 0 msg_nr def_func trans;
}

-- `StateMachineSetAction`; the message's index is a 32-bit difference.
unfoldable pub state_machine_set_action : ℕ → ℕ → Action → StateMachine → StateMachine
state_machine_set_action st msg func s =
    let msg_idx = u32 (msg + 2 ^ 32 - s.base) in
    if ltb st s.nr_state && ltb msg_idx s.nr_msg
    then record s { trans_func = set s.trans_func (st * s.nr_msg + msg_idx) func }
    else s

-- The function that `StateMachinePerformAction` calls; `none` is an index past the table.
unfoldable pub state_machine_action : StateMachine → ℕ → Option Action
state_machine_action s msg_type =
    get_elem? s.trans_func (u32 (s.curr_state * s.nr_msg + msg_type + 2 ^ 32 - s.base))
