-- ===== src/Assoc/Run.antt =====
-- The association machine with its messages and its timers (Module/assoc.c, the table of
-- AssocStateMachineInit): a step relation, for runs in which the machine's messages come back in
-- their order. A message that MlmeEnqueue does not take is lost: of a request or a frame nothing
-- comes, and of a timer's message the timer's end alone.
pub mod Settled
pub mod Timed
use rt.Prelude.{
  ℕ, ◌+◌, ◌≡◌, Bool, true, false, Option, none, some, List, [], ◌∷◌, ◌++◌, ◌==◌, if◌then◌else◌,
}
use rt.Prelude.Lists.{replicate}
use rt.Mlme.Machine.{
  Action, drop, state_machine_action, mlme_assoc_req_action, mlme_reassoc_req_action,
  mlme_disassoc_req_action, peer_disassoc_action, peer_assoc_rsp_action, peer_reassoc_rsp_action,
  assoc_timeout_action, reassoc_timeout_action, disassoc_timeout_action, invalid_state_when_assoc,
  invalid_state_when_reassoc, invalid_state_when_disassociate,
}
use rt.Mlme.Machine.Names.{
  mt2_mlme_assoc_req, mt2_mlme_reassoc_req, mt2_mlme_disassoc_req, mt2_peer_disassoc_req,
  mt2_peer_assoc_rsp, mt2_peer_reassoc_rsp, mt2_disassoc_timeout, mt2_assoc_timeout,
  mt2_reassoc_timeout,
}
use rt.Mlme.Machine.Tables.{assoc_state_machine_init}
use rt.Mlme.Machine.Tabulate.{in_state}
use rt.Frames.AssocRsp.{AssocRsp}
use rt.Assoc.Request.{AssocConfig, AssocReq}
use rt.Assoc.State.{
  AssocState, AssocEffect, AssocResult, run_assoc_timeout_action, run_reassoc_timeout_action,
  run_disassoc_timeout_action, run_invalid_state_when_assoc, run_invalid_state_when_reassoc,
  run_invalid_state_when_disassociate, assoc_timeout, reassoc_timeout, disassoc_timeout,
}
use rt.Assoc.{
  run_mlme_assoc_req_action, run_mlme_reassoc_req_action, run_mlme_disassoc_req_action,
  run_peer_disassoc_action, run_peer_assoc_rsp_action, run_peer_reassoc_rsp_action,
}

-- The machine's messages; a response has its length in the message.
pub data AssocMsg : Type 0 where
  assoc_req reassoc_req : AssocReq → AssocMsg
  disassoc_req : List ℕ → ℕ → AssocMsg
  peer_disassoc : List ℕ → AssocMsg
  peer_assoc peer_reassoc : List ℕ → ℕ → AssocMsg
  disassoc_timed_out assoc_timed_out reassoc_timed_out : AssocMsg

abbrev pub assoc_msg_type : AssocMsg → ℕ
assoc_msg_type (assoc_req r) = mt2_mlme_assoc_req
assoc_msg_type (reassoc_req r) = mt2_mlme_reassoc_req
assoc_msg_type (disassoc_req addr reason) = mt2_mlme_disassoc_req
assoc_msg_type (peer_disassoc frame) = mt2_peer_disassoc_req
assoc_msg_type (peer_assoc frame len) = mt2_peer_assoc_rsp
assoc_msg_type (peer_reassoc frame len) = mt2_peer_reassoc_rsp
assoc_msg_type disassoc_timed_out = mt2_disassoc_timeout
assoc_msg_type assoc_timed_out = mt2_assoc_timeout
assoc_msg_type reassoc_timed_out = mt2_reassoc_timeout

-- What a call meets: whether kmalloc succeeds, and the variables of a response.
pub record Meets : Type 0 where
  pub has_memory : Bool
  pub variables : AssocRsp

-- The table's function on the message; `Drop` and the functions of other machines do nothing here.
unfoldable pub assoc_act : AssocConfig → Meets → Action → AssocMsg → AssocState → AssocResult
unfolding run_mlme_assoc_req_action run_mlme_reassoc_req_action run_mlme_disassoc_req_action
    run_peer_disassoc_action run_peer_assoc_rsp_action run_peer_reassoc_rsp_action
    run_assoc_timeout_action run_reassoc_timeout_action run_disassoc_timeout_action
    run_invalid_state_when_assoc run_invalid_state_when_reassoc run_invalid_state_when_disassociate
assoc_act cfg e mlme_assoc_req_action (assoc_req r) a =
    run_mlme_assoc_req_action cfg e.has_memory r a
assoc_act cfg e mlme_reassoc_req_action (reassoc_req r) a =
    run_mlme_reassoc_req_action cfg e.has_memory r a
assoc_act cfg e mlme_disassoc_req_action (disassoc_req addr reason) a =
    run_mlme_disassoc_req_action cfg e.has_memory addr reason a
assoc_act cfg e peer_disassoc_action (peer_disassoc frame) a = run_peer_disassoc_action cfg frame a
assoc_act cfg e peer_assoc_rsp_action (peer_assoc frame len) a =
    run_peer_assoc_rsp_action cfg e.variables frame len a
assoc_act cfg e peer_reassoc_rsp_action (peer_reassoc frame len) a =
    run_peer_reassoc_rsp_action cfg e.variables frame len a
assoc_act cfg e assoc_timeout_action m a = run_assoc_timeout_action a
assoc_act cfg e reassoc_timeout_action m a = run_reassoc_timeout_action a
assoc_act cfg e disassoc_timeout_action m a = run_disassoc_timeout_action a
assoc_act cfg e invalid_state_when_assoc m a = run_invalid_state_when_assoc a
assoc_act cfg e invalid_state_when_reassoc m a = run_invalid_state_when_reassoc a
assoc_act cfg e invalid_state_when_disassociate m a = run_invalid_state_when_disassociate a
assoc_act cfg e _ m a = (a, [])

-- StateMachinePerformAction on the machine's table.
unfoldable pub assoc_found :
    AssocConfig → Meets → Option Action → AssocMsg → AssocState → AssocResult
unfolding assoc_act
assoc_found cfg e none m a = (a, [])
assoc_found cfg e (some f) m a = assoc_act cfg e f m a

unfoldable pub assoc_perform : AssocConfig → Meets → AssocMsg → AssocState → AssocResult
unfolding assoc_found assoc_state_machine_init
assoc_perform cfg e m a =
    assoc_found cfg e
      (state_machine_action
        (in_state a.machine_state (assoc_state_machine_init (replicate 44 drop)))
        (assoc_msg_type m))
      m a

-- The machine, its messages that wait, and what it has done, the last first; `lost` is history, the
-- timers' messages that MlmeEnqueue did not take.
pub record AssocWorld : Type 0 where
  pub machine : AssocState
  pub waiting : List AssocMsg
  pub done : List AssocEffect
  pub lost : ℕ

abbrev pub performed : AssocConfig → Meets → AssocMsg → List AssocMsg → AssocWorld → AssocWorld
performed cfg e m ms w =
    let r = assoc_perform cfg e m w.machine in
    record { machine = r.0; waiting = ms; done = r.1 ++ w.done; lost = w.lost }

-- A timer fires: its function, and its message.
abbrev pub fired : (AssocState → AssocState) → AssocMsg → AssocWorld → AssocWorld
fired f m w = record w { machine = f w.machine; waiting = w.waiting ++ m ∷ [] }

-- A timer fires, and MlmeEnqueue gives FALSE, which its function does not ask for.
abbrev pub lost_by : (AssocState → AssocState) → AssocWorld → AssocWorld
lost_by f w = record w { machine = f w.machine; lost = w.lost + 1 }

-- A message arrives, of any kind; a timer that is set fires, with its message queued or lost; or the
-- first message is handled.
pub data AssocStep (cfg : AssocConfig) (w : AssocWorld) : AssocWorld → Type 0 where
  arrives : (m : AssocMsg) → AssocStep cfg w (record w { waiting = w.waiting ++ m ∷ [] })
  assoc_fires :
      w.machine.assoc_timer ≡ true → AssocStep cfg w (fired assoc_timeout assoc_timed_out w)
  reassoc_fires :
      w.machine.reassoc_timer ≡ true → AssocStep cfg w (fired reassoc_timeout reassoc_timed_out w)
  disassoc_fires :
      w.machine.disassoc_timer ≡ true
      → AssocStep cfg w (fired disassoc_timeout disassoc_timed_out w)
  assoc_loses : w.machine.assoc_timer ≡ true → AssocStep cfg w (lost_by assoc_timeout w)
  reassoc_loses : w.machine.reassoc_timer ≡ true → AssocStep cfg w (lost_by reassoc_timeout w)
  disassoc_loses : w.machine.disassoc_timer ≡ true → AssocStep cfg w (lost_by disassoc_timeout w)
  performs :
      (e : Meets) (m : AssocMsg) (ms : List AssocMsg)
      → w.waiting ≡ m ∷ ms
      → AssocStep cfg w (performed cfg e m ms w)

pub data AssocReach (cfg : AssocConfig) (w : AssocWorld) : AssocWorld → Type 0 where
  at_first : AssocReach cfg w w
  further : {v u : AssocWorld} → AssocReach cfg w v → AssocStep cfg v u → AssocReach cfg w u

-- An idle machine without messages; nothing is said of its timers.
abbrev pub assoc_start : AssocState → AssocWorld
assoc_start a = record {
  machine = record a { machine_state = 0 };
  waiting = [];
  done = [];
  lost = 0;
}
