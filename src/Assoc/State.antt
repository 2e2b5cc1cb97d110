-- ===== src/Assoc/State.antt =====
-- The state of the association machine, what its actions do, the actions that only confirm, and the
-- functions of its timers (Module/assoc.c).
use rt.Prelude.{ℕ, Bool, not, false, List, [], ◌∷◌}
use rt.Assoc.Request.{Aux}

-- NDIS_802_11_ASSOCIATION_INFORMATION, whose 40 bytes are in front of the elements.
pub record AssocInfo : Type 0 where
  pub info_length : ℕ
  pub available_request : ℕ
  pub request_capabilities : ℕ
  pub request_listen_interval : ℕ
  pub request_ie_length : ℕ
  pub offset_request_ies : ℕ
  pub available_response : ℕ
  pub response_capabilities : ℕ
  pub response_status : ℕ
  pub association_id : ℕ
  pub response_ie_length : ℕ
  pub offset_response_ies : ℕ

-- What the actions write.
pub record AssocState : Type 0 where
  pub machine_state : ℕ
  pub aux : Aux
  pub assoc_timer : Bool
  pub reassoc_timer : Bool
  pub disassoc_timer : Bool
  pub r17_upper : Bool
  pub disassoc_reason : ℕ
  pub disassoc_sta : List ℕ
  pub info : AssocInfo
  pub req_var_ies : List ℕ
  pub req_var_ie_len : ℕ
  pub res_var_ies : List ℕ
  pub res_var_ie_len : ℕ

pub data AssocEffect : Type 0 where
  assoc_conf reassoc_conf disassoc_conf : ℕ → AssocEffect
  transmit : List ℕ → AssocEffect
  link_down : AssocEffect

abbrev pub AssocResult : Type 0
AssocResult = AssocState × List AssocEffect

-- `CurrState = ASSOC_IDLE`, and a confirmation.
abbrev pub finish : AssocEffect → AssocState → AssocResult
finish effect a = (record a { machine_state = 0 }, effect ∷ [])

-- The timeouts and the refusals: MLME_REJ_TIMEOUT, MLME_SUCCESS and MLME_STATE_MACHINE_REJECT.
unfoldable pub run_assoc_timeout_action : AssocState → AssocResult
run_assoc_timeout_action a = finish (assoc_conf 16) a

unfoldable pub run_reassoc_timeout_action : AssocState → AssocResult
run_reassoc_timeout_action a = finish (reassoc_conf 16) a

unfoldable pub run_disassoc_timeout_action : AssocState → AssocResult
run_disassoc_timeout_action a = finish (disassoc_conf 0) a

unfoldable pub run_invalid_state_when_assoc : AssocState → AssocResult
run_invalid_state_when_assoc a = finish (assoc_conf 83) a

unfoldable pub run_invalid_state_when_reassoc : AssocState → AssocResult
run_invalid_state_when_reassoc a = finish (reassoc_conf 83) a

unfoldable pub run_invalid_state_when_disassociate : AssocState → AssocResult
run_invalid_state_when_disassociate a = finish (disassoc_conf 83) a

-- The timers' functions, up to the messages that they enqueue.
unfoldable pub assoc_timeout : AssocState → AssocState
assoc_timeout a = record a { assoc_timer = false; r17_upper = not a.r17_upper }

unfoldable pub reassoc_timeout : AssocState → AssocState
reassoc_timeout a = record a { reassoc_timer = false; r17_upper = not a.r17_upper }

unfoldable pub disassoc_timeout : AssocState → AssocState
disassoc_timeout a = record a { disassoc_timer = false }
