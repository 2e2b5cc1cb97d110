-- ===== src/Auth.antt =====
-- The authentication machine's actions (Module/auth.c) and PeerDeauthAction (Module/auth_rsp.c). An
-- action gives the state it leaves and what it sends: frames by MiniportMMRequest, and the status in
-- its MT2_AUTH_CONF messages to the control machine. Whether kmalloc succeeds is an argument, and so
-- is what the array of the challenge holds before it is filled.
pub mod Frame
pub mod Run
pub mod Challenge
mod Examples
use rt.Prelude.{
  ℕ, ◌+◌, ◌%◌, Bool, true, false, not, ◌&&◌, Option, none, some, List, [], ◌∷◌, ◌++◌, ◌==◌,
  if◌then◌else◌,
}
use rt.Prelude.Lists.{length, take, mem_eq, replicate}
use rt.Frames.Requests.{
  AuthReq, AuthFrame, mlme_auth_req_sanity, peer_auth_sanity, peer_deauth_sanity,
}
use rt.Wep.Engine.{Engine, rtmp_init_wep_engine, encrypt_pieces, rtmp_set_icv}
use rt.Auth.Frame.{subtype_auth, mgt_mac_header_init, with_wep, make_outgoing_frame, le16}

-- What the actions read of the adapter: its address, `bBlockAssoc`, and the default key.
pub record Config : Type 0 where
  pub current_address : List ℕ
  pub block_assoc : Bool
  pub default_key_id : ℕ
  pub key : List ℕ
  pub key_len : ℕ

-- What they write: the machine's state, the fields of `MlmeAux`, whether the timer is pending, the
-- last failure, the bit that the timer's function flips, and the WEP engine.
pub record AuthState : Type 0 where
  pub curr_state : ℕ
  pub bssid : List ℕ
  pub alg : ℕ
  pub timer : Bool
  pub auth_fail_reason : ℕ
  pub auth_fail_sta : List ℕ
  pub r17_lower_upper_select : Bool
  pub engine : Engine

pub data Effect : Type 0 where
  conf : ℕ → Effect
  send : List ℕ → Effect

abbrev pub Result : Type 0
Result = AuthState × List Effect

-- `CurrState = AUTH_REQ_IDLE`, and the confirmation with a status.
abbrev pub confirm : ℕ → AuthState → Result
confirm status a = (record a { curr_state = 0 }, conf status ∷ [])

-- InvalidStateWhenAuth: MLME_STATE_MACHINE_REJECT.
unfoldable pub run_invalid_state_when_auth : AuthState → Result
run_invalid_state_when_auth a = confirm 83 a

-- AuthTimeoutAction: MLME_REJ_TIMEOUT.
unfoldable pub run_auth_timeout_action : AuthState → Result
run_auth_timeout_action a = confirm 16 a

-- AuthTimeout, the timer's function, up to the message that it enqueues.
unfoldable pub auth_timeout : AuthState → AuthState
auth_timeout a = record a { timer = false; r17_lower_upper_select = not a.r17_lower_upper_select }

-- The frame of sequence number 1.
unfoldable pub auth_request_frame : Config → List ℕ → ℕ → List ℕ
unfolding mgt_mac_header_init make_outgoing_frame
auth_request_frame cfg addr alg = make_outgoing_frame (
    mgt_mac_header_init subtype_auth 0 addr cfg.current_address addr
    ∷ le16 alg
    ∷ le16 1
    ∷ le16 0
    ∷ [])

-- MlmeAuthReqAction: MLME_INVALID_FORMAT behind a refusal, MLME_FAIL_NO_RESOURCE without memory.
unfoldable pub checked_request : Config → Bool → Option AuthReq → AuthState → Result
checked_request cfg alloc none a = confirm 81 a
checked_request cfg alloc (some r) a =
    let b = record a { timer = false; bssid = r.addr; alg = r.alg } in
    if not alloc then confirm 82 b else (
      record b { timer = true; curr_state = 1 },
      send (auth_request_frame cfg r.addr r.alg) ∷ [],
    )

unfoldable pub run_mlme_auth_req_action : Config → Bool → AuthReq → AuthState → Result
unfolding checked_request mlme_auth_req_sanity
run_mlme_auth_req_action cfg alloc info a =
    if cfg.block_assoc
    then confirm 83 a
    else checked_request cfg alloc (mlme_auth_req_sanity info) a

-- The pieces that are encrypted, and the frame of sequence number 3 around them.
abbrev pub challenge_pieces : AuthFrame → List (List ℕ)
challenge_pieces f =
    le16 f.auth_alg ∷ le16 (f.seq + 1) ∷ le16 0 ∷ (16 ∷ 128 ∷ []) ∷ take 128 f.chlg_text ∷ []

unfoldable pub challenge_body : Config → AuthFrame → Engine → Engine × List ℕ
challenge_body cfg f e =
    let (e1, head) = rtmp_init_wep_engine cfg.key cfg.default_key_id cfg.key_len e in
    let (e2, body) = encrypt_pieces (challenge_pieces f) e1 in
    let (e3, icv) = rtmp_set_icv e2 in (e3, head ++ (body ++ icv))

unfoldable pub challenge_answer : Config → AuthFrame → AuthState → Result
unfolding challenge_body mgt_mac_header_init make_outgoing_frame
challenge_answer cfg f a =
    let (e, body) = challenge_body cfg f a.engine in
    let hdr =
      with_wep (mgt_mac_header_init subtype_auth 0 f.auth_addr cfg.current_address a.bssid) in
    (
      record a { engine = e; timer = true; curr_state = 2 },
      send (make_outgoing_frame (hdr ∷ body ∷ [])) ∷ [],
    )

-- A status that says failure is kept with the sender.
abbrev pub note_failure : AuthFrame → AuthState → AuthState
note_failure f a = record a { auth_fail_reason = f.status; auth_fail_sta = f.auth_addr }

-- PeerAuthRspAtSeq2Action, on what PeerAuthSanity made of the frame.
unfoldable pub checked_seq2 : Config → Bool → Option AuthFrame → AuthState → Result
checked_seq2 cfg alloc none a = (a, [])
checked_seq2 cfg alloc (some f) a =
    let b = record a { timer = false } in
    if mem_eq a.bssid f.auth_addr 6 && f.seq == 2
    then (if f.status == 0
        then (if a.alg == 0
            then confirm f.status b
            else if not alloc
            then confirm 82 b
            else challenge_answer cfg f b)
        else confirm f.status (note_failure f b))
    else (a, [])

unfoldable pub run_peer_auth_rsp_at_seq2_action :
    Config → Bool → List ℕ → List ℕ → AuthState → Result
unfolding checked_seq2 peer_auth_sanity
run_peer_auth_rsp_at_seq2_action cfg alloc stack frame a =
    checked_seq2 cfg alloc (peer_auth_sanity frame stack) a

-- PeerAuthRspAtSeq4Action.
unfoldable pub checked_seq4 : Option AuthFrame → AuthState → Result
checked_seq4 none a = (a, [])
checked_seq4 (some f) a =
    let b = record a { timer = false } in
    if mem_eq a.bssid f.auth_addr 6 && f.seq == 4
    then confirm f.status (if f.status == 0 then b else note_failure f b)
    else (a, [])

unfoldable pub run_peer_auth_rsp_at_seq4_action : List ℕ → List ℕ → AuthState → Result
unfolding checked_seq4 peer_auth_sanity
run_peer_auth_rsp_at_seq4_action stack frame a = checked_seq4 (peer_auth_sanity frame stack) a

-- PeerDeauthAction: whether it takes the link down.
unfoldable pub checked_deauth : Bool → List ℕ → Option (List ℕ × ℕ) → Bool
checked_deauth infra_on bssid none = false
checked_deauth infra_on bssid (some (addr2, reason)) = infra_on && mem_eq addr2 bssid 6

unfoldable pub run_peer_deauth_action : Bool → List ℕ → List ℕ → Bool
unfolding checked_deauth peer_deauth_sanity
run_peer_deauth_action infra_on bssid frame =
    checked_deauth infra_on bssid (peer_deauth_sanity frame)
