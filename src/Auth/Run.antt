-- ===== src/Auth/Run.antt =====
-- The authentication machine with its messages and its timer (Module/auth.c, the table of
-- AuthStateMachineInit): a step relation, for runs in which the machine's messages come back in their
-- order. A message that MlmeEnqueue does not take is lost: of a request or a frame nothing comes, and
-- of the timer's message the timer's end alone.
pub mod Invariant
pub mod Ends
use rt.Prelude.{
  ℕ, ◌+◌, ◌≡◌, Bool, true, false, Option, none, some, List, [], ◌∷◌, ◌++◌, ◌==◌, if◌then◌else◌,
}
use rt.Prelude.Lists.{replicate}
use rt.Mlme.Machine.{
  Action, drop, state_machine_action, mlme_auth_req_action, invalid_state_when_auth,
  auth_timeout_action, peer_auth_rsp_at_seq2_action, peer_auth_rsp_at_seq4_action,
}
use rt.Mlme.Machine.Names.{mt2_mlme_auth_req, mt2_peer_auth_even, mt2_auth_timeout}
use rt.Mlme.Machine.Tables.{auth_state_machine_init}
use rt.Mlme.Machine.Tabulate.{in_state}
use rt.Frames.Requests.{AuthReq}
use rt.Auth.{
  Config, AuthState, Effect, conf, send, Result, run_invalid_state_when_auth,
  run_auth_timeout_action, auth_timeout, run_mlme_auth_req_action, run_peer_auth_rsp_at_seq2_action,
  run_peer_auth_rsp_at_seq4_action,
}

-- The three messages of the machine: a request, an authentication frame, the timer's message.
pub data AuthMsg : Type 0 where
  request : AuthReq → AuthMsg
  peer_even : List ℕ → AuthMsg
  timed_out : AuthMsg

abbrev pub msg_type : AuthMsg → ℕ
msg_type (request r) = mt2_mlme_auth_req
msg_type (peer_even frame) = mt2_peer_auth_even
msg_type timed_out = mt2_auth_timeout

-- The table's function on the message; `Drop` and the functions of other machines do nothing here.
unfoldable pub perform : Config → Bool → List ℕ → Action → AuthMsg → AuthState → Result
perform cfg alloc stack mlme_auth_req_action (request r) a = run_mlme_auth_req_action cfg alloc r a
perform cfg alloc stack invalid_state_when_auth m a = run_invalid_state_when_auth a
perform cfg alloc stack auth_timeout_action m a = run_auth_timeout_action a
perform cfg alloc stack peer_auth_rsp_at_seq2_action (peer_even frame) a =
    run_peer_auth_rsp_at_seq2_action cfg alloc stack frame a
perform cfg alloc stack peer_auth_rsp_at_seq4_action (peer_even frame) a =
    run_peer_auth_rsp_at_seq4_action stack frame a
perform cfg alloc stack _ m a = (a, [])

-- StateMachinePerformAction on the machine's table.
unfoldable pub perform_found : Config → Bool → List ℕ → Option Action → AuthMsg → AuthState → Result
perform_found cfg alloc stack none m a = (a, [])
perform_found cfg alloc stack (some f) m a = perform cfg alloc stack f m a

unfoldable pub auth_perform : Config → Bool → List ℕ → AuthMsg → AuthState → Result
unfolding perform_found perform auth_state_machine_init
auth_perform cfg alloc stack m a =
    perform_found cfg alloc stack
      (state_machine_action (in_state a.curr_state (auth_state_machine_init (replicate 9 drop)))
        (msg_type m))
      m a

-- The machine, its messages that wait, and what it has sent, the last first. `started` and
-- `overtaken` are history: the requests that were handled, and those among them that came while
-- another was under way; `lost` is history too, the timer's messages that MlmeEnqueue did not take.
pub record World : Type 0 where
  pub auth : AuthState
  pub inbox : List AuthMsg
  pub outbox : List Effect
  pub started : ℕ
  pub overtaken : ℕ
  pub lost : ℕ

abbrev pub is_waiting : AuthState → ℕ
is_waiting a = if a.curr_state == 0 then 0 else 1

abbrev pub is_request : AuthMsg → ℕ
is_request (request r) = 1
is_request (peer_even frame) = 0
is_request timed_out = 0

abbrev pub overtakes : AuthMsg → AuthState → ℕ
overtakes (request r) a = is_waiting a
overtakes (peer_even frame) a = 0
overtakes timed_out a = 0

abbrev pub handled : Config → Bool → List ℕ → AuthMsg → List AuthMsg → World → World
handled cfg alloc stack m ms w =
    let (a, sent) = auth_perform cfg alloc stack m w.auth in
    record {
      auth = a;
      inbox = ms;
      outbox = sent ++ w.outbox;
      started = w.started + is_request m;
      overtaken = w.overtaken + overtakes m w.auth;
      lost = w.lost;
    }

-- A request or a frame arrives; the timer fires, and AuthTimeout's message is queued or, where
-- MlmeEnqueue gives FALSE, lost; or the first message is handled.
pub data AuthStep (cfg : Config) (w : World) : World → Type 0 where
  asked : (r : AuthReq) → AuthStep cfg w (record w { inbox = w.inbox ++ request r ∷ [] })
  received :
      (frame : List ℕ) → AuthStep cfg w (record w { inbox = w.inbox ++ peer_even frame ∷ [] })
  fires :
      w.auth.timer ≡ true
      → AuthStep cfg w (record w { auth = auth_timeout w.auth; inbox = w.inbox ++ timed_out ∷ [] })
  loses :
      w.auth.timer ≡ true
      → AuthStep cfg w (record w { auth = auth_timeout w.auth; lost = w.lost + 1 })
  handles :
      (alloc : Bool) (stack : List ℕ) (m : AuthMsg) (ms : List AuthMsg)
      → w.inbox ≡ m ∷ ms
      → AuthStep cfg w (handled cfg alloc stack m ms w)

pub data AuthReach (cfg : Config) (w : World) : World → Type 0 where
  here : AuthReach cfg w w
  next : {v u : World} → AuthReach cfg w v → AuthStep cfg v u → AuthReach cfg w u

-- An idle machine without messages.
abbrev pub initial : AuthState → World
initial a = record {
  auth = record a { curr_state = 0; timer = false };
  inbox = [];
  outbox = [];
  started = 0;
  overtaken = 0;
  lost = 0;
}

-- Runs in which nothing arrives: the timer fires, and what waits is handled, by given results of
-- kmalloc and given contents of the challenge's array.
pub data Alone (cfg : Config) (alloc : Bool) (stack : List ℕ) : World → World → Type 0 where
  over : (w : World) → Alone cfg alloc stack w w
  timer_first :
      (w : World) {u : World}
      → w.auth.timer ≡ true
      → Alone cfg alloc stack
          (record w { auth = auth_timeout w.auth; inbox = w.inbox ++ timed_out ∷ [] })
          u
      → Alone cfg alloc stack w u
  message_first :
      (w : World) {u : World} (m : AuthMsg) (ms : List AuthMsg)
      → w.inbox ≡ m ∷ ms
      → Alone cfg alloc stack (handled cfg alloc stack m ms w) u
      → Alone cfg alloc stack w u
