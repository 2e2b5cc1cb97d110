-- ===== src/Auth/Run/Invariant.antt =====
-- What every run of the authentication machine (Module/auth.c) keeps: a machine that waits, where no
-- message of the timer was lost, has its timer or the timer's message to come, and every request is
-- answered once unless it is overtaken.
use rt.Prelude.{
  ℕ, suc, ◌+◌, ◌<◌, ◌≡◌, refl, ap, Bool, true, false, ◌||◌, ◌⊎◌, Option, none, some, List, [], ◌∷◌,
  ◌++◌, ◌==◌, arith, Bool-cases, inl, inr,
}
use rt.Prelude.Lists.{replicate}
use rt.Mlme.Machine.{drop}
use rt.Mlme.Machine.Tables.Auth.{auth_answer, auth_dispatch}
use rt.Frames.Requests.{mlme_auth_req_sanity, peer_auth_sanity, AuthReq, AuthFrame}
use rt.Auth.{
  Config, AuthState, Effect, conf, send, Result, run_invalid_state_when_auth,
  run_auth_timeout_action, auth_timeout, checked_request, checked_seq2, checked_seq4,
  challenge_answer, run_mlme_auth_req_action, run_peer_auth_rsp_at_seq2_action,
  run_peer_auth_rsp_at_seq4_action,
}
use rt.Auth.Run.{
  AuthMsg, request, peer_even, timed_out, msg_type, perform, perform_found, auth_perform, World,
  is_waiting, is_request, overtakes, handled, AuthStep, AuthReach, asked, received, fires, loses,
  handles, here, next, initial,
}

-- The confirmations among the effects.
abbrev pub confs : List Effect → ℕ
confs [] = 0
confs (conf status ∷ es) = suc (confs es)
confs (send frame ∷ es) = confs es

confs-append : (xs ys : List Effect) → confs (xs ++ ys) ≡ confs xs + confs ys
confs-append [] ys = omega arith
confs-append (conf status ∷ xs) ys = omega (arith, confs-append xs ys)
confs-append (send frame ∷ xs) ys = confs-append xs ys

-- Whether the timer's message is to come.
abbrev pub is_timeout : AuthMsg → Bool
is_timeout (request r) = false
is_timeout (peer_even frame) = false
is_timeout timed_out = true

abbrev pub has_timeout : List AuthMsg → Bool
has_timeout [] = false
has_timeout (m ∷ ms) = is_timeout m || has_timeout ms

has_timeout-append :
    (ms : List AuthMsg) (m : AuthMsg)
    → has_timeout (ms ++ m ∷ []) ≡ (has_timeout ms || is_timeout m)
has_timeout-append [] m = ground arith
has_timeout-append (x ∷ ms) m = ground (arith, has_timeout-append ms m)

-- What an action keeps: the states there are; a confirmation exactly when a request comes to its
-- end; and a machine that waits afterwards has its timer set, or was left as it was.
pub record IsKept (m : AuthMsg) (a : AuthState) (r : Result) : Type 0 where
  pub small : r.0.curr_state < 3
  pub answered : confs r.1 + is_waiting r.0 + overtakes m a ≡ is_waiting a + is_request m
  pub armed :
      0 < r.0.curr_state
      → (r.0.timer ≡ true) ⊎ ((r.0.timer ≡ a.timer) × (is_timeout m ≡ false) × (0 < a.curr_state))

module _ (cfg : Config) (alloc : Bool) (stack : List ℕ) (a : AuthState) where
  challenge_answer-IsKept :
      (f : AuthFrame) (frame : List ℕ) (b : AuthState)
      → 0 < a.curr_state
      → IsKept (peer_even frame) a (challenge_answer cfg f b)
  unfolding challenge_answer
  challenge_answer-IsKept f frame b w = ground arith

  checked_seq2-IsKept :
      (o : Option AuthFrame) (frame : List ℕ)
      → 0 < a.curr_state
      → a.curr_state < 3
      → IsKept (peer_even frame) a (checked_seq2 cfg alloc o a)
  unfolding checked_seq2
  checked_seq2-IsKept none frame w h = ground arith
  checked_seq2-IsKept (some f) frame w h =
      ground (arith, challenge_answer-IsKept f frame (record a { timer = false }) w)

  checked_seq4-IsKept :
      (o : Option AuthFrame) (frame : List ℕ)
      → 0 < a.curr_state
      → a.curr_state < 3
      → IsKept (peer_even frame) a (checked_seq4 o a)
  unfolding checked_seq4
  checked_seq4-IsKept none frame w h = ground arith
  checked_seq4-IsKept (some f) frame w h = ground arith

  checked_request-IsKept :
      (o : Option AuthReq) (r : AuthReq)
      → a.curr_state ≡ 0
      → IsKept (request r) a (checked_request cfg alloc o a)
  unfolding checked_request
  checked_request-IsKept none r w = ground arith
  checked_request-IsKept (some q) r w = ground arith

  request-IsKept :
      (r : AuthReq)
      → a.curr_state ≡ 0
      → IsKept (request r) a (run_mlme_auth_req_action cfg alloc r a)
  unfolding run_mlme_auth_req_action
  request-IsKept r w = ground (arith, checked_request-IsKept (mlme_auth_req_sanity r) r w)

  -- The table's function, by what the table is known to hold.
  auth_perform-answer :
      (m : AuthMsg)
      → a.curr_state < 3
      → auth_perform cfg alloc stack m a
        ≡ perform cfg alloc stack (auth_answer a.curr_state (msg_type m)) m a
  unfolding auth_perform perform_found
  auth_perform-answer m h =
      ap (λ o. perform_found cfg alloc stack o m a)
        (auth_dispatch (replicate 9 drop) a.curr_state (msg_type m) refl h (few m))
    where
      few : (m : AuthMsg) → msg_type m < 3
      few (request r) = omega arith
      few (peer_even frame) = omega arith
      few timed_out = omega arith

  perform-IsKept :
      (m : AuthMsg)
      → a.curr_state < 3
      → IsKept m a (perform cfg alloc stack (auth_answer a.curr_state (msg_type m)) m a)
  unfolding perform auth_answer
  perform-IsKept (request r) h = elim (Bool-cases (a.curr_state == 0)) [
    | inl idle ↦ rw idle (request-IsKept r (ground arith))
    | inr busy ↦ rw busy (unfold run_invalid_state_when_auth in ground arith)
  ]
  perform-IsKept (peer_even frame) h = elim (Bool-cases (a.curr_state == 0)) [
    | inl idle ↦ rw idle (ground arith)
    | inr busy ↦ elim (Bool-cases (a.curr_state == 1)) [
      | inl two ↦ rw busy (
          rw two (
            unfold run_peer_auth_rsp_at_seq2_action in
            checked_seq2-IsKept (peer_auth_sanity frame stack) frame (ground arith) h))
      | inr four ↦ rw busy (
          rw four (
            unfold run_peer_auth_rsp_at_seq4_action in
            checked_seq4-IsKept (peer_auth_sanity frame stack) frame (ground arith) h))
    ]
  ]
  perform-IsKept timed_out h = elim (Bool-cases (a.curr_state == 0)) [
    | inl idle ↦ rw idle (ground arith)
    | inr busy ↦ rw busy (unfold run_auth_timeout_action in ground arith)
  ]

  pub timed_out_idle :
      a.curr_state < 3 → (auth_perform cfg alloc stack timed_out a).0.curr_state ≡ 0
  unfolding perform auth_answer
  timed_out_idle h = rw (auth_perform-answer timed_out h) (elim (Bool-cases (a.curr_state == 0)) [
    | inl idle ↦ rw idle (ground arith)
    | inr busy ↦ rw busy (unfold run_auth_timeout_action in refl)
  ])

  pub auth_perform-IsKept :
      (m : AuthMsg) → a.curr_state < 3 → IsKept m a (auth_perform cfg alloc stack m a)
  auth_perform-IsKept m h = rw (auth_perform-answer m h) (perform-IsKept m h)

-- What holds of every world that is reached.
pub record IsSound (w : World) : Type 0 where
  pub small : w.auth.curr_state < 3
  pub answered : w.started ≡ confs w.outbox + is_waiting w.auth + w.overtaken
  pub armed :
      0 < w.auth.curr_state → w.lost ≡ 0 → (w.auth.timer ≡ true) ⊎ (has_timeout w.inbox ≡ true)

pub handled-IsSound :
    (cfg : Config) (alloc : Bool) (stack : List ℕ) (m : AuthMsg) (ms : List AuthMsg) (w : World)
    → IsSound w
    → w.inbox ≡ m ∷ ms
    → IsSound (handled cfg alloc stack m ms w)
handled-IsSound cfg alloc stack m ms w s e =
    let k = auth_perform-IsKept cfg alloc stack w.auth m s.small in
    let r = auth_perform cfg alloc stack m w.auth in
    record {
      small = k.small;
      answered = omega (arith, s.answered, k.answered, confs-append r.1 w.outbox);
      armed = λ busy none_lost. ground (arith, k.armed busy, s.armed, none_lost, ap has_timeout e);
    }

step-IsSound : (cfg : Config) (w w' : World) → IsSound w → AuthStep cfg w w' → IsSound w'
step-IsSound cfg w w' s (asked r) = ground (arith, s, has_timeout-append w.inbox (request r))
step-IsSound cfg w w' s (received frame) =
    ground (arith, s, has_timeout-append w.inbox (peer_even frame))
step-IsSound cfg w w' s (fires pending) =
    unfold auth_timeout in ground (arith, s, has_timeout-append w.inbox timed_out)
step-IsSound cfg w w' s (loses pending) = unfold auth_timeout in ground (arith, s)
step-IsSound cfg w w' s (handles alloc stack m ms e) = handled-IsSound cfg alloc stack m ms w s e

initial-IsSound : (a : AuthState) → IsSound (initial a)
initial-IsSound a = ground arith

pub reach-IsSound :
    (cfg : Config) (a : AuthState) (w : World) → AuthReach cfg (initial a) w → IsSound w
reach-IsSound cfg a w here = initial-IsSound a
reach-IsSound cfg a w (next {v} r s) = step-IsSound cfg v w (reach-IsSound cfg a v r) s
