-- ===== src/Auth/Examples.antt =====
-- The authentication machine of Module/auth.c at concrete messages.
use rt.Prelude.{ℕ, zero, suc, ◌+◌, ◌<◌, ◌≡◌, refl, true, false, List, [], ◌∷◌, ◌++◌, arith}
use rt.Prelude.Lists.{drop, get_or, replicate, mem_eq}
use rt.Wep.Arcfour.{byte_at, arcfour_init}
use rt.Wep.Engine.{Engine}
use rt.Frames.Requests.{AuthReq, AuthFrame, peer_auth_sanity}
use rt.Auth.{
  Config, AuthState, Effect, conf, send, run_peer_auth_rsp_at_seq2_action, run_peer_deauth_action,
}
use rt.Auth.Run.{
  request, World, is_waiting, handled, AuthReach, here, next, asked, handles, initial, Alone,
  auth_perform,
}
use rt.Auth.Run.Invariant.{confs}
use rt.Auth.Run.Ends.{answered_once, comes_to_idle}
use rt.Auth.Challenge.{decrypted, answer_text, challenge_answered}

abbrev access_point : List ℕ
access_point = 0 ∷ 12 ∷ 67 ∷ 1 ∷ 2 ∷ 3 ∷ []

abbrev config : Config
config = record {
  current_address = 0 ∷ 12 ∷ 67 ∷ 9 ∷ 9 ∷ 9 ∷ [];
  block_assoc = false;
  default_key_id = 0;
  key = 1 ∷ 2 ∷ 3 ∷ 4 ∷ 5 ∷ [];
  key_len = 5;
}

abbrev engine : Engine
engine = record { fcs = 0; ctx = arcfour_init (1 ∷ []) 1; wepkey = replicate 16 0; shift_reg = 1 }

abbrev machine : ℕ → AuthState
machine alg = record {
  curr_state = 1;
  bssid = access_point;
  alg = alg;
  timer = true;
  auth_fail_reason = 0;
  auth_fail_sta = replicate 6 0;
  r17_lower_upper_select = false;
  engine = engine;
}

abbrev shared_key_request : AuthReq
shared_key_request = record { addr = access_point; alg = 1; timeout = 0 }

-- The world after a request has come and was handled.
abbrev asked_world : World
asked_world =
    handled config true (replicate 128 0) (request shared_key_request) []
      (record (initial (machine 0)) { inbox = request shared_key_request ∷ [] })

abbrev asked_run : AuthReach config (initial (machine 0)) asked_world
asked_run =
    next (next here (asked shared_key_request))
      (handles true (replicate 128 0) (request shared_key_request) [] refl)

waits_for_seq2 : asked_world.auth.curr_state ≡ 1
unfolding auth_perform rt.Mlme.Machine.state_machine_action rt.Auth.run_mlme_auth_req_action
waits_for_seq2 = refl

answered_once_example :
    asked_world.started
    ≡ confs asked_world.outbox + is_waiting asked_world.auth + asked_world.overtaken
answered_once_example = answered_once config (machine 0) asked_world asked_run

comes_to_idle_example :
    (u : World) × Alone config false (replicate 128 0) asked_world u × (u.auth.curr_state ≡ 0)
comes_to_idle_example =
    comes_to_idle config (machine 0) false (replicate 128 0) asked_world asked_run refl

-- A challenge of 128 bytes.
abbrev challenge_frame : List ℕ
challenge_frame =
    replicate 10 0
    ++ (access_point ++ (replicate 8 0 ++ (1 ∷ 0 ∷ 2 ∷ 0 ∷ 0 ∷ 0 ∷ 16 ∷ 128 ∷ replicate 128 77)))

abbrev challenge : AuthFrame
challenge = record {
  auth_addr = access_point;
  auth_alg = 1;
  seq = 2;
  status = 0;
  chlg_text = replicate 128 77;
}

challenge_bytes : (j : ℕ) → byte_at (replicate 128 77) j < 256
challenge_bytes j = small 128 j
  where
    small : (n j : ℕ) → get_or (replicate n 77) j 0 < 256
    small zero j = omega arith
    small (suc n) zero = omega arith
    small (suc n) (suc j) = small n j

challenge_answered_example :
    let r =
      run_peer_auth_rsp_at_seq2_action config true (replicate 128 0) challenge_frame (machine 1) in
    (sent : List ℕ) × (r.1 ≡ send sent ∷ [])
    × (r.0.curr_state ≡ 2)
    × (r.0.timer ≡ true)
    × (decrypted config (drop 24 sent) ≡ answer_text challenge)
challenge_answered_example =
    challenge_answered config (replicate 128 0) challenge_frame challenge (machine 1)
      (unfold peer_auth_sanity in refl) (unfold mem_eq in refl) refl refl
      (λ e. absurd (omega arith)) refl refl refl (omega arith) (omega arith) refl challenge_bytes

-- A deauthentication frame from the access point takes the link down, one from another does not.
ours_takes_down : run_peer_deauth_action true access_point challenge_frame ≡ true
unfolding run_peer_deauth_action mem_eq
ours_takes_down = refl
