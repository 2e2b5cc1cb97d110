-- ===== src/Assoc/Run/Settled.antt =====
-- How the association machine answers each message in each of its states (Module/assoc.c).
use rt.Prelude.{
  ℕ, ◌<◌, ◌≡◌, ◌∙◌, refl, sym, ap, arith, Bool, true, false, not, ◌&&◌, Option, none, some, List,
  [], ◌∷◌, ◌==◌, if◌then◌else◌, Bool-cases, inl, inr,
}
use rt.Prelude.Lists.{get_or, replicate, mem_eq}
use rt.Mlme.Machine.{Action, drop}
use rt.Mlme.Machine.Tables.Assoc.{assoc_answer, assoc_dispatch}
use rt.Frames.AssocRsp.{AssocRsp, peer_assoc_rsp_sanity}
use rt.Frames.Requests.{peer_disassoc_sanity}
use rt.Auth.Frame.{mgt_mac_header_init, make_outgoing_frame}
use rt.Assoc.Request.{AssocConfig, AssocReq, assoc_request_frame, reassoc_request_frame}
use rt.Assoc.State.{
  AssocState, AssocEffect, assoc_conf, reassoc_conf, disassoc_conf, transmit, link_down,
  AssocResult, run_assoc_timeout_action, run_reassoc_timeout_action, run_disassoc_timeout_action,
  run_invalid_state_when_assoc, run_invalid_state_when_reassoc, run_invalid_state_when_disassociate,
}
use rt.Assoc.{
  disassoc_frame, checked_assoc_rsp, checked_reassoc_rsp, checked_disassoc,
  run_mlme_assoc_req_action, run_mlme_reassoc_req_action, run_mlme_disassoc_req_action,
  run_peer_assoc_rsp_action, run_peer_reassoc_rsp_action, run_peer_disassoc_action,
}
use rt.Assoc.Run.{
  AssocMsg, assoc_req, reassoc_req, disassoc_req, peer_disassoc, peer_assoc, peer_reassoc,
  disassoc_timed_out, assoc_timed_out, reassoc_timed_out, assoc_msg_type, Meets, assoc_act,
  assoc_found, assoc_perform,
}

-- The state that a request leads to; the kind of an effect, by the state that it ends.
abbrev pub asks : AssocMsg → ℕ
asks (assoc_req r) = 1
asks (reassoc_req r) = 2
asks (disassoc_req addr reason) = 3
asks (peer_disassoc frame) = 0
asks (peer_assoc frame len) = 0
asks (peer_reassoc frame len) = 0
asks disassoc_timed_out = 0
asks assoc_timed_out = 0
asks reassoc_timed_out = 0

abbrev pub conf_kind : AssocEffect → ℕ
conf_kind (assoc_conf n) = 1
conf_kind (reassoc_conf n) = 2
conf_kind (disassoc_conf n) = 3
conf_kind (transmit frame) = 4
conf_kind link_down = 5

-- The wait that a message says is over.
abbrev pub times_out : AssocMsg → ℕ
times_out (assoc_req r) = 0
times_out (reassoc_req r) = 0
times_out (disassoc_req addr reason) = 0
times_out (peer_disassoc frame) = 0
times_out (peer_assoc frame len) = 0
times_out (peer_reassoc frame len) = 0
times_out disassoc_timed_out = 3
times_out assoc_timed_out = 1
times_out reassoc_timed_out = 2

-- The timer of the state.
abbrev pub timer_of : AssocState → Bool
timer_of a =
    if a.machine_state == 1
    then a.assoc_timer
    else if a.machine_state == 2
    then a.reassoc_timer
    else if a.machine_state == 3
    then a.disassoc_timer
    else false

-- Whether a response comes from the access point that was asked, and a disassociation from the one
-- that is joined; the status that a response gives.
abbrev pub is_from : List ℕ → Option AssocRsp → Bool
is_from bssid none = false
is_from bssid (some r) = mem_eq r.addr2 bssid 6

abbrev pub leaves_joined : AssocConfig → Option (List ℕ × ℕ) → Bool
leaves_joined cfg none = false
leaves_joined cfg (some (addr2, reason)) = cfg.infra_on && mem_eq cfg.joined_bssid addr2 6

abbrev pub status_in : Option AssocRsp → ℕ
status_in none = 0
status_in (some r) = r.status

-- Whether the machine has to do something: for every request, for a response to what it waits for
-- that is in order and from the access point that was asked, for a disassociation from the joined
-- access point, and for the end of the wait.
abbrev pub is_addressed : AssocConfig → Meets → AssocState → AssocMsg → Bool
is_addressed cfg e a (assoc_req r) = true
is_addressed cfg e a (reassoc_req r) = true
is_addressed cfg e a (disassoc_req addr reason) = true
is_addressed cfg e a (peer_disassoc frame) = leaves_joined cfg (peer_disassoc_sanity frame)
is_addressed cfg e a (peer_assoc frame len) =
    (a.machine_state == 1) && is_from a.aux.aux_bssid (peer_assoc_rsp_sanity frame len e.variables)
is_addressed cfg e a (peer_reassoc frame len) =
    (a.machine_state == 2) && is_from a.aux.aux_bssid (peer_assoc_rsp_sanity frame len e.variables)
is_addressed cfg e a disassoc_timed_out = a.machine_state == 3
is_addressed cfg e a assoc_timed_out = a.machine_state == 1
is_addressed cfg e a reassoc_timed_out = a.machine_state == 2

-- Whether a request is taken up: by an idle machine that is not blocked and gets memory.
abbrev pub is_taken_up : AssocConfig → Meets → AssocState → AssocMsg → Bool
is_taken_up cfg e a (assoc_req r) = (a.machine_state == 0) && (not cfg.blocked && e.has_memory)
is_taken_up cfg e a (reassoc_req r) = (a.machine_state == 0) && (not cfg.blocked && e.has_memory)
is_taken_up cfg e a (disassoc_req addr reason) = (a.machine_state == 0) && e.has_memory
is_taken_up cfg e a (peer_disassoc frame) = false
is_taken_up cfg e a (peer_assoc frame len) = false
is_taken_up cfg e a (peer_reassoc frame len) = false
is_taken_up cfg e a disassoc_timed_out = false
is_taken_up cfg e a assoc_timed_out = false
is_taken_up cfg e a reassoc_timed_out = false

-- The effect of a message that ends at the idle machine: status 83 for a request of a busy or
-- blocked machine and 82 for one without memory, a response's own, 16 for an association that timed
-- out, 0 for a disassociation that did.
abbrev pub outcome : AssocConfig → Meets → AssocState → AssocMsg → AssocEffect
outcome cfg e a (assoc_req r) =
    assoc_conf (if (a.machine_state == 0) && not cfg.blocked then 82 else 83)
outcome cfg e a (reassoc_req r) =
    reassoc_conf (if (a.machine_state == 0) && not cfg.blocked then 82 else 83)
outcome cfg e a (disassoc_req addr reason) = disassoc_conf (if a.machine_state == 0 then 82 else 83)
outcome cfg e a (peer_disassoc frame) = link_down
outcome cfg e a (peer_assoc frame len) =
    assoc_conf (status_in (peer_assoc_rsp_sanity frame len e.variables))
outcome cfg e a (peer_reassoc frame len) =
    reassoc_conf (status_in (peer_assoc_rsp_sanity frame len e.variables))
outcome cfg e a disassoc_timed_out = disassoc_conf 0
outcome cfg e a assoc_timed_out = assoc_conf 16
outcome cfg e a reassoc_timed_out = reassoc_conf 16

-- The first byte of the frame that a request becomes: an association, reassociation or disassociation
-- frame.
abbrev pub frame_kind : AssocMsg → ℕ
frame_kind (assoc_req r) = 0
frame_kind (reassoc_req r) = 32
frame_kind (disassoc_req addr reason) = 160
frame_kind (peer_disassoc frame) = 0
frame_kind (peer_assoc frame len) = 0
frame_kind (peer_reassoc frame len) = 0
frame_kind disassoc_timed_out = 0
frame_kind assoc_timed_out = 0
frame_kind reassoc_timed_out = 0

-- What a message comes to: it is ignored, if the machine has nothing to do for it; or it is taken
-- up, with one frame of its kind and the wait's timer; or the machine is idle with the message's outcome.
pub data Settles (cfg : AssocConfig) (e : Meets) (m : AssocMsg) (a : AssocState)
    : AssocResult → Type 0 where
  ignored : is_addressed cfg e a m ≡ false → Settles cfg e m a (a, [])
  asked :
      {b : AssocState} (frame : List ℕ)
      → is_taken_up cfg e a m ≡ true
      → b.machine_state ≡ asks m
      → timer_of b ≡ true
      → get_or frame 0 0 ≡ frame_kind m
      → Settles cfg e m a (b, transmit frame ∷ [])
  ended :
      {b : AssocState} {effect : AssocEffect}
      → is_addressed cfg e a m ≡ true
      → is_taken_up cfg e a m ≡ false
      → b.machine_state ≡ 0
      → effect ≡ outcome cfg e a m
      → Settles cfg e m a (b, effect ∷ [])

-- A test of two results.
either :
    {cfg : AssocConfig} {e : Meets} {m : AssocMsg} {a : AssocState} (b : Bool) (x y : AssocResult)
    → (b ≡ true → Settles cfg e m a x)
    → (b ≡ false → Settles cfg e m a y)
    → Settles cfg e m a (if b then x else y)
either true x y p q = p refl
either false x y p q = q refl

module _ (cfg : AssocConfig) (e : Meets) (a : AssocState) where
  assoc_req-Settles :
      (r : AssocReq)
      → (a.machine_state == 0) ≡ true
      → Settles cfg e (assoc_req r) a (run_mlme_assoc_req_action cfg e.has_memory r a)
  unfolding run_mlme_assoc_req_action assoc_request_frame mgt_mac_header_init make_outgoing_frame
  assoc_req-Settles r idle =
      either cfg.blocked _ _
        (λ h. ended refl (ground (arith, h)) refl (ap assoc_conf (ground (arith, h))))
        (λ h.
          either (not e.has_memory) _ _
            (λ k. ended refl (ground (arith, k)) refl (ap assoc_conf (ground (arith, h, idle))))
            (λ k. asked _ (ground (arith, h, idle, k)) refl refl refl))

  reassoc_req-Settles :
      (r : AssocReq)
      → (a.machine_state == 0) ≡ true
      → Settles cfg e (reassoc_req r) a (run_mlme_reassoc_req_action cfg e.has_memory r a)
  unfolding run_mlme_reassoc_req_action reassoc_request_frame mgt_mac_header_init
      make_outgoing_frame
  reassoc_req-Settles r idle =
      either cfg.blocked _ _
        (λ h. ended refl (ground (arith, h)) refl (ap reassoc_conf (ground (arith, h))))
        (λ h.
          either (not e.has_memory) _ _
            (λ k. ended refl (ground (arith, k)) refl (ap reassoc_conf (ground (arith, h, idle))))
            (λ k. asked _ (ground (arith, h, idle, k)) refl refl refl))

  disassoc_req-Settles :
      (addr : List ℕ) (reason : ℕ)
      → (a.machine_state == 0) ≡ true
      → Settles cfg e
          (disassoc_req addr reason)
          a
          (run_mlme_disassoc_req_action cfg e.has_memory addr reason a)
  unfolding run_mlme_disassoc_req_action disassoc_frame mgt_mac_header_init make_outgoing_frame
  disassoc_req-Settles addr reason idle =
      either (not e.has_memory) _ _
        (λ k. ended refl (ground (arith, k)) refl (ap disassoc_conf (ground (arith, idle))))
        (λ k. asked _ (ground (arith, idle, k)) refl refl refl)

  -- A response, by what PeerAssocRspSanity makes of it.
  peer_assoc-Settles :
      (frame : List ℕ) (len : ℕ) (o : Option AssocRsp)
      → peer_assoc_rsp_sanity frame len e.variables ≡ o
      → (a.machine_state == 1) ≡ true
      → Settles cfg e (peer_assoc frame len) a (checked_assoc_rsp cfg o a)
  unfolding checked_assoc_rsp
  peer_assoc-Settles frame len none read w =
      ignored (ground (arith, w, ap (is_from a.aux.aux_bssid) read))
  peer_assoc-Settles frame len (some r) read w =
      either (mem_eq r.addr2 a.aux.aux_bssid 6) _ _
        (λ h.
          ended (ground (arith, w, h, ap (is_from a.aux.aux_bssid) read)) refl refl
            (ap assoc_conf (sym (ap status_in read))))
        (λ h. ignored (ground (arith, w, h, ap (is_from a.aux.aux_bssid) read)))

  peer_reassoc-Settles :
      (frame : List ℕ) (len : ℕ) (o : Option AssocRsp)
      → peer_assoc_rsp_sanity frame len e.variables ≡ o
      → (a.machine_state == 2) ≡ true
      → Settles cfg e (peer_reassoc frame len) a (checked_reassoc_rsp cfg o a)
  unfolding checked_reassoc_rsp
  peer_reassoc-Settles frame len none read w =
      ignored (ground (arith, w, ap (is_from a.aux.aux_bssid) read))
  peer_reassoc-Settles frame len (some r) read w =
      either (mem_eq r.addr2 a.aux.aux_bssid 6) _ _
        (λ h.
          ended (ground (arith, w, h, ap (is_from a.aux.aux_bssid) read)) refl refl
            (ap reassoc_conf (sym (ap status_in read))))
        (λ h. ignored (ground (arith, w, h, ap (is_from a.aux.aux_bssid) read)))

  peer_disassoc-Settles :
      (frame : List ℕ) (o : Option (List ℕ × ℕ))
      → peer_disassoc_sanity frame ≡ o
      → Settles cfg e (peer_disassoc frame) a (checked_disassoc cfg o a)
  unfolding checked_disassoc
  peer_disassoc-Settles frame none read = ignored (ap (leaves_joined cfg) read)
  peer_disassoc-Settles frame (some (addr2, reason)) read =
      either (cfg.infra_on && mem_eq cfg.joined_bssid addr2 6) _ _
        (λ h. ended (ap (leaves_joined cfg) read ∙ h) refl refl refl)
        (λ h. ignored (ap (leaves_joined cfg) read ∙ h))

  -- The table's function, by what the table is known to hold.
  assoc_perform-answer :
      (m : AssocMsg)
      → a.machine_state < 4
      → assoc_perform cfg e m a
        ≡ assoc_act cfg e (assoc_answer a.machine_state (assoc_msg_type m)) m a
  unfolding assoc_perform assoc_found
  assoc_perform-answer m h =
      ap (λ o. assoc_found cfg e o m a)
        (assoc_dispatch (replicate 44 drop) a.machine_state (assoc_msg_type m) refl h (few m))
    where
      few : (m : AssocMsg) → assoc_msg_type m < 11
      few (assoc_req r) = omega arith
      few (reassoc_req r) = omega arith
      few (disassoc_req addr reason) = omega arith
      few (peer_disassoc frame) = omega arith
      few (peer_assoc frame len) = omega arith
      few (peer_reassoc frame len) = omega arith
      few disassoc_timed_out = omega arith
      few assoc_timed_out = omega arith
      few reassoc_timed_out = omega arith

  -- Of two functions the one that the state asks for.
  chosen :
      (m : AssocMsg) (st : ℕ) (f g : Action)
      → ((a.machine_state == st) ≡ true → Settles cfg e m a (assoc_act cfg e f m a))
      → ((a.machine_state == st) ≡ false → Settles cfg e m a (assoc_act cfg e g m a))
      → Settles cfg e m a (assoc_act cfg e (if a.machine_state == st then f else g) m a)
  chosen m st f g p q = elim (Bool-cases (a.machine_state == st)) [
    | inl same ↦ rw same (p same)
    | inr other ↦ rw other (q other)
  ]

  act-Settles :
      (m : AssocMsg)
      → Settles cfg e m a (assoc_act cfg e (assoc_answer a.machine_state (assoc_msg_type m)) m a)
  unfolding assoc_act assoc_answer run_peer_assoc_rsp_action run_peer_reassoc_rsp_action
      run_peer_disassoc_action run_assoc_timeout_action run_reassoc_timeout_action
      run_disassoc_timeout_action run_invalid_state_when_assoc run_invalid_state_when_reassoc
      run_invalid_state_when_disassociate
  act-Settles (assoc_req r) =
      chosen (assoc_req r) 0 _ _ (assoc_req-Settles r)
        (λ o. ended refl (ground (arith, o)) refl (ap assoc_conf (ground (arith, o))))
  act-Settles (reassoc_req r) =
      chosen (reassoc_req r) 0 _ _ (reassoc_req-Settles r)
        (λ o. ended refl (ground (arith, o)) refl (ap reassoc_conf (ground (arith, o))))
  act-Settles (disassoc_req addr reason) =
      chosen (disassoc_req addr reason) 0 _ _ (disassoc_req-Settles addr reason)
        (λ o. ended refl (ground (arith, o)) refl (ap disassoc_conf (ground (arith, o))))
  act-Settles (peer_disassoc frame) = peer_disassoc-Settles frame (peer_disassoc_sanity frame) refl
  act-Settles (peer_assoc frame len) =
      chosen (peer_assoc frame len) 1 _ _
        (peer_assoc-Settles frame len (peer_assoc_rsp_sanity frame len e.variables) refl)
        (λ o. ignored (ground (arith, o)))
  act-Settles (peer_reassoc frame len) =
      chosen (peer_reassoc frame len) 2 _ _
        (peer_reassoc-Settles frame len (peer_assoc_rsp_sanity frame len e.variables) refl)
        (λ o. ignored (ground (arith, o)))
  act-Settles disassoc_timed_out =
      chosen disassoc_timed_out 3 _ _ (λ w. ended w refl refl refl) ignored
  act-Settles assoc_timed_out = chosen assoc_timed_out 1 _ _ (λ w. ended w refl refl refl) ignored
  act-Settles reassoc_timed_out =
      chosen reassoc_timed_out 2 _ _ (λ w. ended w refl refl refl) ignored

  -- In each of its four states the association machine ignores a message exactly where it has
  -- nothing to do for it (a response that is not in order, not to what it waits for or not from the
  -- access point that was asked; a disassociation from another than the joined access point; the end
  -- of another wait). A request that an idle machine can take up becomes one frame of its kind and a wait with
  -- its timer set. Every other message leaves the machine idle with exactly one effect: the
  -- confirmation of its kind with the status for this case, or LinkDown for a disassociation.
  pub assoc_perform-Settles :
      (m : AssocMsg) → a.machine_state < 4 → Settles cfg e m a (assoc_perform cfg e m a)
  assoc_perform-Settles m h = rw (assoc_perform-answer m h) (act-Settles m)
