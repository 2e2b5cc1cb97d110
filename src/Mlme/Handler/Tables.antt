-- ===== src/Mlme/Handler/Tables.antt =====
-- The messages of received frames (Module/mlme.c, MsgTypeSubst) against the tables of the machines
-- (Module/auth.c, auth_rsp.c, sync.c, assoc.c and wpa.c).
use rt.Prelude.{ℕ, ◌<◌, ◌≡◌, ◌⊎◌, inl, inr, ap, Bool, false, some, List, arith, ◌==◌, if◌then◌else◌}
use rt.Prelude.Lists.{length}
use rt.Mlme.Recv.{auth_seq, fc_sub_type, msg_type_subst, mgmt_subst, auth_subst, wpa_msg_type_subst}
use rt.Mlme.Handler.{Machines, performed, dispatch}
use rt.Mlme.Machine.{Action}
use rt.Mlme.Machine.Names.{
  max_assoc_state, max_auth_state, max_auth_rsp_state, max_sync_state, max_wpa_psk_state,
}
use rt.Mlme.Machine.Tabulate.{in_state}
use rt.Mlme.Machine.Tables.{
  assoc_state_machine_init, auth_state_machine_init, auth_rsp_state_machine_init,
  sync_state_machine_init, wpa_psk_state_machine_init,
}
use rt.Mlme.Machine.Tables.Auth.{
  auth_answer, auth_rsp_answer, wpa_psk_answer, auth_dispatch, auth_rsp_dispatch, wpa_psk_dispatch,
}
use rt.Mlme.Machine.Tables.Assoc.{assoc_answer, assoc_dispatch}
use rt.Mlme.Machine.Tables.Sync.{sync_answer, sync_dispatch}

-- The machines that the five initialisations make on the memory of the adapter, in any states.
pub machines_in : (assoc auth auth_rsp sync wpa_psk : List Action × ℕ) → Machines
machines_in assoc auth auth_rsp sync wpa_psk = record {
  assoc = in_state assoc.1 (assoc_state_machine_init assoc.0);
  auth = in_state auth.1 (auth_state_machine_init auth.0);
  auth_rsp = in_state auth_rsp.1 (auth_rsp_state_machine_init auth_rsp.0);
  sync = in_state sync.1 (sync_state_machine_init sync.0);
  wpa_psk = in_state wpa_psk.1 (wpa_psk_state_machine_init wpa_psk.0);
}

-- Memory of the right size for a table, and one of its states.
abbrev pub IsPlace : ℕ → ℕ → List Action × ℕ → Type 0
IsPlace cells states (trans, st) = (length trans ≡ cells) × (st < states)

-- The machine and a message of its own.
abbrev InTable : ℕ → ℕ → Type 0
InTable machine msg =
    ((machine ≡ 1) × (msg < 11))
    ⊎ ((machine ≡ 2) × (msg < 3))
    ⊎ ((machine ≡ 3) × (msg < 3))
    ⊎ ((machine ≡ 4) × (msg < 10))
    ⊎ ((machine ≡ 6) × (msg < 5))

auth_subst-InTable :
    (seq machine msg : ℕ) → auth_subst seq ≡ some (machine, msg) → InTable machine msg
unfolding auth_subst
auth_subst-InTable seq machine msg e = ground arith

mgmt_subst-InTable :
    (frame : List ℕ) (sub_type machine msg : ℕ)
    → mgmt_subst frame sub_type ≡ some (machine, msg)
    → InTable machine msg
unfolding mgmt_subst
mgmt_subst-InTable frame sub_type machine msg e =
    ground (arith, auth_subst-InTable (auth_seq frame) machine msg)

msg_type_subst-InTable :
    (wmm : Bool) (frame : List ℕ) (machine msg : ℕ)
    → msg_type_subst wmm frame ≡ some (machine, msg)
    → InTable machine msg
unfolding msg_type_subst wpa_msg_type_subst
msg_type_subst-InTable wmm frame machine msg e =
    ground (arith, mgmt_subst-InTable frame (fc_sub_type frame) machine msg)

-- The function that the state of the message's machine calls for.
pub answer_for : (assoc auth auth_rsp sync wpa_psk machine msg : ℕ) → Action
answer_for assoc auth auth_rsp sync wpa_psk machine msg =
    if machine == 1
    then assoc_answer assoc msg
    else if machine == 2
    then auth_answer auth msg
    else if machine == 3
    then auth_rsp_answer auth_rsp msg
    else if machine == 4
    then sync_answer sync msg
    else wpa_psk_answer wpa_psk msg

module _ (assoc auth auth_rsp sync wpa_psk : List Action × ℕ)
    (p1 : IsPlace 44 max_assoc_state assoc) (p2 : IsPlace 9 max_auth_state auth)
    (p3 : IsPlace 6 max_auth_rsp_state auth_rsp) (p4 : IsPlace 30 max_sync_state sync)
    (p5 : IsPlace 5 max_wpa_psk_state wpa_psk) where
  InTable-dispatch :
      (machine msg : ℕ)
      → InTable machine msg
      → dispatch false (machines_in assoc auth auth_rsp sync wpa_psk) machine msg
        ≡ performed (some (answer_for assoc.1 auth.1 auth_rsp.1 sync.1 wpa_psk.1 machine msg))
  unfolding dispatch machines_in answer_for
  InTable-dispatch machine msg (inl (e, h)) =
      rw e (ap performed (assoc_dispatch assoc.0 assoc.1 msg p1.0 p1.1 h))
  InTable-dispatch machine msg (inr (inl (e, h))) =
      rw e (ap performed (auth_dispatch auth.0 auth.1 msg p2.0 p2.1 h))
  InTable-dispatch machine msg (inr (inr (inl (e, h)))) =
      rw e (ap performed (auth_rsp_dispatch auth_rsp.0 auth_rsp.1 msg p3.0 p3.1 h))
  InTable-dispatch machine msg (inr (inr (inr (inl (e, h))))) =
      rw e (ap performed (sync_dispatch sync.0 sync.1 msg p4.0 p4.1 h))
  InTable-dispatch machine msg (inr (inr (inr (inr (e, h))))) =
      rw e (ap performed (wpa_psk_dispatch wpa_psk.0 wpa_psk.1 msg p5.0 p5.1 h))

  -- Outside monitor mode, with the machines that the five initialisations make, each in any of its
  -- states: a frame that MsgTypeSubst turns into a message is dispatched by MlmeHandler to the
  -- function that the table of its machine names for that state and message; the machine is never
  -- an illegal one and the index never leaves the table.
  pub received-dispatch :
      (wmm : Bool) (frame : List ℕ) (machine msg : ℕ)
      → msg_type_subst wmm frame ≡ some (machine, msg)
      → dispatch false (machines_in assoc auth auth_rsp sync wpa_psk) machine msg
        ≡ performed (some (answer_for assoc.1 auth.1 auth_rsp.1 sync.1 wpa_psk.1 machine msg))
  received-dispatch wmm frame machine msg e =
      InTable-dispatch machine msg (msg_type_subst-InTable wmm frame machine msg e)
